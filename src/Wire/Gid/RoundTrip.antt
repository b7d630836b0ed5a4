-- ===== src/Wire/Gid/RoundTrip.antt =====
-- A GID is read back from its text, and the text does not depend on the byte order of the host.
use mathlib.Core.List.{append_assoc, append-nil}
use network_infiniband_works.Base.{
  ℕ, zero, suc, ◌+◌, ◌*◌, ◌^◌, ◌<◌, List, [], ◌∷◌, ◌++◌, some, ◌≡◌, refl, ap, sym, ◌∙◌, Bool, true,
  false, arith, length, length-append,
}
use network_infiniband_works.Wire.Hex.{hex, scan_hex, until_nul}
use network_infiniband_works.Wire.Hex.Digits.{
  All, All-append, IsTextChar, hex-IsTextChar, length-hex, print_hex-eq-hex, scan_hex-hex,
  take-append, drop-append, until_nul_whole,
}
use network_infiniband_works.Wire.Gid.{
  load_u32, store_u32, htonl, print_words, scan_words, scan_word32, gid_to_wire_gid,
  wire_gid_to_gid,
}

abbrev pub IsByte : ℕ → Type 0
IsByte b = b < 256

-- The four bytes as one number, the first byte the most significant.
abbrev big : ℕ → ℕ → ℕ → ℕ → ℕ
big a b c d = d + c * 2 ^ 8 + b * 2 ^ 16 + a * 2 ^ 24

htonl-load :
    (little : Bool) (a b c d : ℕ) (p : List ℕ)
    → IsByte a
    → IsByte b
    → IsByte c
    → IsByte d
    → htonl little (load_u32 little (a ∷ b ∷ c ∷ d ∷ p)) ≡ big a b c d
htonl-load true a b c d p ha hb hc hd = omega arith
htonl-load false a b c d p ha hb hc hd = refl

store-htonl :
    (little : Bool) (a b c d : ℕ)
    → IsByte a
    → IsByte b
    → IsByte c
    → IsByte d
    → store_u32 little (htonl little (big a b c d)) ≡ a ∷ b ∷ c ∷ d ∷ []
store-htonl true a b c d ha hb hc hd = ground arith
store-htonl false a b c d ha hb hc hd = ground arith

big_lt : (a b c d : ℕ) → IsByte a → IsByte b → IsByte c → IsByte d → big a b c d < 2 ^ 32
big_lt a b c d ha hb hc hd = omega arith

abbrev AllBytes : List ℕ → Type 0
AllBytes = All IsByte

-- One word of the loop: eight digits of the number that the bytes spell, most significant first.
print_words_step :
    (little : Bool) (n a b c d : ℕ) (p : List ℕ)
    → IsByte a
    → IsByte b
    → IsByte c
    → IsByte d
    → print_words little (suc n) (a ∷ b ∷ c ∷ d ∷ p) ≡ hex 8 (big a b c d) ++ print_words little n p
unfolding print_words
print_words_step little n a b c d p ha hb hc hd =
    rw
      (
        htonl-load little a b c d p ha hb hc hd,
        print_hex-eq-hex 8 (big a b c d) (omega arith) (omega arith),
      )
      refl

scan_word32-hex : (little : Bool) (v v32 : ℕ) → v < 2 ^ 32 → scan_word32 little (hex 8 v) v32 ≡ v
unfolding scan_word32
scan_word32-hex little v v32 h = rw (scanned, scan_word32) refl
  where
    scanned : scan_hex (until_nul (hex 8 v)) ≡ some (v, [])
    scanned =
        ap scan_hex (until_nul_whole (hex 8 v) (hex-IsTextChar 8 v) ∙ sym (append-nil (hex 8 v)))
        ∙ scan_hex-hex 7 v [] (omega arith) h tt

-- Bytes that make up `n` whole words.
data Words : ℕ → List ℕ → Type 0 where
  end : Words zero []
  more :
      {n a b c d : ℕ} {p : List ℕ}
      → IsByte a
      → IsByte b
      → IsByte c
      → IsByte d
      → Words n p
      → Words (suc n) (a ∷ b ∷ c ∷ d ∷ p)

Words-of_bytes : (n : ℕ) (p : List ℕ) → length p ≡ 4 * n → AllBytes p → Words n p
Words-of_bytes zero [] l h = end
Words-of_bytes zero (a ∷ p) l h = absurd (omega arith)
Words-of_bytes (suc n) [] l h = absurd (omega arith)
Words-of_bytes (suc n) (a ∷ []) l h = absurd (omega arith)
Words-of_bytes (suc n) (a ∷ b ∷ []) l h = absurd (omega arith)
Words-of_bytes (suc n) (a ∷ b ∷ c ∷ []) l h = absurd (omega arith)
Words-of_bytes (suc n) (a ∷ b ∷ c ∷ d ∷ p) l h =
    more h.0 h.1.0 h.1.1.0 h.1.1.1.0 (Words-of_bytes n p (omega arith) h.1.1.1.1)

-- The loop of `wire_gid_to_gid` undoes the loop of `gid_to_wire_gid`, whatever follows the text
-- and whatever the byte orders of the two hosts are.
scan_words-print_words :
    (from to : Bool) (v32 : ℕ) (rest : List ℕ) {n : ℕ} {raw : List ℕ}
    → Words n raw
    → scan_words to n (print_words from n raw ++ rest) v32 ≡ raw
unfolding scan_words print_words
scan_words-print_words from to v32 rest end = refl
scan_words-print_words from to v32 rest (more {n} {a} {b} {c} {d} {p} ha hb hc hd w) =
    rw
      (
        print_words_step from n a b c d p ha hb hc hd,
        append_assoc,
        take-append 8 (hex 8 (big a b c d)) (print_words from n p ++ rest) (length-hex 8 _),
        drop-append 8 (hex 8 (big a b c d)) (print_words from n p ++ rest) (length-hex 8 _),
        scan_word32-hex to (big a b c d) v32 (big_lt a b c d ha hb hc hd),
        store-htonl to a b c d ha hb hc hd,
        scan_words-print_words from to (big a b c d) rest w,
      )
      refl

length-print_words :
    (little : Bool) {n : ℕ} {raw : List ℕ} → Words n raw → length (print_words little n raw) ≡ 8 * n
unfolding print_words
length-print_words little end = refl
length-print_words little (more {n} {a} {b} {c} {d} {p} ha hb hc hd w) =
    rw (print_words_step little n a b c d p ha hb hc hd) (
      omega (
        arith,
        length-append (hex 8 (big a b c d)) (print_words little n p),
        length-hex 8 (big a b c d),
        length-print_words little w,
      ))

print_words-IsTextChar :
    (little : Bool) {n : ℕ} {raw : List ℕ} → Words n raw → All IsTextChar (print_words little n raw)
unfolding print_words
print_words-IsTextChar little end = tt
print_words-IsTextChar little (more {n} {a} {b} {c} {d} {p} ha hb hc hd w) =
    rw (print_words_step little n a b c d p ha hb hc hd) (
      All-append IsTextChar (hex 8 (big a b c d)) (print_words little n p)
        (hex-IsTextChar 8 (big a b c d)) (print_words-IsTextChar little w))

print_words_same :
    (from to : Bool) {n : ℕ} {raw : List ℕ}
    → Words n raw
    → print_words from n raw ≡ print_words to n raw
unfolding print_words
print_words_same from to end = refl
print_words_same from to (more {n} {a} {b} {c} {d} {p} ha hb hc hd w) =
    print_words_step from n a b c d p ha hb hc hd
    ∙ ap (λ t. hex 8 (big a b c d) ++ t) (print_words_same from to w)
    ∙ sym (print_words_step to n a b c d p ha hb hc hd)

-- A GID: sixteen bytes.
pub record IsGid (gid : List ℕ) : Type 0 where
  pub size : length gid ≡ 16
  pub bytes : All IsByte gid

words : {gid : List ℕ} → IsGid gid → Words 4 gid
words {gid} g = Words-of_bytes 4 gid g.size g.bytes

-- The text of a GID has 32 characters, none of them a NUL or white space, and it is the same on a
-- little-endian and on a big-endian host.
pub gid_to_wire_gid_text :
    (little : Bool) {gid : List ℕ}
    → IsGid gid
    → (length (gid_to_wire_gid little gid) ≡ 32)
      × All IsTextChar (gid_to_wire_gid little gid)
      × (gid_to_wire_gid little gid ≡ gid_to_wire_gid true gid)
unfolding gid_to_wire_gid
gid_to_wire_gid_text little g = (
  length-print_words little (words g),
  print_words-IsTextChar little (words g),
  print_words_same little true (words g),
)

-- A GID that one host prints is read back by another, whatever the byte order of each, what the
-- local `v32` holds and what stands behind the text in the buffer.
pub wire_gid_to_gid-gid_to_wire_gid :
    (from to : Bool) (v32 : ℕ) (rest : List ℕ) {gid : List ℕ}
    → IsGid gid
    → wire_gid_to_gid to v32 (gid_to_wire_gid from gid ++ rest) ≡ gid
unfolding gid_to_wire_gid wire_gid_to_gid
wire_gid_to_gid-gid_to_wire_gid from to v32 rest g =
    scan_words-print_words from to v32 rest (words g)
