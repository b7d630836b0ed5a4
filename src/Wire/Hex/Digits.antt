-- ===== src/Wire/Hex/Digits.antt =====
-- The hexadecimal prints are read back: what "%0Nx" writes, "%x" reads.
use network_infiniband_works.Base.{
  ℕ, zero, suc, ◌+◌, ◌*◌, ◌/◌, ◌%◌, ◌^◌, ◌<◌, ◌≤◌, List, [], ◌∷◌, ◌++◌, none, some, ◌≡◌, ◌≢◌, ◌⊎◌,
  refl, ap, ◌∙◌, false, arith, length, length-append, take, drop,
}
use mathlib.Core.List.{append_assoc}
use network_infiniband_works.Wire.Hex.{
  digit_char, hex, width, print_hex, hex_value, scan_digits, scan_hex, skip_space, take_sign,
  skip_prefix, to_uint, word, scan_word, until_nul,
}

-- A character that `digit_char` writes.
pub record IsHexChar (c : ℕ) : Type 0 where
  pub low : b'0' ≤ c
  pub high : c ≤ b'f'
  pub gap : (c ≤ b'9') ⊎ (b'a' ≤ c)

pub digit_char-IsHexChar : (d : ℕ) → d < 16 → IsHexChar (digit_char d)
digit_char-IsHexChar d h = ground arith

pub hex_value-digit_char : (d : ℕ) → d < 16 → hex_value (digit_char d) ≡ some d
unfolding hex_value
hex_value-digit_char d h = ground arith

pub length-hex : (k v : ℕ) → length (hex k v) ≡ k
unfolding hex
length-hex zero v = refl
length-hex (suc k) v =
    omega (arith, length-append (hex k (v / 16)) (digit_char (v % 16) ∷ []), length-hex k (v / 16))

abbrev pub pow16 : ℕ → ℕ
pow16 zero = 1
pow16 (suc n) = 16 * pow16 n

width_le : (k n v : ℕ) → v < pow16 n → width k v ≤ n
unfolding width
width_le zero n v h = omega arith
width_le (suc k) zero v h = ground arith
width_le (suc k) (suc n) v h = ground (arith, width_le k n (v / 16))

-- A value of at most `n` digits is printed with exactly `n`.
pub print_hex-eq-hex : (n v : ℕ) → v < pow16 n → v < 2 ^ 32 → print_hex n v ≡ hex n v
unfolding print_hex
print_hex-eq-hex n v h w =
    let e : v % 2 ^ 32 ≡ v = omega arith in rw e (ground (arith, width_le 8 n v h))

-- A text at which `scan_digits` stops: it is empty, or begins with no digit.
abbrev pub Stops : List ℕ → Type 0
Stops [] = Unit
Stops (c ∷ s) = hex_value c ≡ none

scan_digits-stop : (s : List ℕ) (n v : ℕ) → Stops s → scan_digits s n v ≡ (n, v, s)
unfolding scan_digits
scan_digits-stop [] n v h = refl
scan_digits-stop (c ∷ s) n v h = rw (h, scan_digits) refl

scan_digits-cons :
    (c d : ℕ) (s : List ℕ) (n v : ℕ)
    → hex_value c ≡ some d
    → scan_digits (c ∷ s) n v ≡ scan_digits s (suc n) (v * 16 + d)
unfolding scan_digits
scan_digits-cons c d s n v h = rw (h, scan_digits) refl

-- `scan_digits` runs through the digits of a value and goes on behind them.
scan_digits-hex :
    (k v : ℕ) (rest : List ℕ)
    → v < pow16 k
    → scan_digits (hex k v ++ rest) 0 0 ≡ scan_digits rest k v
unfolding hex
scan_digits-hex zero v rest h = ap (scan_digits rest 0) (omega arith)
scan_digits-hex (suc k) v rest h = rw append_assoc (
    scan_digits-hex k (v / 16) (digit_char (v % 16) ∷ rest) (omega arith)
    ∙ scan_digits-cons (digit_char (v % 16)) (v % 16) rest k (v / 16)
        (hex_value-digit_char (v % 16) (omega arith))
    ∙ ap (scan_digits rest (suc k)) (omega arith))

-- The characters of a text that `hex` writes are digits.
abbrev pub All {ℓ κ} : {A : Type ℓ} → (A → Type κ) → List A → Type κ
All P [] = Unit
All P (x ∷ xs) = P x × All P xs

pub All-append {ℓ κ} :
    {A : Type ℓ} (P : A → Type κ) (xs ys : List A) → All P xs → All P ys → All P (xs ++ ys)
All-append P [] ys hx hy = hy
All-append P (x ∷ xs) ys hx hy = (hx.0, All-append P xs ys hx.1 hy)

pub hex-IsHexChar : (k v : ℕ) → All IsHexChar (hex k v)
unfolding hex
hex-IsHexChar zero v = tt
hex-IsHexChar (suc k) v =
    All-append IsHexChar (hex k (v / 16)) (digit_char (v % 16) ∷ []) (hex-IsHexChar k (v / 16))
      (digit_char-IsHexChar (v % 16) (omega arith), tt)

-- Neither white space, a sign nor a prefix stands before digits.
abbrev Head : List ℕ → Type 0
Head [] = Unit
Head (c ∷ []) = IsHexChar c
Head (c ∷ d ∷ s) = IsHexChar c × (d ≢ b'x') × (d ≢ b'X')

skip_space-Head : (s : List ℕ) → Head s → skip_space s ≡ s
unfolding skip_space
skip_space-Head [] h = refl
skip_space-Head (c ∷ []) h = ground arith
skip_space-Head (c ∷ d ∷ s) h = ground arith

take_sign-Head : (s : List ℕ) → Head s → take_sign s ≡ (false, s)
unfolding take_sign
take_sign-Head [] h = refl
take_sign-Head (c ∷ []) h = ground arith
take_sign-Head (c ∷ d ∷ s) h = ground arith

skip_prefix-Head : (s : List ℕ) → Head s → skip_prefix s ≡ s
unfolding skip_prefix
skip_prefix-Head [] h = refl
skip_prefix-Head (c ∷ []) h = refl
skip_prefix-Head (c ∷ d ∷ s) h = ground arith

-- What follows the digits of a field: nothing, or the colon.
abbrev pub Follows : List ℕ → Type 0
Follows [] = Unit
Follows (c ∷ s) = c ≡ b':'

Follows-Stops : (s : List ℕ) → Follows s → Stops s
unfolding hex_value
Follows-Stops [] h = tt
Follows-Stops (c ∷ s) h = ground arith

Head-append :
    (xs rest : List ℕ) → All IsHexChar xs → Follows rest → 0 < length xs → Head (xs ++ rest)
Head-append [] rest hx hr h = elim h [ ]
Head-append (c ∷ []) [] hx hr h = hx.0
Head-append (c ∷ []) (d ∷ rest) hx hr h = (hx.0, omega arith, omega arith)
Head-append (c ∷ d ∷ xs) rest hx hr h = (hx.0, omega arith, omega arith)

-- "%x" reads the digits of a 32-bit value back, up to a colon or the end of the text.
pub scan_hex-hex :
    (k v : ℕ) (rest : List ℕ)
    → v < pow16 (suc k)
    → v < 2 ^ 32
    → Follows rest
    → scan_hex (hex (suc k) v ++ rest) ≡ some (v, rest)
unfolding scan_hex to_uint
scan_hex-hex k v rest h w f =
    rw
      (
        skip_space-Head s head,
        take_sign-Head s head,
        skip_prefix-Head s head,
        scan_digits-hex (suc k) v rest h,
        scan_digits-stop rest (suc k) v (Follows-Stops rest f),
      )
      (ground arith)
  where
    s : List ℕ
    s = hex (suc k) v ++ rest

    head : Head s
    head =
        Head-append (hex (suc k) v) rest (hex-IsHexChar (suc k) v) f
          (omega (arith, length-hex (suc k) v))

-- Taking apart a text of known length.
pub take-append {ℓ} : {A : Type ℓ} (n : ℕ) (xs ys : List A) → length xs ≡ n → take n (xs ++ ys) ≡ xs
take-append zero [] ys h = refl
take-append zero (x ∷ xs) ys h = absurd (omega arith)
take-append (suc n) [] ys h = absurd (omega arith)
take-append (suc n) (x ∷ xs) ys h = ap (λ l. x ∷ l) (take-append n xs ys (omega arith))

pub drop-append {ℓ} : {A : Type ℓ} (n : ℕ) (xs ys : List A) → length xs ≡ n → drop n (xs ++ ys) ≡ ys
drop-append zero [] ys h = refl
drop-append zero (x ∷ xs) ys h = absurd (omega arith)
drop-append (suc n) [] ys h = absurd (omega arith)
drop-append (suc n) (x ∷ xs) ys h = drop-append n xs ys (omega arith)

-- No NUL and no white space stands among digits, or in front of a colon.
abbrev pub IsTextChar : ℕ → Type 0
IsTextChar c = (b'0' ≤ c) × (c ≤ b'f')

pub hex-IsTextChar : (k v : ℕ) → All IsTextChar (hex k v)
hex-IsTextChar k v = weaken (hex k v) (hex-IsHexChar k v)
  where
    weaken : (s : List ℕ) → All IsHexChar s → All IsTextChar s
    weaken [] h = tt
    weaken (c ∷ s) h = ((h.0.low, h.0.high), weaken s h.1)

pub until_nul-IsTextChar : (s tail : List ℕ) → All IsTextChar s → until_nul (s ++ (0 ∷ tail)) ≡ s
unfolding until_nul
until_nul-IsTextChar [] tail h = refl
until_nul-IsTextChar (c ∷ s) tail h = ground (arith, until_nul-IsTextChar s tail h.1)

pub until_nul_whole : (s : List ℕ) → All IsTextChar s → until_nul s ≡ s
unfolding until_nul
until_nul_whole [] h = refl
until_nul_whole (c ∷ s) h = ground (arith, until_nul_whole s h.1)

word-IsTextChar : (s : List ℕ) → All IsTextChar s → word s ≡ s
unfolding word
word-IsTextChar [] h = refl
word-IsTextChar (c ∷ s) h = ground (arith, word-IsTextChar s h.1)

-- "%s" takes a whole text of such characters.
pub scan_word-IsTextChar : (s : List ℕ) → All IsTextChar s → 0 < length s → scan_word s ≡ some s
unfolding scan_word skip_space
scan_word-IsTextChar [] h l = elim l [ ]
scan_word-IsTextChar (c ∷ s) h l = ground (arith, word-IsTextChar (c ∷ s) h)
