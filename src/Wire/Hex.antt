-- ===== src/Wire/Hex.antt =====
-- The hexadecimal conversions of `sprintf` and `sscanf` that the wire format is made of: "%0Nx" and
-- "%x" of a C unsigned int, and "%s".
pub mod Digits
use network_infiniband_works.Base.{
  ℕ, zero, suc, ◌+◌, ◌-◌, ◌*◌, ◌/◌, ◌%◌, ◌^◌, List, [], ◌∷◌, ◌++◌, Option, none, some, Bool, true,
  false, ◌&&◌, ◌||◌, ltb, leb, ◌==◌, if◌then◌else◌,
}

abbrev pub digit_char : ℕ → ℕ
digit_char d = if ltb d 10 then b'0' + d else b'a' + d - 10

-- The `k` low digits of `v`, the most significant first.
pub hex : ℕ → ℕ → List ℕ
hex zero v = []
hex (suc k) v = hex k (v / 16) ++ (digit_char (v % 16) ∷ [])

-- How many digits `v` has, 0 for 0.
pub width : ℕ → ℕ → ℕ
width zero v = 0
width (suc k) v = let more = suc (width k (v / 16)) in if v == 0 then 0 else more

-- "%0Nx" with N ≥ 1: at least `n` digits, and as many as the value has.
pub print_hex : ℕ → ℕ → List ℕ
print_hex n v = let w = width 8 (v % 2 ^ 32) in hex (if ltb n w then w else n) (v % 2 ^ 32)

pub hex_value : ℕ → Option ℕ
hex_value c =
    if leb b'0' c && leb c b'9'
    then some (c - b'0')
    else if leb b'a' c && leb c b'f'
    then some (c - b'a' + 10)
    else if leb b'A' c && leb c b'F'
    then some (c - b'A' + 10)
    else none

-- `isspace` in the C locale.
abbrev pub is_space : ℕ → Bool
is_space c = c == b' ' || (leb 9 c && leb c 13)

pub skip_space : List ℕ → List ℕ
skip_space [] = []
skip_space (c ∷ s) = if is_space c then skip_space s else c ∷ s

-- An optional sign, and whether it is a minus.
pub take_sign : List ℕ → Bool × List ℕ
take_sign [] = (false, [])
take_sign (c ∷ s) =
    if c == b'-' then (true, s) else if c == b'+' then (false, s) else (false, c ∷ s)

-- An optional 0x.
pub skip_prefix : List ℕ → List ℕ
skip_prefix (c ∷ d ∷ s) = if c == b'0' && (d == b'x' || d == b'X') then s else c ∷ d ∷ s
skip_prefix s = s

-- The digits read, their value, and what follows them.
pub scan_digits : List ℕ → ℕ → ℕ → ℕ × ℕ × List ℕ
scan_digits [] n v = (n, v, [])
scan_digits (c ∷ s) n v = elim (hex_value c) [
  | none ↦ (n, v, c ∷ s)
  | some d ↦ scan_digits s (suc n) (v * 16 + d)
]

-- `strtoul` into an unsigned int: 64 bits with saturation, of which the low 32 are kept.
pub to_uint : Bool → ℕ → ℕ
to_uint minus v =
    if ltb v (2 ^ 64) then (if minus then (2 ^ 64 - v) % 2 ^ 32 else v % 2 ^ 32) else 2 ^ 32 - 1

-- "%x": the value and the rest of the text, or none where no digit stands (nothing is assigned).
pub scan_hex : List ℕ → Option (ℕ × List ℕ)
scan_hex s =
    let (minus, s') = take_sign (skip_space s) in
    let (n, v, rest) = scan_digits (skip_prefix s') 0 0 in
    if n == 0 then none else some (to_uint minus v, rest)

-- The characters up to a white space, and "%s": those after white space, if there are any.
pub word : List ℕ → List ℕ
word [] = []
word (c ∷ s) = if is_space c then [] else c ∷ word s

pub scan_word : List ℕ → Option (List ℕ)
scan_word s = elim (word (skip_space s)) [ [] ↦ none | c ∷ w ↦ some (c ∷ w) ]

-- A literal character of a format.
unfoldable pub expect : ℕ → List ℕ → Option (List ℕ)
expect c [] = none
expect c (d ∷ s) = if d == c then some s else none

-- The C string that starts at a buffer's first byte.
pub until_nul : List ℕ → List ℕ
until_nul [] = []
until_nul (c ∷ s) = if c == 0 then [] else c ∷ until_nul s

-- Writing a string and its terminator over the start of a buffer.
pub skip : ℕ → List ℕ → List ℕ
skip zero s = s
skip (suc n) [] = []
skip (suc n) (c ∷ s) = skip n s

unfoldable pub put_string : List ℕ → List ℕ → List ℕ
put_string buf [] = 0 ∷ skip 1 buf
put_string buf (c ∷ text) = c ∷ put_string (skip 1 buf) text
