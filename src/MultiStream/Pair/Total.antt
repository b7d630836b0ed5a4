-- ===== src/MultiStream/Pair/Total.antt =====
-- Sums over the queue pairs of an end.
use native.Mathlib.Decide.{dec_lt}
use network_infiniband_works.Base.{
  ℕ, zero, suc, ◌+◌, ◌<◌, ◌≤◌, ◌≡◌, ◌≢◌, ◌⊎◌, inl, inr, refl, arith, ◌==◌, if◌then◌else◌,
  Bool-cases,
}

-- `f 0 + … + f (n - 1)`
abbrev pub total : (n : ℕ) → (ℕ → ℕ) → ℕ
total zero f = 0
total (suc n) f = f n + total n f

-- One more at index `i`.
abbrev pub bump : (ℕ → ℕ) → ℕ → ℕ → ℕ
bump f i j = if i == j then f j + 1 else f j

pub bump_same : (f : ℕ → ℕ) (i : ℕ) → bump f i i ≡ f i + 1
bump_same f i = ground arith

pub bump_other : (f : ℕ → ℕ) (i j : ℕ) → i ≢ j → bump f i j ≡ f j
bump_other f i j h = elim (Bool-cases (i == j)) [
  | inl same ↦ absurd (h (ground (arith, same)))
  | inr other ↦ rw other refl
]

pub total_eq : (n : ℕ) (f g : ℕ → ℕ) → ((j : ℕ) → j < n → g j ≡ f j) → total n g ≡ total n f
total_eq zero f g h = refl
total_eq (suc n) f g h =
    let rest = total_eq n f g (λ j l. h j (omega (arith, l))) in
    let last = h n (omega arith) in omega (arith, rest, last)

pub total_one_more :
    (n i : ℕ) (f g : ℕ → ℕ)
    → i < n
    → g i ≡ f i + 1
    → ((j : ℕ) → j < n → i ≢ j → g j ≡ f j)
    → total n g ≡ total n f + 1
total_one_more zero i f g l more same = absurd (omega arith)
total_one_more (suc n) i f g l more same = elim (dec_lt i n) [
  | yes below ↦
      let rest = total_one_more n i f g below more (λ j k. same j (omega (arith, k))) in
      let last = same n (omega arith) (λ e. absurd (omega (arith, below, e))) in
      omega (arith, rest, last)
  | no above ↦
      let last : i ≡ n = omega (arith, above, l) in
      let rest =
        total_eq n f g
          (λ j k. same j (omega (arith, k)) (λ e. absurd (omega (arith, last, e, k)))) in
      let at_end : g n ≡ f n + 1 = rw last at more in omega (arith, rest, at_end)
]

pub total-le : (n : ℕ) (f g : ℕ → ℕ) → ((j : ℕ) → j < n → f j ≤ g j) → total n f ≤ total n g
total-le zero f g h = omega arith
total-le (suc n) f g h =
    let rest = total-le n f g (λ j l. h j (omega (arith, l))) in
    let last = h n (omega arith) in omega (arith, rest, last)

-- Where no `f j` is more than one above `g j`, the sum is at most `n` above.
pub total-le_each :
    (n : ℕ) (f g : ℕ → ℕ) → ((j : ℕ) → j < n → f j ≤ g j + 1) → total n f ≤ total n g + n
total-le_each zero f g h = omega arith
total-le_each (suc n) f g h =
    let rest = total-le_each n f g (λ j l. h j (omega (arith, l))) in
    let last = h n (omega arith) in omega (arith, rest, last)

-- Some index has more of `g` than of `f`, or none has.
pub search_below :
    (n : ℕ) (f g : ℕ → ℕ) → ((i : ℕ) × (i < n) × (f i < g i)) ⊎ ((j : ℕ) → j < n → g j ≤ f j)
search_below zero f g = inr (λ j l. absurd (omega arith))
search_below (suc n) f g = elim (dec_lt (f n) (g n)) [
  | yes less ↦ inl (n, omega arith, less)
  | no not_less ↦ elim (search_below n f g) [
    | inl (i, l, less) ↦ inl (i, omega (arith, l), less)
    | inr none_less ↦ inr (λ j l. elim (dec_lt j n) [
      | yes below ↦ none_less j below
      | no above ↦
          let same : n ≡ j = omega (arith, above, l) in
          let le : g n ≤ f n = omega (arith, not_less) in rw same at le
    ])
  ]
]
