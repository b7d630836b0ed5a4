-- ===== src/MultiThread/Launch/Split.antt =====
-- The sizes of the messages that one size is split into.
use network_infiniband_works.Base.{
  ℕ, zero, suc, ◌+◌, ◌-◌, ◌*◌, ◌/◌, ◌%◌, ◌≤◌, ◌≡◌, refl, arith, List, [], ◌∷◌, length, replicate,
  length-replicate,
}
use network_infiniband_works.MultiThread.Launch.{size_per_peer}

abbrev pub sum : List ℕ → ℕ
sum [] = 0
sum (x ∷ xs) = x + sum xs

sum-replicate : (n a : ℕ) → sum (replicate n a) ≡ a * n
sum-replicate zero a = omega arith
sum-replicate (suc n) a = let ih = sum-replicate n a in grind (arith, ih)

mul_pred-le : (r n size : ℕ) → 1 ≤ n → size / n ≡ r → r * (n - 1) ≤ size
mul_pred-le r zero size h e = absurd (omega arith)
mul_pred-le r (suc n) size h e =
    let whole : size / suc n * suc n + size % suc n ≡ size = omega arith in
    let more : r * suc n ≡ r * n + r = grind arith in grind (arith, whole, more, e)

-- The sizes of the messages of `n` threads, for one thread at least, are `n` sizes, and add up to
-- the whole message size.
sum-size_per_peer :
    (varsize n : ℕ)
    → 1 ≤ n
    → (length (size_per_peer varsize n) ≡ n) × (sum (size_per_peer varsize n) ≡ varsize)
unfolding size_per_peer
sum-size_per_peer varsize n h =
    let l = length-replicate (n - 1) (varsize / n) in
    let s = sum-replicate (n - 1) (varsize / n) in
    let b = mul_pred-le (varsize / n) n varsize h refl in (omega (arith, l), omega (arith, s, b))
