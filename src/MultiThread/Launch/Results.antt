-- ===== src/MultiThread/Launch/Results.antt =====
-- The rounds of the benchmark, and the array of 1000 results.
use network_infiniband_works.Base.{
  ℕ, zero, suc, ◌*◌, ◌^◌, ◌<◌, ◌≤◌, ◌≡◌, refl, ap, ◌∙◌, arith, List, [], ◌∷◌, map, Option, none,
  some, length, replicate, length-replicate, length-map, length-append, leb, Bool-cases, inl, inr,
  true,
}
use network_infiniband_works.Metrics.{Double}
use network_infiniband_works.Metrics.Rows.{save_rows_in_room, save_rows_overflow}
use network_infiniband_works.MultiThread.Launch.{
  Round, round_of, doublings, rounds_of, rounds, max_msg_size, measure, all_results,
}

pub length-rounds_of :
    (sizes counts : List ℕ) → length (rounds_of sizes counts) ≡ length sizes * length counts
unfolding rounds_of
length-rounds_of [] counts = omega arith
length-rounds_of (v ∷ sizes) counts =
    let ih = length-rounds_of sizes counts in
    let a = length-append (map (round_of v) counts) (rounds_of sizes counts) in
    let m = length-map counts (round_of v) in grind (arith, ih, a, m)

pub length-sizes : length (doublings 31 1 max_msg_size) ≡ 21
unfolding doublings
length-sizes = refl

length-doublings-le :
    (fuel k first last : ℕ) → last < first * 2 ^ k → length (doublings fuel first last) ≤ k
unfolding doublings
length-doublings-le zero k first last h = omega arith
length-doublings-le (suc fuel) k first last h = elim (Bool-cases (leb first last)) [
  | inr over ↦ rw (over, doublings) (omega arith)
  | inl again ↦
      elim k as (λ k'. last < first * 2 ^ k' → length (doublings (suc fuel) first last) ≤ k') [
        | zero ↦ λ b. absurd (ground (arith, again))
        | suc k' ↦ λ b.
            let ih = length-doublings-le fuel k' (first * 2) last (grind arith) in
            rw (again, doublings) (omega (arith, ih))
      ]
        h
]

length-doublings_step :
    (fuel first last : ℕ)
    → first ≤ last
    → length (doublings (suc fuel) first last) ≡ suc (length (doublings fuel (first * 2) last))
unfolding doublings
length-doublings_step fuel first last h =
    let again : leb first last ≡ true = ground arith in rw (again, doublings) refl

length-doublings-gt : (last : ℕ) → 128 ≤ last → 7 < length (doublings 31 1 last)
length-doublings-gt last h =
    let s1 = length-doublings_step 30 1 last (omega arith) in
    let s2 = length-doublings_step 29 2 last (omega arith) in
    let s3 = length-doublings_step 28 4 last (omega arith) in
    let s4 = length-doublings_step 27 8 last (omega arith) in
    let s5 = length-doublings_step 26 16 last (omega arith) in
    let s6 = length-doublings_step 25 32 last (omega arith) in
    let s7 = length-doublings_step 24 64 last (omega arith) in
    let s8 = length-doublings_step 23 128 last (omega arith) in
    omega (arith, s1, s2, s3, s4, s5, s6, s7, s8)

module _ (d : Double) where
  open d use {D, of_ℕ}

  -- As long as `main` of multithreadIB.c is asked for fewer than 128 threads, the results of all its
  -- rounds fit into the array of 1000 results, whatever the threads return.
  all_results_fit :
      (times : Round → List (Option D)) (max_thread_num : ℕ)
      → max_thread_num < 128
      → (final : List D) × (all_results d times max_thread_num
          ≡ some (final, 6 * (21 * length (doublings 31 1 max_thread_num))))
  unfolding all_results rounds
  all_results_fit times m h =
      let counts = doublings 31 1 m in
      let few = length-doublings-le 31 7 1 m (omega arith) in
      let l = length-rounds_of (doublings 31 1 max_msg_size) counts in
      let rows = map (λ r. measure d r (times r)) (rounds m) in
      let lr : length rows ≡ 21 * length counts =
        length-map (rounds m) (λ r. measure d r (times r))
        ∙ l
        ∙ ap (λ n. n * length counts) length-sizes in
      let n = length-replicate 1000 (of_ℕ 0) in
      let (final, p) =
        save_rows_in_room (replicate 1000 (of_ℕ 0)) rows (omega (arith, n, lr, few)) in
      (final, p ∙ ap (λ q. some (final, 6 * q)) lr)

  -- Asked for 128 threads or more, `main` of multithreadIB.c stores behind the end of the array.
  all_results_overflow :
      (times : Round → List (Option D)) (max_thread_num : ℕ)
      → 128 ≤ max_thread_num
      → all_results d times max_thread_num ≡ none
  unfolding all_results rounds
  all_results_overflow times m h =
      let counts = doublings 31 1 m in
      let many = length-doublings-gt m h in
      let l = length-rounds_of (doublings 31 1 max_msg_size) counts in
      let rows = map (λ r. measure d r (times r)) (rounds m) in
      let lr : length rows ≡ 21 * length counts =
        length-map (rounds m) (λ r. measure d r (times r))
        ∙ l
        ∙ ap (λ n. n * length counts) length-sizes in
      let n = length-replicate 1000 (of_ℕ 0) in
      save_rows_overflow (replicate 1000 (of_ℕ 0)) rows (omega (arith, n, lr, many))
