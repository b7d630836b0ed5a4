-- ===== src/MultiStream/Run/Results.antt =====
-- The rounds of multistreamTestRunner.c, and its array of 3000 results.
use network_infiniband_works.Base.{
  ℕ, zero, suc, ◌+◌, ◌*◌, ◌≤◌, ◌≡◌, ap, ◌∙◌, arith, List, map, none, some, length, replicate,
  length-replicate, length-map,
}
use network_infiniband_works.Metrics.{Double}
use network_infiniband_works.Metrics.Rows.{save_rows_in_room, save_rows_overflow}
use network_infiniband_works.MultiThread.Launch.{Round, doublings, max_msg_size}
use network_infiniband_works.MultiThread.Launch.Results.{length-rounds_of, length-sizes}
use network_infiniband_works.MultiStream.Run.{counting, stream_rounds, stream_row, stream_results}

pub length-counting : (n first : ℕ) → length (counting n first) ≡ n
unfolding counting
length-counting zero first = omega arith
length-counting (suc n) first = ap suc (length-counting n (first + 1))

length-stream_rounds : (n : ℕ) → length (stream_rounds n) ≡ 21 * n
unfolding stream_rounds
length-stream_rounds n =
    length-rounds_of (doublings 31 1 max_msg_size) (counting n 1)
    ∙ ap (λ a. a * length (counting n 1)) length-sizes
    ∙ ap (λ a. 21 * a) (length-counting n 1)

module _ (d : Double) where
  open d use {D, of_ℕ}

  length-stream_rows :
      (times : Round → D) (n : ℕ)
      → length (map (λ r. stream_row d r (times r)) (stream_rounds n)) ≡ 21 * n
  length-stream_rows times n =
      length-map (stream_rounds n) (λ r. stream_row d r (times r)) ∙ length-stream_rounds n

  -- With at most 23 queue pairs, the results of all rounds of multistreamTestRunner.c fit into its
  -- array of 3000 results, whatever the threads return.
  pub stream_results_fit :
      (times : Round → D) (peer_num : ℕ)
      → peer_num ≤ 23
      → (final : List D) × (stream_results d times peer_num ≡ some (final, 6 * (21 * peer_num)))
  unfolding stream_results
  stream_results_fit times peer_num h =
      let l = length-stream_rows times peer_num in
      let n = length-replicate 3000 (of_ℕ 0) in
      let (final, p) =
        save_rows_in_room (replicate 3000 (of_ℕ 0))
          (map (λ r. stream_row d r (times r)) (stream_rounds peer_num)) (omega (arith, n, l)) in
      (final, p ∙ ap (λ q. some (final, 6 * q)) l)

  -- With 24 queue pairs or more, multistreamTestRunner.c stores behind the end of the array.
  stream_results_overflow :
      (times : Round → D) (peer_num : ℕ) → 24 ≤ peer_num → stream_results d times peer_num ≡ none
  unfolding stream_results
  stream_results_overflow times peer_num h =
      let l = length-stream_rows times peer_num in
      let n = length-replicate 3000 (of_ℕ 0) in
      save_rows_overflow (replicate 3000 (of_ℕ 0))
        (map (λ r. stream_row d r (times r)) (stream_rounds peer_num)) (omega (arith, n, l))
