-- ===== src/Tcp/Client/Results.antt =====
-- The lines of the CSV file of MultiThreadTcpClient.cpp, and the reads of that of
-- MultiStreamTcpClient.cpp.
use network_infiniband_works.Base.{
  ℕ, zero, suc, ◌*◌, ◌<◌, ◌≡◌, refl, sym, ap, ◌∙◌, arith, List, [], ◌∷◌, some, length, get_elem?,
  map, replicate, length-replicate, length-map,
}
use network_infiniband_works.Metrics.{Double, Row, create_csv}
use network_infiniband_works.Metrics.Rows.{save_rows_fit}
use network_infiniband_works.Metrics.Csv.{create_csv_rows}
use network_infiniband_works.MultiThread.Launch.{Round, doublings, rounds_of}
use network_infiniband_works.Tcp.Client.{
  core_rounds, result_size, tcp_row, core_results, create_result_file,
}

get_elem?-map {ℓ κ} :
    {A : Type ℓ} {B : Type κ} (f : A → B) (xs : List A) (k : ℕ) (x : A)
    → get_elem? xs k ≡ some x
    → (get_elem? (map f xs) k ≡ some (f x)) × (k < length xs)
get_elem?-map f [] k x h = absurd cc
get_elem?-map f (y ∷ ys) zero x h = (cc, omega arith)
get_elem?-map f (y ∷ ys) (suc k) x h =
    let (a, b) = get_elem?-map f ys k x h in (a, omega (arith, b))

length-core_rounds : length core_rounds ≡ 84
unfolding core_rounds rounds_of doublings
length-core_rounds = refl

result_size_lem : result_size ≡ 504
unfolding result_size
result_size_lem = refl

-- The array of MultiThreadTcpClient.cpp has exactly the room for its rounds, and line k of the file
-- that is written from it has the measures of round k, for any number of messages and any times.
pub core_results_file :
    (d : Double) (msg_num : ℕ) (times : Round → d.D) (k : ℕ) (r : Round)
    → get_elem? core_rounds k ≡ some r
    → (final : List d.D) × (rows : List (Row d.D)) × (core_results d msg_num times
        ≡ some (final, result_size))
      × (create_result_file result_size final ≡ some rows)
      × (6 * length rows ≡ result_size)
      × (get_elem? rows k ≡ some (tcp_row d msg_num r (times r)))
unfolding core_results create_result_file
core_results_file d msg_num times k r at_k =
    let f : Round → Row d.D = λ x. tcp_row d msg_num x (times x) in
    let (at_row, below_end) = get_elem?-map f core_rounds k r at_k in
    let l : length (map f core_rounds) ≡ 84 = length-map core_rounds f ∙ length-core_rounds in
    let n : length (replicate result_size (d.of_ℕ 0)) ≡ 504 =
      length-replicate result_size (d.of_ℕ 0) ∙ result_size_lem in
    let (final, saves, same, reads) =
      save_rows_fit (replicate result_size (d.of_ℕ 0)) (map f core_rounds) k (f r)
        (omega (arith, l, n)) at_row in
    let whole : length final ≡ 504 = same ∙ n in
    let (rows, writes, count, line) =
      create_csv_rows final k (omega (arith, whole))
        (omega (arith, whole, below_end, length-core_rounds)) in
    (
      final,
      rows,
      saves ∙ ap (λ i. some (final, i)) (omega (arith, l, result_size_lem)),
      ap (create_csv final) (result_size_lem ∙ sym whole) ∙ writes,
      omega (arith, count, whole, result_size_lem),
      line ∙ reads,
    )
