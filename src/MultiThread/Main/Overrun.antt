-- ===== src/MultiThread/Main/Overrun.antt =====
-- The file at the end of `main` in multithreadIB.c.
use network_infiniband_works.Base.{
  ℕ, ◌*◌, ◌%◌, ◌≡◌, ◌≢◌, ◌⊎◌, refl, sym, ap, ◌∙◌, arith, ℤ, List, Option, none, ltb, length,
  length-replicate, replicate, Bool-cases, inl, inr, not, pos_part,
}
use network_infiniband_works.Platform.{Env, Trace, Outcome, done, fail, refuse_if, >>=-eq-done}
use network_infiniband_works.Metrics.{Double, Row, create_csv}
use network_infiniband_works.Metrics.Rows.{save_rows_kept, save_rows_overflow}
use network_infiniband_works.Metrics.Csv.{create_csv_overrun}
use network_infiniband_works.MultiThread.Launch.{rounds, arguments_ok}
use network_infiniband_works.MultiThread.Main.{run_rounds, written_csv, main}

module _ (e : Env) (d : Double) (joined : Trace → ℕ → d.D) where
  written_csv_overruns : (rows : List (Row d.D)) → written_csv e d joined rows ≡ none
  unfolding written_csv
  written_csv_overruns rows =
      let results = replicate 1000 (d.of_ℕ 0) in
      let n = length-replicate 1000 (d.of_ℕ 0) in
      elim (Bool-cases (ltb 1000 (6 * length rows))) [
        | inl over ↦
            let full = save_rows_overflow results rows (ground (arith, over, n)) in
            rw (full, written_csv) refl
        | inr fits ↦
            let (final, j, saves, same) = save_rows_kept results rows (ground (arith, fits, n)) in
            let size : length final ≡ 1000 = same ∙ n in
            let no_rows : length final % 6 ≢ 0 = omega (arith, size) in
            rw (saves, written_csv)
              (ap (create_csv final) (sym size) ∙ create_csv_overrun final no_rows)
      ]

ends_without_file :
    (e : Env) (d : Double) (joined : Trace → ℕ → d.D) (argc max_thread_num : ℕ) (port : ℤ)
    (servername : ℕ) (t u : Trace) (file : Option (List (Row d.D)))
    → main e d joined argc max_thread_num port servername t ≡ done file u
    → file ≡ none
unfolding main
ends_without_file e d joined argc max_thread_num port servername t u file h =
    let (a, v, p, q) = >>=-eq-done (refuse_if (not (arguments_ok argc port))) _ t h in
    let (rows, w, p', q') =
      >>=-eq-done (run_rounds e d joined (pos_part port) servername (rounds max_thread_num)) _ v
        q in
    let same : written_csv e d joined rows ≡ file = cc in
    sym same ∙ written_csv_overruns e d joined rows

-- For any arguments, any number of threads and any times, `main` of multithreadIB.c gives up, or a
-- store or a read goes behind the end of its array of results before the file is whole.
pub main_overruns :
    (e : Env) (d : Double) (joined : Trace → ℕ → d.D) (argc max_thread_num : ℕ) (port : ℤ)
    (servername : ℕ) (t : Trace)
    → (u : Trace) × ((main e d joined argc max_thread_num port servername t ≡ fail u)
        ⊎ (main e d joined argc max_thread_num port servername t ≡ done none u))
main_overruns e d joined argc max_thread_num port servername t =
    ending (main e d joined argc max_thread_num port servername t) refl
  where
    ending :
        (o : Outcome (Option (List (Row d.D))))
        → main e d joined argc max_thread_num port servername t ≡ o
        → (u : Trace) × ((main e d joined argc max_thread_num port servername t ≡ fail u)
            ⊎ (main e d joined argc max_thread_num port servername t ≡ done none u))
    ending (fail u) h = (u, inl h)
    ending (done file u) h =
        let lost = ends_without_file e d joined argc max_thread_num port servername t u file h in
        (u, inr (h ∙ ap (λ f. done f u) lost))
