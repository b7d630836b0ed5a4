-- ===== src/MultiStream/Main/File.antt =====
-- The file at the end of `main` in multistreamTestRunner.c.
use network_infiniband_works.Base.{
  ℕ, suc, ◌*◌, ◌≤◌, ◌≡◌, ◌⊎◌, refl, sym, ap, ◌∙◌, arith, ℤ, List, [], ◌∷◌, ◌++◌, Option, none, some,
  length, length-append, length-replicate, replicate, inl, inr, not, pos_part,
}
use network_infiniband_works.Platform.{
  Env, Trace, M, Outcome, done, fail, refuse_if, ◌>>=◌, ret, >>=-eq-done,
}
use network_infiniband_works.Platform.Gives.{Gives, Gives-ret, Gives-bind, Gives-after}
use network_infiniband_works.Metrics.{Double, Row, create_csv}
use network_infiniband_works.Metrics.Rows.{save_rows_kept}
use network_infiniband_works.Metrics.Csv.{create_csv_rows}
use network_infiniband_works.MultiThread.Launch.{doublings, max_msg_size}
use network_infiniband_works.MultiThread.Launch.Results.{length-sizes}
use network_infiniband_works.MultiStream.Run.{counting, stream_arguments_ok}
use network_infiniband_works.MultiStream.Run.Results.{length-counting}
use network_infiniband_works.MultiStream.Main.{
  queue_round, run_counts, run_sizes, stream_csv, stream_main,
}

module _ (e : Env) (d : Double) (joined : Trace → ℕ → d.D) where
  run_counts-le :
      (port servername varsize : ℕ) (counts : List ℕ)
      → Gives
          (run_counts e d joined port servername varsize counts)
          (λ rows. length rows ≤ length counts)
  unfolding run_counts
  run_counts-le port servername varsize [] = Gives-ret [] (omega arith)
  run_counts-le port servername varsize (n ∷ ns) =
      Gives-after (queue_round e d joined port servername varsize n) _
        (next (run_counts-le port servername varsize ns))
    where
      next :
          Gives (run_counts e d joined port servername varsize ns) (λ rows. length rows ≤ length ns)
          → (got : Option (Row d.D))
          → Gives
              (elim got as (λ _. M (List (Row d.D))) [
                | none ↦ ret []
                | some row ↦
                    run_counts e d joined port servername varsize ns >>= λ rows. ret (row ∷ rows)
              ])
              (λ rows. length rows ≤ suc (length ns))
      next ih none = Gives-ret [] (omega arith)
      next ih (some row) =
          Gives-bind (run_counts e d joined port servername varsize ns) _ ih
            λ rows le. Gives-ret (row ∷ rows) (omega (arith, le))

  run_sizes-le :
      (port servername peer_num : ℕ) (sizes : List ℕ)
      → Gives
          (run_sizes e d joined port servername peer_num sizes)
          (λ rows. length rows ≤ length sizes * peer_num)
  unfolding run_sizes
  run_sizes-le port servername peer_num [] = Gives-ret [] (omega arith)
  run_sizes-le port servername peer_num (varsize ∷ sizes) =
      let n = length-counting peer_num 1 in
      Gives-bind (run_counts e d joined port servername varsize (counting peer_num 1)) _
        (run_counts-le port servername varsize (counting peer_num 1))
        λ rows le.
          Gives-bind (run_sizes e d joined port servername peer_num sizes) _
            (run_sizes-le port servername peer_num sizes)
            λ rest more.
              Gives-ret (rows ++ rest)
                (let l = length-append rows rest in grind (arith, l, le, more, n))

  stream_csv_whole :
      (rows : List (Row d.D))
      → length rows ≤ 500
      → (lines : List (Row d.D)) × (stream_csv e d joined rows ≡ some lines) × (length lines ≡ 500)
  unfolding stream_csv
  stream_csv_whole rows few =
      let n = length-replicate 3000 (d.of_ℕ 0) in
      let (final, j, saves, same) =
        save_rows_kept (replicate 3000 (d.of_ℕ 0)) rows (omega (arith, n, few)) in
      let size : length final ≡ 3000 = same ∙ n in
      let (lines, writes, count, at_zero) =
        create_csv_rows final 0 (omega (arith, size)) (omega (arith, size)) in
      (
        lines,
        rw (saves, stream_csv) (ap (create_csv final) (sym size) ∙ writes),
        omega (arith, count, size),
      )

  -- With at most 23 queue pairs, `main` of multistreamTestRunner.c gives up or writes a whole file:
  -- 500 lines, with all its stores and reads within its array of results. That is so for any
  -- arguments, and for any times, and wherever a connection fails.
  pub stream_main_file :
      (argc : ℕ) (port peer_number : ℤ) (servername : ℕ) (t : Trace)
      → pos_part peer_number ≤ 23
      → (u : Trace) × ((stream_main e d joined argc port peer_number servername t ≡ fail u)
          ⊎ ((lines : List (Row d.D)) × (stream_main e d joined argc port peer_number servername t
                ≡ done (some lines) u)
              × (length lines ≡ 500)))
  unfolding stream_main
  stream_main_file argc port peer_number servername t few =
      ending (stream_main e d joined argc port peer_number servername t) refl
    where
      sizes : List ℕ
      sizes = doublings 31 1 max_msg_size

      ending :
          (o : Outcome (Option (List (Row d.D))))
          → stream_main e d joined argc port peer_number servername t ≡ o
          → (u : Trace) × ((stream_main e d joined argc port peer_number servername t ≡ fail u)
              ⊎ ((lines : List (Row d.D)) × (stream_main e d joined argc port peer_number servername
                      t
                    ≡ done (some lines) u)
                  × (length lines ≡ 500)))
      ending (fail u) h = (u, inl h)
      ending (done file u) h =
          let (a, v, p, q) =
            >>=-eq-done (refuse_if (not (stream_arguments_ok argc port peer_number))) _ t h in
          let (rows, w, p', q') =
            >>=-eq-done
              (run_sizes e d joined (pos_part port) servername (pos_part peer_number) sizes) _ v
              q in
          let le =
            (run_sizes-le (pos_part port) servername (pos_part peer_number) sizes).runs v w rows
              p' in
          let all : length sizes ≡ 21 = length-sizes in
          let (lines, made, count) = stream_csv_whole rows (grind (arith, le, all, few)) in
          let same : stream_csv e d joined rows ≡ file = cc in
          (u, inr (lines, h ∙ ap (λ f. done f u) (sym same ∙ made), count))
