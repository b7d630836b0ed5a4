-- ===== src/MultiStream/Main.antt =====
-- multistreamTestRunner.c, `main`: the rounds with their thread, and the file at the end. What the
-- thread returns is a parameter, `joined`, as it is for multithreadIB.c.
pub mod File
use network_infiniband_works.Base.{
  ℕ, ℤ, List, [], ◌∷◌, ◌++◌, Option, none, some, Bool, true, false, not, replicate, if◌then◌else◌,
  pos_part,
}
use network_infiniband_works.Platform.{
  Env, Trace, M, ◌>>=◌, ◌>>◌, ret, refuse_if, is_null, tell, ask_ptr, malloc, calloc, free,
}
use network_infiniband_works.Metrics.{Double, Row, save_rows, create_csv}
use network_infiniband_works.MultiThread.Launch.{doublings, max_msg_size, round_of}
use network_infiniband_works.MultiThread.Main.{joined_time}
use network_infiniband_works.MultiStream.Run.{
  serve_round, client_round, stream_commands_size, stream_row, counting, stream_arguments_ok,
}

module _ (e : Env) (d : Double) (joined : Trace → ℕ → d.D) where
  open d use {D, of_ℕ}

  -- A round of `n` queue pairs: its line, or none where it ends the rounds of its size.
  unfoldable pub queue_round : (port servername varsize n : ℕ) → M (Option (Row D))
  unfolding joined_time
  queue_round port servername varsize n = do
    pthread ← ask_ptr e (malloc 8)
    new_commands ← ask_ptr e (calloc 0 stream_commands_size)
    goes_on ←
        (if is_null servername
          then serve_round e port varsize
          else client_round e port varsize servername)
    if goes_on
        then (do
          time ← joined_time e d joined 0
          tell e (free new_commands)
          tell e (free pthread)
          ret (some (stream_row d (round_of varsize n) time)))
        else ret none

  -- The rounds of one size.
  unfoldable pub run_counts : (port servername varsize : ℕ) → List ℕ → M (List (Row D))
  unfolding queue_round
  run_counts port servername varsize [] = ret []
  run_counts port servername varsize (n ∷ ns) = queue_round port servername varsize n >>= λ got.
      elim got [
        | none ↦ ret []
        | some row ↦ run_counts port servername varsize ns >>= λ rows. ret (row ∷ rows)
      ]

  unfoldable pub run_sizes : (port servername peer_num : ℕ) → List ℕ → M (List (Row D))
  unfolding run_counts
  run_sizes port servername peer_num [] = ret []
  run_sizes port servername peer_num (varsize ∷ sizes) =
      run_counts port servername varsize (counting peer_num 1) >>= λ rows.
      run_sizes port servername peer_num sizes >>= λ rest. ret (rows ++ rest)

  -- The lines of the file, none where a store or a read goes behind the end of `results`.
  unfoldable pub stream_csv : List (Row D) → Option (List (Row D))
  stream_csv rows = elim (save_rows (replicate 3000 (of_ℕ 0)) 0 rows) [
    | none ↦ none
    | some (final, next) ↦ create_csv final 3000
  ]

  -- `main`, for the values that `atoi` returns; a `servername` of 0 is none.
  unfoldable pub stream_main :
      (argc : ℕ) (port peer_number : ℤ) (servername : ℕ) → M (Option (List (Row D)))
  unfolding run_sizes stream_csv
  stream_main argc port peer_number servername = do
    refuse_if (not (stream_arguments_ok argc port peer_number))
    rows ← run_sizes (pos_part port) servername (pos_part peer_number) (doublings 31 1 max_msg_size)
    ret (stream_csv rows)
