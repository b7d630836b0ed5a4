-- ===== src/MultiThread/Main.antt =====
-- multithreadIB.c, `main`: the rounds with their threads, and the file at the end. What a thread
-- returns is `runPingPong`'s result at a time that the threads share, so that it is a parameter,
-- `joined`; each result is that of a thread that got through.
pub mod Overrun
use network_infiniband_works.Base.{
  ℕ, zero, suc, ◌+◌, ℤ, pos, negsuc, List, [], ◌∷◌, Option, none, some, Bool, true, false, not,
  replicate, if◌then◌else◌, pos_part,
}
use network_infiniband_works.Platform.{
  Env, Trace, M, ◌>>=◌, ◌>>◌, ret, refuse_if, is_null, tell, ask_ptr, told, done, calloc, free,
  join,
}
use network_infiniband_works.Metrics.{Double, Row, save_rows, create_csv}
use network_infiniband_works.MultiThread.Launch.{
  Round, rounds, size_per_peer, server_round, client_threads, measure, arguments_ok,
}

-- Which entries of `pthread` are not NULL when the threads have been started.
abbrev pub server_started : List ℕ → List Bool
server_started [] = []
server_started (zero ∷ sizes) = false ∷ server_started sizes
server_started (suc size ∷ sizes) = true ∷ server_started sizes

-- The client leaves out the thread behind one of size 0.
abbrev pub client_started : List ℕ → List Bool
client_started [] = []
client_started (zero ∷ []) = false ∷ []
client_started (zero ∷ _ ∷ sizes) = false ∷ false ∷ client_started sizes
client_started (suc size ∷ sizes) = true ∷ client_started sizes

module _ (e : Env) (d : Double) (joined : Trace → ℕ → d.D) where
  open d use {D, of_ℕ}

  -- `pthread_join`
  unfoldable pub joined_time : (thread : ℕ) → M D
  joined_time thread t = done (joined t thread) (told (join thread) ∷ t)

  -- The loop over the threads, from `thread` on.
  unfoldable pub join_started : (thread : ℕ) → List Bool → M (List (Option D))
  unfolding joined_time
  join_started thread [] = ret []
  join_started thread (false ∷ rest) =
      join_started (thread + 1) rest >>= λ times. ret (none ∷ times)
  join_started thread (true ∷ rest) = joined_time thread >>= λ time.
      join_started (thread + 1) rest >>= λ times. ret (some time ∷ times)

  -- The body of the loops: the line of its results.
  unfoldable pub main_round : (port servername : ℕ) → Round → M (Row D)
  unfolding join_started
  main_round port servername r =
      let sizes = size_per_peer r.varsize r.num_threads in
      let is_server = is_null servername in
      do
        size_mem ← ask_ptr e (calloc r.num_threads 4)
        thread_mem ← ask_ptr e (calloc r.num_threads 8)
        (if is_server then server_round e port sizes else client_threads e port servername sizes)
        times ← join_started 0 (if is_server then server_started sizes else client_started sizes)
        tell e (free size_mem)
        tell e (free thread_mem)
        ret (measure d r times)

  unfoldable pub run_rounds : (port servername : ℕ) → List Round → M (List (Row D))
  unfolding main_round
  run_rounds port servername [] = ret []
  run_rounds port servername (r ∷ rs) = main_round port servername r >>= λ row.
      run_rounds port servername rs >>= λ rows. ret (row ∷ rows)

  -- The lines of the file, none where a store or a read goes behind the end of `results`.
  unfoldable pub written_csv : List (Row D) → Option (List (Row D))
  written_csv rows = elim (save_rows (replicate 1000 (of_ℕ 0)) 0 rows) [
    | none ↦ none
    | some (final, next) ↦ create_csv final 1000
  ]

  -- `main`, for the values that `atoi` returns; a `servername` of 0 is none.
  unfoldable pub main :
      (argc max_thread_num : ℕ) (port : ℤ) (servername : ℕ) → M (Option (List (Row D)))
  unfolding run_rounds written_csv
  main argc max_thread_num port servername = do
    refuse_if (not (arguments_ok argc port))
    rows ← run_rounds (pos_part port) servername (rounds max_thread_num)
    ret (written_csv rows)
