-- ===== src/MultiThread/Launch.antt =====
-- multithreadIB.c, `main`: how one message size is split over the threads, how each side starts
-- its threads, and the rounds of the benchmark with the array of their results.
pub mod Split
pub mod Threads
pub mod Results
use network_infiniband_works.Base.{
  ℕ, zero, suc, ◌+◌, ◌-◌, ◌*◌, ◌/◌, ℤ, pos, negsuc, List, [], ◌∷◌, ◌++◌, Option, none, some, Bool,
  true, false, ◌||◌, leb, ltb, is_neg, map, replicate, if◌then◌else◌,
}
use network_infiniband_works.Platform.{
  Env, M, ◌>>=◌, ◌>>◌, ret, refuse_if, tell, ask_ptr, calloc, thread_create, close,
}
use network_infiniband_works.Metrics.{
  Double, calc_average_rtt, calc_average_throughput, calc_average_packet_rate, Row, save_rows,
}
use network_infiniband_works.Sockets.{
  create_server_connection, accept_client_connection, create_client_connection,
}
use network_infiniband_works.MultiThread.Run.{bad_port}

-- MAX_MSG_SIZE
abbrev pub max_msg_size : ℕ
max_msg_size = 1048576

-- DEFAULT_NUM_OF_MSGS
abbrev pub default_num_of_msgs : ℕ
default_num_of_msgs = 1000

-- `sizeof(Commands)`
abbrev pub commands_size : ℕ
commands_size = 24

-- `sizePerPeer`, for at least one thread: the first takes what the division leaves over.
unfoldable pub size_per_peer : (varsize num_threads : ℕ) → List ℕ
size_per_peer varsize num_threads =
    let regular = varsize / num_threads in
    (varsize - regular * (num_threads - 1)) ∷ replicate (num_threads - 1) regular

module _ (e : Env) where
  -- `while(thread < numThreads)` on the server, from the thread on that the list begins with. An
  -- accepted descriptor of a negative number ends the program.
  unfoldable pub server_threads : (sockfd : ℤ) → List ℕ → M (Unit {0})
  server_threads sockfd [] = ret tt
  server_threads sockfd (zero ∷ sizes) =
      tell e (calloc 0 commands_size) >> server_threads sockfd sizes
  server_threads sockfd (suc size ∷ sizes) =
      tell e (calloc 0 commands_size)
      >> (accept_client_connection e sockfd >>= λ connfd.
          refuse_if (is_neg connfd)
          >> tell e (thread_create (suc size) connfd)
          >> server_threads sockfd sizes)

  -- The server's part of a round. A failed `createServerConnection` is not noticed here.
  unfoldable pub server_round : (port : ℕ) → List ℕ → M (Unit {0})
  unfolding server_threads
  server_round port sizes = do
    sockfd ← create_server_connection e port
    server_threads sockfd sizes
    tell e (close sockfd)

  -- `for (int thread = 0; …; thread++)` on the client. The branch for a size of 0 counts `thread`
  -- up and the loop does so again: the thread behind is left out.
  unfoldable pub client_threads : (port servername : ℕ) → List ℕ → M (Unit {0})
  client_threads port servername [] = ret tt
  client_threads port servername (zero ∷ []) = tell e (calloc 0 commands_size)
  client_threads port servername (zero ∷ _ ∷ sizes) =
      tell e (calloc 0 commands_size) >> client_threads port servername sizes
  client_threads port servername (suc size ∷ sizes) =
      tell e (calloc 0 commands_size)
      >> (create_client_connection e port servername >>= λ sockfd.
          refuse_if (is_neg sockfd)
          >> tell e (thread_create (suc size) sockfd)
          >> client_threads port servername sizes)

-- `for (n = first; n <= last; n *= 2)`, with `fuel` rounds at most.
unfoldable pub doublings : (fuel first last : ℕ) → List ℕ
doublings zero first last = []
doublings (suc fuel) first last = elim (leb first last) [
  | false ↦ []
  | true ↦ first ∷ doublings fuel (first * 2) last
]

-- A message size and a number of threads.
pub record Round : Type 0 where
  pub varsize : ℕ
  pub num_threads : ℕ

abbrev pub round_of : ℕ → ℕ → Round
round_of varsize n = record { varsize = varsize; num_threads = n }

unfoldable pub rounds_of : List ℕ → List ℕ → List Round
rounds_of [] counts = []
rounds_of (varsize ∷ sizes) counts = map (round_of varsize) counts ++ rounds_of sizes counts

-- The rounds of `main`; an int has 31 doublings.
unfoldable pub rounds : ℕ → List Round
unfolding rounds_of
rounds max_thread_num = rounds_of (doublings 31 1 max_msg_size) (doublings 31 1 max_thread_num)

module _ (d : Double) where
  open d use {D, of_ℕ, negate, less}

  -- The loop over `pthread_join`: the largest time, from DEFAULT_THREAD_TIME, -1, on. None is a
  -- thread that was not started.
  pub max_thread_time : D → List (Option D) → D
  max_thread_time best [] = best
  max_thread_time best (none ∷ times) = max_thread_time best times
  max_thread_time best (some time ∷ times) =
      max_thread_time (if less best time then time else best) times

  -- The line of one round, from the times that its threads returned.
  unfoldable pub measure : Round → List (Option D) → Row D
  unfolding max_thread_time
  measure r times =
      let time = max_thread_time (negate (of_ℕ 1)) times in
      let msgs = default_num_of_msgs * r.num_threads in
      record {
        rtt = calc_average_rtt d 1 msgs time;
        throughput = calc_average_throughput d msgs r.varsize time;
        packet_rate = calc_average_packet_rate d msgs time;
        num_of_sockets = of_ℕ r.num_threads;
        msg_size = of_ℕ r.varsize;
        total_num_of_msg = of_ℕ (r.num_threads * default_num_of_msgs);
      }

  -- The array `results` after all rounds, from what the threads of each return; none where a store
  -- goes behind its end.
  unfoldable pub all_results : (Round → List (Option D)) → ℕ → Option (List D × ℕ)
  unfolding measure rounds
  all_results times max_thread_num =
      save_rows (replicate 1000 (of_ℕ 0)) 0 (map (λ r. measure r (times r)) (rounds max_thread_num))

-- The tests of the arguments; the port is `atoi(argv[2])`.
unfoldable pub arguments_ok : (argc : ℕ) (port : ℤ) → Bool
arguments_ok argc port = if ltb argc 3 || ltb 4 argc || bad_port port then false else true
