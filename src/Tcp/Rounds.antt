-- ===== src/Tcp/Rounds.antt =====
-- The rounds of `main` in MultiStreamTcpClient.cpp and MultiThreadTcpClient.cpp. The memory of the
-- messages has no handles here, so that its `malloc` and `free` leave no trace.
pub mod Moves
pub mod Held
pub mod Closed
pub mod Tries
pub mod Served
pub mod Fails
use network_infiniband_works.Base.{
  ℕ, zero, suc, ◌+◌, List, [], ◌∷◌, Option, none, some, length, replicate,
}
use network_infiniband_works.Platform.{
  Env, M, Timeval, ◌>>=◌, ◌>>◌, ret, give_up, check, tell, gettimeofday, client_thread, join,
}
use network_infiniband_works.Metrics.{Double, Row, time_difference, save_rows}
use network_infiniband_works.MultiThread.Launch.{Round}
use network_infiniband_works.Tcp.Stream.{TcpStream}
use network_infiniband_works.Tcp.Message.{Message, stream_msgs, thread_msgs}
use network_infiniband_works.Tcp.Client.{
  stream_clients, close_streams, client, warm_up_server, socket_rounds, core_rounds, result_size,
  tcp_row, create_result_file,
}

-- DEFAULT_NUMBER_OF_MSGS
abbrev pub default_number_of_msgs : ℕ
default_number_of_msgs = 1000

module _ (e : Env) where
  -- `if (gettimeofday (&t, NULL)) exit (1)`
  abbrev pub clock : M Timeval
  clock t = (check e gettimeofday >> ret (e.time t gettimeofday)) t

  -- The loop over `pthread_create`, from thread `j` on, where each is created. The structure that all
  -- threads read is not modelled: each has the fields that are set for it.
  unfoldable pub start_threads : (j : ℕ) → List Message → M (Unit {0})
  start_threads j [] = ret tt
  start_threads j (m ∷ ms) = tell e (client_thread j m.size) >> start_threads (j + 1) ms

  -- The loop over `pthread_join`, from thread `j` on. The threads run one behind the other, each as it
  -- is joined; none is a thread that ran out of fuel.
  unfoldable pub join_threads : (fuel server port num j : ℕ) → List Message → M (Option (Unit {0}))
  unfolding client
  join_threads fuel server port num j [] = ret (some tt)
  join_threads fuel server port num j (m ∷ ms) = client e fuel server port j num m >>= λ ran.
      elim ran [
        | none ↦ ret none
        | some u ↦ tell e (join j) >> join_threads fuel server port num (j + 1) ms
      ]

-- How a round of MultiThreadTcpClient.cpp ends: with its line, in a thread that ran out of fuel, or
-- with a store behind the end of a message.
pub data Ran {ℓ} (A : Type ℓ) : Type ℓ where
  completed : A → Ran A
  hung : Ran A
  overran : Ran A

-- How its rounds end, with the lines of the rounds before; `finished` has what they come to.
pub data Ending {ℓ κ} (A : Type ℓ) (B : Type κ) : Type (ℓ ⊔ κ) where
  finished : B → Ending A B
  hung_after : List A → Ending A B
  overran_after : List A → Ending A B

abbrev pub put_row {ℓ} : {A : Type ℓ} → A → Ending A (List A) → Ending A (List A)
put_row row (finished rows) = finished (row ∷ rows)
put_row row (hung_after rows) = hung_after (row ∷ rows)
put_row row (overran_after rows) = overran_after (row ∷ rows)

abbrev pub map_finished {ℓ κ ι} :
    {A : Type ℓ} {B : Type κ} {C : Type ι} → (B → C) → Ending A B → Ending A C
map_finished f (finished b) = finished (f b)
map_finished f (hung_after rows) = hung_after rows
map_finished f (overran_after rows) = overran_after rows

-- `junk` is the byte that stands in fresh memory; the outer none of a result is a loop that ran out
-- of fuel. In a round of MultiStreamTcpClient.cpp, a store behind the end of a message is a failed run.
module _ (e : Env) (d : Double) (fuel junk server port num : ℕ) where
  open d use {D, of_ℕ}

  -- A round of MultiStreamTcpClient.cpp from its second time on: the line of its results.
  unfoldable pub finish_round :
      Round → (start : Timeval) → Option (List (Option TcpStream)) → M (Option (Row D))
  finish_round r start none = ret none
  finish_round r start (some streams) = do
    end ← clock e
    close_streams e streams
    ret (some (tcp_row d num r (time_difference d start end)))

  -- The round behind the messages.
  unfoldable pub round_with : Round → Option (List Message) → M (Option (Row D))
  unfolding finish_round
  round_with r none = give_up
  round_with r (some ms) = do
    start ← clock e
    got ← stream_clients e fuel server port num ms
    finish_round r start got

  -- The body of the loops of MultiStreamTcpClient.cpp.
  unfoldable pub stream_round : Round → M (Option (Row D))
  unfolding round_with
  stream_round r = round_with r (stream_msgs junk r.varsize r.num_threads)

  -- The body of the loops of MultiThreadTcpClient.cpp.
  unfoldable pub thread_round : Round → M (Ran (Row D))
  unfolding start_threads join_threads
  thread_round r = elim (thread_msgs junk r.varsize r.num_threads) [
    | none ↦ ret overran
    | some ms ↦ do
      start ← clock e
      start_threads e 0 ms
      joined ← join_threads e fuel server port num 0 ms
      elim joined [
        | none ↦ ret hung
        | some u ↦ do end ← clock e; ret (completed (tcp_row d num r (time_difference d start end)))
      ]
  ]

  unfoldable pub run_stream_rounds : List Round → M (Option (List (Row D)))
  unfolding stream_round
  run_stream_rounds [] = ret (some [])
  run_stream_rounds (r ∷ rs) = stream_round r >>= λ got. elim got [
    | none ↦ ret none
    | some row ↦ run_stream_rounds rs >>= λ rest.
        ret (elim rest [ none ↦ none | some rows ↦ some (row ∷ rows) ])
  ]

  unfoldable pub run_thread_rounds : List Round → M (Ending (Row D) (List (Row D)))
  unfolding thread_round
  run_thread_rounds [] = ret (finished [])
  run_thread_rounds (r ∷ rs) = thread_round r >>= λ got. elim got [
    | completed row ↦ run_thread_rounds rs >>= λ rest. ret (put_row row rest)
    | hung ↦ ret (hung_after [])
    | overran ↦ ret (overran_after [])
  ]

  -- The array after all rounds and the lines of the file, none where a store or a read goes behind
  -- the end of the array.
  abbrev written_file : (room : ℕ) → List (Row D) → Option (List (Row D))
  written_file room rows = elim (save_rows (replicate room (of_ℕ 0)) 0 rows) [
    | none ↦ none
    | some (final, next) ↦ create_result_file room final
  ]

  -- `main` of MultiStreamTcpClient.cpp behind the test of `argc`.
  unfoldable pub stream_client : M (Option (Option (List (Row D))))
  unfolding run_stream_rounds warm_up_server socket_rounds create_result_file
  stream_client = do
    warm_up_server e default_number_of_msgs server port
    got ← run_stream_rounds socket_rounds
    ret (elim got [ none ↦ none | some rows ↦ some (written_file 5000 rows) ])

  -- `main` of MultiThreadTcpClient.cpp behind the test of `argc`: what it writes, or where it is stuck,
  -- or where it stores behind the end of a message; the program is not followed beyond such a store.
  unfoldable pub thread_client : M (Ending (Row D) (Option (List (Row D))))
  unfolding run_thread_rounds warm_up_server core_rounds result_size create_result_file
  thread_client = do
    warm_up_server e default_number_of_msgs server port
    got ← run_thread_rounds core_rounds
    ret (map_finished (written_file result_size) got)
