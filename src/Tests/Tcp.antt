-- ===== src/Tests/Tcp.antt =====
-- The TCP programs at concrete inputs.
use network_infiniband_works.Base.{
  ℕ, ◌+◌, ◌*◌, ◌<◌, ◌≤◌, ◌≡◌, ◌⊎◌, inr, refl, ℤ, pos, negsuc, List, [], ◌∷◌, ◌++◌, none, some, take,
  length, get_elem?, arith,
}
use network_infiniband_works.Platform.{Env, Trace, done, read, send, accept}
use network_infiniband_works.Metrics.{Row}
use network_infiniband_works.Tcp.Stream.{TcpStream, stream_send, stream_receive, stream_delete}
use network_infiniband_works.Tcp.Message.{
  Message, stream_msgs, thread_msgs, split_evenly, make_msg, repeat_msg, create_msg,
}
use network_infiniband_works.Tcp.Message.Split.{IsSplit, stream_msgs-IsSplit}
use network_infiniband_works.Tcp.Client.{
  client, exchange_msg, exchange_msgs, reply_loop, stream_clients, close_streams, core_results,
  create_result_file, result_size, tcp_row, core_rounds,
}
use network_infiniband_works.Tcp.Client.Replies.{
  total_read, Delivers, exchange_msg_returns, exchange_msg_hangs,
}
use network_infiniband_works.Tcp.Client.Results.{core_results_file}
use network_infiniband_works.Tcp.ThreadServer.{Ended, connection_handler}
use network_infiniband_works.Tcp.ThreadServer.Echo.{Echoed, connection_handler-Echoed}
use network_infiniband_works.Tcp.StreamServer.{
  max_clients, no_clients, send_verifier, server_loop, server_pass, take_connection, place_client,
  serve_clients, serve_client,
}
use network_infiniband_works.Tcp.StreamServer.Send.{Sends, sent, send_verifier_all_sent}
use network_infiniband_works.Tcp.StreamServer.Serve.{accepts, closes, occupied}
use network_infiniband_works.Tcp.StreamServer.Table.{server_loop_accounts}
use network_infiniband_works.Tcp.Rounds.Served.{Answering}
use network_infiniband_works.Tcp.Rounds.{
  run_thread_rounds, thread_round, start_threads, join_threads, overran_after, run_stream_rounds,
  stream_round, round_with, finish_round,
}
use network_infiniband_works.Tcp.Rounds.Moves.{opened, shut}
use network_infiniband_works.Tcp.Rounds.Closed.{run_stream_rounds_closes}
use network_infiniband_works.Tcp.Connector.{connector_connect, server_address, resolve_host}
use network_infiniband_works.MultiThread.Launch.{Round, rounds_of, doublings}
use network_infiniband_works.Tests.Inputs.{env}
use network_infiniband_works.Tests.Rounds.{whole_numbers}

abbrev stream : TcpStream
stream = record { m_sd = pos 4; stream_id = 1 }

abbrev two_bytes : Message
two_bytes = record { size = 2; bytes = 119 ∷ 119 ∷ 0 ∷ [] }

-- A server that answers with one byte at a time.
abbrev answering : Env
answering = record env {
  int = λ t c. elim c as (λ _. ℤ) [ read fd n ↦ pos 1 | send fd b ↦ pos 1 | _ ↦ pos 0 ];
  bytes = λ t c. 119 ∷ [];
}

same_count : {a b : ℕ} → pos a ≡ pos b → a ≡ b
same_count h = cc

answering-Delivers : Delivers answering stream 1048576
answering-Delivers = record { alive = λ v. refl; asked = λ v k h. omega (arith, same_count h) }

exchange_msg_returns_example :
    (n : ℕ) × (u : Trace) × (exchange_msg answering 3 stream 1048576 two_bytes []
      ≡ done (some (pos n)) u)
    × (2 ≤ n)
    × (n + total_read [] ≡ total_read u)
exchange_msg_returns_example =
    exchange_msg_returns answering stream 1048576 3 two_bytes [] answering-Delivers (omega arith)
      (omega arith)

exchange_msg_hangs_example :
    (u : Trace) × (exchange_msg env 5 stream 1048576 two_bytes [] ≡ done none u)
exchange_msg_hangs_example =
    exchange_msg_hangs env stream 1048576 5 two_bytes [] (λ v. refl) (omega arith)

stream_msgs-IsSplit_example : (ms : List Message) × (stream_msgs 9 2 3 ≡ some ms) × IsSplit 3 4 ms
stream_msgs-IsSplit_example = stream_msgs-IsSplit 9 2 3 (omega arith)

-- This server answers, so that a thread of the first round with fuel 4 gets through.
answering-Answering : Answering answering 4
answering-Answering = record {
  answers = λ s. record { alive = λ v. refl; asked = λ v k h. omega (arith, same_count h) };
  some_fuel = omega arith;
}

abbrev first_round : Round
first_round = record { varsize = 1; num_threads = 1 }

-- The first two rounds, where the server answers: the second one ends behind a message.
second_round_reached :
    (row : Row ℕ) × (u : Trace) × (run_thread_rounds answering whole_numbers 4 9 3 80 1
        (first_round ∷ record first_round { num_threads = 2 } ∷ [])
        []
      ≡ done (overran_after (row ∷ [])) u)
unfolding run_thread_rounds thread_round start_threads join_threads client thread_msgs split_evenly
    exchange_msgs exchange_msg reply_loop stream_send stream_receive connector_connect
    server_address resolve_host make_msg repeat_msg create_msg tcp_row
second_round_reached = (_, _, refl)

first_at : get_elem? core_rounds 0 ≡ some first_round
unfolding core_rounds rounds_of doublings
first_at = refl

core_results_file_example :
    (final : List ℕ) × (rows : List (Row ℕ)) × (core_results whole_numbers 1000 (λ r. 5)
      ≡ some (final, result_size))
    × (create_result_file result_size final ≡ some rows)
    × (6 * length rows ≡ result_size)
    × (get_elem? rows 0 ≡ some (tcp_row whole_numbers 1000 first_round 5))
core_results_file_example = core_results_file whole_numbers 1000 (λ r. 5) 0 first_round first_at

connection_handler-Echoed_example :
    (ended : Ended) × (u : Trace) × (connection_handler answering 2 stream [] ≡ done ended u)
    × Echoed answering stream ended u
connection_handler-Echoed_example = connection_handler-Echoed answering 2 stream [] refl refl

answering-Sends : Sends answering
answering-Sends = record { sends_some = λ t s buf h. inr (0, refl, omega (arith, h)) }

send_verifier_all_sent_example :
    (r : ℤ) × (u : Trace) × (send_verifier answering 3 (pos 0) (pos 4) (65 ∷ 66 ∷ []) []
      ≡ done (some r) u)
    × (((r ≡ pos 0) × (sent u ≡ sent [] ++ (65 ∷ 66 ∷ [])))
        ⊎ ((r ≡ negsuc 0) × ((k : ℕ) × (k < 2) × (sent u ≡ sent [] ++ take k (65 ∷ 66 ∷ [])))))
send_verifier_all_sent_example =
    send_verifier_all_sent answering 3 (pos 0) (pos 4) (65 ∷ 66 ∷ []) [] answering-Sends
      (omega arith) (omega arith)

-- A listening socket, 3, that is ready in each round, and connections that are all 5 and have
-- nothing to read.
abbrev connecting : Env
connecting = record env {
  int = λ t c. elim c as (λ _. ℤ) [ accept fd ↦ pos 5 | _ ↦ pos 0 ];
  addrs = λ t c. 3 ∷ [];
}

serving_runs :
    (cs : List ℤ) × (u : Trace) × (server_loop connecting 4 (pos 0) 2 (pos 3) no_clients []
      ≡ done (some cs) u)
unfolding server_loop server_pass take_connection place_client serve_clients serve_client
serving_runs = (_, _, refl)

server_loop_accounts_example :
    (length serving_runs.0 ≡ max_clients)
    × (closes serving_runs.1 + occupied serving_runs.0 ≤ accepts serving_runs.1)
    × ((closes serving_runs.1 + occupied serving_runs.0 ≡ accepts serving_runs.1)
        ⊎ (max_clients < accepts serving_runs.1))
server_loop_accounts_example =
    server_loop_accounts connecting 4 (pos 0) (pos 3) 2 serving_runs.1 serving_runs.0 (λ t. refl)
      (λ t fds. refl) serving_runs.2

-- A round of two sockets for one byte, to which the server answers.
abbrev two_sockets : Round
two_sockets = record { varsize = 1; num_threads = 2 }

round_runs :
    (rows : List (Row ℕ)) × (u : Trace) × (run_stream_rounds answering whole_numbers 4 9 3 80 1
        (two_sockets ∷ [])
        []
      ≡ done (some rows) u)
unfolding run_stream_rounds stream_round round_with finish_round stream_msgs stream_clients
    exchange_msgs exchange_msg reply_loop stream_send stream_receive connector_connect
    server_address resolve_host close_streams stream_delete make_msg repeat_msg create_msg tcp_row
round_runs = (_, _, refl)

run_stream_rounds_closes_example :
    opened (pos 0) round_runs.1 + shut (pos 0) [] ≡ shut (pos 0) round_runs.1 + opened (pos 0) []
run_stream_rounds_closes_example =
    run_stream_rounds_closes answering whole_numbers 4 9 3 80 1 (two_sockets ∷ []) [] round_runs.1
      round_runs.0 (pos 0) round_runs.2
