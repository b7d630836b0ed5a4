-- ===== src/Tcp/ThreadServer.antt =====
-- MultiThreadTcpServer.cpp: a thread for each connection, which echoes what it receives.
pub mod Echo
use network_infiniband_works.Base.{
  ℕ, zero, suc, ◌+◌, ◌%◌, ℤ, pos, negsuc, List, [], ◌∷◌, Option, none, some, Bool, true, false, ltb,
  take, if◌then◌else◌,
}
use network_infiniband_works.Platform.{
  Env, M, fail, ◌>>=◌, ◌>>◌, ret, give_up, check, tell, setaffinity, handler_thread,
}
use network_infiniband_works.Tcp.Stream.{TcpStream, stream_send, stream_receive, stream_delete}
use network_infiniband_works.Tcp.Acceptor.{Acceptor, acceptor_accept}
use network_infiniband_works.Tcp.Client.{max_packet_size}

-- How the loop of a handler may end: the connection is over, the store behind the bytes that were
-- received goes behind the end of the buffer, or the fuel has run out.
pub data Ended : Type 0 where
  closed overrun out_of_fuel : Ended

abbrev pub max_core : ℕ
max_core = 8

module _ (e : Env) where
  -- `while ((len = stream->receive (line, sizeof (line))) > 0)`
  unfoldable pub echo_loop : (fuel : ℕ) → TcpStream → M Ended
  echo_loop zero s = ret out_of_fuel
  echo_loop (suc fuel) s = do
    got ← stream_receive e s max_packet_size 0
    elim got.count [
      | negsuc n ↦ ret closed
      | pos zero ↦ ret closed
      | pos (suc n) ↦
          if ltb (suc n) max_packet_size
          then (stream_send e s (take (suc n) got.buffer) >> echo_loop fuel s)
          else ret overrun
    ]

  -- What `ConnectionHandler` does after its loop: it deletes the stream.
  abbrev pub finish : TcpStream → Ended → M Ended
  finish s closed = stream_delete e s >> ret closed
  finish s overrun = ret overrun
  finish s out_of_fuel = ret out_of_fuel

  unfoldable pub connection_handler : (fuel : ℕ) → TcpStream → M Ended
  unfolding echo_loop
  connection_handler fuel s = do
    check e (setaffinity s.stream_id)
    ended ← echo_loop fuel s
    finish s ended

  -- `while (1)` of `main`, for `fuel` connections. The identifier is stored before the test for
  -- NULL, so that a failed `accept` ends the process.
  pub accept_loop : (fuel : ℕ) → Acceptor → (thread_num : ℕ) → M (Unit {0})
  accept_loop zero a thread_num = ret tt
  accept_loop (suc fuel) a thread_num = acceptor_accept e a >>= λ stream. elim stream [
    | none ↦ give_up
    | some s ↦
        tell e (handler_thread s.m_sd (thread_num % max_core))
        >> accept_loop fuel a (thread_num + 1)
  ]
