-- ===== src/Tcp/Client.antt =====
-- MultiStreamTcpClient.cpp, MultiThreadTcpClient.cpp and `warmUpServer` of Metrics.cpp.
pub mod Replies
pub mod Results
use network_infiniband_works.Base.{
  ℕ, zero, suc, ◌+◌, ◌-◌, ◌*◌, ◌/◌, ◌%◌, ◌^◌, ℤ, pos, negsuc, sub_ℕ, List, [], ◌∷◌, Option, none,
  some, Bool, true, false, ltb, if◌then◌else◌, map, replicate, take,
}
use network_infiniband_works.Platform.{
  Env, M, ◌>>=◌, ◌>>◌, ret, check, tell, setaffinity, free, client_thread, join, gettimeofday,
}
use network_infiniband_works.Metrics.{
  Double, calc_average_rtt, calc_average_throughput, calc_average_packet_rate, Row, save_rows,
  create_csv,
}
use network_infiniband_works.MultiThread.Launch.{Round, doublings, rounds_of, max_msg_size}
use network_infiniband_works.MultiStream.Run.{counting}
use network_infiniband_works.Tcp.Stream.{TcpStream, Got, stream_send, stream_receive, stream_delete}
use network_infiniband_works.Tcp.Connector.{connector_connect}
use network_infiniband_works.Tcp.Message.{Message}

abbrev pub max_packet_size : ℕ
max_packet_size = 131072

-- What an int of 32 bits has of a number.
abbrev pub wrap_int : ℤ → ℤ
wrap_int (pos n) = let r = n % 2 ^ 32 in if ltb r (2 ^ 31) then pos r else negsuc (2 ^ 32 - 1 - r)
wrap_int (negsuc n) =
    let r = n % 2 ^ 32 in if ltb r (2 ^ 31) then negsuc r else pos (2 ^ 32 - 1 - r)

-- The sum of an int and a result of `receive`, which has 64 bits.
abbrev pub sum_int : ℤ → ℤ → ℤ
sum_int (pos a) (pos b) = pos (a + b)
sum_int (pos a) (negsuc b) = sub_ℕ a (suc b)
sum_int (negsuc a) (pos b) = sub_ℕ b (suc a)
sum_int (negsuc a) (negsuc b) = negsuc (suc (a + b))

-- `bytesRead += …`, where `bytesRead` is an int.
abbrev pub add_int : ℤ → ℤ → ℤ
add_int a b = wrap_int (sum_int a b)

-- `bytesRead < msgSize`
abbrev pub below : ℤ → ℕ → Bool
below (pos n) size = ltb n size
below (negsuc n) size = true

module _ (e : Env) where
  -- `while (bytesRead < size) bytesRead += receive (ack, len)`, on fuel; none has run out.
  unfoldable pub reply_loop : (fuel : ℕ) → TcpStream → (len size : ℕ) → ℤ → M (Option ℤ)
  reply_loop zero s len size bytes_read = ret none
  reply_loop (suc fuel) s len size bytes_read =
      let more = stream_receive e s len 0 >>= λ got.
      reply_loop fuel s len size (add_int bytes_read got.count) in
      if below bytes_read size then more else ret (some bytes_read)

  -- One message and its reply: the bytes that were read. The result of `send` is dropped.
  unfoldable pub exchange_msg : (fuel : ℕ) → TcpStream → (len : ℕ) → Message → M (Option ℤ)
  unfolding reply_loop
  exchange_msg fuel s len m = do
    stream_send e s (take m.size m.bytes)
    got ← stream_receive e s len 0
    reply_loop fuel s len m.size (add_int (pos 0) got.count)

  -- `num` messages to one server; none where a loop ran out of fuel.
  unfoldable pub exchange_msgs :
      (fuel : ℕ) → TcpStream → (len : ℕ) → Message → (num : ℕ) → M (Option (Unit {0}))
  unfolding exchange_msg
  exchange_msgs fuel s len m zero = ret (some tt)
  exchange_msgs fuel s len m (suc num) = exchange_msg fuel s len m >>= λ got. elim got [
    | none ↦ ret none
    | some n ↦ exchange_msgs fuel s len m num
  ]

  -- The messages on a stream; there are none where it is NULL.
  abbrev pub on_stream :
      (fuel : ℕ) → Option TcpStream → (len : ℕ) → Message → (num : ℕ) → M (Option (Unit {0}))
  on_stream fuel none len m num = ret (some tt)
  on_stream fuel (some s) len m num = exchange_msgs fuel s len m num

  -- The streams of a round of MultiStreamTcpClient.cpp, one behind the other; the list is `streams`.
  unfoldable pub stream_clients :
      (fuel server port num : ℕ) → List Message → M (Option (List (Option TcpStream)))
  unfolding exchange_msgs
  stream_clients fuel server port num [] = ret (some [])
  stream_clients fuel server port num (m ∷ ms) = connector_connect e server port >>= λ s.
      on_stream fuel s max_msg_size m num >>= λ ran. elim ran [
        | none ↦ ret none
        | some u ↦ stream_clients fuel server port num ms >>= λ rest.
            ret (elim rest [ none ↦ none | some ss ↦ some (s ∷ ss) ])
      ]

  -- `delete (streams[stream])` for each.
  unfoldable pub close_streams : List (Option TcpStream) → M (Unit {0})
  close_streams [] = ret tt
  close_streams (none ∷ ss) = close_streams ss
  close_streams (some s ∷ ss) = stream_delete e s >> close_streams ss

  -- `client`, the thread of MultiThreadTcpClient.cpp, from the fields of its argument as it reads
  -- them. A failed `pthread_setaffinity_np` ends the process.
  unfoldable pub client : (fuel server port thread_num num : ℕ) → Message → M (Option (Unit {0}))
  unfolding exchange_msgs
  client fuel server port thread_num num m = do
    check e (setaffinity thread_num)
    s ← connector_connect e server port
    on_stream fuel s max_packet_size m num

  -- A message of one byte, 'w', on a new connection, and the byte that comes back.
  unfoldable pub warm_up : Option TcpStream → M (Unit {0})
  warm_up none = ret tt
  warm_up (some c) = do stream_send e c (119 ∷ []); stream_receive e c 1 0; stream_delete e c

  -- `warmUpServer`
  unfoldable pub warm_up_server : (num server port : ℕ) → M (Unit {0})
  unfolding warm_up
  warm_up_server zero server port = ret tt
  warm_up_server (suc num) server port =
      connector_connect e server port >>= λ s. warm_up s >> warm_up_server num server port

-- The rounds of MultiStreamTcpClient.cpp: each size on 1 to 10 sockets.
unfoldable pub socket_rounds : List Round
socket_rounds = rounds_of (doublings 31 1 max_msg_size) (counting 10 1)

-- The rounds of MultiThreadTcpClient.cpp: each size on 1, 2, 4 and 8 threads.
unfoldable pub core_rounds : List Round
core_rounds = rounds_of (doublings 31 1 max_msg_size) (doublings 31 1 8)

-- `log2 (MAX_MSG_SIZE / MIN_MSG_SIZE)` of the two powers of two.
abbrev pub log2_sizes : ℕ
log2_sizes = 20

-- `resultSize` of MultiThreadTcpClient.cpp.
unfoldable pub result_size : ℕ
result_size = (log2_sizes + 1) * 6 * 4

module _ (d : Double) where
  open d use {D, of_ℕ}

  -- The line of a round of either client.
  unfoldable pub tcp_row : (msg_num : ℕ) → Round → D → Row D
  tcp_row msg_num r time =
      let msgs = msg_num * r.num_threads in
      record {
        rtt = calc_average_rtt d 1 msgs time;
        throughput = calc_average_throughput d msgs r.varsize time;
        packet_rate = calc_average_packet_rate d msgs time;
        num_of_sockets = of_ℕ r.num_threads;
        msg_size = of_ℕ r.varsize;
        total_num_of_msg = of_ℕ msgs;
      }

  -- The array of MultiStreamTcpClient.cpp after all rounds, and that of MultiThreadTcpClient.cpp.
  unfoldable pub socket_results : (msg_num : ℕ) → (Round → D) → Option (List D × ℕ)
  unfolding tcp_row socket_rounds
  socket_results msg_num times =
      save_rows (replicate 5000 (of_ℕ 0)) 0 (map (λ r. tcp_row msg_num r (times r)) socket_rounds)

  unfoldable pub core_results : (msg_num : ℕ) → (Round → D) → Option (List D × ℕ)
  unfolding tcp_row core_rounds result_size
  core_results msg_num times =
      save_rows (replicate result_size (of_ℕ 0)) 0
        (map (λ r. tcp_row msg_num r (times r)) core_rounds)

-- The reads of `createResultFile`, which steps through the array as `createCSV` does.
unfoldable pub create_result_file {ℓ} :
    {A : Type ℓ} → (result_length : ℕ) → List A → Option (List (Row A))
create_result_file result_length results = create_csv results result_length
