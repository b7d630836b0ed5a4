-- ===== src/MultiStream/Run.antt =====
-- multistreamTestRunner.c: `runPingPong` and `main`. The constants are those of the source: one
-- port, 500 receives on each queue pair, 1000 rounds, no events, no GID index.
pub mod Results
pub mod Start
use network_infiniband_works.Base.{
  ℕ, zero, suc, ◌+◌, ◌%◌, ◌^◌, ℤ, negsuc, List, [], ◌∷◌, Option, none, some, Bool, true, false,
  ◌&&◌, ◌||◌, ◌==◌, ltb, if◌then◌else◌, is_neg, is_zero, bit_or, replicate, map,
}
use network_infiniband_works.Platform.{
  Env, M, ◌>>=◌, ◌>>◌, ret, is_null, refuse_if, need, check, tell, ask_ptr, srand48,
  sysconf_pagesize, get_device_list, free_device_list, query_port, qp_num, lrand48, close,
  ack_cq_events, free, malloc, calloc, told, thread_create,
}
use network_infiniband_works.Metrics.{
  Double, time_difference, calc_average_rtt, calc_average_throughput, calc_average_packet_rate, Row,
  save_rows,
}
use network_infiniband_works.Wire.Dest.{PingpongDest}
use network_infiniband_works.MultiThread.Connect.{mtu_1024}
use network_infiniband_works.MultiThread.Engine.{recv_wrid, send_wrid}
use network_infiniband_works.MultiThread.Exchange.{Host, Remote, dest_size, on_failure}
use network_infiniband_works.MultiThread.Run.{
  rx_depth_max, iterations, bad_port, first_device, stamp,
}
use network_infiniband_works.MultiThread.Launch.{
  Round, doublings, rounds_of, max_msg_size, default_num_of_msgs,
}
use network_infiniband_works.MultiStream.Connect.{
  pp_connect_ctx_per_qp, client_exch_dest, server_exch_dest, server_connection, client_accepted,
  client_connection,
}
use network_infiniband_works.MultiStream.Context.{
  StreamContext, init_stream_ctx, close_stream_ctx, pp_post_recv_qp, pp_post_send_qp,
}
use network_infiniband_works.MultiStream.Engine.{Streams, streams_loop}

-- `Commands`; a `servername` of 0 is none.
pub record StreamCommands : Type 0 where
  pub port : ℤ
  pub size : ℕ
  pub connfd : ℤ
  pub peer_num : ℕ
  pub servername : ℕ

-- `sizeof(Commands)`
abbrev pub stream_commands_size : ℕ
stream_commands_size = 24

module _ (e : Env) (host : Host) where
  -- The receives of all queue pairs, from index `i` on: `routs_arr`.
  unfoldable pub post_all_recvs : StreamContext → List ℕ → (i : ℕ) → M (List ℕ)
  post_all_recvs ctx [] i = ret []
  post_all_recvs ctx (qp ∷ qps) i = pp_post_recv_qp e ctx ctx.rx_depth qp i >>= λ routs.
      refuse_if (ltb routs ctx.rx_depth) >> post_all_recvs ctx qps (i + 1) >>= λ rest.
      ret (routs ∷ rest)

  -- To the posted receives.
  unfoldable pub set_up_streams : StreamCommands → M (ℕ × StreamContext × List ℕ)
  unfolding post_all_recvs
  set_up_streams commands = do
    tell e srand48
    refuse_if (bad_port commands.port)
    page_size ← ask_ptr e sysconf_pagesize
    dev_list ← need e get_device_list
    ib_dev ← first_device e host
    ctx ←
        init_stream_ctx e page_size ib_dev commands.size rx_depth_max 1 false
          (is_null commands.servername) commands.peer_num
    tell e (calloc ctx.peer_num 4)
    routs ← post_all_recvs ctx ctx.qp_arr 0
    ret (dev_list, ctx, routs)

  -- `my_dest_arr` for the given queue pairs, on a port of this LID and link layer. The GID index is
  -- -1, so that the GIDs are zero.
  pub local_dests : (lid link_layer : ℕ) → List ℕ → M (List PingpongDest)
  local_dests lid link_layer [] = ret []
  local_dests lid link_layer (qp ∷ qps) = do
    refuse_if (link_layer == 1 && lid == 0)
    qpn ← ask_ptr e (qp_num qp)
    r ← ask_ptr e lrand48
    rest ← local_dests lid link_layer qps
    let dest : PingpongDest = record {
      lid = lid;
      qpn = qpn;
      psn = r % 2 ^ 24;
      gid = replicate 16 0;
    }
    ret (dest ∷ rest)

  unfoldable pub my_dests : StreamContext → M (List PingpongDest)
  unfolding local_dests
  my_dests ctx t =
      let info = e.port t (query_port ctx.context 1) in
      (do
        check e (query_port ctx.context 1)
        tell e (calloc ctx.peer_num dest_size)
        local_dests info.lid info.link_layer ctx.qp_arr)
        t

  -- The exchange for one queue pair. Only a failed exchange closes the socket.
  unfoldable pub exchange_qp : StreamCommands → (qp : ℕ) → PingpongDest → M Remote
  exchange_qp commands qp my_dest = elim (is_null commands.servername) [
    | true ↦
        on_failure (told (close commands.connfd))
          (server_exch_dest e host qp 1 mtu_1024 0 my_dest (negsuc 0) commands.connfd)
    | false ↦ do
      rem ←
          on_failure (told (close commands.connfd))
            (client_exch_dest e host my_dest commands.connfd)
      pp_connect_ctx_per_qp e qp 1 my_dest.psn mtu_1024 0 rem.dest (negsuc 0)
      ret rem
  ]

  -- `rem_dest_arr`
  pub exchange_all : StreamCommands → List ℕ → List PingpongDest → M (List Remote)
  unfolding exchange_qp
  exchange_all commands (qp ∷ qps) (d ∷ ds) =
      exchange_qp commands qp d >>= λ rem. exchange_all commands qps ds >>= λ rest. ret (rem ∷ rest)
  exchange_all commands _ _ = ret []

  -- The first sends of the client, one on each queue pair, from index `i` on.
  unfoldable pub send_all : StreamContext → List ℕ → (i : ℕ) → M (Unit {0})
  send_all ctx [] i = ret tt
  send_all ctx (qp ∷ qps) i = pp_post_send_qp e ctx qp i >> send_all ctx qps (i + 1)

  -- The variables as the loop is entered.
  unfoldable pub first_sends : StreamCommands → StreamContext → List ℕ → M Streams
  unfolding send_all
  first_sends commands ctx routs =
      let s : ℕ → Streams = λ flags. record {
        pending_qp = replicate ctx.peer_num flags;
        routs_arr = routs;
        rcnt = 0;
        scnt = 0;
      } in
      tell e (calloc ctx.peer_num 4) >> elim (is_null commands.servername) [
        | true ↦ ret (s recv_wrid)
        | false ↦ send_all ctx ctx.qp_arr 0 >> ret (s (bit_or recv_wrid send_wrid))
      ]

  pub free_all : List Remote → M (Unit {0})
  free_all [] = ret tt
  free_all (rem ∷ rems) = tell e (free rem.at) >> free_all rems

  -- What follows the loop, but for the time that is returned. The bound `ctx->peerNum` of the loop
  -- that frees the addresses is read from `ctx` after it has been freed; the model takes the value
  -- that it had.
  unfoldable pub tear_down_streams :
      (dev_list : ℕ) → StreamContext → (rem_mem : ℕ) → List Remote → M (Unit {0})
  unfolding free_all
  tear_down_streams dev_list ctx rem_mem rems = do
    tell e (ack_cq_events ctx.cq 0)
    close_stream_ctx e ctx
    tell e (free_device_list dev_list)
    free_all rems
    tell e (free rem_mem)
    usec ← ask_ptr e (malloc 4)
    tell e (free usec)
    tell e (malloc 8)

  -- The time that the thread hands to `pthread_join`; none is a loop that ran out of fuel. The
  -- results 1 and -1 are failed runs.
  unfoldable pub run_streams : (d : Double) (fuel : ℕ) → StreamCommands → M (Option d.D)
  unfolding set_up_streams my_dests exchange_all first_sends tear_down_streams
  run_streams d fuel commands = do
    (dev_list, ctx, routs) ← set_up_streams commands
    dests ← my_dests ctx
    rem_mem ← ask_ptr e (calloc ctx.peer_num dest_size)
    rems ← exchange_all commands ctx.qp_arr dests
    tell e (close commands.connfd)
    s ← first_sends commands ctx routs
    start ← stamp e host
    over ← streams_loop e ctx iterations fuel s
    elim over [
      | none ↦ ret none
      | some s' ↦ do
        end ← stamp e host
        tear_down_streams dev_list ctx rem_mem rems
        ret (some (time_difference d start end))
    ]

module _ (e : Env) where
  -- The server's part of a round: the connection and its thread; false is the `break` where there
  -- is no connection. A failed `createServerConnection` is not noticed here.
  unfoldable pub serve_round : (port size : ℕ) → M Bool
  serve_round port size = do
    sockfd ← server_connection e port
    connfd ← client_accepted e sockfd
    if is_neg connfd
        then ret false
        else (do tell e (thread_create size connfd); tell e (close sockfd); ret true)

  -- The client's part of a round.
  unfoldable pub client_round : (port size servername : ℕ) → M Bool
  client_round port size servername = do
    sockfd ← client_connection e port servername
    refuse_if (is_neg sockfd)
    tell e (calloc 0 stream_commands_size)
    tell e (thread_create size sockfd)
    ret true

-- `for (n = first; …; n++)`, `left` rounds.
pub counting : (left first : ℕ) → List ℕ
counting zero first = []
counting (suc left) first = first ∷ counting left (first + 1)

-- The message sizes, each with 1 to `peer_num` queue pairs.
unfoldable pub stream_rounds : ℕ → List Round
unfolding counting
stream_rounds peer_num = rounds_of (doublings 31 1 max_msg_size) (counting peer_num 1)

module _ (d : Double) where
  open d use {D, of_ℕ, div}

  -- The line of one round, from the time that its thread returned.
  unfoldable pub stream_row : Round → D → Row D
  stream_row r time =
      let n = of_ℕ r.num_threads in
      record {
        rtt = calc_average_rtt d r.num_threads default_num_of_msgs time;
        throughput = div (calc_average_throughput d default_num_of_msgs r.varsize time) n;
        packet_rate = div (calc_average_packet_rate d default_num_of_msgs time) n;
        num_of_sockets = n;
        msg_size = of_ℕ r.varsize;
        total_num_of_msg = of_ℕ default_num_of_msgs;
      }

  -- The array `results` after all rounds; none where a store goes behind its end.
  unfoldable pub stream_results : (Round → D) → ℕ → Option (List D × ℕ)
  unfolding stream_row stream_rounds
  stream_results times peer_num =
      save_rows (replicate 3000 (of_ℕ 0)) 0
        (map (λ r. stream_row r (times r)) (stream_rounds peer_num))

-- The tests of the arguments; the port is `atoi(argv[2])` and the peer number `atoi(argv[3])`.
unfoldable pub stream_arguments_ok : (argc : ℕ) (port peer_number : ℤ) → Bool
stream_arguments_ok argc port peer_number =
    if ltb argc 4 || ltb 5 argc || bad_port port || (is_neg peer_number || is_zero peer_number)
    then false
    else true
