-- ===== src/MultiThread/Run.antt =====
-- multithreadIB.c: `runPingPong`, one thread of the benchmark. Its constants are those of the
-- source: one port, 500 receives, 1000 rounds, no events, no GID index.
pub mod Close
use network_infiniband_works.Base.{
  ℕ, ◌%◌, ◌^◌, ℤ, pos, negsuc, [], ◌∷◌, Option, none, some, Bool, true, false, ◌&&◌, ◌==◌, ltb,
  bit_or, replicate,
}
use network_infiniband_works.Platform.{
  Timeval, Env, M, done, fail, ◌>>=◌, ◌>>◌, ret, is_null, refuse_if, need, check, tell, ask_ptr,
  srand48, setaffinity, sysconf_pagesize, get_device_list, free_device_list, query_port, qp_num,
  lrand48, close, gettimeofday, ack_cq_events, free, malloc,
}
use network_infiniband_works.Metrics.{Double, time_difference}
use network_infiniband_works.Wire.Dest.{PingpongDest}
use network_infiniband_works.MultiThread.Connect.{mtu_1024, pp_connect_ctx}
use network_infiniband_works.MultiThread.Context.{PingpongContext, pp_init_ctx, pp_close_ctx}
use network_infiniband_works.MultiThread.Engine.{
  recv_wrid, send_wrid, pp_post_recv, pp_post_send, Loop, poll_loop,
}
use network_infiniband_works.MultiThread.Exchange.{
  Host, Remote, pp_client_exch_dest, pp_server_exch_dest,
}

-- `Commands`; a `servername` of 0 is none.
pub record Commands : Type 0 where
  pub port : ℤ
  pub size : ℕ
  pub connfd : ℤ
  pub thread_num : ℕ
  pub servername : ℕ

abbrev pub rx_depth_max : ℕ
rx_depth_max = 500

abbrev pub iterations : ℕ
iterations = 1000

abbrev pub bad_port : ℤ → Bool
bad_port (pos p) = ltb 65535 p
bad_port (negsuc p) = true

module _ (e : Env) (host : Host) where
  -- The first entry of the device list, NULL where there is none.
  abbrev pub first_device : M ℕ
  first_device t = elim (e.addrs t get_device_list) [
    | [] ↦ fail t
    | d ∷ ds ↦ elim (is_null d) [ true ↦ fail t | false ↦ done d t ]
  ]

  -- To the posted receives: the device list, the context and `routs`. A failed `pthread_setaffinity_np`
  -- ends the process, which is a failed run here too.
  unfoldable pub set_up : Commands → M (ℕ × PingpongContext × ℕ)
  set_up commands = do
    tell e srand48
    refuse_if (bad_port commands.port)
    check e (setaffinity commands.thread_num)
    page_size ← ask_ptr e sysconf_pagesize
    dev_list ← need e get_device_list
    ib_dev ← first_device
    ctx ←
        pp_init_ctx e page_size ib_dev commands.size rx_depth_max 1 false
          (is_null commands.servername)
    routs ← pp_post_recv e ctx ctx.rx_depth
    refuse_if (ltb routs ctx.rx_depth)
    ret (dev_list, ctx, routs)

  -- The address of the own queue pair. The GID index is -1, so that the GID is zero.
  unfoldable pub local_dest : PingpongContext → M PingpongDest
  local_dest ctx t =
      let info = e.port t (query_port ctx.context 1) in
      (do
        check e (query_port ctx.context 1)
        refuse_if (info.link_layer == 1 && info.lid == 0)
        qpn ← ask_ptr e (qp_num ctx.qp)
        r ← ask_ptr e lrand48
        ret (record { lid = info.lid; qpn = qpn; psn = r % 2 ^ 24; gid = replicate 16 0 }))
        t

  -- The exchange, and on the client the connection of its queue pair. Both ends close the socket
  -- afterwards, the server for the second time.
  unfoldable pub connect_ends : Commands → PingpongContext → PingpongDest → M Remote
  connect_ends commands ctx my_dest = elim (is_null commands.servername) [
    | true ↦ do
      rem ← pp_server_exch_dest e host ctx.qp 1 mtu_1024 0 my_dest (negsuc 0) commands.connfd
      tell e (close commands.connfd)
      ret rem
    | false ↦ do
      rem ← pp_client_exch_dest e host my_dest commands.connfd
      pp_connect_ctx e ctx.qp 1 my_dest.psn mtu_1024 0 rem.dest (negsuc 0)
      tell e (close commands.connfd)
      ret rem
  ]

  -- The first send of the client, and the variables as the loop is entered.
  unfoldable pub first_send : Commands → PingpongContext → (routs : ℕ) → M Loop
  first_send commands ctx routs =
      let s : Loop = record {
        pending = recv_wrid;
        routs = routs;
        rcnt = 0;
        scnt = 0;
        num_cq_events = 0;
      } in
      elim (is_null commands.servername) [
        | true ↦ ret s
        | false ↦ pp_post_send e ctx >> ret (record s { pending = bit_or recv_wrid send_wrid })
      ]

  -- `if (gettimeofday(&t, NULL)) return 1`
  abbrev pub stamp : M Timeval
  stamp t = (check e gettimeofday >> ret (e.time t gettimeofday)) t

  -- What follows the loop, but for the time that is returned.
  unfoldable pub tear_down : ℕ → PingpongContext → Remote → Loop → M (Unit {0})
  tear_down dev_list ctx rem s = do
    tell e (ack_cq_events ctx.cq s.num_cq_events)
    pp_close_ctx e ctx
    tell e (free_device_list dev_list)
    tell e (free rem.at)
    usec ← ask_ptr e (malloc 4)
    tell e (free usec)
    tell e (malloc 8)

  -- The time that the thread hands to `pthread_join`; none is a loop that ran out of fuel. The
  -- results 1 and -1 are failed runs.
  unfoldable pub run_ping_pong : (d : Double) (fuel : ℕ) → Commands → M (Option d.D)
  unfolding set_up local_dest connect_ends first_send tear_down
  run_ping_pong d fuel commands = do
    (dev_list, ctx, routs) ← set_up commands
    my_dest ← local_dest ctx
    rem ← connect_ends commands ctx my_dest
    s ← first_send commands ctx routs
    start ← stamp
    over ← poll_loop e ctx iterations false fuel s
    elim over [
      | none ↦ ret none
      | some s' ↦ do
        end ← stamp
        tear_down dev_list ctx rem s'
        ret (some (time_difference d start end))
    ]
