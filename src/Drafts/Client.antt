-- ===== src/Drafts/Client.antt =====
-- The client of the draft: `connectClientToRemote` of temp/CommonIBUtilFuncs.cpp, and `setupIB` and
-- `threadFunc` of temp/SimpleIBClient.cpp. The constants are those of the source: a size of 4096
-- bytes, 500 receives, port 1, no events, no GID index, 1000 rounds, one thread.
use network_infiniband_works.Base.{
  ℕ, zero, suc, ◌+◌, ◌%◌, ◌^◌, ℤ, negsuc, List, [], ◌∷◌, ◌++◌, Option, none, some, false, ◌&&◌,
  ◌==◌, ltb, not, is_neg, is_int, if◌then◌else◌, bit_or, set, get_or, replicate,
}
use network_infiniband_works.Platform.{
  Env, M, ◌>>=◌, ◌>>◌, ret, refuse_if, need, check, tell, ask_int, ask_ptr, asprintf, getaddrinfo,
  freeaddrinfo, read, write, close, get_device_list, query_port, qp_num, lrand48, setaffinity,
  ack_cq_events,
}
use network_infiniband_works.Wire.Gid.{gid_to_wire_gid}
use network_infiniband_works.Wire.Dest.{PingpongDest, msg_size, Scan, read_dest}
use network_infiniband_works.Sockets.{minus_one, connect_first}
use network_infiniband_works.MultiThread.Connect.{mtu_1024}
use network_infiniband_works.MultiThread.Exchange.{Host, dest_msg, done_msg}
use network_infiniband_works.MultiThread.Engine.{send_wrid, Loop, poll_loop}
use network_infiniband_works.MultiThread.Run.{rx_depth_max, iterations, first_device, stamp}
use network_infiniband_works.Drafts.{
  Connection, context_of, init_connection, post_recv_work_req, post_send_work_req,
  prep_ib_device_to_connect,
}

-- A `serverInfo` as a vector makes it.
abbrev pub no_info : PingpongDest
no_info = record { lid = 0; qpn = 0; psn = 0; gid = replicate 16 0 }

module _ (e : Env) (host : Host) where
  -- The body of the `for_each` over the own addresses, the rest of which is `next`. A failure closes
  -- the socket, leaves `k` as it is, and goes on with the next address.
  abbrev exchange_one :
      ℤ
      → PingpongDest
      → (k : ℕ) → List PingpongDest
      → (next : (k : ℕ) → List PingpongDest → M (List PingpongDest)) → M (List PingpongDest)
  exchange_one sockfd local k remotes next = do
    n ← ask_int e (write sockfd (dest_msg host local))
    if not (is_int n msg_size) then (tell e (close sockfd) >> next k remotes) else (λ t.
        (do
          r ← ask_int e (read sockfd msg_size)
          if not (is_int r msg_size) then (tell e (close sockfd) >> next k remotes) else (do
            tell e (write sockfd done_msg)
            let old : PingpongDest = get_or remotes k no_info
            let f : Scan = record {
              lid = old.lid;
              qpn = old.qpn;
              psn = old.psn;
              gid = gid_to_wire_gid host.little local.gid ++ (0 ∷ []);
            }
            next (k + 1) (
                set remotes k
                  (read_dest host.little f host.v32 (e.bytes t (read sockfd msg_size))))))
          t)

  unfoldable pub exchange_each :
      ℤ → List PingpongDest → (k : ℕ) → List PingpongDest → M (List PingpongDest)
  exchange_each sockfd [] k remotes = ret remotes
  exchange_each sockfd (local ∷ locals) k remotes =
      exchange_one sockfd local k remotes (exchange_each sockfd locals)

  -- `remoteQPserverInfo` as it is left; the status 1 is a failed run.
  unfoldable pub connect_client_to_remote :
      (servername port : ℕ) (locals remotes : List PingpongDest) → M (List PingpongDest)
  unfolding exchange_each
  connect_client_to_remote servername port locals remotes t =
      (do
        s ← ask_int e (asprintf port)
        refuse_if (is_neg s)
        λ t1.
            (do
              n ← ask_int e (getaddrinfo servername port)
              refuse_if (is_neg n)
              sockfd ← connect_first e (e.addrs t1 (getaddrinfo servername port)) minus_one
              tell e freeaddrinfo
              refuse_if (is_neg sockfd)
              remotes' ← exchange_each sockfd locals 0 remotes
              tell e (close sockfd)
              ret remotes')
              t1)
        t

  -- The receives of each queue pair; `routs` keeps the count of the last.
  unfoldable pub post_peer_recvs : Connection → (left tid : ℕ) → M Connection
  post_peer_recvs ctx zero tid = ret ctx
  post_peer_recvs ctx (suc left) tid = do
    routs ← post_recv_work_req e ctx ctx.rx_depth tid
    refuse_if (ltb routs ctx.rx_depth)
    post_peer_recvs (record ctx { routs = routs }) left (tid + 1)

  -- The body of the `for_each` over `_localQPinfo`, from `qp.at (j)` on.
  unfoldable pub local_infos : (lid : ℕ) → List ℕ → M (List PingpongDest)
  local_infos lid [] = ret []
  local_infos lid (qp ∷ qps) = do
    qpn ← ask_ptr e (qp_num qp)
    r ← ask_ptr e lrand48
    rest ← local_infos lid qps
    ret (record no_info { lid = lid; qpn = qpn; psn = r % 2 ^ 24 } ∷ rest)

  -- The `for_each` over `_remoteQPinfo`, with the own addresses beside it.
  unfoldable pub connect_remotes : Connection → (locals remotes : List PingpongDest) → M (Unit {0})
  connect_remotes ctx (local ∷ locals) (remote ∷ remotes) =
      prep_ib_device_to_connect e ctx 1 local.psn mtu_1024 0 remote (negsuc 0)
      >> connect_remotes ctx locals remotes
  connect_remotes ctx _ _ = ret tt

  -- `setupIB` up to the own addresses, in the client and in the server. The test of the LID comes
  -- before `portinfo` is read.
  unfoldable pub setup_local : (peer_num message_char : ℕ) → M (Connection × List PingpongDest)
  unfolding post_peer_recvs local_infos
  setup_local peer_num message_char = do
    dev_list ← need e get_device_list
    ib_dev ← first_device e host
    made ← init_connection e ib_dev 4096 rx_depth_max 1 false peer_num message_char
    refuse_if (made.portinfo.link_layer == 1 && made.portinfo.lid == 0)
    posted ← post_peer_recvs made peer_num 0
    info ← λ t.
        (check e (query_port posted.context 1) >> ret (e.port t (query_port posted.context 1))) t
    locals ← local_infos info.lid posted.qp
    ret (record posted { portinfo = info }, locals)

  -- `setupIB`
  unfoldable pub setup_ib : (servername peer_num message_char : ℕ) → M Connection
  unfolding setup_local connect_client_to_remote connect_remotes
  setup_ib servername peer_num message_char = do
    (ctx, locals) ← setup_local peer_num message_char
    remotes ← connect_client_to_remote servername 18967 locals (replicate peer_num no_info)
    connect_remotes ctx locals remotes
    ret ctx

  -- `threadFunc` from the first `gettimeofday` on, in the client and in the server, with the value
  -- that `rcnt` happens to have: it is not set. `std::terminate` is a failed run; the result none is
  -- a loop that ran out of fuel.
  unfoldable pub thread_rounds : (fuel rcnt pending : ℕ) → Connection → (tid : ℕ) → M (Option Loop)
  thread_rounds fuel rcnt pending connection tid = do
    start ← stamp e host
    over ← poll_loop e (context_of connection tid) iterations false fuel (record {
      pending = pending;
      routs = connection.routs;
      rcnt = rcnt;
      scnt = 0;
      num_cq_events = 0;
    })
    elim over [
      | none ↦ ret none
      | some s ↦ do
        end ← stamp e host
        tell e (ack_cq_events connection.cq s.num_cq_events)
        ret (some s)
    ]

  -- `threadFunc`
  unfoldable pub thread_func : (fuel rcnt : ℕ) → Connection → (tid : ℕ) → M (Option Loop)
  unfolding thread_rounds
  thread_func fuel rcnt connection tid = do
    check e (setaffinity tid)
    post_send_work_req e connection tid
    thread_rounds fuel rcnt (bit_or connection.pending send_wrid) connection tid
