-- ===== src/Drafts/Server.antt =====
-- The server of the draft: `connectRemoteToClient` of temp/CommonIBUtilFuncs.cpp, and `setupIB` and
-- `threadFunc` of temp/SimpleIBServer.cpp.
use network_infiniband_works.Base.{
  ℕ, zero, suc, ◌+◌, ℤ, negsuc, List, [], ◌∷◌, ◌++◌, Option, not, is_neg, is_int, get_or,
  if◌then◌else◌,
}
use network_infiniband_works.Platform.{
  Env, M, ◌>>=◌, ◌>>◌, ret, refuse_if, check, tell, ask_int, asprintf, getaddrinfo, freeaddrinfo,
  listen, accept, read, write, close, setaffinity,
}
use network_infiniband_works.Wire.Gid.{gid_to_wire_gid}
use network_infiniband_works.Wire.Dest.{PingpongDest, msg_size, Scan, read_dest}
use network_infiniband_works.Sockets.{minus_one, bind_first}
use network_infiniband_works.MultiThread.Connect.{mtu_1024}
use network_infiniband_works.MultiThread.Exchange.{Host, dest_msg}
use network_infiniband_works.MultiThread.Engine.{Loop}
use network_infiniband_works.Drafts.{Connection, prep_ib_device_to_connect}
use network_infiniband_works.Drafts.Client.{no_info, setup_local, thread_rounds}

module _ (e : Env) (host : Host) where
  -- The body of the `for_each` over the remote addresses, the rest of which is `next`: `l` is the
  -- index of the own address, and `gid` what the buffer of that name holds. A failure closes the
  -- socket, leaves `l` as it is, and goes on with the next address.
  abbrev answer_one :
      Connection
      → ℤ
      → (locals : List PingpongDest) (l : ℕ) (gid : List ℕ)
      → (next : (l : ℕ) (gid : List ℕ) → M (List PingpongDest)) → M (List PingpongDest)
  answer_one ctx connfd locals l gid next t =
      (do
        n ← ask_int e (read connfd msg_size)
        if not (is_int n msg_size)
            then (tell e (close connfd) >> next l gid >>= λ rest. ret (no_info ∷ rest))
            else (do
              let local : PingpongDest = get_or locals l no_info
              let own : List ℕ = gid_to_wire_gid host.little local.gid ++ (0 ∷ [])
              let f : Scan = record { lid = 0; qpn = 0; psn = 0; gid = gid }
              let remote : PingpongDest =
                  read_dest host.little f host.v32 (e.bytes t (read connfd msg_size))
              prep_ib_device_to_connect e ctx 1 local.psn mtu_1024 0 remote (negsuc 0)
              w ← ask_int e (write connfd (dest_msg host local))
              if not (is_int w msg_size)
                  then (tell e (close connfd) >> next l own >>= λ rest. ret (remote ∷ rest))
                  else (tell e (read connfd msg_size) >> next (l + 1) own >>= λ rest.
                      ret (remote ∷ rest))))
        t

  -- For `left` remote addresses.
  unfoldable pub answer_each :
      Connection
      → ℤ
      → (locals : List PingpongDest) (left l : ℕ) (gid : List ℕ) → M (List PingpongDest)
  answer_each ctx connfd locals zero l gid = ret []
  answer_each ctx connfd locals (suc left) l gid =
      answer_one ctx connfd locals l gid (answer_each ctx connfd locals left)

  -- `remoteQPserverInfo` as it is left; the status 1 is a failed run. The result of `listen` is not
  -- tested.
  unfoldable pub connect_remote_to_client :
      Connection → (port : ℕ) (locals : List PingpongDest) (peers : ℕ) → M (List PingpongDest)
  unfolding answer_each
  connect_remote_to_client ctx port locals peers = do
    s ← ask_int e (asprintf port)
    refuse_if (is_neg s)
    λ t1.
        (do
          n ← ask_int e (getaddrinfo 0 port)
          refuse_if (is_neg n)
          sockfd ← bind_first e (e.addrs t1 (getaddrinfo 0 port)) minus_one
          tell e freeaddrinfo
          refuse_if (is_neg sockfd)
          tell e (listen sockfd 1)
          connfd ← ask_int e (accept sockfd)
          tell e (close sockfd)
          refuse_if (is_neg connfd)
          remotes ← answer_each ctx connfd locals peers 0 host.junk.gid
          tell e (close connfd)
          ret remotes)
          t1

  -- `setupIB`
  unfoldable pub setup_ib_server : (peer_num message_char : ℕ) → M Connection
  unfolding connect_remote_to_client
  setup_ib_server peer_num message_char = do
    (ctx, locals) ← setup_local e host peer_num message_char
    connect_remote_to_client ctx 18967 locals peer_num
    ret ctx

  -- `threadFunc`, which counts its receives in a variable of its own.
  unfoldable pub thread_func_server : (fuel rcnt : ℕ) → Connection → (tid : ℕ) → M (Option Loop)
  thread_func_server fuel rcnt connection tid =
      check e (setaffinity tid) >> thread_rounds e host fuel rcnt connection.pending connection tid
