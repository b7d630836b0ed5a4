-- ===== src/MultiStream/Connect.antt =====
-- multistreamTestRunner.c: the connection of one queue pair and the exchange of the addresses. Where
-- the program repeats a function of multithreadIB.c line by line, the model of that one is used.
pub mod Delays
use network_infiniband_works.Base.{
  ℕ, zero, suc, ◌*◌, ◌/◌, ℤ, ◌∷◌, true, false, leb, is_neg, is_zero,
}
use network_infiniband_works.Platform.{
  int, told, Env, M, done, fail, ◌>>=◌, ◌>>◌, ret, refuse_if, need, tell, malloc, free, read,
  connect, sleep,
}
use network_infiniband_works.Sockets.{
  retry_timeout, minus_one, create_server_connection, accept_client_connection,
  create_client_connection,
}
use network_infiniband_works.Wire.Dest.{PingpongDest, msg_size, read_dest}
use network_infiniband_works.MultiThread.Connect.{pp_connect_ctx}
use network_infiniband_works.MultiThread.Exchange.{
  Remote, Host, dest_size, read_msg, write_msg, on_failure, pp_client_exch_dest,
}

-- `pp_connect_ctx` of multithreadIB.c, with the queue pair as its argument.
unfoldable pub pp_connect_ctx_per_qp : Env → ℕ → ℕ → ℕ → ℕ → ℕ → PingpongDest → ℤ → M (Unit {0})
pp_connect_ctx_per_qp e qp port my_psn mtu sl dest sgid_idx =
    pp_connect_ctx e qp port my_psn mtu sl dest sgid_idx

-- `createServerConnection`, `acceptClientConnection` and `createClientSocketConnection`, as in
-- multithreadIB.c.
unfoldable pub server_connection : Env → ℕ → M ℤ
server_connection e port = create_server_connection e port

unfoldable pub client_accepted : Env → ℤ → M ℤ
client_accepted e sockfd = accept_client_connection e sockfd

unfoldable pub client_connection : Env → (port node : ℕ) → M ℤ
client_connection e port node = create_client_connection e port node

-- `retryClientServerConnect` from `numsec` on, on fuel: a run that is out of rounds is a failed one.
-- `addr` and `alen` are the address; no function calls it. After the last delay, of 32 seconds, comes
-- one more attempt.
pub retry_connect : Env → (left numsec : ℕ) (sockfd : ℤ) (addr : ℕ) → M ℤ
retry_connect e zero numsec sockfd addr t = fail t
retry_connect e (suc left) numsec sockfd addr t = elim (leb numsec retry_timeout) [
  | false ↦ done minus_one t
  | true ↦
      let r = e.int t (connect sockfd addr) in
      let t1 = int (connect sockfd addr) r ∷ t in
      elim (is_zero r) [
        | true ↦ done sockfd t1
        | false ↦ elim (leb numsec (retry_timeout / 2)) [
          | true ↦ retry_connect e left (numsec * 2) sockfd addr (told (sleep numsec) ∷ t1)
          | false ↦ retry_connect e left (numsec * 2) sockfd addr t1
        ]
      ]
]

unfoldable pub retry_client_server_connect : Env → ℤ → ℕ → M ℤ
unfolding retry_connect
retry_client_server_connect e sockfd addr = retry_connect e 8 1 sockfd addr

-- `pp_client_exch_dest`, as in multithreadIB.c.
unfoldable pub client_exch_dest : Env → Host → PingpongDest → ℤ → M Remote
client_exch_dest e host my_dest connection_id = pp_client_exch_dest e host my_dest connection_id

module _ (e : Env) (host : Host) where
  -- From the assignment to `rem_dest` on.
  unfoldable pub qp_reply : (qp ib_port mtu sl : ℕ) → PingpongDest → ℤ → ℤ → Remote → M (Unit {0})
  unfolding pp_connect_ctx_per_qp
  qp_reply qp ib_port mtu sl my_dest sgid_idx connfd rem = on_failure (told (free rem.at)) (do
    pp_connect_ctx_per_qp e qp ib_port my_dest.psn mtu sl rem.dest sgid_idx
    write_msg e host connfd my_dest)

  -- `pp_server_exch_dest`, which leaves the connection open for the next queue pair.
  unfoldable pub server_exch_dest : (qp ib_port mtu sl : ℕ) → PingpongDest → ℤ → ℤ → M Remote
  unfolding qp_reply
  server_exch_dest qp ib_port mtu sl my_dest sgid_idx connfd = do
    refuse_if (is_neg connfd)
    msg ← read_msg e host connfd
    at ← need e (malloc dest_size)
    let rem : Remote = record { at = at; dest = read_dest host.little host.junk host.v32 msg }
    qp_reply qp ib_port mtu sl my_dest sgid_idx connfd rem
    tell e (read connfd msg_size)
    ret rem
