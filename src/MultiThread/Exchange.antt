-- ===== src/MultiThread/Exchange.antt =====
-- multithreadIB.c: `pp_client_exch_dest` and `pp_server_exch_dest`, which carry the addresses of two
-- queue pairs over a TCP connection.
pub mod Learns
use network_infiniband_works.Base.{ℕ, ℤ, List, [], ◌∷◌, ◌++◌, Bool, not, is_neg, is_int}
use network_infiniband_works.Platform.{
  Event, told, Env, Outcome, M, done, fail, ◌>>=◌, ◌>>◌, ret, refuse_if, need, tell, ask_int,
  malloc, free, read, write, close,
}
use network_infiniband_works.Wire.Gid.{gid_to_wire_gid}
use network_infiniband_works.Wire.Dest.{PingpongDest, msg_size, Scan, print_dest, read_dest}
use network_infiniband_works.MultiThread.Connect.{pp_connect_ctx}

-- The address of the other end, in memory that `malloc` gave.
pub record Remote : Type 0 where
  pub at : ℕ
  pub dest : PingpongDest

-- What the program reads before it has written it: the byte order of the host, the fresh memory
-- and the local `v32` of `wire_gid_to_gid`.
pub record Host : Type 0 where
  pub little : Bool
  pub junk : Scan
  pub v32 : ℕ

-- `sizeof *rem_dest`
abbrev pub dest_size : ℕ
dest_size = 28

-- "done" with its NUL.
abbrev pub done_msg : List ℕ
done_msg = 100 ∷ 111 ∷ 110 ∷ 101 ∷ 0 ∷ []

-- The 52 bytes of `msg`: the text and its NUL.
abbrev pub dest_msg : Host → PingpongDest → List ℕ
dest_msg host d = print_dest host.little d ++ (0 ∷ [])

-- What runs on the way out by `goto out`, and on the way out at the end as well.
abbrev pub at_exit {ℓ} : {A : Type ℓ} → Event → M A → M A
at_exit ev m t = elim (m t) [ done a u ↦ done a (ev ∷ u) | fail u ↦ fail (ev ∷ u) ]

-- What runs on the way out by `goto out` only.
abbrev pub on_failure {ℓ} : {A : Type ℓ} → Event → M A → M A
on_failure ev m t = elim (m t) [ done a u ↦ done a u | fail u ↦ fail (ev ∷ u) ]

module _ (e : Env) (host : Host) where
  -- `read (fd, msg, sizeof msg)`, with the test of its result; the bytes that it leaves in `msg`.
  abbrev pub read_msg : ℤ → M (List ℕ)
  read_msg fd t =
      (do
        n ← ask_int e (read fd msg_size)
        refuse_if (not (is_int n msg_size))
        ret (e.bytes t (read fd msg_size)))
        t

  abbrev pub write_msg : ℤ → PingpongDest → M (Unit {0})
  write_msg fd d = do
    n ← ask_int e (write fd (dest_msg host d))
    refuse_if (not (is_int n msg_size))

  -- The buffer `gid` holds the text of the own GID when the message is scanned.
  unfoldable pub pp_client_exch_dest : PingpongDest → ℤ → M Remote
  pp_client_exch_dest my_dest connection_id = do
    refuse_if (is_neg connection_id)
    write_msg connection_id my_dest
    msg ← read_msg connection_id
    tell e (write connection_id done_msg)
    at ← need e (malloc dest_size)
    let f = record host.junk { gid = gid_to_wire_gid host.little my_dest.gid ++ (0 ∷ []) }
    ret (record { at = at; dest = read_dest host.little f host.v32 msg })

  -- From the assignment to `rem_dest` on; `free (rem_dest)` on each way out by an error.
  unfoldable pub server_reply :
      (qp ib_port mtu sl : ℕ) → PingpongDest → ℤ → ℤ → Remote → M (Unit {0})
  unfolding pp_connect_ctx
  server_reply qp ib_port mtu sl my_dest sgid_idx connfd rem = on_failure (told (free rem.at)) (do
    pp_connect_ctx e qp ib_port my_dest.psn mtu sl rem.dest sgid_idx
    write_msg connfd my_dest)

  -- Up to the label `out`. The last `read` is not tested.
  unfoldable pub server_talk : (qp ib_port mtu sl : ℕ) → PingpongDest → ℤ → ℤ → M Remote
  unfolding server_reply
  server_talk qp ib_port mtu sl my_dest sgid_idx connfd = do
    msg ← read_msg connfd
    at ← need e (malloc dest_size)
    let rem : Remote = record { at = at; dest = read_dest host.little host.junk host.v32 msg }
    server_reply qp ib_port mtu sl my_dest sgid_idx connfd rem
    tell e (read connfd msg_size)
    ret rem

  -- `qp` is `ctx->qp`.
  unfoldable pub pp_server_exch_dest : (qp ib_port mtu sl : ℕ) → PingpongDest → ℤ → ℤ → M Remote
  unfolding server_talk
  pp_server_exch_dest qp ib_port mtu sl my_dest sgid_idx connfd =
      refuse_if (is_neg connfd)
      >> at_exit (told (close connfd)) (server_talk qp ib_port mtu sl my_dest sgid_idx connfd)
