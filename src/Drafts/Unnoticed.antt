-- ===== src/Drafts/Unnoticed.antt =====
-- What the exchanges of the draft do with a failure.
use network_infiniband_works.Base.{
  ℕ, zero, suc, ◌+◌, ◌≡◌, refl, ap, ◌∙◌, ℤ, negsuc, List, [], ◌∷◌, ◌++◌, is_int, inl, inr,
  Bool-cases, length, length-set, set, get_or,
}
use network_infiniband_works.Platform.{
  Env, Trace, M, QpAttr, QpFlag, done, bind_done, tell, ret, told, int, read, write, close,
  modify_qp, ◌>>=◌, ◌>>◌,
}
use network_infiniband_works.Wire.Gid.{gid_to_wire_gid}
use network_infiniband_works.Wire.Dest.{PingpongDest, Scan, msg_size, read_dest}
use network_infiniband_works.MultiThread.Connect.{mtu_1024}
use network_infiniband_works.MultiThread.Exchange.{Host, dest_msg, done_msg}
use network_infiniband_works.Drafts.{
  Connection, move_all, set_qp_state_rtr, set_qp_state_rts, prep_ib_device_to_connect,
}
use network_infiniband_works.Drafts.Client.{exchange_each, no_info}
use network_infiniband_works.Drafts.Server.{answer_each}

module _ (e : Env) where
  move_all_returns :
      (qps : List ℕ) (attr : QpAttr) (mask : List QpFlag) (t : Trace)
      → (u : Trace) × (move_all e qps attr mask t ≡ done tt u)
  unfolding move_all
  move_all_returns [] attr mask t = (t, refl)
  move_all_returns (qp ∷ qps) attr mask t =
      let c = modify_qp qp attr mask in move_all_returns qps attr mask (int c (e.int t c) ∷ t)

  prep_returns :
      (ctx : Connection) (psn : ℕ) (d : PingpongDest) (t : Trace)
      → (u : Trace) × (prep_ib_device_to_connect e ctx 1 psn mtu_1024 0 d (negsuc 0) t ≡ done tt u)
  unfolding prep_ib_device_to_connect set_qp_state_rtr set_qp_state_rts
  prep_returns ctx psn d t =
      let (v, first) = move_all_returns ctx.qp _ _ t in
      let (u, second) = move_all_returns ctx.qp _ _ v in
      (u, bind_done (set_qp_state_rtr e ctx 1 mtu_1024 0 d (negsuc 0)) _ t first second)

  module _ (host : Host) (fd : ℤ) where
    -- A run that returns `n` addresses.
    abbrev pub Answers : M (List PingpongDest) → (n : ℕ) → Trace → Type 0
    Answers m n t = (rs : List PingpongDest) × (u : Trace) × (m t ≡ done rs u) × (length rs ≡ n)

    exchanged :
        (locals : List PingpongDest) (k : ℕ) (remotes : List PingpongDest) (t : Trace)
        → Answers (exchange_each e host fd locals k remotes) (length remotes) t
    unfolding exchange_each
    exchanged [] k remotes t = (remotes, t, refl, refl)
    exchanged (local ∷ locals) k remotes t =
        let w = write fd (dest_msg host local) in
        let t1 = int w (e.int t w) ∷ t in
        let r = read fd msg_size in
        let t2 = int r (e.int t1 r) ∷ t1 in
        elim (Bool-cases (is_int (e.int t w) msg_size)) [
          | inr lost ↦
              let (rs, u, run, len) = exchanged locals k remotes (told (close fd) ∷ t1) in
              (rs, u, rw lost run, len)
          | inl sent ↦ elim (Bool-cases (is_int (e.int t1 r) msg_size)) [
            | inr lost ↦
                let (rs, u, run, len) = exchanged locals k remotes (told (close fd) ∷ t2) in
                (rs, u, rw (sent, lost) run, len)
            | inl got ↦
                let old : PingpongDest = get_or remotes k no_info in
                let f : Scan = record {
                  lid = old.lid;
                  qpn = old.qpn;
                  psn = old.psn;
                  gid = gid_to_wire_gid host.little local.gid ++ (0 ∷ []);
                } in
                let remote = read_dest host.little f host.v32 (e.bytes t1 r) in
                let (rs, u, run, len) =
                  exchanged locals (k + 1) (set remotes k remote) (told (write fd done_msg) ∷ t2) in
                (rs, u, rw (sent, got) run, len ∙ length-set remotes k remote)
          ]
        ]

    followed :
        (d : PingpongDest) (m : M (List PingpongDest)) (n : ℕ) (t : Trace)
        → Answers m n t
        → Answers (m >>= λ rest. ret (d ∷ rest)) (suc n) t
    followed d m n t (rs, u, run, len) = (d ∷ rs, u, bind_done m _ t run refl, ap suc len)

    answered :
        (ctx : Connection) (locals : List PingpongDest) (left l : ℕ) (gid : List ℕ) (t : Trace)
        → Answers (answer_each e host ctx fd locals left l gid) left t
    unfolding answer_each
    answered ctx locals zero l gid t = ([], t, refl, refl)
    answered ctx locals (suc left) l gid t =
        let r = read fd msg_size in
        let t1 = int r (e.int t r) ∷ t in
        let local : PingpongDest = get_or locals l no_info in
        let own : List ℕ = gid_to_wire_gid host.little local.gid ++ (0 ∷ []) in
        let f : Scan = record { lid = 0; qpn = 0; psn = 0; gid = gid } in
        let remote : PingpongDest = read_dest host.little f host.v32 (e.bytes t r) in
        let (v, prep) = prep_returns ctx local.psn remote t1 in
        let w = write fd (dest_msg host local) in
        let t2 = int w (e.int v w) ∷ v in
        elim (Bool-cases (is_int (e.int t r) msg_size)) [
          | inr lost ↦
              let rest = answered ctx locals left l gid (told (close fd) ∷ t1) in
              let (rs, u, run, len) =
                followed no_info (tell e (close fd) >> answer_each e host ctx fd locals left l gid)
                  left t1 rest in
              (rs, u, rw lost run, len)
          | inl got ↦ elim (Bool-cases (is_int (e.int v w) msg_size)) [
            | inr lost ↦
                let rest = answered ctx locals left l own (told (close fd) ∷ t2) in
                let (rs, u, run, len) =
                  followed remote (tell e (close fd) >> answer_each e host ctx fd locals left l own)
                    left t2 rest in
                (
                  rs,
                  u,
                  rw got (
                      bind_done
                        (prep_ib_device_to_connect e ctx 1 local.psn mtu_1024 0 remote (negsuc 0)) _
                        t1 prep (rw lost run)),
                  len,
                )
            | inl sent ↦
                let rest = answered ctx locals left (l + 1) own (told r ∷ t2) in
                let (rs, u, run, len) =
                  followed remote (tell e r >> answer_each e host ctx fd locals left (l + 1) own)
                    left t2 rest in
                (
                  rs,
                  u,
                  rw got (
                      bind_done
                        (prep_ib_device_to_connect e ctx 1 local.psn mtu_1024 0 remote (negsuc 0)) _
                        t1 prep (rw sent run)),
                  len,
                )
          ]
        ]

    -- Whatever the reads, the writes and the moves of the queue pairs return, the exchange of the
    -- client and that of the server do not fail: the client returns as many remote addresses as it
    -- came with, and the server one for each remote queue pair.
    pub failures_unnoticed :
        (ctx : Connection) (locals remotes : List PingpongDest) (peers : ℕ) (gid : List ℕ)
        (t u : Trace)
        → Answers (exchange_each e host fd locals 0 remotes) (length remotes) t
          × Answers (answer_each e host ctx fd locals peers 0 gid) peers u
    failures_unnoticed ctx locals remotes peers gid t u =
        (exchanged locals 0 remotes t, answered ctx locals peers 0 gid u)
