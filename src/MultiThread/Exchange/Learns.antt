-- ===== src/MultiThread/Exchange/Learns.antt =====
-- What the two ends of an exchange learn from each other.
use network_infiniband_works.Base.{
  ℕ, ℤ, List, [], ◌∷◌, ◌++◌, ◌≡◌, refl, ap, sym, ◌∙◌, arith, is_neg, is_int, Bool-cases, inl, inr,
  Bool,
}
use network_infiniband_works.Platform.{
  Env, Trace, Outcome, M, done, fail, >>=-eq-done, Event, told, read, close, need, malloc,
}
use network_infiniband_works.Wire.Dest.{PingpongDest, msg_size, print_dest, read_dest}
use network_infiniband_works.Wire.Dest.RoundTrip.{IsDest, read_dest-print_dest}
use network_infiniband_works.MultiThread.Exchange.{
  Host, Remote, at_exit, read_msg, server_talk, pp_server_exch_dest, server_reply,
}

-- What runs at the exit is the last call.
pub at_exit-eq-done {ℓ} :
    {A : Type ℓ} (ev : Event) (m : M A) (t : Trace) {a : A} {u : Trace}
    → at_exit ev m t ≡ done a u
    → (s : Trace) × (m t ≡ done a s) × (u ≡ ev ∷ s)
at_exit-eq-done {A} ev m t {a} {u} h = go (m t) refl h
  where
    go :
        (o : Outcome A)
        → m t ≡ o
        → (elim o [ done b s ↦ done b (ev ∷ s) | fail s ↦ fail (ev ∷ s) ]) ≡ done a u
        → (s : Trace) × (m t ≡ done a s) × (u ≡ ev ∷ s)
    go (done b s) p q = (s, cc, cc)
    go (fail s) p q = cc

module _ (e : Env) (host : Host) where
  read_msg-eq-done :
      (fd : ℤ) (t : Trace) {msg : List ℕ} {u : Trace}
      → read_msg e host fd t ≡ done msg u
      → msg ≡ e.bytes t (read fd msg_size)
  read_msg-eq-done fd t h = elim (Bool-cases (is_int (e.int t (read fd msg_size)) msg_size)) [
    | inl whole ↦ ground (arith, whole)
    | inr short ↦ ground (arith, short)
  ]

  done_dest : {r rem : Remote} {t u : Trace} → Outcome.done r t ≡ done rem u → r.dest ≡ rem.dest
  done_dest h = cc

  talk-eq-done :
      (qp ib_port mtu sl : ℕ) (my_dest : PingpongDest) (sgid_idx connfd : ℤ) (t u : Trace)
      (rem : Remote)
      → server_talk e host qp ib_port mtu sl my_dest sgid_idx connfd t ≡ done rem u
      → rem.dest ≡ read_dest host.little host.junk host.v32 (e.bytes t (read connfd msg_size))
  unfolding server_talk
  talk-eq-done qp ib_port mtu sl my_dest sgid_idx connfd t u rem h =
      let (msg, u3, p, h3) = >>=-eq-done (read_msg e host connfd) _ t h in
      let (at, u4, _, h4) = >>=-eq-done (need e (malloc 28)) _ u3 h3 in
      let (_, u5, _, h5) =
        >>=-eq-done
          (server_reply e host qp ib_port mtu sl my_dest sgid_idx connfd
            (record { at = at; dest = read_dest host.little host.junk host.v32 msg }))
          _ u4 h4 in
      sym (done_dest h5)
      ∙ ap (read_dest host.little host.junk host.v32) (read_msg-eq-done connfd t p)

  -- Where the server's exchange succeeds, and its first `read` delivers the message of a client for
  -- the address `d`, in whatever byte order the client has, the address that the server returns is
  -- `d`.
  pub server_learns :
      (from : Bool) (qp ib_port mtu sl : ℕ) (my_dest : PingpongDest) (sgid_idx connfd : ℤ)
      (t u : Trace) (rem : Remote) {d : PingpongDest}
      → IsDest d
      → e.bytes t (read connfd msg_size) ≡ print_dest from d ++ (0 ∷ [])
      → pp_server_exch_dest e host qp ib_port mtu sl my_dest sgid_idx connfd t ≡ done rem u
      → rem.dest ≡ d
  unfolding pp_server_exch_dest
  server_learns from qp ib_port mtu sl my_dest sgid_idx connfd t u rem {d} ok sent h =
      elim (Bool-cases (is_neg connfd)) [
        | inl bad ↦ ground (arith, bad, h)
        | inr good ↦
            let (v, h2, _) =
              at_exit-eq-done (told (close connfd))
                (server_talk e host qp ib_port mtu sl my_dest sgid_idx connfd) t (rw good at h) in
            talk-eq-done qp ib_port mtu sl my_dest sgid_idx connfd t v rem h2
            ∙ ap (read_dest host.little host.junk host.v32) sent
            ∙ read_dest-print_dest from host.little host.junk host.v32 [] ok
      ]
