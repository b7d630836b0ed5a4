-- ===== src/MultiThread/Engine/Queue.antt =====
-- On which queue pair the loop posts its sends.
use network_infiniband_works.Base.{
  ℕ, zero, suc, ◌+◌, ◌-◌, ◌<◌, ◌≤◌, ◌≡◌, ◌≢◌, ◌⊎◌, inl, inr, sym, ap, arith, [], ◌∷◌, Bool-cases,
  ltb, leb, ◌==◌, ◌&&◌, is_zero, not, if◌then◌else◌,
}
use network_infiniband_works.Platform.{
  Event, Trace, int, Wc, Env, done, post_send, post_recv, refuse_if, >>=-eq-done,
}
use network_infiniband_works.MultiThread.Context.{PingpongContext}
use network_infiniband_works.MultiThread.Engine.{
  Loop, recv_wrid, send_wrid, request, clear, both_pending, post_recv_loop, pp_post_recv,
  pp_post_send, count_recv, count_wc, resend, handle_wc,
}
use network_infiniband_works.MultiThread.Engine.Steps.{Window, Counted, count_wc_done}

-- The sends that a trace posted on queue pair `q`, refused ones left out.
abbrev pub sends_on_of : ℕ → Event → ℕ
sends_on_of q (int (post_send p w) r) = if q == p then (if is_zero r then 1 else 0) else 0
sends_on_of q _ = 0

abbrev pub sends_on : ℕ → Trace → ℕ
sends_on q [] = 0
sends_on q (ev ∷ t) = sends_on_of q ev + sends_on q t

module _ (e : Env) (ctx : PingpongContext) (q : ℕ) where
  post_recv_on :
      (left i : ℕ) (t u : Trace) (n : ℕ)
      → post_recv_loop e ctx left i t ≡ done n u
      → sends_on q u ≡ sends_on q t
  unfolding post_recv_loop
  post_recv_on zero i t u n h = let same : t ≡ u = cc in ap (sends_on q) (sym same)
  post_recv_on (suc left) i t u n h =
      let c = post_recv ctx.qp (request ctx recv_wrid) in
      elim (Bool-cases (is_zero (e.int t c))) [
        | inl taken ↦
            let ih =
              post_recv_on left (i + 1) (int c (e.int t c) ∷ t) u n
                (rw (taken, post_recv_loop) at h) in
            omega (arith, ih)
        | inr refused ↦
            let h' = rw (refused, post_recv_loop) at h in
            let same : int c (e.int t c) ∷ t ≡ u = cc in rw (← same) (omega arith)
      ]

  count_recv_on :
      (s s' : Loop) (t u : Trace) → count_recv e ctx s t ≡ done s' u → sends_on q u ≡ sends_on q t
  unfolding count_recv pp_post_recv
  count_recv_on s s' t u h = elim (Bool-cases (leb (s.routs - 1) 1)) [
    | inr high ↦ let h' = rw high at h in let same : t ≡ u = cc in ap (sends_on q) (sym same)
    | inl low ↦
        let (more, v, k, h1) =
          >>=-eq-done (post_recv_loop e ctx (ctx.rx_depth - (s.routs - 1)) 0) _ t (rw low at h) in
        let (a, w, k1, h2) =
          >>=-eq-done (refuse_if (ltb (s.routs - 1 + more) ctx.rx_depth)) _ v h1 in
        let same : v ≡ w = ground arith in
        let same_end : w ≡ u = cc in
        rw (← same_end, ← same) (post_recv_on (ctx.rx_depth - (s.routs - 1)) 0 t v more k)
  ]

  count_wc_on :
      (wc : Wc) (s s' : Loop) (t u : Trace)
      → count_wc e ctx wc s t ≡ done s' u
      → sends_on q u ≡ sends_on q t
  unfolding count_wc
  count_wc_on wc s s' t u h = elim (Bool-cases (wc.wr_id == send_wrid)) [
    | inl is_send ↦ let h' = rw is_send at h in let same : t ≡ u = cc in ap (sends_on q) (sym same)
    | inr other ↦ elim (Bool-cases (wc.wr_id == recv_wrid)) [
      | inl is_recv ↦ count_recv_on s s' t u (rw (other, is_recv) at h)
      | inr unknown ↦ absurd (ground arith)
    ]
  ]

module _ (e : Env) (ctx : PingpongContext) where
  -- Whether a send is posted behind the switch, and on which queue pair.
  pub data ResentOn (iters id : ℕ) (s s' : Loop) (t u : Trace) : Type 0 where
    posted_on :
        clear s.pending id ≡ 0
        → s.scnt < iters
        → s' ≡ record s { pending = both_pending }
        → ((q : ℕ) → sends_on q u ≡ (if q == ctx.qp then 1 else 0) + sends_on q t)
        → ResentOn iters id s s' t u
    kept_on :
        (clear s.pending id ≢ 0) ⊎ (iters ≤ s.scnt)
        → s' ≡ record s { pending = clear s.pending id }
        → ((q : ℕ) → sends_on q u ≡ sends_on q t)
        → ResentOn iters id s s' t u

  resend_on :
      (iters : ℕ) (wc : Wc) (s s' : Loop) (t u : Trace)
      → resend e ctx iters wc s t ≡ done s' u
      → ResentOn iters wc.wr_id s s' t u
  unfolding resend pp_post_send
  resend_on iters wc s s' t u h =
      elim (Bool-cases (ltb s.scnt iters && clear s.pending wc.wr_id == 0)) [
        | inl again ↦ posted_on (ground arith) (ground arith) (ground arith) (λ q. ground arith)
        | inr not_again ↦ kept_on (ground arith) (ground arith) (λ q. ground arith)
      ]

  -- The calls of a completion, where `middle` is the state behind the switch.
  pub record HandledOn (iters : ℕ) (wc : Wc) (s s' : Loop) (t u : Trace) : Type 0 where
    pub middle : Loop
    pub middle_log : Trace
    pub counted : Counted e ctx wc s middle t middle_log
    pub counted_on : (q : ℕ) → sends_on q middle_log ≡ sends_on q t
    pub resent : ResentOn iters wc.wr_id middle s' middle_log u

  pub handle_wc_on :
      (iters : ℕ) (wc : Wc) (s s' : Loop) (t u : Trace)
      → 2 ≤ ctx.rx_depth
      → Window e ctx s
      → handle_wc e ctx iters wc s t ≡ done s' u
      → HandledOn iters wc s s' t u
  unfolding handle_wc
  handle_wc_on iters wc s s' t u deep w h =
      let (a, t', p, rest) = >>=-eq-done (refuse_if (not (wc.status == 0))) _ t h in
      let same : t ≡ t' = ground arith in
      let (m, v, k, r) = >>=-eq-done (count_wc e ctx wc s) (resend e ctx iters wc) t' rest in
      let k' : count_wc e ctx wc s t ≡ done m v = rw same k in
      record {
        middle = m;
        middle_log = v;
        counted = count_wc_done e ctx wc s t deep w k';
        counted_on = λ q. count_wc_on e ctx q wc s m t v k';
        resent = resend_on iters wc m s' v u r;
      }
