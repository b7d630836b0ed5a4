-- ===== src/MultiThread/Engine/Steps.antt =====
-- What one completion does to the variables of the loop and to the work that is posted.
use network_infiniband_works.Base.{
  ℕ, zero, suc, ◌+◌, ◌-◌, ◌*◌, ◌<◌, ◌≤◌, [], ◌∷◌, ◌&&◌, not, ltb, ◌==◌, if◌then◌else◌, is_zero, ◌≡◌,
  ◌≢◌, ◌⊎◌, inl, inr, refl, arith, Bool-cases,
}
use network_infiniband_works.Platform.{
  Call, Event, int, Trace, Wc, post_recv, post_send, Env, M, done, refuse_if, >>=-eq-done,
}
use network_infiniband_works.MultiThread.Context.{PingpongContext}
use network_infiniband_works.MultiThread.Engine.{
  recv_wrid, send_wrid, request, post_recv_loop, pp_post_recv, pp_post_send, Loop, clear,
  both_pending, count_recv, count_wc, resend, handle_wc,
}

-- The sends that a trace posted, refused ones left out.
abbrev pub sends_of : Event → ℕ
sends_of (int (post_send q w) r) = if is_zero r then 1 else 0
sends_of _ = 0

abbrev pub sends : Trace → ℕ
sends [] = 0
sends (ev ∷ t) = sends_of ev + sends t

module _ (e : Env) (ctx : PingpongContext) where
  -- `pp_post_recv` always returns, with at most as many receives as it was asked for.
  pub record Posts (m : M ℕ) (asked : ℕ) (t : Trace) : Type 0 where
    pub count : ℕ
    pub log : Trace
    pub returns : m t ≡ done count log
    pub most : count ≤ asked
    pub same_sends : sends log ≡ sends t

  post_recv_total : (left i : ℕ) (t : Trace) → Posts (post_recv_loop e ctx left i) (i + left) t
  unfolding post_recv_loop
  post_recv_total zero i t = record {
    count = i;
    log = t;
    returns = refl;
    most = omega arith;
    same_sends = refl;
  }
  post_recv_total (suc left) i t = elim (Bool-cases (is_zero (e.int t c))) [
    | inl taken ↦
        let p = post_recv_total left (i + 1) (int c (e.int t c) ∷ t) in
        record {
          count = p.count;
          log = p.log;
          returns = rw (taken, post_recv_loop) p.returns;
          most = omega (arith, p.most);
          same_sends = omega (arith, p.same_sends);
        }
    | inr refused ↦ record {
      count = i;
      log = int c (e.int t c) ∷ t;
      returns = rw (refused, post_recv_loop) refl;
      most = omega arith;
      same_sends = omega arith;
    }
  ]
    where
      c : Call
      c = post_recv ctx.qp (request ctx recv_wrid)

  pub pp_post_recv_total : (n : ℕ) (t : Trace) → Posts (pp_post_recv e ctx n) n t
  unfolding pp_post_recv
  pp_post_recv_total n t =
      let p = post_recv_total n 0 t in
      record {
        count = p.count;
        log = p.log;
        returns = p.returns;
        most = omega (arith, p.most);
        same_sends = p.same_sends;
      }

  -- The receives posted are between 2 and the depth of the queue.
  abbrev pub Window : Loop → Type 0
  Window s = (2 ≤ s.routs) × (s.routs ≤ ctx.rx_depth)

  pub record Received (s s' : Loop) (t u : Trace) : Type 0 where
    pub pending_same : s'.pending ≡ s.pending
    pub scnt_same : s'.scnt ≡ s.scnt
    pub rcnt_more : s'.rcnt ≡ s.rcnt + 1
    pub sends_same : sends u ≡ sends t
    pub window : Window s'

  count_recv_done :
      (s : Loop) (t : Trace) {s' : Loop} {u : Trace}
      → 2 ≤ ctx.rx_depth
      → Window s
      → count_recv e ctx s t ≡ done s' u
      → Received s s' t u
  unfolding count_recv
  count_recv_done s t deep w h =
      let p = pp_post_recv_total (ctx.rx_depth - (s.routs - 1)) t in
      ground (arith, p.returns, p.most, p.same_sends)

  -- The two completions that the switch counts.
  pub data Counted (wc : Wc) (s s' : Loop) (t u : Trace) : Type 0 where
    sent : wc.wr_id ≡ send_wrid → s' ≡ record s { scnt = s.scnt + 1 } → u ≡ t → Counted wc s s' t u
    received : wc.wr_id ≡ recv_wrid → Received s s' t u → Counted wc s s' t u

  pub count_wc_done :
      (wc : Wc) (s : Loop) (t : Trace) {s' : Loop} {u : Trace}
      → 2 ≤ ctx.rx_depth
      → Window s
      → count_wc e ctx wc s t ≡ done s' u
      → Counted wc s s' t u
  unfolding count_wc
  count_wc_done wc s t {s'} {u} deep w h = elim (Bool-cases (wc.wr_id == send_wrid)) [
    | inl is_send ↦ sent (ground arith) (ground arith) (ground arith)
    | inr other ↦ elim (Bool-cases (wc.wr_id == recv_wrid)) [
      | inl is_recv ↦
          received (ground arith) (count_recv_done s t deep w (rw (other, is_recv) at h))
      | inr unknown ↦ absurd (ground arith)
    ]
  ]

  -- Whether a send is posted behind the switch.
  pub data Resent (iters id : ℕ) (s s' : Loop) (t u : Trace) : Type 0 where
    posted :
        clear s.pending id ≡ 0
        → s.scnt < iters
        → s' ≡ record s { pending = both_pending }
        → sends u ≡ sends t + 1
        → Resent iters id s s' t u
    kept :
        (clear s.pending id ≢ 0) ⊎ (iters ≤ s.scnt)
        → s' ≡ record s { pending = clear s.pending id }
        → u ≡ t
        → Resent iters id s s' t u

  pub resend_done :
      (iters : ℕ) (wc : Wc) (s : Loop) (t : Trace) {s' : Loop} {u : Trace}
      → resend e ctx iters wc s t ≡ done s' u
      → Resent iters wc.wr_id s s' t u
  unfolding resend pp_post_send
  resend_done iters wc s t {s'} {u} h =
      elim (Bool-cases (ltb s.scnt iters && clear s.pending wc.wr_id == 0)) [
        | inl again ↦ posted (ground arith) (ground arith) (ground arith) (ground arith)
        | inr not_again ↦ kept (ground arith) (ground arith) (ground arith)
      ]

  -- A completion that the body of the loop takes without giving up.
  pub record Handled (iters : ℕ) (wc : Wc) (s s' : Loop) (t u : Trace) : Type 0 where
    pub success : wc.status ≡ 0
    pub middle : Loop
    pub middle_log : Trace
    pub counted : Counted wc s middle t middle_log
    pub resent : Resent iters wc.wr_id middle s' middle_log u

  pub handle_wc_done :
      (iters : ℕ) (wc : Wc) (s : Loop) (t : Trace) {s' : Loop} {u : Trace}
      → 2 ≤ ctx.rx_depth
      → Window s
      → handle_wc e ctx iters wc s t ≡ done s' u
      → Handled iters wc s s' t u
  unfolding handle_wc
  handle_wc_done iters wc s t {s'} {u} deep w h =
      let (a, t', p, rest) = >>=-eq-done (refuse_if (not (wc.status == 0))) _ t h in
      let same : t ≡ t' = ground arith in
      let (m, v, q, r) = >>=-eq-done (count_wc e ctx wc s) (resend e ctx iters wc) t' rest in
      record {
        success = ground arith;
        middle = m;
        middle_log = v;
        counted = count_wc_done wc s t deep w (rw same q);
        resent = resend_done iters wc m v r;
      }

-- The bits of `pending` that a completion clears: `a` is the send bit and `b` the receive bit.
pub clear_bits :
    (a b : ℕ)
    → a ≤ 1
    → b ≤ 1
    → (clear (2 * a + b) send_wrid ≡ b) × (clear (2 * a + b) recv_wrid ≡ 2 * a)
unfolding clear
clear_bits zero zero ha hb = (refl, refl)
clear_bits zero (suc zero) ha hb = (refl, refl)
clear_bits zero (suc (suc b)) ha hb = absurd (omega arith)
clear_bits (suc zero) zero ha hb = (refl, refl)
clear_bits (suc zero) (suc zero) ha hb = (refl, refl)
clear_bits (suc zero) (suc (suc b)) ha hb = absurd (omega arith)
clear_bits (suc (suc a)) b ha hb = absurd (omega arith)
