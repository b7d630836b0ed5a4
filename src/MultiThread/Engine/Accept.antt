-- ===== src/MultiThread/Engine/Accept.antt =====
-- Where the queue pair takes every work request, a successful completion of a send or a receive is
-- handled to the end.
use network_infiniband_works.Base.{
  ℕ, zero, suc, ◌+◌, ◌-◌, ◌∷◌, true, false, ◌&&◌, ltb, leb, ◌==◌, pos, ◌≡◌, ◌⊎◌, inl, inr, refl,
  arith, Bool-cases,
}
use network_infiniband_works.Platform.{int, Trace, Wc, post_recv, post_send, Env, done, bind_done}
use network_infiniband_works.MultiThread.Context.{PingpongContext}
use network_infiniband_works.MultiThread.Engine.{
  recv_wrid, send_wrid, request, post_recv_loop, pp_post_recv, Loop, clear, both_pending,
  count_recv, count_wc, resend, handle_wc,
}

-- `ibv_post_send` and `ibv_post_recv` return 0 for the two requests that the program posts: they
-- are well formed, and there is room for them (`Side` bounds what is outstanding by one send and
-- `rx_depth` receives, which is what the queue pair was made for).
pub record Accepts (e : Env) (ctx : PingpongContext) : Type 0 where
  pub sends_taken : (t : Trace) → e.int t (post_send ctx.qp (request ctx send_wrid)) ≡ pos 0
  pub receives_taken : (t : Trace) → e.int t (post_recv ctx.qp (request ctx recv_wrid)) ≡ pos 0

module _ (e : Env) (ctx : PingpongContext) (a : Accepts e ctx) where
  post_recv_all :
      (left i : ℕ) (t : Trace) → (u : Trace) × (post_recv_loop e ctx left i t ≡ done (i + left) u)
  unfolding post_recv_loop
  post_recv_all zero i t = (t, ground arith)
  post_recv_all (suc left) i t =
      let c = post_recv ctx.qp (request ctx recv_wrid) in
      let (u, p) = post_recv_all left (i + 1) (int c (e.int t c) ∷ t) in
      (u, ground (arith, a.receives_taken t, p))

  count_recv_returns :
      (s : Loop) (t : Trace) → (l : Loop) × (u : Trace) × (count_recv e ctx s t ≡ done l u)
  unfolding count_recv pp_post_recv
  count_recv_returns s t =
      let (u, p) = post_recv_all (ctx.rx_depth - (s.routs - 1)) 0 t in
      elim (Bool-cases (leb (s.routs - 1) 1)) [
        | inl low ↦ (
          record s { routs = s.routs - 1 + (ctx.rx_depth - (s.routs - 1)); rcnt = s.rcnt + 1 },
          u,
          ground (arith, p),
        )
        | inr high ↦ (record s { routs = s.routs - 1; rcnt = s.rcnt + 1 }, t, ground arith)
      ]

  resend_returns :
      (iters : ℕ) (wc : Wc) (s : Loop) (t : Trace)
      → (l : Loop) × (u : Trace) × (resend e ctx iters wc s t ≡ done l u)
  unfolding resend
  resend_returns iters wc s t =
      elim (Bool-cases (ltb s.scnt iters && clear s.pending wc.wr_id == 0)) [
        | inl again ↦
            let c = post_send ctx.qp (request ctx send_wrid) in
            (
              record s { pending = both_pending },
              int c (e.int t c) ∷ t,
              ground (arith, a.sends_taken t),
            )
        | inr not_again ↦ (record s { pending = clear s.pending wc.wr_id }, t, ground arith)
      ]

  count_wc_returns :
      (wc : Wc) (s : Loop) (t : Trace)
      → (wc.wr_id ≡ send_wrid) ⊎ (wc.wr_id ≡ recv_wrid)
      → (m : Loop) × (v : Trace) × (count_wc e ctx wc s t ≡ done m v)
  unfolding count_wc
  count_wc_returns wc s t (inl is_send) =
      let yes' : (wc.wr_id == send_wrid) ≡ true = ground arith in
      (record s { scnt = s.scnt + 1 }, t, rw yes' refl)
  count_wc_returns wc s t (inr is_recv) =
      let no' : (wc.wr_id == send_wrid) ≡ false = ground arith in
      let yes' : (wc.wr_id == recv_wrid) ≡ true = ground arith in
      let (m, v, q) = count_recv_returns s t in (m, v, rw (no', yes') q)

  pub handle_wc_returns :
      (iters : ℕ) (wc : Wc) (s : Loop) (t : Trace)
      → wc.status ≡ 0
      → (wc.wr_id ≡ send_wrid) ⊎ (wc.wr_id ≡ recv_wrid)
      → (l : Loop) × (u : Trace) × (handle_wc e ctx iters wc s t ≡ done l u)
  unfolding handle_wc
  handle_wc_returns iters wc s t ok which =
      let good : (wc.status == 0) ≡ true = ground arith in
      let (m, v, q) = count_wc_returns wc s t which in
      let (l, u, p) = resend_returns iters wc m v in
      (l, u, rw good (bind_done (count_wc e ctx wc s) (resend e ctx iters wc) t q p))
