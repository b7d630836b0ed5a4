-- ===== src/MultiStream/Pair/Take.antt =====
-- An end of the multi-stream connections takes what there is to take, if the queue pairs have
-- numbers of their own and accept every request.
use network_infiniband_works.Base.{
  ℕ, zero, suc, ◌+◌, ◌<◌, ◌≤◌, ◌≡◌, ◌≢◌, ◌⊎◌, inl, inr, arith, refl, ap, ◌∙◌, List, [], ◌∷◌, length,
  get_or, ◌==◌, true, false,
}
use network_infiniband_works.Platform.{Env, Wc, Trace, done, qp_num}
use network_infiniband_works.MultiThread.Engine.{recv_wrid, send_wrid}
use network_infiniband_works.MultiThread.Engine.Accept.{handle_wc_returns}
use network_infiniband_works.MultiStream.Context.{StreamContext}
use network_infiniband_works.MultiStream.Engine.{Streams, find_qp, handle_qp_wc}
use network_infiniband_works.MultiStream.Engine.Refine.{
  qp_context, view, put, run_map, handle_qp_wc-handle_wc,
}
use network_infiniband_works.MultiStream.Engine.Posted.{Posted}
use network_infiniband_works.MultiStream.Pair.{
  StreamEnd, StreamMove, sent_done, received_done, qp_at, place_at, posted_on_qp, IsContext, Serves,
}
use network_infiniband_works.MultiStream.Pair.Total.{search_below}

module _ (e : Env) (ctx : StreamContext) where
  find_at :
      (num : ℕ) (qps : List ℕ) (k i : ℕ) (t : Trace)
      → i < length qps
      → num ≡ e.ptr t (qp_num (get_or qps i 0))
      → ((j : ℕ) → j < i → num ≢ e.ptr t (qp_num (get_or qps j 0)))
      → find_qp e ctx num qps k t ≡ done (record { index = k + i; qp = get_or qps i 0 }) t
  unfolding find_qp
  find_at num [] k i t l same before = absurd (omega arith)
  find_at num (q ∷ qps) k zero t l same before =
      let yes' : (num == e.ptr t (qp_num q)) ≡ true = ground (arith, same) in
      rw (find_qp, yes') (ap (λ j. done (record { index = j; qp = q }) t) (omega arith))
  find_at num (q ∷ qps) k (suc i) t l same before =
      let ne = before 0 (omega arith) in
      let no' : (num == e.ptr t (qp_num q)) ≡ false = ground (arith, ne) in
      let rest =
        find_at num qps (k + 1) i t (omega (arith, l)) same
          (λ j below. before (suc j) (omega (arith, below))) in
      rw (find_qp, no')
        (rest ∙ ap (λ j. done (record { index = j; qp = get_or qps i 0 }) t) (omega arith))

  module _ (iters n : ℕ) (ok : IsContext n ctx) (serves : Serves e n ctx) (x : StreamEnd)
      (receives : Posted e ctx n x.streams) where
    abbrev wc_at : (id i : ℕ) → Wc
    wc_at id i = record { wr_id = id; status = 0; qp_num = e.ptr x.log (qp_num (qp_at ctx i)) }

    found_at :
        (id i : ℕ)
        → i < n
        → find_qp e ctx (wc_at id i).qp_num ctx.qp_arr 0 x.log ≡ done (place_at ctx i) x.log
    found_at id i l =
        find_at (e.ptr x.log (qp_num (qp_at ctx i))) ctx.qp_arr 0 i x.log
          (omega (arith, l, ok.whole)) refl
          (λ j below same.
            let eq = serves.own_number x.log i j l (omega (arith, below, l)) same in
            absurd (omega (arith, eq, below)))
        ∙ ap (λ j. done (record { index = j; qp = qp_at ctx i }) x.log) (omega arith)

    handled_at :
        (id i : ℕ)
        → i < n
        → (id ≡ send_wrid) ⊎ (id ≡ recv_wrid)
        → (s : Streams) × (u : Trace) × (handle_qp_wc e ctx iters (wc_at id i) x.streams x.log
            ≡ done s u)
    handled_at id i l which =
        let p = place_at ctx i in
        let flag : i < length x.streams.pending_qp = rw (receives.one_flag_each) l in
        let (m, u, run) =
          handle_wc_returns e (qp_context ctx p) (serves.accepts i l) iters (wc_at id i)
            (view x.streams i) x.log refl which in
        let same =
          handle_qp_wc-handle_wc e ctx p iters (wc_at id i) x.streams x.log (found_at id i l)
            flag in
        (put x.streams i m, u, same ∙ ap (run_map (put x.streams i)) run)

    pub take_or_none :
        (arrived : ℕ → ℕ)
        → ((y : StreamEnd) × StreamMove e ctx iters arrived x y)
          ⊎ (((i : ℕ) → i < n → posted_on_qp ctx x i ≤ x.sent i)
              × ((i : ℕ) → i < n → arrived i ≤ x.received i))
    take_or_none arrived = elim (search_below n x.sent (posted_on_qp ctx x)) [
      | inl (i, l, left) ↦
          let (s, u, h) = handled_at send_wrid i l (inl refl) in
          inl (
            _,
            sent_done (wc_at send_wrid i) (place_at ctx i) s u (found_at send_wrid i l) refl left h,
          )
      | inr all_sent ↦ elim (search_below n x.received arrived) [
        | inl (i, l, left) ↦
            let (s, u, h) = handled_at recv_wrid i l (inr refl) in
            inl (
              _,
              received_done (wc_at recv_wrid i) (place_at ctx i) s u (found_at recv_wrid i l) refl
                  left h,
            )
        | inr all_received ↦ inr (all_sent, all_received)
      ]
    ]
