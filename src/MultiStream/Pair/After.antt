-- ===== src/MultiStream/Pair/After.antt =====
-- What a completion leaves of its queue pair, and of the others.
use network_infiniband_works.Base.{
  ℕ, ◌+◌, ◌<◌, ◌≤◌, ◌≡◌, ◌≢◌, ◌⊎◌, inl, inr, arith, refl, ap, ◌∙◌, get_or,
}
use network_infiniband_works.Platform.{Env, Wc, Trace}
use network_infiniband_works.MultiThread.Engine.{recv_wrid, send_wrid, Loop, clear, both_pending}
use network_infiniband_works.MultiThread.Engine.Steps.{sent, received}
use network_infiniband_works.MultiThread.Engine.Queue.{
  sends_on, ResentOn, posted_on, kept_on, HandledOn,
}
use network_infiniband_works.MultiStream.Context.{StreamContext}
use network_infiniband_works.MultiStream.Engine.{Place}
use network_infiniband_works.MultiStream.Engine.Refine.{qp_context, view}
use network_infiniband_works.MultiStream.Pair.{StreamEnd, qp_at, posted_on_qp, IsContext}
use network_infiniband_works.MultiStream.Pair.Channel.{
  Channel, Channel-eq, Channel-sent_resent, Channel-sent_kept, Channel-received_resent,
  Channel-received_kept,
}
use network_infiniband_works.MultiStream.Pair.Side.{StreamSide, After, ResentOn-others}

module _ (e : Env) (ctx : StreamContext) (iters n first : ℕ) (ok : IsContext n ctx) (x : StreamEnd)
    (s : StreamSide e ctx iters n first x) where
  module _ (p : Place) (small : p.index < n) (same : qp_at ctx p.index ≡ p.qp) (l : Loop)
      (u : Trace) where
    -- What is posted behind the switch, where the channel is known in both cases.
    After-resent :
        {id sent' received' : ℕ} {m : Loop} {v : Trace}
        → ((q : ℕ) → sends_on q v ≡ sends_on q x.log)
        → x.streams.scnt ≤ m.scnt
        → (clear m.pending id ≡ 0
            → Channel iters first m.scnt both_pending
                (posted_on_qp ctx x p.index + 1)
                sent'
                received')
        → ((clear m.pending id ≢ 0) ⊎ (iters ≤ m.scnt)
            → Channel iters first m.scnt
                (clear m.pending id)
                (posted_on_qp ctx x p.index)
                sent'
                received')
        → ResentOn e (qp_context ctx p) iters id m l v u
        → After e ctx iters n first p.index x l u sent' received'
          × (l.scnt ≡ m.scnt)
          × (l.rcnt ≡ m.rcnt)
    After-resent {id} {sent'} {received'} {m} {v} log_same later when_posted when_kept
          (posted_on none_left room q more) =
        let (others, only_more, scnt, rcnt) =
          ResentOn-others e ctx iters n ok small same (posted_on none_left room q more) in
        (
          record {
            channel =
                Channel-eq scnt (ground arith)
                  (ground (arith, more (qp_at ctx p.index), same, log_same (qp_at ctx p.index)))
                  (when_posted none_left);
            others = λ j k ne. others j k ne ∙ log_same (qp_at ctx j);
            bounded = inl (omega (arith, room, scnt));
            only_more = λ j k. omega (arith, only_more j k, log_same (qp_at ctx j));
            later = omega (arith, later, scnt);
          },
          scnt,
          rcnt,
        )
    After-resent {id} {sent'} {received'} {m} {v} log_same later when_posted when_kept
          (kept_on why q all) =
        let scnt : l.scnt ≡ m.scnt = ground arith in
        (
          record {
            channel =
                Channel-eq scnt (ground arith)
                  (all (qp_at ctx p.index) ∙ log_same (qp_at ctx p.index)) (when_kept why);
            others = λ j k ne. all (qp_at ctx j) ∙ log_same (qp_at ctx j);
            bounded = inr (λ j k. all (qp_at ctx j) ∙ log_same (qp_at ctx j));
            only_more = λ j k. omega (arith, all (qp_at ctx j), log_same (qp_at ctx j));
            later = omega (arith, later, scnt);
          },
          scnt,
          ground arith,
        )

    pub After-sent :
        {wc : Wc}
        → x.sent p.index < posted_on_qp ctx x p.index
        → wc.wr_id ≡ send_wrid
        → HandledOn e (qp_context ctx p) iters wc (view x.streams p.index) l x.log u
        → After e ctx iters n first p.index x l u (x.sent p.index + 1) (x.received p.index)
          × (l.scnt ≡ x.streams.scnt + 1)
          × (l.rcnt ≡ x.streams.rcnt)
    After-sent left id h = elim h.counted [
      | received i r ↦ absurd (omega (arith, i, id))
      | sent i em ev ↦
          let c = s.channels p.index small in
          let pending : h.middle.pending ≡ get_or x.streams.pending_qp p.index 0 =
            ap (λ m. m.pending) em in
          let scnt : h.middle.scnt ≡ x.streams.scnt + 1 = ap (λ m. m.scnt) em in
          let rcnt : h.middle.rcnt ≡ x.streams.rcnt = ap (λ m. m.rcnt) em in
          let (after, scnt', rcnt') =
            After-resent {sent' = x.sent p.index + 1} {received' = x.received p.index} h.counted_on
              (omega (arith, scnt))
              (λ none_left.
                Channel-eq scnt refl refl
                  (Channel-sent_resent c left (rw (pending, id) at none_left)))
              (λ why.
                Channel-eq scnt (rw (pending, id) refl) refl
                  (Channel-sent_kept c left (rw (pending, id, scnt) at why)))
              h.resent in
          (after, scnt' ∙ scnt, rcnt' ∙ rcnt)
    ]

    pub After-received :
        {wc : Wc} (arrived : ℕ)
        → arrived ≤ posted_on_qp ctx x p.index + first
        → x.received p.index < arrived
        → wc.wr_id ≡ recv_wrid
        → HandledOn e (qp_context ctx p) iters wc (view x.streams p.index) l x.log u
        → After e ctx iters n first p.index x l u (x.sent p.index) (x.received p.index + 1)
          × (l.scnt ≡ x.streams.scnt)
          × (l.rcnt ≡ x.streams.rcnt + 1)
    After-received arrived in_turn left id h = elim h.counted [
      | sent i em ev ↦ absurd (omega (arith, i, id))
      | received i r ↦
          let c = s.channels p.index small in
          let (after, scnt', rcnt') =
            After-resent {sent' = x.sent p.index} {received' = x.received p.index + 1} h.counted_on
              (omega (arith, r.scnt_same))
              (λ none_left. Channel-eq r.scnt_same refl refl (
                Channel-received_resent c arrived in_turn left
                  (rw (r.pending_same, id) at none_left)))
              (λ why. Channel-eq r.scnt_same (rw (r.pending_same, id) refl) refl (
                Channel-received_kept c arrived in_turn left
                  (rw (r.pending_same, id, r.scnt_same) at why)))
              h.resent in
          (after, scnt' ∙ r.scnt_same, rcnt' ∙ r.rcnt_more)
    ]
