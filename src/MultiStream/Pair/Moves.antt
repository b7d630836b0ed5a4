-- ===== src/MultiStream/Pair/Moves.antt =====
-- A completion keeps what holds of an end of the multi-stream connections.
use network_infiniband_works.Base.{
  ℕ, ◌+◌, ◌<◌, ◌≤◌, ◌≡◌, inl, inr, arith, refl, sym, ◌∙◌, length, ◌==◌, Bool-cases,
}
use network_infiniband_works.Platform.{Env, Wc, Trace, done}
use network_infiniband_works.MultiThread.Engine.{Loop, handle_wc}
use network_infiniband_works.MultiThread.Engine.Queue.{HandledOn, handle_wc_on}
use network_infiniband_works.MultiStream.Context.{StreamContext}
use network_infiniband_works.MultiStream.Engine.{Place, Streams, find_qp, handle_qp_wc}
use network_infiniband_works.MultiStream.Engine.Find.{find_qp-eq-done}
use network_infiniband_works.MultiStream.Engine.Refine.{
  qp_context, view, put, handle_qp_wc-handle_wc,
}
use network_infiniband_works.MultiStream.Engine.Posted.{Posted, handle_qp_wc-Posted}
use network_infiniband_works.MultiStream.Pair.{
  StreamEnd, StreamMove, sent_done, received_done, qp_at, posted_on_qp, IsContext,
}
use network_infiniband_works.MultiStream.Pair.Total.{
  total, total_one_more, bump, bump_same, bump_other,
}
use network_infiniband_works.MultiStream.Pair.Side.{
  StreamSide, get_elem-get_or, get_or-InDepth, run_map_done, StreamSide-After,
}
use network_infiniband_works.MultiStream.Pair.After.{After-sent, After-received}

module _ (e : Env) (ctx : StreamContext) (iters n first : ℕ) (ok : IsContext n ctx) (x : StreamEnd)
    (s : StreamSide e ctx iters n first x) where
  -- Where the other end's messages do not run ahead of its turn.
  pub record Advanced (arrived : ℕ → ℕ) (y : StreamEnd) : Type 0 where
    pub side : StreamSide e ctx iters n first y
    pub counted : y.streams.scnt + y.streams.rcnt ≡ x.streams.scnt + x.streams.rcnt + 1
    pub not_ahead : (j : ℕ) → j < n → y.received j ≤ arrived j
    pub only_more : (j : ℕ) → j < n → posted_on_qp ctx x j ≤ posted_on_qp ctx y j

  -- A completion is one of the loop of multithreadIB.c, for its queue pair.
  record OnPlace (wc : Wc) (p : Place) (s' : Streams) (u : Trace) : Type 0 where
    small : p.index < n
    same : qp_at ctx p.index ≡ p.qp
    loop : Loop
    handled : HandledOn e (qp_context ctx p) iters wc (view x.streams p.index) loop x.log u
    stored : put x.streams p.index loop ≡ s'
    receives : Posted e ctx n s'

  handle_qp_wc-OnPlace :
      (wc : Wc) (p : Place) (s' : Streams) (u : Trace)
      → find_qp e ctx wc.qp_num ctx.qp_arr 0 x.log ≡ done p x.log
      → handle_qp_wc e ctx iters wc x.streams x.log ≡ done s' u
      → OnPlace wc p s' u
  handle_qp_wc-OnPlace wc p s' u found h =
      let (elem, _, _) = find_qp-eq-done e ctx wc.qp_num ctx.qp_arr x.log x.log p found in
      let (len, at_p) = get_elem-get_or ctx.qp_arr p.index p.qp elem in
      let small : p.index < n = omega (arith, len, ok.whole) in
      let flag : p.index < length x.streams.pending_qp = rw s.receives.one_flag_each small in
      let count : p.index < length x.streams.routs_arr = rw s.receives.one_count_each small in
      let same = handle_qp_wc-handle_wc e ctx p iters wc x.streams x.log found flag in
      let (l, run, stored) =
        run_map_done (put x.streams p.index)
          (handle_wc e (qp_context ctx p) iters wc (view x.streams p.index) x.log) s' u
          (sym same ∙ h) in
      record {
        small = small;
        same = at_p;
        loop = l;
        handled =
            handle_wc_on e (qp_context ctx p) iters wc (view x.streams p.index) l x.log u ok.deep
              (get_or-InDepth ctx.rx_depth x.streams.routs_arr p.index s.receives.in_depth count)
              run;
        stored = stored;
        receives = handle_qp_wc-Posted e ctx n iters wc x.streams s' x.log u ok.deep s.receives h;
      }

  pub StreamMove-Advanced :
      (arrived : ℕ → ℕ) (y : StreamEnd)
      → ((j : ℕ) → j < n → arrived j ≤ posted_on_qp ctx x j + first)
      → ((j : ℕ) → j < n → x.received j ≤ arrived j)
      → StreamMove e ctx iters arrived x y
      → Advanced arrived y
  StreamMove-Advanced arrived y in_turn behind (sent_done wc p s' u found id left h) =
      let o = handle_qp_wc-OnPlace wc p s' u found h in
      let (after, scnt, rcnt) =
        After-sent e ctx iters n first ok x s p o.small o.same o.loop u left id o.handled in
      let i = p.index in
      let bumped : total n (bump x.sent i) ≡ total n x.sent + 1 =
        total_one_more n i x.sent (bump x.sent i) o.small (bump_same x.sent i)
          (λ j k ne. bump_other x.sent i j ne) in
      let y' : StreamEnd = record {
        streams = put x.streams i o.loop;
        log = u;
        sent = bump x.sent i;
        received = x.received;
      } in
      let adv : Advanced arrived y' = record {
        side =
            StreamSide-After e ctx iters n {l = o.loop} (bump x.sent i) x.received s o.small
              (rw (bump_same x.sent i) after) (λ j ne. bump_other x.sent i j ne) (λ j ne. refl)
              (omega (arith, scnt, bumped, s.all_sent)) (omega (arith, rcnt, s.all_received))
              (rw o.stored o.receives);
        counted = omega (arith, scnt, rcnt);
        not_ahead = behind;
        only_more = after.only_more;
      } in
      rw (← o.stored) adv
  StreamMove-Advanced arrived y in_turn behind (received_done wc p s' u found id left h) =
      let o = handle_qp_wc-OnPlace wc p s' u found h in
      let i = p.index in
      let (after, scnt, rcnt) =
        After-received e ctx iters n first ok x s p o.small o.same o.loop u (arrived i)
          (in_turn i o.small) left id o.handled in
      let bumped : total n (bump x.received i) ≡ total n x.received + 1 =
        total_one_more n i x.received (bump x.received i) o.small (bump_same x.received i)
          (λ j k ne. bump_other x.received i j ne) in
      let y' : StreamEnd = record {
        streams = put x.streams i o.loop;
        log = u;
        sent = x.sent;
        received = bump x.received i;
      } in
      let adv : Advanced arrived y' = record {
        side =
            StreamSide-After e ctx iters n {l = o.loop} x.sent (bump x.received i) s o.small
              (rw (bump_same x.received i) after) (λ j ne. refl)
              (λ j ne. bump_other x.received i j ne) (omega (arith, scnt, s.all_sent))
              (omega (arith, rcnt, bumped, s.all_received)) (rw o.stored o.receives);
        counted = omega (arith, scnt, rcnt);
        not_ahead = λ j k. elim (Bool-cases (i == j)) [
          | inl eq ↦
              let at_i : i ≡ j = ground (arith, eq) in
              rw (← at_i) (omega (arith, bump_same x.received i, left))
          | inr other ↦ rw other (behind j k)
        ];
        only_more = after.only_more;
      } in
      rw (← o.stored) adv
