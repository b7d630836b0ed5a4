-- ===== src/MultiStream/Run/Start.antt =====
-- The state with which `runPingPong` of multistreamTestRunner.c enters its loop, and leaves it.
use network_infiniband_works.Base.{
  ℕ, zero, suc, ◌+◌, ◌≤◌, ◌≡◌, refl, arith, ap, ◌∙◌, List, [], ◌∷◌, some, Bool, true, false,
  Bool-cases, inl, inr, ltb, length, length-replicate, replicate, if◌then◌else◌, bit_or,
}
use network_infiniband_works.Platform.{
  QpInitAttr, Env, Trace, M, done, fail, need, ask_ptr, tell, calloc, get_device_list, srand48,
  sysconf_pagesize, malloc, memset, open_device, create_comp_channel, alloc_pd, reg_mr, create_cq,
  create_qp, ret, ◌>>◌, refuse_if, is_null, >>=-eq-done,
}
use network_infiniband_works.Platform.Gives.{Gives, Gives-ret, Gives-bind, Gives-after, Gives-then}
use network_infiniband_works.Wire.Hex.Digits.{All}
use network_infiniband_works.MultiThread.Exchange.{Host}
use network_infiniband_works.MultiThread.Engine.{recv_wrid, send_wrid}
use network_infiniband_works.MultiThread.Run.{rx_depth_max, bad_port, first_device}
use network_infiniband_works.MultiThread.Context.{roundup, qp_init_attr, init_attr}
use network_infiniband_works.MultiStream.Context.{
  StreamContext, qp_request, stream_ctx_size, init_qps, create_qps, init_stream_ctx,
  pp_post_recv_qp, post_recv_rounds,
}
use network_infiniband_works.MultiStream.Engine.{Streams, streams_loop}
use network_infiniband_works.MultiStream.Engine.Posted.{
  InDepth, Posted, post_recv_rounds-le, streams_loop-Posted,
}
use network_infiniband_works.MultiStream.Run.{
  StreamCommands, post_all_recvs, set_up_streams, first_sends, send_all,
}

module _ (e : Env) where
  create_qps-length :
      (left pd : ℕ) (attr : QpInitAttr)
      → Gives (create_qps e left pd attr) (λ qps. length qps ≡ left)
  unfolding create_qps
  create_qps-length zero pd attr = Gives-ret [] refl
  create_qps-length (suc left) pd attr = Gives-after (need e (create_qp pd attr)) _ λ qp.
      Gives-bind (create_qps e left pd attr) _ (create_qps-length left pd attr)
        λ qps same. Gives-ret (qp ∷ qps) (ap suc same)

  -- The context has a queue pair for each peer.
  abbrev Whole : (depth peers : ℕ) → StreamContext → Type 0
  Whole depth peers ctx =
      (ctx.rx_depth ≡ depth) × (length ctx.qp_arr ≡ peers) × (ctx.peer_num ≡ peers)

  init_stream_ctx-Whole :
      (page_size ib_dev size rx_depth port : ℕ) (use_event is_server : Bool) (peers : ℕ)
      → Gives
          (init_stream_ctx e page_size ib_dev size rx_depth port use_event is_server peers)
          (Whole rx_depth peers)
  unfolding init_stream_ctx
  init_stream_ctx-Whole page_size ib_dev size rx_depth port use_event is_server peers =
      Gives-after (need e (calloc 1 stream_ctx_size)) _ λ self.
        Gives-then (tell e (calloc peers 4)) _ (
          Gives-after (need e (malloc (roundup size page_size))) _ λ buf.
            Gives-then (tell e (memset buf (if is_server then 0x7c else 0x7b) size)) _ (
              Gives-after (need e (open_device ib_dev)) _ λ context.
                Gives-after (if use_event then need e (create_comp_channel context) else ret 0) _
                  λ channel. Gives-after (need e (alloc_pd context)) _ λ pd.
                    Gives-after (need e (reg_mr pd buf size)) _ λ mr.
                      Gives-after (need e (create_cq context (rx_depth + 1) channel)) _ λ cq.
                        Gives-after (need e (calloc peers 8)) _ λ qp_mem.
                          Gives-bind (create_qps e peers pd (qp_init_attr cq rx_depth)) _
                            (create_qps-length peers pd (qp_init_attr cq rx_depth))
                            λ qps same.
                              Gives-then (init_qps e qps (init_attr port)) _
                                (Gives-ret _ (refl, same, refl))))

  module _ (host : Host) where
    -- The receives of a queue pair for each of `n` peers.
    abbrev pub AllPosted : (depth n : ℕ) → List ℕ → Type 0
    AllPosted depth n routs = All (InDepth depth) routs × (length routs ≡ n)

    post_all_recvs-AllPosted :
        (ctx : StreamContext) (qps : List ℕ) (i : ℕ)
        → 2 ≤ ctx.rx_depth
        → Gives (post_all_recvs e host ctx qps i) (AllPosted ctx.rx_depth (length qps))
    unfolding post_all_recvs pp_post_recv_qp
    post_all_recvs-AllPosted ctx [] i deep = Gives-ret [] (tt, refl)
    post_all_recvs-AllPosted ctx (qp ∷ qps) i deep = record {
      runs = λ t u routs h.
          let wr = qp_request ctx recv_wrid i in
          let (n, t1, p1, h1) = >>=-eq-done (post_recv_rounds e qp wr ctx.rx_depth 0) _ t h in
          let le = post_recv_rounds-le e qp wr ctx.rx_depth 0 n t t1 p1 in
          elim (Bool-cases (ltb n ctx.rx_depth)) [
            | inl short ↦ absurd (not_failed (rw short at h1))
            | inr enough ↦
                let h2 = rw enough at h1 in
                let (rest, t2, p2, h3) =
                  >>=-eq-done (post_all_recvs e host ctx qps (i + 1)) _ t1 h2 in
                let (all, len) =
                  (post_all_recvs-AllPosted ctx qps (i + 1) deep).runs t1 t2 rest p2 in
                let same : n ∷ rest ≡ routs = cc in
                rw (← same) (((ground (arith, enough, deep), omega (arith, le)), all), ap suc len)
          ];
    }
      where
        not_failed : {a : List ℕ} {v w : Trace} → fail v ≡ done a w → ⊥
        not_failed k = cc

    -- What the loop is entered with.
    abbrev Ready : (peers : ℕ) → (ℕ × StreamContext × List ℕ) → Type 0
    Ready peers (dev_list, ctx, routs) =
        Whole rx_depth_max peers ctx × AllPosted ctx.rx_depth peers routs

    set_up_streams-Ready :
        (commands : StreamCommands)
        → Gives (set_up_streams e host commands) (Ready commands.peer_num)
    unfolding set_up_streams
    set_up_streams-Ready commands = Gives-then (tell e srand48) _ (
        Gives-then (refuse_if (bad_port commands.port)) _ (
          Gives-after (ask_ptr e sysconf_pagesize) _ λ page_size.
            Gives-after (need e get_device_list) _ λ dev_list.
              Gives-after (first_device e host) _ λ ib_dev.
                Gives-bind
                  (init_stream_ctx e page_size ib_dev commands.size rx_depth_max 1 false
                    (is_null commands.servername) commands.peer_num)
                  _
                  (init_stream_ctx-Whole page_size ib_dev commands.size rx_depth_max 1 false
                    (is_null commands.servername) commands.peer_num)
                  λ ctx whole. Gives-then (tell e (calloc ctx.peer_num 4)) _ (
                    Gives-bind (post_all_recvs e host ctx ctx.qp_arr 0) _
                      (post_all_recvs-AllPosted ctx ctx.qp_arr 0 (omega (arith, whole.0)))
                      λ routs posted.
                        Gives-ret (dev_list, ctx, routs) (whole, (posted.0, posted.1 ∙ whole.1)))))

    pub first_sends-Posted :
        (commands : StreamCommands) (ctx : StreamContext) (routs : List ℕ) (peers : ℕ)
        → ctx.peer_num ≡ peers
        → AllPosted ctx.rx_depth peers routs
        → Gives (first_sends e host commands ctx routs) (Posted e ctx peers)
    unfolding first_sends
    first_sends-Posted commands ctx routs peers num posted =
        Gives-then (tell e (calloc ctx.peer_num 4)) _ (next (is_null commands.servername))
      where
        entered : ℕ → Streams
        entered flags = record {
          pending_qp = replicate ctx.peer_num flags;
          routs_arr = routs;
          rcnt = 0;
          scnt = 0;
        }

        started : (flags : ℕ) → Posted e ctx peers (entered flags)
        started flags = record {
          in_depth = posted.0;
          one_count_each = posted.1;
          one_flag_each = length-replicate ctx.peer_num flags ∙ num;
        }

        next :
            (server : Bool)
            → Gives
                (elim server as (λ _. M Streams) [
                  | true ↦ ret (entered recv_wrid)
                  | false ↦
                      send_all e host ctx ctx.qp_arr 0 >> ret (entered (bit_or recv_wrid send_wrid))
                ])
                (Posted e ctx peers)
        next true = Gives-ret (entered recv_wrid) (started recv_wrid)
        next false =
            Gives-then (send_all e host ctx ctx.qp_arr 0)
              (ret (entered (bit_or recv_wrid send_wrid)))
              (Gives-ret (entered (bit_or recv_wrid send_wrid))
                (started (bit_or recv_wrid send_wrid)))

-- Where a run of multistreamTestRunner.c is set up, makes its first sends and leaves its loop, each
-- of its queue pairs has at least 2 receives posted, and at most 500, and has its flags; and the
-- loop has counted at least `iters` messages received and `iters` sent.
pub streams_loop_receives :
    (e : Env) (host : Host) (commands : StreamCommands) (iters fuel : ℕ) (dev_list : ℕ)
    (ctx : StreamContext) (routs : List ℕ) (s s' : Streams) (t u v w x y : Trace)
    → set_up_streams e host commands t ≡ done (dev_list, ctx, routs) u
    → first_sends e host commands ctx routs v ≡ done s w
    → streams_loop e ctx iters fuel s x ≡ done (some s') y
    → All (InDepth rx_depth_max) s'.routs_arr
      × (length s'.routs_arr ≡ commands.peer_num)
      × (length s'.pending_qp ≡ commands.peer_num)
      × (iters ≤ s'.rcnt)
      × (iters ≤ s'.scnt)
streams_loop_receives e host commands iters fuel dev_list ctx routs s s' t u v w x y set_up first
      looped =
    let (whole, posted) =
      (set_up_streams-Ready e host commands).runs t u (dev_list, ctx, routs) set_up in
    let start =
      (first_sends-Posted e host commands ctx routs commands.peer_num whole.2 posted).runs v w s
        first in
    let (kept, received, sent) =
      streams_loop-Posted e ctx commands.peer_num iters fuel s s' x y (omega (arith, whole.0)) start
        looped in
    (rw whole.0 at kept.in_depth, kept.one_count_each, kept.one_flag_each, received, sent)
