-- ===== src/MultiThread/Pair/Enter.antt =====
-- How `runPingPong` of multithreadIB.c enters its loop: the start of the two ends.
use network_infiniband_works.Base.{
  ℕ, ◌+◌, ◌≤◌, ◌≡◌, refl, sym, ◌∙◌, arith, Bool, true, false, ltb, if◌then◌else◌, Bool-cases, inl,
  inr,
}
use network_infiniband_works.Platform.{
  Env, Trace, done, fail, is_null, ◌>>=◌, ◌>>◌, ret, need, check, tell, ask_ptr, refuse_if,
  >>=-eq-done, calloc, malloc, memset, open_device, create_comp_channel, alloc_pd, reg_mr,
  create_cq, create_qp, modify_qp, srand48, setaffinity, sysconf_pagesize, get_device_list,
}
use network_infiniband_works.Platform.Gives.{Gives, Gives-ret, Gives-bind, Gives-after, Gives-then}
use network_infiniband_works.MultiThread.Context.{
  PingpongContext, pp_init_ctx, ctx_size, roundup, init_attr, init_mask, qp_init_attr,
}
use network_infiniband_works.MultiThread.Engine.{
  Loop, pp_post_recv, pp_post_send, both_pending, recv_wrid,
}
use network_infiniband_works.MultiThread.Engine.Steps.{sends, pp_post_recv_total}
use network_infiniband_works.MultiThread.Exchange.{Host}
use network_infiniband_works.MultiThread.Run.{
  Commands, rx_depth_max, bad_port, first_device, set_up, first_send,
}
use network_infiniband_works.MultiThread.Pair.{Setup, Start}

-- The context that `set_up` returns, with the receives that are posted on it.
record Ready (ctx : PingpongContext) (routs : ℕ) : Type 0 where
  deep : ctx.rx_depth ≡ rx_depth_max
  all_posted : routs ≡ ctx.rx_depth

module _ (e : Env) (host : Host) where
  init_ctx-Gives :
      (page_size ib_dev size depth port : ℕ) (use_event is_server : Bool)
      → Gives
          (pp_init_ctx e page_size ib_dev size depth port use_event is_server)
          (λ ctx. ctx.rx_depth ≡ depth)
  unfolding pp_init_ctx
  init_ctx-Gives page_size ib_dev size depth port use_event is_server =
      Gives-after (need e (calloc 1 ctx_size)) _ λ self.
        Gives-after (need e (malloc (roundup size page_size))) _ λ buf.
          Gives-then (tell e (memset buf (if is_server then 0x7c else 0x7b) size)) _ (
            Gives-after (need e (open_device ib_dev)) _ λ context.
              Gives-after (if use_event then need e (create_comp_channel context) else ret 0) _
                λ channel. Gives-after (need e (alloc_pd context)) _ λ pd.
                  Gives-after (need e (reg_mr pd buf size)) _ λ mr.
                    Gives-after (need e (create_cq context (depth + 1) channel)) _ λ cq.
                      Gives-after (need e (create_qp pd (qp_init_attr cq depth))) _ λ qp.
                        Gives-then (check e (modify_qp qp (init_attr port) init_mask)) _
                          (Gives-ret _ refl))

  -- The receives, and the test that gives up where they are too few.
  posted-Gives :
      (dev_list : ℕ) (ctx : PingpongContext)
      → ctx.rx_depth ≡ rx_depth_max
      → Gives {A = ℕ × PingpongContext × ℕ}
          (pp_post_recv e ctx ctx.rx_depth >>= λ routs.
            refuse_if (ltb routs ctx.rx_depth) >> ret (dev_list, ctx, routs))
          (λ r. Ready r.1 r.2)
  posted-Gives dev_list ctx deep = record {
    runs = λ t u r h.
        let (routs, v, p, q) = >>=-eq-done (pp_post_recv e ctx ctx.rx_depth) _ t h in
        let total = pp_post_recv_total e ctx ctx.rx_depth t in
        let most : routs ≤ ctx.rx_depth =
          let same : total.count ≡ routs = same_count (sym total.returns ∙ p) in
          omega (arith, total.most, same) in
        elim (Bool-cases (ltb routs ctx.rx_depth)) [
          | inl short ↦ absurd (not_failed (rw short at q))
          | inr enough ↦
              let q' = rw enough at q in
              let same : (dev_list, ctx, routs) ≡ r = cc in
              rw (← same) (record { deep = deep; all_posted = ground (arith, enough, most) })
        ];
  }
    where
      same_count : {a b : ℕ} {v w : Trace} → done a v ≡ done b w → a ≡ b
      same_count k = cc

      not_failed : {a : ℕ × PingpongContext × ℕ} {v w : Trace} → fail v ≡ done a w → ⊥
      not_failed k = cc

  set_up-Gives :
      (commands : Commands)
      → Gives {A = ℕ × PingpongContext × ℕ} (set_up e host commands) (λ r. Ready r.1 r.2)
  unfolding set_up
  set_up-Gives commands = Gives-then (tell e srand48) _ (
      Gives-then (refuse_if (bad_port commands.port)) _ (
        Gives-then (check e (setaffinity commands.thread_num)) _ (
          Gives-after (ask_ptr e sysconf_pagesize) _ λ page_size.
            Gives-after (need e get_device_list) _ λ dev_list.
              Gives-after (first_device e host) _ λ ib_dev.
                Gives-bind
                  (pp_init_ctx e page_size ib_dev commands.size rx_depth_max 1 false
                    (is_null commands.servername))
                  _
                  (init_ctx-Gives page_size ib_dev commands.size rx_depth_max 1 false
                    (is_null commands.servername))
                  λ ctx deep. posted-Gives dev_list ctx deep)))

-- One end as `first_send` leaves it.
record Entered (routs flags posted : ℕ) (s : Loop) (u : Trace) : Type 0 where
  flagged : s.pending ≡ flags
  receives : s.routs ≡ routs
  none_received : s.rcnt ≡ 0
  none_sent : s.scnt ≡ 0
  first_posted : sends u ≡ posted

module _ (e : Env) (host : Host) (ctx : PingpongContext) (commands : Commands) (routs : ℕ)
    (s : Loop) (t u : Trace) (none_yet : sends t ≡ 0)
    (h : first_send e host commands ctx routs t ≡ done s u) where
  server-Entered : is_null commands.servername ≡ true → Entered routs recv_wrid 0 s u
  unfolding first_send
  server-Entered server =
      let h' = rw (server, first_send) at h in
      record {
        flagged = ground arith;
        receives = ground arith;
        none_received = ground arith;
        none_sent = ground arith;
        first_posted = ground arith;
      }

  client-Entered : is_null commands.servername ≡ false → Entered routs both_pending 1 s u
  unfolding first_send pp_post_send
  client-Entered client =
      let h' = rw (client, first_send) at h in
      record {
        flagged = ground arith;
        receives = ground arith;
        none_received = ground arith;
        none_sent = ground arith;
        first_posted = ground arith;
      }

-- Where a client and a server have been set up by `set_up`, and nothing was sent before: `first_send`
-- hands over the state that the two ends start with. The client has posted one send and has both
-- flags, the server has posted none and has the flag for a receive, and both have posted the 500
-- receives that their queue pairs were made for.
pub first_send-Start :
    (k : Setup) (host_c host_s : Host) (commands_c commands_s : Commands)
    (dev_list dev_list' routs routs' : ℕ) (s s' : Loop) (r r' t t' u u' v v' : Trace)
    → set_up k.client_env host_c commands_c r ≡ done (dev_list, k.client_ctx, routs) t
    → set_up k.server_env host_s commands_s r' ≡ done (dev_list', k.server_ctx, routs') t'
    → is_null commands_c.servername ≡ false
    → is_null commands_s.servername ≡ true
    → sends u ≡ 0
    → sends u' ≡ 0
    → first_send k.client_env host_c commands_c k.client_ctx routs u ≡ done s v
    → first_send k.server_env host_s commands_s k.server_ctx routs' u' ≡ done s' v'
    → Start k
        (record { client = record { loop = s; log = v }; server = record { loop = s'; log = v' } })
      × (s.routs ≡ rx_depth_max)
      × (s'.routs ≡ rx_depth_max)
first_send-Start k host_c host_s commands_c commands_s dev_list dev_list' routs routs' s s' r r' t
      t' u u' v v' up up' client server none_c none_s h h' =
    let ready = (set_up-Gives k.client_env host_c commands_c).runs r t _ up in
    let ready' = (set_up-Gives k.server_env host_s commands_s).runs r' t' _ up' in
    let a =
      client-Entered k.client_env host_c k.client_ctx commands_c routs s u v none_c h client in
    let b =
      server-Entered k.server_env host_s k.server_ctx commands_s routs' s' u' v' none_s h' server in
    (
      record {
        client_pending = a.flagged;
        client_routs = a.receives ∙ ready.all_posted;
        client_rcnt = a.none_received;
        client_scnt = a.none_sent;
        client_sends = a.first_posted;
        server_pending = b.flagged;
        server_routs = b.receives ∙ ready'.all_posted;
        server_rcnt = b.none_received;
        server_scnt = b.none_sent;
        server_sends = b.first_posted;
      },
      a.receives ∙ ready.all_posted ∙ ready.deep,
      b.receives ∙ ready'.all_posted ∙ ready'.deep,
    )
