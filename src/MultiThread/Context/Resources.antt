-- ===== src/MultiThread/Context/Resources.antt =====
-- `pp_close_ctx` gives back what `pp_init_ctx` acquired.
use network_infiniband_works.Base.{
  ℕ, List, ◌∷◌, Bool, true, false, if◌then◌else◌, ◌≡◌, arith, some, none, Option, refl, suc, zero,
}
use network_infiniband_works.Platform.{
  Trace, Env, M, ◌>>=◌, ◌>>◌, ret, is_null, need, check, destroy_comp_channel, create_comp_channel,
}
use network_infiniband_works.Platform.Resources.{
  Resource, Kind, held_of, give_back, acquire, Keeps, all, more,
}
use network_infiniband_works.Platform.Hoare.{
  Ends, Holds, Holds-tell_last, Holds-ret, Holds-need, Holds-check, Holds-tell,
}
use network_infiniband_works.MultiThread.Context.{PingpongContext, pp_init_ctx, pp_close_ctx}

abbrev held : Kind → ℕ → Resource
held k h = record { kind = k; handle = h }

-- What a context holds, the last acquired first, over what was held before. A channel is held only
-- if there is one.
abbrev pub holdings : PingpongContext → List Resource → List Resource
holdings ctx before =
    held Kind.qp ctx.qp
    ∷ held Kind.cq ctx.cq
    ∷ held Kind.mr ctx.mr
    ∷ held Kind.pd ctx.pd
    ∷ acquire (some Kind.channel) ctx.channel (
        held Kind.device ctx.context
        ∷ held Kind.memory ctx.buf
        ∷ held Kind.memory ctx.self
        ∷ before)

give_back_top :
    (k : Kind) (h : ℕ) (rest : List Resource) → give_back (held k h) (held k h ∷ rest) ≡ some rest
give_back_top Kind.memory h rest = ground arith
give_back_top k h rest = ground arith

Keeps-acquire :
    (k : Option Kind) (h : ℕ) {before now : List Resource}
    → Keeps before now
    → Keeps before (acquire k h now)
Keeps-acquire none h s = s
Keeps-acquire (some k) zero s = s
Keeps-acquire (some k) (suc h) s = more s

module _ (e : Env) where
  -- The channel is made only where events are used.
  channel_holds {ℓ} :
      {A : Type ℓ} {Q : A → List Resource → Type 0} {F : List Resource → Type 0} (context : ℕ)
      (use_event : Bool) (f : ℕ → M A) (before : List Resource)
      → F before
      → ((n : ℕ) → Holds (f n) (acquire (some Kind.channel) n before) Q F)
      → Holds ((if use_event then need e (create_comp_channel context) else ret 0) >>= f) before Q F
  channel_holds context true f before bad next = Holds-need e _ _ _ bad (λ n. next (suc n))
  channel_holds context false f before bad next = record { ends = (next 0).ends }

  channel_closed {ℓ} :
      {A : Type ℓ} {Q : A → List Resource → Type 0} {F : List Resource → Type 0} (ch : ℕ) (k : M A)
      (before : List Resource)
      → F (acquire (some Kind.channel) ch before)
      → Holds k before Q F
      → Holds
          ((if is_null ch then ret tt else check e (destroy_comp_channel ch)) >> k)
          (acquire (some Kind.channel) ch before)
          Q
          F
  channel_closed zero k before bad next = record { ends = next.ends }
  channel_closed (suc n) k before bad next =
      Holds-check e _ _ _ _ bad (give_back_top Kind.channel (suc n) before) next

  init_holds :
      (page_size ib_dev size rx_depth port : ℕ) (use_event is_server : Bool)
      (before : List Resource)
      → Holds
          (pp_init_ctx e page_size ib_dev size rx_depth port use_event is_server)
          before
          (λ ctx now. now ≡ holdings ctx before)
          (Keeps before)
  unfolding pp_init_ctx
  init_holds page_size ib_dev size rx_depth port use_event is_server before =
      Holds-need e _ _ _ all λ self. Holds-need e _ _ _ (more all) λ buf.
        Holds-tell e _ _ _ _ refl (
          Holds-need e _ _ _ (more (more all)) λ context.
            channel_holds _ use_event _ _ (more (more (more all))) λ ch.
              let s = Keeps-acquire (some Kind.channel) ch (more (more (more all))) in
              Holds-need e _ _ _ s λ pd. Holds-need e _ _ _ (more s) λ mr.
                Holds-need e _ _ _ (more (more s)) λ cq.
                  Holds-need e _ _ _ (more (more (more s))) λ qp.
                    Holds-check e _ _ _ _ (more (more (more (more s)))) refl (Holds-ret _ _ refl))

  close_holds :
      (ctx : PingpongContext) (before : List Resource)
      → Holds (pp_close_ctx e ctx) (holdings ctx before) (λ _ now. now ≡ before) (Keeps before)
  unfolding pp_close_ctx
  close_holds ctx before =
      let s = Keeps-acquire (some Kind.channel) ctx.channel (more (more (more all))) in
      Holds-check e _ _ _ _ (more (more (more (more s)))) (give_back_top Kind.qp ctx.qp _) (
        Holds-check e _ _ _ _ (more (more (more s))) (give_back_top Kind.cq ctx.cq _) (
          Holds-check e _ _ _ _ (more (more s)) (give_back_top Kind.mr ctx.mr _) (
            Holds-check e _ _ _ _ (more s) (give_back_top Kind.pd ctx.pd _) (
              channel_closed ctx.channel _ _ s (
                Holds-check e _ _ _ _ (more (more (more all)))
                  (give_back_top Kind.device ctx.context _)
                  (Holds-tell e _ _ _ _ (give_back_top Kind.memory ctx.buf _)
                    (Holds-tell_last e _ _ _ (give_back_top Kind.memory ctx.self _) refl)))))))

  -- Started with the resources `before`, `pp_init_ctx` misuses none. Where it returns a context,
  -- exactly the resources of the context are held over `before`; where it returns NULL, nothing of
  -- `before` has been given back.
  pub init_ctx_holds :
      (page_size ib_dev size rx_depth port : ℕ) (use_event is_server : Bool)
      (before : List Resource) (t : Trace)
      → held_of t ≡ some before
      → Ends
          (λ ctx now. now ≡ holdings ctx before)
          (Keeps before)
          (pp_init_ctx e page_size ib_dev size rx_depth port use_event is_server t)
  init_ctx_holds page_size ib_dev size rx_depth port use_event is_server before t h =
      (init_holds page_size ib_dev size rx_depth port use_event is_server before).ends t h

  -- Started with what a context holds over the resources `before`, `pp_close_ctx` gives back no
  -- resource twice and none that is not held. Where it succeeds, exactly `before` is held; where it
  -- gives up, nothing of `before` has been given back.
  pub close_ctx_releases :
      (ctx : PingpongContext) (before : List Resource) (t : Trace)
      → held_of t ≡ some (holdings ctx before)
      → Ends (λ _ now. now ≡ before) (Keeps before) (pp_close_ctx e ctx t)
  close_ctx_releases ctx before t h = (close_holds ctx before).ends t h
