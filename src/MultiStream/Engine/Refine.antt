-- ===== src/MultiStream/Engine/Refine.antt =====
-- What the loop of multistreamTestRunner.c does for a completion is what the loop of multithreadIB.c
-- does, on the part of the state that belongs to the queue pair of the completion.
use network_infiniband_works.Base.{
  ℕ, zero, suc, ◌+◌, ◌-◌, ◌*◌, ◌<◌, ◌≡◌, refl, ap, ◌∙◌, arith, List, [], ◌∷◌, ◌==◌, ◌&&◌, ltb, leb,
  get_or, set, length, Bool-cases, inl, inr, is_zero,
}
use network_infiniband_works.Platform.{
  Wc, Env, Trace, Outcome, M, done, fail, post_recv, ◌>>=◌, ◌>>◌, ret, refuse_if, bind_done,
}
use network_infiniband_works.MultiThread.Context.{PingpongContext}
use network_infiniband_works.MultiThread.Engine.{
  Loop, recv_wrid, send_wrid, both_pending, clear, request, post_recv_loop, pp_post_recv,
  pp_post_send, count_recv, count_wc, resend, handle_wc,
}
use network_infiniband_works.MultiStream.Context.{
  StreamContext, qp_size, buf_offset, qp_request, post_recv_rounds, pp_post_recv_qp,
  pp_post_send_qp,
}
use network_infiniband_works.MultiStream.Engine.{
  Place, Streams, find_qp, count_qp_recv, count_qp_wc, resend_qp, handle_qp_wc,
}

-- The context of one queue pair, with its part of the buffer.
abbrev pub qp_context : StreamContext → Place → PingpongContext
qp_context ctx p = record {
  self = ctx.self;
  context = ctx.context;
  channel = ctx.channel;
  pd = ctx.pd;
  mr = ctx.mr;
  cq = ctx.cq;
  qp = p.qp;
  buf = ctx.buf + qp_size ctx p.index * p.index;
  size = qp_size ctx p.index;
  rx_depth = ctx.rx_depth;
  pending = 0;
}

-- The variables of one queue pair, and what they are stored back to.
abbrev pub view : Streams → ℕ → Loop
view s i = record {
  pending = get_or s.pending_qp i 0;
  routs = get_or s.routs_arr i 0;
  rcnt = s.rcnt;
  scnt = s.scnt;
  num_cq_events = 0;
}

abbrev pub put : Streams → ℕ → Loop → Streams
put s i l = record {
  pending_qp = set s.pending_qp i l.pending;
  routs_arr = set s.routs_arr i l.routs;
  rcnt = l.rcnt;
  scnt = l.scnt;
}

-- A run with its result changed.
abbrev pub run_map {ℓ κ} : {A : Type ℓ} {B : Type κ} → (A → B) → Outcome A → Outcome B
run_map f (done a u) = done (f a) u
run_map f (fail u) = fail u

module _ {ℓ} {A : Type ℓ} where
  set_same : (xs : List A) (i : ℕ) (d : A) → set xs i (get_or xs i d) ≡ xs
  set_same [] i d = refl
  set_same (x ∷ xs) zero d = refl
  set_same (x ∷ xs) (suc i) d = ap (λ ys. x ∷ ys) (set_same xs i d)

  set_twice : (xs : List A) (i : ℕ) (a b : A) → set (set xs i a) i b ≡ set xs i b
  set_twice [] i a b = refl
  set_twice (x ∷ xs) zero a b = refl
  set_twice (x ∷ xs) (suc i) a b = ap (λ ys. x ∷ ys) (set_twice xs i a b)

  pub get_or-set : (xs : List A) (i : ℕ) (v d : A) → i < length xs → get_or (set xs i v) i d ≡ v
  get_or-set [] i v d h = absurd (omega arith)
  get_or-set (x ∷ xs) zero v d h = refl
  get_or-set (x ∷ xs) (suc i) v d h = get_or-set xs i v d (omega arith)

run_map-bind {ℓ κ} :
    {A A' : Type ℓ} {B B' : Type κ} (h : A → A') (g : B → B') (m' : M A') (f' : A' → M B')
    (o : Outcome A) (f : A → M B) (t : Trace)
    → m' t ≡ run_map h o
    → ((a : A) (u : Trace) → f' (h a) u ≡ run_map g (f a u))
    → (m' >>= f') t ≡ run_map g (elim o [ done a u ↦ f a u | fail u ↦ fail u ])
run_map-bind h g m' f' (done a u) f t same next =
    (λ i. elim (same i) [ done b v ↦ f' b v | fail v ↦ fail v ]) ∙ next a u
run_map-bind h g m' f' (fail u) f t same next =
    λ i. elim (same i) [ done b v ↦ f' b v | fail v ↦ fail v ]

run_map_id {ℓ} : {A : Type ℓ} (o : Outcome A) → o ≡ run_map (λ a. a) o
run_map_id (done a u) = refl
run_map_id (fail u) = refl

module _ (e : Env) (ctx : StreamContext) (p : Place) where
  post_recv_same :
      (left i : ℕ) (t : Trace)
      → post_recv_rounds e p.qp (qp_request ctx recv_wrid p.index) left i t
        ≡ post_recv_loop e (qp_context ctx p) left i t
  unfolding post_recv_rounds post_recv_loop qp_request buf_offset
  post_recv_same zero i t = refl
  post_recv_same (suc left) i t =
      elim (Bool-cases
        (is_zero (e.int t (post_recv p.qp (request (qp_context ctx p) recv_wrid))))) [
          | inl taken ↦ rw (taken, post_recv_rounds, post_recv_loop) (post_recv_same left (i + 1) _)
          | inr refused ↦ rw (refused, post_recv_rounds, post_recv_loop) refl
        ]

  count_recv_same :
      (s : Streams) (t : Trace)
      → count_qp_recv e ctx p s t
        ≡ run_map (put s p.index) (count_recv e (qp_context ctx p) (view s p.index) t)
  unfolding count_qp_recv count_recv pp_post_recv_qp pp_post_recv
  count_recv_same s t = elim (Bool-cases (leb r 1)) [
    | inr high ↦ rw high (rw (set_same s.pending_qp p.index 0) refl)
    | inl low ↦ rw low (
        run_map-bind (λ a. a) (put s p.index)
          (pp_post_recv_qp e ctx (ctx.rx_depth - r) p.qp p.index)
          (λ more.
            refuse_if (ltb (r + more) ctx.rx_depth)
            >> ret (record s { routs_arr = set s.routs_arr p.index (r + more); rcnt = s.rcnt + 1 }))
          (pp_post_recv e (qp_context ctx p) (ctx.rx_depth - r) t)
          (λ more.
            refuse_if (ltb (r + more) ctx.rx_depth)
            >> ret (record (view s p.index) { routs = r + more; rcnt = s.rcnt + 1 }))
          t (post_recv_same (ctx.rx_depth - r) 0 t ∙ run_map_id _)
          (λ a u. elim (Bool-cases (ltb (r + a) ctx.rx_depth)) [
            | inl short ↦ rw short refl
            | inr enough ↦ rw enough (rw (set_same s.pending_qp p.index 0) refl)
          ]))
  ]
    where
      r : ℕ
      r = get_or s.routs_arr p.index 0 - 1

  count_wc_same :
      (wc : Wc) (s : Streams) (t : Trace)
      → count_qp_wc e ctx p wc s t
        ≡ run_map (put s p.index) (count_wc e (qp_context ctx p) wc (view s p.index) t)
  unfolding count_qp_wc count_wc
  count_wc_same wc s t = elim (Bool-cases (wc.wr_id == send_wrid)) [
    | inl is_send ↦
        rw is_send (rw (set_same s.pending_qp p.index 0, set_same s.routs_arr p.index 0) refl)
    | inr other ↦ elim (Bool-cases (wc.wr_id == recv_wrid)) [
      | inl is_recv ↦ rw (other, is_recv) (count_recv_same s t)
      | inr unknown ↦ rw (other, unknown) refl
    ]
  ]

  resend_same :
      (iters : ℕ) (wc : Wc) (s : Streams) (l : Loop) (t : Trace)
      → p.index < length s.pending_qp
      → resend_qp e ctx iters p wc (put s p.index l) t
        ≡ run_map (put s p.index) (resend e (qp_context ctx p) iters wc l t)
  unfolding resend_qp resend pp_post_send_qp pp_post_send qp_request buf_offset
  resend_same iters wc s l t h =
      elim (Bool-cases (ltb l.scnt iters && clear l.pending wc.wr_id == 0)) [
        | inl again ↦ rw (get_or-set s.pending_qp p.index l.pending 0 h) (
            rw again (
              run_map-bind (λ a. a) (put s p.index) (pp_post_send_qp e ctx p.qp p.index)
                (λ _. ret (record (put s p.index l) {
                  pending_qp = set (set s.pending_qp p.index l.pending) p.index both_pending;
                }))
                (pp_post_send e (qp_context ctx p) t)
                (λ _. ret (record l { pending = both_pending })) t
                (run_map_id (pp_post_send e (qp_context ctx p) t))
                (λ a u. rw (set_twice s.pending_qp p.index l.pending both_pending) refl)))
        | inr not_again ↦
            rw (get_or-set s.pending_qp p.index l.pending 0 h)
              (rw not_again (rw (set_twice s.pending_qp p.index l.pending) refl))
      ]

  -- Where the search finds queue pair `p` for a completion, and `p` has its entry in `pending_qp`,
  -- the body of the loop of multistreamTestRunner.c is the body of the loop of multithreadIB.c for
  -- the context of that queue pair, run on the variables of `p` with the counts that all share: it
  -- makes the same calls, fails where that one fails, and leaves the other entries as they were.
  pub handle_qp_wc-handle_wc :
      (iters : ℕ) (wc : Wc) (s : Streams) (t : Trace)
      → find_qp e ctx wc.qp_num ctx.qp_arr 0 t ≡ done p t
      → p.index < length s.pending_qp
      → handle_qp_wc e ctx iters wc s t
        ≡ run_map (put s p.index) (handle_wc e (qp_context ctx p) iters wc (view s p.index) t)
  unfolding handle_qp_wc handle_wc
  handle_qp_wc-handle_wc iters wc s t found h =
      bind_done (find_qp e ctx wc.qp_num ctx.qp_arr 0) _ t found
        (elim (Bool-cases (wc.status == 0)) [
          | inr bad ↦ rw bad refl
          | inl good ↦ rw good (
              run_map-bind (put s p.index) (put s p.index) (count_qp_wc e ctx p wc s)
                (resend_qp e ctx iters p wc) (count_wc e (qp_context ctx p) wc (view s p.index) t)
                (resend e (qp_context ctx p) iters wc) t (count_wc_same wc s t)
                (λ l u. resend_same iters wc s l u h))
        ])
