-- ===== src/MultiStream/Engine/Posted.antt =====
-- The receives that are posted on each queue pair while the loop runs.
use network_infiniband_works.Base.{
  ℕ, zero, suc, ◌+◌, ◌-◌, ◌*◌, ◌≤◌, ◌≡◌, ◌∙◌, arith, List, [], ◌∷◌, Option, none, some, Bool-cases,
  inl, inr, ltb, leb, ◌==◌, ◌&&◌, get_or, set, length, length-set, is_zero, not,
}
use network_infiniband_works.Platform.{
  Wc, Env, Trace, done, fail, told, ptr, calloc, free, post_recv, WorkRequest, refuse_if,
  >>=-eq-done,
}
use network_infiniband_works.Wire.Hex.Digits.{All}
use network_infiniband_works.MultiThread.Engine.{clear, recv_wrid, send_wrid, both_pending}
use network_infiniband_works.MultiStream.Context.{
  StreamContext, qp_request, post_recv_rounds, pp_post_recv_qp, pp_post_send_qp,
}
use network_infiniband_works.MultiStream.Engine.{
  Place, Streams, find_qp, streams_go_on, count_qp_recv, count_qp_wc, resend_qp, handle_qp_wc,
  handle_qp_wcs, poll_streams, with_qp_wcs, streams_loop,
}

-- A queue pair has room for two more messages at least, and no more receives than it was made for.
abbrev pub InDepth : ℕ → ℕ → Type 0
InDepth depth r = (2 ≤ r) × (r ≤ depth)

module _ {ℓ} {A : Type ℓ} (P : A → Type 0) where
  All-set : (xs : List A) (i : ℕ) (v : A) → All P xs → P v → All P (set xs i v)
  All-set [] i v h p = tt
  All-set (x ∷ xs) zero v h p = (p, h.1)
  All-set (x ∷ xs) (suc i) v h p = (h.0, All-set xs i v h.1 p)

get_or-le : (depth : ℕ) (xs : List ℕ) (i : ℕ) → All (InDepth depth) xs → get_or xs i 0 ≤ depth
get_or-le depth [] i h = omega arith
get_or-le depth (x ∷ xs) zero h = h.0.1
get_or-le depth (x ∷ xs) (suc i) h = get_or-le depth xs i h.1

pub post_recv_rounds-le :
    (e : Env) (qp : ℕ) (wr : WorkRequest) (left i n : ℕ) (t u : Trace)
    → post_recv_rounds e qp wr left i t ≡ done n u
    → n ≤ i + left
unfolding post_recv_rounds
post_recv_rounds-le e qp wr zero i n t u h = let same : i ≡ n = cc in omega (arith, same)
post_recv_rounds-le e qp wr (suc left) i n t u h =
    elim (Bool-cases (is_zero (e.int t (post_recv qp wr)))) [
      | inl taken ↦
          let ih =
            post_recv_rounds-le e qp wr left (i + 1) n _ u (rw (taken, post_recv_rounds) at h) in
          omega (arith, ih)
      | inr refused ↦
          let h' = rw (refused, post_recv_rounds) at h in
          let same : i ≡ n = cc in omega (arith, same)
    ]

module _ (e : Env) (ctx : StreamContext) where
  -- The state of the loop: a count and flags for each of `n` queue pairs, the counts in range.
  pub record Posted (n : ℕ) (s : Streams) : Type 0 where
    pub in_depth : All (InDepth ctx.rx_depth) s.routs_arr
    pub one_count_each : length s.routs_arr ≡ n
    pub one_flag_each : length s.pending_qp ≡ n

  module _ (n : ℕ) where
    count_qp_recv-Posted :
        (p : Place) (s s' : Streams) (t u : Trace)
        → 2 ≤ ctx.rx_depth
        → Posted n s
        → count_qp_recv e ctx p s t ≡ done s' u
        → Posted n s'
    unfolding count_qp_recv pp_post_recv_qp
    count_qp_recv-Posted p s s' t u deep ok h = elim (Bool-cases (leb r 1)) [
      | inr high ↦
          let h' = rw high at h in
          let same : record s { routs_arr = set s.routs_arr p.index r; rcnt = s.rcnt + 1 } ≡ s' =
            cc in
          rw (← same) (counted (s.rcnt + 1) r (ground (arith, high), omega (arith, most)))
      | inl low ↦
          let (more, v, k, q) =
            >>=-eq-done (post_recv_rounds e p.qp wr (ctx.rx_depth - r) 0) _ t (rw low at h) in
          let le = post_recv_rounds-le e p.qp wr (ctx.rx_depth - r) 0 more t v k in
          elim (Bool-cases (ltb (r + more) ctx.rx_depth)) [
            | inl short ↦ absurd (not_failed (rw short at q))
            | inr enough ↦
                let q' = rw enough at q in
                let same : record s {
                  routs_arr = set s.routs_arr p.index (r + more);
                  rcnt = s.rcnt + 1;
                }
                    ≡ s' =
                  cc in
                rw (← same) (
                  counted (s.rcnt + 1) (r + more)
                    (ground (arith, enough, deep), ground (arith, low, le, deep)))
          ]
    ]
      where
        r : ℕ
        r = get_or s.routs_arr p.index 0 - 1

        wr : WorkRequest
        wr = qp_request ctx recv_wrid p.index

        most : get_or s.routs_arr p.index 0 ≤ ctx.rx_depth
        most = get_or-le ctx.rx_depth s.routs_arr p.index ok.in_depth

        not_failed : {a : Streams} {v w : Trace} → fail v ≡ done a w → ⊥
        not_failed k = cc

        counted :
            (rcnt v : ℕ)
            → InDepth ctx.rx_depth v
            → Posted n (record s { routs_arr = set s.routs_arr p.index v; rcnt = rcnt })
        counted rcnt v d = record {
          in_depth = All-set (InDepth ctx.rx_depth) s.routs_arr p.index v ok.in_depth d;
          one_count_each = length-set s.routs_arr p.index v ∙ ok.one_count_each;
          one_flag_each = ok.one_flag_each;
        }

    count_qp_wc-Posted :
        (p : Place) (wc : Wc) (s s' : Streams) (t u : Trace)
        → 2 ≤ ctx.rx_depth
        → Posted n s
        → count_qp_wc e ctx p wc s t ≡ done s' u
        → Posted n s'
    unfolding count_qp_wc
    count_qp_wc-Posted p wc s s' t u deep ok h = elim (Bool-cases (wc.wr_id == send_wrid)) [
      | inl is_send ↦
          let h' = rw is_send at h in
          let same : record s { scnt = s.scnt + 1 } ≡ s' = cc in
          rw (← same) (record {
            in_depth = ok.in_depth;
            one_count_each = ok.one_count_each;
            one_flag_each = ok.one_flag_each;
          })
      | inr other ↦ elim (Bool-cases (wc.wr_id == recv_wrid)) [
        | inl is_recv ↦ count_qp_recv-Posted p s s' t u deep ok (rw is_recv at (rw other at h))
        | inr unknown ↦ let h' = rw unknown at (rw other at h) in absurd cc
      ]
    ]

    resend_qp-Posted :
        (iters : ℕ) (p : Place) (wc : Wc) (s s' : Streams) (t u : Trace)
        → Posted n s
        → resend_qp e ctx iters p wc s t ≡ done s' u
        → Posted n s'
    unfolding resend_qp
    resend_qp-Posted iters p wc s s' t u ok h =
        let left = clear (get_or s.pending_qp p.index 0) wc.wr_id in
        elim (Bool-cases (ltb s.scnt iters && left == 0)) [
          | inl again ↦
              let (a, v, k, q) =
                >>=-eq-done (pp_post_send_qp e ctx p.qp p.index) _ t (rw again at h) in
              let same : record s { pending_qp = set s.pending_qp p.index both_pending } ≡ s' =
                cc in
              rw (← same) (flagged both_pending)
          | inr not_again ↦
              let h' = rw not_again at h in
              let same : record s { pending_qp = set s.pending_qp p.index left } ≡ s' = cc in
              rw (← same) (flagged left)
        ]
      where
        flagged : (v : ℕ) → Posted n (record s { pending_qp = set s.pending_qp p.index v })
        flagged v = record {
          in_depth = ok.in_depth;
          one_count_each = ok.one_count_each;
          one_flag_each = length-set s.pending_qp p.index v ∙ ok.one_flag_each;
        }

    pub handle_qp_wc-Posted :
        (iters : ℕ) (wc : Wc) (s s' : Streams) (t u : Trace)
        → 2 ≤ ctx.rx_depth
        → Posted n s
        → handle_qp_wc e ctx iters wc s t ≡ done s' u
        → Posted n s'
    unfolding handle_qp_wc
    handle_qp_wc-Posted iters wc s s' t u deep ok h =
        let (p, v, k, q) = >>=-eq-done (find_qp e ctx wc.qp_num ctx.qp_arr 0) _ t h in
        let (a, v', k', q') = >>=-eq-done (refuse_if (not (wc.status == 0))) _ v q in
        let (s1, w, k1, q1) = >>=-eq-done (count_qp_wc e ctx p wc s) _ v' q' in
        resend_qp-Posted iters p wc s1 s' w u (count_qp_wc-Posted p wc s s1 v' w deep ok k1) q1

    handle_qp_wcs-Posted :
        (iters : ℕ) (wcs : List Wc) (s s' : Streams) (t u : Trace)
        → 2 ≤ ctx.rx_depth
        → Posted n s
        → handle_qp_wcs e ctx iters wcs s t ≡ done s' u
        → Posted n s'
    unfolding handle_qp_wcs
    handle_qp_wcs-Posted iters [] s s' t u deep ok h = let same : s ≡ s' = cc in rw (← same) ok
    handle_qp_wcs-Posted iters (wc ∷ wcs) s s' t u deep ok h =
        let (s1, v, k, q) = >>=-eq-done (handle_qp_wc e ctx iters wc s) _ t h in
        handle_qp_wcs-Posted iters wcs s1 s' v u deep
          (handle_qp_wc-Posted iters wc s s1 t v deep ok k) q

  pub streams_loop-Posted :
      (n iters fuel : ℕ) (s s' : Streams) (t u : Trace)
      → 2 ≤ ctx.rx_depth
      → Posted n s
      → streams_loop e ctx iters fuel s t ≡ done (some s') u
      → Posted n s' × (iters ≤ s'.rcnt) × (iters ≤ s'.scnt)
  unfolding streams_loop
  streams_loop-Posted n iters zero s s' t u deep ok h = absurd cc
  streams_loop-Posted n iters (suc fuel) s s' t u deep ok h =
      elim (Bool-cases (streams_go_on iters s)) [
        | inr over ↦
            let h' = rw (over, streams_loop) at h in
            let same : s ≡ s' = cc in rw (← same) (ok, ground (arith, over), ground (arith, over))
        | inl more ↦
            let c = calloc (ctx.peer_num * 2) 48 in
            let (got, v, k, q) =
              >>=-eq-done (poll_streams e ctx fuel) _ (ptr c (e.ptr t c) ∷ t)
                (rw (more, streams_loop) at h) in
            next (e.ptr t c) (λ s1 w ok1 h1. streams_loop-Posted n iters fuel s1 s' w u deep ok1 h1)
              got v q
      ]
    where
      next :
          (mem : ℕ)
          → ((s1 : Streams) (w : Trace)
              → Posted n s1
              → streams_loop e ctx iters fuel s1 w ≡ done (some s') u
              → Posted n s' × (iters ≤ s'.rcnt) × (iters ≤ s'.scnt))
          → (got : Option (List Wc)) (v : Trace)
          → with_qp_wcs e ctx iters mem got s (streams_loop e ctx iters fuel) v ≡ done (some s') u
          → Posted n s' × (iters ≤ s'.rcnt) × (iters ≤ s'.scnt)
      next mem ih none v q = absurd cc
      next mem ih (some wcs) v q =
          let (s1, w, k, q1) = >>=-eq-done (handle_qp_wcs e ctx iters wcs s) _ v q in
          ih s1 (told (free mem) ∷ w) (handle_qp_wcs-Posted n iters wcs s s1 v w deep ok k) q1
