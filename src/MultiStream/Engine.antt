-- ===== src/MultiStream/Engine.antt =====
-- multistreamTestRunner.c: the completion loop of `runPingPong`, with the receives and the pending
-- flags of each queue pair.
pub mod Find
pub mod Refine
pub mod Posted
use network_infiniband_works.Base.{
  ℕ, zero, suc, ◌+◌, ◌-◌, ◌*◌, List, [], ◌∷◌, Option, none, some, Bool, true, false, ◌&&◌, ◌||◌,
  not, ltb, leb, ◌==◌, if◌then◌else◌, get_or, set,
}
use network_infiniband_works.Platform.{
  told, Wc, Env, M, done, fail, ◌>>=◌, ◌>>◌, ret, give_up, refuse_if, ask_ptr, tell, poll_cq,
  calloc, free, qp_num,
}
use network_infiniband_works.MultiThread.Engine.{recv_wrid, send_wrid, both_pending, clear}
use network_infiniband_works.MultiStream.Context.{StreamContext, pp_post_recv_qp, pp_post_send_qp}

-- `pending_qp`, `routs_arr`, `rcnt` and `scnt`.
pub record Streams : Type 0 where
  pub pending_qp : List ℕ
  pub routs_arr : List ℕ
  pub rcnt : ℕ
  pub scnt : ℕ

-- A queue pair with its index.
pub record Place : Type 0 where
  pub index : ℕ
  pub qp : ℕ

-- `rcnt < iters || scnt < iters`
abbrev pub streams_go_on : ℕ → Streams → Bool
streams_go_on iters s = ltb s.rcnt iters || ltb s.scnt iters

module _ (e : Env) (ctx : StreamContext) where
  -- The search for the queue pair of a completion, from index `i` on.
  unfoldable pub find_qp : (num : ℕ) → List ℕ → ℕ → M Place
  find_qp num [] i t = fail t
  find_qp num (q ∷ qps) i t = elim (num == e.ptr t (qp_num q)) [
    | true ↦ done (record { index = i; qp = q }) t
    | false ↦ find_qp num qps (i + 1) t
  ]

  -- The case PINGPONG_RECV_WRID of the switch.
  unfoldable pub count_qp_recv : Place → Streams → M Streams
  count_qp_recv p s =
      let r = get_or s.routs_arr p.index 0 - 1 in
      if leb r 1
      then (do
        more ← pp_post_recv_qp e ctx (ctx.rx_depth - r) p.qp p.index
        refuse_if (ltb (r + more) ctx.rx_depth)
        ret (record s { routs_arr = set s.routs_arr p.index (r + more); rcnt = s.rcnt + 1 }))
      else ret (record s { routs_arr = set s.routs_arr p.index r; rcnt = s.rcnt + 1 })

  -- The switch on `wr_id`.
  unfoldable pub count_qp_wc : Place → Wc → Streams → M Streams
  unfolding count_qp_recv
  count_qp_wc p wc s =
      if wc.wr_id == send_wrid
      then ret (record s { scnt = s.scnt + 1 })
      else if wc.wr_id == recv_wrid
      then count_qp_recv p s
      else give_up

  -- The lines behind the switch.
  unfoldable pub resend_qp : ℕ → Place → Wc → Streams → M Streams
  resend_qp iters p wc s =
      let left = clear (get_or s.pending_qp p.index 0) wc.wr_id in
      if ltb s.scnt iters && left == 0
      then (do
        pp_post_send_qp e ctx p.qp p.index
        ret (record s { pending_qp = set s.pending_qp p.index both_pending }))
      else ret (record s { pending_qp = set s.pending_qp p.index left })

  -- The body of the `for` over the completions.
  unfoldable pub handle_qp_wc : ℕ → Wc → Streams → M Streams
  unfolding find_qp count_qp_wc resend_qp
  handle_qp_wc iters wc s = do
    p ← find_qp wc.qp_num ctx.qp_arr 0
    refuse_if (not (wc.status == 0))
    s' ← count_qp_wc p wc s
    resend_qp iters p wc s'

  unfoldable pub handle_qp_wcs : ℕ → List Wc → Streams → M Streams
  unfolding handle_qp_wc
  handle_qp_wcs iters [] s = ret s
  handle_qp_wcs iters (wc ∷ wcs) s = handle_qp_wc iters wc s >>= λ s'. handle_qp_wcs iters wcs s'

  -- `do … while (ne < 1)` on fuel, which a value of none says has run out. The length of the list
  -- is `ne`.
  unfoldable pub poll_streams : ℕ → M (Option (List Wc))
  poll_streams zero t = done none t
  poll_streams (suc fuel) t = elim (e.wcs t (poll_cq ctx.cq (ctx.peer_num * 2))) [
    | none ↦ fail (told (poll_cq ctx.cq (ctx.peer_num * 2)) ∷ t)
    | some [] ↦ poll_streams fuel (told (poll_cq ctx.cq (ctx.peer_num * 2)) ∷ t)
    | some (wc ∷ wcs) ↦ done (some (wc ∷ wcs)) (told (poll_cq ctx.cq (ctx.peer_num * 2)) ∷ t)
  ]

  -- The completions of one poll, and then the next round; the array of the completions is freed.
  abbrev pub with_qp_wcs :
      ℕ
      → (mem : ℕ) → Option (List Wc)
      → Streams
      → (Streams → M (Option Streams))
      → M (Option Streams)
  with_qp_wcs iters mem none s next = ret none
  with_qp_wcs iters mem (some wcs) s next =
      handle_qp_wcs iters wcs s >>= λ s'. tell e (free mem) >> next s'

  -- `while (rcnt < iters || scnt < iters)`, on fuel. The array of completions, of 48 bytes each, is
  -- made in each round.
  unfoldable pub streams_loop : ℕ → ℕ → Streams → M (Option Streams)
  unfolding handle_qp_wcs poll_streams
  streams_loop iters zero s = ret none
  streams_loop iters (suc fuel) s =
      let round = ask_ptr e (calloc (ctx.peer_num * 2) 48) >>= λ mem.
      poll_streams fuel >>= λ got. with_qp_wcs iters mem got s (streams_loop iters fuel) in
      if streams_go_on iters s then round else ret (some s)
