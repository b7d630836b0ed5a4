-- ===== src/MultiThread/Engine.antt =====
-- multithreadIB.c: `pp_post_recv`, `pp_post_send` and the completion loop of `runPingPong`.
pub mod Steps
pub mod Queue
pub mod Accept
use network_infiniband_works.Base.{
  ℕ, zero, suc, ◌+◌, ◌-◌, ◌^◌, List, [], ◌∷◌, Option, none, some, Bool, true, false, ◌&&◌, ◌||◌,
  not, ltb, leb, ◌==◌, if◌then◌else◌, bit_and, bit_or, is_zero, pos,
}
use network_infiniband_works.Platform.{
  Event, int, told, WorkRequest, Wc, post_recv, post_send, poll_cq, get_cq_event, req_notify_cq,
  Env, M, done, fail, ◌>>=◌, ◌>>◌, ret, give_up, refuse_if, check, ask_ptr,
}
use network_infiniband_works.MultiThread.Context.{PingpongContext}

abbrev pub recv_wrid : ℕ
recv_wrid = 1

abbrev pub send_wrid : ℕ
send_wrid = 2

abbrev pub request : PingpongContext → ℕ → WorkRequest
request ctx id = record { wr_id = id; addr = ctx.buf; length = ctx.size; mr = ctx.mr }

-- The loop of `pp_post_recv` with `left` rounds to go and `i` done; it stops at a refusal.
unfoldable pub post_recv_loop : Env → PingpongContext → (left i : ℕ) → M ℕ
post_recv_loop e ctx zero i t = done i t
post_recv_loop e ctx (suc left) i t =
    let c = post_recv ctx.qp (request ctx recv_wrid) in
    elim (is_zero (e.int t c)) [
      | true ↦ post_recv_loop e ctx left (i + 1) (int c (e.int t c) ∷ t)
      | false ↦ done i (int c (e.int t c) ∷ t)
    ]

unfoldable pub pp_post_recv : Env → PingpongContext → ℕ → M ℕ
unfolding post_recv_loop
pp_post_recv e ctx n = post_recv_loop e ctx n 0

-- A nonzero result is a failed run.
unfoldable pub pp_post_send : Env → PingpongContext → M (Unit {0})
pp_post_send e ctx = check e (post_send ctx.qp (request ctx send_wrid))

-- The variables of the loop, with `ctx->pending`.
pub record Loop : Type 0 where
  pub pending : ℕ
  pub routs : ℕ
  pub rcnt : ℕ
  pub scnt : ℕ
  pub num_cq_events : ℕ

-- `pending &= ~(int) wr_id`, in 32 bits.
unfoldable pub clear : ℕ → ℕ → ℕ
clear pending id = bit_and pending (2 ^ 32 - 1 - id)

-- PINGPONG_RECV_WRID | PINGPONG_SEND_WRID
abbrev pub both_pending : ℕ
both_pending = bit_or recv_wrid send_wrid

-- `rcnt < iters || scnt < iters`
abbrev pub goes_on : ℕ → Loop → Bool
goes_on iters s = ltb s.rcnt iters || ltb s.scnt iters

module _ (e : Env) (ctx : PingpongContext) where
  -- The case PINGPONG_RECV_WRID of the switch. `routs` is at least 2 here (`Window`), so that
  -- `--routs` does not go below 0.
  unfoldable pub count_recv : Loop → M Loop
  count_recv s =
      let r = s.routs - 1 in
      if leb r 1
      then (do
        more ← pp_post_recv e ctx (ctx.rx_depth - r)
        refuse_if (ltb (r + more) ctx.rx_depth)
        ret (record s { routs = r + more; rcnt = s.rcnt + 1 }))
      else ret (record s { routs = r; rcnt = s.rcnt + 1 })

  -- The switch on `wr_id`.
  unfoldable pub count_wc : Wc → Loop → M Loop
  unfolding count_recv
  count_wc wc s =
      if wc.wr_id == send_wrid
      then ret (record s { scnt = s.scnt + 1 })
      else if wc.wr_id == recv_wrid
      then count_recv s
      else give_up

  -- The lines behind the switch.
  unfoldable pub resend : ℕ → Wc → Loop → M Loop
  unfolding clear pp_post_send
  resend iters wc s =
      let p = clear s.pending wc.wr_id in
      if ltb s.scnt iters && p == 0
      then (do pp_post_send e ctx; ret (record s { pending = both_pending }))
      else ret (record s { pending = p })

  -- The body of the `for` over the completions.
  unfoldable pub handle_wc : ℕ → Wc → Loop → M Loop
  handle_wc iters wc s = do refuse_if (not (wc.status == 0)); s' ← count_wc wc s; resend iters wc s'

  pub handle_wcs : ℕ → List Wc → Loop → M Loop
  unfolding handle_wc
  handle_wcs iters [] s = ret s
  handle_wcs iters (wc ∷ wcs) s = handle_wc iters wc s >>= λ s'. handle_wcs iters wcs s'

  -- `if (use_event) …` at the head of the loop.
  pub wait_event : Bool → Loop → M Loop
  wait_event use_event s =
      if use_event
      then (do
        check e (get_cq_event ctx.channel)
        ev_cq ← λ t. done (e.ptr t (get_cq_event ctx.channel)) t
        refuse_if (not (ev_cq == ctx.cq))
        check e (req_notify_cq ctx.cq)
        ret (record s { num_cq_events = s.num_cq_events + 1 }))
      else ret s

  -- `do … while (!use_event && ne < 1)` on fuel, which a value of none says has run out. The
  -- length of the list is `ne`.
  pub poll : Bool → ℕ → M (Option (List Wc))
  poll use_event zero t = done none t
  poll use_event (suc fuel) t = elim (e.wcs t (poll_cq ctx.cq 2)) [
    | none ↦ fail (told (poll_cq ctx.cq 2) ∷ t)
    | some [] ↦ elim use_event [
      | true ↦ done (some []) (told (poll_cq ctx.cq 2) ∷ t)
      | false ↦ poll use_event fuel (told (poll_cq ctx.cq 2) ∷ t)
    ]
    | some (wc ∷ wcs) ↦ done (some (wc ∷ wcs)) (told (poll_cq ctx.cq 2) ∷ t)
  ]

  -- The completions of one poll, and then the next round.
  abbrev pub with_wcs : ℕ → Option (List Wc) → Loop → (Loop → M (Option Loop)) → M (Option Loop)
  with_wcs iters none s next = ret none
  with_wcs iters (some wcs) s next = handle_wcs iters wcs s >>= next

  -- `while (rcnt < iters || scnt < iters)`, on fuel.
  pub poll_loop : ℕ → Bool → ℕ → Loop → M (Option Loop)
  unfolding handle_wcs wait_event poll
  poll_loop iters use_event zero s = ret none
  poll_loop iters use_event (suc fuel) s =
      let round = wait_event use_event s >>= λ s'.
      poll use_event fuel >>= λ got. with_wcs iters got s' (poll_loop iters use_event fuel) in
      if goes_on iters s then round else ret (some s)
