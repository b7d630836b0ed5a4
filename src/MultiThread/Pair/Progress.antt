-- ===== src/MultiThread/Pair/Progress.antt =====
-- The ping-pong never gets stuck, and it ends.
use native.Mathlib.Decide.{dec_lt}
use network_infiniband_works.Base.{
  ℕ, zero, suc, ◌+◌, ◌*◌, ◌<◌, ◌≤◌, ◌≡◌, ◌⊎◌, inl, inr, refl, arith,
}
use network_infiniband_works.Platform.{Env, Wc}
use network_infiniband_works.MultiThread.Context.{PingpongContext}
use network_infiniband_works.MultiThread.Engine.{recv_wrid, send_wrid}
use network_infiniband_works.MultiThread.Engine.Steps.{sends}
use network_infiniband_works.MultiThread.Engine.Accept.{Accepts, handle_wc_returns}
use network_infiniband_works.MultiThread.Pair.{
  End, Pair, Setup, Move, send_done, recv_done, Step, client_moves, server_moves, Reach, here, next,
  Start, Finished,
}
use network_infiniband_works.MultiThread.Pair.Side.{Side}
use network_infiniband_works.MultiThread.Pair.Invariant.{IsSetup, Inv, taken, Step-Inv, Reach-Inv}

abbrev wc_of : ℕ → Wc
wc_of id = record { wr_id = id; status = 0; qp_num = 0 }

-- An end that has a send that has not completed takes its completion, and one that has a message
-- to receive takes that.
take_send :
    (e : Env) (ctx : PingpongContext) (iters arrived : ℕ) (x : End)
    → Accepts e ctx
    → sends x.log ≤ iters
    → x.loop.scnt < sends x.log
    → (y : End) × Move e ctx iters arrived x y
take_send e ctx iters arrived x a bound left =
    let (l, u, h) =
      handle_wc_returns e ctx a iters (wc_of send_wrid) x.loop x.log refl (inl refl) in
    (record { loop = l; log = u }, send_done (wc_of send_wrid) (ground arith) refl left h)

take_receive :
    (e : Env) (ctx : PingpongContext) (iters arrived : ℕ) (x : End)
    → Accepts e ctx
    → arrived ≤ iters
    → x.loop.rcnt < arrived
    → (y : End) × Move e ctx iters arrived x y
take_receive e ctx iters arrived x a bound left =
    let (l, u, h) =
      handle_wc_returns e ctx a iters (wc_of recv_wrid) x.loop x.log refl (inr refl) in
    (record { loop = l; log = u }, recv_done (wc_of recv_wrid) (ground arith) refl left h)

idle_or_waiting :
    {ctx : PingpongContext} {iters first : ℕ} {x : End} (s : Side ctx iters first x)
    → (iters ≤ x.loop.scnt) ⊎ (1 ≤ s.send_bit + s.recv_bit)
idle_or_waiting s = elim (dec_lt 0 (s.send_bit + s.recv_bit)) [
  | yes p ↦ inr p
  | no p ↦ inl (s.idle (omega arith))
]

-- With nothing left to take, both ends are through.
stuck-Finished :
    {k : Setup} {p : Pair}
    → Inv k p
    → sends p.client.log ≤ p.client.loop.scnt
    → sends p.server.log ≤ p.client.loop.rcnt
    → sends p.server.log ≤ p.server.loop.scnt
    → sends p.client.log ≤ p.server.loop.rcnt
    → Finished k p
stuck-Finished {k} {p} v a b c d = record {
  client_over = ground (arith, all.0, all.1);
  server_over = ground (arith, all.2, all.3);
  client_received = all.0;
  client_sent = all.4;
  server_received = all.2;
  server_sent = all.5;
}
  where
    all :
        (p.client.loop.rcnt ≡ k.iters)
        × (p.client.loop.scnt ≡ k.iters)
        × (p.server.loop.rcnt ≡ k.iters)
        × (p.server.loop.scnt ≡ k.iters)
        × (sends p.client.log ≡ k.iters)
        × (sends p.server.log ≡ k.iters)
    all = omega (arith, idle_or_waiting v.client_side, idle_or_waiting v.server_side)

pub record Accepting (k : Setup) : Type 0 where
  pub client_accepts : Accepts k.client_env k.client_ctx
  pub server_accepts : Accepts k.server_env k.server_ctx

Step-or_Finished :
    {k : Setup} {p : Pair} → Accepting k → Inv k p → Finished k p ⊎ ((q : Pair) × Step k p q)
Step-or_Finished {k} {p} a v = elim (dec_lt p.client.loop.scnt (sends p.client.log)) [
  | yes left ↦
      let (y, mv) =
        take_send k.client_env k.client_ctx k.iters (sends p.server.log) p.client a.client_accepts
          v.client_side.bound left in
      inr (record p { client = y }, client_moves mv)
  | no c_sent ↦ elim (dec_lt p.client.loop.rcnt (sends p.server.log)) [
    | yes left ↦
        let (y, mv) =
          take_receive k.client_env k.client_ctx k.iters (sends p.server.log) p.client
            a.client_accepts v.server_side.bound left in
        inr (record p { client = y }, client_moves mv)
    | no c_received ↦ elim (dec_lt p.server.loop.scnt (sends p.server.log)) [
      | yes left ↦
          let (y, mv) =
            take_send k.server_env k.server_ctx k.iters (sends p.client.log) p.server
              a.server_accepts v.server_side.bound left in
          inr (record p { server = y }, server_moves mv)
      | no s_sent ↦ elim (dec_lt p.server.loop.rcnt (sends p.client.log)) [
        | yes left ↦
            let (y, mv) =
              take_receive k.server_env k.server_ctx k.iters (sends p.client.log) p.server
                a.server_accepts v.client_side.bound left in
            inr (record p { server = y }, server_moves mv)
        | no s_received ↦
            inl (stuck-Finished v (omega arith) (omega arith) (omega arith) (omega arith))
      ]
    ]
  ]
]

taken-le : {k : Setup} {p : Pair} → Inv k p → taken p ≤ 4 * k.iters
taken-le v = omega (arith, v.client_side.bound, v.server_side.bound)

-- How many completions a run has taken.
pub steps : {k : Setup} {p q : Pair} → Reach k p q → ℕ
steps here = 0
steps (next r st) = suc (steps r)

taken-steps :
    {k : Setup} {p q : Pair}
    → IsSetup k
    → Start k p
    → (r : Reach k p q) → taken q ≡ taken p + steps r
unfolding steps
taken-steps ok s here = omega arith
taken-steps ok s (next r st) =
    omega (arith, taken-steps ok s r, (Step-Inv ok (Reach-Inv ok s r) st).1)

run_on :
    (fuel : ℕ) {k : Setup} {p q : Pair}
    → IsSetup k
    → Start k p
    → Accepting k
    → Reach k p q
    → 4 * k.iters < taken q + fuel
    → (r : Pair) × Reach k p r × Finished k r
run_on zero ok s a r enough = absurd (omega (arith, taken-le (Reach-Inv ok s r)))
run_on (suc fuel) {q = q} ok s a r enough =
    let v = Reach-Inv ok s r in
    elim (Step-or_Finished a v) [
      | inl f ↦ (q, r, f)
      | inr (q', st) ↦ run_on fuel ok s a (next r st) (omega (arith, (Step-Inv ok v st).1))
    ]

-- In every state that the two loops reach from their start, for at least one round and receive
-- depths of 2 or more, each end has at most one send outstanding and between 2
-- and `rx_depth` receives posted, has posted at most `iters` sends, and has received at most as
-- many messages as the other end has sent.
pub outstanding_bounds :
    {k : Setup} {p q : Pair}
    → IsSetup k
    → Start k p
    → Reach k p q
    → (sends q.client.log ≤ q.client.loop.scnt + 1)
      × (sends q.server.log ≤ q.server.loop.scnt + 1)
      × (2 ≤ q.client.loop.routs)
      × (q.client.loop.routs ≤ k.client_ctx.rx_depth)
      × (2 ≤ q.server.loop.routs)
      × (q.server.loop.routs ≤ k.server_ctx.rx_depth)
      × (sends q.client.log ≤ k.iters)
      × (sends q.server.log ≤ k.iters)
      × (q.client.loop.rcnt ≤ sends q.server.log)
      × (q.server.loop.rcnt ≤ sends q.client.log)
outstanding_bounds ok s r = let v = Reach-Inv ok s r in omega (arith, v.client_side.bound)

-- For at least one round and receive depths of 2 or more, and where the queue pairs take every
-- request, a state that the two loops reach from their start is either finished, at
-- both ends and with exactly `iters` messages sent and received by each, or a completion is left
-- to take: the ping-pong does not deadlock.
pub never_stuck :
    {k : Setup} {p q : Pair}
    → IsSetup k
    → Start k p
    → Accepting k
    → Reach k p q
    → Finished k q ⊎ ((r : Pair) × Step k q r)
never_stuck ok s a r = Step-or_Finished a (Reach-Inv ok s r)

-- For at least one round and receive depths of 2 or more, however the completions are ordered, the
-- two loops take at most 4 · iters of them.
pub steps-le :
    {k : Setup} {p q : Pair} → IsSetup k → Start k p → (r : Reach k p q) → steps r ≤ 4 * k.iters
steps-le ok s r = omega (arith, taken-steps ok s r, taken-le (Reach-Inv ok s r))

-- For at least one round and receive depths of 2 or more, and where the queue pairs take every
-- request, every run of the two loops from their start can be continued to a
-- finished state.
pub completes :
    {k : Setup} {p q : Pair}
    → IsSetup k
    → Start k p
    → Accepting k
    → Reach k p q
    → (r : Pair) × Reach k p r × Finished k r
completes {k} ok s a r = run_on (4 * k.iters + 1) ok s a r (omega arith)
