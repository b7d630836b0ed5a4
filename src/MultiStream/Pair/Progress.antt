-- ===== src/MultiStream/Pair/Progress.antt =====
-- The exchange over several queue pairs never gets stuck, and it ends.
use network_infiniband_works.Base.{
  ℕ, zero, suc, ◌+◌, ◌*◌, ◌<◌, ◌≤◌, ◌≡◌, ◌⊎◌, inl, inr, arith, true, false, Bool-cases,
}
use network_infiniband_works.MultiStream.Engine.{Streams, streams_go_on}
use network_infiniband_works.MultiStream.Pair.{
  StreamEnd, StreamPair, StreamSetup, StreamMove, StreamStep, client_takes, server_takes,
  StreamReach, at_start, then_step, RunStep, client_runs, server_runs, RunReach, run_over,
  run_first, StreamStart, IsStreamSetup, Serving, BothOver, posted_on_qp,
}
use network_infiniband_works.MultiStream.Pair.Total.{total-le}
use network_infiniband_works.MultiStream.Pair.Invariant.{
  StreamInv, stream_taken, Step-StreamInv, Reach-StreamInv,
}
use network_infiniband_works.MultiStream.Pair.Take.{take_or_none}
use network_infiniband_works.MultiStream.Pair.Drained.{IsDrained, IsComplete, over_too, both_over}

over-IsComplete : (iters : ℕ) (s : Streams) → streams_go_on iters s ≡ false → IsComplete iters s
over-IsComplete iters s over = (ground (arith, over), ground (arith, over))

not_over : (iters : ℕ) (s : Streams) → streams_go_on iters s ≡ true → IsComplete iters s → ⊥
not_over iters s more through = ground (arith, more, through)

pub RunStep-or_over :
    {k : StreamSetup} {p : StreamPair}
    → IsStreamSetup k
    → Serving k
    → StreamInv k p
    → BothOver k p ⊎ ((q : StreamPair) × RunStep k p q)
RunStep-or_over {k} {p} ok serving v = elim (Bool-cases (streams_go_on k.iters p.client.streams)) [
  | inr over_c ↦ elim (Bool-cases (streams_go_on k.iters p.server.streams)) [
    | inr over_s ↦ inl (over_c, over_s)
    | inl on_s ↦ elim server_takes_or [
      | inl (y, mv) ↦ inr (_, server_runs on_s mv)
      | inr s ↦
          let through =
            over_too v.server_side v.client_side s v.client_behind
              (over-IsComplete k.iters p.client.streams over_c) in
          absurd (not_over k.iters p.server.streams on_s through)
    ]
  ]
  | inl on_c ↦ elim client_takes_or [
    | inl (y, mv) ↦ inr (_, client_runs on_c mv)
    | inr c ↦ elim (Bool-cases (streams_go_on k.iters p.server.streams)) [
      | inr over_s ↦
          let through =
            over_too v.client_side v.server_side c v.server_behind
              (over-IsComplete k.iters p.server.streams over_s) in
          absurd (not_over k.iters p.client.streams on_c through)
      | inl on_s ↦ elim server_takes_or [
        | inl (y, mv) ↦ inr (_, server_runs on_s mv)
        | inr s ↦
            let both = both_over ok v c s in absurd (not_over k.iters p.client.streams on_c both.0)
      ]
    ]
  ]
]
  where
    client_takes_or :
        ((y : StreamEnd) × StreamMove k.client_env k.client_ctx k.iters
            (posted_on_qp k.server_ctx p.server)
            p.client
            y)
        ⊎ IsDrained k.peers
            (posted_on_qp k.client_ctx p.client)
            p.client.sent
            (posted_on_qp k.server_ctx p.server)
            p.client.received
    client_takes_or =
        take_or_none k.client_env k.client_ctx k.iters k.peers ok.client_context
          serving.client_serves p.client v.client_side.receives (posted_on_qp k.server_ctx p.server)

    server_takes_or :
        ((y : StreamEnd) × StreamMove k.server_env k.server_ctx k.iters
            (posted_on_qp k.client_ctx p.client)
            p.server
            y)
        ⊎ IsDrained k.peers
            (posted_on_qp k.server_ctx p.server)
            p.server.sent
            (posted_on_qp k.client_ctx p.client)
            p.server.received
    server_takes_or =
        take_or_none k.server_env k.server_ctx k.iters k.peers ok.server_context
          serving.server_serves p.server v.server_side.receives (posted_on_qp k.client_ctx p.client)

RunStep-StreamStep : {k : StreamSetup} {p q : StreamPair} → RunStep k p q → StreamStep k p q
RunStep-StreamStep (client_runs on mv) = client_takes mv
RunStep-StreamStep (server_runs on mv) = server_takes mv

-- How many completions a run has taken.
pub stream_steps : {k : StreamSetup} {p q : StreamPair} → StreamReach k p q → ℕ
stream_steps at_start = 0
stream_steps (then_step r st) = suc (stream_steps r)

pub stream_taken-steps :
    {k : StreamSetup} {p q : StreamPair}
    → IsStreamSetup k
    → StreamStart k p
    → (r : StreamReach k p q) → stream_taken q ≡ stream_steps r
unfolding stream_steps
stream_taken-steps ok s at_start = omega (
  arith, s.client_entered.scnt_zero, s.client_entered.rcnt_zero, s.server_entered.scnt_zero,
  s.server_entered.rcnt_zero,
)
stream_taken-steps ok s (then_step r st) =
    let ih = stream_taken-steps ok s r in
    let more = (Step-StreamInv ok (Reach-StreamInv ok s r) st).1 in omega (arith, ih, more)

-- What an end has sent and received is less than what the sums of the posted sends allow.
pub stream_taken-lt :
    {k : StreamSetup} {p : StreamPair}
    → StreamInv k p
    → stream_taken p + 4 ≤ 4 * (k.iters + k.peers)
stream_taken-lt {k} {p} v =
    let n = k.peers in
    let posted_c = posted_on_qp k.client_ctx p.client in
    let posted_s = posted_on_qp k.server_ctx p.server in
    let a =
      total-le n p.client.sent posted_c
        (λ i l. let c = v.client_side.channels i l in omega (arith, c.sent_so_far)) in
    let b =
      total-le n p.server.sent posted_s
        (λ i l. let c = v.server_side.channels i l in omega (arith, c.sent_so_far)) in
    let c = total-le n p.client.received posted_s v.client_behind in
    let d = total-le n p.server.received posted_c v.server_behind in
    omega (
      arith, a, b, c, d, v.client_side.bound, v.server_side.bound, v.client_side.all_sent,
      v.client_side.all_received, v.server_side.all_sent, v.server_side.all_received,
    )

pub run_streams_on :
    (fuel : ℕ) {k : StreamSetup} {p : StreamPair}
    → IsStreamSetup k
    → Serving k
    → StreamInv k p
    → 4 * (k.iters + k.peers) < stream_taken p + fuel
    → (r : StreamPair) × RunReach k p r × BothOver k r
run_streams_on zero ok serving v enough =
    let le = stream_taken-lt v in absurd (omega (arith, le, enough))
run_streams_on (suc fuel) {p = p} ok serving v enough = elim (RunStep-or_over ok serving v) [
  | inl over ↦ (p, run_over, over)
  | inr (q, st) ↦
      let (v', more) = Step-StreamInv ok v (RunStep-StreamStep st) in
      let (r, rest, over) = run_streams_on fuel ok serving v' (omega (arith, more, enough)) in
      (r, run_first st rest, over)
]
