-- ===== src/MultiThread/Pair/Invariant.antt =====
-- The invariant of the two ends, in every state that the ping-pong reaches.
use network_infiniband_works.Base.{ℕ, ◌+◌, ◌≤◌, ◌≡◌, arith}
use network_infiniband_works.MultiThread.Engine.Steps.{sends}
use network_infiniband_works.MultiThread.Pair.{
  Pair, Setup, Step, client_moves, server_moves, Reach, here, next, Start,
}
use network_infiniband_works.MultiThread.Pair.Side.{Side, Move-Kept}

-- What the two programs are started with: at least one round, and room for two receives or more.
pub record IsSetup (k : Setup) : Type 0 where
  pub some_rounds : 1 ≤ k.iters
  pub client_deep : 2 ≤ k.client_ctx.rx_depth
  pub server_deep : 2 ≤ k.server_ctx.rx_depth

pub record Inv (k : Setup) (p : Pair) : Type 0 where
  pub client_side : Side k.client_ctx k.iters 0 p.client
  pub server_side : Side k.server_ctx k.iters 1 p.server
  pub client_behind : p.client.loop.rcnt ≤ sends p.server.log
  pub server_behind : p.server.loop.rcnt ≤ sends p.client.log

-- The completions that both ends have taken.
abbrev pub taken : Pair → ℕ
taken p = p.client.loop.scnt + p.client.loop.rcnt + (p.server.loop.scnt + p.server.loop.rcnt)

pub Start-Inv : {k : Setup} {p : Pair} → IsSetup k → Start k p → Inv k p
Start-Inv ok s = record {
  client_side = record {
    send_bit = 1;
    recv_bit = 1;
    send_small = omega arith;
    recv_small = omega arith;
    bits = s.client_pending;
    sent_so_far = omega arith;
    turn = omega arith;
    bound = omega arith;
    idle = λ h. absurd (omega arith);
    window_low = omega arith;
    window_high = omega arith;
  };
  server_side = record {
    send_bit = 0;
    recv_bit = 1;
    send_small = omega arith;
    recv_small = omega arith;
    bits = s.server_pending;
    sent_so_far = omega arith;
    turn = omega arith;
    bound = omega arith;
    idle = λ h. absurd (omega arith);
    window_low = omega arith;
    window_high = omega arith;
  };
  client_behind = omega arith;
  server_behind = omega arith;
}

-- A step keeps the invariant and takes one completion.
pub Step-Inv :
    {k : Setup} {p q : Pair} → IsSetup k → Inv k p → Step k p q → Inv k q × (taken q ≡ taken p + 1)
Step-Inv {k} {p} ok v (client_moves {y} mv) =
    let in_turn : sends p.server.log ≤ sends p.client.log + 0 =
      omega (arith, v.server_side.turn, v.server_side.recv_small, v.server_behind) in
    let kept =
      Move-Kept k.client_env k.client_ctx k.iters ok.client_deep v.client_side in_turn
        v.client_behind mv in
    (
      record {
        client_side = kept.side;
        server_side = v.server_side;
        client_behind = kept.not_ahead;
        server_behind = omega (arith, v.server_behind, kept.only_more);
      },
      omega (arith, kept.counted),
    )
Step-Inv {k} {p} ok v (server_moves {y} mv) =
    let in_turn : sends p.client.log ≤ sends p.server.log + 1 =
      omega (arith, v.client_side.turn, v.client_side.recv_small, v.client_behind) in
    let kept =
      Move-Kept k.server_env k.server_ctx k.iters ok.server_deep v.server_side in_turn
        v.server_behind mv in
    (
      record {
        client_side = v.client_side;
        server_side = kept.side;
        client_behind = omega (arith, v.client_behind, kept.only_more);
        server_behind = kept.not_ahead;
      },
      omega (arith, kept.counted),
    )

pub Reach-Inv : {k : Setup} {p q : Pair} → IsSetup k → Start k p → Reach k p q → Inv k q
Reach-Inv ok s here = Start-Inv ok s
Reach-Inv ok s (next r st) = (Step-Inv ok (Reach-Inv ok s r) st).0
