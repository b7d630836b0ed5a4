-- ===== src/MultiStream/Pair/Invariant.antt =====
-- The invariant of the two ends of the multi-stream connections, in every state that they reach.
use network_infiniband_works.Base.{ℕ, zero, suc, ◌+◌, ◌*◌, ◌<◌, ◌≤◌, ◌≡◌, arith}
use network_infiniband_works.Platform.{Env}
use network_infiniband_works.MultiThread.Engine.{recv_wrid, both_pending}
use network_infiniband_works.MultiStream.Context.{StreamContext}
use network_infiniband_works.MultiStream.Pair.{
  StreamEnd, StreamPair, StreamSetup, StreamStep, client_takes, server_takes, StreamReach, at_start,
  then_step, Entered, StreamStart, IsStreamSetup, posted_on_qp,
}
use network_infiniband_works.MultiStream.Pair.Total.{total}
use network_infiniband_works.MultiStream.Pair.Side.{StreamSide}
use network_infiniband_works.MultiStream.Pair.Moves.{StreamMove-Advanced}

pub record StreamInv (k : StreamSetup) (p : StreamPair) : Type 0 where
  pub client_side : StreamSide k.client_env k.client_ctx k.iters k.peers 0 p.client
  pub server_side : StreamSide k.server_env k.server_ctx k.iters k.peers 1 p.server
  pub client_behind :
      (i : ℕ) → i < k.peers → p.client.received i ≤ posted_on_qp k.server_ctx p.server i
  pub server_behind :
      (i : ℕ) → i < k.peers → p.server.received i ≤ posted_on_qp k.client_ctx p.client i

-- The completions that both ends have taken.
abbrev pub stream_taken : StreamPair → ℕ
stream_taken p =
    p.client.streams.scnt + p.client.streams.rcnt + (p.server.streams.scnt + p.server.streams.rcnt)

-- Sums over the queue pairs of a constant.
total_const : (n c : ℕ) (f : ℕ → ℕ) → ((i : ℕ) → i < n → f i ≡ c) → total n f ≡ n * c
total_const zero c f h = omega arith
total_const (suc n) c f h =
    let rest = total_const n c f (λ i l. h i (omega (arith, l))) in
    let last = h n (omega arith) in ground (arith, rest, last)

module _ {e : Env} {ctx : StreamContext} {n : ℕ} where
  Entered-scnt :
      {flags first : ℕ} {x : StreamEnd}
      → Entered e ctx n flags first x
      → x.streams.scnt ≡ total n x.sent
  Entered-scnt {x = x} s =
      let zero_total = total_const n 0 x.sent (λ i l. s.none_sent i) in
      ground (arith, zero_total, s.scnt_zero)

  Entered-rcnt :
      {flags first : ℕ} {x : StreamEnd}
      → Entered e ctx n flags first x
      → x.streams.rcnt ≡ total n x.received
  Entered-rcnt {x = x} s =
      let zero_total = total_const n 0 x.received (λ i l. s.none_received i) in
      ground (arith, zero_total, s.rcnt_zero)

module _ {e : Env} {ctx : StreamContext} {iters n : ℕ} where
  client_Side :
      {x : StreamEnd} → 1 ≤ iters → Entered e ctx n both_pending 1 x → StreamSide e ctx iters n 0 x
  client_Side {x} some s = record {
    channels = λ i l. record {
      send_bit = 1;
      recv_bit = 1;
      send_small = omega arith;
      recv_small = omega arith;
      bits = s.flagged i l;
      sent_so_far = omega (arith, s.first_posted i l, s.none_sent i);
      turn = omega (arith, s.first_posted i l, s.none_received i);
      idle = λ h. absurd (omega (arith, h));
    };
    all_sent = Entered-scnt s;
    all_received = Entered-rcnt s;
    bound =
        let one_each = total_const n 1 (posted_on_qp ctx x) s.first_posted in
        omega (arith, one_each, some);
    receives = s.receives;
  }

  server_Side :
      {x : StreamEnd} → 1 ≤ iters → Entered e ctx n recv_wrid 0 x → StreamSide e ctx iters n 1 x
  server_Side {x} some s = record {
    channels = λ i l. record {
      send_bit = 0;
      recv_bit = 1;
      send_small = omega arith;
      recv_small = omega arith;
      bits = s.flagged i l;
      sent_so_far = omega (arith, s.first_posted i l, s.none_sent i);
      turn = omega (arith, s.first_posted i l, s.none_received i);
      idle = λ h. absurd (omega (arith, h));
    };
    all_sent = Entered-scnt s;
    all_received = Entered-rcnt s;
    bound =
        let none = total_const n 0 (posted_on_qp ctx x) s.first_posted in omega (arith, none, some);
    receives = s.receives;
  }

pub Start-StreamInv :
    {k : StreamSetup} {p : StreamPair} → IsStreamSetup k → StreamStart k p → StreamInv k p
Start-StreamInv ok s = record {
  client_side = client_Side ok.some_rounds s.client_entered;
  server_side = server_Side ok.some_rounds s.server_entered;
  client_behind = λ i l. omega (arith, s.client_entered.none_received i);
  server_behind = λ i l. omega (arith, s.server_entered.none_received i);
}

-- A step keeps the invariant and takes one completion.
pub Step-StreamInv :
    {k : StreamSetup} {p q : StreamPair}
    → IsStreamSetup k
    → StreamInv k p
    → StreamStep k p q
    → StreamInv k q × (stream_taken q ≡ stream_taken p + 1)
Step-StreamInv {k} {p} ok v (client_takes {y} mv) =
    let a =
      StreamMove-Advanced k.client_env k.client_ctx k.iters k.peers 0 ok.client_context p.client
        v.client_side (posted_on_qp k.server_ctx p.server) y
        (λ j l.
          let c = v.server_side.channels j l in
          omega (arith, c.turn, c.recv_small, v.server_behind j l))
        v.client_behind mv in
    (
      record {
        client_side = a.side;
        server_side = v.server_side;
        client_behind = a.not_ahead;
        server_behind = λ j l. omega (arith, v.server_behind j l, a.only_more j l);
      },
      omega (arith, a.counted),
    )
Step-StreamInv {k} {p} ok v (server_takes {y} mv) =
    let a =
      StreamMove-Advanced k.server_env k.server_ctx k.iters k.peers 1 ok.server_context p.server
        v.server_side (posted_on_qp k.client_ctx p.client) y
        (λ j l.
          let c = v.client_side.channels j l in
          omega (arith, c.turn, c.recv_small, v.client_behind j l))
        v.server_behind mv in
    (
      record {
        client_side = v.client_side;
        server_side = a.side;
        client_behind = λ j l. omega (arith, v.client_behind j l, a.only_more j l);
        server_behind = a.not_ahead;
      },
      omega (arith, a.counted),
    )

pub Reach-StreamInv :
    {k : StreamSetup} {p q : StreamPair}
    → IsStreamSetup k
    → StreamStart k p
    → StreamReach k p q
    → StreamInv k q
Reach-StreamInv ok s at_start = Start-StreamInv ok s
Reach-StreamInv ok s (then_step r st) = (Step-StreamInv ok (Reach-StreamInv ok s r) st).0
