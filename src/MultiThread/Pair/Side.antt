-- ===== src/MultiThread/Pair/Side.antt =====
-- What holds of one end in every reachable state, and that a completion keeps it.
use network_infiniband_works.Base.{ℕ, ◌+◌, ◌*◌, ◌<◌, ◌≤◌, ◌≡◌, arith}
use network_infiniband_works.Platform.{Env, Wc, Trace}
use network_infiniband_works.MultiThread.Context.{PingpongContext}
use network_infiniband_works.MultiThread.Engine.{recv_wrid, send_wrid, Loop, clear}
use network_infiniband_works.MultiThread.Engine.Steps.{
  sends, Received, Counted, sent, received, Resent, posted, kept, handle_wc_done, clear_bits,
}
use network_infiniband_works.MultiThread.Pair.{End, Move, send_done, recv_done}

module _ (ctx : PingpongContext) (iters : ℕ) where
  -- `first` is 0 for the client, which sends before it receives, and 1 for the server. The two bits
  -- of `pending` say what is outstanding: a send that has not completed, and a message that has not
  -- arrived.
  pub record Side (first : ℕ) (x : End) : Type 0 where
    pub send_bit : ℕ
    pub recv_bit : ℕ
    pub send_small : send_bit ≤ 1
    pub recv_small : recv_bit ≤ 1
    pub bits : x.loop.pending ≡ 2 * send_bit + recv_bit
    pub sent_so_far : sends x.log ≡ x.loop.scnt + send_bit
    pub turn : x.loop.rcnt + recv_bit ≡ sends x.log + first
    pub bound : sends x.log ≤ iters
    pub idle : (send_bit + recv_bit ≡ 0) → iters ≤ x.loop.scnt
    pub window_low : 2 ≤ x.loop.routs
    pub window_high : x.loop.routs ≤ ctx.rx_depth

module _ (e : Env) (ctx : PingpongContext) (iters : ℕ) where
  -- What is outstanding after the line that clears a bit, and how `Resent` goes on.
  record Cleared (first : ℕ) (l : Loop) (log : Trace) (id a b : ℕ) : Type 0 where
    a_small : a ≤ 1
    b_small : b ≤ 1
    cleared : clear l.pending id ≡ 2 * a + b
    outstanding : sends log ≡ l.scnt + a
    turn : l.rcnt + b ≡ sends log + first
    bound : sends log ≤ iters
    window_low : 2 ≤ l.routs
    window_high : l.routs ≤ ctx.rx_depth

  Resent-Side :
      (first id a b : ℕ) (m : Loop) (v : Trace) (y : End)
      → Cleared first m v id a b
      → Resent e ctx iters id m y.loop v y.log
      → Side ctx iters first y
  Resent-Side first id a b m v y c (posted none_left room e more) = record {
    send_bit = 1;
    recv_bit = 1;
    send_small = omega arith;
    recv_small = omega arith;
    bits = ground arith;
    sent_so_far = ground arith;
    turn = ground arith;
    bound = ground arith;
    idle = λ h. absurd (omega arith);
    window_low = ground arith;
    window_high = ground arith;
  }
  Resent-Side first id a b m v y c (kept why e same) = record {
    send_bit = a;
    recv_bit = b;
    send_small = c.a_small;
    recv_small = c.b_small;
    bits = ground arith;
    sent_so_far = ground arith;
    turn = ground arith;
    bound = ground arith;
    idle = λ h. ground arith;
    window_low = ground arith;
    window_high = ground arith;
  }

  -- A completion of a send: the send bit was set, and is cleared.
  sent_Cleared :
      {first : ℕ} {x : End} {m : Loop} {v : Trace}
      → (s : Side ctx iters first x) → x.loop.scnt < sends x.log
      → m ≡ record (x.loop) { scnt = x.loop.scnt + 1 }
      → v ≡ x.log
      → Cleared first m v send_wrid 0 s.recv_bit
  sent_Cleared s some_left e same =
      let one : s.send_bit ≡ 1 = omega (arith, s.sent_so_far, s.send_small) in
      let cut = clear_bits s.send_bit s.recv_bit s.send_small s.recv_small in
      record {
        a_small = omega arith;
        b_small = s.recv_small;
        cleared = ground (arith, s.bits, cut.0);
        outstanding = ground (arith, s.sent_so_far);
        turn = ground (arith, s.turn);
        bound = ground (arith, s.bound);
        window_low = ground (arith, s.window_low);
        window_high = ground (arith, s.window_high);
      }

  -- A message arrives: the receive bit was set, since the other end is not ahead by more than its
  -- turn, and is cleared.
  Received-Cleared :
      {first arrived : ℕ} {x : End} {m : Loop} {v : Trace}
      → (s : Side ctx iters first x) → arrived ≤ sends x.log + first
      → x.loop.rcnt < arrived
      → Received e ctx x.loop m x.log v
      → Cleared first m v recv_wrid s.send_bit 0
  Received-Cleared s in_turn some_left r =
      let one : s.recv_bit ≡ 1 = omega (arith, s.turn, s.recv_small) in
      let cut = clear_bits s.send_bit s.recv_bit s.send_small s.recv_small in
      record {
        a_small = s.send_small;
        b_small = omega arith;
        cleared = ground (arith, s.bits, cut.1, r.pending_same);
        outstanding = omega (arith, s.sent_so_far, r.sends_same, r.scnt_same);
        turn = omega (arith, s.turn, r.rcnt_more, r.sends_same);
        bound = omega (arith, s.bound, r.sends_same);
        window_low = r.window.0;
        window_high = r.window.1;
      }

  -- Where the other end's messages do not run ahead of its turn, a completion keeps `Side`, and
  -- counts one message sent or one received.
  pub record Kept (first arrived : ℕ) (x y : End) : Type 0 where
    pub side : Side ctx iters first y
    pub counted : y.loop.scnt + y.loop.rcnt ≡ x.loop.scnt + x.loop.rcnt + 1
    pub not_ahead : y.loop.rcnt ≤ arrived
    pub only_more : sends x.log ≤ sends y.log

  Resent-counts :
      {iters' id : ℕ} {m l : Loop} {v u : Trace}
      → Resent e ctx iters' id m l v u
      → (l.scnt ≡ m.scnt) × (l.rcnt ≡ m.rcnt) × (sends v ≤ sends u)
  Resent-counts (posted none_left room q more) = (ground arith, ground arith, omega arith)
  Resent-counts (kept why q same) = (ground arith, ground arith, ground arith)

  Kept-after_send :
      {first arrived : ℕ} {x y : End} {wc : Wc} {m : Loop} {v : Trace}
      → Side ctx iters first x
      → x.loop.rcnt ≤ arrived
      → wc.wr_id ≡ send_wrid
      → x.loop.scnt < sends x.log
      → Counted e ctx wc x.loop m x.log v
      → Resent e ctx iters wc.wr_id m y.loop v y.log
      → Kept first arrived x y
  Kept-after_send {first} {x = x} {y} {wc} {m} {v} s behind id left (sent i em ev) again =
      let (a, b, c) = Resent-counts again in
      record {
        side =
            Resent-Side first send_wrid 0 s.recv_bit m v y (sent_Cleared s left em ev)
              (rw id at again);
        counted = ground arith;
        not_ahead = ground arith;
        only_more = ground arith;
      }
  Kept-after_send s behind id left (received i r) again = absurd (omega arith)

  Kept-after_receive :
      {first arrived : ℕ} {x y : End} {wc : Wc} {m : Loop} {v : Trace}
      → Side ctx iters first x
      → arrived ≤ sends x.log + first
      → wc.wr_id ≡ recv_wrid
      → x.loop.rcnt < arrived
      → Counted e ctx wc x.loop m x.log v
      → Resent e ctx iters wc.wr_id m y.loop v y.log
      → Kept first arrived x y
  Kept-after_receive {first} {x = x} {y} {wc} {m} {v} s in_turn id left (received i r) again =
      let (a, b, c) = Resent-counts again in
      record {
        side =
            Resent-Side first recv_wrid s.send_bit 0 m v y (Received-Cleared s in_turn left r)
              (rw id at again);
        counted = omega (arith, r.scnt_same, r.rcnt_more);
        not_ahead = omega (arith, r.rcnt_more);
        only_more = omega (arith, r.sends_same);
      }
  Kept-after_receive s in_turn id left (sent i em ev) again = absurd (omega arith)

  pub Move-Kept :
      {first arrived : ℕ} {x y : End}
      → 2 ≤ ctx.rx_depth
      → Side ctx iters first x
      → arrived ≤ sends x.log + first
      → x.loop.rcnt ≤ arrived
      → Move e ctx iters arrived x y
      → Kept first arrived x y
  Move-Kept {x = x} deep s in_turn behind (send_done wc on id left h) =
      let d = handle_wc_done e ctx iters wc x.loop x.log deep (s.window_low, s.window_high) h in
      Kept-after_send s behind id left d.counted d.resent
  Move-Kept {x = x} deep s in_turn behind (recv_done wc on id left h) =
      let d = handle_wc_done e ctx iters wc x.loop x.log deep (s.window_low, s.window_high) h in
      Kept-after_receive s in_turn id left d.counted d.resent
