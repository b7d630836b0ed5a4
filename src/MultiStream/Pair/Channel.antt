-- ===== src/MultiStream/Pair/Channel.antt =====
-- What holds of one queue pair of an end, and how a completion changes it.
use network_infiniband_works.Base.{ℕ, ◌+◌, ◌*◌, ◌<◌, ◌≤◌, ◌≡◌, ◌≢◌, ◌⊎◌, arith}
use network_infiniband_works.MultiThread.Engine.{recv_wrid, send_wrid, both_pending, clear}
use network_infiniband_works.MultiThread.Engine.Steps.{clear_bits}

-- `first` is 0 at the client, which sends first, and 1 at the server; `scnt` is the count that all
-- queue pairs share. Of the queue pair, `pending` are its flags, `posted` the sends posted on it,
-- `sent` and `received` the completions taken. The flags say what is outstanding: a send that has
-- not completed and a message that has not arrived. A queue pair with neither rests for good.
pub record Channel (iters first scnt pending posted sent received : ℕ) : Type 0 where
  pub send_bit : ℕ
  pub recv_bit : ℕ
  pub send_small : send_bit ≤ 1
  pub recv_small : recv_bit ≤ 1
  pub bits : pending ≡ 2 * send_bit + recv_bit
  pub sent_so_far : posted ≡ sent + send_bit
  pub turn : received + recv_bit ≡ posted + first
  pub idle : (send_bit + recv_bit ≡ 0) → iters ≤ scnt

module _ {iters first scnt pending posted sent received : ℕ}
    (c : Channel iters first scnt pending posted sent received) where
  -- Another queue pair's completions only add to the shared count.
  pub Channel-later :
      (later : ℕ) → scnt ≤ later → Channel iters first later pending posted sent received
  Channel-later later le = record {
    send_bit = c.send_bit;
    recv_bit = c.recv_bit;
    send_small = c.send_small;
    recv_small = c.recv_small;
    bits = c.bits;
    sent_so_far = c.sent_so_far;
    turn = c.turn;
    idle = λ h. let i = c.idle h in omega (arith, i, le);
  }

  -- The completion of a send, with a new send behind it or without.
  pub Channel-sent_resent :
      sent < posted
      → clear pending send_wrid ≡ 0
      → Channel iters first (scnt + 1) both_pending (posted + 1) (sent + 1) received
  Channel-sent_resent left none_left =
      let cut = clear_bits c.send_bit c.recv_bit c.send_small c.recv_small in
      record {
        send_bit = 1;
        recv_bit = 1;
        send_small = omega arith;
        recv_small = omega arith;
        bits = ground arith;
        sent_so_far = omega (arith, c.sent_so_far, c.send_small);
        turn = ground (arith, c.turn, c.bits, cut.0);
        idle = λ h. absurd (omega (arith, h));
      }

  pub Channel-sent_kept :
      sent < posted
      → (clear pending send_wrid ≢ 0) ⊎ (iters ≤ scnt + 1)
      → Channel iters first (scnt + 1) (clear pending send_wrid) posted (sent + 1) received
  Channel-sent_kept left why =
      let cut = clear_bits c.send_bit c.recv_bit c.send_small c.recv_small in
      record {
        send_bit = 0;
        recv_bit = c.recv_bit;
        send_small = omega arith;
        recv_small = c.recv_small;
        bits = ground (arith, c.bits, cut.0);
        sent_so_far = omega (arith, c.sent_so_far, c.send_small);
        turn = c.turn;
        idle = λ h. ground (arith, c.bits, cut.0, why, h);
      }

  -- The arrival of a message, of which there are no more than the turn of the other end allows.
  module _ (arrived : ℕ) (in_turn : arrived ≤ posted + first) (left : received < arrived) where
    pub Channel-received_resent :
        clear pending recv_wrid ≡ 0
        → Channel iters first scnt both_pending (posted + 1) sent (received + 1)
    Channel-received_resent none_left =
        let cut = clear_bits c.send_bit c.recv_bit c.send_small c.recv_small in
        record {
          send_bit = 1;
          recv_bit = 1;
          send_small = omega arith;
          recv_small = omega arith;
          bits = ground arith;
          sent_so_far = ground (arith, c.sent_so_far, c.bits, cut.1);
          turn = omega (arith, c.turn, c.recv_small);
          idle = λ h. absurd (omega (arith, h));
        }

    pub Channel-received_kept :
        (clear pending recv_wrid ≢ 0) ⊎ (iters ≤ scnt)
        → Channel iters first scnt (clear pending recv_wrid) posted sent (received + 1)
    Channel-received_kept why =
        let cut = clear_bits c.send_bit c.recv_bit c.send_small c.recv_small in
        record {
          send_bit = c.send_bit;
          recv_bit = 0;
          send_small = c.send_small;
          recv_small = omega arith;
          bits = ground (arith, c.bits, cut.1);
          sent_so_far = c.sent_so_far;
          turn = omega (arith, c.turn, c.recv_small);
          idle = λ h. ground (arith, c.bits, cut.1, why, h);
        }

pub Channel-eq :
    {iters first scnt pending posted sent received scnt' pending' posted' : ℕ}
    → scnt' ≡ scnt
    → pending' ≡ pending
    → posted' ≡ posted
    → Channel iters first scnt pending posted sent received
    → Channel iters first scnt' pending' posted' sent received
Channel-eq a b c x = rw (a, b, c) x
