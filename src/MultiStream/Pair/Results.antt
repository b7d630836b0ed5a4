-- ===== src/MultiStream/Pair/Results.antt =====
-- The exchange over several queue pairs as a whole: what is outstanding, and that it ends.
use network_infiniband_works.Base.{
  ℕ, ◌+◌, ◌*◌, ◌<◌, ◌≤◌, ◌≡◌, ◌⊎◌, inl, inr, true, false, Bool-cases, arith,
}
use network_infiniband_works.MultiStream.Engine.Posted.{Posted}
use network_infiniband_works.MultiStream.Pair.{
  StreamPair, StreamSetup, StreamReach, RunStep, RunReach, run_over, run_first, StreamStart,
  IsStreamSetup, Serving, BothOver, posted_on_qp,
}
use network_infiniband_works.MultiStream.Engine.{streams_go_on}
use network_infiniband_works.MultiStream.Pair.Total.{total}
use network_infiniband_works.MultiStream.Pair.Invariant.{Reach-StreamInv}
use network_infiniband_works.MultiStream.Pair.Progress.{
  RunStep-or_over, stream_steps, stream_taken-steps, stream_taken-lt, run_streams_on,
}

-- In every state that the two ends reach from their start, with several queue pairs, for at least
-- one round, at least one queue pair, receive depths of 2 or more and queue pairs that differ: on
-- each queue pair at most one send of an end has not completed, an end has received at most what
-- the other has posted there, and the client has posted as many sends as the server or one more.
pub stream_turns :
    {k : StreamSetup} {p q : StreamPair} (i : ℕ)
    → IsStreamSetup k
    → StreamStart k p
    → StreamReach k p q
    → i < k.peers
    → (posted_on_qp k.client_ctx q.client i ≤ q.client.sent i + 1)
      × (posted_on_qp k.server_ctx q.server i ≤ q.server.sent i + 1)
      × (q.client.received i ≤ posted_on_qp k.server_ctx q.server i)
      × (q.server.received i ≤ posted_on_qp k.client_ctx q.client i)
      × (posted_on_qp k.server_ctx q.server i ≤ posted_on_qp k.client_ctx q.client i)
      × (posted_on_qp k.client_ctx q.client i ≤ posted_on_qp k.server_ctx q.server i + 1)
stream_turns i ok s r l =
    let v = Reach-StreamInv ok s r in
    let c = v.client_side.channels i l in
    let d = v.server_side.channels i l in
    let a = v.client_behind i l in
    let b = v.server_behind i l in
    omega (
      arith, a, b, c.sent_so_far, c.send_small, c.turn, c.recv_small, d.sent_so_far, d.send_small,
      d.turn, d.recv_small,
    )

-- In every state that the two ends reach from their start, with several queue pairs, for at least
-- one round, at least one queue pair, receive depths of 2 or more and queue pairs that differ:
-- `scnt` and `rcnt` are the sums of the completions taken on the queue pairs, the sends that an end
-- has posted on all of them are fewer than `iters` and the number of queue pairs together, and each
-- queue pair has between 2 and `rx_depth` receives posted.
pub stream_totals :
    {k : StreamSetup} {p q : StreamPair}
    → IsStreamSetup k
    → StreamStart k p
    → StreamReach k p q
    → (q.client.streams.scnt ≡ total k.peers q.client.sent)
      × (q.client.streams.rcnt ≡ total k.peers q.client.received)
      × (q.server.streams.scnt ≡ total k.peers q.server.sent)
      × (q.server.streams.rcnt ≡ total k.peers q.server.received)
      × (total k.peers (posted_on_qp k.client_ctx q.client) < k.iters + k.peers)
      × (total k.peers (posted_on_qp k.server_ctx q.server) < k.iters + k.peers)
      × Posted k.client_env k.client_ctx k.peers q.client.streams
      × Posted k.server_env k.server_ctx k.peers q.server.streams
stream_totals ok s r =
    let v = Reach-StreamInv ok s r in
    (
      v.client_side.all_sent, v.client_side.all_received, v.server_side.all_sent,
      v.server_side.all_received, v.client_side.bound, v.server_side.bound, v.client_side.receives,
      v.server_side.receives,
    )

-- For at least one round, at least one queue pair, receive depths of 2 or more, and queue pairs
-- that differ, have numbers of their own and take every request: in a state that the two ends
-- reach from their start, both loops are over, or an end whose loop goes on has a completion to
-- take, which may need delivery to or from an end that has left its loop.
pub stream_never_stuck :
    {k : StreamSetup} {p q : StreamPair}
    → IsStreamSetup k
    → StreamStart k p
    → Serving k
    → StreamReach k p q
    → BothOver k q ⊎ ((r : StreamPair) × RunStep k q r)
stream_never_stuck ok s serving r = RunStep-or_over ok serving (Reach-StreamInv ok s r)

-- For at least one round, at least one queue pair, receive depths of 2 or more and queue pairs that
-- differ, however the completions are ordered, and even if they are taken behind the end of a loop,
-- the two ends take at most 4 · (iters + peers - 1) of them.
pub stream_steps-le :
    {k : StreamSetup} {p q : StreamPair}
    → IsStreamSetup k
    → StreamStart k p
    → (r : StreamReach k p q) → stream_steps r + 4 ≤ 4 * (k.iters + k.peers)
stream_steps-le ok s r =
    let count = stream_taken-steps ok s r in
    let most = stream_taken-lt (Reach-StreamInv ok s r) in omega (arith, count, most)

-- A run in which each step is taken while neither loop is over.
pub data TogetherReach (k : StreamSetup) : StreamPair → StreamPair → Type 0 where
  none_left : {p : StreamPair} → TogetherReach k p p
  both_on :
      {p q r : StreamPair}
      → streams_go_on k.iters p.client.streams ≡ true
      → streams_go_on k.iters p.server.streams ≡ true
      → RunStep k p q
      → TogetherReach k q r
      → TogetherReach k p r

-- A loop is over.
abbrev pub OneOver : StreamSetup → StreamPair → Type 0
OneOver k p =
    (streams_go_on k.iters p.client.streams ≡ false)
    ⊎ (streams_go_on k.iters p.server.streams ≡ false)

-- A run to the end of both loops, parted where the first of them is over.
part_run :
    {k : StreamSetup} {p r : StreamPair}
    → RunReach k p r
    → BothOver k r
    → (q : StreamPair) × TogetherReach k p q × OneOver k q × RunReach k q r
part_run {p = p} run_over over = (p, none_left, inl over.0, run_over)
part_run {k} {p = p} (run_first st rest) over =
    elim (Bool-cases (streams_go_on k.iters p.client.streams)) [
      | inr over_c ↦ (p, none_left, inl over_c, run_first st rest)
      | inl on_c ↦ elim (Bool-cases (streams_go_on k.iters p.server.streams)) [
        | inr over_s ↦ (p, none_left, inr over_s, run_first st rest)
        | inl on_s ↦
            let (q, together, one, later) = part_run rest over in
            (q, both_on on_c on_s st together, one, later)
      ]
    ]

-- For at least one round, at least one queue pair, receive depths of 2 or more, and queue pairs that
-- differ, have numbers of their own and take every request: a state that the two ends reach from
-- their start can be continued, with completions taken in the loops only, to one in which both loops
-- are over. Up to a state in which the first loop is over, all of these completions are taken while
-- neither end has left its loop. Those behind it need, beyond these conditions, connections that go on
-- delivering to and from the end that has left its loop, which in the program destroys its queue
-- pairs then.
pub stream_completes :
    {k : StreamSetup} {p q : StreamPair}
    → IsStreamSetup k
    → StreamStart k p
    → Serving k
    → StreamReach k p q
    → (r : StreamPair) × RunReach k q r
      × BothOver k r
      × ((m : StreamPair) × TogetherReach k q m × OneOver k m × RunReach k m r)
stream_completes {k} ok s serving r =
    let (last, run, over) =
      run_streams_on (4 * (k.iters + k.peers) + 1) ok serving (Reach-StreamInv ok s r)
        (omega arith) in
    (last, run, over, part_run run over)
