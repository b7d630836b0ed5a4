-- ===== src/MultiStream/Pair/Drained.antt =====
-- An end with nothing left to take is through with its loop, if the other end is or has nothing left.
use native.Mathlib.Decide.{dec_lt}
use network_infiniband_works.Base.{ℕ, ◌+◌, ◌<◌, ◌≤◌, ◌≡◌, arith}
use network_infiniband_works.Platform.{Env}
use network_infiniband_works.MultiStream.Context.{StreamContext}
use network_infiniband_works.MultiStream.Engine.{Streams}
use network_infiniband_works.MultiStream.Pair.{
  StreamEnd, StreamPair, StreamSetup, IsStreamSetup, posted_on_qp,
}
use network_infiniband_works.MultiStream.Pair.Total.{total, total_eq, total-le}
use network_infiniband_works.MultiStream.Pair.Side.{StreamSide}
use network_infiniband_works.MultiStream.Pair.Invariant.{StreamInv}

-- Every completion of an end is taken: its sends, and the messages of the other end.
abbrev pub IsDrained : (n : ℕ) (posted sent arrived received : ℕ → ℕ) → Type 0
IsDrained n posted sent arrived received =
    ((i : ℕ) → i < n → posted i ≤ sent i) × ((i : ℕ) → i < n → arrived i ≤ received i)

abbrev pub IsComplete : ℕ → Streams → Type 0
IsComplete iters s = (iters ≤ s.rcnt) × (iters ≤ s.scnt)

module _ {e f : Env} {a b : StreamContext} {iters n first second : ℕ} {x y : StreamEnd}
    (s : StreamSide e a iters n first x) (v : StreamSide f b iters n second y) where
  -- An end with nothing left is through if the other is.
  pub over_too :
      IsDrained n (posted_on_qp a x) x.sent (posted_on_qp b y) x.received
      → ((i : ℕ) → i < n → y.received i ≤ posted_on_qp a x i)
      → IsComplete iters y.streams
      → IsComplete iters x.streams
  over_too drained behind through =
      let own = total-le n (posted_on_qp a x) x.sent drained.0 in
      let theirs = total-le n (posted_on_qp b y) x.received drained.1 in
      let sent =
        total-le n y.sent (posted_on_qp b y)
          (λ i l. let c = v.channels i l in omega (arith, c.sent_so_far)) in
      let got = total-le n y.received (posted_on_qp a x) behind in
      (
        omega (arith, theirs, sent, through.1, s.all_received, v.all_sent),
        omega (arith, own, got, through.0, s.all_sent, v.all_received),
      )

  -- With nothing left at either end, all that an end has posted has completed and arrived.
  drained_counts :
      IsDrained n (posted_on_qp a x) x.sent (posted_on_qp b y) x.received
      → ((i : ℕ) → i < n → x.received i ≤ posted_on_qp b y i)
      → (x.streams.scnt ≡ total n (posted_on_qp a x))
        × (x.streams.rcnt ≡ total n (posted_on_qp b y))
  drained_counts drained behind =
      let own =
        total_eq n x.sent (posted_on_qp a x)
          (λ i l. let c = s.channels i l in omega (arith, c.sent_so_far, drained.0 i l)) in
      let theirs =
        total_eq n x.received (posted_on_qp b y)
          (λ i l. omega (arith, behind i l, drained.1 i l)) in
      (omega (arith, own, s.all_sent), omega (arith, theirs, s.all_received))

  -- An end that is not through waits on each queue pair.
  waits :
      IsDrained n (posted_on_qp a x) x.sent (posted_on_qp b y) x.received
      → x.streams.scnt < iters
      → ((i : ℕ) → i < n → x.received i ≤ posted_on_qp b y i)
      → (i : ℕ) → i < n
      → posted_on_qp b y i + 1 ≡ posted_on_qp a x i + first
  waits drained few behind i l =
      let c = s.channels i l in
      elim (dec_lt 0 (c.send_bit + c.recv_bit)) [
        | no none ↦ let i = c.idle (omega (arith, none)) in absurd (omega (arith, i, few))
        | yes some ↦ omega (
          arith,
          some,
          c.sent_so_far,
          drained.0 i l,
          c.turn,
          c.recv_small,
          behind i l,
          drained.1 i l,
        )
      ]

-- With nothing left at either end, both are through.
pub both_over :
    {k : StreamSetup} {p : StreamPair}
    → IsStreamSetup k
    → StreamInv k p
    → IsDrained k.peers
        (posted_on_qp k.client_ctx p.client)
        p.client.sent
        (posted_on_qp k.server_ctx p.server)
        p.client.received
    → IsDrained k.peers
        (posted_on_qp k.server_ctx p.server)
        p.server.sent
        (posted_on_qp k.client_ctx p.client)
        p.server.received
    → IsComplete k.iters p.client.streams × IsComplete k.iters p.server.streams
both_over {k} {p} ok v c s =
    let posted_c = posted_on_qp k.client_ctx p.client in
    let posted_s = posted_on_qp k.server_ctx p.server in
    let n = k.peers in
    let (scnt_c, rcnt_c) = drained_counts v.client_side v.server_side c v.client_behind in
    let (scnt_s, rcnt_s) = drained_counts v.server_side v.client_side s v.server_behind in
    elim (dec_lt p.client.streams.scnt k.iters) [
      | yes few ↦
          let wait = waits v.client_side v.server_side c few v.client_behind in
          let le = total-le n posted_s posted_c (λ i l. omega (arith, wait i l)) in
          let first = wait 0 (omega (arith, ok.some_peers)) in
          elim (dec_lt p.server.streams.scnt k.iters) [
            | yes few_s ↦
                let wait_s =
                  waits v.server_side v.client_side s few_s v.server_behind 0
                    (omega (arith, ok.some_peers)) in
                absurd (omega (arith, first, wait_s))
            | no many ↦ absurd (omega (arith, le, few, many, scnt_c, scnt_s))
          ]
      | no many ↦ elim (dec_lt p.server.streams.scnt k.iters) [
        | yes few_s ↦
            let wait = waits v.server_side v.client_side s few_s v.server_behind in
            let le = total-le n posted_c posted_s (λ i l. omega (arith, wait i l)) in
            absurd (omega (arith, le, many, few_s, scnt_c, scnt_s))
        | no many_s ↦ omega (arith, many, many_s, scnt_c, scnt_s, rcnt_c, rcnt_s)
      ]
    ]
