-- ===== src/MultiStream/Pair/Side.antt =====
-- What holds of one end of the multi-stream connections, and that a completion keeps it.
use network_infiniband_works.Base.{
  ℕ, zero, suc, ◌+◌, ◌<◌, ◌≤◌, ◌≡◌, ◌≢◌, ◌⊎◌, inl, inr, arith, refl, ap, List, [], ◌∷◌, some,
  length, get_elem?, get_or, set, Bool-cases, ◌==◌,
}
use network_infiniband_works.Platform.{Env, Trace, Outcome, done, fail}
use network_infiniband_works.Wire.Hex.Digits.{All}
use network_infiniband_works.MultiThread.Engine.{Loop}
use network_infiniband_works.MultiThread.Engine.Queue.{sends_on, ResentOn, posted_on, kept_on}
use network_infiniband_works.MultiStream.Context.{StreamContext}
use network_infiniband_works.MultiStream.Engine.{Place}
use network_infiniband_works.MultiStream.Engine.Refine.{qp_context, put, run_map, get_or-set}
use network_infiniband_works.MultiStream.Engine.Posted.{InDepth, Posted}
use network_infiniband_works.MultiStream.Pair.{StreamEnd, qp_at, posted_on_qp, IsContext}
use network_infiniband_works.MultiStream.Pair.Total.{total, total_eq, total-le_each}
use network_infiniband_works.MultiStream.Pair.Channel.{Channel, Channel-later}

module _ (e : Env) (ctx : StreamContext) (iters n : ℕ) where
  -- The state of an end: each queue pair in turn, the counts the sums over the queue pairs.
  pub record StreamSide (first : ℕ) (x : StreamEnd) : Type 0 where
    pub channels :
        (i : ℕ)
        → i < n
        → Channel iters first x.streams.scnt
            (get_or x.streams.pending_qp i 0)
            (posted_on_qp ctx x i)
            (x.sent i)
            (x.received i)
    pub all_sent : x.streams.scnt ≡ total n x.sent
    pub all_received : x.streams.rcnt ≡ total n x.received
    pub bound : total n (posted_on_qp ctx x) < iters + n
    pub receives : Posted e ctx n x.streams

  -- What a completion for queue pair `i` leaves of it, and of the others.
  pub record After (first i : ℕ) (x : StreamEnd) (l : Loop) (u : Trace) (sent received : ℕ)
      : Type 0 where
    pub channel : Channel iters first l.scnt l.pending (sends_on (qp_at ctx i) u) sent received
    pub others : (j : ℕ) → j < n → i ≢ j → sends_on (qp_at ctx j) u ≡ sends_on (qp_at ctx j) x.log
    pub bounded :
        (l.scnt < iters)
        ⊎ ((j : ℕ) → j < n → sends_on (qp_at ctx j) u ≡ sends_on (qp_at ctx j) x.log)
    pub only_more : (j : ℕ) → j < n → sends_on (qp_at ctx j) x.log ≤ sends_on (qp_at ctx j) u
    pub later : x.streams.scnt ≤ l.scnt

pub get_elem-get_or :
    (xs : List ℕ) (i v : ℕ) → get_elem? xs i ≡ some v → (i < length xs) × (get_or xs i 0 ≡ v)
get_elem-get_or [] i v h = absurd cc
get_elem-get_or (x ∷ xs) zero v h = (omega arith, cc)
get_elem-get_or (x ∷ xs) (suc i) v h =
    let (a, b) = get_elem-get_or xs i v h in (omega (arith, a), b)

get_or-set_other : (xs : List ℕ) (i j v : ℕ) → i ≢ j → get_or (set xs i v) j 0 ≡ get_or xs j 0
get_or-set_other [] i j v h = refl
get_or-set_other (x ∷ xs) zero zero v h = absurd (h refl)
get_or-set_other (x ∷ xs) zero (suc j) v h = refl
get_or-set_other (x ∷ xs) (suc i) zero v h = refl
get_or-set_other (x ∷ xs) (suc i) (suc j) v h = get_or-set_other xs i j v (λ e. h (ap suc e))

pub get_or-InDepth :
    (depth : ℕ) (xs : List ℕ) (i : ℕ)
    → All (InDepth depth) xs
    → i < length xs
    → InDepth depth (get_or xs i 0)
get_or-InDepth depth [] i h l = absurd (omega arith)
get_or-InDepth depth (x ∷ xs) zero h l = h.0
get_or-InDepth depth (x ∷ xs) (suc i) h l = get_or-InDepth depth xs i h.1 (omega (arith, l))

pub run_map_done :
    {A B : Type 0} (f : A → B) (o : Outcome A) (b : B) (u : Trace)
    → run_map f o ≡ done b u
    → (a : A) × (o ≡ done a u) × (f a ≡ b)
run_map_done f (done a v) b u h = (a, cc, cc)
run_map_done f (fail v) b u h = absurd cc

module _ (e : Env) (ctx : StreamContext) (iters n : ℕ) where
  -- The calls on other queue pairs are none.
  pub ResentOn-others :
      {p : Place} {id : ℕ} {m l : Loop} {v u : Trace}
      → IsContext n ctx
      → p.index < n
      → qp_at ctx p.index ≡ p.qp
      → ResentOn e (qp_context ctx p) iters id m l v u
      → ((j : ℕ) → j < n → p.index ≢ j → sends_on (qp_at ctx j) u ≡ sends_on (qp_at ctx j) v)
        × ((j : ℕ) → j < n → sends_on (qp_at ctx j) v ≤ sends_on (qp_at ctx j) u)
        × (l.scnt ≡ m.scnt)
        × (l.rcnt ≡ m.rcnt)
  ResentOn-others {p} ok small same (posted_on none_left room q more) = (
    λ j k ne. elim (Bool-cases (qp_at ctx j == p.qp)) [
      | inl eq ↦ absurd (ne (ok.distinct p.index j small k (ground (arith, eq, same))))
      | inr other ↦ ground (arith, more (qp_at ctx j), other)
    ],
    λ j k. ground (arith, more (qp_at ctx j)),
    ground arith,
    ground arith,
  )
  ResentOn-others ok small same (kept_on why q all) = (
    λ j k ne. all (qp_at ctx j),
    λ j k. omega (arith, all (qp_at ctx j)),
    ground arith,
    ground arith,
  )

  pub StreamSide-After :
      {first i : ℕ} {x : StreamEnd} {l : Loop} {u : Trace} (sent' received' : ℕ → ℕ)
      → StreamSide e ctx iters n first x
      → i < n
      → After e ctx iters n first i x l u (sent' i) (received' i)
      → ((j : ℕ) → i ≢ j → sent' j ≡ x.sent j)
      → ((j : ℕ) → i ≢ j → received' j ≡ x.received j)
      → l.scnt ≡ total n sent'
      → l.rcnt ≡ total n received'
      → Posted e ctx n (put x.streams i l)
      → StreamSide e ctx iters n first
          (record { streams = put x.streams i l; log = u; sent = sent'; received = received' })
  StreamSide-After {first} {i} {x} {l} {u} sent' received' s small a sent_same received_same scnt
        rcnt ok =
      record { channels = all; all_sent = scnt; all_received = rcnt; bound = bound; receives = ok }
    where
      all :
          (j : ℕ)
          → j < n
          → Channel iters first l.scnt
              (get_or (set x.streams.pending_qp i l.pending) j 0)
              (sends_on (qp_at ctx j) u)
              (sent' j)
              (received' j)
      all j k = elim (Bool-cases (i == j)) [
        | inl eq ↦
            let same : i ≡ j = ground (arith, eq) in
            let len : i < length x.streams.pending_qp = rw s.receives.one_flag_each small in
            let at_i : Channel iters first l.scnt
                (get_or (set x.streams.pending_qp i l.pending) i 0) (sends_on (qp_at ctx i) u)
                (sent' i) (received' i) =
              rw (get_or-set x.streams.pending_qp i l.pending 0 len) (a.channel) in
            rw (← same) at_i
        | inr other ↦
            let ne : i ≢ j = λ e. ground (arith, e, other) in
            rw
              (
                get_or-set_other x.streams.pending_qp i j l.pending ne,
                a.others j k ne,
                sent_same j ne,
                received_same j ne,
              )
              (Channel-later (s.channels j k) l.scnt a.later)
      ]

      each : (j : ℕ) → j < n → sends_on (qp_at ctx j) u ≤ sent' j + 1
      each j k = let c = all j k in omega (arith, c.sent_so_far, c.send_small)

      bound : total n (λ j. sends_on (qp_at ctx j) u) < iters + n
      bound = elim a.bounded [
        | inl room ↦
            let le = total-le_each n (λ j. sends_on (qp_at ctx j) u) sent' each in
            omega (arith, le, scnt, room)
        | inr same ↦
            let eq = total_eq n (posted_on_qp ctx x) (λ j. sends_on (qp_at ctx j) u) same in
            omega (arith, eq, s.bound)
      ]
