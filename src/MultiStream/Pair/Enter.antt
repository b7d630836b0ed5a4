-- ===== src/MultiStream/Pair/Enter.antt =====
-- How `runPingPong` of multistreamTestRunner.c enters its loop: the start of the two ends.
use network_infiniband_works.Base.{
  ℕ, zero, suc, ◌+◌, ◌<◌, ◌≡◌, ◌≢◌, refl, arith, List, [], ◌∷◌, length, get_or, replicate, ◌==◌,
  if◌then◌else◌, Bool-cases, inl, inr,
}
use network_infiniband_works.Platform.{Env, Trace, done, told, calloc, is_null, >>=-eq-done}
use network_infiniband_works.MultiThread.Exchange.{Host}
use network_infiniband_works.MultiThread.Engine.{recv_wrid, both_pending}
use network_infiniband_works.MultiThread.Engine.Queue.{sends_on}
use network_infiniband_works.MultiStream.Context.{StreamContext, pp_post_send_qp}
use network_infiniband_works.MultiStream.Engine.{Streams}
use network_infiniband_works.MultiStream.Run.{StreamCommands, send_all, first_sends}
use network_infiniband_works.MultiStream.Run.Start.{AllPosted, first_sends-Posted}
use network_infiniband_works.MultiStream.Pair.{StreamEnd, Entered, IsContext, qp_at}

-- How often a queue pair occurs in a list.
abbrev occurrences : (q : ℕ) → List ℕ → ℕ
occurrences q [] = 0
occurrences q (x ∷ xs) = (if q == x then 1 else 0) + occurrences q xs

occurrences_none :
    (q : ℕ) (xs : List ℕ) → ((j : ℕ) → j < length xs → q ≢ get_or xs j 0) → occurrences q xs ≡ 0
occurrences_none q [] h = refl
occurrences_none q (x ∷ xs) h =
    let rest = occurrences_none q xs (λ j l. h (suc j) (omega (arith, l))) in
    let first = h 0 (omega arith) in ground (arith, rest, first)

occurrences_once :
    (xs : List ℕ) (i : ℕ)
    → i < length xs
    → ((j : ℕ) → j < length xs → i ≢ j → get_or xs i 0 ≢ get_or xs j 0)
    → occurrences (get_or xs i 0) xs ≡ 1
occurrences_once [] i l h = absurd (omega arith)
occurrences_once (x ∷ xs) zero l h =
    let rest =
      occurrences_none x xs
        (λ j k. h (suc j) (omega (arith, k)) (λ e. absurd (omega (arith, e)))) in
    ground (arith, rest)
occurrences_once (x ∷ xs) (suc i) l h =
    let rest =
      occurrences_once xs i (omega (arith, l))
        (λ j k ne. h (suc j) (omega (arith, k)) (λ e. ne (omega (arith, e)))) in
    let first = h 0 (omega arith) (λ e. absurd (omega (arith, e))) in ground (arith, rest, first)

get_or-replicate : (n i v : ℕ) → i < n → get_or (replicate n v) i 0 ≡ v
get_or-replicate zero i v l = absurd (omega arith)
get_or-replicate (suc n) zero v l = refl
get_or-replicate (suc n) (suc i) v l = get_or-replicate n i v (omega (arith, l))

module _ (e : Env) (host : Host) (ctx : StreamContext) where
  send_qp_on :
      (qp i q : ℕ) (t u : Trace)
      → pp_post_send_qp e ctx qp i t ≡ done tt u
      → sends_on q u ≡ (if q == qp then 1 else 0) + sends_on q t
  unfolding pp_post_send_qp
  send_qp_on qp i q t u h = ground arith

  send_all_on :
      (qps : List ℕ) (i q : ℕ) (t u : Trace)
      → send_all e host ctx qps i t ≡ done tt u
      → sends_on q u ≡ occurrences q qps + sends_on q t
  unfolding send_all
  send_all_on [] i q t u h = let same : t ≡ u = cc in rw (← same) (omega arith)
  send_all_on (qp ∷ qps) i q t u h =
      let (a, v, k, h') = >>=-eq-done (pp_post_send_qp e ctx qp i) _ t h in
      let first = send_qp_on qp i q t v k in
      let rest = send_all_on qps (i + 1) q v u h' in omega (arith, first, rest)

  -- The end that a run enters the loop with.
  abbrev pub entered_end : Streams → Trace → StreamEnd
  entered_end s u = record { streams = s; log = u; sent = λ i. 0; received = λ i. 0 }

  module _ (n : ℕ) (ok : IsContext n ctx) (t : Trace)
      (none_yet : (i : ℕ) → i < n → sends_on (qp_at ctx i) t ≡ 0) where
    sent_once :
        (u : Trace) (i : ℕ)
        → send_all e host ctx ctx.qp_arr 0 (told (calloc ctx.peer_num 4) ∷ t) ≡ done tt u
        → i < n
        → sends_on (qp_at ctx i) u ≡ 1
    sent_once u i h l =
        let all = send_all_on ctx.qp_arr 0 (qp_at ctx i) _ u h in
        let once =
          occurrences_once ctx.qp_arr i (omega (arith, l, ok.whole))
            (λ j k ne same. ne (ok.distinct i j l (omega (arith, k, ok.whole)) same)) in
        let before = none_yet i l in omega (arith, all, once, before)

    -- Where a context has a queue pair for each peer, all of them different, with the receives
    -- posted, and nothing was sent on them before: `first_sends` hands over the state that the two
    -- ends start with, with both flags and one send on each queue pair at the client, and with the
    -- flag for a receive and no send at the server.
    pub first_sends-Entered :
        (commands : StreamCommands) (routs : List ℕ) (s : Streams) (u : Trace)
        → ctx.peer_num ≡ n
        → AllPosted e host ctx.rx_depth n routs
        → first_sends e host commands ctx routs t ≡ done s u
        → Entered e ctx n
            (if is_null commands.servername then recv_wrid else both_pending)
            (if is_null commands.servername then 0 else 1)
            (entered_end s u)
    unfolding first_sends
    first_sends-Entered commands routs s u num posted h =
        let receives = (first_sends-Posted e host commands ctx routs n num posted).runs t u s h in
        elim (Bool-cases (is_null commands.servername)) [
          | inl server ↦
              let h' = rw server at h in
              let same : entered recv_wrid ≡ s = cc in
              let same_log : told (calloc ctx.peer_num 4) ∷ t ≡ u = cc in
              rw server (
                rw (← same, ← same_log)
                  (record {
                    flagged =
                        λ i l. get_or-replicate ctx.peer_num i recv_wrid (omega (arith, l, num));
                    first_posted = λ i l. let before = none_yet i l in omega (arith, before);
                    none_sent = λ i. refl;
                    none_received = λ i. refl;
                    scnt_zero = refl;
                    rcnt_zero = refl;
                    receives = rw (← same) at receives;
                  }))
          | inr client ↦
              let (a, v, k, h') =
                >>=-eq-done (send_all e host ctx ctx.qp_arr 0) _ (told (calloc ctx.peer_num 4) ∷ t)
                  (rw client at h) in
              let same : entered both_pending ≡ s = cc in
              let same_log : v ≡ u = cc in
              rw client (
                rw (← same, ← same_log)
                  (record {
                    flagged =
                        λ i l. get_or-replicate ctx.peer_num i both_pending (omega (arith, l, num));
                    first_posted = λ i l. sent_once v i k l;
                    none_sent = λ i. refl;
                    none_received = λ i. refl;
                    scnt_zero = refl;
                    rcnt_zero = refl;
                    receives = rw (← same) at receives;
                  }))
        ]
      where
        entered : ℕ → Streams
        entered flags = record {
          pending_qp = replicate ctx.peer_num flags;
          routs_arr = routs;
          rcnt = 0;
          scnt = 0;
        }
