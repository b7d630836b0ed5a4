-- ===== src/Tcp/StreamServer/Send.antt =====
-- `sendVerifier` sends all that it is given.
use network_infiniband_works.Base.{
  ℕ, zero, suc, ◌+◌, ◌<◌, ◌≤◌, ◌≡◌, ◌⊎◌, inl, inr, refl, sym, ap, ◌∙◌, arith, ℤ, pos, negsuc, List,
  [], ◌∷◌, ◌++◌, some, true, false, ltb, length, take, drop, length-drop, Bool-cases, append_assoc,
  append_nil, take-append-drop_more, take_all,
}
use network_infiniband_works.Platform.{Event, Trace, int, Env, done, send, bind_done}
use network_infiniband_works.Tcp.Connector.{is_minus_one}
use network_infiniband_works.Tcp.StreamServer.{Sent, send_loop, send_verifier}

-- What `send` documents for a buffer that is not empty: -1, or the number of bytes taken, of which
-- there is at least one and no more than the buffer has.
pub record Sends (e : Env) : Type 0 where
  pub sends_some :
      (t : Trace) (s : ℤ) (buf : List ℕ)
      → 0 < length buf
      → (e.int t (send s buf) ≡ negsuc 0)
        ⊎ ((k : ℕ) × (e.int t (send s buf) ≡ pos (suc k)) × (suc k ≤ length buf))

-- The bytes that a run has handed over, in order.
abbrev pub sent_by : Event → List ℕ
sent_by (int (send s buf) (pos k)) = take k buf
sent_by _ = []

abbrev pub sent : Trace → List ℕ
sent [] = []
sent (ev ∷ t) = sent t ++ sent_by ev

-- How the loop ends: with the buffer sent, or with an error behind the first bytes of it.
abbrev pub SentAll : List ℕ → List ℕ → ℤ → Trace → Type 0
SentAll buf before n u =
    ((is_minus_one n ≡ false) × (sent u ≡ before ++ buf))
    ⊎ ((is_minus_one n ≡ true) × ((k : ℕ) × (k < length buf) × (sent u ≡ before ++ take k buf)))

module _ (e : Env) (ok : Sends e) (s : ℤ) (buf before : List ℕ) where
  send_loop-SentAll :
      (fuel : ℕ) (st : Sent) (t : Trace)
      → sent t ≡ before ++ take st.total buf
      → st.total ≤ length buf
      → length buf < fuel + st.total
      → (st.total < length buf) ⊎ (is_minus_one st.n ≡ false)
      → (r : Sent) × (u : Trace) × (send_loop e fuel s buf st t ≡ done (some r) u)
        × SentAll buf before r.n u
  unfolding send_loop
  send_loop-SentAll zero st t so_far within enough n = absurd (omega arith)
  send_loop-SentAll (suc fuel) st t so_far within enough n =
      elim (Bool-cases (ltb st.total (length buf))) [
        | inr over ↦ (
          st,
          t,
          rw (over, send_loop) refl,
          inl (
            elim n [ inl left ↦ absurd (ground (arith, over, left)) | inr fine ↦ fine ],
            so_far ∙ ap (λ l. before ++ l) (take_all st.total buf (ground (arith, over))),
          ),
        )
        | inl more ↦
            let rest = drop st.total buf in
            let l = length-drop st.total buf in
            elim (ok.sends_some t s rest (ground (arith, more, l))) [
              | inl bad ↦ (
                record { total = st.total; n = negsuc 0 },
                int (send s rest) (negsuc 0) ∷ t,
                rw (more, bad, send_loop) refl,
                inr (refl, (st.total, ground (arith, more), append_nil (sent t) ∙ so_far)),
              )
              | inr (k, good, fits) ↦
                  let st' : Sent = record { total = st.total + suc k; n = pos (suc k) } in
                  let (r, u, p, q) =
                    send_loop-SentAll fuel st' (int (send s rest) (pos (suc k)) ∷ t)
                      (ap (λ x. x ++ take (suc k) rest) so_far
                        ∙ append_assoc before (take st.total buf) (take (suc k) rest)
                        ∙ ap (λ x. before ++ x) (take-append-drop_more st.total (suc k) buf))
                      (ground (arith, more, l, fits)) (omega (arith, enough)) (inr refl) in
                  (r, u, rw (more, good, send_loop) p, q)
            ]
      ]

-- Where `send` takes at least a byte or fails, `sendVerifier` ends, for a buffer that is not empty
-- and with fuel for more rounds than the buffer has bytes. It returns 0 with exactly the buffer
-- sent, in order, or -1 with a first part of it sent that is not all of it.
pub send_verifier_all_sent :
    (e : Env) (fuel : ℕ) (junk s : ℤ) (buf : List ℕ) (t : Trace)
    → Sends e
    → 0 < length buf
    → length buf < fuel
    → (r : ℤ) × (u : Trace) × (send_verifier e fuel junk s buf t ≡ done (some r) u)
      × (((r ≡ pos 0) × (sent u ≡ sent t ++ buf))
          ⊎ ((r ≡ negsuc 0) × ((k : ℕ) × (k < length buf) × (sent u ≡ sent t ++ take k buf))))
unfolding send_verifier
send_verifier_all_sent e fuel junk s buf t ok some_bytes enough =
    let start : Sent = record { total = 0; n = junk } in
    let (r, u, p, q) =
      send_loop-SentAll e ok s buf (sent t) fuel start t (sym (append_nil (sent t))) (omega arith)
        (omega arith) (inl some_bytes) in
    elim q [
      | inl (fine, all) ↦
          (pos 0, u, bind_done (send_loop e fuel s buf start) _ t p (rw fine refl), inl (refl, all))
      | inr (bad, part) ↦ (
        negsuc 0,
        u,
        bind_done (send_loop e fuel s buf start) _ t p (rw bad refl),
        inr (refl, part),
      )
    ]
