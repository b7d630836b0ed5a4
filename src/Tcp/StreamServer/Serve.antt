-- ===== src/Tcp/StreamServer/Serve.antt =====
-- What the loop over the clients does to their places.
use network_infiniband_works.Base.{
  ℕ, zero, suc, ◌+◌, ◌≡◌, ◌⊎◌, inl, inr, refl, sym, ap, ◌∙◌, arith, ℤ, pos, negsuc, List, [], ◌∷◌,
  ◌++◌, Option, none, some, true, false, ltb, if◌then◌else◌, length, take, drop, is_neg, Bool-cases,
  ℤ-cases,
}
use network_infiniband_works.Platform.{
  Event, Trace, int, told, Env, done, fail, M, ◌>>=◌, ret, >>=-eq-done, accept, close, send, read,
}
use network_infiniband_works.Wire.Hex.{until_nul}
use network_infiniband_works.Tcp.Client.{max_packet_size}
use network_infiniband_works.Tcp.Connector.{is_minus_one}
use network_infiniband_works.Tcp.StreamServer.{
  Sent, send_loop, send_verifier, fd_is_set, is_free, serve_client, serve_clients,
}

-- The connections that a run has accepted, and those that it has closed.
abbrev pub accepts_in : Event → ℕ
accepts_in (int (accept lsd) fd) = if is_neg fd then 0 else 1
accepts_in _ = 0

abbrev pub accepts : Trace → ℕ
accepts [] = 0
accepts (ev ∷ t) = accepts_in ev + accepts t

abbrev pub closes_in : Event → ℕ
closes_in (told (close fd)) = 1
closes_in _ = 0

abbrev pub closes : Trace → ℕ
closes [] = 0
closes (ev ∷ t) = closes_in ev + closes t

-- The places that are taken.
abbrev pub occupied : List ℤ → ℕ
occupied [] = 0
occupied (c ∷ cs) = (if is_free c then 0 else 1) + occupied cs

module _ (e : Env) where
  pub same_done {ℓ} : {A : Type ℓ} {a b : A} {t u : Trace} → done a t ≡ done b u → (a ≡ b) × (t ≡ u)
  same_done h = (cc, cc)

  pub not_failed {ℓ} : {A : Type ℓ} {b : A} {t u : Trace} → fail t ≡ done b u → ⊥
  not_failed h = cc

  -- Nothing is accepted or closed between two traces.
  abbrev Quiet : Trace → Trace → Type 0
  Quiet t u = (accepts u ≡ accepts t) × (closes u ≡ closes t)

  Quiet-trans : (t : Trace) {v u : Trace} → v ≡ u → Quiet t v → Quiet t u
  Quiet-trans t same q = (ap accepts (sym same) ∙ q.0, ap closes (sym same) ∙ q.1)

  send_loop-Quiet :
      (fuel : ℕ) (s : ℤ) (buf : List ℕ) (st : Sent) (t u : Trace) (r : Option Sent)
      → send_loop e fuel s buf st t ≡ done r u
      → Quiet t u
  unfolding send_loop
  send_loop-Quiet zero s buf st t u r h = Quiet-trans t (same_done h).1 (refl, refl)
  send_loop-Quiet (suc fuel) s buf st t u r h = elim (Bool-cases (ltb st.total (length buf))) [
    | inr over ↦ Quiet-trans t (same_done (rw (over, send_loop) at h)).1 (refl, refl)
    | inl more ↦
        let c = send s (drop st.total buf) in
        let h' = rw (more, send_loop) at h in
        elim (ℤ-cases (e.int t c)) [
          | inl nothing ↦
              let ih = send_loop-Quiet fuel s buf _ (int c (pos 0) ∷ t) u r (rw nothing at h') in
              (omega (arith, ih.0), omega (arith, ih.1))
          | inr other ↦ elim other [
            | inl (k, some_sent) ↦
                let ih =
                  send_loop-Quiet fuel s buf _ (int c (pos (suc k)) ∷ t) u r (rw some_sent at h') in
                (omega (arith, ih.0), omega (arith, ih.1))
            | inr (k, bad) ↦ Quiet-trans t (same_done (rw bad at h')).1 (omega arith, omega arith)
          ]
        ]
  ]

  send_verifier-Quiet :
      (fuel : ℕ) (junk s : ℤ) (buf : List ℕ) (t u : Trace) (r : Option ℤ)
      → send_verifier e fuel junk s buf t ≡ done r u
      → Quiet t u
  unfolding send_verifier
  send_verifier-Quiet fuel junk s buf t u r h =
      let start : Sent = record { total = 0; n = junk } in
      let (st, w, p, q) = >>=-eq-done (send_loop e fuel s buf start) _ t h in
      Quiet-trans t (last st w q) (send_loop-Quiet fuel s buf start t w st p)
    where
      last :
          (st : Option Sent) (w : Trace)
          → (elim st as (λ _. M (Option ℤ)) [
            | none ↦ ret none
            | some x ↦ ret (some (if is_minus_one x.n then negsuc 0 else pos 0))
          ])
              w
            ≡ done r u
          → w ≡ u
      last none w k = (same_done k).1
      last (some x) w k = (same_done k).1

  -- A client that is served keeps its place, or its connection is closed and the place is free.
  Served : ℤ → ℤ → Trace → Trace → Type 0
  Served c x t u =
      ((x ≡ c) × Quiet t u) ⊎ ((x ≡ pos 0) × (accepts u ≡ accepts t) × (closes u ≡ closes t + 1))

  module _ (fuel : ℕ) (junk : ℤ) where
    serve_client-Served :
        (c : ℤ) (t u : Trace) (x : ℤ)
        → serve_client e fuel junk c t ≡ done (some x) u
        → Served c x t u
    unfolding serve_client Served
    serve_client-Served c t u x h =
        let r = read c max_packet_size in
        elim (ℤ-cases (e.int t r)) [
          | inl over ↦
              let (a, b) = same_done (rw over at h) in
              inr
                (some_eq (sym a), ap accepts (sym b) ∙ omega arith, ap closes (sym b) ∙ omega arith)
          | inr other ↦ elim other [
            | inr (k, bad) ↦ absurd (not_failed (rw bad at h))
            | inl (k, got) ↦ elim (Bool-cases (ltb (suc k) max_packet_size)) [
              | inr full ↦ absurd (not_failed (rw full at (rw got at h)))
              | inl fits ↦
                  let t1 = int r (pos (suc k)) ∷ t in
                  let text = until_nul (take (suc k) (e.bytes t r) ++ (0 ∷ [])) in
                  let (sv, v, p, q) =
                    >>=-eq-done (send_verifier e fuel junk c text) _ t1
                      (rw fits at (rw got at h)) in
                  let still = send_verifier-Quiet fuel junk c text t1 v sv p in
                  inl (kept sv v q (omega (arith, still.0), omega (arith, still.1)))
            ]
          ]
        ]
      where
        some_eq : {a b : ℤ} → some a ≡ some b → a ≡ b
        some_eq k = cc

        kept :
            (sv : Option ℤ) (v : Trace)
            → (elim sv as (λ _. M (Option ℤ)) [
              | none ↦ ret none
              | some r ↦ if is_neg r then (λ w. fail w) else ret (some c)
            ])
                v
              ≡ done (some x) u
            → Quiet t v
            → (x ≡ c) × Quiet t u
        kept none v k quiet = absurd cc
        kept (some r) v k quiet = elim (Bool-cases (is_neg r)) [
          | inl bad ↦ absurd (not_failed (rw bad at k))
          | inr good ↦
              let (a, b) = same_done (rw good at k) in (some_eq (sym a), Quiet-trans t b quiet)
        ]

    -- What a part of a round keeps.
    abbrev pub Balanced : List ℤ → List ℤ → Trace → Trace → Type 0
    Balanced cs cs' t u =
        (length cs' ≡ length cs)
        × (accepts u ≡ accepts t)
        × (closes u + occupied cs' ≡ closes t + occupied cs)

    ready_taken :
        (ready : List ℕ) (c : ℤ)
        → fd_is_set (pos 0) ready ≡ false
        → fd_is_set c ready ≡ true
        → is_free c ≡ false
    ready_taken ready (pos zero) h k = absurd (ground (arith, h, k))
    ready_taken ready (pos (suc n)) h k = refl
    ready_taken ready (negsuc n) h k = refl

    place_Balanced :
        (c x : ℤ) (cs xs : List ℤ) (t v u : Trace)
        → ((x ≡ c) × Quiet t v) ⊎ ((is_free c ≡ false) × Served c x t v)
        → Balanced cs xs v u
        → Balanced (c ∷ cs) (x ∷ xs) t u
    unfolding Served
    place_Balanced c x cs xs t v u (inl (same, q)) b =
        (omega (arith, b.0), omega (arith, b.1, q.0), rw same (omega (arith, b.2, q.1)))
    place_Balanced c x cs xs t v u (inr (taken, inl (same, q))) b =
        (omega (arith, b.0), omega (arith, b.1, q.0), rw same (omega (arith, b.2, q.1)))
    place_Balanced c x cs xs t v u (inr (taken, inr (freed, a, k))) b =
        (omega (arith, b.0), omega (arith, b.1, a), rw (freed, taken) (omega (arith, b.2, k)))

    pub serve_clients-Balanced :
        (ready : List ℕ) (cs : List ℤ) (t u : Trace) (cs' : List ℤ)
        → fd_is_set (pos 0) ready ≡ false
        → serve_clients e fuel junk ready cs t ≡ done (some cs') u
        → Balanced cs cs' t u
    unfolding serve_clients
    serve_clients-Balanced ready [] t u cs' h run =
        let (a, b) = same_done run in
        let empty : [] ≡ cs' = cc in rw (← empty, ← b) (refl, refl, refl)
    serve_clients-Balanced ready (c ∷ cs) t u cs' h run =
        let (c', v, p, q) =
          >>=-eq-done (if fd_is_set c ready then serve_client e fuel junk c else ret (some c)) _ t
            run in
        go (λ w' v' ys k. serve_clients-Balanced ready cs v' w' ys h k) c' v p q
      where
        some_list : {a b : List ℤ} → some a ≡ some b → a ≡ b
        some_list k = cc

        some_place : {a b : ℤ} → some a ≡ some b → a ≡ b
        some_place k = cc

        rest_of :
            ((w' : Trace) (v' : Trace) (ys : List ℤ)
              → serve_clients e fuel junk ready cs v' ≡ done (some ys) w'
              → Balanced cs ys v' w')
            → (x : ℤ) (v : Trace) (rest : Option (List ℤ)) (w : Trace)
            → ((x ≡ c) × Quiet t v) ⊎ ((is_free c ≡ false) × Served c x t v)
            → serve_clients e fuel junk ready cs v ≡ done rest w
            → ret (elim rest [ none ↦ none | some xs ↦ some (x ∷ xs) ]) w ≡ done (some cs') u
            → Balanced (c ∷ cs) cs' t u
        rest_of ih x v none w s p q = absurd cc
        rest_of ih x v (some xs) w s p q =
            let (a, b) = same_done q in
            let both = place_Balanced c x cs xs t v w s (ih w v xs p) in
            rw (← some_list a, ← b) both

        go :
            ((w' : Trace) (v' : Trace) (ys : List ℤ)
              → serve_clients e fuel junk ready cs v' ≡ done (some ys) w'
              → Balanced cs ys v' w')
            → (c' : Option ℤ) (v : Trace)
            → (if fd_is_set c ready then serve_client e fuel junk c else ret (some c)) t ≡ done c' v
            → (elim c' as (λ _. M (Option (List ℤ))) [
              | none ↦ ret none
              | some x ↦ serve_clients e fuel junk ready cs >>= λ rest.
                  ret (elim rest [ none ↦ none | some xs ↦ some (x ∷ xs) ])
            ])
                v
              ≡ done (some cs') u
            → Balanced (c ∷ cs) cs' t u
        go ih none v p q = absurd cc
        go ih (some x) v p q =
            let (rest, w, p', q') = >>=-eq-done (serve_clients e fuel junk ready cs) _ v q in
            elim (Bool-cases (fd_is_set c ready)) [
              | inl set ↦
                  rest_of ih x v rest w
                    (inr (ready_taken ready c h set, serve_client-Served c t v x (rw set at p))) p'
                    q'
              | inr idle ↦
                  let (a, b) = same_done (rw idle at p) in
                  rest_of ih x v rest w (inl (some_place (sym a), Quiet-trans t b (refl, refl))) p'
                    q'
            ]
