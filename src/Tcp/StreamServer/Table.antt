-- ===== src/Tcp/StreamServer/Table.antt =====
-- The table of clients: each open connection has a place in it.
use network_infiniband_works.Base.{
  ℕ, zero, suc, ◌+◌, ◌<◌, ◌≤◌, ◌≡◌, ◌⊎◌, inl, inr, refl, ◌∙◌, arith, ℤ, pos, List, [], ◌∷◌, Option,
  none, some, false, length, is_neg, Bool-cases,
}
use network_infiniband_works.Platform.{
  Trace, int, Env, done, M, ret, >>=-eq-done, accept, select_read,
}
use network_infiniband_works.Tcp.StreamServer.Serve.{
  accepts, closes, occupied, same_done, not_failed, Balanced, serve_clients-Balanced,
}
use network_infiniband_works.Tcp.StreamServer.{
  max_clients, no_clients, watched, fd_is_set, is_free, place_client, take_connection, server_pass,
  server_loop,
}

-- The first free place takes a connection.
place_client-occupied :
    (fd : ℤ) (cs : List ℤ)
    → is_free fd ≡ false
    → (length (place_client fd cs) ≡ length cs)
      × (((occupied cs < length cs) × (occupied (place_client fd cs) ≡ occupied cs + 1))
          ⊎ ((occupied cs ≡ length cs) × (occupied (place_client fd cs) ≡ occupied cs)))
unfolding place_client
place_client-occupied fd [] taken = (refl, inr (refl, refl))
place_client-occupied fd (c ∷ cs) taken =
    let (l, ih) = place_client-occupied fd cs taken in
    let most = occupied-le cs in
    elim (Bool-cases (is_free c)) [
      | inl free ↦
          rw (free, place_client) (rw taken (refl, (inl (omega (arith, most), omega arith))))
      | inr full ↦
          rw (full, place_client)
            (rw full (
              omega (arith, l),
              elim ih [
                | inl (room, more) ↦ inl (omega (arith, room), omega (arith, more))
                | inr (none_left, same) ↦ inr (omega (arith, none_left), omega (arith, same))
              ],
            ))
    ]
  where
    occupied-le : (ds : List ℤ) → occupied ds ≤ length ds
    occupied-le [] = omega arith
    occupied-le (d ∷ ds) =
        let ih = occupied-le ds in
        elim (Bool-cases (is_free d)) [
          | inl free ↦ rw free (omega (arith, ih))
          | inr full ↦ rw full (omega (arith, ih))
        ]

-- What the server keeps: every place of the table stays, and each connection has one, unless more
-- came than there are places for.
Accounted : List ℤ → Trace → Type 0
Accounted cs t =
    (length cs ≡ max_clients)
    × (closes t + occupied cs ≤ accepts t)
    × ((closes t + occupied cs ≡ accepts t) ⊎ (max_clients < accepts t))

module _ (e : Env) (fuel : ℕ) (junk lsd : ℤ) where
  take_connection-Accounted :
      ((t : Trace) → is_free (e.int t (accept lsd)) ≡ false)
      → (ready : List ℕ) (cs : List ℤ) (t u : Trace) (cs' : List ℤ) → Accounted cs t
      → take_connection e fuel junk lsd ready cs t ≡ done cs' u
      → Accounted cs' u
  unfolding take_connection Accounted
  take_connection-Accounted some_fd ready cs t u cs' (l, le, eq) h =
      elim (Bool-cases (fd_is_set lsd ready)) [
        | inr idle ↦ let (a, b) = same_done e (rw idle at h) in rw (← a, ← b) (l, le, eq)
        | inl set ↦ elim (Bool-cases (is_neg (e.int t (accept lsd)))) [
          | inl bad ↦ absurd (not_failed e (rw bad at (rw set at h)))
          | inr good ↦
              let fd = e.int t (accept lsd) in
              let (a, b) = same_done e (rw good at (rw set at h)) in
              let (l', room) = place_client-occupied fd cs (some_fd t) in
              elim room [
                | inl (free, more) ↦
                    rw (← a, ← b)
                      (rw good (
                        l' ∙ l,
                        omega (arith, more, le),
                        elim eq [
                          | inl all ↦ inl (omega (arith, all, more))
                          | inr many ↦ inr (omega (arith, many))
                        ],
                      ))
                | inr (none_left, same) ↦
                    rw (← a, ← b)
                      (rw good (
                        l' ∙ l,
                        omega (arith, same, le),
                        elim eq [
                          | inl all ↦ inr (omega (arith, all, none_left, l))
                          | inr many ↦ inr (omega (arith, many))
                        ],
                      ))
              ]
        ]
      ]

  Balanced-Accounted :
      (cs cs' : List ℤ) (t u : Trace)
      → Balanced e fuel junk cs cs' t u
      → Accounted cs t
      → Accounted cs' u
  unfolding Accounted
  Balanced-Accounted cs cs' t u b (l, le, eq) = (
    b.0 ∙ l,
    omega (arith, b.1, b.2, le),
    elim eq [
      | inl all ↦ inl (omega (arith, b.1, b.2, all))
      | inr many ↦ inr (omega (arith, b.1, many))
    ],
  )

  -- What is asked of `accept` and of `select`: that 0, which marks a free place, is no connection,
  -- and is not among the ready descriptors.
  abbrev ZeroIsInput : Type 0
  ZeroIsInput =
      ((t : Trace) → is_free (e.int t (accept lsd)) ≡ false)
      × ((t : Trace) (fds : List ℤ) → fd_is_set (pos 0) (e.addrs t (select_read fds)) ≡ false)

  server_pass-Accounted :
      ZeroIsInput
      → (cs : List ℤ) (t u : Trace) (cs' : List ℤ) → Accounted cs t
      → server_pass e fuel junk lsd cs t ≡ done (some cs') u
      → Accounted cs' u
  unfolding server_pass Accounted
  server_pass-Accounted ok cs t u cs' acc h =
      let sel = select_read (watched lsd cs) in
      let ready = e.addrs t sel in
      let t1 = int sel (e.int t sel) ∷ t in
      let (cs1, v, p, q) = >>=-eq-done (take_connection e fuel junk lsd ready cs) _ t1 h in
      Balanced-Accounted cs1 cs' v u
        (serve_clients-Balanced e fuel junk ready cs1 v u cs' (ok.1 t (watched lsd cs)) q)
        (take_connection-Accounted ok.0 ready cs t1 v cs1
          (
            acc.0,
            omega (arith, acc.1),
            elim acc.2 [
              | inl all ↦ inl (omega (arith, all))
              | inr many ↦ inr (omega (arith, many))
            ],
          )
          p)

  server_loop-Accounted :
      ZeroIsInput
      → (rounds : ℕ) (cs : List ℤ) (t u : Trace) (cs' : List ℤ) → Accounted cs t
      → server_loop e fuel junk rounds lsd cs t ≡ done (some cs') u
      → Accounted cs' u
  unfolding server_loop
  server_loop-Accounted ok zero cs t u cs' acc h =
      let (a, b) = same_done e h in let same : cs ≡ cs' = cc in rw (← same, ← b) acc
  server_loop-Accounted ok (suc rounds) cs t u cs' acc h =
      let (got, v, p, q) = >>=-eq-done (server_pass e fuel junk lsd cs) _ t h in
      go (λ w ds. server_loop-Accounted ok rounds ds w u cs') got v p q
    where
      go :
          ((w : Trace) (ds : List ℤ)
            → Accounted ds w
            → server_loop e fuel junk rounds lsd ds w ≡ done (some cs') u
            → Accounted cs' u)
          → (got : Option (List ℤ)) (v : Trace) → server_pass e fuel junk lsd cs t ≡ done got v
          → (elim got as (λ _. M (Option (List ℤ))) [
            | none ↦ ret none
            | some ds ↦ server_loop e fuel junk rounds lsd ds
          ])
              v
            ≡ done (some cs') u
          → Accounted cs' u
      go ih none v p q = absurd cc
      go ih (some ds) v p q = ih v ds (server_pass-Accounted ok cs t v ds acc p) q

no_clients-Accounted : Accounted no_clients []
unfolding Accounted
no_clients-Accounted = (refl, omega arith, inl refl)

-- After any number of rounds from a start without clients, on a socket `lsd` whose connections and
-- ready descriptors are never 0, `clients` has its ten places. The taken ones and the connections
-- that were closed are no more than the connections that were accepted, and equally many unless
-- more than ten were accepted: until then, no connection is lost.
pub server_loop_accounts :
    (e : Env) (fuel : ℕ) (junk lsd : ℤ) (rounds : ℕ) (u : Trace) (cs : List ℤ)
    → ((t : Trace) → is_free (e.int t (accept lsd)) ≡ false)
    → ((t : Trace) (fds : List ℤ) → fd_is_set (pos 0) (e.addrs t (select_read fds)) ≡ false)
    → server_loop e fuel junk rounds lsd no_clients [] ≡ done (some cs) u
    → (length cs ≡ max_clients)
      × (closes u + occupied cs ≤ accepts u)
      × ((closes u + occupied cs ≡ accepts u) ⊎ (max_clients < accepts u))
unfolding Accounted
server_loop_accounts e fuel junk lsd rounds u cs some_fd some_ready h =
    server_loop-Accounted e fuel junk lsd (some_fd, some_ready) rounds no_clients [] u cs
      no_clients-Accounted h
