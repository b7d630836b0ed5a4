-- ===== src/Sockets/Retry.antt =====
-- The retries of `createClientSocketConnection`: eight rounds are all that they make, and how long
-- they sleep.
use network_infiniband_works.Base.{
  ℕ, zero, suc, ◌+◌, ◌*◌, ◌<◌, ◌≤◌, ℤ, List, [], ◌∷◌, true, false, leb, is_neg, is_zero, ◌≡◌, inl,
  inr, refl, arith, Bool-cases,
}
use network_infiniband_works.Platform.{
  Event, int, told, Trace, Env, done, socket, connect, close, sleep, asprintf, getaddrinfo,
  freeaddrinfo, bind_done,
}
use network_infiniband_works.Sockets.{
  minus_one, retry_timeout, connect_first, retry, create_client_connection,
}

abbrev pub pow2 : ℕ → ℕ
pow2 zero = 1
pow2 (suc n) = 2 * pow2 n

-- The seconds that a run has slept.
abbrev pub slept_in : Event → ℕ
slept_in (told (sleep s)) = s
slept_in _ = 0

abbrev pub slept : Trace → ℕ
slept [] = 0
slept (ev ∷ t) = slept_in ev + slept t

module _ (e : Env) where
  connect_first-slept :
      (addrs : List ℕ) (sockfd : ℤ) (t : Trace)
      → (fd : ℤ) × (u : Trace) × (connect_first e addrs sockfd t ≡ done fd u) × (slept u ≡ slept t)
  unfolding connect_first
  connect_first-slept [] sockfd t = (sockfd, t, refl, refl)
  connect_first-slept (a ∷ rest) sockfd t = elim (Bool-cases (is_neg fd)) [
    | inl none_made ↦
        let (x, u, p, q) = connect_first-slept rest fd t1 in
        (x, u, rw (none_made, connect_first) p, omega (arith, q))
    | inr made ↦ elim (Bool-cases (is_zero r)) [
      | inl connected ↦ (fd, t2, rw (made, connected, connect_first) refl, omega arith)
      | inr not_connected ↦
          let (x, u, p, q) = connect_first-slept rest minus_one (told (close fd) ∷ t2) in
          (x, u, rw (made, not_connected, connect_first) p, omega (arith, q))
    ]
  ]
    where
      fd : ℤ
      fd = e.int t (socket a)

      t1 : Trace
      t1 = int (socket a) fd ∷ t

      r : ℤ
      r = e.int t1 (connect fd a)

      t2 : Trace
      t2 = int (connect fd a) r ∷ t1

  -- With `numsec · 2 ^ left` beyond the limit, `left` rounds and one more are all that the loop makes.
  retry_fuel :
      (left m numsec : ℕ) (addrs : List ℕ) (sockfd : ℤ) (t : Trace)
      → retry_timeout < numsec * pow2 left
      → left ≤ m
      → retry e (suc m) numsec addrs sockfd t ≡ retry e (suc left) numsec addrs sockfd t
  unfolding retry
  retry_fuel zero m numsec addrs sockfd t far h = ground arith
  retry_fuel (suc left) zero numsec addrs sockfd t far h = absurd (omega arith)
  retry_fuel (suc left) (suc m) numsec addrs sockfd t far h =
      elim (Bool-cases (leb numsec retry_timeout)) [
        | inl again ↦
            let (fd, u, p, q) = connect_first-slept addrs sockfd t in
            ground
              (arith, again, p, retry_fuel left m (numsec * 2) addrs fd (told (sleep numsec) ∷ u))
        | inr over ↦ ground arith
      ]

  -- Any number of rounds from eight on gives the same.
  retry_eight :
      (m : ℕ) (addrs : List ℕ) (t : Trace)
      → 8 ≤ m
      → retry e m 1 addrs minus_one t ≡ retry e 8 1 addrs minus_one t
  retry_eight zero addrs t h = absurd (omega arith)
  retry_eight (suc m) addrs t h =
      retry_fuel 7 m 1 addrs minus_one t (omega arith) (omega (arith, h))

  -- The rounds from `numsec` on end, and sleep less than `128 - numsec` seconds and a bit.
  retry-slept :
      (left numsec : ℕ) (addrs : List ℕ) (sockfd : ℤ) (t : Trace)
      → numsec ≤ 128
      → retry_timeout < numsec * pow2 left
      → (fd : ℤ) × (u : Trace) × (retry e (suc left) numsec addrs sockfd t ≡ done fd u)
        × (slept u + numsec ≤ slept t + 128)
  unfolding retry
  retry-slept zero numsec addrs sockfd t h far = (sockfd, t, ground arith, omega arith)
  retry-slept (suc left) numsec addrs sockfd t h far =
      elim (Bool-cases (leb numsec retry_timeout)) [
        | inl again ↦
            let (fd, u, p, q) = connect_first-slept addrs sockfd t in
            elim (Bool-cases (is_neg fd)) [
              | inl bad ↦
                  let (x, v, p', q') =
                    retry-slept left (numsec * 2) addrs fd (told (sleep numsec) ∷ u) (ground arith)
                      (ground arith) in
                  (x, v, ground (arith, p, p'), omega (arith, q, q'))
              | inr good ↦ (fd, u, ground (arith, p), omega (arith, q))
            ]
        | inr over ↦ (sockfd, t, rw (over, retry) refl, omega arith)
      ]

  connection-slept :
      (port node : ℕ) (t : Trace)
      → (fd : ℤ) × (u : Trace) × (create_client_connection e port node t ≡ done fd u)
        × (slept u ≤ slept t + 127)
  unfolding create_client_connection
  connection-slept port node t = elim (Bool-cases (is_neg s)) [
    | inl no_service ↦ (minus_one, t1, rw (no_service, create_client_connection) refl, omega arith)
    | inr service ↦ elim (Bool-cases (is_neg n)) [
      | inl no_address ↦
          (minus_one, t2, rw (service, no_address, create_client_connection) refl, omega arith)
      | inr found ↦
          let (fd, u, p, q) = retry-slept 7 1 addrs minus_one t2 (omega arith) (omega arith) in
          (
            elim (is_neg fd) [ true ↦ minus_one | false ↦ fd ],
            told freeaddrinfo ∷ u,
            rw (service, found, create_client_connection)
                (bind_done (retry e 8 1 addrs minus_one) _ t2 p refl),
            omega (arith, q),
          )
    ]
  ]
    where
      s : ℤ
      s = e.int t (asprintf port)

      t1 : Trace
      t1 = int (asprintf port) s ∷ t

      n : ℤ
      n = e.int t1 (getaddrinfo node port)

      t2 : Trace
      t2 = int (getaddrinfo node port) n ∷ t1

      addrs : List ℕ
      addrs = e.addrs t1 (getaddrinfo node port)

  -- `createClientSocketConnection` always returns, and sleeps for at most 127 seconds in all. Its retry
  -- loop, which is run for eight rounds there, makes no more of them: for any number `m` of rounds
  -- from eight on, any addresses and any run before, it gives the same.
  pub create_client_connection-slept :
      (port node m : ℕ) (addrs : List ℕ) (t v : Trace)
      → 8 ≤ m
      → ((fd : ℤ) × (u : Trace) × (create_client_connection e port node t ≡ done fd u)
          × (slept u ≤ slept t + 127))
        × (retry e m 1 addrs minus_one v ≡ retry e 8 1 addrs minus_one v)
  create_client_connection-slept port node m addrs t v h =
      (connection-slept port node t, retry_eight m addrs v h)
