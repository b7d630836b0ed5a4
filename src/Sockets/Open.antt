-- ===== src/Sockets/Open.antt =====
-- Which sockets the connection functions leave open.
use network_infiniband_works.Base.{
  ℕ, zero, suc, ◌*◌, ◌<◌, ℤ, pos, negsuc, List, [], ◌∷◌, Bool, true, false, leb, is_neg, is_zero,
  ◌==◌, ◌≡◌, inl, inr, refl, arith, if◌then◌else◌, Bool-cases, ◌∙◌,
}
use network_infiniband_works.Platform.{
  Event, int, told, Trace, Env, M, Outcome, done, fail, asprintf, getaddrinfo, freeaddrinfo, socket,
  setsockopt, bind, listen, connect, close, sleep,
}
use network_infiniband_works.Sockets.Retry.{pow2}
use network_infiniband_works.Sockets.{
  minus_one, retry_timeout, bind_first, listen_on, create_server_connection, connect_first, retry,
  create_client_connection,
}

abbrev pub same_fd : ℤ → ℤ → Bool
same_fd (pos a) (pos b) = a == b
same_fd (negsuc a) (negsuc b) = a == b
same_fd _ _ = false

-- The descriptors that `socket` returned and `close` has not closed, the last one first. A close
-- takes out the last such descriptor of that number.
abbrev pub without : ℤ → List ℤ → List ℤ
without fd [] = []
without fd (x ∷ xs) = if same_fd x fd then xs else x ∷ without fd xs

abbrev pub fd_after : Event → List ℤ → List ℤ
fd_after (int (socket a) fd) fds = if is_neg fd then fds else fd ∷ fds
fd_after (told (close fd)) fds = without fd fds
fd_after _ fds = fds

abbrev pub open_fds : Trace → List ℤ
open_fds [] = []
open_fds (ev ∷ t) = fd_after ev (open_fds t)

-- What a function that returns a descriptor leaves open: that descriptor and what was open before,
-- or, where it returns a negative number, what was open before.
abbrev pub Leaves : List ℤ → Outcome ℤ → Type 0
Leaves before (done fd t) = open_fds t ≡ (if is_neg fd then before else fd ∷ before)
Leaves before (fail t) = ⊥

without_top : (fd : ℤ) (fds : List ℤ) → without fd (fd ∷ fds) ≡ fds
without_top (pos n) fds = ground arith
without_top (negsuc n) fds = ground arith

-- The run that goes on with a descriptor leaves what its continuation leaves.
Leaves-bind :
    (before : List ℤ) (o : Outcome ℤ) (f : ℤ → M ℤ)
    → Leaves before o
    → ((fd : ℤ) (u : Trace) → Leaves before (done fd u) → Leaves before (f fd u))
    → Leaves before (elim o [ done fd u ↦ f fd u | fail u ↦ fail u ])
Leaves-bind before (done fd u) f h next = next fd u h
Leaves-bind before (fail u) f h next = absurd h

module _ (e : Env) where
  connect_first-Leaves :
      (addrs : List ℕ) (sockfd : ℤ) (t : Trace) (before : List ℤ)
      → is_neg sockfd ≡ true
      → open_fds t ≡ before
      → Leaves before (connect_first e addrs sockfd t)
  unfolding connect_first
  connect_first-Leaves [] sockfd t before neg h = rw neg h
  connect_first-Leaves (a ∷ rest) sockfd t before neg h = elim (Bool-cases (is_neg fd)) [
    | inl none_made ↦
        rw (none_made, connect_first)
          (connect_first-Leaves rest fd t1 before none_made (rw none_made h))
    | inr made ↦ elim (Bool-cases (is_zero r)) [
      | inl connected ↦ rw (made, connected, connect_first) (rw h refl)
      | inr not_connected ↦
          rw (made, not_connected, connect_first)
            (connect_first-Leaves rest minus_one (told (close fd) ∷ t2) before refl
              (rw made (without_top fd (open_fds t) ∙ h)))
    ]
  ]
    where
      fd : ℤ
      fd = e.int t (socket a)

      t1 : Trace
      t1 = int (socket a) fd ∷ t

      r : ℤ
      r = e.int t1 (connect fd a)

      t2 : Trace
      t2 = int (connect fd a) r ∷ t1

  retry-Leaves :
      (left numsec : ℕ) (addrs : List ℕ) (sockfd : ℤ) (t : Trace) (before : List ℤ)
      → is_neg sockfd ≡ true
      → open_fds t ≡ before
      → retry_timeout < numsec * pow2 left
      → Leaves before (retry e (suc left) numsec addrs sockfd t)
  unfolding retry
  retry-Leaves zero numsec addrs sockfd t before neg h far =
      let over : leb numsec retry_timeout ≡ false = ground arith in rw (over, retry) (rw neg h)
  retry-Leaves (suc left) numsec addrs sockfd t before neg h far =
      elim (Bool-cases (leb numsec retry_timeout)) [
        | inl again ↦
            rw (again, retry)
              (Leaves-bind before (connect_first e addrs sockfd t) _
                (connect_first-Leaves addrs sockfd t before neg h)
                (λ fd u k. elim (Bool-cases (is_neg fd)) [
                  | inl bad ↦ rw bad (
                      retry-Leaves left (numsec * 2) addrs fd (told (sleep numsec) ∷ u) before bad
                        (rw bad at k) (ground arith))
                  | inr good ↦ rw good k
                ]))
        | inr over ↦ rw (over, retry) (rw neg h)
      ]

  -- `createClientSocketConnection` leaves no socket open but the one that it returns, and none where
  -- it returns -1.
  pub create_client_connection-Leaves :
      (port node : ℕ) (t : Trace) → Leaves (open_fds t) (create_client_connection e port node t)
  unfolding create_client_connection
  create_client_connection-Leaves port node t = elim (Bool-cases (is_neg s)) [
    | inl no_service ↦ rw (no_service, create_client_connection) refl
    | inr service ↦ elim (Bool-cases (is_neg n)) [
      | inl no_address ↦ rw (service, no_address, create_client_connection) refl
      | inr found ↦
          rw (service, found, create_client_connection)
            (Leaves-bind (open_fds t) (retry e 8 1 addrs minus_one t2) _
              (retry-Leaves 7 1 addrs minus_one t2 (open_fds t) refl refl (omega arith))
              (λ fd u k. elim (Bool-cases (is_neg fd)) [
                | inl bad ↦ rw bad (rw bad at k)
                | inr good ↦ rw good k
              ]))
    ]
  ]
    where
      s : ℤ
      s = e.int t (asprintf port)

      t1 : Trace
      t1 = int (asprintf port) s ∷ t

      n : ℤ
      n = e.int t1 (getaddrinfo node port)

      t2 : Trace
      t2 = int (getaddrinfo node port) n ∷ t1

      addrs : List ℕ
      addrs = e.addrs t1 (getaddrinfo node port)

  bind_first-Leaves :
      (addrs : List ℕ) (sockfd : ℤ) (t : Trace) (before : List ℤ)
      → is_neg sockfd ≡ true
      → open_fds t ≡ before
      → Leaves before (bind_first e addrs sockfd t)
  unfolding bind_first
  bind_first-Leaves [] sockfd t before neg h = rw neg h
  bind_first-Leaves (a ∷ rest) sockfd t before neg h = elim (Bool-cases (is_neg fd)) [
    | inl none_made ↦
        rw (none_made, bind_first) (bind_first-Leaves rest fd t1 before none_made (rw none_made h))
    | inr made ↦ elim (Bool-cases (is_zero r)) [
      | inl bound ↦ rw (made, bound, bind_first) (rw h refl)
      | inr not_bound ↦
          rw (made, not_bound, bind_first)
            (bind_first-Leaves rest minus_one (told (close fd) ∷ t3) before refl
              (rw made (without_top fd (open_fds t) ∙ h)))
    ]
  ]
    where
      fd : ℤ
      fd = e.int t (socket a)

      t1 : Trace
      t1 = int (socket a) fd ∷ t

      t2 : Trace
      t2 = told (setsockopt fd) ∷ t1

      r : ℤ
      r = e.int t2 (bind fd a)

      t3 : Trace
      t3 = int (bind fd a) r ∷ t2

  -- Where `listen` refuses the socket, `createServerConnection` returns -1 and the socket stays
  -- open.
  listen_on_leak :
      (sockfd : ℤ) (t : Trace)
      → is_neg sockfd ≡ false
      → is_neg (e.int t (listen sockfd 10)) ≡ true
      → (u : Trace) × (listen_on e sockfd t ≡ done minus_one u) × (open_fds u ≡ open_fds t)
  unfolding listen_on
  listen_on_leak sockfd t some_socket refused = (
    int (listen sockfd 10) (e.int t (listen sockfd 10)) ∷ t,
    rw (some_socket, refused, listen_on) refl,
    refl,
  )

  -- `createServerConnection` leaves no socket open but the one that it returns, and none where it
  -- returns -1, as long as no `listen` fails.
  pub create_server_connection-Leaves :
      (port : ℕ) (t : Trace)
      → ((u : Trace) (fd : ℤ) → is_neg (e.int u (listen fd 10)) ≡ false)
      → Leaves (open_fds t) (create_server_connection e port t)
  unfolding create_server_connection
  create_server_connection-Leaves port t listens = elim (Bool-cases (is_neg s)) [
    | inl no_service ↦ rw (no_service, create_server_connection) refl
    | inr service ↦ elim (Bool-cases (is_neg n)) [
      | inl no_address ↦ rw (service, no_address, create_server_connection) refl
      | inr found ↦
          rw (service, found, create_server_connection)
            (Leaves-bind (open_fds t) (bind_first e addrs minus_one t2) _
              (bind_first-Leaves addrs minus_one t2 (open_fds t) refl refl)
              (λ fd u k. elim (Bool-cases (is_neg fd)) [
                | inl bad ↦ rw (bad, listen_on) (rw bad at k)
                | inr good ↦ rw (good, listens (told freeaddrinfo ∷ u) fd, listen_on) k
              ]))
    ]
  ]
    where
      s : ℤ
      s = e.int t (asprintf port)

      t1 : Trace
      t1 = int (asprintf port) s ∷ t

      n : ℤ
      n = e.int t1 (getaddrinfo 0 port)

      t2 : Trace
      t2 = int (getaddrinfo 0 port) n ∷ t1

      addrs : List ℕ
      addrs = e.addrs t1 (getaddrinfo 0 port)
