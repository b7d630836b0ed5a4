-- ===== src/MultiThread/Launch/Threads.antt =====
-- The threads that the two sides start in one round.
use network_infiniband_works.Base.{
  mul_pred, quotient_lem, ℕ, zero, suc, ◌-◌, ◌*◌, ◌/◌, ◌<◌, ◌≤◌, ◌≡◌, refl, sym, ap, ◌∙◌, arith, ℤ,
  List, [], ◌∷◌, Bool, true, false, is_neg, is_zero, leb, Bool-cases, inl, inr, replicate,
}
use network_infiniband_works.Platform.{
  Event, Trace, int, told, Call, Env, M, done, ◌>>◌, refuse_if, tell, >>=-eq-done, bind_done,
  thread_create, calloc, socket, connect, close, sleep, asprintf, getaddrinfo, freeaddrinfo,
}
use network_infiniband_works.Sockets.Retry.{pow2}
use network_infiniband_works.Sockets.{
  minus_one, retry_timeout, accept_client_connection, connect_first, retry,
  create_client_connection,
}
use network_infiniband_works.MultiThread.Launch.{server_threads, client_threads, size_per_peer}

-- The sizes of the threads that a run has started, the last one first.
abbrev pub started_by : Event → List ℕ → List ℕ
started_by (told (thread_create size fd)) sizes = size ∷ sizes
started_by _ sizes = sizes

abbrev pub started : Trace → List ℕ
started [] = []
started (ev ∷ t) = started_by ev (started t)

-- The sizes but for those of zero, in order, put on the given list.
abbrev pub with_sizes : List ℕ → List ℕ → List ℕ
with_sizes [] before = before
with_sizes (zero ∷ sizes) before = with_sizes sizes before
with_sizes (suc size ∷ sizes) before = with_sizes sizes (suc size ∷ before)

-- A size of zero has only such behind it.
abbrev ZerosLast : List ℕ → Type 0
ZerosLast [] = Unit
ZerosLast (x ∷ []) = Unit
ZerosLast (x ∷ y ∷ sizes) = (x ≡ 0 → y ≡ 0) × ZerosLast (y ∷ sizes)

tail-ZerosLast : (x : ℕ) (sizes : List ℕ) → ZerosLast (x ∷ sizes) → ZerosLast sizes
tail-ZerosLast x [] z = tt
tail-ZerosLast x (y ∷ sizes) z = z.1

replicate-ZerosLast : (n a : ℕ) → ZerosLast (replicate n a)
replicate-ZerosLast zero a = tt
replicate-ZerosLast (suc zero) a = tt
replicate-ZerosLast (suc (suc n)) a = (λ h. h, replicate-ZerosLast (suc n) a)

module _ (e : Env) where
  guarded :
      (b : Bool) (c : Call) (t : Trace) {x : Unit {0}} {u : Trace}
      → (refuse_if b >> tell e c) t ≡ done x u
      → u ≡ told c ∷ t
  guarded true c t h = cc
  guarded false c t h = cc

  same_trace {ℓ} : {A : Type ℓ} {a b : A} {u v : Trace} → done a u ≡ done b v → u ≡ v
  same_trace h = cc

  accepted-started :
      (sockfd : ℤ) (t : Trace) {fd : ℤ} {u : Trace}
      → accept_client_connection e sockfd t ≡ done fd u
      → started u ≡ started t
  unfolding accept_client_connection
  accepted-started sockfd t h = ap started (sym (same_trace h))

  connect_first-started :
      (addrs : List ℕ) (sockfd : ℤ) (t : Trace)
      → (fd : ℤ) × (u : Trace) × (connect_first e addrs sockfd t ≡ done fd u)
        × (started u ≡ started t)
  unfolding connect_first
  connect_first-started [] sockfd t = (sockfd, t, refl, refl)
  connect_first-started (a ∷ rest) sockfd t =
      let s = e.int t (socket a) in
      let t1 = int (socket a) s ∷ t in
      let r = e.int t1 (connect s a) in
      let t2 = int (connect s a) r ∷ t1 in
      elim (Bool-cases (is_neg s)) [
        | inl bad ↦
            let (fd, u, p, q) = connect_first-started rest s t1 in
            (fd, u, rw (bad, connect_first) p, q)
        | inr good ↦ elim (Bool-cases (is_zero r)) [
          | inl taken ↦ (s, t2, rw (good, taken, connect_first) refl, refl)
          | inr refused ↦
              let (fd, u, p, q) = connect_first-started rest minus_one (told (close s) ∷ t2) in
              (fd, u, rw (good, refused, connect_first) p, q)
        ]
      ]

  retry-started :
      (left numsec : ℕ) (addrs : List ℕ) (sockfd : ℤ) (t : Trace)
      → retry_timeout < numsec * pow2 left
      → (fd : ℤ) × (u : Trace) × (retry e (suc left) numsec addrs sockfd t ≡ done fd u)
        × (started u ≡ started t)
  unfolding retry
  retry-started zero numsec addrs sockfd t far = (sockfd, t, ground arith, refl)
  retry-started (suc left) numsec addrs sockfd t far =
      elim (Bool-cases (leb numsec retry_timeout)) [
        | inl again ↦
            let (fd, u, p, q) = connect_first-started addrs sockfd t in
            elim (Bool-cases (is_neg fd)) [
              | inl bad ↦
                  let (x, v, p', q') =
                    retry-started left (numsec * 2) addrs fd (told (sleep numsec) ∷ u)
                      (ground arith) in
                  (x, v, ground (arith, p, p'), q' ∙ q)
              | inr good ↦ (fd, u, ground (arith, p), q)
            ]
        | inr over ↦ (sockfd, t, rw (over, retry) refl, refl)
      ]

  client_connection-started :
      (port node : ℕ) (t : Trace)
      → (fd : ℤ) × (u : Trace) × (create_client_connection e port node t ≡ done fd u)
        × (started u ≡ started t)
  unfolding create_client_connection
  client_connection-started port node t =
      let s = e.int t (asprintf port) in
      let t1 = int (asprintf port) s ∷ t in
      let n = e.int t1 (getaddrinfo node port) in
      let t2 = int (getaddrinfo node port) n ∷ t1 in
      elim (Bool-cases (is_neg s)) [
        | inl no_service ↦ (minus_one, t1, rw (no_service, create_client_connection) refl, refl)
        | inr service ↦ elim (Bool-cases (is_neg n)) [
          | inl no_address ↦
              (minus_one, t2, rw (service, no_address, create_client_connection) refl, refl)
          | inr found ↦
              let addrs = e.addrs t1 (getaddrinfo node port) in
              let (fd, u, p, q) = retry-started 7 1 addrs minus_one t2 (omega arith) in
              (
                elim (is_neg fd) [ true ↦ minus_one | false ↦ fd ],
                told freeaddrinfo ∷ u,
                rw (service, found, create_client_connection)
                    (bind_done (retry e 8 1 addrs minus_one) _ t2 p refl),
                q,
              )
        ]
      ]

  -- What follows a connection of either side: the thread is started, and the others behind it.
  thread_started :
      (size : ℕ) (connfd : ℤ) (rest : M (Unit {0})) (sizes : List ℕ) (t u : Trace)
      → ((v : Trace) → rest v ≡ done tt u → started u ≡ with_sizes sizes (started v))
      → ((refuse_if (is_neg connfd) >> tell e (thread_create size connfd)) >> rest) t ≡ done tt u
      → started u ≡ with_sizes sizes (size ∷ started t)
  thread_started size connfd rest sizes t u ih h =
      let (_, v, p, h') =
        >>=-eq-done (refuse_if (is_neg connfd) >> tell e (thread_create size connfd)) _ t h in
      ih v h' ∙ ap (λ w. with_sizes sizes (started w)) (guarded _ _ t p)

  client_threads-started :
      (port servername : ℕ) (sizes : List ℕ) (t u : Trace)
      → ZerosLast sizes
      → client_threads e port servername sizes t ≡ done tt u
      → started u ≡ with_sizes sizes (started t)
  unfolding client_threads
  client_threads-started port servername [] t u z h = ap started (sym (same_trace h))
  client_threads-started port servername (zero ∷ []) t u z h = ap started (sym (same_trace h))
  client_threads-started port servername (zero ∷ zero ∷ sizes) t u z h =
      client_threads-started port servername sizes (told (calloc 0 24) ∷ t) u
        (tail-ZerosLast 0 sizes z.1) h
  client_threads-started port servername (zero ∷ suc y ∷ sizes) t u z h =
      absurd (omega (arith, z.0 refl))
  client_threads-started port servername (suc size ∷ sizes) t u z h =
      let (fd, v, p, h') =
        >>=-eq-done (create_client_connection e port servername) _ (told (calloc 0 24) ∷ t) h in
      let (fd', w, q, same) = client_connection-started port servername (told (calloc 0 24) ∷ t) in
      thread_started (suc size) fd (client_threads e port servername sizes) sizes v u
        (λ x k.
          client_threads-started port servername sizes x u (tail-ZerosLast (suc size) sizes z) k)
        h'
      ∙ ap (λ l. with_sizes sizes (suc size ∷ l)) (ap started (same_trace (sym p ∙ q)) ∙ same)

  server_threads-started :
      (sockfd : ℤ) (sizes : List ℕ) (t u : Trace)
      → server_threads e sockfd sizes t ≡ done tt u
      → started u ≡ with_sizes sizes (started t)
  unfolding server_threads
  server_threads-started sockfd [] t u h = ap started (sym (same_trace h))
  server_threads-started sockfd (zero ∷ sizes) t u h =
      server_threads-started sockfd sizes (told (calloc 0 24) ∷ t) u h
  server_threads-started sockfd (suc size ∷ sizes) t u h =
      let (fd, v, p, h') =
        >>=-eq-done (accept_client_connection e sockfd) _ (told (calloc 0 24) ∷ t) h in
      thread_started (suc size) fd (server_threads e sockfd sizes) sizes v u
        (λ x k. server_threads-started sockfd sizes x u k) h'
      ∙ ap (λ l. with_sizes sizes (suc size ∷ l))
          (accepted-started sockfd (told (calloc 0 24) ∷ t) p)

cons_replicate-ZerosLast : (k x a : ℕ) → (x ≡ 0 → a ≡ 0) → ZerosLast (x ∷ replicate k a)
cons_replicate-ZerosLast zero x a f = tt
cons_replicate-ZerosLast (suc k) x a f = (f, replicate-ZerosLast (suc k) a)

-- The first size is the largest.
size_per_peer-ZerosLast : (varsize n : ℕ) → 1 ≤ n → ZerosLast (size_per_peer varsize n)
unfolding size_per_peer
size_per_peer-ZerosLast varsize n h =
    let r = varsize / n in
    let whole = quotient_lem varsize n in
    let more = mul_pred r n h in
    cons_replicate-ZerosLast (n - 1) (varsize - r * (n - 1)) r (λ z. omega (arith, whole, more, z))

-- Where the server and the client of a round get through, each from a run that has not started a
-- thread, both have started threads of the same sizes in the same order: the sizes of the split, but
-- for those of zero. The client's skipping of the thread behind a size of zero leaves none out.
pub same_threads :
    (server client : Env) (sockfd : ℤ) (port servername varsize n : ℕ) (s t u v : Trace)
    → 1 ≤ n
    → started s ≡ []
    → started t ≡ []
    → server_threads server sockfd (size_per_peer varsize n) s ≡ done tt u
    → client_threads client port servername (size_per_peer varsize n) t ≡ done tt v
    → (started u ≡ with_sizes (size_per_peer varsize n) []) × (started v ≡ started u)
same_threads server client sockfd port servername varsize n s t u v h s_none t_none serves
      connects =
    let sizes = size_per_peer varsize n in
    let a = server_threads-started server sockfd sizes s u serves ∙ ap (with_sizes sizes) s_none in
    let b =
      client_threads-started client port servername sizes t v (size_per_peer-ZerosLast varsize n h)
        connects
      ∙ ap (with_sizes sizes) t_none in
    (a, b ∙ sym a)
