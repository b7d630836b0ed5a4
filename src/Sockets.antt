-- ===== src/Sockets.antt =====
-- multithreadIB.c: the TCP connections over which the addresses are exchanged
-- (`createServerConnection`, `acceptClientConnection`, `createClientSocketConnection`). These
-- functions return -1 where they fail.
pub mod Open
pub mod Retry
use network_infiniband_works.Base.{
  ℕ, zero, suc, ◌+◌, ◌*◌, ℤ, pos, negsuc, List, [], ◌∷◌, Bool, true, false, leb, is_neg, is_zero,
}
use network_infiniband_works.Platform.{
  Event, int, told, Trace, Env, M, done, fail, asprintf, getaddrinfo, freeaddrinfo, socket,
  setsockopt, bind, listen, accept, connect, close, sleep, free, ask_int, tell, ret, ◌>>=◌, ◌>>◌,
}

abbrev pub minus_one : ℤ
minus_one = negsuc 0

-- CLIENT_TO_SERVER_RETRY_TIMEOUT
abbrev pub retry_timeout : ℕ
retry_timeout = 64

module _ (e : Env) where
  -- `for (t = res; t; t = t->ai_next)` in `createServerConnection`: the first address at which a
  -- socket can be made and bound. `sockfd` is the variable of that name.
  unfoldable pub bind_first : List ℕ → ℤ → M ℤ
  bind_first [] sockfd t = done sockfd t
  bind_first (a ∷ rest) sockfd t =
      let fd = e.int t (socket a) in
      let t1 = int (socket a) fd ∷ t in
      elim (is_neg fd) [
        | true ↦ bind_first rest fd t1
        | false ↦
            let t2 = told (setsockopt fd) ∷ t1 in
            let r = e.int t2 (bind fd a) in
            let t3 = int (bind fd a) r ∷ t2 in
            elim (is_zero r) [
              | true ↦ done fd t3
              | false ↦ bind_first rest minus_one (told (close fd) ∷ t3)
            ]
      ]

  -- The last part of `createServerConnection`.
  unfoldable pub listen_on : ℤ → M ℤ
  listen_on sockfd t = elim (is_neg sockfd) [
    | true ↦ done minus_one t
    | false ↦
        let r = e.int t (listen sockfd 10) in
        let t1 = int (listen sockfd 10) r ∷ t in
        elim (is_neg r) [ true ↦ done minus_one t1 | false ↦ done sockfd t1 ]
  ]

  -- The service name and the list of addresses that `getaddrinfo` builds for `node` (0 is NULL).
  unfoldable pub create_server_connection : ℕ → M ℤ
  unfolding bind_first listen_on
  create_server_connection port t =
      let s = e.int t (asprintf port) in
      let t1 = int (asprintf port) s ∷ t in
      elim (is_neg s) [
        | true ↦ done minus_one t1
        | false ↦
            let n = e.int t1 (getaddrinfo 0 port) in
            let t2 = int (getaddrinfo 0 port) n ∷ t1 in
            elim (is_neg n) [
              | true ↦ done minus_one t2
              | false ↦
                  (do
                    fd ← bind_first (e.addrs t1 (getaddrinfo 0 port)) minus_one
                    tell e freeaddrinfo
                    listen_on fd)
                    t2
            ]
      ]

  unfoldable pub accept_client_connection : ℤ → M ℤ
  accept_client_connection sockfd = do
    connfd ← ask_int e (accept sockfd)
    ret (elim (is_neg connfd) [ true ↦ minus_one | false ↦ connfd ])

  -- The inner loop of `createClientSocketConnection`: the first address that takes a connection.
  unfoldable pub connect_first : List ℕ → ℤ → M ℤ
  connect_first [] sockfd t = done sockfd t
  connect_first (a ∷ rest) sockfd t =
      let fd = e.int t (socket a) in
      let t1 = int (socket a) fd ∷ t in
      elim (is_neg fd) [
        | true ↦ connect_first rest fd t1
        | false ↦
            let r = e.int t1 (connect fd a) in
            let t2 = int (connect fd a) r ∷ t1 in
            elim (is_zero r) [
              | true ↦ done fd t2
              | false ↦ connect_first rest minus_one (told (close fd) ∷ t2)
            ]
      ]

  -- `for (numsec = 1; numsec <= CLIENT_TO_SERVER_RETRY_TIMEOUT; numsec <<= 1)`, on fuel: a run
  -- that is out of rounds is a failed one. The test around the delay is the one of the loop, and
  -- always passes.
  unfoldable pub retry : (left numsec : ℕ) → List ℕ → ℤ → M ℤ
  retry zero numsec addrs sockfd t = fail t
  retry (suc left) numsec addrs sockfd t = elim (leb numsec retry_timeout) [
    | false ↦ done sockfd t
    | true ↦
        (connect_first addrs sockfd >>= λ fd u. elim (is_neg fd) [
          | false ↦ done fd u
          | true ↦ retry left (numsec * 2) addrs fd (told (sleep numsec) ∷ u)
        ])
          t
  ]

  -- Eight rounds: the last one only finds `numsec` beyond the limit.
  unfoldable pub create_client_connection : (port node : ℕ) → M ℤ
  unfolding retry connect_first
  create_client_connection port node t =
      let s = e.int t (asprintf port) in
      let t1 = int (asprintf port) s ∷ t in
      elim (is_neg s) [
        | true ↦ done minus_one t1
        | false ↦
            let n = e.int t1 (getaddrinfo node port) in
            let t2 = int (getaddrinfo node port) n ∷ t1 in
            elim (is_neg n) [
              | true ↦ done minus_one t2
              | false ↦
                  (do
                    fd ← retry 8 1 (e.addrs t1 (getaddrinfo node port)) minus_one
                    tell e freeaddrinfo
                    ret (elim (is_neg fd) [ true ↦ minus_one | false ↦ fd ]))
                    t2
            ]
      ]
