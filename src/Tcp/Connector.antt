-- ===== src/Tcp/Connector.antt =====
-- Connector.cpp: connections to a server, without and with a limit of time.
use network_infiniband_works.Base.{
  ℕ, zero, suc, ◌-◌, ◌%◌, ◌^◌, ℤ, pos, negsuc, [], ◌∷◌, Option, none, some, Bool, true, false, ◌==◌,
  ◌&&◌, if◌then◌else◌, is_neg, is_zero, bit_and, bit_or,
}
use network_infiniband_works.Platform.{
  int, Env, M, done, ◌>>=◌, ◌>>◌, ret, ask_int, ask_ptr, tell, resolve, freeaddrinfo, inet_pton,
  socket_inet, connect_inet, get_flags, set_flags, select_write, so_error, errno, close,
}
use network_infiniband_works.Tcp.Stream.{TcpStream, is_pos}

abbrev pub is_minus_one : ℤ → Bool
is_minus_one (negsuc zero) = true
is_minus_one _ = false

abbrev pub eintr : ℕ
eintr = 4

abbrev pub einprogress : ℕ
einprogress = 115

abbrev pub o_nonblock : ℕ
o_nonblock = 2048

abbrev pub stream_of : ℤ → TcpStream
stream_of sd = record { m_sd = sd; stream_id = 0 }

module _ (e : Env) where
  -- The result of `resolveHost` and the address that it stores where that is 0.
  unfoldable pub resolve_host : (host : ℕ) → M (ℤ × ℕ)
  resolve_host host t =
      let r = e.int t (resolve host) in
      let t1 = int (resolve host) r ∷ t in
      elim (is_zero r) [
        | true ↦ (tell e freeaddrinfo >> ret (r, e.ptr t (resolve host))) t1
        | false ↦ done (r, 0) t1
      ]

  -- The address of the server, with `inet_pton` where the resolution fails.
  unfoldable pub server_address : (server : ℕ) → M ℕ
  unfolding resolve_host
  server_address server = do
    (r, ip) ← resolve_host server
    if is_zero r then ret ip else ask_ptr e (inet_pton server)

  -- `connect (server, port)`; none is NULL.
  unfoldable pub connector_connect : (server port : ℕ) → M (Option TcpStream)
  unfolding server_address
  connector_connect server port = do
    ip ← server_address server
    sd ← ask_int e socket_inet
    if is_neg sd then ret none else (do
      r ← ask_int e (connect_inet sd ip (port % 2 ^ 16))
      if is_zero r then ret (some (stream_of sd)) else (tell e (close sd) >> ret none))

  -- `do … while (s == -1 && errno == EINTR)` on fuel; none has run out.
  pub select_connected : (fuel : ℕ) (sd : ℤ) (timeout : ℕ) → M (Option ℤ)
  select_connected zero sd timeout = ret none
  select_connected (suc fuel) sd timeout = ask_int e (select_write (sd ∷ []) timeout) >>= λ s t.
      elim (is_minus_one s && e.ptr t errno == eintr) [
        | true ↦ select_connected fuel sd timeout t
        | false ↦ done (some s) t
      ]

  -- The result of a connection that is in progress: 0 if it is established.
  unfoldable pub await_connected : (fuel : ℕ) (sd : ℤ) (timeout : ℕ) (result : ℤ) → M (Option ℤ)
  unfolding select_connected
  await_connected fuel sd timeout result = do
    got ← select_connected fuel sd timeout
    elim got [
      | none ↦ ret none
      | some s ↦
          if is_pos s
          then (do
            valopt ← ask_int e (so_error sd)
            ret (some (if is_zero valopt then pos 0 else result)))
          else ret (some result)
    ]

  -- `if ((result = ::connect(…)) < 0) …`
  unfoldable pub connect_limited : (fuel : ℕ) (sd : ℤ) (ip port timeout : ℕ) → M (Option ℤ)
  unfolding await_connected
  connect_limited fuel sd ip port timeout = ask_int e (connect_inet sd ip port) >>= λ result t.
      if is_neg result && e.ptr t errno == einprogress
      then await_connected fuel sd timeout result t
      else done (some result) t

  -- From the socket on. Where the connection fails, the socket is not closed.
  unfoldable pub connect_timed :
      (fuel : ℕ) (server port timeout : ℕ) → M (Option (Option TcpStream))
  unfolding connect_limited server_address
  connect_timed fuel server port timeout = do
    ip ← server_address server
    sd ← ask_int e socket_inet
    if is_neg sd then ret (some none) else (do
      arg ← ask_ptr e (get_flags sd)
      tell e (set_flags sd (bit_or arg o_nonblock))
      result ← connect_limited fuel sd ip (port % 2 ^ 16) timeout
      arg' ← ask_ptr e (get_flags sd)
      tell e (set_flags sd (bit_and arg' (2 ^ 64 - 1 - o_nonblock)))
      ret (elim result [
        | none ↦ none
        | some r ↦ some (if is_minus_one r then none else some (stream_of sd))
      ]))

  -- `connect (server, port, timeout)`; the outer none is a wait that ran out of fuel.
  unfoldable pub connector_connect_for :
      (fuel : ℕ) (server port timeout : ℕ) → M (Option (Option TcpStream))
  unfolding connect_timed connector_connect
  connector_connect_for fuel server port timeout =
      if timeout == 0
      then (connector_connect server port >>= λ s. ret (some s))
      else connect_timed fuel server port timeout
