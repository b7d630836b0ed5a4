-- ===== src/Tcp/StreamServer.antt =====
-- NonBlockingTcpServer.cpp: an echo server of one thread, which waits for all its clients in one
-- `select`.
pub mod Send
pub mod Serve
pub mod Table
use network_infiniband_works.Base.{
  ℕ, zero, suc, ◌+◌, ◌-◌, ◌*◌, ℤ, pos, negsuc, List, [], ◌∷◌, ◌++◌, Option, none, some, Bool, true,
  false, ltb, ◌==◌, if◌then◌else◌, length, drop, take, is_neg, replicate,
}
use network_infiniband_works.Platform.{
  int, Env, M, done, fail, ◌>>=◌, ◌>>◌, ret, give_up, refuse_if, ask_int, tell, select_read, accept,
  send, close,
}
use network_infiniband_works.Wire.Hex.{until_nul}
use network_infiniband_works.Tcp.Stream.{is_pos, read_some}
use network_infiniband_works.Tcp.Connector.{is_minus_one}
use network_infiniband_works.Tcp.Acceptor.{Acceptor, reinit}
use network_infiniband_works.Tcp.Client.{max_packet_size}

-- `clients`, where 0 is a free place, for MAX_CLIENTS of them.
abbrev pub max_clients : ℕ
max_clients = 10

abbrev pub no_clients : List ℤ
no_clients = replicate max_clients (pos 0)

-- What `sendVerifier` has done when its loop is over: `total` and the last result of `send`.
pub record Sent : Type 0 where
  pub total : ℕ
  pub n : ℤ

module _ (e : Env) where
  -- `while (total < len)` on fuel; none has run out. `bytesleft` is `len - total`. The loop takes
  -- a result of `send` below -1, of which there is none, as -1.
  unfoldable pub send_loop : (fuel : ℕ) (s : ℤ) (buf : List ℕ) → Sent → M (Option Sent)
  send_loop zero s buf st = ret none
  send_loop (suc fuel) s buf st =
      let more = ask_int e (send s (drop st.total buf)) >>= λ n. elim n [
        | negsuc k ↦ ret (some (record { total = st.total; n = negsuc 0 }))
        | pos k ↦ send_loop fuel s buf (record { total = st.total + k; n = pos k })
      ] in
      if ltb st.total (length buf) then more else ret (some st)

  -- `sendVerifier`; `junk` is the local `n` before its first assignment, which the last line reads
  -- where `len` is 0.
  unfoldable pub send_verifier : (fuel : ℕ) (junk : ℤ) (s : ℤ) (buf : List ℕ) → M (Option ℤ)
  unfolding send_loop
  send_verifier fuel junk s buf = do
    st ← send_loop fuel s buf (record { total = 0; n = junk })
    elim st [ none ↦ ret none | some r ↦ ret (some (if is_minus_one r.n then negsuc 0 else pos 0)) ]

-- The descriptors that `select` waits for, and the largest.
abbrev pub watched : ℤ → List ℤ → List ℤ
watched lsd [] = lsd ∷ []
watched lsd (c ∷ cs) = if is_pos c then c ∷ watched lsd cs else watched lsd cs

-- `FD_ISSET`, of the list of ready descriptors.
abbrev pub fd_is_set : ℤ → List ℕ → Bool
fd_is_set (negsuc n) fds = false
fd_is_set (pos n) [] = false
fd_is_set (pos n) (x ∷ fds) = if n == x then true else fd_is_set (pos n) fds

abbrev pub is_free : ℤ → Bool
is_free (pos zero) = true
is_free _ = false

-- The first free place takes the connection; where there is none, it goes nowhere.
unfoldable pub place_client : ℤ → List ℤ → List ℤ
place_client fd [] = []
place_client fd (c ∷ cs) = if is_free c then fd ∷ cs else c ∷ place_client fd cs

module _ (e : Env) (fuel : ℕ) (junk : ℤ) where
  -- One client that is ready: what takes its place in `clients`. An error, or a store behind the
  -- end of `buffer`, is a failed run; the outer none is a loop that ran out of fuel. The buffer is
  -- cut at its first NUL, by `strlen`.
  unfoldable pub serve_client : ℤ → M (Option ℤ)
  unfolding send_verifier
  serve_client cur_sd = do
    got ← read_some e cur_sd max_packet_size
    elim got.count [
      | negsuc n ↦ give_up
      | pos zero ↦ tell e (close cur_sd) >> ret (some (pos 0))
      | pos (suc n) ↦
          if ltb (suc n) max_packet_size
          then (do
            sent ←
                send_verifier e fuel junk cur_sd (until_nul (take (suc n) got.buffer ++ (0 ∷ [])))
            elim sent [
              | none ↦ ret none
              | some r ↦ if is_neg r then give_up else ret (some cur_sd)
            ])
          else give_up
    ]

  -- The loop over `clients`, with the descriptors that are ready.
  unfoldable pub serve_clients : (ready : List ℕ) → List ℤ → M (Option (List ℤ))
  unfolding serve_client
  serve_clients ready [] = ret (some [])
  serve_clients ready (c ∷ cs) =
      (if fd_is_set c ready then serve_client c else ret (some c)) >>= λ c'. elim c' [
        | none ↦ ret none
        | some x ↦ serve_clients ready cs >>= λ rest.
            ret (elim rest [ none ↦ none | some xs ↦ some (x ∷ xs) ])
      ]

  -- The new connection of a round, where the listening socket is ready.
  unfoldable pub take_connection : (lsd : ℤ) (ready : List ℕ) → List ℤ → M (List ℤ)
  unfolding place_client
  take_connection lsd ready clients =
      if fd_is_set lsd ready
      then (do
        new_socket ← ask_int e (accept lsd)
        refuse_if (is_neg new_socket)
        ret (place_client new_socket clients))
      else ret clients

  -- One round of `while (1)`: the clients behind it. A failed `select` is only reported, and the
  -- set of descriptors is tested all the same.
  unfoldable pub server_pass : (lsd : ℤ) → List ℤ → M (Option (List ℤ))
  unfolding take_connection serve_clients
  server_pass lsd clients t =
      let ready = e.addrs t (select_read (watched lsd clients)) in
      (do
        ask_int e (select_read (watched lsd clients))
        clients' ← take_connection lsd ready clients
        serve_clients ready clients')
        t

  -- `while (1)`, for `rounds` rounds.
  unfoldable pub server_loop : (rounds : ℕ) (lsd : ℤ) → List ℤ → M (Option (List ℤ))
  unfolding server_pass
  server_loop zero lsd clients = ret (some clients)
  server_loop (suc rounds) lsd clients = server_pass lsd clients >>= λ got. elim got [
    | none ↦ ret none
    | some cs ↦ server_loop rounds lsd cs
  ]
