-- ===== src/Tcp/Rounds/Held.antt =====
-- Which connections the parts of a round of MultiStreamTcpClient.cpp open and close.
use network_infiniband_works.Base.{
  pos, ℕ, zero, suc, ◌+◌, ◌%◌, ◌^◌, ◌≡◌, refl, arith, ℤ, List, [], ◌∷◌, Option, none, some, is_neg,
  is_zero, Bool-cases, inl, inr, take,
}
use network_infiniband_works.Platform.{
  int, told, Env, M, ◌>>=◌, ret, ask_int, tell, resolve, freeaddrinfo, inet_pton, check,
  >>=-eq-done, socket_inet, connect_inet, close, read, write, gettimeofday,
}
use network_infiniband_works.MultiThread.Launch.{max_msg_size}
use network_infiniband_works.Tcp.Stream.{
  TcpStream, Got, read_some, stream_send, stream_receive, stream_delete,
}
use network_infiniband_works.Tcp.Connector.{
  stream_of, resolve_host, server_address, connector_connect,
}
use network_infiniband_works.Tcp.Message.{Message}
use network_infiniband_works.Tcp.Client.{
  add_int, below, reply_loop, exchange_msg, exchange_msgs, on_stream, stream_clients, close_streams,
}
use network_infiniband_works.Tcp.Rounds.{clock}
use network_infiniband_works.Tcp.Rounds.Moves.{
  Moves, Still, of_fd, Moves-ret, Moves-bind, Moves-after, Moves-if, Still-ask_int, Still-ask_ptr,
  Moves-socket, Moves-close,
}

abbrev pub of_stream : Option TcpStream → ℤ → ℕ
of_stream none fd = 0
of_stream (some s) fd = of_fd s.m_sd fd

abbrev pub of_streams : List (Option TcpStream) → ℤ → ℕ
of_streams [] fd = 0
of_streams (s ∷ ss) fd = of_stream s fd + of_streams ss fd

module _ (fd : ℤ) (e : Env) where
  Still-resolve_host : (host : ℕ) → Still fd (resolve_host e host)
  unfolding resolve_host
  Still-resolve_host host n = record {
    runs = λ t u b h. elim (Bool-cases (is_zero (e.int t (resolve host)))) [
      | inl found ↦
          let h' = rw (found, resolve_host) at h in
          let over : told freeaddrinfo ∷ (int (resolve host) (e.int t (resolve host)) ∷ t) ≡ u =
            cc in
          (n, refl, rw (← over) (omega arith))
      | inr failed ↦
          let h' = rw (failed, resolve_host) at h in
          let over : int (resolve host) (e.int t (resolve host)) ∷ t ≡ u = cc in
          (n, refl, rw (← over) (omega arith))
    ];
  }

  Still-server_address : (server : ℕ) → Still fd (server_address e server)
  unfolding server_address
  Still-server_address server n =
      Moves-after fd (resolve_host e server) _ n (Still-resolve_host server) λ a.
        Moves-if fd (is_zero a.0) _ _ n (λ found. Moves-ret fd a.1 n refl)
          (λ failed. Still-ask_ptr fd e (inet_pton server) n)

  connector_connect-Moves :
      (server port n : ℕ)
      → Moves fd (connector_connect e server port) n (λ s k. k ≡ of_stream s fd + n)
  unfolding connector_connect
  connector_connect-Moves server port n =
      Moves-after fd (server_address e server) _ n (Still-server_address server) λ ip.
        Moves-bind fd (ask_int e socket_inet) _ n (Moves-socket fd e n) λ sd k held.
          Moves-if fd (is_neg sd) _ _ k (λ none_made. Moves-ret fd none k (rw none_made at held))
            (λ made.
              Moves-after fd (ask_int e (connect_inet sd ip (port % 2 ^ 16))) _ k
                (Still-ask_int fd e (connect_inet sd ip (port % 2 ^ 16)) (λ r. refl))
                (λ r.
                  Moves-if fd (is_zero r) _ _ k
                    (λ connected. Moves-ret fd (some (stream_of sd)) k (rw made at held))
                    (λ refused.
                      Moves-bind fd (tell e (close sd)) _ k
                        (Moves-close fd e sd n k (rw made at held))
                        (λ a j same. Moves-ret fd none j (omega (arith, same))))))

  Still-read_some : (sd : ℤ) (len : ℕ) → Still fd (read_some e sd len)
  Still-read_some sd len n = record {
    runs = λ t u b h.
        let over : int (read sd len) (e.int t (read sd len)) ∷ t ≡ u = cc in
        (n, refl, rw (← over) (omega arith));
  }

  Still-reply_loop :
      (fuel : ℕ) (s : TcpStream) (len size : ℕ) (so_far : ℤ)
      → Still fd (reply_loop e fuel s len size so_far)
  unfolding reply_loop stream_receive
  Still-reply_loop zero s len size so_far n = Moves-ret fd none n refl
  Still-reply_loop (suc fuel) s len size so_far n =
      let next : (a : Got) → Still fd (reply_loop e fuel s len size (add_int so_far a.count)) =
        λ a. Still-reply_loop fuel s len size (add_int so_far a.count) in
      Moves-if fd (below so_far size) _ _ n
        (λ more.
          Moves-after fd (read_some e s.m_sd len) _ n (Still-read_some s.m_sd len) (λ a. next a n))
        (λ over. Moves-ret fd (some so_far) n refl)

  Still-exchange_msg :
      (fuel : ℕ) (s : TcpStream) (len : ℕ) (m : Message) → Still fd (exchange_msg e fuel s len m)
  unfolding exchange_msg stream_send stream_receive
  Still-exchange_msg fuel s len m n =
      Moves-after fd (stream_send e s (take m.size m.bytes)) _ n
        (Still-ask_int fd e (write s.m_sd (take m.size m.bytes)) (λ r. refl))
        λ w.
          Moves-after fd (read_some e s.m_sd len) _ n (Still-read_some s.m_sd len)
            λ got. Still-reply_loop fuel s len m.size (add_int (pos 0) got.count) n

  Still-exchange_msgs :
      (fuel : ℕ) (s : TcpStream) (len : ℕ) (m : Message) (num : ℕ)
      → Still fd (exchange_msgs e fuel s len m num)
  unfolding exchange_msgs
  Still-exchange_msgs fuel s len m zero n = Moves-ret fd (some tt) n refl
  Still-exchange_msgs fuel s len m (suc num) n =
      Moves-after fd (exchange_msg e fuel s len m) _ n (Still-exchange_msg fuel s len m)
        (next (Still-exchange_msgs fuel s len m num n))
    where
      next :
          Moves fd (exchange_msgs e fuel s len m num) n (λ a k. k ≡ n)
          → (got : Option ℤ)
          → Moves fd
              (elim got as (λ _. M (Option (Unit {0}))) [
                | none ↦ ret none
                | some r ↦ exchange_msgs e fuel s len m num
              ])
              n
              (λ a k. k ≡ n)
      next ih none = Moves-ret fd none n refl
      next ih (some r) = ih

  Still-on_stream :
      (fuel : ℕ) (s : Option TcpStream) (len : ℕ) (m : Message) (num : ℕ)
      → Still fd (on_stream e fuel s len m num)
  Still-on_stream fuel none len m num n = Moves-ret fd (some tt) n refl
  Still-on_stream fuel (some s) len m num n = Still-exchange_msgs fuel s len m num n

  -- What is held with the result of the loop over the sockets.
  abbrev pub Holding : ℕ → Option (List (Option TcpStream)) → ℕ → Type 0
  Holding n none k = Unit
  Holding n (some ss) k = k ≡ of_streams ss fd + n

  pub stream_clients-Moves :
      (fuel server port num : ℕ) (ms : List Message) (n : ℕ)
      → Moves fd (stream_clients e fuel server port num ms) n (Holding n)
  unfolding stream_clients
  stream_clients-Moves fuel server port num [] n = Moves-ret fd (some []) n (omega arith)
  stream_clients-Moves fuel server port num (m ∷ ms) n =
      Moves-bind fd (connector_connect e server port) _ n (connector_connect-Moves server port n)
        λ s k held.
          Moves-after fd (on_stream e fuel s max_msg_size m num) _ k
            (Still-on_stream fuel s max_msg_size m num)
            (next s k held (stream_clients-Moves fuel server port num ms k))
    where
      with_first :
          (s : Option TcpStream) (k : ℕ)
          → k ≡ of_stream s fd + n
          → (rest : Option (List (Option TcpStream))) (j : ℕ) → Holding k rest j
          → Holding n (elim rest [ none ↦ none | some ss ↦ some (s ∷ ss) ]) j
      with_first s k held none j q = tt
      with_first s k held (some ss) j q = omega (arith, held, q)

      next :
          (s : Option TcpStream) (k : ℕ)
          → k ≡ of_stream s fd + n
          → Moves fd (stream_clients e fuel server port num ms) k (Holding k)
          → (ran : Option (Unit {0}))
          → Moves fd
              (elim ran as (λ _. M (Option (List (Option TcpStream)))) [
                | none ↦ ret none
                | some u ↦ stream_clients e fuel server port num ms >>= λ rest.
                    ret (elim rest [ none ↦ none | some ss ↦ some (s ∷ ss) ])
              ])
              k
              (Holding n)
      next s k held ih none = Moves-ret fd none k tt
      next s k held ih (some u) =
          Moves-bind fd (stream_clients e fuel server port num ms) _ k ih
            λ rest j q. Moves-ret fd _ j (with_first s k held rest j q)

  pub close_streams-Moves :
      (ss : List (Option TcpStream)) (n k : ℕ)
      → k ≡ of_streams ss fd + n
      → Moves fd (close_streams e ss) k (λ a j. j ≡ n)
  unfolding close_streams stream_delete
  close_streams-Moves [] n k held = Moves-ret fd tt k (omega (arith, held))
  close_streams-Moves (none ∷ ss) n k held = close_streams-Moves ss n k (omega (arith, held))
  close_streams-Moves (some s ∷ ss) n k held =
      Moves-bind fd (stream_delete e s) _ k
        (Moves-close fd e s.m_sd (of_streams ss fd + n) k (omega (arith, held)))
        (λ a j same. close_streams-Moves ss n j same)

  pub Still-clock : Still fd (clock e)
  Still-clock n = record {
    runs = λ t u b h.
        let (a, s, p, q) =
          >>=-eq-done (check e gettimeofday) (λ _. ret (e.time t gettimeofday)) t h in
        let same : s ≡ u = cc in
        elim (Bool-cases (is_zero (e.int t gettimeofday))) [
          | inl good ↦
              let p' = rw (good, check) at p in
              let over : int gettimeofday (e.int t gettimeofday) ∷ t ≡ s = cc in
              (n, refl, rw (← same, ← over) (omega arith))
          | inr bad ↦ let p' = rw (bad, check) at p in absurd cc
        ];
  }
