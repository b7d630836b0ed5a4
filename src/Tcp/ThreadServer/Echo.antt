-- ===== src/Tcp/ThreadServer/Echo.antt =====
-- A handler hands what it has read to `write`.
use network_infiniband_works.Base.{
  ℕ, zero, suc, ◌≤◌, ◌≡◌, inl, inr, refl, sym, ap, ◌∙◌, arith, pos, negsuc, List, [], ◌∷◌, ◌++◌,
  true, ltb, take, is_zero, Bool-cases, ℤ-cases, append_nil,
}
use network_infiniband_works.Platform.{
  Event, Trace, int, told, Env, done, bind_done, read, write, close, setaffinity, check,
}
use network_infiniband_works.Tcp.Stream.{TcpStream, stream_send, stream_receive, stream_delete}
use network_infiniband_works.Tcp.Client.{max_packet_size}
use network_infiniband_works.Tcp.ThreadServer.{
  Ended, closed, overrun, out_of_fuel, echo_loop, finish, connection_handler,
}

-- The bytes that a run has handed to `write`, in order, whatever it took of them.
abbrev pub handed_by : Event → List ℕ → List ℕ
handed_by (int (write fd buf) r) before = before ++ buf
handed_by _ before = before

abbrev pub handed : Trace → List ℕ
handed [] = []
handed (ev ∷ t) = handed_by ev (handed t)

module _ (e : Env) where
  -- The bytes that it has read, in order.
  abbrev pub read_by : Event → Trace → List ℕ → List ℕ
  read_by (int (read fd len) (pos n)) t before = before ++ take n (e.bytes t (read fd len))
  read_by _ t before = before

  abbrev pub bytes_read : Trace → List ℕ
  bytes_read [] = []
  bytes_read (ev ∷ t) = read_by ev t (bytes_read t)

  -- What a handler leaves: all that it has read it has handed to `write`; but where a read fills the
  -- whole buffer, the handler ends there.
  abbrev pub Echoed : TcpStream → Ended → Trace → Type 0
  Echoed s overrun u =
      (n : ℕ) × (v : Trace) × (max_packet_size ≤ n)
      × (u ≡ int (read s.m_sd max_packet_size) (pos n) ∷ v)
      × (handed v ≡ bytes_read v)
  Echoed s _ u = handed u ≡ bytes_read u

  module _ (s : TcpStream) where
    echo_loop-Echoed :
        (fuel : ℕ) (t : Trace)
        → handed t ≡ bytes_read t
        → (ended : Ended) × (u : Trace) × (echo_loop e fuel s t ≡ done ended u) × Echoed s ended u
    unfolding echo_loop stream_receive stream_send
    echo_loop-Echoed zero t h = (out_of_fuel, t, refl, h)
    echo_loop-Echoed (suc fuel) t h =
        let c = read s.m_sd max_packet_size in
        elim (ℤ-cases (e.int t c)) [
          | inl over ↦ (
            closed,
            int c (pos 0) ∷ t,
            rw (over, echo_loop) refl,
            h ∙ sym (append_nil (bytes_read t)),
          )
          | inr more ↦ elim more [
            | inr (n, bad) ↦ (closed, int c (negsuc n) ∷ t, rw (bad, echo_loop) refl, h)
            | inl (n, some_bytes) ↦ elim (Bool-cases (ltb (suc n) max_packet_size)) [
              | inr full ↦ (
                overrun,
                int c (pos (suc n)) ∷ t,
                rw (some_bytes, echo_loop) (rw full refl),
                (suc n, t, ground (arith, full), refl, h),
              )
              | inl fits ↦
                  let t1 = int c (pos (suc n)) ∷ t in
                  let w = write s.m_sd (take (suc n) (e.bytes t c)) in
                  let (ended, u, p, q) =
                    echo_loop-Echoed fuel (int w (e.int t1 w) ∷ t1)
                      (ap (λ l. l ++ take (suc n) (e.bytes t c)) h) in
                  (ended, u, rw (some_bytes, echo_loop) (rw fits p), q)
            ]
          ]
        ]

-- `ConnectionHandler`, once it is on its processor, always ends or goes on reading, for any fuel: with
-- all bytes that it has read handed to `write`, in order, if that was so before. What `write` takes of
-- them, the program does not look at. Only where one read fills the whole buffer does it end, behind
-- its end, with these bytes not handed on.
pub connection_handler-Echoed :
    (e : Env) (fuel : ℕ) (s : TcpStream) (t : Trace)
    → is_zero (e.int t (setaffinity s.stream_id)) ≡ true
    → handed t ≡ bytes_read e t
    → (ended : Ended) × (u : Trace) × (connection_handler e fuel s t ≡ done ended u)
      × Echoed e s ended u
unfolding connection_handler stream_delete
connection_handler-Echoed e fuel s t placed h =
    let a = int (setaffinity s.stream_id) (e.int t (setaffinity s.stream_id)) in
    let on_cpu : check e (setaffinity s.stream_id) t ≡ done tt (a ∷ t) = rw (placed, check) refl in
    let (ended, u, p, q) = echo_loop-Echoed e s fuel (a ∷ t) h in
    elim ended
        as (λ x.
          echo_loop e fuel s (a ∷ t) ≡ done x u
          → Echoed e s x u
          → (x' : Ended) × (v : Trace) × (connection_handler e fuel s t ≡ done x' v)
            × Echoed e s x' v) [
              | closed ↦ λ p' q'. (
                closed,
                told (close s.m_sd) ∷ u,
                bind_done (check e (setaffinity s.stream_id)) _ t on_cpu
                    (bind_done (echo_loop e fuel s) (finish e s) (a ∷ t) p' refl),
                q',
              )
              | overrun ↦ λ p' q'. (
                overrun,
                u,
                bind_done (check e (setaffinity s.stream_id)) _ t on_cpu
                    (bind_done (echo_loop e fuel s) (finish e s) (a ∷ t) p' refl),
                q',
              )
              | out_of_fuel ↦ λ p' q'. (
                out_of_fuel,
                u,
                bind_done (check e (setaffinity s.stream_id)) _ t on_cpu
                    (bind_done (echo_loop e fuel s) (finish e s) (a ∷ t) p' refl),
                q',
              )
            ]
      p q
