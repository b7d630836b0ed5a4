-- ===== src/Tcp/Client/Replies.antt =====
-- When the loop that reads a reply ends.
use network_infiniband_works.Base.{
  ℕ, zero, suc, ◌+◌, ◌<◌, ◌≤◌, ◌≡◌, refl, arith, pos, [], ◌∷◌, none, some, true, ltb, Bool-cases,
  inl, inr, ℤ-cases, take,
}
use network_infiniband_works.Platform.{Event, Trace, int, Env, done, read, write}
use network_infiniband_works.Tcp.Stream.{TcpStream, is_pos, stream_send, stream_receive}
use network_infiniband_works.Tcp.Client.{wrap_int, add_int, reply_loop, exchange_msg}
use network_infiniband_works.Tcp.Message.{Message}

-- The number of bytes that a run has read.
abbrev pub read_count : Event → ℕ
read_count (int (read fd len) (pos n)) = n
read_count _ = 0

abbrev pub total_read : Trace → ℕ
total_read [] = 0
total_read (ev ∷ t) = read_count ev + total_read t

-- A number of 31 bits stays as it is.
wrap_small : (n : ℕ) → n < 2147483648 → wrap_int (pos n) ≡ pos n
wrap_small n h = ground arith

module _ (e : Env) (s : TcpStream) (len : ℕ) where
  -- Each read delivers at least a byte, and no more than it has asked for.
  pub record Delivers : Type 0 where
    pub alive : (v : Trace) → is_pos (e.int v (read s.m_sd len)) ≡ true
    pub asked : (v : Trace) (k : ℕ) → e.int v (read s.m_sd len) ≡ pos k → k ≤ len

-- The loop ends where each read delivers, and counts all bytes.
reply_loop_returns :
    (e : Env) (s : TcpStream) (len size fuel n : ℕ) (t : Trace)
    → Delivers e s len
    → size + len < 2147483648
    → size < fuel + n
    → 0 < fuel
    → (m : ℕ) × (u : Trace) × (reply_loop e fuel s len size (pos n) t ≡ done (some (pos m)) u)
      × (size ≤ m)
      × (m + total_read t ≡ n + total_read u)
unfolding reply_loop stream_receive
reply_loop_returns e s len size zero n t reads few enough some_fuel = absurd (omega arith)
reply_loop_returns e s len size (suc fuel) n t reads few enough some_fuel =
    let c = read s.m_sd len in
    elim (Bool-cases (ltb n size)) [
      | inr over ↦ (n, t, rw (over, reply_loop) refl, ground (arith, over), refl)
      | inl missing ↦ elim (ℤ-cases (e.int t c)) [
        | inl none_read ↦ absurd (ground (arith, none_read, reads.alive t))
        | inr other ↦ elim other [
          | inr (k, bad) ↦ absurd (ground (arith, bad, reads.alive t))
          | inl (k, some_read) ↦
              let asked = reads.asked t (suc k) some_read in
              let below_size : n < size = ground (arith, missing) in
              let (m, u, p, q, r) =
                reply_loop_returns e s len size fuel (n + suc k) (int c (pos (suc k)) ∷ t) reads few
                  (omega (arith, enough)) (ground (arith, missing)) in
              (
                m,
                u,
                rw (missing, reply_loop)
                    (rw some_read (rw (wrap_small (n + suc k) (omega (arith, asked))) p)),
                q,
                omega (arith, r),
              )
        ]
      ]
    ]

-- Where each read from the server delivers at least a byte and no more than it was asked for, and a
-- message with a whole read behind it is below 2 ^ 31 bytes: the client is done with the message for
-- any fuel above its size, having read at least that many bytes, and it has counted all bytes that it
-- has read.
pub exchange_msg_returns :
    (e : Env) (s : TcpStream) (len fuel : ℕ) (m : Message) (t : Trace)
    → Delivers e s len
    → m.size + len < 2147483648
    → m.size < fuel
    → (n : ℕ) × (u : Trace) × (exchange_msg e fuel s len m t ≡ done (some (pos n)) u)
      × (m.size ≤ n)
      × (n + total_read t ≡ total_read u)
unfolding exchange_msg stream_send stream_receive
exchange_msg_returns e s len fuel m t reads few enough =
    let w = write s.m_sd (take m.size m.bytes) in
    let t1 = int w (e.int t w) ∷ t in
    let c = read s.m_sd len in
    elim (ℤ-cases (e.int t1 c)) [
      | inl none_read ↦ absurd (ground (arith, none_read, reads.alive t1))
      | inr other ↦ elim other [
        | inr (k, bad) ↦ absurd (ground (arith, bad, reads.alive t1))
        | inl (k, some_read) ↦
            let asked = reads.asked t1 (suc k) some_read in
            let first : add_int (pos 0) (pos (suc k)) ≡ pos (suc k) = ground (arith, asked) in
            let (n, u, p, q, r) =
              reply_loop_returns e s len m.size fuel (suc k) (int c (pos (suc k)) ∷ t1) reads few
                (omega (arith, enough)) (omega (arith, enough)) in
            (n, u, rw some_read (rw first p), q, omega (arith, r))
      ]
    ]

reply_loop_hangs :
    (e : Env) (s : TcpStream) (len size fuel : ℕ) (t : Trace)
    → ((v : Trace) → e.int v (read s.m_sd len) ≡ pos 0)
    → 0 < size
    → (u : Trace) × (reply_loop e fuel s len size (pos 0) t ≡ done none u)
unfolding reply_loop stream_receive
reply_loop_hangs e s len size zero t closed some_bytes = (t, refl)
reply_loop_hangs e s len size (suc fuel) t closed some_bytes =
    let c = read s.m_sd len in
    let missing : ltb 0 size ≡ true = ground arith in
    let (u, p) = reply_loop_hangs e s len size fuel (int c (pos 0) ∷ t) closed some_bytes in
    (u, rw (missing, closed t, reply_loop) p)

-- Where the server has closed the connection, so that a read delivers nothing, the client is never
-- done with a message of at least one byte: it runs out of any fuel.
pub exchange_msg_hangs :
    (e : Env) (s : TcpStream) (len fuel : ℕ) (m : Message) (t : Trace)
    → ((v : Trace) → e.int v (read s.m_sd len) ≡ pos 0)
    → 0 < m.size
    → (u : Trace) × (exchange_msg e fuel s len m t ≡ done none u)
unfolding exchange_msg stream_send stream_receive
exchange_msg_hangs e s len fuel m t closed some_bytes =
    let w = write s.m_sd (take m.size m.bytes) in
    let t1 = int w (e.int t w) ∷ t in
    let c = read s.m_sd len in
    let (u, p) = reply_loop_hangs e s len m.size fuel (int c (pos 0) ∷ t1) closed some_bytes in
    (u, rw (closed t1) p)
