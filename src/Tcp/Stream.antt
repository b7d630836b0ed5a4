-- ===== src/Tcp/Stream.antt =====
-- Stream.cpp: a connected socket. The name of its peer, which no program reads back, is left out.
use network_infiniband_works.Base.{ℕ, zero, suc, ℤ, pos, negsuc, List, [], ◌∷◌, Bool, true, false}
use network_infiniband_works.Platform.{
  int, Env, M, done, ◌>>=◌, ret, ask_int, tell, read, write, close, select_timed,
}

pub record TcpStream : Type 0 where
  pub m_sd : ℤ
  pub stream_id : ℕ

-- What `receive` returns, with what stands in the buffer then.
pub record Got : Type 0 where
  pub count : ℤ
  pub buffer : List ℕ

abbrev pub connection_timed_out : ℤ
connection_timed_out = negsuc 1

abbrev pub is_pos : ℤ → Bool
is_pos (pos (suc n)) = true
is_pos _ = false

module _ (e : Env) where
  -- `read (m_sd, buffer, len)`
  abbrev pub read_some : ℤ → ℕ → M Got
  read_some fd len t =
      done (record { count = e.int t (read fd len); buffer = e.bytes t (read fd len) })
        (int (read fd len) (e.int t (read fd len)) ∷ t)

  unfoldable pub stream_send : TcpStream → List ℕ → M ℤ
  stream_send s buffer = ask_int e (write s.m_sd buffer)

  unfoldable pub wait_for_read_event : TcpStream → (timeout : ℕ) → M Bool
  wait_for_read_event s timeout = do
    result ← ask_int e (select_timed (s.m_sd ∷ []) timeout)
    ret (is_pos result)

  -- A negative timeout is one of 0.
  unfoldable pub stream_receive : TcpStream → (len timeout : ℕ) → M Got
  unfolding wait_for_read_event
  stream_receive s len timeout = elim timeout [
    | zero ↦ read_some s.m_sd len
    | suc n ↦ do
      ready ← wait_for_read_event s (suc n)
      elim ready [
        | true ↦ read_some s.m_sd len
        | false ↦ ret (record { count = connection_timed_out; buffer = [] })
      ]
  ]

  -- The destructor.
  unfoldable pub stream_delete : TcpStream → M (Unit {0})
  stream_delete s = tell e (close s.m_sd)
