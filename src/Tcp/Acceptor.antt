-- ===== src/Tcp/Acceptor.antt =====
-- Acceptor.cpp: the listening socket of the two servers.
use network_infiniband_works.Base.{
  ℕ, ◌%◌, ◌^◌, ℤ, pos, List, [], ◌∷◌, Option, none, some, Bool, true, false, ◌==◌, if◌then◌else◌,
  is_neg,
}
use network_infiniband_works.Platform.{
  Env, M, ◌>>=◌, ◌>>◌, ret, ask_int, ask_ptr, tell, check, socket_inet, inet_pton, setsockopt,
  bind_inet, listen, accept, close,
}
use network_infiniband_works.Tcp.Stream.{TcpStream, is_pos}

-- An address of 0 is the empty string.
pub record Acceptor : Type 0 where
  pub m_lsd : ℤ
  pub m_port : ℕ
  pub m_address : ℕ
  pub m_listening : Bool
  pub max_sd : ℤ
  pub fds : List ℤ

-- The constructor; `max_sd` and `fds` are set before they are read.
abbrev pub new_acceptor : (port address : ℕ) → Acceptor
new_acceptor port address = record {
  m_lsd = pos 0;
  m_port = port;
  m_address = address;
  m_listening = false;
  max_sd = pos 0;
  fds = [];
}

abbrev pub reinit : Acceptor → Acceptor
reinit a = record a { fds = a.m_lsd ∷ [] }

module _ (e : Env) where
  -- A failed `bind` or `listen` ends the process, which is a failed run.
  unfoldable pub acceptor_start : Acceptor → M Acceptor
  acceptor_start a = if a.m_listening then ret a else (do
    lsd ← ask_int e socket_inet
    ip ← if a.m_address == 0 then ret 0 else ask_ptr e (inet_pton a.m_address)
    tell e (setsockopt lsd)
    check e (bind_inet lsd ip (a.m_port % 2 ^ 16))
    check e (listen lsd 10)
    ret (record a { m_lsd = lsd; m_listening = true }))

  unfoldable pub acceptor_accept : Acceptor → M (Option TcpStream)
  acceptor_accept a =
      if a.m_listening
      then (do
        sd ← ask_int e (accept a.m_lsd)
        ret (if is_neg sd then none else some (record { m_sd = sd; stream_id = 0 })))
      else ret none

  -- The destructor.
  unfoldable pub acceptor_delete : Acceptor → M (Unit {0})
  acceptor_delete a = if is_pos a.m_lsd then tell e (close a.m_lsd) else ret tt
