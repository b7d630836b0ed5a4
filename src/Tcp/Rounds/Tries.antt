-- ===== src/Tcp/Rounds/Tries.antt =====
-- The parts of MultiThreadTcpClient.cpp return, or give up at one of two calls.
use network_infiniband_works.Base.{
  ℕ, zero, suc, ◌≡◌, refl, ℤ, ◌∷◌, Option, none, some, Bool, true, false, is_zero, Bool-cases, inl,
  inr, is_neg, ◌%◌, ◌^◌, if◌then◌else◌,
}
use network_infiniband_works.Platform.{
  Call, Env, M, Trace, Outcome, done, fail, int, told, check, gettimeofday, setaffinity,
  freeaddrinfo, inet_pton, ask_ptr, resolve, socket_inet, connect_inet, read, ret,
}
use network_infiniband_works.Tcp.Stream.{TcpStream, stream_send, stream_receive, stream_delete}
use network_infiniband_works.Tcp.Connector.{connector_connect, server_address, resolve_host}
use network_infiniband_works.Tcp.Message.{Message}
use network_infiniband_works.Tcp.Client.{
  warm_up, warm_up_server, reply_loop, exchange_msg, exchange_msgs, on_stream, client,
  max_packet_size, add_int, below,
}
use network_infiniband_works.Tcp.Rounds.{clock}

-- The calls at whose failure the program gives up.
abbrev Fatal : Call → Type 0
Fatal gettimeofday = Unit
Fatal (setaffinity n) = n ≡ 0
Fatal _ = ⊥

-- The last call of the run is one of them, and it failed.
abbrev pub GaveUp : Trace → Type 0
GaveUp u = (c : Call) × (r : ℤ) × (v : Trace) × (u ≡ int c r ∷ v) × (is_zero r ≡ false) × Fatal c

-- A run that returns, or gives up at such a call.
abbrev pub Tries {ℓ} : {A : Type ℓ} → Outcome A → Type 0
Tries (done a u) = Unit
Tries (fail u) = GaveUp u

pub Tries-bind {ℓ κ} :
    {A : Type ℓ} {B : Type κ} (o : Outcome A) (f : A → M B)
    → Tries o
    → ((a : A) (u : Trace) → Tries (f a u))
    → Tries (elim o [ done a u ↦ f a u | fail u ↦ fail u ])
Tries-bind (done a u) f first next = next a u
Tries-bind (fail u) f first next = first

Tries-if {ℓ} :
    {A : Type ℓ} (b : Bool) (m k : Outcome A)
    → ((h : b ≡ true) → Tries m)
    → ((h : b ≡ false) → Tries k)
    → Tries (elim b [ true ↦ m | false ↦ k ])
Tries-if true m k on_true on_false = on_true refl
Tries-if false m k on_true on_false = on_false refl

Tries-either {ℓ} :
    {A : Type ℓ} (b : Bool) (m k : M A) (t : Trace)
    → Tries (m t)
    → Tries (k t)
    → Tries ((if b then m else k) t)
Tries-either true m k t on_true on_false = on_true
Tries-either false m k t on_true on_false = on_false

pub Tries-option {ℓ κ} :
    {A : Type ℓ} {B : Type κ} (got : Option A) (m : M B) (f : A → M B) (t : Trace)
    → Tries (m t)
    → ((a : A) → Tries (f a t))
    → Tries ((elim got as (λ x. M B) [ none ↦ m | some a ↦ f a ]) t)
Tries-option none m f t on_none on_some = on_none
Tries-option (some a) m f t on_none on_some = on_some a

module _ (e : Env) where
  pub check-Tries : (c : Call) (t : Trace) → Fatal c → Tries (check e c t)
  check-Tries c t fatal =
      Tries-if (is_zero (e.int t c)) _ _ (λ good. tt) (λ bad. (c, e.int t c, t, refl, bad, fatal))

  pub clock-Tries : (t : Trace) → Tries (clock e t)
  clock-Tries t = Tries-bind (check e gettimeofday t) _ (check-Tries gettimeofday t tt) (λ a u. tt)

  address-Tries : (server : ℕ) (t : Trace) → Tries (server_address e server t)
  unfolding server_address resolve_host
  address-Tries server t =
      let c = resolve server in
      let r = e.int t c in
      let t1 = int c r ∷ t in
      let resolved =
        Tries-if {A = ℤ × ℕ} (is_zero r) (done (r, e.ptr t c) (told freeaddrinfo ∷ t1))
          (done (r, 0) t1) (λ h. tt) (λ h. tt) in
      Tries-bind (resolve_host e server t) _ resolved
        λ got u. Tries-either (is_zero got.0) (ret got.1) (ask_ptr e (inet_pton server)) u tt tt

  pub connect-Tries : (server port : ℕ) (t : Trace) → Tries (connector_connect e server port t)
  unfolding connector_connect
  connect-Tries server port t =
      Tries-bind (server_address e server t) _ (address-Tries server t) λ ip u.
        let sd = e.int u socket_inet in
        let u1 = int socket_inet sd ∷ u in
        elim (Bool-cases (is_neg sd)) [
          | inl none_made ↦ rw none_made tt
          | inr made ↦ elim (Bool-cases (is_zero (e.int u1 (connect_inet sd ip (port % 2 ^ 16))))) [
            | inl taken ↦ rw (made, taken) tt
            | inr refused ↦ rw (made, refused) tt
          ]
        ]

  reply_loop-Tries :
      (fuel : ℕ) (s : TcpStream) (len size : ℕ) (n : ℤ) (t : Trace)
      → Tries (reply_loop e fuel s len size n t)
  unfolding reply_loop stream_receive
  reply_loop-Tries zero s len size n t = tt
  reply_loop-Tries (suc fuel) s len size n t =
      let c = read s.m_sd len in
      let r = e.int t c in
      let rest = reply_loop-Tries fuel s len size (add_int n r) (int c r ∷ t) in
      elim (Bool-cases (below n size)) [
        | inl missing ↦ rw (missing, reply_loop) rest
        | inr over ↦ rw (over, reply_loop) tt
      ]

  exchange_msgs-Tries :
      (fuel : ℕ) (s : TcpStream) (len : ℕ) (m : Message) (num : ℕ) (t : Trace)
      → Tries (exchange_msgs e fuel s len m num t)
  unfolding exchange_msgs exchange_msg stream_send stream_receive
  exchange_msgs-Tries fuel s len m zero t = tt
  exchange_msgs-Tries fuel s len m (suc num) t =
      Tries-bind (exchange_msg e fuel s len m t) _ (reply_loop-Tries fuel s len m.size _ _) λ got u.
        Tries-option got (ret none) (λ n. exchange_msgs e fuel s len m num) u tt
          (λ n. exchange_msgs-Tries fuel s len m num u)

  on_stream-Tries :
      (fuel : ℕ) (s : Option TcpStream) (len : ℕ) (m : Message) (num : ℕ) (t : Trace)
      → Tries (on_stream e fuel s len m num t)
  on_stream-Tries fuel none len m num t = tt
  on_stream-Tries fuel (some s) len m num t = exchange_msgs-Tries fuel s len m num t

  pub client-Tries :
      (fuel server port num : ℕ) (m : Message) (t : Trace)
      → Tries (client e fuel server port 0 num m t)
  unfolding client
  client-Tries fuel server port num m t =
      Tries-bind (check e (setaffinity 0) t) _ (check-Tries (setaffinity 0) t refl) λ a u.
        Tries-bind (connector_connect e server port u) _ (connect-Tries server port u)
          λ s v. on_stream-Tries fuel s max_packet_size m num v

  warm_up-Tries : (c : Option TcpStream) (t : Trace) → Tries (warm_up e c t)
  unfolding warm_up stream_send stream_receive stream_delete
  warm_up-Tries none t = tt
  warm_up-Tries (some c) t = tt

  pub warm_up_server-Tries :
      (num server port : ℕ) (t : Trace) → Tries (warm_up_server e num server port t)
  unfolding warm_up_server
  warm_up_server-Tries zero server port t = tt
  warm_up_server-Tries (suc num) server port t =
      Tries-bind (connector_connect e server port t) _ (connect-Tries server port t) λ s u.
        Tries-bind (warm_up e s u) _ (warm_up-Tries s u)
          λ a v. warm_up_server-Tries num server port v
