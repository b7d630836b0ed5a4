-- ===== src/Tcp/Rounds/Served.antt =====
-- A thread of MultiThreadTcpClient.cpp with a message of one byte gets through where the server
-- answers.
use network_infiniband_works.Base.{◌<◌, arith, ℕ, zero, suc, ◌≡◌, refl, [], ◌∷◌, Option, none, some}
use network_infiniband_works.Platform.{Env, M, Trace, Outcome, done, fail, check, setaffinity, ret}
use network_infiniband_works.Tcp.Stream.{TcpStream}
use network_infiniband_works.Tcp.Connector.{connector_connect}
use network_infiniband_works.Tcp.Message.{Message}
use network_infiniband_works.Tcp.Client.Replies.{Delivers, exchange_msg_returns}
use network_infiniband_works.Tcp.Client.{
  exchange_msg, exchange_msgs, on_stream, client, max_packet_size,
}
use network_infiniband_works.Tcp.Rounds.{join_threads}
use network_infiniband_works.Tcp.Rounds.Tries.{GaveUp, Tries, check-Tries, connect-Tries}

-- A server whose reads each deliver at least a byte and no more than they were asked for, with enough
-- fuel for a message of one byte.
pub record Answering (e : Env) (fuel : ℕ) : Type 0 where
  pub answers : (s : TcpStream) → Delivers e s max_packet_size
  pub some_fuel : 1 < fuel

-- A run that returns a value, or gives up.
abbrev pub Served {ℓ} : {A : Type ℓ} → Outcome (Option A) → Type 0
Served (done none u) = ⊥
Served (done (some a) u) = Unit
Served (fail u) = GaveUp u

Served-bind {ℓ κ} :
    {A : Type ℓ} {B : Type κ} (o : Outcome A) (f : A → M (Option B))
    → Tries o
    → ((a : A) (u : Trace) → Served (f a u))
    → Served (elim o [ done a u ↦ f a u | fail u ↦ fail u ])
Served-bind (done a u) f first next = next a u
Served-bind (fail u) f first next = first

Served-then {ℓ κ} :
    {A : Type ℓ} {B : Type κ} (o : Outcome (Option A)) (m : M (Option B)) (f : A → M (Option B))
    → Served o
    → ((a : A) (u : Trace) → Served (f a u))
    → Served (elim o [
      | done got u ↦ (elim got as (λ x. M (Option B)) [ none ↦ m | some a ↦ f a ]) u
      | fail u ↦ fail u
    ])
Served-then (done none u) m f first next = absurd first
Served-then (done (some a) u) m f first next = next a u
Served-then (fail u) m f first next = first

module _ (e : Env) (fuel : ℕ) (server : Answering e fuel) where
  exchange_msg-Served :
      (s : TcpStream) (m : Message) (t : Trace)
      → m.size ≡ 1
      → Served (exchange_msg e fuel s max_packet_size m t)
  exchange_msg-Served s m t one =
      let (n, u, p, q, r) =
        exchange_msg_returns e s max_packet_size fuel m t (server.answers s) (omega (arith, one))
          (omega (arith, one, server.some_fuel)) in
      rw p tt

  exchange_msgs-Served :
      (s : TcpStream) (m : Message) (num : ℕ) (t : Trace)
      → m.size ≡ 1
      → Served (exchange_msgs e fuel s max_packet_size m num t)
  unfolding exchange_msgs
  exchange_msgs-Served s m zero t one = tt
  exchange_msgs-Served s m (suc num) t one =
      Served-then (exchange_msg e fuel s max_packet_size m t) (ret none) _
        (exchange_msg-Served s m t one) (λ n u. exchange_msgs-Served s m num u one)

  on_stream-Served :
      (s : Option TcpStream) (m : Message) (num : ℕ) (t : Trace)
      → m.size ≡ 1
      → Served (on_stream e fuel s max_packet_size m num t)
  on_stream-Served none m num t one = tt
  on_stream-Served (some s) m num t one = exchange_msgs-Served s m num t one

  client-Served :
      (host port num : ℕ) (m : Message) (t : Trace)
      → m.size ≡ 1
      → Served (client e fuel host port 0 num m t)
  unfolding client
  client-Served host port num m t one =
      Served-bind (check e (setaffinity 0) t) _ (check-Tries e (setaffinity 0) t refl) λ a u.
        Served-bind (connector_connect e host port u) _ (connect-Tries e host port u)
          λ s v. on_stream-Served s m num v one

  pub join-Served :
      (host port num : ℕ) (m : Message) (t : Trace)
      → m.size ≡ 1
      → Served (join_threads e fuel host port num 0 (m ∷ []) t)
  unfolding join_threads
  join-Served host port num m t one =
      Served-then (client e fuel host port 0 num m t) (ret none) _
        (client-Served host port num m t one) (λ a u. tt)
