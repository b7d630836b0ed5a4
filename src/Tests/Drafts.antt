-- ===== src/Tests/Drafts.antt =====
-- The draft at a concrete input: two queue pairs, which are not connected yet.
use network_infiniband_works.Base.{
  ◌≡◌, refl, pos, negsuc, [], ◌∷◌, ℤ, some, if◌then◌else◌, inl, inr, Bool-cases,
}
use network_infiniband_works.Platform.{Env, Trace, modify_qp, done}
use network_infiniband_works.Wire.Hex.Digits.{All}
use network_infiniband_works.Wire.Dest.{PingpongDest}
use network_infiniband_works.MultiThread.Connect.{mtu_1024, rtr_attr}
use network_infiniband_works.Drafts.{Connection}
use network_infiniband_works.Drafts.Client.{connect_remotes, exchange_each, no_info}
use network_infiniband_works.Drafts.Server.{answer_each}
use network_infiniband_works.Drafts.Unnoticed.{Answers, failures_unnoticed}
use network_infiniband_works.Drafts.Moves.{remote_of, is_none, MovesOnce}
use network_infiniband_works.Drafts.Remotes.{connects_to_first}
use network_infiniband_works.Tests.Inputs.{env, refusing}
use network_infiniband_works.Tests.Streams.{little_host}

-- A move of a queue pair that is connected is refused, all other calls succeed.
abbrev moving_once : Env
moving_once = record env {
  int = λ t c. elim c as (λ _. ℤ) [
    | modify_qp qp attr mask ↦ if is_none (remote_of qp t) then pos 0 else pos 22
    | _ ↦ pos 0
  ];
}

moving_once-MovesOnce : MovesOnce moving_once
moving_once-MovesOnce = record {
  once = λ t qp attr rtr. elim (Bool-cases (is_none (remote_of qp t))) [
    | inl first ↦ rw first refl
    | inr again ↦ rw again refl
  ];
}

abbrev remote : PingpongDest
remote = record no_info { lid = 5; qpn = 17 }

abbrev two_peers : Connection
two_peers = record {
  self = 1;
  context = 2;
  channel = 0;
  pd = 4;
  mr = 5;
  cq = 6;
  qp = 9 ∷ 10 ∷ [];
  peer_num = 2;
  buf = 8;
  size = 4096;
  rx_depth = 500;
  pending = 0;
  portinfo = record { lid = 5; link_layer = 1 };
  routs = 500;
}

connects_to_first_example :
    (u : Trace) × (connect_remotes moving_once little_host two_peers
        (no_info ∷ no_info ∷ [])
        (remote ∷ record remote { qpn = 18 } ∷ [])
        []
      ≡ done tt u)
    × All (λ q. remote_of q u ≡ some (rtr_attr 1 mtu_1024 0 remote (negsuc 0))) (9 ∷ 10 ∷ [])
connects_to_first_example =
    connects_to_first moving_once moving_once-MovesOnce little_host two_peers no_info (no_info ∷ [])
      remote (record remote { qpn = 18 } ∷ []) [] (refl, (refl, tt))

-- Every read, write and move of a queue pair fails.
failures_unnoticed_example :
    Answers refusing little_host
      (pos 4)
      (exchange_each refusing little_host (pos 4) (remote ∷ remote ∷ []) 0 (no_info ∷ no_info ∷ []))
      2
      []
    × Answers refusing little_host
        (pos 4)
        (answer_each refusing little_host two_peers (pos 4) (remote ∷ remote ∷ []) 2 0 [])
        2
        []
failures_unnoticed_example =
    failures_unnoticed refusing little_host (pos 4) two_peers (remote ∷ remote ∷ [])
      (no_info ∷ no_info ∷ []) 2 [] [] []
