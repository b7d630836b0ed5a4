-- ===== src/Tests/Connections.antt =====
-- The TCP connections at concrete inputs.
use network_infiniband_works.Base.{◌+◌, ◌≤◌, ◌≡◌, refl, ℤ, [], ◌∷◌, arith}
use network_infiniband_works.Platform.{Trace, done}
use network_infiniband_works.Sockets.{
  minus_one, retry, create_client_connection, create_server_connection,
}
use network_infiniband_works.Sockets.Open.{
  Leaves, open_fds, create_client_connection-Leaves, create_server_connection-Leaves,
}
use network_infiniband_works.Sockets.Retry.{slept, create_client_connection-slept}
use network_infiniband_works.Tests.Inputs.{env, refusing}

-- The sockets.
create_client_connection-Leaves_example :
    Leaves (open_fds []) (create_client_connection env 18515 3 [])
create_client_connection-Leaves_example = create_client_connection-Leaves env 18515 3 []

create_server_connection-Leaves_example :
    Leaves (open_fds []) (create_server_connection env 18515 [])
create_server_connection-Leaves_example =
    create_server_connection-Leaves env 18515 [] (λ u fd. refl)

create_client_connection-slept_example :
    ((fd : ℤ) × (u : Trace) × (create_client_connection refusing 18515 3 [] ≡ done fd u)
      × (slept u ≤ slept [] + 127))
    × (retry refusing 20 1 (1 ∷ []) minus_one [] ≡ retry refusing 8 1 (1 ∷ []) minus_one [])
create_client_connection-slept_example =
    create_client_connection-slept refusing 18515 3 20 (1 ∷ []) [] [] (omega arith)
