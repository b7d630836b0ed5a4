-- ===== src/Tests/Addresses.antt =====
-- The addresses and their exchange at concrete inputs.
use network_infiniband_works.Base.{
  ℕ, ◌≡◌, refl, ℤ, pos, negsuc, List, [], ◌∷◌, ◌++◌, true, false, arith,
}
use network_infiniband_works.Platform.{Env, Trace, done, read, write}
use network_infiniband_works.Wire.Gid.{gid_to_wire_gid, wire_gid_to_gid}
use network_infiniband_works.Wire.Gid.RoundTrip.{IsGid, wire_gid_to_gid-gid_to_wire_gid}
use network_infiniband_works.Wire.Dest.{PingpongDest, Scan, print_dest, read_dest}
use network_infiniband_works.Wire.Dest.RoundTrip.{IsDest, read_dest-print_dest}
use network_infiniband_works.MultiThread.Exchange.{
  Host, Remote, pp_server_exch_dest, server_talk, server_reply,
}
use network_infiniband_works.MultiThread.Connect.{pp_connect_ctx}
use network_infiniband_works.MultiThread.Exchange.Learns.{server_learns}
use network_infiniband_works.Tests.Inputs.{env}

-- The addresses.
abbrev gid : List ℕ
gid = 254 ∷ 128 ∷ 0 ∷ 0 ∷ 0 ∷ 0 ∷ 0 ∷ 0 ∷ 2 ∷ 201 ∷ 2 ∷ 255 ∷ 16 ∷ 7 ∷ 9 ∷ 10 ∷ []

gid-IsGid : IsGid gid
gid-IsGid = record {
  size = refl;
  bytes = (
    omega arith,
    (
      omega arith,
      (
        omega arith,
        (
          omega arith,
          (
            omega arith,
            (
              omega arith,
              (
                omega arith,
                (
                  omega arith,
                  (
                    omega arith,
                    (
                      omega arith,
                      (
                        omega arith,
                        (
                          omega arith,
                          (omega arith, (omega arith, (omega arith, (omega arith, tt)))),
                        ),
                      ),
                    ),
                  ),
                ),
              ),
            ),
          ),
        ),
      ),
    ),
  );
}

abbrev dest : PingpongDest
dest = record { lid = 5; qpn = 1025; psn = 4660; gid = gid }

dest-IsDest : IsDest dest
dest-IsDest = record {
  lid_small = omega arith;
  qpn_small = omega arith;
  psn_small = omega arith;
  is_gid = gid-IsGid;
}

abbrev junk : Scan
junk = record { lid = 1; qpn = 2; psn = 3; gid = [] }

wire_gid_round_trip_example : wire_gid_to_gid false 9 (gid_to_wire_gid true gid ++ (0 ∷ [])) ≡ gid
wire_gid_round_trip_example = wire_gid_to_gid-gid_to_wire_gid true false 9 (0 ∷ []) gid-IsGid

read_dest-print_dest_example : read_dest false junk 9 (print_dest true dest ++ (0 ∷ [])) ≡ dest
read_dest-print_dest_example = read_dest-print_dest true false junk 9 [] dest-IsDest

abbrev host : Host
host = record { little = true; junk = junk; v32 = 0 }

-- A server whose socket delivers the message of a client, and whose calls all succeed.
abbrev serving : Env
serving = record env {
  int = λ t c. elim c as (λ _. ℤ) [ read fd n ↦ pos 52 | write fd b ↦ pos 52 | _ ↦ pos 0 ];
  bytes = λ t c. print_dest false dest ++ (0 ∷ []);
}

serving_runs :
    (rem : Remote) × (u : Trace) × (pp_server_exch_dest serving host 7 1 3 0 dest
        (negsuc 0)
        (pos 4)
        []
      ≡ done rem u)
unfolding pp_server_exch_dest server_talk server_reply pp_connect_ctx
serving_runs = (_, _, refl)

server_learns_example : serving_runs.0.dest ≡ dest
server_learns_example =
    server_learns serving host false 7 1 3 0 dest (negsuc 0) (pos 4) [] serving_runs.1
      serving_runs.0 dest-IsDest refl serving_runs.2
