-- ===== src/Tests/StreamPair.antt =====
-- The two ends of the multi-stream program with two queue pairs, at a concrete input.
use network_infiniband_works.Base.{
  ℕ, zero, suc, ◌+◌, ◌*◌, ◌<◌, ◌≤◌, ◌≡◌, ◌⊎◌, refl, pos, [], ◌∷◌, arith,
}
use network_infiniband_works.Platform.{Event, Trace, done, int, post_send}
use network_infiniband_works.MultiThread.Engine.{send_wrid, clear}
use network_infiniband_works.MultiStream.Context.{qp_request, pp_post_send_qp}
use network_infiniband_works.MultiStream.Engine.{
  Streams, find_qp, handle_qp_wc, count_qp_wc, resend_qp,
}
use network_infiniband_works.MultiStream.Engine.Posted.{Posted}
use network_infiniband_works.MultiStream.Pair.{
  StreamEnd, StreamPair, StreamSetup, StreamMove, sent_done, client_takes, StreamReach, at_start,
  then_step, RunStep, RunReach, Entered, StreamStart, IsContext, IsStreamSetup, Serves, Serving,
  BothOver, qp_at, posted_on_qp,
}
use network_infiniband_works.MultiStream.Pair.Total.{total}
use network_infiniband_works.MultiStream.Pair.Progress.{stream_steps}
use network_infiniband_works.MultiStream.Pair.Results.{
  TogetherReach, OneOver, stream_turns, stream_totals, stream_never_stuck, stream_steps-le,
  stream_completes,
}
use network_infiniband_works.Tests.Rounds.{numbering}
use network_infiniband_works.MultiStream.Pair.Enter.{first_sends-Entered, entered_end}
use network_infiniband_works.MultiStream.Run.{first_sends, send_all}
use network_infiniband_works.Tests.Streams.{two_qps, place, little_host, one_peer}

abbrev stream_setup : StreamSetup
stream_setup = record {
  client_env = numbering;
  client_ctx = two_qps;
  server_env = numbering;
  server_ctx = two_qps;
  iters = 1000;
  peers = 2;
}

abbrev send_event : (qp i : ℕ) → Event
send_event qp i = int (post_send qp (qp_request two_qps send_wrid i)) (pos 0)

abbrev stream_pair : StreamPair
stream_pair = record {
  client = record {
    streams = record { pending_qp = 3 ∷ 3 ∷ []; routs_arr = 500 ∷ 500 ∷ []; rcnt = 0; scnt = 0 };
    log = send_event 10 1 ∷ send_event 9 0 ∷ [];
    sent = λ i. 0;
    received = λ i. 0;
  };
  server = record {
    streams = record { pending_qp = 1 ∷ 1 ∷ []; routs_arr = 500 ∷ 500 ∷ []; rcnt = 0; scnt = 0 };
    log = [];
    sent = λ i. 0;
    received = λ i. 0;
  };
}

two_qps_differ : (i j : ℕ) → i < 2 → j < 2 → qp_at two_qps i ≡ qp_at two_qps j → i ≡ j
two_qps_differ zero zero a b h = refl
two_qps_differ zero (suc zero) a b h = absurd (omega (arith, h))
two_qps_differ (suc zero) zero a b h = absurd (omega (arith, h))
two_qps_differ (suc zero) (suc zero) a b h = refl
two_qps_differ (suc (suc i)) j a b h = absurd (omega (arith, a))
two_qps_differ i (suc (suc j)) a b h = absurd (omega (arith, b))

two_qps-IsContext : IsContext 2 two_qps
two_qps-IsContext = record { deep = omega arith; whole = refl; distinct = two_qps_differ }

stream_setup-IsStreamSetup : IsStreamSetup stream_setup
stream_setup-IsStreamSetup = record {
  some_rounds = omega arith;
  some_peers = omega arith;
  client_context = two_qps-IsContext;
  server_context = two_qps-IsContext;
}

two_qps-Serves : Serves numbering 2 two_qps
two_qps-Serves = record {
  own_number = λ t i j a b h. two_qps_differ i j a b h;
  accepts = λ i l. record { sends_taken = λ t. refl; receives_taken = λ t. refl };
}

stream_setup-Serving : Serving stream_setup
stream_setup-Serving = record { client_serves = two_qps-Serves; server_serves = two_qps-Serves }

-- What holds of indices 0 and 1 holds of those below 2.
below_two : (P : ℕ → Type 0) → P 0 → P 1 → (i : ℕ) → i < 2 → P i
below_two P a b zero l = a
below_two P a b (suc zero) l = b
below_two P a b (suc (suc i)) l = absurd (omega (arith, l))

stream_pair-StreamStart : StreamStart stream_setup stream_pair
stream_pair-StreamStart = record {
  client_entered = record {
    flagged = below_two _ refl refl;
    first_posted = below_two _ refl refl;
    none_sent = λ i. refl;
    none_received = λ i. refl;
    scnt_zero = refl;
    rcnt_zero = refl;
    receives = record {
      in_depth = ((omega arith, omega arith), ((omega arith, omega arith), tt));
      one_count_each = refl;
      one_flag_each = refl;
    };
  };
  server_entered = record {
    flagged = below_two _ refl refl;
    first_posted = below_two _ refl refl;
    none_sent = λ i. refl;
    none_received = λ i. refl;
    scnt_zero = refl;
    rcnt_zero = refl;
    receives = record {
      in_depth = ((omega arith, omega arith), ((omega arith, omega arith), tt));
      one_count_each = refl;
      one_flag_each = refl;
    };
  };
}

-- The client's send on its second queue pair completes.
first_move :
    (y : StreamEnd) × StreamMove numbering two_qps 1000
      (posted_on_qp two_qps stream_pair.server)
      stream_pair.client
      y
unfolding find_qp handle_qp_wc count_qp_wc resend_qp clear
first_move = (
  _,
  sent_done (record { wr_id = 2; status = 0; qp_num = 10 }) place _ _ refl refl (omega arith) refl,
)

abbrev after_send : StreamPair
after_send = record stream_pair { client = first_move.0 }

one_step : StreamReach stream_setup stream_pair after_send
one_step = then_step at_start (client_takes first_move.1)

stream_turns_example :
    (posted_on_qp two_qps after_send.client 1 ≤ after_send.client.sent 1 + 1)
    × (posted_on_qp two_qps after_send.server 1 ≤ after_send.server.sent 1 + 1)
    × (after_send.client.received 1 ≤ posted_on_qp two_qps after_send.server 1)
    × (after_send.server.received 1 ≤ posted_on_qp two_qps after_send.client 1)
    × (posted_on_qp two_qps after_send.server 1 ≤ posted_on_qp two_qps after_send.client 1)
    × (posted_on_qp two_qps after_send.client 1 ≤ posted_on_qp two_qps after_send.server 1 + 1)
stream_turns_example =
    stream_turns 1 stream_setup-IsStreamSetup stream_pair-StreamStart one_step (omega arith)

stream_totals_example :
    (after_send.client.streams.scnt ≡ total 2 after_send.client.sent)
    × (after_send.client.streams.rcnt ≡ total 2 after_send.client.received)
    × (after_send.server.streams.scnt ≡ total 2 after_send.server.sent)
    × (after_send.server.streams.rcnt ≡ total 2 after_send.server.received)
    × (total 2 (posted_on_qp two_qps after_send.client) < 1000 + 2)
    × (total 2 (posted_on_qp two_qps after_send.server) < 1000 + 2)
    × Posted numbering two_qps 2 after_send.client.streams
    × Posted numbering two_qps 2 after_send.server.streams
stream_totals_example = stream_totals stream_setup-IsStreamSetup stream_pair-StreamStart one_step

stream_never_stuck_example :
    BothOver stream_setup after_send ⊎ ((r : StreamPair) × RunStep stream_setup after_send r)
stream_never_stuck_example =
    stream_never_stuck stream_setup-IsStreamSetup stream_pair-StreamStart stream_setup-Serving
      one_step

stream_steps-le_example : stream_steps one_step + 4 ≤ 4 * (1000 + 2)
stream_steps-le_example =
    stream_steps-le stream_setup-IsStreamSetup stream_pair-StreamStart one_step

stream_completes_example :
    (r : StreamPair) × RunReach stream_setup after_send r
    × BothOver stream_setup r
    × ((m : StreamPair) × TogetherReach stream_setup after_send m
        × OneOver stream_setup m
        × RunReach stream_setup m r)
stream_completes_example =
    stream_completes stream_setup-IsStreamSetup stream_pair-StreamStart stream_setup-Serving
      one_step

-- The client of two queue pairs as it enters its loop.
client_runs :
    (s : Streams) × (u : Trace) × (first_sends numbering little_host
        (record one_peer { servername = 5 })
        two_qps
        (500 ∷ 500 ∷ [])
        []
      ≡ done s u)
unfolding first_sends send_all pp_post_send_qp
client_runs = (_, _, refl)

first_sends-Entered_example :
    Entered numbering two_qps 2 3 1
      (entered_end numbering little_host two_qps client_runs.0 client_runs.1)
first_sends-Entered_example =
    first_sends-Entered numbering little_host two_qps 2 two_qps-IsContext [] (λ i l. refl)
      (record one_peer { servername = 5 }) (500 ∷ 500 ∷ []) client_runs.0 client_runs.1 refl
      (((omega arith, omega arith), ((omega arith, omega arith), tt)), refl) client_runs.2
