-- ===== src/Tests/Streams.antt =====
-- The completion loop of the multi-stream program at a concrete input.
use network_infiniband_works.Base.{◌≡◌, ◌≤◌, refl, [], ◌∷◌, some, pos, true, length, arith}
use network_infiniband_works.Platform.{Env, Trace, Wc, done}
use network_infiniband_works.MultiThread.Engine.{handle_wc, clear}
use network_infiniband_works.MultiStream.Context.{
  StreamContext, init_stream_ctx, create_qps, init_qps, size_per_qp, pp_post_recv_qp,
  post_recv_rounds, pp_post_send_qp,
}
use network_infiniband_works.MultiThread.Exchange.{Host}
use network_infiniband_works.MultiThread.Run.{rx_depth_max}
use network_infiniband_works.Wire.Hex.Digits.{All}
use network_infiniband_works.MultiStream.Engine.Posted.{InDepth}
use network_infiniband_works.MultiStream.Run.{
  StreamCommands, set_up_streams, post_all_recvs, first_sends,
}
use network_infiniband_works.MultiStream.Run.Start.{streams_loop_receives}
use network_infiniband_works.MultiStream.Engine.{
  Streams, Place, find_qp, handle_qp_wc, streams_loop, poll_streams, handle_qp_wcs, count_qp_wc,
  count_qp_recv, resend_qp,
}
use network_infiniband_works.MultiStream.Engine.Refine.{
  qp_context, view, put, run_map, handle_qp_wc-handle_wc,
}
use network_infiniband_works.Tests.Inputs.{env}
use network_infiniband_works.Tests.Rounds.{stream_ctx, numbering}

abbrev state : Streams
state = record { pending_qp = 3 ∷ 3 ∷ []; routs_arr = 500 ∷ 2 ∷ []; rcnt = 4; scnt = 5 }

abbrev pub place : Place
place = record { index = 1; qp = 10 }

abbrev pub two_qps : StreamContext
two_qps = record (stream_ctx 64 2) { qp_arr = 9 ∷ 10 ∷ [] }

-- A receive that was completed.
abbrev wc : Wc
wc = record { wr_id = 1; status = 0; qp_num = 10 }

place_found : find_qp numbering two_qps 10 (9 ∷ 10 ∷ []) 0 [] ≡ done place []
unfolding find_qp
place_found = refl

handle_qp_wc-handle_wc_example :
    handle_qp_wc numbering two_qps 1000 wc state []
    ≡ run_map
        (put state 1)
        (handle_wc numbering (qp_context two_qps place) 1000 wc (view state 1) [])
handle_qp_wc-handle_wc_example =
    handle_qp_wc-handle_wc numbering two_qps place 1000 wc state [] place_found (omega arith)

-- A server of one queue pair, 7, for one round: each poll has a receive and a send.
abbrev polling : Env
polling = record env {
  wcs = λ t c. some (
      record { wr_id = 1; status = 0; qp_num = 7 }
      ∷ record { wr_id = 2; status = 0; qp_num = 7 }
      ∷ []);
}

abbrev pub little_host : Host
little_host = record {
  little = true;
  junk = record { lid = 0; qpn = 0; psn = 0; gid = [] };
  v32 = 0;
}

abbrev pub one_peer : StreamCommands
one_peer = record { port = pos 18515; size = 64; connfd = pos 4; peer_num = 1; servername = 0 }

abbrev one_ctx : StreamContext
one_ctx = record {
  self = 7;
  context = 7;
  channel = 0;
  pd = 7;
  mr = 7;
  cq = 7;
  qp_mem = 7;
  qp_arr = 7 ∷ [];
  buf = 7;
  size = 64;
  rx_depth = 500;
  peer_num = 1;
  size_per_qp = 64 ∷ [];
}

abbrev entered : Streams
entered = record { pending_qp = 1 ∷ []; routs_arr = 500 ∷ []; rcnt = 0; scnt = 0 }

set_up_runs :
    (u : Trace) × (set_up_streams polling little_host one_peer [] ≡ done (7, one_ctx, 500 ∷ []) u)
unfolding set_up_streams post_all_recvs init_stream_ctx create_qps init_qps size_per_qp
    pp_post_recv_qp post_recv_rounds
set_up_runs = (_, refl)

first_runs :
    (w : Trace) × (first_sends polling little_host one_peer one_ctx (500 ∷ []) [] ≡ done entered w)
unfolding first_sends
first_runs = (_, refl)

loop_runs :
    (s' : Streams) × (y : Trace) × (streams_loop polling one_ctx 1 2 entered [] ≡ done (some s') y)
unfolding streams_loop poll_streams handle_qp_wcs handle_qp_wc find_qp count_qp_wc count_qp_recv
    resend_qp pp_post_send_qp clear
loop_runs = (_, _, refl)

streams_loop_receives_example :
    All (InDepth rx_depth_max) loop_runs.0.routs_arr
    × (length loop_runs.0.routs_arr ≡ 1)
    × (length loop_runs.0.pending_qp ≡ 1)
    × (1 ≤ loop_runs.0.rcnt)
    × (1 ≤ loop_runs.0.scnt)
streams_loop_receives_example =
    streams_loop_receives polling little_host one_peer 1 2 7 one_ctx (500 ∷ []) entered loop_runs.0
      [] set_up_runs.0 [] first_runs.0 [] loop_runs.1 set_up_runs.1 first_runs.1 loop_runs.2
