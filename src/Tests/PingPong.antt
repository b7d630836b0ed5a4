-- ===== src/Tests/PingPong.antt =====
-- The completion loops and the context at concrete inputs.
use network_infiniband_works.Base.{
  ℕ, ◌+◌, ◌*◌, ◌≤◌, ◌≡◌, refl, pos, [], ◌∷◌, true, false, ◌⊎◌, arith,
}
use network_infiniband_works.Platform.{
  Trace, done, ptr, int, post_send, create_qp, create_cq, reg_mr, alloc_pd, open_device, malloc,
  calloc,
}
use network_infiniband_works.Platform.Resources.{Keeps}
use network_infiniband_works.Platform.Hoare.{Ends}
use network_infiniband_works.MultiThread.Context.{
  PingpongContext, pp_init_ctx, pp_close_ctx, qp_init_attr,
}
use network_infiniband_works.MultiThread.Context.Resources.{
  holdings, init_ctx_holds, close_ctx_releases,
}
use network_infiniband_works.MultiThread.Engine.{
  request, send_wrid, Loop, pp_post_recv, post_recv_loop, pp_post_send,
}
use network_infiniband_works.MultiThread.Engine.Steps.{sends}
use network_infiniband_works.MultiThread.Pair.{Pair, Setup, Step, Reach, here, Start, Finished}
use network_infiniband_works.MultiThread.Pair.Invariant.{IsSetup}
use network_infiniband_works.MultiThread.Pair.Progress.{
  Accepting, steps, outstanding_bounds, never_stuck, steps-le, completes,
}
use network_infiniband_works.MultiThread.Exchange.{Host}
use network_infiniband_works.MultiThread.Run.{Commands, set_up, first_send}
use network_infiniband_works.MultiThread.Pair.Enter.{first_send-Start}
use network_infiniband_works.Tests.Inputs.{env, ctx}

-- The ping-pong.
abbrev setup : Setup
setup = record {
  client_env = env;
  client_ctx = ctx;
  server_env = env;
  server_ctx = ctx;
  iters = 1000;
}

abbrev pair : Pair
pair = record {
  client = record {
    loop = record { pending = 3; routs = 500; rcnt = 0; scnt = 0; num_cq_events = 0 };
    log = int (post_send 7 (request ctx send_wrid)) (pos 0) ∷ [];
  };
  server = record {
    loop = record { pending = 1; routs = 500; rcnt = 0; scnt = 0; num_cq_events = 0 };
    log = [];
  };
}

setup-IsSetup : IsSetup setup
setup-IsSetup = record {
  some_rounds = omega arith;
  client_deep = omega arith;
  server_deep = omega arith;
}

pair-Start : Start setup pair
pair-Start = record {
  client_pending = refl;
  client_routs = refl;
  client_rcnt = refl;
  client_scnt = refl;
  client_sends = refl;
  server_pending = refl;
  server_routs = refl;
  server_rcnt = refl;
  server_scnt = refl;
  server_sends = refl;
}

setup-Accepting : Accepting setup
setup-Accepting = record {
  client_accepts = record { sends_taken = λ t. refl; receives_taken = λ t. refl };
  server_accepts = record { sends_taken = λ t. refl; receives_taken = λ t. refl };
}

completes_example : (r : Pair) × Reach setup pair r × Finished setup r
completes_example = completes setup-IsSetup pair-Start setup-Accepting here

never_stuck_example : Finished setup pair ⊎ ((r : Pair) × Step setup pair r)
never_stuck_example = never_stuck setup-IsSetup pair-Start setup-Accepting here

still : Reach setup pair pair
still = here

steps-le_example : steps still ≤ 4 * 1000
steps-le_example = steps-le setup-IsSetup pair-Start still

outstanding_bounds_example :
    (sends pair.client.log ≤ 0 + 1)
    × (sends pair.server.log ≤ 0 + 1)
    × (2 ≤ 500)
    × (500 ≤ 500)
    × (2 ≤ 500)
    × (500 ≤ 500)
    × (sends pair.client.log ≤ 1000)
    × (sends pair.server.log ≤ 1000)
    × (0 ≤ sends pair.server.log)
    × (0 ≤ sends pair.client.log)
outstanding_bounds_example = outstanding_bounds setup-IsSetup pair-Start here

-- A client and a server as they enter their loops.
abbrev some_host : Host
some_host = record { little = true; junk = record { lid = 0; qpn = 0; psn = 0; gid = [] }; v32 = 0 }

abbrev commands : (servername : ℕ) → Commands
commands servername = record {
  port = pos 18515;
  size = 64;
  connfd = pos 4;
  thread_num = 0;
  servername = servername;
}

-- What `set_up` returns in an environment in which every call succeeds.
abbrev made_ctx : PingpongContext
made_ctx = record ctx { self = 7; context = 7; channel = 0; pd = 7; mr = 7; cq = 7; buf = 7 }

abbrev made_setup : Setup
made_setup = record setup { client_ctx = made_ctx; server_ctx = made_ctx }

client_ready : (u : Trace) × (set_up env some_host (commands 5) [] ≡ done (7, made_ctx, 500) u)
unfolding set_up pp_init_ctx pp_post_recv post_recv_loop
client_ready = (_, refl)

server_ready : (u : Trace) × (set_up env some_host (commands 0) [] ≡ done (7, made_ctx, 500) u)
unfolding set_up pp_init_ctx pp_post_recv post_recv_loop
server_ready = (_, refl)

client_starts :
    (s : Loop) × (u : Trace) × (first_send env some_host (commands 5) made_ctx 500 [] ≡ done s u)
unfolding first_send pp_post_send
client_starts = (_, _, refl)

server_starts :
    (s : Loop) × (u : Trace) × (first_send env some_host (commands 0) made_ctx 500 [] ≡ done s u)
unfolding first_send
server_starts = (_, _, refl)

first_send-Start_example :
    Start made_setup (record {
      client = record { loop = client_starts.0; log = client_starts.1 };
      server = record { loop = server_starts.0; log = server_starts.1 };
    })
    × (client_starts.0.routs ≡ 500)
    × (server_starts.0.routs ≡ 500)
first_send-Start_example =
    first_send-Start made_setup some_host some_host (commands 5) (commands 0) 7 7 500 500
      client_starts.0 server_starts.0 [] [] client_ready.0 server_ready.0 [] [] client_starts.1
      server_starts.1 client_ready.1 server_ready.1 refl refl refl refl client_starts.2
      server_starts.2

-- The context.
init_ctx_holds_example :
    Ends (λ c now. now ≡ holdings c []) (Keeps []) (pp_init_ctx env 4096 1 64 500 1 false true [])
init_ctx_holds_example = init_ctx_holds env 4096 1 64 500 1 false true [] [] refl

-- A trace after which exactly what `made_ctx` holds is held.
abbrev held_trace : Trace
held_trace =
    ptr (create_qp 7 (qp_init_attr 7 500)) 7
    ∷ ptr (create_cq 7 501 0) 7
    ∷ ptr (reg_mr 7 7 64) 7
    ∷ ptr (alloc_pd 7) 7
    ∷ ptr (open_device 1) 7
    ∷ ptr (malloc 4096) 7
    ∷ ptr (calloc 1 152) 7
    ∷ []

close_ctx_releases_example :
    Ends (λ _ now. now ≡ []) (Keeps []) (pp_close_ctx env made_ctx held_trace)
close_ctx_releases_example = close_ctx_releases env made_ctx [] held_trace refl
