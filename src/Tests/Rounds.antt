-- ===== src/Tests/Rounds.antt =====
-- The rounds of the two programs and the parts of the buffer at concrete inputs.
use network_infiniband_works.Base.{
  ℕ, ◌+◌, ◌*◌, ◌<◌, ◌≤◌, ◌≡◌, refl, pos, [], false, replicate, arith, pos_part,
}
use network_infiniband_works.Platform.{Trace, done}
use network_infiniband_works.Sockets.{create_client_connection, retry}
use network_infiniband_works.Metrics.{Double}
use network_infiniband_works.MultiThread.Launch.{size_per_peer}
use network_infiniband_works.MultiStream.Context.{StreamContext, size_per_qp, buf_offset, qp_size}
use network_infiniband_works.MultiStream.Context.Buffers.{
  qp_buffers_in_bounds, qp_buffers_disjoint, qp_buffers_overlap,
}
use network_infiniband_works.MultiThread.Launch.{server_threads, client_threads}
use network_infiniband_works.MultiThread.Launch.Threads.{started, with_sizes, same_threads}
use network_infiniband_works.Sockets.{accept_client_connection, connect_first}
use network_infiniband_works.Platform.{Env, qp_num}
use network_infiniband_works.Tests.Inputs.{env}

abbrev pub whole_numbers : Double
whole_numbers = record {
  D = ℕ;
  of_ℕ = λ n. n;
  of_ℤ = pos_part;
  add = λ a b. a + b;
  mul = λ a b. a * b;
  div = λ a b. a;
  negate = λ a. 0;
  less = λ a b. false;
}

abbrev pub stream_ctx : ℕ → ℕ → StreamContext
stream_ctx size peers = record {
  self = 1;
  context = 2;
  channel = 0;
  pd = 4;
  mr = 5;
  cq = 6;
  qp_mem = 7;
  qp_arr = replicate peers 9;
  buf = 8;
  size = size;
  rx_depth = 500;
  peer_num = peers;
  size_per_qp = size_per_qp size peers;
}

qp_buffers_in_bounds_example : buf_offset (stream_ctx 64 3) 2 + qp_size (stream_ctx 64 3) 2 ≤ 64
qp_buffers_in_bounds_example = qp_buffers_in_bounds (stream_ctx 64 3) 2 refl (omega arith)

qp_buffers_disjoint_example :
    buf_offset (stream_ctx 64 4) 1 + qp_size (stream_ctx 64 4) 1 ≤ buf_offset (stream_ctx 64 4) 3
qp_buffers_disjoint_example =
    qp_buffers_disjoint (stream_ctx 64 4) 1 3 refl (omega arith) (omega arith) (omega arith)

qp_buffers_overlap_example :
    buf_offset (stream_ctx 64 3) 1 < buf_offset (stream_ctx 64 3) 0 + qp_size (stream_ctx 64 3) 0
qp_buffers_overlap_example = qp_buffers_overlap (stream_ctx 64 3) refl (omega arith) (omega arith)

-- A round of three threads for a message of one byte: two of the sizes are zero.
server_runs : (u : Trace) × (server_threads env (pos 3) (size_per_peer 1 3) [] ≡ done tt u)
unfolding server_threads accept_client_connection size_per_peer
server_runs = (_, refl)

client_runs : (u : Trace) × (client_threads env 18515 3 (size_per_peer 1 3) [] ≡ done tt u)
unfolding client_threads create_client_connection retry connect_first size_per_peer
client_runs = (_, refl)

same_threads_example :
    (started server_runs.0 ≡ with_sizes (size_per_peer 1 3) [])
    × (started client_runs.0 ≡ started server_runs.0)
same_threads_example =
    same_threads env env (pos 3) 18515 3 1 3 [] [] server_runs.0 client_runs.0 (omega arith) refl
      refl server_runs.1 client_runs.1

-- Queue pairs that have their handles for numbers.
abbrev pub numbering : Env
numbering = record env { ptr = λ t c. elim c as (λ _. ℕ) [ qp_num q ↦ q | _ ↦ 7 ] }
