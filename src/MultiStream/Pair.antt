-- ===== src/MultiStream/Pair.antt =====
-- The two ends of the connections of multistreamTestRunner.c, each in the completion loop of
-- `runPingPong` with a queue pair for each peer, over reliable connections: the queue pair at index
-- i of the client is connected to the one at index i of the server, every send posted on it
-- completes once and arrives once at the other, and nothing else completes. A completion is taken
-- at any time, in or behind the last round of the loop, since a poll hands over several. The model
-- ends where the loops do: the connections still deliver when one of them is over.
pub mod Total
pub mod Channel
pub mod Side
pub mod After
pub mod Moves
pub mod Invariant
pub mod Take
pub mod Drained
pub mod Progress
pub mod Results
pub mod Enter
use network_infiniband_works.Base.{ℕ, ◌<◌, ◌≤◌, ◌≡◌, true, false, length, get_or}
use network_infiniband_works.Platform.{Trace, Wc, Env, done, qp_num}
use network_infiniband_works.MultiThread.Engine.{recv_wrid, send_wrid, both_pending}
use network_infiniband_works.MultiThread.Engine.Queue.{sends_on}
use network_infiniband_works.MultiThread.Engine.Accept.{Accepts}
use network_infiniband_works.MultiStream.Context.{StreamContext}
use network_infiniband_works.MultiStream.Engine.{
  Place, Streams, find_qp, handle_qp_wc, streams_go_on,
}
use network_infiniband_works.MultiStream.Engine.Refine.{qp_context}
use network_infiniband_works.MultiStream.Engine.Posted.{Posted}
use network_infiniband_works.MultiStream.Pair.Total.{bump}

-- One end: the variables of its loop, the calls that it has made, and the completions that it has
-- taken for each queue pair, which the program does not count.
pub record StreamEnd : Type 0 where
  pub streams : Streams
  pub log : Trace
  pub sent : ℕ → ℕ
  pub received : ℕ → ℕ

pub record StreamPair : Type 0 where
  pub client : StreamEnd
  pub server : StreamEnd

-- What does not change: the environment and the context of each end, `iters`, and the number of
-- queue pairs.
pub record StreamSetup : Type 0 where
  pub client_env : Env
  pub client_ctx : StreamContext
  pub server_env : Env
  pub server_ctx : StreamContext
  pub iters : ℕ
  pub peers : ℕ

-- The queue pair at an index, and the sends posted on it.
abbrev pub qp_at : StreamContext → ℕ → ℕ
qp_at ctx i = get_or ctx.qp_arr i 0

abbrev pub posted_on_qp : StreamContext → StreamEnd → ℕ → ℕ
posted_on_qp ctx x i = sends_on (qp_at ctx i) x.log

-- An end takes one completion: of a send of its own on queue pair `p`, or of a receive of `p` that
-- one of the `arrived` messages filled.
pub data StreamMove (e : Env) (ctx : StreamContext) (iters : ℕ) (arrived : ℕ → ℕ) (x : StreamEnd)
    : StreamEnd → Type 0 where
  sent_done :
      (wc : Wc) (p : Place) (s : Streams) (u : Trace)
      → find_qp e ctx wc.qp_num ctx.qp_arr 0 x.log ≡ done p x.log
      → wc.wr_id ≡ send_wrid
      → x.sent p.index < posted_on_qp ctx x p.index
      → handle_qp_wc e ctx iters wc x.streams x.log ≡ done s u
      → StreamMove e ctx iters arrived x
          (record x { streams = s; log = u; sent = bump x.sent p.index })
  received_done :
      (wc : Wc) (p : Place) (s : Streams) (u : Trace)
      → find_qp e ctx wc.qp_num ctx.qp_arr 0 x.log ≡ done p x.log
      → wc.wr_id ≡ recv_wrid
      → x.received p.index < arrived p.index
      → handle_qp_wc e ctx iters wc x.streams x.log ≡ done s u
      → StreamMove e ctx iters arrived x
          (record x { streams = s; log = u; received = bump x.received p.index })

pub data StreamStep (k : StreamSetup) (p : StreamPair) : StreamPair → Type 0 where
  client_takes :
      {y : StreamEnd}
      → StreamMove k.client_env k.client_ctx k.iters (posted_on_qp k.server_ctx p.server) p.client y
      → StreamStep k p (record p { client = y })
  server_takes :
      {y : StreamEnd}
      → StreamMove k.server_env k.server_ctx k.iters (posted_on_qp k.client_ctx p.client) p.server y
      → StreamStep k p (record p { server = y })

pub data StreamReach (k : StreamSetup) (p : StreamPair) : StreamPair → Type 0 where
  at_start : StreamReach k p p
  then_step : {q r : StreamPair} → StreamReach k p q → StreamStep k q r → StreamReach k p r

-- A step of an end whose loop goes on, and runs of such steps.
pub data RunStep (k : StreamSetup) (p : StreamPair) : StreamPair → Type 0 where
  client_runs :
      {y : StreamEnd}
      → streams_go_on k.iters p.client.streams ≡ true
      → StreamMove k.client_env k.client_ctx k.iters (posted_on_qp k.server_ctx p.server) p.client y
      → RunStep k p (record p { client = y })
  server_runs :
      {y : StreamEnd}
      → streams_go_on k.iters p.server.streams ≡ true
      → StreamMove k.server_env k.server_ctx k.iters (posted_on_qp k.client_ctx p.client) p.server y
      → RunStep k p (record p { server = y })

pub data RunReach (k : StreamSetup) : StreamPair → StreamPair → Type 0 where
  run_over : {p : StreamPair} → RunReach k p p
  run_first : {p q r : StreamPair} → RunStep k p q → RunReach k q r → RunReach k p r

-- An end as `runPingPong` enters the loop: `flags` pending and `first` sends posted on each of the
-- `n` queue pairs, the receives posted, nothing counted.
pub record Entered (e : Env) (ctx : StreamContext) (n flags first : ℕ) (x : StreamEnd)
    : Type 0 where
  pub flagged : (i : ℕ) → i < n → get_or x.streams.pending_qp i 0 ≡ flags
  pub first_posted : (i : ℕ) → i < n → posted_on_qp ctx x i ≡ first
  pub none_sent : (i : ℕ) → x.sent i ≡ 0
  pub none_received : (i : ℕ) → x.received i ≡ 0
  pub scnt_zero : x.streams.scnt ≡ 0
  pub rcnt_zero : x.streams.rcnt ≡ 0
  pub receives : Posted e ctx n x.streams

pub record StreamStart (k : StreamSetup) (p : StreamPair) : Type 0 where
  pub client_entered : Entered k.client_env k.client_ctx k.peers both_pending 1 p.client
  pub server_entered : Entered k.server_env k.server_ctx k.peers recv_wrid 0 p.server

-- What an end is started with: a queue pair for each peer, all different, room for two receives.
pub record IsContext (n : ℕ) (ctx : StreamContext) : Type 0 where
  pub deep : 2 ≤ ctx.rx_depth
  pub whole : length ctx.qp_arr ≡ n
  pub distinct : (i j : ℕ) → i < n → j < n → qp_at ctx i ≡ qp_at ctx j → i ≡ j

pub record IsStreamSetup (k : StreamSetup) : Type 0 where
  pub some_rounds : 1 ≤ k.iters
  pub some_peers : 1 ≤ k.peers
  pub client_context : IsContext k.peers k.client_ctx
  pub server_context : IsContext k.peers k.server_ctx

abbrev pub place_at : StreamContext → ℕ → Place
place_at ctx i = record { index = i; qp = qp_at ctx i }

-- The queue pairs have numbers of their own, and take every request.
pub record Serves (e : Env) (n : ℕ) (ctx : StreamContext) : Type 0 where
  pub own_number :
      (t : Trace) (i j : ℕ)
      → i < n
      → j < n
      → e.ptr t (qp_num (qp_at ctx i)) ≡ e.ptr t (qp_num (qp_at ctx j))
      → i ≡ j
  pub accepts : (i : ℕ) → i < n → Accepts e (qp_context ctx (place_at ctx i))

pub record Serving (k : StreamSetup) : Type 0 where
  pub client_serves : Serves k.client_env k.peers k.client_ctx
  pub server_serves : Serves k.server_env k.peers k.server_ctx

-- Both loops are over.
abbrev pub BothOver : StreamSetup → StreamPair → Type 0
BothOver k p =
    (streams_go_on k.iters p.client.streams ≡ false)
    × (streams_go_on k.iters p.server.streams ≡ false)
