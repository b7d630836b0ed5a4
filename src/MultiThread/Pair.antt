-- ===== src/MultiThread/Pair.antt =====
-- The two ends of a connection, each in the completion loop of `runPingPong`, over a reliable
-- connection: every send that one end posts completes once at that end and arrives once at the
-- other, and nothing else completes. The ends take their completions in any order.
pub mod Side
pub mod Invariant
pub mod Progress
pub mod Enter
use network_infiniband_works.Base.{ℕ, ◌<◌, ◌≡◌, true, false}
use network_infiniband_works.Platform.{Trace, Wc, Env, done}
use network_infiniband_works.MultiThread.Context.{PingpongContext}
use network_infiniband_works.MultiThread.Engine.{
  recv_wrid, send_wrid, Loop, both_pending, handle_wc, goes_on,
}
use network_infiniband_works.MultiThread.Engine.Steps.{sends}

-- One end: the variables of its loop, and the calls that it has made.
pub record End : Type 0 where
  pub loop : Loop
  pub log : Trace

pub record Pair : Type 0 where
  pub client : End
  pub server : End

-- What does not change: the environment and the context of each end, and `iters`.
pub record Setup : Type 0 where
  pub client_env : Env
  pub client_ctx : PingpongContext
  pub server_env : Env
  pub server_ctx : PingpongContext
  pub iters : ℕ

-- An end in its loop takes one completion: of a send of its own, or of a receive that one of the
-- `arrived` messages of the other end filled.
pub data Move (e : Env) (ctx : PingpongContext) (iters arrived : ℕ) (x y : End) : Type 0 where
  send_done :
      (wc : Wc)
      → goes_on iters x.loop ≡ true
      → wc.wr_id ≡ send_wrid
      → x.loop.scnt < sends x.log
      → handle_wc e ctx iters wc x.loop x.log ≡ done y.loop y.log
      → Move e ctx iters arrived x y
  recv_done :
      (wc : Wc)
      → goes_on iters x.loop ≡ true
      → wc.wr_id ≡ recv_wrid
      → x.loop.rcnt < arrived
      → handle_wc e ctx iters wc x.loop x.log ≡ done y.loop y.log
      → Move e ctx iters arrived x y

pub data Step (k : Setup) (p : Pair) : Pair → Type 0 where
  client_moves :
      {y : End}
      → Move k.client_env k.client_ctx k.iters (sends p.server.log) p.client y
      → Step k p (record p { client = y })
  server_moves :
      {y : End}
      → Move k.server_env k.server_ctx k.iters (sends p.client.log) p.server y
      → Step k p (record p { server = y })

pub data Reach (k : Setup) (p : Pair) : Pair → Type 0 where
  here : Reach k p p
  next : {q r : Pair} → Reach k p q → Step k q r → Reach k p r

-- The loops as `runPingPong` enters them: the receives are posted, and the client has posted one
-- send.
pub record Start (k : Setup) (p : Pair) : Type 0 where
  pub client_pending : p.client.loop.pending ≡ both_pending
  pub client_routs : p.client.loop.routs ≡ k.client_ctx.rx_depth
  pub client_rcnt : p.client.loop.rcnt ≡ 0
  pub client_scnt : p.client.loop.scnt ≡ 0
  pub client_sends : sends p.client.log ≡ 1
  pub server_pending : p.server.loop.pending ≡ recv_wrid
  pub server_routs : p.server.loop.routs ≡ k.server_ctx.rx_depth
  pub server_rcnt : p.server.loop.rcnt ≡ 0
  pub server_scnt : p.server.loop.scnt ≡ 0
  pub server_sends : sends p.server.log ≡ 0

-- Both loops are over, with `iters` messages sent and received at each end.
pub record Finished (k : Setup) (p : Pair) : Type 0 where
  pub client_over : goes_on k.iters p.client.loop ≡ false
  pub server_over : goes_on k.iters p.server.loop ≡ false
  pub client_received : p.client.loop.rcnt ≡ k.iters
  pub client_sent : sends p.client.log ≡ k.iters
  pub server_received : p.server.loop.rcnt ≡ k.iters
  pub server_sent : sends p.server.log ≡ k.iters
