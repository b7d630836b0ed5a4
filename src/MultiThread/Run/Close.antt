-- ===== src/MultiThread/Run/Close.antt =====
-- `runPingPong` closes the socket of the exchange again where it is the server.
use network_infiniband_works.Base.{ℕ, ℤ, negsuc, ◌∷◌, ◌≡◌, ap, ◌∙◌, is_neg}
use network_infiniband_works.Platform.{Env, Trace, done, >>=-eq-done, told, close, refuse_if}
use network_infiniband_works.Wire.Dest.{PingpongDest}
use network_infiniband_works.MultiThread.Connect.{mtu_1024}
use network_infiniband_works.MultiThread.Context.{PingpongContext}
use network_infiniband_works.MultiThread.Exchange.{Host, Remote, server_talk, pp_server_exch_dest}
use network_infiniband_works.MultiThread.Exchange.Learns.{at_exit-eq-done}
use network_infiniband_works.MultiThread.Run.{Commands, connect_ends}

module _ (e : Env) (host : Host) where
  exchange_closes :
      (qp ib_port mtu sl : ℕ) (my_dest : PingpongDest) (sgid_idx connfd : ℤ) (t u : Trace)
      (rem : Remote)
      → pp_server_exch_dest e host qp ib_port mtu sl my_dest sgid_idx connfd t ≡ done rem u
      → (s : Trace) × (u ≡ told (close connfd) ∷ s)
  unfolding pp_server_exch_dest
  exchange_closes qp ib_port mtu sl my_dest sgid_idx connfd t u rem h =
      let (_, v, _, h1) = >>=-eq-done (refuse_if (is_neg connfd)) _ t h in
      let (s, _, last) =
        at_exit-eq-done (told (close connfd))
          (server_talk e host qp ib_port mtu sl my_dest sgid_idx connfd) v h1 in
      (s, last)

  returned_last {ℓ} : {A : Type ℓ} {a b : A} {u v : Trace} → done a u ≡ done b v → v ≡ u
  returned_last h = cc

  -- Where the exchange of a server succeeds in `runPingPong`, the last two calls both close the
  -- socket of the exchange.
  server_closes_twice :
      (commands : Commands) (ctx : PingpongContext) (my_dest : PingpongDest) (t u : Trace)
      (rem : Remote)
      → commands.servername ≡ 0
      → connect_ends e host commands ctx my_dest t ≡ done rem u
      → (s : Trace) × (u ≡ told (close commands.connfd) ∷ told (close commands.connfd) ∷ s)
  unfolding connect_ends
  server_closes_twice commands ctx my_dest t u rem is_server h =
      let (rem', v, p, h1) =
        >>=-eq-done
          (pp_server_exch_dest e host ctx.qp 1 mtu_1024 0 my_dest (negsuc 0) commands.connfd) _ t
          (rw is_server at h) in
      let (s, last) =
        exchange_closes ctx.qp 1 mtu_1024 0 my_dest (negsuc 0) commands.connfd t v rem' p in
      (s, returned_last h1 ∙ ap (λ w. told (close commands.connfd) ∷ w) last)
