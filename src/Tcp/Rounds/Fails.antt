-- ===== src/Tcp/Rounds/Fails.antt =====
-- How MultiThreadTcpClient.cpp ends.
use network_infiniband_works.Base.{ℕ, ◌≡◌, [], ◌∷◌}
use network_infiniband_works.Platform.{Env, Outcome, done, fail}
use network_infiniband_works.Metrics.{Double, Row}
use network_infiniband_works.MultiThread.Launch.{round_of}
use network_infiniband_works.Tcp.Message.{Message}
use network_infiniband_works.Tcp.Client.{tcp_row}
use network_infiniband_works.Tcp.Rounds.{
  Ran, completed, hung, overran, Ending, finished, hung_after, overran_after,
}
use network_infiniband_works.Tcp.Rounds.Served.{Answering, Served}
use network_infiniband_works.Tcp.Rounds.Tries.{GaveUp, Tries}

-- How the program ends: it gave up, or the thread of the first round ran out of fuel, where the server
-- does not answer or the fuel is below 2, or it stored behind the end of a message with the line of
-- the first round behind it.
module _ (e : Env) (fuel : ℕ) (d : Double) (num : ℕ) where
  abbrev Opening : Outcome (Ran (Row d.D)) → Type 0
  Opening (fail u) = GaveUp u
  Opening (done (completed row) u) = (time : d.D) × (row ≡ tcp_row d num (round_of 1 1) time)
  Opening (done hung u) = ¬ Answering e fuel
  Opening (done overran u) = ⊥

  abbrev pub Stops {ℓ} : {B : Type ℓ} → Outcome (Ending (Row d.D) B) → Type 0
  Stops (fail u) = GaveUp u
  Stops (done (finished b) u) = ⊥
  Stops (done (hung_after rows) u) = (rows ≡ []) × (¬ Answering e fuel)
  Stops (done (overran_after rows) u) =
      (time : d.D) × (rows ≡ tcp_row d num (round_of 1 1) time ∷ [])
