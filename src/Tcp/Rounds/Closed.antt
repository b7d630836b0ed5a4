-- ===== src/Tcp/Rounds/Closed.antt =====
-- A round of MultiStreamTcpClient.cpp closes the connections that it has opened.
use network_infiniband_works.Base.{
  ℕ, ◌+◌, ◌≡◌, refl, arith, ℤ, List, [], ◌∷◌, Option, none, some, ◌∙◌,
}
use network_infiniband_works.Platform.{Trace, Timeval, Env, M, done, ◌>>=◌, ret}
use network_infiniband_works.Metrics.{Double, Row}
use network_infiniband_works.MultiThread.Launch.{Round}
use network_infiniband_works.Tcp.Stream.{TcpStream}
use network_infiniband_works.Tcp.Message.{Message, stream_msgs}
use network_infiniband_works.Tcp.Client.{stream_clients, close_streams}
use network_infiniband_works.Tcp.Rounds.{
  clock, finish_round, round_with, stream_round, run_stream_rounds,
}
use network_infiniband_works.Tcp.Rounds.Held.{
  Holding, stream_clients-Moves, close_streams-Moves, Still-clock,
}
use network_infiniband_works.Tcp.Rounds.Moves.{
  opened, shut, Moves, Moves-ret, Moves-give_up, Moves-bind, Moves-after,
}

module _ (fd : ℤ) (e : Env) (d : Double) (fuel junk server port num : ℕ) where
  -- A round that gives a line holds what was held before it.
  abbrev Closed : ℕ → {A : Type 0} → Option A → ℕ → Type 0
  Closed n none k = Unit
  Closed n (some a) k = k ≡ n

  finish_round-Moves :
      (r : Round) (start : Timeval) (got : Option (List (Option TcpStream))) (n k : ℕ)
      → Holding fd e n got k
      → Moves fd (finish_round e d fuel junk server port num r start got) k (Closed n)
  unfolding finish_round
  finish_round-Moves r start none n k held = Moves-ret fd none k tt
  finish_round-Moves r start (some ss) n k held =
      Moves-after fd (clock e) _ k (Still-clock fd e) λ end.
        Moves-bind fd (close_streams e ss) _ k (close_streams-Moves fd e ss n k held)
          λ a j same. Moves-ret fd _ j same

  round_with-Moves :
      (r : Round) (ms : Option (List Message)) (n : ℕ)
      → Moves fd (round_with e d fuel junk server port num r ms) n (Closed n)
  unfolding round_with
  round_with-Moves r none n = Moves-give_up fd n
  round_with-Moves r (some ms) n = Moves-after fd (clock e) _ n (Still-clock fd e) λ start.
      Moves-bind fd (stream_clients e fuel server port num ms) _ n
        (stream_clients-Moves fd e fuel server port num ms n)
        (λ got k held. finish_round-Moves r start got n k held)

  run_stream_rounds-Moves :
      (rs : List Round) (n : ℕ)
      → Moves fd (run_stream_rounds e d fuel junk server port num rs) n (Closed n)
  unfolding run_stream_rounds stream_round
  run_stream_rounds-Moves [] n = Moves-ret fd (some []) n refl
  run_stream_rounds-Moves (r ∷ rs) n =
      Moves-bind fd (stream_round e d fuel junk server port num r) _ n
        (round_with-Moves r (stream_msgs junk r.varsize r.num_threads) n)
        (next (λ k. run_stream_rounds-Moves rs k))
    where
      with_row :
          (row : Row d.D) (k : ℕ)
          → k ≡ n
          → (rest : Option (List (Row d.D))) (j : ℕ) → Closed k rest j
          → Closed n (elim rest [ none ↦ none | some rows ↦ some (row ∷ rows) ]) j
      with_row row k same none j q = tt
      with_row row k same (some rows) j q = q ∙ same

      next :
          ((k : ℕ) → Moves fd (run_stream_rounds e d fuel junk server port num rs) k (Closed k))
          → (got : Option (Row d.D)) (k : ℕ) → Closed n got k
          → Moves fd
              (elim got as (λ _. M (Option (List (Row d.D)))) [
                | none ↦ ret none
                | some row ↦ run_stream_rounds e d fuel junk server port num rs >>= λ rest.
                    ret (elim rest [ none ↦ none | some rows ↦ some (row ∷ rows) ])
              ])
              k
              (Closed n)
      next ih none k q = Moves-ret fd none k tt
      next ih (some row) k q =
          Moves-bind fd (run_stream_rounds e d fuel junk server port num rs) _ k (ih k)
            λ rest j qj. Moves-ret fd _ j (with_row row k q rest j qj)

-- Rounds of MultiStreamTcpClient.cpp that give their lines have closed each descriptor as often as
-- `socket` has returned it: the client leaves no connection open.
pub run_stream_rounds_closes :
    (e : Env) (d : Double) (fuel junk server port num : ℕ) (rs : List Round) (t u : Trace)
    (rows : List (Row d.D)) (fd : ℤ)
    → run_stream_rounds e d fuel junk server port num rs t ≡ done (some rows) u
    → opened fd u + shut fd t ≡ shut fd u + opened fd t
run_stream_rounds_closes e d fuel junk server port num rs t u rows fd h =
    let (k, same, balance) =
      (run_stream_rounds-Moves fd e d fuel junk server port num rs 0).runs t u (some rows) h in
    omega (arith, same, balance)
