-- ===== src/Drafts/Remotes.antt =====
-- Which remote queue pair the queue pairs of the draft are connected to.
use network_infiniband_works.Base.{ℕ, ◌≡◌, ◌⊎◌, inl, inr, refl, negsuc, List, [], ◌∷◌, none, some}
use network_infiniband_works.Platform.{QpState, QpAttr, Trace, Env, M, done, bind_done}
use network_infiniband_works.Wire.Hex.Digits.{All}
use network_infiniband_works.Wire.Dest.{PingpongDest}
use network_infiniband_works.MultiThread.Connect.{mtu_1024, rtr_attr}
use network_infiniband_works.MultiThread.Exchange.{Host}
use network_infiniband_works.Drafts.{
  Connection, set_qp_state_rtr, set_qp_state_rts, prep_ib_device_to_connect,
}
use network_infiniband_works.Drafts.Client.{connect_remotes}
use network_infiniband_works.Drafts.Moves.{
  remote_of, MovesOnce, rts_all, rtr_all, after, call_kept, call_connects, call_other,
}

module _ (e : Env) (ok : MovesOnce e) where
  -- Queue pairs that are not connected yet are connected by the first address.
  abbrev IsFree : (attr : QpAttr) (t : Trace) (q : ℕ) → Type 0
  IsFree attr t q = (remote_of q t ≡ none) ⊎ (remote_of q t ≡ some attr)

  abbrev IsConnected : (attr : QpAttr) (t : Trace) (q : ℕ) → Type 0
  IsConnected attr t q = remote_of q t ≡ some attr

  IsFree-after :
      (qp : ℕ) (attr : QpAttr) (t : Trace) (qps : List ℕ)
      → attr.qp_state ≡ QpState.rtr
      → All (IsFree attr t) qps
      → All (IsFree attr (after e ok qp attr t)) qps
  IsFree-after qp attr t [] rtr all = tt
  IsFree-after qp attr t (q ∷ qps) rtr (inl none_yet, all) =
      (call_other e ok qp attr t rtr q none_yet, IsFree-after qp attr t qps rtr all)
  IsFree-after qp attr t (q ∷ qps) rtr (inr same, all) =
      (inr (call_kept e ok qp attr t rtr q attr same), IsFree-after qp attr t qps rtr all)

  rtr_all_connects :
      (qps : List ℕ) (attr : QpAttr) (t : Trace) (rtr : attr.qp_state ≡ QpState.rtr)
      → All (IsFree attr t) qps
      → All (IsConnected attr (rtr_all e ok qps attr t rtr).log) qps
  unfolding rtr_all
  rtr_all_connects [] attr t rtr all = tt
  rtr_all_connects (qp ∷ qps) attr t rtr (free, all) =
      let rest = rtr_all e ok qps attr (after e ok qp attr t) rtr in
      let now : remote_of qp (after e ok qp attr t) ≡ some attr = elim free [
        | inl none_yet ↦ call_connects e ok qp attr t rtr none_yet
        | inr same ↦ call_kept e ok qp attr t rtr qp attr same
      ] in
      (
        rest.kept qp attr now,
        rtr_all_connects qps attr (after e ok qp attr t) rtr (IsFree-after qp attr t qps rtr all),
      )

  -- The setup of the connections from a remote queue pair on: it returns, and what is connected
  -- stays so.
  record RunsOn (m : M (Unit {0})) (t : Trace) : Type 0 where
    log : Trace
    returns : m t ≡ done tt log
    kept : (q : ℕ) (a : QpAttr) → remote_of q t ≡ some a → remote_of q log ≡ some a

  module _ (host : Host) (ctx : Connection) where
    abbrev to_remote : PingpongDest → QpAttr
    to_remote d = rtr_attr 1 mtu_1024 0 d (negsuc 0)

    prepared :
        (psn : ℕ) (d : PingpongDest) (t : Trace)
        → RunsOn (set_qp_state_rts e ctx 1 psn mtu_1024 0 d (negsuc 0)) t
    unfolding set_qp_state_rts
    prepared psn d t =
        let moved = rts_all e ok ctx.qp _ t refl in
        record { log = moved.log; returns = moved.returns; kept = moved.kept }

    all_prepared :
        (locals remotes : List PingpongDest) (t : Trace)
        → RunsOn (connect_remotes e host ctx locals remotes) t
    unfolding connect_remotes prep_ib_device_to_connect set_qp_state_rtr
    all_prepared [] remotes t = record { log = t; returns = refl; kept = λ q a h. h }
    all_prepared (l ∷ ls) [] t = record { log = t; returns = refl; kept = λ q a h. h }
    all_prepared (l ∷ ls) (d ∷ ds) t =
        let moved = rtr_all e ok ctx.qp (to_remote d) t refl in
        let sent = prepared l.psn d moved.log in
        let rest = all_prepared ls ds sent.log in
        record {
          log = rest.log;
          returns =
              bind_done (prep_ib_device_to_connect e ctx 1 l.psn mtu_1024 0 d (negsuc 0)) _ t
                (bind_done (set_qp_state_rtr e ctx 1 mtu_1024 0 d (negsuc 0)) _ t moved.returns
                  sent.returns)
                rest.returns;
          kept = λ q a h. rest.kept q a (sent.kept q a (moved.kept q a h));
        }

    none_yet-IsFree :
        (attr : QpAttr) (t : Trace) (qps : List ℕ)
        → All (λ q. remote_of q t ≡ none) qps
        → All (IsFree attr t) qps
    none_yet-IsFree attr t [] h = tt
    none_yet-IsFree attr t (q ∷ qps) h = (inl h.0, none_yet-IsFree attr t qps h.1)

    kept-IsConnected :
        (attr : QpAttr) (t u : Trace) (qps : List ℕ)
        → ((q : ℕ) (a : QpAttr) → remote_of q t ≡ some a → remote_of q u ≡ some a)
        → All (IsConnected attr t) qps
        → All (IsConnected attr u) qps
    kept-IsConnected attr t u [] kept h = tt
    kept-IsConnected attr t u (q ∷ qps) kept h =
        (kept q attr h.0, kept-IsConnected attr t u qps kept h.1)

    -- Where a queue pair takes the way to ready-to-receive once, and none is connected yet: the client
    -- of the draft gets through connecting its queue pairs to one remote queue pair or more, whatever it
    -- is refused, and connects each of them to the first of the remote ones.
    pub connects_to_first :
        (l : PingpongDest) (ls : List PingpongDest) (d : PingpongDest) (ds : List PingpongDest)
        (t : Trace)
        → All (λ q. remote_of q t ≡ none) ctx.qp
        → (u : Trace) × (connect_remotes e host ctx (l ∷ ls) (d ∷ ds) t ≡ done tt u)
          × All (λ q. remote_of q u ≡ some (rtr_attr 1 mtu_1024 0 d (negsuc 0))) ctx.qp
    unfolding connect_remotes prep_ib_device_to_connect set_qp_state_rtr
    connects_to_first l ls d ds t free =
        let attr = to_remote d in
        let moved = rtr_all e ok ctx.qp attr t refl in
        let sent = prepared l.psn d moved.log in
        let rest = all_prepared ls ds sent.log in
        (
          rest.log,
          bind_done (prep_ib_device_to_connect e ctx 1 l.psn mtu_1024 0 d (negsuc 0)) _ t
              (bind_done (set_qp_state_rtr e ctx 1 mtu_1024 0 d (negsuc 0)) _ t moved.returns
                sent.returns)
              rest.returns,
          kept-IsConnected attr moved.log rest.log ctx.qp (λ q a h. rest.kept q a (sent.kept q a h))
              (rtr_all_connects ctx.qp attr t refl (none_yet-IsFree attr t ctx.qp free)),
        )
