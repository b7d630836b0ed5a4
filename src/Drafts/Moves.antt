-- ===== src/Drafts/Moves.antt =====
-- What moving all queue pairs of the draft does, where a queue pair takes the way to ready-to-receive
-- once.
use network_infiniband_works.Base.{
  ℕ, ◌≡◌, ◌⊎◌, inl, inr, refl, ap, ◌∙◌, arith, ℤ, List, [], ◌∷◌, Option, none, some, Bool, true,
  false, ◌&&◌, ◌==◌, is_zero, if◌then◌else◌, Bool-cases,
}
use network_infiniband_works.Platform.{
  QpState, QpFlag, QpAttr, Call, Event, Trace, Env, int, modify_qp, done,
}
use network_infiniband_works.MultiThread.Connect.{rtr_mask, rts_mask}
use network_infiniband_works.Drafts.{move_all}

abbrev is_rtr : QpState → Bool
is_rtr QpState.init = false
is_rtr QpState.rtr = true
is_rtr QpState.rts = false

-- The attributes with which an event took queue pair `q` to ready-to-receive.
abbrev remote_at : (q : ℕ) → Event → Option QpAttr
remote_at q (int (modify_qp p attr mask) r) =
    if q == p && is_zero r && is_rtr attr.qp_state then some attr else none
remote_at q _ = none

abbrev or_else : Option QpAttr → Option QpAttr → Option QpAttr
or_else (some a) b = some a
or_else none b = b

-- The remote queue pair that `q` is connected to, as a trace has it: the last that it was taken to.
abbrev pub remote_of : (q : ℕ) → Trace → Option QpAttr
remote_of q [] = none
remote_of q (ev ∷ t) = or_else (remote_at q ev) (remote_of q t)

abbrev pub is_none : Option QpAttr → Bool
is_none none = true
is_none (some a) = false

-- As libibverbs describes `ibv_modify_qp`: a queue pair that was set up takes the way to
-- ready-to-receive, and one that is there or beyond refuses it.
pub record MovesOnce (e : Env) : Type 0 where
  pub once :
      (t : Trace) (qp : ℕ) (attr : QpAttr)
      → attr.qp_state ≡ QpState.rtr
      → is_zero (e.int t (modify_qp qp attr rtr_mask)) ≡ is_none (remote_of qp t)

module _ (e : Env) (ok : MovesOnce e) where
  -- What `move_all` leaves: it returns, and a queue pair that is connected stays so.
  pub record Moved (qps : List ℕ) (attr : QpAttr) (mask : List QpFlag) (t : Trace) : Type 0 where
    pub log : Trace
    pub returns : move_all e qps attr mask t ≡ done tt log
    pub kept : (q : ℕ) (a : QpAttr) → remote_of q t ≡ some a → remote_of q log ≡ some a

  -- A call that takes a queue pair elsewhere connects none.
  other_call :
      (q qp : ℕ) (attr : QpAttr) (mask : List QpFlag) (r : ℤ) (t : Trace)
      → is_rtr attr.qp_state ≡ false
      → remote_of q (int (modify_qp qp attr mask) r ∷ t) ≡ remote_of q t
  other_call q qp attr mask r t other = ground arith

  pub rts_all :
      (qps : List ℕ) (attr : QpAttr) (t : Trace)
      → attr.qp_state ≡ QpState.rts
      → Moved qps attr rts_mask t
  unfolding move_all
  rts_all [] attr t rts = record { log = t; returns = refl; kept = λ q a h. h }
  rts_all (qp ∷ qps) attr t rts =
      let c = modify_qp qp attr rts_mask in
      let rest = rts_all qps attr (int c (e.int t c) ∷ t) rts in
      let other : is_rtr attr.qp_state ≡ false = ap is_rtr rts in
      record {
        log = rest.log;
        returns = rest.returns;
        kept = λ q a h. rest.kept q a (other_call q qp attr rts_mask (e.int t c) t other ∙ h);
      }

  -- The call that takes `qp` to ready-to-receive.
  module _ (qp : ℕ) (attr : QpAttr) (t : Trace) where
    abbrev c : Call
    c = modify_qp qp attr rtr_mask

    abbrev pub after : Trace
    after = int c (e.int t c) ∷ t

  module _ (qp : ℕ) (attr : QpAttr) (t : Trace) (rtr : attr.qp_state ≡ QpState.rtr) where
    pub call_kept :
        (q : ℕ) (a : QpAttr) → remote_of q t ≡ some a → remote_of q (after qp attr t) ≡ some a
    call_kept q a h = elim (Bool-cases (q == qp)) [
      | inl same ↦
          let eq : qp ≡ q = ground (arith, same) in
          let refused : is_zero (e.int t (c qp attr t)) ≡ false =
            ok.once t qp attr rtr ∙ ap is_none (ap (λ x. remote_of x t) eq ∙ h) in
          rw (same, refused) h
      | inr other ↦ rw other h
    ]

    pub call_connects : remote_of qp t ≡ none → remote_of qp (after qp attr t) ≡ some attr
    call_connects h =
        let same : (qp == qp) ≡ true = ground arith in
        let taken : is_zero (e.int t (c qp attr t)) ≡ true = ok.once t qp attr rtr ∙ ap is_none h in
        let to_rtr : is_rtr attr.qp_state ≡ true = ap is_rtr rtr in rw (same, taken, to_rtr) refl

    pub call_other :
        (q : ℕ)
        → remote_of q t ≡ none
        → (remote_of q (after qp attr t) ≡ none) ⊎ (remote_of q (after qp attr t) ≡ some attr)
    call_other q h =
        elim (Bool-cases (q == qp && is_zero (e.int t (c qp attr t)) && is_rtr attr.qp_state)) [
          | inl yes' ↦ inr (rw yes' refl)
          | inr no' ↦ inl (rw no' h)
        ]

  unfoldable pub rtr_all :
      (qps : List ℕ) (attr : QpAttr) (t : Trace)
      → attr.qp_state ≡ QpState.rtr
      → Moved qps attr rtr_mask t
  unfolding move_all
  rtr_all [] attr t rtr = record { log = t; returns = refl; kept = λ q a h. h }
  rtr_all (qp ∷ qps) attr t rtr =
      let rest = rtr_all qps attr (after qp attr t) rtr in
      record {
        log = rest.log;
        returns = rest.returns;
        kept = λ q a h. rest.kept q a (call_kept qp attr t rtr q a h);
      }
