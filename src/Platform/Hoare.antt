-- ===== src/Platform/Hoare.antt =====
-- Rules for what a program holds along a run. They follow the binds of a `do` block.
use network_infiniband_works.Base.{
  ℕ, zero, suc, List, ◌∷◌, Option, none, some, ◌≡◌, refl, ◌∙◌, true, false, is_zero, ℤ, pos, negsuc,
}
use network_infiniband_works.Platform.Calls.{Call}
use network_infiniband_works.Platform.Events.{Event, Trace, told}
use network_infiniband_works.Platform.Monad.{
  Env, Outcome, done, fail, M, ◌>>=◌, ◌>>◌, ret, need, check, tell,
}
use network_infiniband_works.Platform.Resources.{
  Kind, Resource, acquired, released, give_back_all, acquire, held_of, after,
}

held_of_step :
    (ev : Event) (t : Trace) (held : List Resource)
    → held_of t ≡ some held
    → held_of (ev ∷ t) ≡ after ev held
held_of_step ev t held h = rw (h, held_of) refl

acquire_null : (k : Option Kind) (held : List Resource) → some (acquire k 0 held) ≡ some held
acquire_null none held = refl
acquire_null (some k) held = refl

-- How a run may end.
abbrev pub Ends {ℓ} :
    {A : Type ℓ} → (A → List Resource → Type 0) → (List Resource → Type 0) → Outcome A → Type 0
Ends Q F (done a u) = (held : List Resource) × (held_of u ≡ some held) × Q a held
Ends Q F (fail u) = (held : List Resource) × (held_of u ≡ some held) × F held

-- Started with the resources `before`, the run misuses none; a value that it returns is in `Q`
-- with the resources held then, and if it gives up, those are in `F`.
pub record Holds {ℓ} {A : Type ℓ} (m : M A) (before : List Resource)
    (Q : A → List Resource → Type 0) (F : List Resource → Type 0) : Type 0 where
  pub ends : (t : Trace) → held_of t ≡ some before → Ends Q F (m t)

module _ {ℓ} {A : Type ℓ} {Q : A → List Resource → Type 0} {F : List Resource → Type 0} where
  pub Holds-ret : (a : A) (before : List Resource) → Q a before → Holds (ret a) before Q F
  Holds-ret a before q = record { ends = λ t h. (before, h, q) }

  -- A pointer call that acquires something of kind `k`.
  pub Holds-need :
      (e : Env) (c : Call) (f : ℕ → M A) (before : List Resource)
      → F before
      → ((n : ℕ) → Holds (f (suc n)) (acquire (acquired c) (suc n) before) Q F)
      → Holds (need e c >>= f) before Q F
  Holds-need e c f before bad next = record { ends = λ t h. go t h (e.ptr t c) }
    where
      go :
          (t : Trace)
          → held_of t ≡ some before
          → (p : ℕ)
          → Ends Q F
              (elim (elim p as (λ _. Outcome ℕ) [
                | zero ↦ fail (Event.ptr c 0 ∷ t)
                | suc n ↦ done (suc n) (Event.ptr c (suc n) ∷ t)
              ]) [ done a t' ↦ f a t' | fail t' ↦ fail t' ])
      go t h zero =
          (before, held_of_step (Event.ptr c 0) t before h ∙ acquire_null (acquired c) before, bad)
      go t h (suc n) =
          (next n).ends (Event.ptr c (suc n) ∷ t) (held_of_step (Event.ptr c (suc n)) t before h)

  -- A call that must return 0; if it does, it gives back what belongs to it.
  pub Holds-check :
      (e : Env) (c : Call) (k : M A) (before left : List Resource)
      → F before
      → give_back_all (released c) before ≡ some left
      → Holds k left Q F
      → Holds (check e c >> k) before Q F
  Holds-check e c k before left bad back next = record { ends = λ t h. go t h (e.int t c) }
    where
      go :
          (t : Trace)
          → held_of t ≡ some before
          → (r : ℤ)
          → Ends Q F
              (elim (elim (is_zero r) as (λ _. Outcome (Unit {0})) [
                | true ↦ done tt (Event.int c r ∷ t)
                | false ↦ fail (Event.int c r ∷ t)
              ]) [ done a t' ↦ k t' | fail t' ↦ fail t' ])
      go t h (pos zero) =
          next.ends (Event.int c (pos 0) ∷ t) (held_of_step (Event.int c (pos 0)) t before h ∙ back)
      go t h (pos (suc n)) = (before, held_of_step (Event.int c (pos (suc n))) t before h, bad)
      go t h (negsuc n) = (before, held_of_step (Event.int c (negsuc n)) t before h, bad)

  -- A call whose result is dropped.
  pub Holds-tell :
      (e : Env) (c : Call) (k : M A) (before left : List Resource)
      → give_back_all (released c) before ≡ some left
      → Holds k left Q F
      → Holds (tell e c >> k) before Q F
  Holds-tell e c k before left back next = record {
    ends = λ t h. next.ends (told c ∷ t) (held_of_step (told c) t before h ∙ back);
  }

pub Holds-tell_last :
    {Q : Unit {0} → List Resource → Type 0} {F : List Resource → Type 0} (e : Env) (c : Call)
    (before left : List Resource)
    → give_back_all (released c) before ≡ some left
    → Q tt left
    → Holds (tell e c) before Q F
Holds-tell_last e c before left back q = record {
  ends = λ t h. (left, held_of_step (told c) t before h ∙ back, q);
}
