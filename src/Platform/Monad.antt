-- ===== src/Platform/Monad.antt =====
-- The environment that answers calls, and programs as functions over it.
use network_infiniband_works.Platform.Calls.{Call, Wc, PortAttr, Timeval}
use network_infiniband_works.Platform.Events.{Event, Trace, told}
use network_infiniband_works.Base.{
  ℕ, zero, suc, ℤ, List, ◌∷◌, Option, ◌≡◌, refl, ◌∙◌, is_zero, Bool, true, false,
}

-- The answers, by the kind of value that a call returns. They may depend on all earlier calls.
pub record Env : Type 0 where
  pub ptr : Trace → Call → ℕ  -- a pointer or handle, 0 for NULL; also sizes and plain numbers
  pub int : Trace → Call → ℤ  -- a C int
  pub bytes : Trace → Call → List ℕ  -- what `read` leaves in its buffer
  -- A list of numbers: the addresses of `getaddrinfo`, the devices, the descriptors that are ready.
  pub addrs : Trace → Call → List ℕ
  pub wcs : Trace → Call → Option (List Wc)  -- what `ibv_poll_cq` writes; none is a negative count
  pub port : Trace → Call → PortAttr  -- what `ibv_query_port` writes
  pub time : Trace → Call → Timeval  -- what `gettimeofday` writes

pub data Outcome {ℓ} (A : Type ℓ) : Type ℓ where
  done : A → Trace → Outcome A
  fail : Trace → Outcome A

abbrev pub M {ℓ} : Type ℓ → Type ℓ
M A = Trace → Outcome A

infixl 5 ◌>>=◌ ◌>>◌
abbrev pub ◌>>=◌ {ℓ κ} : {A : Type ℓ} {B : Type κ} → M A → (A → M B) → M B
◌>>=◌ m f t = elim (m t) [ done a t' ↦ f a t' | fail t' ↦ fail t' ]

abbrev pub ◌>>◌ {ℓ κ} : {A : Type ℓ} {B : Type κ} → M A → M B → M B
◌>>◌ m k = m >>= λ _. k

abbrev pub ret {ℓ} : {A : Type ℓ} → A → M A
ret a t = done a t

-- C's truth of a pointer: `if (!p)`.
abbrev pub is_null : ℕ → Bool
is_null zero = true
is_null (suc p) = false

-- `return NULL` or `return 1`.
abbrev pub give_up {ℓ} : {A : Type ℓ} → M A
give_up t = fail t

-- `if (b) return 1`.
abbrev pub refuse_if : Bool → M (Unit {0})
refuse_if true t = fail t
refuse_if false t = done tt t

module _ (e : Env) where
  -- A call whose result is not tested.
  abbrev pub ask_ptr : Call → M ℕ
  ask_ptr c t = done (e.ptr t c) (Event.ptr c (e.ptr t c) ∷ t)

  abbrev pub ask_int : Call → M ℤ
  ask_int c t = done (e.int t c) (Event.int c (e.int t c) ∷ t)

  -- A call whose result is dropped.
  abbrev pub tell : Call → M (Unit {0})
  tell c t = done tt (told c ∷ t)

  -- `p = call(); if (!p) return NULL;`
  abbrev pub need : Call → M ℕ
  need c t = elim (e.ptr t c) [
    | zero ↦ fail (Event.ptr c 0 ∷ t)
    | suc n ↦ done (suc n) (Event.ptr c (suc n) ∷ t)
  ]

  -- `if (call()) return 1;`
  abbrev pub check : Call → M (Unit {0})
  check c t = elim (is_zero (e.int t c)) [
    | true ↦ done tt (Event.int c (e.int t c) ∷ t)
    | false ↦ fail (Event.int c (e.int t c) ∷ t)
  ]

-- Inversion of a run that returns a value, for proofs where the parts stay shut.
pub >>=-eq-done {ℓ κ} :
    {A : Type ℓ} {B : Type κ} (m : M A) (f : A → M B) (t : Trace) {b : B} {u : Trace}
    → (m >>= f) t ≡ done b u
    → (a : A) × (s : Trace) × (m t ≡ done a s) × (f a s ≡ done b u)
>>=-eq-done {A} {B} m f t {b} {u} h = go (m t) refl h
  where
    go :
        (o : Outcome A)
        → m t ≡ o
        → (elim o [ done a t' ↦ f a t' | fail t' ↦ fail t' ]) ≡ done b u
        → (a : A) × (s : Trace) × (m t ≡ done a s) × (f a s ≡ done b u)
    go (done a s) p q = (a, s, p, q)
    go (fail s) p q = cc

-- Running a bind whose first part returns.
pub bind_done {ℓ κ} :
    {A : Type ℓ} {B : Type κ} (m : M A) (f : A → M B) (t : Trace) {a : A} {s : Trace}
    {o : Outcome B}
    → m t ≡ done a s
    → f a s ≡ o
    → (m >>= f) t ≡ o
bind_done m f t h p = (λ i. elim (h i) [ done a t' ↦ f a t' | fail t' ↦ fail t' ]) ∙ p
