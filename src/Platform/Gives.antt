-- ===== src/Platform/Gives.antt =====
-- Rules for the value that a run returns. They follow the binds of a `do` block.
use network_infiniband_works.Base.{◌≡◌}
use network_infiniband_works.Platform.Events.{Trace}
use network_infiniband_works.Platform.Monad.{M, done, ◌>>=◌, ◌>>◌, ret, >>=-eq-done}

-- A value that the run returns is in `Q`.
pub record Gives {ℓ κ} {A : Type ℓ} (m : M A) (Q : A → Type κ) : Type (ℓ ⊔ κ) where
  pub runs : (t u : Trace) (a : A) → m t ≡ done a u → Q a

pub Gives-ret {ℓ κ} : {A : Type ℓ} {Q : A → Type κ} (a : A) → Q a → Gives (ret a) Q
Gives-ret a q = record { runs = λ t u b h. let same : a ≡ b = cc in rw (← same) q }

pub Gives-bind {ℓ κ ι} :
    {A : Type ℓ} {B : Type κ} (m : M A) (f : A → M B) {P : A → Type ι} {Q : B → Type ι}
    → Gives m P
    → ((a : A) → P a → Gives (f a) Q)
    → Gives (m >>= f) Q
Gives-bind m f first next = record {
  runs = λ t u b h.
      let (a, s, p, q) = >>=-eq-done m f t h in (next a (first.runs t s a p)).runs s u b q;
}

-- The same where nothing has to be known of the first value.
pub Gives-after {ℓ κ ι} :
    {A : Type ℓ} {B : Type κ} (m : M A) (f : A → M B) {Q : B → Type ι}
    → ((a : A) → Gives (f a) Q)
    → Gives (m >>= f) Q
Gives-after m f next = record {
  runs = λ t u b h. let (a, s, p, q) = >>=-eq-done m f t h in (next a).runs s u b q;
}

-- Behind a part whose result is dropped.
pub Gives-then {ℓ κ ι} :
    {A : Type ℓ} {B : Type κ} (m : M A) (k : M B) {Q : B → Type ι} → Gives k Q → Gives (m >> k) Q
Gives-then m k next = Gives-after m (λ a. k) (λ a. next)
