-- ===== src/Tcp/Rounds/Moves.antt =====
-- Which connections a run opens and closes: rules that follow the binds of a program.
use network_infiniband_works.Base.{
  ℕ, ◌+◌, ◌≡◌, refl, arith, ℤ, [], ◌∷◌, if◌then◌else◌, is_neg, Bool, true, false,
}
use network_infiniband_works.Platform.{
  Event, Trace, int, told, ptr, Env, M, done, ◌>>=◌, ret, give_up, ask_int, ask_ptr, tell, Call,
  socket_inet, close, >>=-eq-done,
}
use network_infiniband_works.Sockets.Open.{same_fd}

-- How often an event opens or closes descriptor `fd`.
abbrev pub opens : ℤ → Event → ℕ
opens fd (int socket_inet sd) = if is_neg sd then 0 else if same_fd sd fd then 1 else 0
opens fd _ = 0

abbrev pub shuts : ℤ → Event → ℕ
shuts fd (told (close sd)) = if same_fd sd fd then 1 else 0
shuts fd _ = 0

abbrev pub opened : ℤ → Trace → ℕ
opened fd [] = 0
opened fd (ev ∷ t) = opens fd ev + opened fd t

abbrev pub shut : ℤ → Trace → ℕ
shut fd [] = 0
shut fd (ev ∷ t) = shuts fd ev + shut fd t

-- Started with `n` connections on `fd`, a run that returns `a` holds a number of them that is in
-- `Q a`, by what it opens and closes.
pub record Moves {ℓ} (fd : ℤ) {A : Type ℓ} (m : M A) (n : ℕ) (Q : A → ℕ → Type 0) : Type ℓ where
  pub runs :
      (t u : Trace) (a : A)
      → m t ≡ done a u
      → (k : ℕ) × Q a k × (opened fd u + shut fd t + n ≡ shut fd u + opened fd t + k)

-- A run that holds at its end what it has held at its start.
abbrev pub Still {ℓ} : (fd : ℤ) {A : Type ℓ} → M A → Type ℓ
Still fd m = (n : ℕ) → Moves fd m n (λ a k. k ≡ n)

abbrev pub of_fd : ℤ → ℤ → ℕ
of_fd sd fd = if same_fd sd fd then 1 else 0

module _ (fd : ℤ) where
  pub Moves-ret {ℓ} :
      {A : Type ℓ} {Q : A → ℕ → Type 0} (a : A) (n : ℕ) → Q a n → Moves fd (ret a) n Q
  Moves-ret {Q = Q} a n q = record {
    runs = λ t u b h.
        let same : a ≡ b = cc in
        let over : t ≡ u = cc in (n, rw (← same) q, rw (← over) (omega arith));
  }

  pub Moves-give_up {ℓ} : {A : Type ℓ} {Q : A → ℕ → Type 0} (n : ℕ) → Moves fd (give_up {A = A}) n Q
  Moves-give_up n = record { runs = λ t u b h. absurd cc }

  pub Moves-bind {ℓ κ} :
      {A : Type ℓ} {B : Type κ} (m : M A) (f : A → M B) (n : ℕ) {P : A → ℕ → Type 0}
      {Q : B → ℕ → Type 0}
      → Moves fd m n P
      → ((a : A) (k : ℕ) → P a k → Moves fd (f a) k Q)
      → Moves fd (m >>= f) n Q
  Moves-bind m f n first next = record {
    runs = λ t u b h.
        let (a, s, p, q) = >>=-eq-done m f t h in
        let (k, pk, one) = first.runs t s a p in
        let (j, qj, two) = (next a k pk).runs s u b q in (j, qj, omega (arith, one, two));
  }

  -- What goes on behind a part that changes nothing.
  pub Moves-after {ℓ κ} :
      {A : Type ℓ} {B : Type κ} (m : M A) (f : A → M B) (n : ℕ) {Q : B → ℕ → Type 0}
      → Still fd m
      → ((a : A) → Moves fd (f a) n Q)
      → Moves fd (m >>= f) n Q
  Moves-after m f n {Q} first next = Moves-bind m f n (first n) (λ a k same. rw same (next a))

  pub Moves-if {ℓ} :
      {A : Type ℓ} (b : Bool) (m m' : M A) (n : ℕ) {Q : A → ℕ → Type 0}
      → (b ≡ true → Moves fd m n Q)
      → (b ≡ false → Moves fd m' n Q)
      → Moves fd (if b then m else m') n Q
  Moves-if true m m' n when_true when_false = when_true refl
  Moves-if false m m' n when_true when_false = when_false refl

  module _ (e : Env) where
    pub Still-ask_int : (c : Call) → ((r : ℤ) → opens fd (int c r) ≡ 0) → Still fd (ask_int e c)
    Still-ask_int c none_opened n = record {
      runs = λ t u b h.
          let over : int c (e.int t c) ∷ t ≡ u = cc in
          let k = none_opened (e.int t c) in (n, refl, rw (← over) (omega (arith, k)));
    }

    pub Still-ask_ptr : (c : Call) → Still fd (ask_ptr e c)
    Still-ask_ptr c n = record {
      runs = λ t u b h.
          let over : ptr c (e.ptr t c) ∷ t ≡ u = cc in (n, refl, rw (← over) (omega arith));
    }

    pub Moves-socket :
        (n : ℕ)
        → Moves fd
            (ask_int e socket_inet)
            n
            (λ sd k. k ≡ (if is_neg sd then 0 else of_fd sd fd) + n)
    Moves-socket n = record {
      runs = λ t u b h.
          let over : int socket_inet (e.int t socket_inet) ∷ t ≡ u = cc in
          let same : e.int t socket_inet ≡ b = cc in
          ((if is_neg b then 0 else of_fd b fd) + n, refl, rw (← over, ← same) (omega arith));
    }

    pub Moves-close :
        (sd : ℤ) (n k : ℕ) → k ≡ of_fd sd fd + n → Moves fd (tell e (close sd)) k (λ a j. j ≡ n)
    Moves-close sd n k held = record {
      runs = λ t u b h.
          let over : told (close sd) ∷ t ≡ u = cc in (n, refl, rw (← over) (omega (arith, held)));
    }
