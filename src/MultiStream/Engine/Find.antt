-- ===== src/MultiStream/Engine/Find.antt =====
-- The queue pair that a completion is counted for.
use network_infiniband_works.Base.{
  ℕ, suc, ◌+◌, ◌≡◌, sym, ap, ◌∙◌, arith, List, [], ◌∷◌, some, true, ◌==◌, get_elem?, Bool-cases,
  inl, inr,
}
use network_infiniband_works.Platform.{Env, Trace, done, qp_num}
use network_infiniband_works.MultiStream.Context.{StreamContext}
use network_infiniband_works.MultiStream.Engine.{Place, find_qp}

module _ (e : Env) (ctx : StreamContext) where
  same_place : {p q : Place} {t u : Trace} → done p t ≡ done q u → (q ≡ p) × (u ≡ t)
  same_place h = (cc, cc)

  find_from :
      (num : ℕ) (qps : List ℕ) (i : ℕ) (t u : Trace) (p : Place)
      → find_qp e ctx num qps i t ≡ done p u
      → (k : ℕ) × (p.index ≡ i + k)
        × (get_elem? qps k ≡ some p.qp)
        × ((num == e.ptr t (qp_num p.qp)) ≡ true)
        × (u ≡ t)
  unfolding find_qp
  find_from num [] i t u p h = absurd cc
  find_from num (q ∷ qps) i t u p h = elim (Bool-cases (num == e.ptr t (qp_num q))) [
    | inl found ↦
        let same = same_place (rw (found, find_qp) at h) in
        (
          0,
          ap (λ x. x.index) same.0 ∙ omega arith,
          sym (ap (λ x. some x.qp) same.0),
          ap (λ x. num == e.ptr t (qp_num x.qp)) same.0 ∙ found,
          same.1,
        )
    | inr other ↦
        let (k, a, b, c, d) = find_from num qps (i + 1) t u p (rw (other, find_qp) at h) in
        (suc k, omega (arith, a), b, c, d)
  ]

  -- The place that the search of the completion loop finds in a list of queue pairs is the index of
  -- a queue pair of the list, with that queue pair, whose number is the one searched for; the search
  -- makes no call.
  pub find_qp-eq-done :
      (num : ℕ) (qps : List ℕ) (t u : Trace) (p : Place)
      → find_qp e ctx num qps 0 t ≡ done p u
      → (get_elem? qps p.index ≡ some p.qp) × ((num == e.ptr t (qp_num p.qp)) ≡ true) × (u ≡ t)
  find_qp-eq-done num qps t u p h =
      let (k, a, b, c, d) = find_from num qps 0 t u p h in
      (ap (get_elem? qps) (a ∙ omega arith) ∙ b, c, d)
