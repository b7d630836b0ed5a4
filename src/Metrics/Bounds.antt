-- ===== src/Metrics/Bounds.antt =====
-- Which stores and reads of the results stay inside the array.
use native.Mathlib.Numerals.{towards_suc}
use network_infiniband_works.Base.{
  ℕ, zero, suc, ◌+◌, ◌<◌, ◌≤◌, List, [], ◌∷◌, none, some, ltb, ◌≡◌, ◌⊎◌, inl, refl, ◌∙◌, arith,
  length, get_elem?, set, length-set, true, false, get_elem?-set_ne,
}
use network_infiniband_works.Metrics.{Row, store, save_results, read_row}

module _ {ℓ} {A : Type ℓ} where
  store_in :
      (results : List A) (n i : ℕ) (v : A)
      → length results ≡ n
      → i < n
      → store results i v ≡ some (set results i v)
  store_in results n i v e h = let t : ltb i (length results) ≡ true = ground arith in rw t refl

  store_out : (results : List A) (i : ℕ) (v : A) → length results ≤ i → store results i v ≡ none
  store_out results i v h = let e : ltb i (length results) ≡ false = ground arith in rw e refl

  -- The array after `saveResults`.
  abbrev pub saved : List A → ℕ → Row A → List A
  saved r i row =
      set
        (set
          (set (set (set (set r i row.rtt) (i + 1) row.throughput) (i + 2) row.packet_rate) (i + 3)
            row.num_of_sockets)
          (i + 4) row.msg_size)
        (i + 5) row.total_num_of_msg

  pub length-saved : (r : List A) (i : ℕ) (row : Row A) → length (saved r i row) ≡ length r
  length-saved r i row = simp length-set

  -- No store changes the length.
  abbrev Lengths : List A → ℕ → Row A → Type 0
  Lengths r i row =
      let s1 = set r i row.rtt in
      let s2 = set s1 (i + 1) row.throughput in
      let s3 = set s2 (i + 2) row.packet_rate in
      let s4 = set s3 (i + 3) row.num_of_sockets in
      let s5 = set s4 (i + 4) row.msg_size in
      (length s1 ≡ length r)
      × (length s2 ≡ length r)
      × (length s3 ≡ length r)
      × (length s4 ≡ length r)
      × (length s5 ≡ length r)

  lengths : (r : List A) (i : ℕ) (row : Row A) → Lengths r i row
  lengths r i row =
      (simp length-set, simp length-set, simp length-set, simp length-set, simp length-set)

  pub save_results_in :
      (r : List A) (i : ℕ) (row : Row A)
      → i + 6 ≤ length r
      → save_results r i row ≡ some (saved r i row, i + 6)
  unfolding save_results
  save_results_in r i row h =
      let l = lengths r i row in
      rw
        (
          store_in r (length r) i row.rtt refl (omega arith),
          store_in _ (length r) (i + 1) row.throughput l.0 (omega arith),
          store_in _ (length r) (i + 2) row.packet_rate l.1 (omega arith),
          store_in _ (length r) (i + 3) row.num_of_sockets l.2 (omega arith),
          store_in _ (length r) (i + 4) row.msg_size l.3 (omega arith),
          store_in _ (length r) (i + 5) row.total_num_of_msg l.4 (omega arith),
        )
        refl

  -- Where the sixth store is behind the end, `saveResults` does not go through.
  pub save_results_out :
      (r : List A) (i : ℕ) (row : Row A) → length r < i + 6 → save_results r i row ≡ none
  unfolding save_results
  save_results_out r i row h = let l = lengths r i row in ground (arith, l)

  saved-cons :
      (x : A) (r : List A) (i : ℕ) (row : Row A) → saved (x ∷ r) (suc i) row ≡ x ∷ saved r i row
  saved-cons x r i row = simp towards_suc

  read_row-cons : (x : A) (r : List A) (i : ℕ) → read_row (x ∷ r) (suc i) ≡ read_row r i
  unfolding read_row
  read_row-cons x r i = simp towards_suc

  -- A row that was saved is the row that is read.
  pub read_row-saved :
      (r : List A) (i : ℕ) (row : Row A) → i + 6 ≤ length r → read_row (saved r i row) i ≡ some row
  unfolding read_row
  read_row-saved [] i row h = absurd (omega arith)
  read_row-saved (a ∷ b ∷ c ∷ d ∷ x ∷ y ∷ r) zero row h = refl
  read_row-saved (a ∷ r) (suc i) row h =
      rw saved-cons (read_row-cons a (saved r i row) i ∙ read_row-saved r i row (omega arith))
  read_row-saved r zero row h = absurd (omega arith)

  -- An element that is not among the six stays.
  get_elem?-saved :
      (r : List A) (i j : ℕ) (row : Row A)
      → (j < i) ⊎ (i + 6 ≤ j)
      → get_elem? (saved r i row) j ≡ get_elem? r j
  get_elem?-saved r i j row h =
      get_elem?-set_ne _ {i = i + 5} {j = j} row.total_num_of_msg (omega arith)
      ∙ get_elem?-set_ne _ {i = i + 4} {j = j} row.msg_size (omega arith)
      ∙ get_elem?-set_ne _ {i = i + 3} {j = j} row.num_of_sockets (omega arith)
      ∙ get_elem?-set_ne _ {i = i + 2} {j = j} row.packet_rate (omega arith)
      ∙ get_elem?-set_ne _ {i = i + 1} {j = j} row.throughput (omega arith)
      ∙ get_elem?-set_ne _ {i = i} {j = j} row.rtt (omega arith)

  pub read_row_other :
      (r : List A) (i j : ℕ) (row : Row A) → j + 6 ≤ i → read_row (saved r i row) j ≡ read_row r j
  unfolding read_row
  read_row_other r i j row h =
      rw
        (
          get_elem?-saved r i j row (inl (omega arith)),
          get_elem?-saved r i (j + 1) row (inl (omega arith)),
          get_elem?-saved r i (j + 2) row (inl (omega arith)),
          get_elem?-saved r i (j + 3) row (inl (omega arith)),
          get_elem?-saved r i (j + 4) row (inl (omega arith)),
          get_elem?-saved r i (j + 5) row (inl (omega arith)),
        )
        refl
