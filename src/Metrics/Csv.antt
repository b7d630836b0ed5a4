-- ===== src/Metrics/Csv.antt =====
-- `createCSV`: when all its reads are inside the array.
use network_infiniband_works.Base.{
  ℕ, zero, suc, ◌+◌, ◌-◌, ◌*◌, ◌%◌, ◌/◌, ◌<◌, ◌≤◌, List, [], ◌∷◌, none, some, ltb, ◌≡◌, ◌≢◌, refl,
  sym, ap, ◌∙◌, arith, length, get_elem?, true, false, Bool-cases, inl, inr,
}
use network_infiniband_works.Metrics.{Row, read_row, csv_rows, create_csv}

module _ {ℓ} {A : Type ℓ} where
  get_in : (r : List A) (i : ℕ) → i < length r → (a : A) × (get_elem? r i ≡ some a)
  get_in [] i h = absurd (omega arith)
  get_in (x ∷ r) zero h = (x, refl)
  get_in (x ∷ r) (suc i) h = get_in r i (omega arith)

  get_out : (r : List A) (i : ℕ) → length r ≤ i → get_elem? r i ≡ none
  get_out [] i h = refl
  get_out (x ∷ r) zero h = absurd (omega arith)
  get_out (x ∷ r) (suc i) h = get_out r i (omega arith)

  read_row_in : (r : List A) (i : ℕ) → i + 6 ≤ length r → (row : Row A) × (read_row r i ≡ some row)
  unfolding read_row
  read_row_in r i h =
      let (a, p) = get_in r i (omega arith) in
      let (b, q) = get_in r (i + 1) (omega arith) in
      let (c, s) = get_in r (i + 2) (omega arith) in
      let (d, t) = get_in r (i + 3) (omega arith) in
      let (x, u) = get_in r (i + 4) (omega arith) in
      let (y, v) = get_in r (i + 5) (omega arith) in
      (
        record {
          rtt = a;
          throughput = b;
          packet_rate = c;
          num_of_sockets = d;
          msg_size = x;
          total_num_of_msg = y;
        },
        rw (p, q, s, t, u, v) refl,
      )

  read_row_out : (r : List A) (i : ℕ) → length r < i + 6 → read_row r i ≡ none
  unfolding read_row
  read_row_out r i h =
      let e : get_elem? r (i + 5) ≡ none = get_out r (i + 5) (omega arith) in ground (arith, e)

  csv_rows_in :
      (fuel i q : ℕ) (r : List A)
      → length r ≡ i + 6 * q
      → q ≤ fuel
      → (rows : List (Row A)) × (csv_rows fuel r i (length r) ≡ some rows)
        × (length rows ≡ q)
        × ((k : ℕ) → k < q → get_elem? rows k ≡ read_row r (i + 6 * k))
  unfolding csv_rows
  csv_rows_in zero i q r e h = ([], refl, omega arith, λ k l. absurd (omega arith))
  csv_rows_in (suc fuel) i zero r e h =
      let stop : ltb i (length r) ≡ false = ground arith in
      ([], rw (stop, csv_rows) refl, refl, λ k l. absurd (omega arith))
  csv_rows_in (suc fuel) i (suc q) r e h =
      let more : ltb i (length r) ≡ true = ground arith in
      let (row, p) = read_row_in r i (omega arith) in
      let (rows, s, l, c) = csv_rows_in fuel (i + 6) q r (omega arith) (omega arith) in
      (
        row ∷ rows,
        rw (more, csv_rows) (rw p (rw s refl)),
        ap suc l,
        λ k. elim k as (λ k'. k' < suc q → get_elem? (row ∷ rows) k' ≡ read_row r (i + 6 * k')) [
          | zero ↦ λ _. sym p ∙ ap (read_row r) (omega arith)
          | suc k' ↦ λ b. c k' (omega arith) ∙ ap (read_row r) (omega arith)
        ],
      )

  csv_rows_out :
      (fuel i : ℕ) (r : List A)
      → i ≤ length r
      → length r < i + 6 * fuel
      → (length r - i) % 6 ≢ 0
      → csv_rows fuel r i (length r) ≡ none
  unfolding csv_rows
  csv_rows_out zero i r within enough h = absurd (omega arith)
  csv_rows_out (suc fuel) i r within enough h =
      let more : ltb i (length r) ≡ true = ground arith in
      elim (Bool-cases (ltb (length r) (i + 6))) [
        | inl last ↦ rw (more, csv_rows) (rw (read_row_out r i (ground arith)) refl)
        | inr not_last ↦
            let fits : i + 6 ≤ length r = ground arith in
            let (row, p) = read_row_in r i fits in
            let rest : csv_rows fuel r (i + 6) (length r) ≡ none =
              csv_rows_out fuel (i + 6) r fits (omega arith) (omega arith) in
            rw (more, csv_rows) (rw p (rw rest refl))
      ]

  -- `createCSV` on a whole array of results that is a number of whole rows: the file has a line for
  -- each row, in order.
  pub create_csv_rows :
      (r : List A) (k : ℕ)
      → length r % 6 ≡ 0
      → 6 * k < length r
      → (rows : List (Row A)) × (create_csv r (length r) ≡ some rows)
        × (6 * length rows ≡ length r)
        × (get_elem? rows k ≡ read_row r (6 * k))
  unfolding create_csv
  create_csv_rows r k h b =
      let (rows, s, l, c) = csv_rows_in (length r) 0 (length r / 6) r (omega arith) (omega arith) in
      (rows, s, omega (arith, l), c k (omega arith) ∙ ap (read_row r) (omega arith))

  -- `createCSV` on a whole array of results that is not a number of whole rows reads behind the end
  -- of the array.
  pub create_csv_overrun : (r : List A) → length r % 6 ≢ 0 → create_csv r (length r) ≡ none
  unfolding create_csv
  create_csv_overrun r h = csv_rows_out (length r) 0 r (omega arith) (positive h) (omega arith)
    where
      positive : length r % 6 ≢ 0 → length r < 0 + 6 * length r
      positive h = omega arith
