-- ===== src/Metrics/Rows.antt =====
-- The rows of the CSV file are the rows that were saved.
use network_infiniband_works.Base.{
  ℕ, zero, suc, ◌+◌, ◌*◌, ◌<◌, ◌≤◌, List, [], ◌∷◌, none, some, ltb, ◌≡◌, inl, inr, refl, ap, ◌∙◌,
  arith, length, get_elem?, Bool-cases,
}
use network_infiniband_works.Metrics.{Row, save_rows, read_row}
use network_infiniband_works.Metrics.Bounds.{
  saved, length-saved, save_results_in, save_results_out, read_row-saved, read_row_other,
}

module _ {ℓ} {A : Type ℓ} where
  -- What saving some rows from index `i` on leaves in the array.
  record Saved (r : List A) (i : ℕ) (rows : List (Row A)) : Type ℓ where
    final : List A
    saves : save_rows r i rows ≡ some (final, i + 6 * length rows)
    same_length : length final ≡ length r
    new :
        (k : ℕ) (row : Row A) → get_elem? rows k ≡ some row → read_row final (i + 6 * k) ≡ some row
    old : (j : ℕ) → j + 6 ≤ i → read_row final j ≡ read_row r j

  save_rows_in :
      (rows : List (Row A)) (r : List A) (i : ℕ) → i + 6 * length rows ≤ length r → Saved r i rows
  unfolding save_rows
  save_rows_in [] r i h = record {
    final = r;
    saves = ap (λ n. some (r, n)) (omega arith);
    same_length = refl;
    new = λ k row e. cc;
    old = λ j e. refl;
  }
  save_rows_in (row ∷ rows) r i h =
      let s = saved r i row in
      let l = length-saved r i row in
      let rec = save_rows_in rows s (i + 6) (omega (arith, l)) in
      record {
        final = rec.final;
        saves =
            rw (save_results_in r i row (omega arith))
              (rec.saves ∙ ap (λ n. some (rec.final, n)) (omega arith));
        same_length = rec.same_length ∙ l;
        new = λ k.
            elim k
              as (λ k'.
                (row' : Row A)
                → get_elem? (row ∷ rows) k' ≡ some row'
                → read_row rec.final (i + 6 * k') ≡ some row') [
                  | zero ↦ λ row' e.
                      ap (read_row rec.final) (omega arith)
                      ∙ rec.old i (omega arith)
                      ∙ read_row-saved r i row (omega arith)
                      ∙ e
                  | suc k' ↦ λ row' e. ap (read_row rec.final) (omega arith) ∙ rec.new k' row' e
                ];
        old = λ j e. rec.old j (omega arith) ∙ read_row_other r i j row e;
      }

  save_rows_out :
      (rows : List (Row A)) (r : List A) (i : ℕ)
      → i ≤ length r
      → length r < i + 6 * length rows
      → save_rows r i rows ≡ none
  unfolding save_rows
  save_rows_out [] r i within h = absurd (omega arith)
  save_rows_out (row ∷ rows) r i within h = elim (Bool-cases (ltb (length r) (i + 6))) [
    | inl full ↦ rw (save_results_out r i row (ground arith)) refl
    | inr room ↦ rw (save_results_in r i row (ground arith)) (
        save_rows_out rows (saved r i row) (i + 6) (ground (arith, length-saved r i row))
          (omega (arith, length-saved r i row)))
  ]

  -- Rows that fit are stored in an array of the same length.
  pub save_rows_kept :
      (r : List A) (rows : List (Row A))
      → 6 * length rows ≤ length r
      → (final : List A) × (j : ℕ) × (save_rows r 0 rows ≡ some (final, j))
        × (length final ≡ length r)
  save_rows_kept r rows fits =
      let s = save_rows_in rows r 0 (omega arith) in
      (s.final, 0 + 6 * length rows, s.saves, s.same_length)

  -- Rows of six results each fit into an array of results with room for all of them. Then row k
  -- stands at index 6 · k, where `createCSV` reads it, and the array keeps its length.
  pub save_rows_fit :
      (r : List A) (rows : List (Row A)) (k : ℕ) (row : Row A)
      → 6 * length rows ≤ length r
      → get_elem? rows k ≡ some row
      → (final : List A) × (save_rows r 0 rows ≡ some (final, 6 * length rows))
        × (length final ≡ length r)
        × (read_row final (6 * k) ≡ some row)
  save_rows_fit r rows k row h at_k =
      let s = save_rows_in rows r 0 (omega arith) in
      (
        s.final,
        s.saves ∙ ap (λ n. some (s.final, n)) (omega arith),
        s.same_length,
        ap (read_row s.final) (omega arith) ∙ s.new k row at_k,
      )

  -- Where the array has no room for six results of each row, one of the stores goes behind its
  -- end, whatever the results are.
  pub save_rows_overflow :
      (r : List A) (rows : List (Row A)) → length r < 6 * length rows → save_rows r 0 rows ≡ none
  save_rows_overflow r rows h = save_rows_out rows r 0 (omega arith) (omega arith)

  -- The same for rows that are not looked at.
  pub save_rows_in_room :
      (r : List A) (rows : List (Row A))
      → 6 * length rows ≤ length r
      → (final : List A) × (save_rows r 0 rows ≡ some (final, 6 * length rows))
  save_rows_in_room r rows h =
      let s = save_rows_in rows r 0 (omega arith) in
      (s.final, s.saves ∙ ap (λ n. some (s.final, n)) (omega arith))
