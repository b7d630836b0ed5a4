-- ===== src/Tests/Rows.antt =====
-- The array of results at concrete inputs.
use network_infiniband_works.Base.{
  ℕ, ◌*◌, ◌≡◌, refl, List, [], ◌∷◌, some, length, get_elem?, replicate, arith,
}
use network_infiniband_works.Metrics.{Row, save_rows, read_row, create_csv}
use network_infiniband_works.Metrics.Rows.{save_rows_fit}
use network_infiniband_works.Metrics.Csv.{create_csv_rows}

-- The metrics.
abbrev row : Row ℕ
row = record {
  rtt = 1;
  throughput = 2;
  packet_rate = 3;
  num_of_sockets = 4;
  msg_size = 5;
  total_num_of_msg = 6;
}

save_rows_fit_example :
    (final : List ℕ) × (save_rows (replicate 13 0) 0 (row ∷ row ∷ []) ≡ some (final, 6 * 2))
    × (length final ≡ 13)
    × (read_row final (6 * 1) ≡ some row)
save_rows_fit_example = save_rows_fit (replicate 13 0) (row ∷ row ∷ []) 1 row (omega arith) refl

create_csv_rows_example :
    (rows : List (Row ℕ)) × (create_csv (replicate 12 7) 12 ≡ some rows)
    × (6 * length rows ≡ 12)
    × (get_elem? rows 1 ≡ read_row (replicate 12 7) (6 * 1))
create_csv_rows_example = create_csv_rows (replicate 12 7) 1 refl (omega arith)

-- The call of `main`, with its array of 1000 results.
