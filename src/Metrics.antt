-- ===== src/Metrics.antt =====
-- MetricsIBV.c: the measures, and the array of results from which the CSV file is written. The
-- doubles are a parameter, with the operations that the code uses on them.
pub mod Bounds
pub mod Rows
pub mod Csv
use network_infiniband_works.Base.{
  ℕ, zero, suc, ℤ, sub_ℕ, ◌+◌, ◌*◌, ◌%◌, ◌^◌, true, false, List, [], ◌∷◌, Option, none, some, ltb,
  if◌then◌else◌, length, get_elem?, set, Bool,
}
use network_infiniband_works.Platform.{Timeval}

pub record Double : Type 1 where
  pub D : Type 0
  pub of_ℕ : ℕ → D
  pub of_ℤ : ℤ → D
  pub add : D → D → D
  pub mul : D → D → D
  pub div : D → D → D
  pub negate : D → D
  pub less : D → D → Bool

module _ (d : Double) where
  open d use {D, of_ℕ, of_ℤ, add, mul, div, negate, less}

  unfoldable pub calc_average_rtt : (num_of_sockets num_of_messages : ℕ) → D → D
  calc_average_rtt num_of_sockets num_of_messages total_time =
      div (div total_time (of_ℕ num_of_messages)) (of_ℕ num_of_sockets)

  -- SEC_TO_MICRO is `pow(10, 6)`. The differences are taken in integers.
  unfoldable pub time_difference : Timeval → Timeval → D
  time_difference time1 time2 =
      let res =
        add (mul (of_ℤ (sub_ℕ time2.tv_sec time1.tv_sec)) (of_ℕ 1000000))
          (of_ℤ (sub_ℕ time2.tv_usec time1.tv_usec)) in
      if less res (of_ℕ 0) then mul (negate (of_ℕ 1)) res else res

  -- BIT_TO_MBIT and MICRO_TO_SEC, both `pow(10, -6)`.
  abbrev micro : D
  micro = div (of_ℕ 1) (of_ℕ 1000000)

  -- The product of the three integers is a size_t, 64 bits.
  unfoldable pub calc_average_throughput : (num_of_messages message_size : ℕ) → D → D
  calc_average_throughput num_of_messages message_size total_time =
      div (mul (of_ℕ (2 * 8 * num_of_messages * message_size % 2 ^ 64)) micro)
        (mul total_time micro)

  unfoldable pub calc_average_packet_rate : ℕ → D → D
  calc_average_packet_rate num_of_messages total_time =
      div (mul (of_ℕ 2) (of_ℕ num_of_messages)) (mul total_time micro)

-- One line of the results, in the order of `saveResults`.
pub record Row {ℓ} (A : Type ℓ) : Type ℓ where
  pub rtt : A
  pub throughput : A
  pub packet_rate : A
  pub num_of_sockets : A
  pub msg_size : A
  pub total_num_of_msg : A

infixl 5 ◌>>=◌
abbrev pub ◌>>=◌ {ℓ κ} : {B : Type ℓ} {C : Type κ} → Option B → (B → Option C) → Option C
none >>= f = none
some b >>= f = f b

module _ {ℓ} {A : Type ℓ} where
  -- A store into an array; none is one behind its end.
  abbrev pub store : List A → ℕ → A → Option (List A)
  store results i v = if ltb i (length results) then some (set results i v) else none

  unfoldable pub save_results : List A → ℕ → Row A → Option (List A × ℕ)
  save_results results i row = do
    r0 ← store results i row.rtt
    r1 ← store r0 (i + 1) row.throughput
    r2 ← store r1 (i + 2) row.packet_rate
    r3 ← store r2 (i + 3) row.num_of_sockets
    r4 ← store r3 (i + 4) row.msg_size
    r5 ← store r4 (i + 5) row.total_num_of_msg
    some (r5, i + 6)

  -- The calls of `saveResults` that a program makes, one for each row that it measures.
  pub save_rows : List A → ℕ → List (Row A) → Option (List A × ℕ)
  unfolding save_results
  save_rows results i [] = some (results, i)
  save_rows results i (row ∷ rows) = save_results results i row >>= λ (r, j). save_rows r j rows

  -- The values that one round of the loop of `createCSV` reads: none is a read behind the end.
  unfoldable pub read_row : List A → ℕ → Option (Row A)
  read_row results i = do
    rtt ← get_elem? results i
    throughput ← get_elem? results (i + 1)
    packet_rate ← get_elem? results (i + 2)
    num_of_sockets ← get_elem? results (i + 3)
    msg_size ← get_elem? results (i + 4)
    total ← get_elem? results (i + 5)
    some (record {
      rtt = rtt;
      throughput = throughput;
      packet_rate = packet_rate;
      num_of_sockets = num_of_sockets;
      msg_size = msg_size;
      total_num_of_msg = total;
    })

  -- `for (i = 0; i < n; i += 6)`, with `fuel` rounds at most: the rows of the file.
  pub csv_rows : (fuel : ℕ) → List A → (i n : ℕ) → Option (List (Row A))
  csv_rows zero results i n = some []
  csv_rows (suc fuel) results i n = elim (ltb i n) [
    | false ↦ some []
    | true ↦
        read_row results i >>= λ row. csv_rows fuel results (i + 6) n >>= λ rows. some (row ∷ rows)
  ]

  -- `n` rounds are enough, since `i` grows in each.
  unfoldable pub create_csv : List A → ℕ → Option (List (Row A))
  unfolding csv_rows
  create_csv results n = csv_rows n results 0 n
