-- ===== src/MultiStream/Context/Buffers.antt =====
-- The parts of the buffer that the queue pairs of a context send from and receive into.
use network_infiniband_works.Base.{
  mul_pred, quotient_lem, ℕ, zero, suc, ◌+◌, ◌-◌, ◌*◌, ◌/◌, ◌%◌, ◌<◌, ◌≤◌, ◌≡◌, ◌≢◌, refl, arith,
  replicate, get_or,
}
use network_infiniband_works.MultiStream.Context.{StreamContext, size_per_qp, qp_size, buf_offset}

get_or-replicate : (n i a : ℕ) → i < n → get_or (replicate n a) i 0 ≡ a
get_or-replicate zero i a h = absurd (omega arith)
get_or-replicate (suc n) zero a h = refl
get_or-replicate (suc n) (suc i) a h = get_or-replicate n i a (omega arith)

mul_le : (r i n : ℕ) → i ≤ n → r * i ≤ r * n
mul_le r i n h = grind arith

-- The sizes that `pp_init_ctx` computes.
size_first : (size n : ℕ) → get_or (size_per_qp size n) 0 0 ≡ size - size / n * (n - 1)
unfolding size_per_qp
size_first size n = refl

size_other : (size n i : ℕ) → suc i < n → get_or (size_per_qp size n) (suc i) 0 ≡ size / n
unfolding size_per_qp
size_other size n i h = get_or-replicate (n - 1) i (size / n) (omega arith)

-- The part of the buffer of each queue pair lies within the buffer that `pp_init_ctx` registers,
-- where the sizes are those that it computes.
pub qp_buffers_in_bounds :
    (ctx : StreamContext) (i : ℕ)
    → ctx.size_per_qp ≡ size_per_qp ctx.size ctx.peer_num
    → i < ctx.peer_num
    → buf_offset ctx i + qp_size ctx i ≤ ctx.size
unfolding buf_offset
qp_buffers_in_bounds ctx zero sizes h = rw (sizes, size_first ctx.size ctx.peer_num) (omega arith)
qp_buffers_in_bounds ctx (suc i) sizes h =
    let r = ctx.size / ctx.peer_num in
    let up = mul_le r (suc i + 1) ctx.peer_num (omega arith) in
    let whole = quotient_lem ctx.size ctx.peer_num in
    let one_more = mul_pred r (suc i + 1) (omega arith) in
    rw (sizes, size_other ctx.size ctx.peer_num i h) (omega (arith, up, whole, one_more))

-- Where the sizes are those that `pp_init_ctx` computes and the number of queue pairs divides the
-- size of the buffer, the part of a queue pair ends before that of each later one begins.
pub qp_buffers_disjoint :
    (ctx : StreamContext) (i j : ℕ)
    → ctx.size_per_qp ≡ size_per_qp ctx.size ctx.peer_num
    → ctx.size % ctx.peer_num ≡ 0
    → i < j
    → j < ctx.peer_num
    → buf_offset ctx i + qp_size ctx i ≤ buf_offset ctx j
unfolding buf_offset
qp_buffers_disjoint ctx i zero sizes even h l = absurd (omega arith)
qp_buffers_disjoint ctx zero (suc j) sizes even h l =
    let r = ctx.size / ctx.peer_num in
    let whole = quotient_lem ctx.size ctx.peer_num in
    let one_less = mul_pred r ctx.peer_num (omega arith) in
    let up = mul_le r 1 (suc j) (omega arith) in
    rw (sizes, size_first ctx.size ctx.peer_num, size_other ctx.size ctx.peer_num j l)
      (omega (arith, whole, one_less, up))
qp_buffers_disjoint ctx (suc i) (suc j) sizes even h l =
    let r = ctx.size / ctx.peer_num in
    let up = mul_le r (suc i + 1) (suc j) (omega arith) in
    let one_more = mul_pred r (suc i + 1) (omega arith) in
    rw
      (
        sizes,
        size_other ctx.size ctx.peer_num i (omega arith),
        size_other ctx.size ctx.peer_num j l,
      )
      (omega (arith, up, one_more))

-- Where the sizes are those that `pp_init_ctx` computes and the number of queue pairs, two or more,
-- does not divide the size of the buffer, the part of the second queue pair begins within that of
-- the first.
pub qp_buffers_overlap :
    (ctx : StreamContext)
    → ctx.size_per_qp ≡ size_per_qp ctx.size ctx.peer_num
    → 2 ≤ ctx.peer_num
    → ctx.size % ctx.peer_num ≢ 0
    → buf_offset ctx 1 < buf_offset ctx 0 + qp_size ctx 0
unfolding buf_offset
qp_buffers_overlap ctx sizes several uneven =
    let r = ctx.size / ctx.peer_num in
    let whole = quotient_lem ctx.size ctx.peer_num in
    let one_less = mul_pred r ctx.peer_num (omega arith) in
    rw (sizes, size_first ctx.size ctx.peer_num, size_other ctx.size ctx.peer_num 0 (omega arith))
      (omega (arith, whole, one_less))
