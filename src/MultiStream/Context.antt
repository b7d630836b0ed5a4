-- ===== src/MultiStream/Context.antt =====
-- multistreamTestRunner.c: `struct pingpong_context`, `pp_init_ctx`, `pp_close_ctx` and the two
-- functions that post requests on one of its queue pairs.
pub mod Buffers
use network_infiniband_works.Base.{
  ℕ, zero, suc, ◌+◌, ◌-◌, ◌*◌, ◌/◌, List, [], ◌∷◌, Bool, true, false, if◌then◌else◌, replicate,
  get_or, is_zero,
}
use network_infiniband_works.Platform.{
  QpInitAttr, QpAttr, WorkRequest, int, Env, M, done, ◌>>=◌, ◌>>◌, ret, is_null, need, check, tell,
  ask_ptr, calloc, malloc, memset, open_device, create_comp_channel, alloc_pd, reg_mr, create_cq,
  create_qp, modify_qp, destroy_qp, destroy_cq, dereg_mr, dealloc_pd, destroy_comp_channel,
  close_device, free, post_recv, post_send,
}
use network_infiniband_works.MultiThread.Context.{roundup, init_attr, init_mask, qp_init_attr}
use network_infiniband_works.MultiThread.Engine.{recv_wrid, send_wrid}

-- `qp_mem` is the address of `qpArr`, and `qp_arr` and `size_per_qp` are the contents of the two
-- arrays. `pending_qp` belongs to the loop (`Streams`).
pub record StreamContext : Type 0 where
  pub self : ℕ
  pub context : ℕ
  pub channel : ℕ
  pub pd : ℕ
  pub mr : ℕ
  pub cq : ℕ
  pub qp_mem : ℕ
  pub qp_arr : List ℕ
  pub buf : ℕ
  pub size : ℕ
  pub rx_depth : ℕ
  pub peer_num : ℕ
  pub size_per_qp : List ℕ

-- `sizeof *ctx`, which no property depends on.
abbrev pub stream_ctx_size : ℕ
stream_ctx_size = 176

-- `sizePerQP`, for at least one queue pair: the first takes what the division leaves over.
unfoldable pub size_per_qp : (size peer_num : ℕ) → List ℕ
size_per_qp size peer_num =
    let size_per_peer = size / peer_num in
    (size - size_per_peer * (peer_num - 1)) ∷ replicate (peer_num - 1) size_per_peer

module _ (e : Env) where
  unfoldable pub create_qps : (left pd : ℕ) → QpInitAttr → M (List ℕ)
  create_qps zero pd attr = ret []
  create_qps (suc left) pd attr =
      need e (create_qp pd attr) >>= λ qp. create_qps left pd attr >>= λ qps. ret (qp ∷ qps)

  unfoldable pub init_qps : List ℕ → QpAttr → M (Unit {0})
  init_qps [] attr = ret tt
  init_qps (qp ∷ qps) attr = check e (modify_qp qp attr init_mask) >> init_qps qps attr

  -- The parameters of the source and the global `page_size`. The second `calloc` is not tested. A
  -- NULL result is a failed run.
  unfoldable pub init_stream_ctx :
      (page_size ib_dev size rx_depth port : ℕ) (use_event is_server : Bool) (peer_number : ℕ)
      → M StreamContext
  unfolding create_qps init_qps size_per_qp
  init_stream_ctx page_size ib_dev size rx_depth port use_event is_server peer_number = do
    self ← need e (calloc 1 stream_ctx_size)
    tell e (calloc peer_number 4)
    buf ← need e (malloc (roundup size page_size))
    tell e (memset buf (if is_server then 0x7c else 0x7b) size)
    context ← need e (open_device ib_dev)
    channel ← if use_event then need e (create_comp_channel context) else ret 0
    pd ← need e (alloc_pd context)
    mr ← need e (reg_mr pd buf size)
    cq ← need e (create_cq context (rx_depth + 1) channel)
    qp_mem ← need e (calloc peer_number 8)
    qp_arr ← create_qps peer_number pd (qp_init_attr cq rx_depth)
    init_qps qp_arr (init_attr port)
    ret (record {
      self = self;
      context = context;
      channel = channel;
      pd = pd;
      mr = mr;
      cq = cq;
      qp_mem = qp_mem;
      qp_arr = qp_arr;
      buf = buf;
      size = size;
      rx_depth = rx_depth;
      peer_num = peer_number;
      size_per_qp = size_per_qp size peer_number;
    })

  pub destroy_qps : List ℕ → M (Unit {0})
  destroy_qps [] = ret tt
  destroy_qps (qp ∷ qps) =
      (if is_null qp then ret tt else check e (destroy_qp qp)) >> destroy_qps qps

  -- `sizePerQP` and `pending_qp` are not freed. A nonzero result is a failed run.
  unfoldable pub close_stream_ctx : StreamContext → M (Unit {0})
  unfolding destroy_qps
  close_stream_ctx ctx = do
    (if is_null ctx.qp_mem then ret tt else destroy_qps ctx.qp_arr >> tell e (free ctx.qp_mem))
    check e (destroy_cq ctx.cq)
    check e (dereg_mr ctx.mr)
    check e (dealloc_pd ctx.pd)
    (if is_null ctx.channel then ret tt else check e (destroy_comp_channel ctx.channel))
    check e (close_device ctx.context)
    tell e (free ctx.buf)
    tell e (free ctx.self)

-- `sizePerQP[i]` and `buf_offset`
abbrev pub qp_size : StreamContext → ℕ → ℕ
qp_size ctx i = get_or ctx.size_per_qp i 0

unfoldable pub buf_offset : StreamContext → ℕ → ℕ
buf_offset ctx i = qp_size ctx i * i

unfoldable pub qp_request : StreamContext → ℕ → ℕ → WorkRequest
unfolding buf_offset
qp_request ctx id i = record {
  wr_id = id;
  addr = ctx.buf + buf_offset ctx i;
  length = qp_size ctx i;
  mr = ctx.mr;
}

-- The loop of `pp_post_recv_pQp`, with `left` rounds to go and `i` done.
unfoldable pub post_recv_rounds : Env → ℕ → WorkRequest → (left i : ℕ) → M ℕ
post_recv_rounds e qp wr zero i t = done i t
post_recv_rounds e qp wr (suc left) i t =
    let c = post_recv qp wr in
    elim (is_zero (e.int t c)) [
      | true ↦ post_recv_rounds e qp wr left (i + 1) (int c (e.int t c) ∷ t)
      | false ↦ done i (int c (e.int t c) ∷ t)
    ]

unfoldable pub pp_post_recv_qp : Env → StreamContext → (n qp qp_index : ℕ) → M ℕ
unfolding post_recv_rounds qp_request
pp_post_recv_qp e ctx n qp qp_index = post_recv_rounds e qp (qp_request ctx recv_wrid qp_index) n 0

-- A nonzero result is a failed run.
unfoldable pub pp_post_send_qp : Env → StreamContext → (qp qp_index : ℕ) → M (Unit {0})
unfolding qp_request
pp_post_send_qp e ctx qp qp_index = check e (post_send qp (qp_request ctx send_wrid qp_index))
