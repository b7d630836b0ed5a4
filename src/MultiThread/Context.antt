-- ===== src/MultiThread/Context.antt =====
-- multithreadIB.c: `struct pingpong_context`, `pp_init_ctx` and `pp_close_ctx`.
pub mod Resources
use network_infiniband_works.Base.{ℕ, ◌+◌, ◌-◌, ◌*◌, ◌/◌, List, [], ◌∷◌, Bool, if◌then◌else◌}
use network_infiniband_works.Platform.{
  QpState, QpFlag, AhAttr, QpAttr, QpInitAttr, Env, M, ◌>>=◌, ◌>>◌, ret, is_null, need, check, tell,
  calloc, malloc, memset, open_device, create_comp_channel, alloc_pd, reg_mr, create_cq, create_qp,
  modify_qp, destroy_qp, destroy_cq, dereg_mr, dealloc_pd, destroy_comp_channel, close_device, free,
}

-- `self` is the address of the structure; a channel of 0 is none.
pub record PingpongContext : Type 0 where
  pub self : ℕ
  pub context : ℕ
  pub channel : ℕ
  pub pd : ℕ
  pub mr : ℕ
  pub cq : ℕ
  pub qp : ℕ
  pub buf : ℕ
  pub size : ℕ
  pub rx_depth : ℕ
  pub pending : ℕ

-- `sizeof *ctx`, which no property depends on.
abbrev pub ctx_size : ℕ
ctx_size = 152

-- `roundup` of <sys/param.h>.
abbrev pub roundup : ℕ → ℕ → ℕ
roundup x y = (x + y - 1) / y * y

abbrev pub zero_ah_attr : AhAttr
zero_ah_attr = record {
  is_global = 0;
  dlid = 0;
  sl = 0;
  src_path_bits = 0;
  port_num = 0;
  hop_limit = 0;
  dgid = [];
  sgid_index = 0;
}

abbrev pub init_attr : ℕ → QpAttr
init_attr port = record {
  qp_state = QpState.init;
  path_mtu = 0;
  dest_qp_num = 0;
  rq_psn = 0;
  max_dest_rd_atomic = 0;
  min_rnr_timer = 0;
  ah_attr = zero_ah_attr;
  timeout = 0;
  retry_cnt = 0;
  rnr_retry = 0;
  sq_psn = 0;
  max_rd_atomic = 0;
  pkey_index = 0;
  port_num = port;
  qp_access_flags = 0;
}

abbrev pub init_mask : List QpFlag
init_mask = QpFlag.state ∷ QpFlag.pkey_index ∷ QpFlag.port ∷ QpFlag.access_flags ∷ []

-- One send and `rx_depth` receives may be outstanding on a queue pair.
abbrev pub qp_init_attr : ℕ → ℕ → QpInitAttr
qp_init_attr cq rx_depth = record {
  send_cq = cq;
  recv_cq = cq;
  max_send_wr = 1;
  max_recv_wr = rx_depth;
  max_send_sge = 1;
  max_recv_sge = 1;
}

-- `page_size` is the program's global. A NULL result is a failed run.
unfoldable pub pp_init_ctx :
    Env → (page_size ib_dev size rx_depth port : ℕ) (use_event is_server : Bool) → M PingpongContext
pp_init_ctx e page_size ib_dev size rx_depth port use_event is_server = do
  self ← need e (calloc 1 ctx_size)
  buf ← need e (malloc (roundup size page_size))
  tell e (memset buf (if is_server then 0x7c else 0x7b) size)
  context ← need e (open_device ib_dev)
  channel ← if use_event then need e (create_comp_channel context) else ret 0
  pd ← need e (alloc_pd context)
  mr ← need e (reg_mr pd buf size)
  cq ← need e (create_cq context (rx_depth + 1) channel)
  qp ← need e (create_qp pd (qp_init_attr cq rx_depth))
  check e (modify_qp qp (init_attr port) init_mask)
  ret (record {
    self = self;
    context = context;
    channel = channel;
    pd = pd;
    mr = mr;
    cq = cq;
    qp = qp;
    buf = buf;
    size = size;
    rx_depth = rx_depth;
    pending = 0;
  })

-- A nonzero result is a failed run.
unfoldable pub pp_close_ctx : Env → PingpongContext → M (Unit {0})
pp_close_ctx e ctx = do
  check e (destroy_qp ctx.qp)
  check e (destroy_cq ctx.cq)
  check e (dereg_mr ctx.mr)
  check e (dealloc_pd ctx.pd)
  (if is_null ctx.channel then ret tt else check e (destroy_comp_channel ctx.channel))
  check e (close_device ctx.context)
  tell e (free ctx.buf)
  tell e (free ctx.self)
