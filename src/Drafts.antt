-- ===== src/Drafts.antt =====
-- temp/CommonIBUtilFuncs.cpp, the functions of an earlier draft in C++ with several queue pairs for
-- one connection. Where the draft repeats a function of multithreadIB.c line by line, the model of
-- that one is used. A lambda that is left without a result is taken to go on with the next element:
-- `for_each` reads no result.
pub mod Client
pub mod Server
pub mod Unnoticed
pub mod Moves
pub mod Remotes
use network_infiniband_works.Base.{
  ℕ, zero, suc, ◌+◌, ◌%◌, ◌^◌, ℤ, List, [], ◌∷◌, Bool, if◌then◌else◌, get_or,
}
use network_infiniband_works.Platform.{
  QpFlag, AhAttr, QpAttr, QpInitAttr, PortAttr, Env, M, ◌>>=◌, ◌>>◌, ret, need, check, tell,
  ask_int, ask_ptr, calloc, malloc, memset, sysconf_pagesize, open_device, create_comp_channel,
  alloc_pd, reg_mr, create_cq, create_qp, modify_qp,
}
use network_infiniband_works.Wire.Dest.{PingpongDest}
use network_infiniband_works.MultiThread.Connect.{rtr_attr, rtr_mask, rts_attr, rts_mask}
use network_infiniband_works.MultiThread.Context.{
  PingpongContext, roundup, init_attr, init_mask, qp_init_attr, pp_close_ctx,
}
use network_infiniband_works.MultiThread.Engine.{pp_post_recv, pp_post_send}

pub record Connection : Type 0 where
  pub self : ℕ
  pub context : ℕ
  pub channel : ℕ
  pub pd : ℕ
  pub mr : ℕ
  pub cq : ℕ
  pub qp : List ℕ
  pub peer_num : ℕ
  pub buf : ℕ
  pub size : ℕ
  pub rx_depth : ℕ
  pub pending : ℕ
  pub portinfo : PortAttr
  pub routs : ℕ

-- `sizeof *connection`, which no property depends on.
abbrev connection_size : ℕ
connection_size = 144

-- What the functions with a thread's number work on: the connection with one queue pair.
abbrev pub context_of : Connection → (tid : ℕ) → PingpongContext
context_of ctx tid = record {
  self = ctx.self;
  context = ctx.context;
  channel = ctx.channel;
  pd = ctx.pd;
  mr = ctx.mr;
  cq = ctx.cq;
  qp = get_or ctx.qp tid 0;
  buf = ctx.buf;
  size = ctx.size;
  rx_depth = ctx.rx_depth;
  pending = ctx.pending;
}

-- The fields of `attr.ah_attr` in `setQPstateRTS`.
abbrev plain_ah_attr : (port sl : ℕ) → PingpongDest → AhAttr
plain_ah_attr port sl dest = record {
  is_global = 0;
  dlid = dest.lid % 2 ^ 16;
  sl = sl % 2 ^ 8;
  src_path_bits = 0;
  port_num = port % 2 ^ 8;
  hop_limit = 0;
  dgid = [];
  sgid_index = 0;
}

module _ (e : Env) where
  -- The loop that creates the queue pairs; the memory that `malloc` gives is lost.
  unfoldable pub create_peer_qps : (left pd : ℕ) → QpInitAttr → M (List ℕ)
  create_peer_qps zero pd attr = ret []
  create_peer_qps (suc left) pd attr = do
    it ← need e (malloc 8)
    qp ← need e (create_qp pd attr)
    qps ← create_peer_qps left pd attr
    ret (qp ∷ qps)

  -- `InitQPs`
  unfoldable pub init_peer_qps : List ℕ → (port : ℕ) → M (Unit {0})
  init_peer_qps [] port = ret tt
  init_peer_qps (qp ∷ qps) port =
      check e (modify_qp qp (init_attr port) init_mask) >> init_peer_qps qps port

  -- A NULL result is a failed run. What `calloc` gives is 0, also in `portinfo`.
  unfoldable pub init_connection :
      (ib_dev size rx_depth port : ℕ) (use_event : Bool) (peer_num message_char : ℕ) → M Connection
  unfolding create_peer_qps init_peer_qps
  init_connection ib_dev size rx_depth port use_event peer_num message_char = do
    self ← need e (calloc 1 connection_size)
    context ← need e (open_device ib_dev)
    channel ← if use_event then need e (create_comp_channel context) else ret 0
    pd ← need e (alloc_pd context)
    page_size ← ask_ptr e sysconf_pagesize
    buf ← need e (malloc (roundup size page_size))
    tell e (memset buf message_char 4096)
    mr ← need e (reg_mr pd buf 4096)
    cq ← need e (create_cq context (rx_depth + 1) channel)
    qp ← create_peer_qps peer_num pd (qp_init_attr cq rx_depth)
    init_peer_qps qp port
    ret (record {
      self = self;
      context = context;
      channel = channel;
      pd = pd;
      mr = mr;
      cq = cq;
      qp = qp;
      peer_num = peer_num;
      buf = buf;
      size = 4096;
      rx_depth = rx_depth;
      pending = 0;
      portinfo = record { lid = 0; link_layer = 0 };
      routs = 0;
    })

  -- The `for_each` of `setQPstateRTR` and of `setQPstateRTS`: a refusal is printed only.
  unfoldable pub move_all : List ℕ → QpAttr → List QpFlag → M (Unit {0})
  move_all [] attr mask = ret tt
  move_all (qp ∷ qps) attr mask = ask_int e (modify_qp qp attr mask) >> move_all qps attr mask

  unfoldable pub set_qp_state_rtr : Connection → (port mtu sl : ℕ) → PingpongDest → ℤ → M (Unit {0})
  set_qp_state_rtr ctx port mtu sl dest sgid_idx =
      move_all ctx.qp (rtr_attr port mtu sl dest sgid_idx) rtr_mask

  unfoldable pub set_qp_state_rts :
      Connection → (port my_psn mtu sl : ℕ) → PingpongDest → ℤ → M (Unit {0})
  set_qp_state_rts ctx port my_psn mtu sl dest sgid_idx =
      move_all ctx.qp
        (record (rts_attr (rtr_attr port mtu sl dest sgid_idx) my_psn) {
          ah_attr = plain_ah_attr port sl dest;
        })
        rts_mask

  unfoldable pub prep_ib_device_to_connect :
      Connection → (port my_psn mtu sl : ℕ) → PingpongDest → ℤ → M (Unit {0})
  unfolding set_qp_state_rtr set_qp_state_rts
  prep_ib_device_to_connect ctx port my_psn mtu sl dest sgid_idx =
      set_qp_state_rtr ctx port mtu sl dest sgid_idx
      >> set_qp_state_rts ctx port my_psn mtu sl dest sgid_idx

  -- `postRecvWorkReq`, `postSendWorkReq` and `closeConnection`, as `pp_post_recv`, `pp_post_send` and
  -- `pp_close_ctx` for the queue pair of the thread.
  unfoldable pub post_recv_work_req : Connection → (n tid : ℕ) → M ℕ
  post_recv_work_req ctx n tid = pp_post_recv e (context_of ctx tid) n

  unfoldable pub post_send_work_req : Connection → (tid : ℕ) → M (Unit {0})
  post_send_work_req ctx tid = pp_post_send e (context_of ctx tid)

  unfoldable pub close_connection : Connection → (tid : ℕ) → M (Unit {0})
  close_connection ctx tid = pp_close_ctx e (context_of ctx tid)
