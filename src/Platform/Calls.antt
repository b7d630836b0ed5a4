-- ===== src/Platform/Calls.antt =====
-- What the programs ask of the C library, the kernel and libibverbs, one constructor for each
-- function that they call, with its arguments. Handles, pointers and file descriptors are numbers;
-- a null pointer is 0. The attribute records of libibverbs keep the fields that the programs set.
use network_infiniband_works.Base.{ℕ, ℤ, List}

-- `enum ibv_qp_state`, the three values used.
pub data QpState : Type 0 where
  init rtr rts : QpState

-- `enum ibv_qp_attr_mask`, the flags used.
pub data QpFlag : Type 0 where
  state pkey_index port access_flags : QpFlag
  av path_mtu dest_qpn rq_psn max_dest_rd_atomic min_rnr_timer : QpFlag
  timeout retry_cnt rnr_retry sq_psn max_qp_rd_atomic : QpFlag

-- `struct ibv_ah_attr` with its `grh`.
pub record AhAttr : Type 0 where
  pub is_global : ℕ
  pub dlid : ℕ
  pub sl : ℕ
  pub src_path_bits : ℕ
  pub port_num : ℕ
  pub hop_limit : ℕ
  pub dgid : List ℕ
  pub sgid_index : ℕ

-- `struct ibv_qp_attr`.
pub record QpAttr : Type 0 where
  pub qp_state : QpState
  pub path_mtu : ℕ
  pub dest_qp_num : ℕ
  pub rq_psn : ℕ
  pub max_dest_rd_atomic : ℕ
  pub min_rnr_timer : ℕ
  pub ah_attr : AhAttr
  pub timeout : ℕ
  pub retry_cnt : ℕ
  pub rnr_retry : ℕ
  pub sq_psn : ℕ
  pub max_rd_atomic : ℕ
  pub pkey_index : ℕ
  pub port_num : ℕ
  pub qp_access_flags : ℕ

-- `struct ibv_qp_init_attr`; every queue pair is of the type IBV_QPT_RC.
pub record QpInitAttr : Type 0 where
  pub send_cq : ℕ
  pub recv_cq : ℕ
  pub max_send_wr : ℕ
  pub max_recv_wr : ℕ
  pub max_send_sge : ℕ
  pub max_recv_sge : ℕ

-- A work request of one scatter/gather element. A send is IBV_WR_SEND, IBV_SEND_SIGNALED.
pub record WorkRequest : Type 0 where
  pub wr_id : ℕ
  pub addr : ℕ
  pub length : ℕ
  pub mr : ℕ  -- the region whose `lkey` the element carries

-- `struct ibv_wc`: a status of 0 is IBV_WC_SUCCESS.
pub record Wc : Type 0 where
  pub wr_id : ℕ
  pub status : ℕ
  pub qp_num : ℕ

-- `struct ibv_port_attr`, the fields read. A link layer of 1 is IBV_LINK_LAYER_INFINIBAND.
pub record PortAttr : Type 0 where
  pub lid : ℕ
  pub link_layer : ℕ

-- `struct timeval`.
pub record Timeval : Type 0 where
  pub tv_sec : ℕ
  pub tv_usec : ℕ

pub data Call : Type 0 where
  -- memory
  calloc : (n size : ℕ) → Call
  malloc : (size : ℕ) → Call
  memset : (buf value size : ℕ) → Call
  free : (buf : ℕ) → Call
  -- libibverbs
  get_device_list : Call
  free_device_list : (list : ℕ) → Call
  open_device : (dev : ℕ) → Call
  close_device : (context : ℕ) → Call
  create_comp_channel : (context : ℕ) → Call
  destroy_comp_channel : (channel : ℕ) → Call
  alloc_pd : (context : ℕ) → Call
  dealloc_pd : (pd : ℕ) → Call
  reg_mr : (pd buf size : ℕ) → Call
  dereg_mr : (mr : ℕ) → Call
  create_cq : (context cqe channel : ℕ) → Call
  destroy_cq : (cq : ℕ) → Call
  create_qp : (pd : ℕ) → QpInitAttr → Call
  destroy_qp : (qp : ℕ) → Call
  modify_qp : (qp : ℕ) → QpAttr → List QpFlag → Call
  qp_num : (qp : ℕ) → Call
  query_port : (context port : ℕ) → Call
  query_gid : (context port : ℕ) → ℤ → Call
  req_notify_cq : (cq : ℕ) → Call
  get_cq_event : (channel : ℕ) → Call
  ack_cq_events : (cq n : ℕ) → Call
  post_recv : (qp : ℕ) → WorkRequest → Call
  post_send : (qp : ℕ) → WorkRequest → Call
  poll_cq : (cq entries : ℕ) → Call
  -- sockets
  asprintf : (port : ℕ) → Call
  getaddrinfo : (node port : ℕ) → Call
  freeaddrinfo : Call
  socket : (addr : ℕ) → Call
  setsockopt : (fd : ℤ) → Call
  bind : (fd : ℤ) (addr : ℕ) → Call
  listen : (fd : ℤ) (backlog : ℕ) → Call
  accept : (fd : ℤ) → Call
  connect : (fd : ℤ) (addr : ℕ) → Call
  read : (fd : ℤ) (size : ℕ) → Call
  write : (fd : ℤ) → List ℕ → Call
  close : (fd : ℤ) → Call
  sleep : (seconds : ℕ) → Call
  -- the process
  setaffinity : (cpu : ℕ) → Call
  srand48 : Call
  lrand48 : Call
  sysconf_pagesize : Call
  gettimeofday : Call
  thread_create : (size : ℕ) (connfd : ℤ) → Call
  -- the TCP benchmark; a host is a number, and an address is its four bytes as one
  socket_inet : Call
  resolve : (host : ℕ) → Call
  inet_pton : (host : ℕ) → Call
  bind_inet : (fd : ℤ) (ip port : ℕ) → Call
  connect_inet : (fd : ℤ) (ip port : ℕ) → Call
  get_flags : (fd : ℤ) → Call
  set_flags : (fd : ℤ) (flags : ℕ) → Call
  select_read : (fds : List ℤ) → Call
  select_write : (fds : List ℤ) (seconds : ℕ) → Call
  select_timed : (fds : List ℤ) (microseconds : ℕ) → Call
  so_error : (fd : ℤ) → Call
  errno : Call
  send : (fd : ℤ) → List ℕ → Call
  handler_thread : (fd : ℤ) (id : ℕ) → Call
  client_thread : (id size : ℕ) → Call
  join : (id : ℕ) → Call
