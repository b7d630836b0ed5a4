-- ===== src/MultiThread/Connect.antt =====
-- multithreadIB.c, `pp_connect_ctx`: the two `ibv_modify_qp` calls that take a queue pair from INIT
-- to ready-to-receive and on to ready-to-send.
use network_infiniband_works.Base.{
  ℕ, ◌-◌, ◌%◌, ◌^◌, ℤ, pos, negsuc, List, [], ◌∷◌, Bool, false, ◌||◌, not, ◌==◌, if◌then◌else◌,
  take, drop,
}
use network_infiniband_works.Platform.{
  QpState, QpFlag, AhAttr, QpAttr, modify_qp, Env, M, ◌>>◌, check,
}
use network_infiniband_works.Wire.Dest.{PingpongDest}

-- An int that is stored in a uint8_t.
abbrev pub to_u8 : ℤ → ℕ
to_u8 (pos n) = n % 2 ^ 8
to_u8 (negsuc n) = 255 - n % 2 ^ 8

-- `enum ibv_mtu`: IBV_MTU_1024.
abbrev pub mtu_1024 : ℕ
mtu_1024 = 3

abbrev any_set : List ℕ → Bool
any_set [] = false
any_set (b ∷ bs) = not (b == 0) || any_set bs

-- `gid.global.interface_id` is the last eight of the sixteen bytes.
abbrev pub has_interface_id : List ℕ → Bool
has_interface_id gid = any_set (take 8 (drop 8 gid))

unfoldable pub ah_attr : ℕ → ℕ → PingpongDest → ℤ → AhAttr
ah_attr port sl dest sgid_idx =
    if has_interface_id dest.gid
    then record {
      is_global = 1;
      dlid = dest.lid % 2 ^ 16;
      sl = sl % 2 ^ 8;
      src_path_bits = 0;
      port_num = port % 2 ^ 8;
      hop_limit = 1;
      dgid = dest.gid;
      sgid_index = to_u8 sgid_idx;
    }
    else record {
      is_global = 0;
      dlid = dest.lid % 2 ^ 16;
      sl = sl % 2 ^ 8;
      src_path_bits = 0;
      port_num = port % 2 ^ 8;
      hop_limit = 0;
      dgid = [];
      sgid_index = 0;
    }

-- The fields that the initialiser does not name are 0.
abbrev pub rtr_attr : ℕ → ℕ → ℕ → PingpongDest → ℤ → QpAttr
rtr_attr port mtu sl dest sgid_idx = record {
  qp_state = QpState.rtr;
  path_mtu = mtu;
  dest_qp_num = dest.qpn;
  rq_psn = dest.psn;
  max_dest_rd_atomic = 1;
  min_rnr_timer = 12;
  ah_attr = ah_attr port sl dest sgid_idx;
  timeout = 0;
  retry_cnt = 0;
  rnr_retry = 0;
  sq_psn = 0;
  max_rd_atomic = 0;
  pkey_index = 0;
  port_num = 0;
  qp_access_flags = 0;
}

abbrev pub rtr_mask : List QpFlag
rtr_mask =
    QpFlag.state ∷ QpFlag.av ∷ QpFlag.path_mtu ∷ QpFlag.dest_qpn ∷ QpFlag.rq_psn
    ∷ QpFlag.max_dest_rd_atomic ∷ QpFlag.min_rnr_timer ∷ []

abbrev pub rts_attr : QpAttr → ℕ → QpAttr
rts_attr attr my_psn = record attr {
  qp_state = QpState.rts;
  timeout = 14;
  retry_cnt = 7;
  rnr_retry = 7;
  sq_psn = my_psn;
  max_rd_atomic = 1;
}

abbrev pub rts_mask : List QpFlag
rts_mask =
    QpFlag.state ∷ QpFlag.timeout ∷ QpFlag.retry_cnt ∷ QpFlag.rnr_retry ∷ QpFlag.sq_psn
    ∷ QpFlag.max_qp_rd_atomic ∷ []

-- `qp` is `ctx->qp`. The status 1 is a failed run.
unfoldable pub pp_connect_ctx : Env → ℕ → ℕ → ℕ → ℕ → ℕ → PingpongDest → ℤ → M (Unit {0})
pp_connect_ctx e qp port my_psn mtu sl dest sgid_idx = do
  let attr = rtr_attr port mtu sl dest sgid_idx
  check e (modify_qp qp attr rtr_mask)
  check e (modify_qp qp (rts_attr attr my_psn) rts_mask)
