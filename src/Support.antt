-- ===== src/Support.antt =====
-- multithreadIBSupport.c and multistreamPPSupport.c: the functions that ask for the attributes of a
-- port. The programs call `ibv_query_port` only through the second.
use network_infiniband_works.Base.{ℕ, ℤ, ◌∷◌, true, false, is_zero}
use network_infiniband_works.Platform.{int, Env, M, PortAttr, done, query_port}

module _ (e : Env) where
  -- `pp_get_local_lid`: the LID, or 0 where the call fails.
  unfoldable pub pp_get_local_lid : (context port : ℕ) → M ℕ
  pp_get_local_lid context port t =
      let c = query_port context port in
      let t1 = int c (e.int t c) ∷ t in
      let attr = e.port t c in
      elim (is_zero (e.int t c)) [ true ↦ done attr.lid t1 | false ↦ done 0 t1 ]

  -- `pp_get_port_info`: its result, and `attr`.
  unfoldable pub pp_get_port_info : (context port : ℕ) → M (ℤ × PortAttr)
  pp_get_port_info context port t =
      let c = query_port context port in done (e.int t c, e.port t c) (int c (e.int t c) ∷ t)
