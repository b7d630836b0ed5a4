-- ===== src/Wire/Dest.antt =====
-- multithreadIB.c: `struct pingpong_dest` and the message "%04x:%06x:%06x:%s" that carries it.
pub mod RoundTrip
use network_infiniband_works.Base.{ℕ, List, ◌∷◌, ◌++◌, none, some, Bool}
use network_infiniband_works.Wire.Hex.{
  print_hex, scan_hex, scan_word, expect, until_nul, put_string,
}
use network_infiniband_works.Wire.Gid.{gid_to_wire_gid, wire_gid_to_gid}

pub record PingpongDest : Type 0 where
  pub lid : ℕ
  pub qpn : ℕ
  pub psn : ℕ
  pub gid : List ℕ

-- `sizeof msg`: the text of the template and its NUL.
abbrev pub msg_size : ℕ
msg_size = 52

-- The `sprintf` of both exchange functions, without the NUL that it puts at the end.
unfoldable pub print_dest : Bool → PingpongDest → List ℕ
print_dest little d =
    print_hex 4 d.lid
    ++ (b':'
        ∷ (print_hex 6 d.qpn
            ++ (b':' ∷ (print_hex 6 d.psn ++ (b':' ∷ gid_to_wire_gid little d.gid)))))

-- What the `sscanf` assigns to: three fields of the new address and the local buffer `gid`.
pub record Scan : Type 0 where
  pub lid : ℕ
  pub qpn : ℕ
  pub psn : ℕ
  pub gid : List ℕ

-- The `sscanf` stops at the first directive that fails, and leaves the rest as it was. The text
-- of "%s" goes into `gid` with no bound.
unfoldable pub scan_gid : List ℕ → Scan → Scan
scan_gid s f = elim (scan_word s) [ none ↦ f | some w ↦ record f { gid = put_string f.gid w } ]

unfoldable pub scan_psn : List ℕ → Scan → Scan
scan_psn s f = elim (scan_hex s) [
  | none ↦ f
  | some (v, r) ↦ elim (expect b':' r) [
    | none ↦ record f { psn = v }
    | some r' ↦ scan_gid r' (record f { psn = v })
  ]
]

unfoldable pub scan_qpn : List ℕ → Scan → Scan
scan_qpn s f = elim (scan_hex s) [
  | none ↦ f
  | some (v, r) ↦ elim (expect b':' r) [
    | none ↦ record f { qpn = v }
    | some r' ↦ scan_psn r' (record f { qpn = v })
  ]
]

unfoldable pub scan_dest : List ℕ → Scan → Scan
scan_dest s f = elim (scan_hex s) [
  | none ↦ f
  | some (v, r) ↦ elim (expect b':' r) [
    | none ↦ record f { lid = v }
    | some r' ↦ scan_qpn r' (record f { lid = v })
  ]
]

-- The two lines that read an address out of `msg`: `f` holds what the fresh address and the
-- buffer `gid` contain before, and `v32` what the local of `wire_gid_to_gid` does.
unfoldable pub read_dest : Bool → Scan → ℕ → List ℕ → PingpongDest
read_dest little f v32 msg =
    let g = scan_dest (until_nul msg) f in
    record { lid = g.lid; qpn = g.qpn; psn = g.psn; gid = wire_gid_to_gid little v32 g.gid }
