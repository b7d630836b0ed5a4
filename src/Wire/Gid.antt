-- ===== src/Wire/Gid.antt =====
-- multithreadIBSupport.c: a GID of 16 bytes as 32 hexadecimal digits and back, one 32-bit word at a
-- time. `little` is the byte order of the host, which `htonl` and `ntohl` depend on.
pub mod RoundTrip
use network_infiniband_works.Base.{
  ℕ, zero, suc, ◌+◌, ◌*◌, ◌/◌, ◌%◌, ◌^◌, List, [], ◌∷◌, ◌++◌, none, some, Bool, ◌==◌, if◌then◌else◌,
  take, drop, get_or, ℤ, pos, negsuc,
}
use network_infiniband_works.Wire.Hex.{print_hex, scan_hex, until_nul}

-- The 32-bit load and store of the host.
abbrev pub load_u32 : Bool → List ℕ → ℕ
load_u32 little p =
    if little
    then get_or p 0 0 + get_or p 1 0 * 2 ^ 8 + get_or p 2 0 * 2 ^ 16 + get_or p 3 0 * 2 ^ 24
    else get_or p 3 0 + get_or p 2 0 * 2 ^ 8 + get_or p 1 0 * 2 ^ 16 + get_or p 0 0 * 2 ^ 24

abbrev pub byte : ℕ → ℕ → ℕ
byte v i = v / 2 ^ (8 * i) % 256

abbrev pub store_u32 : Bool → ℕ → List ℕ
store_u32 little v =
    if little
    then byte v 0 ∷ byte v 1 ∷ byte v 2 ∷ byte v 3 ∷ []
    else byte v 3 ∷ byte v 2 ∷ byte v 1 ∷ byte v 0 ∷ []

-- `htonl`, and `ntohl`, which is the same function.
abbrev pub htonl : Bool → ℕ → ℕ
htonl little v =
    if little then byte v 3 + byte v 2 * 2 ^ 8 + byte v 1 * 2 ^ 16 + byte v 0 * 2 ^ 24 else v

module _ (little : Bool) where
  -- The loop of `gid_to_wire_gid` from the word at `raw` on, with `n` words to go.
  pub print_words : ℕ → List ℕ → List ℕ
  print_words zero raw = []
  print_words (suc n) raw =
      print_hex 8 (htonl little (load_u32 little raw)) ++ print_words n (drop 4 raw)

  -- The text; `sprintf` puts a NUL behind it.
  unfoldable pub gid_to_wire_gid : List ℕ → List ℕ
  unfolding print_words
  gid_to_wire_gid raw = print_words 4 raw

  -- `sscanf (tmp, "%x", &v32)`, which leaves `v32` alone where it reads nothing.
  pub scan_word32 : List ℕ → ℕ → ℕ
  scan_word32 tmp v32 = elim (scan_hex (until_nul tmp)) [ none ↦ v32 | some (v, rest) ↦ v ]

  -- The loop of `wire_gid_to_gid` from the text at `wgid` on. `v32` outlives a round.
  pub scan_words : ℕ → List ℕ → ℕ → List ℕ
  scan_words zero wgid v32 = []
  scan_words (suc n) wgid v32 =
      let v = scan_word32 (take 8 wgid) v32 in
      store_u32 little (htonl little v) ++ scan_words n (drop 8 wgid) v

  -- `v32` is what the uninitialised local holds at first.
  unfoldable pub wire_gid_to_gid : ℕ → List ℕ → List ℕ
  unfolding scan_words
  wire_gid_to_gid v32 wgid = scan_words 4 wgid v32

-- `enum ibv_mtu` goes from 1 (256 bytes) to 5 (4096 bytes); -1 for any other size.
unfoldable pub pp_mtu_to_enum : ℕ → ℤ
pp_mtu_to_enum mtu =
    if mtu == 256
    then pos 1
    else if mtu == 512
    then pos 2
    else if mtu == 1024
    then pos 3
    else if mtu == 2048
    then pos 4
    else if mtu == 4096
    then pos 5
    else negsuc 0
