-- ===== src/Wire/Dest/RoundTrip.antt =====
-- An address that one end prints is the address that the other end reads.
use network_infiniband_works.Base.{
  ℕ, ◌+◌, ◌^◌, ◌<◌, List, [], ◌∷◌, ◌++◌, some, ◌≡◌, refl, ap, ◌∙◌, Bool, arith, length,
  length-append,
}
use network_infiniband_works.Wire.Hex.{hex, scan_hex, scan_word, expect, put_string, skip}
use network_infiniband_works.Wire.Hex.Digits.{
  All, All-append, IsTextChar, hex-IsTextChar, length-hex, print_hex-eq-hex, scan_hex-hex,
  until_nul-IsTextChar, scan_word-IsTextChar,
}
use network_infiniband_works.Wire.Gid.{gid_to_wire_gid}
use network_infiniband_works.Wire.Gid.RoundTrip.{
  IsGid, gid_to_wire_gid_text, wire_gid_to_gid-gid_to_wire_gid,
}
use network_infiniband_works.Wire.Dest.{
  PingpongDest, msg_size, print_dest, Scan, scan_dest, scan_qpn, scan_psn, scan_gid, read_dest,
}

-- What an address is made of: a 16-bit LID, a queue pair number and a packet number of 24 bits.
pub record IsDest (d : PingpongDest) : Type 0 where
  pub lid_small : d.lid < 2 ^ 16
  pub qpn_small : d.qpn < 2 ^ 24
  pub psn_small : d.psn < 2 ^ 24
  pub is_gid : IsGid d.gid

-- Each field that is followed by a colon is assigned, and the scan goes on behind the colon.
scan_dest_step :
    (s r : List ℕ) (f : Scan) (v : ℕ)
    → scan_hex s ≡ some (v, b':' ∷ r)
    → scan_dest s f ≡ scan_qpn r (record f { lid = v })
unfolding scan_dest expect
scan_dest_step s r f v h = rw (h, scan_dest) refl

scan_qpn_step :
    (s r : List ℕ) (f : Scan) (v : ℕ)
    → scan_hex s ≡ some (v, b':' ∷ r)
    → scan_qpn s f ≡ scan_psn r (record f { qpn = v })
unfolding scan_qpn expect
scan_qpn_step s r f v h = rw (h, scan_qpn) refl

scan_psn_step :
    (s r : List ℕ) (f : Scan) (v : ℕ)
    → scan_hex s ≡ some (v, b':' ∷ r)
    → scan_psn s f ≡ scan_gid r (record f { psn = v })
unfolding scan_psn expect
scan_psn_step s r f v h = rw (h, scan_psn) refl

scan_gid_step :
    (s : List ℕ) (f : Scan)
    → scan_word s ≡ some s
    → scan_gid s f ≡ record f { gid = put_string f.gid s }
unfolding scan_gid
scan_gid_step s f h = rw (h, scan_gid) refl

module _ (little : Bool) {d : PingpongDest} (ok : IsDest d) where
  abbrev gid_text : List ℕ
  gid_text = gid_to_wire_gid little d.gid

  -- The message with its fixed widths.
  abbrev text : List ℕ
  text = hex 4 d.lid ++ (b':' ∷ (hex 6 d.qpn ++ (b':' ∷ (hex 6 d.psn ++ (b':' ∷ gid_text)))))

  print_dest-eq-text : print_dest little d ≡ text
  unfolding print_dest
  print_dest-eq-text =
      rw
        (
          print_hex-eq-hex 4 d.lid (omega arith) (omega arith),
          print_hex-eq-hex 6 d.qpn (omega arith) (omega arith),
          print_hex-eq-hex 6 d.psn (omega arith) (omega arith),
        )
        refl

  text-IsTextChar : All IsTextChar text
  text-IsTextChar = All-append IsTextChar (hex 4 d.lid) _ (hex-IsTextChar 4 d.lid) (
    (omega arith, omega arith),
    All-append IsTextChar (hex 6 d.qpn) _ (hex-IsTextChar 6 d.qpn) (
      (omega arith, omega arith),
      All-append IsTextChar (hex 6 d.psn) _ (hex-IsTextChar 6 d.psn)
          ((omega arith, omega arith), (gid_to_wire_gid_text little ok.is_gid).1),
    ),
  )

  length-text : length text ≡ 51
  length-text = omega (
    arith,
    length-append (hex 4 d.lid)
        (b':' ∷ (hex 6 d.qpn ++ (b':' ∷ (hex 6 d.psn ++ (b':' ∷ gid_text))))),
    length-append (hex 6 d.qpn) (b':' ∷ (hex 6 d.psn ++ (b':' ∷ gid_text))),
    length-append (hex 6 d.psn) (b':' ∷ gid_text),
    length-hex 4 d.lid,
    length-hex 6 d.qpn,
    length-hex 6 d.psn,
    (gid_to_wire_gid_text little ok.is_gid).0,
  )

  -- The text that `sprintf` writes, with its NUL, fills `msg` exactly.
  pub length-print_dest : length (print_dest little d) + 1 ≡ msg_size
  length-print_dest = rw print_dest-eq-text (omega (arith, length-text))

  scan_dest-text :
      (f : Scan)
      → scan_dest text f
        ≡ record { lid = d.lid; qpn = d.qpn; psn = d.psn; gid = put_string f.gid gid_text }
  scan_dest-text f =
      scan_dest_step text _ f d.lid (scan_hex-hex 3 d.lid _ (omega arith) (omega arith) refl)
      ∙ scan_qpn_step _ _ _ d.qpn (scan_hex-hex 5 d.qpn _ (omega arith) (omega arith) refl)
      ∙ scan_psn_step _ _ _ d.psn (scan_hex-hex 5 d.psn _ (omega arith) (omega arith) refl)
      ∙ scan_gid_step gid_text _ (
          scan_word-IsTextChar gid_text (gid_to_wire_gid_text little ok.is_gid).1
            (omega (arith, (gid_to_wire_gid_text little ok.is_gid).0)))

put_string_lem : (buf text : List ℕ) → (rest : List ℕ) × (put_string buf text ≡ text ++ (0 ∷ rest))
unfolding put_string
put_string_lem buf [] = (skip 1 buf, refl)
put_string_lem buf (c ∷ text) =
    let (rest, e) = put_string_lem (skip 1 buf) text in (rest, ap (λ l. c ∷ l) e)

-- The address that one end prints into `msg` is the address that the other end reads out of it,
-- whatever the byte orders, and whatever the fresh memory, the buffer `gid` and the bytes behind
-- the NUL hold.
pub read_dest-print_dest :
    (from to : Bool) (f : Scan) (v32 : ℕ) (tail : List ℕ) {d : PingpongDest}
    → IsDest d
    → read_dest to f v32 (print_dest from d ++ (0 ∷ tail)) ≡ d
unfolding read_dest
read_dest-print_dest from to f v32 tail {d} ok =
    rw
      (
        print_dest-eq-text from ok,
        until_nul-IsTextChar (text from ok) tail (text-IsTextChar from ok),
        scan_dest-text from ok f,
        (put_string_lem f.gid (gid_text from ok)).1,
        wire_gid_to_gid-gid_to_wire_gid from to v32
            (0 ∷ (put_string_lem f.gid (gid_text from ok)).0) ok.is_gid,
      )
      refl
