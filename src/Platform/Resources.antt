-- ===== src/Platform/Resources.antt =====
-- What a program holds: the resources that a trace acquired and has not given back, the last one
-- first. Each must be given back by the function that belongs to it, in the reverse order.
use network_infiniband_works.Base.{
  ℕ, zero, suc, List, [], ◌∷◌, Option, none, some, Bool, true, false, ◌&&◌, ◌==◌, if◌then◌else◌,
  is_zero,
}
use network_infiniband_works.Platform.Calls.{
  Call, calloc, malloc, open_device, create_comp_channel, alloc_pd, reg_mr, create_cq, create_qp,
  destroy_qp, destroy_cq, dereg_mr, dealloc_pd, destroy_comp_channel, close_device, free,
}
use network_infiniband_works.Platform.Events.{Event, Trace, ptr, int, told}

pub data Kind : Type 0 where
  memory device channel pd mr cq qp : Kind

pub record Resource : Type 0 where
  pub kind : Kind
  pub handle : ℕ

abbrev pub acquired : Call → Option Kind
acquired (calloc n size) = some memory
acquired (malloc size) = some memory
acquired (open_device dev) = some device
acquired (create_comp_channel context) = some channel
acquired (alloc_pd context) = some pd
acquired (reg_mr p buf size) = some mr
acquired (create_cq context cqe ch) = some cq
acquired (create_qp p attr) = some qp
acquired _ = none

abbrev pub released : Call → Option Resource
released (destroy_qp h) = some (record { kind = qp; handle = h })
released (destroy_cq h) = some (record { kind = cq; handle = h })
released (dereg_mr h) = some (record { kind = mr; handle = h })
released (dealloc_pd h) = some (record { kind = pd; handle = h })
released (destroy_comp_channel h) = some (record { kind = channel; handle = h })
released (close_device h) = some (record { kind = device; handle = h })
released (free h) = some (record { kind = memory; handle = h })
released _ = none

abbrev pub same_kind : Kind → Kind → Bool
same_kind memory memory = true
same_kind device device = true
same_kind channel channel = true
same_kind pd pd = true
same_kind mr mr = true
same_kind cq cq = true
same_kind qp qp = true
same_kind _ _ = false

-- Giving back what is not on top is a misuse, `none`.
abbrev pub give_back : Resource → List Resource → Option (List Resource)
give_back r [] = none
give_back r (s ∷ held) = if same_kind s.kind r.kind && s.handle == r.handle then some held else none

abbrev pub give_back_all : Option Resource → List Resource → Option (List Resource)
give_back_all none held = some held
give_back_all (some r) held = give_back r held

abbrev pub acquire : Option Kind → ℕ → List Resource → List Resource
acquire none h held = held
acquire (some k) zero held = held
acquire (some k) (suc h) held = record { kind = k; handle = suc h } ∷ held

abbrev pub after : Event → List Resource → Option (List Resource)
after (ptr c h) held = some (acquire (acquired c) h held)
after (int c r) held = if is_zero r then give_back_all (released c) held else some held
after (told c) held = give_back_all (released c) held

-- What a trace holds, or none where something was given back that was not on top.
abbrev pub held_of : Trace → Option (List Resource)
held_of [] = some []
held_of (ev ∷ t) = elim (held_of t) [ none ↦ none | some held ↦ after ev held ]

-- `Keeps before now`: `now` is `before` with more on top.
pub data Keeps (before : List Resource) : List Resource → Type 0 where
  all : Keeps before before
  more : {r : Resource} {now : List Resource} → Keeps before now → Keeps before (r ∷ now)
