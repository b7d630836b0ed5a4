-- ===== src/Platform/Events.antt =====
-- The record of the calls that a program has made.
use network_infiniband_works.Base.{ℕ, ℤ, List}
use network_infiniband_works.Platform.Calls.{Call}

-- A call that was made, with the pointer or the int that it returned; `told` is a call of which
-- the program keeps neither.
pub data Event : Type 0 where
  ptr : Call → ℕ → Event
  int : Call → ℤ → Event
  told : Call → Event

-- The calls made so far, the last one first.
abbrev pub Trace : Type 0
Trace = List Event
