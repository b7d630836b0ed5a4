-- ===== src/Tests/Inputs.antt =====
-- What the tests share: an environment in which every call succeeds, one in which every call that
-- returns an int fails, and a context.
use network_infiniband_works.Base.{pos, negsuc, [], ◌∷◌, some}
use network_infiniband_works.Platform.{Env}
use network_infiniband_works.MultiThread.Context.{PingpongContext}

abbrev pub env : Env
env = record {
  ptr = λ t c. 7;
  int = λ t c. pos 0;
  bytes = λ t c. [];
  addrs = λ t c. 1 ∷ [];
  wcs = λ t c. some [];
  port = λ t c. record { lid = 5; link_layer = 1 };
  time = λ t c. record { tv_sec = 0; tv_usec = 0 };
}

-- The environment in which every call that returns an int fails.
abbrev pub refusing : Env
refusing = record env { int = λ t c. negsuc 0 }

abbrev pub ctx : PingpongContext
ctx = record {
  self = 1;
  context = 2;
  channel = 3;
  pd = 4;
  mr = 5;
  cq = 6;
  qp = 7;
  buf = 8;
  size = 64;
  rx_depth = 500;
  pending = 0;
}
