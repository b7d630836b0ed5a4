-- ===== src/Platform.antt =====
-- How the programs run over code that is not theirs: the C library, the kernel and libibverbs are
-- an environment that answers each call by what was called before, and a program is a function from
-- the calls made so far to a result and the calls made then. A function that returns its error
-- value (NULL, or a nonzero status) before its end is `fail`, and keeps the calls that it made.
-- Messages to stdout and stderr are left out.
pub mod Calls
pub mod Events
pub mod Monad
pub mod Resources
pub mod Hoare
pub mod Gives
pub use Calls.*
pub use Events.*
pub use Monad.*
