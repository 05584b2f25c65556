-- ===== src/Effects.antt =====
-- How Python code with side effects is modelled. A program reads the trace of all calls made so
-- far to the outside (processes, sleeps, network services, the log level), and gives a result and
-- the longer trace. The outside is an arbitrary function of the trace, `Env`.
mod World
mod Monad
pub mod Laws
pub mod Errors
pub mod Growth
pub mod Bounded
pub mod Settles
pub mod Clock
unfoldable pub use World.*
unfoldable pub use Monad.*
