-- ===== src/Python.antt =====
-- What Relinker takes from the Python runtime and from its users: floating-point numbers, values,
-- the clock, random numbers and the class hierarchy. None of it is the repository's own code, so
-- it is a record of operations, and the laws that theorems rely on are a second record.
mod Exceptions
mod Ticks
pub mod Outcomes
mod Floats
pub use Exceptions.*
pub use Ticks.{ticks_python, ticks-FloatLaws}
pub use Floats.*
