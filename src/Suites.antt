-- ===== src/Suites.antt =====
-- The unit tests of the source files, as functions into Bool, and that the model passes them. A test
-- that reads the clock or the machine takes the reading as an argument.
pub mod Asserts
pub mod Levels
pub mod Filters
pub mod Entries
pub mod Times
pub mod Lines
pub mod Contexts
pub mod Packets
pub mod Intervals
pub mod Files
