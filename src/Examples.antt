-- ===== src/Examples.antt =====
-- Concrete runs: each theorem that has hypotheses or parameters, applied where they hold.
pub mod Filters
pub mod Records
pub mod Contexts
pub mod Packets
pub mod Files
pub mod Loggers
pub mod Queues
pub mod Builders
