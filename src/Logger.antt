-- ===== src/Logger.antt =====
-- src/logger.rs: the logger in front of the queue, the queue, the writer thread behind it, and the
-- builder that connects them.
pub mod Writer
pub mod Degrade
pub mod Fanout
pub mod Panics
pub mod Channel
pub mod Queue
pub mod Effects
pub mod Sound
pub mod Order
pub mod Admission
pub mod Flushing
pub mod Ending
pub mod Race
pub mod Slots
pub mod Delivery
pub mod FileSlots
pub mod Files
pub mod Builder
pub mod Built
pub mod Obeys
pub mod Global
