-- ===== src/Sink.antt =====
-- src/sink.rs: the rotating file sink, over a model of the file system, and the two console sinks.
pub mod Interval
pub mod Slots
pub mod Weeks
pub mod Disk
pub mod FileSink
pub mod Paths
pub mod Backups
pub mod Rotation
pub mod Writes
pub mod Retained
pub mod Stream
pub mod Console
pub mod Starts
pub mod Current
