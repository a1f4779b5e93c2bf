-- ===== src/Lib.antt =====
-- XOSLog: levels, filters, records, contexts, sinks and the asynchronous logger of the Rust crate.
--
-- A call of the logger tests the record's level against a filter of its target, stamps it with the
-- clock, merges the context of the calling thread into its fields and puts it on a bounded queue. A
-- writer thread takes the messages from the queue, formats each record once, as text or as one line of
-- JSON, and hands it to every sink: the console, a rotating file, or syslog.
--
-- The files and the parts of the program:
--   Prelude (with Tests, Lists, Text, Int, Decimal): Rust's `str`, `[u8]`, signed integers and the
--     printing of numbers. A `str` is the list of its scalar values, and its bytes are computed.
--   Level, Level/Names: src/level.rs.
--   Filter: src/filter.rs; Matching, Longest and Order are about the level of a target, Parsing and
--     Printing about directive texts.
--   Time: src/time.rs; Eras, Years, Successor, Civil, Days and Calendar are about `civil_from_days`,
--     Fields and Display about whole timestamps. `i128` values are integers: no input of a clock comes near
--     the bounds. `i32` years keep their wrap-around.
--   Entry, Entry/Merge, Entry/Values: src/entry.rs. A float is its 64 bits.
--   Context, Context/Merged, Context/Guards, Context/Threads: src/context.rs. The stacks of all threads
--     are a function of the thread's number; frame numbers wrap at 2 ^ 64.
--   Json, Json/Reader, Json/Strings, Json/Tokens, Json/Lines, Json/Record, Json/Object: src/json.rs.
--     How a finite float is printed is a parameter. The reader of objects is a specification and has no
--     counterpart.
--   Syslog, Syslog/Lossy, Syslog/Truncation, Syslog/Packet, Syslog/Reading, Syslog/Stamps, Syslog/Header:
--     packets and tags of src/syslog.rs; the reader of packets is a specification.
--   Syslog/Deliver, Syslog/Delivery, Syslog/Routes, Syslog/Remote: its two sinks. What the kernel answers to connecting
--     and sending is an argument, for the first and for the second attempt.
--   Sink/Interval, Sink/Slots, Sink/Weeks, Sink/Disk, Sink/FileSink, Sink/Paths, Sink/Backups,
--     Sink/Rotation, Sink/Writes: the file sink of src/sink.rs, over a file system of names and numbered files;
--     readings of the clock and the failures of the kernel's calls are arguments. Sink/Retained,
--     Sink/Stream, Sink/Starts and Sink/Current are about sequences of writes. Sink/Console:
--     the console sinks, over a device.
--   Logger/Writer, Logger/Degrade, Logger/Fanout, Logger/Panics: `handle_message` and `writer_loop` of src/logger.rs.
--     A sink is two operations on a state, each of which may succeed, fail or panic. The loop is
--     recursion on the messages received, so it ends with them.
--   Logger/Channel, Logger/Queue: `log`, `flush` and `shutdown` of src/logger.rs, and the queue with
--     its writer under any interleaving of threads, as a step relation. `log` is two steps, its tests
--     and its sending under the lock of the sender. A call that has to wait for room takes no step, and
--     an acknowledgement is waited for by looking at those that the writer has sent. A queue of
--     capacity 0, which hands records over directly, is not modelled.
--   Logger/Effects, Logger/Sound, Logger/Order, Logger/Admission, Logger/Flushing, Logger/Ending,
--     Logger/Race, Logger/Slots, Logger/Delivery: what holds in every state that the steps reach.
--   Logger/FileSlots, Logger/Files: the logger in front of a file sink, as one system.
--   Logger/Builder, Logger/Built, Logger/Obeys: `LoggerBuilder` of src/logger.rs, and the logger that it builds.
--   Logger/Global: the global logger and the macros of src/logger.rs.
--   Suites: the unit tests of the source files, as functions that the model passes.
--   Examples: the theorems on concrete inputs.
--
-- Loops are structural recursion; the only fuel is in the digits of a number, which has fewer digits
-- than its value plus one, and `value-decimal` shows that this is enough.
--
-- Not modelled: how the standard library resolves names, opens sockets and spawns threads, which are
-- arguments; joining the writer thread; the moment between the end of the writer's loop and its letting
-- go of the queue, in which the sinks are flushed once more (in the step relation the two are one step,
-- and a record that is sent in that moment is lost like one that waits behind the shutdown message); a
-- panic while a record is formatted; and integer overflow of line numbers and lengths.
pub mod Prelude
pub mod Level
pub mod Filter
pub mod Time
pub mod Entry
pub mod Context
pub mod Json
pub mod Suites
pub mod Syslog
pub mod Sink
pub mod Logger
pub mod Examples
