-- ===== src/Sink/Console.antt =====
-- src/sink.rs: `StdoutSink` and `StderrSink`. What the standard library does with the bytes of a
-- stream is a `Device`, an argument.
use xoslog.Prelude.{Bool, true, false}
use xoslog.Prelude.Text.{Bytes}

-- `write_all` and `flush` of a locked stream, with whether they succeed and what they leave behind
pub record Device {ℓ} (D : Type ℓ) : Type ℓ where
  pub write_all : Bytes → D → Bool × D
  pub flush : D → Bool × D

module _ {ℓ} {D : Type ℓ} (device : Device D) where
  abbrev pub flush_written : Bool × D → Bool × D
  flush_written (true, d) = device.flush d
  flush_written (false, d) = (false, d)

  -- `write_bytes` of both sinks
  unfoldable pub console_write_bytes : Bytes → D → Bool × D
  console_write_bytes bytes d = flush_written (device.write_all bytes d)

  -- `flush` of both sinks
  unfoldable pub console_flush : D → Bool × D
  console_flush d = device.flush d
