-- ===== src/Syslog/Remote.antt =====
-- src/syslog.rs: `RemoteSyslogSink`. It has one socket for its whole life, which is not part of its
-- record here: how its calls end are arguments.
use xoslog.Prelude.{ℕ, Option, none, some}
use xoslog.Prelude.Text.{Text, Bytes}
use xoslog.Prelude.Int.{pos}
use xoslog.Level.{Level, info}
use xoslog.Time.{Timestamp, SystemTime, now}
use xoslog.Entry.{LogEntry}
use xoslog.Syslog.{Facility, build_packet, sanitize_ident, read_hostname}
use xoslog.Syslog.Deliver.{IoError, Host}

pub record RemoteSyslogSink : Type 0 where
  pub facility : Facility
  pub ident : Text
  pub hostname : Text
  pub pid : ℕ

pub data Opened {ℓ} (A : Type ℓ) : Type ℓ where
  opened : A → Opened A
  refused : IoError → Opened A

-- How `bind` and `connect` end, with `none` for `Ok`; an address is known by a number.
pub record Udp : Type 0 where
  pub bind : Option IoError
  pub connect : ℕ → Option IoError

abbrev pub unless_refused {ℓ} : {A : Type ℓ} → Option IoError → Opened A → Opened A
unless_refused none r = r
unless_refused (some e) r = refused e

-- `RemoteSyslogSink::new`
unfoldable pub new_remote : Udp → Host → ℕ → Facility → Text → Opened RemoteSyslogSink
new_remote udp host addr f ident = unless_refused udp.bind (
    unless_refused (udp.connect addr) (
      opened (record {
        facility = f;
        ident = sanitize_ident ident;
        hostname = read_hostname host.etc_hostname host.variable;
        pid = host.pid;
      })))

-- `RemoteSyslogSink::deliver`: the datagram that is sent, and the result
unfoldable pub remote_deliver :
    (Bytes → Option IoError) → Level → Timestamp → Bytes → RemoteSyslogSink → Bytes × Option IoError
remote_deliver send l t formatted s =
    let packet = build_packet s.facility l t s.hostname s.ident s.pid formatted in
    (packet, send packet)

-- `write_entry` and `write_bytes` of the sink; its `flush` does nothing.
unfoldable pub remote_write_entry :
    (Bytes → Option IoError) → LogEntry → Bytes → RemoteSyslogSink → Bytes × Option IoError
remote_write_entry send e formatted s = remote_deliver send e.level e.timestamp formatted s

unfoldable pub remote_write_bytes :
    (Bytes → Option IoError) → SystemTime → Bytes → RemoteSyslogSink → Bytes × Option IoError
remote_write_bytes send clock bytes s = remote_deliver send info (now clock (pos 0)) bytes s
