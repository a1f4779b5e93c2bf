-- ===== src/Syslog/Deliver.antt =====
-- src/syslog.rs: `SyslogSink`. The kernel's answers are a `Net`: for the
-- first and for the second attempt of one delivery, which paths can be connected to, and how a send
-- over a socket ends.
use xoslog.Prelude.{ℕ, Bool, Option, none, some, List, [], ◌∷◌, if◌then◌else◌}
use xoslog.Prelude.Text.{Text, Bytes, codes}
use xoslog.Prelude.Int.{pos}
use xoslog.Level.{Level, info}
use xoslog.Time.{Timestamp, SystemTime, now}
use xoslog.Entry.{LogEntry}
use xoslog.Syslog.{Facility, build_packet, sanitize_ident, read_hostname}

-- `ConnectionRefused` with its two texts, and the errors of the kernel by number
pub data IoError : Type 0 where
  no_reachable_socket no_socket_available : IoError
  os_error : ℕ → IoError

-- The record of a sink; a connected socket is known by the path it is connected to.
pub record SyslogSink : Type 0 where
  pub paths : List Text
  pub facility : Facility
  pub ident : Text
  pub hostname : Text
  pub pid : ℕ
  pub socket : Option Text

pub record Net : Type 0 where
  pub connects : Text → Bool
  pub sends : Text → Bytes → Option IoError

-- `Ok` is `none`; `sent` lists the datagrams that the kernel took, with their sockets.
pub record Outcome : Type 0 where
  pub result : Option IoError
  pub sink : SyslogSink
  pub sent : List (Text × Bytes)

abbrev pub default_syslog_sockets : List Text
default_syslog_sockets = codes "/dev/log" ∷ codes "/var/run/syslog" ∷ codes "/var/run/log" ∷ []

-- `SyslogSink::new`
unfoldable pub new : List Text → Facility → Text → Option Text → Option Text → ℕ → SyslogSink
new paths f ident etc_hostname variable pid = record {
  paths = paths;
  facility = f;
  ident = sanitize_ident ident;
  hostname = read_hostname etc_hostname variable;
  pid = pid;
  socket = none;
}

-- What a program learns of the machine that it runs on: the file name of `argv[0]`, the content of
-- /etc/hostname, the variable HOSTNAME, and its process id.
pub record Host : Type 0 where
  pub program : Option Text
  pub etc_hostname : Option Text
  pub variable : Option Text
  pub pid : ℕ

-- `SyslogSink::local`
unfoldable pub local_sink : Host → Facility → Text → SyslogSink
local_sink host f ident =
    new default_syslog_sockets f ident host.etc_hostname host.variable host.pid

-- The first path of the list that can be connected to.
unfoldable pub first_reachable : (Text → Bool) → List Text → Option Text
first_reachable connects [] = none
first_reachable connects (p ∷ ps) = if connects p then some p else first_reachable connects ps

-- `reconnect`: the error, and the sink with its new socket
unfoldable pub reconnect : Net → SyslogSink → Option IoError × SyslogSink
reconnect net s = elim (first_reachable net.connects s.paths) [
  | none ↦ (some no_reachable_socket, record s { socket = none })
  | some p ↦ (none, record s { socket = some p })
]

abbrev pub sink_packet : SyslogSink → Level → Timestamp → Bytes → Bytes
sink_packet s l t formatted = build_packet s.facility l t s.hostname s.ident s.pid formatted

abbrev pub sent_if_ok : Option IoError → Text → Bytes → List (Text × Bytes)
sent_if_ok none p packet = (p, packet) ∷ []
sent_if_ok (some e) p packet = []

-- The second send, over the socket that `reconnect` left.
unfoldable pub retry : Net → IoError → Bytes → Option IoError × SyslogSink → Outcome
retry net first packet (some e, s) = record { result = some first; sink = s; sent = [] }
retry net first packet (none, s) = elim s.socket [
  | none ↦ record { result = some first; sink = s; sent = [] }
  | some p ↦
      let r = net.sends p packet in record { result = r; sink = s; sent = sent_if_ok r p packet }
]

-- The first send, and after an error one reconnect and retry.
unfoldable pub send_over : Net → Net → Bytes → Option Text → SyslogSink → Outcome
unfolding retry
send_over net again packet none s = record {
  result = some no_socket_available;
  sink = s;
  sent = [];
}
send_over net again packet (some p) s = elim (net.sends p packet) [
  | none ↦ record { result = none; sink = s; sent = (p, packet) ∷ [] }
  | some first ↦ retry again first packet (reconnect again s)
]

-- After the `if self.socket.is_none()`.
unfoldable pub deliver_connected :
    Net → Net → Level → Timestamp → Bytes → Option IoError × SyslogSink → Outcome
unfolding send_over
deliver_connected net again l t formatted (some e, s) = record {
  result = some e;
  sink = s;
  sent = [];
}
deliver_connected net again l t formatted (none, s) =
    send_over net again (sink_packet s l t formatted) s.socket s

abbrev pub connect_first : Net → Option Text → SyslogSink → Option IoError × SyslogSink
connect_first net none s = reconnect net s
connect_first net (some p) s = (none, s)

-- `SyslogSink::deliver`
unfoldable pub deliver : Net → Net → Level → Timestamp → Bytes → SyslogSink → Outcome
unfolding deliver_connected
deliver net again l t formatted s =
    deliver_connected net again l t formatted (connect_first net s.socket s)

-- `write_entry` and `write_bytes` of the sink; `flush` does nothing.
unfoldable pub write_entry : Net → Net → LogEntry → Bytes → SyslogSink → Outcome
write_entry net again e formatted s = deliver net again e.level e.timestamp formatted s

unfoldable pub write_bytes : Net → Net → SystemTime → Bytes → SyslogSink → Outcome
write_bytes net again clock bytes s = deliver net again info (now clock (pos 0)) bytes s
