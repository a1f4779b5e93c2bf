-- ===== src/Examples/Packets.antt =====
-- Syslog packets and deliveries on concrete inputs.
use xoslog.Prelude.{
  inl, ◌≡◌, ◌≤◌, ◌+◌, ◌-◌, refl, false, none, some, [], ◌∷◌, ◌++◌, All-replicate, arith, ℕ, length,
  take, replicate, length-replicate,
}
use xoslog.Prelude.Text.{Text, Bytes, codes, as_bytes, text_eq, utf8_char}
use xoslog.Prelude.Decimal.{decimal, zero_padded, space_padded, digits}
use xoslog.Prelude.Int.{pos}
use xoslog.Level.{info}
use xoslog.Time.{Timestamp}
use xoslog.Syslog.{
  user, code, level_to_severity, priority, build_packet, sanitize_ident, safe_char, packet_header,
  rfc3164_timestamp, month_name, max_syslog_packet,
}
use xoslog.Syslog.Header.{header, received, read_packet, read_packet-build_packet}
use xoslog.Syslog.Truncation.{IsAscii}
use xoslog.Syslog.Packet.{line, header_bytes, build_packet_ascii, length-build_packet_over}
use xoslog.Syslog.Deliver.{os_error, SyslogSink, Net, sink_packet, deliver}
use xoslog.Syslog.Delivery.{IsAtMostOnce, deliver-IsAtMostOnce}
use xoslog.Syslog.Routes.{IsFirst, first_of, Route, over_next, Delivers, deliver_succeeds_iff}

abbrev noon : Timestamp
noon = record {
  year = pos 2026;
  month = 1;
  day = 2;
  hour = 12;
  minute = 0;
  second = 0;
  microsecond = 0;
  offset_seconds = pos 0;
}

abbrev app_header : Bytes
app_header = header_bytes user info noon (codes "host") (codes "app") 42

app_header-length : length app_header ≡ 34
unfolding packet_header rfc3164_timestamp month_name priority code level_to_severity decimal
    zero_padded space_padded digits as_bytes utf8_char
app_header-length = refl

header_fits : length app_header ≤ max_syslog_packet
header_fits = omega (arith, app_header-length)

build_packet_ascii_example :
    (build_packet user info noon (codes "host") (codes "app") 42 (line (codes "hi"))
      ≡ app_header ++ take (max_syslog_packet - length app_header) (codes "hi"))
    × (length (build_packet user info noon (codes "host") (codes "app") 42 (line (codes "hi")))
        ≤ max_syslog_packet)
build_packet_ascii_example =
    build_packet_ascii user info noon (codes "host") (codes "app") 42 (codes "hi") (omega arith)
      header_fits

abbrev filler : Bytes
filler = replicate 989 b'x'

length-build_packet_over_example :
    length (
      build_packet user info noon
        (codes "host")
        (codes "app")
        42
        (line (filler ++ as_bytes (0xe9 ∷ []))))
    ≡ max_syslog_packet + 2
length-build_packet_over_example =
    length-build_packet_over user info noon (codes "host") (codes "app") 42 filler 0xe9 []
      (All-replicate IsAscii 989 b'x' (omega arith)) (omega arith) (omega arith)
      (omega (arith, app_header-length, length-replicate {A = ℕ} 989 b'x'))

abbrev sink : SyslogSink
sink = record {
  paths = codes "/dev/log" ∷ codes "/var/run/log" ∷ [];
  facility = user;
  ident = codes "app";
  hostname = codes "host";
  pid = 42;
  socket = some (codes "/dev/log");
}

-- The daemon has gone from its old socket and can be reached by the second path.
abbrev down : Net
down = record { connects = λ p. false; sends = λ p s. some (os_error 111) }

abbrev up : Net
up = record { connects = λ p. text_eq p (codes "/var/run/log"); sends = λ p s. none }

deliver-IsAtMostOnce_example :
    IsAtMostOnce
      (sink_packet sink info noon (codes "hi\n"))
      (deliver down up info noon (codes "hi\n") sink)
deliver-IsAtMostOnce_example = deliver-IsAtMostOnce down up info noon (codes "hi\n") sink

-- The first path cannot be connected to, the second one can.
up-IsFirst : IsFirst up.connects sink.paths (codes "/var/run/log")
unfolding text_eq
up-IsFirst = first_of (codes "/dev/log" ∷ []) [] refl (refl, tt) refl

over_second : Route down up sink (sink_packet sink info noon (codes "hi\n")) (codes "/var/run/log")
over_second = over_next (codes "/dev/log") (os_error 111) (inl refl) refl up-IsFirst refl

deliver_succeeds_iff_example :
    ((deliver down up info noon (codes "hi\n") sink).result ≡ none
      → (q : Text) × Route down up sink (sink_packet sink info noon (codes "hi\n")) q)
    × ((q : Text)
        → Route down up sink (sink_packet sink info noon (codes "hi\n")) q
        → Delivers down up info noon (codes "hi\n") sink q)
deliver_succeeds_iff_example = deliver_succeeds_iff down up info noon (codes "hi\n") sink

delivered_over_second : Delivers down up info noon (codes "hi\n") sink (codes "/var/run/log")
delivered_over_second =
    (deliver_succeeds_iff down up info noon (codes "hi\n") sink).1 (codes "/var/run/log")
      over_second

abbrev tagged : Text
tagged = header user info noon (codes "host") (codes "my app") 42

tagged-length : length tagged ≡ 37
unfolding packet_header rfc3164_timestamp month_name priority code level_to_severity decimal
    zero_padded space_padded digits sanitize_ident safe_char
tagged-length = refl

read_packet-build_packet_example :
    read_packet (
      build_packet user info noon
        (codes "host")
        (sanitize_ident (codes "my app"))
        42
        (line (codes "up")))
    ≡ some (
        received user info noon
          (codes "host")
          (codes "my app")
          42
          (take (max_syslog_packet - length tagged) (codes "up")))
read_packet-build_packet_example =
    read_packet-build_packet user info noon (codes "host") (codes "my app") 42 (codes "up")
      (omega arith) (omega arith) (refl, (refl, (refl, (refl, tt))))
      (record {
        month_from = omega arith;
        month_to = omega arith;
        day = omega arith;
        hour = omega arith;
        minute = omega arith;
        second = omega arith;
      })
      (omega (arith, tagged-length))
