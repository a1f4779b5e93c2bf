-- ===== src/Suites/Packets.antt =====
-- src/syslog.rs: the tests. The names of the machine and the clock are arguments.
use xoslog.Syslog.{sanitize_ident}
use xoslog.Prelude.Decimal.{space_padded, zero_padded}
use xoslog.Prelude.{
  ◌≡◌, ℕ, ◌==◌, leb, refl, Bool, true, false, none, some, [], ◌∷◌, length, replicate,
}
use xoslog.Prelude.Text.{Text, codes, text_eq}
use xoslog.Prelude.Int.{pos}
use xoslog.Level.{trace, debug, info, warn, error}
use xoslog.Time.{SystemTime, after_epoch, now}
use xoslog.Syslog.{
  Facility, kernel, user, mail, daemon, local0, local7, code, level_to_severity, rfc3164_timestamp,
  build_packet, max_syslog_packet,
}
use xoslog.Syslog.Deliver.{SyslogSink, Host, new, sink_packet}
use xoslog.Syslog.Remote.{Udp, Opened, opened, refused, new_remote}
use xoslog.Prelude.Text.{
  strip_prefix, as_bytes, is_whitespace, trim, trim_end, trim_start, utf8_char,
}
use xoslog.Prelude.Decimal.{decimal, digits, space_padded, zero_padded}
use xoslog.Prelude.Int.{◌-ℤ◌, ◌+ℤ◌, ◌*ℤ◌}
use xoslog.Time.{
  from_unix_micros, civil_from_days, date_in_era, day_of_year, day_of_era, as_i32, div_euclid,
  div_trunc, era_of, rem_euclid, unix_micros, year_of_era,
}
use xoslog.Syslog.{
  append_message, packet_header, priority, month_name, read_hostname, safe_char, sanitize_ident,
  strip_newline,
}
use xoslog.Syslog.Lossy.{begin, decode, feed, from_utf8_lossy}
use xoslog.Suites.Asserts.{asserts, starts_with, contains, ends_with}

abbrev pub facility_codes : Bool
facility_codes = asserts (
    (code kernel == 0)
    ∷ (code user == 1)
    ∷ (code mail == 2)
    ∷ (code daemon == 3)
    ∷ (code local0 == 16)
    ∷ (code local7 == 23)
    ∷ [])

abbrev pub severity_mapping : Bool
severity_mapping = asserts (
    (level_to_severity trace == 7)
    ∷ (level_to_severity debug == 7)
    ∷ (level_to_severity info == 6)
    ∷ (level_to_severity warn == 4)
    ∷ (level_to_severity error == 3)
    ∷ [])

abbrev pub rfc3164_timestamp_format : Bool
rfc3164_timestamp_format =
    text_eq
      (rfc3164_timestamp (record {
        year = pos 2026;
        month = 8;
        day = 3;
        hour = 4;
        minute = 49;
        second = 5;
        microsecond = 0;
        offset_seconds = pos 0;
      }))
      (codes "Aug  3 04:49:05")

module _ (host : Host) (clock : SystemTime) where
  abbrev sink_of : Facility → Text → SyslogSink
  sink_of f ident = new [] f ident host.etc_hostname host.variable host.pid

  abbrev pub pri_and_header : Bool
  pri_and_header =
      let s =
        sink_packet (sink_of user (codes "testapp")) info (now clock (pos 0)) (codes "hello\n") in
      asserts (
        starts_with s (codes "<14>")
        ∷ contains s (codes "testapp[")
        ∷ ends_with s (codes "hello")
        ∷ [])

  abbrev pub warn_severity_pri : Bool
  warn_severity_pri =
      starts_with
        (sink_packet (sink_of local0 (codes "app")) warn (now clock (pos 0)) (codes "boom"))
        (codes "<132>")

  abbrev pub ident_sanitized : Bool
  ident_sanitized = text_eq (sink_of user (codes "my app#1")).ident (codes "my_app_1")

  abbrev pub oversized_message_truncated : Bool
  oversized_message_truncated =
      leb
        (length (
          sink_packet (sink_of daemon (codes "t")) error (now clock (pos 0)) (replicate 5000 b'x')))
        max_syslog_packet

  abbrev pub shared_packet_builder_format : Bool
  shared_packet_builder_format =
      let s =
        build_packet daemon info (now clock (pos 0)) (codes "myhost") (codes "app") 1234
          (codes "remote hello\n") in
      asserts (
        starts_with s (codes "<30>")
        ∷ contains s (codes "myhost app[1234]: ")
        ∷ ends_with s (codes "remote hello")
        ∷ [])

  abbrev is_opened {ℓ} : {A : Type ℓ} → Opened A → Bool
  is_opened (opened a) = true
  is_opened (refused e) = false

  abbrev pub remote_sink_packet_header : Udp → ℕ → Bool
  remote_sink_packet_header udp addr = is_opened (new_remote udp host addr user (codes "rtest"))

codes_pass : asserts (facility_codes ∷ severity_mapping ∷ rfc3164_timestamp_format ∷ []) ≡ true
unfolding code level_to_severity rfc3164_timestamp text_eq space_padded zero_padded
codes_pass = refl

abbrev host : Host
host = record {
  program = some (codes "app");
  etc_hostname = some (codes "h\n");
  variable = none;
  pid = 77;
}

ident_sanitized_pass : ident_sanitized host (after_epoch 0 0) ≡ true
unfolding new text_eq sanitize_ident
ident_sanitized_pass = refl

remote_sink_pass :
    remote_sink_packet_header host
      (after_epoch 0 0)
      (record { bind = none; connect = λ addr. none })
      9
    ≡ true
unfolding new_remote
remote_sink_pass = refl

pri_and_header_pass : pri_and_header host (after_epoch 0 0) ≡ true
unfolding new build_packet starts_with strip_prefix append_message as_bytes packet_header decimal
    priority contains rfc3164_timestamp now from_unix_micros civil_from_days date_in_era day_of_year
    day_of_era ◌-ℤ◌ ◌+ℤ◌ digits space_padded zero_padded ◌*ℤ◌ is_whitespace trim trim_end trim_start
    utf8_char begin decode feed from_utf8_lossy code level_to_severity month_name read_hostname
    safe_char sanitize_ident strip_newline as_i32 div_euclid div_trunc era_of rem_euclid unix_micros
    year_of_era ends_with text_eq
pri_and_header_pass = refl

warn_severity_pri_pass : warn_severity_pri host (after_epoch 0 0) ≡ true
unfolding new build_packet starts_with strip_prefix append_message as_bytes packet_header decimal
    priority contains rfc3164_timestamp now from_unix_micros civil_from_days date_in_era day_of_year
    day_of_era ◌-ℤ◌ ◌+ℤ◌ digits space_padded zero_padded ◌*ℤ◌ is_whitespace trim trim_end trim_start
    utf8_char begin decode feed from_utf8_lossy code level_to_severity month_name read_hostname
    safe_char sanitize_ident strip_newline as_i32 div_euclid div_trunc era_of rem_euclid unix_micros
    year_of_era ends_with text_eq
warn_severity_pri_pass = refl

shared_packet_builder_format_pass : shared_packet_builder_format host (after_epoch 0 0) ≡ true
unfolding new build_packet starts_with strip_prefix append_message as_bytes packet_header decimal
    priority contains rfc3164_timestamp now from_unix_micros civil_from_days date_in_era day_of_year
    day_of_era ◌-ℤ◌ ◌+ℤ◌ digits space_padded zero_padded ◌*ℤ◌ is_whitespace trim trim_end trim_start
    utf8_char begin decode feed from_utf8_lossy code level_to_severity month_name read_hostname
    safe_char sanitize_ident strip_newline as_i32 div_euclid div_trunc era_of rem_euclid unix_micros
    year_of_era ends_with text_eq
shared_packet_builder_format_pass = refl

oversized_message_pass : oversized_message_truncated host (after_epoch 0 0) ≡ true
unfolding new build_packet starts_with strip_prefix append_message as_bytes packet_header decimal
    priority contains rfc3164_timestamp now from_unix_micros civil_from_days date_in_era day_of_year
    day_of_era ◌-ℤ◌ ◌+ℤ◌ digits space_padded zero_padded ◌*ℤ◌ is_whitespace trim trim_end trim_start
    utf8_char begin decode feed from_utf8_lossy code level_to_severity month_name read_hostname
    safe_char sanitize_ident strip_newline as_i32 div_euclid div_trunc era_of rem_euclid unix_micros
    year_of_era ends_with text_eq
oversized_message_pass = refl
