-- ===== src/Syslog/Header.antt =====
-- src/syslog.rs, `build_packet`, and a reader of packets after RFC 3164.
use xoslog.Prelude.{
  and_then, ℕ, ◌-◌, ◌/◌, ◌%◌, ◌≤◌, ◌≡◌, ◌∙◌, refl, ap, true, Option, some, [], ◌∷◌, ◌++◌, arith,
  All, All-map, All-append, length, take, append_assoc,
}
use xoslog.Prelude.Text.{Text, Bytes, codes, as_bytes}
use xoslog.Prelude.Decimal.{decimal, value, value-decimal}
use xoslog.Level.{Level}
use xoslog.Time.{Timestamp}
use xoslog.Syslog.{
  Facility, code, level_to_severity, priority, rfc3164_timestamp, packet_header, sanitize_ident,
  build_packet, max_syslog_packet,
}
use xoslog.Syslog.Truncation.{IsAscii}
use xoslog.Syslog.Packet.{
  priority_decodes, is_safe, sanitize_ident_safe, line, header_bytes, build_packet_ascii,
}
use xoslog.Syslog.Reading.{
  read_until, read_exactly, expect, Lacks, read_until-append, read_exactly-append, decimal-Lacks,
}
use xoslog.Syslog.Stamps.{
  Stamp, IsShort, read_stamp, read_stamp-rfc3164_timestamp, length-rfc3164_timestamp,
  rfc3164_timestamp-IsAscii, decimal-IsAscii,
}

-- What a receiver reads, after RFC 3164
pub record Received : Type 0 where
  pub facility : ℕ
  pub severity : ℕ
  pub stamp : Stamp
  pub hostname : Text
  pub ident : Text
  pub pid : ℕ
  pub message : Text

-- The priority in angle brackets, fifteen characters of time, the host, the tag, the process id in
-- brackets, and the message behind a colon and a space
unfoldable pub read_packet : Text → Option Received
read_packet s = and_then (expect (codes "<") s) (λ a. and_then (read_until b'>' a) (λ pri.
    and_then (read_exactly 15 pri.1) (λ time. and_then (read_stamp time.0) (λ stamp.
      and_then (expect (codes " ") time.1) (λ b. and_then (read_until b' ' b) (λ host.
        and_then (read_until b'[' host.1) (λ tag. and_then (read_until b']' tag.1) (λ pid.
          and_then (expect (codes ": ") pid.1) (λ message. some (record {
            facility = value 0 pri.0 / 8;
            severity = value 0 pri.0 % 8;
            stamp = stamp;
            hostname = host.0;
            ident = tag.0;
            pid = value 0 pid.0;
            message = message;
          }))))))))))

as_bytes-ascii : (s : Text) → All IsAscii s → as_bytes s ≡ s
unfolding as_bytes
as_bytes-ascii [] h = refl
as_bytes-ascii (c ∷ s) (hc, hs) = ground (arith, as_bytes-ascii s hs)

safe-Lacks : (s : Text) → All (λ c. is_safe c ≡ true) s → Lacks b'[' s
safe-Lacks s h = All-map _ _ s (λ c k. ground arith) h

safe-IsAscii : (s : Text) → All (λ c. is_safe c ≡ true) s → All IsAscii s
safe-IsAscii s h = All-map _ _ s (λ c k. ground arith) h

module _ (f : Facility) (l : Level) (t : Timestamp) (hostname ident : Text) (pid : ℕ) where
  abbrev pub header : Text
  header = packet_header f l t hostname (sanitize_ident ident) pid

  header-IsAscii : All IsAscii hostname → All IsAscii header
  unfolding packet_header
  header-IsAscii host =
      let (_, safe, _) = sanitize_ident_safe ident in
      (
        omega arith,
        All-append IsAscii (decimal (priority f l)) _ (decimal-IsAscii (priority f l)) (
          omega arith,
          All-append IsAscii (rfc3164_timestamp t) _ (rfc3164_timestamp-IsAscii t) (
            omega arith,
            All-append IsAscii hostname _ host (
              omega arith,
              All-append IsAscii (sanitize_ident ident) _ (safe-IsAscii (sanitize_ident ident) safe)
                  (
                    omega arith,
                    All-append IsAscii (decimal pid) _ (decimal-IsAscii pid) (omega arith),
                  ),
            ),
          ),
        ),
      )

  header_text :
      (rest : Text)
      → header ++ rest
        ≡ b'<'
          ∷ (decimal (priority f l)
              ++ (b'>'
                  ∷ (rfc3164_timestamp t
                      ++ (b' '
                          ∷ (hostname
                              ++ (b' '
                                  ∷ (sanitize_ident ident
                                      ++ (b'['
                                          ∷ (decimal pid ++ (b']' ∷ b':' ∷ b' ' ∷ rest))))))))))
  unfolding packet_header
  header_text rest = simp append_assoc

  -- What there is to read in a packet with some text behind its header
  abbrev pub received : Text → Received
  received rest = record {
    facility = code f;
    severity = level_to_severity l;
    stamp = record {
      month = t.month;
      day = t.day;
      hour = t.hour;
      minute = t.minute;
      second = t.second;
    };
    hostname = hostname;
    ident = sanitize_ident ident;
    pid = pid;
    message = rest;
  }

  read_packet-header :
      (rest : Text)
      → Lacks b' ' hostname
      → IsShort t
      → read_packet (header ++ rest) ≡ some (received rest)
  unfolding read_packet expect
  read_packet-header rest host_lacks short =
      let (_, facility, severity) = priority_decodes f l in
      let (_, safe, _) = sanitize_ident_safe ident in
      rw
        (
          header_text rest,
          read_until-append b'>' (decimal (priority f l)) _
              (decimal-Lacks b'>' (priority f l) (omega arith)),
          read_exactly-append (rfc3164_timestamp t) _ 15 (length-rfc3164_timestamp t short),
          read_stamp-rfc3164_timestamp t short,
          read_until-append b' ' hostname _ host_lacks,
          read_until-append b'[' (sanitize_ident ident) _ (safe-Lacks (sanitize_ident ident) safe),
          read_until-append b']' (decimal pid) _ (decimal-Lacks b']' pid (omega arith)),
          value-decimal (priority f l),
          value-decimal pid,
          facility,
          severity,
        )
        refl

  -- A receiver reads from the packet of a line of ASCII text the facility, the severity, the month,
  -- the day and the time as numbers, the host, the sanitized tag, the process id, and as much of the
  -- line as fits 1024 bytes, if the host is ASCII text with no space in it, the timestamp has a month
  -- from 1 to 12 and two digits for the day and the time, and the header is within the limit.
  pub read_packet-build_packet :
      (s : Bytes)
      → All IsAscii s
      → All IsAscii hostname
      → Lacks b' ' hostname
      → IsShort t
      → length header ≤ max_syslog_packet
      → read_packet (build_packet f l t hostname (sanitize_ident ident) pid (line s))
        ≡ some (received (take (max_syslog_packet - length header) s))
  read_packet-build_packet s ascii host host_lacks short fits =
      let plain : header_bytes f l t hostname (sanitize_ident ident) pid ≡ header =
        as_bytes-ascii header (header-IsAscii host) in
      let (exact, _) =
        build_packet_ascii f l t hostname (sanitize_ident ident) pid s ascii
          (omega (arith, ap length plain, fits)) in
      ap read_packet (exact ∙ ap (λ h. h ++ take (max_syslog_packet - length h) s) plain)
      ∙ read_packet-header (take (max_syslog_packet - length header) s) host_lacks short
