-- ===== src/Syslog.antt =====
-- src/syslog.rs: RFC 3164 datagrams and the two sinks that send them. The operating system (sockets,
-- the process, /etc/hostname, argv) answers through arguments.
pub mod Lossy
pub mod Truncation
pub mod Packet
pub mod Deliver
pub mod Delivery
pub mod Routes
pub mod Remote
pub mod Reading
pub mod Stamps
pub mod Header
use xoslog.Prelude.{
  ℕ, ◌+◌, ◌-◌, ◌*◌, ◌/◌, ◌%◌, Bool, true, false, ◌||◌, ◌&&◌, Option, none, some, List, [], ◌∷◌,
  ◌++◌, map, min, leb, ◌==◌, if◌then◌else◌, length, take, zero, suc,
}
use xoslog.Prelude.Text.{Text, Bytes, codes, as_bytes, is_empty, trim}
use xoslog.Prelude.Decimal.{decimal, zero_padded, space_padded}
use xoslog.Level.{Level, trace, debug, info, warn, error, off}
use xoslog.Time.{Timestamp}
use Lossy.{from_utf8_lossy}

abbrev pub max_syslog_packet : ℕ
max_syslog_packet = 1024

pub data Facility : Type 0 where
  kernel user mail daemon auth syslog lpr news uucp cron auth_priv ftp : Facility
  local0 local1 local2 local3 local4 local5 local6 local7 : Facility

-- `Facility::code`
unfoldable pub code : Facility → ℕ
code kernel = 0
code user = 1
code mail = 2
code daemon = 3
code auth = 4
code syslog = 5
code lpr = 6
code news = 7
code uucp = 8
code cron = 9
code auth_priv = 10
code ftp = 11
code local0 = 16
code local1 = 17
code local2 = 18
code local3 = 19
code local4 = 20
code local5 = 21
code local6 = 22
code local7 = 23

unfoldable pub level_to_severity : Level → ℕ
level_to_severity trace = 7
level_to_severity debug = 7
level_to_severity info = 6
level_to_severity warn = 4
level_to_severity error = 3
level_to_severity off = 7

abbrev pub months : List Text
months =
    codes "Jan"
    ∷ codes "Feb"
    ∷ codes "Mar"
    ∷ codes "Apr"
    ∷ codes "May"
    ∷ codes "Jun"
    ∷ codes "Jul"
    ∷ codes "Aug"
    ∷ codes "Sep"
    ∷ codes "Oct"
    ∷ codes "Nov"
    ∷ codes "Dec"
    ∷ []

-- `MONTHS.get(i).unwrap_or("Jan")`
unfoldable pub month_name : List Text → ℕ → Text
month_name [] i = codes "Jan"
month_name (m ∷ ms) zero = m
month_name (m ∷ ms) (suc i) = month_name ms i

unfoldable pub rfc3164_timestamp : Timestamp → Text
unfolding month_name
rfc3164_timestamp t =
    month_name months (t.month - 1)
    ++ (b' '
        ∷ (space_padded 2 t.day
            ++ (b' '
                ∷ (zero_padded 2 t.hour
                    ++ (b':' ∷ (zero_padded 2 t.minute ++ (b':' ∷ zero_padded 2 t.second)))))))

-- The priority; `u8` arithmetic, which does not overflow (`priority_decodes`)
unfoldable pub priority : Facility → Level → ℕ
unfolding code level_to_severity
priority f l = code f * 8 + level_to_severity l

unfoldable pub packet_header : Facility → Level → Timestamp → Text → Text → ℕ → Text
packet_header f l t hostname ident pid =
    b'<'
    ∷ (decimal (priority f l)
        ++ (b'>'
            ∷ (rfc3164_timestamp t
                ++ (b' '
                    ∷ (hostname ++ (b' ' ∷ (ident ++ (b'[' ∷ (decimal pid ++ codes "]: ")))))))))

-- `if msg.last() == Some(&b'\n') { msg = &msg[..msg.len() - 1] }`
unfoldable pub strip_newline : Bytes → Bytes
strip_newline [] = []
strip_newline (c ∷ []) = if c == b'\n' then [] else c ∷ []
strip_newline (c ∷ d ∷ s) = c ∷ strip_newline (d ∷ s)

-- The part of `build_packet` behind the header: `saturating_sub` is `-`.
unfoldable pub append_message : Bytes → Bytes → Bytes
unfolding strip_newline
append_message header formatted =
    let msg = strip_newline formatted in
    let budget = max_syslog_packet - length header in
    header ++ from_utf8_lossy (take (min (length msg) budget) msg)

unfoldable pub build_packet : Facility → Level → Timestamp → Text → Text → ℕ → Bytes → Bytes
build_packet f l t hostname ident pid formatted =
    append_message (as_bytes (packet_header f l t hostname ident pid)) formatted

-- `char::is_ascii_alphanumeric`
abbrev pub is_ascii_alphanumeric : ℕ → Bool
is_ascii_alphanumeric c =
    (leb b'0' c && leb c b'9') || (leb b'A' c && leb c b'Z') || (leb b'a' c && leb c b'z')

unfoldable pub safe_char : ℕ → ℕ
safe_char c =
    if is_ascii_alphanumeric c || (c == b'_') || (c == b'-') || (c == b'.') then c else b'_'

unfoldable pub sanitize_ident : Text → Text
unfolding safe_char
sanitize_ident [] = codes "xoslog"
sanitize_ident (c ∷ s) = map safe_char (c ∷ s)

abbrev env_hostname : Option Text → Text
env_hostname none = codes "localhost"
env_hostname (some host) = if is_empty host then codes "localhost" else host

-- `read_hostname`, on the content of /etc/hostname and the variable HOSTNAME
unfoldable pub read_hostname : Option Text → Option Text → Text
read_hostname none variable = env_hostname variable
read_hostname (some content) variable =
    let host = trim content in if is_empty host then env_hostname variable else host

-- `default_ident`, on the file name of `argv[0]` as `Path::file_name` and `to_string_lossy` give it
unfoldable pub default_ident : Option Text → Text
default_ident none = codes "xoslog"
default_ident (some name) = if is_empty name then codes "xoslog" else name
