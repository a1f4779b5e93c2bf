-- ===== src/Suites/Lines.antt =====
-- src/json.rs: the tests.
use xoslog.Level.{as_str}
use xoslog.Time.{display_offset}
use xoslog.Prelude.Decimal.{signed_decimal, signed_zero_padded}
use xoslog.Json.{
  escape, escape_char, is_finite, json_line, push_fields, push_location, push_message, push_string,
  push_value,
}
use xoslog.Prelude.Text.{as_bytes}
use xoslog.Prelude.{◌≡◌, ℕ, refl, Bool, true, false, not, List, [], ◌∷◌, ◌++◌}
use xoslog.Prelude.Text.{Text, codes, text_eq, strip_prefix}
use xoslog.Prelude.Int.{pos}
use xoslog.Level.{info}
use xoslog.Time.{SystemTime, display}
use xoslog.Entry.{str, int, float, bool, null, Field, field, LogEntry, new_entry}
use xoslog.Json.{write_record}
use xoslog.Suites.Asserts.{asserts, contains, starts_with}
use xoslog.Suites.Entries.{one_and_a_half}

abbrev entry : SystemTime → LogEntry
entry clock =
    record (new_entry clock info (codes "hello \"world\"") (codes "my_app::server")
      (codes "src/server.rs") 42) {
        timestamp = record {
          year = pos 2026;
          month = 8;
          day = 14;
          hour = 4;
          minute = 0;
          second = 0;
          microsecond = 0;
          offset_seconds = pos 0;
        };
      }

module _ (clock : SystemTime) (fmt_f64 : ℕ → Text) where
  abbrev with_pushed : List Field → LogEntry
  with_pushed fields = record (entry clock) { fields = fields }

  abbrev pub flat_shape_with_fields : Bool
  flat_shape_with_fields =
      text_eq
        (write_record fmt_f64
          (with_pushed (
            field (codes "user") (str (codes "alice"))
            ∷ field (codes "attempts") (int (pos 3))
            ∷ field (codes "ok") (bool true)
            ∷ field (codes "lat") one_and_a_half
            ∷ field (codes "extra") null
            ∷ []))
          true [])
        (codes
          "{\"ts\":\"2026-08-14T04:00:00.000000Z\",\"level\":\"INFO\",\"msg\":\"hello \\\"world\\\"\",\"file\":\"src/server.rs\",\"line\":42,\"target\":\"my_app::server\",\"user\":\"alice\",\"attempts\":3,\"ok\":true,\"lat\":1.5,\"extra\":null}\n")

  abbrev pub escaping : Bool
  escaping =
      let s =
        write_record fmt_f64
          (with_pushed (field (codes "path") (str (codes "a\nb\t\\\"" ++ (0x01 ∷ codes "c"))) ∷ []))
          false [] in
      asserts (
        contains s (codes "\\n")
        ∷ contains s (codes "\\t")
        ∷ contains s (codes "\\\\\\\"")
        ∷ contains s (codes "\\u0001")
        ∷ not (contains s (0x01 ∷ []))
        ∷ [])

  abbrev pub location_omitted_when_disabled : Bool
  location_omitted_when_disabled =
      let s = write_record fmt_f64 (entry clock) false [] in
      asserts (
        not (contains s (codes "file"))
        ∷ not (contains s (codes "line"))
        ∷ not (contains s (codes "target"))
        ∷ [])

  -- The bits of `f64::NAN` and `f64::INFINITY`
  abbrev pub non_finite_float_is_null : Bool
  non_finite_float_is_null =
      let s =
        write_record fmt_f64
          (with_pushed (
            field (codes "nan") (float 0x7ff8000000000000)
            ∷ field (codes "inf") (float 0x7ff0000000000000)
            ∷ []))
          false [] in
      asserts (
        contains s (codes "\"nan\":null")
        ∷ contains s (codes "\"inf\":null")
        ∷ not (contains s (codes "NaN"))
        ∷ [])

flat_shape_pass : (clock : SystemTime) → flat_shape_with_fields clock (λ f. codes "1.5") ≡ true
unfolding write_record text_eq as_bytes json_line push_fields push_value push_string push_location
    push_message display signed_zero_padded display_offset as_str new_entry escape escape_char
    signed_decimal is_finite
flat_shape_pass clock = refl

lines_pass :
    (clock : SystemTime) (fmt_f64 : ℕ → Text)
    → asserts (
        escaping clock fmt_f64
        ∷ location_omitted_when_disabled clock fmt_f64
        ∷ non_finite_float_is_null clock fmt_f64
        ∷ [])
      ≡ true
unfolding write_record contains starts_with strip_prefix as_bytes json_line push_fields push_value
    push_string push_message display signed_zero_padded display_offset as_str new_entry escape
    escape_char is_finite
lines_pass clock fmt_f64 = refl
