-- ===== src/Examples/Escape.antt =====
-- A quote, a letter and a unit beyond ASCII.
use rs2server_fix.Base.{
  ℕ, ◌<◌, ◌≡◌, refl, true, some, none, List, [], ◌∷◌, length, all, leb, if◌then◌else◌,
}
use rs2server_fix.Framing.{is_printable}
use rs2server_fix.Framing.Escape.{escape_json_utf16}
use rs2server_fix.Framing.Escape.Decode.{Reading, read_string}
use rs2server_fix.Framing.Escape.Sound.{
  quoted, fits, escape_json_utf16-quoted, read_string-escape_json_utf16,
}

abbrev three_units : List ℕ
three_units = 34 ∷ 65 ∷ 0x20ac ∷ []

abbrev three_escaped : List ℕ
three_escaped = b'"' ∷ 92 ∷ b'"' ∷ b'A' ∷ 92 ∷ b'u' ∷ b'2' ∷ b'0' ∷ b'a' ∷ b'c' ∷ b'"' ∷ []

three_written : escape_json_utf16 three_units 12 ≡ some three_escaped
unfolding escape_json_utf16
three_written = refl

three_refused : escape_json_utf16 three_units 11 ≡ none
unfolding escape_json_utf16
three_refused = refl

escape_json_utf16-quoted_example :
    escape_json_utf16 three_units 11
    ≡ (if leb (length three_units) 1023 then fits 11 (quoted three_units) else none)
escape_json_utf16-quoted_example = escape_json_utf16-quoted three_units 11

read_string-escape_json_utf16_example :
    (read_string three_escaped Reading.opening ≡ some three_units)
    × (all is_printable three_escaped ≡ true)
    × (length three_escaped < 12)
read_string-escape_json_utf16_example =
    read_string-escape_json_utf16 three_units 12 three_escaped refl three_written
