-- ===== src/Framing/Escape.antt =====
-- src/shared/native_log_framing.cpp: `EscapeJsonUtf16`, a JSON string of UTF-16 units in printable
-- ASCII. The output so far is a list, and `none` is a refusal, which leaves the output empty.
use rs2server_fix.Base.{
  ℕ, zero, suc, ◌+◌, ◌-◌, ◌*◌, ◌/◌, ◌%◌, Bool, true, false, not, ◌&&◌, ◌||◌, Option, none, some,
  List, [], ◌∷◌, ◌++◌, length, ltb, leb, ◌==◌, if◌then◌else◌,
}
pub mod Decode
pub mod Sound

-- `put`, with `at` for the length of the output.
unfoldable pub put_char : ℕ → ℕ → Option (List ℕ) → Option (List ℕ)
put_char capacity c none = none
put_char capacity c (some out) =
    if leb (capacity - 1) (length out) then none else some (out ++ c ∷ [])

unfoldable pub put_chars : ℕ → List ℕ → Option (List ℕ) → Option (List ℕ)
unfolding put_char
put_chars capacity [] o = o
put_chars capacity (c ∷ cs) o = put_chars capacity cs (put_char capacity c o)

-- A character of `hex`, for the four bits of the value from the shift on.
unfoldable pub hex_lower : ℕ → ℕ
hex_lower v = if ltb v 10 then v + 48 else v + 87

-- The characters that one unit puts.
unfoldable pub unit_chars : ℕ → List ℕ
unfolding hex_lower
unit_chars value =
    if value == 34 || value == 92
    then 92 ∷ value ∷ []
    else if leb 32 value && leb value 126
    then value ∷ []
    else 92
      ∷ 117
      ∷ hex_lower (value / 4096 % 16)
      ∷ hex_lower (value / 256 % 16)
      ∷ hex_lower (value / 16 % 16)
      ∷ hex_lower (value % 16)
      ∷ []

unfoldable pub put_units : ℕ → List ℕ → Option (List ℕ) → Option (List ℕ)
unfolding put_chars unit_chars
put_units capacity [] o = o
put_units capacity (v ∷ vs) o = put_units capacity vs (put_chars capacity (unit_chars v) o)

unfoldable pub escape_json_utf16 : List ℕ → ℕ → Option (List ℕ)
unfolding put_char put_units
escape_json_utf16 text capacity =
    if capacity == 0 || ltb 1023 (length text)
    then none
    else put_char capacity 34 (put_units capacity text (put_char capacity 34 (some [])))
