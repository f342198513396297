-- ===== src/Framing/Run.antt =====
-- src/shared/native_log_framing.cpp: `BelongsToRun`, the envelope of a message of one run.
use rs2server_fix.Base.{
  ℕ, zero, suc, ◌/◌, ◌%◌, ◌+◌, ◌-◌, Bool, false, ◌&&◌, ◌||◌, List, [], ◌∷◌, ltb, leb, ◌==◌,
  if◌then◌else◌,
}
use rs2server_fix.Framing.{Match, hit, miss, partial, Place, literal, marker}
pub mod Envelope

-- {"schema":3,"type":"
abbrev pub lead : List ℕ
lead =
    b'{' ∷ b'"' ∷ b's' ∷ b'c' ∷ b'h' ∷ b'e' ∷ b'm' ∷ b'a' ∷ b'"' ∷ b':' ∷ b'3' ∷ b',' ∷ b'"' ∷ b't'
    ∷ b'y' ∷ b'p' ∷ b'e' ∷ b'"' ∷ b':' ∷ b'"' ∷ []

-- ","run_id":"
abbrev pub run : List ℕ
run = b'"' ∷ b',' ∷ b'"' ∷ b'r' ∷ b'u' ∷ b'n' ∷ b'_' ∷ b'i' ∷ b'd' ∷ b'"' ∷ b':' ∷ b'"' ∷ []

unfoldable pub is_type_char : ℕ → Bool
is_type_char c = (leb b'a' c && leb c b'z') || c == b'-'

-- Passes over at most `room` characters of a type.
unfoldable pub past_type : ℕ → List ℕ → List ℕ
unfolding is_type_char
past_type zero bytes = bytes
past_type (suc room) [] = []
past_type (suc room) (c ∷ bytes) = if is_type_char c then past_type room bytes else c ∷ bytes

-- A lower-case hexadecimal digit.
unfoldable pub hex_digit : ℕ → ℕ
hex_digit n = if ltb n 10 then b'0' + n else b'a' + (n - 10)

unfoldable pub is_run_id : List ℕ → List ℕ → Bool
unfolding hex_digit
is_run_id [] (c ∷ bytes) = c == b'"'
is_run_id [] [] = false
is_run_id (v ∷ run_id) (h ∷ l ∷ bytes) =
    h == hex_digit (v / 16) && l == hex_digit (v % 16) && is_run_id run_id bytes
is_run_id (v ∷ run_id) _ = false

unfoldable pub followed : Match × Place → (List ℕ → Bool) → Bool
followed (hit, p) next = next p.rest
followed (miss, p) next = false
followed (partial, p) next = false

-- After the lead: a type of at least one character, then the run.
unfoldable pub typed : List ℕ → List ℕ → Bool
unfolding is_type_char past_type followed is_run_id literal
typed run_id [] = false
typed run_id (c ∷ bytes) =
    is_type_char c && followed (literal run (past_type 31 bytes) 0) (is_run_id run_id)

unfoldable pub belongs_to_run : List ℕ → List ℕ → Bool
unfolding followed literal typed
belongs_to_run run_id message =
    followed (literal marker message 0) λ m. followed (literal lead m 0) (typed run_id)
