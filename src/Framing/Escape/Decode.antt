-- ===== src/Framing/Escape/Decode.antt =====
-- src/shared/native_log_framing.cpp: an escaped text is read back by a reader of JSON strings.
use rs2server_fix.Base.{
  ℕ, zero, suc, ◌+◌, ◌-◌, ◌*◌, ◌/◌, ◌%◌, ◌<◌, ◌≡◌, ap, ◌∙◌, true, false, ◌&&◌, ◌||◌, Option, none,
  some, List, [], ◌∷◌, ◌++◌, append_assoc, all, ltb, leb, ◌==◌, if◌then◌else◌, ltb→lt, &&→both,
  pick, taken, passed_over, arith,
}
use rs2server_fix.Framing.Escape.{hex_lower, unit_chars}

-- A reader of JSON strings, for one character after another: before the opening quote, in the text, after
-- a backslash, with so many hexadecimal digits left, after the closing quote.
pub data Reading : Type 0 where
  opening plain escaped closed : Reading
  digits : ℕ → ℕ → Reading

unfoldable pub digit_value : ℕ → Option ℕ
digit_value c =
    if leb 48 c && leb c 57
    then some (c - 48)
    else if leb 97 c && leb c 102
    then some (c - 87)
    else none

unfoldable pub with_unit : ℕ → Option (List ℕ) → Option (List ℕ)
with_unit v (some vs) = some (v ∷ vs)
with_unit v none = none

unfoldable pub on_digit : ℕ → ℕ → Option ℕ → (Reading → Option (List ℕ)) → Option (List ℕ)
unfolding with_unit
on_digit left value none rest = none
on_digit zero value (some d) rest = none
on_digit (suc zero) value (some d) rest = with_unit (value * 16 + d) (rest Reading.plain)
on_digit (suc (suc left)) value (some d) rest = rest (Reading.digits (suc left) (value * 16 + d))

-- One character; `rest` is the reading of those after it.
unfoldable pub on_char : Reading → ℕ → (Reading → Option (List ℕ)) → Option (List ℕ)
unfolding on_digit digit_value with_unit
on_char Reading.opening c rest = if c == 34 then rest Reading.plain else none
on_char Reading.plain c rest =
    if c == 34
    then rest Reading.closed
    else if c == 92
    then rest Reading.escaped
    else with_unit c (rest Reading.plain)
on_char Reading.escaped c rest =
    if c == 117
    then rest (Reading.digits 4 0)
    else if c == 34 || c == 92
    then with_unit c (rest Reading.plain)
    else none
on_char Reading.closed c rest = none
on_char (Reading.digits left value) c rest = on_digit left value (digit_value c) rest

unfoldable pub read_string : List ℕ → Reading → Option (List ℕ)
unfolding on_char
read_string [] Reading.closed = some []
read_string [] _ = none
read_string (c ∷ cs) r = on_char r c (read_string cs)

-- The text between the quotes.
unfoldable pub escaped_units : List ℕ → List ℕ
escaped_units [] = []
escaped_units (v ∷ vs) = unit_chars v ++ escaped_units vs

digit_value-hex_lower : (v : ℕ) → v < 16 → digit_value (hex_lower v) ≡ some v
unfolding digit_value hex_lower
digit_value-hex_lower v h = ground arith

four_digits :
    (v : ℕ)
    → v < 65536
    → (((0 * 16 + v / 4096 % 16) * 16 + v / 256 % 16) * 16 + v / 16 % 16) * 16 + v % 16 ≡ v
four_digits v h = omega (arith, h)

digit_bound : (v : ℕ) → v % 16 < 16
digit_bound v = omega arith

read_digits :
    (v : ℕ) (rest : List ℕ)
    → v < 65536
    → read_string
        (hex_lower (v / 4096 % 16)
          ∷ hex_lower (v / 256 % 16)
          ∷ hex_lower (v / 16 % 16)
          ∷ hex_lower (v % 16)
          ∷ rest)
        (Reading.digits 4 0)
      ≡ with_unit v (read_string rest Reading.plain)
unfolding read_string on_digit
read_digits v rest h =
    rw
      (
        digit_value-hex_lower (v / 4096 % 16) (digit_bound (v / 4096)),
        digit_value-hex_lower (v / 256 % 16) (digit_bound (v / 256)),
        digit_value-hex_lower (v / 16 % 16) (digit_bound (v / 16)),
        digit_value-hex_lower (v % 16) (digit_bound v),
      )
      (ap (λ n. with_unit n (read_string rest Reading.plain)) (four_digits v h))

plain_unit :
    (v : ℕ) (rest : List ℕ)
    → (v == 34 || v == 92) ≡ false
    → read_string (v ∷ rest) Reading.plain ≡ with_unit v (read_string rest Reading.plain)
unfolding read_string
plain_unit v rest e =
    passed_over (v == 34) _ _ (ground arith) ∙ passed_over (v == 92) _ _ (ground arith)

quoted_unit :
    (v : ℕ) (rest : List ℕ)
    → (v == 34 || v == 92) ≡ true
    → read_string (92 ∷ v ∷ rest) Reading.plain ≡ with_unit v (read_string rest Reading.plain)
unfolding read_string
quoted_unit v rest e = passed_over (v == 117) _ _ (ground arith) ∙ taken (v == 34 || v == 92) _ _ e

read_unit :
    (v : ℕ) (rest : List ℕ)
    → v < 65536
    → read_string (unit_chars v ++ rest) Reading.plain
      ≡ with_unit v (read_string rest Reading.plain)
unfolding unit_chars read_string
read_unit v rest h =
    pick
      (λ (cs : List ℕ).
        read_string (cs ++ rest) Reading.plain ≡ with_unit v (read_string rest Reading.plain))
      (v == 34 || v == 92) _ _ (λ e. quoted_unit v rest e)
      λ e.
        pick
          (λ (cs : List ℕ).
            read_string (cs ++ rest) Reading.plain ≡ with_unit v (read_string rest Reading.plain))
          (leb 32 v && leb v 126) _ _ (λ _. plain_unit v rest e) (λ _. read_digits v rest h)

pub read_units :
    (vs rest : List ℕ)
    → all (λ v. ltb v 65536) vs ≡ true
    → read_string rest Reading.plain ≡ some []
    → read_string (escaped_units vs ++ rest) Reading.plain ≡ some vs
unfolding escaped_units with_unit
read_units [] rest h e = e
read_units (v ∷ vs) rest h e =
    let both = &&→both (ltb v 65536) (all (λ v. ltb v 65536) vs) h in
    ap (λ l. read_string l Reading.plain) (append_assoc (unit_chars v) (escaped_units vs) rest)
    ∙ read_unit v (escaped_units vs ++ rest) (ltb→lt v 65536 both.0)
    ∙ ap (with_unit v) (read_units vs rest both.1 e)
