-- ===== src/Digest.antt =====
-- src/shared/digest.cpp: the text of a SHA-256 digest. A character is its code, a digest the list of its
-- bytes.
use rs2server_fix.Base.{
  ℕ, suc, ◌+◌, ◌-◌, ◌*◌, ◌/◌, ◌%◌, Bool, true, false, not, ◌&&◌, Option, none, some, List, [], ◌∷◌,
  ◌++◌, length, ltb, leb, ◌==◌, if◌then◌else◌,
}
pub mod Sound

-- The value of a character, 16 when it is none of the upper-case digits.
unfoldable pub hex_value : ℕ → ℕ
hex_value c =
    if leb 48 c && leb c 57 then c - 48 else if leb 65 c && leb c 70 then c - 65 + 10 else 16

unfoldable pub joined : ℕ → ℕ → Option (List ℕ) → Option (List ℕ)
joined high low none = none
joined high low (some bytes) =
    if high == 16 then none else if low == 16 then none else some ((high * 16 + low) ∷ bytes)

-- The loop over the characters, two for each byte.
unfoldable pub parse_pairs : List ℕ → Option (List ℕ)
unfolding hex_value joined
parse_pairs [] = some []
parse_pairs (a ∷ []) = none
parse_pairs (a ∷ b ∷ rest) = joined (hex_value a) (hex_value b) (parse_pairs rest)

unfoldable pub parse_sha256_upper : List ℕ → Option (List ℕ)
unfolding parse_pairs
parse_sha256_upper text = if length text == 64 then parse_pairs text else none

-- A character of `hex`.
unfoldable pub hex_char : ℕ → ℕ
hex_char v = if ltb v 10 then v + 48 else v + 55

unfoldable pub hex_text : List ℕ → List ℕ
unfolding hex_char
hex_text [] = []
hex_text (b ∷ bs) = hex_char (b / 16) ∷ hex_char (b % 16) ∷ hex_text bs

-- With the terminating zero.
unfoldable pub format_sha256_upper : List ℕ → List ℕ
unfolding hex_text
format_sha256_upper digest = hex_text digest ++ 0 ∷ []
