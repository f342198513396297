-- ===== src/Examples/Digest.antt =====
-- A digest of 32 bytes.
use rs2server_fix.Base.{ℕ, ◌↔◌, ◌≡◌, refl, true, some, List, [], ◌∷◌, ◌++◌, length, all}
use rs2server_fix.Digest.{parse_sha256_upper, hex_text}
use rs2server_fix.Digest.Sound.{is_byte, parse_sha256_upper-hex_text}

abbrev eight : List ℕ
eight = 0 ∷ 255 ∷ 171 ∷ 16 ∷ 9 ∷ 160 ∷ 1 ∷ 127 ∷ []

abbrev digest : List ℕ
digest = eight ++ eight ++ eight ++ eight

text_parses : parse_sha256_upper (hex_text digest) ≡ some digest
unfolding parse_sha256_upper hex_text
text_parses = refl

parse_sha256_upper-hex_text_example :
    (parse_sha256_upper (hex_text digest) ≡ some digest)
    ↔ ((hex_text digest ≡ hex_text digest) × (length digest ≡ 32) × (all is_byte digest ≡ true))
parse_sha256_upper-hex_text_example = parse_sha256_upper-hex_text (hex_text digest) digest
