-- ===== src/Digest/Sound.antt =====
-- src/shared/digest.cpp: the text of a digest and its parser are inverse to each other.
use rs2server_fix.Base.{
  ℕ, ◌+◌, ◌*◌, ◌/◌, ◌%◌, ◌<◌, ◌≡◌, ◌↔◌, refl, sym, ap, subst, ◌∙◌, Bool, true, false, Option, none,
  some, List, [], ◌∷◌, length, all, ltb, ◌==◌, if◌then◌else◌, taken, passed_over, ltb→lt, &&→both,
  Bool-cases, inl, inr, arith,
}
use rs2server_fix.Digest.{hex_value, joined, parse_pairs, parse_sha256_upper, hex_char, hex_text}

abbrev pub is_byte : ℕ → Bool
is_byte b = ltb b 256

hex_value-hex_char : (v : ℕ) → v < 16 → hex_value (hex_char v) ≡ v
unfolding hex_value hex_char
hex_value-hex_char v h = ground arith

hex_char-hex_value : (c : ℕ) → (hex_value c == 16) ≡ false → hex_char (hex_value c) ≡ c
unfolding hex_value hex_char
hex_char-hex_value c h = ground arith

hex_value-bound : (c : ℕ) → (hex_value c == 16) ≡ false → hex_value c < 16
unfolding hex_value
hex_value-bound c h = ground arith

joined_bytes :
    (h l : ℕ) (bs : List ℕ) → h < 16 → l < 16 → joined h l (some bs) ≡ some ((h * 16 + l) ∷ bs)
unfolding joined
joined_bytes h l bs a b =
    passed_over (h == 16) _ _ (ground arith) ∙ passed_over (l == 16) _ _ (ground arith)

nibbles : (b : ℕ) → b < 256 → (b / 16 < 16) × (b % 16 < 16) × (b / 16 * 16 + b % 16 ≡ b)
nibbles b h = (omega (arith, h), omega (arith, h), omega arith)

parse_pairs-hex_text : (d : List ℕ) → all is_byte d ≡ true → parse_pairs (hex_text d) ≡ some d
unfolding parse_pairs hex_text
parse_pairs-hex_text [] h = refl
parse_pairs-hex_text (b ∷ bs) h =
    let both = &&→both (is_byte b) (all is_byte bs) h in
    let n = nibbles b (ltb→lt b 256 both.0) in
    rw
      (
        parse_pairs-hex_text bs both.1,
        hex_value-hex_char (b / 16) n.0,
        hex_value-hex_char (b % 16) n.1,
      )
      (joined_bytes (b / 16) (b % 16) bs n.0 n.1 ∙ ap (λ x. some (x ∷ bs)) n.2)

length-hex_text : (d : List ℕ) → length (hex_text d) ≡ 2 * length d
unfolding hex_text
length-hex_text [] = refl
length-hex_text (b ∷ bs) = omega (arith, length-hex_text bs)

-- What a successful parse of a pair says.
record Pair (h l : ℕ) (o : Option (List ℕ)) (d : List ℕ) : Type 0 where
  high : (h == 16) ≡ false
  low : (l == 16) ≡ false
  rest : List ℕ
  parsed : o ≡ some rest
  made : (h * 16 + l) ∷ rest ≡ d

joined-Pair : (h l : ℕ) (o : Option (List ℕ)) (d : List ℕ) → joined h l o ≡ some d → Pair h l o d
unfolding joined
joined-Pair h l none d e = absurd (cc)
joined-Pair h l (some bs) d e = by_cases (h == 16) (l == 16) refl refl e
  where
    by_cases :
        (x y : Bool)
        → (h == 16) ≡ x
        → (l == 16) ≡ y
        → (if x then none else (if y then none else some ((h * 16 + l) ∷ bs))) ≡ some d
        → Pair h l (some bs) d
    by_cases true y a b e = absurd (cc)
    by_cases false true a b e = absurd (cc)
    by_cases false false a b e = record { high = a; low = b; rest = bs; parsed = refl; made = cc }

split_byte :
    (h l : ℕ)
    → h < 16
    → l < 16
    → (is_byte (h * 16 + l) ≡ true) × ((h * 16 + l) / 16 ≡ h) × ((h * 16 + l) % 16 ≡ l)
split_byte h l a b = (ground arith, omega (arith, a, b), omega (arith, a, b))

hex_text-parse_pairs :
    (t d : List ℕ) → parse_pairs t ≡ some d → (hex_text d ≡ t) × (all is_byte d ≡ true)
unfolding parse_pairs hex_text
hex_text-parse_pairs [] [] e = (refl, refl)
hex_text-parse_pairs [] (b ∷ bs) e = absurd (cc)
hex_text-parse_pairs (a ∷ []) d e = absurd (cc)
hex_text-parse_pairs (x ∷ y ∷ t) d e =
    let p = joined-Pair (hex_value x) (hex_value y) (parse_pairs t) d e in
    let before = hex_text-parse_pairs t p.rest p.parsed in
    let s =
      split_byte (hex_value x) (hex_value y) (hex_value-bound x p.high) (hex_value-bound y p.low) in
    subst (λ z. (hex_text z ≡ x ∷ y ∷ t) × (all is_byte z ≡ true)) p.made
      (
        rw (s.1, s.2, hex_char-hex_value x p.high, hex_char-hex_value y p.low, before.0) refl,
        rw (s.0, before.1) refl,
      )

-- A text parses to a digest exactly when it is the text of that digest, which is 32 bytes: no other
-- spelling of a digest is accepted.
pub parse_sha256_upper-hex_text :
    (t d : List ℕ)
    → (parse_sha256_upper t ≡ some d)
      ↔ ((hex_text d ≡ t) × (length d ≡ 32) × (all is_byte d ≡ true))
unfolding parse_sha256_upper
parse_sha256_upper-hex_text t d = (there, back)
  where
    there :
        (if length t == 64 then parse_pairs t else none) ≡ some d
        → (hex_text d ≡ t) × (length d ≡ 32) × (all is_byte d ≡ true)
    there h = elim (Bool-cases (length t == 64)) [
      | inl e ↦
          let r = hex_text-parse_pairs t d (sym (taken (length t == 64) _ _ e) ∙ h) in
          let n = length-hex_text d in
          let m : length (hex_text d) ≡ length t = ap (λ l. length l) r.0 in
          (r.0, halved (length t) (length d) (sym m ∙ n) e, r.1)
      | inr e ↦ absurd (let z = sym (passed_over (length t == 64) (parse_pairs t) none e) ∙ h in cc)
    ]
      where
        halved : (n m : ℕ) → n ≡ 2 * m → (n == 64) ≡ true → m ≡ 32
        halved n m a b = ground arith

    back :
        (hex_text d ≡ t) × (length d ≡ 32) × (all is_byte d ≡ true)
        → (if length t == 64 then parse_pairs t else none) ≡ some d
    back h =
        let n = length-hex_text d in
        let m : length (hex_text d) ≡ length t = ap (λ l. length l) h.0 in
        let k = h.1 in
        taken (length t == 64) _ _ (doubled (length t) (length d) (sym m ∙ n) k)
        ∙ subst (λ x. parse_pairs x ≡ some d) h.0 (parse_pairs-hex_text d h.2)
      where
        doubled : (n m : ℕ) → n ≡ 2 * m → m ≡ 32 → (n == 64) ≡ true
        doubled n m a b = ground arith
