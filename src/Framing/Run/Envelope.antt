-- ===== src/Framing/Run/Envelope.antt =====
-- src/shared/native_log_framing.cpp: the messages that belong to a run.
use rs2server_fix.Base.{
  ℕ, zero, suc, ◌/◌, ◌%◌, ◌≤◌, ◌<◌, ◌≡◌, ◌≢◌, ◌↔◌, refl, ap, ◌∙◌, Bool, true, ◌&&◌, ◌||◌, leb, ◌==◌,
  List, [], ◌∷◌, ◌++◌, length, all, arith, ==-refl, &&→both, Bool-cases, inl, inr,
}
use rs2server_fix.Framing.{Match, Place, hit, miss, partial, literal, marker}
use rs2server_fix.Framing.Frames.{literal-append}
use rs2server_fix.Framing.Sound.{literal_hit-split}
use rs2server_fix.Framing.Run.{
  lead, run, is_type_char, past_type, hex_digit, is_run_id, followed, typed, belongs_to_run,
}

-- The digit of a number below 16.
abbrev pub digit_at : List ℕ → ℕ → ℕ
digit_at [] n = 0
digit_at (c ∷ cs) zero = c
digit_at (c ∷ cs) (suc n) = digit_at cs n

-- 0123456789abcdef
abbrev hex : List ℕ
hex =
    0x30 ∷ 0x31 ∷ 0x32 ∷ 0x33 ∷ 0x34 ∷ 0x35 ∷ 0x36 ∷ 0x37 ∷ 0x38 ∷ 0x39 ∷ 0x61 ∷ 0x62 ∷ 0x63 ∷ 0x64
    ∷ 0x65 ∷ 0x66 ∷ []

-- Two lower-case hexadecimal digits for each byte.
abbrev pub hex_text : List ℕ → List ℕ
hex_text [] = []
hex_text (v ∷ vs) = digit_at hex (v / 16) ∷ digit_at hex (v % 16) ∷ hex_text vs

digit_lem : (n : ℕ) → n < 16 → hex_digit n ≡ digit_at hex n
unfolding hex_digit
digit_lem zero h = refl
digit_lem (suc zero) h = refl
digit_lem (suc (suc zero)) h = refl
digit_lem (suc (suc (suc zero))) h = refl
digit_lem (suc (suc (suc (suc zero)))) h = refl
digit_lem (suc (suc (suc (suc (suc zero))))) h = refl
digit_lem (suc (suc (suc (suc (suc (suc zero)))))) h = refl
digit_lem (suc (suc (suc (suc (suc (suc (suc zero))))))) h = refl
digit_lem (suc (suc (suc (suc (suc (suc (suc (suc zero)))))))) h = refl
digit_lem (suc (suc (suc (suc (suc (suc (suc (suc (suc zero))))))))) h = refl
digit_lem (suc (suc (suc (suc (suc (suc (suc (suc (suc (suc zero)))))))))) h = refl
digit_lem (suc (suc (suc (suc (suc (suc (suc (suc (suc (suc (suc zero))))))))))) h = refl
digit_lem (suc (suc (suc (suc (suc (suc (suc (suc (suc (suc (suc (suc zero)))))))))))) h = refl
digit_lem (suc (suc (suc (suc (suc (suc (suc (suc (suc (suc (suc (suc (suc zero))))))))))))) h =
    refl
digit_lem (suc (suc (suc (suc (suc (suc (suc (suc (suc (suc (suc (suc (suc (suc zero))))))))))))))
      h =
    refl
digit_lem
      (suc (suc (suc (suc (suc (suc (suc (suc (suc (suc (suc (suc (suc (suc (suc zero)))))))))))))))
      h =
    refl
digit_lem
      (suc
        (suc (suc (suc (suc (suc (suc (suc (suc (suc (suc (suc (suc (suc (suc (suc n))))))))))))))))
      h =
    absurd (omega (arith, h))

-- [RS2ServerFix:event] {"schema":3,"type":"
abbrev pub opening : List ℕ
opening =
    b'[' ∷ b'R' ∷ b'S' ∷ b'2' ∷ b'S' ∷ b'e' ∷ b'r' ∷ b'v' ∷ b'e' ∷ b'r' ∷ b'F' ∷ b'i' ∷ b'x' ∷ b':'
    ∷ b'e' ∷ b'v' ∷ b'e' ∷ b'n' ∷ b't' ∷ b']' ∷ b' ' ∷ b'{' ∷ b'"' ∷ b's' ∷ b'c' ∷ b'h' ∷ b'e'
    ∷ b'm' ∷ b'a' ∷ b'"' ∷ b':' ∷ b'3' ∷ b',' ∷ b'"' ∷ b't' ∷ b'y' ∷ b'p' ∷ b'e' ∷ b'"' ∷ b':'
    ∷ b'"' ∷ []

-- ","run_id":"
abbrev pub between : List ℕ
between = b'"' ∷ b',' ∷ b'"' ∷ b'r' ∷ b'u' ∷ b'n' ∷ b'_' ∷ b'i' ∷ b'd' ∷ b'"' ∷ b':' ∷ b'"' ∷ []

-- A lower-case letter or a dash.
abbrev pub in_type : ℕ → Bool
in_type c = (leb 0x61 c && leb c 0x7a) || c == 0x2d

-- A message with the envelope of a run: its type, the digits of the run, and any rest after them.
pub record IsEnvelope (ids message : List ℕ) : Type 0 where
  pub type_text : List ℕ
  pub rest : List ℕ
  pub whole : message ≡ opening ++ (type_text ++ (between ++ (hex_text ids ++ b'"' ∷ rest)))
  pub named : type_text ≢ []
  pub letters : all in_type type_text ≡ true
  pub short : length type_text ≤ 32

both : (a b : Bool) → a ≡ true → b ≡ true → (a && b) ≡ true
both a b h k = rw (h, k) refl

past_type-split :
    (room : ℕ) (bytes : List ℕ)
    → (t : List ℕ) × (bytes ≡ t ++ past_type room bytes)
      × (all in_type t ≡ true)
      × (length t ≤ room)
unfolding past_type is_type_char
past_type-split zero bytes = ([], refl, refl, omega arith)
past_type-split (suc room) [] = ([], refl, refl, omega arith)
past_type-split (suc room) (c ∷ bytes) = elim (Bool-cases (in_type c)) [
  | inl e ↦
      let (t, split, letters, short) = past_type-split room bytes in
      (c ∷ t, rw (e, ap (◌∷◌ c) split) refl, both _ _ e letters, omega (arith, short))
  | inr e ↦ ([], rw e refl, refl, omega arith)
]

past_type-append :
    (t rest : List ℕ) (room : ℕ)
    → all in_type t ≡ true
    → length t ≤ room
    → past_type room (t ++ b'"' ∷ rest) ≡ b'"' ∷ rest
unfolding past_type is_type_char
past_type-append [] rest zero h k = refl
past_type-append [] rest (suc room) h k = refl
past_type-append (c ∷ t) rest zero h k = absurd (omega arith)
past_type-append (c ∷ t) rest (suc room) h k = ground (arith, past_type-append t rest room)

byte_digits : (v : ℕ) → v < 256 → (v / 16 < 16) × (v % 16 < 16)
byte_digits v h = (omega (arith, h), omega arith)

abbrev pub is_byte : ℕ → Bool
is_byte v = leb v 255

byte_bound : (v : ℕ) → is_byte v ≡ true → v < 256
byte_bound v h = ground arith

is_run_id-append :
    (ids rest : List ℕ)
    → all is_byte ids ≡ true
    → is_run_id ids (hex_text ids ++ b'"' ∷ rest) ≡ true
unfolding is_run_id
is_run_id-append [] rest b = refl
is_run_id-append (v ∷ ids) rest b =
    let (byte, bytes) = &&→both (is_byte v) (all is_byte ids) b in
    let (high, low) = byte_digits v (byte_bound v byte) in
    rw
      (
        digit_lem (v / 16) high,
        digit_lem (v % 16) low,
        ==-refl (digit_at hex (v / 16)),
        ==-refl (digit_at hex (v % 16)),
      )
      (is_run_id-append ids rest bytes)

equal_when : (a b : ℕ) → (a == b) ≡ true → a ≡ b
equal_when a b h = ground arith

is_run_id-split :
    (ids bytes : List ℕ)
    → all is_byte ids ≡ true
    → is_run_id ids bytes ≡ true
    → (rest : List ℕ) × (bytes ≡ hex_text ids ++ b'"' ∷ rest)
unfolding is_run_id
is_run_id-split [] [] b h = absurd (cc)
is_run_id-split [] (c ∷ bytes) b h = (bytes, ap (λ x. x ∷ bytes) (equal_when c b'"' h))
is_run_id-split (v ∷ ids) [] b h = absurd (cc)
is_run_id-split (v ∷ ids) (x ∷ []) b h = absurd (cc)
is_run_id-split (v ∷ ids) (x ∷ y ∷ bytes) b h =
    let (byte, all_bytes) = &&→both (is_byte v) (all is_byte ids) b in
    let (high, low) = byte_digits v (byte_bound v byte) in
    let (two, later) =
      &&→both (x == hex_digit (v / 16) && y == hex_digit (v % 16)) (is_run_id ids bytes) h in
    let (first, second) = &&→both (x == hex_digit (v / 16)) (y == hex_digit (v % 16)) two in
    let (rest, split) = is_run_id-split ids bytes all_bytes later in
    (
      rest,
      rw
          (
            equal_when x (hex_digit (v / 16)) first ∙ digit_lem (v / 16) high,
            equal_when y (hex_digit (v % 16)) second ∙ digit_lem (v % 16) low,
            split,
          )
          refl,
    )

followed-literal :
    (ls rest : List ℕ) (next : List ℕ → Bool)
    → followed (literal ls (ls ++ rest) 0) next ≡ next rest
unfolding followed
followed-literal ls rest next = ap (λ r. followed r next) (literal-append ls rest 0)

followed-split :
    (ls bytes : List ℕ) (next : List ℕ → Bool)
    → followed (literal ls bytes 0) next ≡ true
    → (rest : List ℕ) × (bytes ≡ ls ++ rest) × (next rest ≡ true)
unfolding followed
followed-split ls bytes next h = found (literal ls bytes 0) (literal_hit-split ls bytes 0) h
  where
    found :
        (r : Match × Place)
        → (r.0 ≡ hit → bytes ≡ ls ++ r.1.rest)
        → followed r next ≡ true
        → (rest : List ℕ) × (bytes ≡ ls ++ rest) × (next rest ≡ true)
    found (hit, p) split k = (p.rest, split refl, k)
    found (miss, p) split k = absurd (cc)
    found (partial, p) split k = absurd (cc)

typed-append :
    (ids rest t : List ℕ)
    → all is_byte ids ≡ true
    → t ≢ []
    → all in_type t ≡ true
    → length t ≤ 32
    → typed ids (t ++ (between ++ (hex_text ids ++ b'"' ∷ rest))) ≡ true
unfolding typed is_type_char
typed-append ids rest [] b e letters short = absurd (e refl)
typed-append ids rest (c ∷ t) b e letters short =
    let tail = hex_text ids ++ b'"' ∷ rest in
    let (first, others) = &&→both (in_type c) (all in_type t) letters in
    let past : past_type 31 (t ++ (run ++ tail)) ≡ run ++ tail =
      past_type-append t _ 31 others (omega (arith, short)) in
    rw (first, past) (followed-literal run tail (is_run_id ids) ∙ is_run_id-append ids rest b)

typed-split :
    (ids bytes : List ℕ)
    → all is_byte ids ≡ true
    → typed ids bytes ≡ true
    → (t rest : List ℕ) × (bytes ≡ t ++ (between ++ (hex_text ids ++ b'"' ∷ rest)))
      × (t ≢ [])
      × (all in_type t ≡ true)
      × (length t ≤ 32)
unfolding typed is_type_char
typed-split ids [] b h = absurd (cc)
typed-split ids (c ∷ bytes) b h =
    let (first, then_run) =
      &&→both (in_type c) (followed (literal run (past_type 31 bytes) 0) (is_run_id ids)) h in
    let (t, split, letters, short) = past_type-split 31 bytes in
    let (after, found, is_id) = followed-split run (past_type 31 bytes) (is_run_id ids) then_run in
    let (rest, digits) = is_run_id-split ids after b is_id in
    (
      c ∷ t,
      rest,
      ap (◌∷◌ c) (split ∙ ap (λ x. t ++ x) found ∙ ap (λ x. t ++ (between ++ x)) digits),
      λ e. absurd (cc),
      both _ _ first letters,
      omega (arith, short),
    )

-- For a run of bytes, a message belongs to the run exactly when it is the marker of an event, the
-- schema 3, a type of 1 to 32 lower-case letters and dashes, and the run in two lower-case
-- hexadecimal digits for each byte with a quote after them, whatever follows.
pub belongs_to_run-IsEnvelope :
    (ids message : List ℕ)
    → all is_byte ids ≡ true
    → (belongs_to_run ids message ≡ true) ↔ IsEnvelope ids message
unfolding belongs_to_run
belongs_to_run-IsEnvelope ids message b = (there, back)
  where
    there : belongs_to_run ids message ≡ true → IsEnvelope ids message
    there h =
        let (m, marked, at_lead) =
          followed-split marker message (λ m. followed (literal lead m 0) (typed ids)) h in
        let (body, led, at_type) = followed-split lead m (typed ids) at_lead in
        let (t, rest, split, named, letters, short) = typed-split ids body b at_type in
        record {
          type_text = t;
          rest = rest;
          whole = marked ∙ ap (λ x. marker ++ x) led ∙ ap (λ x. opening ++ x) split;
          named = named;
          letters = letters;
          short = short;
        }

    back : IsEnvelope ids message → belongs_to_run ids message ≡ true
    back e =
        let body = e.type_text ++ (between ++ (hex_text ids ++ b'"' ∷ e.rest)) in
        ap (belongs_to_run ids) e.whole
        ∙ followed-literal marker (lead ++ body) (λ m. followed (literal lead m 0) (typed ids))
        ∙ followed-literal lead body (typed ids)
        ∙ typed-append ids e.rest e.type_text b e.named e.letters e.short
