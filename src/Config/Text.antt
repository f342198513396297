-- ===== src/Config/Text.antt =====
-- src/companion/steam_reporting_config.cpp: the text of a configuration, independently of its parser.
use rs2server_fix.Base.{
  ℕ, ◌≡◌, ◌⊎◌, inl, inr, refl, ap, ◌∙◌, Bool, true, false, ◌||◌, ◌&&◌, ◌==◌, Option, none, some,
  List, [], ◌∷◌, ◌++◌, all, Bool-cases, if◌then◌else◌, arith,
}
use rs2server_fix.Types.{Mode, Diagnostics}
use rs2server_fix.Config.{is_space, trim_start, add_trimmed, trim_end, drop_return, split_line}

abbrev pub schema_key : List ℕ
schema_key = b's' ∷ b'c' ∷ b'h' ∷ b'e' ∷ b'm' ∷ b'a' ∷ []

abbrev pub mode_key : List ℕ
mode_key = b'm' ∷ b'o' ∷ b'd' ∷ b'e' ∷ []

abbrev pub diagnostics_key : List ℕ
diagnostics_key = b'd' ∷ b'i' ∷ b'a' ∷ b'g' ∷ b'n' ∷ b'o' ∷ b's' ∷ b't' ∷ b'i' ∷ b'c' ∷ b's' ∷ []

abbrev pub schema_name : Bool → List ℕ
schema_name true = b'3' ∷ []
schema_name false = b'2' ∷ []

abbrev pub mode_name : Mode → List ℕ
mode_name Mode.invalid = []
mode_name Mode.disabled = b'd' ∷ b'i' ∷ b's' ∷ b'a' ∷ b'b' ∷ b'l' ∷ b'e' ∷ b'd' ∷ []
mode_name Mode.observe = b'o' ∷ b'b' ∷ b's' ∷ b'e' ∷ b'r' ∷ b'v' ∷ b'e' ∷ []
mode_name Mode.repair = b'r' ∷ b'e' ∷ b'p' ∷ b'a' ∷ b'i' ∷ b'r' ∷ []

abbrev pub diagnostics_name : Diagnostics → List ℕ
diagnostics_name Diagnostics.invalid = []
diagnostics_name Diagnostics.normal = b'n' ∷ b'o' ∷ b'r' ∷ b'm' ∷ b'a' ∷ b'l' ∷ []
diagnostics_name Diagnostics.detailed = b'd' ∷ b'e' ∷ b't' ∷ b'a' ∷ b'i' ∷ b'l' ∷ b'e' ∷ b'd' ∷ []
diagnostics_name Diagnostics.operational =
    b'o' ∷ b'p' ∷ b'e' ∷ b'r' ∷ b'a' ∷ b't' ∷ b'i' ∷ b'o' ∷ b'n' ∷ b'a' ∷ b'l' ∷ []

-- A key with its value.
abbrev pub Entry : Type 0
Entry = List ℕ × List ℕ

abbrev is_pad : ℕ → Bool
is_pad c = c == 0x20 || c == 0x09

abbrev IsPad : List ℕ → Type 0
IsPad cs = all is_pad cs ≡ true

abbrev IsReturn : List ℕ → Type 0
IsReturn cs = (cs ≡ []) ⊎ (cs ≡ 0x0d ∷ [])

-- A line without its end: one that is blank, or an entry with spaces and tabs around the key and
-- the value, and a carriage return at the end of either.
pub data Line (line : List ℕ) : List Entry → Type 0 where
  blank :
      (pad end back : List ℕ)
      → IsPad pad
      → IsPad end
      → IsReturn back
      → line ≡ (pad ++ end) ++ back
      → Line line []
  entry :
      (key value a b c d back : List ℕ)
      → IsPad a
      → IsPad b
      → IsPad c
      → IsPad d
      → IsReturn back
      → line ≡ (a ++ (((key ++ b) ++ 0x3d ∷ (c ++ value)) ++ d)) ++ back
      → Line line ((key, value) ∷ [])

-- The lines of a file, with a line feed between each and the next, and their entries.
pub data Lines : List ℕ → List Entry → Type 0 where
  last : {bytes : List ℕ} {es : List Entry} → Line bytes es → Lines bytes es
  next :
      {bytes : List ℕ} {es fs : List Entry} (line rest : List ℕ)
      → Line line es
      → Lines rest fs
      → bytes ≡ line ++ 0x0a ∷ rest
      → Lines bytes (es ++ fs)

both : (a b : Bool) → a ≡ true → b ≡ true → (a && b) ≡ true
both a b h k = rw (h, k) refl

trim_start-IsPad : (l : List ℕ) → (pad : List ℕ) × IsPad pad × (l ≡ pad ++ trim_start l)
unfolding trim_start is_space
trim_start-IsPad [] = ([], refl, refl)
trim_start-IsPad (c ∷ cs) = elim (Bool-cases (is_pad c)) [
  | inl e ↦
      let (pad, spaces, split) = trim_start-IsPad cs in
      (c ∷ pad, both _ _ e spaces, rw e (ap (◌∷◌ c) split))
  | inr e ↦ ([], refl, rw e refl)
]

add_trimmed-IsPad :
    (c : ℕ) (cs : List ℕ) (pad : List ℕ)
    → IsPad pad
    → (end : List ℕ) × IsPad end × (c ∷ (cs ++ pad) ≡ add_trimmed c cs ++ end)
unfolding add_trimmed is_space
add_trimmed-IsPad c [] pad h = elim (Bool-cases (is_pad c)) [
  | inl e ↦ (c ∷ pad, both _ _ e h, rw e refl)
  | inr e ↦ (pad, h, rw e refl)
]
add_trimmed-IsPad c (d ∷ cs) pad h = (pad, h, refl)

trim_end-IsPad : (l : List ℕ) → (pad : List ℕ) × IsPad pad × (l ≡ trim_end l ++ pad)
unfolding trim_end
trim_end-IsPad [] = ([], refl, refl)
trim_end-IsPad (c ∷ cs) =
    let (pad, spaces, split) = trim_end-IsPad cs in
    let (end, more, added) = add_trimmed-IsPad c (trim_end cs) pad spaces in
    (end, more, ap (◌∷◌ c) split ∙ added)

equal_when : (a b : ℕ) → (a == b) ≡ true → a ≡ b
equal_when a b h = ground arith

drop_return-IsReturn : (l : List ℕ) → (back : List ℕ) × IsReturn back × (l ≡ drop_return l ++ back)
unfolding drop_return
drop_return-IsReturn [] = ([], inl refl, refl)
drop_return-IsReturn (c ∷ []) = elim (Bool-cases (c == 0x0d)) [
  | inl e ↦ (0x0d ∷ [], inr refl, rw e (ap (λ x. x ∷ []) (equal_when c 0x0d e)))
  | inr e ↦ ([], inl refl, rw e refl)
]
drop_return-IsReturn (c ∷ d ∷ ds) =
    let (back, ends, split) = drop_return-IsReturn (d ∷ ds) in (back, ends, ap (◌∷◌ c) split)

split_line-eq : (l key value : List ℕ) → split_line l ≡ some (key, value) → l ≡ key ++ 0x3d ∷ value
unfolding split_line
split_line-eq [] key value h = absurd (cc)
split_line-eq (c ∷ cs) key value h = at_sign (c == 0x3d) refl (split_line cs) (split_line-eq cs) h
  where
    at_sign :
        (b : Bool)
        → (c == 0x3d) ≡ b
        → (r : Option (List ℕ × List ℕ)) → ((k v : List ℕ) → r ≡ some (k, v) → cs ≡ k ++ 0x3d ∷ v)
        → if◌then◌else◌ {A = Option (List ℕ × List ℕ)} b
            (some ([], cs))
            (elim r [ none ↦ none | some (key, value) ↦ some (c ∷ key, value) ])
          ≡ some (key, value)
        → c ∷ cs ≡ key ++ 0x3d ∷ value
    at_sign true e r k h = rw (equal_when c 0x3d e) cc
    at_sign false e none k h = absurd (cc)
    at_sign false e (some (before, after)) k h = ap (◌∷◌ c) (k before after refl) ∙ cc

pub line_trimmed :
    (line : List ℕ)
    → (pad end back : List ℕ) × IsPad pad
      × IsPad end
      × IsReturn back
      × (line ≡ (pad ++ (trim_end (trim_start (drop_return line)) ++ end)) ++ back)
line_trimmed line =
    let (back, ends, returned) = drop_return-IsReturn line in
    let (pad, spaces, started) = trim_start-IsPad (drop_return line) in
    let (end, more, ended) = trim_end-IsPad (trim_start (drop_return line)) in
    (
      pad,
      end,
      back,
      spaces,
      more,
      ends,
      returned ∙ ap (λ x. x ++ back) (started ∙ ap (λ x. pad ++ x) ended),
    )

pub blank_line : (line : List ℕ) → trim_end (trim_start (drop_return line)) ≡ [] → Line line []
blank_line line e =
    let (pad, end, back, spaces, more, ends, whole) = line_trimmed line in
    blank pad end back spaces more ends (whole ∙ ap (λ x. (pad ++ (x ++ end)) ++ back) e)

pub entry_line :
    (line key value : List ℕ)
    → split_line (trim_end (trim_start (drop_return line))) ≡ some (key, value)
    → Line line ((trim_end key, trim_start value) ∷ [])
entry_line line key value e =
    let (a, d, back, spaces, more, ends, whole) = line_trimmed line in
    let (b, after_key, keyed) = trim_end-IsPad key in
    let (c, before_value, valued) = trim_start-IsPad value in
    let split = split_line-eq (trim_end (trim_start (drop_return line))) key value e in
    entry (trim_end key) (trim_start value) a b c d back spaces after_key before_value more ends (
      whole
      ∙ ap (λ x. (a ++ (x ++ d)) ++ back)
          (split
            ∙ ap (λ x. x ++ 0x3d ∷ value) keyed
            ∙ ap (λ x. (trim_end key ++ b) ++ 0x3d ∷ x) valued))
