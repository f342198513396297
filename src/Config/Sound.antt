-- ===== src/Config/Sound.antt =====
-- src/companion/steam_reporting_config.cpp: what the text of an accepted configuration says.
use mathlib.Core.List.{Perm, perm_middle}
use mathlib.Core.List.Perm
use rs2server_fix.Base.{
  ℕ, ◌↔◌, ◌≤◌, ◌≡◌, ◌≢◌, refl, sym, ap, ◌∙◌, subst, Bool, true, false, not, ◌&&◌, ◌||◌, Option,
  none, some, List, [], ◌∷◌, ◌++◌, append_assoc, append-nil, ltb, ◌==◌, if◌then◌else◌, length,
  arith, Bool-cases, inl, inr, pick,
}
use rs2server_fix.Types.{Mode, Diagnostics, Reason}
use rs2server_fix.Config.{
  ConfigV3, no_config, Said, assign_split, read_trimmed, read_line, is_text, read_lines,
  nothing_said, is_disabled, concluded, parse_config, config_bytes, trim_start, trim_end,
  drop_return, split_line,
}
use rs2server_fix.Config.Text.{
  schema_key, mode_key, diagnostics_key, schema_name, mode_name, diagnostics_name, Entry, Line,
  Lines, last, next, blank_line, entry_line,
}
use rs2server_fix.Config.Entries.{entries, given, IsSaid, Adds, assign-Adds}

-- What a line leaves: the entries before, or one more.
data Took (native : Bool) (said : Said) (line : List ℕ) (t : Said) : Type 0 where
  nothing : Line line [] → said ≡ t → Took native said line t
  one :
      (e : Entry)
      → Line line (e ∷ [])
      → Perm (given native t) (e ∷ given native said)
      → IsSaid t
      → Took native said line t

assign_split-Took :
    (native : Bool) (line : List ℕ) (said : Said) (r : Option (List ℕ × List ℕ))
    → IsSaid said
    → ((key value : List ℕ)
        → r ≡ some (key, value)
        → Line line ((trim_end key, trim_start value) ∷ []))
    → (t : Said) → assign_split native r said ≡ some t
    → Took native said line t
unfolding assign_split Adds
assign_split-Took native line said none good is_line t h = absurd (cc)
assign_split-Took native line said (some (key, value)) good is_line t h =
    let (added, still) = assign-Adds native (trim_end key) (trim_start value) said good t h in
    one (trim_end key, trim_start value) (is_line key value refl) added still

read_trimmed-Took :
    (native : Bool) (line text : List ℕ) (said : Said)
    → IsSaid said
    → trim_end (trim_start (drop_return line)) ≡ text
    → (t : Said) → read_trimmed native text said ≡ some t
    → Took native said line t
unfolding read_trimmed
read_trimmed-Took native line [] said good e t h = nothing (blank_line line e) cc
read_trimmed-Took native line (c ∷ cs) said good e t h =
    assign_split-Took native line said (split_line (c ∷ cs)) good
      (λ key value k. entry_line line key value (ap split_line e ∙ k)) t h

read_line-Took :
    (native : Bool) (line : List ℕ) (said : Said)
    → IsSaid said
    → (t : Said) → read_line native line said ≡ some t
    → Took native said line t
unfolding read_line
read_line-Took native line said good t h = read_trimmed-Took native line _ said good refl t h

-- What the rest of a file, after a part of a line, leaves.
record IsRead (native : Bool) (said : Said) (bytes : List ℕ) (t : Said) : Type 0 where
  pub found : List Entry
  pub lines : Lines bytes found
  pub order : Perm (given native t) (found ++ given native said)
  pub good : IsSaid t

only_line :
    (native : Bool) (line : List ℕ) (said : Said)
    → IsSaid said
    → (t : Said) → Took native said line t
    → IsRead native said line t
only_line native line said good t (nothing is_line e) = record {
  found = [];
  lines = last is_line;
  order = subst (λ (t : Said). Perm (given native t) (given native said)) e Perm.rfl;
  good = subst IsSaid e good;
}
only_line native line said good t (one e is_line p still) = record {
  found = e ∷ [];
  lines = last is_line;
  order = p;
  good = still;
}

line_before :
    (native : Bool) (line bytes : List ℕ) (said mid : Said)
    → IsSaid said
    → (t : Said) → Took native said line mid
    → (IsSaid mid → IsRead native mid bytes t)
    → IsRead native said (line ++ 0x0a ∷ bytes) t
line_before native line bytes said mid good t (nothing is_line e) k =
    let r = k (subst IsSaid e good) in
    record {
      found = r.found;
      lines = next line bytes is_line r.lines refl;
      order =
          subst (λ (mid : Said). Perm (given native t) (r.found ++ given native mid)) (sym e)
            r.order;
      good = r.good;
    }
line_before native line bytes said mid good t (one e is_line p still) k =
    let r = k still in
    record {
      found = e ∷ r.found;
      lines = next line bytes is_line r.lines refl;
      order =
          Perm.trans r.order
            (Perm.trans (Perm.append_left r.found p) (perm_middle r.found (given native said)));
      good = r.good;
    }

refused_lines :
    (native : Bool) (bytes line : List ℕ) (t : Said)
    → read_lines native bytes line none ≡ some t
    → ⊥
unfolding read_lines
refused_lines native [] line t h = absurd (cc)
refused_lines native (c ∷ bytes) line t h = absurd (cc)

one_more :
    (native : Bool) (said : Said) (line bytes : List ℕ) (c : ℕ) (t : Said)
    → IsSaid said
    → ((line : List ℕ) (said : Said)
        → IsSaid said
        → read_lines native bytes line (some said) ≡ some t
        → IsRead native said (line ++ bytes) t)
    → read_lines native bytes
        (if c == 0x0a then [] else line ++ (c ∷ []))
        (if c == 0x0a then read_line native line said else if is_text c then some said else none)
      ≡ some t
    → IsRead native said (line ++ c ∷ bytes) t
unfolding read_lines
one_more native said line bytes c t good later h = elim (Bool-cases (c == 0x0a)) [
  | inl e ↦
      at_end (read_line native line said) (read_line-Took native line said good) (equal_when c e) (
        sym (
          ap
            (λ b.
              read_lines native bytes (if b then [] else line ++ (c ∷ []))
                (if b then read_line native line said else if is_text c then some said else none))
            e)
        ∙ h)
  | inr e ↦ in_line (is_text c) (
      sym (
        ap
          (λ b.
            read_lines native bytes (if b then [] else line ++ (c ∷ []))
              (if b then read_line native line said else if is_text c then some said else none))
          e)
      ∙ h)
]
  where
    equal_when : (a : ℕ) → (a == 0x0a) ≡ true → a ≡ 0x0a
    equal_when a h = ground arith

    at_end :
        (r : Option Said)
        → ((mid : Said) → r ≡ some mid → Took native said line mid)
        → c ≡ 0x0a
        → read_lines native bytes [] r ≡ some t
        → IsRead native said (line ++ c ∷ bytes) t
    at_end none took e k = absurd (refused_lines native bytes [] t k)
    at_end (some mid) took e k =
        subst (λ c. IsRead native said (line ++ c ∷ bytes) t) (sym e)
          (line_before native line bytes said mid good t (took mid refl)
            (λ still. later [] mid still k))

    in_line :
        (b : Bool)
        → read_lines native bytes (line ++ (c ∷ [])) (if b then some said else none) ≡ some t
        → IsRead native said (line ++ c ∷ bytes) t
    in_line false k = absurd (refused_lines native bytes (line ++ (c ∷ [])) t k)
    in_line true k =
        subst (λ x. IsRead native said x t) (append_assoc line (c ∷ []) bytes)
          (later (line ++ (c ∷ [])) said good k)

read_lines-IsRead :
    (native : Bool) (bytes line : List ℕ) (said t : Said)
    → IsSaid said
    → read_lines native bytes line (some said) ≡ some t
    → IsRead native said (line ++ bytes) t
unfolding read_lines
read_lines-IsRead native [] line said t good h =
    subst (λ x. IsRead native said x t) (sym (append-nil line))
      (only_line native line said good t (read_line-Took native line said good t h))
read_lines-IsRead native (c ∷ bytes) line said t good h =
    one_more native said line bytes c t good
      (λ line said good. read_lines-IsRead native bytes line said t good) h

-- A configuration in a file: up to 4096 bytes of blank lines and of entries, which are, in any order and
-- once each, the schema, the mode and, with the schema 3, the diagnostics.
pub record IsConfig (native : Bool) (bytes : List ℕ) (config : ConfigV3) : Type 0 where
  pub some_bytes : 1 ≤ length bytes
  pub size : length bytes ≤ 4096
  pub found : List Entry
  pub lines : Lines bytes found
  pub order : Perm found (entries native true true native config.mode config.diagnostics)
  pub mode : config.mode ≢ Mode.invalid
  pub detail : (native ≡ true) ↔ (config.diagnostics ≢ Diagnostics.invalid)

abbrev pub reason_of : Mode → Reason
reason_of Mode.disabled = Reason.config_disabled
reason_of _ = Reason.none

pub data Says (native : Bool) (bytes : List ℕ) : Reason × ConfigV3 → Type 0 where
  refuses : Says native bytes (Reason.config_invalid, no_config)
  accepts :
      (config : ConfigV3)
      → IsConfig native bytes config
      → Says native bytes (reason_of config.mode, config)

read_whole :
    (native : Bool) (s m d : Bool) (mode : Mode) (extent : Diagnostics) (bytes : List ℕ)
    (found : List Entry)
    → 1 ≤ length bytes
    → length bytes ≤ 4096
    → Lines bytes found
    → Perm (entries native s m d mode extent) found
    → (not s || not m || (native && not d)) ≡ false
    → (m ≡ true → mode ≢ Mode.invalid)
    → (d ≡ true → extent ≢ Diagnostics.invalid)
    → IsConfig native bytes
        (record { mode = mode; diagnostics = if native then extent else Diagnostics.invalid })
read_whole true true true true mode extent bytes found few size lines p h good_mode good_detail =
    record {
      some_bytes = few;
      size = size;
      found = found;
      lines = lines;
      order = Perm.symm p;
      mode = good_mode refl;
      detail = (λ _. good_detail refl, λ _. refl);
    }
read_whole false true true d mode extent bytes found few size lines p h good_mode good_detail =
    record {
      some_bytes = few;
      size = size;
      found = found;
      lines = lines;
      order = Perm.symm p;
      mode = good_mode refl;
      detail = (λ e. absurd (cc), λ e. absurd (e refl));
    }
read_whole native s m d mode extent bytes found few size lines p h good_mode good_detail =
    absurd (cc)

reason_agrees :
    (m : Mode)
    → m ≢ Mode.invalid
    → reason_of m ≡ (if is_disabled m then Reason.config_disabled else Reason.none)
unfolding is_disabled
reason_agrees Mode.invalid h = absurd (h refl)
reason_agrees Mode.disabled h = refl
reason_agrees Mode.observe h = refl
reason_agrees Mode.repair h = refl

none_yet : (native : Bool) → given native nothing_said ≡ []
unfolding nothing_said
none_yet true = refl
none_yet false = refl

unsaid : IsSaid nothing_said
unfolding nothing_said
unsaid = record { mode = λ e. absurd (cc); detail = λ e. absurd (cc) }

concluded-Says :
    (native : Bool) (bytes : List ℕ) (r : Option Said)
    → 1 ≤ length bytes
    → length bytes ≤ 4096
    → ((t : Said) → r ≡ some t → IsRead native nothing_said bytes t)
    → Says native bytes (concluded native r)
unfolding concluded nothing_said
concluded-Says native bytes none few size k = refuses
concluded-Says native bytes (some said) few size k =
    pick (Says native bytes) (not said.schema || not said.mode || (native && not said.diagnostics))
      _ _ (λ _. refuses)
      λ e.
        let r = k said refl in
        let p : Perm (given native said) r.found =
          subst (Perm (given native said)) (no_more r.found) r.order in
        subst (λ reason. Says native bytes (reason, found_config said))
          (reason_agrees said.selected
            (r.good.mode (read_mode said.schema said.mode said.diagnostics native e)))
          (accepts (found_config said) (
            read_whole native said.schema said.mode said.diagnostics said.selected said.detail bytes
              r.found few size r.lines p e r.good.mode r.good.detail))
  where
    found_config : Said → ConfigV3
    found_config said = record {
      mode = said.selected;
      diagnostics = if native then said.detail else Diagnostics.invalid;
    }

    read_mode : (s m d native : Bool) → (not s || not m || (native && not d)) ≡ false → m ≡ true
    read_mode s m d native h = ground arith

    no_more : (found : List Entry) → found ++ given native nothing_said ≡ found
    no_more found = rw (none_yet native) (append-nil found)

parse_config_result :
    (native : Bool) (bytes : List ℕ) → Says native bytes (parse_config native bytes)
unfolding parse_config
parse_config_result native bytes =
    pick (Says native bytes) (length bytes == 0 || ltb config_bytes (length bytes)) _ _
      (λ _. refuses)
      λ e.
        let (few, size) = in_size (length bytes) e in
        concluded-Says native bytes (read_lines native bytes [] (some nothing_said)) few size
          λ t h. read_lines-IsRead native bytes [] nothing_said t unsaid h
  where
    in_size : (n : ℕ) → (n == 0 || ltb config_bytes n) ≡ false → (1 ≤ n) × (n ≤ 4096)
    in_size n h = (ground arith, ground arith)

-- The text of a configuration with one entry on each line.
abbrev pub config_text : Bool → Mode → Diagnostics → List ℕ
config_text native mode detail =
    schema_key
    ++ 0x3d
      ∷ (schema_name native
          ++ 0x0a
            ∷ (mode_key
                ++ 0x3d
                  ∷ (mode_name mode
                      ++ 0x0a
                        ∷ (if native
                            then diagnostics_key ++ 0x3d ∷ (diagnostics_name detail ++ 0x0a ∷ [])
                            else []))))

config_text_lem :
    (native : Bool) (mode : Mode) (extent : Diagnostics)
    → mode ≢ Mode.invalid
    → extent ≢ Diagnostics.invalid
    → parse_config native (config_text native mode extent) ≡ (
      reason_of mode,
      record { mode = mode; diagnostics = if native then extent else Diagnostics.invalid },
    )
unfolding parse_config
config_text_lem native Mode.invalid extent h k = absurd (h refl)
config_text_lem true mode Diagnostics.invalid h k = absurd (k refl)
config_text_lem false mode Diagnostics.invalid h k = absurd (k refl)
config_text_lem true Mode.disabled Diagnostics.normal h k = refl
config_text_lem true Mode.disabled Diagnostics.detailed h k = refl
config_text_lem true Mode.disabled Diagnostics.operational h k = refl
config_text_lem true Mode.observe Diagnostics.normal h k = refl
config_text_lem true Mode.observe Diagnostics.detailed h k = refl
config_text_lem true Mode.observe Diagnostics.operational h k = refl
config_text_lem true Mode.repair Diagnostics.normal h k = refl
config_text_lem true Mode.repair Diagnostics.detailed h k = refl
config_text_lem true Mode.repair Diagnostics.operational h k = refl
config_text_lem false Mode.disabled extent h k = refl
config_text_lem false Mode.observe extent h k = refl
config_text_lem false Mode.repair extent h k = refl

-- Whatever the bytes of a configuration are, the parser refuses, with the configuration that says
-- nothing, or the bytes are a configuration in a file with the mode and, with the schema 3, the
-- diagnostics that it returns; the reason is `ConfigDisabled` for the disabled mode and `None` for the
-- others. It does not refuse the text of a valid mode and valid diagnostics: it returns the mode and,
-- with the schema 3, the diagnostics.
pub parse_config-Says :
    (native : Bool) (bytes : List ℕ) (mode : Mode) (detail : Diagnostics)
    → mode ≢ Mode.invalid
    → detail ≢ Diagnostics.invalid
    → Says native bytes (parse_config native bytes)
      × (parse_config native (config_text native mode detail) ≡ (
        reason_of mode,
        record { mode = mode; diagnostics = if native then detail else Diagnostics.invalid },
      ))
parse_config-Says native bytes mode detail h k =
    (parse_config_result native bytes, config_text_lem native mode detail h k)
