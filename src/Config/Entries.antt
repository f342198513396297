-- ===== src/Config/Entries.antt =====
-- src/companion/steam_reporting_config.cpp: an assignment adds its entry to those that were read.
use mathlib.Core.List.{Perm}
use mathlib.Core.List.Perm
use rs2server_fix.Base.{
  ℕ, ◌≡◌, ◌≢◌, refl, subst, Bool, true, false, not, ◌&&◌, ◌||◌, Option, none, some, List, [], ◌∷◌,
  if◌then◌else◌, same, same→eq, arith, pick,
}
use rs2server_fix.Types.{Mode, Diagnostics}
use rs2server_fix.Config.{
  Said, mode_of, diagnostics_of, say_mode, say_diagnostics, assign, schema_word, mode_word,
  diagnostics_word, disabled_word, observe_word, repair_word, normal_word, detailed_word,
  operational_word,
}
use rs2server_fix.Config.Text.{
  schema_key, mode_key, diagnostics_key, schema_name, mode_name, diagnostics_name, Entry,
}

-- The entries that have been read, in the order of the keys.
abbrev pub listed : Bool → Bool → Bool → Entry → Entry → Entry → List Entry
listed true true true x y z = x ∷ y ∷ z ∷ []
listed true true false x y z = x ∷ y ∷ []
listed true false true x y z = x ∷ z ∷ []
listed true false false x y z = x ∷ []
listed false true true x y z = y ∷ z ∷ []
listed false true false x y z = y ∷ []
listed false false true x y z = z ∷ []
listed false false false x y z = []

-- An entry that is read for the first time.
first_added :
    (b m d : Bool) (x x' y z : Entry)
    → b ≡ false
    → Perm (listed true m d x y z) (x ∷ listed b m d x' y z)
first_added true m d x x' y z h = absurd (cc)
first_added false true true x x' y z h = Perm.rfl
first_added false true false x x' y z h = Perm.rfl
first_added false false true x x' y z h = Perm.rfl
first_added false false false x x' y z h = Perm.rfl

second_added :
    (b s d : Bool) (x y y' z : Entry)
    → b ≡ false
    → Perm (listed s true d x y z) (y ∷ listed s b d x y' z)
second_added true s d x y y' z h = absurd (cc)
second_added false true true x y y' z h = Perm.swap y x (z ∷ [])
second_added false true false x y y' z h = Perm.swap y x []
second_added false false true x y y' z h = Perm.rfl
second_added false false false x y y' z h = Perm.rfl

third_added :
    (b s m : Bool) (x y z z' : Entry)
    → b ≡ false
    → Perm (listed s m true x y z) (z ∷ listed s m b x y z')
third_added true s m x y z z' h = absurd (cc)
third_added false true true x y z z' h =
    Perm.trans (Perm.cons x (Perm.swap z y [])) (Perm.swap z x (y ∷ []))
third_added false true false x y z z' h = Perm.swap z x []
third_added false false true x y z z' h = Perm.swap z y []
third_added false false false x y z z' h = Perm.rfl

abbrev pub entries : Bool → Bool → Bool → Bool → Mode → Diagnostics → List Entry
entries native s m d mode detail =
    listed s m (native && d) (schema_key, schema_name native) (mode_key, mode_name mode)
      (diagnostics_key, diagnostics_name detail)

abbrev pub given : Bool → Said → List Entry
given native said = entries native said.schema said.mode said.diagnostics said.selected said.detail

mode_of-name :
    (value : List ℕ) (m : Mode)
    → mode_of value ≡ some m
    → (value ≡ mode_name m) × (m ≢ Mode.invalid)
unfolding mode_of
mode_of-name value m h =
    named (same value disabled_word) (same value observe_word) (same value repair_word) m
      (same→eq value disabled_word) (same→eq value observe_word) (same→eq value repair_word) h
  where
    named :
        (a b c : Bool) (m : Mode)
        → (a ≡ true → value ≡ disabled_word)
        → (b ≡ true → value ≡ observe_word)
        → (c ≡ true → value ≡ repair_word)
        → (if a
            then some Mode.disabled
            else if b
            then some Mode.observe
            else if c
            then some Mode.repair
            else none)
          ≡ some m
        → (value ≡ mode_name m) × (m ≢ Mode.invalid)
    named true b c Mode.disabled f g h e = (f refl, cc)
    named false true c Mode.observe f g h e = (g refl, cc)
    named false false true Mode.repair f g h e = (h refl, cc)
    named a b c m f g h e = absurd (cc)

diagnostics_of-name :
    (value : List ℕ) (m : Diagnostics)
    → diagnostics_of value ≡ some m
    → (value ≡ diagnostics_name m) × (m ≢ Diagnostics.invalid)
unfolding diagnostics_of
diagnostics_of-name value m h =
    named (same value normal_word) (same value detailed_word) (same value operational_word) m
      (same→eq value normal_word) (same→eq value detailed_word) (same→eq value operational_word) h
  where
    named :
        (a b c : Bool) (m : Diagnostics)
        → (a ≡ true → value ≡ normal_word)
        → (b ≡ true → value ≡ detailed_word)
        → (c ≡ true → value ≡ operational_word)
        → (if a
            then some Diagnostics.normal
            else if b
            then some Diagnostics.detailed
            else if c
            then some Diagnostics.operational
            else none)
          ≡ some m
        → (value ≡ diagnostics_name m) × (m ≢ Diagnostics.invalid)
    named true b c Diagnostics.normal f g h e = (f refl, cc)
    named false true c Diagnostics.detailed f g h e = (g refl, cc)
    named false false true Diagnostics.operational f g h e = (h refl, cc)
    named a b c m f g h e = absurd (cc)

-- What has been said is a mode and a detail that the type has beside `Invalid`.
pub record IsSaid (said : Said) : Type 0 where
  pub mode : said.mode ≡ true → said.selected ≢ Mode.invalid
  pub detail : said.diagnostics ≡ true → said.detail ≢ Diagnostics.invalid

-- A successful step adds an entry to those that were read.
unfoldable pub Adds : Bool → Said → Entry → Option Said → Type 0
Adds native said e r =
    (t : Said) → r ≡ some t → Perm (given native t) (e ∷ given native said) × IsSaid t

refused-Adds : (native : Bool) (said : Said) (e : Entry) → Adds native said e none
unfolding Adds
refused-Adds native said e t h = absurd (cc)

found-Adds :
    (native : Bool) (said later : Said) (e f : Entry)
    → f ≡ e
    → Perm (given native later) (f ∷ given native said)
    → IsSaid later
    → Adds native said e (some later)
unfolding Adds
found-Adds native said later e f agree p good t h =
    let is_later : later ≡ t = cc in
    subst (λ (t : Said). Perm (given native t) (e ∷ given native said) × IsSaid t) is_later
      (subst (λ (e : Entry). Perm (given native later) (e ∷ given native said)) agree p, good)

say_mode-Adds :
    (native : Bool) (said : Said) (key value : List ℕ) (r : Option Mode)
    → IsSaid said
    → said.mode ≡ false
    → key ≡ mode_key
    → ((m : Mode) → r ≡ some m → (value ≡ mode_name m) × (m ≢ Mode.invalid))
    → Adds native said (key, value) (say_mode said r)
unfolding say_mode
say_mode-Adds native said key value none good fresh k named = refused-Adds native said (key, value)
say_mode-Adds native said key value (some m) good fresh k named =
    let (name, valid) = named m refl in
    found-Adds native said (record said { selected = m; mode = true }) (key, value)
      (mode_key, mode_name m) (rw (k, name) refl)
      (second_added said.mode said.schema (native && said.diagnostics) _ _ _ _ fresh)
      (record { mode = λ _. valid; detail = good.detail })

say_diagnostics-Adds :
    (said : Said) (key value : List ℕ) (r : Option Diagnostics)
    → IsSaid said
    → said.diagnostics ≡ false
    → key ≡ diagnostics_key
    → ((m : Diagnostics) → r ≡ some m → (value ≡ diagnostics_name m) × (m ≢ Diagnostics.invalid))
    → Adds true said (key, value) (say_diagnostics said r)
unfolding say_diagnostics
say_diagnostics-Adds said key value none good fresh k named = refused-Adds true said (key, value)
say_diagnostics-Adds said key value (some m) good fresh k named =
    let (name, valid) = named m refl in
    found-Adds true said (record said { detail = m; diagnostics = true }) (key, value)
      (diagnostics_key, diagnostics_name m) (rw (k, name) refl)
      (third_added said.diagnostics said.schema said.mode _ _ _ _ fresh)
      (record { mode = good.mode; detail = λ _. valid })

neither : (a b : Bool) → (a || not b) ≡ false → (a ≡ false) × (b ≡ true)
neither a b h = (ground arith, ground arith)

schema_value :
    (native : Bool) (value : List ℕ)
    → same value ((if native then b'3' else b'2') ∷ []) ≡ true
    → value ≡ schema_name native
schema_value true value h = same→eq value (b'3' ∷ []) h
schema_value false value h = same→eq value (b'2' ∷ []) h

native_assign-Adds :
    (native : Bool) (key value : List ℕ) (said : Said)
    → IsSaid said
    → Adds native said
        (key, value)
        (if native
          then if not (same key diagnostics_word) || said.diagnostics
            then none
            else say_diagnostics said (diagnostics_of value)
          else none)
native_assign-Adds false key value said good = refused-Adds false said (key, value)
native_assign-Adds true key value said good =
    pick (Adds true said (key, value)) (not (same key diagnostics_word) || said.diagnostics) _ _
      (λ _. refused-Adds true said (key, value))
      λ e.
        let (known, fresh) = key_facts (same key diagnostics_word) said.diagnostics e in
        say_diagnostics-Adds said key value (diagnostics_of value) good fresh
          (same→eq key diagnostics_word known) (diagnostics_of-name value)
  where
    key_facts : (a b : Bool) → (not a || b) ≡ false → (a ≡ true) × (b ≡ false)
    key_facts a b h = (ground arith, ground arith)

pub assign-Adds :
    (native : Bool) (key value : List ℕ) (said : Said)
    → IsSaid said
    → Adds native said (key, value) (assign native key value said)
unfolding assign
assign-Adds native key value said good =
    pick (Adds native said (key, value)) (same key schema_word) _ _
      (λ k.
        pick (Adds native said (key, value))
          (said.schema || not (same value ((if native then b'3' else b'2') ∷ []))) _ _
          (λ _. refused-Adds native said (key, value))
          λ e.
            let (fresh, right) =
              neither said.schema (same value ((if native then b'3' else b'2') ∷ [])) e in
            found-Adds native said (record said { schema = true }) (key, value)
              (schema_key, schema_name native)
              (rw (same→eq key schema_word k, schema_value native value right) refl)
              (first_added said.schema said.mode (native && said.diagnostics) _ _ _ _ fresh)
              (record { mode = good.mode; detail = good.detail }))
      λ _.
        pick (Adds native said (key, value)) (same key mode_word) _ _
          (λ k.
            pick (Adds native said (key, value)) said.mode _ _
              (λ _. refused-Adds native said (key, value))
              λ fresh.
                say_mode-Adds native said key value (mode_of value) good fresh
                  (same→eq key mode_word k) (mode_of-name value))
          (λ _. native_assign-Adds native key value said good)
