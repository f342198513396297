-- ===== src/Config.antt =====
-- src/companion/steam_reporting_config.cpp: the parser of the configuration file, of the schema 2 and
-- of the schema 3. The file itself is read by the operating system; a null pointer, which the source
-- refuses, does not arise.
use rs2server_fix.Base.{
  ℕ, Bool, true, false, not, ◌&&◌, ◌||◌, Option, none, some, List, [], ◌∷◌, ◌++◌, ltb, ◌==◌,
  if◌then◌else◌, length, same,
}
use rs2server_fix.Types.{Mode, Diagnostics, Reason}
pub mod Text
pub mod Entries
pub mod Sound

abbrev pub config_bytes : ℕ
config_bytes = 4096

pub record ConfigV3 : Type 0 where
  pub mode : Mode
  pub diagnostics : Diagnostics

abbrev pub no_config : ConfigV3
no_config = record { mode = Mode.invalid; diagnostics = Diagnostics.invalid }

abbrev schema_word : List ℕ
schema_word = b's' ∷ b'c' ∷ b'h' ∷ b'e' ∷ b'm' ∷ b'a' ∷ []

abbrev mode_word : List ℕ
mode_word = b'm' ∷ b'o' ∷ b'd' ∷ b'e' ∷ []

abbrev diagnostics_word : List ℕ
diagnostics_word = b'd' ∷ b'i' ∷ b'a' ∷ b'g' ∷ b'n' ∷ b'o' ∷ b's' ∷ b't' ∷ b'i' ∷ b'c' ∷ b's' ∷ []

abbrev disabled_word : List ℕ
disabled_word = b'd' ∷ b'i' ∷ b's' ∷ b'a' ∷ b'b' ∷ b'l' ∷ b'e' ∷ b'd' ∷ []

abbrev observe_word : List ℕ
observe_word = b'o' ∷ b'b' ∷ b's' ∷ b'e' ∷ b'r' ∷ b'v' ∷ b'e' ∷ []

abbrev repair_word : List ℕ
repair_word = b'r' ∷ b'e' ∷ b'p' ∷ b'a' ∷ b'i' ∷ b'r' ∷ []

abbrev normal_word : List ℕ
normal_word = b'n' ∷ b'o' ∷ b'r' ∷ b'm' ∷ b'a' ∷ b'l' ∷ []

abbrev detailed_word : List ℕ
detailed_word = b'd' ∷ b'e' ∷ b't' ∷ b'a' ∷ b'i' ∷ b'l' ∷ b'e' ∷ b'd' ∷ []

abbrev operational_word : List ℕ
operational_word = b'o' ∷ b'p' ∷ b'e' ∷ b'r' ∷ b'a' ∷ b't' ∷ b'i' ∷ b'o' ∷ b'n' ∷ b'a' ∷ b'l' ∷ []

-- What the lines before have said.
pub record Said : Type 0 where
  pub schema : Bool
  pub mode : Bool
  pub diagnostics : Bool
  pub selected : Mode
  pub detail : Diagnostics

unfoldable pub is_space : ℕ → Bool
is_space c = c == b' ' || c == 0x09

-- Without the spaces before,
unfoldable pub trim_start : List ℕ → List ℕ
unfolding is_space
trim_start [] = []
trim_start (c ∷ cs) = if is_space c then trim_start cs else c ∷ cs

-- and without those after.
unfoldable pub add_trimmed : ℕ → List ℕ → List ℕ
unfolding is_space
add_trimmed c [] = if is_space c then [] else c ∷ []
add_trimmed c (d ∷ ds) = c ∷ d ∷ ds

unfoldable pub trim_end : List ℕ → List ℕ
unfolding add_trimmed
trim_end [] = []
trim_end (c ∷ cs) = add_trimmed c (trim_end cs)

-- Without one carriage return at the end.
unfoldable pub drop_return : List ℕ → List ℕ
drop_return [] = []
drop_return (c ∷ []) = if c == 0x0d then [] else c ∷ []
drop_return (c ∷ d ∷ ds) = c ∷ drop_return (d ∷ ds)

-- The key and the value around the first `=`.
unfoldable pub split_line : List ℕ → Option (List ℕ × List ℕ)
split_line [] = none
split_line (c ∷ cs) =
    let rest = split_line cs in
    if c == b'='
    then some ([], cs)
    else elim rest [ none ↦ none | some (key, value) ↦ some (c ∷ key, value) ]

unfoldable pub mode_of : List ℕ → Option Mode
mode_of value =
    if same value disabled_word
    then some Mode.disabled
    else if same value observe_word
    then some Mode.observe
    else if same value repair_word
    then some Mode.repair
    else none

unfoldable pub diagnostics_of : List ℕ → Option Diagnostics
diagnostics_of value =
    if same value normal_word
    then some Diagnostics.normal
    else if same value detailed_word
    then some Diagnostics.detailed
    else if same value operational_word
    then some Diagnostics.operational
    else none

unfoldable pub say_mode : Said → Option Mode → Option Said
say_mode said none = none
say_mode said (some mode) = some (record said { selected = mode; mode = true })

unfoldable pub say_diagnostics : Said → Option Diagnostics → Option Said
say_diagnostics said none = none
say_diagnostics said (some detail) = some (record said { detail = detail; diagnostics = true })

-- One assignment. `native` is the schema 3.
unfoldable pub assign : Bool → List ℕ → List ℕ → Said → Option Said
unfolding mode_of diagnostics_of say_mode say_diagnostics
assign native key value said =
    if same key schema_word
    then if said.schema || not (same value ((if native then b'3' else b'2') ∷ []))
      then none
      else some (record said { schema = true })
    else if same key mode_word
    then if said.mode then none else say_mode said (mode_of value)
    else if native
    then if not (same key diagnostics_word) || said.diagnostics
      then none
      else say_diagnostics said (diagnostics_of value)
    else none

unfoldable pub assign_split : Bool → Option (List ℕ × List ℕ) → Said → Option Said
unfolding assign trim_start trim_end
assign_split native none said = none
assign_split native (some (key, value)) said = assign native (trim_end key) (trim_start value) said

-- One line, without its end. A blank one says nothing.
unfoldable pub read_trimmed : Bool → List ℕ → Said → Option Said
unfolding assign_split split_line
read_trimmed native [] said = some said
read_trimmed native (c ∷ cs) said = assign_split native (split_line (c ∷ cs)) said

unfoldable pub read_line : Bool → List ℕ → Said → Option Said
unfolding read_trimmed trim_start trim_end drop_return
read_line native line said = read_trimmed native (trim_end (trim_start (drop_return line))) said

unfoldable pub is_text : ℕ → Bool
is_text c = not (ltb 127 c || c == 0 || (ltb c 32 && not (c == 0x09) && not (c == 0x0d)))

-- The lines of the rest of the file; `line` is the current one so far.
unfoldable pub read_lines : Bool → List ℕ → List ℕ → Option Said → Option Said
unfolding read_line is_text
read_lines native bytes line none = none
read_lines native [] line (some said) = read_line native line said
read_lines native (c ∷ bytes) line (some said) =
    let next : Option Said =
      if c == 0x0a then read_line native line said else if is_text c then some said else none in
    read_lines native bytes (if c == 0x0a then [] else line ++ (c ∷ [])) next

unfoldable pub nothing_said : Said
nothing_said = record {
  schema = false;
  mode = false;
  diagnostics = false;
  selected = Mode.invalid;
  detail = Diagnostics.invalid;
}

unfoldable pub is_disabled : Mode → Bool
is_disabled Mode.disabled = true
is_disabled _ = false

unfoldable pub concluded : Bool → Option Said → Reason × ConfigV3
unfolding is_disabled
concluded native none = (Reason.config_invalid, no_config)
concluded native (some said) =
    if not said.schema || not said.mode || (native && not said.diagnostics)
    then (Reason.config_invalid, no_config)
    else (
      (if is_disabled said.selected then Reason.config_disabled else Reason.none),
      record {
        mode = said.selected;
        diagnostics = if native then said.detail else Diagnostics.invalid;
      },
    )

-- `Parse`: with the schema 2, the diagnostics stay as they were.
unfoldable pub parse_config : Bool → List ℕ → Reason × ConfigV3
unfolding read_lines concluded nothing_said
parse_config native bytes =
    if length bytes == 0 || ltb config_bytes (length bytes)
    then (Reason.config_invalid, no_config)
    else concluded native (read_lines native bytes [] (some nothing_said))
