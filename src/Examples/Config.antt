-- ===== src/Examples/Config.antt =====
-- A configuration of the schema 3.
use rs2server_fix.Base.{ℕ, ◌≡◌, refl, List, [], ◌∷◌, false}
use rs2server_fix.Types.{Mode, Diagnostics, Reason}
use rs2server_fix.Config.{
  parse_config, read_lines, read_line, read_trimmed, assign_split, assign, split_line, trim_start,
  trim_end, add_trimmed, drop_return, is_space, is_text, mode_of, say_mode, concluded, nothing_said,
  is_disabled,
}
use rs2server_fix.Config.Sound.{Says, config_text, parse_config-Says}

-- "schema = 2" and "mode=repair", with CR LF after the first.
abbrev text : List ℕ
text =
    b's' ∷ b'c' ∷ b'h' ∷ b'e' ∷ b'm' ∷ b'a' ∷ b' ' ∷ b'=' ∷ b' ' ∷ b'2' ∷ 0x0d ∷ 0x0a ∷ b'm' ∷ b'o'
    ∷ b'd' ∷ b'e' ∷ b'=' ∷ b'r' ∷ b'e' ∷ b'p' ∷ b'a' ∷ b'i' ∷ b'r' ∷ []

text_repair :
    parse_config false text
    ≡ (Reason.none, record { mode = Mode.repair; diagnostics = Diagnostics.invalid })
unfolding parse_config read_lines read_line read_trimmed assign_split assign split_line trim_start
    trim_end add_trimmed drop_return is_space is_text mode_of say_mode concluded nothing_said
    is_disabled
text_repair = refl

parse_config-Says_example :
    Says false text (parse_config false text)
    × (parse_config false (config_text false Mode.observe Diagnostics.normal)
        ≡ (Reason.none, record { mode = Mode.observe; diagnostics = Diagnostics.invalid }))
parse_config-Says_example =
    parse_config-Says false text Mode.observe Diagnostics.normal (λ e. absurd (cc))
      (λ e. absurd (cc))
