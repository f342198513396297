-- ===== src/Examples/Framing.antt =====
-- A short message in a line of a log without elapsed times.
use rs2server_fix.Base.{ℕ, ◌<◌, ◌≡◌, refl, true, some, List, [], ◌∷◌, ◌++◌, length}
use rs2server_fix.Framing.{
  log_only, frame, log_prefix, marker, inspect_line, prepare_message, valid_message, prefixed,
  marked, selected, line_prefix, literal,
}
use rs2server_fix.Framing.Frames.{line_end}
use rs2server_fix.Framing.Stamp.{plain}
use rs2server_fix.Framing.Sound.{FrameOf, inspect_line-FrameOf, prepare_message-inspect_line}

abbrev hello : List ℕ
hello = marker ++ (b'{' ∷ b'}' ∷ [])

abbrev line : List ℕ
line = log_prefix ++ (hello ++ line_end)

prepared_hello : prepare_message hello 8193 ≡ some hello
unfolding prepare_message valid_message
prepared_hello = refl

line_kind : (inspect_line line log_only true).kind ≡ frame
unfolding inspect_line prefixed marked selected line_prefix literal
line_kind = refl

prepare_message-inspect_line_example :
    (hello ≡ hello)
    × (length hello < 8193)
    × (inspect_line (log_prefix ++ (hello ++ line_end)) log_only true
        ≡ record { kind = frame; message_offset = length log_prefix; message_bytes = length hello })
prepare_message-inspect_line_example =
    prepare_message-inspect_line hello hello log_prefix 8193 log_only prepared_hello plain

inspect_line-FrameOf_example :
    FrameOf log_only line (inspect_line line log_only true) × (true ≡ true)
inspect_line-FrameOf_example = inspect_line-FrameOf line log_only true line_kind
