-- ===== src/Framing/Frames.antt =====
-- Every valid message, on a line with a prefix of the log, is recognised as a frame.
use rs2server_fix.Base.{
  ℕ, suc, ◌+◌, ◌≤◌, ◌≡◌, refl, ap, ◌∙◌, true, List, [], ◌∷◌, ◌++◌, arith, ◌==◌, length, all,
  length-append, ==→eq, &&→both,
}
use rs2server_fix.Framing.{
  frame, hit, marker, message_limit, prefix_limit, literal, is_printable, body_end, selected,
  marked, prefixed, begins_with, valid_message,
}

abbrev pub line_end : List ℕ
line_end = 0x0d ∷ 0x0a ∷ []

pub literal-append :
    (ls rest : List ℕ) (at : ℕ)
    → literal ls (ls ++ rest) at ≡ (hit, record { at = at + length ls; rest = rest })
unfolding literal
literal-append [] rest at = ground arith
literal-append (l ∷ ls) rest at = ground (arith, literal-append ls rest (suc at))

body_end-append : (m : List ℕ) → all is_printable m ≡ true → body_end (m ++ line_end) ≡ true
body_end-append [] h = refl
body_end-append (c ∷ []) h = ground arith
body_end-append (c ∷ d ∷ m) h = ground (arith, body_end-append (d ∷ m))

begins_with-split : (ls m : List ℕ) → begins_with ls m ≡ true → (rest : List ℕ) × (m ≡ ls ++ rest)
begins_with-split [] m h = (m, refl)
begins_with-split (l ∷ ls) [] h = ground arith
begins_with-split (l ∷ ls) (c ∷ m) h =
    let (same, more) = &&→both (c == l) (begins_with ls m) h in
    let (rest, e) = begins_with-split ls m more in (rest, rw (==→eq c l same, e))

pub begins_with-append : (ls rest : List ℕ) → begins_with ls (ls ++ rest) ≡ true
begins_with-append [] rest = refl
begins_with-append (l ∷ ls) rest = ground (arith, begins_with-append ls rest)

selected-frame :
    (m rest : List ℕ) (offset at : ℕ)
    → length m ≤ message_limit
    → all is_printable m ≡ true
    → selected true offset (m ++ line_end) (record { at = at; rest = rest ++ line_end })
      ≡ record { kind = frame; message_offset = offset; message_bytes = length m }
unfolding selected
selected-frame m rest offset at short printable =
    let whole = length-append m line_end in
    let tail = length-append rest line_end in rw (body_end-append m printable) (ground arith)

-- After a recognised prefix a valid message makes a frame.
pub prefixed-frame :
    (m : List ℕ) (offset : ℕ)
    → valid_message m ≡ true
    → offset ≤ prefix_limit
    → prefixed true (hit, record { at = offset; rest = m ++ line_end })
      ≡ record { kind = frame; message_offset = offset; message_bytes = length m }
unfolding prefixed valid_message
prefixed-frame m offset valid fits =
    let starts = &&→both _ (begins_with marker m) valid in
    let (rest, e) = begins_with-split marker m starts.1 in
    let found : literal marker (m ++ line_end) offset
        ≡ (hit, record { at = offset + length marker; rest = rest ++ line_end }) =
      ap (λ t. literal marker (t ++ line_end) offset) e
      ∙ literal-append marker (rest ++ line_end) offset in
    rw (found, marked) (ground (arith, selected-frame m rest offset (offset + length marker)))
