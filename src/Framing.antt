-- ===== src/Framing.antt =====
-- src/shared/native_log_framing.h and .cpp: which lines of the server's log carry a record of the
-- program, and the printable messages that may be written there. Bytes and UTF-16 units are
-- numbers; a pointer with its size is a list, and the place `at` in a line is the number of bytes
-- before it together with the bytes from it on. A null pointer with size 0 is the empty list; a
-- null pointer with another size, which the source refuses, does not arise.
use rs2server_fix.Base.{
  ℕ, zero, suc, ◌+◌, ◌-◌, ◌/◌, ◌%◌, ◌^◌, Bool, true, false, not, ◌&&◌, ◌||◌, Option, none, some,
  List, [], ◌∷◌, ◌++◌, ltb, leb, ◌==◌, if◌then◌else◌, length, all, take, drop,
}
pub mod Frames
pub mod Stamp
mod Passes
pub mod Sound
pub mod Run
pub mod Escape

abbrev pub message_limit : ℕ
message_limit = 8192

abbrev pub prefix_limit : ℕ
prefix_limit = 128

abbrev pub line_limit : ℕ
line_limit = prefix_limit + message_limit + 2

-- "[RS2ServerFix:event] "
abbrev pub marker : List ℕ
marker =
    b'[' ∷ b'R' ∷ b'S' ∷ b'2' ∷ b'S' ∷ b'e' ∷ b'r' ∷ b'v' ∷ b'e' ∷ b'r' ∷ b'F' ∷ b'i' ∷ b'x' ∷ b':'
    ∷ b'e' ∷ b'v' ∷ b'e' ∷ b'n' ∷ b't' ∷ b']' ∷ b' ' ∷ []

pub data PrefixMode : Type 0 where
  log_only elapsed_time : PrefixMode

pub data LineKind : Type 0 where
  unrelated incomplete frame malformed : LineKind

pub record LineView : Type 0 where
  pub kind : LineKind
  pub message_offset : ℕ
  pub message_bytes : ℕ

pub data Match : Type 0 where
  miss partial hit : Match

-- A place in a line.
pub record Place : Type 0 where
  pub at : ℕ
  pub rest : List ℕ

unfoldable pub literal : List ℕ → List ℕ → ℕ → Match × Place
literal [] bytes at = (hit, record { at = at; rest = bytes })
literal (l ∷ ls) [] at = (partial, record { at = at; rest = [] })
literal (l ∷ ls) (b ∷ bytes) at = elim (b == l) [
  | true ↦ literal ls bytes (suc at)
  | false ↦ (miss, record { at = suc at; rest = bytes })
]

unfoldable pub is_digit : ℕ → Bool
is_digit c = leb b'0' c && leb c b'9'

-- The digits before the point. `none` is the refusal of a prefix that is too long.
unfoldable pub digits : List ℕ → ℕ → Option Place
unfolding is_digit
digits [] at = some (record { at = at; rest = [] })
digits (b ∷ bytes) at = elim (is_digit b) [
  | false ↦ some (record { at = at; rest = b ∷ bytes })
  | true ↦ elim (leb (prefix_limit - 10) at) [ true ↦ none | false ↦ digits bytes (suc at) ]
]

-- One of the two digits after the point, and what follows it.
unfoldable pub one_digit : Place → (Place → Match × Place) → Match × Place
unfolding is_digit
one_digit p next = elim p.rest [
  | [] ↦ (partial, p)
  | b ∷ bytes ↦
      let q : Place = record { at = suc p.at; rest = bytes } in
      if is_digit b then next q else (miss, q)
]

-- Goes on only after a match.
unfoldable pub on_hit : Match × Place → (Place → Match × Place) → Match × Place
on_hit (hit, p) next = next p
on_hit (partial, p) next = (partial, p)
on_hit (miss, p) next = (miss, p)

-- "] Log: "
abbrev pub after_time : List ℕ
after_time = b']' ∷ b' ' ∷ b'L' ∷ b'o' ∷ b'g' ∷ b':' ∷ b' ' ∷ []

abbrev pub log_prefix : List ℕ
log_prefix = b'L' ∷ b'o' ∷ b'g' ∷ b':' ∷ b' ' ∷ []

unfoldable pub first_is : ℕ → List ℕ → Bool
first_is c [] = false
first_is c (b ∷ bytes) = b == c

-- The fraction and the end of the prefix.
unfoldable pub fraction : Place → Match × Place
unfolding literal on_hit one_digit
fraction p =
    on_hit (literal (b'.' ∷ []) p.rest p.at)
      (λ p. one_digit p (λ p. one_digit p (λ p. literal after_time p.rest p.at)))

-- The number of digits before the point is at least the least, and exceeds it only with a first
-- digit that is not 0.
unfoldable pub width_wrong : Bool → List ℕ → ℕ → Bool
unfolding first_is
width_wrong negative from digits =
    let minimum : ℕ = if negative then 3 else 4 in
    ltb digits minimum || (ltb minimum digits && first_is b'0' from)

-- From the end of the digits on, where a byte is there.
unfoldable pub past_digits : Bool → Place → ℕ → List ℕ → Match × Place
unfolding width_wrong fraction
past_digits negative first at [] = (partial, record { at = at; rest = [] })
past_digits negative first at (b ∷ bytes) =
    if width_wrong negative first.rest (at - first.at)
    then (miss, record { at = at; rest = b ∷ bytes })
    else fraction (record { at = at; rest = b ∷ bytes })

unfoldable pub after_digits : Bool → Place → Option Place → Match × Place
unfolding past_digits
after_digits negative first none = (miss, first)
after_digits negative first (some p) = past_digits negative first p.at p.rest

-- From the first digit on.
unfoldable pub elapsed : Bool → Place → Match × Place
unfolding digits after_digits
elapsed negative first = after_digits negative first (digits first.rest first.at)

-- The sign, where a byte is there.
unfoldable pub signed_from : ℕ → List ℕ → Match × Place
unfolding elapsed
signed_from at [] = (partial, record { at = at; rest = [] })
signed_from at (b ∷ bytes) =
    if b == b'-'
    then elapsed true (record { at = suc at; rest = bytes })
    else elapsed false (record { at = at; rest = b ∷ bytes })

unfoldable pub signed : Place → Match × Place
unfolding signed_from
signed p = signed_from p.at p.rest

unfoldable pub line_prefix : PrefixMode → List ℕ → Match × Place
unfolding literal on_hit signed
line_prefix log_only bytes = literal log_prefix bytes 0
line_prefix elapsed_time bytes = on_hit (literal (b'[' ∷ []) bytes 0) signed

abbrev pub is_printable : ℕ → Bool
is_printable c = leb 0x20 c && leb c 0x7e

-- The message and its line end are well formed, from the start of the message.
abbrev pub body_end : List ℕ → Bool
body_end [] = false
body_end (c ∷ []) = false
body_end (c ∷ d ∷ []) = c == 0x0d && d == 0x0a
body_end (c ∷ d ∷ e ∷ rest) = is_printable c && body_end (d ∷ e ∷ rest)

unfoldable pub unplaced : LineKind → LineView
unplaced kind = record { kind = kind; message_offset = 0; message_bytes = 0 }

unfoldable pub unless_complete : Bool → LineView
unfolding unplaced
unless_complete complete = unplaced (if complete then unrelated else incomplete)

-- What a selected line is, from its message on; `p` is the place after the marker.
unfoldable pub selected : Bool → ℕ → List ℕ → Place → LineView
selected complete offset message p =
    let bytes = length message in
    if not complete
    then record { kind = incomplete; message_offset = offset; message_bytes = bytes }
    else if ltb (length p.rest) 2 || ltb (message_limit + 2) bytes || not (body_end message)
    then record { kind = malformed; message_offset = offset; message_bytes = bytes }
    else record { kind = frame; message_offset = offset; message_bytes = bytes - 2 }

unfoldable pub marked : Bool → ℕ → List ℕ → Match × Place → LineView
unfolding selected unless_complete unplaced
marked complete offset message (miss, p) = unplaced unrelated
marked complete offset message (partial, p) = unless_complete complete
marked complete offset message (hit, p) = selected complete offset message p

unfoldable pub prefixed : Bool → Match × Place → LineView
unfolding marked literal unless_complete unplaced
prefixed complete (miss, p) = unplaced unrelated
prefixed complete (partial, p) = unless_complete complete
prefixed complete (hit, p) =
    if ltb prefix_limit p.at
    then unplaced unrelated
    else marked complete p.at p.rest (literal marker p.rest p.at)

unfoldable pub inspect_line : List ℕ → PrefixMode → Bool → LineView
unfolding prefixed line_prefix
inspect_line bytes mode complete = prefixed complete (line_prefix mode bytes)

abbrev pub begins_with : List ℕ → List ℕ → Bool
begins_with [] m = true
begins_with (l ∷ ls) [] = false
begins_with (l ∷ ls) (c ∷ m) = c == l && begins_with ls m

-- `ValidMessage`, and the tests of `PrepareMessage`: the terminator is the end of the list.
unfoldable pub valid_message : List ℕ → Bool
valid_message message =
    leb (length marker) (length message)
    && leb (length message) message_limit
    && all is_printable message
    && begins_with marker message

-- The message as wide characters, where it fits a slot of `capacity` elements with its terminator.
unfoldable pub prepare_message : List ℕ → ℕ → Option (List ℕ)
unfolding valid_message
prepare_message ascii capacity =
    if leb capacity (length ascii) then none else if valid_message ascii then some ascii else none
