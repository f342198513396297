-- ===== src/Framing/Sound.antt =====
-- What a line that is reported as a frame looks like.
use rs2server_fix.Base.{
  ℕ, suc, ◌+◌, ◌-◌, ◌≤◌, ◌<◌, ◌≡◌, ◌≢◌, inl, inr, refl, sym, ap, ◌∙◌, Bool, true, false, none, some,
  List, [], ◌∷◌, ◌++◌, arith, ltb, leb, if◌then◌else◌, length, all, length-append, &&→both,
  Bool-cases, subst, le→leb,
}
use rs2server_fix.Framing.{
  PrefixMode, LineView, frame, Match, hit, miss, partial, Place, marker, message_limit,
  prefix_limit, literal, line_prefix, is_printable, body_end, selected, marked, prefixed,
  inspect_line, begins_with, valid_message, prepare_message, unplaced, unless_complete,
}
use rs2server_fix.Framing.Frames.{line_end, prefixed-frame}
use rs2server_fix.Framing.Stamp.{IsPrefix, line_prefix-hit}
use rs2server_fix.Framing.Passes.{Passes, line_prefix-Passes}

-- A line that is a message between a prefix and a line end, as a view of it says.
pub record FrameOf (mode : PrefixMode) (bytes : List ℕ) (view : LineView) : Type 0 where
  pub before : List ℕ
  pub message : List ℕ
  pub whole : bytes ≡ before ++ (message ++ line_end)
  pub valid : valid_message message ≡ true
  pub prefix_found : (line_prefix mode bytes).0 ≡ hit
  pub offset : view.message_offset ≡ length before
  pub near : length before ≤ prefix_limit
  pub size : view.message_bytes ≡ length message

pub literal_hit-split :
    (ls bytes : List ℕ) (at : ℕ)
    → (literal ls bytes at).0 ≡ hit
    → bytes ≡ ls ++ (literal ls bytes at).1.rest
unfolding literal
literal_hit-split [] bytes at h = refl
literal_hit-split (l ∷ ls) [] at h = cc
literal_hit-split (l ∷ ls) (b ∷ bytes) at h = ground (arith, literal_hit-split ls bytes (suc at))

body_end-split :
    (m : List ℕ)
    → body_end m ≡ true
    → (body : List ℕ) × (m ≡ body ++ line_end) × (all is_printable body ≡ true)
body_end-split [] h = cc
body_end-split (c ∷ []) h = cc
body_end-split (c ∷ d ∷ []) h = ([], ground arith, refl)
body_end-split (c ∷ d ∷ e ∷ m) h =
    let (printable, rest) = &&→both (is_printable c) (body_end (d ∷ e ∷ m)) h in
    let (body, split, good) = body_end-split (d ∷ e ∷ m) rest in
    (c ∷ body, ap (◌∷◌ c) split, rw (printable, good))

begins_with-shift :
    (ls r body : List ℕ) → 2 ≤ length r → ls ++ r ≡ body ++ line_end → begins_with ls body ≡ true
begins_with-shift [] r body long e = refl
begins_with-shift (l ∷ ls) r [] long e = absurd (omega (arith, ap length e, length-append ls r))
begins_with-shift (l ∷ ls) r (c ∷ body) long e = ground (arith, begins_with-shift ls r body long)

selected_facts :
    (complete : Bool) (offset : ℕ) (m : List ℕ) (p : Place)
    → (selected complete offset m p).kind ≡ frame
    → (2 ≤ length p.rest)
      × (length m ≤ message_limit + 2)
      × (body_end m ≡ true)
      × (selected complete offset m p
          ≡ record { kind = frame; message_offset = offset; message_bytes = length m - 2 })
unfolding selected
selected_facts complete offset m p h = ground arith

valid_parts :
    (body : List ℕ)
    → length marker ≤ length body
    → length body ≤ message_limit
    → all is_printable body ≡ true
    → begins_with marker body ≡ true
    → valid_message body ≡ true
unfolding valid_message
valid_parts body long short printable begins =
    rw
      (
        le→leb (length marker) (length body) long,
        le→leb (length body) message_limit short,
        printable,
      )
      begins

selected-FrameOf :
    (mode : PrefixMode) (bytes before m : List ℕ) (complete : Bool) (at : ℕ)
    → bytes ≡ before ++ m
    → (line_prefix mode bytes).0 ≡ hit
    → length before ≤ prefix_limit
    → (literal marker m at).0 ≡ hit
    → (selected complete (length before) m (literal marker m at).1).kind ≡ frame
    → FrameOf mode bytes (selected complete (length before) m (literal marker m at).1)
selected-FrameOf mode bytes before m complete at e found near marked h =
    let p = (literal marker m at).1 in
    let (long, short, ended, view) = selected_facts complete (length before) m p h in
    let (body, split, printable) = body_end-split m ended in
    let parts : m ≡ marker ++ p.rest = literal_hit-split marker m at marked in
    let sizes : length m ≡ length body + 2 =
      omega (arith, ap length split, length-append body line_end) in
    let least : length m ≡ 21 + length p.rest =
      omega (arith, ap length parts, length-append marker p.rest) in
    record {
      before = before;
      message = body;
      whole = e ∙ ap (◌++◌ before) split;
      valid =
          valid_parts body (omega arith) (omega arith) printable
            (begins_with-shift marker p.rest body long (sym parts ∙ split));
      prefix_found = found;
      offset = ap (λ (v : LineView). v.message_offset) view;
      near = near;
      size = ap (λ (v : LineView). v.message_bytes) view ∙ omega arith;
    }

marked-FrameOf :
    (mode : PrefixMode) (bytes before m : List ℕ) (complete : Bool) (at : ℕ) (r : Match × Place)
    → r ≡ literal marker m at
    → bytes ≡ before ++ m
    → (line_prefix mode bytes).0 ≡ hit
    → length before ≤ prefix_limit
    → (marked complete (length before) m r).kind ≡ frame
    → FrameOf mode bytes (marked complete (length before) m r)
unfolding marked unless_complete unplaced
marked-FrameOf mode bytes before m complete at (hit, p) same e found near h =
    let there = ap (λ (q : Match × Place). q.1) same in
    let kept =
      selected-FrameOf mode bytes before m complete at e found near
        (sym (ap (λ (q : Match × Place). q.0) same)) in
    rw (← there) at kept h
marked-FrameOf mode bytes before m complete at (partial, p) same e found near h =
    absurd (ground arith)
marked-FrameOf mode bytes before m complete at (miss, p) same e found near h = absurd (ground arith)

below : (a b : ℕ) → leb a b ≡ false → b < a
below a b h = ground arith

accepted_facts :
    (long valid : Bool) (ascii prepared : List ℕ)
    → (if long then none else if valid then some ascii else none) ≡ some prepared
    → (prepared ≡ ascii) × (long ≡ false) × (valid ≡ true)
accepted_facts true valid ascii prepared h = absurd (cc)
accepted_facts false true ascii prepared h =
    (let e : some ascii ≡ some prepared = h in cc, refl, refl)
accepted_facts false false ascii prepared h = absurd (cc)

prepared_facts :
    (ascii prepared : List ℕ) (capacity : ℕ)
    → prepare_message ascii capacity ≡ some prepared
    → (prepared ≡ ascii) × (length prepared < capacity) × (valid_message prepared ≡ true)
unfolding prepare_message
prepared_facts ascii prepared capacity h =
    let (same, fits, valid) =
      accepted_facts (leb capacity (length ascii)) (valid_message ascii) ascii prepared h in
    let room : length ascii < capacity = below capacity (length ascii) fits in
    (same, subst (λ xs. length xs < capacity) (sym same) room, ap valid_message same ∙ valid)

open_marked :
    (offset : ℕ) (message : List ℕ) (r : Match × Place)
    → (marked false offset message r).kind ≢ frame
unfolding marked selected unless_complete unplaced
open_marked offset message (hit, p) h = ground arith
open_marked offset message (partial, p) h = ground arith
open_marked offset message (miss, p) h = ground arith

open_prefixed : (r : Match × Place) → (prefixed false r).kind ≢ frame
unfolding prefixed unless_complete unplaced
open_prefixed (hit, p) h = elim (Bool-cases (ltb prefix_limit p.at)) [
  | inl e ↦ absurd (ground arith)
  | inr e ↦ open_marked p.at p.rest (literal marker p.rest p.at) (ground arith)
]
open_prefixed (partial, p) h = ground arith
open_prefixed (miss, p) h = ground arith

inspect_line_complete :
    (bytes : List ℕ) (mode : PrefixMode) (complete : Bool)
    → (inspect_line bytes mode complete).kind ≡ frame
    → complete ≡ true
unfolding inspect_line
inspect_line_complete bytes mode true h = refl
inspect_line_complete bytes mode false h = absurd (open_prefixed (line_prefix mode bytes) h)

prefixed_partial : (complete : Bool) (p : Place) → (prefixed complete (partial, p)).kind ≢ frame
unfolding prefixed unless_complete unplaced
prefixed_partial true p h = ground arith
prefixed_partial false p h = ground arith

prefixed_miss : (complete : Bool) (p : Place) → (prefixed complete (miss, p)).kind ≢ frame
unfolding prefixed unplaced
prefixed_miss complete p h = ground arith

prefixed_near :
    (complete : Bool) (p : Place)
    → (prefixed complete (hit, p)).kind ≡ frame
    → (p.at ≤ prefix_limit)
      × (prefixed complete (hit, p) ≡ marked complete p.at p.rest (literal marker p.rest p.at))
unfolding prefixed unplaced
prefixed_near complete p h = ground arith

prefixed-FrameOf :
    (mode : PrefixMode) (bytes : List ℕ) (complete : Bool) (r : Match × Place)
    → r ≡ line_prefix mode bytes
    → Passes 0 bytes r.1
    → (prefixed complete r).kind ≡ frame
    → FrameOf mode bytes (prefixed complete r)
prefixed-FrameOf mode bytes complete (hit, p) same pass h =
    let (near, e) = prefixed_near complete p h in
    let here : length pass.over ≡ p.at = omega (arith, pass.moved) in
    let Kept = λ (n : ℕ).
      (marked complete n p.rest (literal marker p.rest p.at)).kind ≡ frame
      → FrameOf mode bytes (marked complete n p.rest (literal marker p.rest p.at)) in
    let kept : Kept p.at = subst Kept here (
      marked-FrameOf mode bytes pass.over p.rest complete p.at (literal marker p.rest p.at) refl
        pass.split (sym (ap (λ (q : Match × Place). q.0) same)) (omega arith)) in
    subst (FrameOf mode bytes) (sym e) (kept (ap (λ (v : LineView). v.kind) (sym e) ∙ h))
prefixed-FrameOf mode bytes complete (partial, p) same pass h =
    absurd (prefixed_partial complete p h)
prefixed-FrameOf mode bytes complete (miss, p) same pass h = absurd (prefixed_miss complete p h)

-- A line is reported as a frame only if it is complete and is a recognised prefix of at most 128
-- bytes, a message that `ValidMessage` accepts, CR and LF; and the offset and size reported are
-- those of the message.
pub inspect_line-FrameOf :
    (bytes : List ℕ) (mode : PrefixMode) (complete : Bool)
    → (inspect_line bytes mode complete).kind ≡ frame
    → FrameOf mode bytes (inspect_line bytes mode complete) × (complete ≡ true)
unfolding inspect_line
inspect_line-FrameOf bytes mode complete h = (
  prefixed-FrameOf mode bytes complete (line_prefix mode bytes) refl (line_prefix-Passes mode bytes)
      h,
  inspect_line_complete bytes mode complete h,
)

-- A message that `PrepareMessage` accepts comes out unchanged, and a line that carries it between a
-- prefix of the log's mode and CR LF is reported as a frame with exactly the message's place and size.
pub prepare_message-inspect_line :
    (ascii prepared text : List ℕ) (capacity : ℕ) (mode : PrefixMode)
    → prepare_message ascii capacity ≡ some prepared
    → IsPrefix mode text
    → (prepared ≡ ascii)
      × (length prepared < capacity)
      × (inspect_line (text ++ (prepared ++ line_end)) mode true
          ≡ record { kind = frame; message_offset = length text; message_bytes = length prepared })
unfolding inspect_line
prepare_message-inspect_line ascii prepared text capacity mode accepted prefix =
    let (same, fits, valid) = prepared_facts ascii prepared capacity accepted in
    let (found, near) = line_prefix-hit (prepared ++ line_end) prefix in
    (same, fits, ap (prefixed true) found ∙ prefixed-frame prepared (length text) valid near)
