-- ===== src/Framing/Escape/Sound.antt =====
-- src/shared/native_log_framing.cpp: what `EscapeJsonUtf16` writes, and that it reads back.
use rs2server_fix.Base.{
  ℕ, suc, ◌-◌, ◌/◌, ◌%◌, ◌<◌, ◌≡◌, refl, sym, ap, subst, ◌∙◌, Bool, true, false, not, ◌&&◌, ◌||◌,
  Option, none, some, List, [], ◌∷◌, ◌++◌, append_assoc, append-nil, length, length-append, all,
  all-append, ltb, leb, ◌==◌, if◌then◌else◌, Bool-cases, inl, inr, pick, taken, passed_over, arith,
}
use rs2server_fix.Framing.{is_printable}
use rs2server_fix.Framing.Escape.{
  put_char, put_chars, hex_lower, unit_chars, put_units, escape_json_utf16,
}
use rs2server_fix.Framing.Escape.Decode.{Reading, read_string, escaped_units, read_units}

-- A text in quotes, each unit as its characters.
unfoldable pub quoted : List ℕ → List ℕ
quoted text = 34 ∷ escaped_units text ++ 34 ∷ []

-- An output with its terminating zero in the capacity, or nothing.
unfoldable pub fits : ℕ → List ℕ → Option (List ℕ)
fits capacity out = if leb (suc (length out)) capacity then some out else none

full_when :
    (capacity n k : ℕ)
    → k ≡ suc n
    → leb (suc n) capacity ≡ true
    → leb (capacity - 1) n ≡ not (leb (suc k) capacity)
full_when capacity n k e h = ground arith

swapped : {A : Type 0} (b : Bool) (x y : A) → (if not b then x else y) ≡ (if b then y else x)
swapped true x y = refl
swapped false x y = refl

still_full :
    (capacity n k : ℕ) → k ≡ suc n → leb (suc n) capacity ≡ false → leb (suc k) capacity ≡ false
still_full capacity n k e h = ground arith

put_char-fits :
    (capacity c : ℕ) (out : List ℕ)
    → put_char capacity c (fits capacity out) ≡ fits capacity (out ++ c ∷ [])
unfolding put_char fits
put_char-fits capacity c out =
    let l = length-append out (c ∷ []) in
    let longer : length (out ++ c ∷ []) ≡ suc (length out) = omega (arith, l) in
    pick (λ (o : Option (List ℕ)). put_char capacity c o ≡ fits capacity (out ++ c ∷ []))
      (leb (suc (length out)) capacity) (some out) none
      (λ h.
        ap (λ b. if b then none else some (out ++ c ∷ []))
          (full_when capacity (length out) _ longer h)
        ∙ swapped (leb (suc (length (out ++ c ∷ []))) capacity) none (some (out ++ c ∷ [])))
      λ h. sym (
        passed_over (leb (suc (length (out ++ c ∷ []))) capacity) _ _
          (still_full capacity (length out) _ longer h))

put_chars-fits :
    (capacity : ℕ) (cs out : List ℕ)
    → put_chars capacity cs (fits capacity out) ≡ fits capacity (out ++ cs)
unfolding put_chars
put_chars-fits capacity [] out = ap (fits capacity) (sym (append-nil out))
put_chars-fits capacity (c ∷ cs) out =
    ap (put_chars capacity cs) (put_char-fits capacity c out)
    ∙ put_chars-fits capacity cs (out ++ c ∷ [])
    ∙ ap (fits capacity) (append_assoc out (c ∷ []) cs)

put_units-fits :
    (capacity : ℕ) (vs out : List ℕ)
    → put_units capacity vs (fits capacity out) ≡ fits capacity (out ++ escaped_units vs)
unfolding put_units escaped_units
put_units-fits capacity [] out = ap (fits capacity) (sym (append-nil out))
put_units-fits capacity (v ∷ vs) out =
    ap (put_units capacity vs) (put_chars-fits capacity (unit_chars v) out)
    ∙ put_units-fits capacity vs (out ++ unit_chars v)
    ∙ ap (fits capacity) (append_assoc out (unit_chars v) (escaped_units vs))

empty_fits : (capacity : ℕ) → (capacity == 0) ≡ false → some [] ≡ fits capacity []
unfolding fits
empty_fits capacity h = sym (taken (leb 1 capacity) _ _ (ground arith))

refused :
    (n capacity : ℕ) (out : List ℕ)
    → (capacity == 0 || ltb 1023 n) ≡ true
    → none ≡ (if leb n 1023 then fits capacity out else none)
unfolding fits
refused n capacity out e =
    pick (λ (r : Option (List ℕ)). none ≡ r) (leb n 1023) _ _
      (λ le. sym (
        passed_over (leb (suc (length out)) capacity) _ _ (too_small capacity n (length out) e le)))
      (λ _. refl)
  where
    too_small :
        (capacity n k : ℕ)
        → (capacity == 0 || ltb 1023 n) ≡ true
        → leb n 1023 ≡ true
        → leb (suc k) capacity ≡ false
    too_small capacity n k e le = ground arith

-- A text of at most 1023 units is written in full, in quotes, exactly when it fits the capacity with its
-- terminating zero, and refused otherwise.
pub escape_json_utf16-quoted :
    (text : List ℕ) (capacity : ℕ)
    → escape_json_utf16 text capacity
      ≡ (if leb (length text) 1023 then fits capacity (quoted text) else none)
unfolding escape_json_utf16 quoted
escape_json_utf16-quoted text capacity =
    elim (Bool-cases (capacity == 0 || ltb 1023 (length text))) [
      | inl e ↦ taken _ _ _ e ∙ refused (length text) capacity (quoted text) e
      | inr e ↦
          passed_over _ _ _ e
          ∙ ap (λ o. put_char capacity 34 (put_units capacity text (put_char capacity 34 o)))
              (empty_fits capacity (ground (arith, e)))
          ∙ ap (λ o. put_char capacity 34 (put_units capacity text o))
              (put_char-fits capacity 34 [])
          ∙ ap (put_char capacity 34) (put_units-fits capacity text (34 ∷ []))
          ∙ put_char-fits capacity 34 (34 ∷ escaped_units text)
          ∙ sym (taken (leb (length text) 1023) _ _ (ground (arith, e)))
    ]

printable_unit : (v : ℕ) → all is_printable (unit_chars v) ≡ true
unfolding unit_chars hex_lower
printable_unit v =
    pick (λ (cs : List ℕ). all is_printable cs ≡ true) (v == 34 || v == 92) _ _ (λ e. ground arith)
      λ _.
        pick (λ (cs : List ℕ). all is_printable cs ≡ true) (leb 32 v && leb v 126) _ _
          (λ e. ground arith)
          λ _.
            rw
              (
                printable_hex (v / 4096),
                printable_hex (v / 256),
                printable_hex (v / 16),
                printable_hex v,
              )
              refl
  where
    printable_hex : (v : ℕ) → is_printable (hex_lower (v % 16)) ≡ true
    printable_hex v = ground arith

printable_units : (vs : List ℕ) → all is_printable (escaped_units vs) ≡ true
unfolding escaped_units
printable_units [] = refl
printable_units (v ∷ vs) =
    all-append is_printable (unit_chars v) (escaped_units vs)
    ∙ rw (printable_unit v, printable_units vs) refl

some_fits :
    (capacity : ℕ) (q out : List ℕ) (b : Bool)
    → (if b then fits capacity q else none) ≡ some out
    → (q ≡ out) × (length q < capacity)
unfolding fits
some_fits capacity q out false e = absurd (cc)
some_fits capacity q out true e = fitting (leb (suc (length q)) capacity) refl e
  where
    fitting :
        (b : Bool)
        → leb (suc (length q)) capacity ≡ b
        → (if b then some q else none) ≡ some out
        → (q ≡ out) × (length q < capacity)
    fitting true l e = (cc, ground (arith, l))
    fitting false l e = absurd (cc)

-- A text of 16-bit units that is written is within the capacity with its terminating zero, is printable
-- ASCII throughout, and is read back unit by unit by a reader of JSON strings.
pub read_string-escape_json_utf16 :
    (text : List ℕ) (capacity : ℕ) (out : List ℕ)
    → all (λ v. ltb v 65536) text ≡ true
    → escape_json_utf16 text capacity ≡ some out
    → (read_string out Reading.opening ≡ some text)
      × (all is_printable out ≡ true)
      × (length out < capacity)
unfolding quoted read_string
read_string-escape_json_utf16 text capacity out units e =
    let f =
      some_fits capacity (quoted text) out (leb (length text) 1023)
        (sym (escape_json_utf16-quoted text capacity) ∙ e) in
    subst
      (λ o.
        (read_string o Reading.opening ≡ some text)
        × (all is_printable o ≡ true)
        × (length o < capacity))
      f.0
      (
        read_units text (34 ∷ []) units refl,
        all-append is_printable (escaped_units text) (34 ∷ []) ∙ rw (printable_units text) refl,
        f.1,
      )
