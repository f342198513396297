-- ===== src/Framing/Passes.antt =====
-- How the reading of a prefix passes over the bytes of a line.
use rs2server_fix.Base.{
  ℕ, suc, ◌+◌, ◌-◌, ◌≡◌, inl, inr, refl, sym, ap, ◌∙◌, Bool, true, false, Option, none, some, List,
  [], ◌∷◌, ◌++◌, arith, ◌==◌, length, length-append, append_assoc, Bool-cases, subst,
}
use rs2server_fix.Framing.{
  PrefixMode, log_only, elapsed_time, Match, hit, miss, partial, Place, literal, is_digit, digits,
  one_digit, on_hit, after_time, log_prefix, fraction, width_wrong, past_digits, after_digits,
  elapsed, signed_from, signed, line_prefix,
}

-- The place is reached from `at` by passing over bytes of the line.
pub record Passes (at : ℕ) (bytes : List ℕ) (p : Place) : Type 0 where
  pub over : List ℕ
  pub split : bytes ≡ over ++ p.rest
  pub moved : p.at ≡ at + length over

stays : (at : ℕ) (bytes : List ℕ) → Passes at bytes (record { at = at; rest = bytes })
stays at bytes = record { over = []; split = refl; moved = omega arith }

further :
    {at : ℕ} {bytes : List ℕ} {p q : Place}
    → Passes at bytes p
    → Passes p.at p.rest q
    → Passes at bytes q
further {at} {bytes} {p} {q} a b = record {
  over = a.over ++ b.over;
  split = a.split ∙ ap (◌++◌ a.over) b.split ∙ sym (append_assoc a.over b.over q.rest);
  moved = omega (arith, a.moved, b.moved, length-append a.over b.over);
}

step_over :
    {at b : ℕ} {bytes : List ℕ} {p : Place} → Passes (suc at) bytes p → Passes at (b ∷ bytes) p
step_over {at} {b} {bytes} {p} a = record {
  over = b ∷ a.over;
  split = ap (◌∷◌ b) a.split;
  moved = omega (arith, a.moved);
}

literal-Passes : (ls bytes : List ℕ) (at : ℕ) → Passes at bytes (literal ls bytes at).1
unfolding literal
literal-Passes [] bytes at = stays at bytes
literal-Passes (l ∷ ls) [] at = stays at []
literal-Passes (l ∷ ls) (b ∷ bytes) at = elim (Bool-cases (b == l)) [
  | inl e ↦ rw (e, literal) (step_over (literal-Passes ls bytes (suc at)))
  | inr e ↦ rw (e, literal) (step_over (stays (suc at) bytes))
]

on_hit-Passes :
    (at : ℕ) (bytes : List ℕ) (r : Match × Place) (next : Place → Match × Place)
    → Passes at bytes r.1
    → ((p : Place) → Passes p.at p.rest (next p).1)
    → Passes at bytes (on_hit r next).1
unfolding on_hit
on_hit-Passes at bytes (hit, p) next a b = further a (b p)
on_hit-Passes at bytes (partial, p) next a b = a
on_hit-Passes at bytes (miss, p) next a b = a

one_digit-Passes :
    (next : Place → Match × Place)
    → ((p : Place) → Passes p.at p.rest (next p).1)
    → (at : ℕ) (bytes : List ℕ)
    → Passes at bytes (one_digit (record { at = at; rest = bytes }) next).1
unfolding one_digit
one_digit-Passes next b at [] = stays at []
one_digit-Passes next b at (c ∷ bytes) = elim (Bool-cases (is_digit c)) [
  | inl e ↦ rw e (step_over (b (record { at = suc at; rest = bytes })))
  | inr e ↦ rw e (step_over (stays (suc at) bytes))
]

fraction-Passes : (p : Place) → Passes p.at p.rest (fraction p).1
unfolding fraction
fraction-Passes p =
    let last = λ (q : Place). literal after_time q.rest q.at in
    let second = λ (q : Place). one_digit q last in
    let first = λ (q : Place). one_digit q second in
    on_hit-Passes p.at p.rest (literal (b'.' ∷ []) p.rest p.at) first
      (literal-Passes (b'.' ∷ []) p.rest p.at)
      λ q.
        one_digit-Passes second
          (λ q. one_digit-Passes last (λ q. literal-Passes after_time q.rest q.at) q.at q.rest) q.at
          q.rest

digits-Passes : (bytes : List ℕ) (at : ℕ) (p : Place) → digits bytes at ≡ some p → Passes at bytes p
unfolding digits
digits-Passes [] at p h =
    let e : record { at = at; rest = [] } ≡ p = cc in subst (Passes at []) e (stays at [])
digits-Passes (b ∷ bytes) at p h = elim (Bool-cases (is_digit b)) [
  | inr e ↦
      let here : record { at = at; rest = b ∷ bytes } ≡ p = ground arith in
      subst (Passes at (b ∷ bytes)) here (stays at (b ∷ bytes))
  | inl e ↦
      let on : digits bytes (suc at) ≡ some p = ground arith in
      step_over (digits-Passes bytes (suc at) p on)
]

after_digits-Passes :
    (negative : Bool) (first : Place) (found : Option Place)
    → ((p : Place) → found ≡ some p → Passes first.at first.rest p)
    → Passes first.at first.rest (after_digits negative first found).1
unfolding after_digits past_digits
after_digits-Passes negative first none h = stays first.at first.rest
after_digits-Passes negative first (some p) h = further (h p refl) (go p.at p.rest)
  where
    go : (at : ℕ) (bytes : List ℕ) → Passes at bytes (past_digits negative first at bytes).1
    go at [] = stays at []
    go at (b ∷ bytes) = elim (Bool-cases (width_wrong negative first.rest (at - first.at))) [
      | inl e ↦ rw e (stays at (b ∷ bytes))
      | inr e ↦ rw e (fraction-Passes (record { at = at; rest = b ∷ bytes }))
    ]

elapsed-Passes : (negative : Bool) (p : Place) → Passes p.at p.rest (elapsed negative p).1
unfolding elapsed
elapsed-Passes negative p =
    after_digits-Passes negative p (digits p.rest p.at) (digits-Passes p.rest p.at)

signed_from-Passes : (at : ℕ) (bytes : List ℕ) → Passes at bytes (signed_from at bytes).1
unfolding signed_from
signed_from-Passes at [] = stays at []
signed_from-Passes at (b ∷ bytes) = elim (Bool-cases (b == b'-')) [
  | inl e ↦ rw e (step_over (elapsed-Passes true (record { at = suc at; rest = bytes })))
  | inr e ↦ rw e (elapsed-Passes false (record { at = at; rest = b ∷ bytes }))
]

pub line_prefix-Passes :
    (mode : PrefixMode) (bytes : List ℕ) → Passes 0 bytes (line_prefix mode bytes).1
unfolding line_prefix signed
line_prefix-Passes log_only bytes = literal-Passes log_prefix bytes 0
line_prefix-Passes elapsed_time bytes =
    on_hit-Passes 0 bytes (literal (b'[' ∷ []) bytes 0) signed (literal-Passes (b'[' ∷ []) bytes 0)
      (λ p. signed_from-Passes p.at p.rest)
