-- ===== src/Framing/Stamp.antt =====
-- The elapsed-time prefix of a log line, as a format: "[", a sign or none, digits, a point, two
-- digits, and "] Log: ".
use rs2server_fix.Base.{
  ℕ, suc, ◌+◌, ◌-◌, ◌≤◌, ◌<◌, ◌≡◌, refl, sym, ap, ◌∙◌, Bool, true, false, some, List, [], ◌∷◌, ◌++◌,
  arith, length, all, length-append, append_assoc,
}
use rs2server_fix.Framing.{
  PrefixMode, log_only, elapsed_time, hit, Place, prefix_limit, is_digit, digits, after_time,
  log_prefix, first_is, fraction, width_wrong, after_digits, elapsed, signed_from, signed,
  line_prefix,
}
use rs2server_fix.Framing.Frames.{literal-append}

-- The fields of "[%07.2f] Log: ".
pub record Stamp : Type 0 where
  pub negative : Bool
  pub whole : List ℕ
  pub tenth : ℕ
  pub hundredth : ℕ

abbrev pub sign_text : Bool → List ℕ
sign_text true = b'-' ∷ []
sign_text false = []

abbrev pub after_whole : Stamp → List ℕ
after_whole t = b'.' ∷ t.tenth ∷ t.hundredth ∷ after_time

abbrev pub stamp_text : Stamp → List ℕ
stamp_text t = b'[' ∷ sign_text t.negative ++ (t.whole ++ after_whole t)

abbrev pub least_digits : Bool → ℕ
least_digits true = 3
least_digits false = 4

-- All digits; at least seven characters for the number, with no 0 before a longer one; and at most
-- 117 for its sign and the digits before the point.
pub record IsStamp (t : Stamp) : Type 0 where
  pub digits_only : all is_digit t.whole ≡ true
  pub tenth_digit : is_digit t.tenth ≡ true
  pub hundredth_digit : is_digit t.hundredth ≡ true
  pub wide : least_digits t.negative ≤ length t.whole
  pub no_lead : least_digits t.negative < length t.whole → first_is b'0' t.whole ≡ false
  pub short : length (sign_text t.negative) + length t.whole ≤ 117

digits-append :
    (ds rest : List ℕ) (at : ℕ)
    → all is_digit ds ≡ true
    → at + length ds ≤ 118
    → digits (ds ++ b'.' ∷ rest) at ≡ some (record { at = at + length ds; rest = b'.' ∷ rest })
unfolding digits
digits-append [] rest at h k = ground arith
digits-append (d ∷ ds) rest at h k = ground (arith, digits-append ds rest (suc at))

fraction-text :
    (t : Stamp) (m : List ℕ) (at : ℕ)
    → is_digit t.tenth ≡ true
    → is_digit t.hundredth ≡ true
    → fraction (record { at = at; rest = after_whole t ++ m })
      ≡ (hit, record { at = at + 10; rest = m })
unfolding fraction
fraction-text t m at h k = ground (arith, literal-append after_time m (at + 3))

width-right :
    (negative : Bool) (ds rest : List ℕ)
    → least_digits negative ≤ length ds
    → (least_digits negative < length ds → first_is b'0' ds ≡ false)
    → width_wrong negative (ds ++ rest) (length ds) ≡ false
unfolding width_wrong
width-right true [] rest wide lead = absurd (omega arith)
width-right false [] rest wide lead = absurd (omega arith)
width-right true (d ∷ ds) rest wide lead = ground arith
width-right false (d ∷ ds) rest wide lead = ground arith

elapsed-text :
    (t : Stamp) (m : List ℕ) (at : ℕ)
    → IsStamp t
    → at + length t.whole ≤ 118
    → elapsed t.negative (record { at = at; rest = t.whole ++ (after_whole t ++ m) })
      ≡ (hit, record { at = at + length t.whole + 10; rest = m })
unfolding elapsed
elapsed-text t m at h fits =
    let rest = after_whole t ++ m in
    let first : Place = record { at = at; rest = t.whole ++ rest } in
    let e : at + length t.whole - at ≡ length t.whole = omega arith in
    ap (after_digits t.negative first)
      (digits-append t.whole (t.tenth ∷ t.hundredth ∷ after_time ++ m) at h.digits_only fits)
    ∙ rw (e, width-right t.negative t.whole rest h.wide h.no_lead)
        (fraction-text t m (at + length t.whole) h.tenth_digit h.hundredth_digit)

-- A digit is no sign.
unsigned_text :
    (ds rest : List ℕ) (at : ℕ)
    → all is_digit ds ≡ true
    → 0 < length ds
    → signed_from at (ds ++ rest) ≡ elapsed false (record { at = at; rest = ds ++ rest })
unfolding signed_from is_digit
unsigned_text [] rest at h k = absurd (omega arith)
unsigned_text (d ∷ ds) rest at h k = ground arith

pub length-stamp_text :
    (t : Stamp) → length (stamp_text t) ≡ length (sign_text t.negative) + length t.whole + 11
length-stamp_text t = omega (
  arith,
  length-append (sign_text t.negative) (t.whole ++ after_whole t),
  length-append t.whole (after_whole t),
)

signed-text :
    (negative : Bool) (t : Stamp) (m : List ℕ)
    → t.negative ≡ negative
    → IsStamp t
    → signed (record { at = 1; rest = sign_text negative ++ (t.whole ++ (after_whole t ++ m)) })
      ≡ (hit, record { at = length (stamp_text t); rest = m })
unfolding signed
signed-text true t m e h =
    let sign : length (sign_text t.negative) ≡ 1 = rw e in
    let far : 2 + length t.whole + 10 ≡ length (stamp_text t) =
      omega (arith, length-stamp_text t) in
    ap (λ b. elapsed b (record { at = 2; rest = t.whole ++ (after_whole t ++ m) })) (sym e)
    ∙ elapsed-text t m 2 h (omega (arith, h.short))
    ∙ ap (λ n. (hit, record { at = n; rest = m })) far
signed-text false t m e h =
    let sign : length (sign_text t.negative) ≡ 0 = rw e in
    let far : 1 + length t.whole + 10 ≡ length (stamp_text t) =
      omega (arith, length-stamp_text t) in
    let wide : 4 ≤ length t.whole = rw e at (h.wide) in
    unsigned_text t.whole (after_whole t ++ m) 1 h.digits_only (omega arith)
    ∙ ap (λ b. elapsed b (record { at = 1; rest = t.whole ++ (after_whole t ++ m) })) (sym e)
    ∙ elapsed-text t m 1 h (omega (arith, h.short))
    ∙ ap (λ n. (hit, record { at = n; rest = m })) far

-- The prefixes of a mode.
pub data IsPrefix : PrefixMode → List ℕ → Type 0 where
  plain : IsPrefix log_only log_prefix
  stamped : (t : Stamp) → IsStamp t → IsPrefix elapsed_time (stamp_text t)

-- A prefix is recognised whatever follows it, and is within the limit.
pub line_prefix-hit :
    {mode : PrefixMode} {text : List ℕ} (m : List ℕ)
    → IsPrefix mode text
    → (line_prefix mode (text ++ m) ≡ (hit, record { at = length text; rest = m }))
      × (length text ≤ prefix_limit)
unfolding line_prefix
line_prefix-hit m plain = (literal-append log_prefix m 0, omega arith)
line_prefix-hit m (stamped t h) = (
  rw
      (
        append_assoc (sign_text t.negative) (t.whole ++ after_whole t) m,
        append_assoc t.whole (after_whole t) m,
      )
      (signed-text t.negative t m refl h),
  omega (arith, length-stamp_text t, h.short),
)
