-- ===== src/Records/Ring/Slots.antt =====
-- src/companion/steam_reporting_records.cpp: the slots between the two sequences of the ring hold the
-- records that wait.
use rs2server_fix.Base.{
  ℕ, suc, ◌+◌, ◌%◌, ◌≤◌, ◌<◌, ◌≡◌, refl, subst, ◌∙◌, true, false, List, [], ◌∷◌, ◌++◌, length, ◌==◌,
  passed_over, arith,
}
use rs2server_fix.Records.Payload.{ReportRecordV3}
use rs2server_fix.Records.Ring.{zero_record, place, slot_valid}

-- From the sequence `read` on.
pub data Slots (owner : ℕ) (slots : ℕ → ReportRecordV3) : ℕ → List ReportRecordV3 → Type 0 where
  none_left : {read : ℕ} → Slots owner slots read []
  next :
      {read : ℕ} {r : ReportRecordV3} {rest : List ReportRecordV3}
      → slots (read % 256) ≡ r
      → slot_valid r read owner ≡ true
      → Slots owner slots (suc read) rest
      → Slots owner slots read (r ∷ rest)

-- Two sequences less than the capacity apart have slots of their own.
apart : (n m : ℕ) → n < m → m < n + 256 → (n % 256 == m % 256) ≡ false
apart n m a b = ground arith

place_other :
    (slots : ℕ → ReportRecordV3) (r : ReportRecordV3) (i j : ℕ)
    → (j == i) ≡ false
    → place i r slots j ≡ slots j
unfolding place
place_other slots r i j e = passed_over (j == i) r (slots j) e

place_same : (slots : ℕ → ReportRecordV3) (r : ReportRecordV3) (i : ℕ) → place i r slots i ≡ r
unfolding place
place_same slots r i = rw (same_index i) refl
  where
    same_index : (i : ℕ) → (i == i) ≡ true
    same_index i = ground arith

-- A record is placed behind those that wait.
pub append-Slots :
    (owner : ℕ) (slots : ℕ → ReportRecordV3) (read at : ℕ) (q : List ReportRecordV3)
    (r : ReportRecordV3)
    → Slots owner slots read q
    → at ≡ read + length q
    → length q < 256
    → slot_valid r at owner ≡ true
    → Slots owner (place (at % 256) r slots) read (q ++ r ∷ [])
append-Slots owner slots read at [] r h e small valid =
    let same_at : at ≡ read = omega (arith, e) in
    next
      (subst (λ k. place (at % 256) r slots (k % 256) ≡ r) same_at (place_same slots r (at % 256)))
      (subst (λ k. slot_valid r k owner ≡ true) same_at valid) none_left
append-Slots owner slots read at (x ∷ xs) r (next held ok rest) e small valid =
    next
      (place_other slots r _ _ (apart read at (omega (arith, e)) (omega (arith, e, small))) ∙ held)
      ok
      (append-Slots owner slots (suc read) at xs r rest (omega (arith, e)) (omega (arith, small))
        valid)

-- A slot outside of those that wait is cleared.
pub clear-Slots :
    (owner : ℕ) (slots : ℕ → ReportRecordV3) (at read : ℕ) (q : List ReportRecordV3)
    → Slots owner slots read q
    → at < read
    → read + length q ≤ at + 256
    → Slots owner (place (at % 256) zero_record slots) read q
clear-Slots owner slots at read [] none_left before bound = none_left
clear-Slots owner slots at read (x ∷ xs) (next e ok rest) before bound =
    next (place_other slots zero_record _ _ (far at read before (omega (arith, bound))) ∙ e) ok
      (clear-Slots owner slots at (suc read) xs rest (omega (arith, before)) (omega (arith, bound)))
  where
    far : (a b : ℕ) → a < b → b < a + 256 → (b % 256 == a % 256) ≡ false
    far a b x y = ground arith
