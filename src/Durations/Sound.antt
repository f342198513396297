-- ===== src/Durations/Sound.antt =====
-- src/companion/steam_reporting_status.cpp: what `AccountDuration` counts over a run of durations.
use rs2server_fix.Base.{
  ℕ, zero, suc, ◌+◌, ◌-◌, ◌*◌, ◌/◌, ◌≤◌, ◌<◌, ◌≡◌, refl, sym, ap, ◌∙◌, Bool, true, false, ◌||◌,
  Option, none, some, List, [], ◌∷◌, length, ltb, leb, ◌==◌, if◌then◌else◌, pick, passed_over,
  arith,
}
use rs2server_fix.Types.{int64_max, uint64_max}
use rs2server_fix.Status.Wire.{DurationCounters}
use rs2server_fix.Durations.{
  at_most_microseconds, increment_counter, limits, bucket_of, prefixed, onto, increment_bucket,
  committed, account_duration,
}
use rs2server_fix.Durations.Exact.{at_most_microseconds-leb}

-- Calls one after another, of which none may be refused; `earlier` is what the ones before left.
unfoldable pub account_all : ℕ → Option DurationCounters → List ℕ → Option DurationCounters
account_all f none ds = none
account_all f (some c) [] = some c
account_all f (some c) (d ∷ ds) = account_all f (account_duration c d f) ds

-- A reference: the bucket by a comparison of rational numbers, and numbers of durations.
unfoldable pub falls_in : ℕ → List ℕ → ℕ → ℕ
falls_in f [] d = 0
falls_in f (limit ∷ more) d =
    let rest = falls_in f more d in if leb (d * 1000000) (f * limit) then 0 else suc rest

unfoldable pub count : (ℕ → Bool) → List ℕ → ℕ
count p [] = 0
count p (d ∷ ds) = let rest = count p ds in if p d then suc rest else rest

unfoldable pub total : List ℕ → ℕ
total [] = 0
total (d ∷ ds) = d + total ds

unfoldable pub largest : ℕ → List ℕ → ℕ
largest m [] = m
largest m (d ∷ ds) = largest (if ltb m d then d else m) ds

-- The buckets from the k-th on, each with the number of durations that fall in it.
unfoldable pub tally : (ℕ → ℕ) → ℕ → List ℕ → List ℕ
tally g k [] = []
tally g k (b ∷ bs) = (b + g k) ∷ tally g (suc k) bs

unfoldable pub summary : ℕ → DurationCounters → List ℕ → DurationCounters
unfolding falls_in count total largest tally
summary f c ds = record {
  calls = c.calls + length ds;
  elapsed_ticks = c.elapsed_ticks + total ds;
  maximum_ticks = largest c.maximum_ticks ds;
  over_five_milliseconds = c.over_five_milliseconds + count (λ d. ltb (f * 5000) (d * 1000000)) ds;
  buckets = tally (λ k. count (λ d. falls_in f limits d == k) ds) 0 c.buckets;
}

-- Six buckets, none of which counts more durations than there were calls.
unfoldable pub AtMost : ℕ → List ℕ → Type 0
AtMost n [] = n ≡ n
AtMost n (b ∷ bs) = (b ≤ n) × AtMost n bs

pub record IsCounted (c : DurationCounters) : Type 0 where
  pub six : length c.buckets ≡ 6
  pub buckets : AtMost c.calls c.buckets
  pub over : c.over_five_milliseconds ≤ c.calls

bumped : ℕ → List ℕ → List ℕ
bumped k [] = []
bumped zero (b ∷ bs) = (b + 1) ∷ bs
bumped (suc k) (b ∷ bs) = b ∷ bumped k bs

increments : (v a : ℕ) → v + a ≤ uint64_max → increment_counter v a ≡ some (v + a)
unfolding increment_counter
increments v a h = passed_over (ltb (uint64_max - v) a) none (some (v + a)) (below v a uint64_max h)
  where
    below : (v a m : ℕ) → v + a ≤ m → ltb (m - v) a ≡ false
    below v a m h = ground arith

increment_bucket-bumped :
    (n k : ℕ) (bs : List ℕ)
    → AtMost n bs
    → n + 1 ≤ uint64_max
    → k < length bs
    → increment_bucket k bs ≡ some (bumped k bs)
unfolding increment_bucket AtMost bumped prefixed onto
increment_bucket-bumped n k [] h m lt = absurd (omega (arith, lt))
increment_bucket-bumped n zero (b ∷ bs) h m lt =
    let small = h.0 in ap (λ o. onto o bs) (increments b 1 (grown b n uint64_max small m))
  where
    grown : (b n m : ℕ) → b ≤ n → n + 1 ≤ m → b + 1 ≤ m
    grown b n m x y = omega (arith, x, y)
increment_bucket-bumped n (suc k) (b ∷ bs) h m lt =
    ap (prefixed b) (increment_bucket-bumped n k bs h.1 m (omega (arith, lt)))

bumped-AtMost : (n k : ℕ) (bs : List ℕ) → AtMost n bs → AtMost (n + 1) (bumped k bs)
unfolding AtMost bumped
bumped-AtMost n k [] h = refl
bumped-AtMost n zero (b ∷ bs) h = (let x = h.0 in omega (arith, x), weaker bs h.1)
  where
    weaker : (bs : List ℕ) → AtMost n bs → AtMost (n + 1) bs
    weaker [] h = refl
    weaker (b ∷ bs) h = (let x = h.0 in omega (arith, x), weaker bs h.1)
bumped-AtMost n (suc k) (b ∷ bs) h = (let x = h.0 in omega (arith, x), bumped-AtMost n k bs h.1)

length-bumped : (k : ℕ) (bs : List ℕ) → length (bumped k bs) ≡ length bs
unfolding bumped
length-bumped k [] = refl
length-bumped zero (b ∷ bs) = refl
length-bumped (suc k) (b ∷ bs) = omega (arith, length-bumped k bs)

bucket_of-falls_in : (f d : ℕ) (ls : List ℕ) → bucket_of d f ls ≡ falls_in f ls d
unfolding bucket_of falls_in
bucket_of-falls_in f d [] = refl
bucket_of-falls_in f d (l ∷ ls) =
    rw (bucket_of-falls_in f d ls, at_most_microseconds-leb d f l) refl

falls_in-bound : (f d : ℕ) (ls : List ℕ) → falls_in f ls d ≤ length ls
unfolding falls_in
falls_in-bound f d [] = omega arith
falls_in-bound f d (l ∷ ls) =
    let r = falls_in-bound f d ls in
    pick (λ n. n ≤ suc (length ls)) (leb (d * 1000000) (f * l)) _ _ (λ _. omega arith)
      (λ _. omega (arith, r))

-- What one duration adds.
stepped : ℕ → DurationCounters → ℕ → DurationCounters
unfolding bumped
stepped f c d = record {
  calls = c.calls + 1;
  elapsed_ticks = c.elapsed_ticks + d;
  maximum_ticks = if ltb c.maximum_ticks d then d else c.maximum_ticks;
  over_five_milliseconds =
      c.over_five_milliseconds + (if ltb (f * 5000) (d * 1000000) then 1 else 0);
  buckets = bumped (falls_in f limits d) c.buckets;
}

accepted_frequency :
    (f : ℕ) → 1 ≤ f → f ≤ int64_max / 45 → (f == 0 || ltb (int64_max / 45) f) ≡ false
accepted_frequency f a b = bounded f (int64_max / 45) a b
  where
    bounded : (f m : ℕ) → 1 ≤ f → f ≤ m → (f == 0 || ltb m f) ≡ false
    bounded f m a b = ground arith

over_counted :
    (x a b : ℕ) (at_most : Bool)
    → at_most ≡ leb a b
    → x + 1 ≤ uint64_max
    → (if at_most then some x else increment_counter x 1) ≡ some (x + (if ltb b a then 1 else 0))
over_counted x a b at_most e room =
    pick (λ r. r ≡ some (x + (if ltb b a then 1 else 0))) at_most (some x) (increment_counter x 1)
      (λ t. ap some (unchanged x a b (sym e ∙ t)))
      λ t. increments x 1 room ∙ ap some (one_more x a b (sym e ∙ t))
  where
    unchanged : (x a b : ℕ) → leb a b ≡ true → x ≡ x + (if ltb b a then 1 else 0)
    unchanged x a b h = ground arith

    one_more : (x a b : ℕ) → leb a b ≡ false → x + 1 ≡ x + (if ltb b a then 1 else 0)
    one_more x a b h = ground arith

account_duration-stepped :
    (f : ℕ) (c : DurationCounters) (d : ℕ)
    → 1 ≤ f
    → f ≤ int64_max / 45
    → IsCounted c
    → c.calls + 1 ≤ uint64_max
    → c.elapsed_ticks + d ≤ uint64_max
    → account_duration c d f ≡ some (stepped f c d)
unfolding account_duration committed stepped
account_duration-stepped f c d low high h calls ticks =
    let six = h.six in
    let over = h.over in
    let bound = falls_in-bound f d limits in
    let e1 = increments c.calls 1 calls in
    let e2 = increments c.elapsed_ticks d ticks in
    let e3 : increment_bucket (bucket_of d f limits) c.buckets
        ≡ some (bumped (falls_in f limits d) c.buckets) =
      ap (λ k. increment_bucket k c.buckets) (bucket_of-falls_in f d limits)
      ∙ increment_bucket-bumped c.calls (falls_in f limits d) c.buckets h.buckets calls
          (omega (arith, bound, six)) in
    let e4 =
      over_counted c.over_five_milliseconds (d * 1000000) (f * 5000) (at_most_microseconds d f 5000)
        (at_most_microseconds-leb d f 5000) (below over calls) in
    rw (accepted_frequency f low high, e1, e2, e3, e4) refl
  where
    below : {x n m : ℕ} → x ≤ n → n + 1 ≤ m → x + 1 ≤ m
    below a b = omega (arith, a, b)

stepped-IsCounted : (f : ℕ) (c : DurationCounters) (d : ℕ) → IsCounted c → IsCounted (stepped f c d)
unfolding stepped
stepped-IsCounted f c d h =
    let over = h.over in
    record {
      six = length-bumped (falls_in f limits d) c.buckets ∙ h.six;
      buckets = bumped-AtMost c.calls (falls_in f limits d) c.buckets h.buckets;
      over =
          pick (λ n. c.over_five_milliseconds + n ≤ c.calls + 1) (ltb (f * 5000) (d * 1000000)) 1 0
            (λ _. omega (arith, over)) (λ _. omega (arith, over));
    }

cons_eq : {x y : ℕ} {xs ys : List ℕ} → x ≡ y → xs ≡ ys → x ∷ xs ≡ y ∷ ys
cons_eq e f = rw (e, f) refl

tally_same :
    (g h : ℕ → ℕ) (k : ℕ) (bs : List ℕ)
    → ((j : ℕ) → k ≤ j → h j ≡ g j)
    → tally g k bs ≡ tally h k bs
unfolding tally
tally_same g h k [] e = refl
tally_same g h k (b ∷ bs) e =
    let e0 = e k (omega arith) in
    cons_eq (omega (arith, e0)) (tally_same g h (suc k) bs (λ j le. e j (omega (arith, le))))

tally_nothing : (g : ℕ → ℕ) (k : ℕ) (bs : List ℕ) → ((j : ℕ) → g j ≡ 0) → tally g k bs ≡ bs
unfolding tally
tally_nothing g k [] e = refl
tally_nothing g k (b ∷ bs) e =
    let e0 = e k in cons_eq (omega (arith, e0)) (tally_nothing g (suc k) bs e)

-- One more in the bucket i is one more duration that falls in it.
tally-bumped :
    (g h : ℕ → ℕ) (i k : ℕ) (bs : List ℕ)
    → ((j : ℕ) → h j ≡ g j + (if k + i == j then 1 else 0))
    → tally g k (bumped i bs) ≡ tally h k bs
unfolding tally bumped
tally-bumped g h i k [] e = refl
tally-bumped g h zero k (b ∷ bs) e =
    let e0 = e k in
    cons_eq (here k (g k) (h k) b e0)
      (tally_same g h (suc k) bs (λ j le. let ej = e j in later k j (g j) (h j) le ej))
  where
    here : (k x y b : ℕ) → y ≡ x + (if k + 0 == k then 1 else 0) → b + 1 + x ≡ b + y
    here k x y b e = ground arith

    later : (k j x y : ℕ) → suc k ≤ j → y ≡ x + (if k + 0 == j then 1 else 0) → y ≡ x
    later k j x y le e = ground arith
tally-bumped g h (suc i) k (b ∷ bs) e =
    let e0 = e k in
    cons_eq (other k i (g k) (h k) b e0)
      (tally-bumped g h i (suc k) bs (λ j. let ej = e j in shifted k i j (g j) (h j) ej))
  where
    other : (k i x y b : ℕ) → y ≡ x + (if k + suc i == k then 1 else 0) → b + x ≡ b + y
    other k i x y b e = ground arith

    shifted :
        (k i j x y : ℕ)
        → y ≡ x + (if k + suc i == j then 1 else 0)
        → y ≡ x + (if suc k + i == j then 1 else 0)
    shifted k i j x y e = ground arith

abbrev counters : ℕ → ℕ → ℕ → ℕ → List ℕ → DurationCounters
counters calls ticks maximum over buckets = record {
  calls = calls;
  elapsed_ticks = ticks;
  maximum_ticks = maximum;
  over_five_milliseconds = over;
  buckets = buckets;
}

counters_eq :
    {a b : ℕ} {p q : ℕ} {m : ℕ} {v w : ℕ} {xs ys : List ℕ}
    → a ≡ b
    → p ≡ q
    → v ≡ w
    → xs ≡ ys
    → counters a p m v xs ≡ counters b q m w ys
counters_eq e f g h = rw (e, f, g, h) refl

if_suc : (b : Bool) (x n : ℕ) → x + (if b then 1 else 0) + n ≡ x + (if b then suc n else n)
if_suc b x n = ground arith

if_counted : (b : Bool) (n : ℕ) → (if b then suc n else n) ≡ n + (if b then 1 else 0)
if_counted b n = ground arith

summary-stepped :
    (f : ℕ) (c : DurationCounters) (d : ℕ) (ds : List ℕ)
    → summary f (stepped f c d) ds ≡ summary f c (d ∷ ds)
unfolding summary stepped count total largest
summary-stepped f c d ds =
    counters_eq (omega arith) (omega arith)
      (if_suc (ltb (f * 5000) (d * 1000000)) c.over_five_milliseconds _)
      (tally-bumped (λ k. count (λ x. falls_in f limits x == k) ds)
        (λ k. count (λ x. falls_in f limits x == k) (d ∷ ds)) (falls_in f limits d) 0 c.buckets
        (λ j.
          if_counted (falls_in f limits d == j) _
          ∙ ap (λ i. count (λ x. falls_in f limits x == j) ds + (if i == j then 1 else 0))
              (sym (starting (falls_in f limits d)))))
  where
    starting : (i : ℕ) → 0 + i ≡ i
    starting i = omega arith

-- Durations that the 64-bit counters have room for are counted exactly as the reference does: their
-- number, sum and maximum, those over 5 ms, and in each bucket those that fall between its limits as
-- rational numbers.
pub account_all-summary :
    (f : ℕ) (c : DurationCounters) (ds : List ℕ)
    → 1 ≤ f
    → f ≤ int64_max / 45
    → IsCounted c
    → c.calls + length ds ≤ uint64_max
    → c.elapsed_ticks + total ds ≤ uint64_max
    → account_all f (some c) ds ≡ some (summary f c ds)
unfolding account_all total summary count largest stepped
account_all-summary f c [] low high h calls ticks = ap some (
    sym (
      counters_eq (omega arith) (omega arith) (omega arith)
        (tally_nothing (λ k. 0) 0 c.buckets (λ j. refl))))
account_all-summary f c (d ∷ ds) low high h calls ticks =
    ap (λ o. account_all f o ds)
      (account_duration-stepped f c d low high h (omega (arith, calls)) (omega (arith, ticks)))
    ∙ account_all-summary f (stepped f c d) ds low high (stepped-IsCounted f c d h)
        (omega (arith, calls)) (omega (arith, ticks))
    ∙ ap some (summary-stepped f c d ds)
