-- ===== src/Producer/Branches.antt =====
-- src/companion/steam_reporting_state.cpp: how a proof goes through a chain of refusals.
use rs2server_fix.Base.{
  ℕ, ◌≡◌, refl, Bool, true, false, not, ◌&&◌, ◌||◌, arith, if◌then◌else◌, Bool-cases, inl, inr, ap,
  ltb, ◌==◌, ◌≤◌, ◌∙◌,
}
use rs2server_fix.Types.{Reason, is_none}
use rs2server_fix.Producer.{ℤ, pos, negsuc, Floats, ProducerState, fail, clock, after, ticks}

-- A refusal that did not happen.
pub record Passed {State : Type 0} (b : Bool) (x rest : Reason × State) : Type 0 where
  pub test : b ≡ false
  pub whole : (if b then x else rest) ≡ rest
  pub good : is_none rest.0 ≡ true

pub passed :
    {State : Type 0} (b : Bool) (x rest : Reason × State)
    → (b ≡ true → is_none x.0 ≡ false)
    → is_none (if b then x else rest).0 ≡ true
    → Passed b x rest
passed true x rest k h = absurd (cc (k refl))
passed false x rest k h = record { test = refl; whole = refl; good = h }

pub not-true : (b : Bool) → not b ≡ true → b ≡ false
not-true b h = ground arith

pub not-false : (b : Bool) → not b ≡ false → b ≡ true
not-false b h = ground arith

clock_right :
    (frequency last now : ℕ) (have : Bool)
    → (frequency == 0 || (have && ltb now last)) ≡ false
    → (1 ≤ frequency) × (have ≡ true → last ≤ now)
clock_right frequency last now have h = ground arith

module _ (floats : Floats) where
  pub fail-refuses :
      (reason : Reason) (s : ProducerState floats)
      → is_none reason ≡ false
      → is_none (fail floats reason s).0 ≡ false
  unfolding fail
  fail-refuses reason s h = elim (Bool-cases (is_none s.fault)) [
    | inl e ↦ rw (e, h) refl
    | inr e ↦ rw (e, e) refl
  ]

  -- A clock that is good is one of a state without a fault, at a time that is not before the last.
  pub record Ticked (s : ProducerState floats) (now : ℤ) (t : ProducerState floats) : Type 0 where
    pub sound : is_none s.fault ≡ true
    pub running : 1 ≤ s.frequency
    pub after : s.have_clock ≡ true → s.last_qpc ≤ ticks floats now
    pub state : t ≡ record s { last_qpc = ticks floats now; have_clock = true }
    pub signed : now ≡ pos (ticks floats now)

  pub clock-Ticked :
      (s : ProducerState floats) (now : ℤ)
      → is_none (clock floats s now).0 ≡ true
      → Ticked s now (clock floats s now).1
  unfolding clock ticks is_none
  clock-Ticked s (negsuc n) h =
      let first =
        passed (not (is_none s.fault)) (s.fault, s) (fail floats Reason.clock_failed s)
          (λ e. not-true (is_none s.fault) e) h in
      let refused : is_none (fail floats Reason.clock_failed s).0 ≡ false =
        fail-refuses Reason.clock_failed s refl in
      let good : is_none (fail floats Reason.clock_failed s).0 ≡ true = first.good in absurd (cc)
  clock-Ticked s (pos now) h =
      let wrong = s.frequency == 0 || (s.have_clock && ltb now s.last_qpc) in
      let moved : ProducerState floats = record s { last_qpc = now; have_clock = true } in
      let rest : Reason × ProducerState floats =
        if wrong then fail floats Reason.clock_failed s else (Reason.none, moved) in
      let first =
        passed (not (is_none s.fault)) (s.fault, s) rest (λ e. not-true (is_none s.fault) e) h in
      let second =
        passed wrong (fail floats Reason.clock_failed s) (Reason.none, moved)
          (λ _. fail-refuses Reason.clock_failed s refl) first.good in
      let good = clock_right s.frequency s.last_qpc now s.have_clock second.test in
      record {
        sound = not-false (is_none s.fault) first.test;
        running = good.0;
        after = good.1;
        state = ap (λ (r : Reason × ProducerState floats). r.1) (first.whole ∙ second.whole);
        signed = refl;
      }

  pub after-passed :
      (r : Reason × ProducerState floats)
      (next : ProducerState floats → Reason × ProducerState floats)
      → is_none (after floats r next).0 ≡ true
      → (is_none r.0 ≡ true) × (after floats r next ≡ next r.1)
  unfolding after
  after-passed (reason, s) next h = through (is_none reason) refl (next s) h
    where
      through :
          (b : Bool)
          → is_none reason ≡ b
          → (x : Reason × ProducerState floats) → is_none (if b then x else (reason, s)).0 ≡ true
          → (is_none reason ≡ true) × ((if b then x else (reason, s)) ≡ x)
      through true e x h = (e, refl)
      through false e x h = absurd (cc)
