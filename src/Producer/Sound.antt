-- ===== src/Producer/Sound.antt =====
-- src/companion/steam_reporting_state.cpp: what a fresh tuple that is given out stands for.
use rs2server_fix.Base.{
  ℕ, ◌-◌, ◌*◌, ◌≤◌, ◌≡◌, Bool, true, false, not, ◌||◌, ltb, ◌==◌, if◌then◌else◌, arith, refl, ap,
  ◌∙◌, sym, subst, Bool-cases, inl, inr, ◌⊎◌, ==→eq,
}
use rs2server_fix.Types.{Reason, NativeCounts, is_none, equal_counts, freshness_seconds}
use rs2server_fix.Producer.{
  ℤ, Floats, FreshTuple, ProducerState, clock, ticks, after, fresh_after_clock, read_fresh_tuple,
  is_repair, supported, no_fresh, invalidate_producer,
}
use rs2server_fix.Producer.Branches.{passed, clock-Ticked, after-passed}

neither2 : (a b : Bool) → not a || not b ≡ false → (a ≡ true) × (b ≡ true)
neither2 a b h = ground arith

neither3 : (a b c : Bool) → not a || not b || not c ≡ false → (a ≡ true) × (b ≡ true) × (c ≡ true)
neither3 a b c h = ground arith

not_late : (a b : ℕ) → ltb a b ≡ false → b ≤ a
not_late a b h = ground arith

module _ (floats : Floats) where
  -- What is known of a tuple that is given out at a time, with the counts of that time.
  pub record IsCurrent (s : ProducerState floats) (now : ℕ) (outer : NativeCounts) (bots : ℕ)
      (out : FreshTuple) : Type 0 where
    pub kept : out ≡ s.fresh
    pub valid : out.valid ≡ true
    pub repair : is_repair s.mode ≡ true
    pub source : out.source_epoch ≡ s.source_epoch
    pub binding : out.binding_epoch ≡ s.binding_epoch
    pub recent : now - out.lower_bound_qpc ≤ s.frequency * freshness_seconds
    pub counts : equal_counts outer out.counts ≡ true
    pub game : bots ≡ out.counts.bots
    pub small : supported outer bots ≡ true

  fresh_facts :
      (now : ℕ) (outer : NativeCounts) (bots : ℕ) (s : ProducerState floats)
      → is_none (fresh_after_clock floats now outer bots s).0 ≡ true
      → ((fresh_after_clock floats now outer bots s).1 ≡ s) × IsCurrent s now outer bots s.fresh
  unfolding fresh_after_clock is_none
  fresh_facts now outer bots s h =
      let closed = not (is_repair s.mode) || not s.fresh.valid in
      let other =
        not (s.fresh.source_epoch == s.source_epoch)
        || not (s.fresh.binding_epoch == s.binding_epoch) in
      let old = ltb (s.frequency * freshness_seconds) (now - s.fresh.lower_bound_qpc) in
      let wrong =
        not (supported outer bots)
        || not (equal_counts outer s.fresh.counts)
        || not (bots == s.fresh.counts.bots) in
      let last : Reason × ProducerState floats =
        if wrong then (Reason.prepared_mismatch, s) else (Reason.none, s) in
      let third : Reason × ProducerState floats =
        if old then (Reason.freshness_expired, record s { fresh = no_fresh }) else last in
      let second : Reason × ProducerState floats =
        if other then (Reason.source_lifetime, invalidate_producer floats s) else third in
      let a = passed closed (Reason.freshness_expired, s) second (λ _. refl) h in
      let b =
        passed other (Reason.source_lifetime, invalidate_producer floats s) third (λ _. refl)
          a.good in
      let c =
        passed old (Reason.freshness_expired, record s { fresh = no_fresh }) last (λ _. refl)
          b.good in
      let d = passed wrong (Reason.prepared_mismatch, s) (Reason.none, s) (λ _. refl) c.good in
      let (repair, valid) = neither2 (is_repair s.mode) s.fresh.valid a.test in
      let (source, binding) =
        neither2 (s.fresh.source_epoch == s.source_epoch) (s.fresh.binding_epoch == s.binding_epoch)
          b.test in
      let (small, counts, game) =
        neither3 (supported outer bots) (equal_counts outer s.fresh.counts)
          (bots == s.fresh.counts.bots) d.test in
      (
        ap (λ (r : Reason × ProducerState floats). r.1) (a.whole ∙ b.whole ∙ c.whole ∙ d.whole),
        record {
          kept = refl;
          valid = valid;
          repair = repair;
          source = ==→eq _ _ source;
          binding = ==→eq _ _ binding;
          recent =
              not_late (s.frequency * freshness_seconds) (now - s.fresh.lower_bound_qpc) c.test;
          counts = counts;
          game = ==→eq _ _ game;
          small = small;
        },
      )

  before_clock :
      (s : ProducerState floats) (last now : ℕ) (outer : NativeCounts) (bots : ℕ)
      → IsCurrent (record s { last_qpc = last; have_clock = true }) now outer bots s.fresh
      → IsCurrent s now outer bots s.fresh
  before_clock s last now outer bots h = record {
    kept = refl;
    valid = h.valid;
    repair = h.repair;
    source = h.source;
    binding = h.binding;
    recent = h.recent;
    counts = h.counts;
    game = h.game;
    small = h.small;
  }

  -- A tuple is given out with the reason `None` only in the repair mode, by a state without a fault
  -- and at a time that is not before the last one; it is the valid tuple that the state holds, of
  -- the current source and binding, whose sample is at most 45 s old, and its counts are the
  -- current ones, which are in range. With any other reason what is given out is not valid.
  pub read_fresh_tuple-IsCurrent :
      (s : ProducerState floats) (now : ℤ) (outer : NativeCounts) (bots : ℕ)
      → let r = read_fresh_tuple floats s now outer bots in
        (is_none r.0 ≡ true
          × (is_none s.fault ≡ true)
          × (s.have_clock ≡ true → s.last_qpc ≤ ticks floats now)
          × IsCurrent s (ticks floats now) outer bots r.1)
        ⊎ (is_none r.0 ≡ false × (r.1.valid ≡ false))
  unfolding read_fresh_tuple
  read_fresh_tuple-IsCurrent s now outer bots =
      let next = fresh_after_clock floats (ticks floats now) outer bots in
      let r = after floats (clock floats s now) next in
      elim (Bool-cases (is_none r.0)) [
        | inr e ↦ inr (e, rw e refl)
        | inl e ↦
            let (good, through) = after-passed floats (clock floats s now) next e in
            let ticked = clock-Ticked floats s now good in
            let (same, current) =
              fresh_facts (ticks floats now) outer bots (clock floats s now).1
                (subst (λ (q : Reason × ProducerState floats). is_none q.0 ≡ true) through e) in
            let fresh : r.1.fresh ≡ s.fresh =
              ap (λ (q : Reason × ProducerState floats). q.1.fresh) through
              ∙ ap (λ (t : ProducerState floats). t.fresh) (same ∙ ticked.state) in
            let held : IsCurrent s (ticks floats now) outer bots r.1.fresh =
              subst (IsCurrent s (ticks floats now) outer bots) (sym fresh) (
                before_clock s (ticks floats now) (ticks floats now) outer bots (
                  subst (λ t. IsCurrent t (ticks floats now) outer bots t.fresh) ticked.state
                    current)) in
            inl (e, ticked.sound, ticked.after, rw e held)
      ]
