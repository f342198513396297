-- ===== src/Producer/Kept.antt =====
-- src/companion/steam_reporting_state.cpp: the steps that leave the record of requests as it was.
use rs2server_fix.Base.{
  ℕ, ◌-◌, ◌*◌, ◌≡◌, refl, ◌∙◌, Bool, true, false, not, ◌&&◌, ◌||◌, ltb, leb, ◌==◌, if◌then◌else◌,
}
use rs2server_fix.Types.{
  Reason, NativeCounts, is_none, request_floor_seconds, freshness_seconds, uint64_max,
}
use rs2server_fix.Producer.{
  ℤ, pos, negsuc, Floats, ProducerSample, PendingRequest, ProducerState, without_claims, fail,
  clock, ticks, expire_pending, after, invalidate_producer, set_producer_epoch, may_stage,
  stage_after_clock, can_stage_request, seen_set, read_back, witnessed, observe_pending,
  observe_after_clock, observe_producer, fresh_after_clock, read_fresh_tuple, is_repair, is_timer,
  consumed,
}

module _ (floats : Floats) where
  -- The record of requests is as it was.
  pub record Kept (s t : ProducerState floats) : Type 0 where
    pub frequency : t.frequency ≡ s.frequency
    pub requests : t.request_sequence ≡ s.request_sequence
    pub last : t.last_request_qpc ≡ s.last_request_qpc
    pub have : t.have_request ≡ s.have_request

  pub still : (s : ProducerState floats) → Kept s s
  still s = record { frequency = refl; requests = refl; last = refl; have = refl }

  pub onward : {s t u : ProducerState floats} → Kept s t → Kept t u → Kept s u
  onward a b = record {
    frequency = b.frequency ∙ a.frequency;
    requests = b.requests ∙ a.requests;
    last = b.last ∙ a.last;
    have = b.have ∙ a.have;
  }

  pub fail-Kept : (reason : Reason) (s : ProducerState floats) → Kept s (fail floats reason s).1
  unfolding fail without_claims
  fail-Kept reason s = record { frequency = refl; requests = refl; last = refl; have = refl }

  pub invalidate_producer-Kept : (s : ProducerState floats) → Kept s (invalidate_producer floats s)
  unfolding invalidate_producer without_claims
  invalidate_producer-Kept s = record {
    frequency = refl;
    requests = refl;
    last = refl;
    have = refl;
  }

  pub pick :
      (b : Bool) {s t u : ProducerState floats} → Kept s t → Kept s u → Kept s (if b then t else u)
  pick true a b = a
  pick false a b = b

  pub choose :
      {s : ProducerState floats} (x y : Reason × ProducerState floats) (b : Bool)
      → Kept s x.1
      → Kept s y.1
      → Kept s (if b then x else y).1
  choose x y true a b = a
  choose x y false a b = b

  pub clock-Kept : (s : ProducerState floats) (now : ℤ) → Kept s (clock floats s now).1
  unfolding clock
  clock-Kept s (negsuc n) =
      choose _ _ (not (is_none s.fault)) (still s) (fail-Kept Reason.clock_failed s)
  clock-Kept s (pos now) = choose _ _ (not (is_none s.fault)) (still s) (
      choose _ _ (s.frequency == 0 || (s.have_clock && ltb now s.last_qpc))
        (fail-Kept Reason.clock_failed s)
        (record { frequency = refl; requests = refl; last = refl; have = refl }))

  pub expire_pending-Kept :
      (s : ProducerState floats) (now : ℕ) → Kept s (expire_pending floats s now)
  unfolding expire_pending
  expire_pending-Kept s now =
      pick (s.pending.active && leb (s.frequency * freshness_seconds) (now - s.pending.staged_qpc))
        (record { frequency = refl; requests = refl; last = refl; have = refl }) (still s)

  pub after-Kept :
      (s : ProducerState floats) (r : Reason × ProducerState floats)
      (next : ProducerState floats → Reason × ProducerState floats)
      → Kept s r.1
      → ((t : ProducerState floats) → Kept t (next t).1)
      → Kept s (after floats r next).1
  unfolding after
  after-Kept s (reason, t) next a b = choose _ _ (is_none reason) (onward a (b t)) a

  pub set_producer_epoch-Kept :
      (s : ProducerState floats) (source binding : ℕ)
      → Kept s (set_producer_epoch floats s source binding).1
  unfolding set_producer_epoch
  set_producer_epoch-Kept s source binding =
      let moved = not (source == s.source_epoch) || not (binding == s.binding_epoch) in
      let t : ProducerState floats = if moved then invalidate_producer floats s else s in
      let kept : Kept s t = pick moved (invalidate_producer-Kept s) (still s) in
      choose _ _ (not (is_none s.fault)) (still s) (
        choose _ _ (source == 0 || binding == 0) (invalidate_producer-Kept s) (
          choose _ _ (ltb source s.source_epoch || ltb binding s.binding_epoch)
            (fail-Kept Reason.lifecycle_crossing s)
            (record {
              frequency = kept.frequency;
              requests = kept.requests;
              last = kept.last;
              have = kept.have;
            })))

  pub may_stage-Kept : (s : ProducerState floats) (now : ℕ) → Kept s (may_stage floats s now).1
  unfolding may_stage
  may_stage-Kept s now = choose _ _ s.pending.active (still s) (
      choose _ _
        (s.have_request && ltb (now - s.last_request_qpc) (s.frequency * request_floor_seconds))
        (still s)
        (choose _ _ (s.request_sequence == uint64_max) (fail-Kept Reason.counter_overflow s)
          (still s)))

  pub stage_after_clock-Kept :
      (now : ℕ) (s : ProducerState floats) → Kept s (stage_after_clock floats now s).1
  unfolding stage_after_clock
  stage_after_clock-Kept now s = choose _ _ (not (is_repair s.mode)) (still s) (
      choose _ _ (not s.epoch_ready || s.source_epoch == 0 || s.binding_epoch == 0) (still s)
        (onward (expire_pending-Kept s now) (may_stage-Kept (expire_pending floats s now) now)))

  pub can_stage_request-Kept :
      (s : ProducerState floats) (now : ℤ) → Kept s (can_stage_request floats s now).1
  unfolding can_stage_request
  can_stage_request-Kept s now =
      after-Kept s (clock floats s now) (stage_after_clock floats (ticks floats now))
        (clock-Kept s now) (stage_after_clock-Kept (ticks floats now))

  pub read_back-Kept :
      (sample : ProducerSample floats) (valid : Bool) (s : ProducerState floats)
      → Kept s (read_back floats sample valid s).1
  unfolding read_back seen_set
  read_back-Kept sample valid s =
      let t = expire_pending floats s (ticks floats sample.qpc) in
      let kept = expire_pending-Kept s (ticks floats sample.qpc) in
      choose _ _ (not t.pending.active) kept (
        choose _ _ (not valid || not sample.requested || not (is_timer floats sample.timer)) kept
          (record {
            frequency = kept.frequency;
            requests = kept.requests;
            last = kept.last;
            have = kept.have;
          }))

  pub witnessed-Kept :
      (previous : PendingRequest floats) (sample : ProducerSample floats) (s : ProducerState floats)
      → Kept s (witnessed floats previous sample s).1
  unfolding witnessed
  witnessed-Kept previous sample s = choose _ _ (not (consumed floats previous sample)) (still s) (
      choose _ _ (s.witness_sequence == uint64_max) (fail-Kept Reason.counter_overflow s)
        (record { frequency = refl; requests = refl; last = refl; have = refl }))

  pub observe_pending-Kept :
      (sample : ProducerSample floats) (s : ProducerState floats)
      → Kept s (observe_pending floats sample s).1
  unfolding observe_pending seen_set without_claims
  observe_pending-Kept sample s =
      choose _ _
        (not (s.pending.source_epoch == s.source_epoch)
          || not (s.pending.binding_epoch == s.binding_epoch))
        (invalidate_producer-Kept s)
        (choose _ _ (not (is_timer floats sample.timer)) (invalidate_producer-Kept s) (
          choose _ _ sample.requested
            (record { frequency = refl; requests = refl; last = refl; have = refl })
            (onward (record { frequency = refl; requests = refl; last = refl; have = refl })
              (witnessed-Kept s.pending sample (without_claims floats s)))))

  pub observe_producer-Kept :
      (s : ProducerState floats) (sample : ProducerSample floats)
      → Kept s (observe_producer floats s sample).1
  unfolding observe_producer observe_after_clock
  observe_producer-Kept s sample =
      after-Kept s (clock floats s sample.qpc) (observe_after_clock floats sample)
        (clock-Kept s sample.qpc)
        (λ t.
          let u = expire_pending floats t (ticks floats sample.qpc) in
          let kept = expire_pending-Kept t (ticks floats sample.qpc) in
          choose _ _ (not u.pending.active) kept (onward kept (observe_pending-Kept sample u)))

  pub fresh_after_clock-Kept :
      (now : ℕ) (outer : NativeCounts) (bots : ℕ) (s : ProducerState floats)
      → Kept s (fresh_after_clock floats now outer bots s).1
  unfolding fresh_after_clock
  fresh_after_clock-Kept now outer bots s =
      choose _ _ (not (is_repair s.mode) || not s.fresh.valid) (still s) (
        choose _ _
          (not (s.fresh.source_epoch == s.source_epoch)
            || not (s.fresh.binding_epoch == s.binding_epoch))
          (invalidate_producer-Kept s)
          (choose _ _ (ltb (s.frequency * freshness_seconds) (now - s.fresh.lower_bound_qpc))
            (record { frequency = refl; requests = refl; last = refl; have = refl })
            (choose _ _ _ (still s) (still s))))

  pub read_fresh_tuple-Kept :
      (s : ProducerState floats) (now : ℤ) (outer : NativeCounts) (bots : ℕ)
      → Kept s (read_fresh_tuple floats s now outer bots).2
  unfolding read_fresh_tuple
  read_fresh_tuple-Kept s now outer bots =
      after-Kept s (clock floats s now) (fresh_after_clock floats (ticks floats now) outer bots)
        (clock-Kept s now) (fresh_after_clock-Kept (ticks floats now) outer bots)
