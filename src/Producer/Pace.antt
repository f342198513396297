-- ===== src/Producer/Pace.antt =====
-- src/companion/steam_reporting_state.cpp: how often a request is staged.
use rs2server_fix.Base.{
  ℕ, ◌+◌, ◌-◌, ◌*◌, ◌≤◌, ◌≡◌, refl, sym, ap, subst, ◌∙◌, Bool, true, false, not, ◌&&◌, ◌||◌, ltb,
  ◌==◌, if◌then◌else◌, suc, arith, inl, inr, Bool-cases, List, [], ◌∷◌,
}
use rs2server_fix.Types.{Reason, NativeCounts, is_none, request_floor_seconds, uint64_max}
use rs2server_fix.Producer.{
  ℤ, Floats, ProducerSample, ProducerState, fail, clock, ticks, expire_pending, after,
  invalidate_producer, set_producer_epoch, may_stage, stage_after_clock, can_stage_request, staged,
  read_back, record_admitted, record_staged_request, observe_producer, read_fresh_tuple, is_repair,
}
use rs2server_fix.Producer.Branches.{passed, fail-refuses, clock-Ticked, after-passed}
use rs2server_fix.Producer.Kept.{
  Kept, onward, fail-Kept, invalidate_producer-Kept, clock-Kept, expire_pending-Kept, after-Kept,
  set_producer_epoch-Kept, can_stage_request-Kept, read_back-Kept, observe_producer-Kept,
  read_fresh_tuple-Kept,
}

add_gap : (n x a b c : ℕ) → a + x ≤ b → b + n * x ≤ c → a + suc n * x ≤ c
add_gap n x a b c h k = let e : suc n * x ≡ x + n * x = grind arith in omega (arith, e)

not_early : (have : Bool) (a b : ℕ) → have && ltb a b ≡ false → have ≡ true → b ≤ a
not_early have a b h e = ground arith

module _ (floats : Floats) where
  -- After a step: nothing was staged, or one request was, and a request before it was staged at
  -- least 20 s earlier.
  data Paced (s t : ProducerState floats) : Type 0 where
    idle : Kept floats s t → Paced s t
    paced :
        t.frequency ≡ s.frequency
        → t.request_sequence ≡ suc s.request_sequence
        → t.have_request ≡ true
        → (s.have_request ≡ true
            → s.last_request_qpc + s.frequency * request_floor_seconds ≤ t.last_request_qpc)
        → Paced s t

  and_still : {s t u : ProducerState floats} → Paced s t → Kept floats t u → Paced s u
  and_still (idle a) b = idle (onward floats a b)
  and_still (paced f r h g) b =
      paced (b.frequency ∙ f) (b.requests ∙ r) (b.have ∙ h)
        λ e. let last = b.last in omega (arith, g e, last)

  still_before : {s t u : ProducerState floats} → Kept floats s t → Paced t u → Paced s u
  still_before a (idle b) = idle (onward floats a b)
  still_before {s} {t} {u} a (paced f r h g) =
      paced (f ∙ a.frequency) (r ∙ ap suc a.requests) h λ e.
        let floor = g (a.have ∙ e) in
        subst (λ n. s.last_request_qpc + n * request_floor_seconds ≤ u.last_request_qpc) a.frequency
          (subst (λ n. n + t.frequency * request_floor_seconds ≤ u.last_request_qpc) a.last floor)

  -- A request that may be staged is far enough from the one before.
  may_stage-floor :
      (s : ProducerState floats) (now : ℕ)
      → is_none (may_stage floats s now).0 ≡ true
      → ((may_stage floats s now).1 ≡ s)
        × (s.have_request ≡ true → s.frequency * request_floor_seconds ≤ now - s.last_request_qpc)
  unfolding may_stage is_none
  may_stage-floor s now h =
      let early =
        s.have_request && ltb (now - s.last_request_qpc) (s.frequency * request_floor_seconds) in
      let full : Reason × ProducerState floats =
        if s.request_sequence == uint64_max
        then fail floats Reason.counter_overflow s
        else (Reason.none, s) in
      let first =
        passed s.pending.active (Reason.pending, s)
          (if early then (Reason.request_floor, s) else full) (λ _. refl) h in
      let second = passed early (Reason.request_floor, s) full (λ _. refl) first.good in
      let third =
        passed (s.request_sequence == uint64_max) (fail floats Reason.counter_overflow s)
          (Reason.none, s) (λ _. fail-refuses floats Reason.counter_overflow s refl) second.good in
      (
        ap (λ (r : Reason × ProducerState floats). r.1) (first.whole ∙ second.whole ∙ third.whole),
        λ e.
            not_early s.have_request (now - s.last_request_qpc)
              (s.frequency * request_floor_seconds) second.test e,
      )

  stage_after_clock-floor :
      (now : ℕ) (s : ProducerState floats)
      → is_none (stage_after_clock floats now s).0 ≡ true
      → s.have_request ≡ true
      → s.frequency * request_floor_seconds ≤ now - s.last_request_qpc
  unfolding stage_after_clock is_none
  stage_after_clock-floor now s h e =
      let t = expire_pending floats s now in
      let kept = expire_pending-Kept floats s now in
      let early = not s.epoch_ready || s.source_epoch == 0 || s.binding_epoch == 0 in
      let first =
        passed (not (is_repair s.mode)) (Reason.config_disabled, s)
          (if early then (Reason.source_unavailable, s) else may_stage floats t now) (λ _. refl)
          h in
      let second =
        passed early (Reason.source_unavailable, s) (may_stage floats t now) (λ _. refl)
          first.good in
      let floor = (may_stage-floor t now second.good).1 (kept.have ∙ e) in
      subst (λ n. n * request_floor_seconds ≤ now - s.last_request_qpc) kept.frequency
        (subst (λ n. t.frequency * request_floor_seconds ≤ now - n) kept.last floor)

  can_stage_request-floor :
      (s : ProducerState floats) (now : ℤ)
      → is_none (can_stage_request floats s now).0 ≡ true
      → s.have_request ≡ true
      → s.last_request_qpc + s.frequency * request_floor_seconds ≤ ticks floats now
  unfolding can_stage_request
  can_stage_request-floor s now h e =
      let u = (clock floats s now).1 in
      let kept = clock-Kept floats s now in
      let (good, through) =
        after-passed floats (clock floats s now) (stage_after_clock floats (ticks floats now)) h in
      let ticked = clock-Ticked floats s now good in
      let floor =
        stage_after_clock-floor (ticks floats now) u
          (subst (λ (r : Reason × ProducerState floats). is_none r.0 ≡ true) through h)
          (kept.have ∙ e) in
      let here : s.frequency * request_floor_seconds ≤ ticks floats now - s.last_request_qpc =
        subst (λ n. n * request_floor_seconds ≤ ticks floats now - s.last_request_qpc)
          kept.frequency
          (subst (λ n. u.frequency * request_floor_seconds ≤ ticks floats now - n) kept.last
            floor) in
      omega (arith, ticked.running)

  record_admitted-Paced :
      (staged_qpc : ℤ) (bots maximum : ℕ) (sample : ProducerSample floats) (valid : Bool)
      (s : ProducerState floats)
      → (s.have_request ≡ true
          → s.last_request_qpc + s.frequency * request_floor_seconds ≤ ticks floats staged_qpc)
      → Paced s (record_admitted floats staged_qpc bots maximum sample valid s).1
  unfolding record_admitted staged
  record_admitted-Paced staged_qpc bots maximum sample valid s floor =
      elim (Bool-cases (ltb 255 maximum || ltb maximum bots)) [
        | inl e ↦ rw e (idle (fail-Kept floats Reason.unsupported_counts s))
        | inr e ↦
            let t = staged floats (ticks floats staged_qpc) bots maximum s in
            rw e (
              and_still (paced refl refl refl floor) (
                after-Kept floats t (clock floats t sample.qpc) (read_back floats sample valid)
                  (clock-Kept floats t sample.qpc) (read_back-Kept floats sample valid)))
      ]

  record_staged_request-Paced :
      (s : ProducerState floats) (staged_qpc : ℤ) (bots maximum : ℕ)
      (sample : ProducerSample floats) (valid : Bool)
      → Paced s (record_staged_request floats s staged_qpc bots maximum sample valid).1
  unfolding record_staged_request after
  record_staged_request-Paced s staged_qpc bots maximum sample valid =
      let t = (can_stage_request floats s staged_qpc).1 in
      let kept = can_stage_request-Kept floats s staged_qpc in
      elim (Bool-cases (is_none (can_stage_request floats s staged_qpc).0)) [
        | inr e ↦ rw e (idle kept)
        | inl e ↦ rw e (
            still_before kept (
              record_admitted-Paced staged_qpc bots maximum sample valid t λ h.
                let floor = can_stage_request-floor s staged_qpc e (sym kept.have ∙ h) in
                subst
                  (λ n. t.last_request_qpc + n * request_floor_seconds ≤ ticks floats staged_qpc)
                  (sym kept.frequency)
                  (subst (λ n. n + s.frequency * request_floor_seconds ≤ ticks floats staged_qpc)
                    (sym kept.last) floor)))
      ]

  -- The calls that the owner makes.
  pub data Call : Type 0 where
    invalidate : Call
    set_epoch : ℕ → ℕ → Call
    can_stage : ℤ → Call
    record_staged : ℤ → ℕ → ℕ → ProducerSample floats → Bool → Call
    observe : ProducerSample floats → Call
    read_fresh : ℤ → NativeCounts → ℕ → Call

  unfoldable pub call : Call → ProducerState floats → ProducerState floats
  call invalidate s = invalidate_producer floats s
  call (set_epoch source binding) s = (set_producer_epoch floats s source binding).1
  call (can_stage now) s = (can_stage_request floats s now).1
  call (record_staged staged_qpc bots maximum sample valid) s =
      (record_staged_request floats s staged_qpc bots maximum sample valid).1
  call (observe sample) s = (observe_producer floats s sample).1
  call (read_fresh now outer bots) s = (read_fresh_tuple floats s now outer bots).2

  unfoldable pub calls : List Call → ProducerState floats → ProducerState floats
  unfolding call
  calls [] s = s
  calls (c ∷ cs) s = calls cs (call c s)

  call-Paced : (c : Call) (s : ProducerState floats) → Paced s (call c s)
  unfolding call
  call-Paced invalidate s = idle (invalidate_producer-Kept floats s)
  call-Paced (set_epoch source binding) s = idle (set_producer_epoch-Kept floats s source binding)
  call-Paced (can_stage now) s = idle (can_stage_request-Kept floats s now)
  call-Paced (record_staged staged_qpc bots maximum sample valid) s =
      record_staged_request-Paced s staged_qpc bots maximum sample valid
  call-Paced (observe sample) s = idle (observe_producer-Kept floats s sample)
  call-Paced (read_fresh now outer bots) s = idle (read_fresh_tuple-Kept floats s now outer bots)

  -- The times of the requests staged between two states.
  record Spaced (s t : ProducerState floats) : Type 0 where
    frequency : t.frequency ≡ s.frequency
    have : s.have_request ≡ true → t.have_request ≡ true
    count : ℕ
    requests : t.request_sequence ≡ count + s.request_sequence
    apart :
        s.have_request ≡ true
        → s.last_request_qpc + count * (s.frequency * request_floor_seconds) ≤ t.last_request_qpc

  one_more : (s t u : ProducerState floats) → Paced s t → Spaced t u → Spaced s u
  one_more s t u (idle a) b = record {
    frequency = b.frequency ∙ a.frequency;
    have = λ e. b.have (a.have ∙ e);
    count = b.count;
    requests = b.requests ∙ ap (◌+◌ b.count) a.requests;
    apart = λ e.
        subst (λ n. s.last_request_qpc + b.count * (n * request_floor_seconds) ≤ u.last_request_qpc)
          a.frequency
          (subst (λ n. n + b.count * (t.frequency * request_floor_seconds) ≤ u.last_request_qpc)
            a.last (b.apart (a.have ∙ e)));
  }
  one_more s t u (paced f r h g) b = record {
    frequency = b.frequency ∙ f;
    have = λ _. b.have h;
    count = suc b.count;
    requests = let e = b.requests in omega (arith, e, r);
    apart = λ e.
        add_gap b.count (s.frequency * request_floor_seconds) s.last_request_qpc t.last_request_qpc
          u.last_request_qpc (g e)
          (subst
            (λ n. t.last_request_qpc + b.count * (n * request_floor_seconds) ≤ u.last_request_qpc) f
            (b.apart h));
  }

  calls-Spaced : (cs : List Call) (s : ProducerState floats) → Spaced s (calls cs s)
  unfolding calls
  calls-Spaced [] s = record {
    frequency = refl;
    have = λ e. e;
    count = 0;
    requests = omega arith;
    apart = λ e. omega arith;
  }
  calls-Spaced (c ∷ cs) s =
      one_more s (call c s) (calls cs (call c s)) (call-Paced c s) (calls-Spaced cs (call c s))

  -- Whatever the owner calls, in any order and with any times and samples, once a request is on
  -- record the number of requests grows by one only for every 20 s: n further requests take the
  -- time of the last one at least n times 20 s of ticks further. Travel, faults and lost
  -- read-backs do not reset this floor.
  pub calls_pace :
      (cs : List Call) (s : ProducerState floats)
      → s.have_request ≡ true
      → let t = calls cs s in
        (s.request_sequence ≤ t.request_sequence)
        × (s.last_request_qpc
              + (t.request_sequence - s.request_sequence) * (s.frequency * request_floor_seconds)
            ≤ t.last_request_qpc)
  calls_pace cs s h =
      let spaced = calls-Spaced cs s in
      let e = spaced.requests in
      let count : (calls cs s).request_sequence - s.request_sequence ≡ spaced.count =
        omega (arith, e) in
      (
        omega (arith, e),
        subst
            (λ n.
              s.last_request_qpc + n * (s.frequency * request_floor_seconds)
              ≤ (calls cs s).last_request_qpc)
            (sym count) (spaced.apart h),
      )
