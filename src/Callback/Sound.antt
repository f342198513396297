-- ===== src/Callback/Sound.antt =====
-- src/companion/leech_recovery_policy.cpp: a measurement is taken once.
use rs2server_fix.Base.{
  ℕ, ◌≡◌, refl, ap, ◌∙◌, Bool, true, false, not, ◌||◌, List, [], ◌∷◌, if◌then◌else◌,
}
use rs2server_fix.Callback.{
  Phase, Segment, PrimaryCallbackTiming, sound, spoiled, endpoint, close_own, is_own, is_none,
  is_active, is_not_entered, claim_primary_callback_timing, enter_primary_callback_native,
  leave_primary_callback_native, begin_primary_callback_filter, end_primary_callback_filter,
  begin_primary_callback_unwind, finalize_primary_callback_timing,
  invalidate_primary_callback_timing,
}

-- The calls on a measurement, each with its clock reading.
pub data Call : Type 0 where
  claim enter leave begin_filter end_filter begin_unwind finalize : Bool → ℕ → Call
  invalidate : Call

unfoldable pub call : Call → PrimaryCallbackTiming → Bool × PrimaryCallbackTiming
call (claim valid qpc) t = claim_primary_callback_timing t valid qpc
call (enter valid qpc) t = enter_primary_callback_native t valid qpc
call (leave valid qpc) t = leave_primary_callback_native t valid qpc
call (begin_filter valid qpc) t = begin_primary_callback_filter t valid qpc
call (end_filter valid qpc) t = end_primary_callback_filter t valid qpc
call (begin_unwind valid qpc) t = begin_primary_callback_unwind t valid qpc
call (finalize valid qpc) t = finalize_primary_callback_timing t valid qpc
call invalidate t = (false, invalidate_primary_callback_timing t)

unfoldable pub calls : List Call → PrimaryCallbackTiming → PrimaryCallbackTiming
unfolding call
calls [] t = t
calls (c ∷ cs) t = calls cs (call c t).1

-- A refusal at the first test.
refused :
    (b : Bool) (t : PrimaryCallbackTiming) (x : Bool × PrimaryCallbackTiming)
    → b ≡ false
    → (if not b then (false, t) else x) ≡ (false, t)
refused true t x h = absurd (cc)
refused false t x h = refl

left_alone : (b : Bool) (t x : PrimaryCallbackTiming) → b ≡ false → (if b then x else t) ≡ t
left_alone true t x h = absurd (cc)
left_alone false t x h = refl

call_closed :
    (c : Call) (t : PrimaryCallbackTiming)
    → is_active t ≡ false
    → is_not_entered t ≡ false
    → call c t ≡ (false, t)
unfolding call claim_primary_callback_timing enter_primary_callback_native
    leave_primary_callback_native begin_primary_callback_filter end_primary_callback_filter
    begin_primary_callback_unwind finalize_primary_callback_timing
    invalidate_primary_callback_timing
call_closed (claim valid qpc) t a n = refused (is_not_entered t) t _ n
call_closed (enter valid qpc) t a n = refused (is_active t) t _ a
call_closed (leave valid qpc) t a n = refused (is_active t) t _ a
call_closed (begin_filter valid qpc) t a n = refused (is_active t) t _ a
call_closed (end_filter valid qpc) t a n = refused (is_active t) t _ a
call_closed (begin_unwind valid qpc) t a n = refused (is_active t) t _ a
call_closed (finalize valid qpc) t a n = refused (is_active t) t _ a
call_closed invalidate t a n =
    ap (λ (u : PrimaryCallbackTiming). (false, u)) (left_alone (is_active t) t _ a)

calls_closed :
    (cs : List Call) (t : PrimaryCallbackTiming)
    → is_active t ≡ false
    → is_not_entered t ≡ false
    → calls cs t ≡ t
unfolding calls
calls_closed [] t a n = refl
calls_closed (c ∷ cs) t a n =
    ap (λ (r : Bool × PrimaryCallbackTiming). calls cs r.1) (call_closed c t a n)
    ∙ calls_closed cs t a n

-- A measurement that is over; without ticks, if it is invalid.
pub record IsClosed (t : PrimaryCallbackTiming) : Type 0 where
  pub inactive : is_active t ≡ false
  pub entered : is_not_entered t ≡ false
  pub blank : t.invalid ≡ true → t.ticks ≡ 0

closed :
    (u : PrimaryCallbackTiming) (b : Bool)
    → u.invalid ≡ b
    → IsClosed (record u {
      phase = if u.invalid then Phase.complete_invalid else Phase.complete_valid;
      segment = Segment.none;
      filter_parent = Segment.none;
      segment_start_qpc = 0;
      ticks = if u.invalid then 0 else u.ticks;
    })
unfolding is_active is_not_entered
closed u true e = record { inactive = rw e refl; entered = rw e refl; blank = λ _. rw e refl }
closed u false e = record { inactive = rw e refl; entered = rw e refl; blank = λ h. absurd (cc) }

run_on :
    (b : Bool) (x y : Bool × PrimaryCallbackTiming)
    → b ≡ true
    → IsClosed y.1
    → IsClosed (if not b then x else y).1
run_on true x y h k = k
run_on false x y h k = absurd (cc)

finalize-IsClosed :
    (t : PrimaryCallbackTiming) (valid : Bool) (qpc : ℕ)
    → is_active t ≡ true
    → IsClosed (finalize_primary_callback_timing t valid qpc).1
unfolding finalize_primary_callback_timing sound
finalize-IsClosed t valid qpc h =
    let e = (endpoint t valid qpc).1 in
    let u : PrimaryCallbackTiming =
      if not (is_own e.segment) || not (is_none e.filter_parent)
      then spoiled e
      else close_own e qpc in
    run_on (is_active t) _ _ h (closed u u.invalid refl)

-- A measurement in progress is over once it is finalised: whatever clock reading it ends with and
-- whatever is called afterwards, in any order, an entry included, it stays exactly as it was
-- then; and where it is invalid, its ticks are 0.
pub finalize-calls :
    (cs : List Call) (t : PrimaryCallbackTiming) (valid : Bool) (qpc : ℕ)
    → is_active t ≡ true
    → let u = (finalize_primary_callback_timing t valid qpc).1 in (calls cs u ≡ u) × IsClosed u
finalize-calls cs t valid qpc h =
    let k = finalize-IsClosed t valid qpc h in (calls_closed cs _ k.inactive k.entered, k)
