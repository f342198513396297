-- ===== src/Callback.antt =====
-- src/companion/leech_recovery_policy.h and .cpp: which call frames a recovery may act on, and the
-- measurement of the time that one callback spends in the library's own code. A measurement is a
-- record passed on; each operation gives its Boolean result and the new record. Times and ticks are
-- the unsigned 64-bit values of the source, whose sums the source bounds itself.
use rs2server_fix.Base.{
  ℕ, ◌+◌, ◌-◌, Bool, true, false, not, ◌&&◌, ◌||◌, List, [], ◌∷◌, ltb, leb, ◌==◌, if◌then◌else◌,
  length, same, take, drop,
}
use rs2server_fix.Types.{CallerClass, capture_frames, int64_max}
pub mod Sound

pub data RecoveryCallbackClass : Type 0 where
  unknown normal_leech_success truncated : RecoveryCallbackClass

pub data Phase : Type 0 where
  not_entered in_progress complete_valid complete_invalid : Phase

pub data Segment : Type 0 where
  none own native filter : Segment

pub record PrimaryCallbackTiming : Type 0 where
  pub phase : Phase
  pub segment : Segment
  pub filter_parent : Segment
  pub ticks : ℕ
  pub last_qpc : ℕ
  pub segment_start_qpc : ℕ
  pub invalid : Bool

abbrev pub direct_returns : List ℕ
direct_returns =
    0xBF746E ∷ 0xBD2CAC ∷ 0xBE853A ∷ 0xB9880D ∷ 0xBE8044 ∷ 0xBD1AD9 ∷ 0xBE874A ∷ 0xBC32FD ∷ 0xBE7E44
    ∷ 0xBD1999 ∷ 0xBE874A ∷ 0xBC32FD ∷ 0xBE7E44 ∷ 0xBD1999 ∷ 0xBE874A ∷ 0xC02D42 ∷ 0xA4B370
    ∷ 0xA341A7 ∷ []

-- The two frames after the direct returns.
unfoldable pub outer_frames : List ℕ → Bool
outer_frames [] = false
outer_frames (a ∷ []) = false
outer_frames (a ∷ b ∷ rest) = (a == 0x5F48E6 || a == 0x5F4953) && b == 0x585650

unfoldable pub classify_recovery_create_frames : List ℕ → Bool → RecoveryCallbackClass
unfolding outer_frames
classify_recovery_create_frames frames truncation =
    if truncation || ltb capture_frames (length frames)
    then truncated
    else if ltb (length frames) 20
    then unknown
    else if not (same (take 18 frames) direct_returns)
    then unknown
    else if outer_frames (drop 18 frames)
    then normal_leech_success
    else unknown

unfoldable pub is_normal_pump : CallerClass → Bool
is_normal_pump CallerClass.normal_pump = true
is_normal_pump _ = false

unfoldable pub recovery_pump_headroom_available : CallerClass → ℕ → Bool → Bool
unfolding is_normal_pump
recovery_pump_headroom_available current_class host_frame_count truncation =
    if truncation
      || not (is_normal_pump current_class)
      || ltb host_frame_count 3
      || ltb capture_frames host_frame_count
    then false
    else leb (host_frame_count - 3) 8

unfoldable pub is_none : Segment → Bool
is_none none = true
is_none _ = false

unfoldable pub is_own : Segment → Bool
is_own own = true
is_own _ = false

unfoldable pub is_native : Segment → Bool
is_native native = true
is_native _ = false

unfoldable pub is_filter : Segment → Bool
is_filter filter = true
is_filter _ = false

unfoldable pub is_active : PrimaryCallbackTiming → Bool
is_active timing = elim timing.phase [ Phase.in_progress ↦ true | _ ↦ false ]

unfoldable pub is_not_entered : PrimaryCallbackTiming → Bool
is_not_entered timing = elim timing.phase [ Phase.not_entered ↦ true | _ ↦ false ]

unfoldable pub spoiled : PrimaryCallbackTiming → PrimaryCallbackTiming
spoiled timing = record timing { invalid = true }

-- `timing.invalid = true; return false`.
unfoldable pub spoil : PrimaryCallbackTiming → Bool × PrimaryCallbackTiming
unfolding spoiled
spoil timing = (false, spoiled timing)

-- `return !timing.invalid`.
unfoldable pub sound : PrimaryCallbackTiming → Bool × PrimaryCallbackTiming
sound timing = (not timing.invalid, timing)

unfoldable pub endpoint : PrimaryCallbackTiming → Bool → ℕ → Bool × PrimaryCallbackTiming
unfolding spoil
endpoint timing valid qpc =
    if not valid
      || qpc == 0
      || ltb int64_max qpc
      || (not (timing.last_qpc == 0) && ltb qpc timing.last_qpc)
    then spoil timing
    else (true, record timing { last_qpc = qpc })

unfoldable pub close_own : PrimaryCallbackTiming → ℕ → PrimaryCallbackTiming
unfolding spoiled
close_own timing qpc =
    if timing.invalid
    then timing
    else if timing.segment_start_qpc == 0
        || ltb qpc timing.segment_start_qpc
        || ltb int64_max timing.ticks
    then spoiled timing
    else if ltb (int64_max - timing.ticks) (qpc - timing.segment_start_qpc)
    then spoiled timing
    else record timing { ticks = timing.ticks + (qpc - timing.segment_start_qpc) }

-- The start of a segment: the endpoint, or 0 where it is bad.
unfoldable pub start_segment : Segment → Bool × PrimaryCallbackTiming → ℕ → PrimaryCallbackTiming
start_segment segment (good, timing) qpc = record timing {
  segment = segment;
  segment_start_qpc = if good then qpc else 0;
}

unfoldable pub begin_own : PrimaryCallbackTiming → Bool → ℕ → Bool × PrimaryCallbackTiming
unfolding endpoint sound start_segment
begin_own timing valid qpc = sound (start_segment own (endpoint timing valid qpc) qpc)

unfoldable pub claim_primary_callback_timing :
    PrimaryCallbackTiming → Bool → ℕ → Bool × PrimaryCallbackTiming
unfolding begin_own is_none is_not_entered
claim_primary_callback_timing timing valid qpc =
    if not (is_not_entered timing)
    then (false, timing)
    else let populated : Bool =
        not (timing.ticks == 0)
        || not (timing.last_qpc == 0)
        || not (timing.segment_start_qpc == 0)
        || timing.invalid
        || not (is_none timing.segment)
        || not (is_none timing.filter_parent) in
      let claimed : PrimaryCallbackTiming = record timing {
        phase = Phase.in_progress;
        invalid = timing.invalid || populated;
      } in
      (true, (begin_own claimed valid qpc).1)

unfoldable pub enter_primary_callback_native :
    PrimaryCallbackTiming → Bool → ℕ → Bool × PrimaryCallbackTiming
unfolding is_active is_own is_none spoil endpoint close_own sound
enter_primary_callback_native timing valid qpc =
    if not (is_active timing)
    then (false, timing)
    else if not (is_own timing.segment) || not (is_none timing.filter_parent)
    then spoil timing
    else sound (record (close_own (endpoint timing valid qpc).1 qpc) {
      segment = native;
      segment_start_qpc = 0;
    })

unfoldable pub leave_primary_callback_native :
    PrimaryCallbackTiming → Bool → ℕ → Bool × PrimaryCallbackTiming
unfolding is_active is_native is_none spoil begin_own
leave_primary_callback_native timing valid qpc =
    if not (is_active timing)
    then (false, timing)
    else if not (is_native timing.segment) || not (is_none timing.filter_parent)
    then spoil timing
    else begin_own timing valid qpc

unfoldable pub begin_primary_callback_filter :
    PrimaryCallbackTiming → Bool → ℕ → Bool × PrimaryCallbackTiming
unfolding is_active is_own is_native is_none spoil endpoint close_own sound
begin_primary_callback_filter timing valid qpc =
    if not (is_active timing)
    then (false, timing)
    else if (not (is_own timing.segment) && not (is_native timing.segment))
        || not (is_none timing.filter_parent)
    then spoil timing
    else let (good, t) = endpoint timing valid qpc in
      let u : PrimaryCallbackTiming = if is_own t.segment then close_own t qpc else t in
      sound (record u {
        filter_parent = u.segment;
        segment = filter;
        segment_start_qpc = if good then qpc else 0;
      })

unfoldable pub end_primary_callback_filter :
    PrimaryCallbackTiming → Bool → ℕ → Bool × PrimaryCallbackTiming
unfolding is_active is_filter is_own is_native spoil endpoint close_own sound
end_primary_callback_filter timing valid qpc =
    if not (is_active timing)
    then (false, timing)
    else if not (is_filter timing.segment)
        || (not (is_own timing.filter_parent) && not (is_native timing.filter_parent))
    then spoil timing
    else let (good, t) = endpoint timing valid qpc in
      let u : PrimaryCallbackTiming = close_own t qpc in
      sound (record u {
        segment = u.filter_parent;
        filter_parent = none;
        segment_start_qpc = if is_own u.filter_parent && good then qpc else 0;
      })

unfoldable pub begin_primary_callback_unwind :
    PrimaryCallbackTiming → Bool → ℕ → Bool × PrimaryCallbackTiming
unfolding is_active is_own is_native is_none spoil endpoint begin_own
begin_primary_callback_unwind timing valid qpc =
    if not (is_active timing)
    then (false, timing)
    else if (not (is_own timing.segment) && not (is_native timing.segment))
        || not (is_none timing.filter_parent)
    then spoil timing
    else begin_own (endpoint timing valid qpc).1 valid qpc

unfoldable pub finalize_primary_callback_timing :
    PrimaryCallbackTiming → Bool → ℕ → Bool × PrimaryCallbackTiming
unfolding is_active is_own is_none endpoint close_own spoiled sound
finalize_primary_callback_timing timing valid qpc =
    if not (is_active timing)
    then (false, timing)
    else let t = (endpoint timing valid qpc).1 in
      let u : PrimaryCallbackTiming =
        if not (is_own t.segment) || not (is_none t.filter_parent)
        then spoiled t
        else close_own t qpc in
      sound (record u {
        phase = if u.invalid then Phase.complete_invalid else Phase.complete_valid;
        segment = none;
        filter_parent = none;
        segment_start_qpc = 0;
        ticks = if u.invalid then 0 else u.ticks;
      })

unfoldable pub invalidate_primary_callback_timing : PrimaryCallbackTiming → PrimaryCallbackTiming
unfolding is_active spoiled
invalidate_primary_callback_timing timing = if is_active timing then spoiled timing else timing
