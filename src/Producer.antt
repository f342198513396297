-- ===== src/Producer.antt =====
-- src/companion/steam_reporting_state.h and .cpp: the producer of the counts that a report may carry. A
-- signed 64-bit time is an integer where it comes in, and a natural number where the state keeps it,
-- since only times that are not negative are kept. A difference that is negative in the source is
-- 0 here; it is compared only with a product that is positive, so that the tests agree. A float is
-- a parameter with the operations that the source uses.
use rs2server_fix.Base.{
  ℕ, ◌+◌, ◌-◌, ◌*◌, Bool, true, false, not, ◌&&◌, ◌||◌, ltb, leb, ◌==◌, if◌then◌else◌, Option, none,
  some, suc,
}
use rs2server_fix.Types.{
  Mode, Reason, NativeCounts, is_none, equal_counts, request_floor_seconds, freshness_seconds,
  int64_max, uint64_max,
}
mod Branches
mod Kept
pub mod Pace
pub mod Sound

-- The signed integers; `negsuc n` is -(n + 1).
pub data ℤ : Type 0 where
  pos negsuc : ℕ → ℤ

-- `float`: 0, `std::isfinite`, `>=`.
pub record Floats : Type 1 where
  pub F : Type 0
  pub zero_value : F
  pub is_finite : F → Bool
  pub geb : F → F → Bool

unfoldable pub is_repair : Mode → Bool
is_repair Mode.repair = true
is_repair _ = false

-- `mode != Mode::Observe && mode != Mode::Repair` is false.
unfoldable pub is_running : Mode → Bool
is_running Mode.observe = true
is_running Mode.repair = true
is_running _ = false

module _ (floats : Floats) where
  open floats use {F, zero_value, is_finite, geb}

  pub record ProducerSample : Type 0 where
    pub qpc : ℤ
    pub outer : NativeCounts
    pub game_bots : ℕ
    pub timer : F
    pub requested : Bool
    pub dirty : Bool

  pub record PendingRequest : Type 0 where
    pub sequence : ℕ
    pub source_epoch : ℕ
    pub binding_epoch : ℕ
    pub staged_qpc : ℕ
    pub previous_set_qpc : ℕ
    pub bots : ℕ
    pub maximum : ℕ
    pub previous_timer : F
    pub active : Bool
    pub previous_set : Bool

pub record FreshTuple : Type 0 where
  pub counts : NativeCounts
  pub witness : ℕ
  pub request : ℕ
  pub source_epoch : ℕ
  pub binding_epoch : ℕ
  pub lower_bound_qpc : ℕ
  pub valid : Bool

module _ (floats : Floats) where
  pub record ProducerState : Type 0 where
    pub mode : Mode
    pub fault : Reason
    pub frequency : ℕ
    pub last_qpc : ℕ
    pub last_request_qpc : ℕ
    pub source_epoch : ℕ
    pub binding_epoch : ℕ
    pub request_sequence : ℕ
    pub witness_sequence : ℕ
    pub have_clock : Bool
    pub have_request : Bool
    pub epoch_ready : Bool
    pub pending : PendingRequest floats
    pub fresh : FreshTuple

-- The tuple `{}`.
abbrev pub no_fresh : FreshTuple
no_fresh = record {
  counts = record { pi = 0; bots = 0; maximum = 0 };
  witness = 0;
  request = 0;
  source_epoch = 0;
  binding_epoch = 0;
  lower_bound_qpc = 0;
  valid = false;
}

unfoldable pub supported : NativeCounts → ℕ → Bool
supported counts bots =
    leb counts.maximum 255 && leb bots counts.maximum && leb counts.bots counts.maximum

module _ (floats : Floats) where
  open floats use {F, zero_value, is_finite, geb}

  -- The request `{}`.
  abbrev pub no_pending : PendingRequest floats
  no_pending = record {
    sequence = 0;
    source_epoch = 0;
    binding_epoch = 0;
    staged_qpc = 0;
    previous_set_qpc = 0;
    bots = 0;
    maximum = 0;
    previous_timer = zero_value;
    active = false;
    previous_set = false;
  }

  -- `pending = {}; fresh = {}`.
  unfoldable pub without_claims : ProducerState floats → ProducerState floats
  without_claims s = record s { pending = no_pending; fresh = no_fresh }

  -- `Fault`.
  unfoldable pub fail : Reason → ProducerState floats → Reason × ProducerState floats
  unfolding is_none without_claims
  fail reason s =
      let kept : Reason = if is_none s.fault then reason else s.fault in
      (kept, record (without_claims s) { fault = kept })

  -- `Clock`.
  unfoldable pub clock : ProducerState floats → ℤ → Reason × ProducerState floats
  unfolding fail is_none
  clock s (negsuc n) = if not (is_none s.fault) then (s.fault, s) else fail Reason.clock_failed s
  clock s (pos now) =
      if not (is_none s.fault)
      then (s.fault, s)
      else if s.frequency == 0 || (s.have_clock && ltb now s.last_qpc)
      then fail Reason.clock_failed s
      else (Reason.none, record s { last_qpc = now; have_clock = true })

  -- A time that passed `Clock` is not negative.
  unfoldable pub ticks : ℤ → ℕ
  ticks (pos n) = n
  ticks (negsuc n) = 0

  unfoldable pub is_timer : F → Bool
  is_timer value = is_finite value && geb value zero_value

  unfoldable pub expire_pending : ProducerState floats → ℕ → ProducerState floats
  expire_pending s now =
      if s.pending.active && leb (s.frequency * freshness_seconds) (now - s.pending.staged_qpc)
      then record s { pending = no_pending }
      else s

  -- What a caller does after a clock that is good, and where it is not.
  unfoldable pub after :
      Reason × ProducerState floats
      → (ProducerState floats → Reason × ProducerState floats)
      → Reason × ProducerState floats
  unfolding is_none
  after (reason, s) next = if is_none reason then next s else (reason, s)

  unfoldable pub initialize_producer : Mode → ℤ → Reason × ProducerState floats
  unfolding fail is_running
  initialize_producer mode frequency =
      let blank : ProducerState floats = record {
        mode = mode;
        fault = Reason.none;
        frequency = 0;
        last_qpc = 0;
        last_request_qpc = 0;
        source_epoch = 0;
        binding_epoch = 0;
        request_sequence = 0;
        witness_sequence = 0;
        have_clock = false;
        have_request = false;
        epoch_ready = false;
        pending = no_pending;
        fresh = no_fresh;
      } in
      elim frequency [
        | negsuc n ↦ fail Reason.clock_failed blank
        | pos f ↦
            -- INT64_MAX / 45.
            if f == 0 || ltb 204963823041217240 f
            then fail Reason.clock_failed blank
            else if not (is_running mode)
            then fail Reason.config_disabled (record blank { frequency = f })
            else (Reason.none, record blank { frequency = f })
      ]

  unfoldable pub invalidate_producer : ProducerState floats → ProducerState floats
  unfolding without_claims
  invalidate_producer s = record (without_claims s) { epoch_ready = false }

  unfoldable pub set_producer_epoch : ProducerState floats → ℕ → ℕ → Reason × ProducerState floats
  unfolding is_none fail invalidate_producer
  set_producer_epoch s source binding =
      if not (is_none s.fault)
      then (s.fault, s)
      else if source == 0 || binding == 0
      then (Reason.source_unavailable, invalidate_producer s)
      else if ltb source s.source_epoch || ltb binding s.binding_epoch
      then fail Reason.lifecycle_crossing s
      else let t : ProducerState floats =
          if not (source == s.source_epoch) || not (binding == s.binding_epoch)
          then invalidate_producer s
          else s in
        (
          Reason.none,
          record t { source_epoch = source; binding_epoch = binding; epoch_ready = true },
        )

  -- The tests on the state that the clock and the expiry left.
  unfoldable pub may_stage : ProducerState floats → ℕ → Reason × ProducerState floats
  unfolding fail
  may_stage s now =
      if s.pending.active
      then (Reason.pending, s)
      else if s.have_request && ltb (now - s.last_request_qpc) (s.frequency * request_floor_seconds)
      then (Reason.request_floor, s)
      else if s.request_sequence == uint64_max
      then fail Reason.counter_overflow s
      else (Reason.none, s)

  unfoldable pub stage_after_clock : ℕ → ProducerState floats → Reason × ProducerState floats
  unfolding is_repair expire_pending may_stage
  stage_after_clock now s =
      if not (is_repair s.mode)
      then (Reason.config_disabled, s)
      else if not s.epoch_ready || s.source_epoch == 0 || s.binding_epoch == 0
      then (Reason.source_unavailable, s)
      else may_stage (expire_pending s now) now

  unfoldable pub can_stage_request : ProducerState floats → ℤ → Reason × ProducerState floats
  unfolding clock after ticks stage_after_clock
  can_stage_request s now = after (clock s now) (stage_after_clock (ticks now))

  -- The new request, as the state keeps it.
  unfoldable pub staged : ℕ → ℕ → ℕ → ProducerState floats → ProducerState floats
  staged staged_qpc bots maximum s =
      let request : PendingRequest floats = record no_pending {
        active = true;
        sequence = suc s.request_sequence;
        source_epoch = s.source_epoch;
        binding_epoch = s.binding_epoch;
        staged_qpc = staged_qpc;
        bots = bots;
        maximum = maximum;
      } in
      record s {
        have_request = true;
        last_request_qpc = staged_qpc;
        request_sequence = suc s.request_sequence;
        pending = request;
      }

  -- The request has been seen set.
  unfoldable pub seen_set : ProducerSample floats → ProducerState floats → ProducerState floats
  unfolding ticks
  seen_set sample s =
      let seen : PendingRequest floats = record s.pending {
        previous_set = true;
        previous_set_qpc = ticks sample.qpc;
        previous_timer = sample.timer;
      } in
      record s { pending = seen }

  unfoldable pub read_back :
      ProducerSample floats → Bool → ProducerState floats → Reason × ProducerState floats
  unfolding expire_pending is_timer seen_set ticks
  read_back sample valid s =
      let t : ProducerState floats = expire_pending s (ticks sample.qpc) in
      if not t.pending.active
      then (Reason.freshness_expired, t)
      else if not valid || not sample.requested || not (is_timer sample.timer)
      then (Reason.producer_ambiguous, t)
      else (Reason.none, seen_set sample t)

  unfoldable pub record_admitted :
      ℤ
      → ℕ
      → ℕ
      → ProducerSample floats
      → Bool
      → ProducerState floats
      → Reason × ProducerState floats
  unfolding fail after clock staged read_back ticks
  record_admitted staged_qpc bots maximum sample valid s =
      if ltb 255 maximum || ltb maximum bots
      then fail Reason.unsupported_counts s
      else after (clock (staged (ticks staged_qpc) bots maximum s) sample.qpc)
          (read_back sample valid)

  unfoldable pub record_staged_request :
      ProducerState floats
      → ℤ
      → ℕ
      → ℕ
      → ProducerSample floats
      → Bool
      → Reason × ProducerState floats
  unfolding after can_stage_request record_admitted
  record_staged_request s staged_qpc bots maximum sample valid =
      after (can_stage_request s staged_qpc) (record_admitted staged_qpc bots maximum sample valid)

  -- The request has been consumed, as the sample shows.
  unfoldable pub consumed : PendingRequest floats → ProducerSample floats → Bool
  unfolding supported
  consumed previous sample =
      previous.previous_set
      && not sample.dirty
      && not (geb sample.timer previous.previous_timer)
      && supported sample.outer sample.game_bots
      && previous.maximum == sample.outer.maximum
      && previous.bots == sample.outer.bots
      && previous.bots == sample.game_bots

  unfoldable pub witnessed :
      PendingRequest floats
      → ProducerSample floats
      → ProducerState floats
      → Reason × ProducerState floats
  unfolding consumed fail
  witnessed previous sample s =
      if not (consumed previous sample)
      then (Reason.producer_ambiguous, s)
      else if s.witness_sequence == uint64_max
      then fail Reason.counter_overflow s
      else let fresh : FreshTuple = record {
        counts = sample.outer;
        witness = suc s.witness_sequence;
        request = previous.sequence;
        source_epoch = s.source_epoch;
        binding_epoch = s.binding_epoch;
        lower_bound_qpc = previous.previous_set_qpc;
        valid = true;
      } in
        (Reason.none, record s { witness_sequence = suc s.witness_sequence; fresh = fresh })

  unfoldable pub observe_pending :
      ProducerSample floats → ProducerState floats → Reason × ProducerState floats
  unfolding invalidate_producer is_timer seen_set without_claims witnessed
  observe_pending sample s =
      if not (s.pending.source_epoch == s.source_epoch)
        || not (s.pending.binding_epoch == s.binding_epoch)
      then (Reason.source_lifetime, invalidate_producer s)
      else if not (is_timer sample.timer)
      then (Reason.producer_ambiguous, invalidate_producer s)
      else if sample.requested
      then (Reason.pending, seen_set sample s)
      else witnessed s.pending sample (without_claims s)

  unfoldable pub observe_after_clock :
      ProducerSample floats → ProducerState floats → Reason × ProducerState floats
  unfolding expire_pending observe_pending ticks
  observe_after_clock sample s =
      let t : ProducerState floats = expire_pending s (ticks sample.qpc) in
      if not t.pending.active
      then ((if s.pending.active then Reason.freshness_expired else Reason.none), t)
      else observe_pending sample t

  unfoldable pub observe_producer :
      ProducerState floats → ProducerSample floats → Reason × ProducerState floats
  unfolding clock after observe_after_clock
  observe_producer s sample = after (clock s sample.qpc) (observe_after_clock sample)

  -- The tuple is given out with the reason `None`, and with that alone.
  unfoldable pub fresh_after_clock :
      ℕ → NativeCounts → ℕ → ProducerState floats → Reason × ProducerState floats
  unfolding is_repair invalidate_producer supported equal_counts
  fresh_after_clock now current_outer game_bots s =
      if not (is_repair s.mode) || not s.fresh.valid
      then (Reason.freshness_expired, s)
      else if not (s.fresh.source_epoch == s.source_epoch)
          || not (s.fresh.binding_epoch == s.binding_epoch)
      then (Reason.source_lifetime, invalidate_producer s)
      else if ltb (s.frequency * freshness_seconds) (now - s.fresh.lower_bound_qpc)
      then (Reason.freshness_expired, record s { fresh = no_fresh })
      else if not (supported current_outer game_bots)
          || not (equal_counts current_outer s.fresh.counts)
          || not (game_bots == s.fresh.counts.bots)
      then (Reason.prepared_mismatch, s)
      else (Reason.none, s)

  -- The output is not a null pointer, which the source refuses as an expired tuple.
  unfoldable pub read_fresh_tuple :
      ProducerState floats → ℤ → NativeCounts → ℕ → Reason × FreshTuple × ProducerState floats
  unfolding clock after fresh_after_clock ticks is_none
  read_fresh_tuple s now current_outer game_bots =
      let (reason, t) =
        after (clock s now) (fresh_after_clock (ticks now) current_outer game_bots) in
      (reason, (if is_none reason then t.fresh else no_fresh), t)
