-- ===== src/Durations.antt =====
-- src/companion/steam_reporting_status.cpp: `AtMostMicroseconds`, `IncrementCounter` and
-- `AccountDuration`. A refused update is `none`: the counters stay as they were.
use rs2server_fix.Base.{
  ℕ, zero, suc, ◌+◌, ◌-◌, ◌*◌, ◌/◌, ◌%◌, Bool, true, false, not, ◌&&◌, ◌||◌, Option, none, some,
  List, [], ◌∷◌, ltb, leb, ◌==◌, if◌then◌else◌,
}
use rs2server_fix.Types.{int64_max, uint64_max}
use rs2server_fix.Status.Wire.{DurationCounters}
pub mod Exact
pub mod Sound

unfoldable pub at_most_microseconds : ℕ → ℕ → ℕ → Bool
at_most_microseconds ticks frequency micros =
    let whole = frequency / 1000000 in
    let rest = frequency % 1000000 in leb ticks (whole * micros + rest * micros / 1000000)

unfoldable pub increment_counter : ℕ → ℕ → Option ℕ
increment_counter value amount =
    if ltb (uint64_max - value) amount then none else some (value + amount)

abbrev pub limits : List ℕ
limits = 10 ∷ 100 ∷ 1000 ∷ 5000 ∷ 50000 ∷ []

-- The first limit that the duration keeps, or their number.
unfoldable pub bucket_of : ℕ → ℕ → List ℕ → ℕ
unfolding at_most_microseconds
bucket_of elapsed frequency [] = 0
bucket_of elapsed frequency (limit ∷ more) =
    let rest = bucket_of elapsed frequency more in
    if at_most_microseconds elapsed frequency limit then 0 else suc rest

unfoldable pub prefixed : ℕ → Option (List ℕ) → Option (List ℕ)
prefixed b (some bs) = some (b ∷ bs)
prefixed b none = none

unfoldable pub onto : Option ℕ → List ℕ → Option (List ℕ)
onto (some b) bs = some (b ∷ bs)
onto none bs = none

-- `IncrementCounter` of one bucket; there is none out of range.
unfoldable pub increment_bucket : ℕ → List ℕ → Option (List ℕ)
unfolding increment_counter prefixed onto
increment_bucket k [] = none
increment_bucket zero (b ∷ bs) = onto (increment_counter b 1) bs
increment_bucket (suc k) (b ∷ bs) = prefixed b (increment_bucket k bs)

-- The counters with the larger maximum, when every increment went through.
unfoldable pub committed :
    ℕ → ℕ → Option ℕ → Option ℕ → Option (List ℕ) → Option ℕ → Option DurationCounters
committed maximum elapsed (some calls) (some ticks) (some buckets) (some over) = some (record {
  calls = calls;
  elapsed_ticks = ticks;
  maximum_ticks = if ltb maximum elapsed then elapsed else maximum;
  over_five_milliseconds = over;
  buckets = buckets;
})
committed maximum elapsed _ _ _ _ = none

unfoldable pub account_duration : DurationCounters → ℕ → ℕ → Option DurationCounters
unfolding at_most_microseconds bucket_of increment_counter increment_bucket committed
account_duration counters elapsed frequency =
    if frequency == 0 || ltb (int64_max / 45) frequency
    then none
    else committed counters.maximum_ticks elapsed (increment_counter counters.calls 1)
        (increment_counter counters.elapsed_ticks elapsed)
        (increment_bucket (bucket_of elapsed frequency limits) counters.buckets)
        (if at_most_microseconds elapsed frequency 5000
          then some counters.over_five_milliseconds
          else increment_counter counters.over_five_milliseconds 1)
