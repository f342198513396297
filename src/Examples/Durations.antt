-- ===== src/Examples/Durations.antt =====
-- Durations at ten million ticks a second: 2 µs, exactly 5 ms and 80 ms.
use rs2server_fix.Base.{◌≤◌, ◌≡◌, refl, some, [], ◌∷◌, arith}
use rs2server_fix.Status.Wire.{DurationCounters}
use rs2server_fix.Durations.Sound.{
  account_all, IsCounted, AtMost, summary, total, account_all-summary,
}

abbrev none_yet : DurationCounters
none_yet = record {
  calls = 0;
  elapsed_ticks = 0;
  maximum_ticks = 0;
  over_five_milliseconds = 0;
  buckets = 0 ∷ 0 ∷ 0 ∷ 0 ∷ 0 ∷ 0 ∷ [];
}

none_yet-IsCounted : IsCounted none_yet
unfolding AtMost
none_yet-IsCounted =
    let le : 0 ≤ 0 = omega arith in
    record { six = refl; buckets = (le, (le, (le, (le, (le, (le, refl)))))); over = omega arith }

three_counted : summary 10000000 none_yet (20 ∷ 50000 ∷ 800000 ∷ []) ≡ record {
  calls = 3;
  elapsed_ticks = 850020;
  maximum_ticks = 800000;
  over_five_milliseconds = 1;
  buckets = 1 ∷ 0 ∷ 0 ∷ 1 ∷ 0 ∷ 1 ∷ [];
}
unfolding summary
three_counted = refl

account_all-summary_example :
    account_all 10000000 (some none_yet) (20 ∷ 50000 ∷ 800000 ∷ [])
    ≡ some (summary 10000000 none_yet (20 ∷ 50000 ∷ 800000 ∷ []))
unfolding total
account_all-summary_example =
    account_all-summary 10000000 none_yet (20 ∷ 50000 ∷ 800000 ∷ []) (omega arith) (omega arith)
      none_yet-IsCounted (omega arith) (omega arith)
