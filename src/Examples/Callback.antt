-- ===== src/Examples/Callback.antt =====
-- A measurement of 30 ticks, and a late call.
use rs2server_fix.Base.{◌≡◌, refl, true, false, [], ◌∷◌}
use rs2server_fix.Callback.{
  Phase, Segment, PrimaryCallbackTiming, is_active, finalize_primary_callback_timing, endpoint,
  close_own, is_own, is_none, sound,
}
use rs2server_fix.Callback.Sound.{claim, enter, calls, IsClosed, finalize-calls}

abbrev running : PrimaryCallbackTiming
running = record {
  phase = Phase.in_progress;
  segment = Segment.own;
  filter_parent = Segment.none;
  ticks = 20;
  last_qpc = 900;
  segment_start_qpc = 900;
  invalid = false;
}

running_ticks : (finalize_primary_callback_timing running true 910).1.ticks ≡ 30
unfolding finalize_primary_callback_timing endpoint close_own is_own is_none sound is_active
running_ticks = refl

running_active : is_active running ≡ true
unfolding is_active
running_active = refl

finalize-calls_example :
    let u = (finalize_primary_callback_timing running true 910).1 in
    (calls (claim true 950 ∷ enter true 960 ∷ []) u ≡ u) × IsClosed u
finalize-calls_example =
    finalize-calls (claim true 950 ∷ enter true 960 ∷ []) running true 910 running_active
