-- ===== src/Examples/Producer.antt =====
-- A producer at 100 ticks a second, with whole numbers for floats.
use rs2server_fix.Base.{
  ℕ, ◌+◌, ◌-◌, ◌*◌, ◌≤◌, ◌≡◌, ◌⊎◌, refl, Bool, true, false, leb, List, [], ◌∷◌,
}
use rs2server_fix.Types.{Mode, Reason, NativeCounts, is_none, request_floor_seconds}
use rs2server_fix.Producer.{
  pos, Floats, ProducerSample, ProducerState, no_pending, ticks, read_fresh_tuple,
}
use rs2server_fix.Producer.Pace.{Call, observe, record_staged, calls, calls_pace}
use rs2server_fix.Producer.Sound.{IsCurrent, read_fresh_tuple-IsCurrent}

abbrev whole : Floats
whole = record { F = ℕ; zero_value = 0; is_finite = λ _. true; geb = λ a b. leb b a }

abbrev some_counts : NativeCounts
some_counts = record { pi = 40; bots = 2; maximum = 64 }

abbrev sample_at : ℕ → Bool → ℕ → ProducerSample whole
sample_at qpc requested timer = record {
  qpc = pos qpc;
  outer = some_counts;
  game_bots = 2;
  timer = timer;
  requested = requested;
  dirty = false;
}

-- A request was staged at 5000, and a tuple observed.
abbrev ready : ProducerState whole
ready = record {
  mode = Mode.repair;
  fault = Reason.none;
  frequency = 100;
  last_qpc = 5200;
  last_request_qpc = 5000;
  source_epoch = 1;
  binding_epoch = 1;
  request_sequence = 1;
  witness_sequence = 1;
  have_clock = true;
  have_request = true;
  epoch_ready = true;
  pending = no_pending whole;
  fresh = record {
    counts = some_counts;
    witness = 1;
    request = 1;
    source_epoch = 1;
    binding_epoch = 1;
    lower_bound_qpc = 5100;
    valid = true;
  };
}

abbrev later_calls : List (Call whole)
later_calls =
    record_staged (pos 7000) 2 64 (sample_at 7010 true 9) true
    ∷ observe (sample_at 7100 false 1)
    ∷ []

calls_pace_example :
    (ready.request_sequence ≤ (calls whole later_calls ready).request_sequence)
    × (ready.last_request_qpc
          + ((calls whole later_calls ready).request_sequence - ready.request_sequence)
            * (ready.frequency * request_floor_seconds)
        ≤ (calls whole later_calls ready).last_request_qpc)
calls_pace_example = calls_pace whole later_calls ready refl

read_fresh_tuple-IsCurrent_example :
    let r = read_fresh_tuple whole ready (pos 5300) some_counts 2 in
    (is_none r.0 ≡ true
      × (is_none ready.fault ≡ true)
      × (ready.have_clock ≡ true → ready.last_qpc ≤ ticks whole (pos 5300))
      × IsCurrent whole ready (ticks whole (pos 5300)) some_counts 2 r.1)
    ⊎ (is_none r.0 ≡ false × (r.1.valid ≡ false))
read_fresh_tuple-IsCurrent_example = read_fresh_tuple-IsCurrent whole ready (pos 5300) some_counts 2
