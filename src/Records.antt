-- ===== src/Records.antt =====
-- src/companion/steam_reporting_records.cpp: `CanonicalRecord` for the records of the schema 3. Only
-- the declared fields of the selected member are copied; reserved words are zero, and so are the
-- optional fields whose validity word is not exactly 1.
use rs2server_fix.Base.{
  ℕ, Bool, true, false, not, ◌&&◌, List, [], ◌∷◌, ltb, leb, ◌==◌, if◌then◌else◌, map,
}
use rs2server_fix.Records.Payload.{
  ReportHeader, ReportStatePayload, ReportRequestPayload, ReportBuilderPayload,
  ReportDurationSummary, ReportAnchorPayload, ReportTransportSummaryPayload, ReportControlPayload,
  ReportRecoveryPayload, ReportBody, state, request, witness, builder_enter, builder_return,
  builder_unwind, anchor, transport_summary, control, recovery, unknown, ReportRecordV3,
}
pub mod Payload
pub mod Sound
pub mod Ring

abbrev pub json_bytes : ℕ
json_bytes = 65536

unfoldable pub canonical_state : ReportStatePayload → ReportStatePayload
canonical_state a =
    if a.native_schedule_valid == 1
    then record {
      phase = a.phase;
      request_sequence = a.request_sequence;
      witness_sequence = a.witness_sequence;
      build_sequence = a.build_sequence;
      pending_since_qpc = a.pending_since_qpc;
      fresh_since_qpc = a.fresh_since_qpc;
      qualification_flags = a.qualification_flags;
      native_task_state = a.native_task_state;
      mode = a.mode;
      classification = a.classification;
      pi = a.pi;
      bots = a.bots;
      maximum = a.maximum;
      pending = a.pending;
      fresh = a.fresh;
      bound = a.bound;
      client_qualification_ms = a.client_qualification_ms;
      native_schedule_valid = a.native_schedule_valid;
      native_schedule_anchor_bits = a.native_schedule_anchor_bits;
      native_errors_bits = a.native_errors_bits;
      native_throttles_bits = a.native_throttles_bits;
      native_expedite = a.native_expedite;
      native_retry_limit = a.native_retry_limit;
      native_interval_units = a.native_interval_units;
      native_interval_override_bits = a.native_interval_override_bits;
      native_retry_override_bits = a.native_retry_override_bits;
      native_delay_units = a.native_delay_units;
      native_tier = a.native_tier;
      reserved = 0 ∷ 0 ∷ [];
    }
    else record {
      phase = a.phase;
      request_sequence = a.request_sequence;
      witness_sequence = a.witness_sequence;
      build_sequence = a.build_sequence;
      pending_since_qpc = a.pending_since_qpc;
      fresh_since_qpc = a.fresh_since_qpc;
      qualification_flags = a.qualification_flags;
      native_task_state = a.native_task_state;
      mode = a.mode;
      classification = a.classification;
      pi = a.pi;
      bots = a.bots;
      maximum = a.maximum;
      pending = a.pending;
      fresh = a.fresh;
      bound = a.bound;
      client_qualification_ms = a.client_qualification_ms;
      native_schedule_valid = 0;
      native_schedule_anchor_bits = 0;
      native_errors_bits = 0;
      native_throttles_bits = 0;
      native_expedite = 0;
      native_retry_limit = 0;
      native_interval_units = 0;
      native_interval_override_bits = 0;
      native_retry_override_bits = 0;
      native_delay_units = 0;
      native_tier = 0;
      reserved = 0 ∷ 0 ∷ [];
    }

unfoldable pub canonical_request : ReportRequestPayload → ReportRequestPayload
canonical_request a = record {
  request_sequence = a.request_sequence;
  witness_sequence = a.witness_sequence;
  staged_qpc = a.staged_qpc;
  previous_sample_qpc = a.previous_sample_qpc;
  observed_qpc = a.observed_qpc;
  fresh_since_qpc = a.fresh_since_qpc;
  source_age_ticks = a.source_age_ticks;
  pi = a.pi;
  bots = a.bots;
  maximum = a.maximum;
  staged_bots = a.staged_bots;
  human_players = a.human_players;
  world_bots = a.world_bots;
  classification = a.classification;
  pending = a.pending;
  reserved = 0 ∷ 0 ∷ 0 ∷ 0 ∷ 0 ∷ 0 ∷ 0 ∷ 0 ∷ 0 ∷ 0 ∷ 0 ∷ 0 ∷ 0 ∷ 0 ∷ 0 ∷ [];
}

unfoldable pub prepared_readable : ReportBuilderPayload → Bool
prepared_readable a =
    a.prepared_valid == 1
    && leb a.prepared_mismatch_mask 31
    && leb a.prepared_members 4096
    && ltb 0 a.prepared_json_bytes
    && leb a.prepared_json_bytes json_bytes

unfoldable pub dirty_readable : ReportBuilderPayload → Bool
dirty_readable a = a.prepared_dirty_valid == 1 && leb a.prepared_dirty_at_entry 1

-- The copied fields of the prepared read and of the entry observation, or none of them.
unfoldable pub keep_prepared : Bool → ReportBuilderPayload → ReportBuilderPayload
keep_prepared true a = a
keep_prepared false a = record a {
  prepared_valid = 0;
  prepared_mismatch_mask = 0;
  prepared_maximum = 0;
  prepared_members = 0;
  prepared_pi = 0;
  prepared_bots = 0;
  prepared_json_maximum = 0;
  prepared_json_bytes = 0;
}

unfoldable pub keep_dirty : Bool → ReportBuilderPayload → ReportBuilderPayload
keep_dirty true a = a
keep_dirty false a = record a { prepared_dirty_valid = 0; prepared_dirty_at_entry = 0 }

unfoldable pub canonical_builder : ReportBuilderPayload → ReportBuilderPayload
unfolding prepared_readable dirty_readable keep_prepared keep_dirty
canonical_builder a =
    record (keep_dirty (dirty_readable a) (keep_prepared (prepared_readable a) a)) {
      reserved = 0 ∷ 0 ∷ 0 ∷ 0 ∷ 0 ∷ 0 ∷ 0 ∷ 0 ∷ [];
    }

unfoldable pub canonical_anchor : ReportAnchorPayload → ReportAnchorPayload
canonical_anchor a = record {
  normal_attempts = a.normal_attempts;
  full_selected = a.full_selected;
  selected_true = a.selected_true;
  normal_returns = a.normal_returns;
  false_returns = a.false_returns;
  native_unwinds = a.native_unwinds;
  request_sequence = a.request_sequence;
  witness_sequence = a.witness_sequence;
  build_sequence = a.build_sequence;
  distinct_selected_witnesses = a.distinct_selected_witnesses;
  durations = a.durations;
}

unfoldable pub canonical_transport : ReportTransportSummaryPayload → ReportTransportSummaryPayload
canonical_transport a = record {
  anchor_sequence = a.anchor_sequence;
  native_submit_calls = a.native_submit_calls;
  native_submit_elapsed_ticks = a.native_submit_elapsed_ticks;
  native_submit_maximum_ticks = a.native_submit_maximum_ticks;
  native_submit_over_five_milliseconds = a.native_submit_over_five_milliseconds;
  forwarded_pump_without_capture = a.forwarded_pump_without_capture;
  forwarded_builder_without_capture = a.forwarded_builder_without_capture;
  transport_state = a.transport_state;
  transport_reason = a.transport_reason;
  pause_epoch = a.pause_epoch;
  pause_boundary_sequence = a.pause_boundary_sequence;
  submitted_sequence = a.submitted_sequence;
  observed_sequence = a.observed_sequence;
  timing_accounted_through_qpc = a.timing_accounted_through_qpc;
  generated_sequence = a.generated_sequence;
  reserved = 0 ∷ 0 ∷ 0 ∷ 0 ∷ 0 ∷ 0 ∷ 0 ∷ 0 ∷ 0 ∷ 0 ∷ 0 ∷ [];
}

unfoldable pub canonical_control : ReportControlPayload → ReportControlPayload
canonical_control a = record {
  event = a.event;
  transport_state = a.transport_state;
  transport_reason = a.transport_reason;
  pause_epoch = a.pause_epoch;
  pause_boundary_sequence = a.pause_boundary_sequence;
  abandoned_pending_request = a.abandoned_pending_request;
  abandoned_witness = a.abandoned_witness;
  last_request_qpc = a.last_request_qpc;
  generated_before = a.generated_before;
  submitted_before = a.submitted_before;
  observed_before = a.observed_before;
  forwarded_pump_without_capture = a.forwarded_pump_without_capture;
  forwarded_builder_without_capture = a.forwarded_builder_without_capture;
  timing_accounted_through_qpc = a.timing_accounted_through_qpc;
  reserved = 0 ∷ 0 ∷ 0 ∷ 0 ∷ 0 ∷ 0 ∷ 0 ∷ 0 ∷ 0 ∷ 0 ∷ 0 ∷ 0 ∷ [];
}

unfoldable pub canonical_recovery : ReportRecoveryPayload → ReportRecoveryPayload
canonical_recovery a = record {
  phase = a.phase;
  event = a.event;
  reason = a.reason;
  outcome = a.outcome;
  flags = a.flags;
  operation_sequence = a.operation_sequence;
  transition_sequence = a.transition_sequence;
  qpc = a.qpc;
  source_epoch = a.source_epoch;
  sdk_epoch = a.sdk_epoch;
  owner_thread_id = a.owner_thread_id;
  resource_phase = a.resource_phase;
  native_stage = a.native_stage;
  exception_code = a.exception_code;
  request_id = a.request_id;
  callback_id = a.callback_id;
  callback_result = a.callback_result;
  api_returned_id = a.api_returned_id;
  old_sdk_fingerprint = a.old_sdk_fingerprint;
  new_sdk_fingerprint = a.new_sdk_fingerprint;
  old_cache_fingerprint = a.old_cache_fingerprint;
  new_cache_fingerprint = a.new_cache_fingerprint;
  finish_deadline_qpc = a.finish_deadline_qpc;
  overall_deadline_qpc = a.overall_deadline_qpc;
  record_sequence = a.record_sequence;
  callback_own_ticks = a.callback_own_ticks;
}

unfoldable pub canonical_body : ReportBody → ReportBody
unfolding canonical_state canonical_request canonical_builder canonical_anchor canonical_transport
    canonical_control canonical_recovery
canonical_body (state a) = state (canonical_state a)
canonical_body (request a) = request (canonical_request a)
canonical_body (witness a) = witness (canonical_request a)
canonical_body (builder_enter a) = builder_enter (canonical_builder a)
canonical_body (builder_return a) = builder_return (canonical_builder a)
canonical_body (builder_unwind a) = builder_unwind (canonical_builder a)
canonical_body (anchor a) = anchor (canonical_anchor a)
canonical_body (transport_summary a) = transport_summary (canonical_transport a)
canonical_body (control a) = control (canonical_control a)
canonical_body (recovery a) = recovery (canonical_recovery a)
canonical_body (unknown k) = unknown k

unfoldable pub canonical_record : ReportRecordV3 → ℕ → ℕ → ReportRecordV3
unfolding canonical_body
canonical_record input sequence owner = record {
  header = record input.header { sequence = sequence; thread_id = owner };
  body = canonical_body input.body;
}
