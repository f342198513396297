-- ===== src/Records/Payload.antt =====
-- src/companion/steam_reporting_records.h, steam_reporting_records_v3.h and
-- src/shared/leech_recovery_status.h: the records that the library reports. Every field is a number,
-- an array a list.
use rs2server_fix.Base.{ℕ, List}

-- The kind is the constructor of the body.
pub record ReportHeader : Type 0 where
  pub sequence : ℕ
  pub qpc : ℕ
  pub source_epoch : ℕ
  pub binding_epoch : ℕ
  pub reason : ℕ
  pub flags : ℕ
  pub thread_id : ℕ

pub record ReportStatePayload : Type 0 where
  pub phase : ℕ
  pub request_sequence : ℕ
  pub witness_sequence : ℕ
  pub build_sequence : ℕ
  pub pending_since_qpc : ℕ
  pub fresh_since_qpc : ℕ
  pub qualification_flags : ℕ
  pub native_task_state : ℕ
  pub mode : ℕ
  pub classification : ℕ
  pub pi : ℕ
  pub bots : ℕ
  pub maximum : ℕ
  pub pending : ℕ
  pub fresh : ℕ
  pub bound : ℕ
  pub client_qualification_ms : ℕ
  pub native_schedule_valid : ℕ
  pub native_schedule_anchor_bits : ℕ
  pub native_errors_bits : ℕ
  pub native_throttles_bits : ℕ
  pub native_expedite : ℕ
  pub native_retry_limit : ℕ
  pub native_interval_units : ℕ
  pub native_interval_override_bits : ℕ
  pub native_retry_override_bits : ℕ
  pub native_delay_units : ℕ
  pub native_tier : ℕ
  pub reserved : List ℕ

pub record ReportRequestPayload : Type 0 where
  pub request_sequence : ℕ
  pub witness_sequence : ℕ
  pub staged_qpc : ℕ
  pub previous_sample_qpc : ℕ
  pub observed_qpc : ℕ
  pub fresh_since_qpc : ℕ
  pub source_age_ticks : ℕ
  pub pi : ℕ
  pub bots : ℕ
  pub maximum : ℕ
  pub staged_bots : ℕ
  pub human_players : ℕ
  pub world_bots : ℕ
  pub classification : ℕ
  pub pending : ℕ
  pub reserved : List ℕ

pub record ReportBuilderPayload : Type 0 where
  pub build_sequence : ℕ
  pub request_sequence : ℕ
  pub witness_sequence : ℕ
  pub source_age_ticks : ℕ
  pub probe_elapsed_ticks : ℕ
  pub classification_elapsed_ticks : ℕ
  pub original_elapsed_ticks : ℕ
  pub entry_qpc : ℕ
  pub return_qpc : ℕ
  pub pi : ℕ
  pub bots : ℕ
  pub maximum : ℕ
  pub classification : ℕ
  pub selected : ℕ
  pub result : ℕ
  pub pending : ℕ
  pub fresh : ℕ
  pub prepared_valid : ℕ
  pub prepared_mismatch_mask : ℕ
  pub prepared_maximum : ℕ
  pub prepared_members : ℕ
  pub prepared_pi : ℕ
  pub prepared_bots : ℕ
  pub prepared_json_maximum : ℕ
  pub prepared_json_bytes : ℕ
  pub prepared_dirty_valid : ℕ
  pub prepared_dirty_at_entry : ℕ
  pub reserved : List ℕ

pub record ReportDurationSummary : Type 0 where
  pub calls : ℕ
  pub elapsed_ticks : ℕ
  pub maximum_ticks : ℕ
  pub over_five_milliseconds : ℕ

pub record ReportAnchorPayload : Type 0 where
  pub normal_attempts : ℕ
  pub full_selected : ℕ
  pub selected_true : ℕ
  pub normal_returns : ℕ
  pub false_returns : ℕ
  pub native_unwinds : ℕ
  pub request_sequence : ℕ
  pub witness_sequence : ℕ
  pub build_sequence : ℕ
  pub distinct_selected_witnesses : ℕ
  pub durations : List ReportDurationSummary

pub record ReportTransportSummaryPayload : Type 0 where
  pub anchor_sequence : ℕ
  pub native_submit_calls : ℕ
  pub native_submit_elapsed_ticks : ℕ
  pub native_submit_maximum_ticks : ℕ
  pub native_submit_over_five_milliseconds : ℕ
  pub forwarded_pump_without_capture : ℕ
  pub forwarded_builder_without_capture : ℕ
  pub transport_state : ℕ
  pub transport_reason : ℕ
  pub pause_epoch : ℕ
  pub pause_boundary_sequence : ℕ
  pub submitted_sequence : ℕ
  pub observed_sequence : ℕ
  pub timing_accounted_through_qpc : ℕ
  pub generated_sequence : ℕ
  pub reserved : List ℕ

pub record ReportControlPayload : Type 0 where
  pub event : ℕ
  pub transport_state : ℕ
  pub transport_reason : ℕ
  pub pause_epoch : ℕ
  pub pause_boundary_sequence : ℕ
  pub abandoned_pending_request : ℕ
  pub abandoned_witness : ℕ
  pub last_request_qpc : ℕ
  pub generated_before : ℕ
  pub submitted_before : ℕ
  pub observed_before : ℕ
  pub forwarded_pump_without_capture : ℕ
  pub forwarded_builder_without_capture : ℕ
  pub timing_accounted_through_qpc : ℕ
  pub reserved : List ℕ

pub record ReportRecoveryPayload : Type 0 where
  pub phase : ℕ
  pub event : ℕ
  pub reason : ℕ
  pub outcome : ℕ
  pub flags : ℕ
  pub operation_sequence : ℕ
  pub transition_sequence : ℕ
  pub qpc : ℕ
  pub source_epoch : ℕ
  pub sdk_epoch : ℕ
  pub owner_thread_id : ℕ
  pub resource_phase : ℕ
  pub native_stage : ℕ
  pub exception_code : ℕ
  pub request_id : ℕ
  pub callback_id : ℕ
  pub callback_result : ℕ
  pub api_returned_id : ℕ
  pub old_sdk_fingerprint : ℕ
  pub new_sdk_fingerprint : ℕ
  pub old_cache_fingerprint : ℕ
  pub new_cache_fingerprint : ℕ
  pub finish_deadline_qpc : ℕ
  pub overall_deadline_qpc : ℕ
  pub record_sequence : ℕ
  pub callback_own_ticks : ℕ

-- The kind of a record with the member of the union that it selects; `unknown` carries a kind that is
-- none of the enumerators below `Count`.
pub data ReportBody : Type 0 where
  state : ReportStatePayload → ReportBody
  request witness : ReportRequestPayload → ReportBody
  builder_enter builder_return builder_unwind : ReportBuilderPayload → ReportBody
  anchor : ReportAnchorPayload → ReportBody
  transport_summary : ReportTransportSummaryPayload → ReportBody
  control : ReportControlPayload → ReportBody
  recovery : ReportRecoveryPayload → ReportBody
  unknown : ℕ → ReportBody

pub record ReportRecordV3 : Type 0 where
  pub header : ReportHeader
  pub body : ReportBody
