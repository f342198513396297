-- ===== src/Status/Wire.antt =====
-- src/shared/steam_reporting_status.h and steam_reporting_status_v3.h: the status block that the library
-- exports. Every 64-bit word is a number, an array a list.
use rs2server_fix.Base.{ℕ, List}

pub data TransportReason : Type 0 where
  none awaiting_logger category_suppressed force_flush_missing : TransportReason
  framing_unsupported sink_unsupported file_manager_unsupported : TransportReason
  receipt_unavailable reader_behind receipt_overdue credit_pressure : TransportReason
  same_file_requalification receipt_gap receipt_corrupt file_identity_changed : TransportReason
  file_truncated profile_unsafe native_log_exception : TransportReason

unfoldable pub transport_reason_code : TransportReason → ℕ
transport_reason_code none = 0
transport_reason_code awaiting_logger = 1
transport_reason_code category_suppressed = 2
transport_reason_code force_flush_missing = 3
transport_reason_code framing_unsupported = 4
transport_reason_code sink_unsupported = 5
transport_reason_code file_manager_unsupported = 6
transport_reason_code receipt_unavailable = 7
transport_reason_code reader_behind = 8
transport_reason_code receipt_overdue = 9
transport_reason_code credit_pressure = 10
transport_reason_code same_file_requalification = 11
transport_reason_code receipt_gap = 12
transport_reason_code receipt_corrupt = 13
transport_reason_code file_identity_changed = 14
transport_reason_code file_truncated = 15
transport_reason_code profile_unsafe = 16
transport_reason_code native_log_exception = 17

abbrev pub transport_reason_count : ℕ
transport_reason_count = 18

-- TransportState::WaitingLogger and ::Stopping.
abbrev pub waiting_logger_code : ℕ
waiting_logger_code = 0

abbrev pub stopping_code : ℕ
stopping_code = 4

abbrev pub status_magic : ℕ
status_magic = 0x3154505232535255

abbrev pub status_schema_v3 : ℕ
status_schema_v3 = 3

abbrev pub reporting_artifact_version_v3 : ℕ
reporting_artifact_version_v3 = 0x00070100

abbrev pub status_bytes : ℕ
status_bytes = 3896

pub record StatusHeader : Type 0 where
  pub magic : ℕ
  pub schema : ℕ
  pub bytes : ℕ
  pub artifact_version : ℕ
  pub configured_mode : ℕ
  pub pid : ℕ
  pub validity : ℕ
  pub process_creation : ℕ
  pub qpc_frequency : ℕ
  pub run_id : List ℕ
  pub host_digest : List ℕ
  pub reserved : List ℕ

pub record DurationCounters : Type 0 where
  pub calls : ℕ
  pub elapsed_ticks : ℕ
  pub maximum_ticks : ℕ
  pub over_five_milliseconds : ℕ
  pub buckets : List ℕ

pub record StatusPayload : Type 0 where
  pub phase : ℕ
  pub reason : ℕ
  pub owner_thread_id : ℕ
  pub source_epoch : ℕ
  pub binding_epoch : ℕ
  pub last_owner_qpc : ℕ
  pub last_management_qpc : ℕ
  pub last_builder_qpc : ℕ
  pub ready_qpc : ℕ
  pub pending_since_qpc : ℕ
  pub fresh_since_qpc : ℕ
  pub request_sequence : ℕ
  pub witness_sequence : ℕ
  pub build_sequence : ℕ
  pub pending : ℕ
  pub fresh : ℕ
  pub pi : ℕ
  pub bots : ℕ
  pub maximum : ℕ
  pub normal_attempts : ℕ
  pub full_selected : ℕ
  pub selected_true : ℕ
  pub normal_returns : ℕ
  pub false_returns : ℕ
  pub native_unwinds : ℕ
  pub management_calls : ℕ
  pub normal_pump_classifications : ℕ
  pub normal_builder_classifications : ℕ
  pub builder_bound : ℕ
  pub report_sequence : ℕ
  pub last_selected_witness : ℕ
  pub distinct_selected_witnesses : ℕ
  pub reasons : List ℕ
  pub durations : List DurationCounters
  pub timing_accounted_through_qpc : ℕ

pub record OwnerTransport : Type 0 where
  pub state : ℕ
  pub reason : ℕ
  pub startup_submitted : ℕ
  pub actual_repair_admitted : ℕ
  pub generated_sequence : ℕ
  pub submitted_sequence : ℕ
  pub pause_epoch : ℕ
  pub pause_boundary_sequence : ℕ
  pub transition_sequence : ℕ
  pub transition_qpc : ℕ
  pub forwarded_pump_without_capture : ℕ
  pub forwarded_builder_without_capture : ℕ
  pub reserved_credits : ℕ
  pub submit_window_start_qpc : ℕ
  pub submit_window_count : ℕ
  pub native_submit_calls : ℕ
  pub native_submit_elapsed_ticks : ℕ
  pub native_submit_maximum_ticks : ℕ
  pub native_submit_over_five_milliseconds : ℕ
  pub last_native_submit_qpc : ℕ
  pub qualified_sink_epoch : ℕ
  pub reserved : ℕ

pub record WorkerTransport : Type 0 where
  pub startup_observed : ℕ
  pub prepared_sequence : ℕ
  pub observed_sequence : ℕ
  pub last_receipt_qpc : ℕ
  pub reader_offset : ℕ
  pub partial_bytes : ℕ
  pub ledger_depth : ℕ
  pub ready_depth : ℕ
  pub ring_read_sequence : ℕ
  pub read_cycles : ℕ
  pub read_bytes : ℕ
  pub format_calls : ℕ
  pub format_ticks : ℕ
  pub receipt_ticks : ℕ
  pub pause_reason : ℕ
  pub pause_condition_sequence : ℕ
  pub pause_condition_qpc : ℕ
  pub last_read_error : ℕ
  pub matched_awaiting_submit_sequence : ℕ
  pub reserved : ℕ

pub record ConsoleDiagnostics : Type 0 where
  pub attempts : ℕ
  pub written : ℕ
  pub failures : ℕ
  pub last_error : ℕ
  pub last_attempt_qpc : ℕ
  pub last_notice_epoch : ℕ
  pub skipped_transitions : ℕ
  pub worker_state : ℕ

pub record LogIdentity : Type 0 where
  pub volume_serial : ℕ
  pub file_id : List ℕ
  pub initial_eof : ℕ
  pub path_chars : ℕ
  pub prefix_mode : ℕ
  pub transport_kind : ℕ
  pub durability : ℕ
  pub utc_filetime : ℕ
  pub calibration_qpc_before : ℕ
  pub calibration_qpc_after : ℕ
  pub initial_at_line_boundary : ℕ
  pub path : List ℕ

pub record StatusWireV3 : Type 0 where
  pub header : StatusHeader
  pub header_ready : ℕ
  pub owner_sequence : ℕ
  pub worker_sequence : ℕ
  pub console_sequence : ℕ
  pub log_identity_ready : ℕ
  pub revoke_reasons : ℕ
  pub loss_reasons : ℕ
  pub stopping : ℕ
  pub stopped_qpc : ℕ
  pub worker_pause_reason : ℕ
  pub fatal_transport_reason : ℕ
  pub reserved : List ℕ
  pub owner : StatusPayload
  pub owner_transport : OwnerTransport
  pub worker : WorkerTransport
  pub console : ConsoleDiagnostics
  pub log : LogIdentity

pub record OwnerSnapshotV3 : Type 0 where
  pub owner : StatusPayload
  pub transport : OwnerTransport
  pub sequence : ℕ
