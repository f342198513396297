-- ===== src/Snapshot/Words.antt =====
-- src/shared/steam_reporting_status_v3.h: zeroed blocks, and the words that `memcmp` compares. A stored
-- array keeps its given length.
use rs2server_fix.Base.{ℕ, List, [], ◌∷◌, ◌++◌}
use rs2server_fix.Status.Wire.{
  DurationCounters, StatusHeader, StatusPayload, OwnerTransport, LogIdentity, StatusWireV3,
}
use rs2server_fix.Status.{no_worker, no_console, no_owner_transport}

abbrev pub zero_header : StatusHeader
zero_header = record {
  magic = 0;
  schema = 0;
  bytes = 0;
  artifact_version = 0;
  configured_mode = 0;
  pid = 0;
  validity = 0;
  process_creation = 0;
  qpc_frequency = 0;
  run_id = [];
  host_digest = [];
  reserved = [];
}

abbrev pub zero_payload : StatusPayload
zero_payload = record {
  phase = 0;
  reason = 0;
  owner_thread_id = 0;
  source_epoch = 0;
  binding_epoch = 0;
  last_owner_qpc = 0;
  last_management_qpc = 0;
  last_builder_qpc = 0;
  ready_qpc = 0;
  pending_since_qpc = 0;
  fresh_since_qpc = 0;
  request_sequence = 0;
  witness_sequence = 0;
  build_sequence = 0;
  pending = 0;
  fresh = 0;
  pi = 0;
  bots = 0;
  maximum = 0;
  normal_attempts = 0;
  full_selected = 0;
  selected_true = 0;
  normal_returns = 0;
  false_returns = 0;
  native_unwinds = 0;
  management_calls = 0;
  normal_pump_classifications = 0;
  normal_builder_classifications = 0;
  builder_bound = 0;
  report_sequence = 0;
  last_selected_witness = 0;
  distinct_selected_witnesses = 0;
  reasons = [];
  durations = [];
  timing_accounted_through_qpc = 0;
}

abbrev pub zero_identity : LogIdentity
zero_identity = record {
  volume_serial = 0;
  file_id = [];
  initial_eof = 0;
  path_chars = 0;
  prefix_mode = 0;
  transport_kind = 0;
  durability = 0;
  utc_filetime = 0;
  calibration_qpc_before = 0;
  calibration_qpc_after = 0;
  initial_at_line_boundary = 0;
  path = [];
}

abbrev pub zero_wire : StatusWireV3
zero_wire = record {
  header = zero_header;
  header_ready = 0;
  owner_sequence = 0;
  worker_sequence = 0;
  console_sequence = 0;
  log_identity_ready = 0;
  revoke_reasons = 0;
  loss_reasons = 0;
  stopping = 0;
  stopped_qpc = 0;
  worker_pause_reason = 0;
  fatal_transport_reason = 0;
  reserved = [];
  owner = zero_payload;
  owner_transport = no_owner_transport;
  worker = no_worker;
  console = no_console;
  log = zero_identity;
}

unfoldable pub duration_words : List DurationCounters → List ℕ
duration_words [] = []
duration_words (d ∷ ds) =
    d.calls ∷ d.elapsed_ticks ∷ d.maximum_ticks ∷ d.over_five_milliseconds ∷ d.buckets
    ++ duration_words ds

unfoldable pub header_words : StatusHeader → List ℕ
header_words h =
    h.magic ∷ h.schema ∷ h.bytes ∷ h.artifact_version ∷ h.configured_mode ∷ h.pid ∷ h.validity
      ∷ h.process_creation ∷ h.qpc_frequency ∷ h.run_id
    ++ h.host_digest
    ++ h.reserved

unfoldable pub payload_words : StatusPayload → List ℕ
unfolding duration_words
payload_words p =
    p.phase ∷ p.reason ∷ p.owner_thread_id ∷ p.source_epoch ∷ p.binding_epoch ∷ p.last_owner_qpc
      ∷ p.last_management_qpc ∷ p.last_builder_qpc ∷ p.ready_qpc ∷ p.pending_since_qpc
      ∷ p.fresh_since_qpc ∷ p.request_sequence ∷ p.witness_sequence ∷ p.build_sequence ∷ p.pending
      ∷ p.fresh ∷ p.pi ∷ p.bots ∷ p.maximum ∷ p.normal_attempts ∷ p.full_selected ∷ p.selected_true
      ∷ p.normal_returns ∷ p.false_returns ∷ p.native_unwinds ∷ p.management_calls
      ∷ p.normal_pump_classifications ∷ p.normal_builder_classifications ∷ p.builder_bound
      ∷ p.report_sequence ∷ p.last_selected_witness ∷ p.distinct_selected_witnesses
      ∷ p.timing_accounted_through_qpc ∷ p.reasons
    ++ duration_words p.durations

unfoldable pub transport_words : OwnerTransport → List ℕ
transport_words t =
    t.state ∷ t.reason ∷ t.startup_submitted ∷ t.actual_repair_admitted ∷ t.generated_sequence
    ∷ t.submitted_sequence ∷ t.pause_epoch ∷ t.pause_boundary_sequence ∷ t.transition_sequence
    ∷ t.transition_qpc ∷ t.forwarded_pump_without_capture ∷ t.forwarded_builder_without_capture
    ∷ t.reserved_credits ∷ t.submit_window_start_qpc ∷ t.submit_window_count ∷ t.native_submit_calls
    ∷ t.native_submit_elapsed_ticks ∷ t.native_submit_maximum_ticks
    ∷ t.native_submit_over_five_milliseconds ∷ t.last_native_submit_qpc ∷ t.qualified_sink_epoch
    ∷ t.reserved ∷ []

unfoldable pub identity_words : LogIdentity → List ℕ
identity_words l =
    l.volume_serial ∷ l.initial_eof ∷ l.path_chars ∷ l.prefix_mode ∷ l.transport_kind ∷ l.durability
      ∷ l.utc_filetime ∷ l.calibration_qpc_before ∷ l.calibration_qpc_after
      ∷ l.initial_at_line_boundary ∷ l.file_id
    ++ l.path
