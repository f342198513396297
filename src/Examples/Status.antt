-- ===== src/Examples/Status.antt =====
-- A status block from its first update to a stop.
use rs2server_fix.Base.{◌≡◌, ◌≢◌, refl, true, List, [], ◌∷◌, arith}
use rs2server_fix.Types.{Reason}
use rs2server_fix.Status.Wire.{StatusHeader, StatusPayload, LogIdentity, StatusWireV3}
use rs2server_fix.Status.{
  no_owner_transport, no_worker, no_console, status_revoked, revoke_status, lose_status,
  initialize_status, publish_owner, publish_worker, publish_worker_with, read_owner, header_ready,
  owner_acceptable, worker_consistent, may_publish, minimum, close_gate, stop_status,
}
use rs2server_fix.Status.Sound.{
  Update, initialize, owner, worker, stop, update, updates, Watermarks, updates-Watermarks,
}
use rs2server_fix.Status.Gate.{updates_revoked}

abbrev pub no_header : StatusHeader
no_header = record {
  magic = 0;
  schema = 0;
  bytes = 0;
  artifact_version = 0;
  configured_mode = 0;
  pid = 0;
  validity = 0;
  process_creation = 0;
  qpc_frequency = 0;
  run_id = [];
  host_digest = [];
  reserved = [];
}

abbrev pub no_payload : StatusPayload
no_payload = record {
  phase = 0;
  reason = 0;
  owner_thread_id = 0;
  source_epoch = 0;
  binding_epoch = 0;
  last_owner_qpc = 0;
  last_management_qpc = 0;
  last_builder_qpc = 0;
  ready_qpc = 0;
  pending_since_qpc = 0;
  fresh_since_qpc = 0;
  request_sequence = 0;
  witness_sequence = 0;
  build_sequence = 0;
  pending = 0;
  fresh = 0;
  pi = 0;
  bots = 0;
  maximum = 0;
  normal_attempts = 0;
  full_selected = 0;
  selected_true = 0;
  normal_returns = 0;
  false_returns = 0;
  native_unwinds = 0;
  management_calls = 0;
  normal_pump_classifications = 0;
  normal_builder_classifications = 0;
  builder_bound = 0;
  report_sequence = 0;
  last_selected_witness = 0;
  distinct_selected_witnesses = 0;
  reasons = [];
  durations = [];
  timing_accounted_through_qpc = 0;
}

abbrev pub no_identity : LogIdentity
no_identity = record {
  volume_serial = 0;
  file_id = [];
  initial_eof = 0;
  path_chars = 0;
  prefix_mode = 0;
  transport_kind = 0;
  durability = 0;
  utc_filetime = 0;
  calibration_qpc_before = 0;
  calibration_qpc_after = 0;
  initial_at_line_boundary = 0;
  path = [];
}

abbrev pub blank : StatusWireV3
blank = record {
  header = no_header;
  header_ready = 0;
  owner_sequence = 0;
  worker_sequence = 0;
  console_sequence = 0;
  log_identity_ready = 0;
  revoke_reasons = 0;
  loss_reasons = 0;
  stopping = 0;
  stopped_qpc = 0;
  worker_pause_reason = 0;
  fatal_transport_reason = 0;
  reserved = [];
  owner = no_payload;
  owner_transport = no_owner_transport;
  worker = no_worker;
  console = no_console;
  log = no_identity;
}

-- Three records generated, two of their frames submitted, one receipt observed; then a stop.
abbrev history : List Update
history =
    initialize no_header no_payload
    ∷ owner (record no_payload { report_sequence = 3 })
        (record no_owner_transport { generated_sequence = 3; submitted_sequence = 2 })
    ∷ worker (record no_worker { prepared_sequence = 4; observed_sequence = 1 })
    ∷ stop 70
    ∷ []

history_watermarks :
    ((updates history blank).worker.prepared_sequence ≡ 3)
    × ((updates history blank).worker.observed_sequence ≡ 1)
    × ((updates history blank).header_ready ≡ 1)
unfolding updates update initialize_status publish_owner publish_worker publish_worker_with
    read_owner header_ready owner_acceptable worker_consistent may_publish minimum close_gate
    stop_status
history_watermarks = (refl, refl, refl)

unready : blank.header_ready ≢ 1
unready h = ground arith

updates-Watermarks_example :
    Watermarks
      (updates history blank).owner
      (updates history blank).owner_transport
      (updates history blank).worker
updates-Watermarks_example = updates-Watermarks history blank unready history_watermarks.2

updates_revoked_example :
    (status_revoked blank ≡ true → status_revoked (updates history blank) ≡ true)
    × ((reason : Reason) → status_revoked (updates history (revoke_status blank reason)) ≡ true)
    × ((reason : Reason) → status_revoked (updates history (lose_status blank reason)) ≡ true)
updates_revoked_example = updates_revoked history blank
