-- ===== src/Examples/Snapshot.antt =====
-- A process that publishes one recovery payload, read once.
use rs2server_fix.Base.{ℕ, ◌≤◌, ◌≡◌, refl, true, some, List, [], ◌∷◌}
use rs2server_fix.Status.Wire.{
  status_magic, status_schema_v3, status_bytes, reporting_artifact_version_v3, StatusHeader,
}
use rs2server_fix.Records.Payload.{ReportRecoveryPayload}
use rs2server_fix.Snapshot.{
  recovery_artifact_version, RecoveryHeader, RecoveryStatusWire, recovery_status_bytes,
  RecoveryReadOps, read_matching_recovery_status, matches,
}
use rs2server_fix.Snapshot.Sound.{IsWhole, read_matching_recovery_status-IsWhole}
use rs2server_fix.Snapshot.Core.{SnapshotResultV3}
use rs2server_fix.Snapshot.Words.{header_words}
use rs2server_fix.Snapshot.Identity.{
  IdentityReadOps, read_reporting_identity, IsReporting, IsSeen, read_reporting_identity-IsSeen,
}
use rs2server_fix.Examples.Status.{no_header}

abbrev armed : ReportRecoveryPayload
armed = record {
  phase = 1;
  event = 1;
  reason = 0;
  outcome = 0;
  flags = 1;
  operation_sequence = 0;
  transition_sequence = 1;
  qpc = 40;
  source_epoch = 1;
  sdk_epoch = 1;
  owner_thread_id = 9;
  resource_phase = 0;
  native_stage = 0;
  exception_code = 0;
  request_id = 0;
  callback_id = 0;
  callback_result = 0;
  api_returned_id = 0;
  old_sdk_fingerprint = 0;
  new_sdk_fingerprint = 0;
  old_cache_fingerprint = 0;
  new_cache_fingerprint = 0;
  finish_deadline_qpc = 0;
  overall_deadline_qpc = 0;
  record_sequence = 0;
  callback_own_ticks = 0;
}

abbrev run_id : List ℕ
run_id = 1 ∷ 2 ∷ 3 ∷ 4 ∷ 5 ∷ 6 ∷ 7 ∷ 8 ∷ 9 ∷ 10 ∷ 11 ∷ 12 ∷ 13 ∷ 14 ∷ 15 ∷ 16 ∷ []

abbrev recovery_header : RecoveryHeader
recovery_header = record {
  schema = 1;
  bytes = recovery_status_bytes;
  artifact_version = recovery_artifact_version;
  pid = 77;
  run_id = run_id;
}

abbrev process : RecoveryReadOps ℕ
process = record {
  header_ready = λ w. (w, some 1);
  header = λ w. (w, some recovery_header);
  owner_sequence = λ w. (w, some 4);
  payload = λ w. (w, some armed);
}

abbrev identity : StatusHeader
identity = record no_header {
  magic = status_magic;
  schema = status_schema_v3;
  bytes = status_bytes;
  artifact_version = reporting_artifact_version_v3;
  configured_mode = 3;
  pid = 77;
  validity = 31;
  process_creation = 5;
  qpc_frequency = 10000000;
  run_id = run_id;
  host_digest = 1 ∷ [];
}

abbrev seen : RecoveryStatusWire
seen = record { header = recovery_header; header_ready = 1; owner_sequence = 4; payload = armed }

seen_read : (read_matching_recovery_status process identity 0).1.wire ≡ some seen
unfolding read_matching_recovery_status
seen_read = refl

read_matching_recovery_status-IsWhole_example :
    IsWhole process seen
    × (matches identity seen ≡ true)
    × ((read_matching_recovery_status process identity 0).1.attempts ≤ 3)
read_matching_recovery_status-IsWhole_example =
    read_matching_recovery_status-IsWhole process identity 0 seen seen_read

abbrev reporting : IdentityReadOps ℕ
reporting = record {
  header_ready = λ w. (w, some 1);
  header = λ w. (w, some identity);
  reserved = λ w. (w, some (0 ∷ 0 ∷ 0 ∷ 0 ∷ 0 ∷ []));
  owner_reserved = λ w. (w, some 0);
  worker_reserved = λ w. (w, some 0);
}

identity_read : (read_reporting_identity reporting 0).2 ≡ some identity
unfolding read_reporting_identity header_words
identity_read = refl

read_reporting_identity-IsSeen_example :
    ((read_reporting_identity reporting 0).1 ≡ SnapshotResultV3.coherent)
    × IsReporting identity
    × IsSeen reporting identity
read_reporting_identity-IsSeen_example =
    read_reporting_identity-IsSeen reporting 0 identity identity_read
