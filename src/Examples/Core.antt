-- ===== src/Examples/Core.antt =====
-- A process that publishes a header, an owner and a worker, and no log.
use rs2server_fix.Base.{ℕ, ◌≡◌, refl, some, [], ◌∷◌}
use rs2server_fix.Status.Wire.{
  status_magic, status_schema_v3, status_bytes, reporting_artifact_version_v3, StatusHeader,
}
use rs2server_fix.Status.{no_worker, no_console, no_owner_transport}
use rs2server_fix.Snapshot.Words.{
  zero_header, zero_payload, zero_identity, header_words, payload_words, transport_words,
}
use rs2server_fix.Snapshot.Core.{SnapshotResultV3}
use rs2server_fix.Snapshot.Core.Steps.{StatusReadOpsV3}
use rs2server_fix.Snapshot.Core.Read.{read_status_snapshot}

abbrev published : StatusHeader
published = record zero_header {
  magic = status_magic;
  schema = status_schema_v3;
  bytes = status_bytes;
  artifact_version = reporting_artifact_version_v3;
  configured_mode = 2;
  pid = 77;
  validity = 31;
}

abbrev process : StatusReadOpsV3 ℕ
process = record {
  header = λ w. (w, some published);
  header_ready = λ w. (w, some 1);
  revoke_reasons = λ w. (w, some 0);
  loss_reasons = λ w. (w, some 0);
  stopping = λ w. (w, some 0);
  stopped_qpc = λ w. (w, some 0);
  fatal_transport_reason = λ w. (w, some 0);
  worker_pause_reason = λ w. (w, some 0);
  reserved = λ w. (w, some (0 ∷ 0 ∷ []));
  owner_sequence = λ w. (w, some 4);
  owner = λ w. (w, some (record zero_payload { phase = 5; reason = 2 }));
  owner_transport = λ w. (w, some no_owner_transport);
  worker_sequence = λ w. (w, some 2);
  worker = λ w. (w, some no_worker);
  log_identity_ready = λ w. (w, some 0);
  log = λ w. (w, some zero_identity);
  console_sequence = λ w. (w, some 0);
  console = λ w. (w, some no_console);
}

process_coherent : (read_status_snapshot process 0).0 ≡ SnapshotResultV3.coherent
unfolding read_status_snapshot header_words payload_words transport_words
process_coherent = refl

unready_unpublished :
    (read_status_snapshot (record process { header_ready = λ w. (w, some 0) }) 0).0
    ≡ SnapshotResultV3.unpublished
unfolding read_status_snapshot
unready_unpublished = refl
