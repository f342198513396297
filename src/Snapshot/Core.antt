-- ===== src/Snapshot/Core.antt =====
-- src/shared/steam_reporting_snapshot_v3.cpp: `ReadStatusSnapshotV3` and `SnapshotCurrentlyReadyV3`. The
-- snapshot is filled in as far as the reading gets, also when it fails.
use Prim.Native.Nat.{bit_or}
use rs2server_fix.Base.{
  ℕ, zero, suc, ◌+◌, ◌-◌, ◌*◌, ◌/◌, ◌%◌, ◌^◌, Bool, true, false, not, ◌&&◌, ◌||◌, Option, none,
  some, List, [], ◌∷◌, ◌++◌, get_elem?, take, drop, same, all, ltb, leb, ◌==◌, if◌then◌else◌,
}
use rs2server_fix.Types.{reason_count, int64_max}
use rs2server_fix.Status.Wire.{
  transport_reason_count, stopping_code, status_magic, status_schema_v3, status_bytes,
  reporting_artifact_version_v3, StatusHeader, StatusPayload, OwnerTransport, WorkerTransport,
  ConsoleDiagnostics, LogIdentity, StatusWireV3,
}
use rs2server_fix.Status.{is_zero, console_acceptable, identity_acceptable, no_console}
use rs2server_fix.Snapshot.{any_byte}
use rs2server_fix.Snapshot.Words.{
  zero_payload, zero_identity, zero_wire, header_words, payload_words, transport_words,
  identity_words,
}
pub mod Steps
pub mod Read
pub mod Seen
pub mod Bounds
pub mod Kept
pub mod Quiet
pub mod Sound

pub data SnapshotResultV3 : Type 0 where
  coherent unpublished busy read_failure invalid : SnapshotResultV3

pub record StatusSnapshotV3 : Type 0 where
  pub wire : StatusWireV3
  pub attempts : ℕ
  pub header_available : Bool
  pub core_available : Bool
  pub log_identity_available : Bool
  pub console_diagnostics_available : Bool
  pub worker_pause_changed : Bool

abbrev pub zero_snapshot : StatusSnapshotV3
zero_snapshot = record {
  wire = zero_wire;
  attempts = 0;
  header_available = false;
  core_available = false;
  log_identity_available = false;
  console_diagnostics_available = false;
  worker_pause_changed = false;
}

unfoldable pub header_valid : StatusHeader → Bool
header_valid h =
    h.magic == status_magic
    && h.schema == status_schema_v3
    && h.bytes == status_bytes
    && h.artifact_version == reporting_artifact_version_v3
    && leb h.configured_mode 3
    && ltb h.validity 32
    && all (λ word. word == 0) h.reserved

unfoldable pub identity_valid : LogIdentity → Bool
unfolding identity_acceptable
identity_valid log = identity_acceptable log && all (λ c. c == 0) (drop log.path_chars log.path)

unfoldable pub core_valid : StatusWireV3 → Bool
core_valid wire =
    let owner = wire.owner in
    let t = wire.owner_transport in
    let w = wire.worker in
    leb owner.phase 10
    && ltb owner.reason 59
    && leb owner.pending 1
    && leb owner.fresh 1
    && leb owner.builder_bound 1
    && leb owner.owner_thread_id (2 ^ 32 - 1)
    && leb t.state stopping_code
    && ltb t.reason transport_reason_count
    && leb t.startup_submitted 1
    && leb t.actual_repair_admitted 1
    && t.reserved == 0
    && t.generated_sequence == owner.report_sequence
    && leb t.submitted_sequence t.generated_sequence
    && leb w.startup_observed 1
    && leb w.prepared_sequence t.generated_sequence
    && leb w.observed_sequence t.submitted_sequence
    && leb w.observed_sequence w.prepared_sequence
    && leb w.pause_reason 11
    && w.reserved == 0
    && leb wire.worker_pause_reason 11
    && ltb wire.fatal_transport_reason transport_reason_count
    && (wire.fatal_transport_reason == 0 || leb 12 wire.fatal_transport_reason)

-- No gate is closed, and no evidence is missing.
unfoldable pub open_gates : StatusSnapshotV3 → Bool
open_gates s =
    let wire = s.wire in
    s.core_available
    && s.header_available
    && s.log_identity_available
    && not s.worker_pause_changed
    && wire.revoke_reasons == 0
    && wire.loss_reasons == 0
    && wire.stopping == 0
    && wire.fatal_transport_reason == 0
    && wire.worker_pause_reason == 0
    && wire.worker.pause_reason == 0

-- The owner was seen at most two seconds before now, on the same clock.
unfoldable pub live_owner : StatusWireV3 → ℕ → ℕ → Bool
live_owner wire now frequency =
    let owner = wire.owner in
    not (frequency == 0)
    && leb frequency (int64_max / 45)
    && wire.header.qpc_frequency == frequency
    && not (now == 0)
    && not (owner.last_owner_qpc == 0)
    && leb owner.last_owner_qpc now
    && leb (now - owner.last_owner_qpc) (2 * frequency)
    && not (owner.ready_qpc == 0)
    && leb owner.ready_qpc now

-- The process, the owner and its transport are those of a running report.
unfoldable pub running : StatusWireV3 → Bool
unfolding any_byte
running wire =
    not (wire.header.pid == 0)
    && not (wire.header.process_creation == 0)
    && wire.header.validity == 31
    && not (wire.owner.owner_thread_id == 0)
    && not (wire.owner.source_epoch == 0)
    && not (wire.owner.binding_epoch == 0)
    && wire.owner.builder_bound == 1
    && wire.owner_transport.state == 1
    && wire.owner_transport.reason == 0
    && wire.owner_transport.startup_submitted == 1
    && wire.worker.startup_observed == 1
    && any_byte wire.header.run_id
    && any_byte wire.header.host_digest

unfoldable pub mode_ready : StatusWireV3 → Bool
mode_ready wire =
    if wire.header.configured_mode == 2
    then wire.owner.phase == 5 && wire.owner_transport.actual_repair_admitted == 0
    else wire.header.configured_mode == 3
      && wire.owner.phase == 6
      && wire.owner_transport.actual_repair_admitted == 1

unfoldable pub snapshot_currently_ready : StatusSnapshotV3 → ℕ → ℕ → Bool
unfolding open_gates live_owner running mode_ready
snapshot_currently_ready s now frequency =
    open_gates s && live_owner s.wire now frequency && running s.wire && mode_ready s.wire
