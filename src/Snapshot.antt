-- ===== src/Snapshot.antt =====
-- src/shared/leech_recovery_snapshot.cpp and steam_reporting_snapshot_v3.cpp, with
-- leech_recovery_status.h and steam_reporting_snapshot_v3.h: what another process reads of the exported
-- blocks. A read at an offset is an operation on a world that the caller gives, one for each field that
-- is read; it fails or returns the field.
use rs2server_fix.Base.{
  ℕ, zero, suc, ◌+◌, ◌%◌, ◌/◌, ◌^◌, Bool, true, false, not, ◌&&◌, ◌||◌, Option, none, some, List,
  [], ◌∷◌, same, all, ltb, leb, ◌==◌, if◌then◌else◌,
}
use rs2server_fix.Types.{int64_max}
use rs2server_fix.Status.Wire.{
  status_magic, status_schema_v3, status_bytes, reporting_artifact_version_v3, StatusHeader,
}
use rs2server_fix.Records.Payload.{ReportRecoveryPayload}
pub mod Payload
use rs2server_fix.Snapshot.Payload.{recovery_payload_valid}
pub mod Sound
pub mod Words
pub mod Core
pub mod Identity

-- `AnyByte`, on the bytes or'ed together.
unfoldable pub any_byte : List ℕ → Bool
any_byte [] = false
any_byte (b ∷ bs) = not (b == 0) || any_byte bs

abbrev pub recovery_artifact_version : ℕ
recovery_artifact_version = 0x00070100

unfoldable pub reporting_identity_valid : StatusHeader → Bool
unfolding any_byte
reporting_identity_valid h =
    h.magic == status_magic
    && h.schema == status_schema_v3
    && h.bytes == status_bytes
    && h.artifact_version == reporting_artifact_version_v3
    && h.artifact_version == recovery_artifact_version
    && leb h.configured_mode 3
    && h.validity == 31
    && not (h.pid == 0)
    && not (h.process_creation == 0)
    && not (h.qpc_frequency == 0)
    && leb h.qpc_frequency (int64_max / 45)
    && any_byte h.run_id
    && any_byte h.host_digest
    && all (λ word. word == 0) h.reserved

-- The immutable front of `RecoveryStatusWireV1`.
pub record RecoveryHeader : Type 0 where
  pub schema : ℕ
  pub bytes : ℕ
  pub artifact_version : ℕ
  pub pid : ℕ
  pub run_id : List ℕ

pub record RecoveryStatusWire : Type 0 where
  pub header : RecoveryHeader
  pub header_ready : ℕ
  pub owner_sequence : ℕ
  pub payload : ReportRecoveryPayload

-- `sizeof(RecoveryStatusWireV1)`.
abbrev pub recovery_status_bytes : ℕ
recovery_status_bytes = 256

unfoldable pub recovery_header_valid : RecoveryHeader → Bool
unfolding any_byte
recovery_header_valid h =
    h.schema == 1
    && h.bytes == recovery_status_bytes
    && h.artifact_version == recovery_artifact_version
    && not (h.pid == 0)
    && any_byte h.run_id

unfoldable pub same_recovery_header : RecoveryHeader → RecoveryHeader → Bool
same_recovery_header a b =
    a.schema == b.schema
    && a.bytes == b.bytes
    && a.artifact_version == b.artifact_version
    && a.pid == b.pid
    && same a.run_id b.run_id

-- The header of an earlier attempt differs from this one.
unfoldable pub changed : Option RecoveryHeader → RecoveryHeader → Bool
unfolding same_recovery_header
changed none h = false
changed (some seen) h = not (same_recovery_header h seen)

unfoldable pub is_published : Option RecoveryHeader → Bool
is_published none = false
is_published (some seen) = true

pub data RecoverySnapshotResult : Type 0 where
  coherent busy unavailable invalid read_failure : RecoverySnapshotResult

pub record RecoveryReadOps (W : Type 0) : Type 0 where
  pub header_ready : W → W × Option ℕ
  pub header : W → W × Option RecoveryHeader
  pub owner_sequence : W → W × Option ℕ
  pub payload : W → W × Option ReportRecoveryPayload

-- How an attempt ends.
pub data Attempt : Type 0 where
  failed_read : Attempt
  refused : Attempt
  again : Option RecoveryHeader → ℕ → Attempt
  complete : RecoveryStatusWire → Attempt

pub record RecoveryStatusSnapshot : Type 0 where
  pub result : RecoverySnapshotResult
  pub attempts : ℕ
  pub wire : Option RecoveryStatusWire

-- The tests of the second sequence and header.
unfoldable pub conclude :
    RecoveryHeader → ℕ → ReportRecoveryPayload → ℕ → RecoveryHeader → ℕ → Attempt
unfolding same_recovery_header recovery_payload_valid
conclude copy before payload after header_after ready_after =
    if not (ready_after == 1) || not (same_recovery_header copy header_after) || ltb after before
    then Attempt.refused
    else if not (before == after) || after % 2 == 1
    then Attempt.again (some copy) after
    else if not (recovery_payload_valid payload)
    then Attempt.refused
    else Attempt.complete
        (record { header = copy; header_ready = 1; owner_sequence = after; payload = payload })

module _ {W : Type 0} where
  -- A read, and the rest of the attempt when it succeeds.
  unfoldable pub reading : {A : Type 0} → W × Option A → (W → A → W × Attempt) → W × Attempt
  reading (w, none) rest = (w, Attempt.failed_read)
  reading (w, some a) rest = rest w a

  unfoldable pub read_body :
      RecoveryReadOps W → Option RecoveryHeader → ℕ → RecoveryHeader → ℕ → W → W × Attempt
  unfolding reading conclude recovery_header_valid changed
  read_body ops seen highest copy before w =
      if not (recovery_header_valid copy) || changed seen copy || before == 0 || ltb before highest
      then (w, Attempt.refused)
      else if before % 2 == 1
      then (w, Attempt.again (some copy) before)
      else reading (ops.payload w) (λ w1 payload. reading (ops.owner_sequence w1) (λ w2 after.
        reading (ops.header w2) (λ w3 header_after.
          reading (ops.header_ready w3)
            (λ w4 ready_after. (w4, conclude copy before payload after header_after ready_after)))))

  unfoldable pub attempt : RecoveryReadOps W → Option RecoveryHeader → ℕ → W → W × Attempt
  unfolding reading read_body is_published
  attempt ops seen highest w = reading (ops.header_ready w) (λ w1 ready_before.
      if ltb 2 ready_before || is_published seen && not (ready_before == 1)
      then (w1, Attempt.refused)
      else if not (ready_before == 1)
      then (w1, Attempt.again seen highest)
      else reading (ops.header w1) (λ w2 copy.
        reading (ops.owner_sequence w2) (λ w3 before. read_body ops seen highest copy before w3)))

abbrev pub ended : RecoverySnapshotResult → ℕ → RecoveryStatusSnapshot
ended result attempts = record { result = result; attempts = attempts; wire = none }

module _ {W : Type 0} where
  -- What follows an attempt, of which this is the one numbered `made`; `rest` are the attempts left.
  unfoldable pub follow :
      ℕ
      → (Option RecoveryHeader → ℕ → W → W × RecoveryStatusSnapshot)
      → W × Attempt
      → W × RecoveryStatusSnapshot
  follow made rest (w, Attempt.failed_read) = (w, ended RecoverySnapshotResult.read_failure made)
  follow made rest (w, Attempt.refused) = (w, ended RecoverySnapshotResult.invalid made)
  follow made rest (w, Attempt.again seen highest) = rest seen highest w
  follow made rest (w, Attempt.complete wire) =
      (w, record { result = RecoverySnapshotResult.coherent; attempts = made; wire = some wire })

  -- `left` attempts after `made` of them.
  unfoldable pub attempts_from :
      RecoveryReadOps W → ℕ → ℕ → Option RecoveryHeader → ℕ → W → W × RecoveryStatusSnapshot
  unfolding attempt follow is_published
  attempts_from ops made zero seen highest w = (
    w,
    ended
        (if is_published seen
          then RecoverySnapshotResult.busy
          else RecoverySnapshotResult.unavailable)
        made,
  )
  attempts_from ops made (suc left) seen highest w =
      follow (suc made) (attempts_from ops (suc made) left) (attempt ops seen highest w)

  unfoldable pub read_recovery_status : RecoveryReadOps W → W → W × RecoveryStatusSnapshot
  unfolding attempts_from
  read_recovery_status ops w = attempts_from ops 0 3 none 0 w

-- The snapshot is of the process that the identity names.
unfoldable pub matches : StatusHeader → RecoveryStatusWire → Bool
matches identity wire =
    wire.header.pid == identity.pid
    && wire.header.artifact_version == identity.artifact_version
    && same wire.header.run_id identity.run_id

unfoldable pub matched :
    StatusHeader → RecoveryStatusSnapshot → Option RecoveryStatusWire → RecoveryStatusSnapshot
unfolding matches
matched identity snapshot none = ended snapshot.result snapshot.attempts
matched identity snapshot (some wire) =
    if matches identity wire
    then snapshot
    else ended RecoverySnapshotResult.invalid snapshot.attempts

-- The overload with an identity.
unfoldable pub read_matching_recovery_status :
    {W : Type 0} → RecoveryReadOps W → StatusHeader → W → W × RecoveryStatusSnapshot
unfolding reporting_identity_valid read_recovery_status matched
read_matching_recovery_status ops identity w =
    if not (reporting_identity_valid identity)
    then (w, ended RecoverySnapshotResult.invalid 0)
    else let r = read_recovery_status ops w in (r.0, matched identity r.1 r.1.wire)
