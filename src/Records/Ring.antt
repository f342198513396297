-- ===== src/Records/Ring.antt =====
-- src/companion/steam_reporting_records.cpp: the ring between the owner, which enqueues, and the writer,
-- which dequeues, for the records of the schema 3, one call after another. The 256 slots are a function
-- of the index, and the status block that the ring points at stands beside it. `wants` says that the
-- caller gave a place for the output.
use rs2server_fix.Base.{
  ℕ, suc, ◌+◌, ◌-◌, ◌%◌, Bool, true, false, not, ◌&&◌, ◌||◌, Option, none, some, ltb, leb, ◌==◌,
  if◌then◌else◌,
}
use rs2server_fix.Types.{Reason, reason_count, uint64_max}
use rs2server_fix.Status.{revoke_status, lose_status, status_revoked}
use rs2server_fix.Status.Wire.{StatusWireV3}
use rs2server_fix.Snapshot.Payload.{recovery_payload_valid}
use rs2server_fix.Records.Payload.{
  ReportHeader, ReportRecoveryPayload, ReportBody, recovery, unknown, ReportRecordV3,
}
use rs2server_fix.Records.{canonical_record}
pub mod Queue
pub mod Slots
pub mod Writes
pub mod Refines

abbrev pub report_record_capacity : ℕ
report_record_capacity = 256

pub data ReportWriteResult : Type 0 where
  accepted stopping revoked unavailable lost : ReportWriteResult

pub data ReportReadResult : Type 0 where
  record_read empty unavailable lost : ReportReadResult

pub record ReportRing : Type 0 where
  pub has_status : Bool
  pub owner_thread_id : ℕ
  pub ready : ℕ
  pub report_write_sequence : ℕ
  pub report_read_sequence : ℕ
  pub slots : ℕ → ReportRecordV3

abbrev pub zero_record : ReportRecordV3
zero_record = record {
  header = record {
    sequence = 0;
    qpc = 0;
    source_epoch = 0;
    binding_epoch = 0;
    reason = 0;
    flags = 0;
    thread_id = 0;
  };
  body = unknown 0;
}

unfoldable pub kind_known : ReportBody → Bool
kind_known (unknown k) = false
kind_known _ = true

unfoldable pub valid_header : ReportRecordV3 → Bool
unfolding kind_known
valid_header input =
    input.header.sequence == 0 && kind_known input.body && ltb input.header.reason reason_count

unfoldable pub valid_recovery : ReportHeader → ReportBody → Bool
valid_recovery header (recovery p) =
    header.reason == 0 && header.flags == 0 && p.record_sequence == 0 && recovery_payload_valid p
valid_recovery header _ = true

-- `Admission`: why a write is refused, if it is.
unfoldable pub admission : StatusWireV3 → Option ReportWriteResult
admission status =
    if not (status.stopping == 0)
    then some ReportWriteResult.stopping
    else if status_revoked status
    then some ReportWriteResult.revoked
    else none

unfoldable pub place : ℕ → ReportRecordV3 → (ℕ → ReportRecordV3) → ℕ → ReportRecordV3
place i r slots j = if j == i then r else slots j

-- `InitializeReportRing` for the V3 ring, called on the thread `current`.
unfoldable pub initialize_ring :
    ReportRing → StatusWireV3 → ℕ → ℕ → Bool × ReportRing × StatusWireV3
initialize_ring ring status current owner =
    if not (ring.ready == 0) || owner == 0
    then (false, ring, status)
    else if not (current == owner)
    then (false, ring, revoke_status status Reason.foreign_thread)
    else (
      true,
      record {
        has_status = true;
        owner_thread_id = owner;
        ready = 1;
        report_write_sequence = 0;
        report_read_sequence = 0;
        slots = λ i. zero_record;
      },
      status,
    )

-- What a call of `EnqueueReport` returns, with the sequence that it stores, and leaves.
pub record Wrote : Type 0 where
  pub result : ReportWriteResult
  pub accepted_sequence : ℕ
  pub ring : ReportRing
  pub status : StatusWireV3

abbrev refused : ReportWriteResult → ReportRing → StatusWireV3 → Wrote
refused result ring status = record {
  result = result;
  accepted_sequence = 0;
  ring = ring;
  status = status;
}

unfoldable pub store_record :
    Option ReportWriteResult → ReportRing → ReportRecordV3 → StatusWireV3 → Wrote
unfolding place
store_record (some why) ring r status = refused why ring status
store_record none ring r status = record {
  result = ReportWriteResult.accepted;
  accepted_sequence = ring.report_write_sequence + 1;
  ring = record ring {
    slots = place (ring.report_write_sequence % report_record_capacity) r ring.slots;
    report_write_sequence = ring.report_write_sequence + 1;
  };
  status = status;
}

-- The tests of an admitted write. `meanwhile` is what others do to the status before the last one.
unfoldable pub write_record :
    Option ReportWriteResult
    → Bool
    → (StatusWireV3 → StatusWireV3)
    → ReportRing
    → StatusWireV3
    → ReportRecordV3
    → Wrote
unfolding store_record valid_header valid_recovery
write_record (some why) wants meanwhile ring status input = refused why ring status
write_record none wants meanwhile ring status input =
    let written = ring.report_write_sequence in
    let read = ring.report_read_sequence in
    if not wants || not (valid_header input) || not (valid_recovery input.header input.body)
    then refused ReportWriteResult.lost ring (lose_status status Reason.record_loss)
    else if ltb written read || ltb report_record_capacity (written - read)
    then refused ReportWriteResult.lost ring (lose_status status Reason.record_loss)
    else if written == uint64_max
    then refused ReportWriteResult.lost ring (lose_status status Reason.counter_overflow)
    else if written - read == report_record_capacity
    then refused ReportWriteResult.lost ring (lose_status status Reason.record_loss)
    else store_record (admission (meanwhile status)) ring
        (canonical_record input (written + 1) ring.owner_thread_id) (meanwhile status)

unfoldable pub enqueue_report :
    ℕ → Bool → (StatusWireV3 → StatusWireV3) → ReportRing → StatusWireV3 → ReportRecordV3 → Wrote
unfolding write_record admission
enqueue_report current wants meanwhile ring status input =
    if not (ring.ready == 1) || not ring.has_status
    then refused ReportWriteResult.unavailable ring status
    else if not (current == ring.owner_thread_id)
    then refused ReportWriteResult.revoked ring (revoke_status status Reason.foreign_thread)
    else write_record (admission status) wants meanwhile ring status input

pub record GotRecord : Type 0 where
  pub result : ReportReadResult
  pub output : Option ReportRecordV3
  pub ring : ReportRing
  pub status : StatusWireV3

abbrev nothing : ReportReadResult → ReportRing → StatusWireV3 → GotRecord
nothing result ring status = record { result = result; output = none; ring = ring; status = status }

-- The slot holds the record of that sequence.
unfoldable pub slot_valid : ReportRecordV3 → ℕ → ℕ → Bool
unfolding kind_known valid_recovery
slot_valid slot read owner =
    slot.header.sequence == read + 1
    && kind_known slot.body
    && ltb slot.header.reason reason_count
    && slot.header.thread_id == owner
    && valid_recovery slot.header slot.body

unfoldable pub dequeue_report : Bool → ReportRing → StatusWireV3 → GotRecord
unfolding slot_valid place
dequeue_report wants ring status =
    let written = ring.report_write_sequence in
    let read = ring.report_read_sequence in
    let slot = ring.slots (read % report_record_capacity) in
    if not (ring.ready == 1) || not ring.has_status
    then nothing ReportReadResult.unavailable ring status
    else if not wants
    then nothing ReportReadResult.lost ring (lose_status status Reason.record_loss)
    else if ltb written read || ltb report_record_capacity (written - read)
    then nothing ReportReadResult.lost ring (lose_status status Reason.record_loss)
    else if read == written
    then nothing ReportReadResult.empty ring status
    else if not (slot_valid slot read ring.owner_thread_id)
    then nothing ReportReadResult.lost ring (lose_status status Reason.record_loss)
    else record {
      result = ReportReadResult.record_read;
      output = some slot;
      ring = record ring {
        slots = place (read % report_record_capacity) zero_record ring.slots;
        report_read_sequence = read + 1;
      };
      status = status;
    }
