-- ===== src/Pipeline.antt =====
-- src/companion/steam_reporting_pipeline.h and .cpp: the frames between the ring of records, the native
-- log and its receipts. The worker prepares frames and matches receipts, the owner peeks and releases;
-- their calls are modelled one after another. The SHA-256 provider is an operation on a world that the
-- caller gives, the text of a record and of the bootstrap are parameters, and the 256 homes of the ledger
-- and the 8 ready slots are functions of the index.
use rs2server_fix.Base.{
  ℕ, zero, suc, ◌+◌, ◌-◌, ◌%◌, ◌^◌, Bool, true, false, not, ◌&&◌, ◌||◌, Option, none, some, List,
  [], ◌∷◌, length, same, ltb, leb, ◌==◌, if◌then◌else◌,
}
use rs2server_fix.Types.{Reason, Diagnostics, uint64_max}
use rs2server_fix.Framing.{message_limit, valid_message}
use rs2server_fix.Receipts.{ReceiptDisposition}
use rs2server_fix.Status.{lose_status}
use rs2server_fix.Status.Wire.{
  TransportReason, transport_reason_code, StatusWireV3, OwnerSnapshotV3,
}
use rs2server_fix.Snapshot.Payload.{flag}
use rs2server_fix.Records.Payload.{
  ReportBuilderPayload, ReportBody, builder_enter, builder_return, builder_unwind, recovery,
  ReportRecordV3,
}
use rs2server_fix.Records.Ring.{ReportRing}
pub mod Prepare
pub mod Ledger
pub mod Kept
pub mod Order
pub mod Run

abbrev pub native_ledger_capacity : ℕ
native_ledger_capacity = 256

abbrev pub native_ready_capacity : ℕ
native_ready_capacity = 8

-- `LedgerState` with the member of the union that it selects.
pub data LedgerState : Type 0 where
  empty reserved : LedgerState
  scalar : ReportRecordV3 → LedgerState
  ready matched : List ℕ → LedgerState

pub record NativeLedgerEntry : Type 0 where
  pub sequence : ℕ
  pub prepared_qpc : ℕ
  pub message_bytes : ℕ
  pub state : LedgerState

-- The message with its length for `chars`.
pub record NativeReadyFrame : Type 0 where
  pub ticket : ℕ
  pub sequence : ℕ
  pub ledger_index : ℕ
  pub message : List ℕ

-- The worker's state on how much a record says.
pub record Detail : Type 0 where
  pub recovery_detail : Bool
  pub terminal_detail_seen : Bool
  pub builder_detail_active : Bool
  pub builder_detail : Bool
  pub builder_post_boundary : Bool
  pub detail_boundary_pairs : ℕ
  pub detail_build_sequence : ℕ
  pub detail_source_epoch : ℕ
  pub detail_binding_epoch : ℕ
  pub detail_overall_deadline_qpc : ℕ

pub record NativePipeline : Type 0 where
  pub has_status : Bool
  pub has_ring : Bool
  pub diagnostics : Diagnostics
  pub ready_write : ℕ
  pub ready_read : ℕ
  pub ledger_read : ℕ
  pub ledger_write : ℕ
  pub next_format : ℕ
  pub prepared_sequence : ℕ
  pub observed_sequence : ℕ
  pub startup_observed : ℕ
  pub held_match : ℕ
  pub initialized : ℕ
  pub detail : Detail
  pub bootstrap : List ℕ
  pub ledger : ℕ → NativeLedgerEntry
  pub ready : ℕ → NativeReadyFrame

-- The pipeline with what its pointers reach.
pub record Machine (W : Type 0) : Type 0 where
  pub pipeline : NativePipeline
  pub ring : ReportRing
  pub status : StatusWireV3
  pub provider : W

-- The text of a record, with or without detail, and the bootstrap with its reason.
pub record Formats (W : Type 0) : Type 0 where
  pub digest : W → List ℕ → W × Option (List ℕ)
  pub format_record : ReportRecordV3 → Bool → Option (List ℕ)
  pub bootstrap : TransportReason × List ℕ

abbrev pub empty_entry : NativeLedgerEntry
empty_entry = record {
  sequence = 0;
  prepared_qpc = 0;
  message_bytes = 0;
  state = LedgerState.empty;
}

unfoldable pub home : {A : Type 0} → ℕ → A → (ℕ → A) → ℕ → A
home i x f j = if j == i then x else f j

unfoldable pub ledger_valid : NativePipeline → Bool
ledger_valid p =
    leb p.ledger_read p.next_format
    && leb p.next_format p.ledger_write
    && leb (p.ledger_write - p.ledger_read) native_ledger_capacity

-- `QueueState`: whether the two counters of the ready queue are in order.
unfoldable pub queue_valid : NativePipeline → Bool
queue_valid p =
    leb p.ready_read p.ready_write && leb (p.ready_write - p.ready_read) native_ready_capacity

unfoldable pub at_recovery : Detail → ℕ → ℕ → ℕ → Detail
unfolding flag
at_recovery d phase flags deadline =
    let e : Detail =
      if phase == 2
      then record d {
        recovery_detail = true;
        terminal_detail_seen = false;
        detail_boundary_pairs = 0;
        detail_overall_deadline_qpc = deadline;
        builder_post_boundary = false;
      }
      else d in
    record e { terminal_detail_seen = e.recovery_detail && flag flags 9 || e.terminal_detail_seen }

unfoldable pub at_enter : Detail → ReportRecordV3 → ℕ → Detail
at_enter d r build = record d {
  builder_detail_active = true;
  builder_detail = d.recovery_detail;
  builder_post_boundary =
      d.recovery_detail
      && (d.terminal_detail_seen
          || not (d.detail_overall_deadline_qpc == 0)
            && leb d.detail_overall_deadline_qpc r.header.qpc);
  detail_build_sequence = build;
  detail_source_epoch = r.header.source_epoch;
  detail_binding_epoch = r.header.binding_epoch;
}

unfoldable pub at_leave : Detail → ReportRecordV3 → ℕ → Bool × Detail
at_leave d r build =
    let matching =
      d.builder_detail_active
      && d.detail_build_sequence == build
      && d.detail_source_epoch == r.header.source_epoch
      && d.detail_binding_epoch == r.header.binding_epoch in
    let pairs =
      if d.builder_post_boundary
      then (d.detail_boundary_pairs + 1) % 2 ^ 32
      else d.detail_boundary_pairs in
    (
      matching && d.builder_detail,
      if matching
          then record d {
            builder_detail_active = false;
            detail_boundary_pairs = pairs;
            recovery_detail = d.recovery_detail && not (d.builder_post_boundary && leb 4 pairs);
          }
          else d,
    )

unfoldable pub detail_of : Detail → ReportRecordV3 → ReportBody → Bool × Detail
unfolding at_recovery at_enter at_leave
detail_of d r (recovery p) = (true, at_recovery d p.phase p.flags p.overall_deadline_qpc)
detail_of d r (builder_enter p) = (d.recovery_detail, at_enter d r p.build_sequence)
detail_of d r (builder_return p) = at_leave d r p.build_sequence
detail_of d r (builder_unwind p) = at_leave d r p.build_sequence
detail_of d r _ = (d.recovery_detail, d)

-- `RecoveryDetail`.
unfoldable pub recovery_detail : Diagnostics → Detail → ReportRecordV3 → Bool × Detail
unfolding detail_of
recovery_detail Diagnostics.operational d r = detail_of d r r.body
recovery_detail _ d r = (false, d)

unfoldable pub frame_valid : NativeReadyFrame → ℕ → Bool
unfolding valid_message
frame_valid slot read =
    slot.ticket == read + 1
    && ltb slot.ledger_index native_ledger_capacity
    && valid_message slot.message

module _ {W : Type 0} where
  -- `Loss`.
  unfoldable pub loss : Machine W → Reason → Machine W
  loss m why = if m.pipeline.has_status then record m { status = lose_status m.status why } else m

  -- The bootstrap takes the first home and the first slot.
  unfoldable pub start_pipeline :
      ℕ → List ℕ → TransportReason → Machine W → TransportReason × Machine W
  unfolding home transport_reason_code
  start_pipeline qpc text reason m =
      if not (transport_reason_code reason == 0) then (reason, m) else (
        TransportReason.none,
        record m {
          pipeline = record m.pipeline {
            has_status = true;
            has_ring = true;
            bootstrap = text;
            ledger_read = 0;
            ledger_write = 1;
            next_format = 1;
            prepared_sequence = 0;
            observed_sequence = 0;
            startup_observed = 0;
            held_match = 0;
            ledger =
                home 0
                  (record {
                    sequence = 0;
                    prepared_qpc = qpc;
                    message_bytes = length text;
                    state = LedgerState.ready [];
                  })
                  m.pipeline.ledger;
            ready =
                home 0 (record { ticket = 1; sequence = 0; ledger_index = 0; message = text })
                  m.pipeline.ready;
            ready_read = 0;
            initialized = 1;
            ready_write = 1;
          };
        },
      )

  -- `same_status` says that the ring points at the status given.
  unfoldable pub initialize_native_pipeline :
      Formats W → Bool → ℕ → Machine W → TransportReason × Machine W
  unfolding start_pipeline
  initialize_native_pipeline formats same_status qpc m =
      if not (m.pipeline.initialized == 0) || qpc == 0 || not same_status || not (m.ring.ready == 1)
      then (TransportReason.profile_unsafe, m)
      else start_pipeline qpc formats.bootstrap.1 formats.bootstrap.0 m

  unfoldable pub peek_native_frame : Machine W → Option NativeReadyFrame × Machine W
  unfolding loss queue_valid frame_valid
  peek_native_frame m =
      let p = m.pipeline in
      let slot = p.ready (p.ready_read % native_ready_capacity) in
      if p.initialized == 0 || not p.has_status
      then (none, m)
      else if not (queue_valid p)
      then (none, loss m Reason.record_loss)
      else if p.ready_write == p.ready_read
      then (none, m)
      else if not (frame_valid slot p.ready_read)
      then (none, loss m Reason.record_loss)
      else (some slot, m)

  unfoldable pub release_peeked : ℕ → Option NativeReadyFrame × Machine W → Bool × Machine W
  unfolding loss
  release_peeked ticket (none, m) = (false, loss m Reason.record_loss)
  release_peeked ticket (some slot, m) =
      if slot.ticket == ticket
      then (true, record m { pipeline = record m.pipeline { ready_read = ticket } })
      else (false, loss m Reason.record_loss)

  unfoldable pub release_native_frame : Machine W → ℕ → Bool × Machine W
  unfolding release_peeked peek_native_frame
  release_native_frame m ticket = release_peeked ticket (peek_native_frame m)

-- A ready entry is of the message: by its digest, or the bootstrap by its bytes.
unfoldable pub entry_matches : NativePipeline → NativeLedgerEntry → List ℕ → List ℕ → List ℕ → Bool
entry_matches p e held message digest =
    if e.sequence == 0 then same message p.bootstrap else same held digest

unfoldable pub mark_matched : NativePipeline → ℕ → NativeLedgerEntry → List ℕ → NativePipeline
unfolding home
mark_matched p ticket e held = record p {
  held_match = 1;
  ledger =
      home (ticket % native_ledger_capacity) (record e { state = LedgerState.matched held })
        p.ledger;
}

-- What the loop does at one entry; `rest` is what it does at those after.
unfoldable pub match_entry :
    NativePipeline
    → ℕ
    → List ℕ
    → List ℕ
    → NativeLedgerEntry
    → LedgerState
    → ReceiptDisposition × NativePipeline
    → ReceiptDisposition × NativePipeline
unfolding entry_matches mark_matched
match_entry p ticket message digest e (LedgerState.ready held) rest =
    if not (e.message_bytes == length message) || not (entry_matches p e held message digest)
    then rest
    else if not (ticket == p.ledger_read)
    then (ReceiptDisposition.gap, p)
    else (ReceiptDisposition.awaiting_submission, mark_matched p ticket e held)
match_entry p ticket message digest e _ rest = rest

unfoldable pub match_from :
    ℕ → ℕ → NativePipeline → List ℕ → List ℕ → ReceiptDisposition × NativePipeline
unfolding match_entry
match_from zero ticket p message digest = (ReceiptDisposition.corrupt, p)
match_from (suc left) ticket p message digest =
    let e = p.ledger (ticket % native_ledger_capacity) in
    match_entry p ticket message digest e e.state (match_from left (suc ticket) p message digest)

module _ {W : Type 0} where
  unfoldable pub match_digest :
      Machine W → List ℕ → W × Option (List ℕ) → ReceiptDisposition × Machine W
  unfolding loss match_from
  match_digest m message (w, none) =
      (ReceiptDisposition.corrupt, loss (record m { provider = w }) Reason.record_loss)
  match_digest m message (w, some digest) =
      let p = m.pipeline in
      let r = match_from (p.next_format - p.ledger_read) p.ledger_read p message digest in
      (r.0, record m { pipeline = r.1; provider = w })

  unfoldable pub match_native_receipt :
      Formats W → Machine W → List ℕ → ReceiptDisposition × Machine W
  unfolding match_digest ledger_valid
  match_native_receipt formats m message =
      let p = m.pipeline in
      if p.initialized == 0
        || not (p.held_match == 0)
        || not (ledger_valid p)
        || p.ledger_read == p.next_format
      then (ReceiptDisposition.corrupt, m)
      else match_digest m message (formats.digest m.provider message)

  -- The home is released, and the next receipt may be matched.
  unfoldable pub release_home : Machine W → NativePipeline → Bool × Machine W
  unfolding home
  release_home m p = (
    true,
    record m {
      pipeline = record p {
        ledger = home (p.ledger_read % native_ledger_capacity) empty_entry p.ledger;
        ledger_read = p.ledger_read + 1;
        held_match = 0;
      };
    },
  )

  unfoldable pub acknowledge_entry :
      Machine W → OwnerSnapshotV3 → NativeLedgerEntry → LedgerState → Bool × Machine W
  unfolding loss release_home
  acknowledge_entry m owner e (LedgerState.matched held) =
      let p = m.pipeline in
      if e.sequence == 0
      then (if owner.transport.startup_submitted == 0
          then (false, m)
          else release_home m (record p { startup_observed = 1 }))
      else if ltb owner.transport.submitted_sequence e.sequence
      then (false, m)
      else if p.startup_observed == 0
          || p.observed_sequence == uint64_max
          || not (e.sequence == p.observed_sequence + 1)
      then (false, loss m Reason.record_loss)
      else release_home m (record p { observed_sequence = e.sequence })
  acknowledge_entry m owner e _ = (false, loss m Reason.record_loss)

  unfoldable pub acknowledge_native_receipt : Machine W → OwnerSnapshotV3 → Bool × Machine W
  unfolding acknowledge_entry ledger_valid
  acknowledge_native_receipt m owner =
      let p = m.pipeline in
      let e = p.ledger (p.ledger_read % native_ledger_capacity) in
      if p.held_match == 0
        || not (ledger_valid p)
        || ltb owner.sequence 2
        || owner.sequence % 2 == 1
      then (false, m)
      else acknowledge_entry m owner e e.state
