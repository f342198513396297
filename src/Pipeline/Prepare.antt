-- ===== src/Pipeline/Prepare.antt =====
-- src/companion/steam_reporting_pipeline.cpp: `PrepareNativeFrames`, which drains the ring into the
-- ledger and formats what it drained into the ready slots.
use rs2server_fix.Base.{
  ℕ, zero, suc, ◌+◌, ◌-◌, ◌%◌, Bool, true, false, not, ◌||◌, Option, none, some, List, length, leb,
  ◌==◌, if◌then◌else◌,
}
use rs2server_fix.Types.{Reason, uint64_max}
use rs2server_fix.Framing.{message_limit, prepare_message}
use rs2server_fix.Records.Payload.{ReportRecordV3}
use rs2server_fix.Records.Ring.{ReportReadResult, GotRecord, dequeue_report}
use rs2server_fix.Pipeline.{
  native_ledger_capacity, native_ready_capacity, LedgerState, NativeLedgerEntry, Machine, Formats,
  empty_entry, home, ledger_valid, queue_valid, recovery_detail, loss,
}

abbrev pub report_batch_limit : ℕ
report_batch_limit = 32

unfoldable pub is_empty : LedgerState → Bool
is_empty LedgerState.empty = true
is_empty _ = false

-- The entry of a record that the ring returned.
abbrev pub scalar_entry : ReportRecordV3 → NativeLedgerEntry
scalar_entry r = record {
  sequence = r.header.sequence;
  prepared_qpc = 0;
  message_bytes = 0;
  state = LedgerState.scalar r;
}

module _ {W : Type 0} where
  -- The ring and the status after a reading, and an entry in the home of the next ticket.
  unfoldable pub after_reading : Machine W → GotRecord → NativeLedgerEntry → Machine W
  unfolding home
  after_reading m got e = record m {
    ring = got.ring;
    status = got.status;
    pipeline = record m.pipeline {
      ledger = home (m.pipeline.ledger_write % native_ledger_capacity) e m.pipeline.ledger;
    };
  }

  unfoldable pub one_more : Machine W → Machine W
  one_more m = record m {
    pipeline = record m.pipeline { ledger_write = m.pipeline.ledger_write + 1 };
  }

  -- The rest of a round of the first loop, by what the ring returned.
  unfoldable pub drained :
      Machine W
      → GotRecord
      → ReportReadResult
      → Option ReportRecordV3
      → (Machine W → Bool × Machine W)
      → Bool × Machine W
  unfolding after_reading one_more loss
  drained m got ReportReadResult.empty output rest = (true, after_reading m got empty_entry)
  drained m got ReportReadResult.record_read (some r) rest =
      rest (one_more (after_reading m got (scalar_entry r)))
  drained m got _ output rest = (false, loss (after_reading m got empty_entry) Reason.record_loss)

  unfoldable pub drain : ℕ → Machine W → Bool × Machine W
  unfolding is_empty drained loss
  drain zero m = (true, m)
  drain (suc left) m =
      let p = m.pipeline in
      let got = dequeue_report true m.ring m.status in
      let next = drained m got got.result got.output (drain left) in
      if leb native_ledger_capacity (p.ledger_write - p.ledger_read)
      then (true, m)
      else if p.ledger_write == uint64_max
      then (false, loss m Reason.counter_overflow)
      else if not (is_empty (p.ledger (p.ledger_write % native_ledger_capacity)).state)
      then (false, loss m Reason.record_loss)
      else next

  -- The frame is published, with its digest in the ledger in place of the record.
  unfoldable pub publish_frame : Machine W → ℕ → NativeLedgerEntry → List ℕ → List ℕ → Machine W
  unfolding home
  publish_frame m qpc e message digest =
      let p = m.pipeline in
      let index = p.next_format % native_ledger_capacity in
      let announced : NativeLedgerEntry = record {
        sequence = e.sequence;
        prepared_qpc = qpc;
        message_bytes = length message;
        state = LedgerState.ready digest;
      } in
      record m {
        pipeline = record p {
          ready =
              home (p.ready_write % native_ready_capacity)
                (record {
                  ticket = p.ready_write + 1;
                  sequence = e.sequence;
                  ledger_index = index;
                  message = message;
                })
                p.ready;
          ledger = home index announced p.ledger;
          prepared_sequence = e.sequence;
          next_format = p.next_format + 1;
          ready_write = p.ready_write + 1;
        };
      }

  -- With the message, where it fits the slot.
  unfoldable pub place_frame :
      Machine W
      → ℕ
      → NativeLedgerEntry
      → List ℕ
      → Option (List ℕ)
      → (Machine W → Bool × Machine W)
      → Bool × Machine W
  unfolding publish_frame loss
  place_frame m qpc e digest none rest = (false, loss m Reason.record_loss)
  place_frame m qpc e digest (some message) rest = rest (publish_frame m qpc e message digest)

  -- With the digest of the text.
  unfoldable pub digested :
      Machine W
      → ℕ
      → NativeLedgerEntry
      → List ℕ
      → W × Option (List ℕ)
      → (Machine W → Bool × Machine W)
      → Bool × Machine W
  unfolding place_frame prepare_message loss
  digested m qpc e text (w, none) rest =
      (false, loss (record m { provider = w }) Reason.record_loss)
  digested m qpc e text (w, some digest) rest =
      place_frame (record m { provider = w }) qpc e digest
        (prepare_message text (message_limit + 1)) rest

  -- With the text of the record.
  unfoldable pub formatted :
      Formats W
      → Machine W
      → ℕ
      → NativeLedgerEntry
      → Option (List ℕ)
      → (Machine W → Bool × Machine W)
      → Bool × Machine W
  unfolding digested loss
  formatted formats m qpc e none rest = (false, loss m Reason.record_loss)
  formatted formats m qpc e (some text) rest =
      digested m qpc e text (formats.digest m.provider text) rest

  -- With the entry at the next ticket.
  unfoldable pub format_entry :
      Formats W
      → Machine W
      → ℕ
      → NativeLedgerEntry
      → LedgerState
      → (Machine W → Bool × Machine W)
      → Bool × Machine W
  unfolding formatted recovery_detail loss
  format_entry formats m qpc e (LedgerState.scalar r) rest =
      let p = m.pipeline in
      let d = recovery_detail p.diagnostics p.detail r in
      if p.prepared_sequence == uint64_max || not (e.sequence == p.prepared_sequence + 1)
      then (false, loss m Reason.record_loss)
      else formatted formats (record m { pipeline = record p { detail = d.1 } }) qpc e
          (formats.format_record r d.0) rest
  format_entry formats m qpc e _ rest = (false, loss m Reason.record_loss)

  -- The second loop, on fuel.
  unfoldable pub format_frames : Formats W → ℕ → ℕ → Machine W → Bool × Machine W
  unfolding format_entry queue_valid loss
  format_frames formats qpc zero m = (true, m)
  format_frames formats qpc (suc fuel) m =
      let p = m.pipeline in
      let e = p.ledger (p.next_format % native_ledger_capacity) in
      let next = format_entry formats m qpc e e.state (format_frames formats qpc fuel) in
      if leb p.ledger_write p.next_format
      then (true, m)
      else if not (queue_valid p)
      then (false, loss m Reason.record_loss)
      else if p.ready_write - p.ready_read == native_ready_capacity
      then (true, m)
      else if p.ready_write == uint64_max
      then (false, loss m Reason.counter_overflow)
      else next

  unfoldable pub then_format : Formats W → ℕ → Bool × Machine W → Bool × Machine W
  unfolding format_frames
  then_format formats qpc (false, m) = (false, m)
  then_format formats qpc (true, m) =
      format_frames formats qpc (m.pipeline.ledger_write - m.pipeline.next_format) m

  unfoldable pub prepare_native_frames : Formats W → ℕ → Machine W → Bool × Machine W
  unfolding then_format drain ledger_valid loss
  prepare_native_frames formats qpc m =
      let p = m.pipeline in
      if p.initialized == 0 || not p.has_status || not p.has_ring || qpc == 0
      then (false, m)
      else if not (ledger_valid p)
      then (false, loss m Reason.record_loss)
      else then_format formats qpc (drain report_batch_limit m)
