-- ===== src/Examples/Records.antt =====
-- A record of an entry into the builder, with a stale reserved word and a prepared read that is out of
-- range.
use rs2server_fix.Base.{◌≡◌, refl, true, false, none, some, List, [], ◌∷◌, arith}
use rs2server_fix.Status.{status_revoked}
use rs2server_fix.Examples.Status.{blank}
use rs2server_fix.Records.Payload.{ReportRecordV3, builder_enter}
use rs2server_fix.Records.{canonical_record}
use rs2server_fix.Records.Ring.{
  ReportWriteResult, ReportReadResult, ReportRing, zero_record, initialize_ring, admission,
  valid_header, valid_recovery,
}
use rs2server_fix.Records.Ring.Queue.{Answer, Call, ring_answers, queue_answers}
use rs2server_fix.Records.Ring.Refines.{empty_queue, ring_answers-queue_answers}
use rs2server_fix.Records.Sound.{IsCopy, canonical_record-IsCopy}

abbrev entry : ReportRecordV3
entry = record {
  header = record {
    sequence = 0;
    qpc = 0;
    source_epoch = 0;
    binding_epoch = 0;
    reason = 0;
    flags = 0;
    thread_id = 0;
  };
  body = builder_enter (record {
    build_sequence = 40;
    request_sequence = 40;
    witness_sequence = 40;
    source_age_ticks = 40;
    probe_elapsed_ticks = 40;
    classification_elapsed_ticks = 40;
    original_elapsed_ticks = 40;
    entry_qpc = 40;
    return_qpc = 40;
    pi = 40;
    bots = 40;
    maximum = 40;
    classification = 40;
    selected = 40;
    result = 40;
    pending = 40;
    fresh = 40;
    prepared_valid = 1;
    prepared_mismatch_mask = 40;
    prepared_maximum = 40;
    prepared_members = 40;
    prepared_pi = 40;
    prepared_bots = 40;
    prepared_json_maximum = 40;
    prepared_json_bytes = 40;
    prepared_dirty_valid = 40;
    prepared_dirty_at_entry = 40;
    reserved = 7 ∷ [];
  });
}

canonical_record-IsCopy_example :
    IsCopy entry.body (canonical_record entry 4 9).body
    × ((canonical_record entry 4 9).header ≡ record entry.header { sequence = 4; thread_id = 9 })
canonical_record-IsCopy_example = canonical_record-IsCopy entry 4 9

-- A ring, a record of it and two calls.
abbrev unready : ReportRing
unready = record {
  has_status = false;
  owner_thread_id = 0;
  ready = 0;
  report_write_sequence = 0;
  report_read_sequence = 0;
  slots = λ i. zero_record;
}

abbrev two_calls : List Call
two_calls = Call.enqueue 9 true (λ s. s) entry ∷ Call.dequeue true ∷ Call.dequeue true ∷ []

two_calls_answered :
    queue_answers two_calls (empty_queue 9) blank
    ≡ Answer.wrote ReportWriteResult.accepted 1
      ∷ Answer.read ReportReadResult.record_read (some (canonical_record entry 1 9))
      ∷ Answer.read ReportReadResult.empty none
      ∷ []
unfolding queue_answers status_revoked admission valid_header valid_recovery
two_calls_answered = refl

ring_answers-queue_answers_example :
    ring_answers two_calls (initialize_ring unready blank 9 9).1 blank
    ≡ queue_answers two_calls (empty_queue 9) blank
ring_answers-queue_answers_example =
    ring_answers-queue_answers unready blank 9 two_calls (omega arith) refl
