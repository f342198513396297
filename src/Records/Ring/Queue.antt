-- ===== src/Records/Ring/Queue.antt =====
-- src/companion/steam_reporting_records.h: what the ring promises its two users, as a bounded queue. The
-- owner appends canonical records, numbered from 1, while fewer than 256 wait; the writer takes the
-- oldest, which is never lost.
use rs2server_fix.Base.{
  ℕ, ◌+◌, Bool, not, ◌||◌, Option, none, some, List, [], ◌∷◌, ◌++◌, length, ◌==◌, if◌then◌else◌,
}
use rs2server_fix.Types.{Reason, uint64_max}
use rs2server_fix.Status.{revoke_status, lose_status}
use rs2server_fix.Status.Wire.{StatusWireV3}
use rs2server_fix.Records.Payload.{ReportRecordV3}
use rs2server_fix.Records.{canonical_record}
use rs2server_fix.Records.Ring.{
  report_record_capacity, ReportWriteResult, ReportReadResult, ReportRing, valid_header,
  valid_recovery, admission, enqueue_report, dequeue_report, Wrote, GotRecord,
}

-- The owner's thread, how many records were accepted so far, and those that wait, the oldest first.
pub record Queue : Type 0 where
  pub owner : ℕ
  pub accepted_count : ℕ
  pub waiting : List ReportRecordV3

-- What a caller is told.
pub data Answer : Type 0 where
  wrote : ReportWriteResult → ℕ → Answer
  read : ReportReadResult → Option ReportRecordV3 → Answer

-- The answer to a call, and the state after it.
pub record Answered {ℓ} (S : Type ℓ) : Type ℓ where
  pub answer : Answer
  pub state : S
  pub status : StatusWireV3

abbrev denied : ReportWriteResult → Queue → StatusWireV3 → Answered Queue
denied why q status = record { answer = Answer.wrote why 0; state = q; status = status }

unfoldable pub append :
    Option ReportWriteResult → Queue → ReportRecordV3 → StatusWireV3 → Answered Queue
append (some why) q r status = denied why q status
append none q r status = record {
  answer = Answer.wrote ReportWriteResult.accepted (q.accepted_count + 1);
  state = record q { waiting = q.waiting ++ r ∷ []; accepted_count = q.accepted_count + 1 };
  status = status;
}

unfoldable pub append_valid :
    Option ReportWriteResult
    → Bool
    → (StatusWireV3 → StatusWireV3)
    → Queue
    → StatusWireV3
    → ReportRecordV3
    → Answered Queue
unfolding append
append_valid (some why) wants meanwhile q status input = denied why q status
append_valid none wants meanwhile q status input =
    if not wants || not (valid_header input) || not (valid_recovery input.header input.body)
    then denied ReportWriteResult.lost q (lose_status status Reason.record_loss)
    else if q.accepted_count == uint64_max
    then denied ReportWriteResult.lost q (lose_status status Reason.counter_overflow)
    else if length q.waiting == report_record_capacity
    then denied ReportWriteResult.lost q (lose_status status Reason.record_loss)
    else append (admission (meanwhile status)) q
        (canonical_record input (q.accepted_count + 1) q.owner) (meanwhile status)

unfoldable pub queue_write :
    ℕ
    → Bool
    → (StatusWireV3 → StatusWireV3)
    → Queue
    → StatusWireV3
    → ReportRecordV3
    → Answered Queue
unfolding append_valid
queue_write current wants meanwhile q status input =
    if not (current == q.owner)
    then denied ReportWriteResult.revoked q (revoke_status status Reason.foreign_thread)
    else append_valid (admission status) wants meanwhile q status input

unfoldable pub oldest : Queue → List ReportRecordV3 → StatusWireV3 → Answered Queue
oldest q [] status = record {
  answer = Answer.read ReportReadResult.empty none;
  state = q;
  status = status;
}
oldest q (r ∷ rest) status = record {
  answer = Answer.read ReportReadResult.record_read (some r);
  state = record q { waiting = rest };
  status = status;
}

unfoldable pub queue_read : Bool → Queue → StatusWireV3 → Answered Queue
unfolding oldest
queue_read wants q status =
    if not wants
    then record {
      answer = Answer.read ReportReadResult.lost none;
      state = q;
      status = lose_status status Reason.record_loss;
    }
    else oldest q q.waiting status

-- A call, or what anything else does to the status block.
pub data Call : Type 0 where
  enqueue : ℕ → Bool → (StatusWireV3 → StatusWireV3) → ReportRecordV3 → Call
  dequeue : Bool → Call
  elsewhere : (StatusWireV3 → StatusWireV3) → Call

unfoldable pub ring_wrote : Wrote → Answered ReportRing
ring_wrote w = record {
  answer = Answer.wrote w.result w.accepted_sequence;
  state = w.ring;
  status = w.status;
}

unfoldable pub ring_got : GotRecord → Answered ReportRing
ring_got g = record { answer = Answer.read g.result g.output; state = g.ring; status = g.status }

-- The answers of the ring, and of the queue, to a list of calls.
unfoldable pub ring_answers : List Call → ReportRing → StatusWireV3 → List Answer
unfolding ring_wrote ring_got
ring_answers [] ring status = []
ring_answers (Call.enqueue current wants meanwhile input ∷ calls) ring status =
    let a = ring_wrote (enqueue_report current wants meanwhile ring status input) in
    a.answer ∷ ring_answers calls a.state a.status
ring_answers (Call.dequeue wants ∷ calls) ring status =
    let a = ring_got (dequeue_report wants ring status) in
    a.answer ∷ ring_answers calls a.state a.status
ring_answers (Call.elsewhere f ∷ calls) ring status = ring_answers calls ring (f status)

unfoldable pub queue_answers : List Call → Queue → StatusWireV3 → List Answer
unfolding queue_write queue_read
queue_answers [] q status = []
queue_answers (Call.enqueue current wants meanwhile input ∷ calls) q status =
    let a = queue_write current wants meanwhile q status input in
    a.answer ∷ queue_answers calls a.state a.status
queue_answers (Call.dequeue wants ∷ calls) q status =
    let a = queue_read wants q status in a.answer ∷ queue_answers calls a.state a.status
queue_answers (Call.elsewhere f ∷ calls) q status = queue_answers calls q (f status)
