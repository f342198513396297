-- ===== src/Records/Ring/Refines.antt =====
-- src/companion/steam_reporting_records.cpp: the ring refines the queue.
use rs2server_fix.Base.{
  ℕ, suc, ◌+◌, ◌-◌, ◌%◌, ◌≤◌, ◌≡◌, refl, sym, subst, ◌∙◌, ap, Bool, true, false, not, ◌||◌, some,
  List, [], ◌∷◌, length, ltb, ◌==◌, if◌then◌else◌, taken, passed_over, arith,
}
use rs2server_fix.Status.Wire.{StatusWireV3}
use rs2server_fix.Records.Payload.{ReportRecordV3}
use rs2server_fix.Records.Ring.{
  ReportReadResult, ReportRing, zero_record, place, initialize_ring, enqueue_report, slot_valid,
  dequeue_report,
}
use rs2server_fix.Records.Ring.Queue.{
  Queue, Answer, queue_write, oldest, queue_read, Call, ring_wrote, ring_got, ring_answers,
  queue_answers,
}
use rs2server_fix.Records.Ring.Slots.{Slots, none_left, next, clear-Slots}
use rs2server_fix.Records.Ring.Writes.{Represents, Alike, moved, in_order, enqueue_report-Alike}

emptied : (w r n : ℕ) → r + n ≡ w → n ≡ 0 → (r == w) ≡ true
emptied w r n e z = ground arith

waits : (w r n : ℕ) → r + suc n ≡ w → (r == w) ≡ false
waits w r n e = ground arith

-- The tests that a reading of a ring in order passes.
opened :
    (ring : ReportRing) (q : Queue) {A : Type 0} (a c d : A)
    → Represents ring q
    → (if not (ring.ready == 1) || not ring.has_status
        then a
        else if ltb ring.report_write_sequence ring.report_read_sequence
            || ltb 256 (ring.report_write_sequence - ring.report_read_sequence)
        then c
        else d)
      ≡ d
opened ring q a c d h =
    let ready = h.ready in
    let bound = h.status in
    passed_over (not (ring.ready == 1) || not ring.has_status) _ _ (ground (arith, ready, bound))
    ∙ passed_over _ _ _
        (in_order ring.report_write_sequence ring.report_read_sequence _ h.counted h.room)

-- The oldest record that waits is in its slot and passes the tests of the reading.
oldest-Alike :
    (ring : ReportRing) (q : Queue) (waiting : List ReportRecordV3) (status : StatusWireV3)
    → Represents ring q
    → q.waiting ≡ waiting
    → Alike (ring_got (dequeue_report true ring status)) (oldest q waiting status)
unfolding dequeue_report oldest ring_got
oldest-Alike ring q [] status h e =
    let counted = h.counted in
    let none_waits : length q.waiting ≡ 0 = ap (λ l. length l) e in
    moved ring_got _ _ _
      (opened ring q _ _ _ h
        ∙ taken (ring.report_read_sequence == ring.report_write_sequence) _ _
            (emptied ring.report_write_sequence ring.report_read_sequence _ counted none_waits))
      (record { answers = refl; states = h; statuses = refl })
oldest-Alike ring q (x ∷ rest) status h e =
    let counted = h.counted in
    let room = h.room in
    let one_more : length q.waiting ≡ suc (length rest) = ap (λ l. length l) e in
    let held : Slots ring.owner_thread_id ring.slots ring.report_read_sequence (x ∷ rest) =
      subst (Slots ring.owner_thread_id ring.slots ring.report_read_sequence) e h.held in
    elim held [
      | next at valid others ↦
          moved ring_got _ _ _
            (opened ring q _ _ _ h
              ∙ passed_over (ring.report_read_sequence == ring.report_write_sequence) _ _ (
                  waits ring.report_write_sequence ring.report_read_sequence (length rest)
                    (omega (arith, counted, one_more)))
              ∙ passed_over
                  (not (
                    slot_valid (ring.slots (ring.report_read_sequence % 256))
                      ring.report_read_sequence ring.owner_thread_id))
                  _ _
                  (ap (λ r. not (slot_valid r ring.report_read_sequence ring.owner_thread_id)) at
                    ∙ ap not valid))
            (record {
              answers = ap (λ r. Answer.read ReportReadResult.record_read (some r)) at;
              states = record {
                ready = h.ready;
                status = h.status;
                owner = h.owner;
                written = h.written;
                counted = omega (arith, counted, one_more);
                room = omega (arith, room, one_more);
                held =
                    subst
                      (λ k.
                        Slots ring.owner_thread_id
                          (place (ring.report_read_sequence % 256) zero_record ring.slots) k rest)
                      (omega arith)
                      (clear-Slots ring.owner_thread_id ring.slots ring.report_read_sequence
                        (suc ring.report_read_sequence) rest others (omega arith)
                        (omega (arith, room, one_more)));
              };
              statuses = refl;
            })
    ]

unasked :
    (ring : ReportRing) (q : Queue) (status : StatusWireV3)
    → Represents ring q
    → Alike (ring_got (dequeue_report false ring status)) (queue_read false q status)
unfolding dequeue_report queue_read ring_got
unasked ring q status h =
    let ready = h.ready in
    let bound = h.status in
    moved ring_got _ _ _
      (passed_over (not (ring.ready == 1) || not ring.has_status) _ _
        (ground (arith, ready, bound)))
      (record { answers = refl; states = h; statuses = refl })

dequeue_report-Alike :
    (wants : Bool) (ring : ReportRing) (q : Queue) (status : StatusWireV3)
    → Represents ring q
    → Alike (ring_got (dequeue_report wants ring status)) (queue_read wants q status)
unfolding queue_read
dequeue_report-Alike true ring q status h = oldest-Alike ring q q.waiting status h refl
dequeue_report-Alike false ring q status h = unasked ring q status h

consed : {x y : Answer} {xs ys : List Answer} → x ≡ y → xs ≡ ys → x ∷ xs ≡ y ∷ ys
consed e f = rw (e, f) refl

-- Equal answers, now and to the calls that follow.
answers_follow :
    (calls : List Call) (ring : ReportRing) (q : Queue) (status : StatusWireV3)
    → Represents ring q
    → ring_answers calls ring status ≡ queue_answers calls q status
unfolding ring_answers queue_answers
answers_follow [] ring q status h = refl
answers_follow (Call.enqueue current wants meanwhile input ∷ calls) ring q status h =
    let a = enqueue_report-Alike current wants meanwhile ring q status input h in
    let r = ring_wrote (enqueue_report current wants meanwhile ring status input) in
    let b = queue_write current wants meanwhile q status input in
    consed a.answers (
      ap (λ st. ring_answers calls r.state st) a.statuses
      ∙ answers_follow calls r.state b.state b.status a.states)
answers_follow (Call.dequeue wants ∷ calls) ring q status h =
    let a = dequeue_report-Alike wants ring q status h in
    let r = ring_got (dequeue_report wants ring status) in
    let b = queue_read wants q status in
    consed a.answers (
      ap (λ st. ring_answers calls r.state st) a.statuses
      ∙ answers_follow calls r.state b.state b.status a.states)
answers_follow (Call.elsewhere f ∷ calls) ring q status h = answers_follow calls ring q (f status) h

-- The queue of a ring that its owner has just initialised.
abbrev pub empty_queue : ℕ → Queue
empty_queue owner = record { owner = owner; accepted_count = 0; waiting = [] }

initialized-Represents :
    (ring : ReportRing) (status : StatusWireV3) (owner : ℕ)
    → 1 ≤ owner
    → ring.ready ≡ 0
    → Represents (initialize_ring ring status owner owner).1 (empty_queue owner)
unfolding initialize_ring
initialized-Represents ring status owner positive fresh =
    subst (λ (r : Bool × ReportRing × StatusWireV3). Represents r.1 (empty_queue owner))
      (sym (
        passed_over (not (ring.ready == 0) || owner == 0) _ _ (ground (arith, fresh, positive))
        ∙ passed_over (not (owner == owner)) _ _ (ground arith)))
      (record {
        ready = refl;
        status = refl;
        owner = refl;
        written = refl;
        counted = refl;
        room = omega arith;
        held = none_left;
      })

-- A ring that its owner initialises answers every list of calls, from any thread and whatever happens
-- to the status between them or during a write, as the bounded queue of canonical records does.
pub ring_answers-queue_answers :
    (ring : ReportRing) (status : StatusWireV3) (owner : ℕ) (calls : List Call)
    → 1 ≤ owner
    → ring.ready ≡ 0
    → ring_answers calls (initialize_ring ring status owner owner).1 status
      ≡ queue_answers calls (empty_queue owner) status
ring_answers-queue_answers ring status owner calls positive fresh =
    answers_follow calls _ _ status (initialized-Represents ring status owner positive fresh)
