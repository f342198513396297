-- ===== src/Records/Ring/Writes.antt =====
-- src/companion/steam_reporting_records.cpp: a write into the ring does what one into the queue does.
use rs2server_fix.Base.{
  ℕ, ◌+◌, ◌-◌, ◌%◌, ◌≤◌, ◌<◌, ◌≡◌, refl, sym, subst, ◌∙◌, ap, Bool, true, false, not, ◌&&◌, ◌||◌,
  Option, none, some, [], ◌∷◌, ◌++◌, length, length-append, ltb, ◌==◌, branches, passed_over, arith,
}
use rs2server_fix.Types.{Reason, reason_count, uint64_max}
use rs2server_fix.Status.{revoke_status, lose_status}
use rs2server_fix.Status.Wire.{StatusWireV3}
use rs2server_fix.Records.Payload.{
  ReportHeader, ReportBody, state, request, witness, builder_enter, builder_return, builder_unwind,
  anchor, transport_summary, control, recovery, unknown, ReportRecordV3,
}
use rs2server_fix.Records.{canonical_recovery, canonical_body, canonical_record}
use rs2server_fix.Records.Ring.{
  ReportWriteResult, ReportRing, kind_known, valid_header, valid_recovery, admission, place,
  store_record, write_record, enqueue_report, slot_valid,
}
use rs2server_fix.Records.Ring.Queue.{
  Queue, Answer, Answered, append, append_valid, queue_write, ring_wrote,
}
use rs2server_fix.Records.Ring.Slots.{Slots, append-Slots}

pub record Represents (ring : ReportRing) (q : Queue) : Type 0 where
  pub ready : ring.ready ≡ 1
  pub status : ring.has_status ≡ true
  pub owner : ring.owner_thread_id ≡ q.owner
  pub written : ring.report_write_sequence ≡ q.accepted_count
  pub counted : ring.report_read_sequence + length q.waiting ≡ ring.report_write_sequence
  pub room : length q.waiting ≤ 256
  pub held : Slots ring.owner_thread_id ring.slots ring.report_read_sequence q.waiting

-- The same answer and status, and states that represent each other.
pub record Alike (a : Answered ReportRing) (b : Answered Queue) : Type 0 where
  pub answers : a.answer ≡ b.answer
  pub states : Represents a.state b.state
  pub statuses : a.status ≡ b.status

-- What a call computes to may be compared in its place.
pub moved :
    {A : Type 0} (f : A → Answered ReportRing) (x y : A) (b : Answered Queue)
    → x ≡ y
    → Alike (f y) b
    → Alike (f x) b
moved f x y b e h = subst (λ z. Alike (f z) b) (sym e) h

valid_recovery-canonical :
    (h : ReportHeader) (n o : ℕ) (b : ReportBody)
    → valid_recovery (record h { sequence = n; thread_id = o }) (canonical_body b)
      ≡ valid_recovery h b
unfolding canonical_body canonical_recovery valid_recovery
valid_recovery-canonical h n o (state a) = refl
valid_recovery-canonical h n o (request a) = refl
valid_recovery-canonical h n o (witness a) = refl
valid_recovery-canonical h n o (builder_enter a) = refl
valid_recovery-canonical h n o (builder_return a) = refl
valid_recovery-canonical h n o (builder_unwind a) = refl
valid_recovery-canonical h n o (anchor a) = refl
valid_recovery-canonical h n o (transport_summary a) = refl
valid_recovery-canonical h n o (control a) = refl
valid_recovery-canonical h n o (recovery a) = refl
valid_recovery-canonical h n o (unknown k) = refl

kind_known-canonical : (b : ReportBody) → kind_known (canonical_body b) ≡ kind_known b
unfolding canonical_body kind_known
kind_known-canonical (state a) = refl
kind_known-canonical (request a) = refl
kind_known-canonical (witness a) = refl
kind_known-canonical (builder_enter a) = refl
kind_known-canonical (builder_return a) = refl
kind_known-canonical (builder_unwind a) = refl
kind_known-canonical (anchor a) = refl
kind_known-canonical (transport_summary a) = refl
kind_known-canonical (control a) = refl
kind_known-canonical (recovery a) = refl
kind_known-canonical (unknown k) = refl

tests_passed :
    (wants valid known : Bool)
    → (not wants || not valid || not known) ≡ false
    → (valid ≡ true) × (known ≡ true)
tests_passed wants valid known h = (ground arith, ground arith)

header_tests : (a b c : Bool) → (a && b && c) ≡ true → (b ≡ true) × (c ≡ true)
header_tests a b c h = (ground arith, ground arith)

all_five :
    (n o : ℕ) (b c d : Bool)
    → b ≡ true
    → c ≡ true
    → d ≡ true
    → (n + 1 == n + 1 && b && c && o == o && d) ≡ true
all_five n o b c d hb hc hd = ground arith

-- A record that passes the tests of a write makes a slot that passes those of the reading.
canonical-slot_valid :
    (input : ReportRecordV3) (n o : ℕ)
    → valid_header input ≡ true
    → valid_recovery input.header input.body ≡ true
    → slot_valid (canonical_record input (n + 1) o) n o ≡ true
unfolding slot_valid canonical_record valid_header
canonical-slot_valid input n o h v =
    let t =
      header_tests (input.header.sequence == 0) (kind_known input.body)
        (ltb input.header.reason reason_count) h in
    all_five n o _ _ _ (kind_known-canonical input.body ∙ t.0) t.1
      (valid_recovery-canonical input.header (n + 1) o input.body ∙ v)

stored-Alike :
    (why : Option ReportWriteResult) (ring : ReportRing) (q : Queue) (input : ReportRecordV3)
    (status : StatusWireV3)
    → Represents ring q
    → valid_header input ≡ true
    → valid_recovery input.header input.body ≡ true
    → length q.waiting < 256
    → Alike
        (ring_wrote (
          store_record why ring
            (canonical_record input (ring.report_write_sequence + 1) ring.owner_thread_id)
            status))
        (append why q (canonical_record input (q.accepted_count + 1) q.owner) status)
unfolding store_record append ring_wrote
stored-Alike (some why) ring q input status h v w small = record {
  answers = refl;
  states = h;
  statuses = refl;
}
stored-Alike none ring q input status h v w small =
    let written = h.written in
    let owner = h.owner in
    let counted = h.counted in
    let r = canonical_record input (ring.report_write_sequence + 1) ring.owner_thread_id in
    let same_record : r ≡ canonical_record input (q.accepted_count + 1) q.owner =
      rw (written, owner) refl in
    record {
      answers = ap (λ n. Answer.wrote ReportWriteResult.accepted (n + 1)) written;
      states = record {
        ready = h.ready;
        status = h.status;
        owner = owner;
        written = ap (λ n. n + 1) written;
        counted =
            let l =
              length-append q.waiting
                (canonical_record input (q.accepted_count + 1) q.owner ∷ []) in
            omega (arith, l, counted);
        room =
            let l =
              length-append q.waiting
                (canonical_record input (q.accepted_count + 1) q.owner ∷ []) in
            omega (arith, l, small);
        held =
            subst
              (λ x.
                Slots ring.owner_thread_id (place (ring.report_write_sequence % 256) r ring.slots)
                  ring.report_read_sequence (q.waiting ++ x ∷ []))
              same_record
              (append-Slots ring.owner_thread_id ring.slots ring.report_read_sequence
                ring.report_write_sequence q.waiting r h.held (sym counted) small
                (canonical-slot_valid input ring.report_write_sequence ring.owner_thread_id v w));
      };
      statuses = refl;
    }

-- A refusal changes nothing but the status.
refused-Alike :
    (why : ReportWriteResult) (ring : ReportRing) (q : Queue) (status : StatusWireV3)
    → Represents ring q
    → Alike
        (ring_wrote (record { result = why; accepted_sequence = 0; ring = ring; status = status }))
        (record { answer = Answer.wrote why 0; state = q; status = status })
unfolding ring_wrote
refused-Alike why ring q status h = record { answers = refl; states = h; statuses = refl }

abbrev Lift {ℓ} : {A B C : Type 0} → (A → C) → (C → B → Type ℓ) → A → B → Type ℓ
Lift f R a b = R (f a) b

pub in_order : (w r n : ℕ) → r + n ≡ w → n ≤ 256 → (ltb w r || ltb 256 (w - r)) ≡ false
in_order w r n e small = ground arith

full_when : (w r n : ℕ) → r + n ≡ w → (n == 256) ≡ (w - r == 256)
full_when w r n e = ground arith

not_full : (n : ℕ) → n ≤ 256 → (n == 256) ≡ false → n < 256
not_full n a b = ground arith

written-Alike :
    (why : Option ReportWriteResult) (wants : Bool) (meanwhile : StatusWireV3 → StatusWireV3)
    (ring : ReportRing) (q : Queue) (status : StatusWireV3) (input : ReportRecordV3)
    → Represents ring q
    → Alike
        (ring_wrote (write_record why wants meanwhile ring status input))
        (append_valid why wants meanwhile q status input)
unfolding write_record append_valid
written-Alike (some why) wants meanwhile ring q status input h = refused-Alike why ring q status h
written-Alike none wants meanwhile ring q status input h =
    let counted = h.counted in
    let room = h.room in
    let w = ring.report_write_sequence in
    let r = ring.report_read_sequence in
    let sorted = in_order w r (length q.waiting) counted room in
    branches (Lift ring_wrote Alike)
      (not wants || not (valid_header input) || not (valid_recovery input.header input.body)) _ refl
      _ _ _ _
      (λ _. refused-Alike ReportWriteResult.lost ring q (lose_status status Reason.record_loss) h)
      λ e.
        let valid = tests_passed wants _ _ e in
        moved ring_wrote _ _ _ (passed_over _ _ _ sorted) (
          branches (Lift ring_wrote Alike) (w == uint64_max) _
            (ap (λ n. n == uint64_max) (sym h.written)) _ _ _ _
            (λ _.
              refused-Alike ReportWriteResult.lost ring q
                (lose_status status Reason.counter_overflow) h)
            λ _.
              branches (Lift ring_wrote Alike) (w - r == 256) _ (full_when w r _ counted) _ _ _ _
                (λ _.
                  refused-Alike ReportWriteResult.lost ring q
                    (lose_status status Reason.record_loss) h)
                λ f.
                  stored-Alike (admission (meanwhile status)) ring q input (meanwhile status) h
                    valid.0 valid.1 (not_full _ room (full_when w r _ counted ∙ f)))

pub enqueue_report-Alike :
    (current : ℕ) (wants : Bool) (meanwhile : StatusWireV3 → StatusWireV3) (ring : ReportRing)
    (q : Queue) (status : StatusWireV3) (input : ReportRecordV3)
    → Represents ring q
    → Alike
        (ring_wrote (enqueue_report current wants meanwhile ring status input))
        (queue_write current wants meanwhile q status input)
unfolding enqueue_report queue_write
enqueue_report-Alike current wants meanwhile ring q status input h =
    let ready = h.ready in
    let bound = h.status in
    moved ring_wrote _ _ _
      (passed_over (not (ring.ready == 1) || not ring.has_status) _ _
        (ground (arith, ready, bound)))
      (branches (Lift ring_wrote Alike) (not (current == ring.owner_thread_id)) _
        (ap (λ n. not (current == n)) (sym h.owner)) _ _ _ _
        (λ _.
          refused-Alike ReportWriteResult.revoked ring q
            (revoke_status status Reason.foreign_thread) h)
        λ _. written-Alike (admission status) wants meanwhile ring q status input h)
