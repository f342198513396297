-- ===== src/Pipeline/Kept.antt =====
-- src/companion/steam_reporting_pipeline.cpp: every call keeps the ledger and the queue in order.
use rs2server_fix.Base.{
  ℕ, zero, suc, ◌+◌, ◌-◌, ◌%◌, ◌≤◌, ◌<◌, ◌≡◌, inl, inr, ◌∙◌, Bool, true, false, not, ◌||◌, Option,
  none, some, List, leb, ◌==◌, pick, arith,
}
use rs2server_fix.Types.{Reason, uint64_max}
use rs2server_fix.Records.Payload.{ReportRecordV3}
use rs2server_fix.Records.Ring.{ReportReadResult, GotRecord, dequeue_report}
use rs2server_fix.Pipeline.{
  LedgerState, NativeLedgerEntry, Machine, Formats, empty_entry, ledger_valid, queue_valid,
  recovery_detail, loss,
}
use rs2server_fix.Pipeline.Prepare.{
  is_empty, scalar_entry, after_reading, one_more, drained, drain, publish_frame, place_frame,
  digested, formatted, format_entry, format_frames, then_format, prepare_native_frames,
}
use rs2server_fix.Pipeline.Ledger.{waiting, Orderly, home_after, held_next}

has_room : (w r : ℕ) → leb 256 (w - r) ≡ false → w < r + 256
has_room w r h = ground arith

frames_left : (w n : ℕ) → leb w n ≡ false → n < w
frames_left w n h = ground arith

slot_left : (w r : ℕ) → w ≤ r + 8 → r ≤ w → (w - r == 8) ≡ false → w < r + 8
slot_left w r a b h = ground arith

module _ {W : Type 0} where
  unfoldable pub After : Bool × Machine W → Type 0
  After r = Orderly r.1.pipeline

  pub ended : (b : Bool) (m : Machine W) → Orderly m.pipeline → After (b, m)
  unfolding After
  ended b m h = h

  pub loss-Orderly :
      (m : Machine W) (why : Reason) → Orderly m.pipeline → Orderly (loss m why).pipeline
  unfolding loss
  loss-Orderly m why h =
      pick (λ (n : Machine W). Orderly n.pipeline) m.pipeline.has_status _ _ (λ _. h) (λ _. h)

  pub lost : (m : Machine W) (why : Reason) → Orderly m.pipeline → After (false, loss m why)
  lost m why h = ended false (loss m why) (loss-Orderly m why h)

  -- An entry in the home of the next ticket to be drained, whether or not it is counted.
  after_reading-Orderly :
      (m : Machine W) (got : GotRecord) (e : NativeLedgerEntry)
      → Orderly m.pipeline
      → m.pipeline.ledger_write < m.pipeline.ledger_read + 256
      → Orderly (after_reading m got e).pipeline
  unfolding after_reading
  after_reading-Orderly m got e h room =
      let drained_ = h.drained in
      record {
        announced = h.announced;
        drained = drained_;
        homes = h.homes;
        released = h.released;
        slots = h.slots;
        frames = h.frames;
        ordered = h.ordered;
        observed = h.observed;
        first = h.first;
        pending = h.pending;
        held = λ t a b.
            home_after t m.pipeline.ledger_write e m.pipeline.ledger (omega (arith, b, drained_))
              (omega (arith, a, room)) (h.held t a b);
      }

  one_more-Orderly :
      (m : Machine W)
      → Orderly m.pipeline
      → m.pipeline.ledger_write < m.pipeline.ledger_read + 256
      → Orderly (one_more m).pipeline
  unfolding one_more
  one_more-Orderly m h room =
      let drained_ = h.drained in
      record {
        announced = h.announced;
        drained = omega (arith, drained_);
        homes = omega (arith, room);
        released = h.released;
        slots = h.slots;
        frames = h.frames;
        ordered = h.ordered;
        observed = h.observed;
        first = h.first;
        pending = h.pending;
        held = h.held;
      }

  drained-Orderly :
      (m : Machine W) (got : GotRecord) (result : ReportReadResult) (output : Option ReportRecordV3)
      (rest : Machine W → Bool × Machine W)
      → Orderly m.pipeline
      → m.pipeline.ledger_write < m.pipeline.ledger_read + 256
      → ((n : Machine W) → Orderly n.pipeline → After (rest n))
      → After (drained m got result output rest)
  unfolding drained after_reading
  drained-Orderly m got ReportReadResult.empty output rest h room k =
      ended true (after_reading m got empty_entry) (after_reading-Orderly m got empty_entry h room)
  drained-Orderly m got ReportReadResult.record_read (some r) rest h room k =
      let n = after_reading m got (scalar_entry r) in
      k (one_more n) (one_more-Orderly n (after_reading-Orderly m got (scalar_entry r) h room) room)
  drained-Orderly m got ReportReadResult.record_read none rest h room k =
      lost (after_reading m got empty_entry) Reason.record_loss
        (after_reading-Orderly m got empty_entry h room)
  drained-Orderly m got ReportReadResult.unavailable output rest h room k =
      lost (after_reading m got empty_entry) Reason.record_loss
        (after_reading-Orderly m got empty_entry h room)
  drained-Orderly m got ReportReadResult.lost output rest h room k =
      lost (after_reading m got empty_entry) Reason.record_loss
        (after_reading-Orderly m got empty_entry h room)

  drain-Orderly : (left : ℕ) (m : Machine W) → Orderly m.pipeline → After (drain left m)
  unfolding drain
  drain-Orderly zero m h = ended true m h
  drain-Orderly (suc left) m h =
      pick After (leb 256 (m.pipeline.ledger_write - m.pipeline.ledger_read)) _ _
        (λ _. ended true m h)
        λ room.
          pick After (m.pipeline.ledger_write == uint64_max) _ _
            (λ _. lost m Reason.counter_overflow h)
            λ _.
              pick After (not (is_empty (m.pipeline.ledger (m.pipeline.ledger_write % 256)).state))
                _ _ (λ _. lost m Reason.record_loss h)
                λ _.
                  drained-Orderly m (dequeue_report true m.ring m.status) _ _ (drain left) h
                    (has_room m.pipeline.ledger_write m.pipeline.ledger_read room)
                    (drain-Orderly left)

  publish_frame-Orderly :
      (m : Machine W) (qpc : ℕ) (e : NativeLedgerEntry) (message digest : List ℕ)
      → Orderly m.pipeline
      → m.pipeline.next_format < m.pipeline.ledger_write
      → m.pipeline.ready_write < m.pipeline.ready_read + 8
      → e.sequence ≡ m.pipeline.prepared_sequence + 1
      → Orderly (publish_frame m qpc e message digest).pipeline
  unfolding publish_frame
  publish_frame-Orderly m qpc e message digest h more room same_sequence =
      let a = h.announced in
      let ordered = h.ordered in
      let homes = h.homes in
      let released = h.released in
      let frames = h.frames in
      record {
        announced = omega (arith, a);
        drained = omega (arith, more);
        homes = homes;
        released = omega (arith, released);
        slots = omega (arith, room);
        frames = omega (arith, frames);
        ordered = omega (arith, ordered, same_sequence);
        observed = h.observed;
        first = h.first;
        pending = elim h.pending [ inl z ↦ inl z | inr lt ↦ inr (omega (arith, lt)) ];
        held =
            held_next m.pipeline.ledger_read m.pipeline.next_format _ m.pipeline.ledger
              (waiting {digest = digest} (same_sequence ∙ ordered)) h.held
              (omega (arith, more, homes));
      }

  place_frame-Orderly :
      (m : Machine W) (qpc : ℕ) (e : NativeLedgerEntry) (digest : List ℕ) (o : Option (List ℕ))
      (rest : Machine W → Bool × Machine W)
      → Orderly m.pipeline
      → m.pipeline.next_format < m.pipeline.ledger_write
      → m.pipeline.ready_write < m.pipeline.ready_read + 8
      → e.sequence ≡ m.pipeline.prepared_sequence + 1
      → ((n : Machine W) → Orderly n.pipeline → After (rest n))
      → After (place_frame m qpc e digest o rest)
  unfolding place_frame
  place_frame-Orderly m qpc e digest none rest h more room same_sequence k =
      lost m Reason.record_loss h
  place_frame-Orderly m qpc e digest (some message) rest h more room same_sequence k =
      k (publish_frame m qpc e message digest)
        (publish_frame-Orderly m qpc e message digest h more room same_sequence)

  digested-Orderly :
      (m : Machine W) (qpc : ℕ) (e : NativeLedgerEntry) (text : List ℕ) (r : W × Option (List ℕ))
      (rest : Machine W → Bool × Machine W)
      → Orderly m.pipeline
      → m.pipeline.next_format < m.pipeline.ledger_write
      → m.pipeline.ready_write < m.pipeline.ready_read + 8
      → e.sequence ≡ m.pipeline.prepared_sequence + 1
      → ((n : Machine W) → Orderly n.pipeline → After (rest n))
      → After (digested m qpc e text r rest)
  unfolding digested
  digested-Orderly m qpc e text (w, none) rest h more room same_sequence k =
      lost (record m { provider = w }) Reason.record_loss h
  digested-Orderly m qpc e text (w, some digest) rest h more room same_sequence k =
      place_frame-Orderly (record m { provider = w }) qpc e digest _ rest h more room same_sequence
        k

  formatted-Orderly :
      (formats : Formats W) (m : Machine W) (qpc : ℕ) (e : NativeLedgerEntry) (o : Option (List ℕ))
      (rest : Machine W → Bool × Machine W)
      → Orderly m.pipeline
      → m.pipeline.next_format < m.pipeline.ledger_write
      → m.pipeline.ready_write < m.pipeline.ready_read + 8
      → e.sequence ≡ m.pipeline.prepared_sequence + 1
      → ((n : Machine W) → Orderly n.pipeline → After (rest n))
      → After (formatted formats m qpc e o rest)
  unfolding formatted
  formatted-Orderly formats m qpc e none rest h more room same_sequence k =
      lost m Reason.record_loss h
  formatted-Orderly formats m qpc e (some text) rest h more room same_sequence k =
      digested-Orderly m qpc e text _ rest h more room same_sequence k

  format_entry-Orderly :
      (formats : Formats W) (m : Machine W) (qpc : ℕ) (e : NativeLedgerEntry) (s : LedgerState)
      (rest : Machine W → Bool × Machine W)
      → Orderly m.pipeline
      → m.pipeline.next_format < m.pipeline.ledger_write
      → m.pipeline.ready_write < m.pipeline.ready_read + 8
      → ((n : Machine W) → Orderly n.pipeline → After (rest n))
      → After (format_entry formats m qpc e s rest)
  unfolding format_entry
  format_entry-Orderly formats m qpc e (LedgerState.scalar r) rest h more room k =
      let p = m.pipeline in
      let d = recovery_detail p.diagnostics p.detail r in
      let n : Machine W = record m { pipeline = record p { detail = d.1 } } in
      pick After (p.prepared_sequence == uint64_max || not (e.sequence == p.prepared_sequence + 1))
        _ _ (λ _. lost m Reason.record_loss h)
        λ ok.
          let next : e.sequence ≡ p.prepared_sequence + 1 =
            numbered p.prepared_sequence e.sequence uint64_max ok in
          formatted-Orderly formats n qpc e (formats.format_record r d.0) rest h more room next k
    where
      numbered : (a b m : ℕ) → (a == m || not (b == a + 1)) ≡ false → b ≡ a + 1
      numbered a b m h = ground arith
  format_entry-Orderly formats m qpc e LedgerState.empty rest h more room k =
      lost m Reason.record_loss h
  format_entry-Orderly formats m qpc e LedgerState.reserved rest h more room k =
      lost m Reason.record_loss h
  format_entry-Orderly formats m qpc e (LedgerState.ready d) rest h more room k =
      lost m Reason.record_loss h
  format_entry-Orderly formats m qpc e (LedgerState.matched d) rest h more room k =
      lost m Reason.record_loss h

  format_frames-Orderly :
      (formats : Formats W) (qpc fuel : ℕ) (m : Machine W)
      → Orderly m.pipeline
      → After (format_frames formats qpc fuel m)
  unfolding format_frames
  format_frames-Orderly formats qpc zero m h = ended true m h
  format_frames-Orderly formats qpc (suc fuel) m h =
      let p = m.pipeline in
      pick After (leb p.ledger_write p.next_format) _ _ (λ _. ended true m h)
        λ more.
          pick After (not (queue_valid p)) _ _ (λ _. lost m Reason.record_loss h)
            λ _.
              pick After (p.ready_write - p.ready_read == 8) _ _ (λ _. ended true m h)
                λ room.
                  pick After (p.ready_write == uint64_max) _ _
                    (λ _. lost m Reason.counter_overflow h)
                    λ _.
                      format_entry-Orderly formats m qpc (p.ledger (p.next_format % 256))
                        (p.ledger (p.next_format % 256)).state (format_frames formats qpc fuel) h
                        (frames_left p.ledger_write p.next_format more)
                        (slot_left p.ready_write p.ready_read h.slots h.released room)
                        (format_frames-Orderly formats qpc fuel)

  then_format-Orderly :
      (formats : Formats W) (qpc : ℕ) (r : Bool × Machine W)
      → After r
      → After (then_format formats qpc r)
  unfolding then_format After
  then_format-Orderly formats qpc (false, m) h = h
  then_format-Orderly formats qpc (true, m) h = format_frames-Orderly formats qpc _ m h

  pub prepare_native_frames-Orderly :
      (formats : Formats W) (qpc : ℕ) (m : Machine W)
      → Orderly m.pipeline
      → After (prepare_native_frames formats qpc m)
  unfolding prepare_native_frames
  prepare_native_frames-Orderly formats qpc m h =
      let p = m.pipeline in
      pick After (p.initialized == 0 || not p.has_status || not p.has_ring || qpc == 0) _ _
        (λ _. ended false m h)
        λ _.
          pick After (not (ledger_valid p)) _ _ (λ _. lost m Reason.record_loss h)
            λ _. then_format-Orderly formats qpc _ (drain-Orderly 32 m h)
