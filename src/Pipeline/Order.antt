-- ===== src/Pipeline/Order.antt =====
-- src/companion/steam_reporting_pipeline.cpp: the calls of the owner and the receipts keep the order too,
-- and receipts are acknowledged one by one in the order of the records.
use rs2server_fix.Base.{
  ℕ, zero, suc, ◌+◌, ◌%◌, ◌≤◌, ◌<◌, ◌≡◌, ◌⊎◌, inl, inr, refl, sym, subst, Bool, true, false, not,
  ◌&&◌, ◌||◌, Option, none, some, List, length, ltb, ◌==◌, pick, ==→eq, arith,
}
use rs2server_fix.Types.{Reason, uint64_max}
use rs2server_fix.Receipts.{ReceiptDisposition}
use rs2server_fix.Status.Wire.{OwnerSnapshotV3}
use rs2server_fix.Pipeline.{
  LedgerState, NativeLedgerEntry, NativeReadyFrame, NativePipeline, Machine, empty_entry, home,
  queue_valid, loss, frame_valid, peek_native_frame, release_peeked, entry_matches, mark_matched,
  match_entry, match_from, release_home, acknowledge_entry,
}
use rs2server_fix.Pipeline.Ledger.{
  found, sequence-Announced, Orderly, HeldFrom, held_first, held_rest,
}
use rs2server_fix.Pipeline.Kept.{After, ended, lost, loss-Orderly}

peeked_ticket :
    (ticket read : ℕ) (b c : Bool) → not (ticket == read + 1 && b && c) ≡ false → ticket ≡ read + 1
peeked_ticket ticket read b c h = ground arith

unread : (w r : ℕ) → (w == r) ≡ false → r ≤ w → r + 1 ≤ w
unread w r h le = ground arith

module _ {W : Type 0} where
  -- What a peek leaves, and what a frame that it returns is.
  unfoldable pub Peeked : Option NativeReadyFrame × Machine W → Type 0
  Peeked (none, m) = Orderly m.pipeline
  Peeked (some slot, m) =
      Orderly m.pipeline
      × (slot.ticket ≡ m.pipeline.ready_read + 1)
      × (m.pipeline.ready_read + 1 ≤ m.pipeline.ready_write)

  unpeeked : (m : Machine W) → Orderly m.pipeline → Peeked (none, m)
  unfolding Peeked
  unpeeked m h = h

  shown :
      (m : Machine W) (slot : NativeReadyFrame)
      → Orderly m.pipeline
      → slot.ticket ≡ m.pipeline.ready_read + 1
      → m.pipeline.ready_read + 1 ≤ m.pipeline.ready_write
      → Peeked (some slot, m)
  unfolding Peeked
  shown m slot h a b = (h, a, b)

  pub Peeked-Orderly : (r : Option NativeReadyFrame × Machine W) → Peeked r → Orderly r.1.pipeline
  unfolding Peeked
  Peeked-Orderly (none, m) h = h
  Peeked-Orderly (some slot, m) h = h.0

  pub peek_native_frame-Peeked : (m : Machine W) → Orderly m.pipeline → Peeked (peek_native_frame m)
  unfolding peek_native_frame frame_valid
  peek_native_frame-Peeked m h =
      let p = m.pipeline in
      let slot = p.ready (p.ready_read % 8) in
      pick Peeked (p.initialized == 0 || not p.has_status) _ _ (λ _. unpeeked m h)
        λ _.
          pick Peeked (not (queue_valid p)) _ _
            (λ _. unpeeked (loss m Reason.record_loss) (loss-Orderly m Reason.record_loss h))
            λ _.
              pick Peeked (p.ready_write == p.ready_read) _ _ (λ _. unpeeked m h)
                λ some_left.
                  pick Peeked (not (frame_valid slot p.ready_read)) _ _
                    (λ _.
                      unpeeked (loss m Reason.record_loss) (loss-Orderly m Reason.record_loss h))
                    λ ok.
                      shown m slot h (peeked_ticket slot.ticket p.ready_read _ _ ok)
                        (unread p.ready_write p.ready_read some_left h.released)

  pub release_peeked-Orderly :
      (ticket : ℕ) (r : Option NativeReadyFrame × Machine W)
      → Peeked r
      → After (release_peeked ticket r)
  unfolding release_peeked Peeked
  release_peeked-Orderly ticket (none, m) h = lost m Reason.record_loss h
  release_peeked-Orderly ticket (some slot, m) h =
      let o = h.0 in
      let e = h.1 in
      let left = h.2 in
      let slots = o.slots in
      pick After (slot.ticket == ticket) _ _
        (λ same_ticket.
          let eq = ==→eq slot.ticket ticket same_ticket in
          ended true (record m { pipeline = record m.pipeline { ready_read = ticket } })
            (record {
              announced = o.announced;
              drained = o.drained;
              homes = o.homes;
              released = omega (arith, eq, e, left);
              slots = omega (arith, eq, e, slots);
              frames = o.frames;
              ordered = o.ordered;
              observed = o.observed;
              first = o.first;
              pending = o.pending;
              held = o.held;
            }))
        λ _. lost m Reason.record_loss o

-- The first ticket is found: its entry keeps its sequence.
mark_matched-Orderly :
    (p : NativePipeline) (ticket : ℕ) (digest : List ℕ)
    → Orderly p
    → ticket ≡ p.ledger_read
    → p.ledger_read < p.next_format
    → Orderly (mark_matched p ticket (p.ledger (ticket % 256)) digest)
unfolding mark_matched
mark_matched-Orderly p ticket digest h e more =
    let drained = h.drained in
    let homes = h.homes in
    record {
      announced = h.announced;
      drained = drained;
      homes = homes;
      released = h.released;
      slots = h.slots;
      frames = h.frames;
      ordered = h.ordered;
      observed = h.observed;
      first = h.first;
      pending = inr more;
      held =
          subst
            (λ u. HeldFrom p.ledger_read p.next_format (
              home (u % 256) (record (p.ledger (u % 256)) { state = LedgerState.matched digest })
                p.ledger))
            (sym e)
            (held_first p.ledger_read p.next_format _ p.ledger
              (found {digest = digest}
                (sequence-Announced p.ledger_read _ _ (h.held p.ledger_read (omega arith) more)))
              h.held (omega (arith, drained, homes)));
    }

unfoldable pub Matched : ReceiptDisposition × NativePipeline → Type 0
Matched r = Orderly r.1

matching : (d : ReceiptDisposition) (p : NativePipeline) → Orderly p → Matched (d, p)
unfolding Matched
matching d p h = h

match_entry-Orderly :
    (p : NativePipeline) (ticket : ℕ) (message digest : List ℕ) (s : LedgerState)
    (rest : ReceiptDisposition × NativePipeline)
    → Orderly p
    → p.ledger_read < p.next_format
    → Matched rest
    → Matched (match_entry p ticket message digest (p.ledger (ticket % 256)) s rest)
unfolding match_entry
match_entry-Orderly p ticket message digest (LedgerState.ready held) rest h more k =
    pick Matched
      (not ((p.ledger (ticket % 256)).message_bytes == length message)
        || not (entry_matches p (p.ledger (ticket % 256)) held message digest))
      _ _ (λ _. k)
      λ _.
        pick Matched (not (ticket == p.ledger_read)) _ _ (λ _. matching ReceiptDisposition.gap p h)
          λ e.
            let first : ticket ≡ p.ledger_read = ground (arith, e) in
            matching ReceiptDisposition.awaiting_submission
              (mark_matched p ticket (p.ledger (ticket % 256)) held)
              (mark_matched-Orderly p ticket held h first more)
match_entry-Orderly p ticket message digest LedgerState.empty rest h more k = k
match_entry-Orderly p ticket message digest LedgerState.reserved rest h more k = k
match_entry-Orderly p ticket message digest (LedgerState.scalar r) rest h more k = k
match_entry-Orderly p ticket message digest (LedgerState.matched d) rest h more k = k

pub match_from-Orderly :
    (left ticket : ℕ) (p : NativePipeline) (message digest : List ℕ)
    → Orderly p
    → p.ledger_read < p.next_format
    → Matched (match_from left ticket p message digest)
unfolding match_from
match_from-Orderly zero ticket p message digest h more = matching ReceiptDisposition.corrupt p h
match_from-Orderly (suc left) ticket p message digest h more =
    match_entry-Orderly p ticket message digest _ _ h more
      (match_from-Orderly left (suc ticket) p message digest h more)

pub some_announced : (a b c : Bool) (r n : ℕ) → r ≤ n → (a || b || c || r == n) ≡ false → r < n
some_announced a b c r n le e = ground arith

-- What an acknowledgement moved: the bootstrap's receipt with a submitted start, or the next record's,
-- submitted, with the start observed before.
unfoldable pub Advanced : NativePipeline → NativePipeline → OwnerSnapshotV3 → Type 0
Advanced p q owner =
    ((q.startup_observed ≡ 1)
      × (q.observed_sequence ≡ 0)
      × (p.ledger_read ≡ 0)
      × (1 ≤ owner.transport.startup_submitted))
    ⊎ ((q.observed_sequence ≡ p.observed_sequence + 1)
        × (q.startup_observed ≡ 1)
        × (p.startup_observed ≡ 1)
        × (q.observed_sequence ≤ owner.transport.submitted_sequence))

module _ {W : Type 0} where
  unfoldable pub Acknowledged : NativePipeline → OwnerSnapshotV3 → Bool × Machine W → Type 0
  Acknowledged p owner r =
      Orderly r.1.pipeline
      × (r.0 ≡ true
          → (r.1.pipeline.ledger_read ≡ p.ledger_read + 1) × Advanced p r.1.pipeline owner)

  pub refusing :
      (p : NativePipeline) (owner : OwnerSnapshotV3) (m : Machine W)
      → Orderly m.pipeline
      → Acknowledged p owner (false, m)
  unfolding Acknowledged
  refusing p owner m h = (h, λ e. absurd (cc))

  started_Acknowledged :
      (m : Machine W) (owner : OwnerSnapshotV3)
      → Orderly m.pipeline
      → m.pipeline.ledger_read ≡ 0
      → m.pipeline.ledger_read < m.pipeline.next_format
      → (owner.transport.startup_submitted == 0) ≡ false
      → Acknowledged m.pipeline owner (release_home m (record m.pipeline { startup_observed = 1 }))
  unfolding Acknowledged Advanced release_home
  started_Acknowledged m owner h zero_read more submitted =
      let observed = h.observed in
      let drained = h.drained in
      let homes = h.homes in
      (
        record {
          announced = omega (arith, more);
          drained = drained;
          homes = omega (arith, homes);
          released = h.released;
          slots = h.slots;
          frames = h.frames;
          ordered = h.ordered;
          observed = omega (arith, observed, zero_read);
          first = inr refl;
          pending = inl refl;
          held =
              held_rest m.pipeline.ledger_read m.pipeline.next_format empty_entry m.pipeline.ledger
                h.held (omega (arith, drained, homes));
        },
        λ _. (
          refl,
          inl (refl, omega (arith, observed, zero_read), zero_read, ground (arith, submitted)),
        ),
      )

  next_Acknowledged :
      (m : Machine W) (owner : OwnerSnapshotV3) (n : ℕ)
      → Orderly m.pipeline
      → m.pipeline.ledger_read < m.pipeline.next_format
      → m.pipeline.startup_observed ≡ 1
      → n ≡ m.pipeline.observed_sequence + 1
      → n ≤ owner.transport.submitted_sequence
      → Acknowledged m.pipeline owner (release_home m (record m.pipeline { observed_sequence = n }))
  unfolding Acknowledged Advanced release_home
  next_Acknowledged m owner n h more startup next submitted =
      let observed = h.observed in
      let drained = h.drained in
      let homes = h.homes in
      (
        record {
          announced = omega (arith, more);
          drained = drained;
          homes = omega (arith, homes);
          released = h.released;
          slots = h.slots;
          frames = h.frames;
          ordered = h.ordered;
          observed = omega (arith, observed, next);
          first = inr startup;
          pending = inl refl;
          held =
              held_rest m.pipeline.ledger_read m.pipeline.next_format empty_entry m.pipeline.ledger
                h.held (omega (arith, drained, homes));
        },
        λ _. (refl, inr (next, startup, startup, submitted)),
      )

  pub acknowledge_entry-Acknowledged :
      (m : Machine W) (owner : OwnerSnapshotV3) (e : NativeLedgerEntry) (s : LedgerState)
      → Orderly m.pipeline
      → m.pipeline.ledger_read < m.pipeline.next_format
      → e.sequence ≡ m.pipeline.ledger_read
      → Acknowledged m.pipeline owner (acknowledge_entry m owner e s)
  unfolding acknowledge_entry
  acknowledge_entry-Acknowledged m owner e (LedgerState.matched d) h more same_ticket =
      let p = m.pipeline in
      pick (Acknowledged p owner) (e.sequence == 0) _ _
        (λ z.
          let first : p.ledger_read ≡ 0 = ground (arith, z, same_ticket) in
          pick (Acknowledged p owner) (owner.transport.startup_submitted == 0) _ _
            (λ _. refusing p owner m h)
            λ submitted. started_Acknowledged m owner h first more submitted)
        λ _.
          pick (Acknowledged p owner) (ltb owner.transport.submitted_sequence e.sequence) _ _
            (λ _. refusing p owner m h)
            λ covered.
              pick (Acknowledged p owner)
                (p.startup_observed == 0
                  || p.observed_sequence == uint64_max
                  || not (e.sequence == p.observed_sequence + 1))
                _ _
                (λ _.
                  refusing p owner (loss m Reason.record_loss)
                    (loss-Orderly m Reason.record_loss h))
                λ ok.
                  let f = facts p.startup_observed e.sequence p.observed_sequence _ h.first ok in
                  next_Acknowledged m owner e.sequence h more f.0 f.1
                    (within e.sequence owner.transport.submitted_sequence covered)
    where
      facts :
          (s n o : ℕ) (b : Bool)
          → ((s ≡ 0) × (o ≡ 0)) ⊎ (s ≡ 1)
          → (s == 0 || b || not (n == o + 1)) ≡ false
          → (s ≡ 1) × (n ≡ o + 1)
      facts s n o b f e = (ground (arith, f, e), ground (arith, e))

      within : (n s : ℕ) → ltb s n ≡ false → n ≤ s
      within n s e = ground arith
  acknowledge_entry-Acknowledged m owner e LedgerState.empty h more same_ticket =
      refusing m.pipeline owner (loss m Reason.record_loss) (loss-Orderly m Reason.record_loss h)
  acknowledge_entry-Acknowledged m owner e LedgerState.reserved h more same_ticket =
      refusing m.pipeline owner (loss m Reason.record_loss) (loss-Orderly m Reason.record_loss h)
  acknowledge_entry-Acknowledged m owner e (LedgerState.scalar r) h more same_ticket =
      refusing m.pipeline owner (loss m Reason.record_loss) (loss-Orderly m Reason.record_loss h)
  acknowledge_entry-Acknowledged m owner e (LedgerState.ready d) h more same_ticket =
      refusing m.pipeline owner (loss m Reason.record_loss) (loss-Orderly m Reason.record_loss h)
