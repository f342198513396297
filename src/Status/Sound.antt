-- ===== src/Status/Sound.antt =====
-- src/companion/steam_reporting_status_v3.cpp: what every published status satisfies.
use rs2server_fix.Base.{
  ℕ, ◌%◌, ◌≤◌, ◌≡◌, ◌≢◌, refl, ap, sym, ◌∙◌, Bool, true, false, not, ◌||◌, Option, none, some, List,
  [], ◌∷◌, ltb, leb, ◌==◌, if◌then◌else◌, pick, arith,
}
use rs2server_fix.Types.{Reason}
use rs2server_fix.Status.Wire.{
  TransportReason, transport_reason_code, StatusHeader, StatusPayload, OwnerTransport,
  WorkerTransport, ConsoleDiagnostics, LogIdentity, StatusWireV3, OwnerSnapshotV3,
}
use rs2server_fix.Status.{
  may_publish, header_ready, revoke_status, lose_status, stop_status, latched,
  latch_transport_fault, initialize_status, owner_acceptable, publish_owner, read_owner,
  worker_consistent, minimum, close_gate, publish_worker_with, publish_worker, console_acceptable,
  publish_console, identity_acceptable, publish_log_identity,
}

-- The counters of the two writers are in order: observed receipts are of submitted frames, and of
-- frames prepared from generated records.
pub record Watermarks (owner : StatusPayload) (transport : OwnerTransport)
    (worker : WorkerTransport) : Type 0 where
  pub generated : transport.generated_sequence ≡ owner.report_sequence
  pub submitted : transport.submitted_sequence ≤ transport.generated_sequence
  pub observed : worker.observed_sequence ≤ transport.submitted_sequence
  pub prepared : worker.prepared_sequence ≤ transport.generated_sequence
  pub formatted : worker.observed_sequence ≤ worker.prepared_sequence

unfoldable pub IsCoherent : StatusWireV3 → Type 0
IsCoherent wire = wire.header_ready ≡ 1 → Watermarks wire.owner wire.owner_transport wire.worker

-- The updates that the writers make.
pub data Update : Type 0 where
  initialize : StatusHeader → StatusPayload → Update
  owner : StatusPayload → OwnerTransport → Update
  worker : WorkerTransport → Update
  console : ConsoleDiagnostics → Update
  identity : LogIdentity → Update
  revoke lose : Reason → Update
  stop : ℕ → Update
  fault : TransportReason → Update

unfoldable pub update : Update → StatusWireV3 → StatusWireV3
update (initialize header o) wire = (initialize_status wire header o).1
update (owner o input) wire = (publish_owner wire o input).1
update (worker input) wire = (publish_worker wire input).1
update (console input) wire = (publish_console wire input).1
update (identity input) wire = (publish_log_identity wire input).1
update (revoke reason) wire = revoke_status wire reason
update (lose reason) wire = lose_status wire reason
update (stop qpc) wire = stop_status wire qpc
update (fault reason) wire = (latch_transport_fault wire reason).1

unfoldable pub updates : List Update → StatusWireV3 → StatusWireV3
unfolding update
updates [] wire = wire
updates (u ∷ us) wire = updates us (update u wire)

abbrev After : (StatusWireV3 → Type 0) → Bool × StatusWireV3 → Type 0
After P r = P r.1

not-false : (b : Bool) → not b ≡ false → b ≡ true
not-false b h = ground arith

owner_facts :
    (wire : StatusWireV3) (o : StatusPayload) (input : OwnerTransport)
    → owner_acceptable wire o input ≡ true
    → (input.generated_sequence ≡ o.report_sequence)
      × (input.submitted_sequence ≤ input.generated_sequence)
      × (wire.owner_transport.generated_sequence ≤ input.generated_sequence)
      × (wire.owner_transport.submitted_sequence ≤ input.submitted_sequence)
unfolding owner_acceptable
owner_facts wire o input h = ground arith

worker_facts :
    (wire : StatusWireV3) (input : WorkerTransport) (s : OwnerSnapshotV3)
    → worker_consistent wire input s ≡ true
    → (input.observed_sequence ≤ s.transport.submitted_sequence)
      × (input.observed_sequence ≤ input.prepared_sequence)
unfolding worker_consistent
worker_facts wire input s h = ground arith

minimum_facts : (a b c : ℕ) → c ≤ a → c ≤ b → (minimum a b ≤ b) × (c ≤ minimum a b)
unfolding minimum
minimum_facts a b c h k = ground arith

publish_owner-IsCoherent :
    (wire : StatusWireV3) (o : StatusPayload) (input : OwnerTransport)
    → IsCoherent wire
    → IsCoherent (publish_owner wire o input).1
unfolding publish_owner IsCoherent revoke_status header_ready
publish_owner-IsCoherent wire o input h =
    pick (After IsCoherent) (not (header_ready wire)) _ _ (λ _. h)
      λ ready.
        pick (After IsCoherent) (not (owner_acceptable wire o input)) _ _ (λ _. h)
          λ fit.
            pick (After IsCoherent) (not (may_publish wire.owner_sequence)) _ _ (λ _. h)
              λ _ e.
                let (generated, submitted, more, further) =
                  owner_facts wire o input (not-false _ fit) in
                let old = h e in
                record {
                  generated = generated;
                  submitted = submitted;
                  observed = omega (arith, old.observed);
                  prepared = omega (arith, old.prepared);
                  formatted = old.formatted;
                }

read_owner_facts :
    (wire : StatusWireV3) (s : OwnerSnapshotV3)
    → read_owner wire ≡ some s
    → s.transport ≡ wire.owner_transport
unfolding read_owner
read_owner_facts wire s h =
    some_facts wire.owner_transport (not (header_ready wire))
      (ltb wire.owner_sequence 2 || wire.owner_sequence % 2 == 1) _ s refl h
  where
    some_facts :
        (t : OwnerTransport) (a b : Bool) (x s : OwnerSnapshotV3)
        → x.transport ≡ t
        → (if a then none else if b then none else some x) ≡ some s
        → s.transport ≡ t
    some_facts t true b x s e h = absurd (cc)
    some_facts t false true x s e h = absurd (cc)
    some_facts t false false x s e h =
        let same : x ≡ s = cc in ap (λ (v : OwnerSnapshotV3). v.transport) (sym same) ∙ e

publish_worker_with-IsCoherent :
    (wire : StatusWireV3) (input : WorkerTransport) (r : Option OwnerSnapshotV3)
    → ((s : OwnerSnapshotV3) → r ≡ some s → s.transport ≡ wire.owner_transport)
    → IsCoherent wire
    → IsCoherent (publish_worker_with wire input r).1
unfolding publish_worker_with IsCoherent revoke_status lose_status
publish_worker_with-IsCoherent wire input none found h = h
publish_worker_with-IsCoherent wire input (some s) found h =
    pick (After IsCoherent) (not (worker_consistent wire input s)) _ _ (λ _. h)
      λ fit.
        pick (After IsCoherent) (not (may_publish wire.worker_sequence)) _ _ (λ _. h)
          λ _ e.
            let old = h e in
            let (observed, formatted) = worker_facts wire input s (not-false _ fit) in
            let sub : s.transport.submitted_sequence ≡ wire.owner_transport.submitted_sequence =
              ap (λ (t : OwnerTransport). t.submitted_sequence) (found s refl) in
            let gen : s.transport.generated_sequence ≡ wire.owner_transport.generated_sequence =
              ap (λ (t : OwnerTransport). t.generated_sequence) (found s refl) in
            let low : input.observed_sequence ≤ s.transport.generated_sequence =
              omega (arith, old.submitted) in
            let (prepared, kept) =
              minimum_facts input.prepared_sequence s.transport.generated_sequence
                input.observed_sequence formatted low in
            record {
              generated = old.generated;
              submitted = old.submitted;
              observed = omega (arith, sub);
              prepared = omega (arith, gen);
              formatted = kept;
            }

publish_worker-IsCoherent :
    (wire : StatusWireV3) (input : WorkerTransport)
    → IsCoherent wire
    → IsCoherent (publish_worker wire input).1
unfolding publish_worker IsCoherent revoke_status close_gate
publish_worker-IsCoherent wire input h =
    pick (After IsCoherent) (not (header_ready wire)) _ _ (λ _. h)
      λ _.
        pick (After IsCoherent) (ltb 11 input.pause_reason || ltb 1 input.startup_observed) _ _
          (λ _. h)
          λ _.
            let gate = close_gate wire input in
            publish_worker_with-IsCoherent gate input (read_owner gate) (read_owner_facts gate)
              (pick IsCoherent (input.pause_reason == 0) _ _ (λ _. h) (λ _. h))

update-IsCoherent :
    (wire : StatusWireV3) (u : Update) → IsCoherent wire → IsCoherent (update u wire)
unfolding update IsCoherent initialize_status revoke_status lose_status stop_status
    latch_transport_fault latched publish_console publish_log_identity
update-IsCoherent wire (initialize header o) h =
    pick (After IsCoherent) (not (wire.header_ready == 0)) _ _ (λ _. h)
      λ _ _. record {
        generated = refl;
        submitted = omega arith;
        observed = omega arith;
        prepared = omega arith;
        formatted = omega arith;
      }
update-IsCoherent wire (owner o input) h = publish_owner-IsCoherent wire o input h
update-IsCoherent wire (worker input) h = publish_worker-IsCoherent wire input h
update-IsCoherent wire (console input) h =
    pick (After IsCoherent) (not (header_ready wire) || not (console_acceptable input)) _ _ (λ _. h)
      λ _. pick (After IsCoherent) (not (may_publish wire.console_sequence)) _ _ (λ _. h) (λ _. h)
update-IsCoherent wire (identity input) h =
    pick (After IsCoherent) (not (header_ready wire) || not (identity_acceptable input)) _ _
      (λ _. h)
      λ _. pick (After IsCoherent) (not (wire.log_identity_ready == 0)) _ _ (λ _. h) (λ _. h)
update-IsCoherent wire (revoke reason) h = h
update-IsCoherent wire (lose reason) h = h
update-IsCoherent wire (stop qpc) h = pick IsCoherent (wire.stopping == 0) _ _ (λ _. h) (λ _. h)
update-IsCoherent wire (fault reason) h =
    let kept : IsCoherent (latched wire reason) =
      pick IsCoherent (wire.fatal_transport_reason == 0) _ _ (λ _. h) (λ _. h) in
    pick (After IsCoherent) (ltb (transport_reason_code reason) 12) _ _ (λ _. h)
      λ _.
        pick (After IsCoherent) (leb (transport_reason_code reason) 15) _ _ (λ _. kept) (λ _. kept)

updates-IsCoherent :
    (us : List Update) (wire : StatusWireV3) → IsCoherent wire → IsCoherent (updates us wire)
unfolding updates
updates-IsCoherent [] wire h = h
updates-IsCoherent (u ∷ us) wire h =
    updates-IsCoherent us (update u wire) (update-IsCoherent wire u h)

-- From any block whose header is not published yet, whatever updates the writers make, in any order
-- and with any arguments: once the header is published, the counters of the block are in order.
-- The observed receipts are at most the submitted frames and at most the prepared ones, both
-- of which are at most the generated records, and these are the owner's.
pub updates-Watermarks :
    (us : List Update) (wire : StatusWireV3)
    → wire.header_ready ≢ 1
    → (updates us wire).header_ready ≡ 1
    → Watermarks (updates us wire).owner (updates us wire).owner_transport (updates us wire).worker
unfolding IsCoherent
updates-Watermarks us wire fresh ready =
    let start : IsCoherent wire = λ e. absurd (fresh e) in updates-IsCoherent us wire start ready
