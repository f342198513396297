-- ===== src/Snapshot/Core/Seen.antt =====
-- src/shared/steam_reporting_snapshot_v3.cpp: what the reads of the owner's and the worker's part returned.
use rs2server_fix.Base.{
  ℕ, ◌%◌, ◌≤◌, ◌≡◌, refl, ap, ◌∙◌, Bool, true, false, not, ◌&&◌, ◌||◌, Option, none, some, ltb,
  ◌==◌, pick, arith,
}
use rs2server_fix.Status.Wire.{StatusHeader, StatusPayload, OwnerTransport, WorkerTransport}
use rs2server_fix.Snapshot.Core.Steps.{
  StatusReadOpsV3, Work, Step, Steps, goes_on, then_step, got_field, field, fail_if, done,
  note_sequence, gates, OwnerRead, WorkerRead, no_owner_read, owner_read, no_worker_read,
  worker_read, read_owner_block, read_worker_block,
}
use rs2server_fix.Snapshot.Core.Read.{Between, between, read_log, read_between, same_header}

-- A payload of the owner and its transport, read between two reads of one even sequence.
pub record IsOwnerRead {W : Type 0} (ops : StatusReadOpsV3 W) (owner : StatusPayload)
    (transport : OwnerTransport) (sequence : ℕ) : Type 0 where
  pub w1 : W
  pub w2 : W
  pub w3 : W
  pub w4 : W
  pub w5 : W
  pub sequence_before : ops.owner_sequence w1 ≡ (w2, some sequence)
  pub owner_found : ops.owner w2 ≡ (w3, some owner)
  pub transport_found : ops.owner_transport w3 ≡ (w4, some transport)
  pub sequence_after : ops.owner_sequence w4 ≡ (w5, some sequence)
  pub published : 2 ≤ sequence
  pub even : sequence % 2 ≡ 0

pub record IsWorkerRead {W : Type 0} (ops : StatusReadOpsV3 W) (worker : WorkerTransport)
    (sequence : ℕ) : Type 0 where
  pub w1 : W
  pub w2 : W
  pub w3 : W
  pub w4 : W
  pub sequence_before : ops.worker_sequence w1 ≡ (w2, some sequence)
  pub worker_found : ops.worker w2 ≡ (w3, some worker)
  pub sequence_after : ops.worker_sequence w3 ≡ (w4, some sequence)
  pub published : 2 ≤ sequence
  pub even : sequence % 2 ≡ 0

module _ {W : Type 0} where
  -- A step that, from a world with the first property, ends in a world and a value with the second one.
  unfoldable pub FindsEnd : {A : Type 0} → (W → A → Type 0) → Work W × Step A → Type 0
  FindsEnd Q (k, Step.stopped r) = 0 ≤ 0
  FindsEnd Q (k, Step.skipped) = 0 ≤ 0
  FindsEnd Q (k, Step.value a) = Q k.world a

  unfoldable pub Finds : {A : Type 0} → (W → Type 0) → Steps W A → (W → A → Type 0) → Type 0
  Finds P s Q = (k : Work W) → P k.world → FindsEnd Q (s k)

  goes_on-Finds :
      {A B : Type 0} (Q : W → A → Type 0) (R : W → B → Type 0) (r : Work W × Step A)
      (rest : A → Steps W B)
      → FindsEnd Q r
      → ((a : A) → Finds (λ w. Q w a) (rest a) R)
      → FindsEnd R (goes_on r rest)
  unfolding goes_on FindsEnd Finds
  goes_on-Finds Q R (k, Step.stopped r) rest h g = h
  goes_on-Finds Q R (k, Step.skipped) rest h g = h
  goes_on-Finds Q R (k, Step.value a) rest h g = g a k h

  then_step-Finds :
      {A B : Type 0} (P : W → Type 0) (Q : W → A → Type 0) (R : W → B → Type 0) (first : Steps W A)
      (rest : A → Steps W B)
      → Finds P first Q
      → ((a : A) → Finds (λ w. Q w a) (rest a) R)
      → Finds P (then_step first rest) R
  unfolding then_step Finds
  then_step-Finds P Q R first rest h g k p = goes_on-Finds Q R (first k) rest (h k p) g

  -- A value that was read in a world with the property, which the read led to this one.
  abbrev pub After : {A : Type 0} → (W → Type 0) → (W → W × Option A) → W → A → Type 0
  After P read w a = (v : W) × P v × (read v ≡ (w, some a))

  got_field-Finds :
      {A : Type 0} (P : W → Type 0) (read : W → W × Option A) (v : W) (k : Work W)
      (r : W × Option A)
      → P v
      → read v ≡ r
      → FindsEnd (After P read) (got_field k r)
  unfolding got_field FindsEnd
  got_field-Finds P read v k (w, none) p e = omega arith
  got_field-Finds P read v k (w, some a) p e = (v, p, e)

  field-Finds :
      {A : Type 0} (P : W → Type 0) (read : W → W × Option A) → Finds P (field read) (After P read)
  unfolding field Finds
  field-Finds P read k p = got_field-Finds P read k.world k (read k.world) p refl

  done-Finds :
      {A : Type 0} (P : W → Type 0) (Q : W → A → Type 0) (a : A)
      → ((w : W) → P w → Q w a)
      → Finds P (done a) Q
  unfolding done Finds FindsEnd
  done-Finds P Q a h k p = h k.world p

  note_sequence-Finds :
      (P : W → Type 0) (before after : ℕ) → Finds P (note_sequence before after) (λ w b. P w)
  unfolding note_sequence Finds FindsEnd
  note_sequence-Finds P before after k p = p

  fail_if-Finds : (P : W → Type 0) (b : Bool) → Finds P (fail_if b) (λ w c. P w)
  unfolding fail_if Finds FindsEnd
  fail_if-Finds P true k p = omega arith
  fail_if-Finds P false k p = p

-- A read is only stable as a whole.
abbrev OwnerSeen : {W : Type 0} → StatusReadOpsV3 W → OwnerRead → Type 0
OwnerSeen ops o = o.stable ≡ true → IsOwnerRead ops o.owner o.transport o.sequence

abbrev WorkerSeen : {W : Type 0} → StatusReadOpsV3 W → WorkerRead → Type 0
WorkerSeen ops o = o.stable ≡ true → IsWorkerRead ops o.worker o.sequence

stable_facts :
    (before after : ℕ)
    → (ltb before 2 || before % 2 == 1) ≡ false
    → (before == after && not (after % 2 == 1)) ≡ true
    → (before ≡ after) × (2 ≤ after) × (after % 2 ≡ 0)
stable_facts b a h s = (ground arith, ground arith, ground arith)

module _ {W : Type 0} (ops : StatusReadOpsV3 W) where
  read_owner_block-Finds :
      (P : W → Type 0) (before : ℕ)
      → Finds
          (λ w. After P ops.owner_sequence w before)
          (read_owner_block ops before)
          (λ w o. OwnerSeen ops o)
  unfolding read_owner_block
  read_owner_block-Finds P before =
      pick (λ s. Finds (λ w. After P ops.owner_sequence w before) s (λ w o. OwnerSeen ops o))
        (ltb before 2 || before % 2 == 1) _ _
        (λ _. done-Finds _ _ (no_owner_read before) λ w p e. absurd (cc))
        λ odd. then_step-Finds _ _ _ _ _ (field-Finds _ ops.owner) λ owner.
          then_step-Finds _ _ _ _ _ (field-Finds _ ops.owner_transport) λ transport.
            then_step-Finds _ _ _ _ _ (field-Finds _ ops.owner_sequence) λ after.
              then_step-Finds _ _ _ _ _ (note_sequence-Finds _ before after) λ _.
                done-Finds _ _ (owner_read owner transport before after) λ w5 p e.
                  let (w4, (w3, (w2, (w1, start, r1), r2), r3), r4) = p in
                  let (agree, published, even) = stable_facts before after odd e in
                  record {
                    w1 = w1;
                    w2 = w2;
                    w3 = w3;
                    w4 = w4;
                    w5 = w5;
                    sequence_before = r1 ∙ ap (λ n. (w2, some n)) agree;
                    owner_found = r2;
                    transport_found = r3;
                    sequence_after = r4;
                    published = published;
                    even = even;
                  }

  read_worker_block-Finds :
      (P : W → Type 0) (before : ℕ)
      → Finds
          (λ w. After P ops.worker_sequence w before)
          (read_worker_block ops before)
          (λ w o. WorkerSeen ops o)
  unfolding read_worker_block
  read_worker_block-Finds P before =
      pick (λ s. Finds (λ w. After P ops.worker_sequence w before) s (λ w o. WorkerSeen ops o))
        (ltb before 2 || before % 2 == 1) _ _
        (λ _. done-Finds _ _ (no_worker_read before) λ w p e. absurd (cc))
        λ odd. then_step-Finds _ _ _ _ _ (field-Finds _ ops.worker) λ worker.
          then_step-Finds _ _ _ _ _ (field-Finds _ ops.worker_sequence) λ after.
            then_step-Finds _ _ _ _ _ (note_sequence-Finds _ before after) λ _.
              done-Finds _ _ (worker_read worker before after) λ w4 p e.
                let (w3, (w2, (w1, start, r1), r2), r3) = p in
                let (agree, published, even) = stable_facts before after odd e in
                record {
                  w1 = w1;
                  w2 = w2;
                  w3 = w3;
                  w4 = w4;
                  sequence_before = r1 ∙ ap (λ n. (w2, some n)) agree;
                  worker_found = r2;
                  sequence_after = r3;
                  published = published;
                  even = even;
                }

module _ {W : Type 0} where
  -- Whatever the world, a step that has a value has one with the property.
  unfoldable pub Yields : {A : Type 0} → (A → Type 0) → Steps W A → Type 0
  Yields Q s = (k : Work W) → FindsEnd (λ w a. Q a) (s k)

  Finds-Yields :
      {A : Type 0} (Q : A → Type 0) (s : Steps W A) → Finds (λ w. 0 ≤ 0) s (λ w a. Q a) → Yields Q s
  unfolding Finds Yields
  Finds-Yields Q s h k = h k (omega arith)

  goes_on-Yields :
      {A B : Type 0} (Q : A → Type 0) (R : B → Type 0) (r : Work W × Step A) (rest : A → Steps W B)
      → FindsEnd (λ w a. Q a) r
      → ((a : A) → Q a → Yields R (rest a))
      → FindsEnd (λ w b. R b) (goes_on r rest)
  unfolding goes_on FindsEnd Yields
  goes_on-Yields Q R (k, Step.stopped r) rest h g = h
  goes_on-Yields Q R (k, Step.skipped) rest h g = h
  goes_on-Yields Q R (k, Step.value a) rest h g = g a h k

  then_step-Yields :
      {A B : Type 0} (Q : A → Type 0) (R : B → Type 0) (first : Steps W A) (rest : A → Steps W B)
      → Yields Q first
      → ((a : A) → Q a → Yields R (rest a))
      → Yields R (then_step first rest)
  unfolding then_step Yields
  then_step-Yields Q R first rest h g k = goes_on-Yields Q R (first k) rest (h k) g

  any_end : {A : Type 0} (r : Work W × Step A) → FindsEnd (λ w a. 0 ≤ 0) r
  unfolding FindsEnd
  any_end (k, Step.stopped r) = omega arith
  any_end (k, Step.skipped) = omega arith
  any_end (k, Step.value a) = omega arith

  pub any_step : {A : Type 0} (s : Steps W A) → Yields (λ a. 0 ≤ 0) s
  unfolding Yields
  any_step s k = any_end (s k)

  -- After a step of which nothing is used.
  after_any :
      {A B : Type 0} (R : B → Type 0) (first : Steps W A) (rest : A → Steps W B)
      → ((a : A) → Yields R (rest a))
      → Yields R (then_step first rest)
  unfolding Yields
  after_any R first rest g =
      then_step-Yields (λ a. 0 ≤ 0) R first rest (λ k. any_end (first k)) (λ a _. g a)

module _ (W : Type 0) where
  done-Yields : {A : Type 0} (Q : A → Type 0) (a : A) → Q a → Yields {W = W} Q (done a)
  unfolding done Yields FindsEnd
  done-Yields Q a h k = h

-- What the parts that were read between the looks at the header are, when they are stable.
pub record IsBetween {W : Type 0} (ops : StatusReadOpsV3 W) (b : Between) : Type 0 where
  pub first : OwnerSeen ops b.first
  pub second : OwnerSeen ops b.second
  pub worker : WorkerSeen ops b.worker

module _ {W : Type 0} (ops : StatusReadOpsV3 W) where
  owner_step : Yields (OwnerSeen ops) (then_step (field ops.owner_sequence) (read_owner_block ops))
  owner_step = Finds-Yields (OwnerSeen ops) _ (
      then_step-Finds _ _ _ _ _ (field-Finds _ ops.owner_sequence)
        (read_owner_block-Finds ops (λ w. 0 ≤ 0)))

  worker_step :
      Yields (WorkerSeen ops) (then_step (field ops.worker_sequence) (read_worker_block ops))
  worker_step = Finds-Yields (WorkerSeen ops) _ (
      then_step-Finds _ _ _ _ _ (field-Finds _ ops.worker_sequence)
        (read_worker_block-Finds ops (λ w. 0 ≤ 0)))

  pub read_between-Yields :
      (pause : ℕ) (header : StatusHeader) → Yields (IsBetween ops) (read_between ops pause header)
  unfolding read_between
  read_between-Yields pause header =
      then_step-Yields (OwnerSeen ops) (IsBetween ops) _ _ owner_step λ first seen_first.
        then_step-Yields (WorkerSeen ops) (IsBetween ops) _ _ worker_step λ worker seen_worker.
          after_any (IsBetween ops) (field ops.log_identity_ready) _ λ log_before.
            after_any (IsBetween ops) (fail_if (ltb 2 log_before)) _ λ _.
              after_any (IsBetween ops) (read_log ops log_before) _ λ log.
                after_any (IsBetween ops) (field ops.log_identity_ready) _ λ log_after.
                  then_step-Yields (OwnerSeen ops) (IsBetween ops) _ _ owner_step
                    λ second seen_second. after_any (IsBetween ops) (gates ops) _ λ pause_after.
                      after_any (IsBetween ops) (field ops.header_ready) _ λ ready_after.
                        after_any (IsBetween ops) (field ops.header) _ λ header_after.
                          after_any (IsBetween ops)
                            (fail_if (
                              ltb 2 ready_after
                              || ltb 2 log_after
                              || not (ready_after == 1)
                              || not (same_header header header_after)))
                            _
                            λ _.
                              done-Yields W (IsBetween ops)
                                (between first second worker log_before log log_after pause
                                  pause_after)
                                (record {
                                  first = seen_first;
                                  second = seen_second;
                                  worker = seen_worker;
                                })
