-- ===== src/Snapshot/Core/Quiet.antt =====
-- src/shared/steam_reporting_snapshot_v3.cpp: the steps of a reading that do not settle its result.
use rs2server_fix.Base.{
  ℕ, ◌%◌, ◌≤◌, Bool, true, false, not, ◌&&◌, ◌||◌, Option, none, some, all, ltb, ◌==◌, pick, arith,
}
use rs2server_fix.Status.Wire.{StatusHeader}
use rs2server_fix.Snapshot.Core.{SnapshotResultV3, StatusSnapshotV3, header_valid}
use rs2server_fix.Snapshot.Core.Steps.{
  StatusReadOpsV3, Work, Step, Steps, goes_on, then_step, got_field, field, update_out, fail_if,
  gate, keep_revoked, keep_lost, keep_stopping, keep_stopped, keep_fatal, no_owner_read, owner_read,
  no_worker_read, worker_read, skip_if, done, gates, note_sequence, read_owner_block,
  read_worker_block, regardless, read_console, console_steps,
}
use rs2server_fix.Snapshot.Core.Read.{
  Between, between, kept_reserved, kept_header, header_step, noted_order, read_header, read_log,
  read_between, order_step, same_log, complete_log, log_step, keep_between, final_step, same_header,
  has_seen, other_identity,
}
use rs2server_fix.Snapshot.Core.{identity_valid}
use rs2server_fix.Snapshot.Words.{zero_identity}

-- The results that say nothing of it.
unfoldable pub Refuses : SnapshotResultV3 → Type 0
Refuses SnapshotResultV3.coherent = ⊥
Refuses SnapshotResultV3.unpublished = ⊥
Refuses SnapshotResultV3.busy = ⊥
Refuses SnapshotResultV3.read_failure = 0 ≤ 0
Refuses SnapshotResultV3.invalid = 0 ≤ 0

module _ {W : Type 0} where
  -- A step that does not end the reading as coherent.
  unfoldable pub QuietEnd : {A : Type 0} → Work W × Step A → Type 0
  QuietEnd (k, Step.stopped r) = Refuses r
  QuietEnd (k, Step.skipped) = 0 ≤ 0
  QuietEnd (k, Step.value a) = 0 ≤ 0

  unfoldable pub Quiet : {A : Type 0} → Steps W A → Type 0
  Quiet s = (k : Work W) → QuietEnd (s k)

  stopped_end : (k : Work W) → QuietEnd {A = Bool} (k, Step.stopped SnapshotResultV3.invalid)
  unfolding QuietEnd Refuses
  stopped_end k = omega arith

  value_end : (k : Work W) → QuietEnd {A = Bool} (k, Step.value true)
  unfolding QuietEnd
  value_end k = omega arith

  end_lem : {A : Type 0} (s : Steps W A) → Quiet s → (k : Work W) → QuietEnd (s k)
  unfolding Quiet
  end_lem s h k = h k

  goes_on-Quiet :
      {A B : Type 0} (r : Work W × Step A) (rest : A → Steps W B)
      → QuietEnd r
      → ((a : A) → Quiet (rest a))
      → QuietEnd (goes_on r rest)
  unfolding goes_on QuietEnd Quiet
  goes_on-Quiet (k, Step.stopped r) rest h g = h
  goes_on-Quiet (k, Step.skipped) rest h g = h
  goes_on-Quiet (k, Step.value a) rest h g = g a k

  then_step-Quiet :
      {A B : Type 0} (first : Steps W A) (rest : A → Steps W B)
      → Quiet first
      → ((a : A) → Quiet (rest a))
      → Quiet (then_step first rest)
  unfolding then_step Quiet
  then_step-Quiet first rest h g k = goes_on-Quiet (first k) rest (h k) g

  got_field-Quiet : {A : Type 0} (k : Work W) (r : W × Option A) → QuietEnd (got_field k r)
  unfolding got_field QuietEnd Refuses
  got_field-Quiet k (w, none) = omega arith
  got_field-Quiet k (w, some a) = omega arith

  pub field-Quiet : {A : Type 0} (read : W → W × Option A) → Quiet (field read)
  unfolding field Quiet
  field-Quiet read k = got_field-Quiet k (read k.world)

module _ (W : Type 0) where
  update_out-Quiet : (f : StatusSnapshotV3 → StatusSnapshotV3) → Quiet (update_out {W = W} f)
  unfolding update_out Quiet QuietEnd
  update_out-Quiet f k = omega arith

  pub fail_if-Quiet : (b : Bool) → Quiet (fail_if {W = W} b)
  unfolding fail_if Quiet QuietEnd Refuses
  fail_if-Quiet true k = omega arith
  fail_if-Quiet false k = omega arith

  pub skip_if-Quiet : (b : Bool) → Quiet (skip_if {W = W} b)
  unfolding skip_if Quiet QuietEnd
  skip_if-Quiet true k = omega arith
  skip_if-Quiet false k = omega arith

  done-Quiet : {A : Type 0} (a : A) → Quiet (done {W = W} a)
  unfolding done Quiet QuietEnd
  done-Quiet a k = omega arith

  note_sequence-Quiet : (before after : ℕ) → Quiet {W = W} (note_sequence before after)
  unfolding note_sequence Quiet QuietEnd
  note_sequence-Quiet before after k = omega arith

  header_step-Quiet : (header : StatusHeader) → Quiet {W = W} (header_step header)
  unfolding header_step Quiet
  header_step-Quiet header k =
      pick (λ (s : Step Bool). QuietEnd (k, s))
        (k.out.header_available && not (same_header k.out.wire.header header)) _ _
        (λ _. stopped_end k) (λ _. value_end k)

module _ {W : Type 0} where
  gate-Quiet :
      (read : W → W × Option ℕ) (keep : ℕ → StatusSnapshotV3 → StatusSnapshotV3)
      → Quiet (gate read keep)
  unfolding gate
  gate-Quiet read keep =
      then_step-Quiet (field read) (λ a. update_out (keep a)) (field-Quiet read)
        λ a. update_out-Quiet W (keep a)

  pub gates-Quiet : (ops : StatusReadOpsV3 W) → Quiet (gates ops)
  unfolding gates
  gates-Quiet ops = then_step-Quiet _ _ (gate-Quiet ops.revoke_reasons keep_revoked) λ _.
      then_step-Quiet _ _ (gate-Quiet ops.loss_reasons keep_lost) λ _.
        then_step-Quiet _ _ (gate-Quiet ops.stopping keep_stopping) λ _.
          then_step-Quiet _ _ (gate-Quiet ops.stopped_qpc keep_stopped) λ _.
            then_step-Quiet _ _ (gate-Quiet ops.fatal_transport_reason keep_fatal)
              λ _. field-Quiet ops.worker_pause_reason

  read_owner_block-Quiet :
      (ops : StatusReadOpsV3 W) (before : ℕ) → Quiet (read_owner_block ops before)
  unfolding read_owner_block
  read_owner_block-Quiet ops before =
      pick Quiet (ltb before 2 || before % 2 == 1) _ _ (λ _. done-Quiet W (no_owner_read before))
        λ _. then_step-Quiet _ _ (field-Quiet ops.owner) λ owner.
          then_step-Quiet _ _ (field-Quiet ops.owner_transport) λ transport.
            then_step-Quiet _ _ (field-Quiet ops.owner_sequence) λ after.
              then_step-Quiet _ _ (note_sequence-Quiet W before after)
                λ _. done-Quiet W (owner_read owner transport before after)

  read_worker_block-Quiet :
      (ops : StatusReadOpsV3 W) (before : ℕ) → Quiet (read_worker_block ops before)
  unfolding read_worker_block
  read_worker_block-Quiet ops before =
      pick Quiet (ltb before 2 || before % 2 == 1) _ _ (λ _. done-Quiet W (no_worker_read before))
        λ _. then_step-Quiet _ _ (field-Quiet ops.worker) λ worker.
          then_step-Quiet _ _ (field-Quiet ops.worker_sequence) λ after.
            then_step-Quiet _ _ (note_sequence-Quiet W before after)
              λ _. done-Quiet W (worker_read worker before after)

  pub read_header-Quiet : (ops : StatusReadOpsV3 W) → Quiet (read_header ops)
  unfolding read_header
  read_header-Quiet ops = then_step-Quiet _ _ (field-Quiet ops.header) λ header.
      then_step-Quiet _ _ (fail_if-Quiet W (not (header_valid header))) λ _.
        then_step-Quiet _ _ (field-Quiet ops.reserved) λ reserved.
          then_step-Quiet _ _ (update_out-Quiet W (kept_reserved reserved)) λ _.
            then_step-Quiet _ _ (fail_if-Quiet W (not (all (λ word. word == 0) reserved))) λ _.
              then_step-Quiet _ _ (header_step-Quiet W header) λ _.
                then_step-Quiet _ _ (update_out-Quiet W (kept_header header))
                  λ _. done-Quiet W header

  read_log-Quiet : (ops : StatusReadOpsV3 W) (before : ℕ) → Quiet (read_log ops before)
  unfolding read_log
  read_log-Quiet ops before =
      pick Quiet (before == 1) (field ops.log) (done zero_identity) (λ _. field-Quiet ops.log)
        (λ _. done-Quiet W zero_identity)

  pub read_between-Quiet :
      (ops : StatusReadOpsV3 W) (pause : ℕ) (header : StatusHeader)
      → Quiet (read_between ops pause header)
  unfolding read_between
  read_between-Quiet ops pause header =
      then_step-Quiet _ _
        (then_step-Quiet (field ops.owner_sequence) (read_owner_block ops)
          (field-Quiet ops.owner_sequence) (read_owner_block-Quiet ops))
        λ first.
          then_step-Quiet _ _
            (then_step-Quiet (field ops.worker_sequence) (read_worker_block ops)
              (field-Quiet ops.worker_sequence) (read_worker_block-Quiet ops))
            λ worker. then_step-Quiet _ _ (field-Quiet ops.log_identity_ready) λ log_before.
              then_step-Quiet _ _ (fail_if-Quiet W (ltb 2 log_before)) λ _.
                then_step-Quiet _ _ (read_log-Quiet ops log_before) λ log.
                  then_step-Quiet _ _ (field-Quiet ops.log_identity_ready) λ log_after.
                    then_step-Quiet _ _
                      (then_step-Quiet (field ops.owner_sequence) (read_owner_block ops)
                        (field-Quiet ops.owner_sequence) (read_owner_block-Quiet ops))
                      λ second. then_step-Quiet _ _ (gates-Quiet ops) λ pause_after.
                        then_step-Quiet _ _ (field-Quiet ops.header_ready) λ ready_after.
                          then_step-Quiet _ _ (field-Quiet ops.header) λ header_after.
                            then_step-Quiet _ _
                              (fail_if-Quiet W (
                                ltb 2 ready_after
                                || ltb 2 log_after
                                || not (ready_after == 1)
                                || not (same_header header header_after)))
                              λ _. done-Quiet W (
                                between first second worker log_before log log_after pause
                                  pause_after)

module _ (W : Type 0) where
  pub order_step-Quiet : (b : Between) → Quiet {W = W} (order_step b)
  unfolding order_step Quiet
  order_step-Quiet b k =
      pick (λ (s : Step Bool). QuietEnd (noted_order b k, s))
        (k.invalid_sequence
          || ltb b.first.sequence k.highest_owner
          || ltb b.second.sequence b.first.sequence
          || ltb b.worker.sequence k.highest_worker)
        _ _ (λ _. stopped_end _) (λ _. value_end _)

  same_log-Quiet : (b : Between) → Quiet {W = W} (same_log b)
  unfolding same_log Quiet
  same_log-Quiet b k =
      pick (λ (r : Work W × Step Bool). QuietEnd r)
        (not (identity_valid b.log) || other_identity k.seen_log b.log)
        (k, Step.stopped SnapshotResultV3.invalid)
        (record k { seen_log = some b.log }, Step.value true) (λ _. stopped_end k)
        (λ _. value_end _)

  complete_log-Quiet : (b : Between) → Quiet {W = W} (complete_log b)
  unfolding complete_log Quiet
  complete_log-Quiet b k =
      pick (λ (r : Work W × Step Bool). QuietEnd r) (b.log_before == 1 && b.log_after == 1)
        (same_log b k) _ (λ _. end_lem (same_log b) (same_log-Quiet b) k) (λ _. value_end k)

  pub log_step-Quiet : (b : Between) → Quiet {W = W} (log_step b)
  unfolding log_step Quiet
  log_step-Quiet b k =
      pick (λ (r : Work W × Step Bool). QuietEnd r)
        (b.log_before == 1 && not (b.log_after == 1)
          || b.log_before == 2 && b.log_after == 0
          || has_seen k.seen_log && (not (b.log_before == 1) || not (b.log_after == 1)))
        (k, Step.stopped SnapshotResultV3.invalid) (complete_log b k) (λ _. stopped_end k)
        (λ _. end_lem (complete_log b) (complete_log-Quiet b) k)

  pub keep_between-Quiet : (b : Between) → Quiet {W = W} (keep_between b)
  unfolding keep_between
  keep_between-Quiet b = update_out-Quiet W _

  pub final_step-Quiet :
      (pause_after final_pause : ℕ) → Quiet {W = W} (final_step pause_after final_pause)
  unfolding final_step
  final_step-Quiet pause_after final_pause = update_out-Quiet W _

module _ {W : Type 0} where
  regardless-Quiet : (r : Work W × Step Bool) → QuietEnd (regardless r)
  unfolding regardless
  regardless-Quiet (k, s) = value_end k

  pub read_console-Quiet : (ops : StatusReadOpsV3 W) → Quiet (read_console ops)
  unfolding read_console Quiet
  read_console-Quiet ops k = regardless-Quiet (console_steps ops k)
