-- ===== src/Snapshot/Core/Read.antt =====
-- src/shared/steam_reporting_snapshot_v3.cpp: the attempts of `ReadStatusSnapshotV3`.
use rs2server_fix.Base.{
  ℕ, zero, suc, Bool, true, false, not, ◌&&◌, ◌||◌, Option, none, some, List, same, all, ltb, ◌==◌,
  if◌then◌else◌,
}
use rs2server_fix.Status.Wire.{StatusHeader, LogIdentity, StatusWireV3}
use rs2server_fix.Snapshot.Words.{
  zero_identity, header_words, payload_words, transport_words, identity_words,
}
use rs2server_fix.Snapshot.Core.{
  SnapshotResultV3, StatusSnapshotV3, zero_snapshot, header_valid, identity_valid, core_valid,
}
use rs2server_fix.Snapshot.Core.Steps.{
  StatusReadOpsV3, Work, Step, Steps, then_step, field, update_out, fail_if, skip_if, done, on_wire,
  gates, OwnerRead, WorkerRead, read_owner_block, read_worker_block, read_console,
}

abbrev pub same_header : StatusHeader → StatusHeader → Bool
same_header a b = same (header_words a) (header_words b)

abbrev pub same_identity : LogIdentity → LogIdentity → Bool
same_identity a b = same (identity_words a) (identity_words b)

abbrev pub other_identity : Option LogIdentity → LogIdentity → Bool
other_identity none log = false
other_identity (some seen) log = not (same_identity seen log)

abbrev pub has_seen : Option LogIdentity → Bool
has_seen none = false
has_seen (some log) = true

-- What one attempt has read between its two looks at the header.
pub record Between : Type 0 where
  pub first : OwnerRead
  pub second : OwnerRead
  pub worker : WorkerRead
  pub log_before : ℕ
  pub log : LogIdentity
  pub log_after : ℕ
  pub pause_before : ℕ
  pub pause_after : ℕ

abbrev pub between : OwnerRead → OwnerRead → WorkerRead → ℕ → LogIdentity → ℕ → ℕ → ℕ → Between
between first second worker log_before log log_after pause_before pause_after = record {
  first = first;
  second = second;
  worker = worker;
  log_before = log_before;
  log = log;
  log_after = log_after;
  pause_before = pause_before;
  pause_after = pause_after;
}

abbrev pub kept_reserved : List ℕ → StatusSnapshotV3 → StatusSnapshotV3
kept_reserved reserved = on_wire (λ w. record w { reserved = reserved })

abbrev pub kept_header : StatusHeader → StatusSnapshotV3 → StatusSnapshotV3
kept_header header s = record s {
  wire = record s.wire { header = header };
  header_available = true;
}

abbrev pub kept_wire : Between → StatusWireV3 → StatusWireV3
kept_wire b w = record w {
  owner = b.second.owner;
  owner_transport = b.second.transport;
  owner_sequence = b.second.sequence;
  worker = b.worker.worker;
  worker_sequence = b.worker.sequence;
  log = b.log;
  log_identity_ready = b.log_before;
  worker_pause_reason = if b.pause_after == 0 then b.pause_before else b.pause_after;
  header_ready = 1;
}

-- A block was being written while it was read.
abbrev pub unsettled : Between → Bool
unsettled b =
    not b.first.stable
    || not b.second.stable
    || not b.worker.stable
    || not (b.first.sequence == b.second.sequence)
    || not (b.log_before == b.log_after)

-- The two reads of one publication differ.
abbrev pub two_owners : Between → Bool
two_owners b =
    not (same (payload_words b.first.owner) (payload_words b.second.owner))
    || not (same (transport_words b.first.transport) (transport_words b.second.transport))

module _ {W : Type 0} where
  unfoldable pub header_step : StatusHeader → Steps W Bool
  header_step header k = (
    k,
    if k.out.header_available && not (same_header k.out.wire.header header)
        then Step.stopped SnapshotResultV3.invalid
        else Step.value true,
  )

  -- The header, which is checked before it is kept.
  unfoldable pub read_header : StatusReadOpsV3 W → Steps W StatusHeader
  unfolding then_step field fail_if header_valid update_out header_step done
  read_header ops = then_step (field ops.header) λ header.
      then_step (fail_if (not (header_valid header))) λ _.
        then_step (field ops.reserved) λ reserved.
          then_step (update_out (kept_reserved reserved)) λ _.
            then_step (fail_if (not (all (λ word. word == 0) reserved))) λ _.
              then_step (header_step header)
                λ _. then_step (update_out (kept_header header)) λ _. done header

  unfoldable pub read_log : StatusReadOpsV3 W → ℕ → Steps W LogIdentity
  unfolding field done
  read_log ops before = if before == 1 then field ops.log else done zero_identity

  -- The reads after the header, in their order, and the second look at the header.
  unfoldable pub read_between : StatusReadOpsV3 W → ℕ → StatusHeader → Steps W Between
  unfolding then_step field fail_if read_log read_owner_block read_worker_block gates done
  read_between ops pause_before header =
      then_step (then_step (field ops.owner_sequence) (read_owner_block ops)) λ first.
        then_step (then_step (field ops.worker_sequence) (read_worker_block ops)) λ worker.
          then_step (field ops.log_identity_ready) λ log_before.
            then_step (fail_if (ltb 2 log_before)) λ _. then_step (read_log ops log_before) λ log.
              then_step (field ops.log_identity_ready) λ log_after.
                then_step (then_step (field ops.owner_sequence) (read_owner_block ops)) λ second.
                  then_step (gates ops) λ pause_after.
                    then_step (field ops.header_ready) λ ready_after.
                      then_step (field ops.header) λ header_after.
                        then_step
                          (fail_if (
                            ltb 2 ready_after
                            || ltb 2 log_after
                            || not (ready_after == 1)
                            || not (same_header header header_after)))
                          λ _. done (
                            between first second worker log_before log log_after pause_before
                              pause_after)

  abbrev pub noted_order : Between → Work W → Work W
  noted_order b k = record k {
    highest_owner = b.second.sequence;
    highest_worker = b.worker.sequence;
  }

  -- The sequences never go back.
  unfoldable pub order_step : Between → Steps W Bool
  order_step b k = (
    noted_order b k,
    if k.invalid_sequence
          || ltb b.first.sequence k.highest_owner
          || ltb b.second.sequence b.first.sequence
          || ltb b.worker.sequence k.highest_worker
        then Step.stopped SnapshotResultV3.invalid
        else Step.value true,
  )

  -- The identity of the log, which does not change once it was seen.
  unfoldable pub same_log : Between → Steps W Bool
  unfolding identity_valid
  same_log b k =
      if not (identity_valid b.log) || other_identity k.seen_log b.log
      then (k, Step.stopped SnapshotResultV3.invalid)
      else (record k { seen_log = some b.log }, Step.value true)

  unfoldable pub complete_log : Between → Steps W Bool
  unfolding same_log
  complete_log b k =
      if b.log_before == 1 && b.log_after == 1 then same_log b k else (k, Step.value true)

  -- Nor is it taken back.
  unfoldable pub log_step : Between → Steps W Bool
  unfolding complete_log
  log_step b k =
      if b.log_before == 1 && not (b.log_after == 1)
        || b.log_before == 2 && b.log_after == 0
        || has_seen k.seen_log && (not (b.log_before == 1) || not (b.log_after == 1))
      then (k, Step.stopped SnapshotResultV3.invalid)
      else complete_log b k

  unfoldable pub keep_between : Between → Steps W Bool
  unfolding update_out
  keep_between b = update_out (λ s. record s {
    wire = kept_wire b s.wire;
    log_identity_available = b.log_before == 1;
    worker_pause_changed = not (b.pause_before == b.pause_after);
  })

  unfoldable pub final_step : ℕ → ℕ → Steps W Bool
  unfolding update_out
  final_step pause_after final_pause = update_out (λ s. record s {
    worker_pause_changed = s.worker_pause_changed || not (final_pause == pause_after);
    wire = record s.wire {
      worker_pause_reason = if final_pause == 0 then s.wire.worker_pause_reason else final_pause;
    };
  })

  -- The verdict on the core, which ends the reading.
  unfoldable pub conclude_core : Steps W Bool
  unfolding core_valid
  conclude_core k =
      if core_valid k.out.wire
      then (
        record k { out = record k.out { core_available = true } },
        Step.stopped SnapshotResultV3.coherent,
      )
      else (k, Step.stopped SnapshotResultV3.invalid)

  unfoldable pub settle_core : StatusReadOpsV3 W → Between → Steps W Bool
  unfolding then_step order_step log_step skip_if fail_if keep_between read_console gates final_step
      conclude_core
  settle_core ops b = then_step (order_step b) λ _. then_step (log_step b) λ _.
      then_step (skip_if (unsettled b)) λ _. then_step (fail_if (two_owners b)) λ _.
        then_step (keep_between b) λ _. then_step (read_console ops) λ _.
          then_step (gates ops)
            λ final_pause. then_step (final_step b.pause_after final_pause) λ _. conclude_core

  unfoldable pub core_attempt : StatusReadOpsV3 W → Steps W Bool
  unfolding then_step field gates fail_if skip_if read_header read_between settle_core
  core_attempt ops = then_step (field ops.header_ready) λ ready_before.
      then_step (gates ops) λ pause_before. then_step (fail_if (ltb 2 ready_before)) λ _.
        then_step (skip_if (not (ready_before == 1))) λ _.
          then_step (read_header ops)
            λ header. then_step (read_between ops pause_before header) λ b. settle_core ops b

  -- What follows an attempt.
  unfoldable pub next_attempt :
      Work W × Step Bool
      → (Work W → SnapshotResultV3 × StatusSnapshotV3)
      → SnapshotResultV3 × StatusSnapshotV3
  next_attempt (k, Step.stopped r) rest = (r, k.out)
  next_attempt (k, Step.skipped) rest = rest k
  next_attempt (k, Step.value b) rest = rest k

  -- The attempts after `made` of them, with `left` to come.
  unfoldable pub core_attempts :
      StatusReadOpsV3 W → ℕ → ℕ → Work W → SnapshotResultV3 × StatusSnapshotV3
  unfolding core_attempt next_attempt
  core_attempts ops made zero k = (
    if k.out.header_available then SnapshotResultV3.busy else SnapshotResultV3.unpublished,
    k.out,
  )
  core_attempts ops made (suc left) k =
      next_attempt (core_attempt ops (record k { out = record k.out { attempts = suc made } }))
        (core_attempts ops (suc made) left)

  abbrev pub first_work : W → Work W
  first_work w = record {
    world = w;
    out = zero_snapshot;
    invalid_sequence = false;
    highest_owner = 0;
    highest_worker = 0;
    seen_log = none;
  }

  unfoldable pub read_status_snapshot : StatusReadOpsV3 W → W → SnapshotResultV3 × StatusSnapshotV3
  unfolding core_attempts
  read_status_snapshot ops w = core_attempts ops 0 3 (first_work w)
