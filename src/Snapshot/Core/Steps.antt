-- ===== src/Snapshot/Core/Steps.antt =====
-- src/shared/steam_reporting_snapshot_v3.cpp: the reading of a status block, in up to three attempts.
-- A step on the reader's state fails the reading, skips to the next attempt, or has a value.
use Prim.Native.Nat.{bit_or}
use rs2server_fix.Base.{
  ℕ, ◌%◌, Bool, true, false, not, ◌&&◌, ◌||◌, Option, none, some, List, ltb, ◌==◌, if◌then◌else◌,
}
use rs2server_fix.Status.Wire.{
  StatusHeader, StatusPayload, OwnerTransport, WorkerTransport, ConsoleDiagnostics, LogIdentity,
  StatusWireV3,
}
use rs2server_fix.Status.{console_acceptable, no_owner_transport, no_worker}
use rs2server_fix.Snapshot.Words.{zero_payload}
use rs2server_fix.Snapshot.Core.{SnapshotResultV3, StatusSnapshotV3}

pub record StatusReadOpsV3 (W : Type 0) : Type 0 where
  pub header : W → W × Option StatusHeader
  pub header_ready : W → W × Option ℕ
  pub revoke_reasons : W → W × Option ℕ
  pub loss_reasons : W → W × Option ℕ
  pub stopping : W → W × Option ℕ
  pub stopped_qpc : W → W × Option ℕ
  pub fatal_transport_reason : W → W × Option ℕ
  pub worker_pause_reason : W → W × Option ℕ
  pub reserved : W → W × Option (List ℕ)
  pub owner_sequence : W → W × Option ℕ
  pub owner : W → W × Option StatusPayload
  pub owner_transport : W → W × Option OwnerTransport
  pub worker_sequence : W → W × Option ℕ
  pub worker : W → W × Option WorkerTransport
  pub log_identity_ready : W → W × Option ℕ
  pub log : W → W × Option LogIdentity
  pub console_sequence : W → W × Option ℕ
  pub console : W → W × Option ConsoleDiagnostics

-- The reader's state, with the output.
pub record Work (W : Type 0) : Type 0 where
  pub world : W
  pub out : StatusSnapshotV3
  pub invalid_sequence : Bool
  pub highest_owner : ℕ
  pub highest_worker : ℕ
  pub seen_log : Option LogIdentity

pub data Step (A : Type 0) : Type 0 where
  stopped : SnapshotResultV3 → Step A
  skipped : Step A
  value : A → Step A

abbrev pub Steps : Type 0 → Type 0 → Type 0
Steps W A = Work W → Work W × Step A

module _ {W : Type 0} where
  unfoldable pub goes_on : {A B : Type 0} → Work W × Step A → (A → Steps W B) → Work W × Step B
  goes_on (k, Step.stopped r) rest = (k, Step.stopped r)
  goes_on (k, Step.skipped) rest = (k, Step.skipped)
  goes_on (k, Step.value a) rest = rest a k

  unfoldable pub then_step : {A B : Type 0} → Steps W A → (A → Steps W B) → Steps W B
  unfolding goes_on
  then_step first rest k = goes_on (first k) rest

  unfoldable pub got_field : {A : Type 0} → Work W → W × Option A → Work W × Step A
  got_field k (w, none) = (record k { world = w }, Step.stopped SnapshotResultV3.read_failure)
  got_field k (w, some a) = (record k { world = w }, Step.value a)

  -- `At`.
  unfoldable pub field : {A : Type 0} → (W → W × Option A) → Steps W A
  unfolding got_field
  field read k = got_field k (read k.world)

  unfoldable pub update_out : (StatusSnapshotV3 → StatusSnapshotV3) → Steps W Bool
  update_out f k = (record k { out = f k.out }, Step.value true)

  unfoldable pub fail_if : Bool → Steps W Bool
  fail_if b k = (k, if b then Step.stopped SnapshotResultV3.invalid else Step.value true)

  unfoldable pub skip_if : Bool → Steps W Bool
  skip_if b k = (k, if b then Step.skipped else Step.value true)

  unfoldable pub done : {A : Type 0} → A → Steps W A
  done a k = (k, Step.value a)

-- A change of the wire of the output.
abbrev pub on_wire : (StatusWireV3 → StatusWireV3) → StatusSnapshotV3 → StatusSnapshotV3
on_wire f s = record s { wire = f s.wire }

abbrev pub keep_revoked : ℕ → StatusSnapshotV3 → StatusSnapshotV3
keep_revoked a = on_wire (λ w. record w { revoke_reasons = bit_or w.revoke_reasons a })

abbrev pub keep_lost : ℕ → StatusSnapshotV3 → StatusSnapshotV3
keep_lost a = on_wire (λ w. record w { loss_reasons = bit_or w.loss_reasons a })

abbrev pub keep_stopping : ℕ → StatusSnapshotV3 → StatusSnapshotV3
keep_stopping a = on_wire (λ w. record w { stopping = bit_or w.stopping a })

abbrev pub keep_stopped : ℕ → StatusSnapshotV3 → StatusSnapshotV3
keep_stopped a =
    on_wire (λ w. record w { stopped_qpc = if ltb w.stopped_qpc a then a else w.stopped_qpc })

abbrev pub keep_fatal : ℕ → StatusSnapshotV3 → StatusSnapshotV3
keep_fatal a = on_wire (λ w. record w {
  fatal_transport_reason = if w.fatal_transport_reason == 0 then a else w.fatal_transport_reason;
})

module _ {W : Type 0} where
  -- A sticky word is read and kept.
  unfoldable pub gate :
      (W → W × Option ℕ) → (ℕ → StatusSnapshotV3 → StatusSnapshotV3) → Steps W Bool
  unfolding then_step field update_out
  gate read keep = then_step (field read) λ a. update_out (keep a)

  -- `Gates`, which returns the worker's gate.
  unfoldable pub gates : StatusReadOpsV3 W → Steps W ℕ
  unfolding gate then_step field
  gates ops = then_step (gate ops.revoke_reasons keep_revoked) λ _.
      then_step (gate ops.loss_reasons keep_lost) λ _.
        then_step (gate ops.stopping keep_stopping) λ _.
          then_step (gate ops.stopped_qpc keep_stopped) λ _.
            then_step (gate ops.fatal_transport_reason keep_fatal)
              λ _. field ops.worker_pause_reason

-- What `Owner` and `Worker` return.
pub record OwnerRead : Type 0 where
  pub owner : StatusPayload
  pub transport : OwnerTransport
  pub sequence : ℕ
  pub stable : Bool

pub record WorkerRead : Type 0 where
  pub worker : WorkerTransport
  pub sequence : ℕ
  pub stable : Bool

abbrev pub unstable : ℕ → Bool
unstable before = ltb before 2 || before % 2 == 1

abbrev pub is_stable : ℕ → ℕ → Bool
is_stable before after = before == after && not (after % 2 == 1)

abbrev pub no_owner_read : ℕ → OwnerRead
no_owner_read before = record {
  owner = zero_payload;
  transport = no_owner_transport;
  sequence = before;
  stable = false;
}

abbrev pub owner_read : StatusPayload → OwnerTransport → ℕ → ℕ → OwnerRead
owner_read owner transport before after = record {
  owner = owner;
  transport = transport;
  sequence = after;
  stable = is_stable before after;
}

abbrev pub no_worker_read : ℕ → WorkerRead
no_worker_read before = record { worker = no_worker; sequence = before; stable = false }

abbrev pub worker_read : WorkerTransport → ℕ → ℕ → WorkerRead
worker_read worker before after = record {
  worker = worker;
  sequence = after;
  stable = is_stable before after;
}

module _ {W : Type 0} where
  unfoldable pub note_sequence : ℕ → ℕ → Steps W Bool
  note_sequence before after k =
      (record k { invalid_sequence = k.invalid_sequence || ltb after before }, Step.value true)

  unfoldable pub read_owner_block : StatusReadOpsV3 W → ℕ → Steps W OwnerRead
  unfolding then_step field note_sequence done
  read_owner_block ops before =
      if unstable before
      then done (no_owner_read before)
      else then_step (field ops.owner) λ owner. then_step (field ops.owner_transport) λ transport.
        then_step (field ops.owner_sequence) λ after.
          then_step (note_sequence before after) λ _. done (owner_read owner transport before after)

  unfoldable pub read_worker_block : StatusReadOpsV3 W → ℕ → Steps W WorkerRead
  unfolding then_step field note_sequence done
  read_worker_block ops before =
      if unstable before
      then done (no_worker_read before)
      else then_step (field ops.worker) λ worker.
        then_step (field ops.worker_sequence) λ after.
          then_step (note_sequence before after) λ _. done (worker_read worker before after)

  -- `Console`, whose failure changes nothing.
  unfoldable pub keep_console : ℕ → ConsoleDiagnostics → ℕ → Steps W Bool
  unfolding update_out console_acceptable done
  keep_console before console after =
      if not (is_stable before after) || not (console_acceptable console)
      then done true
      else update_out (λ s. record s {
        wire = record s.wire { console = console; console_sequence = after };
        console_diagnostics_available = true;
      })

  unfoldable pub console_steps : StatusReadOpsV3 W → Steps W Bool
  unfolding then_step field keep_console done
  console_steps ops = then_step (field ops.console_sequence) λ before.
      if unstable before
      then done true
      else then_step (field ops.console) λ console.
        then_step (field ops.console_sequence) λ after. keep_console before console after

  unfoldable pub regardless : Work W × Step Bool → Work W × Step Bool
  regardless (k, s) = (k, Step.value true)

  unfoldable pub read_console : StatusReadOpsV3 W → Steps W Bool
  unfolding regardless console_steps
  read_console ops k = regardless (console_steps ops k)
