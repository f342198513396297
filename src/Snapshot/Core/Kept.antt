-- ===== src/Snapshot/Core/Kept.antt =====
-- src/shared/steam_reporting_snapshot_v3.cpp: what the steps after the owner and the worker leave as it is.
use rs2server_fix.Base.{ℕ, ◌≡◌, Bool, true, not, ◌||◌, Option, none, some, pick}
use rs2server_fix.Status.Wire.{StatusPayload, OwnerTransport, WorkerTransport, ConsoleDiagnostics}
use rs2server_fix.Status.{console_acceptable}
use rs2server_fix.Snapshot.Words.{payload_words, transport_words}
use rs2server_fix.Snapshot.Core.{StatusSnapshotV3}
use rs2server_fix.Snapshot.Core.Steps.{
  StatusReadOpsV3, Work, Step, Steps, goes_on, then_step, got_field, field, update_out, done, gate,
  gates, keep_revoked, keep_lost, keep_stopping, keep_stopped, keep_fatal, unstable, is_stable,
  keep_console, console_steps, regardless, read_console,
}
use rs2server_fix.Snapshot.Core.Read.{final_step}
use rs2server_fix.Snapshot.Core.Seen.{IsOwnerRead, IsWorkerRead}

-- A publication of the owner that was read twice, with the same words, and one of the worker.
pub record IsSettled {W : Type 0} (ops : StatusReadOpsV3 W) (owner : StatusPayload)
    (transport : OwnerTransport) (owner_sequence : ℕ) (worker : WorkerTransport)
    (worker_sequence : ℕ) : Type 0 where
  pub first_owner : StatusPayload
  pub first_transport : OwnerTransport
  pub first : IsOwnerRead ops first_owner first_transport owner_sequence
  pub second : IsOwnerRead ops owner transport owner_sequence
  pub same_owner : payload_words first_owner ≡ payload_words owner
  pub same_transport : transport_words first_transport ≡ transport_words transport
  pub worker_seen : IsWorkerRead ops worker worker_sequence

abbrev pub SettledIn : {W : Type 0} → StatusReadOpsV3 W → StatusSnapshotV3 → Type 0
SettledIn ops s =
    IsSettled ops s.wire.owner s.wire.owner_transport s.wire.owner_sequence s.wire.worker
      s.wire.worker_sequence

module _ {W : Type 0} (ops : StatusReadOpsV3 W) where
  unfoldable pub KeptEnd : {A : Type 0} → Work W × Step A → Type 0
  KeptEnd r = SettledIn ops r.0.out

  unfoldable pub Keeps : {A : Type 0} → Steps W A → Type 0
  Keeps s = (k : Work W) → SettledIn ops k.out → KeptEnd (s k)

  goes_on-Keeps :
      {A B : Type 0} (r : Work W × Step A) (rest : A → Steps W B)
      → KeptEnd r
      → ((a : A) → Keeps (rest a))
      → KeptEnd (goes_on r rest)
  unfolding goes_on KeptEnd Keeps
  goes_on-Keeps (k, Step.stopped r) rest h g = h
  goes_on-Keeps (k, Step.skipped) rest h g = h
  goes_on-Keeps (k, Step.value a) rest h g = g a k h

  then_step-Keeps :
      {A B : Type 0} (first : Steps W A) (rest : A → Steps W B)
      → Keeps first
      → ((a : A) → Keeps (rest a))
      → Keeps (then_step first rest)
  unfolding then_step Keeps
  then_step-Keeps first rest h g k p = goes_on-Keeps (first k) rest (h k p) g

  got_field-Keeps :
      {A : Type 0} (k : Work W) (r : W × Option A) → SettledIn ops k.out → KeptEnd (got_field k r)
  unfolding got_field KeptEnd
  got_field-Keeps k (w, none) p = p
  got_field-Keeps k (w, some a) p = p

  field-Keeps : {A : Type 0} (read : W → W × Option A) → Keeps (field read)
  unfolding field Keeps
  field-Keeps read k p = got_field-Keeps k (read k.world) p

  update_out-Keeps :
      (f : StatusSnapshotV3 → StatusSnapshotV3)
      → ((s : StatusSnapshotV3) → SettledIn ops s → SettledIn ops (f s))
      → Keeps (update_out f)
  unfolding update_out Keeps KeptEnd
  update_out-Keeps f h k p = h k.out p

  done-Keeps : {A : Type 0} (a : A) → Keeps (done a)
  unfolding done Keeps KeptEnd
  done-Keeps a k p = p

  gate-Keeps :
      (read : W → W × Option ℕ) (keep : ℕ → StatusSnapshotV3 → StatusSnapshotV3)
      → ((a : ℕ) (s : StatusSnapshotV3) → SettledIn ops s → SettledIn ops (keep a s))
      → Keeps (gate read keep)
  unfolding gate
  gate-Keeps read keep h =
      then_step-Keeps (field read) (λ a. update_out (keep a)) (field-Keeps read)
        λ a. update_out-Keeps (keep a) (h a)

  pub gates-Keeps : Keeps (gates ops)
  unfolding gates
  gates-Keeps = then_step-Keeps _ _ (gate-Keeps ops.revoke_reasons keep_revoked (λ a s p. p)) λ _.
      then_step-Keeps _ _ (gate-Keeps ops.loss_reasons keep_lost (λ a s p. p)) λ _.
        then_step-Keeps _ _ (gate-Keeps ops.stopping keep_stopping (λ a s p. p)) λ _.
          then_step-Keeps _ _ (gate-Keeps ops.stopped_qpc keep_stopped (λ a s p. p)) λ _.
            then_step-Keeps _ _ (gate-Keeps ops.fatal_transport_reason keep_fatal (λ a s p. p))
              λ _. field-Keeps ops.worker_pause_reason

  keep_console-Keeps :
      (before : ℕ) (console : ConsoleDiagnostics) (after : ℕ)
      → Keeps (keep_console before console after)
  unfolding keep_console
  keep_console-Keeps before console after =
      pick Keeps (not (is_stable before after) || not (console_acceptable console)) _ _
        (λ _. done-Keeps true) (λ _. update_out-Keeps _ (λ s p. p))

  console_steps-Keeps : Keeps (console_steps ops)
  unfolding console_steps
  console_steps-Keeps = then_step-Keeps _ _ (field-Keeps ops.console_sequence) λ before.
      pick Keeps (unstable before) _ _ (λ _. done-Keeps true)
        λ _. then_step-Keeps _ _ (field-Keeps ops.console) λ console.
          then_step-Keeps _ _ (field-Keeps ops.console_sequence)
            λ after. keep_console-Keeps before console after

  regardless-Keeps : (r : Work W × Step Bool) → KeptEnd r → KeptEnd (regardless r)
  unfolding regardless KeptEnd
  regardless-Keeps (k, s) p = p

  pub read_console-Keeps : Keeps (read_console ops)
  unfolding read_console Keeps
  read_console-Keeps k p = regardless-Keeps (console_steps ops k) (kept_by_console k p)
    where
      kept_by_console : (k : Work W) → SettledIn ops k.out → KeptEnd (console_steps ops k)
      kept_by_console = console_steps-Keeps

  pub final_step-Keeps : (pause_after final_pause : ℕ) → Keeps (final_step pause_after final_pause)
  unfolding final_step
  final_step-Keeps pause_after final_pause = update_out-Keeps _ (λ s p. p)
