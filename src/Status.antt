-- ===== src/Status.antt =====
-- src/companion/steam_reporting_status_v3.cpp: the publication of the status block. The calls are
-- modelled one after another, so that the retries of `ReadOwnerV3` all see the same block; the
-- interlocked operations are plain ones, and `InterlockedOr64` with a mask of one bit is `set_bit`.
-- A stored array keeps its given length, where the source has the fixed one.
use rs2server_fix.Base.{
  ℕ, zero, suc, ◌+◌, ◌-◌, ◌/◌, ◌%◌, ◌^◌, Bool, true, false, not, ◌&&◌, ◌||◌, Option, none, some,
  List, [], ◌∷◌, ltb, leb, ◌==◌, if◌then◌else◌, get_elem?, take, all,
}
use rs2server_fix.Types.{Reason, reason_code, uint64_max}
pub mod Wire
pub mod Gate
pub mod Block
pub mod Sound
use rs2server_fix.Status.Wire.{
  TransportReason, transport_reason_code, transport_reason_count, waiting_logger_code,
  stopping_code, status_magic, status_schema_v3, reporting_artifact_version_v3, status_bytes,
  StatusHeader, StatusPayload, OwnerTransport, WorkerTransport, ConsoleDiagnostics, LogIdentity,
  StatusWireV3, OwnerSnapshotV3,
}

abbrev pub no_worker : WorkerTransport
no_worker = record {
  startup_observed = 0;
  prepared_sequence = 0;
  observed_sequence = 0;
  last_receipt_qpc = 0;
  reader_offset = 0;
  partial_bytes = 0;
  ledger_depth = 0;
  ready_depth = 0;
  ring_read_sequence = 0;
  read_cycles = 0;
  read_bytes = 0;
  format_calls = 0;
  format_ticks = 0;
  receipt_ticks = 0;
  pause_reason = 0;
  pause_condition_sequence = 0;
  pause_condition_qpc = 0;
  last_read_error = 0;
  matched_awaiting_submit_sequence = 0;
  reserved = 0;
}

abbrev pub no_console : ConsoleDiagnostics
no_console = record {
  attempts = 0;
  written = 0;
  failures = 0;
  last_error = 0;
  last_attempt_qpc = 0;
  last_notice_epoch = 0;
  skipped_transitions = 0;
  worker_state = 0;
}

abbrev pub no_owner_transport : OwnerTransport
no_owner_transport = record {
  state = 0;
  reason = 0;
  startup_submitted = 0;
  actual_repair_admitted = 0;
  generated_sequence = 0;
  submitted_sequence = 0;
  pause_epoch = 0;
  pause_boundary_sequence = 0;
  transition_sequence = 0;
  transition_qpc = 0;
  forwarded_pump_without_capture = 0;
  forwarded_builder_without_capture = 0;
  reserved_credits = 0;
  submit_window_start_qpc = 0;
  submit_window_count = 0;
  native_submit_calls = 0;
  native_submit_elapsed_ticks = 0;
  native_submit_maximum_ticks = 0;
  native_submit_over_five_milliseconds = 0;
  last_native_submit_qpc = 0;
  qualified_sink_epoch = 0;
  reserved = 0;
}

-- A bit of a word is set: the word or'ed with 2 to the k.
unfoldable pub set_bit : ℕ → ℕ → ℕ
set_bit word k = if word / 2 ^ k % 2 == 1 then word else word + 2 ^ k

-- The bit of a reason, with that of `StatusUnavailable` for `None`.
unfoldable pub mask_bit : Reason → ℕ
unfolding reason_code
mask_bit reason =
    if reason_code reason == 0 then reason_code Reason.status_unavailable else reason_code reason

-- `StartPublication`, with the sequence before.
unfoldable pub may_publish : ℕ → Bool
may_publish before = not (before % 2 == 1) && leb before (uint64_max - 2)

unfoldable pub header_ready : StatusWireV3 → Bool
header_ready wire = wire.header_ready == 1

unfoldable pub revoke_status : StatusWireV3 → Reason → StatusWireV3
unfolding set_bit mask_bit
revoke_status wire reason = record wire {
  revoke_reasons = set_bit wire.revoke_reasons (mask_bit reason);
}

unfoldable pub lose_status : StatusWireV3 → Reason → StatusWireV3
unfolding set_bit mask_bit revoke_status
lose_status wire reason =
    revoke_status (record wire { loss_reasons = set_bit wire.loss_reasons (mask_bit reason) })
      reason

unfoldable pub stop_status : StatusWireV3 → ℕ → StatusWireV3
stop_status wire qpc =
    if wire.stopping == 0 then record wire { stopping = 1; stopped_qpc = qpc } else wire

unfoldable pub status_revoked : StatusWireV3 → Bool
status_revoked wire =
    not (wire.revoke_reasons == 0)
    || not (wire.loss_reasons == 0)
    || not (wire.stopping == 0)
    || not (wire.fatal_transport_reason == 0)

unfoldable pub latched : StatusWireV3 → TransportReason → StatusWireV3
unfolding transport_reason_code
latched wire reason =
    if wire.fatal_transport_reason == 0
    then record wire { fatal_transport_reason = transport_reason_code reason }
    else wire

-- The reason that a fault other than a loss revokes with.
unfoldable pub fault_reason : TransportReason → Reason
fault_reason TransportReason.profile_unsafe = Reason.profile_mismatch
fault_reason _ = Reason.native_unwind

unfoldable pub latch_transport_fault : StatusWireV3 → TransportReason → Bool × StatusWireV3
unfolding transport_reason_code latched lose_status revoke_status fault_reason
latch_transport_fault wire reason =
    if ltb (transport_reason_code reason) 12
    then (false, wire)
    else if leb (transport_reason_code reason) 15
    then (true, lose_status (latched wire reason) Reason.record_loss)
    else (true, revoke_status (latched wire reason) (fault_reason reason))

unfoldable pub initialize_status : StatusWireV3 → StatusHeader → StatusPayload → Bool × StatusWireV3
initialize_status wire header owner =
    if not (wire.header_ready == 0)
    then (false, wire)
    else let final : StatusHeader = record header {
      magic = status_magic;
      schema = status_schema_v3;
      bytes = status_bytes;
      artifact_version = reporting_artifact_version_v3;
      reserved = 0 ∷ 0 ∷ 0 ∷ 0 ∷ [];
    } in
      let transport : OwnerTransport = record no_owner_transport {
        state = waiting_logger_code;
        reason = 1;
        generated_sequence = owner.report_sequence;
      } in
      (
        true,
        record wire {
          header = final;
          reserved = 0 ∷ 0 ∷ 0 ∷ 0 ∷ 0 ∷ [];
          owner = owner;
          owner_transport = transport;
          owner_sequence = 2;
          worker = no_worker;
          worker_sequence = 2;
          console = no_console;
          console_sequence = 2;
          header_ready = 1;
        },
      )

unfoldable pub owner_acceptable : StatusWireV3 → StatusPayload → OwnerTransport → Bool
owner_acceptable wire owner input =
    leb input.state stopping_code
    && ltb input.reason transport_reason_count
    && input.generated_sequence == owner.report_sequence
    && leb input.submitted_sequence input.generated_sequence
    && leb wire.owner_transport.generated_sequence input.generated_sequence
    && leb wire.owner_transport.submitted_sequence input.submitted_sequence
    && leb input.startup_submitted 1
    && leb input.actual_repair_admitted 1

unfoldable pub publish_owner : StatusWireV3 → StatusPayload → OwnerTransport → Bool × StatusWireV3
unfolding header_ready owner_acceptable may_publish revoke_status
publish_owner wire owner input =
    if not (header_ready wire)
    then (false, wire)
    else if not (owner_acceptable wire owner input)
    then (false, revoke_status wire Reason.status_unavailable)
    else if not (may_publish wire.owner_sequence)
    then (false, revoke_status wire Reason.counter_overflow)
    else (
      true,
      record wire {
        owner = owner;
        owner_transport = record input { reserved = 0 };
        owner_sequence = wire.owner_sequence + 2;
      },
    )

unfoldable pub read_owner : StatusWireV3 → Option OwnerSnapshotV3
unfolding header_ready
read_owner wire =
    if not (header_ready wire)
    then none
    else if ltb wire.owner_sequence 2 || wire.owner_sequence % 2 == 1
    then none
    else some (record {
      owner = wire.owner;
      transport = wire.owner_transport;
      sequence = wire.owner_sequence;
    })

unfoldable pub worker_consistent : StatusWireV3 → WorkerTransport → OwnerSnapshotV3 → Bool
worker_consistent wire input owner =
    leb input.observed_sequence owner.transport.submitted_sequence
    && leb input.observed_sequence input.prepared_sequence
    && leb wire.worker.observed_sequence input.observed_sequence
    && leb wire.worker.prepared_sequence input.prepared_sequence

unfoldable pub minimum : ℕ → ℕ → ℕ
minimum a b = if ltb b a then b else a

-- The worker's gate, closed before its adverse publication.
unfoldable pub close_gate : StatusWireV3 → WorkerTransport → StatusWireV3
close_gate wire input =
    if input.pause_reason == 0
    then wire
    else record wire { worker_pause_reason = input.pause_reason }

-- The rest of a worker's publication, with the owner's snapshot.
unfoldable pub publish_worker_with :
    StatusWireV3 → WorkerTransport → Option OwnerSnapshotV3 → Bool × StatusWireV3
unfolding worker_consistent lose_status may_publish revoke_status minimum
publish_worker_with wire input none = (false, wire)
publish_worker_with wire input (some owner) =
    if not (worker_consistent wire input owner)
    then (false, lose_status wire Reason.record_loss)
    else if not (may_publish wire.worker_sequence)
    then (false, revoke_status wire Reason.counter_overflow)
    else let worker : WorkerTransport = record input {
      prepared_sequence = minimum input.prepared_sequence owner.transport.generated_sequence;
      reserved = 0;
    } in
      (
        true,
        record wire {
          worker = worker;
          worker_sequence = wire.worker_sequence + 2;
          worker_pause_reason = if input.pause_reason == 0 then 0 else wire.worker_pause_reason;
        },
      )

unfoldable pub publish_worker : StatusWireV3 → WorkerTransport → Bool × StatusWireV3
unfolding header_ready revoke_status close_gate publish_worker_with read_owner
publish_worker wire input =
    if not (header_ready wire)
    then (false, wire)
    else if ltb 11 input.pause_reason || ltb 1 input.startup_observed
    then (false, revoke_status wire Reason.status_unavailable)
    else publish_worker_with (close_gate wire input) input (read_owner (close_gate wire input))

unfoldable pub console_acceptable : ConsoleDiagnostics → Bool
console_acceptable input =
    leb input.worker_state 3
    && leb input.written input.attempts
    && leb input.failures input.attempts
    && leb input.written (input.attempts - input.failures)

unfoldable pub publish_console : StatusWireV3 → ConsoleDiagnostics → Bool × StatusWireV3
unfolding header_ready console_acceptable may_publish
publish_console wire input =
    if not (header_ready wire) || not (console_acceptable input)
    then (false, wire)
    else if not (may_publish wire.console_sequence)
    then (false, wire)
    else (true, record wire { console = input; console_sequence = wire.console_sequence + 2 })

unfoldable pub is_zero : Option ℕ → Bool
is_zero (some n) = n == 0
is_zero none = false

unfoldable pub identity_acceptable : LogIdentity → Bool
unfolding is_zero
identity_acceptable identity =
    leb 1 identity.path_chars
    && leb identity.path_chars 1023
    && is_zero (get_elem? identity.path identity.path_chars)
    && leb identity.prefix_mode 1
    && identity.transport_kind == 1
    && identity.durability == 0
    && leb identity.initial_at_line_boundary 1
    && not (identity.utc_filetime == 0)
    && not (identity.calibration_qpc_before == 0)
    && leb identity.calibration_qpc_before identity.calibration_qpc_after
    && all (λ c. not (c == 0)) (take identity.path_chars identity.path)

-- The path with zeros after its characters.
unfoldable pub padded : ℕ → List ℕ → List ℕ
padded n [] = []
padded zero (c ∷ cs) = 0 ∷ padded zero cs
padded (suc n) (c ∷ cs) = c ∷ padded n cs

unfoldable pub publish_log_identity : StatusWireV3 → LogIdentity → Bool × StatusWireV3
unfolding header_ready identity_acceptable padded
publish_log_identity wire identity =
    if not (header_ready wire) || not (identity_acceptable identity)
    then (false, wire)
    else if not (wire.log_identity_ready == 0)
    then (false, wire)
    else (
      true,
      record wire {
        log = record identity { path = padded identity.path_chars identity.path };
        log_identity_ready = 1;
      },
    )
