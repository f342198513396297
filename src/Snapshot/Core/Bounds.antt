-- ===== src/Snapshot/Core/Bounds.antt =====
-- src/shared/steam_reporting_snapshot_v3.cpp: the bounds that `CoreValid` tests.
use rs2server_fix.Base.{
  ℕ, zero, suc, ◌-◌, ◌^◌, ◌≤◌, ◌<◌, ◌≡◌, ◌⊎◌, inl, inr, refl, true, ◌&&◌, ◌||◌, ltb, leb, ◌==◌,
  arith, &&→both,
}
use rs2server_fix.Status.Wire.{stopping_code, transport_reason_count, StatusWireV3}
use rs2server_fix.Snapshot.Core.{core_valid}

-- The bounds of the fields of a core, by the numbers of `ReportPhaseV3`, the reasons of the runtime,
-- `TransportState` and `TransportReason`.
pub record IsInBounds (wire : StatusWireV3) : Type 0 where
  pub phase : wire.owner.phase ≤ 10
  pub reason : wire.owner.reason < 59
  pub flags : (wire.owner.pending ≤ 1) × (wire.owner.fresh ≤ 1) × (wire.owner.builder_bound ≤ 1)
  pub thread : wire.owner.owner_thread_id < 2 ^ 32
  pub state : wire.owner_transport.state ≤ 4
  pub transport_reason : wire.owner_transport.reason < 18
  pub started :
      (wire.owner_transport.startup_submitted ≤ 1)
      × (wire.owner_transport.actual_repair_admitted ≤ 1)
  pub reserved : (wire.owner_transport.reserved ≡ 0) × (wire.worker.reserved ≡ 0)
  pub generated : wire.owner_transport.generated_sequence ≡ wire.owner.report_sequence
  pub submitted : wire.owner_transport.submitted_sequence ≤ wire.owner_transport.generated_sequence
  pub observed_startup : wire.worker.startup_observed ≤ 1
  pub prepared : wire.worker.prepared_sequence ≤ wire.owner_transport.generated_sequence
  pub observed :
      (wire.worker.observed_sequence ≤ wire.owner_transport.submitted_sequence)
      × (wire.worker.observed_sequence ≤ wire.worker.prepared_sequence)
  pub pause : (wire.worker.pause_reason ≤ 11) × (wire.worker_pause_reason ≤ 11)
  pub fatal : wire.fatal_transport_reason < 18
  pub fatal_kind : (wire.fatal_transport_reason ≡ 0) ⊎ (12 ≤ wire.fatal_transport_reason)

none_or : (n m : ℕ) → (n == 0 || leb m n) ≡ true → (n ≡ 0) ⊎ (m ≤ n)
none_or zero m h = inl refl
none_or (suc n) m h = inr (ground arith)

under : (a b : ℕ) → leb a b ≡ true → a ≤ b
under a b h = ground arith

below : (a b : ℕ) → ltb a b ≡ true → a < b
below a b h = ground arith

equal_to : (a b : ℕ) → (a == b) ≡ true → a ≡ b
equal_to a b h = ground arith

thread_bound : (a : ℕ) → leb a (2 ^ 32 - 1) ≡ true → a < 2 ^ 32
thread_bound a h = ground arith

pub core_valid-IsInBounds : (wire : StatusWireV3) → core_valid wire ≡ true → IsInBounds wire
unfolding core_valid
core_valid-IsInBounds wire h =
    let owner = wire.owner in
    let t = wire.owner_transport in
    let w = wire.worker in
    let (h21, c22) =
      &&→both
        (leb owner.phase 10
          && ltb owner.reason 59
          && leb owner.pending 1
          && leb owner.fresh 1
          && leb owner.builder_bound 1
          && leb owner.owner_thread_id (2 ^ 32 - 1)
          && leb t.state stopping_code
          && ltb t.reason transport_reason_count
          && leb t.startup_submitted 1
          && leb t.actual_repair_admitted 1
          && t.reserved == 0
          && t.generated_sequence == owner.report_sequence
          && leb t.submitted_sequence t.generated_sequence
          && leb w.startup_observed 1
          && leb w.prepared_sequence t.generated_sequence
          && leb w.observed_sequence t.submitted_sequence
          && leb w.observed_sequence w.prepared_sequence
          && leb w.pause_reason 11
          && w.reserved == 0
          && leb wire.worker_pause_reason 11
          && ltb wire.fatal_transport_reason transport_reason_count)
        ((wire.fatal_transport_reason == 0 || leb 12 wire.fatal_transport_reason)) h in
    let (h20, c21) =
      &&→both
        (leb owner.phase 10
          && ltb owner.reason 59
          && leb owner.pending 1
          && leb owner.fresh 1
          && leb owner.builder_bound 1
          && leb owner.owner_thread_id (2 ^ 32 - 1)
          && leb t.state stopping_code
          && ltb t.reason transport_reason_count
          && leb t.startup_submitted 1
          && leb t.actual_repair_admitted 1
          && t.reserved == 0
          && t.generated_sequence == owner.report_sequence
          && leb t.submitted_sequence t.generated_sequence
          && leb w.startup_observed 1
          && leb w.prepared_sequence t.generated_sequence
          && leb w.observed_sequence t.submitted_sequence
          && leb w.observed_sequence w.prepared_sequence
          && leb w.pause_reason 11
          && w.reserved == 0
          && leb wire.worker_pause_reason 11)
        (ltb wire.fatal_transport_reason transport_reason_count) h21 in
    let (h19, c20) =
      &&→both
        (leb owner.phase 10
          && ltb owner.reason 59
          && leb owner.pending 1
          && leb owner.fresh 1
          && leb owner.builder_bound 1
          && leb owner.owner_thread_id (2 ^ 32 - 1)
          && leb t.state stopping_code
          && ltb t.reason transport_reason_count
          && leb t.startup_submitted 1
          && leb t.actual_repair_admitted 1
          && t.reserved == 0
          && t.generated_sequence == owner.report_sequence
          && leb t.submitted_sequence t.generated_sequence
          && leb w.startup_observed 1
          && leb w.prepared_sequence t.generated_sequence
          && leb w.observed_sequence t.submitted_sequence
          && leb w.observed_sequence w.prepared_sequence
          && leb w.pause_reason 11
          && w.reserved == 0)
        (leb wire.worker_pause_reason 11) h20 in
    let (h18, c19) =
      &&→both
        (leb owner.phase 10
          && ltb owner.reason 59
          && leb owner.pending 1
          && leb owner.fresh 1
          && leb owner.builder_bound 1
          && leb owner.owner_thread_id (2 ^ 32 - 1)
          && leb t.state stopping_code
          && ltb t.reason transport_reason_count
          && leb t.startup_submitted 1
          && leb t.actual_repair_admitted 1
          && t.reserved == 0
          && t.generated_sequence == owner.report_sequence
          && leb t.submitted_sequence t.generated_sequence
          && leb w.startup_observed 1
          && leb w.prepared_sequence t.generated_sequence
          && leb w.observed_sequence t.submitted_sequence
          && leb w.observed_sequence w.prepared_sequence
          && leb w.pause_reason 11)
        (w.reserved == 0) h19 in
    let (h17, c18) =
      &&→both
        (leb owner.phase 10
          && ltb owner.reason 59
          && leb owner.pending 1
          && leb owner.fresh 1
          && leb owner.builder_bound 1
          && leb owner.owner_thread_id (2 ^ 32 - 1)
          && leb t.state stopping_code
          && ltb t.reason transport_reason_count
          && leb t.startup_submitted 1
          && leb t.actual_repair_admitted 1
          && t.reserved == 0
          && t.generated_sequence == owner.report_sequence
          && leb t.submitted_sequence t.generated_sequence
          && leb w.startup_observed 1
          && leb w.prepared_sequence t.generated_sequence
          && leb w.observed_sequence t.submitted_sequence
          && leb w.observed_sequence w.prepared_sequence)
        (leb w.pause_reason 11) h18 in
    let (h16, c17) =
      &&→both
        (leb owner.phase 10
          && ltb owner.reason 59
          && leb owner.pending 1
          && leb owner.fresh 1
          && leb owner.builder_bound 1
          && leb owner.owner_thread_id (2 ^ 32 - 1)
          && leb t.state stopping_code
          && ltb t.reason transport_reason_count
          && leb t.startup_submitted 1
          && leb t.actual_repair_admitted 1
          && t.reserved == 0
          && t.generated_sequence == owner.report_sequence
          && leb t.submitted_sequence t.generated_sequence
          && leb w.startup_observed 1
          && leb w.prepared_sequence t.generated_sequence
          && leb w.observed_sequence t.submitted_sequence)
        (leb w.observed_sequence w.prepared_sequence) h17 in
    let (h15, c16) =
      &&→both
        (leb owner.phase 10
          && ltb owner.reason 59
          && leb owner.pending 1
          && leb owner.fresh 1
          && leb owner.builder_bound 1
          && leb owner.owner_thread_id (2 ^ 32 - 1)
          && leb t.state stopping_code
          && ltb t.reason transport_reason_count
          && leb t.startup_submitted 1
          && leb t.actual_repair_admitted 1
          && t.reserved == 0
          && t.generated_sequence == owner.report_sequence
          && leb t.submitted_sequence t.generated_sequence
          && leb w.startup_observed 1
          && leb w.prepared_sequence t.generated_sequence)
        (leb w.observed_sequence t.submitted_sequence) h16 in
    let (h14, c15) =
      &&→both
        (leb owner.phase 10
          && ltb owner.reason 59
          && leb owner.pending 1
          && leb owner.fresh 1
          && leb owner.builder_bound 1
          && leb owner.owner_thread_id (2 ^ 32 - 1)
          && leb t.state stopping_code
          && ltb t.reason transport_reason_count
          && leb t.startup_submitted 1
          && leb t.actual_repair_admitted 1
          && t.reserved == 0
          && t.generated_sequence == owner.report_sequence
          && leb t.submitted_sequence t.generated_sequence
          && leb w.startup_observed 1)
        (leb w.prepared_sequence t.generated_sequence) h15 in
    let (h13, c14) =
      &&→both
        (leb owner.phase 10
          && ltb owner.reason 59
          && leb owner.pending 1
          && leb owner.fresh 1
          && leb owner.builder_bound 1
          && leb owner.owner_thread_id (2 ^ 32 - 1)
          && leb t.state stopping_code
          && ltb t.reason transport_reason_count
          && leb t.startup_submitted 1
          && leb t.actual_repair_admitted 1
          && t.reserved == 0
          && t.generated_sequence == owner.report_sequence
          && leb t.submitted_sequence t.generated_sequence)
        (leb w.startup_observed 1) h14 in
    let (h12, c13) =
      &&→both
        (leb owner.phase 10
          && ltb owner.reason 59
          && leb owner.pending 1
          && leb owner.fresh 1
          && leb owner.builder_bound 1
          && leb owner.owner_thread_id (2 ^ 32 - 1)
          && leb t.state stopping_code
          && ltb t.reason transport_reason_count
          && leb t.startup_submitted 1
          && leb t.actual_repair_admitted 1
          && t.reserved == 0
          && t.generated_sequence == owner.report_sequence)
        (leb t.submitted_sequence t.generated_sequence) h13 in
    let (h11, c12) =
      &&→both
        (leb owner.phase 10
          && ltb owner.reason 59
          && leb owner.pending 1
          && leb owner.fresh 1
          && leb owner.builder_bound 1
          && leb owner.owner_thread_id (2 ^ 32 - 1)
          && leb t.state stopping_code
          && ltb t.reason transport_reason_count
          && leb t.startup_submitted 1
          && leb t.actual_repair_admitted 1
          && t.reserved == 0)
        (t.generated_sequence == owner.report_sequence) h12 in
    let (h10, c11) =
      &&→both
        (leb owner.phase 10
          && ltb owner.reason 59
          && leb owner.pending 1
          && leb owner.fresh 1
          && leb owner.builder_bound 1
          && leb owner.owner_thread_id (2 ^ 32 - 1)
          && leb t.state stopping_code
          && ltb t.reason transport_reason_count
          && leb t.startup_submitted 1
          && leb t.actual_repair_admitted 1)
        (t.reserved == 0) h11 in
    let (h9, c10) =
      &&→both
        (leb owner.phase 10
          && ltb owner.reason 59
          && leb owner.pending 1
          && leb owner.fresh 1
          && leb owner.builder_bound 1
          && leb owner.owner_thread_id (2 ^ 32 - 1)
          && leb t.state stopping_code
          && ltb t.reason transport_reason_count
          && leb t.startup_submitted 1)
        (leb t.actual_repair_admitted 1) h10 in
    let (h8, c9) =
      &&→both
        (leb owner.phase 10
          && ltb owner.reason 59
          && leb owner.pending 1
          && leb owner.fresh 1
          && leb owner.builder_bound 1
          && leb owner.owner_thread_id (2 ^ 32 - 1)
          && leb t.state stopping_code
          && ltb t.reason transport_reason_count)
        (leb t.startup_submitted 1) h9 in
    let (h7, c8) =
      &&→both
        (leb owner.phase 10
          && ltb owner.reason 59
          && leb owner.pending 1
          && leb owner.fresh 1
          && leb owner.builder_bound 1
          && leb owner.owner_thread_id (2 ^ 32 - 1)
          && leb t.state stopping_code)
        (ltb t.reason transport_reason_count) h8 in
    let (h6, c7) =
      &&→both
        (leb owner.phase 10
          && ltb owner.reason 59
          && leb owner.pending 1
          && leb owner.fresh 1
          && leb owner.builder_bound 1
          && leb owner.owner_thread_id (2 ^ 32 - 1))
        (leb t.state stopping_code) h7 in
    let (h5, c6) =
      &&→both
        (leb owner.phase 10
          && ltb owner.reason 59
          && leb owner.pending 1
          && leb owner.fresh 1
          && leb owner.builder_bound 1)
        (leb owner.owner_thread_id (2 ^ 32 - 1)) h6 in
    let (h4, c5) =
      &&→both
        (leb owner.phase 10 && ltb owner.reason 59 && leb owner.pending 1 && leb owner.fresh 1)
        (leb owner.builder_bound 1) h5 in
    let (h3, c4) =
      &&→both (leb owner.phase 10 && ltb owner.reason 59 && leb owner.pending 1) (leb owner.fresh 1)
        h4 in
    let (h2, c3) = &&→both (leb owner.phase 10 && ltb owner.reason 59) (leb owner.pending 1) h3 in
    let (h1, c2) = &&→both (leb owner.phase 10) (ltb owner.reason 59) h2 in
    record {
      phase = under owner.phase 10 h1;
      reason = below owner.reason 59 c2;
      flags = (under owner.pending 1 c3, under owner.fresh 1 c4, under owner.builder_bound 1 c5);
      thread = thread_bound owner.owner_thread_id c6;
      state = under t.state 4 c7;
      transport_reason = below t.reason 18 c8;
      started = (under t.startup_submitted 1 c9, under t.actual_repair_admitted 1 c10);
      reserved = (equal_to t.reserved 0 c11, equal_to w.reserved 0 c19);
      generated = equal_to t.generated_sequence owner.report_sequence c12;
      submitted = under t.submitted_sequence t.generated_sequence c13;
      observed_startup = under w.startup_observed 1 c14;
      prepared = under w.prepared_sequence t.generated_sequence c15;
      observed = (
        under w.observed_sequence t.submitted_sequence c16,
        under w.observed_sequence w.prepared_sequence c17,
      );
      pause = (under w.pause_reason 11 c18, under wire.worker_pause_reason 11 c20);
      fatal = below wire.fatal_transport_reason 18 c21;
      fatal_kind = none_or wire.fatal_transport_reason 12 c22;
    }
