-- ===== src/Snapshot/Sound.antt =====
-- src/shared/leech_recovery_snapshot.cpp: what a coherent snapshot is.
use rs2server_fix.Base.{
  ℕ, zero, suc, ◌+◌, ◌%◌, ◌≤◌, ◌≡◌, ◌≢◌, refl, sym, subst, ap, ◌∙◌, same, same→eq, Bool, true,
  false, not, ◌&&◌, ◌||◌, Option, none, some, ltb, ◌==◌, if◌then◌else◌, pick, arith,
}
use rs2server_fix.Status.Wire.{StatusHeader}
use rs2server_fix.Records.Payload.{ReportRecoveryPayload}
use rs2server_fix.Snapshot.Payload.{recovery_payload_valid}
use rs2server_fix.Snapshot.{
  reporting_identity_valid, RecoveryHeader, RecoveryStatusWire, recovery_header_valid,
  same_recovery_header, changed, is_published, RecoverySnapshotResult, RecoveryReadOps, Attempt,
  RecoveryStatusSnapshot, reading, conclude, read_body, attempt, ended, follow, attempts_from,
  read_recovery_status, matches, matched, read_matching_recovery_status,
}

-- What the reads of one attempt returned, one after another from the world `w1`: the header is ready and
-- the same before and after, and between them the payload is read between two reads of one sequence.
pub record IsAttempt {W : Type 0} (ops : RecoveryReadOps W) (wire : RecoveryStatusWire)
    : Type 0 where
  pub w1 : W
  pub w2 : W
  pub w3 : W
  pub w4 : W
  pub w5 : W
  pub w6 : W
  pub w7 : W
  pub w8 : W
  pub ready_before : ops.header_ready w1 ≡ (w2, some 1)
  pub header_before : ops.header w2 ≡ (w3, some wire.header)
  pub sequence_before : ops.owner_sequence w3 ≡ (w4, some wire.owner_sequence)
  pub payload : ops.payload w4 ≡ (w5, some wire.payload)
  pub sequence_after : ops.owner_sequence w5 ≡ (w6, some wire.owner_sequence)
  pub header_after : ops.header w6 ≡ (w7, some wire.header)
  pub ready_after : ops.header_ready w7 ≡ (w8, some 1)

-- A published block, read between two publications.
pub record IsWhole {W : Type 0} (ops : RecoveryReadOps W) (wire : RecoveryStatusWire) : Type 0 where
  pub header : recovery_header_valid wire.header ≡ true
  pub payload : recovery_payload_valid wire.payload ≡ true
  pub published : 1 ≤ wire.owner_sequence
  pub even : wire.owner_sequence % 2 ≡ 0
  pub reads : IsAttempt ops wire

some_inj : {a b : RecoveryStatusWire} → some a ≡ some b → a ≡ b
some_inj h = cc

nothing_wrong : 0 ≤ 0
nothing_wrong = omega arith

sequence_facts :
    (before after : ℕ)
    → (not (before == after) || after % 2 == 1) ≡ false
    → not (before == 0) ≡ true
    → (1 ≤ after) × (after % 2 ≡ 0) × (before ≡ after)
sequence_facts b a h p = (ground arith, ground arith, ground arith)

ready_facts :
    (ready : ℕ) (same_header back : Bool)
    → (not (ready == 1) || not same_header || back) ≡ false
    → (ready ≡ 1) × (same_header ≡ true)
ready_facts ready same_header back h = (ground arith, ground arith)

valid_when : (b : Bool) → not b ≡ false → b ≡ true
valid_when b h = ground arith

four_equal :
    (a b c d a' b' c' d' : ℕ) (r : Bool)
    → (a == a' && b == b' && c == c' && d == d' && r) ≡ true
    → (a ≡ a') × (b ≡ b') × (c ≡ c') × (d ≡ d') × (r ≡ true)
four_equal a b c d a' b' c' d' r h =
    (ground arith, ground arith, ground arith, ground arith, ground arith)

same_recovery_header-eq : (a b : RecoveryHeader) → same_recovery_header a b ≡ true → a ≡ b
unfolding same_recovery_header
same_recovery_header-eq a b h =
    let f =
      four_equal a.schema a.bytes a.artifact_version a.pid b.schema b.bytes b.artifact_version b.pid
        (same a.run_id b.run_id) h in
    equal_headers f.0 f.1 f.2 f.3 (same→eq a.run_id b.run_id f.4)
  where
    equal_headers :
        a.schema ≡ b.schema
        → a.bytes ≡ b.bytes
        → a.artifact_version ≡ b.artifact_version
        → a.pid ≡ b.pid
        → a.run_id ≡ b.run_id
        → a ≡ b
    equal_headers e1 e2 e3 e4 e5 = λ i. record {
      schema = e1 i;
      bytes = e2 i;
      artifact_version = e3 i;
      pid = e4 i;
      run_id = e5 i;
    }

body_facts :
    (valid moved zero_sequence back : Bool)
    → (not valid || moved || zero_sequence || back) ≡ false
    → (valid ≡ true) × (not zero_sequence ≡ true)
body_facts valid moved zero_sequence back h = (ground arith, ground arith)

module _ {W : Type 0} (ops : RecoveryReadOps W) where
  abbrev Ends : Attempt → Type 0
  Ends (Attempt.complete wire) = IsWhole ops wire
  Ends _ = 0 ≤ 0

  unfoldable Ends1 : W × Attempt → Type 0
  Ends1 r = Ends r.1

  ending : (w : W) (a : Attempt) → Ends a → Ends1 (w, a)
  unfolding Ends1
  ending w a h = h

  refused_end : (w : W) → Ends1 (w, Attempt.refused)
  refused_end w = ending w Attempt.refused nothing_wrong

  conclude-Ends :
      (w1 w2 w3 w4 w5 w6 w7 w8 : W) (ready1 : ℕ) (copy : RecoveryHeader) (before : ℕ)
      (p : ReportRecoveryPayload) (after : ℕ) (header_after : RecoveryHeader) (ready : ℕ)
      → recovery_header_valid copy ≡ true
      → not (before == 0) ≡ true
      → ready1 ≡ 1
      → ops.header_ready w1 ≡ (w2, some ready1)
      → ops.header w2 ≡ (w3, some copy)
      → ops.owner_sequence w3 ≡ (w4, some before)
      → ops.payload w4 ≡ (w5, some p)
      → ops.owner_sequence w5 ≡ (w6, some after)
      → ops.header w6 ≡ (w7, some header_after)
      → ops.header_ready w7 ≡ (w8, some ready)
      → Ends (conclude copy before p after header_after ready)
  unfolding conclude
  conclude-Ends w1 w2 w3 w4 w5 w6 w7 w8 ready1 copy before p after header_after ready valid positive
        one r1 r2 r3 r4 r5 r6 r7 =
      pick Ends
        (not (ready == 1) || not (same_recovery_header copy header_after) || ltb after before) _ _
        (λ _. nothing_wrong)
        λ ready_lem.
          pick Ends (not (before == after) || after % 2 == 1) _ _ (λ _. nothing_wrong)
            λ e.
              pick Ends (not (recovery_payload_valid p)) _ _ (λ _. nothing_wrong)
                λ v.
                  let (is_ready, agree) =
                    ready_facts ready (same_recovery_header copy header_after) (ltb after before)
                      ready_lem in
                  let (published, even, stable) = sequence_facts before after e positive in
                  record {
                    header = valid;
                    payload = valid_when (recovery_payload_valid p) v;
                    published = published;
                    even = even;
                    reads = record {
                      w1 = w1;
                      w2 = w2;
                      w3 = w3;
                      w4 = w4;
                      w5 = w5;
                      w6 = w6;
                      w7 = w7;
                      w8 = w8;
                      ready_before = r1 ∙ ap (λ n. (w2, some n)) one;
                      header_before = r2;
                      sequence_before = r3 ∙ ap (λ n. (w4, some n)) stable;
                      payload = r4;
                      sequence_after = r5;
                      header_after =
                          r6
                          ∙ ap (λ h. (w7, some h))
                              (sym (same_recovery_header-eq copy header_after agree));
                      ready_after = r7 ∙ ap (λ n. (w8, some n)) is_ready;
                    };
                  }

  reading-Ends :
      {A : Type 0} (r : W × Option A) (rest : W → A → W × Attempt)
      → ((w : W) (a : A) → r ≡ (w, some a) → Ends1 (rest w a))
      → Ends1 (reading r rest)
  unfolding reading
  reading-Ends (w, none) rest h = ending w Attempt.failed_read nothing_wrong
  reading-Ends (w, some a) rest h = h w a refl

  read_body-Ends :
      (w1 w2 w3 w4 : W) (ready1 : ℕ) (seen : Option RecoveryHeader) (highest : ℕ)
      (copy : RecoveryHeader) (before : ℕ)
      → ready1 ≡ 1
      → ops.header_ready w1 ≡ (w2, some ready1)
      → ops.header w2 ≡ (w3, some copy)
      → ops.owner_sequence w3 ≡ (w4, some before)
      → Ends1 (read_body ops seen highest copy before w4)
  unfolding read_body
  read_body-Ends w1 w2 w3 w4 ready1 seen highest copy before one r1 r2 r3 =
      pick Ends1
        (not (recovery_header_valid copy) || changed seen copy || before == 0 || ltb before highest)
        _ _ (λ _. refused_end w4)
        λ e.
          let f =
            body_facts (recovery_header_valid copy) (changed seen copy) (before == 0)
              (ltb before highest) e in
          pick Ends1 (before % 2 == 1) _ _ (λ _. ending _ _ nothing_wrong)
            λ _. reading-Ends (ops.payload w4) _ λ w5 p r4.
              reading-Ends (ops.owner_sequence w5) _ λ w6 after r5.
                reading-Ends (ops.header w6) _ λ w7 header_after r6.
                  reading-Ends (ops.header_ready w7) _ λ w8 ready r7. ending w8 _ (
                    conclude-Ends w1 w2 w3 w4 w5 w6 w7 w8 ready1 copy before p after header_after
                      ready f.0 f.1 one r1 r2 r3 r4 r5 r6 r7)

  one_ready : (n : ℕ) → not (n == 1) ≡ false → n ≡ 1
  one_ready n h = ground arith

  attempt-Ends :
      (seen : Option RecoveryHeader) (highest : ℕ) (w : W) → Ends1 (attempt ops seen highest w)
  unfolding attempt
  attempt-Ends seen highest w = reading-Ends (ops.header_ready w) _ λ w1 ready r1.
      pick Ends1 (ltb 2 ready || is_published seen && not (ready == 1)) _ _ (λ _. refused_end w1)
        λ _.
          pick Ends1 (not (ready == 1)) _ _ (λ _. ending _ _ nothing_wrong)
            λ one. reading-Ends (ops.header w1) _ λ w2 copy r2.
              reading-Ends (ops.owner_sequence w2) _ λ w3 before r3.
                read_body-Ends w w1 w2 w3 ready seen highest copy before (one_ready ready one) r1 r2
                  r3

-- The result says whether there is a wire, and a wire is whole.
abbrev Result :
    {W : Type 0} → RecoveryReadOps W → RecoverySnapshotResult → Option RecoveryStatusWire → Type 0
Result ops r none = r ≢ RecoverySnapshotResult.coherent
Result ops r (some wire) = (r ≡ RecoverySnapshotResult.coherent) × IsWhole ops wire

abbrev Snapshot : {W : Type 0} → RecoveryReadOps W → ℕ → W × RecoveryStatusSnapshot → Type 0
Snapshot ops n r = Result ops r.1.result r.1.wire × (r.1.attempts ≤ n)

not_coherent :
    (b : Bool)
    → (if b then RecoverySnapshotResult.busy else RecoverySnapshotResult.unavailable)
      ≢ RecoverySnapshotResult.coherent
not_coherent true e = absurd (cc)
not_coherent false e = absurd (cc)

module _ {W : Type 0} where
  follow-Snapshot :
      (ops : RecoveryReadOps W) (n made : ℕ)
      (rest : Option RecoveryHeader → ℕ → W → W × RecoveryStatusSnapshot) (r : W × Attempt)
      → Ends1 ops r
      → made ≤ n
      → ((seen : Option RecoveryHeader) (highest : ℕ) (w : W)
          → Snapshot ops n (rest seen highest w))
      → Snapshot ops n (follow made rest r)
  unfolding follow Ends1
  follow-Snapshot ops n made rest (w, Attempt.failed_read) h le k = (λ e. absurd (cc), le)
  follow-Snapshot ops n made rest (w, Attempt.refused) h le k = (λ e. absurd (cc), le)
  follow-Snapshot ops n made rest (w, Attempt.again seen highest) h le k = k seen highest w
  follow-Snapshot ops n made rest (w, Attempt.complete wire) h le k = ((refl, h), le)

  attempts_from-Snapshot :
      (ops : RecoveryReadOps W) (n made left : ℕ)
      → made + left ≤ n
      → (seen : Option RecoveryHeader) (highest : ℕ) (w : W)
      → Snapshot ops n (attempts_from ops made left seen highest w)
  unfolding attempts_from
  attempts_from-Snapshot ops n made zero le seen highest w =
      (not_coherent (is_published seen), omega (arith, le))
  attempts_from-Snapshot ops n made (suc left) le seen highest w =
      follow-Snapshot ops n (suc made) (attempts_from ops (suc made) left) _
        (attempt-Ends ops seen highest w) (omega (arith, le))
        (attempts_from-Snapshot ops n (suc made) left (omega (arith, le)))

matched-IsWhole :
    {W : Type 0} (ops : RecoveryReadOps W) (identity : StatusHeader) (s : RecoveryStatusSnapshot)
    (o : Option RecoveryStatusWire) (wire : RecoveryStatusWire)
    → s.wire ≡ o
    → Result ops s.result o
    → s.attempts ≤ 3
    → (matched identity s o).wire ≡ some wire
    → IsWhole ops wire × (matches identity wire ≡ true) × ((matched identity s o).attempts ≤ 3)
unfolding matched
matched-IsWhole ops identity s none wire e r le h = absurd (cc)
matched-IsWhole ops identity s (some w) wire e r le h = named (matches identity w) refl h
  where
    named :
        (b : Bool)
        → matches identity w ≡ b
        → (if b then s else ended RecoverySnapshotResult.invalid s.attempts).wire ≡ some wire
        → IsWhole ops wire
          × (matches identity wire ≡ true)
          × ((if b then s else ended RecoverySnapshotResult.invalid s.attempts).attempts ≤ 3)
    named true m k =
        let same_wire : w ≡ wire = some_inj (sym e ∙ k) in
        (subst (IsWhole ops) same_wire r.1, subst (λ x. matches identity x ≡ true) same_wire m, le)
    named false m k = absurd (cc)

module _ {W : Type 0} where
  -- Whatever the other process writes meanwhile, a wire that the reader returns for an identity is one of
  -- that process and run, with a valid header and payload and the even sequence of a publication. All
  -- of it was read by one attempt: the header was ready and the same at the start and at the end, and
  -- the payload was read between two reads of that sequence. No more than three attempts were made.
  pub read_matching_recovery_status-IsWhole :
      (ops : RecoveryReadOps W) (identity : StatusHeader) (w : W) (wire : RecoveryStatusWire)
      → (read_matching_recovery_status ops identity w).1.wire ≡ some wire
      → IsWhole ops wire
        × (matches identity wire ≡ true)
        × ((read_matching_recovery_status ops identity w).1.attempts ≤ 3)
  unfolding read_matching_recovery_status read_recovery_status
  read_matching_recovery_status-IsWhole ops identity w wire =
      let all_read = attempts_from-Snapshot ops 3 0 3 (omega arith) none 0 w in
      let s = (attempts_from ops 0 3 none 0 w).1 in
      pick
        (λ (r : W × RecoveryStatusSnapshot).
          r.1.wire ≡ some wire
          → IsWhole ops wire × (matches identity wire ≡ true) × (r.1.attempts ≤ 3))
        (not (reporting_identity_valid identity)) _ _ (λ _ k. absurd (cc))
        λ _ k. matched-IsWhole ops identity s s.wire wire refl all_read.0 all_read.1 k
