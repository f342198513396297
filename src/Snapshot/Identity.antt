-- ===== src/Snapshot/Identity.antt =====
-- src/shared/leech_recovery_snapshot.cpp: `ReadReportingIdentityV3`. The output of a failed call, which
-- is zeroed, is `none`.
use rs2server_fix.Base.{
  ℕ, zero, suc, ◌≤◌, ◌≡◌, refl, Bool, true, false, not, ◌&&◌, ◌||◌, Option, none, some, List, all,
  ltb, ◌==◌, if◌then◌else◌, pick, arith, ap, ◌∙◌, ◌≢◌, ◌/◌, leb, same→eq, subst,
}
use rs2server_fix.Types.{int64_max}
use rs2server_fix.Status.Wire.{
  status_magic, status_schema_v3, status_bytes, reporting_artifact_version_v3, StatusHeader,
}
use rs2server_fix.Snapshot.Words.{header_words}
use rs2server_fix.Snapshot.{any_byte, recovery_artifact_version}
use rs2server_fix.Snapshot.{reporting_identity_valid}
use rs2server_fix.Snapshot.Core.{SnapshotResultV3}
use rs2server_fix.Snapshot.Core.Read.{same_header}

pub record IdentityReadOps (W : Type 0) : Type 0 where
  pub header_ready : W → W × Option ℕ
  pub header : W → W × Option StatusHeader
  pub reserved : W → W × Option (List ℕ)
  pub owner_reserved : W → W × Option ℕ
  pub worker_reserved : W → W × Option ℕ

-- What is read of the block at once: the header, and the words that are reserved.
pub record Look : Type 0 where
  pub header : StatusHeader
  pub reserved : List ℕ
  pub owner_reserved : ℕ
  pub worker_reserved : ℕ

abbrev pub look : StatusHeader → List ℕ → ℕ → ℕ → Look
look header reserved owner_reserved worker_reserved = record {
  header = header;
  reserved = reserved;
  owner_reserved = owner_reserved;
  worker_reserved = worker_reserved;
}

-- How an attempt ends.
pub data IdentityAttempt : Type 0 where
  skipped : IdentityAttempt
  stopped : SnapshotResultV3 → IdentityAttempt
  whole : StatusHeader → IdentityAttempt

unfoldable pub all_zero : List ℕ → Bool
all_zero = all (λ word. word == 0)

unfoldable pub settle_identity : Look → Look → ℕ → IdentityAttempt
unfolding reporting_identity_valid all_zero
settle_identity a b after =
    if not (after == 1) || not (same_header a.header b.header)
    then IdentityAttempt.stopped SnapshotResultV3.invalid
    else if reporting_identity_valid a.header
    then (if a.owner_reserved == 0
          && b.owner_reserved == 0
          && a.worker_reserved == 0
          && b.worker_reserved == 0
          && all_zero a.reserved
          && all_zero b.reserved
        then IdentityAttempt.whole a.header
        else IdentityAttempt.stopped SnapshotResultV3.invalid)
    else IdentityAttempt.stopped SnapshotResultV3.invalid

module _ {W : Type 0} where
  unfoldable pub got :
      {A : Type 0} → W × Option A → (W → A → W × IdentityAttempt) → W × IdentityAttempt
  got (w, none) rest = (w, IdentityAttempt.stopped SnapshotResultV3.read_failure)
  got (w, some a) rest = rest w a

  unfoldable pub take_look :
      IdentityReadOps W → W → (W → Look → W × IdentityAttempt) → W × IdentityAttempt
  unfolding got
  take_look ops w rest = got (ops.header w) (λ w1 header. got (ops.reserved w1) (λ w2 reserved.
      got (ops.owner_reserved w2) (λ w3 owner.
        got (ops.worker_reserved w3) (λ w4 worker. rest w4 (look header reserved owner worker)))))

  abbrev pub settle_at : Look → Look → W → ℕ → W × IdentityAttempt
  settle_at a b w after = (w, settle_identity a b after)

  abbrev pub after_looks : IdentityReadOps W → Look → W → Look → W × IdentityAttempt
  after_looks ops a w b = got (ops.header_ready w) (settle_at a b)

  abbrev pub after_look : IdentityReadOps W → W → Look → W × IdentityAttempt
  after_look ops w a = take_look ops w (after_looks ops a)

  unfoldable pub identity_attempt : IdentityReadOps W → W → W × IdentityAttempt
  unfolding got take_look settle_identity
  identity_attempt ops w = got (ops.header_ready w) (λ w1 before.
      if ltb 2 before
      then (w1, IdentityAttempt.stopped SnapshotResultV3.invalid)
      else if not (before == 1)
      then (w1, IdentityAttempt.skipped)
      else take_look ops w1 (after_look ops))

  unfoldable pub next_identity :
      W × IdentityAttempt
      → (W → W × SnapshotResultV3 × Option StatusHeader)
      → W × SnapshotResultV3 × Option StatusHeader
  next_identity (w, IdentityAttempt.skipped) rest = rest w
  next_identity (w, IdentityAttempt.stopped r) rest = (w, r, none)
  next_identity (w, IdentityAttempt.whole h) rest = (w, SnapshotResultV3.coherent, some h)

  unfoldable pub identity_attempts :
      IdentityReadOps W → ℕ → W → W × SnapshotResultV3 × Option StatusHeader
  unfolding identity_attempt next_identity
  identity_attempts ops zero w = (w, SnapshotResultV3.unpublished, none)
  identity_attempts ops (suc left) w =
      next_identity (identity_attempt ops w) (identity_attempts ops left)

  unfoldable pub read_reporting_identity :
      IdentityReadOps W → W → W × SnapshotResultV3 × Option StatusHeader
  unfolding identity_attempts
  read_reporting_identity ops w = identity_attempts ops 3 w

-- The identity of a running report.
pub record IsReporting (h : StatusHeader) : Type 0 where
  pub magic : h.magic ≡ status_magic
  pub schema : h.schema ≡ 3
  pub bytes : h.bytes ≡ 3896
  pub version : h.artifact_version ≡ recovery_artifact_version
  pub mode : h.configured_mode ≤ 3
  pub validity : h.validity ≡ 31
  pub process : (1 ≤ h.pid) × (1 ≤ h.process_creation)
  pub clock : (1 ≤ h.qpc_frequency) × (h.qpc_frequency ≤ int64_max / 45)
  pub digests : (any_byte h.run_id ≡ true) × (any_byte h.host_digest ≡ true)
  pub reserved : all (λ word. word == 0) h.reserved ≡ true

-- A look at the block, from one world to another, that finds its reserved words zero.
pub record IsLook {W : Type 0} (ops : IdentityReadOps W) (w z : W) (a : Look) : Type 0 where
  pub w2 : W
  pub w3 : W
  pub w4 : W
  pub header : ops.header w ≡ (w2, some a.header)
  pub reserved : ops.reserved w2 ≡ (w3, some a.reserved)
  pub owner_reserved : ops.owner_reserved w3 ≡ (w4, some a.owner_reserved)
  pub worker_reserved : ops.worker_reserved w4 ≡ (z, some a.worker_reserved)

pub record IsClear (a : Look) : Type 0 where
  pub owner : a.owner_reserved ≡ 0
  pub worker : a.worker_reserved ≡ 0
  pub reserved : all (λ word. word == 0) a.reserved ≡ true

-- What the reads of one attempt returned, one after another: the block was ready before and after two
-- looks at it, which found the same words of the header.
pub record IsSeen {W : Type 0} (ops : IdentityReadOps W) (h : StatusHeader) : Type 0 where
  pub w1 : W
  pub w2 : W
  pub w3 : W
  pub w4 : W
  pub w5 : W
  pub a : Look
  pub b : Look
  pub ready_before : ops.header_ready w1 ≡ (w2, some 1)
  pub first : IsLook ops w2 w3 a
  pub second : IsLook ops w3 w4 b
  pub ready_after : ops.header_ready w4 ≡ (w5, some 1)
  pub given : h ≡ a.header
  pub stable : header_words a.header ≡ header_words b.header
  pub clear : IsClear a × IsClear b

scalars :
    (m s b v r c l p t q : ℕ) (run host zeros : Bool)
    → (m == status_magic
        && s == status_schema_v3
        && b == status_bytes
        && v == reporting_artifact_version_v3
        && v == recovery_artifact_version
        && leb c 3
        && l == 31
        && not (p == 0)
        && not (t == 0)
        && not (q == 0)
        && leb q (int64_max / 45)
        && run
        && host
        && zeros)
      ≡ true
    → ((m ≡ status_magic) × (s ≡ 3) × (b ≡ 3896) × (v ≡ recovery_artifact_version) × (c ≤ 3))
      × ((l ≡ 31) × (1 ≤ p) × (1 ≤ t) × (1 ≤ q) × (q ≤ int64_max / 45))
      × ((run ≡ true) × (host ≡ true) × (zeros ≡ true))
scalars m s b v r c l p t q run host zeros h = (
  (ground arith, ground arith, ground arith, ground arith, ground arith),
  (ground arith, ground arith, ground arith, ground arith, ground arith),
  (ground arith, ground arith, ground arith),
)

reporting : (h : StatusHeader) → reporting_identity_valid h ≡ true → IsReporting h
unfolding reporting_identity_valid
reporting h e =
    let (f, g, d) =
      scalars h.magic h.schema h.bytes h.artifact_version 0 h.configured_mode h.validity h.pid
        h.process_creation h.qpc_frequency (any_byte h.run_id) (any_byte h.host_digest)
        (all (λ word. word == 0) h.reserved) e in
    record {
      magic = f.0;
      schema = f.1;
      bytes = f.2;
      version = f.3;
      mode = f.4;
      validity = g.0;
      process = (g.1, g.2);
      clock = (g.3, g.4);
      digests = (d.0, d.1);
      reserved = d.2;
    }

six_clear :
    (a b c d : ℕ) (x y : Bool)
    → (a == 0 && b == 0 && c == 0 && d == 0 && x && y) ≡ true
    → (a ≡ 0) × (b ≡ 0) × (c ≡ 0) × (d ≡ 0) × (x ≡ true) × (y ≡ true)
six_clear a b c d x y h =
    (ground arith, ground arith, ground arith, ground arith, ground arith, ground arith)

still_ready : (n : ℕ) (b : Bool) → (not (n == 1) || not b) ≡ false → (n ≡ 1) × (b ≡ true)
still_ready n b h = (ground arith, ground arith)

one_ready : (n : ℕ) → not (n == 1) ≡ false → n ≡ 1
one_ready n h = ground arith

module _ {W : Type 0} (ops : IdentityReadOps W) where
  unfoldable Ends : W × IdentityAttempt → Type 0
  Ends (w, IdentityAttempt.skipped) = 0 ≤ 0
  Ends (w, IdentityAttempt.stopped r) = r ≢ SnapshotResultV3.coherent
  Ends (w, IdentityAttempt.whole h) = IsReporting h × IsSeen ops h

  invalid_end : (w : W) → Ends (w, IdentityAttempt.stopped SnapshotResultV3.invalid)
  unfolding Ends
  invalid_end w e = absurd (cc)

  failed_end : (w : W) → Ends (w, IdentityAttempt.stopped SnapshotResultV3.read_failure)
  unfolding Ends
  failed_end w e = absurd (cc)

  skipped_end : (w : W) → Ends (w, IdentityAttempt.skipped)
  unfolding Ends
  skipped_end w = omega arith

  settle_at-Ends :
      (w1 w2 w3 w4 w5 : W) (before : ℕ) (a b : Look) (after : ℕ)
      → before ≡ 1
      → ops.header_ready w1 ≡ (w2, some before)
      → IsLook ops w2 w3 a
      → IsLook ops w3 w4 b
      → ops.header_ready w4 ≡ (w5, some after)
      → Ends (settle_at a b w5 after)
  unfolding settle_identity Ends all_zero
  settle_at-Ends w1 w2 w3 w4 w5 before a b after one r1 first second r2 =
      pick (λ (r : IdentityAttempt). Ends (w5, r))
        (not (after == 1) || not (same_header a.header b.header)) _ _ (λ _. invalid_end w5)
        λ e.
          pick (λ (r : IdentityAttempt). Ends (w5, r)) (reporting_identity_valid a.header) _ _
            (λ valid.
              pick (λ (r : IdentityAttempt). Ends (w5, r))
                (a.owner_reserved == 0
                  && b.owner_reserved == 0
                  && a.worker_reserved == 0
                  && b.worker_reserved == 0
                  && all_zero a.reserved
                  && all_zero b.reserved)
                _ _
                (λ clear.
                  let (is_ready, agree) = still_ready after (same_header a.header b.header) e in
                  let c =
                    six_clear a.owner_reserved b.owner_reserved a.worker_reserved b.worker_reserved
                      (all_zero a.reserved) (all_zero b.reserved) clear in
                  (
                    reporting a.header valid,
                    record {
                      w1 = w1;
                      w2 = w2;
                      w3 = w3;
                      w4 = w4;
                      w5 = w5;
                      a = a;
                      b = b;
                      ready_before = r1 ∙ ap (λ n. (w2, some n)) one;
                      first = first;
                      second = second;
                      ready_after = r2 ∙ ap (λ n. (w5, some n)) is_ready;
                      given = refl;
                      stable = same→eq (header_words a.header) (header_words b.header) agree;
                      clear = (
                        record { owner = c.0; worker = c.2; reserved = c.4 },
                        record { owner = c.1; worker = c.3; reserved = c.5 },
                      );
                    },
                  ))
                (λ _. invalid_end w5))
            (λ _. invalid_end w5)

  got-Ends :
      {A : Type 0} (r : W × Option A) (rest : W → A → W × IdentityAttempt)
      → ((w : W) (a : A) → r ≡ (w, some a) → Ends (rest w a))
      → Ends (got r rest)
  unfolding got
  got-Ends (w, none) rest h = failed_end w
  got-Ends (w, some a) rest h = h w a refl

  take_look-Ends :
      (w : W) (rest : W → Look → W × IdentityAttempt)
      → ((z : W) (a : Look) → IsLook ops w z a → Ends (rest z a))
      → Ends (take_look ops w rest)
  unfolding take_look
  take_look-Ends w rest h = got-Ends (ops.header w) _ λ w1 header r1.
      got-Ends (ops.reserved w1) _ λ w2 reserved r2.
        got-Ends (ops.owner_reserved w2) _ λ w3 owner r3.
          got-Ends (ops.worker_reserved w3) _ λ w4 worker r4.
            h w4 (look header reserved owner worker) (record {
              w2 = w1;
              w3 = w2;
              w4 = w3;
              header = r1;
              reserved = r2;
              owner_reserved = r3;
              worker_reserved = r4;
            })

  identity_attempt-Ends : (w : W) → Ends (identity_attempt ops w)
  unfolding identity_attempt
  identity_attempt-Ends w = got-Ends (ops.header_ready w) _ λ w1 before r1.
      pick Ends (ltb 2 before) _ _ (λ _. invalid_end w1)
        λ _.
          pick Ends (not (before == 1)) _ _ (λ _. skipped_end w1)
            λ one. take_look-Ends w1 (after_look ops) λ w2 a first.
              take_look-Ends w2 (after_looks ops a) λ w3 b second.
                got-Ends (ops.header_ready w3) (settle_at a b) λ w4 after r2.
                  settle_at-Ends w w1 w2 w3 w4 before a b after (one_ready before one) r1 first
                    second r2

  -- A header is given out only with the coherent result.
  unfoldable GivesOut : W × SnapshotResultV3 × Option StatusHeader → Type 0
  GivesOut (w, r, none) = r ≢ SnapshotResultV3.coherent
  GivesOut (w, r, some h) = (r ≡ SnapshotResultV3.coherent) × IsReporting h × IsSeen ops h

  next_identity-GivesOut :
      (r : W × IdentityAttempt) (rest : W → W × SnapshotResultV3 × Option StatusHeader)
      → Ends r
      → ((w : W) → GivesOut (rest w))
      → GivesOut (next_identity r rest)
  unfolding next_identity Ends GivesOut
  next_identity-GivesOut (w, IdentityAttempt.skipped) rest e h = h w
  next_identity-GivesOut (w, IdentityAttempt.stopped r) rest e h = e
  next_identity-GivesOut (w, IdentityAttempt.whole i) rest e h = (refl, e.0, e.1)

  identity_attempts-GivesOut : (left : ℕ) (w : W) → GivesOut (identity_attempts ops left w)
  unfolding identity_attempts GivesOut
  identity_attempts-GivesOut zero w = λ e. absurd (cc)
  identity_attempts-GivesOut (suc left) w =
      next_identity-GivesOut (identity_attempt ops w) (identity_attempts ops left)
        (identity_attempt-Ends w) (identity_attempts-GivesOut left)

  -- A header that `ReadReportingIdentityV3` gives out, which it does only as coherent, is the identity of
  -- a running report with valid fields. All of it was read by one attempt: the block was ready before
  -- and after two looks, which found the same words of the header and every reserved word zero.
  pub read_reporting_identity-IsSeen :
      (w : W) (h : StatusHeader)
      → (read_reporting_identity ops w).2 ≡ some h
      → ((read_reporting_identity ops w).1 ≡ SnapshotResultV3.coherent)
        × IsReporting h
        × IsSeen ops h
  unfolding read_reporting_identity GivesOut
  read_reporting_identity-IsSeen w h e =
      given_out (identity_attempts ops 3 w) (identity_attempts-GivesOut 3 w) h e
    where
      given_out :
          (r : W × SnapshotResultV3 × Option StatusHeader)
          → GivesOut r
          → (h : StatusHeader) → r.2 ≡ some h
          → (r.1 ≡ SnapshotResultV3.coherent) × IsReporting h × IsSeen ops h
      given_out (w, r, none) g h e = absurd (cc)
      given_out (w, r, some i) g h e =
          let is_h : i ≡ h = cc in
          subst (λ h. (r ≡ SnapshotResultV3.coherent) × IsReporting h × IsSeen ops h) is_h g
