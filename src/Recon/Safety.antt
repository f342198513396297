-- ===== src/Recon/Safety.antt =====
-- src/companion/recon_fix.cpp: what `RunReconFix` guarantees of the code, by the outcome it reports.
use rs2server_fix.Base.{◌≡◌, refl, sym, ◌∙◌, ap, ℕ, List, true, false}
use rs2server_fix.Image.{Session}
use rs2server_fix.Image.Sound.{Memory}
use rs2server_fix.Recon.{
  ReconMode, ReconOutcome, ReconResult, StartupProfile, ReconProfile, ReconOps, Surroundings,
}
use rs2server_fix.Recon.Fix.{
  Verdict, Progress, refused, qualified, finished, failed, expected_bytes, proceed, run_recon_fix,
  settle, rollback, recover_without_write,
}
use rs2server_fix.Recon.Rules.{branch-post}
use rs2server_fix.Recon.Facts.{IsFaithful, Holds, code}
use rs2server_fix.Recon.Qualify.{HasDigests, Unchanged, qualify-Unchanged}
use rs2server_fix.Recon.Interval.{transact-Leaves, settle-Settled, Settled, SettledRun}

module _ {World : Type 0} (mem : World → Memory) (ops : ReconOps World)
    (around : Surroundings World) (faithful : IsFaithful mem ops around) (base : ℕ)
    (startup : StartupProfile) (profile : ReconProfile) (thread : ℕ) where
  -- What the code is after a run, by the outcome.
  unfoldable pub Outcome : Memory → ReconOutcome → Memory → Type 0
  Outcome m ReconOutcome.passive n = n ≡ m
  Outcome m ReconOutcome.disabled n = code base profile n ≡ code base profile m
  Outcome m ReconOutcome.rolled_back n = Holds base profile (code base profile m) n
  Outcome m ReconOutcome.active n =
      Holds base profile
        (expected_bytes base startup profile ops around thread (code base profile m)) n
      × ((around.hash_bytes (code base profile n)).value ≡ profile.corrected_digest)
  Outcome m ReconOutcome.fatal n = Unit

  Outcome-of-Settled :
      (m n : Memory) (bytes : List ℕ) (o : ReconOutcome)
      → code base profile m ≡ bytes
      → HasDigests mem ops around faithful base startup profile thread bytes
      → Settled mem ops around faithful base startup profile bytes
          (expected_bytes base startup profile ops around thread bytes)
          o
          n
      → Outcome m o n
  unfolding Outcome Settled HasDigests
  Outcome-of-Settled m n bytes ReconOutcome.active c d h = (rw c h, rw h.0 d.1)
  Outcome-of-Settled m n bytes ReconOutcome.disabled c d h = h.0 ∙ sym c
  Outcome-of-Settled m n bytes ReconOutcome.rolled_back c d h = rw c h
  Outcome-of-Settled m n bytes ReconOutcome.passive c d h = absurd h
  Outcome-of-Settled m n bytes ReconOutcome.fatal c d h = tt

  proceed-Outcome :
      (mode : ReconMode) (m : Memory) (v : Verdict × Session World)
      → Unchanged mem ops around faithful base startup profile thread m v
      → Outcome m
          (proceed base startup profile ops around thread mode v).0.outcome
          (mem (proceed base startup profile ops around thread mode v).1.world)
  unfolding proceed Outcome Unchanged Settled SettledRun
  proceed-Outcome mode m (refused reason, s) h = ap (code base profile) h
  proceed-Outcome ReconMode.passive m (qualified bytes, s) h = h.0
  proceed-Outcome ReconMode.active m (qualified bytes, s) h =
      Outcome-of-Settled m _ bytes _ h.1 h.2 (
        settle-Settled mem ops around faithful base startup profile thread bytes
          (expected_bytes base startup profile ops around thread bytes) _
          (transact-Leaves mem ops around faithful base startup profile thread bytes
            (expected_bytes base startup profile ops around thread bytes) s))

  -- Whatever the calls that change protection and bytes do, whether they fail or succeed, a run
  -- of the correction ends with the code that its outcome promises: after `passive` the whole
  -- memory is as it was; after `disabled` the code is as it was; after `rolled_back` it is as it
  -- was, in readable and executable pages that are not writable; after `active` it is the original
  -- code with the four operand bytes replaced, in such pages, with the digest of the profile. The
  -- reading calls, the flush and the checks are assumed to change no memory, and a read that
  -- succeeds to be true. A `fatal` outcome promises nothing.
  pub run_recon_fix-Outcome :
      (mode : ReconMode) (host_digest : List ℕ) (w : World)
      → let r = run_recon_fix base startup profile ops around thread mode host_digest w in
        Outcome (mem w) r.0.outcome (mem r.1.world)
  unfolding run_recon_fix
  run_recon_fix-Outcome mode host_digest w = proceed-Outcome mode (mem w) _ (
      qualify-Unchanged mem ops around faithful base startup profile thread host_digest
        (record { world = w; error = 0 }))

  settle_qualified :
      (bytes : List ℕ) (p : Progress × Session World)
      → (settle base startup profile ops around thread bytes p).0.qualified ≡ true
  unfolding settle
  settle_qualified bytes (finished o reason, s) = refl
  settle_qualified bytes (failed reason true, s) =
      branch-post (λ (r : ReconResult × Session World). r.0.qualified ≡ true)
        (rollback base startup profile ops bytes s) _ _ (λ _. refl) (λ _. refl)
  settle_qualified bytes (failed reason false, s) =
      branch-post (λ (r : ReconResult × Session World). r.0.qualified ≡ true)
        (recover_without_write base startup profile ops bytes s) _ _ (λ _. refl) (λ _. refl)

  proceed-refused :
      (mode : ReconMode) (m : Memory) (v : Verdict × Session World)
      → Unchanged mem ops around faithful base startup profile thread m v
      → (proceed base startup profile ops around thread mode v).0.qualified ≡ false
      → (mem (proceed base startup profile ops around thread mode v).1.world ≡ m)
        × ((proceed base startup profile ops around thread mode v).0.outcome
            ≡ ReconOutcome.disabled)
  unfolding proceed Unchanged
  proceed-refused mode m (refused reason, s) h q = (h, refl)
  proceed-refused ReconMode.passive m (qualified bytes, s) h q = cc
  proceed-refused ReconMode.active m (qualified bytes, s) h q = cc (settle_qualified bytes _)

  -- A run that is refused before it qualifies reports `disabled` and leaves the whole memory as it
  -- was, under the same assumptions on the reading calls, the flush and the checks.
  pub run_recon_fix_refused :
      (mode : ReconMode) (host_digest : List ℕ) (w : World)
      → (run_recon_fix base startup profile ops around thread mode host_digest w).0.qualified
        ≡ false
      → (mem (run_recon_fix base startup profile ops around thread mode host_digest w).1.world
          ≡ mem w)
        × ((run_recon_fix base startup profile ops around thread mode host_digest w).0.outcome
            ≡ ReconOutcome.disabled)
  unfolding run_recon_fix
  run_recon_fix_refused mode host_digest w = proceed-refused mode (mem w) _ (
      qualify-Unchanged mem ops around faithful base startup profile thread host_digest
        (record { world = w; error = 0 }))

  proceed-passive :
      (m : Memory) (v : Verdict × Session World)
      → Unchanged mem ops around faithful base startup profile thread m v
      → mem (proceed base startup profile ops around thread ReconMode.passive v).1.world ≡ m
  unfolding proceed Unchanged
  proceed-passive m (refused reason, s) h = h
  proceed-passive m (qualified bytes, s) h = h.0

  -- The passive mode leaves the whole memory as it was, whatever its result, under the same
  -- assumptions.
  pub run_recon_fix-passive :
      (host_digest : List ℕ) (w : World)
      → mem
          (run_recon_fix base startup profile ops around thread ReconMode.passive host_digest
            w).1.world
        ≡ mem w
  unfolding run_recon_fix
  run_recon_fix-passive host_digest w = proceed-passive (mem w) _ (
      qualify-Unchanged mem ops around faithful base startup profile thread host_digest
        (record { world = w; error = 0 }))
