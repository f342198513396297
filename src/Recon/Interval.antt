-- ===== src/Recon/Interval.antt =====
-- src/companion/recon_fix.cpp: what the writable interval leaves, and what settling it proves or restores.
use rs2server_fix.Base.{ℕ, sym, ◌∙◌, subst, Bool, true, false, List, Bool-cases, inl, inr, ◌==◌}
use rs2server_fix.Image.{Session, told, address, page_execute_readwrite, page_execute_read}
use rs2server_fix.Image.Sound.{Memory}
use rs2server_fix.Recon.{
  ReconOutcome, FixReason, ReconResult, StartupProfile, ReconProfile, ReconOps, Surroundings,
}
use rs2server_fix.Recon.Check.{and_then, bytes_equal, constant_matches, writable_code}
use rs2server_fix.Recon.Fix.{
  Progress, finished, failed, is_none, with_error, original_state, rollback, recover_without_write,
  protect_code, write_code, flush_code, publish, seal, correct, stage_holds, transact, settle,
}
use rs2server_fix.Recon.Rules.{and_then-post, branch-post}
use rs2server_fix.Recon.Facts.{
  IsFaithful, Holds, constant_matches-keeps, flush_code-keeps, original_state-true, rollback-true,
  recover_without_write-true,
}

module _ {World : Type 0} (mem : World → Memory) (ops : ReconOps World)
    (around : Surroundings World) (faithful : IsFaithful mem ops around) (base : ℕ)
    (startup : StartupProfile) (profile : ReconProfile) where
  -- What the writable interval leaves, where it claims to be over.
  pub Leaves : List ℕ → List ℕ → Progress × Session World → Type 0
  Leaves original expected (finished ReconOutcome.active reason, s) =
      Holds base profile expected (mem s.world)
  Leaves original expected (finished ReconOutcome.disabled reason, s) =
      Holds base profile original (mem s.world)
  Leaves original expected (finished _ reason, s) = ⊥
  Leaves original expected (failed reason attempted, s) = Unit

  publish-Leaves :
      (original expected : List ℕ) (s : Session World)
      → Holds base profile expected (mem s.world)
      → Leaves original expected (publish base startup profile ops s)
  unfolding Leaves publish is_none told with_error
  publish-Leaves original expected s h =
      let (reply, w) = ops.validate_host_identity s.world in
      let kept = subst (Holds base profile expected) (sym (faithful.validate_keeps s.world)) h in
      elim (Bool-cases (is_none reply.value)) [ inl e ↦ rw e kept | inr e ↦ rw e tt ]

  failed-Leaves :
      (original expected : List ℕ) (reason : FixReason) (attempted : Bool) (s : Session World)
      → Leaves original expected (failed reason attempted, s)
  unfolding Leaves
  failed-Leaves original expected reason attempted s = tt

  seal-Leaves :
      (original expected : List ℕ) (s : Session World)
      → Leaves original expected (seal base startup profile ops expected s)
  unfolding seal
  seal-Leaves original expected s =
      let protected = protect_code base startup profile ops page_execute_read s in
      let proof = and_then protected (original_state base startup profile ops expected) in
      let matched = constant_matches base startup profile ops proof.1 in
      let flushed = flush_code base startup profile ops matched.1 in
      branch-post (Leaves original expected) proof _ _
        (λ restored.
          let held : Holds base profile expected (mem proof.1.world) =
            and_then-post (λ (t : Session World). Holds base profile expected (mem t.world))
              protected (original_state base startup profile ops expected)
              (λ _. original_state-true mem ops around faithful base startup profile expected _)
              restored in
          let kept =
            flush_code-keeps mem ops around faithful base startup profile matched.1
            ∙ constant_matches-keeps mem ops around faithful base startup profile proof.1 in
          branch-post (Leaves original expected) matched _ _
            (λ _.
              branch-post (Leaves original expected) flushed _ _
                (λ _.
                  publish-Leaves original expected flushed.1
                    (subst (Holds base profile expected) (sym kept) held))
                (λ _. failed-Leaves original expected _ _ _))
            (λ _. failed-Leaves original expected _ _ _))
        (λ _. failed-Leaves original expected _ _ _)

  correct-Leaves :
      (original expected : List ℕ) (s : Session World)
      → Leaves original expected (correct base startup profile ops original expected s)
  unfolding correct
  correct-Leaves original expected s =
      let equal = bytes_equal base startup profile ops original s in
      let written = write_code base startup profile ops profile.new_displacement equal.1 in
      let read_back = bytes_equal base startup profile ops expected written.1 in
      let matched = constant_matches base startup profile ops read_back.1 in
      let P = Leaves original expected in
      branch-post P equal _ _
        (λ _.
          branch-post P written _ _
            (λ _.
              branch-post P read_back _ _
                (λ _.
                  branch-post P matched _ _ (λ _. seal-Leaves original expected matched.1)
                    (λ _. failed-Leaves original expected _ _ _))
                (λ _. failed-Leaves original expected _ _ _))
            (λ _. failed-Leaves original expected _ _ _))
        (λ _. failed-Leaves original expected _ _ _)

  disabled-Leaves :
      (original expected : List ℕ) (reason : FixReason) (e : ℕ) (s : Session World)
      → Holds base profile original (mem s.world)
      → Leaves original expected (finished ReconOutcome.disabled reason, with_error e s)
  unfolding Leaves with_error
  disabled-Leaves original expected reason e s h = h

  pub transact-Leaves :
      (thread : ℕ) (original expected : List ℕ) (s : Session World)
      → Leaves original expected
          (transact base startup profile ops around thread original expected s)
  unfolding transact
  transact-Leaves thread original expected s =
      let (reply, w) =
        ops.protect (address base profile.operand_rva) 4 page_execute_readwrite s.world in
      let P = Leaves original expected in
      let t = told (reply, w) in
      let proof = original_state base startup profile ops original t in
      let writable = writable_code base startup profile ops t in
      let stage = stage_holds base startup profile ops around thread writable.1 in
      elim (Bool-cases reply.ok) [
        | inr e ↦ rw e (
            branch-post P proof _ _
              (λ h.
                disabled-Leaves original expected _ reply.error proof.1
                  (original_state-true mem ops around faithful base startup profile original t h))
              (λ _. failed-Leaves original expected _ _ _))
        | inl e ↦ rw e (elim (Bool-cases (reply.value == page_execute_read)) [
          | inr f ↦ rw f (failed-Leaves original expected _ _ _)
          | inl f ↦ rw f (
              branch-post P writable _ _
                (λ _.
                  branch-post P stage _ _ (λ _. correct-Leaves original expected stage.1)
                    (λ _. failed-Leaves original expected _ _ _))
                (λ _. failed-Leaves original expected _ _ _))
        ])
      ]

  -- The code when a run that reached the writable interval ends with an outcome.
  unfoldable pub Settled : List ℕ → List ℕ → ReconOutcome → Memory → Type 0
  Settled original expected ReconOutcome.active m = Holds base profile expected m
  Settled original expected ReconOutcome.disabled m = Holds base profile original m
  Settled original expected ReconOutcome.rolled_back m = Holds base profile original m
  Settled original expected ReconOutcome.fatal m = Unit
  Settled original expected ReconOutcome.passive m = ⊥

  unfoldable pub SettledRun : List ℕ → List ℕ → ReconResult × Session World → Type 0
  SettledRun original expected (r, s) = Settled original expected r.outcome (mem s.world)

  -- A failure is settled by a proof that the original code is in place, or is fatal.
  settle_failed :
      (thread : ℕ) (original expected : List ℕ) (reason : FixReason) (attempted : Bool)
      (s : Session World)
      → SettledRun original expected
          (settle base startup profile ops around thread original (failed reason attempted, s))
  unfolding settle SettledRun Settled
  settle_failed thread original expected reason true s =
      branch-post (SettledRun original expected) (rollback base startup profile ops original s) _ _
        (rollback-true mem ops around faithful base startup profile original s) (λ _. tt)
  settle_failed thread original expected reason false s =
      branch-post (SettledRun original expected)
        (recover_without_write base startup profile ops original s) _ _
        (recover_without_write-true mem ops around faithful base startup profile original s)
        (λ _. tt)

  pub settle-Settled :
      (thread : ℕ) (original expected : List ℕ) (p : Progress × Session World)
      → Leaves original expected p
      → SettledRun original expected (settle base startup profile ops around thread original p)
  unfolding settle SettledRun Settled Leaves
  settle-Settled thread original expected (failed reason attempted, s) h =
      settle_failed thread original expected reason attempted s
  settle-Settled thread original expected (finished ReconOutcome.active reason, s) h = h
  settle-Settled thread original expected (finished ReconOutcome.disabled reason, s) h = h
  settle-Settled thread original expected (finished ReconOutcome.passive reason, s) h = h
  settle-Settled thread original expected (finished ReconOutcome.rolled_back reason, s) h = absurd h
  settle-Settled thread original expected (finished ReconOutcome.fatal reason, s) h = tt
