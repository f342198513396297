-- ===== src/Recon/Fix.antt =====
-- src/companion/recon_fix.cpp: `RecoverWithoutWrite`, `Rollback` and `RunReconFix`. A pointer of the
-- operations table is never null here, and a mode is one of the two that the type has; the source
-- refuses all else with the result that a bad profile gets.
use rs2server_fix.Base.{
  ℕ, ◌+◌, ◌-◌, Bool, true, false, not, ◌&&◌, List, [], ◌∷◌, ◌==◌, if◌then◌else◌, length, same,
}
use rs2server_fix.Image.{
  Reply, Session, address, told, page_readonly, page_execute_read, page_execute_readwrite,
  read_image_range, image_range_protection,
}
use rs2server_fix.Recon.{
  ReconMode, ReconOutcome, FixReason, ReconResult, StartupProfile, ReconProfile, ReconOps,
  Surroundings,
}
use rs2server_fix.Recon.Check.{
  dword_bytes, dword_of, profile_valid, patch, holds_at, and_then, all_of, or_else, reads,
  bytes_equal, writable_code, original_protection, constant_matches,
}

-- Section characteristics of the PE format.
abbrev pub section_readable : ℕ
section_readable = 0x40000000

abbrev pub section_executable : ℕ
section_executable = 0x20000000

abbrev pub section_writable : ℕ
section_writable = 0x80000000

abbrev pub section_discardable : ℕ
section_discardable = 0x02000000

-- The run goes on in one of two ways after a check.
unfoldable pub branch {ℓ} :
    {World : Type 0} {A : Type ℓ}
    → Bool × Session World
    → (Session World → A)
    → (Session World → A)
    → A
branch (true, s) pass fail = pass s
branch (false, s) pass fail = fail s

-- What the writable interval leaves to do: nothing, or to undo, with the reason of the failure and
-- whether a write was attempted.
pub data Progress : Type 0 where
  finished : ReconOutcome → FixReason → Progress
  failed : FixReason → Bool → Progress

-- The first test of the qualification that refuses, or the original bytes.
pub data Verdict : Type 0 where
  refused : FixReason → Verdict
  qualified : List ℕ → Verdict

unfoldable pub is_none : FixReason → Bool
is_none FixReason.none = true
is_none _ = false

module _ {World : Type 0} where
  unfoldable pub ok_of : {A : Type 0} → Reply A × World → Bool × Session World
  unfolding told
  ok_of (reply, w) = (reply.ok, told (reply, w))

  -- A call with an error of its own leaves the cell as it was.
  unfoldable pub aside : Session World → Bool × World → Bool × Session World
  aside s (b, w) = (b, record s { world = w })

  unfoldable pub with_error : ℕ → Session World → Session World
  with_error e s = record s { error = e }

module _ {World : Type 0} (base : ℕ) (startup : StartupProfile) (profile : ReconProfile)
    (ops : ReconOps World) where
  open profile use {function_rva, function_size, operand_rva, old_displacement, new_displacement}

  unfoldable pub protect_code : ℕ → Session World → Bool × Session World
  unfolding ok_of
  protect_code protection s = ok_of (ops.protect (address base operand_rva) 4 protection s.world)

  unfoldable pub write_code : ℕ → Session World → Bool × Session World
  unfolding ok_of
  write_code value s = ok_of (ops.write_dword (address base operand_rva) value s.world)

  unfoldable pub flush_code : Session World → Bool × Session World
  unfolding ok_of
  flush_code s = ok_of (ops.flush (address base function_rva) function_size s.world)

  -- The original protection, and the bytes given.
  unfoldable pub original_state : List ℕ → Session World → Bool × Session World
  unfolding and_then
  original_state original s =
      and_then (original_protection base startup profile ops s)
        (bytes_equal base startup profile ops original)

  unfoldable pub proved_twice : List ℕ → Session World → Bool × Session World
  unfolding or_else
  proved_twice original s = or_else (original_state original s) (original_state original)

  unfoldable pub recover_without_write : List ℕ → Session World → Bool × Session World
  unfolding branch
  recover_without_write original s =
      branch (proved_twice original s) (λ t. (true, t))
        λ t.
          branch (writable_code base startup profile ops t)
            (λ u. proved_twice original (protect_code page_execute_read u).1) (λ u. (false, u))

  -- Puts the old displacement back in writable code,
  unfoldable pub write_back : List ℕ → Session World → Bool × Session World
  unfolding all_of
  write_back original = all_of (
      protect_code page_execute_readwrite
      ∷ writable_code base startup profile ops
      ∷ write_code old_displacement
      ∷ bytes_equal base startup profile ops original
      ∷ [])

  -- and then the protection.
  unfoldable pub protect_again : List ℕ → Session World → Bool × Session World
  unfolding all_of
  protect_again original = all_of (
      protect_code page_execute_read
      ∷ original_protection base startup profile ops
      ∷ bytes_equal base startup profile ops original
      ∷ flush_code
      ∷ [])

  unfoldable pub rollback : List ℕ → Session World → Bool × Session World
  unfolding and_then write_back protect_again
  rollback original s = and_then (write_back original s) (protect_again original)

  -- The host file is confirmed once more before the correction counts as active.
  unfoldable pub publish : Session World → Progress × Session World
  unfolding is_none told with_error
  publish s =
      let (reply, w) = ops.validate_host_identity s.world in
      let t = told (reply, w) in
      if is_none reply.value
      then (finished ReconOutcome.active FixReason.none, with_error 0 t)
      else (failed reply.value true, t)

  -- The part that follows a read-back of the corrected bytes in writable code: protection is put
  -- back, everything is read again, and the host file is confirmed.
  unfoldable pub seal : List ℕ → Session World → Progress × Session World
  unfolding branch and_then original_state publish
  seal expected s =
      branch (and_then (protect_code page_execute_read s) (original_state expected))
        (λ s.
          branch (constant_matches base startup profile ops s)
            (λ s. branch (flush_code s) publish (λ s. (failed FixReason.flush_failed true, s)))
            (λ s. (failed FixReason.constant_mismatch true, s)))
        (λ s. (failed FixReason.restore_failed true, s))

  -- The correction itself, in writable code.
  unfoldable pub correct : List ℕ → List ℕ → Session World → Progress × Session World
  unfolding branch seal
  correct original expected s =
      branch (bytes_equal base startup profile ops original s)
        (λ s.
          branch (write_code new_displacement s)
            (λ s.
              branch (bytes_equal base startup profile ops expected s)
                (λ s.
                  branch (constant_matches base startup profile ops s) (seal expected)
                    (λ s. (failed FixReason.constant_mismatch true, s)))
                (λ s. (failed FixReason.readback_failed true, s)))
            (λ s. (failed FixReason.write_failed true, s)))
        (λ s. (failed FixReason.readback_failed false, s))

module _ {World : Type 0} (base : ℕ) (startup : StartupProfile) (profile : ReconProfile)
    (ops : ReconOps World) (around : Surroundings World) (startup_thread : ℕ) where
  open startup use {image_size, state_rva, state_value}
  open profile use {
    function_rva, function_size, load_rva, original_window, operand_rva, old_displacement,
    new_displacement, constant_rva, constant_bytes,
  }

  -- The startup stage is still the profiled one, on the startup thread.
  unfoldable pub stage_holds : Session World → Bool × Session World
  unfolding reads
  stage_holds s =
      if around.current_thread == startup_thread
      then reads (read_image_range ops.memory base image_size state_rva 4 s)
          (λ bytes. dword_of bytes == state_value)
      else (false, s)

  -- From the first change of protection to the last check.
  unfoldable pub transact : List ℕ → List ℕ → Session World → Progress × Session World
  unfolding branch told original_state stage_holds correct with_error
  transact original expected s =
      let (reply, w) = ops.protect (address base operand_rva) 4 page_execute_readwrite s.world in
      let t = told (reply, w) in
      if not reply.ok
      then branch (original_state base startup profile ops original t)
          (λ u. (finished ReconOutcome.disabled FixReason.protect_failed, with_error reply.error u))
          (λ u. (failed FixReason.protect_failed false, u))
      else if not (reply.value == page_execute_read)
      then (failed FixReason.protection_mismatch false, t)
      else branch (writable_code base startup profile ops t)
          (λ u.
            branch (stage_holds u) (correct base startup profile ops original expected)
              (λ v. (failed FixReason.startup_rejected false, v)))
          (λ u. (failed FixReason.protection_mismatch false, u))

  -- A failure is followed by one bounded attempt to prove or restore the original code.
  unfoldable pub settle : List ℕ → Progress × Session World → ReconResult × Session World
  unfolding branch recover_without_write rollback with_error
  settle original (finished outcome reason, s) =
      (record { outcome = outcome; reason = reason; error = s.error; qualified = true }, s)
  settle original (failed reason attempted, s) =
      let undone =
        if attempted
        then rollback base startup profile ops original s
        else recover_without_write base startup profile ops original s in
      branch undone
        (λ t. (
          record {
            outcome = if attempted then ReconOutcome.rolled_back else ReconOutcome.disabled;
            reason = reason;
            error = s.error;
            qualified = true;
          },
          t,
        ))
        (λ t. (
          record {
            outcome = ReconOutcome.fatal;
            reason = FixReason.rollback_failed;
            error = t.error;
            qualified = true;
          },
          t,
        ))

  -- Protections and sections of code and constant, at the start.
  unfoldable pub code_section : Session World → Bool × Session World
  unfolding aside
  code_section s = aside s (
      around.image_section_matches function_rva function_size
        (section_readable + section_executable) (section_writable + section_discardable) s.world)

  unfoldable pub constant_section : Session World → Bool × Session World
  unfolding aside
  constant_section s = aside s (
      around.image_section_matches constant_rva (length constant_bytes) section_readable
        (section_writable + section_executable + section_discardable) s.world)

  unfoldable pub protections_match : Session World → Bool × Session World
  unfolding all_of original_protection code_section constant_section
  protections_match = all_of (
      original_protection base startup profile ops
      ∷ code_section
      ∷ image_range_protection ops.memory base image_size constant_rva (length constant_bytes)
          page_readonly
      ∷ constant_section
      ∷ [])

  -- The tests of the bytes that were read, by digest, window and old displacement.
  unfoldable pub function_matches : List ℕ → Session World → Bool × Session World
  unfolding holds_at with_error
  function_matches original s =
      let digest = around.hash_bytes original in
      (
        digest.ok
            && same digest.value profile.original_digest
            && holds_at original (load_rva - function_rva) original_window
            && holds_at original (operand_rva - function_rva) (dword_bytes old_displacement),
        with_error digest.error s,
      )

  unfoldable pub expected_bytes : List ℕ → List ℕ
  unfolding patch
  expected_bytes original =
      patch (operand_rva - function_rva) (dword_bytes new_displacement) original

  unfoldable pub prepared_matches : List ℕ → Session World → Bool × Session World
  unfolding with_error
  prepared_matches original s =
      let digest = around.hash_bytes (expected_bytes original) in
      (digest.ok && same digest.value profile.corrected_digest, with_error digest.error s)

  -- The same original state, read once more just before anything changes.
  unfoldable pub still_original : List ℕ → Session World → Bool × Session World
  unfolding and_then original_state
  still_original original s =
      and_then (original_state base startup profile ops original s)
        (constant_matches base startup profile ops)

  -- The host file and the startup are confirmed, then the code once more.
  unfoldable pub confirm : List ℕ → Session World → Verdict × Session World
  unfolding branch told is_none aside still_original
  confirm original s =
      let (reply, w) = ops.validate_host_identity s.world in
      let t = told (reply, w) in
      if is_none reply.value
      then branch (aside t (around.check_startup_opportunity t.world))
          (λ t.
            branch (still_original original t) (λ t. (qualified original, t))
              (λ t. (refused FixReason.readback_failed, t)))
          (λ t. (refused FixReason.startup_rejected, t))
      else (refused reply.value, t)

  -- The tests on the code that has been read.
  unfoldable pub examine : List ℕ → Session World → Verdict × Session World
  unfolding branch reads function_matches prepared_matches confirm
  examine original s =
      branch (function_matches original s)
        (λ s.
          branch
            (reads
              (read_image_range ops.memory base image_size constant_rva (length constant_bytes) s)
              (λ bytes. same bytes constant_bytes))
            (λ s.
              branch (prepared_matches original s) (confirm original)
                (λ s. (refused FixReason.prepared_digest_mismatch, s)))
            (λ s. (refused FixReason.constant_mismatch, s)))
        (λ s. (refused FixReason.function_mismatch, s))

  -- Reads the code, and goes on if that works.
  unfoldable pub examine_code : (Bool × List ℕ) × Session World → Verdict × Session World
  unfolding examine
  examine_code ((true, original), s) = examine original s
  examine_code ((false, original), s) = (refused FixReason.code_unreadable, s)

  -- Everything up to `qualified`: no call here changes the code.
  unfoldable pub qualify : List ℕ → Session World → Verdict × Session World
  unfolding branch aside protections_match examine_code profile_valid
  qualify host_digest s =
      if not (profile_valid profile startup)
      then (refused FixReason.invalid_context, s)
      else if not (same host_digest profile.host_digest)
      then (refused FixReason.unsupported_host, s)
      else branch (aside s (around.check_startup_opportunity s.world))
          (λ s.
            branch (protections_match s)
              (λ s.
                examine_code
                  (read_image_range ops.memory base image_size function_rva function_size s))
              (λ s. (refused FixReason.protection_mismatch, s)))
          (λ s. (refused FixReason.startup_rejected, s))

  unfoldable pub proceed : ReconMode → Verdict × Session World → ReconResult × Session World
  unfolding settle transact expected_bytes with_error
  proceed mode (refused reason, s) = (
    record { outcome = ReconOutcome.disabled; reason = reason; error = s.error; qualified = false },
    s,
  )
  proceed ReconMode.passive (qualified original, s) = (
    record { outcome = ReconOutcome.passive; reason = FixReason.none; error = 0; qualified = true },
    with_error 0 s,
  )
  proceed ReconMode.active (qualified original, s) =
      settle original (transact original (expected_bytes original) s)

  unfoldable pub run_recon_fix : ReconMode → List ℕ → World → ReconResult × Session World
  unfolding proceed qualify
  run_recon_fix mode host_digest w =
      proceed mode (qualify host_digest (record { world = w; error = 0 }))
