-- ===== src/Recon/Qualify.antt =====
-- src/companion/recon_fix.cpp: the qualification changes no memory, and what it has checked if it passes.
use rs2server_fix.Base.{
  ℕ, ◌≡◌, refl, sym, ◌∙◌, ap, Bool, true, false, List, [], ◌∷◌, ◌+◌, arith, Bool-cases, inl, inr,
  length, same, same→eq, &&→both,
}
use rs2server_fix.Image.{Session, told, read_image_range, image_range_protection, page_readonly}
use rs2server_fix.Image.Sound.{
  Memory, image_range_protection-keeps, read_image_range-keeps, read_image_range-true,
}
use rs2server_fix.Recon.{FixReason, StartupProfile, ReconProfile, ReconOps, Surroundings}
use rs2server_fix.Recon.Check.{reads, original_protection, profile_valid}
use rs2server_fix.Recon.Fix.{
  Verdict, refused, qualified, aside, is_none, protections_match, code_section, constant_section,
  function_matches, prepared_matches, expected_bytes, still_original, confirm, examine,
  examine_code, qualify, section_readable, section_executable, section_writable,
  section_discardable,
}
use rs2server_fix.Recon.Rules.{
  branch-post, and_then-keeps, all_of-keeps, all_of_nil-keeps, reads-keeps,
}
use rs2server_fix.Recon.Facts.{
  IsFaithful, code, constant_matches-keeps, original_state-keeps, original_protection-keeps,
}

module _ {World : Type 0} (mem : World → Memory) (ops : ReconOps World)
    (around : Surroundings World) (faithful : IsFaithful mem ops around) (base : ℕ)
    (startup : StartupProfile) (profile : ReconProfile) (thread : ℕ) where
  open startup use {image_size}
  open profile use {function_rva, function_size, constant_rva, constant_bytes}

  -- Original and corrected bytes have the digests of the profile.
  unfoldable pub HasDigests : List ℕ → Type 0
  HasDigests bytes =
      ((around.hash_bytes bytes).value ≡ profile.original_digest)
      × ((around.hash_bytes (expected_bytes base startup profile ops around thread bytes)).value
          ≡ profile.corrected_digest)

  -- Nothing has changed, and a run that qualifies has read the code and checked its digests.
  unfoldable pub Unchanged : Memory → Verdict × Session World → Type 0
  Unchanged m (refused reason, s) = mem s.world ≡ m
  Unchanged m (qualified bytes, s) =
      (mem s.world ≡ m) × (code base profile m ≡ bytes) × HasDigests bytes

  aside-keeps : (s : Session World) (r : Bool × World) → mem (aside s r).1.world ≡ mem r.1
  unfolding aside
  aside-keeps s (b, w) = refl

  refused-Unchanged :
      (m : Memory) (reason : FixReason) (s : Session World)
      → mem s.world ≡ m
      → Unchanged m (refused reason, s)
  unfolding Unchanged
  refused-Unchanged m reason s h = h

  still_original-keeps :
      (bytes : List ℕ) (s : Session World)
      → mem (still_original base startup profile ops around thread bytes s).1.world ≡ mem s.world
  unfolding still_original
  still_original-keeps bytes s =
      and_then-keeps mem _ _ (constant_matches-keeps mem ops around faithful base startup profile)
      ∙ original_state-keeps mem ops around faithful base startup profile bytes s

  confirm-Unchanged :
      (m : Memory) (bytes : List ℕ) (s : Session World)
      → mem s.world ≡ m
      → code base profile m ≡ bytes
      → HasDigests bytes
      → Unchanged m (confirm base startup profile ops around thread bytes s)
  unfolding confirm Unchanged
  confirm-Unchanged m bytes s h c d =
      let (reply, w) = ops.validate_host_identity s.world in
      let t = told (reply, w) in
      let opportunity = aside t (around.check_startup_opportunity w) in
      let still = still_original base startup profile ops around thread bytes opportunity.1 in
      let kept : mem opportunity.1.world ≡ m =
        aside-keeps t (around.check_startup_opportunity w)
        ∙ faithful.startup_keeps w
        ∙ faithful.validate_keeps s.world
        ∙ h in
      elim (Bool-cases (is_none reply.value)) [
        | inr e ↦ rw e (faithful.validate_keeps s.world ∙ h)
        | inl e ↦ rw e (
            branch-post (Unchanged m) opportunity _ _
              (λ _.
                branch-post (Unchanged m) still _ _
                  (λ _. (still_original-keeps bytes opportunity.1 ∙ kept, c, d))
                  (λ _. still_original-keeps bytes opportunity.1 ∙ kept))
              (λ _. kept))
      ]

  function_matches-digest :
      (bytes : List ℕ) (s : Session World)
      → (function_matches base startup profile ops around thread bytes s).0 ≡ true
      → (around.hash_bytes bytes).value ≡ profile.original_digest
  unfolding function_matches
  function_matches-digest bytes s h =
      let digest = around.hash_bytes bytes in
      same→eq digest.value profile.original_digest (ground arith)

  prepared_matches-digest :
      (bytes : List ℕ) (s : Session World)
      → (prepared_matches base startup profile ops around thread bytes s).0 ≡ true
      → (around.hash_bytes (expected_bytes base startup profile ops around thread bytes)).value
        ≡ profile.corrected_digest
  unfolding prepared_matches
  prepared_matches-digest bytes s h =
      let expected = expected_bytes base startup profile ops around thread bytes in
      let digest = around.hash_bytes expected in
      same→eq digest.value profile.corrected_digest (&&→both digest.ok _ h).1

  -- The two digest tests only write the error cell.
  digests-keep :
      (bytes : List ℕ) (s : Session World)
      → (mem (function_matches base startup profile ops around thread bytes s).1.world
          ≡ mem s.world)
        × (mem (prepared_matches base startup profile ops around thread bytes s).1.world
            ≡ mem s.world)
  unfolding function_matches prepared_matches
  digests-keep bytes s = (refl, refl)

  examine-Unchanged :
      (m : Memory) (bytes : List ℕ) (s : Session World)
      → mem s.world ≡ m
      → code base profile m ≡ bytes
      → Unchanged m (examine base startup profile ops around thread bytes s)
  unfolding examine HasDigests
  examine-Unchanged m bytes s h c =
      let first = function_matches base startup profile ops around thread bytes s in
      let constant =
        read_image_range ops.memory base image_size constant_rva (length constant_bytes) first.1 in
      let second = reads constant (λ b. same b constant_bytes) in
      let third = prepared_matches base startup profile ops around thread bytes second.1 in
      let after_first : mem first.1.world ≡ m = (digests-keep bytes s).0 ∙ h in
      let after_second : mem second.1.world ≡ m =
        reads-keeps mem constant (λ b. same b constant_bytes)
        ∙ read_image_range-keeps mem ops.memory faithful.memory base image_size constant_rva
            (length constant_bytes) first.1
        ∙ after_first in
      let after_third : mem third.1.world ≡ m = (digests-keep bytes second.1).1 ∙ after_second in
      branch-post (Unchanged m) first _ _
        (λ one.
          branch-post (Unchanged m) second _ _
            (λ _.
              branch-post (Unchanged m) third _ _
                (λ two.
                  confirm-Unchanged m bytes third.1 after_third c (
                    function_matches-digest bytes s one,
                    prepared_matches-digest bytes second.1 two,
                  ))
                (λ _. refused-Unchanged m _ third.1 after_third))
            (λ _. refused-Unchanged m _ second.1 after_second))
        (λ _. refused-Unchanged m _ first.1 after_first)

  examine_code-Unchanged :
      (m : Memory) (r : (Bool × List ℕ) × Session World)
      → mem r.1.world ≡ m
      → (r.0.0 ≡ true → r.0.1 ≡ code base profile m)
      → Unchanged m (examine_code base startup profile ops around thread r)
  unfolding examine_code
  examine_code-Unchanged m ((true, bytes), s) h c = examine-Unchanged m bytes s h (sym (c refl))
  examine_code-Unchanged m ((false, bytes), s) h c = refused-Unchanged m _ s h

  code_section-keeps :
      (s : Session World)
      → mem (code_section base startup profile ops around thread s).1.world ≡ mem s.world
  unfolding code_section
  code_section-keeps s =
      faithful.section_keeps function_rva function_size (section_readable + section_executable)
        (section_writable + section_discardable) s.world

  constant_section-keeps :
      (s : Session World)
      → mem (constant_section base startup profile ops around thread s).1.world ≡ mem s.world
  unfolding constant_section
  constant_section-keeps s =
      faithful.section_keeps constant_rva (length constant_bytes) section_readable
        (section_writable + section_executable + section_discardable) s.world

  protections_match-keeps :
      (s : Session World)
      → mem (protections_match base startup profile ops around thread s).1.world ≡ mem s.world
  unfolding protections_match
  protections_match-keeps =
      let protected =
        image_range_protection ops.memory base image_size constant_rva (length constant_bytes)
          page_readonly in
      let constant = constant_section base startup profile ops around thread in
      let section = code_section base startup profile ops around thread in
      all_of-keeps mem (original_protection base startup profile ops)
        (section ∷ protected ∷ constant ∷ [])
        (original_protection-keeps mem ops around faithful base startup profile)
        (all_of-keeps mem section (protected ∷ constant ∷ []) code_section-keeps (
          all_of-keeps mem protected (constant ∷ [])
            (image_range_protection-keeps mem ops.memory faithful.memory base image_size
              constant_rva (length constant_bytes) page_readonly)
            (all_of-keeps mem constant [] constant_section-keeps (all_of_nil-keeps mem))))

  pub qualify-Unchanged :
      (host_digest : List ℕ) (s : Session World)
      → Unchanged (mem s.world) (qualify base startup profile ops around thread host_digest s)
  unfolding qualify
  qualify-Unchanged host_digest s =
      let m = mem s.world in
      let first = aside s (around.check_startup_opportunity s.world) in
      let second = protections_match base startup profile ops around thread first.1 in
      let third = read_image_range ops.memory base image_size function_rva function_size second.1 in
      let after_first : mem first.1.world ≡ m =
        aside-keeps s (around.check_startup_opportunity s.world) ∙ faithful.startup_keeps s.world in
      let after_second : mem second.1.world ≡ m = protections_match-keeps first.1 ∙ after_first in
      let after_third : mem third.1.world ≡ m =
        read_image_range-keeps mem ops.memory faithful.memory base image_size function_rva
          function_size second.1
        ∙ after_second in
      elim (Bool-cases (profile_valid profile startup)) [
        | inr e ↦ rw e (refused-Unchanged m _ s refl)
        | inl e ↦ rw e (elim (Bool-cases (same host_digest profile.host_digest)) [
          | inr f ↦ rw f (refused-Unchanged m _ s refl)
          | inl f ↦ rw f (
              branch-post (Unchanged m) first _ _
                (λ _.
                  branch-post (Unchanged m) second _ _
                    (λ _. examine_code-Unchanged m third after_third (λ fine.
                      read_image_range-true mem ops.memory faithful.memory base image_size
                        function_rva function_size second.1 fine
                      ∙ ap (code base profile) after_second))
                    (λ _. refused-Unchanged m _ second.1 after_second))
                (λ _. refused-Unchanged m _ first.1 after_first))
        ])
      ]
