-- ===== src/Recon/Facts.antt =====
-- What each check and call of the correction says of the memory, on a machine whose reading calls
-- tell the truth. Nothing is assumed of `protect` and `write_dword`: they may fail, and may change
-- memory whether they fail or not.
use rs2server_fix.Base.{
  ℕ, ◌+◌, ◌≡◌, sym, ◌∙◌, subst, Bool, true, false, List, [], ◌∷◌, length, same, same→eq,
}
use rs2server_fix.Image.{
  Session, page_execute_read, read_image_range, page_readonly, page_execute_readwrite,
  page_execute_writecopy,
}
use rs2server_fix.Image.Sound.{
  Memory, bytes_at, HasProtection, IsTruthful, image_range_protection-true,
  image_range_protection-keeps, read_image_range-keeps, read_image_range-true,
}
use rs2server_fix.Recon.{StartupProfile, ReconProfile, ReconOps, Surroundings}
use rs2server_fix.Recon.Check.{
  and_then, all_of, bytes_equal, writable_code, original_protection, constant_matches,
}
use rs2server_fix.Recon.Fix.{
  original_state, proved_twice, recover_without_write, write_back, protect_again, rollback,
  protect_code, flush_code,
}
use rs2server_fix.Recon.Rules.{
  and_then-post, all_of-post, all_of-last, or_else-post, branch-post, and_then-keeps, or_else-keeps,
  reads-keeps, reads-true,
}

-- The documented behaviour of the calls that the correction relies on.
pub record IsFaithful {World : Type 0} (mem : World → Memory) (ops : ReconOps World)
    (around : Surroundings World) : Type 0 where
  pub memory : IsTruthful mem ops.memory
  pub flush_keeps : (a n : ℕ) (w : World) → mem (ops.flush a n w).1 ≡ mem w
  pub validate_keeps : (w : World) → mem (ops.validate_host_identity w).1 ≡ mem w
  pub startup_keeps : (w : World) → mem (around.check_startup_opportunity w).1 ≡ mem w
  pub section_keeps :
      (a n r f : ℕ) (w : World) → mem (around.image_section_matches a n r f w).1 ≡ mem w

-- The bytes of the corrected function.
abbrev pub code : ℕ → ReconProfile → Memory → List ℕ
code base profile m = bytes_at m.byte (base + profile.function_rva) profile.function_size

-- The function holds these bytes, in pages that are readable and executable and no more.
abbrev pub Holds : ℕ → ReconProfile → List ℕ → Memory → Type 0
Holds base profile bytes m =
    (code base profile m ≡ bytes)
    × HasProtection m (base + profile.function_rva) profile.function_size page_execute_read

module _ {World : Type 0} (mem : World → Memory) (ops : ReconOps World)
    (around : Surroundings World) (faithful : IsFaithful mem ops around) (base : ℕ)
    (startup : StartupProfile) (profile : ReconProfile) where
  open startup use {image_size}
  open profile use {function_rva, function_size, operand_rva, constant_rva, constant_bytes}

  pub bytes_equal-keeps :
      (bytes : List ℕ) (s : Session World)
      → mem (bytes_equal base startup profile ops bytes s).1.world ≡ mem s.world
  unfolding bytes_equal
  bytes_equal-keeps bytes s =
      reads-keeps mem (read_image_range ops.memory base image_size function_rva function_size s) _
      ∙ read_image_range-keeps mem ops.memory faithful.memory base image_size function_rva
          function_size s

  pub bytes_equal-true :
      (bytes : List ℕ) (s : Session World)
      → (bytes_equal base startup profile ops bytes s).0 ≡ true
      → code base profile (mem s.world) ≡ bytes
  unfolding bytes_equal
  bytes_equal-true bytes s h =
      let r = read_image_range ops.memory base image_size function_rva function_size s in
      let (fine, equal) = reads-true r (λ b. same b bytes) h in
      sym (
        read_image_range-true mem ops.memory faithful.memory base image_size function_rva
          function_size s fine)
      ∙ same→eq r.0.1 bytes equal

  pub original_protection-keeps :
      (s : Session World)
      → mem (original_protection base startup profile ops s).1.world ≡ mem s.world
  unfolding original_protection
  original_protection-keeps s =
      image_range_protection-keeps mem ops.memory faithful.memory base image_size function_rva
        function_size page_execute_read s

  pub original_protection-true :
      (s : Session World)
      → (original_protection base startup profile ops s).0 ≡ true
      → HasProtection (mem s.world) (base + function_rva) function_size page_execute_read
  unfolding original_protection
  original_protection-true s h =
      image_range_protection-true mem ops.memory faithful.memory base image_size function_rva
        function_size page_execute_read s h

  pub constant_matches-keeps :
      (s : Session World) → mem (constant_matches base startup profile ops s).1.world ≡ mem s.world
  unfolding constant_matches
  constant_matches-keeps s =
      and_then-keeps mem _ _ (λ t.
        reads-keeps mem
          (read_image_range ops.memory base image_size constant_rva (length constant_bytes) t) _
        ∙ read_image_range-keeps mem ops.memory faithful.memory base image_size constant_rva
            (length constant_bytes) t)
      ∙ image_range_protection-keeps mem ops.memory faithful.memory base image_size constant_rva
          (length constant_bytes) page_readonly s

  pub writable_code-keeps :
      (s : Session World) → mem (writable_code base startup profile ops s).1.world ≡ mem s.world
  unfolding writable_code
  writable_code-keeps s =
      or_else-keeps mem _ _ (
        image_range_protection-keeps mem ops.memory faithful.memory base image_size operand_rva 4
          page_execute_writecopy)
      ∙ image_range_protection-keeps mem ops.memory faithful.memory base image_size operand_rva 4
          page_execute_readwrite s

  -- Protection and bytes proved one after the other hold together, since neither check writes.
  pub proved :
      (bytes : List ℕ) (s : Session World)
      → (and_then
          (original_protection base startup profile ops s)
          (bytes_equal base startup profile ops bytes)).0
        ≡ true
      → Holds base profile bytes (
          mem
            (and_then
              (original_protection base startup profile ops s)
              (bytes_equal base startup profile ops bytes)).1.world)
  proved bytes s =
      and_then-post (λ t. Holds base profile bytes (mem t.world)) _ _
        λ first second.
          let t = (original_protection base startup profile ops s).1 in
          rw (bytes_equal-keeps bytes t) (
            bytes_equal-true bytes t second,
            subst (λ m. HasProtection m (base + function_rva) function_size page_execute_read)
                (sym (original_protection-keeps s)) (original_protection-true s first),
          )

  pub original_state-keeps :
      (bytes : List ℕ) (s : Session World)
      → mem (original_state base startup profile ops bytes s).1.world ≡ mem s.world
  unfolding original_state
  original_state-keeps bytes s =
      and_then-keeps mem _ _ (bytes_equal-keeps bytes) ∙ original_protection-keeps s

  pub original_state-true :
      (bytes : List ℕ) (s : Session World)
      → (original_state base startup profile ops bytes s).0 ≡ true
      → Holds base profile bytes (mem (original_state base startup profile ops bytes s).1.world)
  unfolding original_state
  original_state-true = proved

  proved_twice-true :
      (bytes : List ℕ) (s : Session World)
      → (proved_twice base startup profile ops bytes s).0 ≡ true
      → Holds base profile bytes (mem (proved_twice base startup profile ops bytes s).1.world)
  unfolding proved_twice
  proved_twice-true bytes s =
      or_else-post (λ t. Holds base profile bytes (mem t.world)) _ _ (original_state-true bytes s)
        (original_state-true bytes _)

  -- A recovery that claims success leaves the original code in its original protection.
  pub recover_without_write-true :
      (bytes : List ℕ) (s : Session World)
      → (recover_without_write base startup profile ops bytes s).0 ≡ true
      → Holds base profile bytes
          (mem (recover_without_write base startup profile ops bytes s).1.world)
  unfolding recover_without_write
  recover_without_write-true bytes s =
      let P = λ (r : Bool × Session World). r.0 ≡ true → Holds base profile bytes (mem r.1.world) in
      branch-post P (proved_twice base startup profile ops bytes s) (λ t. (true, t)) _
        (λ first _. proved_twice-true bytes s first)
        λ _.
          branch-post P (writable_code base startup profile ops _) _ (λ u. (false, u))
            (λ _. proved_twice-true bytes _) (λ _ h. cc)

  pub flush_code-keeps :
      (s : Session World) → mem (flush_code base startup profile ops s).1.world ≡ mem s.world
  unfolding flush_code
  flush_code-keeps s = faithful.flush_keeps _ _ s.world

  -- The last three steps of a rollback.
  sealed-true :
      (bytes : List ℕ) (s : Session World)
      → (all_of
          (original_protection base startup profile ops
            ∷ bytes_equal base startup profile ops bytes
            ∷ flush_code base startup profile ops
            ∷ [])
          s).0
        ≡ true
      → Holds base profile bytes (
          mem
            (all_of
              (original_protection base startup profile ops
                ∷ bytes_equal base startup profile ops bytes
                ∷ flush_code base startup profile ops
                ∷ [])
              s).1.world)
  sealed-true bytes s =
      let P = λ (t : Session World). Holds base profile bytes (mem t.world) in
      let protection = original_protection base startup profile ops in
      let equal = bytes_equal base startup profile ops bytes in
      let flush = flush_code base startup profile ops in
      all_of-post P protection (equal ∷ flush ∷ []) s λ first.
        all_of-post P equal (flush ∷ []) (protection s).1 λ second.
          all_of-last P flush (equal (protection s).1).1 λ _.
            rw
              (
                flush_code-keeps (equal (protection s).1).1,
                bytes_equal-keeps bytes (protection s).1,
              )
              (
                bytes_equal-true bytes (protection s).1 second,
                subst (λ m. HasProtection m (base + function_rva) function_size page_execute_read)
                    (sym (original_protection-keeps s)) (original_protection-true s first),
              )

  protect_again-true :
      (bytes : List ℕ) (s : Session World)
      → (protect_again base startup profile ops bytes s).0 ≡ true
      → Holds base profile bytes (mem (protect_again base startup profile ops bytes s).1.world)
  unfolding protect_again
  protect_again-true bytes s =
      let protect = protect_code base startup profile ops page_execute_read in
      all_of-post (λ (t : Session World). Holds base profile bytes (mem t.world)) protect
        (original_protection base startup profile ops
          ∷ bytes_equal base startup profile ops bytes
          ∷ flush_code base startup profile ops
          ∷ [])
        s λ _. sealed-true bytes (protect s).1

  -- So does a rollback, after the write.
  pub rollback-true :
      (bytes : List ℕ) (s : Session World)
      → (rollback base startup profile ops bytes s).0 ≡ true
      → Holds base profile bytes (mem (rollback base startup profile ops bytes s).1.world)
  unfolding rollback
  rollback-true bytes s =
      let written = write_back base startup profile ops bytes s in
      and_then-post (λ (t : Session World). Holds base profile bytes (mem t.world)) written
        (protect_again base startup profile ops bytes) λ _. protect_again-true bytes written.1
