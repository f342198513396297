-- ===== src/Recon/Rules.antt =====
-- How a proof goes through `and_then`, `or_else`, `reads` and `branch`.
use rs2server_fix.Base.{◌≡◌, refl, Bool, true, false, List, [], ◌∷◌, ℕ, arith, ◌∙◌}
use rs2server_fix.Image.{Session}
use rs2server_fix.Image.Sound.{Memory}
use rs2server_fix.Recon.Check.{and_then, all_of, or_else, reads}
use rs2server_fix.Recon.Fix.{branch}

module _ {World : Type 0} where
  -- What holds after `next` holds after the whole, if it passes.
  pub and_then-post {ℓ} :
      (P : Session World → Type ℓ) (r : Bool × Session World)
      (next : Session World → Bool × Session World)
      → (r.0 ≡ true → (next r.1).0 ≡ true → P (next r.1).1)
      → (and_then r next).0 ≡ true
      → P (and_then r next).1
  unfolding and_then
  and_then-post P (true, s) next rule h = rule refl h
  and_then-post P (false, s) next rule h = absurd (ground arith)

  -- The same for the first of several checks, and for the only one.
  pub all_of-post {ℓ} :
      (P : Session World → Type ℓ) (c : Session World → Bool × Session World)
      (cs : List (Session World → Bool × Session World)) (s : Session World)
      → ((c s).0 ≡ true → (all_of cs (c s).1).0 ≡ true → P (all_of cs (c s).1).1)
      → (all_of (c ∷ cs) s).0 ≡ true
      → P (all_of (c ∷ cs) s).1
  unfolding all_of
  all_of-post P c cs s rule = and_then-post P (c s) (all_of cs) rule

  pub all_of-last {ℓ} :
      (P : Session World → Type ℓ) (c : Session World → Bool × Session World) (s : Session World)
      → ((c s).0 ≡ true → P (c s).1)
      → (all_of (c ∷ []) s).0 ≡ true
      → P (all_of (c ∷ []) s).1
  unfolding all_of
  all_of-last P c s rule = and_then-post P (c s) (λ t. (true, t)) (λ h _. rule h)

  pub or_else-post {ℓ} :
      (P : Session World → Type ℓ) (r : Bool × Session World)
      (next : Session World → Bool × Session World)
      → (r.0 ≡ true → P r.1)
      → ((next r.1).0 ≡ true → P (next r.1).1)
      → (or_else r next).0 ≡ true
      → P (or_else r next).1
  unfolding or_else
  or_else-post P (true, s) next first second h = first refl
  or_else-post P (false, s) next first second h = second h

  pub branch-post {ℓ κ} :
      {A : Type κ} (P : A → Type ℓ) (r : Bool × Session World) (pass fail : Session World → A)
      → (r.0 ≡ true → P (pass r.1))
      → (r.0 ≡ false → P (fail r.1))
      → P (branch r pass fail)
  unfolding branch
  branch-post P (true, s) pass fail yes_rule no_rule = yes_rule refl
  branch-post P (false, s) pass fail yes_rule no_rule = no_rule refl

  module _ (mem : World → Memory) where
    pub and_then-keeps :
        (r : Bool × Session World) (next : Session World → Bool × Session World)
        → ((s : Session World) → mem (next s).1.world ≡ mem s.world)
        → mem (and_then r next).1.world ≡ mem r.1.world
    unfolding and_then
    and_then-keeps (true, s) next keep = keep s
    and_then-keeps (false, s) next keep = refl

    pub all_of_nil-keeps : (s : Session World) → mem (all_of [] s).1.world ≡ mem s.world
    unfolding all_of
    all_of_nil-keeps s = refl

    pub all_of-keeps :
        (c : Session World → Bool × Session World)
        (cs : List (Session World → Bool × Session World))
        → ((s : Session World) → mem (c s).1.world ≡ mem s.world)
        → ((s : Session World) → mem (all_of cs s).1.world ≡ mem s.world)
        → (s : Session World) → mem (all_of (c ∷ cs) s).1.world ≡ mem s.world
    unfolding all_of
    all_of-keeps c cs one rest s = and_then-keeps (c s) (all_of cs) rest ∙ one s

    pub or_else-keeps :
        (r : Bool × Session World) (next : Session World → Bool × Session World)
        → ((s : Session World) → mem (next s).1.world ≡ mem s.world)
        → mem (or_else r next).1.world ≡ mem r.1.world
    unfolding or_else
    or_else-keeps (true, s) next keep = refl
    or_else-keeps (false, s) next keep = keep s

    pub reads-keeps :
        (r : (Bool × List ℕ) × Session World) (test : List ℕ → Bool)
        → mem (reads r test).1.world ≡ mem r.1.world
    unfolding reads
    reads-keeps ((true, bytes), s) test = refl
    reads-keeps ((false, bytes), s) test = refl

  -- A read that is followed by a test and passes has read bytes that pass.
  pub reads-true :
      (r : (Bool × List ℕ) × Session World) (test : List ℕ → Bool)
      → (reads r test).0 ≡ true
      → (r.0.0 ≡ true) × (test r.0.1 ≡ true)
  unfolding reads
  reads-true ((true, bytes), s) test h = (refl, h)
  reads-true ((false, bytes), s) test h = ground arith
