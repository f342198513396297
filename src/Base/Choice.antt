-- ===== src/Base/Choice.antt =====
-- Tests and their branches: a property of both, a relation of two tests, and a test that is known.
use mathlib.Core.Path.{◌≡◌, refl}
use mathlib.Core.Bool.{Bool, true, false}
use rs2server_fix.Base.Tests.{if◌then◌else◌}

-- Both branches of a test have the property.
pub pick {ℓ} :
    {A : Type 0} (P : A → Type ℓ) (b : Bool) (x y : A)
    → (b ≡ true → P x)
    → (b ≡ false → P y)
    → P (if b then x else y)
pick P true x y f g = f refl
pick P false x y f g = g refl

-- Two equal tests lead to related branches.
pub branches {ℓ} :
    {A B : Type 0} (R : A → B → Type ℓ) (b c : Bool)
    → c ≡ b
    → (x y : A) (z w : B) → (b ≡ true → R x z)
    → (b ≡ false → R y w)
    → R (if b then x else y) (if c then z else w)
branches R true true e x y z w f g = f refl
branches R true false e x y z w f g = absurd (cc)
branches R false true e x y z w f g = absurd (cc)
branches R false false e x y z w f g = g refl

pub taken : {A : Type 0} (b : Bool) (x y : A) → b ≡ true → (if b then x else y) ≡ x
taken b x y h = rw h refl

pub passed_over : {A : Type 0} (b : Bool) (x y : A) → b ≡ false → (if b then x else y) ≡ y
passed_over b x y h = rw h refl
