-- ===== src/Ancestry/Sound.antt =====
-- src/companion/steam_reporting_ancestry.cpp: the class as a description of the frames.
use rs2server_fix.Base.{
  ℕ, ◌≤◌, ◌≡◌, ◌≢◌, ◌⊎◌, refl, Bool, true, false, not, ◌||◌, List, [], ◌∷◌, ltb, ◌==◌,
  if◌then◌else◌, length, arith, ==→eq,
}
use rs2server_fix.Types.{CallerClass, capture_frames}
use rs2server_fix.Ancestry.{
  AncestryProfile, either, classify_normal, classify_parents, classify_frames,
  classify_builder_frames,
}

-- One of the two addresses.
abbrev pub OneOf : ℕ → ℕ × ℕ → Type 0
OneOf value choices = (value ≡ choices.0) ⊎ (value ≡ choices.1)

either→OneOf : (v : ℕ) (c : ℕ × ℕ) → either v c ≡ true → OneOf v c
unfolding either
either→OneOf v (a, b) h = ground arith

-- A class that is not the target is not chosen.
record Chosen (target : CallerClass) (b : Bool) (y : CallerClass) : Type 0 where
  test : b ≡ false
  rest : y ≡ target

chosen :
    (target : CallerClass) (b : Bool) (x y : CallerClass)
    → x ≢ target
    → (if b then x else y) ≡ target
    → Chosen target b y
chosen target true x y k h = absurd (k h)
chosen target false x y k h = record { test = refl; rest = h }

unknown≢normal : CallerClass.unknown ≢ CallerClass.normal_builder
unknown≢normal h = ground arith

neither : (a b c : Bool) → not a || not b || not c ≡ false → (a ≡ true) × (b ≡ true) × (c ≡ true)
neither a b c h = ground arith

none_of :
    (a b c d : Bool)
    → not a || not b || not c || not d ≡ false
    → (a ≡ true) × (b ≡ true) × (c ≡ true) × (d ≡ true)
none_of a b c d h = ground arith

-- The parents of the dispatch, from the tick outwards.
pub data IsParents (profile : AncestryProfile) : ℕ → ℕ → List ℕ → Type 0 where
  parents :
      (tick sub world engine : ℕ) (outer : List ℕ)
      → OneOf tick profile.leech_tick_returns
      → sub ≡ profile.subsystem_return
      → OneOf world profile.world_returns
      → engine ≡ profile.engine_return
      → IsParents profile tick sub (world ∷ engine ∷ outer)

classify_normal-facts :
    (profile : AncestryProfile) (tick f5 : ℕ) (rest : List ℕ)
    → OneOf tick profile.leech_tick_returns
    → classify_normal profile f5 rest ≡ CallerClass.normal_builder
    → IsParents profile tick f5 rest
unfolding classify_normal
classify_normal-facts profile tick f5 [] ticks h = absurd (unknown≢normal h)
classify_normal-facts profile tick f5 (f6 ∷ []) ticks h = absurd (unknown≢normal h)
classify_normal-facts profile tick f5 (f6 ∷ f7 ∷ rest) ticks h =
    let c =
      chosen CallerClass.normal_builder _ CallerClass.unknown CallerClass.normal_builder
        unknown≢normal h in
    let (sub, world, engine) =
      neither (f5 == profile.subsystem_return) (either f6 profile.world_returns)
        (f7 == profile.engine_return) c.test in
    parents tick f5 f6 f7 rest ticks (==→eq _ _ sub) (either→OneOf f6 _ world) (==→eq _ _ engine)

is_true : (b : Bool) → not b ≡ false → b ≡ true
is_true b h = ground arith

bounded :
    (b : Bool) (n : ℕ) → b || ltb capture_frames n ≡ false → (b ≡ false) × (n ≤ capture_frames)
bounded b n h = ground arith

drain≢normal :
    (b : Bool)
    → (if b then CallerClass.shutdown_drain else CallerClass.unknown) ≢ CallerClass.normal_builder
drain≢normal b h = ground arith

classify_parents-facts :
    (profile : AncestryProfile) (f4 f5 : ℕ) (rest : List ℕ)
    → classify_parents profile f4 f5 rest ≡ CallerClass.normal_builder
    → IsParents profile f4 f5 rest
unfolding classify_parents
classify_parents-facts profile f4 f5 rest h =
    let spin = either f5 profile.spin_returns in
    let tick = either f4 profile.leech_tick_returns in
    let normal = classify_normal profile f5 rest in
    let inner = if spin then CallerClass.known_spin else normal in
    let a =
      chosen CallerClass.normal_builder (f4 == profile.shutdown_return) _
        (if not tick then CallerClass.unknown else inner) (drain≢normal _) h in
    let b =
      chosen CallerClass.normal_builder (not tick) CallerClass.unknown inner unknown≢normal
        a.rest in
    let c =
      chosen CallerClass.normal_builder spin CallerClass.known_spin normal (λ e. ground arith)
        b.rest in
    classify_normal-facts profile f4 f5 rest (either→OneOf f4 _ (is_true tick b.test)) c.rest

module _ (profile : AncestryProfile) where
  -- The frames of a builder that the ordinary tick of the engine calls.
  pub data IsNormalBuilder : List ℕ → Type 0 where
    chain :
        (adapter dispatch pump update tick sub : ℕ) (rest : List ℕ)
        → adapter ≡ profile.builder_adapter_return
        → dispatch ≡ profile.task_dispatch_return
        → pump ≡ profile.task_pump_return
        → OneOf update profile.leech_update_returns
        → IsParents profile tick sub rest
        → IsNormalBuilder (adapter ∷ dispatch ∷ pump ∷ update ∷ tick ∷ sub ∷ rest)

  classify_frames-IsNormalBuilder :
      (frames : List ℕ)
      → classify_frames profile frames ≡ CallerClass.normal_builder
      → IsNormalBuilder frames
  unfolding classify_frames
  classify_frames-IsNormalBuilder (f0 ∷ f1 ∷ f2 ∷ f3 ∷ f4 ∷ f5 ∷ rest) h =
      let c =
        chosen CallerClass.normal_builder _ CallerClass.unknown
          (classify_parents profile f4 f5 rest) unknown≢normal h in
      let (a, b, d, e) =
        none_of (f0 == profile.builder_adapter_return) (f1 == profile.task_dispatch_return)
          (f2 == profile.task_pump_return) (either f3 profile.leech_update_returns) c.test in
      chain f0 f1 f2 f3 f4 f5 rest (==→eq _ _ a) (==→eq _ _ b) (==→eq _ _ d) (either→OneOf f3 _ e)
        (classify_parents-facts profile f4 f5 rest c.rest)
  classify_frames-IsNormalBuilder [] h = absurd (unknown≢normal h)
  classify_frames-IsNormalBuilder (a ∷ []) h = absurd (unknown≢normal h)
  classify_frames-IsNormalBuilder (a ∷ b ∷ []) h = absurd (unknown≢normal h)
  classify_frames-IsNormalBuilder (a ∷ b ∷ c ∷ []) h = absurd (unknown≢normal h)
  classify_frames-IsNormalBuilder (a ∷ b ∷ c ∷ d ∷ []) h = absurd (unknown≢normal h)
  classify_frames-IsNormalBuilder (a ∷ b ∷ c ∷ d ∷ e ∷ []) h = absurd (unknown≢normal h)

  -- A builder call is classified as normal only if its frames are complete, at most 32, and begin with
  -- exactly the chain of returns of the profile, whatever frames are still outside of it.
  pub classify_builder_frames-IsNormalBuilder :
      (frames : List ℕ) (truncation : Bool)
      → classify_builder_frames profile frames truncation ≡ CallerClass.normal_builder
      → (truncation ≡ false) × (length frames ≤ capture_frames) × IsNormalBuilder frames
  unfolding classify_builder_frames
  classify_builder_frames-IsNormalBuilder frames truncation h =
      let c =
        chosen CallerClass.normal_builder _ CallerClass.truncated (classify_frames profile frames)
          (λ e. ground arith) h in
      let (whole, short) = bounded truncation (length frames) c.test in
      (whole, short, classify_frames-IsNormalBuilder frames c.rest)
