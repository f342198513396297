-- ===== src/Ancestry.antt =====
-- src/companion/steam_reporting_ancestry.h and .cpp: the class of a call by its consecutive frames. The
-- frames are a list, from the nearest; a null pointer, which the source refuses, does not arise.
use rs2server_fix.Base.{
  ℕ, Bool, true, false, not, ◌&&◌, ◌||◌, List, [], ◌∷◌, ltb, ◌==◌, if◌then◌else◌, length,
}
use rs2server_fix.Types.{CallerClass, capture_frames}
pub mod Sound

pub record AncestryProfile : Type 0 where
  pub builder_adapter_return : ℕ
  pub task_dispatch_return : ℕ
  pub task_pump_return : ℕ
  pub leech_update_returns : ℕ × ℕ
  pub leech_tick_returns : ℕ × ℕ
  pub subsystem_return : ℕ
  pub world_returns : ℕ × ℕ
  pub engine_return : ℕ
  pub spin_returns : ℕ × ℕ
  pub shutdown_return : ℕ
  pub exit_returns : ℕ × ℕ
  pub callback_return : ℕ

abbrev pub production : AncestryProfile
production = record {
  builder_adapter_return = 0xBEFEB7;
  task_dispatch_return = 0xBF7107;
  task_pump_return = 0xBF813E;
  leech_update_returns = (0xBA5A33, 0xBA5A53);
  leech_tick_returns = (0xA4B370, 0xA4B43E);
  subsystem_return = 0xA341A7;
  world_returns = (0x5F48E6, 0x5F4953);
  engine_return = 0x585650;
  spin_returns = (0xA48F4D, 0xA49F93);
  shutdown_return = 0xA48BD4;
  exit_returns = (0xADE7D, 0xADE9D);
  callback_return = 0xA3498F;
}

unfoldable pub either : ℕ → ℕ × ℕ → Bool
either value (a, b) = value == a || value == b

-- From the frame after the spin returns on: two more frames and the sixth itself.
unfoldable pub classify_normal : AncestryProfile → ℕ → List ℕ → CallerClass
unfolding either
classify_normal profile f5 (f6 ∷ f7 ∷ rest) =
    if not (f5 == profile.subsystem_return)
      || not (either f6 profile.world_returns)
      || not (f7 == profile.engine_return)
    then CallerClass.unknown
    else CallerClass.normal_builder
classify_normal profile f5 _ = CallerClass.unknown

unfoldable pub classify_parents : AncestryProfile → ℕ → ℕ → List ℕ → CallerClass
unfolding either classify_normal
classify_parents profile f4 f5 rest =
    if f4 == profile.shutdown_return
    then if either f5 profile.exit_returns then CallerClass.shutdown_drain else CallerClass.unknown
    else if not (either f4 profile.leech_tick_returns)
    then CallerClass.unknown
    else if either f5 profile.spin_returns
    then CallerClass.known_spin
    else classify_normal profile f5 rest

unfoldable pub classify_frames : AncestryProfile → List ℕ → CallerClass
unfolding either classify_parents
classify_frames profile (f0 ∷ f1 ∷ f2 ∷ f3 ∷ f4 ∷ f5 ∷ rest) =
    if not (f0 == profile.builder_adapter_return)
      || not (f1 == profile.task_dispatch_return)
      || not (f2 == profile.task_pump_return)
      || not (either f3 profile.leech_update_returns)
    then CallerClass.unknown
    else classify_parents profile f4 f5 rest
classify_frames profile _ = CallerClass.unknown

unfoldable pub classify_builder_frames : AncestryProfile → List ℕ → Bool → CallerClass
unfolding classify_frames
classify_builder_frames profile frames truncation =
    if truncation || ltb capture_frames (length frames)
    then CallerClass.truncated
    else classify_frames profile frames

unfoldable pub classify_pump : AncestryProfile → List ℕ → CallerClass
unfolding either
classify_pump profile (f0 ∷ f1 ∷ f2 ∷ rest) =
    if not (f0 == profile.callback_return)
      || not (either f1 profile.world_returns)
      || not (f2 == profile.engine_return)
    then CallerClass.unknown
    else CallerClass.normal_pump
classify_pump profile _ = CallerClass.unknown

unfoldable pub classify_pump_frames : AncestryProfile → List ℕ → Bool → CallerClass
unfolding classify_pump
classify_pump_frames profile frames truncation =
    if truncation || ltb capture_frames (length frames)
    then CallerClass.truncated
    else classify_pump profile frames
