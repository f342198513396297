-- ===== src/Examples/Ancestry.antt =====
-- The frames of the ordinary tick, with one frame outside of the chain.
use rs2server_fix.Base.{ℕ, ◌≤◌, ◌≡◌, refl, false, List, [], ◌∷◌, length}
use rs2server_fix.Types.{CallerClass, capture_frames}
use rs2server_fix.Ancestry.{
  production, either, classify_normal, classify_parents, classify_frames, classify_builder_frames,
}
use rs2server_fix.Ancestry.Sound.{IsNormalBuilder, classify_builder_frames-IsNormalBuilder}

abbrev tick_frames : List ℕ
tick_frames =
    0xBEFEB7 ∷ 0xBF7107 ∷ 0xBF813E ∷ 0xBA5A53 ∷ 0xA4B370 ∷ 0xA341A7 ∷ 0x5F48E6 ∷ 0x585650
    ∷ 0xFFFFFFFF ∷ []

tick_class : classify_builder_frames production tick_frames false ≡ CallerClass.normal_builder
unfolding classify_builder_frames classify_frames classify_parents classify_normal either
tick_class = refl

classify_builder_frames-IsNormalBuilder_example :
    (false ≡ false) × (length tick_frames ≤ capture_frames) × IsNormalBuilder production tick_frames
classify_builder_frames-IsNormalBuilder_example =
    classify_builder_frames-IsNormalBuilder production tick_frames false tick_class
