-- ===== src/Examples/Block.antt =====
-- src/companion/steam_reporting_status_v3.cpp: a block of two words with a reader that meets a store.
use rs2server_fix.Base.{◌≤◌, ◌≡◌, refl, List, [], ◌∷◌, arith}
use rs2server_fix.Status.Block.{Reader, Shared, Act, act, acts, fresh}
use rs2server_fix.Status.Block.Kept.{Recorded}
use rs2server_fix.Status.Block.Sound.{acts-Recorded}
use rs2server_fix.Status.Block.Quiet.{reads, quiet_call-accepted}

-- The initialisation, and a publication that starts while the reader copies: its first round fails.
abbrev met : List Act
met =
    Act.initialize (5 ∷ 6 ∷ [])
    ∷ Act.write
    ∷ Act.write
    ∷ Act.write
    ∷ Act.write
    ∷ Act.call
    ∷ Act.read
    ∷ Act.read
    ∷ Act.read
    ∷ Act.publish (7 ∷ 8 ∷ [])
    ∷ Act.write
    ∷ Act.read
    ∷ Act.read
    ∷ Act.write
    ∷ Act.write
    ∷ Act.read
    ∷ Act.read
    ∷ Act.read
    ∷ Act.read
    ∷ Act.read
    ∷ Act.read
    ∷ []

met_accepted : (acts 2 met (fresh 2)).reader ≡ Reader.accepted 4 (7 ∷ 8 ∷ [])
unfolding acts act fresh
met_accepted = refl

acts-Recorded_example :
    Recorded 4 (7 ∷ 8 ∷ []) (acts 2 met (fresh 2)).published × ((acts 2 met (fresh 2)).oldest ≤ 4)
acts-Recorded_example = acts-Recorded 2 met 4 (7 ∷ 8 ∷ []) met_accepted

abbrev published_once : Shared
published_once =
    acts 2 (Act.initialize (5 ∷ 6 ∷ []) ∷ Act.write ∷ Act.write ∷ Act.write ∷ Act.write ∷ [])
      (fresh 2)

quiet_call-accepted_example :
    (acts 2 (Act.call ∷ reads 6) published_once).reader ≡ Reader.accepted 2 (5 ∷ 6 ∷ [])
unfolding acts act fresh
quiet_call-accepted_example = quiet_call-accepted published_once refl (omega arith) refl
