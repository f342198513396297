-- ===== src/Examples/Run.antt =====
-- A message of the type "state" of a run, with a short identifier.
use rs2server_fix.Base.{ℕ, ◌≡◌, refl, true, false, ◌↔◌, List, [], ◌∷◌, ◌++◌}
use rs2server_fix.Framing.{marker}
use rs2server_fix.Framing.Run.{lead, run, belongs_to_run}
use rs2server_fix.Framing.Run.Envelope.{hex_text, IsEnvelope, belongs_to_run-IsEnvelope}

abbrev ids : List ℕ
ids = 0x0a ∷ 0xff ∷ 0x12 ∷ []

abbrev message : List ℕ
message =
    marker
    ++ (lead ++ (b's' ∷ b't' ∷ b'a' ∷ b't' ∷ b'e' ∷ (run ++ (hex_text ids ++ b'"' ∷ b',' ∷ []))))

message_accepted : belongs_to_run ids message ≡ true
unfolding belongs_to_run
message_accepted = refl

other_refused : belongs_to_run (0x0b ∷ 0xff ∷ 0x12 ∷ []) message ≡ false
unfolding belongs_to_run
other_refused = refl

belongs_to_run-IsEnvelope_example : (belongs_to_run ids message ≡ true) ↔ IsEnvelope ids message
belongs_to_run-IsEnvelope_example = belongs_to_run-IsEnvelope ids message refl
