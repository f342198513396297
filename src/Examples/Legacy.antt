-- ===== src/Examples/Legacy.antt =====
-- A block of the schema 2 that is initialised, published and revoked.
use rs2server_fix.Base.{◌≡◌, refl, none, List, [], ◌∷◌}
use rs2server_fix.Legacy.{StatusWire, read_local_status, legacy_revoked}
use rs2server_fix.Legacy.Sound.{
  LegacyUpdate, legacy_updates, last_published, shown, read_local_status-shown,
}
use rs2server_fix.Examples.Status.{no_header, no_payload}

abbrev zeroed : StatusWire
zeroed = record {
  header = no_header;
  header_ready = 0;
  owner_sequence = 0;
  revoke_reasons = 0;
  loss_reasons = 0;
  stopping = 0;
  stopped_qpc = 0;
  owner = no_payload;
}

abbrev story : List LegacyUpdate
story =
    LegacyUpdate.publish no_payload
    ∷ LegacyUpdate.initialize no_header no_payload
    ∷ LegacyUpdate.publish (record no_payload { phase = 5 })
    ∷ []

read_local_status-shown_example :
    read_local_status (legacy_updates story zeroed)
    ≡ shown
        (legacy_revoked (legacy_updates story zeroed))
        (legacy_updates story zeroed).header
        (last_published story zeroed none)
read_local_status-shown_example = read_local_status-shown zeroed story refl
