-- ===== src/Legacy.antt =====
-- src/companion/steam_reporting_status.cpp: the status block of the schema 2, with the layout of
-- src/shared/steam_reporting_status.h. The calls are modelled one after another, as those of Status, and
-- share its latches' masks.
use rs2server_fix.Base.{
  ℕ, ◌+◌, ◌-◌, ◌%◌, Bool, true, false, not, ◌&&◌, ◌||◌, Option, none, some, List, [], ◌∷◌, leb,
  ◌==◌, if◌then◌else◌,
}
use rs2server_fix.Types.{Reason}
use rs2server_fix.Status.Wire.{status_magic, StatusHeader, StatusPayload}
use rs2server_fix.Status.{set_bit, mask_bit, may_publish}
pub mod Sound

pub record StatusWire : Type 0 where
  pub header : StatusHeader
  pub header_ready : ℕ
  pub owner_sequence : ℕ
  pub revoke_reasons : ℕ
  pub loss_reasons : ℕ
  pub stopping : ℕ
  pub stopped_qpc : ℕ
  pub owner : StatusPayload

abbrev pub status_schema : ℕ
status_schema = 2

abbrev pub reporting_artifact_version : ℕ
reporting_artifact_version = 0x00040200

-- `sizeof(StatusWire)`.
abbrev pub status_wire_bytes : ℕ
status_wire_bytes = 1288

unfoldable pub initialize_legacy : StatusWire → StatusHeader → StatusPayload → Bool × StatusWire
initialize_legacy wire header payload =
    if not (wire.header_ready == 0)
    then (false, wire)
    else let final : StatusHeader = record header {
      magic = status_magic;
      schema = status_schema;
      bytes = status_wire_bytes;
      artifact_version = reporting_artifact_version;
      reserved = 0 ∷ 0 ∷ 0 ∷ 0 ∷ [];
    } in
      (true, record wire { header = final; owner = payload; owner_sequence = 2; header_ready = 1 })

unfoldable pub revoke_legacy : StatusWire → Reason → StatusWire
unfolding set_bit mask_bit
revoke_legacy wire reason = record wire {
  revoke_reasons = set_bit wire.revoke_reasons (mask_bit reason);
}

unfoldable pub publish_legacy : StatusWire → StatusPayload → Bool × StatusWire
unfolding may_publish revoke_legacy
publish_legacy wire payload =
    if not (wire.header_ready == 1)
    then (false, wire)
    else if not (may_publish wire.owner_sequence)
    then (false, revoke_legacy wire Reason.counter_overflow)
    else (true, record wire { owner = payload; owner_sequence = wire.owner_sequence + 2 })

unfoldable pub lose_legacy : StatusWire → Reason → StatusWire
unfolding set_bit mask_bit revoke_legacy
lose_legacy wire reason =
    revoke_legacy (record wire { loss_reasons = set_bit wire.loss_reasons (mask_bit reason) })
      reason

unfoldable pub stop_legacy : StatusWire → ℕ → StatusWire
stop_legacy wire qpc =
    if wire.stopping == 0 then record wire { stopping = 1; stopped_qpc = qpc } else wire

unfoldable pub legacy_revoked : StatusWire → Bool
legacy_revoked wire =
    not (wire.revoke_reasons == 0) || not (wire.loss_reasons == 0) || not (wire.stopping == 0)

unfoldable pub legacy_header_valid : StatusHeader → Bool
legacy_header_valid h =
    h.magic == status_magic
    && h.schema == status_schema
    && h.bytes == status_wire_bytes
    && h.artifact_version == reporting_artifact_version

-- Each of the three attempts sees the same block.
unfoldable pub read_local_status : StatusWire → Option (StatusHeader × StatusPayload)
unfolding legacy_revoked legacy_header_valid
read_local_status wire =
    if not (wire.header_ready == 1) || legacy_revoked wire
    then none
    else if wire.owner_sequence % 2 == 1
    then none
    else if not (legacy_header_valid wire.header)
    then none
    else some (wire.header, wire.owner)
