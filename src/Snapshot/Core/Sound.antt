-- ===== src/Snapshot/Core/Sound.antt =====
-- src/shared/steam_reporting_snapshot_v3.cpp: what the result of a reading says.
use rs2server_fix.Base.{◌≤◌, ◌≡◌, Bool, true, false}
use rs2server_fix.Snapshot.Core.{SnapshotResultV3, StatusSnapshotV3}
use rs2server_fix.Snapshot.Core.Steps.{StatusReadOpsV3, Work, Step, Steps}
use rs2server_fix.Snapshot.Core.Bounds.{IsInBounds}
use rs2server_fix.Snapshot.Core.Kept.{SettledIn}
use rs2server_fix.Snapshot.Core.Quiet.{Quiet}

-- What a coherent snapshot is: a settled publication in bounds.
pub record IsCoherent {W : Type 0} (ops : StatusReadOpsV3 W) (s : StatusSnapshotV3) : Type 0 where
  pub settled : SettledIn ops s
  pub bounds : IsInBounds s.wire
  pub available : s.core_available ≡ true

-- What the result says of the snapshot.
unfoldable Tells : {W : Type 0} → StatusReadOpsV3 W → SnapshotResultV3 → StatusSnapshotV3 → Type 0
Tells ops SnapshotResultV3.coherent s = IsCoherent ops s
Tells ops SnapshotResultV3.unpublished s = s.header_available ≡ false
Tells ops SnapshotResultV3.busy s = s.header_available ≡ true
Tells ops SnapshotResultV3.read_failure s = 0 ≤ 0
Tells ops SnapshotResultV3.invalid s = 0 ≤ 0

module _ {W : Type 0} (ops : StatusReadOpsV3 W) where
  unfoldable DecidedEnd : Work W × Step Bool → Type 0
  DecidedEnd (k, Step.stopped r) = Tells ops r k.out
  DecidedEnd (k, Step.skipped) = 0 ≤ 0
  DecidedEnd (k, Step.value a) = 0 ≤ 0

  unfoldable Decides : Steps W Bool → Type 0
  Decides s = (k : Work W) → DecidedEnd (s k)

  -- The same from a settled publication.
  unfoldable Concludes : Steps W Bool → Type 0
  Concludes s = (k : Work W) → SettledIn ops k.out → DecidedEnd (s k)

unfoldable pub Told :
    {W : Type 0} → StatusReadOpsV3 W → SnapshotResultV3 × StatusSnapshotV3 → Type 0
unfolding Tells
Told ops (r, s) = Tells ops r s
