-- ===== src/Recon.antt =====
-- src/companion/recon_types.h and .cpp, src/companion/recon_fix.h: the vocabulary of the recon correction,
-- its profile and the operations table that it works through.
use Prim.Native.String.{String}
use rs2server_fix.Base.{ℕ, Bool, List}
use rs2server_fix.Image.{MemoryOps, Reply}
mod Rules
pub mod Facts
pub mod Check
pub mod Fix
pub mod Interval
pub mod Qualify
pub mod Safety

pub data ReconMode : Type 0 where
  passive active : ReconMode

pub data ReconOutcome : Type 0 where
  passive disabled active rolled_back fatal : ReconOutcome

pub data FixReason : Type 0 where
  none invalid_context startup_rejected unsupported_host : FixReason
  host_open_sharing_violation host_open_failed host_hash_budget_exceeded : FixReason
  host_identity_changed host_hash_mismatch host_hash_failed : FixReason
  code_unreadable function_mismatch constant_mismatch protection_mismatch : FixReason
  prepared_digest_mismatch protect_failed write_failed readback_failed : FixReason
  restore_failed flush_failed rollback_failed : FixReason

pub record ReconResult : Type 0 where
  pub outcome : ReconOutcome
  pub reason : FixReason
  pub error : ℕ
  pub qualified : Bool

pub recon_mode_name : ReconMode → String
recon_mode_name active = "active"
recon_mode_name passive = "passive"

pub recon_outcome_name : ReconOutcome → String
recon_outcome_name passive = "passive"
recon_outcome_name disabled = "disabled"
recon_outcome_name active = "active"
recon_outcome_name rolled_back = "rolled_back"
recon_outcome_name fatal = "fatal"

pub fix_reason_name : FixReason → String
fix_reason_name none = "none"
fix_reason_name invalid_context = "invalid_context"
fix_reason_name startup_rejected = "startup_rejected"
fix_reason_name unsupported_host = "unsupported_host"
fix_reason_name host_open_sharing_violation = "host_open_sharing_violation"
fix_reason_name host_open_failed = "host_open_failed"
fix_reason_name host_hash_budget_exceeded = "host_hash_budget_exceeded"
fix_reason_name host_identity_changed = "host_identity_changed"
fix_reason_name host_hash_mismatch = "host_hash_mismatch"
fix_reason_name host_hash_failed = "host_hash_failed"
fix_reason_name code_unreadable = "code_unreadable"
fix_reason_name function_mismatch = "function_mismatch"
fix_reason_name constant_mismatch = "constant_mismatch"
fix_reason_name protection_mismatch = "protection_mismatch"
fix_reason_name prepared_digest_mismatch = "prepared_digest_mismatch"
fix_reason_name protect_failed = "protect_failed"
fix_reason_name write_failed = "write_failed"
fix_reason_name readback_failed = "readback_failed"
fix_reason_name restore_failed = "restore_failed"
fix_reason_name flush_failed = "flush_failed"
fix_reason_name rollback_failed = "rollback_failed"

-- The members of a `StartupProfile` that the correction itself reads.
pub record StartupProfile : Type 0 where
  pub image_size : ℕ
  pub state_rva : ℕ
  pub state_value : ℕ

pub record ReconProfile : Type 0 where
  pub host_digest : List ℕ
  pub function_rva : ℕ
  pub function_size : ℕ
  pub original_digest : List ℕ
  pub corrected_digest : List ℕ
  pub load_rva : ℕ
  pub original_window : List ℕ
  pub operand_rva : ℕ
  pub old_displacement : ℕ
  pub new_displacement : ℕ
  pub constant_rva : ℕ
  pub constant_bytes : List ℕ

-- The calls that the correction is given. `protect` answers with the earlier protection.
pub record ReconOps (World : Type 0) : Type 0 where
  pub memory : MemoryOps World
  pub protect : ℕ → ℕ → ℕ → World → Reply ℕ × World
  pub write_dword : ℕ → ℕ → World → Reply (Unit {0}) × World
  pub flush : ℕ → ℕ → World → Reply (Unit {0}) × World
  pub validate_host_identity : World → Reply FixReason × World

-- What else the run asks: the hash provider of the system, the current thread, and the two
-- checks of src/shared/startup_profile.cpp that are not modelled here.
pub record Surroundings (World : Type 0) : Type 0 where
  pub hash_bytes : List ℕ → Reply (List ℕ)
  pub current_thread : ℕ
  pub check_startup_opportunity : World → Bool × World
  pub image_section_matches : ℕ → ℕ → ℕ → ℕ → World → Bool × World
