-- ===== src/Types.antt =====
-- src/companion/steam_reporting_types.h and .cpp: the vocabulary of the reporting runtime. The reasons
-- are those of the enumeration without its last member, which counts them.
use Prim.Native.String.{String}
use rs2server_fix.Base.{ℕ, Bool, true, false, ◌&&◌, ◌==◌}

pub data Mode : Type 0 where
  invalid disabled observe repair : Mode

pub data Diagnostics : Type 0 where
  invalid normal detailed operational : Diagnostics

pub data CallerClass : Type 0 where
  unknown normal_pump normal_builder known_spin shutdown_drain truncated : CallerClass

pub data Reason : Type 0 where
  none config_missing config_disabled config_invalid observer_required : Reason
  recon_ineligible host_mismatch sdk_mismatch steam_client_mismatch profile_mismatch : Reason
  preparation_failed identity_incomplete clock_failed counter_overflow foreign_thread : Reason
  unknown_ancestry truncated_stack reentry lifecycle_crossing init_failed : Reason
  unsupported_reinit stopping source_unavailable source_lifetime source_class : Reason
  world_not_ready travel unsupported_counts wrapper_mismatch proxy_unavailable : Reason
  unregistered public_ip_unavailable pending request_floor producer_ambiguous : Reason
  freshness_expired task_not_ready task_ambiguous task_mismatch holder_mismatch : Reason
  task_reused builder_changed install_failed postcheck_failed stranded_wrapper : Reason
  prepared_unavailable prepared_malformed prepared_limit prepared_mismatch native_backoff : Reason
  known_spin native_unwind write_fault record_loss writer_failed : Reason
  log_limit status_unavailable spectators_present capacity_mismatch : Reason

-- The value of a reason, as `static_cast` gives it.
unfoldable pub reason_code : Reason → ℕ
reason_code none = 0
reason_code config_missing = 1
reason_code config_disabled = 2
reason_code config_invalid = 3
reason_code observer_required = 4
reason_code recon_ineligible = 5
reason_code host_mismatch = 6
reason_code sdk_mismatch = 7
reason_code steam_client_mismatch = 8
reason_code profile_mismatch = 9
reason_code preparation_failed = 10
reason_code identity_incomplete = 11
reason_code clock_failed = 12
reason_code counter_overflow = 13
reason_code foreign_thread = 14
reason_code unknown_ancestry = 15
reason_code truncated_stack = 16
reason_code reentry = 17
reason_code lifecycle_crossing = 18
reason_code init_failed = 19
reason_code unsupported_reinit = 20
reason_code stopping = 21
reason_code source_unavailable = 22
reason_code source_lifetime = 23
reason_code source_class = 24
reason_code world_not_ready = 25
reason_code travel = 26
reason_code unsupported_counts = 27
reason_code wrapper_mismatch = 28
reason_code proxy_unavailable = 29
reason_code unregistered = 30
reason_code public_ip_unavailable = 31
reason_code pending = 32
reason_code request_floor = 33
reason_code producer_ambiguous = 34
reason_code freshness_expired = 35
reason_code task_not_ready = 36
reason_code task_ambiguous = 37
reason_code task_mismatch = 38
reason_code holder_mismatch = 39
reason_code task_reused = 40
reason_code builder_changed = 41
reason_code install_failed = 42
reason_code postcheck_failed = 43
reason_code stranded_wrapper = 44
reason_code prepared_unavailable = 45
reason_code prepared_malformed = 46
reason_code prepared_limit = 47
reason_code prepared_mismatch = 48
reason_code native_backoff = 49
reason_code known_spin = 50
reason_code native_unwind = 51
reason_code write_fault = 52
reason_code record_loss = 53
reason_code writer_failed = 54
reason_code log_limit = 55
reason_code status_unavailable = 56
reason_code spectators_present = 57
reason_code capacity_mismatch = 58

abbrev pub reason_count : ℕ
reason_count = 59

unfoldable pub is_none : Reason → Bool
is_none Reason.none = true
is_none _ = false

pub mode_name : Mode → String
mode_name disabled = "disabled"
mode_name observe = "observe"
mode_name repair = "repair"
mode_name invalid = "invalid"

pub diagnostics_name : Diagnostics → String
diagnostics_name normal = "normal"
diagnostics_name detailed = "detailed"
diagnostics_name operational = "operational"
diagnostics_name invalid = "invalid"

pub reason_name : Reason → String
reason_name none = "none"
reason_name config_missing = "config-missing"
reason_name config_disabled = "config-disabled"
reason_name config_invalid = "config-invalid"
reason_name observer_required = "observer-required"
reason_name recon_ineligible = "recon-ineligible"
reason_name host_mismatch = "host-mismatch"
reason_name sdk_mismatch = "sdk-mismatch"
reason_name steam_client_mismatch = "steamclient-mismatch"
reason_name profile_mismatch = "profile-mismatch"
reason_name preparation_failed = "preparation-failed"
reason_name identity_incomplete = "identity-incomplete"
reason_name clock_failed = "clock-failed"
reason_name counter_overflow = "counter-overflow"
reason_name foreign_thread = "foreign-thread"
reason_name unknown_ancestry = "unknown-ancestry"
reason_name truncated_stack = "truncated-stack"
reason_name reentry = "reentry"
reason_name lifecycle_crossing = "lifecycle-crossing"
reason_name init_failed = "init-failed"
reason_name unsupported_reinit = "unsupported-reinit"
reason_name stopping = "stopping"
reason_name source_unavailable = "source-unavailable"
reason_name source_lifetime = "source-lifetime"
reason_name source_class = "source-class"
reason_name world_not_ready = "world-not-ready"
reason_name travel = "travel"
reason_name unsupported_counts = "unsupported-counts"
reason_name wrapper_mismatch = "wrapper-mismatch"
reason_name proxy_unavailable = "proxy-unavailable"
reason_name unregistered = "unregistered"
reason_name public_ip_unavailable = "public-ip-unavailable"
reason_name pending = "pending"
reason_name request_floor = "request-floor"
reason_name producer_ambiguous = "producer-ambiguous"
reason_name freshness_expired = "freshness-expired"
reason_name task_not_ready = "task-not-ready"
reason_name task_ambiguous = "task-ambiguous"
reason_name task_mismatch = "task-mismatch"
reason_name holder_mismatch = "holder-mismatch"
reason_name task_reused = "task-reused"
reason_name builder_changed = "builder-changed"
reason_name install_failed = "install-failed"
reason_name postcheck_failed = "postcheck-failed"
reason_name stranded_wrapper = "stranded-wrapper"
reason_name prepared_unavailable = "prepared-unavailable"
reason_name prepared_malformed = "prepared-malformed"
reason_name prepared_limit = "prepared-limit"
reason_name prepared_mismatch = "prepared-mismatch"
reason_name native_backoff = "native-backoff"
reason_name known_spin = "known-spin"
reason_name native_unwind = "native-unwind"
reason_name write_fault = "write-fault"
reason_name record_loss = "record-loss"
reason_name writer_failed = "writer-failed"
reason_name log_limit = "log-limit"
reason_name status_unavailable = "status-unavailable"
reason_name spectators_present = "spectators-present"
reason_name capacity_mismatch = "capacity-mismatch"

pub record NativeCounts : Type 0 where
  pub pi : ℕ
  pub bots : ℕ
  pub maximum : ℕ

unfoldable pub equal_counts : NativeCounts → NativeCounts → Bool
equal_counts a b = a.pi == b.pi && a.bots == b.bots && a.maximum == b.maximum

abbrev pub request_floor_seconds : ℕ
request_floor_seconds = 20

abbrev pub freshness_seconds : ℕ
freshness_seconds = 45

abbrev pub capture_frames : ℕ
capture_frames = 32

-- The highest values of the signed and of the unsigned 64-bit integers.
abbrev pub int64_max : ℕ
int64_max = 9223372036854775807

abbrev pub uint64_max : ℕ
uint64_max = 18446744073709551615
