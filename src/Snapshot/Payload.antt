-- ===== src/Snapshot/Payload.antt =====
-- src/shared/leech_recovery_snapshot.cpp: `RecoveryPayloadValid`. A mask of flags is the list of its
-- bits, as `RecoveryFlags` numbers them.
use rs2server_fix.Base.{
  ℕ, ◌+◌, ◌-◌, ◌*◌, ◌/◌, ◌%◌, ◌^◌, Bool, not, ◌&&◌, ◌||◌, List, [], ◌∷◌, ltb, leb, ◌==◌,
  if◌then◌else◌,
}
use rs2server_fix.Types.{int64_max}
use rs2server_fix.Records.Payload.{ReportRecoveryPayload}

abbrev uint32_max : ℕ
uint32_max = 2 ^ 32 - 1

-- `flags & (1 << k)`.
unfoldable pub flag : ℕ → ℕ → Bool
flag flags k = flags / 2 ^ k % 2 == 1

-- `flags & mask`, as a number and as a test.
unfoldable pub masked : ℕ → List ℕ → ℕ
masked flags [] = 0
masked flags (k ∷ ks) = flags / 2 ^ k % 2 * 2 ^ k + masked flags ks

unfoldable pub any_flag : ℕ → List ℕ → Bool
unfolding masked
any_flag flags mask = not (masked flags mask == 0)

abbrev pub known_flags : List ℕ
known_flags =
    0 ∷ 1 ∷ 2 ∷ 3 ∷ 4 ∷ 5 ∷ 6 ∷ 7 ∷ 8 ∷ 9 ∷ 10 ∷ 11 ∷ 12 ∷ 13 ∷ 14 ∷ 15 ∷ 16 ∷ 17 ∷ 18 ∷ 19 ∷ 20
    ∷ 21 ∷ []

abbrev pub metadata : List ℕ
metadata = 16 ∷ 17 ∷ 18 ∷ 19 ∷ []

abbrev pub retryable_flags : List ℕ
retryable_flags = 0 ∷ 9 ∷ 20 ∷ 21 ∷ []

-- The enumerations below their `Count`, the flags known, the narrow words in range.
unfoldable pub in_bounds : ReportRecoveryPayload → Bool
unfolding masked
in_bounds p =
    ltb p.phase 11
    && ltb p.event 4
    && ltb p.reason 83
    && ltb p.outcome 10
    && ltb p.resource_phase 5
    && ltb p.native_stage 22
    && ltb p.callback_result 6
    && masked p.flags known_flags == p.flags
    && leb p.owner_thread_id uint32_max
    && leb p.exception_code uint32_max
    && leb p.request_id uint32_max
    && leb p.callback_id uint32_max
    && leb p.api_returned_id uint32_max
    && leb p.qpc int64_max
    && leb p.finish_deadline_qpc int64_max
    && leb p.overall_deadline_qpc int64_max
    && leb p.callback_own_ticks int64_max

-- The flags of the callback and of the metadata imply those they rest on.
unfoldable pub flags_consistent : ReportRecoveryPayload → Bool
unfolding flag any_flag
flags_consistent p =
    (if flag p.flags 14 then flag p.flags 11 else p.callback_own_ticks == 0)
    && not (flag p.flags 13 && not (flag p.flags 12))
    && not (flag p.flags 12 && not (flag p.flags 11))
    && not (any_flag p.flags metadata && not (flag p.flags 15))
    && not (flag p.flags 17 && flag p.flags 18)
    && not (flag p.flags 19 && not (flag p.flags 16))
    && not (flag p.flags 20 && p.operation_sequence == 0)

-- What a retryable rejection must look like: nothing native was entered.
unfoldable pub retryable_consistent : ReportRecoveryPayload → Bool
unfolding flag masked
retryable_consistent p =
    p.phase == 10
    && not (p.operation_sequence == 0)
    && (p.outcome == 1 || p.outcome == 4)
    && masked p.flags retryable_flags == p.flags
    && flag p.flags 0
    && flag p.flags 9
    && p.native_stage == 0
    && p.resource_phase == 0
    && p.exception_code == 0
    && p.request_id == 0
    && p.callback_id == 0
    && p.callback_result == 0
    && p.api_returned_id == 0

unfoldable pub recovery_payload_valid : ReportRecoveryPayload → Bool
unfolding in_bounds flags_consistent flag retryable_consistent
recovery_payload_valid p =
    in_bounds p && flags_consistent p && (not (flag p.flags 21) || retryable_consistent p)
