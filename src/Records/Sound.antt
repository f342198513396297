-- ===== src/Records/Sound.antt =====
-- src/companion/steam_reporting_records.cpp: what a canonical record takes of its input.
use rs2server_fix.Base.{
  ℕ, ◌≤◌, ◌≡◌, ◌⊎◌, inl, inr, refl, Bool, true, false, List, [], ◌∷◌, ◌&&◌, ltb, leb, ◌==◌, all,
  pick, arith,
}
use rs2server_fix.Records.Payload.{
  ReportStatePayload, ReportRequestPayload, ReportBuilderPayload, ReportAnchorPayload,
  ReportTransportSummaryPayload, ReportControlPayload, ReportRecoveryPayload, ReportBody, state,
  request, witness, builder_enter, builder_return, builder_unwind, anchor, transport_summary,
  control, recovery, unknown, ReportRecordV3,
}
use rs2server_fix.Records.{
  canonical_state, canonical_request, prepared_readable, dirty_readable, keep_prepared, keep_dirty,
  canonical_builder, canonical_anchor, canonical_transport, canonical_control, canonical_recovery,
  canonical_body, canonical_record,
}

-- Optional words are copied when they may be read, and zero when they may not.
abbrev Optional : Type 0 → List ℕ → List ℕ → Type 0
Optional Readable given out =
    (Readable × (out ≡ given)) ⊎ ((Readable → ⊥) × (all (λ word. word == 0) out ≡ true))

abbrev state_words : ReportStatePayload → List ℕ
state_words a =
    a.phase ∷ a.request_sequence ∷ a.witness_sequence ∷ a.build_sequence ∷ a.pending_since_qpc
    ∷ a.fresh_since_qpc ∷ a.qualification_flags ∷ a.native_task_state ∷ a.mode ∷ a.classification
    ∷ a.pi ∷ a.bots ∷ a.maximum ∷ a.pending ∷ a.fresh ∷ a.bound ∷ a.client_qualification_ms ∷ []

abbrev schedule_words : ReportStatePayload → List ℕ
schedule_words a =
    a.native_schedule_valid ∷ a.native_schedule_anchor_bits ∷ a.native_errors_bits
    ∷ a.native_throttles_bits ∷ a.native_expedite ∷ a.native_retry_limit ∷ a.native_interval_units
    ∷ a.native_interval_override_bits ∷ a.native_retry_override_bits ∷ a.native_delay_units
    ∷ a.native_tier ∷ []

pub record IsStateCopy (a b : ReportStatePayload) : Type 0 where
  pub declared : state_words b ≡ state_words a
  pub schedule : Optional (a.native_schedule_valid ≡ 1) (schedule_words a) (schedule_words b)
  pub reserved : b.reserved ≡ 0 ∷ 0 ∷ []

abbrev builder_words : ReportBuilderPayload → List ℕ
builder_words a =
    a.build_sequence ∷ a.request_sequence ∷ a.witness_sequence ∷ a.source_age_ticks
    ∷ a.probe_elapsed_ticks ∷ a.classification_elapsed_ticks ∷ a.original_elapsed_ticks
    ∷ a.entry_qpc ∷ a.return_qpc ∷ a.pi ∷ a.bots ∷ a.maximum ∷ a.classification ∷ a.selected
    ∷ a.result ∷ a.pending ∷ a.fresh ∷ []

abbrev prepared_words : ReportBuilderPayload → List ℕ
prepared_words a =
    a.prepared_valid ∷ a.prepared_mismatch_mask ∷ a.prepared_maximum ∷ a.prepared_members
    ∷ a.prepared_pi ∷ a.prepared_bots ∷ a.prepared_json_maximum ∷ a.prepared_json_bytes ∷ []

abbrev dirty_words : ReportBuilderPayload → List ℕ
dirty_words a = a.prepared_dirty_valid ∷ a.prepared_dirty_at_entry ∷ []

-- A prepared read that is complete and in bounds, and an entry observation that is a truth value.
pub record IsPrepared (a : ReportBuilderPayload) : Type 0 where
  pub valid : a.prepared_valid ≡ 1
  pub mask : a.prepared_mismatch_mask ≤ 31
  pub members : a.prepared_members ≤ 4096
  pub some_bytes : 1 ≤ a.prepared_json_bytes
  pub json_bytes : a.prepared_json_bytes ≤ 65536

pub record IsObserved (a : ReportBuilderPayload) : Type 0 where
  pub valid : a.prepared_dirty_valid ≡ 1
  pub value : a.prepared_dirty_at_entry ≤ 1

pub record IsBuilderCopy (a b : ReportBuilderPayload) : Type 0 where
  pub declared : builder_words b ≡ builder_words a
  pub prepared : Optional (IsPrepared a) (prepared_words a) (prepared_words b)
  pub observed : Optional (IsObserved a) (dirty_words a) (dirty_words b)
  pub reserved : b.reserved ≡ 0 ∷ 0 ∷ 0 ∷ 0 ∷ 0 ∷ 0 ∷ 0 ∷ 0 ∷ []

abbrev fifteen_zeros : List ℕ
fifteen_zeros = 0 ∷ 0 ∷ 0 ∷ 0 ∷ 0 ∷ 0 ∷ 0 ∷ 0 ∷ 0 ∷ 0 ∷ 0 ∷ 0 ∷ 0 ∷ 0 ∷ 0 ∷ []

abbrev eleven_zeros : List ℕ
eleven_zeros = 0 ∷ 0 ∷ 0 ∷ 0 ∷ 0 ∷ 0 ∷ 0 ∷ 0 ∷ 0 ∷ 0 ∷ 0 ∷ []

-- The copy of a body: of its kind, with its declared words, and no others.
pub data IsCopy : ReportBody → ReportBody → Type 0 where
  state_copy : {a b : ReportStatePayload} → IsStateCopy a b → IsCopy (state a) (state b)
  request_copy :
      (a : ReportRequestPayload)
      → IsCopy (request a) (request (record a { reserved = fifteen_zeros }))
  witness_copy :
      (a : ReportRequestPayload)
      → IsCopy (witness a) (witness (record a { reserved = fifteen_zeros }))
  enter_copy :
      {a b : ReportBuilderPayload} → IsBuilderCopy a b → IsCopy (builder_enter a) (builder_enter b)
  return_copy :
      {a b : ReportBuilderPayload}
      → IsBuilderCopy a b
      → IsCopy (builder_return a) (builder_return b)
  unwind_copy :
      {a b : ReportBuilderPayload}
      → IsBuilderCopy a b
      → IsCopy (builder_unwind a) (builder_unwind b)
  anchor_copy : (a : ReportAnchorPayload) → IsCopy (anchor a) (anchor a)
  transport_copy :
      (a : ReportTransportSummaryPayload)
      → IsCopy (transport_summary a) (transport_summary (record a { reserved = eleven_zeros }))
  control_copy :
      (a : ReportControlPayload)
      → IsCopy (control a) (control (record a { reserved = 0 ∷ eleven_zeros }))
  recovery_copy : (a : ReportRecoveryPayload) → IsCopy (recovery a) (recovery a)
  unknown_copy : (k : ℕ) → IsCopy (unknown k) (unknown k)

not_one : (n : ℕ) → (n == 1) ≡ false → n ≡ 1 → ⊥
not_one n h e = ground arith

canonical_state-IsStateCopy : (a : ReportStatePayload) → IsStateCopy a (canonical_state a)
unfolding canonical_state
canonical_state-IsStateCopy a =
    pick (IsStateCopy a) (a.native_schedule_valid == 1) _ _
      (λ e. record {
        declared = refl;
        schedule = inl (let v = a.native_schedule_valid in ground arith, refl);
        reserved = refl;
      })
      (λ e. record {
        declared = refl;
        schedule = inr (not_one a.native_schedule_valid e, refl);
        reserved = refl;
      })

five_tests :
    (v k m b : ℕ)
    → (v == 1 && leb k 31 && leb m 4096 && ltb 0 b && leb b 65536) ≡ true
    → (v ≡ 1) × (k ≤ 31) × (m ≤ 4096) × (1 ≤ b) × (b ≤ 65536)
five_tests v k m b h = (ground arith, ground arith, ground arith, ground arith, ground arith)

five_untested :
    (v k m b : ℕ)
    → (v == 1 && leb k 31 && leb m 4096 && ltb 0 b && leb b 65536) ≡ false
    → v ≡ 1
    → k ≤ 31
    → m ≤ 4096
    → 1 ≤ b
    → b ≤ 65536
    → ⊥
five_untested v k m b h e1 e2 e3 e4 e5 = ground arith

keep_prepared-Optional :
    (p : Bool) (a : ReportBuilderPayload)
    → prepared_readable a ≡ p
    → Optional (IsPrepared a) (prepared_words a) (prepared_words (keep_prepared p a))
unfolding prepared_readable keep_prepared
keep_prepared-Optional true a h =
    let f =
      five_tests a.prepared_valid a.prepared_mismatch_mask a.prepared_members a.prepared_json_bytes
        h in
    inl
      (record { valid = f.0; mask = f.1; members = f.2; some_bytes = f.3; json_bytes = f.4 }, refl)
keep_prepared-Optional false a h = inr (
  λ r.
      five_untested a.prepared_valid a.prepared_mismatch_mask a.prepared_members
        a.prepared_json_bytes h r.valid r.mask r.members r.some_bytes r.json_bytes,
  refl,
)

two_tests : (v d : ℕ) → (v == 1 && leb d 1) ≡ true → (v ≡ 1) × (d ≤ 1)
two_tests v d h = (ground arith, ground arith)

two_untested : (v d : ℕ) → (v == 1 && leb d 1) ≡ false → v ≡ 1 → d ≤ 1 → ⊥
two_untested v d h e1 e2 = ground arith

keep_dirty-Optional :
    (d : Bool) (a : ReportBuilderPayload)
    → dirty_readable a ≡ d
    → Optional (IsObserved a) (dirty_words a) (dirty_words (keep_dirty d a))
unfolding dirty_readable keep_dirty
keep_dirty-Optional true a h =
    let f = two_tests a.prepared_dirty_valid a.prepared_dirty_at_entry h in
    inl (record { valid = f.0; value = f.1 }, refl)
keep_dirty-Optional false a h =
    inr (λ r. two_untested a.prepared_dirty_valid a.prepared_dirty_at_entry h r.valid r.value, refl)

-- A canonical builder by its two tests.
abbrev built : Bool → Bool → ReportBuilderPayload → ReportBuilderPayload
built p d a = record (keep_dirty d (keep_prepared p a)) {
  reserved = 0 ∷ 0 ∷ 0 ∷ 0 ∷ 0 ∷ 0 ∷ 0 ∷ 0 ∷ [];
}

built-IsBuilderCopy :
    (p d : Bool) (a : ReportBuilderPayload)
    → Optional (IsPrepared a) (prepared_words a) (prepared_words (keep_prepared p a))
    → Optional (IsObserved a) (dirty_words a) (dirty_words (keep_dirty d a))
    → IsBuilderCopy a (built p d a)
unfolding keep_prepared keep_dirty
built-IsBuilderCopy true true a f g = record {
  declared = refl;
  prepared = f;
  observed = g;
  reserved = refl;
}
built-IsBuilderCopy true false a f g = record {
  declared = refl;
  prepared = f;
  observed = g;
  reserved = refl;
}
built-IsBuilderCopy false true a f g = record {
  declared = refl;
  prepared = f;
  observed = g;
  reserved = refl;
}
built-IsBuilderCopy false false a f g = record {
  declared = refl;
  prepared = f;
  observed = g;
  reserved = refl;
}

canonical_builder-IsBuilderCopy : (a : ReportBuilderPayload) → IsBuilderCopy a (canonical_builder a)
unfolding canonical_builder
canonical_builder-IsBuilderCopy a =
    built-IsBuilderCopy (prepared_readable a) (dirty_readable a) a
      (keep_prepared-Optional (prepared_readable a) a refl)
      (keep_dirty-Optional (dirty_readable a) a refl)

canonical_body-IsCopy : (b : ReportBody) → IsCopy b (canonical_body b)
unfolding canonical_body canonical_request canonical_anchor canonical_transport canonical_control
    canonical_recovery
canonical_body-IsCopy (state a) = state_copy (canonical_state-IsStateCopy a)
canonical_body-IsCopy (request a) = request_copy a
canonical_body-IsCopy (witness a) = witness_copy a
canonical_body-IsCopy (builder_enter a) = enter_copy (canonical_builder-IsBuilderCopy a)
canonical_body-IsCopy (builder_return a) = return_copy (canonical_builder-IsBuilderCopy a)
canonical_body-IsCopy (builder_unwind a) = unwind_copy (canonical_builder-IsBuilderCopy a)
canonical_body-IsCopy (anchor a) = anchor_copy a
canonical_body-IsCopy (transport_summary a) = transport_copy a
canonical_body-IsCopy (control a) = control_copy a
canonical_body-IsCopy (recovery a) = recovery_copy a
canonical_body-IsCopy (unknown k) = unknown_copy k

-- A canonical record has the header of its input but for the sequence and the thread that the ring
-- assigns, and the kind and the declared words of its body. Its reserved words are zero. The native
-- schedule, the prepared read and the entry observation are copied when their validity word is 1 and
-- their values are in bounds, and are zero otherwise.
pub canonical_record-IsCopy :
    (input : ReportRecordV3) (sequence owner : ℕ)
    → IsCopy input.body (canonical_record input sequence owner).body
      × ((canonical_record input sequence owner).header
          ≡ record input.header { sequence = sequence; thread_id = owner })
unfolding canonical_record
canonical_record-IsCopy input sequence owner = (canonical_body-IsCopy input.body, refl)
