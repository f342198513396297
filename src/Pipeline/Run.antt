-- ===== src/Pipeline/Run.antt =====
-- src/companion/steam_reporting_pipeline.cpp: whole runs of the pipeline.
use rs2server_fix.Base.{
  ℕ, ◌+◌, ◌-◌, ◌%◌, ◌≤◌, ◌<◌, ◌≡◌, ◌⊎◌, inl, refl, subst, ap, Bool, true, false, not, ◌||◌, Option,
  none, some, List, [], ◌∷◌, length, ltb, ◌==◌, pick, arith,
}
use rs2server_fix.Types.{Reason}
use rs2server_fix.Receipts.{ReceiptDisposition}
use rs2server_fix.Status.Wire.{
  TransportReason, transport_reason_code, StatusWireV3, OwnerSnapshotV3,
}
use rs2server_fix.Records.Ring.{ReportRing}
use rs2server_fix.Pipeline.{
  LedgerState, NativeLedgerEntry, Machine, Formats, home, ledger_valid, start_pipeline,
  initialize_native_pipeline, peek_native_frame, release_native_frame, match_digest,
  match_native_receipt, acknowledge_native_receipt,
}
use rs2server_fix.Pipeline.Prepare.{prepare_native_frames}
use rs2server_fix.Pipeline.Ledger.{waiting, sequence-Announced, Orderly, At, home_new}
use rs2server_fix.Pipeline.Kept.{After, loss-Orderly, prepare_native_frames-Orderly}
use rs2server_fix.Pipeline.Order.{
  Peeked-Orderly, peek_native_frame-Peeked, release_peeked-Orderly, Matched, match_from-Orderly,
  some_announced, Advanced, Acknowledged, refusing, acknowledge_entry-Acknowledged,
}

abbrev first_entry : ℕ → List ℕ → NativeLedgerEntry
first_entry qpc text = record {
  sequence = 0;
  prepared_qpc = qpc;
  message_bytes = length text;
  state = LedgerState.ready [];
}

held_announced :
    (held r n : ℕ) (b c d : Bool)
    → ((held ≡ 0) ⊎ (r < n))
    → (held == 0 || b || c || d) ≡ false
    → r < n
held_announced held r n b c d e h = ground (arith, e, h)

module _ {W : Type 0} where
  match_digest-Orderly :
      (m : Machine W) (message : List ℕ) (r : W × Option (List ℕ))
      → Orderly m.pipeline
      → m.pipeline.ledger_read < m.pipeline.next_format
      → Orderly (match_digest m message r).1.pipeline
  unfolding match_digest Matched
  match_digest-Orderly m message (w, none) h more =
      loss-Orderly (record m { provider = w }) Reason.record_loss h
  match_digest-Orderly m message (w, some digest) h more =
      match_from-Orderly (m.pipeline.next_format - m.pipeline.ledger_read) m.pipeline.ledger_read
        m.pipeline message digest h more

  match_native_receipt-Orderly :
      (formats : Formats W) (m : Machine W) (message : List ℕ)
      → Orderly m.pipeline
      → Orderly (match_native_receipt formats m message).1.pipeline
  unfolding match_native_receipt
  match_native_receipt-Orderly formats m message h =
      let p = m.pipeline in
      pick (λ (r : ReceiptDisposition × Machine W). Orderly r.1.pipeline)
        (p.initialized == 0
          || not (p.held_match == 0)
          || not (ledger_valid p)
          || p.ledger_read == p.next_format)
        (ReceiptDisposition.corrupt, m) (match_digest m message (formats.digest m.provider message))
        (λ _. h)
        λ e. match_digest-Orderly m message (formats.digest m.provider message) h (
          some_announced (p.initialized == 0) (not (p.held_match == 0)) (not (ledger_valid p))
            p.ledger_read p.next_format h.announced e)

  acknowledge_native_receipt-Acknowledged :
      (m : Machine W) (owner : OwnerSnapshotV3)
      → Orderly m.pipeline
      → Acknowledged m.pipeline owner (acknowledge_native_receipt m owner)
  unfolding acknowledge_native_receipt
  acknowledge_native_receipt-Acknowledged m owner h =
      let p = m.pipeline in
      pick (Acknowledged p owner)
        (p.held_match == 0
          || not (ledger_valid p)
          || ltb owner.sequence 2
          || owner.sequence % 2 == 1)
        _ _ (λ _. refusing p owner m h)
        λ e.
          let more = held_announced p.held_match p.ledger_read p.next_format _ _ _ h.pending e in
          acknowledge_entry-Acknowledged m owner (p.ledger (p.ledger_read % 256)) _ h more
            (sequence-Announced p.ledger_read _ _ (h.held p.ledger_read (omega arith) more))

module _ {W : Type 0} where
  -- On a ledger in order, an acknowledgement that succeeds releases exactly the next ticket: the
  -- bootstrap's, when the owner has submitted the start, or that of the next record, when the owner has
  -- submitted it and the start was observed before.
  pub acknowledge_native_receipt-Advanced :
      (m : Machine W) (owner : OwnerSnapshotV3)
      → Orderly m.pipeline
      → (acknowledge_native_receipt m owner).0 ≡ true
      → ((acknowledge_native_receipt m owner).1.pipeline.ledger_read ≡ m.pipeline.ledger_read + 1)
        × Advanced m.pipeline (acknowledge_native_receipt m owner).1.pipeline owner
  unfolding Acknowledged
  acknowledge_native_receipt-Advanced m owner h e =
      (acknowledge_native_receipt-Acknowledged m owner h).1 e

-- A call on the pipeline, or what others do to the ring, the status and the provider.
pub data PipelineCall (W : Type 0) : Type 0 where
  prepare : ℕ → PipelineCall W
  peek : PipelineCall W
  release : ℕ → PipelineCall W
  receive : List ℕ → PipelineCall W
  acknowledge : OwnerSnapshotV3 → PipelineCall W
  elsewhere : (ReportRing → ReportRing) → (StatusWireV3 → StatusWireV3) → (W → W) → PipelineCall W

module _ {W : Type 0} where
  unfoldable pub pipeline_call : Formats W → PipelineCall W → Machine W → Machine W
  pipeline_call formats (prepare qpc) m = (prepare_native_frames formats qpc m).1
  pipeline_call formats peek m = (peek_native_frame m).1
  pipeline_call formats (release ticket) m = (release_native_frame m ticket).1
  pipeline_call formats (receive message) m = (match_native_receipt formats m message).1
  pipeline_call formats (acknowledge owner) m = (acknowledge_native_receipt m owner).1
  pipeline_call formats (elsewhere f g k) m = record m {
    ring = f m.ring;
    status = g m.status;
    provider = k m.provider;
  }

  unfoldable pub pipeline_calls : Formats W → List (PipelineCall W) → Machine W → Machine W
  unfolding pipeline_call
  pipeline_calls formats [] m = m
  pipeline_calls formats (c ∷ cs) m = pipeline_calls formats cs (pipeline_call formats c m)

  pipeline_call-Orderly :
      (formats : Formats W) (c : PipelineCall W) (m : Machine W)
      → Orderly m.pipeline
      → Orderly (pipeline_call formats c m).pipeline
  unfolding pipeline_call After Acknowledged release_native_frame
  pipeline_call-Orderly formats (prepare qpc) m h = prepare_native_frames-Orderly formats qpc m h
  pipeline_call-Orderly formats peek m h =
      Peeked-Orderly (peek_native_frame m) (peek_native_frame-Peeked m h)
  pipeline_call-Orderly formats (release ticket) m h =
      release_peeked-Orderly ticket (peek_native_frame m) (peek_native_frame-Peeked m h)
  pipeline_call-Orderly formats (receive message) m h =
      match_native_receipt-Orderly formats m message h
  pipeline_call-Orderly formats (acknowledge owner) m h =
      (acknowledge_native_receipt-Acknowledged m owner h).0
  pipeline_call-Orderly formats (elsewhere f g k) m h = h

  start_pipeline-Orderly :
      (qpc : ℕ) (text : List ℕ) (why : TransportReason) (m : Machine W)
      → (start_pipeline qpc text why m).0 ≡ TransportReason.none
      → Orderly (start_pipeline qpc text why m).1.pipeline
  unfolding start_pipeline transport_reason_code
  start_pipeline-Orderly qpc text why m =
      pick (λ (r : TransportReason × Machine W). r.0 ≡ TransportReason.none → Orderly r.1.pipeline)
        (not (transport_reason_code why == 0)) _ _
        (λ refused_ e. absurd (
          let zero_code : transport_reason_code why ≡ 0 = ap transport_reason_code e in
          let z : 1 ≤ 0 = ground (arith, refused_, zero_code) in omega (arith, z)))
        λ _ _. record {
          announced = omega arith;
          drained = omega arith;
          homes = omega arith;
          released = omega arith;
          slots = omega arith;
          frames = refl;
          ordered = refl;
          observed = refl;
          first = inl (refl, refl);
          pending = inl refl;
          held = λ t a b.
              subst (λ u. At u (home 0 (first_entry qpc text) m.pipeline.ledger (u % 256)))
                (omega (arith, b))
                (home_new 0 (first_entry qpc text) m.pipeline.ledger (waiting {digest = []} refl));
        }

  pipeline_calls-kept :
      (formats : Formats W) (cs : List (PipelineCall W)) (m : Machine W)
      → Orderly m.pipeline
      → Orderly (pipeline_calls formats cs m).pipeline
  unfolding pipeline_calls
  pipeline_calls-kept formats [] m h = h
  pipeline_calls-kept formats (c ∷ cs) m h =
      pipeline_calls-kept formats cs (pipeline_call formats c m)
        (pipeline_call-Orderly formats c m h)

  initialized-Orderly :
      (formats : Formats W) (same_status : Bool) (qpc : ℕ) (m : Machine W)
      → (initialize_native_pipeline formats same_status qpc m).0 ≡ TransportReason.none
      → Orderly (initialize_native_pipeline formats same_status qpc m).1.pipeline
  unfolding initialize_native_pipeline
  initialized-Orderly formats same_status qpc m =
      pick (λ (r : TransportReason × Machine W). r.0 ≡ TransportReason.none → Orderly r.1.pipeline)
        (not (m.pipeline.initialized == 0)
          || qpc == 0
          || not same_status
          || not (m.ring.ready == 1))
        (TransportReason.profile_unsafe, m)
        (start_pipeline qpc formats.bootstrap.1 formats.bootstrap.0 m) (λ _ e. absurd (cc))
        λ _ e. start_pipeline-Orderly qpc formats.bootstrap.1 formats.bootstrap.0 m e

  -- After an initialisation that succeeds, whatever calls follow and whatever happens to the ring, the
  -- status and the provider between them, the tickets of the ledger are in order and within its 256
  -- homes, every announced ticket has its sequence and a digest at home, as many frames were published
  -- as tickets announced, at most 8 of them unreleased, and receipts were acknowledged in the order of
  -- the tickets.
  pub pipeline_calls-Orderly :
      (formats : Formats W) (same_status : Bool) (qpc : ℕ) (m : Machine W)
      (calls : List (PipelineCall W))
      → (initialize_native_pipeline formats same_status qpc m).0 ≡ TransportReason.none
      → Orderly
          (pipeline_calls formats calls
            (initialize_native_pipeline formats same_status qpc m).1).pipeline
  pipeline_calls-Orderly formats same_status qpc m calls e =
      pipeline_calls-kept formats calls _ (initialized-Orderly formats same_status qpc m e)
