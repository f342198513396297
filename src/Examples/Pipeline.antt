-- ===== src/Examples/Pipeline.antt =====
-- A pipeline from its initialisation to the receipt of its bootstrap, with texts that are digests of
-- themselves.
use rs2server_fix.Base.{ℕ, ◌+◌, ◌≡◌, refl, true, false, some, List, [], ◌∷◌}
use rs2server_fix.Types.{Diagnostics}
use rs2server_fix.Framing.{marker}
use rs2server_fix.Status.{no_owner_transport}
use rs2server_fix.Status.Wire.{TransportReason, transport_reason_code, OwnerSnapshotV3}
use rs2server_fix.Records.Ring.{zero_record, dequeue_report}
use rs2server_fix.Pipeline.{
  Machine, Formats, empty_entry, start_pipeline, initialize_native_pipeline, release_native_frame,
  acknowledge_native_receipt, match_native_receipt,
}
use rs2server_fix.Pipeline.Prepare.{prepare_native_frames}
use rs2server_fix.Pipeline.Ledger.{Orderly}
use rs2server_fix.Pipeline.Order.{Advanced}
use rs2server_fix.Pipeline.Run.{
  PipelineCall, pipeline_calls, pipeline_calls-Orderly, acknowledge_native_receipt-Advanced,
}
use rs2server_fix.Examples.Status.{blank, no_payload}

abbrev formats : Formats ℕ
formats = record {
  digest = λ w text. (w, some text);
  format_record = λ r detail. some marker;
  bootstrap = (TransportReason.none, marker);
}

abbrev unstarted : Machine ℕ
unstarted = record {
  pipeline = record {
    has_status = false;
    has_ring = false;
    diagnostics = Diagnostics.normal;
    ready_write = 0;
    ready_read = 0;
    ledger_read = 0;
    ledger_write = 0;
    next_format = 0;
    prepared_sequence = 0;
    observed_sequence = 0;
    startup_observed = 0;
    held_match = 0;
    initialized = 0;
    detail = record {
      recovery_detail = false;
      terminal_detail_seen = false;
      builder_detail_active = false;
      builder_detail = false;
      builder_post_boundary = false;
      detail_boundary_pairs = 0;
      detail_build_sequence = 0;
      detail_source_epoch = 0;
      detail_binding_epoch = 0;
      detail_overall_deadline_qpc = 0;
    };
    bootstrap = [];
    ledger = λ i. empty_entry;
    ready = λ i. record { ticket = 0; sequence = 0; ledger_index = 0; message = [] };
  };
  ring = record {
    has_status = true;
    owner_thread_id = 9;
    ready = 1;
    report_write_sequence = 0;
    report_read_sequence = 0;
    slots = λ i. zero_record;
  };
  status = blank;
  provider = 0;
}

abbrev submitted : OwnerSnapshotV3
submitted = record {
  owner = no_payload;
  transport = record no_owner_transport { startup_submitted = 1 };
  sequence = 2;
}

abbrev receipts : List (PipelineCall ℕ)
receipts =
    PipelineCall.prepare 7
    ∷ PipelineCall.peek
    ∷ PipelineCall.release 1
    ∷ PipelineCall.receive marker
    ∷ []

abbrev received : Machine ℕ
received = pipeline_calls formats receipts (initialize_native_pipeline formats true 5 unstarted).1

pipeline_calls-Orderly_example : Orderly received.pipeline
unfolding initialize_native_pipeline start_pipeline transport_reason_code
pipeline_calls-Orderly_example = pipeline_calls-Orderly formats true 5 unstarted receipts refl

received_acknowledged : (acknowledge_native_receipt received submitted).0 ≡ true
unfolding acknowledge_native_receipt pipeline_calls match_native_receipt release_native_frame
    prepare_native_frames initialize_native_pipeline dequeue_report
received_acknowledged = refl

acknowledge_native_receipt-Advanced_example :
    ((acknowledge_native_receipt received submitted).1.pipeline.ledger_read
      ≡ received.pipeline.ledger_read + 1)
    × Advanced received.pipeline
        (acknowledge_native_receipt received submitted).1.pipeline
        submitted
unfolding initialize_native_pipeline start_pipeline transport_reason_code
acknowledge_native_receipt-Advanced_example =
    acknowledge_native_receipt-Advanced received submitted
      (pipeline_calls-Orderly formats true 5 unstarted receipts refl) received_acknowledged
