-- ===== src/Receipts.antt =====
-- src/companion/steam_reporting_receipts.h and .cpp: the scanner that finds the receipts of this run in
-- the server's log. A chunk is a list of bytes, and `carry` the length of the kept line. The matching
-- operation is a parameter that may change a world of its own; a null pointer does not arise, and a
-- prefix mode is one of the two that the type has.
use rs2server_fix.Base.{
  ℕ, suc, ◌+◌, Bool, true, false, not, ◌&&◌, ◌||◌, List, [], ◌∷◌, ◌++◌, ltb, ◌==◌, if◌then◌else◌,
  length, take, drop,
}
use rs2server_fix.Types.{uint64_max}
use rs2server_fix.Framing.{
  PrefixMode, LineKind, LineView, unrelated, incomplete, frame, malformed, line_limit, inspect_line,
}
use rs2server_fix.Framing.Run.{belongs_to_run}
pub mod Sound

pub data ReceiptDisposition : Type 0 where
  ignored accepted awaiting_submission gap corrupt : ReceiptDisposition

pub record ReceiptScanner : Type 0 where
  pub offset : ℕ
  pub prefix_mode : PrefixMode
  pub run_id : List ℕ
  pub skip_initial_suffix : Bool
  pub oversized : Bool
  pub awaiting : Bool
  pub failed : Bool
  pub line : List ℕ

pub record ReceiptScanResult : Type 0 where
  pub consumed : ℕ
  pub disposition : ReceiptDisposition

unfoldable pub initialize_receipt_scanner : ℕ → Bool → PrefixMode → List ℕ → ReceiptScanner
initialize_receipt_scanner initial_eof boundary prefix_mode run_id = record {
  offset = initial_eof;
  prefix_mode = prefix_mode;
  run_id = run_id;
  skip_initial_suffix = not boundary;
  oversized = false;
  awaiting = false;
  failed = false;
  line = [];
}

unfoldable pub is_frame : LineKind → Bool
is_frame frame = true
is_frame _ = false

unfoldable pub is_malformed : LineKind → Bool
is_malformed malformed = true
is_malformed _ = false

-- The line is one of this run, as far as the view places a message in it.
unfoldable pub scoped : ReceiptScanner → LineView → Bool
scoped s view =
    not (view.message_offset == 0) && belongs_to_run s.run_id (drop view.message_offset s.line)

module _ {World : Type 0} (match : List ℕ → World → ReceiptDisposition × World) where
  -- A line that is complete.
  unfoldable pub dispose : ReceiptScanner → World → ReceiptDisposition × World
  unfolding scoped is_frame is_malformed
  dispose s w =
      if s.oversized
      then (
        (if scoped s (inspect_line s.line s.prefix_mode false)
            then ReceiptDisposition.corrupt
            else ReceiptDisposition.ignored),
        w,
      )
      else let view = inspect_line s.line s.prefix_mode true in
        if scoped s view && is_malformed view.kind
        then (ReceiptDisposition.corrupt, w)
        else if scoped s view && is_frame view.kind
        then match (take view.message_bytes (drop view.message_offset s.line)) w
        else (ReceiptDisposition.ignored, w)

  -- The byte on the line.
  unfoldable pub keep : ℕ → ReceiptScanner → ReceiptScanner
  keep c s =
      if ltb (length s.line) line_limit
      then record s { line = s.line ++ (c ∷ []) }
      else record s { oversized = true }

  unfoldable pub cleared : ReceiptScanner → ReceiptScanner
  cleared s = record s { line = []; oversized = false }

  -- What one byte does, past the offset: the disposition of the line that it completes, if any.
  unfoldable pub take_byte :
      ℕ → ReceiptScanner → World → ReceiptDisposition × ReceiptScanner × World
  unfolding keep dispose cleared
  take_byte c s w =
      if s.skip_initial_suffix
      then (
        ReceiptDisposition.ignored,
        (if c == 0x0a then record s { skip_initial_suffix = false } else s),
        w,
      )
      else if not (c == 0x0a)
      then (ReceiptDisposition.ignored, keep c s, w)
      else let (d, v) = dispose (keep c s) w in (d, cleared (keep c s), v)

  -- What a disposition does to the scan; `next` goes on with the bytes after.
  unfoldable pub resolve :
      ℕ
      → ReceiptDisposition
      → ReceiptDisposition × ReceiptScanner × World
      → (ReceiptScanResult → ReceiptScanner → World → ReceiptScanResult × ReceiptScanner × World)
      → ReceiptScanResult × ReceiptScanner × World
  resolve n before (ReceiptDisposition.ignored, s, w) next =
      next (record { consumed = n; disposition = before }) s w
  resolve n before (ReceiptDisposition.accepted, s, w) next =
      next (record { consumed = n; disposition = ReceiptDisposition.accepted }) s w
  resolve n before (ReceiptDisposition.awaiting_submission, s, w) next = (
    record { consumed = n; disposition = ReceiptDisposition.awaiting_submission },
    record s { awaiting = true },
    w,
  )
  resolve n before (ReceiptDisposition.gap, s, w) next =
      (record { consumed = n; disposition = ReceiptDisposition.gap }, record s { failed = true }, w)
  resolve n before (ReceiptDisposition.corrupt, s, w) next = (
    record { consumed = n; disposition = ReceiptDisposition.corrupt },
    record s { failed = true },
    w,
  )

  -- The loop over the bytes of a chunk, with the result so far.
  unfoldable pub scan_bytes :
      List ℕ
      → ReceiptScanResult
      → ReceiptScanner
      → World
      → ReceiptScanResult × ReceiptScanner × World
  unfolding take_byte resolve
  scan_bytes [] r s w = (r, s, w)
  scan_bytes (c ∷ cs) r s w =
      if s.offset == uint64_max
      then (record r { disposition = ReceiptDisposition.corrupt }, record s { failed = true }, w)
      else resolve (suc r.consumed) r.disposition
          (take_byte c (record s { offset = suc s.offset }) w) (scan_bytes cs)

  abbrev pub nothing_scanned : ReceiptScanResult
  nothing_scanned = record { consumed = 0; disposition = ReceiptDisposition.ignored }

  unfoldable pub scan_receipt_chunk :
      List ℕ → ReceiptScanner → World → ReceiptScanResult × ReceiptScanner × World
  unfolding scan_bytes
  scan_receipt_chunk bytes s w =
      if s.failed
      then (record { consumed = 0; disposition = ReceiptDisposition.corrupt }, s, w)
      else if s.awaiting
      then (record { consumed = 0; disposition = ReceiptDisposition.awaiting_submission }, s, w)
      else if ltb line_limit (length s.line)
      then (
        record { consumed = 0; disposition = ReceiptDisposition.corrupt },
        record s { failed = true },
        w,
      )
      else scan_bytes bytes nothing_scanned s w

unfoldable pub resume_receipt_scanner : ReceiptScanner → Bool × ReceiptScanner
resume_receipt_scanner s =
    if s.failed || not s.awaiting || not (length s.line == 0) || s.oversized
    then (false, s)
    else (true, record s { awaiting = false })
