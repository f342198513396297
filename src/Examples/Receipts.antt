-- ===== src/Examples/Receipts.antt =====
-- A chunk of a log that holds one short line of another program, and a byte of the next one.
use rs2server_fix.Base.{ℕ, ◌+◌, ◌≤◌, ◌≡◌, List, [], ◌∷◌, false, length, arith}
use rs2server_fix.Framing.{log_only, line_limit}
use rs2server_fix.Receipts.{ReceiptDisposition, ReceiptScanner, scan_receipt_chunk}
use rs2server_fix.Receipts.Sound.{scan_receipt_chunk-offset}

-- The matching counts its calls and accepts all.
abbrev count_calls : List ℕ → ℕ → ReceiptDisposition × ℕ
count_calls message n = (ReceiptDisposition.accepted, n + 1)

abbrev scanner : ReceiptScanner
scanner = record {
  offset = 100;
  prefix_mode = log_only;
  run_id = [];
  skip_initial_suffix = false;
  oversized = false;
  awaiting = false;
  failed = false;
  line = [];
}

abbrev chunk : List ℕ
chunk = b'h' ∷ b'i' ∷ 0x0d ∷ 0x0a ∷ b'L' ∷ []

scan_receipt_chunk-offset_example :
    let x = scan_receipt_chunk count_calls chunk scanner 0 in
    (x.1.offset ≡ 100 + x.0.consumed) × (x.0.consumed ≤ 5) × (length x.1.line ≤ line_limit)
scan_receipt_chunk-offset_example =
    scan_receipt_chunk-offset count_calls chunk scanner 0 (omega arith)
