-- ===== src/Receipts/Sound.antt =====
-- src/companion/steam_reporting_receipts.cpp: what a scan consumes, and how chunks join.
use rs2server_fix.Base.{
  ℕ, suc, ◌+◌, ◌≤◌, ◌≡◌, refl, subst, Bool, true, false, not, List, [], ◌∷◌, ◌++◌, ltb, ◌==◌,
  if◌then◌else◌, length, length-append, arith,
}
use rs2server_fix.Types.{uint64_max}
use rs2server_fix.Framing.{line_limit}
use rs2server_fix.Receipts.{
  ReceiptDisposition, ReceiptScanner, ReceiptScanResult, keep, cleared, take_byte, resolve,
  scan_bytes, scan_receipt_chunk, nothing_scanned,
}

module _ {World : Type 0} (match : List ℕ → World → ReceiptDisposition × World) where
  -- The offset of the scanner is the place after the bytes consumed, and the kept line fits.
  pub record Advanced (before n count : ℕ) (x : ReceiptScanResult × ReceiptScanner × World)
      : Type 0 where
    pub offset : x.1.offset + n ≡ before + x.0.consumed
    pub least : n ≤ x.0.consumed
    pub most : x.0.consumed ≤ n + count
    pub fits : length x.1.line ≤ line_limit

  -- The offset is as given, and the kept line fits.
  record Fits (offset : ℕ) (s : ReceiptScanner) : Type 0 where
    same : s.offset ≡ offset
    short : length s.line ≤ line_limit

  either_line :
      (o : ℕ) (b : Bool) (x y : ReceiptScanner)
      → (b ≡ true → Fits o x)
      → (b ≡ false → Fits o y)
      → Fits o (if b then x else y)
  either_line o true x y h k = h refl
  either_line o false x y h k = k refl

  either_result :
      (o : ℕ) (b : Bool) (x y : ReceiptDisposition × ReceiptScanner × World)
      → Fits o x.1
      → Fits o y.1
      → Fits o (if b then x else y).1
  either_result o true x y h k = h
  either_result o false x y h k = k

  one_longer :
      (c : ℕ) (cs : List ℕ)
      → ltb (length cs) line_limit ≡ true
      → length (cs ++ (c ∷ [])) ≤ line_limit
  one_longer c cs h =
      let e = length-append cs (c ∷ []) in
      let below : length cs + 1 ≤ line_limit = ground arith in omega (arith, e)

  keep-Fits :
      (c : ℕ) (s : ReceiptScanner) → length s.line ≤ line_limit → Fits s.offset (keep match c s)
  unfolding keep
  keep-Fits c s h =
      either_line s.offset (ltb (length s.line) line_limit) _ _
        (λ e. record { same = refl; short = one_longer c s.line e })
        (λ _. record { same = refl; short = h })

  -- A byte leaves the offset as it is, and keeps the line within its storage.
  take_byte-Fits :
      (c : ℕ) (s : ReceiptScanner) (w : World)
      → length s.line ≤ line_limit
      → Fits s.offset (take_byte match c s w).1
  unfolding take_byte cleared
  take_byte-Fits c s w h =
      let kept = keep-Fits c s h in
      either_result s.offset s.skip_initial_suffix _ _
        (either_line s.offset (c == 0x0a) _ _ (λ _. record { same = refl; short = h })
          (λ _. record { same = refl; short = h }))
        (either_result s.offset (not (c == 0x0a)) _ _ kept
          (record { same = kept.same; short = omega arith }))

  resolve-Advanced :
      (before n count : ℕ) (d : ReceiptDisposition)
      (x : ReceiptDisposition × ReceiptScanner × World)
      (next : ReceiptScanResult
        → ReceiptScanner
        → World
        → ReceiptScanResult × ReceiptScanner × World)
      → Fits (suc before) x.1
      → ((r : ReceiptScanResult)
          → r.consumed ≡ suc n
          → Advanced x.1.offset (suc n) count (next r x.1 x.2))
      → Advanced before n (suc count) (resolve match (suc n) d x next)
  unfolding resolve
  resolve-Advanced before n count d (ReceiptDisposition.ignored, s, w) next h rule =
      let a = rule (record { consumed = suc n; disposition = d }) refl in
      let e = h.same in
      let moved = a.offset in
      let least = a.least in
      let most = a.most in
      record {
        offset = omega (arith, e, moved);
        least = omega (arith, least);
        most = omega (arith, most);
        fits = a.fits;
      }
  resolve-Advanced before n count d (ReceiptDisposition.accepted, s, w) next h rule =
      let a = rule (record { consumed = suc n; disposition = ReceiptDisposition.accepted }) refl in
      let e = h.same in
      let moved = a.offset in
      let least = a.least in
      let most = a.most in
      record {
        offset = omega (arith, e, moved);
        least = omega (arith, least);
        most = omega (arith, most);
        fits = a.fits;
      }
  resolve-Advanced before n count d (ReceiptDisposition.awaiting_submission, s, w) next h rule =
      let e = h.same in
      record { offset = omega (arith, e); least = omega arith; most = omega arith; fits = h.short }
  resolve-Advanced before n count d (ReceiptDisposition.gap, s, w) next h rule =
      let e = h.same in
      record { offset = omega (arith, e); least = omega arith; most = omega arith; fits = h.short }
  resolve-Advanced before n count d (ReceiptDisposition.corrupt, s, w) next h rule =
      let e = h.same in
      record { offset = omega (arith, e); least = omega arith; most = omega arith; fits = h.short }

  either_scan :
      (o n count : ℕ) (b : Bool) (x y : ReceiptScanResult × ReceiptScanner × World)
      → Advanced o n count x
      → Advanced o n count y
      → Advanced o n count (if b then x else y)
  either_scan o n count true x y h k = h
  either_scan o n count false x y h k = k

  scan_bytes-Advanced :
      (cs : List ℕ) (r : ReceiptScanResult) (s : ReceiptScanner) (w : World)
      → length s.line ≤ line_limit
      → Advanced s.offset r.consumed (length cs) (scan_bytes match cs r s w)
  unfolding scan_bytes
  scan_bytes-Advanced [] r s w h = record {
    offset = omega arith;
    least = omega arith;
    most = omega arith;
    fits = h;
  }
  scan_bytes-Advanced (c ∷ cs) r s w h =
      let fit = take_byte-Fits c (record s { offset = suc s.offset }) w h in
      let x = take_byte match c (record s { offset = suc s.offset }) w in
      either_scan s.offset r.consumed (suc (length cs)) (s.offset == uint64_max) _ _
        (record { offset = omega arith; least = omega arith; most = omega arith; fits = h })
        (resolve-Advanced s.offset r.consumed (length cs) r.disposition x (scan_bytes match cs) fit
          λ q e.
            subst (λ n. Advanced x.1.offset n (length cs) (scan_bytes match cs q x.1 x.2)) e
              (scan_bytes-Advanced cs q x.1 x.2 fit.short))

  -- A scan consumes at most the chunk; the scanner's offset advances by exactly the bytes consumed,
  -- so that a later read at that offset misses none and repeats none; and the kept line stays within
  -- its storage, if it was before, however long the lines are and whatever the matching does.
  pub scan_receipt_chunk-offset :
      (bytes : List ℕ) (s : ReceiptScanner) (w : World)
      → length s.line ≤ line_limit
      → let x = scan_receipt_chunk match bytes s w in
        (x.1.offset ≡ s.offset + x.0.consumed)
        × (x.0.consumed ≤ length bytes)
        × (length x.1.line ≤ line_limit)
  unfolding scan_receipt_chunk
  scan_receipt_chunk-offset bytes s w h =
      let n = length bytes in
      let a =
        either_scan s.offset 0 n s.failed _ _
          (record { offset = omega arith; least = omega arith; most = omega arith; fits = h })
          (either_scan s.offset 0 n s.awaiting _ _
            (record { offset = omega arith; least = omega arith; most = omega arith; fits = h })
            (either_scan s.offset 0 n (ltb line_limit (length s.line)) _ _
              (record { offset = omega arith; least = omega arith; most = omega arith; fits = h })
              (scan_bytes-Advanced bytes (nothing_scanned match) s w h))) in
      let moved = a.offset in
      let most = a.most in (omega (arith, moved), omega (arith, most), a.fits)
