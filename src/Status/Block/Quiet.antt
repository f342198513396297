-- ===== src/Status/Block/Quiet.antt =====
-- src/companion/steam_reporting_status_v3.cpp: a reader that no publication meets accepts the payload.
use rs2server_fix.Base.{
  ℕ, zero, suc, ◌+◌, ◌%◌, ◌≤◌, ◌≡◌, refl, sym, subst, ◌∙◌, ap, not, ◌||◌, List, [], ◌∷◌, ◌++◌,
  length, take, ltb, ◌==◌, length-append, taken, passed_over, arith,
}
use rs2server_fix.Status.Block.{Reader, Shared, Act, word, read_step, act, acts}
use rs2server_fix.Status.Block.Words.{take_next, take_all}

-- Accesses of the reader alone.
unfoldable pub reads : ℕ → List Act
reads zero = []
reads (suc k) = Act.read ∷ reads k

-- The state with another reader.
abbrev pub reading : Shared → Reader → Shared
reading s r = record s { reader = r }

-- One access of the reader, on its way.
step :
    (n k : ℕ) (s : Shared) (r r' : Reader)
    → read_step n s.block r ≡ r'
    → (acts n (reads (suc k)) (reading s r)).reader ≡ (acts n (reads k) (reading s r')).reader
unfolding reads acts act
step n k s r r' h = ap (λ x. (acts n (reads k) (reading s x)).reader) h

ended : (n : ℕ) (s : Shared) (r : Reader) → (acts n (reads 0) (reading s r)).reader ≡ r
unfolding reads acts
ended n s r = refl

-- The words copied are the front of the block, and the rest is copied and confirmed.
copied_rest :
    (n left : ℕ) (s : Shared) (c : List ℕ)
    → s.block.ready ≡ 1
    → s.block.sequence % 2 ≡ 0
    → length s.block.words ≡ n
    → length c + left ≡ n
    → c ≡ take (length c) s.block.words
    → (acts n (reads (suc (suc left))) (reading s (Reader.copying 2 s.block.sequence c))).reader
      ≡ Reader.accepted s.block.sequence s.block.words
unfolding read_step
copied_rest n zero s c ready even len sum front =
    let whole : c ≡ s.block.words =
      front ∙ take_all s.block.words (length c) (omega (arith, len, sum)) in
    step n 1 s _ (Reader.confirming 2 s.block.sequence c) (
      passed_over (ltb (length c) n) _ _ (ground arith)
      ∙ passed_over (not (s.block.sequence == s.block.sequence) || s.block.sequence % 2 == 1) _ _
          (ground arith))
    ∙ step n 0 s _ (Reader.accepted s.block.sequence c)
        (taken (s.block.ready == 1) _ _ (ground arith))
    ∙ ended n s _
    ∙ ap (λ w. Reader.accepted s.block.sequence w) whole
copied_rest n (suc left) s c ready even len sum front =
    let l = length-append c (word s.block.words (length c) ∷ []) in
    let m : length (c ++ word s.block.words (length c) ∷ []) ≡ suc (length c) = omega (arith, l) in
    step n (suc (suc left)) s _
      (Reader.copying 2 s.block.sequence (c ++ word s.block.words (length c) ∷ []))
      (taken (ltb (length c) n) _ _ (ground arith))
    ∙ copied_rest n left s (c ++ word s.block.words (length c) ∷ []) ready even len
        (omega (arith, m, sum))
        (rw m (
          ap (λ x. x ++ word s.block.words (length c) ∷ []) front
          ∙ take_next (length c) s.block.words (omega (arith, sum, len))))

-- A call on a ready block with a published payload, whose accesses meet no store, accepts that payload
-- with its sequence within four accesses more than the block has words.
pub quiet_call-accepted :
    (s : Shared)
    → s.block.ready ≡ 1
    → 2 ≤ s.block.sequence
    → s.block.sequence % 2 ≡ 0
    → (acts (length s.block.words) (Act.call ∷ reads (length s.block.words + 4)) s).reader
      ≡ Reader.accepted s.block.sequence s.block.words
unfolding acts act read_step
quiet_call-accepted s ready two even =
    let n = length s.block.words in
    let t : Shared = record s { oldest = s.block.sequence } in
    let e : n + 4 ≡ suc (suc (suc (suc n))) = omega arith in
    subst
      (λ k.
        (acts n (reads k) (reading t (Reader.probing 2))).reader
        ≡ Reader.accepted s.block.sequence s.block.words)
      (sym e)
      (step n (suc (suc (suc n))) t _ (Reader.opening 2)
          (taken (s.block.ready == 1) _ _ (ground arith))
        ∙ step n (suc (suc n)) t _ (Reader.copying 2 s.block.sequence [])
            (passed_over (ltb s.block.sequence 2 || s.block.sequence % 2 == 1) _ _ (ground arith))
        ∙ copied_rest n n t [] ready even refl (omega arith) refl)
