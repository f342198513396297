-- ===== src/Status/Block/Kept.antt =====
-- src/companion/steam_reporting_status_v3.cpp: what holds between the two sides of a block after every
-- act, and that every act keeps it.
use rs2server_fix.Base.{
  ℕ, zero, suc, ◌+◌, ◌%◌, ◌≤◌, ◌<◌, ◌≡◌, ◌⊎◌, refl, sym, subst, ◌∙◌, ap, false, not, ◌||◌, List, [],
  ◌∷◌, ◌++◌, length, take, ltb, ◌==◌, length-append, pick, arith,
}
use rs2server_fix.Status.Block.{Block, Writer, Reader, Shared, word, retry, read_step}
use rs2server_fix.Status.Block.Words.{take_next, take_all}

-- The payload `p` was published as a whole with the sequence `s`.
pub data Recorded (s : ℕ) (p : List ℕ) : List (ℕ × List ℕ) → Type 0 where
  here : {vs : List (ℕ × List ℕ)} → Recorded s p ((s, p) ∷ vs)
  there : {v : ℕ × List ℕ} {vs : List (ℕ × List ℕ)} → Recorded s p vs → Recorded s p (v ∷ vs)

-- The block holds a whole payload, or none yet.
pub record Whole (b : Block) (done : List (ℕ × List ℕ)) : Type 0 where
  pub even : b.sequence % 2 ≡ 0
  pub held : 2 ≤ b.sequence → Recorded b.sequence b.words done

pub record Between (n : ℕ) (b : Block) (before k : ℕ) (p : List ℕ) : Type 0 where
  pub even : before % 2 ≡ 0
  pub odd : b.sequence ≡ before + 1
  pub stored : take k b.words ≡ take k p
  pub size : length p ≡ n
  pub room : k ≤ n
  pub claimed : 1 ≤ b.ready

unfoldable pub WriterHolds : ℕ → Block → List (ℕ × List ℕ) → Writer → Type 0
WriterHolds n b done Writer.resting = Whole b done × ((1 ≤ b.ready) ⊎ (b.sequence ≡ 0))
WriterHolds n b done (Writer.storing before k p first) = Between n b before k p
WriterHolds n b done Writer.announcing = Whole b done × ((1 ≤ b.ready) ⊎ (b.sequence ≡ 0))

-- What a reader has copied is the front of the payload, as long as the sequence stays.
pub record Copying (n sequence : ℕ) (words : List ℕ) (done : List (ℕ × List ℕ)) (oldest before : ℕ)
    (copied : List ℕ) : Type 0 where
  pub new : oldest ≤ before
  pub passed : before ≤ sequence
  pub started : 2 ≤ before
  pub even : before % 2 ≡ 0
  pub short : length copied ≤ n
  pub front : before ≡ sequence → (copied ≡ take (length copied) words) × Recorded before words done

unfoldable pub ReaderHolds : ℕ → ℕ → List ℕ → List (ℕ × List ℕ) → ℕ → Reader → Type 0
ReaderHolds n sequence words done oldest (Reader.probing retries) = oldest ≤ sequence
ReaderHolds n sequence words done oldest (Reader.opening retries) = oldest ≤ sequence
ReaderHolds n sequence words done oldest (Reader.copying retries before copied) =
    Copying n sequence words done oldest before copied
ReaderHolds n sequence words done oldest (Reader.confirming retries before copied) =
    Recorded before copied done × (oldest ≤ before) × (before ≤ sequence)
ReaderHolds n sequence words done oldest (Reader.accepted s copied) =
    Recorded s copied done × (oldest ≤ s) × (s ≤ sequence)
ReaderHolds n sequence words done oldest Reader.refused = oldest ≤ sequence

pub record Holds (n : ℕ) (s : Shared) : Type 0 where
  pub sized : length s.block.words ≡ n
  pub writing : WriterHolds n s.block s.published s.writer
  pub reading : ReaderHolds n s.block.sequence s.block.words s.published s.oldest s.reader

-- A store of the writer that raises the sequence, or leaves it odd, harms no reader.
pub reader_after :
    (n q q' : ℕ) (ws ws' : List ℕ) (d d' : List (ℕ × List ℕ)) (o : ℕ) (r : Reader)
    → q ≤ q'
    → ((b : ℕ) → b ≤ q → b % 2 ≡ 0 → 2 ≤ b → (b ≡ q') → 1 ≤ 0)
    → ((s : ℕ) (p : List ℕ) → Recorded s p d → Recorded s p d')
    → ReaderHolds n q ws d o r
    → ReaderHolds n q' ws' d' o r
unfolding ReaderHolds
reader_after n q q' ws ws' d d' o (Reader.probing k) le gone more h = omega (arith, h, le)
reader_after n q q' ws ws' d d' o (Reader.opening k) le gone more h = omega (arith, h, le)
reader_after n q q' ws ws' d d' o (Reader.copying k b c) le gone more h =
    let p = h.passed in
    record {
      new = h.new;
      passed = omega (arith, p, le);
      started = h.started;
      even = h.even;
      short = h.short;
      front = λ e. absurd (let z = gone b p h.even h.started e in omega (arith, z));
    }
reader_after n q q' ws ws' d d' o (Reader.confirming k b c) le gone more h =
    (more b c h.0, h.1, let p = h.2 in omega (arith, p, le))
reader_after n q q' ws ws' d d' o (Reader.accepted b c) le gone more h =
    (more b c h.0, h.1, let p = h.2 in omega (arith, p, le))
reader_after n q q' ws ws' d d' o Reader.refused le gone more h = omega (arith, h, le)

retry_holds :
    (n q : ℕ) (ws : List ℕ) (d : List (ℕ × List ℕ)) (o k : ℕ)
    → o ≤ q
    → ReaderHolds n q ws d o (retry k)
unfolding ReaderHolds retry
retry_holds n q ws d o zero h = h
retry_holds n q ws d o (suc k) h = h

-- While the sequence is even the block is whole.
even_Whole :
    (n : ℕ) (b : Block) (d : List (ℕ × List ℕ)) (w : Writer)
    → WriterHolds n b d w
    → b.sequence % 2 ≡ 0
    → Whole b d
unfolding WriterHolds
even_Whole n b d Writer.resting h e = h.0
even_Whole n b d (Writer.storing before k p first) h e =
    absurd (let a = h.even in let o = h.odd in omega (arith, a, o, e))
even_Whole n b d Writer.announcing h e = h.0

fits_even : (q : ℕ) → (ltb q 2 || q % 2 == 1) ≡ false → (2 ≤ q) × (q % 2 ≡ 0)
fits_even q h = (ground arith, ground arith)

unchanged : (b q : ℕ) → (not (b == q) || q % 2 == 1) ≡ false → b ≡ q
unchanged b q h = ground arith

pub read_step-Kept :
    (n : ℕ) (b : Block) (w : Writer) (d : List (ℕ × List ℕ)) (o : ℕ) (r : Reader)
    → length b.words ≡ n
    → WriterHolds n b d w
    → ReaderHolds n b.sequence b.words d o r
    → ReaderHolds n b.sequence b.words d o (read_step n b r)
unfolding ReaderHolds read_step
read_step-Kept n b w d o (Reader.probing k) len hw h =
    pick (ReaderHolds n b.sequence b.words d o) (b.ready == 1) (Reader.opening k) Reader.refused
      (λ _. h) (λ _. h)
read_step-Kept n b w d o (Reader.opening k) len hw h =
    pick (ReaderHolds n b.sequence b.words d o) (ltb b.sequence 2 || b.sequence % 2 == 1) (retry k)
      (Reader.copying k b.sequence []) (λ _. retry_holds n b.sequence b.words d o k h)
      λ e.
        let f = fits_even b.sequence e in
        record {
          new = h;
          passed = omega arith;
          started = f.0;
          even = f.1;
          short = omega arith;
          front = λ _. (refl, (even_Whole n b d w hw f.1).held f.0);
        }
read_step-Kept n b w d o (Reader.copying k before c) len hw h =
    let le = h.passed in
    let new = h.new in
    pick (ReaderHolds n b.sequence b.words d o) (ltb (length c) n) _ _
      (λ e.
        let lt : length c < n = ground arith in
        record {
          new = new;
          passed = le;
          started = h.started;
          even = h.even;
          short = let l = length-append c (word b.words (length c) ∷ []) in omega (arith, l, lt);
          front = λ same.
              let f = h.front same in
              let l = length-append c (word b.words (length c) ∷ []) in
              let m : length (c ++ word b.words (length c) ∷ []) ≡ suc (length c) =
                omega (arith, l) in
              (
                rw m (
                    ap (λ x. x ++ word b.words (length c) ∷ []) f.0
                    ∙ take_next (length c) b.words (omega (arith, lt, len))),
                f.1,
              );
        })
      λ e.
        pick (ReaderHolds n b.sequence b.words d o)
          (not (before == b.sequence) || b.sequence % 2 == 1) _ _
          (λ _. retry_holds n b.sequence b.words d o k (omega (arith, new, le)))
          λ e'.
            let same = unchanged before b.sequence e' in
            let f = h.front same in
            let full : length b.words ≤ length c = ground (arith, len) in
            let whole : c ≡ b.words = f.0 ∙ take_all b.words (length c) full in
            (subst (λ x. Recorded before x d) (sym whole) f.1, new, le)
read_step-Kept n b w d o (Reader.confirming k before c) len hw h =
    pick (ReaderHolds n b.sequence b.words d o) (b.ready == 1) (Reader.accepted before c) (retry k)
      (λ _. h)
      λ _.
        retry_holds n b.sequence b.words d o k (let x = h.1 in let y = h.2 in omega (arith, x, y))
read_step-Kept n b w d o (Reader.accepted s c) len hw h = h
read_step-Kept n b w d o Reader.refused len hw h = h
