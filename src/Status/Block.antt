-- ===== src/Status/Block.antt =====
-- src/companion/steam_reporting_status_v3.cpp: the words of one published block, shared by its writer
-- and a reader. `StartPublication`, `StoreWords` and the closing store are the writer's accesses,
-- `ReadOwnerV3` with `LoadWords` the reader's. Every act below makes one access to a shared word that
-- the other side may write, so a list of acts is an interleaving of the two sides; the aligned
-- releasing stores and acquiring loads keep the program order of each side.
use rs2server_fix.Base.{
  ℕ, zero, suc, ◌+◌, ◌%◌, ◌^◌, Bool, true, false, not, ◌&&◌, ◌||◌, List, [], ◌∷◌, ◌++◌, length, ltb,
  leb, ◌==◌, if◌then◌else◌,
}
use rs2server_fix.Status.{may_publish}
pub mod Words
pub mod Kept
pub mod Sound
pub mod Quiet

-- `headerReady`, the sequence of the block and its words.
pub record Block : Type 0 where
  pub ready : ℕ
  pub sequence : ℕ
  pub words : List ℕ

-- A 64-bit word of a payload, 0 out of range, where the source never reads.
unfoldable pub word : List ℕ → ℕ → ℕ
word [] k = 0
word (x ∷ xs) zero = x
word (x ∷ xs) (suc k) = word xs k

-- A word is stored; out of range nothing is.
unfoldable pub put : ℕ → ℕ → List ℕ → List ℕ
put k v [] = []
put zero v (x ∷ xs) = v ∷ xs
put (suc k) v (x ∷ xs) = x ∷ put k v xs

-- `storing before k payload first`: the sequence before, the number of words stored, and whether this
-- is the publication of `InitializeStatusV3`, after which the header is `announced`.
pub data Writer : Type 0 where
  resting : Writer
  storing : ℕ → ℕ → List ℕ → Bool → Writer
  announcing : Writer

-- `copying retries before copied`, with the retries left after this one.
pub data Reader : Type 0 where
  probing : ℕ → Reader
  opening : ℕ → Reader
  copying : ℕ → ℕ → List ℕ → Reader
  confirming : ℕ → ℕ → List ℕ → Reader
  accepted : ℕ → List ℕ → Reader
  refused : Reader

-- The next round of the loop.
unfoldable pub retry : ℕ → Reader
retry zero = Reader.refused
retry (suc retries) = Reader.probing retries

-- The next access of `ReadOwnerV3` to a block of `size` words.
unfoldable pub read_step : ℕ → Block → Reader → Reader
unfolding retry word
read_step size b (Reader.probing retries) =
    if b.ready == 1 then Reader.opening retries else Reader.refused
read_step size b (Reader.opening retries) =
    if ltb b.sequence 2 || b.sequence % 2 == 1
    then retry retries
    else Reader.copying retries b.sequence []
read_step size b (Reader.copying retries before copied) =
    if ltb (length copied) size
    then Reader.copying retries before (copied ++ word b.words (length copied) ∷ [])
    else if not (before == b.sequence) || b.sequence % 2 == 1
    then retry retries
    else Reader.confirming retries before copied
read_step size b (Reader.confirming retries before copied) =
    if b.ready == 1 then Reader.accepted before copied else retry retries
read_step size b (Reader.accepted s copied) = Reader.accepted s copied
read_step size b Reader.refused = Reader.refused

-- The two sides. `published` lists the payloads whose publication is complete, the last first, each
-- with its sequence, and `oldest` is the sequence of the block when the call of the reader began: no
-- access reads either.
pub record Shared : Type 0 where
  pub block : Block
  pub writer : Writer
  pub reader : Reader
  pub published : List (ℕ × List ℕ)
  pub oldest : ℕ

-- The next store of the writer.
unfoldable pub write_step :
    ℕ → Block → List (ℕ × List ℕ) → Writer → Block × Writer × List (ℕ × List ℕ)
unfolding put word
write_step size b done Writer.resting = (b, Writer.resting, done)
write_step size b done (Writer.storing before k payload first) =
    if ltb k size
    then (
      record b { words = put k (word payload k) b.words },
      Writer.storing before (suc k) payload first,
      done,
    )
    else (
      record b { sequence = before + 2 },
      if first then Writer.announcing else Writer.resting,
      (before + 2, payload) ∷ done,
    )
write_step size b done Writer.announcing = (record b { ready = 1 }, Writer.resting, done)

-- The first stores of `InitializeStatusV3`, which claims the header, and of a later publication.
unfoldable pub initialize_step : Block → List ℕ → Writer → Block × Writer
initialize_step b payload Writer.resting =
    if b.ready == 0
    then (record b { ready = 2; sequence = 1 }, Writer.storing 0 0 payload true)
    else (b, Writer.resting)
initialize_step b payload w = (b, w)

unfoldable pub publish_step : Block → List ℕ → Writer → Block × Writer
unfolding may_publish
publish_step b payload Writer.resting =
    if b.ready == 1 && may_publish b.sequence
    then (record b { sequence = b.sequence + 1 }, Writer.storing b.sequence 0 payload false)
    else (b, Writer.resting)
publish_step b payload w = (b, w)

-- A payload has the size of the block.
pub data Act : Type 0 where
  initialize publish : List ℕ → Act
  write : Act
  call read : Act

unfoldable pub written : Block × Writer → Shared → Shared
written r s = record s { block = r.0; writer = r.1 }

unfoldable pub act : ℕ → Act → Shared → Shared
unfolding initialize_step publish_step write_step read_step written
act size (Act.initialize payload) s =
    if length payload == size then written (initialize_step s.block payload s.writer) s else s
act size (Act.publish payload) s =
    if length payload == size then written (publish_step s.block payload s.writer) s else s
act size Act.write s =
    let r = write_step size s.block s.published s.writer in
    record s { block = r.0; writer = r.1; published = r.2 }
act size Act.call s = record s { reader = Reader.probing 2; oldest = s.block.sequence }
act size Act.read s = record s { reader = read_step size s.block s.reader }

unfoldable pub acts : ℕ → List Act → Shared → Shared
unfolding act
acts size [] s = s
acts size (a ∷ rest) s = acts size rest (act size a s)

unfoldable pub zeros : ℕ → List ℕ
zeros zero = []
zeros (suc n) = 0 ∷ zeros n

-- A zeroed block, before its initialisation.
unfoldable pub fresh : ℕ → Shared
unfolding zeros
fresh size = record {
  block = record { ready = 0; sequence = 0; words = zeros size };
  writer = Writer.resting;
  reader = Reader.refused;
  published = [];
  oldest = 0;
}
