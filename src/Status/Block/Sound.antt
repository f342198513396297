-- ===== src/Status/Block/Sound.antt =====
-- src/companion/steam_reporting_status_v3.cpp: no reader accepts a torn copy of a published block.
use rs2server_fix.Base.{
  ℕ, ◌+◌, ◌%◌, ◌≤◌, ◌<◌, ◌≡◌, inl, inr, refl, sym, subst, ◌∙◌, Bool, true, false, ◌&&◌, List, [],
  ◌∷◌, length, ltb, ◌==◌, if◌then◌else◌, ==→eq, pick, &&→both, arith,
}
use rs2server_fix.Status.{may_publish}
use rs2server_fix.Status.Block.{
  Block, Writer, Reader, Shared, Act, word, write_step, initialize_step, publish_step, written, act,
  acts, fresh,
}
use rs2server_fix.Status.Block.Words.{length-put, length-zeros, take-put, take_all}
use rs2server_fix.Status.Block.Kept.{
  Recorded, here, there, Whole, Between, WriterHolds, ReaderHolds, Holds, reader_after,
  read_step-Kept,
}

-- The first store of a publication makes the sequence odd.
started-Holds :
    (n : ℕ) (s : Shared) (b : Block) (p : List ℕ) (first : Bool) (before : ℕ)
    → Holds n s
    → length p ≡ n
    → before % 2 ≡ 0
    → b.sequence ≡ before + 1
    → 1 ≤ b.ready
    → s.block.sequence ≤ before
    → b.words ≡ s.block.words
    → Holds n (written (b, Writer.storing before 0 p first) s)
unfolding WriterHolds written
started-Holds n s b p first before h size even odd claimed le same = record {
  sized = rw same h.sized;
  writing = record {
    even = even;
    odd = odd;
    stored = refl;
    size = size;
    room = omega arith;
    claimed = claimed;
  };
  reading =
      reader_after n s.block.sequence b.sequence s.block.words b.words s.published s.published
        s.oldest s.reader (omega (arith, le, odd))
        (λ c at ev two eq. omega (arith, at, odd, le, eq)) (λ _ _ r. r) h.reading;
}

may_publish_even : (q : ℕ) → may_publish q ≡ true → q % 2 ≡ 0
unfolding may_publish
may_publish_even q h = ground arith

initialize_step-Holds :
    (n : ℕ) (s : Shared) (p : List ℕ) (w : Writer)
    → s.writer ≡ w
    → Holds n s
    → length p ≡ n
    → Holds n (written (initialize_step s.block p w) s)
unfolding initialize_step WriterHolds written
initialize_step-Holds n s p Writer.resting e h size =
    let ws : WriterHolds n s.block s.published Writer.resting =
      subst (WriterHolds n s.block s.published) e h.writing in
    pick (λ r. Holds n (written r s)) (s.block.ready == 0) _ _
      (λ t.
        started-Holds n s _ p true 0 h size refl refl (omega arith)
          (elim ws.1 [ inl c ↦ ground (arith, c) | inr z ↦ omega (arith, z) ]) refl)
      λ _. record { sized = h.sized; writing = ws; reading = h.reading }
initialize_step-Holds n s p (Writer.storing b k q f) e h size = record {
  sized = h.sized;
  writing = subst (WriterHolds n s.block s.published) e h.writing;
  reading = h.reading;
}
initialize_step-Holds n s p Writer.announcing e h size = record {
  sized = h.sized;
  writing = subst (WriterHolds n s.block s.published) e h.writing;
  reading = h.reading;
}

publish_step-Holds :
    (n : ℕ) (s : Shared) (p : List ℕ) (w : Writer)
    → s.writer ≡ w
    → Holds n s
    → length p ≡ n
    → Holds n (written (publish_step s.block p w) s)
unfolding publish_step WriterHolds written
publish_step-Holds n s p Writer.resting e h size =
    let ws : WriterHolds n s.block s.published Writer.resting =
      subst (WriterHolds n s.block s.published) e h.writing in
    pick (λ r. Holds n (written r s)) (s.block.ready == 1 && may_publish s.block.sequence) _ _
      (λ t.
        let both = &&→both _ _ t in
        let ready = ==→eq s.block.ready 1 both.0 in
        started-Holds n s _ p false s.block.sequence h size (may_publish_even _ both.1) refl
          (omega (arith, ready)) (omega arith) refl)
      λ _. record { sized = h.sized; writing = ws; reading = h.reading }
publish_step-Holds n s p (Writer.storing b k q f) e h size = record {
  sized = h.sized;
  writing = subst (WriterHolds n s.block s.published) e h.writing;
  reading = h.reading;
}
publish_step-Holds n s p Writer.announcing e h size = record {
  sized = h.sized;
  writing = subst (WriterHolds n s.block s.published) e h.writing;
  reading = h.reading;
}

-- The state after a store of the writer.
abbrev stored : Shared → Block × Writer × List (ℕ × List ℕ) → Shared
stored s r = record s { block = r.0; writer = r.1; published = r.2 }

rested :
    (n : ℕ) (b : Block) (d : List (ℕ × List ℕ)) (first : Bool)
    → Whole b d
    → 1 ≤ b.ready
    → WriterHolds n b d (if first then Writer.announcing else Writer.resting)
unfolding WriterHolds
rested n b d true w r = (w, inl r)
rested n b d false w r = (w, inl r)

write_step-Holds :
    (n : ℕ) (s : Shared) (w : Writer)
    → s.writer ≡ w
    → Holds n s
    → Holds n (stored s (write_step n s.block s.published w))
unfolding write_step WriterHolds
write_step-Holds n s Writer.resting e h = record {
  sized = h.sized;
  writing = subst (WriterHolds n s.block s.published) e h.writing;
  reading = h.reading;
}
write_step-Holds n s (Writer.storing before k p first) e h =
    let ws : Between n s.block before k p = subst (WriterHolds n s.block s.published) e h.writing in
    let even = ws.even in
    let odd = ws.odd in
    let sized = h.sized in
    let size = ws.size in
    let room = ws.room in
    let claimed = ws.claimed in
    pick (λ r. Holds n (stored s r)) (ltb k n) _ _
      (λ t.
        let lt : k < n = ground arith in
        record {
          sized = length-put k (word p k) s.block.words ∙ sized;
          writing = record {
            even = even;
            odd = odd;
            stored =
                take-put k s.block.words p ws.stored (omega (arith, lt, sized))
                  (omega (arith, lt, size));
            size = size;
            room = omega (arith, lt);
            claimed = claimed;
          };
          reading =
              reader_after n s.block.sequence s.block.sequence s.block.words _ s.published
                s.published s.oldest s.reader (omega arith)
                (λ c at ev two eq. omega (arith, ev, eq, odd, even)) (λ _ _ r. r) h.reading;
        })
      λ t.
        let full : n ≤ k = ground arith in
        let whole : s.block.words ≡ p =
          sym (take_all s.block.words k (omega (arith, full, sized)))
          ∙ ws.stored
          ∙ take_all p k (omega (arith, full, size)) in
        record {
          sized = sized;
          writing =
              rested n _ _ first
                (record {
                  even = omega (arith, even);
                  held = λ _.
                      subst (λ x. Recorded (before + 2) x ((before + 2, p) ∷ s.published))
                        (sym whole) here;
                })
                claimed;
          reading =
              reader_after n s.block.sequence (before + 2) s.block.words _ s.published _ s.oldest
                s.reader (omega (arith, odd)) (λ c at ev two eq. omega (arith, at, odd, eq))
                (λ _ _ r. there r) h.reading;
        }
write_step-Holds n s Writer.announcing e h = record {
  sized = h.sized;
  writing =
      let w = subst (WriterHolds n s.block s.published) e h.writing in
      (record { even = w.0.even; held = w.0.held }, inl (omega arith));
  reading = h.reading;
}

act-Holds : (n : ℕ) (a : Act) (s : Shared) → Holds n s → Holds n (act n a s)
unfolding act ReaderHolds
act-Holds n (Act.initialize p) s h =
    pick (Holds n) (length p == n) _ _
      (λ e. initialize_step-Holds n s p s.writer refl h (==→eq _ _ e)) (λ _. h)
act-Holds n (Act.publish p) s h =
    pick (Holds n) (length p == n) _ _ (λ e. publish_step-Holds n s p s.writer refl h (==→eq _ _ e))
      (λ _. h)
act-Holds n Act.write s h = write_step-Holds n s s.writer refl h
act-Holds n Act.call s h = record { sized = h.sized; writing = h.writing; reading = omega arith }
act-Holds n Act.read s h = record {
  sized = h.sized;
  writing = h.writing;
  reading =
      read_step-Kept n s.block s.writer s.published s.oldest s.reader h.sized h.writing h.reading;
}

acts-Holds : (n : ℕ) (made : List Act) (s : Shared) → Holds n s → Holds n (acts n made s)
unfolding acts
acts-Holds n [] s h = h
acts-Holds n (a ∷ rest) s h = acts-Holds n rest (act n a s) (act-Holds n a s h)

fresh-Holds : (n : ℕ) → Holds n (fresh n)
unfolding fresh WriterHolds ReaderHolds
fresh-Holds n = record {
  sized = length-zeros n;
  writing = (record { even = refl; held = λ h. absurd (omega (arith, h)) }, inr refl);
  reading = omega arith;
}

-- However the accesses of a writer and a reader of a block of n words interleave, from the zeroed block
-- on, a copy that the reader accepts with a sequence is the whole payload published with that sequence,
-- and the sequence is not below that of the block when the call of the reader began.
pub acts-Recorded :
    (n : ℕ) (interleaving : List Act) (q : ℕ) (copy : List ℕ)
    → (acts n interleaving (fresh n)).reader ≡ Reader.accepted q copy
    → Recorded q copy (acts n interleaving (fresh n)).published
      × ((acts n interleaving (fresh n)).oldest ≤ q)
unfolding ReaderHolds
acts-Recorded n interleaving q copy e =
    let s = acts n interleaving (fresh n) in
    let h = acts-Holds n interleaving (fresh n) (fresh-Holds n) in
    let r : ReaderHolds n s.block.sequence s.block.words s.published s.oldest
        (Reader.accepted q copy) =
      subst (ReaderHolds n s.block.sequence s.block.words s.published s.oldest) e h.reading in
    (r.0, r.1)
