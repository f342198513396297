-- ===== src/Pipeline/Ledger.antt =====
-- src/companion/steam_reporting_pipeline.cpp: what holds of the ledger and the queue between any two
-- calls, and what an update of one home keeps of it.
use rs2server_fix.Base.{
  ℕ, ◌+◌, ◌-◌, ◌%◌, ◌≤◌, ◌<◌, ◌≡◌, ◌⊎◌, sym, subst, true, false, ◌&&◌, List, leb, ◌==◌, inl, inr,
  Bool-cases, ==→eq, taken, passed_over, arith,
}
use rs2server_fix.Pipeline.{
  LedgerState, NativeLedgerEntry, NativePipeline, home, ledger_valid, queue_valid,
}

-- The entry of a ticket that was announced: it carries the sequence of its ticket and a digest.
pub data Announced (ticket : ℕ) : NativeLedgerEntry → LedgerState → Type 0 where
  waiting :
      {e : NativeLedgerEntry} {digest : List ℕ}
      → e.sequence ≡ ticket
      → Announced ticket e (LedgerState.ready digest)
  found :
      {e : NativeLedgerEntry} {digest : List ℕ}
      → e.sequence ≡ ticket
      → Announced ticket e (LedgerState.matched digest)

pub sequence-Announced :
    (t : ℕ) (e : NativeLedgerEntry) (s : LedgerState) → Announced t e s → e.sequence ≡ t
sequence-Announced t e (LedgerState.ready d) (waiting h) = h
sequence-Announced t e (LedgerState.matched d) (found h) = h
sequence-Announced t e LedgerState.empty h = elim h [ ]
sequence-Announced t e LedgerState.reserved h = elim h [ ]
sequence-Announced t e (LedgerState.scalar r) h = elim h [ ]

-- The tickets of the ledger in order, each announced one in its home; as many frames as announced
-- tickets; receipts acknowledged in the order of the tickets, the bootstrap's first.
pub record Counters
    (ledger_read next_format ledger_write ready_read ready_write prepared observed_sequence startup
      held_match : ℕ)
    (ledger : ℕ → NativeLedgerEntry) : Type 0 where
  pub announced : ledger_read ≤ next_format
  pub drained : next_format ≤ ledger_write
  pub homes : ledger_write ≤ ledger_read + 256
  pub released : ready_read ≤ ready_write
  pub slots : ready_write ≤ ready_read + 8
  pub frames : ready_write ≡ next_format
  pub ordered : prepared + 1 ≡ next_format
  pub observed : observed_sequence + startup ≡ ledger_read
  pub first : (startup ≡ 0 × (observed_sequence ≡ 0)) ⊎ (startup ≡ 1)
  pub pending : (held_match ≡ 0) ⊎ (ledger_read < next_format)
  pub held :
      (t : ℕ)
      → ledger_read ≤ t
      → t < next_format
      → Announced t (ledger (t % 256)) (ledger (t % 256)).state

abbrev pub Orderly : NativePipeline → Type 0
Orderly p =
    Counters p.ledger_read p.next_format p.ledger_write p.ready_read p.ready_write
      p.prepared_sequence p.observed_sequence p.startup_observed p.held_match p.ledger

apart : (t u : ℕ) → t < u → u < t + 256 → (t % 256 == u % 256) ≡ false
apart t u a b = ground arith

apart_below : (t u : ℕ) → u < t → t < u + 256 → (t % 256 == u % 256) ≡ false
apart_below t u a b = ground arith

pub home_other : {A : Type 0} (i j : ℕ) (x : A) (f : ℕ → A) → (j == i) ≡ false → home i x f j ≡ f j
unfolding home
home_other i j x f e = passed_over (j == i) x (f j) e

pub home_same : {A : Type 0} (i : ℕ) (x : A) (f : ℕ → A) → home i x f i ≡ x
unfolding home
home_same i x f = taken (i == i) x (f i) (ground arith)

abbrev pub At : ℕ → NativeLedgerEntry → Type 0
At t e = Announced t e e.state

-- The home of another ticket less than the capacity away is as it was.
pub home_after :
    (t u : ℕ) (x : NativeLedgerEntry) (f : ℕ → NativeLedgerEntry)
    → t < u
    → u < t + 256
    → At t (f (t % 256))
    → At t (home (u % 256) x f (t % 256))
home_after t u x f a b h = subst (At t) (sym (home_other (u % 256) (t % 256) x f (apart t u a b))) h

pub home_before :
    (t u : ℕ) (x : NativeLedgerEntry) (f : ℕ → NativeLedgerEntry)
    → u < t
    → t < u + 256
    → At t (f (t % 256))
    → At t (home (u % 256) x f (t % 256))
home_before t u x f a b h =
    subst (At t) (sym (home_other (u % 256) (t % 256) x f (apart_below t u a b))) h

pub home_new :
    (t : ℕ) (x : NativeLedgerEntry) (f : ℕ → NativeLedgerEntry)
    → At t x
    → At t (home (t % 256) x f (t % 256))
home_new t x f h = subst (At t) (sym (home_same (t % 256) x f)) h

-- The tests of the code on the counters hold.
pub ledger_valid-Orderly : (p : NativePipeline) → Orderly p → ledger_valid p ≡ true
unfolding ledger_valid
ledger_valid-Orderly p h =
    let a = h.announced in
    let b = h.drained in let c = h.homes in ordered p.ledger_read p.next_format p.ledger_write a b c
  where
    ordered :
        (r n w : ℕ) → r ≤ n → n ≤ w → w ≤ r + 256 → (leb r n && leb n w && leb (w - r) 256) ≡ true
    ordered r n w a b c = ground arith

pub queue_valid-Orderly : (p : NativePipeline) → Orderly p → queue_valid p ≡ true
unfolding queue_valid
queue_valid-Orderly p h =
    let a = h.released in let b = h.slots in ordered p.ready_read p.ready_write a b
  where
    ordered : (r w : ℕ) → r ≤ w → w ≤ r + 8 → (leb r w && leb (w - r) 8) ≡ true
    ordered r w a b = ground arith

abbrev pub HeldFrom : ℕ → ℕ → (ℕ → NativeLedgerEntry) → Type 0
HeldFrom r n f = (t : ℕ) → r ≤ t → t < n → At t (f (t % 256))

home_there :
    (t u : ℕ) (x : NativeLedgerEntry) (f : ℕ → NativeLedgerEntry)
    → t ≡ u
    → At u x
    → At t (home (u % 256) x f (t % 256))
home_there t u x f e h = subst (λ v. At v (home (u % 256) x f (v % 256))) (sym e) (home_new u x f h)

-- One more ticket is announced.
pub held_next :
    (r n : ℕ) (x : NativeLedgerEntry) (f : ℕ → NativeLedgerEntry)
    → At n x
    → HeldFrom r n f
    → n < r + 256
    → HeldFrom r (n + 1) (home (n % 256) x f)
held_next r n x f new h room t a b = elim (Bool-cases (t == n)) [
  | inl e ↦ home_there t n x f (==→eq t n e) new
  | inr e ↦
      let lt : t < n = ground (arith, b, e) in
      home_after t n x f lt (omega (arith, a, room)) (h t a lt)
]

-- The entry of the first ticket is replaced.
pub held_first :
    (r n : ℕ) (x : NativeLedgerEntry) (f : ℕ → NativeLedgerEntry)
    → At r x
    → HeldFrom r n f
    → n ≤ r + 256
    → HeldFrom r n (home (r % 256) x f)
held_first r n x f new h room t a b = elim (Bool-cases (t == r)) [
  | inl e ↦ home_there t r x f (==→eq t r e) new
  | inr e ↦
      let gt : r < t = ground (arith, a, e) in
      home_before t r x f gt (omega (arith, b, room)) (h t a b)
]

-- The home of the first ticket is released.
pub held_rest :
    (r n : ℕ) (x : NativeLedgerEntry) (f : ℕ → NativeLedgerEntry)
    → HeldFrom r n f
    → n ≤ r + 256
    → HeldFrom (r + 1) n (home (r % 256) x f)
held_rest r n x f h room t a b =
    home_before t r x f (omega (arith, a)) (omega (arith, b, room)) (h t (omega (arith, a)) b)
