-- ===== src/Image/Sound.antt =====
-- What a region check that passes says of the memory, given that the memory calls tell the truth.
use rs2server_fix.Base.{
  ℕ, zero, suc, ◌+◌, ◌≤◌, ◌<◌, ◌≡◌, ◌≢◌, refl, ap, ◌⊎◌, true, List, [], ◌∷◌, arith,
}
use rs2server_fix.Image.{
  MemoryRegion, Reply, MemoryOps, Session, in_range, region_fits, region_loop, regions,
  read_image_range, image_range_protection, address, least, told, succeed, error_invalid_address,
}

-- The memory as the program's own instructions would see it.
pub record Memory : Type 0 where
  pub byte : ℕ → ℕ
  pub protection : ℕ → ℕ

abbrev pub bytes_at : (ℕ → ℕ) → ℕ → ℕ → List ℕ
bytes_at byte a zero = []
bytes_at byte a (suc n) = byte a ∷ bytes_at byte (suc a) n

-- Every address of the span has the protection.
abbrev pub HasProtection : Memory → ℕ → ℕ → ℕ → Type 0
HasProtection m a n p = (x : ℕ) → a ≤ x → x < a + n → m.protection x ≡ p

-- The documented behaviour of the two reading calls: they change no memory, and a success is true.
pub record IsTruthful {World : Type 0} (mem : World → Memory) (ops : MemoryOps World) : Type 0 where
  pub query_keeps : (a : ℕ) (w : World) → mem (ops.query a w).1 ≡ mem w
  pub query_true :
      (a : ℕ) (w : World)
      → (ops.query a w).0.ok ≡ true
      → HasProtection
          (mem w)
          (ops.query a w).0.value.base
          (ops.query a w).0.value.size
          (ops.query a w).0.value.protect
  pub read_keeps : (a n : ℕ) (w : World) → mem (ops.read a n w).1 ≡ mem w
  pub read_true :
      (a n : ℕ) (w : World)
      → (ops.read a n w).0.ok ≡ true
      → (ops.read a n w).0.value ≡ bytes_at (mem w).byte a n

-- What `Range` guarantees: no sum of addresses wraps.
pub in_range-address :
    (base image_size rva size : ℕ)
    → in_range base image_size rva size ≡ true
    → (address base rva ≡ base + rva) × (address (address base rva) size ≡ base + rva + size)
unfolding in_range
in_range-address base image_size rva size h = ground arith

fits_facts :
    (base exact cursor : ℕ) (reply : Reply MemoryRegion)
    → region_fits base exact cursor reply ≡ true
    → (reply.ok ≡ true)
      × ((exact ≡ 0) ⊎ (reply.value.protect ≡ exact))
      × (reply.value.base ≤ cursor)
      × (cursor < reply.value.base + reply.value.size)
unfolding region_fits
fits_facts base exact cursor reply h = ground arith

module _ {World : Type 0} (mem : World → Memory) (ops : MemoryOps World)
    (truth : IsTruthful mem ops) where
  loop_keeps :
      (fuel base exact end cursor : ℕ) (s : Session World)
      → mem (region_loop ops fuel base exact end cursor s).1.world ≡ mem s.world
  unfolding region_loop succeed told
  loop_keeps zero base exact end cursor s = refl
  loop_keeps (suc fuel) base exact end cursor s =
      let (reply, w) = ops.query cursor s.world in
      ground (
        arith,
        truth.query_keeps cursor s.world,
        loop_keeps fuel base exact end (least end (reply.value.base + reply.value.size))
            (told (reply, w)),
      )

  -- A region that fits gives its protection to every address from the cursor to its end.
  region_covers :
      (base exact cursor x : ℕ) (w : World)
      → region_fits base exact cursor (ops.query cursor w).0 ≡ true
      → exact ≢ 0
      → cursor ≤ x
      → x < (ops.query cursor w).0.value.base + (ops.query cursor w).0.value.size
      → (mem w).protection x ≡ exact
  region_covers base exact cursor x w fits ne lo hi =
      let facts = fits_facts base exact cursor (ops.query cursor w).0 fits in
      let shown = truth.query_true cursor w facts.0 x (omega arith) hi in ground arith

  loop_true :
      (fuel base exact end cursor : ℕ) (s : Session World) (x : ℕ)
      → exact ≢ 0
      → (region_loop ops fuel base exact end cursor s).0 ≡ true
      → cursor ≤ x
      → x < end
      → (mem s.world).protection x ≡ exact
  unfolding region_loop told
  loop_true zero base exact end cursor s x ne h lo hi = ground arith
  loop_true (suc fuel) base exact end cursor s x ne h lo hi =
      let (reply, w) = ops.query cursor s.world in
      let next = least end (reply.value.base + reply.value.size) in
      ground (
        arith,
        ap (λ (m : Memory). m.protection x) (truth.query_keeps cursor s.world),
        region_covers base exact cursor x s.world,
        loop_true fuel base exact end next (told (reply, w)) x ne,
      )

  -- A check changes no memory, whatever it answers.
  pub regions-keeps :
      (base image_size rva size exact : ℕ) (s : Session World)
      → mem (regions ops base image_size rva size exact s).1.world ≡ mem s.world
  unfolding regions
  regions-keeps base image_size rva size exact s =
      let start = address base rva in
      ground (
        arith,
        loop_keeps (suc size) base exact (address start size) start
            (record s { error = error_invalid_address }),
      )

  -- A check that passes has seen the protection at every address of the range.
  pub image_range_protection-true :
      (base image_size rva size protection : ℕ) (s : Session World)
      → (image_range_protection ops base image_size rva size protection s).0 ≡ true
      → HasProtection (mem s.world) (base + rva) size protection
  unfolding image_range_protection
  image_range_protection-true base image_size rva size protection s h x lo hi =
      let start = address base rva in
      ground (
        arith,
        in_range-address base image_size rva size,
        loop_true (suc size) base protection (address start size) start
            (record s { error = error_invalid_address }) x,
      )

  pub image_range_protection-keeps :
      (base image_size rva size protection : ℕ) (s : Session World)
      → mem (image_range_protection ops base image_size rva size protection s).1.world ≡ mem s.world
  unfolding image_range_protection
  image_range_protection-keeps base image_size rva size protection s =
      ground (arith, regions-keeps base image_size rva size protection s)

  pub read_image_range-keeps :
      (base image_size rva size : ℕ) (s : Session World)
      → mem (read_image_range ops base image_size rva size s).1.world ≡ mem s.world
  unfolding read_image_range told
  read_image_range-keeps base image_size rva size s =
      let (fits, t) = regions ops base image_size rva size 0 s in
      ground (
        arith,
        regions-keeps base image_size rva size 0 s,
        truth.read_keeps (address base rva) size t.world,
      )

  -- A read that succeeds gives the bytes of the range.
  pub read_image_range-true :
      (base image_size rva size : ℕ) (s : Session World)
      → (read_image_range ops base image_size rva size s).0.0 ≡ true
      → (read_image_range ops base image_size rva size s).0.1
        ≡ bytes_at (mem s.world).byte (base + rva) size
  unfolding read_image_range
  read_image_range-true base image_size rva size s h =
      let (fits, t) = regions ops base image_size rva size 0 s in
      ground (
        arith,
        in_range-address base image_size rva size,
        ap (λ (m : Memory). bytes_at m.byte (base + rva) size)
            (regions-keeps base image_size rva size 0 s),
        truth.read_true (address base rva) size t.world,
      )
