-- ===== src/Image.antt =====
-- src/shared/startup_profile.cpp and .h: the bounded reads of the loaded executable's image, over the
-- memory calls (`MemoryOps`) that the program is given. `World` is everything outside the program;
-- a call answers with a flag, a value and an error code, and may change the world.
use rs2server_fix.Base.{
  ℕ, zero, suc, ◌+◌, ◌-◌, ◌%◌, ◌^◌, ◌≡◌, Bool, true, false, not, ◌&&◌, ◌||◌, List, [], ◌∷◌, ltb,
  leb, ◌==◌, if◌then◌else◌,
}
pub mod Sound
pub mod Fuel

pub record MemoryRegion : Type 0 where
  pub base : ℕ
  pub allocation_base : ℕ
  pub size : ℕ
  pub state : ℕ
  pub kind : ℕ
  pub protect : ℕ

-- What a call through an operations table gives back.
pub record Reply (A : Type 0) : Type 0 where
  pub ok : Bool
  pub value : A
  pub error : ℕ

pub record MemoryOps (World : Type 0) : Type 0 where
  pub query : ℕ → World → Reply MemoryRegion × World
  pub read : ℕ → ℕ → World → Reply (List ℕ) × World

-- The world, and the error cell that the calls write through their `DWORD*`.
pub record Session (World : Type 0) : Type 0 where
  pub world : World
  pub error : ℕ

abbrev pub mem_commit : ℕ
mem_commit = 0x1000

abbrev pub mem_image : ℕ
mem_image = 0x1000000

abbrev pub page_readonly : ℕ
page_readonly = 0x02

abbrev pub page_readwrite : ℕ
page_readwrite = 0x04

abbrev pub page_writecopy : ℕ
page_writecopy = 0x08

abbrev pub page_execute_read : ℕ
page_execute_read = 0x20

abbrev pub page_execute_readwrite : ℕ
page_execute_readwrite = 0x40

abbrev pub page_execute_writecopy : ℕ
page_execute_writecopy = 0x80

abbrev pub error_invalid_address : ℕ
error_invalid_address = 487

abbrev pub uintptr_max : ℕ
uintptr_max = 2 ^ 64 - 1

-- A sum of addresses, as `uintptr_t`.
abbrev pub address : ℕ → ℕ → ℕ
address a b = (a + b) % 2 ^ 64

abbrev pub least : ℕ → ℕ → ℕ
least a b = if ltb b a then b else a

unfoldable pub in_range : ℕ → ℕ → ℕ → ℕ → Bool
in_range base image_size rva size =
    not (base == 0)
    && not (size == 0)
    && not (image_size == 0)
    && leb image_size (uintptr_max - base)
    && ltb rva image_size
    && leb size (image_size - rva)

unfoldable pub is_readable : ℕ → Bool
is_readable protection =
    protection == page_readonly
    || protection == page_readwrite
    || protection == page_writecopy
    || protection == page_execute_read
    || protection == page_execute_readwrite
    || protection == page_execute_writecopy

-- The checks on one region, `exact` being 0 where any readable protection will do.
unfoldable pub region_fits : ℕ → ℕ → ℕ → Reply MemoryRegion → Bool
unfolding is_readable
region_fits base exact cursor reply =
    reply.ok
    && region.allocation_base == base
    && region.state == mem_commit
    && region.kind == mem_image
    && is_readable region.protect
    && (exact == 0 || region.protect == exact)
    && leb region.base cursor
    && not (region.size == 0)
    && leb region.size (uintptr_max - region.base)
    && ltb cursor (region.base + region.size)
  where
    region : MemoryRegion
    region = reply.value

module _ {World : Type 0} where
  unfoldable pub succeed : Session World → Bool × Session World
  succeed s = (true, record s { error = 0 })

  -- The error cell takes what the call reports.
  unfoldable pub told : {A : Type 0} → Reply A × World → Session World
  told (reply, w) = record { world = w; error = reply.error }

module _ {World : Type 0} (ops : MemoryOps World) where
  -- The loop over the regions from `cursor` up to `end`, on fuel.
  unfoldable pub region_loop : ℕ → ℕ → ℕ → ℕ → ℕ → Session World → Bool × Session World
  unfolding succeed told region_fits
  region_loop zero base exact end cursor s = (false, s)
  region_loop (suc fuel) base exact end cursor s = elim (ltb cursor end) [
    | false ↦ succeed s
    | true ↦
        let (reply, w) = ops.query cursor s.world in
        elim (region_fits base exact cursor reply) [
          | false ↦ (false, told (reply, w))
          | true ↦
              region_loop fuel base exact end (least end (reply.value.base + reply.value.size))
                (told (reply, w))
        ]
  ]

  unfoldable pub regions : ℕ → ℕ → ℕ → ℕ → ℕ → Session World → Bool × Session World
  unfolding region_loop in_range
  regions base image_size rva size exact s =
      let t = record s { error = error_invalid_address } in
      if in_range base image_size rva size
      then region_loop (suc size) base exact (address (address base rva) size) (address base rva) t
      else (false, t)

  -- The bytes read, if the call succeeds.
  unfoldable pub read_image_range : ℕ → ℕ → ℕ → ℕ → Session World → (Bool × List ℕ) × Session World
  unfolding regions
  read_image_range base image_size rva size s =
      let (fits, t) = regions base image_size rva size 0 s in
      let (reply, w) = ops.read (address base rva) size t.world in
      if fits then ((reply.ok, reply.value), told (reply, w)) else ((false, []), t)

  unfoldable pub image_range_protection : ℕ → ℕ → ℕ → ℕ → ℕ → Session World → Bool × Session World
  unfolding regions
  image_range_protection base image_size rva size protection s =
      if protection == 0 then (false, s) else regions base image_size rva size protection s
