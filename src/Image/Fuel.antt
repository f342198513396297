-- ===== src/Image/Fuel.antt =====
-- The fuel of the region loop: each region that fits ends above the cursor, so one pass more than
-- the bytes of the range is enough.
use rs2server_fix.Base.{ℕ, zero, suc, ◌+◌, ◌-◌, ◌<◌, ◌≡◌, true, arith}
use rs2server_fix.Image.{
  Reply, MemoryRegion, MemoryOps, Session, region_fits, region_loop, regions, in_range, least, told,
  succeed, error_invalid_address,
}
use rs2server_fix.Image.Sound.{in_range-address}

fits_above :
    (base exact cursor : ℕ) (reply : Reply MemoryRegion)
    → region_fits base exact cursor reply ≡ true
    → cursor < reply.value.base + reply.value.size
unfolding region_fits
fits_above base exact cursor reply h = ground arith

module _ {World : Type 0} (ops : MemoryOps World) where
  region_loop_fuel :
      (f g base exact end cursor : ℕ) (s : Session World)
      → end - cursor < f
      → end - cursor < g
      → region_loop ops f base exact end cursor s ≡ region_loop ops g base exact end cursor s
  unfolding region_loop told succeed
  region_loop_fuel zero g base exact end cursor s hf hg = absurd (omega arith)
  region_loop_fuel (suc f) zero base exact end cursor s hf hg = absurd (omega arith)
  region_loop_fuel (suc f) (suc g) base exact end cursor s hf hg =
      let (reply, w) = ops.query cursor s.world in
      let next = least end (reply.value.base + reply.value.size) in
      ground (
        arith,
        fits_above base exact cursor reply,
        region_loop_fuel f g base exact end next (told (reply, w)),
      )

  -- The check of a range gives what its loop gives on any larger fuel: it never stops for want of
  -- fuel, whatever the memory query answers.
  pub regions_fuel :
      (more base image_size rva size exact : ℕ) (s : Session World)
      → in_range base image_size rva size ≡ true
      → regions ops base image_size rva size exact s
        ≡ region_loop ops
            (suc size + more)
            base
            exact
            (base + rva + size)
            (base + rva)
            (record s { error = error_invalid_address })
  unfolding regions
  regions_fuel more base image_size rva size exact s h =
      let t = record s { error = error_invalid_address } in
      let places = in_range-address base image_size rva size h in
      rw (h, places.1, places.0)
        (region_loop_fuel (suc size) (suc size + more) base exact (base + rva + size) (base + rva) t
          (omega arith) (omega arith))
