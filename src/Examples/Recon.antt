-- ===== src/Examples/Recon.antt =====
-- A machine whose calls all succeed, and a small image with a function of 20 bytes to correct.
use rs2server_fix.Base.{
  ℕ, ◌+◌, ◌≤◌, ◌<◌, ◌≡◌, refl, ap, Bool, true, false, List, [], ◌∷◌, ◌&&◌, arith, ltb, leb,
  if◌then◌else◌, ◌-◌, get_elem?, Option, none, some,
}
use rs2server_fix.Image.{
  MemoryRegion, MemoryOps, mem_commit, mem_image, page_readonly, page_execute_read, in_range,
  image_range_protection, read_image_range, regions, region_loop, error_invalid_address,
}
use rs2server_fix.Image.Sound.{Memory, bytes_at, IsTruthful}
use rs2server_fix.Image.Fuel.{regions_fuel}
use rs2server_fix.Recon.{
  ReconMode, ReconOutcome, FixReason, StartupProfile, ReconProfile, ReconOps, Surroundings,
}
use rs2server_fix.Recon.Check.{dword_bytes, bytes_equal, constant_matches, writable_code}
use rs2server_fix.Recon.Fix.{run_recon_fix, write_code, protect_code, flush_code}
use rs2server_fix.Recon.Facts.{IsFaithful}
use rs2server_fix.Recon.Safety.{
  Outcome, run_recon_fix-Outcome, run_recon_fix_refused, run_recon_fix-passive,
}

abbrev or_zero : Option ℕ → ℕ
or_zero none = 0
or_zero (some b) = b

-- The image stands at 4096: code at 100, a constant of 16 bytes at 200, the stage at 300.
abbrev start : Memory
start = record {
  byte = λ a.
      if leb 4196 a && ltb a 4216
      then or_zero (
          get_elem?
            (1 ∷ 2 ∷ 3 ∷ 4 ∷ 243 ∷ 15 ∷ 16 ∷ 53 ∷ 9 ∷ 0 ∷ 0 ∷ 0 ∷ 15 ∷ 31 ∷ 64 ∷ 0 ∷ 5 ∷ 6 ∷ 7 ∷ 8
              ∷ [])
            (a - 4196))
      else if leb 4296 a && ltb a 4312
      then 56
      else if leb 4396 a && ltb a 4397
      then 1
      else 0;
  protection = λ a. if leb 4196 a && ltb a 4216 then page_execute_read else page_readonly;
}

-- One byte to a region.
abbrev region_at : Memory → ℕ → MemoryRegion
region_at m a = record {
  base = a;
  allocation_base = 4096;
  size = 1;
  state = mem_commit;
  kind = mem_image;
  protect = m.protection a;
}

abbrev machine : MemoryOps Memory
machine = record {
  query = λ a m. (record { ok = true; value = region_at m a; error = 0 }, m);
  read = λ a n m. (record { ok = true; value = bytes_at m.byte a n; error = 0 }, m);
}

at_itself : (m : Memory) (a x : ℕ) → a ≤ x → x < a + 1 → m.protection x ≡ m.protection a
at_itself m a x lo hi = let e : x ≡ a = omega arith in ap m.protection e

abbrev identity : Memory → Memory
identity m = m

machine-IsTruthful : IsTruthful identity machine
machine-IsTruthful = record {
  query_keeps = λ a m. refl;
  query_true = λ a m h x lo hi. at_itself m a x lo hi;
  read_keeps = λ a n m. refl;
  read_true = λ a n m h. refl;
}

abbrev image : StartupProfile
image = record { image_size = 1000; state_rva = 300; state_value = 1 }

abbrev window : List ℕ
window = 243 ∷ 15 ∷ 16 ∷ 53 ∷ 9 ∷ 0 ∷ 0 ∷ 0 ∷ 15 ∷ 31 ∷ 64 ∷ 0 ∷ []

abbrev sixteen : List ℕ
sixteen = 56 ∷ 56 ∷ 56 ∷ 56 ∷ 56 ∷ 56 ∷ 56 ∷ 56 ∷ 56 ∷ 56 ∷ 56 ∷ 56 ∷ 56 ∷ 56 ∷ 56 ∷ 56 ∷ []

-- The sum of the bytes stands for a digest.
abbrev sum : List ℕ → ℕ
sum [] = 0
sum (b ∷ bs) = b + sum bs

abbrev profile : ReconProfile
profile = record {
  host_digest = 7 ∷ [];
  function_rva = 100;
  function_size = 20;
  original_digest = 482 ∷ [];
  corrected_digest = 561 ∷ [];
  load_rva = 104;
  original_window = window;
  operand_rva = 108;
  old_displacement = 9;
  new_displacement = 88;
  constant_rva = 200;
  constant_bytes = sixteen;
}

abbrev around : Surroundings Memory
around = record {
  hash_bytes = λ bytes. record { ok = true; value = sum bytes ∷ []; error = 0 };
  current_thread = 5;
  check_startup_opportunity = λ m. (true, m);
  image_section_matches = λ a n required forbidden m. (true, m);
}

-- `write_dword` answers as told, and writes or not; `protect` and `flush` succeed.
abbrev operations : Bool → Bool → ReconOps Memory
operations answer writes = record {
  memory = machine;
  protect = λ a n p m. (
    record { ok = true; value = m.protection a; error = 0 },
    record m { protection = λ x. if leb a x && ltb x (a + n) then p else m.protection x },
  );
  write_dword = λ a v m. (
    record { ok = answer; value = tt; error = 0 },
    record m {
      byte = λ x.
          if writes && (leb a x && ltb x (a + 4))
          then or_zero (get_elem? (dword_bytes v) (x - a))
          else m.byte x;
    },
  );
  flush = λ a n m. (record { ok = true; value = tt; error = 0 }, m);
  validate_host_identity = λ m. (record { ok = true; value = FixReason.none; error = 0 }, m);
}

operations-IsFaithful :
    (answer writes : Bool) → IsFaithful identity (operations answer writes) around
operations-IsFaithful answer writes = record {
  memory = machine-IsTruthful;
  flush_keeps = λ a n m. refl;
  validate_keeps = λ m. refl;
  startup_keeps = λ m. refl;
  section_keeps = λ a n r f m. refl;
}

-- The correction becomes active on a machine that obeys, and the run is fatal on one that refuses
-- the write and then refuses to undo it.
active_run :
    (run_recon_fix 4096 image profile
      (operations true true)
      around
      5
      ReconMode.active
      (7 ∷ [])
      start).0.outcome
    ≡ ReconOutcome.active
unfolding run_recon_fix image_range_protection read_image_range bytes_equal constant_matches
    writable_code write_code protect_code flush_code
active_run = refl

refused_write_run :
    (run_recon_fix 4096 image profile
      (operations false false)
      around
      5
      ReconMode.active
      (7 ∷ [])
      start).0.outcome
    ≡ ReconOutcome.fatal
unfolding run_recon_fix image_range_protection read_image_range bytes_equal constant_matches
    writable_code write_code protect_code flush_code
refused_write_run = refl

run_recon_fix-Outcome_example :
    let r =
      run_recon_fix 4096 image profile
        (operations true true)
        around
        5
        ReconMode.active
        (7 ∷ [])
        start in
    Outcome identity
      (operations true true)
      around
      (operations-IsFaithful true true)
      4096
      image
      profile
      5
      start
      r.0.outcome
      r.1.world
run_recon_fix-Outcome_example =
    run_recon_fix-Outcome identity (operations true true) around (operations-IsFaithful true true)
      4096 image profile 5 ReconMode.active (7 ∷ []) start

run_recon_fix_refused_example :
    let r =
      run_recon_fix 4096 image profile
        (operations true true)
        around
        5
        ReconMode.active
        (8 ∷ [])
        start in
    (r.1.world ≡ start) × (r.0.outcome ≡ ReconOutcome.disabled)
unfolding run_recon_fix
run_recon_fix_refused_example =
    run_recon_fix_refused identity (operations true true) around (operations-IsFaithful true true)
      4096 image profile 5 ReconMode.active (8 ∷ []) start refl

run_recon_fix-passive_example :
    (run_recon_fix 4096 image profile
      (operations true true)
      around
      5
      ReconMode.passive
      (7 ∷ [])
      start).1.world
    ≡ start
run_recon_fix-passive_example =
    run_recon_fix-passive identity (operations true true) around (operations-IsFaithful true true)
      4096 image profile 5 (7 ∷ []) start

regions_fuel_example :
    regions machine 4096 1000 100 20 32 (record { world = start; error = 0 })
    ≡ region_loop machine 25 4096 32 4216 4196
        (record { world = start; error = error_invalid_address })
unfolding in_range
regions_fuel_example =
    regions_fuel machine 4 4096 1000 100 20 32 (record { world = start; error = 0 }) refl
