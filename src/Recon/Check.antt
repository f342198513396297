-- ===== src/Recon/Check.antt =====
-- src/companion/recon_fix.cpp: the profile check and the read-only checks on code, protection and
-- constant.
use rs2server_fix.Base.{
  ℕ, zero, suc, ◌+◌, ◌*◌, ◌/◌, ◌%◌, ◌^◌, Bool, true, false, ◌&&◌, List, [], ◌∷◌, ltb, leb, ◌==◌,
  if◌then◌else◌, length, take, drop, same,
}
use rs2server_fix.Image.{
  Session, page_readonly, page_execute_read, page_execute_readwrite, page_execute_writecopy,
  read_image_range, image_range_protection,
}
use rs2server_fix.Recon.{StartupProfile, ReconProfile, ReconOps}

abbrev pub recon_function_capacity : ℕ
recon_function_capacity = 1024

-- The four bytes of a little-endian `uint32_t`, and the number that such bytes stand for.
abbrev pub dword_bytes : ℕ → List ℕ
dword_bytes v = v % 256 ∷ v / 256 % 256 ∷ v / 65536 % 256 ∷ v / 16777216 % 256 ∷ []

abbrev pub dword_of : List ℕ → ℕ
dword_of [] = 0
dword_of (b ∷ bs) = b + 256 * dword_of bs

-- `a + b` at two `uint32_t`.
abbrev pub add32 : ℕ → ℕ → ℕ
add32 a b = (a + b) % 2 ^ 32

-- The displacement is an `int32_t`: from 2 ^ 31 on it stands for itself less 2 ^ 32.
unfoldable pub displaced : ℕ → ℕ → ℕ → Bool
displaced from displacement target =
    if ltb displacement (2 ^ 31)
    then from + displacement == target
    else from + displacement == target + 2 ^ 32

unfoldable pub profile_valid : ReconProfile → StartupProfile → Bool
unfolding displaced
profile_valid p startup =
    ltb 0 p.function_size
    && leb p.function_size recon_function_capacity
    && leb (p.function_rva + p.function_size) startup.image_size
    && leb (p.constant_rva + length p.constant_bytes) startup.image_size
    && leb p.function_rva p.load_rva
    && leb (p.load_rva + length p.original_window) (p.function_rva + p.function_size)
    && p.operand_rva == add32 p.load_rva 4
    && p.operand_rva % 4 == 0
    && displaced (p.load_rva + 8) p.new_displacement p.constant_rva

-- The bytes with the four at an offset replaced.
unfoldable pub patch : ℕ → List ℕ → List ℕ → List ℕ
patch zero [] bytes = bytes
patch zero (d ∷ ds) [] = []
patch zero (d ∷ ds) (b ∷ bytes) = d ∷ patch zero ds bytes
patch (suc n) ds [] = []
patch (suc n) ds (b ∷ bytes) = b ∷ patch n ds bytes

-- `memcmp` of a span inside the function with the bytes expected there.
unfoldable pub holds_at : List ℕ → ℕ → List ℕ → Bool
holds_at function offset bytes = same (take (length bytes) (drop offset function)) bytes

-- Short-circuit `&&` and `||` of two checks that read the world.
module _ {World : Type 0} where
  unfoldable pub and_then :
      Bool × Session World → (Session World → Bool × Session World) → Bool × Session World
  and_then (true, s) next = next s
  and_then (false, s) next = (false, s)

  unfoldable pub or_else :
      Bool × Session World → (Session World → Bool × Session World) → Bool × Session World
  or_else (true, s) next = (true, s)
  or_else (false, s) next = next s

  -- `a && b && ...`, from left to right.
  unfoldable pub all_of :
      List (Session World → Bool × Session World) → Session World → Bool × Session World
  unfolding and_then
  all_of [] s = (true, s)
  all_of (check ∷ checks) s = and_then (check s) (all_of checks)

  -- A read, followed by a test of the bytes.
  unfoldable pub reads : (Bool × List ℕ) × Session World → (List ℕ → Bool) → Bool × Session World
  reads ((true, bytes), s) test = (test bytes, s)
  reads ((false, bytes), s) test = (false, s)

module _ {World : Type 0} (base : ℕ) (startup : StartupProfile) (profile : ReconProfile)
    (ops : ReconOps World) where
  open startup use {image_size}
  open profile use {function_rva, function_size, operand_rva, constant_rva, constant_bytes}

  unfoldable pub bytes_equal : List ℕ → Session World → Bool × Session World
  unfolding reads
  bytes_equal expected s =
      reads (read_image_range ops.memory base image_size function_rva function_size s)
        (λ bytes. same bytes expected)

  unfoldable pub writable_code : Session World → Bool × Session World
  unfolding or_else
  writable_code s =
      or_else
        (image_range_protection ops.memory base image_size operand_rva 4 page_execute_readwrite s)
        (image_range_protection ops.memory base image_size operand_rva 4 page_execute_writecopy)

  unfoldable pub original_protection : Session World → Bool × Session World
  original_protection =
      image_range_protection ops.memory base image_size function_rva function_size page_execute_read

  unfoldable pub constant_matches : Session World → Bool × Session World
  unfolding and_then reads
  constant_matches s =
      and_then
        (image_range_protection ops.memory base image_size constant_rva (length constant_bytes)
          page_readonly s)
        (λ t.
          reads (read_image_range ops.memory base image_size constant_rva (length constant_bytes) t)
            (λ bytes. same bytes constant_bytes))
