-- ===== src/Durations/Exact.antt =====
-- src/companion/steam_reporting_status.cpp: the comparison of ticks with microseconds is exact.
use native.Mathlib.Nat.{mul-le-mul_left, add-mul, mul_right_comm}
use rs2server_fix.Base.{ℕ, ◌+◌, ◌*◌, ◌/◌, ◌%◌, ◌≤◌, ◌<◌, ◌≡◌, ◌∙◌, ap, leb, arith}
use rs2server_fix.Durations.{at_most_microseconds}

divided : (f : ℕ) → f ≡ f / 1000000 * 1000000 + f % 1000000
divided f = omega arith

distributed : (f w r m : ℕ) → f ≡ w * 1000000 + r → f * m ≡ w * m * 1000000 + r * m
distributed f w r m e =
    ap (λ x. x * m) e ∙ add-mul (w * 1000000) r m ∙ ap (λ x. x + r * m) (mul_right_comm w 1000000 m)

compared : (t a b n : ℕ) → n ≡ a * 1000000 + b → leb t (a + b / 1000000) ≡ leb (t * 1000000) n
compared t a b n e = ground arith

-- The quotient and the remainder of the frequency compare as the rational numbers do: ticks are at most
-- so many microseconds exactly when a million times the ticks is at most the frequency times these.
pub at_most_microseconds-leb :
    (ticks frequency micros : ℕ)
    → at_most_microseconds ticks frequency micros ≡ leb (ticks * 1000000) (frequency * micros)
unfolding at_most_microseconds
at_most_microseconds-leb t f m =
    compared t (f / 1000000 * m) (f % 1000000 * m) (f * m)
      (distributed f (f / 1000000) (f % 1000000) m (divided f))

-- No product or sum of the comparison leaves 64 bits, for the frequencies and limits that are used.
pub at_most_microseconds_fits :
    (f m : ℕ)
    → f ≤ 204963823041217240
    → m ≤ 50000
    → f / 1000000 * m + f % 1000000 * m / 1000000 < 18446744073709551616
at_most_microseconds_fits f m hf hm =
    let a : f / 1000000 * m ≤ f / 1000000 * 50000 = mul-le-mul_left (f / 1000000) hm in
    let b : f % 1000000 * m ≤ f % 1000000 * 50000 = mul-le-mul_left (f % 1000000) hm in
    omega (arith, a, b, hf)
