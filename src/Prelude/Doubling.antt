-- ===== src/Prelude/Doubling.antt =====
-- A capacity doubled, as a 64-bit `size_t`, until it is no smaller than what is wanted.
use Prim.Native.Nat.{ℕ, zero, suc, ◌*◌, ◌%◌, ◌^◌, ◌≤◌}
use mathlib.Core.Path.{◌≡◌}
use native.Mathlib.Omega.{arith}
use parena.Prelude.Tests.{ltb, if◌then◌else◌, if_cases}

-- while (capacity < want) capacity *= 2;
unfoldable pub doubled : ℕ → ℕ → ℕ → ℕ
doubled zero capacity want = capacity
doubled (suc fuel) capacity want =
    let more = doubled fuel (capacity * 2 % 2 ^ 64) want in
    if ltb capacity want then more else capacity

-- What `fuel` doublings make of a capacity.
abbrev reach : ℕ → ℕ → ℕ
reach zero c = c
reach (suc fuel) c = reach fuel (c * 2)

reach_mono : (fuel c d : ℕ) → c ≤ d → reach fuel c ≤ reach fuel d
reach_mono zero c d h = h
reach_mono (suc fuel) c d h = reach_mono fuel (c * 2) (d * 2) (omega (arith, h))

doubled_ge : (fuel c want : ℕ) → want ≤ 2 ^ 63 → want ≤ reach fuel c → want ≤ doubled fuel c want
unfolding doubled
doubled_ge zero c want h r = r
doubled_ge (suc fuel) c want h r =
    if_cases (λ x. want ≤ x) (ltb c want)
      (λ l.
        let e : c * 2 % 2 ^ 64 ≡ c * 2 = ground arith in
        doubled_ge fuel (c * 2 % 2 ^ 64) want h (rw e r))
      (λ l. ground arith)

-- Sixty-four doublings pass every size up to half the address space, before they wrap around.
pub doubled_enough : (c want : ℕ) → 1 ≤ c → want ≤ 2 ^ 63 → want ≤ doubled 64 c want
doubled_enough c want pos h = doubled_ge 64 c want h (omega (arith, h, reach_mono 64 1 c pos))
