-- ===== src/Prelude/Word.antt =====
-- uint64 arithmetic, and int64 values by their two's complement bit patterns.
use Prim.Native.Nat.{ℕ, ◌+◌, ◌-◌, ◌*◌, ◌%◌, ◌^◌, ◌<◌, ◌≤◌}
use mathlib.Core.Bool.{Bool, false, ◌&&◌}
use native.Mathlib.Nat.{mod-eq_of_lt, mod-eq-sub-mod, mod-add-mod, mod-lt}
use native.Mathlib.Omega.{arith}
use mathlib.Core.Path.{◌≡◌, ◌∙◌}
use mathlib.Core.Logic.{◌≢◌, inl, inr}
use tellstone.Prelude.Tests.{ltb, ltb→lt, Bool-cases, if◌then◌else◌}

abbrev pub u32_mod : ℕ
u32_mod = 2 ^ 32

abbrev pub u64_mod : ℕ
u64_mod = 2 ^ 64

abbrev pub i64_sign : ℕ
i64_sign = 2 ^ 63

abbrev pub add64 : ℕ → ℕ → ℕ
add64 a b = (a + b) % u64_mod

-- atomic.AddUint64(&a, ^(b - 1)), and a - b
abbrev pub sub64 : ℕ → ℕ → ℕ
sub64 a b = (a + (u64_mod - b % u64_mod)) % u64_mod

abbrev pub mul64 : ℕ → ℕ → ℕ
mul64 a b = (a * b) % u64_mod

-- a < b on int64
abbrev pub slt64 : ℕ → ℕ → Bool
slt64 a b = ltb ((a + i64_sign) % u64_mod) ((b + i64_sign) % u64_mod)

-- 0 < a on int64
abbrev pub spos64 : ℕ → Bool
spos64 a = ltb 0 a && ltb a i64_sign

-- A remainder that is at most one turn away.
pub wrap : (x n : ℕ) → x < n + n → x % n ≡ (if ltb x n then x else x - n)
wrap x n h = elim (Bool-cases (ltb x n)) [
  | inl low ↦ rw low (mod-eq_of_lt (ltb→lt x n low))
  | inr high ↦ rw high (
      mod-eq-sub-mod (omega (arith, ge_of_ltb x n high))
      ∙ mod-eq_of_lt (omega (arith, ge_of_ltb x n high)))
]
  where
    ge_of_ltb : (x n : ℕ) → ltb x n ≡ false → n ≤ x
    ge_of_ltb x n h = ground arith

-- Two places less than a turn apart are two.
pub mod_ne : (a d c : ℕ) → 0 < d → d < c → (a + d) % c ≢ a % c
mod_ne a d c h k e = absurd (
    ground
      (arith, mod-add-mod a c d, wrap (a % c + d) c (omega arith), mod-lt a {m = c} (omega arith)))
