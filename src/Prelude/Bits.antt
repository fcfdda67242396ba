-- ===== src/Prelude/Bits.antt =====
-- One bit of a word: the test, the set and the clear of the source, with their laws.
use Prim.Native.Nat.{
  ℕ, zero, suc, ◌+◌, ◌-◌, ◌*◌, ◌/◌, ◌%◌, ◌^◌, ◌≤◌, ◌<◌, min, max, bit_and, bit_or, bit_xor, digits,
  differ, bit_and-bitwise, bit_or-bitwise, bit_xor-bitwise,
}
use mathlib.Core.Path.{◌≡◌, refl, ap, ◌∙◌}
use mathlib.Core.Bool.{Bool, false, not, ◌&&◌, ◌||◌}
use native.Mathlib.Nat.{pow-suc}
use native.Mathlib.Omega.{arith}
use tellstone.Prelude.Tests.{◌==◌}

-- w&(uint64(1)<<k) != 0
unfoldable pub has_bit : ℕ → ℕ → Bool
has_bit k w = not (bit_and w (2 ^ k) == 0)

-- w | uint64(1)<<k
unfoldable pub set_bit : ℕ → ℕ → ℕ
set_bit k w = bit_or w (2 ^ k)

-- w &^ (uint64(1)<<k)
unfoldable pub clear_bit : ℕ → ℕ → ℕ
clear_bit k w = bit_xor w (bit_and w (2 ^ k))

-- Fuel beyond the number changes no digit.
module _ (left : ℕ → ℕ) (op : ℕ → ℕ → ℕ) where
  one_more : (b a n : ℕ) → a ≤ n → digits left op (suc n) a b ≡ digits left op n a b
  one_more b zero zero h = refl
  one_more b zero (suc n) h = refl
  one_more b (suc a) zero h = absurd (omega arith)
  one_more b (suc a) (suc n) h = omega (arith, one_more (b / 2) (suc a / 2) n (omega arith))

  spare : (k b a : ℕ) → digits left op (k + a) a b ≡ digits left op a a b
  spare zero b a = let e : 0 + a ≡ a = omega arith in ap (λ n. digits left op n a b) e
  spare (suc k) b a =
      let e : suc k + a ≡ suc (k + a) = omega arith in
      ap (λ n. digits left op n a b) e ∙ one_more b a (k + a) (omega arith) ∙ spare k b a

  halved : (a b : ℕ) → digits left op a (suc a / 2) b ≡ digits left op (suc a / 2) (suc a / 2) b
  halved a b =
      let e : a ≡ a - suc a / 2 + suc a / 2 = omega arith in
      ap (λ n. digits left op n (suc a / 2) b) e ∙ spare (a - suc a / 2) b (suc a / 2)

zero-bit_and : (b : ℕ) → bit_and 0 b ≡ 0
zero-bit_and b = bit_and-bitwise 0 b

zero-bit_or : (b : ℕ) → bit_or 0 b ≡ b
zero-bit_or b = bit_or-bitwise 0 b

zero-bit_xor : (b : ℕ) → bit_xor 0 b ≡ b
zero-bit_xor b = bit_xor-bitwise 0 b

and_step : (a b : ℕ) → bit_and a b ≡ bit_and (a / 2) (b / 2) * 2 + min (a % 2) (b % 2)
and_step zero b = omega (arith, zero-bit_and b, zero-bit_and (b / 2))
and_step (suc a) b = omega (
  arith,
  bit_and-bitwise (suc a) b,
  bit_and-bitwise (suc a / 2) (b / 2),
  halved (λ b. zero) min a (b / 2),
)

or_step : (a b : ℕ) → bit_or a b ≡ bit_or (a / 2) (b / 2) * 2 + max (a % 2) (b % 2)
or_step zero b = omega (arith, zero-bit_or b, zero-bit_or (b / 2))
or_step (suc a) b = omega (
  arith,
  bit_or-bitwise (suc a) b,
  bit_or-bitwise (suc a / 2) (b / 2),
  halved (λ b. b) max a (b / 2),
)

xor_step : (a b : ℕ) → bit_xor a b ≡ bit_xor (a / 2) (b / 2) * 2 + differ (a % 2) (b % 2)
xor_step zero b = omega (arith, zero-bit_xor b, zero-bit_xor (b / 2))
xor_step (suc a) b = omega (
  arith,
  bit_xor-bitwise (suc a) b,
  bit_xor-bitwise (suc a / 2) (b / 2),
  halved (λ b. b) differ a (b / 2),
)

-- Both operands fall to a half, so the zero laws go by fuel.
and-zero : (n a : ℕ) → a ≤ n → bit_and a 0 ≡ 0
and-zero n zero h = zero-bit_and 0
and-zero zero (suc a) h = absurd (omega arith)
and-zero (suc n) (suc a) h = omega (arith, and_step (suc a) 0, and-zero n (suc a / 2) (omega arith))

or-zero : (n a : ℕ) → a ≤ n → bit_or a 0 ≡ a
or-zero n zero h = zero-bit_or 0
or-zero zero (suc a) h = absurd (omega arith)
or-zero (suc n) (suc a) h = omega (arith, or_step (suc a) 0, or-zero n (suc a / 2) (omega arith))

differ-zero : (x : ℕ) → x < 2 → differ x 0 ≡ x
differ-zero zero h = refl
differ-zero (suc zero) h = refl
differ-zero (suc (suc x)) h = absurd (omega arith)

differ_self : (x : ℕ) → x < 2 → differ x x ≡ 0
differ_self zero h = refl
differ_self (suc zero) h = refl
differ_self (suc (suc x)) h = absurd (omega arith)

xor-zero : (n a : ℕ) → a ≤ n → bit_xor a 0 ≡ a
xor-zero n zero h = zero-bit_xor 0
xor-zero zero (suc a) h = absurd (omega arith)
xor-zero (suc n) (suc a) h = ground (
  arith,
  xor_step (suc a) 0,
  differ-zero (suc a % 2) (omega arith),
  xor-zero n (suc a / 2) (omega arith),
)

-- The test walks down the digits.
has_bit-zero : (w : ℕ) → has_bit 0 w ≡ (w % 2 == 1)
unfolding has_bit
has_bit-zero w = ground (arith, and_step w 1, and-zero (w / 2) (w / 2) (omega arith))

has_bit-suc : (k w : ℕ) → has_bit (suc k) w ≡ has_bit k (w / 2)
unfolding has_bit
has_bit-suc k w = ground (arith, and_step w (2 ^ suc k), pow-suc 2 k)

set_bit-zero : (w : ℕ) → set_bit 0 w ≡ w / 2 * 2 + 1
unfolding set_bit
set_bit-zero w = omega (arith, or_step w 1, or-zero (w / 2) (w / 2) (omega arith))

set_bit-suc : (k w : ℕ) → set_bit (suc k) w ≡ set_bit k (w / 2) * 2 + w % 2
unfolding set_bit
set_bit-suc k w = ground (arith, or_step w (2 ^ suc k), pow-suc 2 k)

clear_bit-zero : (w : ℕ) → clear_bit 0 w ≡ w / 2 * 2
unfolding clear_bit
clear_bit-zero w = ground (
  arith,
  xor_step w (bit_and w 1),
  and_step w 1,
  and-zero (w / 2) (w / 2) (omega arith),
  xor-zero (w / 2) (w / 2) (omega arith),
  differ_self (w % 2) (omega arith),
)

clear_bit-suc : (k w : ℕ) → clear_bit (suc k) w ≡ clear_bit k (w / 2) * 2 + w % 2
unfolding clear_bit
clear_bit-suc k w = ground (
  arith,
  xor_step w (bit_and w (2 ^ suc k)),
  and_step w (2 ^ suc k),
  pow-suc 2 k,
  differ-zero (w % 2) (omega arith),
)

pub has_bit-set_bit : (k j w : ℕ) → has_bit j (set_bit k w) ≡ (k == j || has_bit j w)
has_bit-set_bit zero zero w = ground (arith, has_bit-zero (set_bit 0 w), set_bit-zero w)
has_bit-set_bit zero (suc j) w =
    ground (arith, has_bit-suc j (set_bit 0 w), has_bit-suc j w, set_bit-zero w)
has_bit-set_bit (suc k) zero w =
    ground (arith, has_bit-zero (set_bit (suc k) w), has_bit-zero w, set_bit-suc k w)
has_bit-set_bit (suc k) (suc j) w = ground (
  arith,
  has_bit-suc j (set_bit (suc k) w),
  has_bit-suc j w,
  set_bit-suc k w,
  has_bit-set_bit k j (w / 2),
)

pub has_bit-clear_bit : (k j w : ℕ) → has_bit j (clear_bit k w) ≡ (not (k == j) && has_bit j w)
has_bit-clear_bit zero zero w = ground (arith, has_bit-zero (clear_bit 0 w), clear_bit-zero w)
has_bit-clear_bit zero (suc j) w =
    ground (arith, has_bit-suc j (clear_bit 0 w), has_bit-suc j w, clear_bit-zero w)
has_bit-clear_bit (suc k) zero w =
    ground (arith, has_bit-zero (clear_bit (suc k) w), has_bit-zero w, clear_bit-suc k w)
has_bit-clear_bit (suc k) (suc j) w = ground (
  arith,
  has_bit-suc j (clear_bit (suc k) w),
  has_bit-suc j w,
  clear_bit-suc k w,
  has_bit-clear_bit k j (w / 2),
)

pub has_bit_of_zero : (k : ℕ) → has_bit k 0 ≡ false
unfolding has_bit
has_bit_of_zero k = ground (arith, zero-bit_and (2 ^ k))

pub clear_bit_of_zero : (k : ℕ) → clear_bit k 0 ≡ 0
unfolding clear_bit
clear_bit_of_zero k = ground (arith, zero-bit_and (2 ^ k), zero-bit_xor (bit_and 0 (2 ^ k)))

differ-lt : (x y : ℕ) → x < 2 → y < 2 → differ x y < 2
differ-lt zero y h k = k
differ-lt (suc zero) zero h k = h
differ-lt (suc zero) (suc zero) h k = omega arith
differ-lt (suc zero) (suc (suc y)) h k = absurd (omega arith)
differ-lt (suc (suc x)) y h k = absurd (omega arith)

differ_cancel : (x y z : ℕ) → x < 2 → y < 2 → z < 2 → differ x z ≡ differ y z → x ≡ y
differ_cancel zero zero z h k l e = refl
differ_cancel zero (suc zero) zero h k l e = e
differ_cancel zero (suc zero) (suc zero) h k l e = absurd (omega arith)
differ_cancel (suc zero) zero zero h k l e = e
differ_cancel (suc zero) zero (suc zero) h k l e = absurd (omega arith)
differ_cancel (suc zero) (suc zero) z h k l e = refl
differ_cancel (suc (suc x)) y z h k l e = absurd (omega arith)
differ_cancel x (suc (suc y)) z h k l e = absurd (omega arith)
differ_cancel x y (suc (suc z)) h k l e = absurd (omega arith)

differ_swap : (x y : ℕ) → x < 2 → y < 2 → differ x y ≡ differ y x
differ_swap zero zero h k = refl
differ_swap zero (suc zero) h k = refl
differ_swap (suc zero) zero h k = refl
differ_swap (suc zero) (suc zero) h k = refl
differ_swap (suc (suc x)) y h k = absurd (omega arith)
differ_swap x (suc (suc y)) h k = absurd (omega arith)

xor_cancel_fuel : (n a b c : ℕ) → a ≤ n → b ≤ n → bit_xor a c ≡ bit_xor b c → a ≡ b
xor_cancel_fuel zero a b c h k e = omega arith
xor_cancel_fuel (suc n) a b c h k e =
    let low = differ-lt (a % 2) (c % 2) (omega arith) (omega arith) in
    let low' = differ-lt (b % 2) (c % 2) (omega arith) (omega arith) in
    let s = xor_step a c in
    let s' = xor_step b c in
    let top =
      xor_cancel_fuel n (a / 2) (b / 2) (c / 2) (omega arith) (omega arith)
        (omega (arith, s, s', e, low, low')) in
    let bit =
      differ_cancel (a % 2) (b % 2) (c % 2) (omega arith) (omega arith) (omega arith)
        (omega (arith, s, s', e, low, low')) in
    omega (arith, top, bit)

-- Exclusive or with a number is undone by it, so no two numbers meet.
pub xor_cancel : (a b c : ℕ) → bit_xor a c ≡ bit_xor b c → a ≡ b
xor_cancel a b c e = xor_cancel_fuel (a + b) a b c (omega arith) (omega arith) e

xor_swap_fuel : (n a b : ℕ) → a ≤ n → b ≤ n → bit_xor a b ≡ bit_xor b a
xor_swap_fuel zero zero zero h k = refl
xor_swap_fuel zero (suc a) b h k = absurd (omega arith)
xor_swap_fuel zero a (suc b) h k = absurd (omega arith)
xor_swap_fuel (suc n) a b h k = omega (
  arith,
  xor_step a b,
  xor_step b a,
  differ_swap (a % 2) (b % 2) (omega arith) (omega arith),
  xor_swap_fuel n (a / 2) (b / 2) (omega arith) (omega arith),
)

pub xor_swap : (a b : ℕ) → bit_xor a b ≡ bit_xor b a
xor_swap a b = xor_swap_fuel (a + b) a b (omega arith) (omega arith)

pub xor-lt : (k a b : ℕ) → a < 2 ^ k → b < 2 ^ k → bit_xor a b < 2 ^ k
xor-lt zero zero zero h l = omega arith
xor-lt zero (suc a) b h l = absurd (omega arith)
xor-lt zero a (suc b) h l = absurd (omega arith)
xor-lt (suc k) a b h l =
    let p = pow-suc 2 k in
    omega (
      arith,
      p,
      xor_step a b,
      differ-lt (a % 2) (b % 2) (omega arith) (omega arith),
      xor-lt k (a / 2) (b / 2) (omega (arith, p)) (omega (arith, p)),
    )
