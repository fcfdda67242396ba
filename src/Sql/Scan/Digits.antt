-- ===== src/Sql/Scan/Digits.antt =====
-- The number of the third token of VALUES, in extractSetPayloadInline.
use tellstone.Prelude.{
  ℕ, ◌+◌, ◌-◌, ◌*◌, ◌%◌, ◌≤◌, ◌<◌, ◌≡◌, refl, none, some, [], ◌∷◌, Bytes, arith, leb, i64_sign,
  u64_mod, add64, mul64, if◌then◌else◌,
}
use tellstone.Sql.Scan.{ttl_digits, parse_ttl, max_ttl_ms}

-- The token is a numeral.
abbrev pub IsNumeral : Bytes → Type 0
IsNumeral [] = Unit
IsNumeral (c ∷ s) = (b'0' ≤ c) × (c ≤ b'9') × IsNumeral s

-- The number it stands for, after the number n.
abbrev pub numeral : ℕ → Bytes → ℕ
numeral n [] = n
numeral n (c ∷ s) = numeral (n * 10 + (c - b'0')) s

digit_lem : (n d : ℕ) → add64 (mul64 (n % u64_mod) 10) d ≡ (n * 10 + d) % u64_mod
digit_lem n d = omega arith

ttl_digits-IsNumeral :
    (n : ℕ) (s : Bytes) → IsNumeral s → ttl_digits (n % u64_mod) s ≡ numeral n s % u64_mod
unfolding ttl_digits
ttl_digits-IsNumeral n [] h = refl
ttl_digits-IsNumeral n (c ∷ s) h =
    ground (arith, digit_lem n (c - b'0'), ttl_digits-IsNumeral (n * 10 + (c - b'0')) s h.2)

value : (s : Bytes) → IsNumeral s → ttl_digits 0 s ≡ numeral 0 s % u64_mod
value s h = ttl_digits-IsNumeral 0 s h

-- A numeral below 2^63 is its number of milliseconds up to 24 hours, and the overflow error beyond.
pub parse_ttl-IsNumeral :
    (c : ℕ) (s : Bytes)
    → IsNumeral (c ∷ s)
    → numeral 0 (c ∷ s) < i64_sign
    → parse_ttl (c ∷ s)
      ≡ (if leb (numeral 0 (c ∷ s)) max_ttl_ms then some (numeral 0 (c ∷ s) * 1000000) else none)
unfolding parse_ttl
parse_ttl-IsNumeral c s h low =
    let v = value (c ∷ s) h in
    let w : ttl_digits 0 (c ∷ s) ≡ numeral 0 (c ∷ s) = omega (arith, v) in rw w (ground arith)

-- A numeral of 2^64 + n, with n up to 24 hours, passes the overflow check and is n milliseconds.
pub parse_ttl-wraps :
    (c n : ℕ) (s : Bytes)
    → IsNumeral (c ∷ s)
    → numeral 0 (c ∷ s) ≡ u64_mod + n
    → n ≤ max_ttl_ms
    → parse_ttl (c ∷ s) ≡ some (n * 1000000)
unfolding parse_ttl
parse_ttl-wraps c n s h big low =
    let v = value (c ∷ s) h in
    let w : ttl_digits 0 (c ∷ s) ≡ n = omega (arith, v) in rw w (ground arith)
