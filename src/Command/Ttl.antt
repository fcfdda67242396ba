-- ===== src/Command/Ttl.antt =====
-- parseSetTTL of internal/command/handlers.go, with strconv.Atoi and the ASCII comparison of
-- command.go. Integers are int64 bit patterns; a time.Duration counts nanoseconds.
pub mod Fold
pub mod Range
use Prim.Native.Nat.{bit_or}
use tellstone.Prelude.{
  ℕ, zero, suc, ◌+◌, ◌-◌, ◌*◌, ◌<◌, Bool, true, false, not, ◌&&◌, ◌||◌, Option, none, some, List,
  [], ◌∷◌, Bytes, codes, length, ltb, leb, ◌==◌, if◌then◌else◌, i64_sign, u64_mod, mul64, spos64,
  get_or,
}

-- The digits of a decimal numeral; a value beyond int64 stays beyond it.
unfoldable pub decimal : ℕ → Bytes → Option ℕ
decimal n [] = some n
decimal n (c ∷ s) = if leb b'0' c && leb c b'9' then decimal (n * 10 + (c - b'0')) s else none

abbrev pub nonempty_decimal : Bytes → Option ℕ
nonempty_decimal [] = none
nonempty_decimal (c ∷ s) = decimal 0 (c ∷ s)

abbrev pub positive : Option ℕ → Option ℕ
positive none = none
positive (some n) = if ltb n i64_sign then some n else none

abbrev pub negative : Option ℕ → Option ℕ
negative none = none
negative (some n) = if leb n i64_sign then some (if n == 0 then 0 else u64_mod - n) else none

-- strconv.Atoi on a 64-bit platform: an optional sign, then at least one digit
unfoldable pub atoi : Bytes → Option ℕ
unfolding decimal
atoi [] = none
atoi (c ∷ s) =
    if c == b'+'
    then positive (nonempty_decimal s)
    else if c == b'-'
    then negative (nonempty_decimal s)
    else positive (decimal 0 (c ∷ s))

-- c | 0x20 on a byte
abbrev pub fold_case : ℕ → ℕ
fold_case c = bit_or c 0x20

-- equalFoldASCII
unfoldable pub equal_fold_ascii : Bytes → Bytes → Bool
equal_fold_ascii [] [] = true
equal_fold_ascii [] (y ∷ b) = false
equal_fold_ascii (x ∷ a) [] = false
equal_fold_ascii (x ∷ a) (y ∷ b) = fold_case x == fold_case y && equal_fold_ascii a b

abbrev pub second : ℕ
second = 1000000000

abbrev pub millisecond : ℕ
millisecond = 1000000

-- The switch on args[3] for a parsed args[4].
unfoldable pub scale : Bytes → ℕ → Option ℕ
scale unit v =
    if not (spos64 v)
    then none
    else if equal_fold_ascii unit (codes "EX")
    then some (mul64 v second)
    else if equal_fold_ascii unit (codes "PX")
    then some (mul64 v millisecond)
    else none

-- parseSetTTL, for three or five arguments; `none` is a syntax error.
unfoldable pub parse_set_ttl : List Bytes → Option ℕ
unfolding scale
parse_set_ttl args =
    if length args == 3
    then some 0
    else elim (atoi (get_or args 4 [])) [ none ↦ none | some v ↦ scale (get_or args 3 []) v ]
