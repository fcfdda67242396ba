-- ===== src/Command/Ttl/Range.antt =====
-- When the option of SET yields its time to live, and when the product wraps.
use tellstone.Prelude.{
  ℕ, ◌+◌, ◌*◌, ◌%◌, ◌≤◌, ◌<◌, ◌≡◌, false, Option, none, some, [], ◌∷◌, Bytes, codes, arith,
  bytes_eq, bytes_eq_iff, map, upper, i64_sign, u64_mod, if◌then◌else◌, ◌==◌,
}
use tellstone.Storage.Engine.{expires_at}
use tellstone.Command.Ttl.Fold.{AreBytes, fold_iff}
use tellstone.Command.Ttl.{atoi, second, millisecond, parse_set_ttl}

-- The length of a unit of the option, in nanoseconds.
abbrev pub nanoseconds_per : Bytes → Option ℕ
nanoseconds_per unit =
    if bytes_eq (map upper unit) (codes "EX")
    then some second
    else if bytes_eq (map upper unit) (codes "PX")
    then some millisecond
    else none

-- An option of EX or PX, in any case, with a positive number whose nanoseconds fit an int64, is that
-- time to live, and the entry expires that long after the moment of the write.
pub parse_set_ttl_exact :
    (name key value unit n : Bytes) (v per now : ℕ)
    → AreBytes unit
    → atoi n ≡ some v
    → nanoseconds_per unit ≡ some per
    → 0 < v
    → v * per < i64_sign
    → (parse_set_ttl (name ∷ key ∷ value ∷ unit ∷ n ∷ []) ≡ some (v * per))
      × (expires_at now (v * per) ≡ some (now + v * per))
unfolding parse_set_ttl expires_at
parse_set_ttl_exact name key value unit n v per now b e p positive fits =
    let x = fold_iff unit (codes "EX") b (omega arith) in
    let y = fold_iff unit (codes "PX") b (omega arith) in
    let x' = bytes_eq_iff (map upper unit) (codes "EX") in
    let y' = bytes_eq_iff (map upper unit) (codes "PX") in
    (ground (arith, x, y, x', y'), ground (arith, x', y'))

-- EX with 9223372037 to 18446744073 seconds is accepted, and the product wraps to a negative
-- duration: the entry is written without any expiry.
pub parse_set_ttl_wraps :
    (name key value unit n : Bytes) (v now : ℕ)
    → AreBytes unit
    → atoi n ≡ some v
    → map upper unit ≡ codes "EX"
    → 9223372036 < v
    → v ≤ 18446744073
    → (ttl : ℕ) × (parse_set_ttl (name ∷ key ∷ value ∷ unit ∷ n ∷ []) ≡ some ttl)
      × ((ttl == 0) ≡ false)
      × (expires_at now ttl ≡ none)
unfolding parse_set_ttl expires_at
parse_set_ttl_wraps name key value unit n v now b e u low high =
    let x = fold_iff unit (codes "EX") b (omega arith) in
    (v * second % u64_mod, ground (arith, x), ground arith, ground arith)
