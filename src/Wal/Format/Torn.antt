-- ===== src/Wal/Format/Torn.antt =====
-- A record reads back what was written, and a part of one reads as the end of the log.
use tellstone.Prelude.{
  ℕ, ◌+◌, ◌-◌, ◌/◌, ◌%◌, ◌<◌, ◌≡◌, refl, none, some, ◌++◌, Bytes, length, take, drop, ltb, u64_mod,
  u32_mod, arith, length-append, length-take, Bool-cases, inl, inr, take-append, take-append_ge,
  drop-append,
}
use tellstone.Wal.Format.{
  le32, le64, get_le32, get_le64, Record, header_size, header, encode, key_len, value_len,
  read_record,
}

pub get_le32-le32 : (n : ℕ) (s : Bytes) → get_le32 (le32 n ++ s) ≡ n % u32_mod
get_le32-le32 n s = omega arith

pub get_le64-le64 : (n : ℕ) (s : Bytes) → get_le64 (le64 n ++ s) ≡ n % u64_mod
get_le64-le64 n s =
    omega (arith, get_le32-le32 n (le32 (n / 4294967296) ++ s), get_le32-le32 (n / 4294967296) s)

-- The fields fit their places.
pub record IsSized (r : Record) : Type 0 where
  pub key_fits : length r.key < u32_mod
  pub value_fits : length r.value < u32_mod
  pub ttl_fits : r.ttl < u64_mod

pub length-encode : (r : Record) → length (encode r) ≡ header_size + length r.key + length r.value
unfolding encode header
length-encode r = omega (arith, length-append {0} r.key r.value)

-- The header of a record in front of other bytes.
module _ (r : Record) (h : IsSized r) (rest : Bytes) where
  pub fields :
      (key_len (header r ++ rest) ≡ length r.key)
      × (value_len (header r ++ rest) ≡ length r.value)
      × (get_le64 (drop 8 (header r ++ rest)) ≡ r.ttl)
      × (drop header_size (header r ++ rest) ≡ rest)
      × (length (header r ++ rest) ≡ header_size + length rest)
  unfolding header
  fields = (
    omega (arith, h.key_fits),
    omega (arith, h.value_fits),
    omega (arith, get_le64-le64 r.ttl rest, h.ttl_fits),
    refl,
    omega arith,
  )

-- A record is read back whole, and what stands behind it is left.
pub read_record-encode :
    (r : Record) (rest : Bytes)
    → IsSized r
    → read_record (header r ++ (r.key ++ (r.value ++ rest))) ≡ some (r, rest)
unfolding read_record
read_record-encode r rest h =
    let (k, v, t, d, l) = fields r h (r.key ++ (r.value ++ rest)) in
    ground (
      arith,
      k,
      v,
      t,
      d,
      l,
      length-append {0} r.key (r.value ++ rest),
      length-append {0} r.value rest,
      take-append {0} r.key (r.value ++ rest),
      drop-append {0} r.key (r.value ++ rest),
      take-append {0} r.value rest,
      drop-append {0} r.value rest,
    )

-- A record of which the last bytes are missing reads as the end of the log.
pub read_record-take :
    (r : Record) (n : ℕ)
    → IsSized r
    → n < length (encode r)
    → read_record (take n (encode r)) ≡ none
unfolding read_record encode
read_record-take r n h short = elim (Bool-cases (ltb n header_size)) [
  | inl early ↦ ground (arith, length-take {0} n (header r ++ (r.key ++ r.value)))
  | inr late ↦
      let sized : length (header r) ≡ header_size = unfold header in refl in
      let cut = take-append_ge (header r) (r.key ++ r.value) n (ground (arith, sized)) in
      let whole = length-encode r in
      let (k, v, t, d, l) = fields r h (take (n - length (header r)) (r.key ++ r.value)) in
      ground (arith, cut, k, v, l, whole, length-take {0} n (header r ++ (r.key ++ r.value)))
]
