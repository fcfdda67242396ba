-- ===== src/Wal/Format.antt =====
-- The records of internal/persistence/persistence.go: a header of sixteen bytes, the key and the value.
pub mod Torn
use tellstone.Prelude.{
  ℕ, ◌+◌, ◌-◌, ◌*◌, ◌/◌, ◌%◌, Bool, true, false, Option, none, some, List, [], ◌∷◌, ◌++◌, Bytes,
  length, take, drop, leb, ltb, if◌then◌else◌, u64_mod,
}

-- binary.LittleEndian.PutUint32 and PutUint64, Uint32 and Uint64
abbrev pub le32 : ℕ → Bytes
le32 n = n % 256 ∷ n / 256 % 256 ∷ n / 65536 % 256 ∷ n / 16777216 % 256 ∷ []

abbrev pub le64 : ℕ → Bytes
le64 n = le32 n ++ le32 (n / 4294967296)

abbrev pub get_le32 : Bytes → ℕ
get_le32 (a ∷ b ∷ c ∷ d ∷ s) = a + b * 256 + c * 65536 + d * 16777216
get_le32 _ = 0

abbrev pub get_le64 : Bytes → ℕ
get_le64 s = get_le32 s + get_le32 (drop 4 s) * 4294967296

-- A record with its expiry, an int64 bit pattern of nanoseconds.
pub record Record : Type 0 where
  pub key : Bytes
  pub value : Bytes
  pub ttl : ℕ

abbrev pub header_size : ℕ
header_size = 16

unfoldable pub header : Record → Bytes
header r = le32 (length r.key) ++ (le32 (length r.value) ++ le64 r.ttl)

-- header, key and value as they are written one after another
unfoldable pub encode : Record → Bytes
unfolding header
encode r = header r ++ (r.key ++ r.value)

-- The sizes that a header announces.
abbrev pub key_len : Bytes → ℕ
key_len s = get_le32 s

abbrev pub value_len : Bytes → ℕ
value_len s = get_le32 (drop 4 s)

-- One turn of the loop of replayWALPlaintext up to applyRecord: the record and the bytes behind it,
-- or the end of what is valid.
unfoldable pub read_record : Bytes → Option (Record × Bytes)
read_record s =
    if ltb (length s) header_size
    then none
    else if ltb (length s - header_size) (key_len s + value_len s)
    then none
    else some (
      record {
        key = take (key_len s) (drop header_size s);
        value = take (value_len s) (drop (key_len s) (drop header_size s));
        ttl = get_le64 (drop 8 s);
      },
      drop (value_len s) (drop (key_len s) (drop header_size s)),
    )
