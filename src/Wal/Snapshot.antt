-- ===== src/Wal/Snapshot.antt =====
-- internal/persistence/snapshot.go: the file of a snapshot, how it is built and how it is read.
-- `sum` is xxhash's Sum64 of all bytes that are written to it; the pipe between the two processes is
-- the bytes that go through it.
pub mod Dumping
pub mod Restore
pub mod RoundTrip
pub mod Outcome
pub mod Restart
use tellstone.Prelude.{
  ℕ, zero, suc, ◌+◌, ◌-◌, Bool, true, false, not, ◌&&◌, ◌||◌, Option, none, some, List, [], ◌∷◌,
  ◌++◌, Bytes, bytes_eq, codes, length, take, drop, replicate, ltb, spos64, ◌==◌, if◌then◌else◌,
}
use tellstone.Prelude.Run.{Run, done, panics, ◌>>=◌}
use tellstone.Prelude.Table.{Table, insert, erase}
use tellstone.Crypto.Cipher.{enabled}
use tellstone.Storage.Engine
use tellstone.Storage.Engine.{Item, set_raw, set_from_buffer, for_each}
use tellstone.Wal.Format.{Record, encode, le32, le64, get_le32, get_le64, read_record}
use tellstone.Wal.Handle.{nanos}
use tellstone.Wal.Replay.{Moment, Applied, loaded, skipped, refused, Step}

abbrev pub snap_magic : Bytes
snap_magic = codes "TSNS"

-- The 32 bytes in front of the fingerprint.
abbrev pub base_header : ℕ → ℕ → ℕ → ℕ → Bytes
base_header version count now check =
    snap_magic ++ (le32 version ++ (le64 count ++ (le64 now ++ le64 check)))

-- buildSnapshotHeader
abbrev pub build_header : ℕ → Bytes → Bytes
build_header now fp = base_header 2 0 now 0 ++ fp

-- The entries as serializeEngineToWriter and snapshotWrite get them from ForEach.
abbrev pub entries_of : Table Item → List Record
entries_of [] = []
entries_of ((key, item) ∷ m) =
    record { key = key; value = item.value; ttl = nanos item.expiration } ∷ entries_of m

abbrev pub encode_all : List Record → Bytes
encode_all [] = []
encode_all (r ∷ rs) = encode r ++ encode_all rs

-- serializeEngineToWriter where no write fails
unfoldable pub serialize_engine : Engine.Engine → ℕ → Bytes
unfolding for_each encode
serialize_engine e now = encode_all (entries_of (for_each e now))

-- The entries of a whole body. It ends where no byte of another entry is there.
unfoldable pub parse_entries : ℕ → Bytes → Option (List Record)
unfolding read_record
parse_entries zero s = if length s == 0 then some [] else none
parse_entries (suc n) s = if length s == 0 then some [] else elim (read_record s) [
  | none ↦ none
  | some (r, rest) ↦ elim (parse_entries n rest) [ none ↦ none | some rs ↦ some (r ∷ rs) ]
]

pub data ReadError : Type 0 where
  bad_header fingerprint_mismatch bad_entries bad_checksum : ReadError

pub data Read : Type 0 where
  broken : ReadError → Read
  entries : List Record → Read

abbrev pub has_version : Bytes → ℕ → Bool
has_version file v = get_le32 (drop 4 file) == v

abbrev pub fingerprint_of : Bytes → Bytes
fingerprint_of file = if has_version file 2 then take 16 (drop 32 file) else replicate 16 0

abbrev pub body_of : Bytes → Bytes
body_of file = if has_version file 2 then drop 48 file else drop 32 file

-- What is hashed: the header with its count and checksum zeroed, the fingerprint of version 2 and
-- the entries.
abbrev pub hashed_of : Bytes → Bytes
hashed_of file = (take 8 file ++ (le64 0 ++ (take 8 (drop 16 file) ++ le64 0))) ++ drop 32 file

module _ (sum : Bytes → ℕ) where
  -- The bytes of the file once its header is patched.
  unfoldable pub snapshot_bytes : ℕ → Bytes → List Record → Bytes
  unfolding encode
  snapshot_bytes now fp rs =
      base_header 2 (length rs) now (sum (build_header now fp ++ encode_all rs))
      ++ (fp ++ encode_all rs)

  -- The part of snapshotRead before the engine is touched.
  unfoldable pub read_snapshot : Bytes → Bytes → Read
  unfolding parse_entries
  read_snapshot fp file =
      if ltb (length file) 32
      then broken bad_header
      else if not (bytes_eq (take 4 file) snap_magic)
      then broken bad_header
      else if not (has_version file 1) && not (has_version file 2)
      then broken bad_header
      else if has_version file 2 && ltb (length file) 48
      then broken bad_header
      else if not (bytes_eq (fingerprint_of file) fp)
      then broken fingerprint_mismatch
      else elim (parse_entries (length file) (body_of file)) [
        | none ↦ broken bad_entries
        | some rs ↦
            if sum (hashed_of file) == get_le64 (drop 24 file)
            then entries rs
            else broken bad_checksum
      ]
