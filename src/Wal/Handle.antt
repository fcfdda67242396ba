-- ===== src/Wal/Handle.antt =====
-- The open log of a shard and its writes: shardHandle, OpenShard, Write, Delete, appendRecord and
-- truncateWALLocked of internal/persistence/persistence.go. A file is its bytes. A fault says after
-- how many bytes an append fails; the bytes before it stay in the file. `none` is no fault.
use tellstone.Prelude.{
  ℕ, ◌+◌, ◌%◌, Bool, true, false, not, ◌&&◌, Option, none, some, [], ◌∷◌, ◌++◌, Bytes, bytes_eq,
  codes, length, take, ltb, ◌==◌, ◌-◌, if◌then◌else◌, add64, u32_mod, u64_mod, i64_sign,
}
use tellstone.Crypto.Cipher
use tellstone.Crypto.Cipher.{disabled, enabled, seal_with_counter}
use tellstone.Wal.Format.{Record, encode, le32, le64}

-- `crypto` is disabled where the source has a nil engine; `sealed` is walVer == 1. `sidecar` is
-- the number in the nonce file beside the log, 0 where there is none.
pub record Handle : Type 0 where
  pub file : Bytes
  pub crypto : Cipher.Engine
  pub sealed : Bool
  pub nonce_ctr : ℕ
  pub shard_id : ℕ
  pub needs_migrate : Bool
  pub pending_crypto : Cipher.Engine
  pub sidecar : ℕ

abbrev pub magic : Bytes
magic = codes "TSW" ++ (1 ∷ [])

-- tombstoneTTL, math.MinInt64
abbrev pub tombstone : ℕ
tombstone = i64_sign

abbrev pub Logged : Type 0
Logged = Handle × Bool

-- The writes to the end of the file and the sync behind them.
unfoldable pub append_bytes : Handle → Bytes → Option ℕ → Logged
append_bytes h b none = (record h { file = h.file ++ b }, true)
append_bytes h b (some n) = (record h { file = h.file ++ take n b }, false)

abbrev pub nonce_of : ℕ → ℕ → Bytes
nonce_of ctr shard = le64 ctr ++ le32 shard

-- The bytes of an encrypted record: its length, the nonce and the ciphertext.
abbrev pub packet : Bytes → Bytes → Bytes
packet nonce ciphertext = le32 (12 + length ciphertext) ++ (nonce ++ ciphertext)

-- appendRecordEncrypted
unfoldable pub append_sealed : Handle → Record → Option ℕ → Logged
unfolding append_bytes
append_sealed h r fault =
    let h' = record h { nonce_ctr = add64 h.nonce_ctr 1 } in
    elim (seal_with_counter h.crypto (nonce_of h.nonce_ctr h.shard_id) (encode r)) [
      | none ↦ (h', false)
      | some c ↦
          if ltb (u32_mod - 1) (12 + length c)
          then (h', false)
          else append_bytes h' (packet (nonce_of h.nonce_ctr h.shard_id) c) fault
    ]

-- appendRecord
unfoldable pub append_record : Handle → Record → Option ℕ → Logged
unfolding append_sealed append_bytes
append_record h r fault =
    if h.needs_migrate
    then (h, false)
    else if h.sealed
    then append_sealed h r fault
    else append_bytes h (encode r) fault

-- ttl.UnixNano(), or 0 for the zero time
abbrev pub nanos : Option ℕ → ℕ
nanos none = 0
nanos (some t) = t % u64_mod

-- Write
unfoldable pub write : Bool → Handle → Bytes → Bytes → Option ℕ → Option ℕ → Logged
unfolding append_record
write on h key value deadline fault =
    if not on
    then (h, true)
    else if ltb (u32_mod - 1) (length key)
    then (h, false)
    else if ltb (u32_mod - 1) (length value)
    then (h, false)
    else append_record h (record { key = key; value = value; ttl = nanos deadline }) fault

-- Delete
unfoldable pub delete : Bool → Handle → Bytes → Option ℕ → Logged
unfolding append_record
delete on h key fault =
    if not on
    then (h, true)
    else if ltb (u32_mod - 1) (length key)
    then (h, false)
    else append_record h (record { key = key; value = []; ttl = tombstone }) fault

-- OpenShard on a file with these bytes and a sidecar with this number; `none` is an error. The
-- counter starts at 0 until the log has been replayed.
unfoldable pub open_shard : Bytes → ℕ → ℕ → Cipher.Engine → Option ℕ → Option Handle
open_shard file sidecar shard crypto fault =
    let h : Handle = record {
      file = file;
      crypto = disabled;
      sealed = false;
      nonce_ctr = 0;
      shard_id = shard;
      needs_migrate = false;
      pending_crypto = disabled;
      sidecar = sidecar;
    } in
    if length file == 0
    then (if enabled crypto
        then elim fault [
          | none ↦ some (record h { file = magic; crypto = crypto; sealed = true })
          | some _ ↦ none
        ]
        else some h)
    else if ltb (length file) 4
    then none
    else if bytes_eq (take 4 file) magic
    then (if enabled crypto then some (record h { crypto = crypto; sealed = true }) else none)
    else if enabled crypto
    then some (record h { needs_migrate = true; pending_crypto = crypto })
    else some h

-- truncateWALLocked, with whether the sidecar is written and whether the truncation succeeds
unfoldable pub truncate : Handle → ℕ → Bool → Bool → Logged
truncate h offset sidecar_ok truncate_ok =
    if h.sealed && not sidecar_ok
    then (h, false)
    else let h' = if h.sealed then record h { sidecar = h.nonce_ctr } else h in
      if truncate_ok then (record h' { file = take offset h'.file }, true) else (h', false)

-- Snapshot behind snapshotForkDump: the boundary is the size of the log when the dump is complete.
unfoldable pub after_dump : Handle → Bool → Bool → Logged
unfolding truncate
after_dump h sidecar_ok truncate_ok = truncate h (length h.file) sidecar_ok truncate_ok
