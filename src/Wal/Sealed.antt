-- ===== src/Wal/Sealed.antt =====
-- replayWALEncrypted of internal/persistence/persistence.go: a record is its length, a nonce of
-- counter and shard, and the ciphertext of its bytes.
pub mod Packet
pub mod Crash
pub mod Counter
use tellstone.Prelude.{
  ℕ, zero, suc, ◌+◌, ◌-◌, Bool, Option, none, some, Bytes, length, take, drop, ltb, ◌==◌,
  if◌then◌else◌, add64,
}
use tellstone.Prelude.Run.{Run, done, panics}
use tellstone.Crypto.Cipher
use tellstone.Crypto.Cipher.{open_with_counter}
use tellstone.Storage.Engine
use tellstone.Wal.Format.{Record, header_size, get_le32, get_le64, key_len, value_len}
use tellstone.Wal.Handle.{Handle}
use tellstone.Wal.Replay.{Moment, Applied, refused, apply_record, finish_replay}

-- One turn of the loop up to the plaintext: the end, a record whose counter was seen but that does
-- not open, or the counter, the plaintext and the bytes behind it.
pub data Sealed : Type 0 where
  ended : Sealed
  unreadable : ℕ → Sealed
  readable : ℕ → Bytes → Bytes → Sealed

unfoldable pub read_packet : Cipher.Engine → Bytes → Bytes → Sealed
read_packet c body rest = elim (open_with_counter c (take 12 body) (drop 12 body)) [
  | none ↦ unreadable (get_le64 body)
  | some p ↦
      if ltb (length p) header_size
      then unreadable (get_le64 body)
      else readable (get_le64 body) p rest
]

unfoldable pub read_sealed : Cipher.Engine → Bytes → Sealed
unfolding read_packet
read_sealed c s =
    if ltb (length s) 4
    then ended
    else if ltb (get_le32 s) (12 + 16)
    then ended
    else if ltb (length s - 4) (get_le32 s)
    then ended
    else read_packet c (take (get_le32 s) (drop 4 s)) (drop (get_le32 s) (drop 4 s))

-- The record of a plaintext whose two lengths add up.
unfoldable pub parse_plaintext : Bytes → Option Record
parse_plaintext p =
    if key_len p + value_len p == length p - header_size
    then some (record {
      key = take (key_len p) (drop header_size p);
      value = take (value_len p) (drop (key_len p) (drop header_size p));
      ttl = get_le64 (drop 8 p);
    })
    else none

abbrev pub larger : ℕ → ℕ → ℕ
larger m c = if ltb m c then c else m

-- The engine, the error, the largest counter that was seen, and the bytes from the last valid
-- offset on.
abbrev pub Unsealed : Type 0
Unsealed = Engine.Engine × Option Engine.Error × ℕ × Bytes

-- The loop, with as many turns as the file has bytes.
unfoldable pub replay_sealed :
    ℕ → (ℕ → Moment) → Cipher.Engine → ℕ → Engine.Engine → Bytes → Run Unsealed
unfolding apply_record
replay_sealed zero ms c top e s = done (e, none, top, s)
replay_sealed (suc n) ms c top e s = elim (read_sealed c s) [
  | ended ↦ done (e, none, top, s)
  | unreadable ctr ↦ done (e, none, larger top ctr, s)
  | readable ctr p rest ↦ elim (parse_plaintext p) [
    | none ↦ done (e, none, larger top ctr, rest)
    | some r ↦ elim (apply_record e (ms 0) r) [
      | panics ↦ panics
      | done (e', refused err) ↦ done (e', some err, top, s)
      | done (e', _) ↦ replay_sealed n (λ i. ms (suc i)) c (larger top ctr) e' rest
    ]
  ]
]

-- The counter that the next record takes.
unfoldable pub next_counter : ℕ → ℕ → ℕ
next_counter top sidecar = if ltb (add64 top 1) sidecar then sidecar else add64 top 1

abbrev pub LoadedLog : Type 0
LoadedLog = Handle × Engine.Engine × Option Engine.Error

-- replayWAL on an encrypted log, with whether the sidecar is written and the truncation succeeds.
unfoldable pub load_sealed : Handle → (ℕ → Moment) → Engine.Engine → Bool → Bool → Run LoadedLog
unfolding replay_sealed finish_replay next_counter
load_sealed h ms e sidecar_ok truncate_ok =
    elim (replay_sealed (length h.file) ms h.crypto 0 e (drop 4 h.file)) [
      | panics ↦ panics
      | done (e', some err, top, s) ↦ done (h, e', some err)
      | done (e', none, top, s) ↦
          let ctr = next_counter top h.sidecar in
          let h' = record h { nonce_ctr = ctr; sidecar = if sidecar_ok then ctr else h.sidecar } in
          done (finish_replay h' s truncate_ok, e', none)
    ]
