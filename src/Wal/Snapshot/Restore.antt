-- ===== src/Wal/Snapshot/Restore.antt =====
-- The load of a snapshot into an engine: snapshotRead, snapshotExists and the first two phases of
-- LoadShard of internal/persistence.
use tellstone.Prelude.{
  ℕ, suc, ◌-◌, Bool, false, not, ◌&&◌, Option, none, some, List, [], ◌∷◌, ◌++◌, Bytes, bytes_eq,
  length, take, replicate, ltb, spos64, ◌==◌, if◌then◌else◌,
}
use tellstone.Prelude.Run.{Run, done, panics, ◌>>=◌}
use tellstone.Crypto.Cipher
use tellstone.Crypto.Cipher.{enabled}
use tellstone.Storage.Engine
use tellstone.Storage.Engine.{set_raw, set_from_buffer}
use tellstone.Wal.Format.{Record}
use tellstone.Wal.Handle.{Handle}
use tellstone.Wal.Replay.{Moment, loaded, skipped, refused, Step, load_plain}
use tellstone.Wal.Sealed.{load_sealed}
use tellstone.Wal.Snapshot.{snap_magic, ReadError, broken, entries, read_snapshot}

-- One entry of the loop of snapshotRead that writes to the engine.
unfoldable pub restore_entry : Engine.Engine → Moment → Record → ℕ → Run Step
unfolding set_raw set_from_buffer
restore_entry e m r ttl = do
  s ←
      if enabled e.crypto
      then set_raw e m.store r.key r.value ttl
      else set_from_buffer e m.store m.entropy (r.key ++ r.value) (some (length r.key)) ttl
  done (s.0, elim s.1 [ none ↦ loaded | some err ↦ refused err ])

unfoldable pub restore_one : Engine.Engine → Moment → Record → Run Step
unfolding restore_entry
restore_one e m r =
    if r.ttl == 0
    then restore_entry e m r 0
    else if spos64 r.ttl && ltb m.until r.ttl
    then restore_entry e m r (r.ttl - m.until)
    else done (e, skipped)

-- The loop, up to the first entry that the engine refuses.
unfoldable pub restore_all :
    (ℕ → Moment) → Engine.Engine → List Record → Run (Engine.Engine × Option Engine.Error)
unfolding restore_one
restore_all ms e [] = done (e, none)
restore_all ms e (r ∷ rs) = elim (restore_one e (ms 0) r) [
  | panics ↦ panics
  | done (e', refused err) ↦ done (e', some err)
  | done (e', _) ↦ restore_all (λ i. ms (suc i)) e' rs
]

-- What a load fails with.
pub data LoadError : Type 0 where
  bad_snapshot : ReadError → LoadError
  refused_entry : Engine.Error → LoadError
  refused_record : Engine.Error → LoadError

abbrev pub Restored : Type 0
Restored = Run (Engine.Engine × Option LoadError)

abbrev pub restored : Run (Engine.Engine × Option Engine.Error) → Restored
restored panics = panics
restored (done (e, none)) = done (e, none)
restored (done (e, some err)) = done (e, some (refused_entry err))

-- snapshotRead on the bytes of the file
unfoldable pub snapshot_read : (Bytes → ℕ) → Bytes → Bytes → (ℕ → Moment) → Engine.Engine → Restored
unfolding read_snapshot restore_all
snapshot_read sum fp file ms e = elim (read_snapshot sum fp file) [
  | broken err ↦ done (e, some (bad_snapshot err))
  | entries rs ↦ restored (restore_all ms e rs)
]

-- KeyFingerprint, with the zero value where there is no engine
abbrev pub key_fingerprint : Cipher.Engine → Bytes
key_fingerprint Cipher.disabled = replicate 16 0
key_fingerprint (Cipher.active a fp) = fp

-- snapshotExists, on the bytes of a file that can be opened
abbrev pub snapshot_exists : Option Bytes → Bool
snapshot_exists none = false
snapshot_exists (some file) = not (ltb (length file) 4) && bytes_eq (take 4 file) snap_magic

abbrev pub Loaded : Type 0
Loaded = Run (Handle × Engine.Engine × Option LoadError)

abbrev pub replayed : Run (Handle × Engine.Engine × Option Engine.Error) → Loaded
replayed panics = panics
replayed (done (h, e, none)) = done (h, e, none)
replayed (done (h, e, some err)) = done (h, e, some (refused_record err))

-- replayWAL
unfoldable pub replay_wal : Handle → (ℕ → Moment) → Engine.Engine → Bool → Bool → Loaded
unfolding load_sealed load_plain
replay_wal h ms e sidecar_ok truncate_ok =
    if h.sealed
    then replayed (load_sealed h ms e sidecar_ok truncate_ok)
    else replayed (load_plain h ms e truncate_ok)

abbrev pub snapshot_of :
    (Bytes → ℕ) → Handle → Option Bytes → (ℕ → Moment) → Engine.Engine → Restored
snapshot_of sum h none ms e = done (e, none)
snapshot_of sum h (some file) ms e =
    if snapshot_exists (some file)
    then snapshot_read sum (key_fingerprint h.crypto) file ms e
    else done (e, none)

-- LoadShard up to the migration: the snapshot, then the log on top of it
unfoldable pub load_phases :
    (Bytes → ℕ)
    → Handle
    → Option Bytes
    → (ℕ → Moment)
    → (ℕ → Moment)
    → Engine.Engine
    → Bool
    → Bool
    → Loaded
unfolding snapshot_read replay_wal
load_phases sum h snap ms ms' e sidecar_ok truncate_ok = elim (snapshot_of sum h snap ms e) [
  | panics ↦ panics
  | done (e', some err) ↦ done (h, e', some err)
  | done (e', none) ↦ replay_wal h ms' e' sidecar_ok truncate_ok
]
