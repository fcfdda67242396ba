-- ===== src/Wal/Replay.antt =====
-- replayWALPlaintext, applyRecord and finishReplay of internal/persistence/persistence.go. The clock
-- and the random bytes that the replay of a record reads are its `Moment`.
pub mod Crash
pub mod Recovery
pub mod Stale
use tellstone.Prelude.{
  ℕ, zero, suc, ◌+◌, ◌-◌, Bool, true, false, not, ◌&&◌, Option, none, some, List, [], ◌∷◌, ◌++◌,
  Bytes, length, take, ltb, spos64, ◌==◌, if◌then◌else◌,
}
use tellstone.Prelude.Run.{Run, done, panics, ◌>>=◌}
use tellstone.Storage.Engine
use tellstone.Storage.Engine.{set, delete}
use tellstone.Wal.Format.{Record, read_record}
use tellstone.Wal.Handle.{Handle, tombstone}

-- The reading of time.Until, that of the engine's call, and the engine's random bytes.
pub record Moment : Type 0 where
  pub until : ℕ
  pub store : ℕ
  pub entropy : Option Bytes

pub data Applied : Type 0 where
  loaded skipped : Applied
  refused : Engine.Error → Applied

abbrev pub Step : Type 0
Step = Engine.Engine × Applied

abbrev pub set_record : Engine.Engine → Moment → Record → ℕ → Run Step
set_record e m r ttl = do
  s ← set e m.store m.entropy r.key r.value ttl
  done (s.0, elim s.1 [ none ↦ loaded | some err ↦ refused err ])

-- applyRecord; its errRecordExpired is `skipped`.
unfoldable pub apply_record : Engine.Engine → Moment → Record → Run Step
apply_record e m r =
    if r.ttl == tombstone
    then done ((delete e m.store r.key).0, skipped)
    else if r.ttl == 0
    then set_record e m r 0
    else if spos64 r.ttl && ltb m.until r.ttl
    then set_record e m r (r.ttl - m.until)
    else done (e, skipped)

-- What a replay ends with: the engine, the error that stopped it, and the bytes from the last
-- record on that was not taken.
abbrev pub Replayed : Type 0
Replayed = Engine.Engine × Option Engine.Error × Bytes

-- The loop of replayWALPlaintext, with as many turns as the file has bytes.
unfoldable pub replay_plain : ℕ → (ℕ → Moment) → Engine.Engine → Bytes → Run Replayed
unfolding apply_record
replay_plain zero ms e s = done (e, none, s)
replay_plain (suc n) ms e s = elim (read_record s) [
  | none ↦ done (e, none, s)
  | some (r, rest) ↦ elim (apply_record e (ms 0) r) [
    | panics ↦ panics
    | done (e', refused err) ↦ done (e', some err, s)
    | done (e', _) ↦ replay_plain n (λ i. ms (suc i)) e' rest
  ]
]

-- finishReplay: a tail that is not valid is cut off, where the truncation succeeds.
unfoldable pub finish_replay : Handle → Bytes → Bool → Handle
finish_replay h tail truncate_ok =
    if truncate_ok then record h { file = take (length h.file - length tail) h.file } else h

-- replayWAL on a plaintext log
unfoldable pub load_plain :
    Handle
    → (ℕ → Moment)
    → Engine.Engine
    → Bool
    → Run (Handle × Engine.Engine × Option Engine.Error)
unfolding replay_plain finish_replay
load_plain h ms e truncate_ok = elim (replay_plain (length h.file) ms e h.file) [
  | panics ↦ panics
  | done (e', some err, s) ↦ done (h, e', some err)
  | done (e', none, s) ↦ done (finish_replay h s truncate_ok, e', none)
]
