-- ===== src/Shard.antt =====
-- Shard.Execute of internal/shard/runner.go: the log of internal/persistence first, then the engine.
pub mod Logged
use tellstone.Prelude.{ℕ, Bool, true, false, not, ◌&&◌, Option, none, some, Bytes, if◌then◌else◌}
use tellstone.Prelude.Run.{Run, done, ◌>>=◌}
use tellstone.Storage.Engine
use tellstone.Storage.Engine.{expires_at, set, get}
use tellstone.Wal.Handle
use tellstone.Wal.Handle.{write}

pub data Failure : Type 0 where
  log_failed : Failure
  engine_failed : Engine.Error → Failure

pub record Response : Type 0 where
  pub value : Option Bytes
  pub ok : Bool
  pub err : Option Failure

abbrev pub failure : Failure → Response
failure f = record { value = none; ok = false; err = some f }

abbrev pub success : Bool → Response
success ok = record { value = none; ok = ok; err = none }

-- The readings of the clock in one call, in their order.
pub record Clock : Type 0 where
  pub deadline : ℕ
  pub probe : ℕ
  pub probe_later : ℕ
  pub store : ℕ

abbrev pub is_found : Option Bytes → Bool
is_found none = false
is_found (some v) = true

-- How far the writes to the log come where they fail: that of the record, and that of the deletion
-- behind a refusal of the engine.
pub record Faults : Type 0 where
  pub write : Option ℕ
  pub undo : Option ℕ

abbrev pub Executed : Type 0
Executed = Engine.Engine × Handle.Handle × Response

-- The part of the case of SET behind the log. A deletion that fails is only logged.
unfoldable pub store_logged :
    Bool
    → Bool
    → Engine.Engine
    → Handle.Handle
    → ℕ
    → Option Bytes
    → Bytes
    → Bytes
    → ℕ
    → Option ℕ
    → Run Executed
store_logged on existed e h now entropy key value ttl undo = do
  r ← set e now entropy key value ttl
  done (elim r.1 [
    | none ↦ (r.0, h, success true)
    | some err ↦ (
      r.0,
      (if on && not existed then (Handle.delete on h key undo).0 else h),
      failure (engine_failed err),
    )
  ])

-- The case of SET; `on` is Persistence.Enabled().
unfoldable pub execute_set :
    Bool
    → Engine.Engine
    → Handle.Handle
    → Clock
    → Faults
    → Option Bytes
    → Bytes
    → Bytes
    → ℕ
    → Run Executed
unfolding store_logged expires_at
execute_set on e h c faults entropy key value ttl =
    let (e', found) = get e c.probe c.probe_later key in
    let (h', written) = write on h key value (expires_at c.deadline ttl) faults.write in
    if written
    then store_logged on (is_found found) e' h' c.store entropy key value ttl faults.undo
    else done (e', h', failure log_failed)

-- The case of DEL.
unfoldable pub execute_del : Bool → Engine.Engine → Handle.Handle → ℕ → Option ℕ → Bytes → Executed
execute_del on e h now fault key =
    let (h', gone) = Handle.delete on h key fault in
    if gone
    then (let (e', ok) = Engine.delete e now key in (e', h', success ok))
    else (e, h', failure log_failed)

-- The case of GET.
unfoldable pub execute_get : Engine.Engine → Handle.Handle → ℕ → ℕ → Bytes → Executed
execute_get e h now later key =
    let (e', found) = get e now later key in
    (e', h, record { value = found; ok = is_found found; err = none })
