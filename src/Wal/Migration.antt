-- ===== src/Wal/Migration.antt =====
-- The migration of a plaintext log to an encrypted one: LoadShard of
-- internal/persistence/persistence.go behind the replay. The bytes of a handle are those of the file
-- at the log's path, whether or not it could be opened again.
pub mod Restart
use tellstone.Prelude.{
  ℕ, suc, Bool, true, false, not, ◌&&◌, Option, none, some, [], ◌∷◌, Bytes, if◌then◌else◌,
}
use tellstone.Prelude.Run.{Run, done, panics}
use tellstone.Prelude.Table.{Table}
use tellstone.Crypto.Cipher
use tellstone.Crypto.Cipher.{disabled, enabled, decrypt_in_place}
use tellstone.Storage.Engine
use tellstone.Storage.Engine.{Item, for_each}
use tellstone.Wal.Handle.{Handle, Logged, magic, nanos, append_sealed}
use tellstone.Wal.Replay.{Moment}
use tellstone.Wal.Snapshot.Restore.{LoadError, load_phases}

-- `fault i` is how far the write of the i-th record comes where it fails.
pub record MigrateCalls : Type 0 where
  pub close_ok : Bool
  pub create_ok : Bool
  pub magic_ok : Bool
  pub fault : ℕ → Option ℕ
  pub sync_ok : Bool
  pub close_new_ok : Bool
  pub rename_ok : Bool
  pub reopen_ok : Bool
  pub sidecar_ok : Bool

-- The handle on the temporary file behind its magic.
abbrev pub fresh_log : Handle → Handle
fresh_log h = record {
  file = magic;
  crypto = h.pending_crypto;
  sealed = true;
  nonce_ctr = 0;
  shard_id = h.shard_id;
  needs_migrate = false;
  pending_crypto = disabled;
  sidecar = h.sidecar;
}

-- The value as the log takes it, out of the engine's own encryption.
unfoldable pub wal_value : Bool → Cipher.Engine → Bytes → Option Bytes
unfolding decrypt_in_place
wal_value at_rest crypto value = if at_rest then decrypt_in_place crypto value else some value

-- The records under the callback of ForEach, up to the first error.
unfoldable pub seal_entries : Bool → Handle → Table Item → (ℕ → Option ℕ) → Option Handle
unfolding wal_value append_sealed
seal_entries at_rest t [] fault = some t
seal_entries at_rest t ((key, item) ∷ m) fault = elim (wal_value at_rest t.crypto item.value) [
  | none ↦ none
  | some value ↦
      let s =
        append_sealed t (record { key = key; value = value; ttl = nanos item.expiration })
          (fault 0) in
      let rest = seal_entries at_rest s.0 m (λ i. fault (suc i)) in if s.1 then rest else none
]

-- The handle on the file that was put in the log's place.
abbrev pub switched : MigrateCalls → Handle → Handle → Handle
switched c h t = record {
  file = t.file;
  crypto = h.pending_crypto;
  sealed = true;
  nonce_ctr = t.nonce_ctr;
  shard_id = h.shard_id;
  needs_migrate = false;
  pending_crypto = disabled;
  sidecar = if c.sidecar_ok then t.nonce_ctr else h.sidecar;
}

-- The end of the migration: the swap of the files.
unfoldable pub swap : MigrateCalls → Handle → Option Handle → Logged
swap c h none = (h, false)
swap c h (some t) =
    if not (c.sync_ok && (c.close_new_ok && c.rename_ok))
    then (h, false)
    else if c.reopen_ok
    then (switched c h t, true)
    else (record h { file = t.file }, false)

unfoldable pub migrate : MigrateCalls → ℕ → Handle → Engine.Engine → Logged
unfolding seal_entries swap for_each
migrate c clock h e =
    if not (c.close_ok && (c.create_ok && c.magic_ok))
    then (h, false)
    else swap c h (seal_entries (enabled e.crypto) (fresh_log h) (for_each e clock) c.fault)

-- LoadShard: what the two phases come to, and whether a migration behind them succeeded.
unfoldable pub load_shard :
    Bool
    → (Bytes → ℕ)
    → MigrateCalls
    → ℕ
    → Handle
    → Option Bytes
    → (ℕ → Moment)
    → (ℕ → Moment)
    → Engine.Engine
    → Bool
    → Bool
    → Run (Handle × Engine.Engine × Option LoadError × Bool)
unfolding load_phases migrate
load_shard on sum c clock h snap ms ms' e sidecar_ok truncate_ok =
    if not on
    then done (h, e, none, true)
    else elim (load_phases sum h snap ms ms' e sidecar_ok truncate_ok) [
      | panics ↦ panics
      | done (h', e', some err) ↦ done (h', e', some err, true)
      | done (h', e', none) ↦
          if h'.needs_migrate
          then done ((migrate c clock h' e').0, e', none, (migrate c clock h' e').1)
          else done (h', e', none, true)
    ]
