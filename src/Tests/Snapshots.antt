-- ===== src/Tests/Snapshots.antt =====
-- Snapshots and the migration of a log on concrete inputs.
use tellstone.Prelude.{
  ℕ, Bytes, ◌≡◌, ◌⊎◌, ◌%◌, refl, true, false, none, some, [], ◌∷◌, codes, arith, replicate, length,
  u64_mod,
}
use tellstone.Prelude.Table.{select}
use tellstone.Crypto.Cipher.{active, enabled}
use tellstone.Storage.Engine
use tellstone.Storage.Engine.{new_engine, for_each, expired}
use tellstone.Wal.Format.{encode, header, read_record}
use tellstone.Wal.Handle.{Handle}
use tellstone.Wal.Replay.Crash.{apply_all}
use tellstone.Wal.Snapshot.{entries_of, snapshot_bytes}
use tellstone.Wal.Snapshot.Dumping.{DumpCalls, ForkCalls, fork_dump}
use tellstone.Wal.Snapshot.Outcome.{Ends, fork_dump-Ends}
use tellstone.Wal.Snapshot.Restore.{load_phases}
use tellstone.Wal.Snapshot.Restart.{resumed, load_phases-apply_all}
use tellstone.Wal.Migration.{MigrateCalls, wal_value, migrate}
use tellstone.Wal.Migration.Restart.{Restarts, migrate-Restarts}
use tellstone.Tests.Storage.{plain, plain-AeadLaws}
use tellstone.Tests.Wal.{first, second, first-IsSized, second-IsSized, moments, fresh, log}

abbrev sum : Bytes → ℕ
sum s = length s % u64_mod

abbrev no_key : Bytes
no_key = replicate 16 0

-- An engine with the entries of `first` and `second`.
abbrev filled : Engine.Engine
filled = record fresh {
  items =
      (codes "a", record { value = codes "one"; expiration = none })
      ∷ (codes "b", record { value = codes "two"; expiration = some 50 })
      ∷ [];
}

-- The parent writes 30 bytes into the pipe, which is one entry and a part of the other.
abbrev broken_pipe : ForkCalls
broken_pipe = record { pipe_ok = true; start_ok = true; cut = some 30; killed = none }

abbrev all_fine : DumpCalls
all_fine = record {
  open_ok = true;
  fault = none;
  sync_ok = true;
  close_ok = true;
  remove_ok = true;
  rename_ok = true;
  parent_ok = true;
}

fork_dump-Ends_example :
    Ends sum no_key
      (entries_of (for_each filled 10))
      (codes "snap")
      []
      (fork_dump sum broken_pipe all_fine [] no_key 9 filled 10 (codes "snap") [])
unfolding for_each expired select
fork_dump-Ends_example =
    fork_dump-Ends sum (λ s. omega arith) no_key refl broken_pipe all_fine [] 9 filled 10
      (codes "snap") [] (first-IsSized, (second-IsSized, tt))

load_phases-apply_all_example :
    load_phases sum log
      (some (snapshot_bytes sum 9 no_key (first ∷ second ∷ [])))
      moments
      moments
      fresh
      true
      true
    ≡ resumed log (first ∷ []) moments (apply_all moments fresh (first ∷ second ∷ []))
unfolding read_record new_engine
load_phases-apply_all_example =
    load_phases-apply_all sum (λ s. omega arith) log 9 (first ∷ second ∷ []) (first ∷ []) [] moments
      moments fresh true (first-IsSized, (second-IsSized, tt)) (refl, (refl, tt))
      (first-IsSized, tt) refl refl refl refl refl

abbrev old_log : Handle
old_log = record log { needs_migrate = true; pending_crypto = active plain (codes "fp") }

abbrev lost_sidecar : MigrateCalls
lost_sidecar = record {
  close_ok = true;
  create_ok = true;
  magic_ok = true;
  fault = λ i. none;
  sync_ok = true;
  close_new_ok = true;
  rename_ok = true;
  reopen_ok = true;
  sidecar_ok = false;
}

migrate-Restarts_example :
    (migrate lost_sidecar 10 old_log filled ≡ (old_log, false))
    ⊎ (Restarts plain (codes "fp") (migrate lost_sidecar 10 old_log filled).0 (first ∷ second ∷ [])
        × ((migrate lost_sidecar 10 old_log filled).1 ≡ true
            → (migrate lost_sidecar 10 old_log filled).0.nonce_ctr ≡ 2))
unfolding for_each expired select new_engine wal_value enabled encode header
migrate-Restarts_example =
    migrate-Restarts plain plain-AeadLaws (codes "fp") lost_sidecar 10 old_log filled first
      (second ∷ []) refl (omega arith) (omega arith) refl
      (
        record { sized = first-IsSized; small = omega arith },
        (record { sized = second-IsSized; small = omega arith }, tt),
      )
