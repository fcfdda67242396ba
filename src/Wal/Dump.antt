-- ===== src/Wal/Dump.antt =====
-- The truncation of the log behind a snapshot (Snapshot of internal/persistence/persistence.go).
use tellstone.Prelude.{◌≡◌, Bool, true, take_whole, arith}
use tellstone.Wal.Handle.{Handle, truncate, after_dump}

-- Whether or not the nonce file is written and the truncation succeeds, the truncation behind a dump
-- leaves every byte of the log in place, those of the records that the dump holds too; where it
-- succeeds on an encrypted log, the nonce file has the counter of the next record.
after_dump-file :
    (h : Handle) (sidecar_ok truncate_ok : Bool)
    → ((after_dump h sidecar_ok truncate_ok).0.file ≡ h.file)
      × ((after_dump h sidecar_ok truncate_ok).1 ≡ true
          → h.sealed ≡ true
          → (after_dump h sidecar_ok truncate_ok).0.sidecar ≡ h.nonce_ctr)
unfolding after_dump truncate
after_dump-file h sidecar_ok truncate_ok =
    (ground (arith, take_whole h.file), λ ok sealed. ground (arith, ok, sealed))
