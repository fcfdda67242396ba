-- ===== src/Tests/Shard.antt =====
-- A shard with a plaintext log, on concrete inputs.
use tellstone.Prelude.{
  ◌≡◌, refl, true, false, none, some, [], ◌∷◌, Bytes, codes, arith, bytes_eq, if◌then◌else◌,
}
use tellstone.Prelude.Run.{Run, done, panics}
use tellstone.Prelude.Table.{lookup, insert}
use tellstone.Crypto.Cipher.{disabled, enabled, encrypt_in_place, decrypt_in_place}
use tellstone.Storage.Engine
use tellstone.Storage.Engine.{
  engine_full, new_engine, set, get, put_item, commit, schedule, expires_at, over_limit,
  needed_size, item_size, find_live, expired,
}
use tellstone.Storage.Engine.View.{view, passed}
use tellstone.Wal.Format.{encode}
use tellstone.Wal.Handle.{Handle, write, append_record, append_bytes}
use tellstone.Wal.Replay.Crash.{encode_onto}
use tellstone.Shard.{Clock, Faults, Executed, is_found, store_logged, execute_set}
use tellstone.Shard.Logged.{
  IsPlain, Loads, record_of, left_behind, execute_set-logged, execute_set_rejected,
}

abbrev log : Handle
log = record {
  file = [];
  crypto = disabled;
  sealed = false;
  nonce_ctr = 0;
  shard_id = 3;
  needs_migrate = false;
  pending_crypto = disabled;
  sidecar = 0;
}

log-IsPlain : IsPlain log []
unfolding encode_onto
log-IsPlain = record { plain = refl; settled = refl; sized = tt; whole = refl }

abbrev clock : Clock
clock = record { deadline = 10; probe = 11; probe_later = 11; store = 12 }

abbrev fine : Faults
fine = record { write = none; undo = none }

abbrev a : Bytes
a = codes "a"

abbrev empty : Engine.Engine
empty = new_engine 0 1000 4 4 disabled

abbrev ended : Run Executed → Executed
ended (done r) = r
ended panics = (empty, log, record { value = none; ok = false; err = none })

abbrev first : Executed
first = ended (execute_set true empty log clock fine none a (codes "hi") 0)

abbrev second : Executed
second = ended (execute_set true first.0 first.1 clock fine none a (codes "long") 5)

execute_set-logged_example :
    ((j : Bytes)
      → view first.0 20 j ≡ (
          if bytes_eq a j
          then (if passed (expires_at 12 0) 20 then none else some (some (codes "hi")))
          else view empty 20 j))
    × IsPlain first.1 (record_of a (codes "hi") (expires_at 10 0) ∷ [])
    × Loads first.1 (record_of a (codes "hi") (expires_at 10 0) ∷ [])
unfolding execute_set store_logged set get find_live over_limit needed_size expires_at commit
    schedule put_item item_size encrypt_in_place enabled lookup insert new_engine write
    append_record append_bytes
execute_set-logged_example =
    execute_set-logged empty first.0 log first.1 [] clock fine none a (codes "hi") 0 20 log-IsPlain
      tt tt (omega arith) refl

first-IsPlain : IsPlain first.1 (record_of a (codes "hi") (expires_at 10 0) ∷ [])
unfolding execute_set store_logged set get find_live over_limit needed_size expires_at commit
    schedule put_item item_size encrypt_in_place enabled lookup insert new_engine write
    append_record append_bytes encode_onto encode
first-IsPlain = record {
  plain = refl;
  settled = refl;
  sized = (record { key_fits = omega arith; value_fits = omega arith; ttl_fits = omega arith }, tt);
  whole = refl;
}

execute_set_rejected_example :
    ((j : Bytes) → view second.0 20 j ≡ view first.0 20 j)
    × Loads second.1 (
        record_of a (codes "hi") (expires_at 10 0)
        ∷ left_behind
            (is_found (get first.0 11 11 a).1)
            a
            (record_of a (codes "long") (expires_at 10 5)))
unfolding execute_set store_logged set get find_live over_limit needed_size expires_at commit
    schedule put_item item_size encrypt_in_place decrypt_in_place enabled lookup insert new_engine
    bytes_eq expired write append_record append_bytes
execute_set_rejected_example =
    execute_set_rejected first.0 second.0 first.1 second.1
      (record_of a (codes "hi") (expires_at 10 0) ∷ []) clock fine none a (codes "long") 5 20
      engine_full first-IsPlain refl (omega arith) refl
