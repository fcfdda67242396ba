-- ===== src/Tests/Wal.antt =====
-- The log and its replay on concrete inputs, with the cipher's primitive of the storage tests.
use tellstone.Prelude.{
  ℕ, ◌+◌, ◌*◌, ◌≡◌, bytes_eq, refl, true, false, none, some, [], ◌∷◌, ◌++◌, codes, arith, replicate,
}
use tellstone.Prelude.Run.{done}
use tellstone.Prelude.Table.{lookup, insert}
use tellstone.Crypto.Cipher.{disabled, nonce_size, encrypt_in_place, enabled}
use tellstone.Storage.Chronometer.{new_chronometer, register_on, register, target_slot, steps_ahead}
use tellstone.Storage.Engine
use tellstone.Storage.Engine.{
  new_engine, set, over_limit, needed_size, expires_at, commit, schedule, put_item, item_size,
}
use tellstone.Storage.Engine.Total.{new_engine-IsValid}
use tellstone.Storage.Engine.View.{view}
use tellstone.Storage.Engine.Spec.{promised}
use tellstone.Wal.Format.{Record, encode, header}
use tellstone.Wal.Format.Torn.{IsSized}
use tellstone.Wal.Handle.{Handle, magic, append_record}
use tellstone.Wal.Replay.{Moment, load_plain, apply_record}
use tellstone.Wal.Replay.Crash.{encode_onto, recovered, apply_all, load_plain-append_record}
use tellstone.Wal.Replay.Recovery.{Recovers, apply_all-Recovers}
use tellstone.Wal.Replay.Stale.{apply_all-stale}
use tellstone.Wal.Sealed.{load_sealed}
use tellstone.Wal.Sealed.Crash.{seal_onto}
use tellstone.Wal.Sealed.Counter.{IsOpen, reopened, load_sealed-append_record}
use tellstone.Tests.Storage.{plain, plain-AeadLaws, cipher, after}

abbrev pub first : Record
first = record { key = codes "a"; value = codes "one"; ttl = 0 }

abbrev pub second : Record
second = record { key = codes "b"; value = codes "two"; ttl = 50 }

pub first-IsSized : IsSized first
first-IsSized = record { key_fits = omega arith; value_fits = omega arith; ttl_fits = omega arith }

pub second-IsSized : IsSized second
second-IsSized = record { key_fits = omega arith; value_fits = omega arith; ttl_fits = omega arith }

abbrev pub moments : ℕ → Moment
moments i = record { until = 10; store = 11; entropy = some (replicate nonce_size 7) }

abbrev pub fresh : Engine.Engine
fresh = new_engine 0 1000 4 64 disabled

abbrev pub log : Handle
log = record {
  file = encode_onto (first ∷ []) [];
  crypto = disabled;
  sealed = false;
  nonce_ctr = 0;
  shard_id = 3;
  needs_migrate = false;
  pending_crypto = disabled;
  sidecar = 0;
}

load_plain-append_record_example :
    (load_plain (append_record log second none).0 moments fresh true
      ≡ recovered
          (append_record log second none).0
          (first ∷ second ∷ [])
          (apply_all moments fresh (first ∷ second ∷ [])))
    × (load_plain (append_record log second (some 17)).0 moments fresh true
        ≡ recovered
            (append_record log second (some 17)).0
            (first ∷ [])
            (apply_all moments fresh (first ∷ [])))
unfolding encode header
load_plain-append_record_example =
    load_plain-append_record log moments fresh (first ∷ []) second 17 refl refl refl
      (first-IsSized, tt) second-IsSized (omega arith)

apply_all-Recovers_example : Recovers moments fresh (λ key. none) 0 (first ∷ second ∷ [])
unfolding promised
apply_all-Recovers_example =
    apply_all-Recovers moments fresh (λ key. none) 0 (first ∷ second ∷ [])
      (new_engine-IsValid 0 1000 4 64 disabled (omega arith))
      (record {
        lawful = unfold new_engine in tt;
        same = λ u j k. unfold new_engine view lookup in refl;
      })
      (λ i. refl)

abbrev sealed_log : Handle
sealed_log = record {
  file = magic ++ seal_onto plain 3 5 (first ∷ []) [];
  crypto = cipher;
  sealed = true;
  nonce_ctr = 6;
  shard_id = 3;
  needs_migrate = false;
  pending_crypto = disabled;
  sidecar = 5;
}

sealed_log-IsOpen : IsOpen plain (codes "fp") sealed_log 5 first []
unfolding encode header
sealed_log-IsOpen = record {
  cipher = refl;
  encrypted = refl;
  settled_log = refl;
  packets = refl;
  next = refl;
  behind = omega arith;
  room = omega arith;
  sealable = (record { sized = first-IsSized; small = omega arith }, tt);
}

load_sealed-append_record_example :
    (load_sealed (append_record sealed_log second none).0 moments fresh true true
      ≡ reopened
          (append_record sealed_log second none).0
          (magic ++ seal_onto plain 3 5 (first ∷ second ∷ []) [])
          7
          (apply_all moments fresh (first ∷ second ∷ [])))
    × (load_sealed (append_record sealed_log second (some 20)).0 moments fresh true true
        ≡ reopened
            (append_record sealed_log second (some 20)).0
            sealed_log.file
            6
            (apply_all moments fresh (first ∷ [])))
unfolding encode header
load_sealed-append_record_example =
    load_sealed-append_record plain plain-AeadLaws (codes "fp") sealed_log moments fresh 5 first []
      second 20 sealed_log-IsOpen (record { sized = second-IsSized; small = omega arith })
      (omega arith)

abbrev one : Engine.Engine
one = after (set fresh 11 none (codes "a") (codes "old") 0) fresh

abbrev two : Engine.Engine
two = after (set one 12 none (codes "a") (codes "new") 5) one

abbrev later : ℕ → Moment
later i = record { until = 11 + 20 * i; store = 11 + 20 * i; entropy = none }

apply_all-stale_example :
    (view two 40 (codes "a") ≡ none)
    × (apply_all later fresh (
          record { key = codes "a"; value = codes "old"; ttl = 0 }
          ∷ record { key = codes "a"; value = codes "new"; ttl = 12 + 5 }
          ∷ [])
        ≡ done (one, none))
    × (view one 40 (codes "a") ≡ some (some (codes "old")))
unfolding set over_limit needed_size expires_at commit schedule register_on register put_item
    item_size encrypt_in_place enabled lookup insert new_engine new_chronometer target_slot
    steps_ahead apply_record bytes_eq
apply_all-stale_example =
    apply_all-stale later fresh one two none (codes "a") (codes "old") (codes "new") 12 5 40 tt tt
      tt refl refl (omega arith) (omega arith) (omega arith) (omega arith)
