-- ===== src/Tests/Keys.antt =====
-- Envelopes and a rotation on concrete inputs, with a digest that pads a key.
use tellstone.Prelude.{
  ℕ, ◌≡◌, ◌⊎◌, refl, subst, true, Option, none, some, [], ◌∷◌, ◌++◌, Bytes, bytes_eq, has_prefix,
  codes, take, replicate, arith, length-append, length-take,
}
use tellstone.Prelude.Table.{lookup}
use tellstone.Crypto.Cipher.{AeadLaws, nonce_size, active, new_engine, enabled}
use tellstone.Crypto.Envelope.{
  Primitives, fingerprint, Envelope, new_envelope, store, load, Directory, Calls,
}
use tellstone.Crypto.Rewrap.{is_envelope, atomic_write, rewrap_envelopes}
use tellstone.Crypto.Rewrap.Keeps.{Holds}
use tellstone.Crypto.Rewrap.Safe.{PrimitiveLaws, rewrap_envelopes-Holds}
use tellstone.Crypto.Rewrap.Written.{atomic_write_lost, load-store}
use tellstone.Tests.Storage.{plain, plain-AeadLaws}

abbrev primitives : Primitives
primitives = record {
  construct = λ key. some plain;
  digest = λ key. take 32 (key ++ replicate 32 0);
}

primitives-PrimitiveLaws : PrimitiveLaws primitives
primitives-PrimitiveLaws = record {
  lawful = λ key a made. subst AeadLaws (ground arith) plain-AeadLaws;
  length-digest = λ key.
      omega
        (arith, length-take {0} 32 (key ++ replicate 32 0), length-append {0} key (replicate 32 0));
}

abbrev first_key : Bytes
first_key = replicate 32 1

abbrev second_key : Bytes
second_key = replicate 32 2

abbrev envelope : Bytes → Envelope
envelope key = record { kek = key; dek = []; engine = active plain (take 16 key) }

abbrev nonces : ℕ → Option Bytes
nonces i = some (replicate nonce_size 7)

abbrev fine : Calls
fine = record {
  open_ok = true;
  write_fault = none;
  sync_ok = true;
  close_ok = true;
  remove_ok = true;
  rename_ok = true;
  parent_ok = true;
}

abbrev directory : Directory
directory = (codes "shard-0.env", 1 ∷ take 16 first_key ++ replicate 60 3) ∷ []

rewrap_envelopes-Holds_example :
    Holds primitives
      (envelope first_key)
      (envelope second_key)
      directory
      (rewrap_envelopes primitives first_key second_key true
        (λ i. record { copy_fault = none; calls = fine })
        nonces
        directory).0
unfolding new_envelope new_engine fingerprint bytes_eq
rewrap_envelopes-Holds_example =
    rewrap_envelopes-Holds primitives primitives-PrimitiveLaws first_key second_key
      (envelope first_key) (envelope second_key) true
      (λ i. record { copy_fault = none; calls = fine }) nonces directory refl refl refl (λ i. refl)

abbrev full_disk : Calls
full_disk = record fine { write_fault = some 9 }

atomic_write_lost_example :
    ((atomic_write full_disk (codes "shard-0.env") (replicate 60 4) directory).1 ≡ true)
    × ((other : Bytes)
        → is_envelope other ≡ true
        → lookup other (atomic_write full_disk (codes "shard-0.env") (replicate 60 4) directory).0
          ≡ lookup other directory)
atomic_write_lost_example =
    atomic_write_lost full_disk (codes "shard-0.env") (replicate 60 4) directory refl refl

abbrev with_key : Envelope
with_key = record (envelope first_key) { dek = replicate 32 5 }

load-store_example :
    let out = store primitives with_key true fine (nonces 0) (codes "shard-1.env") directory in
    ((load primitives (envelope first_key) (codes "shard-1.env") out.0 ≡ some with_key)
      ⊎ (load primitives (envelope first_key) (codes "shard-1.env") out.0
          ≡ load primitives (envelope first_key) (codes "shard-1.env") directory))
    × (out.1 ≡ true
        → load primitives (envelope first_key) (codes "shard-1.env") out.0 ≡ some with_key)
unfolding enabled fingerprint is_envelope bytes_eq has_prefix
load-store_example =
    load-store primitives with_key refl plain-AeadLaws refl true fine (nonces 0)
      (codes "shard-1.env") [] directory refl refl
