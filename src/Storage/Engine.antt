-- ===== src/Storage/Engine.antt =====
-- internal/storage/engine.go and storage.go. One engine, its calls one after another. A call takes
-- what it reads from outside as arguments: the clock (nanoseconds; each reading is an argument of
-- its own) and the cipher's random bytes. A `ttl` is an int64 bit pattern. The zero time of an
-- item that does not expire is `none`. Counters are uint64 and wrap. Logging is left out.
mod Accounting
pub mod Calls
pub mod Total
pub mod View
pub mod Spec
pub mod Ceiling
pub mod Refines
use tellstone.Prelude.{
  ℕ, zero, suc, ◌+◌, ◌-◌, Bool, true, false, not, ◌&&◌, ◌||◌, Option, none, some, List, [], ◌∷◌,
  ◌++◌, Bytes, length, take, drop, add64, sub64, spos64, ltb, ◌==◌, if◌then◌else◌,
}
use tellstone.Prelude.Run.{Run, done, panics, ◌>>=◌}
use tellstone.Prelude.Table.{Table, lookup, insert, erase, select}
use tellstone.Crypto.Cipher
use tellstone.Crypto.Cipher.{enabled, encrypt_in_place, decrypt_in_place, nonce_size, overhead}
use tellstone.Storage.Chronometer.{
  TimelineWheel, no_op, wheel, new_chronometer, advance, register_on,
}

pub data Error : Type 0 where
  engine_full invalid_key_length crypto_failed : Error

pub record Item : Type 0 where
  pub value : Bytes
  pub expiration : Option ℕ

pub record Engine : Type 0 where
  pub items : Table Item
  pub chronometer : TimelineWheel
  pub crypto : Cipher.Engine
  pub max_bytes : ℕ
  pub allocated_bytes : ℕ
  pub key_count : ℕ
  pub expired_count : ℕ
  pub hit_count : ℕ
  pub miss_count : ℕ
  pub total_commands : ℕ
  pub encrypted_bytes : ℕ
  pub decrypted_bytes : ℕ

-- `interval` is an int64 bit pattern; `default_max` is `defaultMaxBytes` of the platform.
unfoldable pub new_engine : ℕ → ℕ → ℕ → ℕ → Cipher.Engine → Engine
new_engine default_max interval num_slots max_bytes crypto = record {
  items = [];
  chronometer =
      if not (spos64 interval) || num_slots == 0
      then no_op
      else wheel (new_chronometer interval num_slots);
  crypto = crypto;
  max_bytes = if max_bytes == 0 then default_max else max_bytes;
  allocated_bytes = 0;
  key_count = 0;
  expired_count = 0;
  hit_count = 0;
  miss_count = 0;
  total_commands = 0;
  encrypted_bytes = 0;
  decrypted_bytes = 0;
}

-- The size that the memory ceiling counts for an entry.
unfoldable pub item_size : Bytes → Item → ℕ
item_size key item = length key + length item.value

-- The ceiling test of the three writes.
unfoldable pub over_limit : Engine → ℕ → Bool
over_limit e entry = ltb 0 e.max_bytes && ltb e.max_bytes (add64 e.allocated_bytes entry)

-- time.Now().Add(ttl) for a positive ttl
unfoldable pub expires_at : ℕ → ℕ → Option ℕ
expires_at now ttl = if spos64 ttl then some (now + ttl) else none

-- The map write and the counters that follow it in the three writes.
unfoldable pub put_item : Engine → Bytes → Item → Engine
unfolding item_size
put_item e key item = elim (lookup key e.items) [
  | some old ↦ record e {
    items = insert key item e.items;
    total_commands = add64 e.total_commands 1;
    allocated_bytes =
        if ltb (item_size key old) (item_size key item)
        then add64 e.allocated_bytes (item_size key item - item_size key old)
        else if ltb (item_size key item) (item_size key old)
        then sub64 e.allocated_bytes (item_size key old - item_size key item)
        else e.allocated_bytes;
  }
  | none ↦ record e {
    items = insert key item e.items;
    total_commands = add64 e.total_commands 1;
    allocated_bytes = add64 e.allocated_bytes (item_size key item);
    key_count = add64 e.key_count 1;
  }
]

-- if ttl > 0 { e.chronometer.Register(storedKey, ttl) }
unfoldable pub schedule : Engine → Bytes → ℕ → Run Engine
unfolding register_on
schedule e key ttl =
    if spos64 ttl
    then elim (register_on e.chronometer key ttl) [
      | done w ↦ done (record e { chronometer = w })
      | panics ↦ panics
    ]
    else done e

abbrev pub Written : Type 0
Written = Engine × Option Error

abbrev pub count_encrypted : Engine → ℕ → Engine
count_encrypted e n = record e { encrypted_bytes = add64 e.encrypted_bytes n }

-- The last part of a write that was let in.
unfoldable pub commit : Engine → Bytes → ℕ → Run Written
unfolding schedule
commit e key ttl = elim (schedule e key ttl) [ done e' ↦ done (e', none) | panics ↦ panics ]

-- Engine.Set
unfoldable pub needed_size : Engine → Bytes → ℕ
needed_size e value =
    if enabled e.crypto then nonce_size + length value + overhead else length value

unfoldable pub set : Engine → ℕ → Option Bytes → Bytes → Bytes → ℕ → Run Written
unfolding needed_size over_limit expires_at
set e now entropy key value ttl =
    if over_limit e (length key + needed_size e value)
    then done (e, some engine_full)
    else elim (encrypt_in_place e.crypto entropy value) [
      | none ↦ done (e, some crypto_failed)
      | some stored ↦
          let e' = put_item e key (record { value = stored; expiration = expires_at now ttl }) in
          commit (if enabled e.crypto then count_encrypted e' (length stored) else e') key ttl
    ]

-- Engine.SetFromBuffer; a key length is a non-negative int or `none`
unfoldable pub set_from_buffer : Engine → ℕ → Option Bytes → Bytes → Option ℕ → ℕ → Run Written
unfolding over_limit expires_at
set_from_buffer e now entropy buf none ttl = done (e, some invalid_key_length)
set_from_buffer e now entropy buf (some key_len) ttl =
    if ltb (length buf) key_len
    then done (e, some invalid_key_length)
    else if enabled e.crypto
    then set e now entropy (take key_len buf) (drop key_len buf) ttl
    else if over_limit e (length buf)
    then done (e, some engine_full)
    else commit
        (put_item e (take key_len buf)
          (record { value = drop key_len buf; expiration = expires_at now ttl }))
        (take key_len buf) ttl

-- Engine.SetRaw
unfoldable pub set_raw : Engine → ℕ → Bytes → Bytes → ℕ → Run Written
unfolding over_limit expires_at
set_raw e now key value ttl =
    if over_limit e (length key + length value)
    then done (e, some engine_full)
    else let e' = put_item e key (record { value = value; expiration = expires_at now ttl }) in
      commit (count_encrypted e' (length value)) key ttl

-- !item.Expiration.IsZero() && time.Now().After(item.Expiration)
unfoldable pub expired : Item → ℕ → Bool
expired item now = elim item.expiration [ none ↦ false | some t ↦ ltb t now ]

unfoldable pub release_key : Engine → Bytes → Item → Engine
unfolding item_size
release_key e key item = record e {
  allocated_bytes = sub64 e.allocated_bytes (item_size key item);
  total_commands = add64 e.total_commands 1;
  key_count = sub64 e.key_count 1;
}

abbrev pub remove : Engine → Bytes → Engine
remove e key = record e { items = erase key e.items }

-- Engine.Delete
unfoldable pub delete : Engine → ℕ → Bytes → Engine × Bool
unfolding expired release_key
delete e now key = elim (lookup key e.items) [
  | none ↦ (e, false)
  | some item ↦
      let e' = release_key (remove e key) key item in
      if expired item now
      then (record e' { expired_count = add64 e'.expired_count 1 }, false)
      else (e', true)
]

unfoldable pub delete_if_expired : Engine → ℕ → Bytes → Engine × Bool
unfolding expired release_key
delete_if_expired e now key = elim (lookup key e.items) [
  | none ↦ (e, false)
  | some item ↦ if expired item now then (release_key (remove e key) key item, true) else (e, false)
]

-- The shared first part of Get and GetInto: the live item, after a lazy eviction. The clock is read
-- a second time by the eviction.
unfoldable pub find_live : Engine → ℕ → ℕ → Bytes → Engine × Option Item
unfolding expired delete_if_expired
find_live e now later key = elim (lookup key e.items) [
  | none ↦ (
    record e { miss_count = add64 e.miss_count 1; total_commands = add64 e.total_commands 1 },
    none,
  )
  | some item ↦
      if expired item now
      then (let (e', evicted) = delete_if_expired e later key in
          (if evicted then record e' { expired_count = add64 e'.expired_count 1 } else e', none))
      else (e, some item)
]

abbrev pub count_hit : Engine → Engine
count_hit e = record e {
  hit_count = add64 e.hit_count 1;
  total_commands = add64 e.total_commands 1;
}

abbrev pub count_decrypted : Engine → ℕ → Engine
count_decrypted e n =
    if enabled e.crypto then record e { decrypted_bytes = add64 e.decrypted_bytes n } else e

-- Engine.Get
unfoldable pub get : Engine → ℕ → ℕ → Bytes → Engine × Option Bytes
get e now later key =
    let (e', found) = find_live e now later key in
    elim found [
      | none ↦ (e', none)
      | some item ↦ elim (decrypt_in_place e'.crypto item.value) [
        | none ↦ (e', none)
        | some plain ↦ (count_decrypted (count_hit e') (length plain), some plain)
      ]
    ]

-- Copying into the caller's buffer, and appending to its empty prefix: the latter goes to a fresh
-- array where the capacity, here the buffer's length, does not suffice.
abbrev pub copy_into : Bytes → Bytes → Bytes
copy_into buf text = if ltb (length buf) (length text) then buf else text ++ drop (length text) buf

-- The buffer behind a refused ciphertext: one that is shorter than nonce and tag is not opened, any
-- other leaves what the cipher's Open leaves, `spoiled`.
abbrev pub refused_buffer : Bytes → Bytes → Bytes → Bytes
refused_buffer spoiled buf ciphertext =
    if ltb (length ciphertext) (nonce_size + overhead) then buf else spoiled

-- Engine.GetInto: the buffer afterwards, the count and the flag
unfoldable pub get_into : Engine → ℕ → ℕ → Bytes → Bytes → Bytes → Engine × Bytes × ℕ × Bool
get_into e now later spoiled buf key =
    let (e', found) = find_live e now later key in
    elim found [
      | none ↦ (e', buf, 0, false)
      | some item ↦ elim (decrypt_in_place e'.crypto item.value) [
        | none ↦ (e', refused_buffer spoiled buf item.value, 0, false)
        | some plain ↦
            if not (enabled e.crypto) && ltb (length buf) (length plain)
            then (e', buf, 0, false)
            else (
              count_decrypted (count_hit e') (length plain),
              copy_into buf plain,
              length plain,
              true,
            )
      ]
    ]

-- Engine.ForEach: the entries handed to the callback, as stored
unfoldable pub for_each : Engine → ℕ → Table Item
unfolding expired
for_each e now = select (λ _ item. not (expired item now)) e.items

-- The deletions of one tick, after the wheel has turned; `now i` is the i-th reading of the clock.
unfoldable pub sweep : Engine → (ℕ → ℕ) → List Bytes → Engine
unfolding delete_if_expired
sweep e now [] = e
sweep e now (key ∷ batch) = sweep (delete_if_expired e (now 0) key).0 (λ i. now (suc i)) batch

-- One tick of the wheel with the engine's callback.
unfoldable pub tick : Engine → (ℕ → ℕ) → Run Engine
tick e now = elim e.chronometer [
  | no_op ↦ done e
  | wheel c ↦ elim (advance c) [
    | panics ↦ panics
    | done (c', batch) ↦ done (sweep (record e { chronometer = wheel c' }) now batch)
  ]
]
