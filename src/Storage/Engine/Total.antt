-- ===== src/Storage/Engine/Total.antt =====
-- Every call of the engine returns and keeps its invariant.
use tellstone.Prelude.{
  ℕ, ◌≤◌, suc, ◌≡◌, refl, Option, none, some, List, [], ◌∷◌, Bytes, arith, length, take, drop,
  Option-cases, ◌⊎◌, inl, inr, subst, sym,
}
use tellstone.Prelude.Run.{Run, done, panics, Returns, Returns-done, ◌>>=◌}
use tellstone.Prelude.Table.{lookup, total}
use tellstone.Crypto.Cipher
use tellstone.Crypto.Cipher.{enabled, encrypt_in_place, decrypt_in_place}
use tellstone.Storage.Chronometer.{TimelineWheel, no_op, wheel, max_slots, advance}
use tellstone.Storage.Chronometer.Fits.{
  WheelFits, register_on-Fits, advance-Fits, new_chronometer-Fits,
}
use tellstone.Storage.Engine.{
  Engine, Item, Written, new_engine, expires_at, put_item, commit, count_encrypted, set,
  set_from_buffer, set_raw, delete, delete_if_expired, find_live, get, get_into, sweep, tick,
}
use tellstone.Storage.Engine.Calls.{
  Call, call_set, call_set_from_buffer, call_set_raw, call_delete, call_get, call_get_into,
  call_tick, step, run,
}
use tellstone.Storage.Engine.Accounting.{IsCounted, put_item-IsCounted, release_key-IsCounted}

-- Counters that agree with the map, and a wheel within its arrays.
pub record IsValid (e : Engine) : Type 0 where
  pub counted : IsCounted e
  pub fits : WheelFits e.chronometer

-- A write that returns, in a valid state.
abbrev pub Succeeds : Run Written → Type 0
Succeeds = Returns (λ r. IsValid r.0)

same_map : {e : Engine} {w : TimelineWheel} → IsCounted e → IsCounted (record e { chronometer = w })
same_map v = record { bytes = v.bytes; keys = v.keys; distinct = v.distinct }

put_item-IsValid :
    (e : Engine) (key : Bytes) (item : Item) → IsValid e → IsValid (put_item e key item)
put_item-IsValid e key item v = record {
  counted = put_item-IsCounted e key item v.counted;
  fits = unfold put_item in ground arith;
}

count_encrypted-IsValid : (e : Engine) (n : ℕ) → IsValid e → IsValid (count_encrypted e n)
count_encrypted-IsValid e n v = record {
  counted = record {
    bytes = v.counted.bytes;
    keys = v.counted.keys;
    distinct = v.counted.distinct;
  };
  fits = v.fits;
}

commit-Succeeds : (e : Engine) (key : Bytes) (ttl : ℕ) → IsValid e → Succeeds (commit e key ttl)
unfolding commit
commit-Succeeds e key ttl v =
    let (w, r, fits) = register_on-Fits e.chronometer key ttl v.fits in ground arith

-- The write of an entry, with or without the cipher's counter.
write-Succeeds :
    (e : Engine) (key : Bytes) (item : Item) (n ttl : ℕ)
    → IsValid e
    → Succeeds (commit (put_item e key item) key ttl)
      × Succeeds (commit (count_encrypted (put_item e key item) n) key ttl)
write-Succeeds e key item n ttl v =
    let v' = put_item-IsValid e key item v in
    (
      commit-Succeeds (put_item e key item) key ttl v',
      commit-Succeeds (count_encrypted (put_item e key item) n) key ttl
          (count_encrypted-IsValid (put_item e key item) n v'),
    )

pub set-Succeeds :
    (e : Engine) (now : ℕ) (entropy : Option Bytes) (key value : Bytes) (ttl : ℕ)
    → IsValid e
    → Succeeds (set e now entropy key value ttl)
unfolding set
set-Succeeds e now entropy key value ttl v =
    elim (Option-cases (encrypt_in_place e.crypto entropy value)) [
      | inl failed ↦ rw (failed, set) (ground arith)
      | inr (stored, e₁) ↦ ground (
        arith,
        write-Succeeds e key (record { value = stored; expiration = expires_at now ttl })
            (length stored) ttl v,
      )
    ]

pub delete_if_expired-IsValid :
    (e : Engine) (now : ℕ) (key : Bytes) → IsValid e → IsValid (delete_if_expired e now key).0
unfolding delete_if_expired
delete_if_expired-IsValid e now key v = elim (Option-cases (lookup key e.items)) [
  | inl absent ↦ rw (absent, delete_if_expired) v
  | inr (item, here) ↦ ground (arith, release_key-IsCounted e key item here v.counted)
]

pub delete-IsValid : (e : Engine) (now : ℕ) (key : Bytes) → IsValid e → IsValid (delete e now key).0
unfolding delete
delete-IsValid e now key v = elim (Option-cases (lookup key e.items)) [
  | inl absent ↦ rw (absent, delete) v
  | inr (item, here) ↦ ground (arith, release_key-IsCounted e key item here v.counted)
]

find_live-IsValid :
    (e : Engine) (now later : ℕ) (key : Bytes) → IsValid e → IsValid (find_live e now later key).0
unfolding find_live
find_live-IsValid e now later key v = ground (arith, delete_if_expired-IsValid e later key v)

pub get-IsValid :
    (e : Engine) (now later : ℕ) (key : Bytes) → IsValid e → IsValid (get e now later key).0
unfolding get
get-IsValid e now later key v = ground (arith, find_live-IsValid e now later key v)

set_raw-Succeeds :
    (e : Engine) (now : ℕ) (key value : Bytes) (ttl : ℕ)
    → IsValid e
    → Succeeds (set_raw e now key value ttl)
unfolding set_raw
set_raw-Succeeds e now key value ttl v = ground (
  arith,
  write-Succeeds e key (record { value = value; expiration = expires_at now ttl }) (length value)
      ttl v,
)

set_from_buffer-Succeeds :
    (e : Engine) (now : ℕ) (entropy : Option Bytes) (buf : Bytes) (key_len : Option ℕ) (ttl : ℕ)
    → IsValid e
    → Succeeds (set_from_buffer e now entropy buf key_len ttl)
unfolding set_from_buffer
set_from_buffer-Succeeds e now entropy buf none ttl v = v
set_from_buffer-Succeeds e now entropy buf (some n) ttl v = ground (
  arith,
  set-Succeeds e now entropy (take n buf) (drop n buf) ttl v,
  write-Succeeds e (take n buf) (record { value = drop n buf; expiration = expires_at now ttl }) 0
      ttl v,
)

get_into-IsValid :
    (e : Engine) (now later : ℕ) (spoiled buf key : Bytes)
    → IsValid e
    → IsValid (get_into e now later spoiled buf key).0
unfolding get_into
get_into-IsValid e now later spoiled buf key v = ground (arith, find_live-IsValid e now later key v)

sweep-IsValid :
    (e : Engine) (now : ℕ → ℕ) (batch : List Bytes) → IsValid e → IsValid (sweep e now batch)
unfolding sweep
sweep-IsValid e now [] v = v
sweep-IsValid e now (key ∷ batch) v =
    sweep-IsValid (delete_if_expired e (now 0) key).0 (λ i. now (suc i)) batch
      (delete_if_expired-IsValid e (now 0) key v)

-- What a tick does: nothing without a wheel, and otherwise a sweep of the batch that fell due.
pub tick_lem :
    (e e' : Engine) (now : ℕ → ℕ)
    → IsValid e
    → tick e now ≡ done e'
    → (e' ≡ e)
      ⊎ ((w : TimelineWheel) × (batch : List Bytes) × IsValid (record e { chronometer = w })
          × (e' ≡ sweep (record e { chronometer = w }) now batch))
tick_lem e e' now v ran = go e.chronometer refl
  where
    go :
        (w : TimelineWheel)
        → e.chronometer ≡ w
        → (e' ≡ e)
          ⊎ ((w : TimelineWheel) × (batch : List Bytes) × IsValid (record e { chronometer = w })
              × (e' ≡ sweep (record e { chronometer = w }) now batch))
    go no_op h = inl (unfold tick in ground arith)
    go (wheel c) h =
        let fits : WheelFits (wheel c) = rw h at v.fits in
        let (r, turned, fits') = Returns-done _ (advance c) (advance-Fits c fits) in
        inr (
          wheel r.0,
          r.1,
          record { counted = same_map v.counted; fits = fits' },
          unfold tick in ground arith,
        )

tick_returns : (e : Engine) (now : ℕ → ℕ) → IsValid e → (e' : Engine) × (tick e now ≡ done e')
tick_returns e now v = go e.chronometer refl
  where
    go : (w : TimelineWheel) → e.chronometer ≡ w → (e' : Engine) × (tick e now ≡ done e')
    go no_op h = (e, unfold tick in ground arith)
    go (wheel c) h =
        let fits : WheelFits (wheel c) = rw h at v.fits in
        let (r, turned, fits') = Returns-done _ (advance c) (advance-Fits c fits) in
        (sweep (record e { chronometer = wheel r.0 }) now r.1, unfold tick in ground arith)

pub tick-IsValid :
    (e : Engine) (now : ℕ → ℕ) → IsValid e → (e' : Engine) × (tick e now ≡ done e') × IsValid e'
tick-IsValid e now v =
    let (e', ran) = tick_returns e now v in
    (
      e',
      ran,
      elim (tick_lem e e' now v ran) [
        | inl same ↦ subst IsValid (sym same) v
        | inr (w, batch, v₁, swept) ↦
            subst IsValid (sym swept) (sweep-IsValid (record e { chronometer = w }) now batch v₁)
      ],
    )

written-IsValid :
    (r : Run Written) → Succeeds r → (e' : Engine) × ((r >>= λ w. done w.0) ≡ done e') × IsValid e'
written-IsValid (done w) v = (w.0, refl, v)
written-IsValid panics v = absurd v

pub step-IsValid :
    (e : Engine) (call : Call) → IsValid e → (e' : Engine) × (step e call ≡ done e') × IsValid e'
unfolding step
step-IsValid e (call_set now entropy key value ttl) v =
    written-IsValid _ (set-Succeeds e now entropy key value ttl v)
step-IsValid e (call_set_from_buffer now entropy buf key_len ttl) v =
    written-IsValid _ (set_from_buffer-Succeeds e now entropy buf key_len ttl v)
step-IsValid e (call_set_raw now key value ttl) v =
    written-IsValid _ (set_raw-Succeeds e now key value ttl v)
step-IsValid e (call_delete now key) v = ((delete e now key).0, refl, delete-IsValid e now key v)
step-IsValid e (call_get now later key) v =
    ((get e now later key).0, refl, get-IsValid e now later key v)
step-IsValid e (call_get_into now later spoiled buf key) v =
    ((get_into e now later spoiled buf key).0, refl, get_into-IsValid e now later spoiled buf key v)
step-IsValid e (call_tick now) v = tick-IsValid e now v

-- Any sequence of calls returns, and leaves a valid engine.
pub run-IsValid :
    (e : Engine) (calls : List Call)
    → IsValid e
    → (e' : Engine) × (run e calls ≡ done e') × IsValid e'
unfolding run
run-IsValid e [] v = (e, refl, v)
run-IsValid e (call ∷ calls) v =
    let (e₁, stepped, v₁) = step-IsValid e call v in
    let (e', ran, v') = run-IsValid e₁ calls v₁ in (e', rw (stepped, run) ran, v')

pub new_engine-IsValid :
    (default_max interval num_slots max_bytes : ℕ) (crypto : Cipher.Engine)
    → num_slots ≤ max_slots
    → IsValid (new_engine default_max interval num_slots max_bytes crypto)
unfolding new_engine total
new_engine-IsValid default_max interval num_slots max_bytes crypto h = record {
  counted = record { bytes = refl; keys = refl; distinct = tt };
  fits = ground (arith, new_chronometer-Fits interval num_slots);
}

-- On a fresh engine with at most MaxSlots slots, any sequence of calls and ticks returns without a
-- panic, and then the byte and key counters are the sums over the map, each modulo 2^64, no key
-- stands twice, and the wheel's indices are in range.
pub run-new_engine :
    (default_max interval num_slots max_bytes : ℕ) (crypto : Cipher.Engine) (calls : List Call)
    → num_slots ≤ max_slots
    → (e : Engine) × (run (new_engine default_max interval num_slots max_bytes crypto) calls
        ≡ done e)
      × IsValid e
run-new_engine default_max interval num_slots max_bytes crypto calls h =
    run-IsValid (new_engine default_max interval num_slots max_bytes crypto) calls
      (new_engine-IsValid default_max interval num_slots max_bytes crypto h)
