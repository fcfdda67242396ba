-- ===== src/Storage/Engine/View.antt =====
-- What a client can read of an engine at a moment, and how each call changes it.
use tellstone.Prelude.{
  ℕ, suc, ◌≤◌, ◌≡◌, refl, ap, ◌∙◌, Bool, true, false, Option, none, some, List, [], ◌∷◌, Bytes,
  arith, bytes_eq, bytes_eq_iff, ltb, if◌then◌else◌, length, Option-cases, inl, inr,
}
use tellstone.Prelude.Run.{Run, done, panics}
use tellstone.Prelude.Table.{lookup, lookup-insert, lookup-erase}
use tellstone.Crypto.Cipher.{
  enabled, encrypt_in_place, decrypt_in_place, Lawful, IsNonce, decrypt-encrypt,
}
use tellstone.Storage.Chronometer.{Chronometer, TimelineWheel, no_op, wheel, advance}
use tellstone.Storage.Engine.{
  Engine, Item, Error, expires_at, expired, put_item, commit, count_encrypted, set, delete,
  delete_if_expired, find_live, get, sweep, tick,
}

-- The item at a key that has not expired, decrypted; the inner `none` is a failed decryption.
unfoldable pub view : Engine → ℕ → Bytes → Option (Option Bytes)
unfolding expired
view e t key = elim (lookup key e.items) [
  | none ↦ none
  | some item ↦ if expired item t then none else some (decrypt_in_place e.crypto item.value)
]

-- What an expiration says at a moment.
abbrev pub passed : Option ℕ → ℕ → Bool
passed none t = false
passed (some x) t = ltb x t

commit_lem :
    (e e' : Engine) (key : Bytes) (ttl : ℕ) (r : Option Error)
    → commit e key ttl ≡ done (e', r)
    → (e'.items ≡ e.items) × (e'.crypto ≡ e.crypto) × (r ≡ none)
unfolding commit
commit_lem e e' key ttl r h = ground arith

module _ (e : Engine) (t : ℕ) (key j : Bytes) (item : Item) where
  view-put_item : view (put_item e key item) t j ≡ (
      if bytes_eq key j
      then (if expired item t then none else some (decrypt_in_place e.crypto item.value))
      else view e t j)
  unfolding view put_item
  view-put_item = ground (arith, lookup-insert key j item e.items)

view-commit :
    (e e' : Engine) (key : Bytes) (ttl : ℕ) (r : Option Error) (t : ℕ) (j : Bytes)
    → commit e key ttl ≡ done (e', r)
    → view e' t j ≡ view e t j
unfolding view
view-commit e e' key ttl r t j h = ground (arith, commit_lem e e' key ttl r h)

view-count_encrypted :
    (e : Engine) (n t : ℕ) (j : Bytes) → view (count_encrypted e n) t j ≡ view e t j
unfolding view
view-count_encrypted e n t j = refl

expired_lem : (item : Item) (t : ℕ) → expired item t ≡ passed item.expiration t
unfolding expired
expired_lem item t = ground arith

-- What an accepted SET has done.
pub set_lem :
    (e e' : Engine) (now : ℕ) (entropy : Option Bytes) (key value : Bytes) (ttl : ℕ)
    → set e now entropy key value ttl ≡ done (e', none)
    → (stored : Bytes) × (encrypt_in_place e.crypto entropy value ≡ some stored)
      × (commit
            (let e₁ = put_item e key (record { value = stored; expiration = expires_at now ttl }) in
              if enabled e.crypto then count_encrypted e₁ (length stored) else e₁)
            key
            ttl
          ≡ done (e', none))
unfolding set
set_lem e e' now entropy key value ttl h =
    elim (Option-cases (encrypt_in_place e.crypto entropy value)) [
      | inl failed ↦ absurd (ground arith)
      | inr (stored, sealed) ↦ (stored, sealed, ground arith)
    ]

-- With a lawful cipher and a nonce of its length, an accepted SET shows its value until it expires,
-- and leaves what every other key reads alone.
pub view-set :
    (e e' : Engine) (now : ℕ) (entropy : Option Bytes) (key value : Bytes) (ttl t : ℕ) (j : Bytes)
    → Lawful e.crypto
    → IsNonce entropy
    → set e now entropy key value ttl ≡ done (e', none)
    → view e' t j ≡ (
        if bytes_eq key j
        then (if passed (expires_at now ttl) t then none else some (some value))
        else view e t j)
view-set e e' now entropy key value ttl t j laws nonce h =
    let (stored, sealed, written) = set_lem e e' now entropy key value ttl h in
    let item : Item = record { value = stored; expiration = expires_at now ttl } in
    ground (
      arith,
      view-put_item e t key j item,
      view-commit (put_item e key item) e' key ttl none t j,
      view-commit (count_encrypted (put_item e key item) (length stored)) e' key ttl none t j,
      view-count_encrypted (put_item e key item) (length stored) t j,
      decrypt-encrypt e.crypto entropy value laws nonce sealed,
      expired_lem item t,
    )

-- A SET that returns an error leaves the engine as it was.
pub set_refused :
    (e e' : Engine) (now : ℕ) (entropy : Option Bytes) (key value : Bytes) (ttl : ℕ) (err : Error)
    → set e now entropy key value ttl ≡ done (e', some err)
    → e' ≡ e
unfolding set commit
set_refused e e' now entropy key value ttl err h = ground arith

pub get-eq-view :
    (e : Engine) (now later : ℕ) (key : Bytes)
    → (get e now later key).1 ≡ elim (view e now key) [ none ↦ none | some r ↦ r ]
unfolding get view find_live
get-eq-view e now later key = ground arith

pub view-delete :
    (e : Engine) (now t : ℕ) (key j : Bytes)
    → view (delete e now key).0 t j ≡ (if bytes_eq key j then none else view e t j)
unfolding delete view
view-delete e now t key j = ground (arith, lookup-erase key j e.items, bytes_eq_iff key j)

pub delete-eq-view :
    (e : Engine) (now : ℕ) (key : Bytes)
    → (delete e now key).1 ≡ elim (view e now key) [ none ↦ false | some _ ↦ true ]
unfolding delete view
delete-eq-view e now key = ground arith

-- An eviction is invisible from the moment at which it reads the clock.
pub view-delete_if_expired :
    (e : Engine) (now t : ℕ) (key j : Bytes)
    → now ≤ t
    → view (delete_if_expired e now key).0 t j ≡ view e t j
unfolding delete_if_expired view
view-delete_if_expired e now t key j h =
    ground (arith, lookup-erase key j e.items, bytes_eq_iff key j)

pub view-find_live :
    (e : Engine) (now later t : ℕ) (key j : Bytes)
    → later ≤ t
    → view (find_live e now later key).0 t j ≡ view e t j
unfolding find_live view
view-find_live e now later t key j h =
    ground (arith, lookup-erase key j e.items, bytes_eq_iff key j)

pub view-get :
    (e : Engine) (now later t : ℕ) (key j : Bytes)
    → later ≤ t
    → view (get e now later key).0 t j ≡ view e t j
unfolding get view
view-get e now later t key j h = ground (arith, view-find_live e now later t key j h)

view-sweep :
    (e : Engine) (now : ℕ → ℕ) (batch : List Bytes) (t : ℕ) (j : Bytes)
    → ((i : ℕ) → now i ≤ t)
    → view (sweep e now batch) t j ≡ view e t j
unfolding sweep
view-sweep e now [] t j h = refl
view-sweep e now (key ∷ batch) t j h =
    view-sweep (delete_if_expired e (now 0) key).0 (λ i. now (suc i)) batch t j (λ i. h (suc i))
    ∙ view-delete_if_expired e (now 0) t key j (h 0)

-- A tick that returns changes nothing that a key reads at a moment no earlier than any of its
-- readings of the clock.
pub view-tick :
    (e e' : Engine) (now : ℕ → ℕ) (t : ℕ) (j : Bytes)
    → ((i : ℕ) → now i ≤ t)
    → tick e now ≡ done e'
    → view e' t j ≡ view e t j
view-tick e e' now t j h ran = go e.chronometer refl
  where
    turned :
        (c : Chronometer) (r : Run (Chronometer × List Bytes))
        → e.chronometer ≡ wheel c
        → advance c ≡ r
        → view e' t j ≡ view e t j
    turned c panics hw ha = absurd (unfold tick in ground arith)
    turned c (done (c', batch)) hw ha =
        let e₁ : Engine = record e { chronometer = wheel c' } in
        let swept : e' ≡ sweep e₁ now batch = unfold tick in ground arith in
        rw swept (view-sweep e₁ now batch t j h ∙ unfold view in refl)

    go : (w : TimelineWheel) → e.chronometer ≡ w → view e' t j ≡ view e t j
    go no_op hw = let same : e' ≡ e = unfold tick in ground arith in ap (λ x. view x t j) same
    go (wheel c) hw = turned c (advance c) hw refl

-- The cipher of an engine never changes.
pub crypto-set :
    (e e' : Engine) (now : ℕ) (entropy : Option Bytes) (key value : Bytes) (ttl : ℕ)
    (r : Option Error)
    → set e now entropy key value ttl ≡ done (e', r)
    → e'.crypto ≡ e.crypto
unfolding set put_item commit
crypto-set e e' now entropy key value ttl r h = ground arith

pub crypto-get :
    (e : Engine) (now later : ℕ) (key : Bytes) → (get e now later key).0.crypto ≡ e.crypto
unfolding get find_live
crypto-get e now later key = ground arith

pub crypto-delete : (e : Engine) (now : ℕ) (key : Bytes) → (delete e now key).0.crypto ≡ e.crypto
unfolding delete
crypto-delete e now key = ground arith

crypto-sweep :
    (e : Engine) (now : ℕ → ℕ) (batch : List Bytes) → (sweep e now batch).crypto ≡ e.crypto
unfolding sweep
crypto-sweep e now [] = refl
crypto-sweep e now (key ∷ batch) =
    crypto-sweep (delete_if_expired e (now 0) key).0 (λ i. now (suc i)) batch
    ∙ (unfold delete_if_expired in ground arith)

pub crypto-tick : (e e' : Engine) (now : ℕ → ℕ) → tick e now ≡ done e' → e'.crypto ≡ e.crypto
unfolding tick
crypto-tick e e' now ran = go e.chronometer refl
  where
    turned :
        (c : Chronometer) (r : Run (Chronometer × List Bytes))
        → e.chronometer ≡ wheel c
        → advance c ≡ r
        → e'.crypto ≡ e.crypto
    turned c panics hw ha = absurd (ground arith)
    turned c (done (c', batch)) hw ha =
        ground (arith, crypto-sweep (record e { chronometer = wheel c' }) now batch)

    go : (w : TimelineWheel) → e.chronometer ≡ w → e'.crypto ≡ e.crypto
    go no_op hw = ground arith
    go (wheel c) hw = turned c (advance c) hw refl
