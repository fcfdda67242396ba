-- ===== src/Storage/Engine/Ceiling.antt =====
-- The memory ceiling: the entries of an engine never add up to more than max_bytes.
pub mod Writes
use tellstone.Prelude.{
  ℕ, suc, ◌+◌, ◌≤◌, ◌<◌, ◌≡◌, refl, sym, subst, false, Option, none, some, List, [], ◌∷◌, Bytes,
  arith, i64_sign, if◌then◌else◌, length, take, drop, length-take, length-drop, Bool-cases, ltb,
  ◌⊎◌, inl, inr,
}
use tellstone.Prelude.Run.{Run, done, panics, ◌>>=◌}
use tellstone.Prelude.Table.{total, total-insert, total-erase}
use tellstone.Crypto.Cipher
use tellstone.Crypto.Cipher.{
  enabled, encrypt_in_place, Lawful, IsNonce, length-encrypt, nonce_size, overhead,
}
use tellstone.Storage.Chronometer.{max_slots}
use tellstone.Storage.Engine.{
  Engine, Item, Error, Written, new_engine, item_size, over_limit, needed_size, expires_at,
  put_item, commit, count_encrypted, set, set_from_buffer, set_raw, delete, delete_if_expired,
  find_live, get, get_into, sweep, tick,
}
use tellstone.Storage.Engine.Accounting.{IsCounted}
use tellstone.Storage.Engine.Calls.{
  Call, call_set, call_set_from_buffer, call_set_raw, call_delete, call_get, call_get_into,
  call_tick, step, run,
}
use tellstone.Storage.Engine.Total.{
  IsValid, run-IsValid, step-IsValid, new_engine-IsValid, delete_if_expired-IsValid, tick_lem,
}
use tellstone.Storage.Engine.View.{set_lem, set_refused}
use tellstone.Storage.Engine.Ceiling.Writes.{
  IsBounded, IsSmall, delete_if_expired-IsBounded, delete-IsBounded, find_live-IsBounded,
  set-IsBounded, set_raw-IsBounded, set_from_buffer-IsBounded, unchanged,
}

abbrev pub AllSmall : List Call → Type 0
AllSmall [] = Unit
AllSmall (call ∷ calls) = IsSmall call × AllSmall calls

module _ (limit : ℕ) (positive : 0 < limit) (small : limit ≤ i64_sign) where
  get-IsBounded :
      (e : Engine) (now later : ℕ) (key : Bytes)
      → IsCounted e
      → IsBounded limit e
      → IsBounded limit (get e now later key).0
  unfolding get
  get-IsBounded e now later key v b =
      let b₁ = find_live-IsBounded limit positive small e now later key v b in
      record {
        cap = ground arith;
        lawful = subst Lawful (ground arith) b₁.lawful;
        within = ground arith;
      }

  get_into-IsBounded :
      (e : Engine) (now later : ℕ) (spoiled buf key : Bytes)
      → IsCounted e
      → IsBounded limit e
      → IsBounded limit (get_into e now later spoiled buf key).0
  unfolding get_into
  get_into-IsBounded e now later spoiled buf key v b =
      let b₁ = find_live-IsBounded limit positive small e now later key v b in
      record {
        cap = ground arith;
        lawful = subst Lawful (ground arith) b₁.lawful;
        within = ground arith;
      }

  sweep-IsBounded :
      (e : Engine) (now : ℕ → ℕ) (batch : List Bytes)
      → IsValid e
      → IsBounded limit e
      → IsBounded limit (sweep e now batch)
  unfolding sweep
  sweep-IsBounded e now [] v b = b
  sweep-IsBounded e now (key ∷ batch) v b =
      sweep-IsBounded (delete_if_expired e (now 0) key).0 (λ i. now (suc i)) batch
        (delete_if_expired-IsValid e (now 0) key v)
        (delete_if_expired-IsBounded limit positive small e (now 0) key v.counted b)

  tick-IsBounded :
      (e e' : Engine) (now : ℕ → ℕ)
      → IsValid e
      → IsBounded limit e
      → tick e now ≡ done e'
      → IsBounded limit e'
  tick-IsBounded e e' now v b ran = elim (tick_lem e e' now v ran) [
    | inl same ↦ unchanged limit positive small e e' b (sym same)
    | inr (w, batch, v₁, swept) ↦
        unchanged limit positive small (sweep (record e { chronometer = w }) now batch) e'
          (sweep-IsBounded (record e { chronometer = w }) now batch v₁
            (record { cap = b.cap; lawful = b.lawful; within = b.within }))
          (sym swept)
  ]

  written :
      (e' : Engine) (r : Run Written)
      → ((out : Engine) (err : Option Error) → r ≡ done (out, err) → IsBounded limit out)
      → (r >>= λ w. done w.0) ≡ done e'
      → IsBounded limit e'
  written e' (done (out, err)) each h =
      unchanged limit positive small out e' (each out err refl) (ground arith)
  written e' panics each h = absurd (ground arith)

  step-IsBounded :
      (e e' : Engine) (call : Call)
      → IsValid e
      → IsBounded limit e
      → IsSmall call
      → step e call ≡ done e'
      → IsBounded limit e'
  unfolding step
  step-IsBounded e e' (call_set now entropy key value ttl) v b h w =
      written e' _
        (λ out err.
          set-IsBounded limit positive small e out now entropy key value ttl err v.counted b h)
        w
  step-IsBounded e e' (call_set_from_buffer now entropy buf n ttl) v b h w =
      written e' _
        (λ out err.
          set_from_buffer-IsBounded limit positive small e out now entropy buf n ttl err v.counted b
            h)
        w
  step-IsBounded e e' (call_set_raw now key value ttl) v b h w =
      written e' _
        (λ out err.
          set_raw-IsBounded limit positive small e out now key value ttl err v.counted b h)
        w
  step-IsBounded e e' (call_delete now key) v b h w =
      unchanged limit positive small (delete e now key).0 e'
        (delete-IsBounded limit positive small e now key v.counted b) (ground arith)
  step-IsBounded e e' (call_get now later key) v b h w =
      unchanged limit positive small (get e now later key).0 e'
        (get-IsBounded e now later key v.counted b) (ground arith)
  step-IsBounded e e' (call_get_into now later spoiled buf key) v b h w =
      unchanged limit positive small (get_into e now later spoiled buf key).0 e'
        (get_into-IsBounded e now later spoiled buf key v.counted b) (ground arith)
  step-IsBounded e e' (call_tick now) v b h w = tick-IsBounded e e' now v b w

  AllSmall-run :
      (e e' : Engine) (calls : List Call)
      → IsValid e
      → IsBounded limit e
      → AllSmall calls
      → run e calls ≡ done e'
      → IsBounded limit e'
  unfolding run
  AllSmall-run e e' [] v b h w = unchanged limit positive small e e' b (ground arith)
  AllSmall-run e e' (call ∷ calls) v b h w =
      let (e₁, stepped, v₁) = step-IsValid e call v in
      AllSmall-run e₁ e' calls v₁ (step-IsBounded e e₁ call v b h.0 stepped) h.1 (ground arith)

-- On a fresh engine with a lawful cipher and a ceiling of 1 to 2^63 bytes, after any calls and
-- ticks whose sizes stay below 2^63, the keys and stored values together take at most max_bytes,
-- and the byte counter is exactly their sum: it has not wrapped.
pub run-le-max_bytes :
    (default_max interval num_slots max_bytes : ℕ) (crypto : Cipher.Engine) (calls : List Call)
    → 0 < max_bytes
    → max_bytes ≤ i64_sign
    → num_slots ≤ max_slots
    → Lawful crypto
    → AllSmall calls
    → (e : Engine) × (run (new_engine default_max interval num_slots max_bytes crypto) calls
        ≡ done e)
      × (total item_size e.items ≤ max_bytes)
      × (e.allocated_bytes ≡ total item_size e.items)
run-le-max_bytes default_max interval num_slots max_bytes crypto calls positive small h laws all =
    let e₀ = new_engine default_max interval num_slots max_bytes crypto in
    let v₀ = new_engine-IsValid default_max interval num_slots max_bytes crypto h in
    let (e, ran, v) = run-IsValid e₀ calls v₀ in
    let b =
      AllSmall-run max_bytes positive small e₀ e calls v₀
        (record {
          cap = unfold new_engine in ground arith;
          lawful = unfold new_engine in laws;
          within = unfold new_engine total in omega arith;
        })
        all ran in
    (e, ran, b.within, omega (arith, v.counted.bytes, b.within))
