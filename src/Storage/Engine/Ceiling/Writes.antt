-- ===== src/Storage/Engine/Ceiling/Writes.antt =====
-- One write, one deletion or one eviction keeps the entries within the memory ceiling.
use tellstone.Prelude.{
  ℕ, ◌+◌, ◌≤◌, ◌<◌, ◌≡◌, sym, subst, false, Option, none, some, Bytes, arith, i64_sign,
  if◌then◌else◌, length, take, drop, length-take, length-drop, Bool-cases, ltb, ◌⊎◌, inl, inr,
}
use tellstone.Prelude.Run.{done}
use tellstone.Prelude.Table.{total, total-insert, total-erase}
use tellstone.Crypto.Cipher.{enabled, Lawful, IsNonce, length-encrypt, nonce_size, overhead}
use tellstone.Storage.Engine.{
  Engine, Item, Error, item_size, over_limit, needed_size, expires_at, put_item, commit,
  count_encrypted, set, set_from_buffer, set_raw, delete, delete_if_expired, find_live,
}
use tellstone.Storage.Engine.Accounting.{IsCounted}
use tellstone.Storage.Engine.Calls.{Call, call_set, call_set_from_buffer, call_set_raw}
use tellstone.Storage.Engine.View.{set_lem, set_refused}

-- What the ceiling's theorem carries along: the limit, the cipher and the sum.
pub record IsBounded (limit : ℕ) (e : Engine) : Type 0 where
  pub cap : e.max_bytes ≡ limit
  pub lawful : Lawful e.crypto
  pub within : total item_size e.items ≤ limit

-- The sizes of a call stay far below the wrap of uint64.
abbrev pub IsSmall : Call → Type 0
IsSmall (call_set now entropy key value ttl) =
    (length key + length value + 28 < i64_sign) × IsNonce entropy
IsSmall (call_set_from_buffer now entropy buf key_len ttl) =
    (length buf + 28 < i64_sign) × IsNonce entropy
IsSmall (call_set_raw now key value ttl) = length key + length value < i64_sign
IsSmall _ = Unit

set_let_in :
    (e e' : Engine) (now : ℕ) (entropy : Option Bytes) (key value : Bytes) (ttl : ℕ)
    → set e now entropy key value ttl ≡ done (e', none)
    → over_limit e (length key + needed_size e value) ≡ false
unfolding set
set_let_in e e' now entropy key value ttl h = ground arith

stored_size :
    (e : Engine) (value stored : Bytes)
    → length stored
      ≡ (if enabled e.crypto then nonce_size + length value + overhead else length value)
    → length stored ≡ needed_size e value
unfolding needed_size
stored_size e value stored h = h

module _ (limit : ℕ) (positive : 0 < limit) (small : limit ≤ i64_sign) where
  -- The ceiling test reads the true sum.
  room :
      (e : Engine) (n : ℕ)
      → IsCounted e
      → IsBounded limit e
      → n < i64_sign
      → over_limit e n ≡ false
      → total item_size e.items + n ≤ limit
  unfolding over_limit
  room e n v b h k = ground arith

  put_item-IsBounded :
      (e : Engine) (key : Bytes) (item : Item)
      → IsBounded limit e
      → total item_size e.items + item_size key item ≤ limit
      → IsBounded limit (put_item e key item)
  unfolding put_item
  put_item-IsBounded e key item b h = record {
    cap = ground arith;
    lawful = subst Lawful (ground arith) b.lawful;
    within = ground (arith, total-insert item_size key item e.items);
  }

  commit-IsBounded :
      (e e' : Engine) (key : Bytes) (ttl : ℕ) (r : Option Error)
      → IsBounded limit e
      → commit e key ttl ≡ done (e', r)
      → IsBounded limit e'
  unfolding commit
  commit-IsBounded e e' key ttl r b h = record {
    cap = ground arith;
    lawful = subst Lawful (ground arith) b.lawful;
    within = ground arith;
  }

  pub delete_if_expired-IsBounded :
      (e : Engine) (now : ℕ) (key : Bytes)
      → IsCounted e
      → IsBounded limit e
      → IsBounded limit (delete_if_expired e now key).0
  unfolding delete_if_expired
  delete_if_expired-IsBounded e now key v b = record {
    cap = ground arith;
    lawful = subst Lawful (ground arith) b.lawful;
    within = ground (arith, total-erase item_size key e.items v.distinct);
  }

  pub delete-IsBounded :
      (e : Engine) (now : ℕ) (key : Bytes)
      → IsCounted e
      → IsBounded limit e
      → IsBounded limit (delete e now key).0
  unfolding delete
  delete-IsBounded e now key v b = record {
    cap = ground arith;
    lawful = subst Lawful (ground arith) b.lawful;
    within = ground (arith, total-erase item_size key e.items v.distinct);
  }

  pub find_live-IsBounded :
      (e : Engine) (now later : ℕ) (key : Bytes)
      → IsCounted e
      → IsBounded limit e
      → IsBounded limit (find_live e now later key).0
  unfolding find_live
  find_live-IsBounded e now later key v b = record {
    cap = ground arith;
    lawful = subst Lawful (ground arith) b.lawful;
    within = ground (arith, total-erase item_size key e.items v.distinct);
  }

  -- An entry that the ceiling test lets in.
  write-IsBounded :
      (e e' : Engine) (key : Bytes) (item : Item) (n ttl : ℕ) (r : Option Error)
      → IsCounted e
      → IsBounded limit e
      → item_size key item < i64_sign
      → over_limit e (item_size key item) ≡ false
      → (commit (put_item e key item) key ttl ≡ done (e', r))
        ⊎ (commit (count_encrypted (put_item e key item) n) key ttl ≡ done (e', r))
      → IsBounded limit e'
  write-IsBounded e e' key item n ttl r v b h k (inl w) =
      commit-IsBounded (put_item e key item) e' key ttl r
        (put_item-IsBounded e key item b (room e (item_size key item) v b h k)) w
  write-IsBounded e e' key item n ttl r v b h k (inr w) =
      let b₁ = put_item-IsBounded e key item b (room e (item_size key item) v b h k) in
      commit-IsBounded (count_encrypted (put_item e key item) n) e' key ttl r
        (record { cap = b₁.cap; lawful = b₁.lawful; within = b₁.within }) w

  pub set-IsBounded :
      (e e' : Engine) (now : ℕ) (entropy : Option Bytes) (key value : Bytes) (ttl : ℕ)
      (r : Option Error)
      → IsCounted e
      → IsBounded limit e
      → IsSmall (call_set now entropy key value ttl)
      → set e now entropy key value ttl ≡ done (e', r)
      → IsBounded limit e'
  set-IsBounded e e' now entropy key value ttl none v b h w =
      let (stored, sealed, committed) = set_lem e e' now entropy key value ttl w in
      let sized = length-encrypt e.crypto entropy value b.lawful h.1 sealed in
      write-IsBounded e e' key (record { value = stored; expiration = expires_at now ttl })
        (length stored) ttl none v b (unfold item_size in ground arith)
        (unfold item_size in
          rw (stored_size e value stored sized) (set_let_in e e' now entropy key value ttl w))
        (ground arith)
  set-IsBounded e e' now entropy key value ttl (some err) v b h w =
      subst (IsBounded limit) (sym (set_refused e e' now entropy key value ttl err w)) b

  pub unchanged : (e e' : Engine) → IsBounded limit e → e ≡ e' → IsBounded limit e'
  unchanged e e' b h = subst (IsBounded limit) h b

  pub set_raw-IsBounded :
      (e e' : Engine) (now : ℕ) (key value : Bytes) (ttl : ℕ) (r : Option Error)
      → IsCounted e
      → IsBounded limit e
      → IsSmall (call_set_raw now key value ttl)
      → set_raw e now key value ttl ≡ done (e', r)
      → IsBounded limit e'
  set_raw-IsBounded e e' now key value ttl r v b h w =
      elim (Bool-cases (over_limit e (length key + length value))) [
        | inl full ↦ unchanged e e' b (unfold set_raw in ground arith)
        | inr fits ↦
            write-IsBounded e e' key (record { value = value; expiration = expires_at now ttl })
              (length value) ttl r v b (unfold item_size in h) (unfold item_size in fits)
              (inr (unfold set_raw in ground arith))
      ]

  pub set_from_buffer-IsBounded :
      (e e' : Engine) (now : ℕ) (entropy : Option Bytes) (buf : Bytes) (key_len : Option ℕ)
      (ttl : ℕ) (r : Option Error)
      → IsCounted e
      → IsBounded limit e
      → IsSmall (call_set_from_buffer now entropy buf key_len ttl)
      → set_from_buffer e now entropy buf key_len ttl ≡ done (e', r)
      → IsBounded limit e'
  set_from_buffer-IsBounded e e' now entropy buf none ttl r v b h w =
      unchanged e e' b (unfold set_from_buffer in ground arith)
  set_from_buffer-IsBounded e e' now entropy buf (some n) ttl r v b h w =
      elim (Bool-cases (ltb (length buf) n)) [
        | inl long ↦ unchanged e e' b (unfold set_from_buffer in ground arith)
        | inr cut ↦
            let parts : length (take n buf) + length (drop n buf) ≡ length buf =
              ground (arith, length-take {0} n buf, length-drop {0} n buf) in
            elim (Bool-cases (enabled e.crypto)) [
              | inl sealing ↦
                  set-IsBounded e e' now entropy (take n buf) (drop n buf) ttl r v b
                    (omega arith, h.1) (unfold set_from_buffer in ground arith)
              | inr plain ↦ elim (Bool-cases (over_limit e (length buf))) [
                | inl full ↦ unchanged e e' b (unfold set_from_buffer in ground arith)
                | inr fits ↦
                    write-IsBounded e e' (take n buf)
                      (record { value = drop n buf; expiration = expires_at now ttl }) 0 ttl r v b
                      (unfold item_size in omega arith) (unfold item_size in rw parts fits)
                      (inl (unfold set_from_buffer in ground arith))
              ]
            ]
      ]
