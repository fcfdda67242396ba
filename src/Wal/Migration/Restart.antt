-- ===== src/Wal/Migration/Restart.antt =====
-- A restart behind a migration.
use mathlib.Core.List.{append_assoc, append-nil}
use tellstone.Prelude.{
  ℕ, suc, ◌+◌, ◌<◌, ◌≤◌, ◌≡◌, ◌⊎◌, inl, inr, refl, ap, ◌∙◌, sym, subst, Bool, Bool-cases, true,
  false, not, ◌&&◌, Option, none, some, List, [], ◌∷◌, ◌++◌, Bytes, bytes_eq, length, arith,
  u32_mod, u64_mod,
}
use tellstone.Prelude.Table.{Table}
use tellstone.Crypto.Cipher
use tellstone.Crypto.Cipher.{
  Aead, AeadLaws, active, disabled, enabled, decrypt_in_place, seal_with_counter,
}
use tellstone.Storage.Engine
use tellstone.Storage.Engine.{Item, for_each}
use tellstone.Wal.Format.{Record}
use tellstone.Wal.Handle.{
  Handle, nonce_of, packet, magic, nanos, append_sealed, append_bytes, open_shard,
}
use tellstone.Wal.Replay.{Moment}
use tellstone.Wal.Replay.Crash.{apply_all}
use tellstone.Wal.Sealed.{load_sealed, read_sealed}
use tellstone.Wal.Sealed.Packet.{ciphertext, length-ciphertext}
use tellstone.Wal.Sealed.Crash.{IsSealable, AllSealable, seal_onto}
use tellstone.Wal.Sealed.Counter.{reopened, load_sealed-seal_onto}
use tellstone.Wal.Migration.{
  MigrateCalls, fresh_log, wal_value, seal_entries, switched, swap, migrate,
}

abbrev pub prepend : Record → Option (List Record) → Option (List Record)
prepend r none = none
prepend r (some rs) = some (r ∷ rs)

abbrev pub record_of : Bytes → Option ℕ → Bytes → Record
record_of key expiration value = record { key = key; value = value; ttl = nanos expiration }

-- The entries as records of a log, where every value can be read.
abbrev pub plain_records : Bool → Cipher.Engine → Table Item → Option (List Record)
plain_records at_rest c [] = some []
plain_records at_rest c ((key, item) ∷ m) = elim (wal_value at_rest c item.value) [
  | none ↦ none
  | some value ↦ prepend (record_of key item.expiration value) (plain_records at_rest c m)
]

-- A restart on this log and nonce file loads these records and goes on with the counter behind them.
abbrev pub Restarts : Aead → Bytes → Handle → List Record → Type 0
Restarts a fp h rs =
    (h' : Handle) × (open_shard h.file h.sidecar h.shard_id (active a fp) none ≡ some h')
    × ((ms : ℕ → Moment) (e : Engine.Engine)
        → load_sealed h' ms e true true ≡ reopened h' h.file (length rs) (apply_all ms e rs))

zero_lem : (n : ℕ) → 0 + n ≡ n
zero_lem n = omega arith

module _ (a : Aead) (laws : AeadLaws a) (fp : Bytes) where
  -- The handle behind one more packet.
  abbrev sealed_on : Handle → Record → Handle
  sealed_on t q = record t {
    file =
        t.file ++ packet (nonce_of t.nonce_ctr t.shard_id) (ciphertext a t.shard_id t.nonce_ctr q);
    nonce_ctr = t.nonce_ctr + 1;
  }

  append_lem :
      (t : Handle) (q : Record) (fault : Option ℕ)
      → t.crypto ≡ active a fp
      → t.nonce_ctr + 1 < u64_mod
      → IsSealable q
      → ((append_sealed t q fault).1 ≡ false) ⊎ (append_sealed t q fault ≡ (sealed_on t q, true))
  unfolding append_sealed append_bytes seal_with_counter
  append_lem t q none c room s =
      let l = length-ciphertext a laws fp t.shard_id t.nonce_ctr q s.sized (omega (arith, room)) in
      let small : 12 + length (ciphertext a t.shard_id t.nonce_ctr q) < u32_mod =
        omega (arith, l, s.small) in
      inr (ground (arith, c, room, small))
  append_lem t q (some n) c room s =
      let l = length-ciphertext a laws fp t.shard_id t.nonce_ctr q s.sized (omega (arith, room)) in
      let small : 12 + length (ciphertext a t.shard_id t.nonce_ctr q) < u32_mod =
        omega (arith, l, s.small) in
      inl (ground (arith, c, room, small))

  -- The file and the counter behind the sealing of the records.
  abbrev sealed_to : Handle → List Record → Handle
  sealed_to t rs = record t {
    file = t.file ++ seal_onto a t.shard_id t.nonce_ctr rs [];
    nonce_ctr = t.nonce_ctr + length rs;
  }

  sealed_to-cons :
      (t : Handle) (q : Record) (rs : List Record)
      → sealed_to (sealed_on t q) rs ≡ sealed_to t (q ∷ rs)
  unfolding seal_onto
  sealed_to-cons t q rs =
      let count : t.nonce_ctr + 1 + length rs ≡ t.nonce_ctr + length (q ∷ rs) = omega arith in
      ap (λ f. record t { file = f; nonce_ctr = t.nonce_ctr + 1 + length rs })
        (append_assoc t.file
          (packet (nonce_of t.nonce_ctr t.shard_id) (ciphertext a t.shard_id t.nonce_ctr q))
          (seal_onto a t.shard_id (t.nonce_ctr + 1) rs []))
      ∙ ap
          (λ n. record t {
            file = t.file ++ seal_onto a t.shard_id t.nonce_ctr (q ∷ rs) [];
            nonce_ctr = n;
          })
          count

  sealed_to-nil : (t : Handle) → t ≡ sealed_to t []
  unfolding seal_onto
  sealed_to-nil t =
      let count : t.nonce_ctr ≡ t.nonce_ctr + 0 = omega arith in
      ap (λ f. record t { file = f }) (sym (append-nil t.file))
      ∙ ap (λ n. record t { file = t.file ++ []; nonce_ctr = n }) count

  -- Every record is sealed under the next counter, or the migration is given up.
  abbrev Seals : Bool → Handle → Table Item → (ℕ → Option ℕ) → List Record → Type 0
  Seals at_rest t m fault rs =
      (seal_entries at_rest t m fault ≡ none)
      ⊎ (seal_entries at_rest t m fault ≡ some (sealed_to t rs))

  Seals-cons :
      (at_rest : Bool) (t : Handle) (key v : Bytes) (item : Item) (m : Table Item)
      (fault : ℕ → Option ℕ) (qs : List Record)
      → t.crypto ≡ active a fp
      → t.nonce_ctr + 1 < u64_mod
      → wal_value at_rest t.crypto item.value ≡ some v
      → IsSealable (record_of key item.expiration v)
      → Seals at_rest (sealed_on t (record_of key item.expiration v)) m (λ i. fault (suc i)) qs
      → Seals at_rest t ((key, item) ∷ m) fault (record_of key item.expiration v ∷ qs)
  unfolding seal_entries
  Seals-cons at_rest t key v item m fault qs c room q s more =
      let r = record_of key item.expiration v in
      elim (append_lem t r (fault 0) c room s) [
        | inl bad ↦ inl (rw (seal_entries, q, bad) refl)
        | inr good ↦ elim more [
          | inl stop ↦ inl (rw (seal_entries, q, good, stop) refl)
          | inr on ↦ inr (rw (seal_entries, q, good, on) (ap some (sealed_to-cons t r qs)))
        ]
      ]

  seal_entries-Seals :
      (at_rest : Bool) (t : Handle) (m : Table Item) (fault : ℕ → Option ℕ) (rs : List Record)
      → t.crypto ≡ active a fp
      → t.nonce_ctr + length rs < u64_mod
      → plain_records at_rest t.crypto m ≡ some rs
      → AllSealable rs
      → Seals at_rest t m fault rs
  unfolding seal_entries
  seal_entries-Seals at_rest t [] fault [] c room p s = inr (ap some (sealed_to-nil t))
  seal_entries-Seals at_rest t [] fault (r ∷ rs) c room p s = absurd (ground (arith, p))
  seal_entries-Seals at_rest t ((key, item) ∷ m) fault rs c room p s =
      go (wal_value at_rest t.crypto item.value) refl (plain_records at_rest t.crypto m) refl rs p s
        room
        (λ q qs h k z. seal_entries-Seals at_rest (sealed_on t q) m (λ i. fault (suc i)) qs c h k z)
    where
      go :
          (x : Option Bytes)
          → wal_value at_rest t.crypto item.value ≡ x
          → (y : Option (List Record)) → plain_records at_rest t.crypto m ≡ y
          → (rs : List Record)
          → elim x [ none ↦ none | some value ↦ prepend (record_of key item.expiration value) y ]
            ≡ some rs
          → AllSealable rs
          → t.nonce_ctr + length rs < u64_mod
          → ((q : Record) (qs : List Record)
              → t.nonce_ctr + 1 + length qs < u64_mod
              → plain_records at_rest t.crypto m ≡ some qs
              → AllSealable qs
              → Seals at_rest (sealed_on t q) m (λ i. fault (suc i)) qs)
          → Seals at_rest t ((key, item) ∷ m) fault rs
      go none q y k rs p s room more = absurd (ground (arith, p))
      go (some v) q none k rs p s room more = absurd (ground (arith, p))
      go (some v) q (some qs) k rs p s room more =
          let r = record_of key item.expiration v in
          let e : r ∷ qs ≡ rs = ground (arith, p) in
          let s' : AllSealable (r ∷ qs) = subst AllSealable (sym e) s in
          let l = ap length e in
          subst (Seals at_rest t ((key, item) ∷ m) fault) e (
            Seals-cons at_rest t key v item m fault qs c (omega (arith, room, l)) q s'.0
              (more r qs (omega (arith, room, l)) k s'.1))

  abbrev opened : Bytes → ℕ → ℕ → Handle
  opened file sidecar shard = record {
    file = file;
    crypto = active a fp;
    sealed = true;
    nonce_ctr = 0;
    shard_id = shard;
    needs_migrate = false;
    pending_crypto = disabled;
    sidecar = sidecar;
  }

  open_shard-magic :
      (s : Bytes) (sidecar shard : ℕ)
      → open_shard (magic ++ s) sidecar shard (active a fp) none
        ≡ some (opened (magic ++ s) sidecar shard)
  unfolding open_shard enabled bytes_eq
  open_shard-magic s sidecar shard = ground arith

  restarts_lem :
      (h : Handle) (r : Record) (rs : List Record)
      → h.file ≡ magic ++ seal_onto a h.shard_id 0 (r ∷ rs) []
      → h.sidecar ≤ length (r ∷ rs)
      → length (r ∷ rs) < u64_mod
      → AllSealable (r ∷ rs)
      → Restarts a fp h (r ∷ rs)
  restarts_lem h r rs f low small s =
      let log = magic ++ seal_onto a h.shard_id 0 (r ∷ rs) [] in
      (
        opened log h.sidecar h.shard_id,
        ap (λ x. open_shard x h.sidecar h.shard_id (active a fp) none) f
            ∙ open_shard-magic (seal_onto a h.shard_id 0 (r ∷ rs) []) h.sidecar h.shard_id,
        λ ms e.
            load_sealed-seal_onto a laws fp (opened log h.sidecar h.shard_id) ms e 0 r rs [] refl
              refl (omega (arith, low)) (omega (arith, small)) s (unfold read_sealed in refl)
            ∙ ap (λ n. reopened (opened log h.sidecar h.shard_id) log n (apply_all ms e (r ∷ rs)))
                (zero_lem (length (r ∷ rs)))
            ∙ ap
                (λ x.
                  reopened (opened log h.sidecar h.shard_id) x (length (r ∷ rs))
                    (apply_all ms e (r ∷ rs)))
                (sym f),
      )

  -- On a handle with a cipher to come, where the values of the live entries can be read, are one or
  -- more, and fit a packet, and the nonce file is not ahead of their number: whichever call fails, the
  -- migration leaves the handle and its log as they were and fails, or a restart on the log that it
  -- leaves loads exactly the live entries and goes on with the counter behind them; where it succeeds,
  -- the running handle has that counter too.
  pub migrate-Restarts :
      (c : MigrateCalls) (clock : ℕ) (h : Handle) (e : Engine.Engine) (r : Record)
      (rs : List Record)
      → h.pending_crypto ≡ active a fp
      → h.sidecar ≤ length (r ∷ rs)
      → length (r ∷ rs) < u64_mod
      → plain_records (enabled e.crypto) (active a fp) (for_each e clock) ≡ some (r ∷ rs)
      → AllSealable (r ∷ rs)
      → (migrate c clock h e ≡ (h, false))
        ⊎ (Restarts a fp (migrate c clock h e).0 (r ∷ rs)
            × ((migrate c clock h e).1 ≡ true
                → (migrate c clock h e).0.nonce_ctr ≡ length (r ∷ rs)))
  unfolding migrate swap
  migrate-Restarts c clock h e r rs pending low small p s =
      elim (Bool-cases (not (c.close_ok && (c.create_ok && c.magic_ok)))) [
        | inl early ↦ inl (rw early refl)
        | inr begun ↦
            elim (seal_entries-Seals (enabled e.crypto) (fresh_log h) (for_each e clock) c.fault
              (r ∷ rs) pending (omega (arith, small))
              (ap (λ k. plain_records (enabled e.crypto) k (for_each e clock)) pending ∙ p) s) [
                | inl stop ↦ inl (rw (begun, stop) refl)
                | inr on ↦
                    rw (begun, on) (swapped (sealed_to (fresh_log h) (r ∷ rs)) refl (zero_lem _))
              ]
      ]
    where
      swapped :
          (t : Handle)
          → t.file ≡ magic ++ seal_onto a h.shard_id 0 (r ∷ rs) []
          → t.nonce_ctr ≡ length (r ∷ rs)
          → (swap c h (some t) ≡ (h, false))
            ⊎ (Restarts a fp (swap c h (some t)).0 (r ∷ rs)
                × ((swap c h (some t)).1 ≡ true
                    → (swap c h (some t)).0.nonce_ctr ≡ length (r ∷ rs)))
      swapped t f n = elim (Bool-cases (not (c.sync_ok && (c.close_new_ok && c.rename_ok)))) [
        | inl bad ↦ inl (rw bad refl)
        | inr good ↦ elim (Bool-cases c.reopen_ok) [
          | inl open_again ↦
              let behind : (switched c h t).sidecar ≤ length (r ∷ rs) = ground (arith, n, low) in
              inr (
                rw (good, open_again) (restarts_lem (switched c h t) r rs f behind small s, λ _. n))
          | inr lost ↦ inr (
              rw (good, lost)
                (
                  restarts_lem (record h { file = t.file }) r rs f low small s,
                  λ x. absurd (ground (arith, x)),
                ))
        ]
      ]
