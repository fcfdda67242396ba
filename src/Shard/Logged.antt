-- ===== src/Shard/Logged.antt =====
-- What the engine and the log of a shard hold after a SET, and what a restart loads.
use mathlib.Core.List.{append_assoc}
use tellstone.Prelude.{
  ℕ, ◌-◌, ◌<◌, ◌≤◌, ◌≡◌, refl, ap, ◌∙◌, sym, subst, Bool, true, false, Bool-cases, inl, inr, Option,
  none, some, List, [], ◌∷◌, ◌++◌, Bytes, bytes_eq, length, ltb, if◌then◌else◌, arith, u32_mod,
  u64_mod,
}
use tellstone.Prelude.Run.{done}
use tellstone.Crypto.Cipher.{Lawful, IsNonce}
use tellstone.Storage.Engine
use tellstone.Storage.Engine.{expires_at, set, get}
use tellstone.Storage.Engine.View.{view, passed, view-set, view-get, crypto-get, set_refused}
use tellstone.Wal.Format.{Record, encode, read_record}
use tellstone.Wal.Format.Torn.{IsSized}
use tellstone.Wal.Handle.{Handle, nanos, tombstone, write, append_bytes, append_record}
use tellstone.Wal.Handle
use tellstone.Wal.Replay.{Moment, load_plain}
use tellstone.Wal.Replay.Crash.{
  encode_onto, encode_onto-snoc, AllSized, AllSized-snoc, apply_all, recovered,
  load_plain-encode_onto,
}
use tellstone.Shard.{
  engine_failed, failure, success, Clock, Faults, is_found, store_logged, execute_set,
}

-- A plaintext log that is open for appending and consists of whole records.
pub record IsPlain (h : Handle.Handle) (rs : List Record) : Type 0 where
  pub plain : h.sealed ≡ false
  pub settled : h.needs_migrate ≡ false
  pub sized : AllSized rs
  pub whole : h.file ≡ encode_onto rs []

-- What a restart on the log loads: these records, in their order.
abbrev pub Loads : Handle.Handle → List Record → Type 0
Loads h rs =
    (ms : ℕ → Moment) (e : Engine.Engine)
    → load_plain h ms e true ≡ recovered h rs (apply_all ms e rs)

IsPlain-Loads : (h : Handle.Handle) (rs : List Record) → IsPlain h rs → Loads h rs
IsPlain-Loads h rs p ms e =
    load_plain-encode_onto h ms e rs [] p.sized (unfold read_record in refl) p.whole

-- The record of a SET.
abbrev pub record_of : Bytes → Bytes → Option ℕ → Record
record_of key value deadline = record { key = key; value = value; ttl = nanos deadline }

append_flat :
    (h : Handle.Handle) (rs : List Record) (r : Record) (fault : Option ℕ)
    → IsPlain h rs
    → append_record h r fault ≡ append_bytes h (encode r) fault
unfolding append_record
append_flat h rs r fault p = rw (p.settled, p.plain) refl

nanos-lt : (deadline : Option ℕ) → nanos deadline < u64_mod
nanos-lt none = omega arith
nanos-lt (some t) = omega arith

append_record-IsPlain :
    (h : Handle.Handle) (rs : List Record) (r : Record)
    → IsPlain h rs
    → IsSized r
    → IsPlain (append_record h r none).0 (rs ++ r ∷ [])
append_record-IsPlain h rs r p s =
    subst (λ x. IsPlain x.0 (rs ++ r ∷ [])) (sym (append_flat h rs r none p))
      (unfold append_bytes in
        record {
          plain = p.plain;
          settled = p.settled;
          sized = AllSized-snoc rs r p.sized s;
          whole = ap (λ f. f ++ encode r) p.whole ∙ encode_onto-snoc rs r;
        })

-- An append that reports success met no fault.
append_record_ok :
    (h : Handle.Handle) (rs : List Record) (r : Record) (fault : Option ℕ)
    → IsPlain h rs
    → (append_record h r fault).1 ≡ true
    → fault ≡ none
append_record_ok h rs r none p ok = refl
append_record_ok h rs r (some n) p ok =
    absurd (unfold append_bytes in ground (arith, append_flat h rs r (some n) p, ok))

fits_lem : (n : ℕ) → ltb (u32_mod - 1) n ≡ false → n < u32_mod
fits_lem n h = ground arith

appended :
    (h : Handle.Handle) (rs : List Record) (r : Record) (fault : Option ℕ)
    → IsPlain h rs
    → IsSized r
    → (append_record h r fault).1 ≡ true
    → IsPlain (append_record h r fault).0 (rs ++ r ∷ [])
appended h rs r fault p s ok =
    subst (λ f. IsPlain (append_record h r f).0 (rs ++ r ∷ []))
      (sym (append_record_ok h rs r fault p ok)) (append_record-IsPlain h rs r p s)

-- A write that reports success appends its record, which fits.
write-IsPlain :
    (h : Handle.Handle) (rs : List Record) (key value : Bytes) (deadline fault : Option ℕ)
    → IsPlain h rs
    → (write true h key value deadline fault).1 ≡ true
    → IsPlain (write true h key value deadline fault).0 (rs ++ record_of key value deadline ∷ [])
      × (length key < u32_mod)
write-IsPlain h rs key value deadline fault p ok =
    elim (Bool-cases (ltb (u32_mod - 1) (length key))) [
      | inl big ↦ absurd (unfold write in ground (arith, big, ok))
      | inr k ↦ elim (Bool-cases (ltb (u32_mod - 1) (length value))) [
        | inl big ↦ absurd (unfold write in ground (arith, k, big, ok))
        | inr v ↦
            let r = record_of key value deadline in
            let same : write true h key value deadline fault ≡ append_record h r fault =
              unfold write in rw (k, v) refl in
            let sized : IsSized r = record {
              key_fits = fits_lem (length key) k;
              value_fits = fits_lem (length value) v;
              ttl_fits = nanos-lt deadline;
            } in
            (
              subst (λ x. IsPlain x.0 (rs ++ r ∷ [])) (sym same)
                  (appended h rs r fault p sized (ap (λ x. x.1) (sym same) ∙ ok)),
              fits_lem (length key) k,
            )
      ]
    ]

-- The record of a deletion.
abbrev pub tomb_of : Bytes → Record
tomb_of key = record { key = key; value = []; ttl = tombstone }

delete-IsPlain :
    (h : Handle.Handle) (rs : List Record) (key : Bytes) (fault : Option ℕ)
    → IsPlain h rs
    → length key < u32_mod
    → fault ≡ none
    → IsPlain (Handle.delete true h key fault).0 (rs ++ tomb_of key ∷ [])
delete-IsPlain h rs key fault p small fine =
    let k : ltb (u32_mod - 1) (length key) ≡ false = ground (arith, small) in
    let same : Handle.delete true h key fault ≡ append_record h (tomb_of key) none =
      unfold Handle.delete in rw (k, fine) refl in
    subst (λ x. IsPlain x.0 (rs ++ tomb_of key ∷ [])) (sym same)
      (append_record-IsPlain h rs (tomb_of key) p
        (record { key_fits = small; value_fits = omega arith; ttl_fits = omega arith }))

-- A SET that comes to an answer of the engine has passed the log.
logged_lem :
    (e e' : Engine.Engine) (h h' : Handle.Handle) (c : Clock) (faults : Faults)
    (entropy : Option Bytes) (key value : Bytes) (ttl : ℕ)
    → execute_set true e h c faults entropy key value ttl ≡ done (e', h', success true)
    → ((write true h key value (expires_at c.deadline ttl) faults.write).1 ≡ true)
      × (set (get e c.probe c.probe_later key).0 c.store entropy key value ttl ≡ done (e', none))
      × (h' ≡ (write true h key value (expires_at c.deadline ttl) faults.write).0)
unfolding execute_set store_logged
logged_lem e e' h h' c faults entropy key value ttl ran =
    (ground (arith, ran), ground (arith, ran), ground (arith, ran))

-- What a refused SET leaves in the log, by whether the key was there.
abbrev pub left_behind : Bool → Bytes → Record → List Record
left_behind true key r = r ∷ []
left_behind false key r = r ∷ tomb_of key ∷ []

refused_lem :
    (e e' : Engine.Engine) (h h' : Handle.Handle) (c : Clock) (faults : Faults)
    (entropy : Option Bytes) (key value : Bytes) (ttl : ℕ) (err : Engine.Error)
    → execute_set true e h c faults entropy key value ttl
      ≡ done (e', h', failure (engine_failed err))
    → ((write true h key value (expires_at c.deadline ttl) faults.write).1 ≡ true)
      × (set (get e c.probe c.probe_later key).0 c.store entropy key value ttl
          ≡ done (e', some err))
      × (h' ≡ (
          if is_found (get e c.probe c.probe_later key).1
          then (write true h key value (expires_at c.deadline ttl) faults.write).0
          else (Handle.delete true
              (write true h key value (expires_at c.deadline ttl) faults.write).0
              key
              faults.undo).0))
unfolding execute_set store_logged
refused_lem e e' h h' c faults entropy key value ttl err ran =
    (ground (arith, ran), ground (arith, ran), ground (arith, ran))

-- On a plaintext log of whole records, with a lawful cipher and a nonce of its length: a SET that
-- answers OK shows its value to every later read until it expires and leaves what the other keys
-- read; and the log is again whole, and a restart loads the records before and then the SET's own,
-- with the deadline of its own reading of the clock.
pub execute_set-logged :
    (e e' : Engine.Engine) (h h' : Handle.Handle) (rs : List Record) (c : Clock) (faults : Faults)
    (entropy : Option Bytes) (key value : Bytes) (ttl t : ℕ)
    → IsPlain h rs
    → Lawful e.crypto
    → IsNonce entropy
    → c.probe_later ≤ t
    → execute_set true e h c faults entropy key value ttl ≡ done (e', h', success true)
    → ((j : Bytes)
        → view e' t j ≡ (
            if bytes_eq key j
            then (if passed (expires_at c.store ttl) t then none else some (some value))
            else view e t j))
      × IsPlain h' (rs ++ record_of key value (expires_at c.deadline ttl) ∷ [])
      × Loads h' (rs ++ record_of key value (expires_at c.deadline ttl) ∷ [])
execute_set-logged e e' h h' rs c faults entropy key value ttl t p laws nonce late ran =
    let (taken, stored, same) = logged_lem e e' h h' c faults entropy key value ttl ran in
    let probed = (get e c.probe c.probe_later key).0 in
    let lawful : Lawful probed.crypto =
      subst Lawful (sym (crypto-get e c.probe c.probe_later key)) laws in
    let (whole, _) =
      write-IsPlain h rs key value (expires_at c.deadline ttl) faults.write p taken in
    let plain =
      subst (λ x. IsPlain x (rs ++ record_of key value (expires_at c.deadline ttl) ∷ [])) (sym same)
        whole in
    (
      (λ j.
          view-set probed e' c.store entropy key value ttl t j lawful nonce stored
          ∙ ap
              (λ x.
                if bytes_eq key j
                then (if passed (expires_at c.store ttl) t then none else some (some value))
                else x)
              (view-get e c.probe c.probe_later t key j late)),
      plain,
      IsPlain-Loads h' _ plain,
    )

-- On a plaintext log of whole records, for a SET that the log takes and the engine refuses, where the
-- deletion behind it meets no fault: every read afterwards is as it was before, but a restart loads
-- the records before and then the refused one; and a deletion behind it only where the key was not
-- there before.
pub execute_set_rejected :
    (e e' : Engine.Engine) (h h' : Handle.Handle) (rs : List Record) (c : Clock) (faults : Faults)
    (entropy : Option Bytes) (key value : Bytes) (ttl t : ℕ) (err : Engine.Error)
    → IsPlain h rs
    → faults.undo ≡ none
    → c.probe_later ≤ t
    → execute_set true e h c faults entropy key value ttl
      ≡ done (e', h', failure (engine_failed err))
    → ((j : Bytes) → view e' t j ≡ view e t j)
      × Loads h' (
          rs
          ++ left_behind
              (is_found (get e c.probe c.probe_later key).1)
              key
              (record_of key value (expires_at c.deadline ttl)))
execute_set_rejected e e' h h' rs c faults entropy key value ttl t err p fine late ran =
    let (taken, stored, same) = refused_lem e e' h h' c faults entropy key value ttl err ran in
    let probed = (get e c.probe c.probe_later key).0 in
    let r = record_of key value (expires_at c.deadline ttl) in
    let (whole, small) =
      write-IsPlain h rs key value (expires_at c.deadline ttl) faults.write p taken in
    let kept = set_refused probed e' c.store entropy key value ttl err stored in
    (
      (λ j. ap (λ x. view x t j) kept ∙ view-get e c.probe c.probe_later t key j late),
      IsPlain-Loads h' _ (
          subst
            (λ x.
              IsPlain x (rs ++ left_behind (is_found (get e c.probe c.probe_later key).1) key r))
            (sym same)
            (left (is_found (get e c.probe c.probe_later key).1) r
              (write true h key value (expires_at c.deadline ttl) faults.write).0 whole small)),
    )
  where
    left :
        (existed : Bool) (r : Record) (w : Handle.Handle)
        → IsPlain w (rs ++ r ∷ [])
        → length key < u32_mod
        → IsPlain
            (if existed then w else (Handle.delete true w key faults.undo).0)
            (rs ++ left_behind existed key r)
    left true r w whole small = whole
    left false r w whole small =
        subst (IsPlain (Handle.delete true w key faults.undo).0)
          (append_assoc rs (r ∷ []) (tomb_of key ∷ []))
          (delete-IsPlain w (rs ++ r ∷ []) key faults.undo whole small fine)
