-- ===== src/Wal/Snapshot/Restart.antt =====
-- A restart of a plaintext shard from a snapshot and a log.
use tellstone.Prelude.{
  ℕ, suc, ◌-◌, ◌<◌, ◌≡◌, refl, ap, ◌∙◌, sym, subst, Bool, true, false, Option, none, some, List, [],
  ◌∷◌, ◌++◌, Bytes, bytes_eq, ltb, spos64, ◌&&◌, if◌then◌else◌, ◌==◌, length, drop, replicate,
  arith, length-append, take-append, drop-append, u64_mod,
}
use tellstone.Prelude.Run.{Run, done, panics, ◌>>=◌}
use tellstone.Crypto.Cipher
use tellstone.Crypto.Cipher.{enabled, encrypt_in_place}
use tellstone.Storage.Engine
use tellstone.Storage.Engine.{set, set_from_buffer, needed_size, over_limit}
use tellstone.Storage.Engine.View.{crypto-set}
use tellstone.Wal.Format.{Record, read_record}
use tellstone.Wal.Handle.{Handle, tombstone}
use tellstone.Wal.Replay.{
  Moment, Applied, loaded, skipped, refused, Step, apply_record, set_record, load_plain,
}
use tellstone.Wal.Replay.Crash.{encode_onto, AllSized, apply_all, recovered, load_plain-encode_onto}
use tellstone.Wal.Snapshot.{snap_magic, snapshot_bytes, Read, broken, entries, read_snapshot}
use tellstone.Wal.Snapshot.Restore.{
  restore_entry, restore_one, restore_all, restored, bad_snapshot, refused_entry, Restored,
  key_fingerprint, snapshot_exists, snapshot_read, snapshot_of, replay_wal, replayed, Loaded,
  load_phases,
}
use tellstone.Wal.Snapshot.RoundTrip.{read_snapshot-snapshot_bytes}

short_lem : (key value : Bytes) → ltb (length (key ++ value)) (length key) ≡ false
short_lem key value = ground (arith, length-append {0} key value)

abbrev off : Engine.Engine → Engine.Engine
off e = record e { crypto = Cipher.disabled }

-- On an engine without a cipher the buffer of key and value is stored as Set stores them.
set_from_buffer-set :
    (e : Engine.Engine) (now : ℕ) (entropy : Option Bytes) (key value : Bytes) (ttl : ℕ)
    → set_from_buffer (off e) now entropy (key ++ value) (some (length key)) ttl
      ≡ set (off e) now entropy key value ttl
unfolding set_from_buffer set needed_size enabled encrypt_in_place
set_from_buffer-set e now entropy key value ttl =
    rw
      (
        short_lem key value,
        take-append key value,
        drop-append key value,
        length-append {0} key value,
      )
      refl

-- What is made of a write.
abbrev written : Run (Engine.Engine × Option Engine.Error) → Run Step
written x =
    ◌>>=◌ {B = Step} x (λ s. done (s.0, elim s.1 [ none ↦ loaded | some err ↦ refused err ]))

restore_entry-set_record :
    (e : Engine.Engine) (m : Moment) (r : Record) (ttl : ℕ)
    → restore_entry (off e) m r ttl ≡ set_record (off e) m r ttl
restore_entry-set_record e m r ttl =
    let shown : restore_entry (off e) m r ttl
        ≡ written (
            set_from_buffer (off e) m.store m.entropy (r.key ++ r.value) (some (length r.key))
              ttl) =
      unfold restore_entry enabled in refl in
    shown ∙ ap written (set_from_buffer-set e m.store m.entropy r.key r.value ttl)

-- By its time to live: without one, with one to come, or over.
abbrev choose : Engine.Engine → Moment → Record → Run Step → Run Step → Run Step
choose e m r forever timed =
    if r.ttl == 0
    then forever
    else if spos64 r.ttl && ltb m.until r.ttl
    then timed
    else done (e, skipped)

restore_off :
    (e : Engine.Engine) (m : Moment) (r : Record)
    → (r.ttl == tombstone) ≡ false
    → restore_one (off e) m r ≡ apply_record (off e) m r
restore_off e m r alive =
    let kept : apply_record (off e) m r
        ≡ choose (off e) m r (set_record (off e) m r 0) (set_record (off e) m r (r.ttl - m.until)) =
      unfold apply_record in rw alive refl in
    let shown : restore_one (off e) m r
        ≡ choose (off e) m r (restore_entry (off e) m r 0)
            (restore_entry (off e) m r (r.ttl - m.until)) =
      unfold restore_one in refl in
    shown
    ∙ ap (λ x. choose (off e) m r x (restore_entry (off e) m r (r.ttl - m.until)))
        (restore_entry-set_record e m r 0)
    ∙ ap (choose (off e) m r (set_record (off e) m r 0))
        (restore_entry-set_record e m r (r.ttl - m.until))
    ∙ sym kept

-- An entry is restored as a record of the log with the same bytes is applied.
restore_one-apply_record :
    (e : Engine.Engine) (m : Moment) (r : Record)
    → e.crypto ≡ Cipher.disabled
    → (r.ttl == tombstone) ≡ false
    → restore_one e m r ≡ apply_record e m r
restore_one-apply_record e m r h alive =
    subst (λ z. restore_one z m r ≡ apply_record z m r) (sym (ap (λ c. record e { crypto = c }) h))
      (restore_off e m r alive)

set_record-crypto :
    (e e' : Engine.Engine) (m : Moment) (r : Record) (ttl : ℕ) (a : Applied)
    → set_record e m r ttl ≡ done (e', a)
    → e'.crypto ≡ e.crypto
set_record-crypto e e' m r ttl a h = go (set e m.store m.entropy r.key r.value ttl) refl h
  where
    go :
        (x : Run (Engine.Engine × Option Engine.Error))
        → set e m.store m.entropy r.key r.value ttl ≡ x
        → ◌>>=◌ {B = Step} x (λ s. done (s.0, elim s.1 [ none ↦ loaded | some err ↦ refused err ]))
          ≡ done (e', a)
        → e'.crypto ≡ e.crypto
    go panics q k = absurd (ground arith)
    go (done (e₁, x)) q k =
        let same : e₁ ≡ e' = ground (arith, k) in
        subst (λ z. z.crypto ≡ e.crypto) same
          (crypto-set e e₁ m.store m.entropy r.key r.value ttl x q)

apply_record-crypto :
    (e e' : Engine.Engine) (m : Moment) (r : Record) (a : Applied)
    → (r.ttl == tombstone) ≡ false
    → apply_record e m r ≡ done (e', a)
    → e'.crypto ≡ e.crypto
unfolding apply_record
apply_record-crypto e e' m r a alive h = ground (
  arith,
  alive,
  h,
  set_record-crypto e e' m r 0 a,
  set_record-crypto e e' m r (r.ttl - m.until) a,
)

-- No record is a deletion.
abbrev pub AllAlive : List Record → Type 0
AllAlive [] = Unit
AllAlive (r ∷ rs) = ((r.ttl == tombstone) ≡ false) × AllAlive rs

restore_all-apply_all :
    (ms : ℕ → Moment) (e : Engine.Engine) (rs : List Record)
    → e.crypto ≡ Cipher.disabled
    → AllAlive rs
    → restore_all ms e rs ≡ apply_all ms e rs
unfolding restore_all apply_all
restore_all-apply_all ms e [] h alive = refl
restore_all-apply_all ms e (r ∷ rs) h alive =
    go (restore_one e (ms 0) r) (apply_record e (ms 0) r)
      (restore_one-apply_record e (ms 0) r h alive.0)
      (λ e' a q.
        restore_all-apply_all (λ i. ms (suc i)) e' rs
          (apply_record-crypto e e' (ms 0) r a alive.0 q ∙ h) alive.1)
  where
    go :
        (x y : Run Step)
        → x ≡ y
        → ((e' : Engine.Engine) (a : Applied)
            → y ≡ done (e', a)
            → restore_all (λ i. ms (suc i)) e' rs ≡ apply_all (λ i. ms (suc i)) e' rs)
        → elim x [
          | panics ↦ panics
          | done (e', refused err) ↦ done (e', some err)
          | done (e', _) ↦ restore_all (λ i. ms (suc i)) e' rs
        ]
          ≡ elim y [
            | panics ↦ panics
            | done (e', refused err) ↦ done (e', some err)
            | done (e', _) ↦ apply_all (λ i. ms (suc i)) e' rs
          ]
    go x panics q more = rw q refl
    go x (done (e', refused err)) q more = rw q refl
    go x (done (e', loaded)) q more = rw q (more e' loaded refl)
    go x (done (e', skipped)) q more = rw q (more e' skipped refl)

-- The log's records behind the entries.
abbrev pub resumed :
    Handle → List Record → (ℕ → Moment) → Run (Engine.Engine × Option Engine.Error) → Loaded
resumed h rs ms panics = panics
resumed h rs ms (done (e, some err)) = done (h, e, some (refused_entry err))
resumed h rs ms (done (e, none)) = replayed (recovered h rs (apply_all ms e rs))

replay_plain_log :
    (h : Handle) (ms : ℕ → Moment) (e : Engine.Engine) (sidecar_ok : Bool)
    → h.sealed ≡ false
    → replay_wal h ms e sidecar_ok true ≡ replayed (load_plain h ms e true)
unfolding replay_wal
replay_plain_log h ms e sidecar_ok plain = rw plain refl

phases_lem :
    (sum : Bytes → ℕ) (h : Handle) (file : Bytes) (ms ms' : ℕ → Moment) (e : Engine.Engine)
    (sidecar_ok : Bool) (rs : List Record) (x : Run (Engine.Engine × Option Engine.Error))
    → snapshot_of sum h (some file) ms e ≡ restored x
    → h.sealed ≡ false
    → ((e' : Engine.Engine) → load_plain h ms' e' true ≡ recovered h rs (apply_all ms' e' rs))
    → load_phases sum h (some file) ms ms' e sidecar_ok true ≡ resumed h rs ms' x
unfolding load_phases
phases_lem sum h file ms ms' e sidecar_ok rs x q plain log =
    start (snapshot_of sum h (some file) ms e) x q
  where
    start :
        (y : Restored) (x : Run (Engine.Engine × Option Engine.Error))
        → y ≡ restored x
        → elim y [
          | panics ↦ panics
          | done (e', some err) ↦ done (h, e', some err)
          | done (e', none) ↦ replay_wal h ms' e' sidecar_ok true
        ]
          ≡ resumed h rs ms' x
    start y panics q = rw q refl
    start y (done (e', some err)) q = rw q refl
    start y (done (e', none)) q =
        rw q (replay_plain_log h ms' e' sidecar_ok plain ∙ ap replayed (log e'))

read_lem :
    (sum : Bytes → ℕ) (fp file : Bytes) (ms : ℕ → Moment) (e : Engine.Engine) (rs : List Record)
    → read_snapshot sum fp file ≡ entries rs
    → snapshot_read sum fp file ms e ≡ restored (restore_all ms e rs)
unfolding snapshot_read
read_lem sum fp file ms e rs q = go (read_snapshot sum fp file) q
  where
    go :
        (x : Read)
        → x ≡ entries rs
        → elim x [
          | broken err ↦ done (e, some (bad_snapshot err))
          | entries rs ↦ restored (restore_all ms e rs)
        ]
          ≡ restored (restore_all ms e rs)
    go x q = rw q refl

magic_lem : (s : Bytes) → snapshot_exists (some (snap_magic ++ s)) ≡ true
unfolding bytes_eq
magic_lem s = ground arith

exists_lem :
    (sum : Bytes → ℕ) (now : ℕ) (fp : Bytes) (rs : List Record)
    → snapshot_exists (some (snapshot_bytes sum now fp rs)) ≡ true
unfolding snapshot_bytes
exists_lem sum now fp rs = magic_lem (drop 4 (snapshot_bytes sum now fp rs))

snapshot_of_lem :
    (sum : Bytes → ℕ) (h : Handle) (file : Bytes) (ms : ℕ → Moment) (e : Engine.Engine)
    → snapshot_exists (some file) ≡ true
    → snapshot_of sum h (some file) ms e ≡ snapshot_read sum (key_fingerprint h.crypto) file ms e
snapshot_of_lem sum h file ms e q =
    ap (λ b. if b then snapshot_read sum (key_fingerprint h.crypto) file ms e else done (e, none)) q

-- With a 64-bit checksum, on a plaintext shard and an engine without a cipher, where the log is whole
-- records and a tail that is none: a load behind a whole snapshot of entries that are no deletions
-- comes to the replay of the entries as records of a log, up to the first that the engine refuses,
-- and then of the log's own records, whose tail is cut off.
pub load_phases-apply_all :
    (sum : Bytes → ℕ)
    → ((s : Bytes) → sum s < u64_mod)
    → (h : Handle) (now : ℕ) (live rs : List Record) (tail : Bytes) (ms ms' : ℕ → Moment)
      (e : Engine.Engine) (sidecar_ok : Bool)
    → AllSized live
    → AllAlive live
    → AllSized rs
    → read_record tail ≡ none
    → h.file ≡ encode_onto rs tail
    → h.sealed ≡ false
    → h.crypto ≡ Cipher.disabled
    → e.crypto ≡ Cipher.disabled
    → load_phases sum h
        (some (snapshot_bytes sum now (replicate 16 0) live))
        ms
        ms'
        e
        sidecar_ok
        true
      ≡ resumed h rs ms' (apply_all ms e live)
load_phases-apply_all sum fits h now live rs tail ms ms' e sidecar_ok sized alive ok torn f plain hc
      ec =
    let file = snapshot_bytes sum now (replicate 16 0) live in
    let seen = snapshot_of_lem sum h file ms e (exists_lem sum now (replicate 16 0) live) in
    let read : snapshot_read sum (key_fingerprint h.crypto) file ms e
        ≡ restored (restore_all ms e live) =
      ap (λ k. snapshot_read sum (key_fingerprint k) file ms e) hc
      ∙ read_lem sum (replicate 16 0) file ms e live
          (read_snapshot-snapshot_bytes sum fits now (replicate 16 0) live refl sized) in
    let same = restore_all-apply_all ms e live ec alive in
    phases_lem sum h file ms ms' e sidecar_ok rs (apply_all ms e live)
      (seen ∙ read ∙ ap restored same) plain
      (λ e'. load_plain-encode_onto h ms' e' rs tail ok torn f)
