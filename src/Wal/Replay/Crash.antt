-- ===== src/Wal/Replay/Crash.antt =====
-- A replay applies the records that were written whole, and cuts off one that was not.
use mathlib.Core.List.{append_assoc, append-nil}
use tellstone.Prelude.{
  ℕ, zero, suc, ◌+◌, ◌-◌, ◌<◌, ◌≤◌, ◌≡◌, refl, ap, ◌∙◌, true, false, Option, none, some, List, [],
  ◌∷◌, ◌++◌, Bytes, length, take, arith, length-append, take-append,
}
use tellstone.Prelude.Run.{Run, done, panics}
use tellstone.Storage.Engine
use tellstone.Wal.Format.{Record, header_size, header, encode, read_record}
use tellstone.Wal.Format.Torn.{IsSized, read_record-encode, read_record-take}
use tellstone.Wal.Handle.{Handle, append_record, append_bytes}
use tellstone.Wal.Replay.{
  Moment, Applied, loaded, skipped, refused, apply_record, Replayed, replay_plain, finish_replay,
  load_plain,
}

-- The records one after another, in front of other bytes.
unfoldable pub encode_onto : List Record → Bytes → Bytes
encode_onto [] tail = tail
encode_onto (r ∷ rs) tail = header r ++ (r.key ++ (r.value ++ encode_onto rs tail))

abbrev pub AllSized : List Record → Type 0
AllSized [] = Unit
AllSized (r ∷ rs) = IsSized r × AllSized rs

-- The records applied in their order, up to the first that the engine refuses.
unfoldable pub apply_all :
    (ℕ → Moment) → Engine.Engine → List Record → Run (Engine.Engine × Option Engine.Error)
apply_all ms e [] = done (e, none)
apply_all ms e (r ∷ rs) = elim (apply_record e (ms 0) r) [
  | panics ↦ panics
  | done (e', refused err) ↦ done (e', some err)
  | done (e', _) ↦ apply_all (λ i. ms (suc i)) e' rs
]

pub encode_onto-append :
    (rs : List Record) (tail b : Bytes) → encode_onto rs tail ++ b ≡ encode_onto rs (tail ++ b)
unfolding encode_onto
encode_onto-append [] tail b = refl
encode_onto-append (r ∷ rs) tail b =
    simp append_assoc
      (ap (λ s. header r ++ (r.key ++ (r.value ++ s))) (encode_onto-append rs tail b))

-- Appending a record to a log of whole records.
pub encode_onto-snoc :
    (rs : List Record) (r : Record) → encode_onto rs [] ++ encode r ≡ encode_onto (rs ++ r ∷ []) []
unfolding encode_onto encode
encode_onto-snoc [] r = simp append-nil refl
encode_onto-snoc (q ∷ rs) r =
    simp append_assoc (ap (λ s. header q ++ (q.key ++ (q.value ++ s))) (encode_onto-snoc rs r))

pub length-encode_onto :
    (rs : List Record) (tail : Bytes) → length rs + length tail ≤ length (encode_onto rs tail)
unfolding encode_onto
length-encode_onto [] tail = omega arith
length-encode_onto (r ∷ rs) tail =
    let sized : length (header r) ≡ header_size = unfold header in refl in
    omega (
      arith,
      sized,
      length-encode_onto rs tail,
      length-append {0} (header r) (r.key ++ (r.value ++ encode_onto rs tail)),
      length-append {0} r.key (r.value ++ encode_onto rs tail),
      length-append {0} r.value (encode_onto rs tail),
    )

-- Where the replay stops is of interest only without an error.
abbrev settled : Run Replayed → Run Replayed
settled panics = panics
settled (done (e, none, s)) = done (e, none, s)
settled (done (e, some err, s)) = done (e, some err, [])

abbrev ending : Bytes → Run (Engine.Engine × Option Engine.Error) → Run Replayed
ending tail panics = panics
ending tail (done (e, none)) = done (e, none, tail)
ending tail (done (e, some err)) = done (e, some err, [])

replay_plain-encode_onto :
    (n : ℕ) (ms : ℕ → Moment) (e : Engine.Engine) (rs : List Record) (tail : Bytes)
    → length rs ≤ n
    → AllSized rs
    → read_record tail ≡ none
    → settled (replay_plain n ms e (encode_onto rs tail)) ≡ ending tail (apply_all ms e rs)
unfolding replay_plain encode_onto apply_all
replay_plain-encode_onto zero ms e [] tail k h t = refl
replay_plain-encode_onto zero ms e (r ∷ rs) tail k h t = absurd (omega arith)
replay_plain-encode_onto (suc n) ms e [] tail k h t = rw (t, settled) refl
replay_plain-encode_onto (suc n) ms e (r ∷ rs) tail k h t =
    rw (read_record-encode r (encode_onto rs tail) h.0, settled)
      (go (apply_record e (ms 0) r)
        (λ e'. replay_plain-encode_onto n (λ i. ms (suc i)) e' rs tail (omega arith) h.1 t))
  where
    go :
        (x : Run (Engine.Engine × Applied))
        → ((e' : Engine.Engine)
            → settled (replay_plain n (λ i. ms (suc i)) e' (encode_onto rs tail))
              ≡ ending tail (apply_all (λ i. ms (suc i)) e' rs))
        → settled (elim x [
          | panics ↦ panics
          | done (e', refused err) ↦ done (e', some err, encode_onto (r ∷ rs) tail)
          | done (e', _) ↦ replay_plain n (λ i. ms (suc i)) e' (encode_onto rs tail)
        ])
          ≡ ending tail (elim x [
            | panics ↦ panics
            | done (e', refused err) ↦ done (e', some err)
            | done (e', _) ↦ apply_all (λ i. ms (suc i)) e' rs
          ])
    go panics more = refl
    go (done (e', refused err)) more = refl
    go (done (e', loaded)) more = more e'
    go (done (e', skipped)) more = more e'

load_of : Handle → Run Replayed → Run (Handle × Engine.Engine × Option Engine.Error)
load_of h panics = panics
load_of h (done (e, none, s)) = done (finish_replay h s true, e, none)
load_of h (done (e, some err, s)) = done (h, e, some err)

-- The log and the engine after the whole records of a file.
abbrev pub recovered :
    Handle
    → List Record
    → Run (Engine.Engine × Option Engine.Error)
    → Run (Handle × Engine.Engine × Option Engine.Error)
recovered h rs panics = panics
recovered h rs (done (e, none)) = done (record h { file = encode_onto rs [] }, e, none)
recovered h rs (done (e, some err)) = done (h, e, some err)

load_of_lem :
    (h : Handle) (x y : Run Replayed) → settled x ≡ y → load_of h x ≡ load_of h (settled y)
unfolding load_of
load_of_lem h panics y q = rw (← q, settled) refl
load_of_lem h (done (e, none, s)) y q = rw (← q, settled) refl
load_of_lem h (done (e, some err, s)) y q = rw (← q, settled) refl

load_plain_lem :
    (h : Handle) (ms : ℕ → Moment) (e : Engine.Engine)
    → load_plain h ms e true ≡ load_of h (replay_plain (length h.file) ms e h.file)
unfolding load_plain load_of
load_plain_lem h ms e = go (replay_plain (length h.file) ms e h.file)
  where
    go :
        (x : Run Replayed)
        → elim x [
          | panics ↦ panics
          | done (e', some err, s) ↦ done (h, e', some err)
          | done (e', none, s) ↦ done (finish_replay h s true, e', none)
        ]
          ≡ load_of h x
    go panics = refl
    go (done (e, none, s)) = refl
    go (done (e, some err, s)) = refl

cut_tail :
    (rs : List Record) (tail : Bytes)
    → take (length (encode_onto rs tail) - length tail) (encode_onto rs tail) ≡ encode_onto rs []
cut_tail rs tail =
    let whole = encode_onto-append rs [] tail in
    let l : length (encode_onto rs tail) - length tail ≡ length (encode_onto rs []) =
      omega (arith, length-append {0} (encode_onto rs []) tail, ap length whole) in
    rw (l, ← whole) (take-append (encode_onto rs []) tail)

-- The tail of a file that is no record is cut off, and the records before it are applied.
pub load_plain-encode_onto :
    (h : Handle) (ms : ℕ → Moment) (e : Engine.Engine) (rs : List Record) (tail : Bytes)
    → AllSized rs
    → read_record tail ≡ none
    → h.file ≡ encode_onto rs tail
    → load_plain h ms e true ≡ recovered h rs (apply_all ms e rs)
unfolding load_of finish_replay
load_plain-encode_onto h ms e rs tail sized t f =
    load_plain_lem h ms e
    ∙ ap (λ s. load_of h (replay_plain (length s) ms e s)) f
    ∙ load_of_lem h _ _ (
        replay_plain-encode_onto (length (encode_onto rs tail)) ms e rs tail
          (omega (arith, length-encode_onto rs tail)) sized t)
    ∙ go (apply_all ms e rs)
  where
    go :
        (x : Run (Engine.Engine × Option Engine.Error))
        → load_of h (settled (ending tail x)) ≡ recovered h rs x
    go panics = refl
    go (done (e', none)) =
        ap (λ s. done (record h { file = s }, e', none))
          (ap (λ s. take (length s - length tail) s) f ∙ cut_tail rs tail)
    go (done (e', some err)) = refl

pub AllSized-snoc :
    (rs : List Record) (r : Record) → AllSized rs → IsSized r → AllSized (rs ++ r ∷ [])
AllSized-snoc [] r h k = (k, tt)
AllSized-snoc (q ∷ rs) r h k = (h.0, AllSized-snoc rs r h.1 k)

pub append_plain :
    (h : Handle) (r : Record) (fault : Option ℕ)
    → h.sealed ≡ false
    → h.needs_migrate ≡ false
    → (append_record h r fault).0.file
      ≡ h.file ++ elim fault [ none ↦ encode r | some n ↦ take n (encode r) ]
unfolding append_record append_bytes
append_plain h r none s m = ground arith
append_plain h r (some n) s m = ground arith

-- On a plaintext log of whole records that is not to be migrated: after an append that succeeds,
-- a replay applies the records and the new one, and keeps the file; after one that stopped at any
-- byte before the end, it applies the records before it, and the file is cut back to them.
pub load_plain-append_record :
    (h : Handle) (ms : ℕ → Moment) (e : Engine.Engine) (rs : List Record) (r : Record) (n : ℕ)
    → h.file ≡ encode_onto rs []
    → h.sealed ≡ false
    → h.needs_migrate ≡ false
    → AllSized rs
    → IsSized r
    → n < length (encode r)
    → (load_plain (append_record h r none).0 ms e true
        ≡ recovered (append_record h r none).0 (rs ++ r ∷ []) (apply_all ms e (rs ++ r ∷ [])))
      × (load_plain (append_record h r (some n)).0 ms e true
          ≡ recovered (append_record h r (some n)).0 rs (apply_all ms e rs))
load_plain-append_record h ms e rs r n f s m sized k short = (
  load_plain-encode_onto (append_record h r none).0 ms e (rs ++ r ∷ []) []
      (AllSized-snoc rs r sized k) (unfold read_record in refl)
      (append_plain h r none s m ∙ ap (λ x. x ++ encode r) f ∙ encode_onto-snoc rs r),
  load_plain-encode_onto (append_record h r (some n)).0 ms e rs (take n (encode r)) sized
      (read_record-take r n k short)
      (append_plain h r (some n) s m
        ∙ ap (λ x. x ++ take n (encode r)) f
        ∙ encode_onto-append rs [] (take n (encode r))),
)
