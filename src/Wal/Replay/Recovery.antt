-- ===== src/Wal/Replay/Recovery.antt =====
-- What clients read after a replay: an abstract replay of the records on the promise of the engine.
use tellstone.Prelude.{
  ℕ, suc, ◌+◌, ◌-◌, ◌≡◌, ◌↔◌, ◌⊎◌, inl, inr, refl, ap, ◌∙◌, sym, subst, ◌&&◌, Option, none, some,
  List, [], ◌∷◌, ◌++◌, Bytes, bytes_eq, ltb, spos64, ◌==◌, if◌then◌else◌, arith, Bool-cases,
}
use tellstone.Prelude.Run.{done, Returns-done}
use tellstone.Crypto.Cipher.{IsNonce}
use tellstone.Storage.Engine
use tellstone.Storage.Engine.{set, delete, expires_at}
use tellstone.Storage.Engine.Total.{IsValid, set-Succeeds, delete-IsValid}
use tellstone.Storage.Engine.Spec.{Promise}
use tellstone.Storage.Engine.Refines.{Agrees, set-Agrees, refused-Agrees, delete-Agrees}
use tellstone.Wal.Format.{Record}
use tellstone.Wal.Handle.{tombstone}
use tellstone.Wal.Replay.{Moment, Applied, loaded, skipped, refused, set_record, apply_record}
use tellstone.Wal.Replay.Crash.{apply_all}

abbrev pub put : Promise → Bytes → Bytes → Option ℕ → Promise
put p key value deadline j = if bytes_eq key j then some (value, deadline) else p j

abbrev pub drop_key : Promise → Bytes → Promise
drop_key p key j = if bytes_eq key j then none else p j

-- What one record makes of the promise: a tombstone takes the key away, a record whose time is over
-- changes nothing, and any other puts its value, with the time that is left from the moment of the
-- engine's call.
abbrev pub keep : Moment → Promise → Record → Promise
keep m p r =
    if r.ttl == tombstone
    then drop_key p r.key
    else if r.ttl == 0
    then put p r.key r.value none
    else if spos64 r.ttl && ltb m.until r.ttl
    then put p r.key r.value (some (m.store + (r.ttl - m.until)))
    else p

unfoldable pub keep_all : (ℕ → Moment) → Promise → List Record → Promise
keep_all ms p [] = p
keep_all ms p (r ∷ rs) = keep_all (λ i. ms (suc i)) (keep (ms 0) p r) rs

-- One record: the engine refuses it and stays as it was, or does what is promised.
abbrev Applies : Engine.Engine → Promise → ℕ → Moment → Record → Type 0
Applies e p t m r =
    (e' : Engine.Engine) × (a : Applied) × (apply_record e m r ≡ done (e', a))
    × IsValid e'
    × (((err : Engine.Error) × (a ≡ refused err) × Agrees e' p t)
        ⊎ (((a ≡ loaded) ⊎ (a ≡ skipped)) × Agrees e' (keep m p r) t))

set_record-Applies :
    (e : Engine.Engine) (p : Promise) (t : ℕ) (m : Moment) (r : Record) (ttl : ℕ)
    → IsValid e
    → Agrees e p t
    → IsNonce m.entropy
    → apply_record e m r ≡ set_record e m r ttl
    → keep m p r ≡ put p r.key r.value (expires_at m.store ttl)
    → Applies e p t m r
set_record-Applies e p t m r ttl v a nonce same kept =
    let ((e', x), ran, valid) =
      Returns-done _ (set e m.store m.entropy r.key r.value ttl)
        (set-Succeeds e m.store m.entropy r.key r.value ttl v) in
    go e' x ran valid
  where
    go :
        (e' : Engine.Engine) (x : Option Engine.Error)
        → set e m.store m.entropy r.key r.value ttl ≡ done (e', x)
        → IsValid e'
        → Applies e p t m r
    go e' none ran valid = (
      e',
      loaded,
      same ∙ rw (ran, set_record) refl,
      valid,
      inr (
        inl refl,
        subst (λ q. Agrees e' q t) (sym kept)
            (set-Agrees e e' p t m.store t m.entropy r.key r.value ttl a (omega arith) nonce ran),
      ),
    )
    go e' (some err) ran valid = (
      e',
      refused err,
      same ∙ rw (ran, set_record) refl,
      valid,
      inl (
        err,
        refl,
        refused-Agrees e e' p t m.store t m.entropy r.key r.value ttl err a (omega arith) ran,
      ),
    )

apply_record-Applies :
    (e : Engine.Engine) (p : Promise) (t : ℕ) (m : Moment) (r : Record)
    → IsValid e
    → Agrees e p t
    → IsNonce m.entropy
    → Applies e p t m r
apply_record-Applies e p t m r v a nonce = elim (Bool-cases (r.ttl == tombstone)) [
  | inl dead ↦ (
    (delete e m.store r.key).0,
    skipped,
    (unfold apply_record in rw dead refl),
    delete-IsValid e m.store r.key v,
    inr (
      inr refl,
      subst (λ q. Agrees (delete e m.store r.key).0 q t) (sym (rw dead refl))
          (delete-Agrees e p t m.store t r.key a (omega arith)),
    ),
  )
  | inr alive ↦ elim (Bool-cases (r.ttl == 0)) [
    | inl forever ↦
        set_record-Applies e p t m r 0 v a nonce (unfold apply_record in rw (alive, forever) refl)
          (unfold expires_at in rw (alive, forever) refl)
    | inr timed ↦ elim (Bool-cases (spos64 r.ttl && ltb m.until r.ttl)) [
      | inl early ↦
          set_record-Applies e p t m r (r.ttl - m.until) v a nonce
            (unfold apply_record in rw (alive, timed, early) refl)
            (unfold expires_at in ground arith)
      | inr over ↦ (
        e,
        skipped,
        (unfold apply_record in rw (alive, timed, over) refl),
        v,
        inr (inr refl, subst (λ q. Agrees e q t) (sym (rw (alive, timed, over) refl)) a),
      )
    ]
  ]
]

-- A prefix of the records is applied; the rest is empty, or begins with a record that the engine
-- refused.
abbrev pub Recovers : (ℕ → Moment) → Engine.Engine → Promise → ℕ → List Record → Type 0
Recovers ms e p t rs =
    (out : Engine.Engine × Option Engine.Error) × (apply_all ms e rs ≡ done out)
    × (taken : List Record) × (rest : List Record) × (taken ++ rest ≡ rs)
    × Agrees out.0 (keep_all ms p taken) t
    × ((out.1 ≡ none) ↔ (rest ≡ []))

-- A replay of any records on a valid engine that agrees with a promise returns without a panic, and
-- the engine then agrees with the promise that the records make of it one after another, up to the
-- first that the engine refuses; there is an error exactly if such a record was left.
pub apply_all-Recovers :
    (ms : ℕ → Moment) (e : Engine.Engine) (p : Promise) (t : ℕ) (rs : List Record)
    → IsValid e
    → Agrees e p t
    → ((i : ℕ) → IsNonce (ms i).entropy)
    → Recovers ms e p t rs
unfolding apply_all keep_all
apply_all-Recovers ms e p t [] v a nonces =
    ((e, none), refl, [], [], refl, a, (λ h. refl, λ h. refl))
apply_all-Recovers ms e p t (r ∷ rs) v a nonces =
    let (e', x, ran, v', after) = apply_record-Applies e p t (ms 0) r v a (nonces 0) in
    elim after [
      | inl (err, q, a') ↦ (
        (e', some err),
        rw (ran, q, apply_all) refl,
        [],
        r ∷ rs,
        refl,
        a',
        (λ h. absurd (ground arith), λ h. absurd (ground arith)),
      )
      | inr (fine, a') ↦
          let (out, went, taken, rest, parts, agrees, whole) =
            apply_all-Recovers (λ i. ms (suc i)) e' (keep (ms 0) p r) t rs v' a'
              (λ i. nonces (suc i)) in
          (
            out,
            elim fine [ inl q ↦ rw (ran, q, apply_all) went | inr q ↦ rw (ran, q, apply_all) went ],
            r ∷ taken,
            rest,
            ap (◌∷◌ r) parts,
            agrees,
            whole,
          )
    ]
