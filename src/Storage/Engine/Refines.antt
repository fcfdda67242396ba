-- ===== src/Storage/Engine/Refines.antt =====
-- The engine keeps the promise of Spec: encryption, the wheel and lazy eviction are invisible.
use tellstone.Prelude.{
  ℕ, ◌≤◌, ◌≡◌, refl, ap, ◌∙◌, sym, subst, le_trans, Bool, true, false, Option, none, some, List, [],
  ◌∷◌, Bytes, arith, bytes_eq, if◌then◌else◌, Bool-cases, inl, inr,
}
use tellstone.Prelude.Run.{done, Returns-done}
use tellstone.Prelude.Table.{lookup}
use tellstone.Crypto.Cipher
use tellstone.Storage.Chronometer.{max_slots}
use tellstone.Crypto.Cipher.{Lawful, IsNonce}
use tellstone.Storage.Engine.{Engine, Error, new_engine, set, delete, get, expires_at}
use tellstone.Storage.Engine.Total.{
  IsValid, set-Succeeds, tick-IsValid, get-IsValid, delete-IsValid, new_engine-IsValid,
}
use tellstone.Storage.Engine.View.{
  view, view-set, view-get, view-delete, view-tick, set_refused as set_refused_lem, crypto-set,
  crypto-get, crypto-delete, crypto-tick, get-eq-view, delete-eq-view, passed,
}
use tellstone.Storage.Engine.Spec.{
  Request, request_set, request_get, request_delete, request_tick, Answer, written, found, deleted,
  ticked, answer, Promise, promised, is_some, Allowed, set_accepted, set_refused, get_found,
  delete_found, tick_silent, Within, Ordered, serve, AllowedRun, finished, next,
}

abbrev pub shown : Option Bytes → Option (Option Bytes)
shown none = none
shown (some v) = some (some v)

-- From a moment on, an engine shows what is promised, and its cipher is lawful.
pub record Agrees (e : Engine) (p : Promise) (t : ℕ) : Type 0 where
  pub lawful : Lawful e.crypto
  pub same : (u : ℕ) (j : Bytes) → t ≤ u → view e u j ≡ shown (promised p u j)

-- One request: the answer is allowed, and agreement goes on.
abbrev Refined : Engine → Promise → Request → ℕ → Type 0
Refined e p r u =
    (out : Engine × Answer) × (answer e r ≡ done out)
    × (q : Promise) × Allowed p r out.1 q
    × Agrees out.0 q u

abbrev opened : Option (Option Bytes) → Option Bytes
opened none = none
opened (some r) = r

abbrev present : Option (Option Bytes) → Bool
present none = false
present (some r) = true

opened-shown : (o : Option Bytes) → opened (shown o) ≡ o
opened-shown none = refl
opened-shown (some v) = refl

present-shown : (o : Option Bytes) → present (shown o) ≡ is_some o
present-shown none = refl
present-shown (some v) = refl

get-Refined :
    (e : Engine) (p : Promise) (t now later u : ℕ) (key : Bytes)
    → Agrees e p t
    → Within t (request_get now later key) u
    → Refined e p (request_get now later key) u
get-Refined e p t now later u key a w =
    let read : (get e now later key).1 ≡ promised p now key =
      get-eq-view e now later key
      ∙ ap opened (a.same now key w.0)
      ∙ opened-shown (promised p now key) in
    (
      ((get e now later key).0, found (get e now later key).1),
      unfold answer in refl,
      p,
      rw read (get_found now later key),
      record {
        lawful = subst Lawful (sym (crypto-get e now later key)) a.lawful;
        same = λ v j h. view-get e now later v key j (omega arith) ∙ a.same v j (omega arith);
      },
    )

promised-set :
    (p : Promise) (key value : Bytes) (deadline : Option ℕ) (u : ℕ) (j : Bytes)
    → shown (promised (λ i. if bytes_eq key i then some (value, deadline) else p i) u j) ≡ (
        if bytes_eq key j
        then (if passed deadline u then none else some (some value))
        else shown (promised p u j))
unfolding promised
promised-set p key value deadline u j = elim (Bool-cases (bytes_eq key j)) [
  | inl h ↦ rw h (ground arith)
  | inr h ↦ rw h refl
]

promised-delete :
    (p : Promise) (key : Bytes) (u : ℕ) (j : Bytes)
    → shown (promised (λ i. if bytes_eq key i then none else p i) u j)
      ≡ (if bytes_eq key j then none else shown (promised p u j))
unfolding promised
promised-delete p key u j = elim (Bool-cases (bytes_eq key j)) [
  | inl h ↦ rw h refl
  | inr h ↦ rw h refl
]

pub delete-Agrees :
    (e : Engine) (p : Promise) (t now u : ℕ) (key : Bytes)
    → Agrees e p t
    → t ≤ u
    → Agrees (delete e now key).0 (λ j. if bytes_eq key j then none else p j) u
delete-Agrees e p t now u key a h = record {
  lawful = subst Lawful (sym (crypto-delete e now key)) a.lawful;
  same = λ v j k.
      view-delete e now v key j
      ∙ ap (λ x. if bytes_eq key j then none else x) (a.same v j (omega arith))
      ∙ sym (promised-delete p key v j);
}

delete-Refined :
    (e : Engine) (p : Promise) (t now u : ℕ) (key : Bytes)
    → Agrees e p t
    → Within t (request_delete now key) u
    → Refined e p (request_delete now key) u
delete-Refined e p t now u key a w =
    let told : (delete e now key).1 ≡ is_some (promised p now key) =
      delete-eq-view e now key
      ∙ ap present (a.same now key w.0)
      ∙ present-shown (promised p now key) in
    (
      ((delete e now key).0, deleted (delete e now key).1),
      unfold answer in refl,
      (λ j. if bytes_eq key j then none else p j),
      rw told (delete_found now key),
      delete-Agrees e p t now u key a (omega arith),
    )

module _ (e e' : Engine) (p : Promise) (t now u : ℕ) (entropy : Option Bytes) (key value : Bytes)
    (ttl : ℕ) where
  pub set-Agrees :
      Agrees e p t
      → t ≤ u
      → IsNonce entropy
      → set e now entropy key value ttl ≡ done (e', none)
      → Agrees e' (λ j. if bytes_eq key j then some (value, expires_at now ttl) else p j) u
  set-Agrees a h nonce ran = record {
    lawful = subst Lawful (sym (crypto-set e e' now entropy key value ttl none ran)) a.lawful;
    same = λ x j k.
        view-set e e' now entropy key value ttl x j a.lawful nonce ran
        ∙ ap
            (λ y.
              if bytes_eq key j
              then (if passed (expires_at now ttl) x then none else some (some value))
              else y)
            (a.same x j (omega arith))
        ∙ sym (promised-set p key value (expires_at now ttl) x j);
  }

  pub refused-Agrees :
      (err : Error)
      → Agrees e p t
      → t ≤ u
      → set e now entropy key value ttl ≡ done (e', some err)
      → Agrees e' p u
  refused-Agrees err a h ran = record {
    lawful = subst Lawful (sym (crypto-set e e' now entropy key value ttl (some err) ran)) a.lawful;
    same = λ x j k.
        ap (λ y. view y x j) (set_refused_lem e e' now entropy key value ttl err ran)
        ∙ a.same x j (omega arith);
  }

set-Refined :
    (e : Engine) (p : Promise) (t now u : ℕ) (entropy : Option Bytes) (key value : Bytes) (ttl : ℕ)
    → IsValid e
    → Agrees e p t
    → Within t (request_set now entropy key value ttl) u
    → Refined e p (request_set now entropy key value ttl) u
set-Refined e p t now u entropy key value ttl v a w =
    let ((e', r), ran, valid) =
      Returns-done _ (set e now entropy key value ttl)
        (set-Succeeds e now entropy key value ttl v) in
    go e' r ran
  where
    go :
        (e' : Engine) (r : Option Error)
        → set e now entropy key value ttl ≡ done (e', r)
        → Refined e p (request_set now entropy key value ttl) u
    go e' none ran = (
      (e', written none),
      (unfold answer in rw ran),
      (λ j. if bytes_eq key j then some (value, expires_at now ttl) else p j),
      set_accepted now entropy key value ttl,
      set-Agrees e e' p t now u entropy key value ttl a (omega arith) w.2 ran,
    )
    go e' (some err) ran = (
      (e', written (some err)),
      (unfold answer in rw ran),
      p,
      set_refused now entropy key value ttl err,
      refused-Agrees e e' p t now u entropy key value ttl err a (omega arith) ran,
    )

tick-Refined :
    (e : Engine) (p : Promise) (t u : ℕ) (now : ℕ → ℕ)
    → IsValid e
    → Agrees e p t
    → Within t (request_tick now) u
    → Refined e p (request_tick now) u
tick-Refined e p t u now v a w =
    let (e', ran, valid) = tick-IsValid e now v in
    (
      (e', ticked),
      (unfold answer in rw ran),
      p,
      tick_silent now,
      record {
        lawful = subst Lawful (sym (crypto-tick e e' now ran)) a.lawful;
        same = λ x j h.
            view-tick e e' now x j (λ i. le_trans (w.1 i) h) ran ∙ a.same x j (omega arith);
      },
    )

answer-Refined :
    (e : Engine) (p : Promise) (t : ℕ) (r : Request) (u : ℕ)
    → IsValid e
    → Agrees e p t
    → Within t r u
    → Refined e p r u
answer-Refined e p t (request_set now entropy key value ttl) u v a w =
    set-Refined e p t now u entropy key value ttl v a w
answer-Refined e p t (request_get now later key) u v a w = get-Refined e p t now later u key a w
answer-Refined e p t (request_delete now key) u v a w = delete-Refined e p t now u key a w
answer-Refined e p t (request_tick now) u v a w = tick-Refined e p t u now v a w

answer-IsValid :
    (e e' : Engine) (r : Request) (b : Answer) → IsValid e → answer e r ≡ done (e', b) → IsValid e'
unfolding answer
answer-IsValid e e' (request_set now entropy key value ttl) b v h =
    let (out, ran, valid) =
      Returns-done _ (set e now entropy key value ttl)
        (set-Succeeds e now entropy key value ttl v) in
    subst IsValid (ground arith) valid
answer-IsValid e e' (request_get now later key) b v h =
    subst IsValid (ground arith) (get-IsValid e now later key v)
answer-IsValid e e' (request_delete now key) b v h =
    subst IsValid (ground arith) (delete-IsValid e now key v)
answer-IsValid e e' (request_tick now) b v h =
    let (out, ran, valid) = tick-IsValid e now v in subst IsValid (ground arith) valid

serve-AllowedRun :
    (e : Engine) (p : Promise) (t : ℕ) (requests : List (Request × ℕ))
    → IsValid e
    → Agrees e p t
    → Ordered t requests
    → (out : Engine × List Answer) × (serve e requests ≡ done out)
      × (q : Promise) × AllowedRun p requests out.1 q
unfolding serve
serve-AllowedRun e p t [] v a o = ((e, []), refl, p, finished)
serve-AllowedRun e p t ((r, u) ∷ rest) v a o =
    let ((e₁, b), ran, q, allowed, a₁) = answer-Refined e p t r u v a o.0 in
    let v₁ = answer-IsValid e e₁ r b v ran in
    let ((e', answers), served, s, run) = serve-AllowedRun e₁ q u rest v₁ a₁ o.1 in
    ((e', b ∷ answers), ground arith, s, next allowed run)

-- On a fresh engine with at most MaxSlots slots and a lawful cipher, requests whose clock readings
-- do not go back are all answered, without a panic, by answers that the promise allows in its
-- order: a GET finds, and a DELETE reports, exactly what the SETs accepted so far left at the key
-- and not yet expired, whatever the wheel, the cipher and the lazy evictions do.
pub new_engine-AllowedRun :
    (default_max interval num_slots max_bytes : ℕ) (crypto : Cipher.Engine)
    (requests : List (Request × ℕ))
    → num_slots ≤ max_slots
    → Lawful crypto
    → Ordered 0 requests
    → (out : Engine × List Answer) × (serve
          (new_engine default_max interval num_slots max_bytes crypto)
          requests
        ≡ done out)
      × (q : Promise) × AllowedRun (λ key. none) requests out.1 q
new_engine-AllowedRun default_max interval num_slots max_bytes crypto requests h laws o =
    serve-AllowedRun (new_engine default_max interval num_slots max_bytes crypto) (λ key. none) 0
      requests (new_engine-IsValid default_max interval num_slots max_bytes crypto h)
      (record {
        lawful = unfold new_engine in laws;
        same = λ u j k. unfold new_engine view promised lookup in refl;
      })
      o
