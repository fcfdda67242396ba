-- ===== src/Tests/Storage.antt =====
-- The storage engine, its wheel and its cipher on concrete inputs. The cipher's primitive is one that
-- appends sixteen zeros.
use tellstone.Prelude.{
  ℕ, ◌-◌, ◌≤◌, ◌/◌, min, ◌≡◌, refl, true, Option, none, some, List, [], ◌∷◌, ◌++◌, Bytes, codes,
  arith, length, replicate, take, leb, if◌then◌else◌, bytes_eq, contains, length-append,
  take-append,
}
use tellstone.Prelude.Run.{Run, done, panics}
use tellstone.Prelude.Table.{lookup, insert, total}
use tellstone.Crypto.Cipher
use tellstone.Crypto.Cipher.{
  Aead, AeadLaws, active, disabled, enabled, encrypt_in_place, decrypt_in_place, nonce_size,
  overhead, decrypt-encrypt, length-encrypt,
}
use tellstone.Storage.Chronometer.{
  Chronometer, new_chronometer, advance, register, target_slot, steps_ahead, register_on,
}
use tellstone.Storage.Chronometer.Fits.{new_chronometer-Fits}
use tellstone.Storage.Chronometer.Delivery.{turns, register-delivered}
use tellstone.Storage.Engine.{
  Engine, Error, new_engine, item_size, put_item, set, tick, expires_at, over_limit, needed_size,
  commit, schedule, sweep,
}
use tellstone.Storage.Engine.Calls.{
  Call, call_set, call_set_raw, call_get, call_tick, call_delete, run,
}
use tellstone.Storage.Engine.Total.{IsValid, run-new_engine}
use tellstone.Storage.Engine.Ceiling.{AllSmall, run-le-max_bytes}
use tellstone.Storage.Engine.Spec.{
  Request, request_set, request_get, request_delete, request_tick, Answer, Promise, AllowedRun,
  Ordered, serve,
}
use tellstone.Storage.Engine.Refines.{new_engine-AllowedRun}
use tellstone.Storage.Engine.View.{view, passed, view-set, view-tick}

abbrev pub zeros : Bytes
zeros = replicate overhead 0

abbrev pub plain : Aead
plain = record {
  seal = λ nonce text. text ++ zeros;
  unseal = λ nonce sealed.
      if leb overhead (length sealed) then some (take (length sealed - overhead) sealed) else none;
}

pub plain-AeadLaws : AeadLaws plain
plain-AeadLaws = record {
  length-seal = λ nonce text. length-append {0} text zeros;
  unseal-seal = λ nonce text.
      let l = length-append {0} text zeros in
      let t = take-append text zeros in
      let n : length (text ++ zeros) - overhead ≡ length text = omega (arith, l) in
      ground (arith, l, t, n);
}

abbrev pub cipher : Cipher.Engine
cipher = active plain (codes "fp")

abbrev nonce : Bytes
nonce = replicate nonce_size 7

abbrev a : Bytes
a = codes "a"

abbrev b : Bytes
b = codes "b"

decrypt-encrypt_example : decrypt_in_place cipher (nonce ++ codes "hi" ++ zeros) ≡ some (codes "hi")
unfolding encrypt_in_place
decrypt-encrypt_example = decrypt-encrypt cipher (some nonce) (codes "hi") plain-AeadLaws refl refl

abbrev requests : List (Request × ℕ)
requests =
    (request_set 10 (some nonce) a (codes "hi") 5, 11)
    ∷ (request_set 11 none b (codes "no") 0, 12)
    ∷ (request_get 13 14 a, 14)
    ∷ (request_tick (λ i. 20), 20)
    ∷ (request_get 21 22 a, 22)
    ∷ (request_delete 23 a, 23)
    ∷ []

requests-Ordered : Ordered 0 requests
requests-Ordered = (
  (omega arith, omega arith, refl),
  (
    (omega arith, omega arith, tt),
    (
      (omega arith, omega arith, omega arith),
      (
        (omega arith, λ i. omega arith),
        ((omega arith, omega arith, omega arith), ((omega arith, omega arith), tt)),
      ),
    ),
  ),
)

new_engine-AllowedRun_example :
    (out : Engine × List Answer) × (serve (new_engine 0 1000 4 64 cipher) requests ≡ done out)
    × (q : Promise) × AllowedRun (λ key. none) requests out.1 q
new_engine-AllowedRun_example =
    new_engine-AllowedRun 0 1000 4 64 cipher requests (omega arith) plain-AeadLaws requests-Ordered

abbrev calls : List Call
calls =
    call_set 10 (some nonce) a (codes "hi") 5
    ∷ call_set_raw 11 b (codes "abcdefgh") 0
    ∷ call_set_raw 11 b (replicate 60 0) 0
    ∷ call_tick (λ i. 20)
    ∷ call_get 21 22 a
    ∷ call_delete 23 b
    ∷ []

run-new_engine_example :
    (e : Engine) × (run (new_engine 0 1000 4 64 cipher) calls ≡ done e) × IsValid e
run-new_engine_example = run-new_engine 0 1000 4 64 cipher calls (omega arith)

calls-AllSmall : AllSmall calls
calls-AllSmall = ((omega arith, refl), (omega arith, (omega arith, (tt, (tt, (tt, tt))))))

run-le-max_bytes_example :
    (e : Engine) × (run (new_engine 0 1000 4 64 cipher) calls ≡ done e)
    × (total item_size e.items ≤ 64)
    × (e.allocated_bytes ≡ total item_size e.items)
run-le-max_bytes_example =
    run-le-max_bytes 0 1000 4 64 cipher calls (omega arith) (omega arith) (omega arith)
      plain-AeadLaws calls-AllSmall

-- The engine that a write leaves, and the one that a tick leaves.
abbrev pub after : Run (Engine × Option Error) → Engine → Engine
after (done (e, r)) d = e
after panics d = d

abbrev ticked : Run Engine → Engine → Engine
ticked (done e) d = e
ticked panics d = d

abbrev pub empty : Engine
empty = new_engine 0 1000 4 64 cipher

view-set_example : view (after (set empty 10 (some nonce) a (codes "hi") 5) empty) 12 a ≡ (
    if bytes_eq a a
    then (if passed (expires_at 10 5) 12 then none else some (some (codes "hi")))
    else view empty 12 a)
unfolding set over_limit needed_size expires_at commit schedule register_on register put_item
    item_size encrypt_in_place enabled lookup insert new_engine new_chronometer target_slot
    steps_ahead
view-set_example =
    view-set empty (after (set empty 10 (some nonce) a (codes "hi") 5) empty) 10 (some nonce) a
      (codes "hi") 5 12 a plain-AeadLaws refl refl

abbrev stored : Engine
stored = after (set empty 10 (some nonce) a (codes "hi") 5) empty

view-tick_example : view (ticked (tick stored (λ i. 12)) stored) 12 a ≡ view stored 12 a
unfolding set over_limit needed_size expires_at commit schedule register_on register put_item
    item_size encrypt_in_place enabled lookup insert new_engine new_chronometer target_slot
    steps_ahead tick advance sweep
view-tick_example =
    view-tick stored (ticked (tick stored (λ i. 12)) stored) (λ i. 12) 12 a (λ i. omega arith) refl

abbrev landed : Run Chronometer → Chronometer
landed (done c) = c
landed panics = new_chronometer 1 1

register-delivered_example :
    (c₁ : Chronometer) × (c₂ : Chronometer) × (batch : List Bytes) × (turns
        (min (2500 / 1000) (4 - 1))
        (landed (register (new_chronometer 1000 4) a 2500))
      ≡ done c₁)
    × (advance c₁ ≡ done (c₂, batch))
    × (contains a batch ≡ true)
unfolding register target_slot steps_ahead new_chronometer
register-delivered_example =
    register-delivered (new_chronometer 1000 4) (landed (register (new_chronometer 1000 4) a 2500))
      a 2500 [] (new_chronometer-Fits 1000 4 (omega arith) (omega arith)) refl (omega arith) refl
