-- ===== src/Storage/Engine/Spec.antt =====
-- What clients are promised: a map from keys to values with a deadline. There is no cipher, no
-- wheel, no lazy eviction and no memory ceiling; whether a SET is let in is left open.
use tellstone.Prelude.{
  ℕ, ◌≤◌, Bool, true, false, Option, none, some, List, [], ◌∷◌, Bytes, bytes_eq, if◌then◌else◌,
}
use tellstone.Prelude.Run.{Run, done, panics, ◌>>=◌}
use tellstone.Crypto.Cipher.{IsNonce}
use tellstone.Storage.Engine.{Engine, Error, expires_at, set, delete, get, tick}
use tellstone.Storage.Engine.View.{passed}

-- A request with its readings of the clock.
pub data Request : Type 0 where
  request_set : ℕ → Option Bytes → Bytes → Bytes → ℕ → Request
  request_get : ℕ → ℕ → Bytes → Request
  request_delete : ℕ → Bytes → Request
  request_tick : (ℕ → ℕ) → Request

pub data Answer : Type 0 where
  written : Option Error → Answer
  found : Option Bytes → Answer
  deleted : Bool → Answer
  ticked : Answer

-- The engine's answer to a request.
unfoldable pub answer : Engine → Request → Run (Engine × Answer)
answer e (request_set now entropy key value ttl) = do
  r ← set e now entropy key value ttl
  done (r.0, written r.1)
answer e (request_get now later key) = let (e', r) = get e now later key in done (e', found r)
answer e (request_delete now key) = let (e', r) = delete e now key in done (e', deleted r)
answer e (request_tick now) = do e' ← tick e now; done (e', ticked)

abbrev pub Promise : Type 0
Promise = Bytes → Option (Bytes × Option ℕ)

abbrev pub live_at : Option (Bytes × Option ℕ) → ℕ → Option Bytes
live_at none t = none
live_at (some (value, deadline)) t = if passed deadline t then none else some value

unfoldable pub promised : Promise → ℕ → Bytes → Option Bytes
promised p t key = live_at (p key) t

abbrev pub is_some : Option Bytes → Bool
is_some none = false
is_some (some v) = true

-- The answers that the promise allows, and the promise afterwards.
pub data Allowed (p : Promise) : Request → Answer → Promise → Type 0 where
  set_accepted :
      (now : ℕ) (entropy : Option Bytes) (key value : Bytes) (ttl : ℕ)
      → Allowed p
          (request_set now entropy key value ttl)
          (written none)
          (λ j. if bytes_eq key j then some (value, expires_at now ttl) else p j)
  set_refused :
      (now : ℕ) (entropy : Option Bytes) (key value : Bytes) (ttl : ℕ) (err : Error)
      → Allowed p (request_set now entropy key value ttl) (written (some err)) p
  get_found :
      (now later : ℕ) (key : Bytes)
      → Allowed p (request_get now later key) (found (promised p now key)) p
  delete_found :
      (now : ℕ) (key : Bytes)
      → Allowed p
          (request_delete now key)
          (deleted (is_some (promised p now key)))
          (λ j. if bytes_eq key j then none else p j)
  tick_silent : (now : ℕ → ℕ) → Allowed p (request_tick now) ticked p

-- The readings of a request lie between two moments, and a nonce has its length.
abbrev pub Within : ℕ → Request → ℕ → Type 0
Within t (request_set now entropy key value ttl) u = (t ≤ now) × (now ≤ u) × IsNonce entropy
Within t (request_get now later key) u = (t ≤ now) × (now ≤ u) × (later ≤ u)
Within t (request_delete now key) u = (t ≤ now) × (now ≤ u)
Within t (request_tick now) u = (t ≤ u) × ((i : ℕ) → now i ≤ u)

-- Requests one after another, with the moments between them.
abbrev pub Ordered : ℕ → List (Request × ℕ) → Type 0
Ordered t [] = Unit
Ordered t ((r, u) ∷ rest) = Within t r u × Ordered u rest

unfoldable pub serve : Engine → List (Request × ℕ) → Run (Engine × List Answer)
unfolding answer
serve e [] = done (e, [])
serve e ((r, u) ∷ rest) = elim (answer e r) [
  | panics ↦ panics
  | done (e', a) ↦ (do s ← serve e' rest; done (s.0, a ∷ s.1))
]

pub data AllowedRun : Promise → List (Request × ℕ) → List Answer → Promise → Type 0 where
  finished : {p : Promise} → AllowedRun p [] [] p
  next :
      {p : Promise} {r : Request} {u : ℕ} {rest : List (Request × ℕ)} {a : Answer}
      {answers : List Answer} {q s : Promise}
      → Allowed p r a q
      → AllowedRun q rest answers s
      → AllowedRun p ((r, u) ∷ rest) (a ∷ answers) s
