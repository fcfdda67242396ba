-- ===== src/Storage/Engine/Calls.antt =====
-- Sequences of calls on one engine, ticks of the wheel among them.
use tellstone.Prelude.{ℕ, Option, List, [], ◌∷◌, Bytes}
use tellstone.Prelude.Run.{Run, done, panics, ◌>>=◌}
use tellstone.Storage.Engine.{Engine, set, set_from_buffer, set_raw, delete, get, get_into, tick}

pub data Call : Type 0 where
  call_set : ℕ → Option Bytes → Bytes → Bytes → ℕ → Call
  call_set_from_buffer : ℕ → Option Bytes → Bytes → Option ℕ → ℕ → Call
  call_set_raw : ℕ → Bytes → Bytes → ℕ → Call
  call_delete : ℕ → Bytes → Call
  call_get : ℕ → ℕ → Bytes → Call
  call_get_into : ℕ → ℕ → Bytes → Bytes → Bytes → Call
  call_tick : (ℕ → ℕ) → Call

-- The state after a call.
unfoldable pub step : Engine → Call → Run Engine
step e (call_set now entropy key value ttl) = do r ← set e now entropy key value ttl; done r.0
step e (call_set_from_buffer now entropy buf key_len ttl) = do
  r ← set_from_buffer e now entropy buf key_len ttl
  done r.0
step e (call_set_raw now key value ttl) = do r ← set_raw e now key value ttl; done r.0
step e (call_delete now key) = done (delete e now key).0
step e (call_get now later key) = done (get e now later key).0
step e (call_get_into now later spoiled buf key) = done (get_into e now later spoiled buf key).0
step e (call_tick now) = tick e now

unfoldable pub run : Engine → List Call → Run Engine
unfolding step
run e [] = done e
run e (call ∷ calls) = elim (step e call) [ done e' ↦ run e' calls | panics ↦ panics ]
