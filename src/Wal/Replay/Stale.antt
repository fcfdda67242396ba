-- ===== src/Wal/Replay/Stale.antt =====
-- A record whose time is over is skipped, and with it what it had replaced.
use tellstone.Prelude.{
  ℕ, ◌+◌, ◌<◌, ◌≤◌, ◌≡◌, refl, ◌∙◌, Option, none, some, [], ◌∷◌, Bytes, bytes_eq_refl,
  if◌then◌else◌, arith, i64_sign,
}
use tellstone.Prelude.Run.{Run, done, panics, ◌>>=◌}
use tellstone.Crypto.Cipher.{Lawful, IsNonce}
use tellstone.Storage.Engine
use tellstone.Storage.Engine.{set, expires_at}
use tellstone.Storage.Engine.View.{view, view-set, crypto-set, passed}
use tellstone.Wal.Replay.{Moment, loaded, skipped, refused, Step, apply_record}
use tellstone.Wal.Replay.Crash.{apply_all}

view-written :
    (e e' : Engine.Engine) (now : ℕ) (entropy : Option Bytes) (key value : Bytes) (ttl u : ℕ)
    → Lawful e.crypto
    → IsNonce entropy
    → set e now entropy key value ttl ≡ done (e', none)
    → view e' u key ≡ (if passed (expires_at now ttl) u then none else some (some value))
view-written e e' now entropy key value ttl u laws nonce h =
    view-set e e' now entropy key value ttl u key laws nonce h ∙ rw (bytes_eq_refl key) refl

loaded_lem :
    (e e' : Engine.Engine) (m : Moment) (key value : Bytes)
    → apply_record e m (record { key = key; value = value; ttl = 0 }) ≡ done (e', loaded)
    → set e m.store m.entropy key value 0 ≡ done (e', none)
unfolding apply_record
loaded_lem e e' m key value h = go (set e m.store m.entropy key value 0) h
  where
    go :
        (x : Run (Engine.Engine × Option Engine.Error))
        → ◌>>=◌ {B = Step} x (λ s. done (s.0, elim s.1 [ none ↦ loaded | some err ↦ refused err ]))
          ≡ done (e', loaded)
        → x ≡ done (e', none)
    go panics q = absurd (ground arith)
    go (done (e₁, none)) q = ground arith
    go (done (e₁, some err)) q = absurd (ground arith)

-- Where a key without expiry was overwritten by a SET with a time to live, and that time is over when
-- the log is replayed: the running engine no longer shows the key, but the replay of the two records
-- succeeds and shows the older value again.
pub apply_all-stale :
    (ms : ℕ → Moment) (e e₁ e₂ : Engine.Engine) (entropy : Option Bytes) (key old new : Bytes)
    (now ttl u : ℕ)
    → Lawful e.crypto
    → IsNonce (ms 0).entropy
    → IsNonce entropy
    → apply_record e (ms 0) (record { key = key; value = old; ttl = 0 }) ≡ done (e₁, loaded)
    → set e₁ now entropy key new ttl ≡ done (e₂, none)
    → 0 < ttl
    → now + ttl < i64_sign
    → now + ttl ≤ (ms 1).until
    → now + ttl < u
    → (view e₂ u key ≡ none)
      × (apply_all ms e (
            record { key = key; value = old; ttl = 0 }
            ∷ record { key = key; value = new; ttl = now + ttl }
            ∷ [])
          ≡ done (e₁, none))
      × (view e₁ u key ≡ some (some old))
apply_all-stale ms e e₁ e₂ entropy key old new now ttl u laws n₀ n first second pos low over late =
    let h = loaded_lem e e₁ (ms 0) key old first in
    let same = crypto-set e e₁ (ms 0).store (ms 0).entropy key old 0 none h in
    let skip : apply_record e₁ (ms 1) (record { key = key; value = new; ttl = now + ttl })
        ≡ done (e₁, skipped) =
      unfold apply_record in ground arith in
    (
      view-written e₁ e₂ now entropy key new ttl u (rw same laws) n second
          ∙ (unfold expires_at in ground arith),
      (unfold apply_all in rw (first, apply_all, skip, apply_all) refl),
      view-written e e₁ (ms 0).store (ms 0).entropy key old 0 u laws n₀ h
          ∙ (unfold expires_at in ground arith),
    )
