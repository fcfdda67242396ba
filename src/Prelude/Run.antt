-- ===== src/Prelude/Run.antt =====
-- A Go call that returns a value or panics.
use mathlib.Core.Path.{◌≡◌, refl}
use mathlib.Core.Logic.{◌≢◌}

pub data Run {ℓ} (A : Type ℓ) : Type ℓ where
  done : A → Run A
  panics : Run A

infixl 5 ◌>>=◌
abbrev pub ◌>>=◌ {ℓ κ} : {A : Type ℓ} {B : Type κ} → Run A → (A → Run B) → Run B
done a >>= f = f a
panics >>= f = panics

-- It returns, and the result satisfies the predicate.
abbrev pub Returns {ℓ} : {A : Type ℓ} → (A → Type 0) → Run A → Type 0
Returns P (done a) = P a
Returns P panics = ⊥

pub Returns-done {ℓ} :
    {A : Type ℓ} (P : A → Type 0) (r : Run A) → Returns P r → (a : A) × (r ≡ done a) × P a
Returns-done P (done a) h = (a, refl, h)
Returns-done P panics h = absurd h

pub done_of {ℓ} : {A : Type ℓ} (r : Run A) → r ≢ panics → (a : A) × (r ≡ done a)
done_of (done a) h = (a, refl)
done_of panics h = absurd (h refl)
