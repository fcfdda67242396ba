-- ===== src/Command/Store.antt =====
-- The interface Store of internal/command/command.go: what a handler needs of the storage, over a
-- state that the implementation chooses. A `ttl` is an int64 bit pattern.
use tellstone.Prelude.{ℕ, Bool, Option, Bytes}

pub record Store (S Error : Type 0) : Type 0 where
  pub get : Bytes → S → S × Option Bytes
  pub set : Bytes → Bytes → ℕ → S → S × Option Error
  pub delete : Bytes → S → S × Bool
