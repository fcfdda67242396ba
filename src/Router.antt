-- ===== src/Router.antt =====
-- internal/router/router.go: the shard of a key, and Dispatch on it. A shard is any state, and the
-- call of its Execute any function on it.
pub mod Hash
use Prim.Native.Nat.{bit_xor}
use tellstone.Prelude.{
  ℕ, ◌*◌, ◌%◌, ◌==◌, Option, none, some, List, [], ◌∷◌, Bytes, length, get_elem?, set, u32_mod,
  if◌then◌else◌,
}
use tellstone.Prelude.Run.{Run, done, panics}

unfoldable pub hash_from : ℕ → Bytes → ℕ
hash_from h [] = h
hash_from h (c ∷ s) = hash_from (bit_xor h c * 16777619 % u32_mod) s

-- hashKey, FNV-1a
unfoldable pub hash_key : Bytes → ℕ
unfolding hash_from
hash_key key = hash_from 2166136261 key

-- The index that Dispatch computes with numShards = uint32(len(shards)).
abbrev pub shard_of : ℕ → Bytes → ℕ
shard_of n key = hash_key key % (n % u32_mod)

module _ {X R : Type 0} where
  abbrev pub execute_at : (X → X × R) → List X → ℕ → Option X → Run (List X × R)
  execute_at call shards i none = panics
  execute_at call shards i (some x) = done (set shards i (call x).0, (call x).1)

  -- Dispatch; a modulus of zero and an index out of range panic.
  unfoldable pub dispatch : (X → X × R) → Bytes → List X → Run (List X × R)
  unfolding hash_key
  dispatch call key shards =
      if length shards % u32_mod == 0
      then panics
      else execute_at call shards (shard_of (length shards) key)
          (get_elem? shards (shard_of (length shards) key))
