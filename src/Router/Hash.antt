-- ===== src/Router/Hash.antt =====
-- The hash of a key (hashKey of internal/router/router.go) loses no byte.
use Prim.Native.Nat.{bit_xor}
use tellstone.Prelude.{
  ℕ, ◌*◌, ◌%◌, ◌<◌, ◌≡◌, ◌≢◌, refl, ◌∙◌, sym, [], ◌∷◌, ◌++◌, Bytes, u32_mod, arith, xor_cancel,
  xor_swap, xor-lt,
}
use tellstone.Router.{hash_from, hash_key}

abbrev pub AllBytes : Bytes → Type 0
AllBytes [] = Unit
AllBytes (c ∷ s) = (c < 256) × AllBytes s

-- The prime of FNV is odd, so that a product by it modulo 2^32 gives its factor away.
times_cancel :
    (x y : ℕ) → x < u32_mod → y < u32_mod → x * 16777619 % u32_mod ≡ y * 16777619 % u32_mod → x ≡ y
times_cancel x y h k e = omega arith

xor_word : (h c : ℕ) → h < u32_mod → c < 256 → bit_xor h c < u32_mod
xor_word h c a b = xor-lt 32 h c a (omega arith)

hash_from-lt : (h : ℕ) (s : Bytes) → h < u32_mod → hash_from h s < u32_mod
unfolding hash_from
hash_from-lt h [] a = a
hash_from-lt h (c ∷ s) a = hash_from-lt (bit_xor h c * 16777619 % u32_mod) s (omega arith)

hash_from-append : (h : ℕ) (s t : Bytes) → hash_from h (s ++ t) ≡ hash_from (hash_from h s) t
unfolding hash_from
hash_from-append h [] t = refl
hash_from-append h (c ∷ s) t = hash_from-append (bit_xor h c * 16777619 % u32_mod) s t

-- The state of the hash in front of a text is a function of the one behind it.
hash_from_cancel :
    (h k : ℕ) (s : Bytes)
    → AllBytes s
    → h < u32_mod
    → k < u32_mod
    → hash_from h s ≡ hash_from k s
    → h ≡ k
unfolding hash_from
hash_from_cancel h k [] all a b e = e
hash_from_cancel h k (c ∷ s) all a b e =
    let inner =
      hash_from_cancel (bit_xor h c * 16777619 % u32_mod) (bit_xor k c * 16777619 % u32_mod) s all.1
        (omega arith) (omega arith) e in
    xor_cancel h k c
      (times_cancel (bit_xor h c) (bit_xor k c) (xor_word h c a all.0) (xor_word k c b all.0) inner)

step_cancel :
    (h c c' : ℕ)
    → h < u32_mod
    → c < 256
    → c' < 256
    → bit_xor h c * 16777619 % u32_mod ≡ bit_xor h c' * 16777619 % u32_mod
    → c ≡ c'
step_cancel h c c' a b b' e = xor_cancel c c' h (
    xor_swap c h
    ∙ times_cancel (bit_xor h c) (bit_xor h c') (xor_word h c a b) (xor_word h c' a b') e
    ∙ xor_swap h c')

-- Two keys of bytes that differ in one place, the first, the last or any other, have different
-- hashes, whatever stands in front of that place and behind it.
pub hash_key-differs :
    (s t : Bytes) (c c' : ℕ)
    → AllBytes t
    → c < 256
    → c' < 256
    → c ≢ c'
    → hash_key (s ++ c ∷ t) ≢ hash_key (s ++ c' ∷ t)
unfolding hash_key hash_from
hash_key-differs s t c c' all b b' ne e =
    let h = hash_from 2166136261 s in
    let a : h < u32_mod = hash_from-lt 2166136261 s (omega arith) in
    let tails =
      sym (hash_from-append 2166136261 s (c ∷ t)) ∙ e ∙ hash_from-append 2166136261 s (c' ∷ t) in
    ne (
      step_cancel h c c' a b b' (
        hash_from_cancel (bit_xor h c * 16777619 % u32_mod) (bit_xor h c' * 16777619 % u32_mod) t
          all (omega arith) (omega arith) tails))
