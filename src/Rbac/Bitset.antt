-- ===== src/Rbac/Bitset.antt =====
-- internal/rbac/rbac.go: the permission bits of a role, in 64-bit words. An id is a uint16.
use tellstone.Prelude.{
  ℕ, zero, suc, ◌+◌, ◌-◌, ◌/◌, ◌%◌, ◌≤◌, ◌<◌, ◌≡◌, refl, Bool, false, not, ◌&&◌, ◌||◌, List, [],
  ◌∷◌, ◌++◌, arith, length, get_or, set, replicate, get_or-set_self, get_or-set_ne, length-append,
  length-replicate, leb, ltb, ◌==◌, if◌then◌else◌, Bool-cases, inl, inr, ℕ_discrete, has_bit,
  set_bit, clear_bit, has_bit-set_bit, has_bit-clear_bit, has_bit_of_zero, clear_bit_of_zero,
}

abbrev pub Bitset : Type 0
Bitset = List ℕ

-- The slice with room for a word.
unfoldable pub grow : Bitset → ℕ → Bitset
grow b word = if leb (length b) word then b ++ replicate (word - length b + 1) 0 else b

-- Set
unfoldable pub grant : Bitset → ℕ → Bitset
unfolding grow set_bit
grant b id = let g = grow b (id / 64) in set g (id / 64) (set_bit (id % 64) (get_or g (id / 64) 0))

-- Has
unfoldable pub has : Bitset → ℕ → Bool
unfolding has_bit
has b id = if leb (length b) (id / 64) then false else has_bit (id % 64) (get_or b (id / 64) 0)

-- Clear
unfoldable pub revoke : Bitset → ℕ → Bitset
unfolding clear_bit
revoke b id =
    if leb (length b) (id / 64)
    then b
    else set b (id / 64) (clear_bit (id % 64) (get_or b (id / 64) 0))

unfoldable pub max_from : ℕ → List ℕ → ℕ
max_from m [] = m
max_from m (id ∷ ids) = max_from (if ltb m id then id else m) ids

-- maxCommand
unfoldable pub max_command : List ℕ → ℕ
unfolding max_from
max_command ids = max_from 0 ids

unfoldable pub grant_all : Bitset → List ℕ → Bitset
grant_all b [] = b
grant_all b (id ∷ ids) = grant_all (grant b id) ids

unfoldable pub revoke_all : Bitset → List ℕ → Bitset
revoke_all b [] = b
revoke_all b (id ∷ ids) = revoke_all (revoke b id) ids

-- NewBitset
unfoldable pub new_bitset : List ℕ → Bitset
unfolding max_command grant_all
new_bitset ids = grant_all (replicate (max_command ids / 64 + 1) 0) ids

unfoldable pub member : ℕ → List ℕ → Bool
member id [] = false
member id (x ∷ xs) = x == id || member id xs

get_or-replicate : (n i : ℕ) → get_or {A = ℕ} (replicate n 0) i 0 ≡ 0
get_or-replicate zero i = refl
get_or-replicate (suc n) zero = refl
get_or-replicate (suc n) (suc i) = get_or-replicate n i

get_or-zeros : (b : Bitset) (n i : ℕ) → get_or (b ++ replicate n 0) i 0 ≡ get_or b i 0
get_or-zeros [] n i = get_or-replicate n i
get_or-zeros (x ∷ b) n zero = refl
get_or-zeros (x ∷ b) n (suc i) = get_or-zeros b n i

get_or_long : (b : Bitset) (i : ℕ) → length b ≤ i → get_or b i 0 ≡ 0
get_or_long [] i h = refl
get_or_long (x ∷ b) zero h = absurd (omega arith)
get_or_long (x ∷ b) (suc i) h = get_or_long b i (omega arith)

-- The length test of Has is no more than the zero words beyond the end.
has_lem : (b : Bitset) (id : ℕ) → has b id ≡ has_bit (id % 64) (get_or b (id / 64) 0)
has_lem b id = elim (Bool-cases (leb (length b) (id / 64))) [
  | inl long ↦
      unfold has in rw (long, get_or_long b (id / 64) (ground arith), has_bit_of_zero (id % 64))
  | inr short ↦ unfold has in rw short
]

grow_lem :
    (b : Bitset) (word i : ℕ)
    → (word < length (grow b word)) × (get_or (grow b word) i 0 ≡ get_or b i 0)
unfolding grow
grow_lem b word i = (
  ground (
    arith,
    length-append {0} b (replicate (word - length b + 1) 0),
    length-replicate {0} {A = ℕ} (word - length b + 1) 0,
  ),
  ground (arith, get_or-zeros b (word - length b + 1) i),
)

grant_word :
    (b : Bitset) (id i : ℕ)
    → get_or (grant b id) i 0
      ≡ (if id / 64 == i then set_bit (id % 64) (get_or b i 0) else get_or b i 0)
grant_word b id i = elim (ℕ_discrete (id / 64) i) [
  | yes here ↦
      let (long, same) = grow_lem b (id / 64) (id / 64) in
      rw (← here) (
        unfold grant in
        ground (
          arith,
          same,
          get_or-set_self {0} (grow b (id / 64)) (id / 64)
              (set_bit (id % 64) (get_or (grow b (id / 64)) (id / 64) 0)) 0 long,
        ))
  | no apart ↦
      let (long, same) = grow_lem b (id / 64) i in
      unfold grant in
      ground (
        arith,
        same,
        get_or-set_ne {0} (grow b (id / 64)) (id / 64) i
            (set_bit (id % 64) (get_or (grow b (id / 64)) (id / 64) 0)) 0 apart,
      )
]

pub has-grant : (b : Bitset) (i j : ℕ) → has (grant b i) j ≡ (i == j || has b j)
has-grant b i j = ground (
  arith,
  has_lem (grant b i) j,
  has_lem b j,
  grant_word b i (j / 64),
  has_bit-set_bit (i % 64) (j % 64) (get_or b (j / 64) 0),
)

revoke_word :
    (b : Bitset) (id i : ℕ)
    → get_or (revoke b id) i 0
      ≡ (if id / 64 == i then clear_bit (id % 64) (get_or b i 0) else get_or b i 0)
revoke_word b id i = elim (ℕ_discrete (id / 64) i) [
  | yes here ↦
      unfold revoke in
      rw (← here) (
        ground (
          arith,
          get_or_long b (id / 64),
          clear_bit_of_zero (id % 64),
          get_or-set_self {0} b (id / 64) (clear_bit (id % 64) (get_or b (id / 64) 0)) 0,
        ))
  | no apart ↦
      unfold revoke in
      ground (
        arith,
        get_or-set_ne {0} b (id / 64) i (clear_bit (id % 64) (get_or b (id / 64) 0)) 0 apart,
      )
]

-- Clear takes away the one id and no other.
has-revoke : (b : Bitset) (i j : ℕ) → has (revoke b i) j ≡ (not (i == j) && has b j)
has-revoke b i j = ground (
  arith,
  has_lem (revoke b i) j,
  has_lem b j,
  revoke_word b i (j / 64),
  has_bit-clear_bit (i % 64) (j % 64) (get_or b (j / 64) 0),
)

pub has-grant_all :
    (b : Bitset) (ids : List ℕ) (j : ℕ) → has (grant_all b ids) j ≡ (member j ids || has b j)
unfolding grant_all member
has-grant_all b [] j = refl
has-grant_all b (id ∷ ids) j = ground (arith, has-grant_all (grant b id) ids j, has-grant b id j)

pub has-revoke_all :
    (b : Bitset) (ids : List ℕ) (j : ℕ) → has (revoke_all b ids) j ≡ (not (member j ids) && has b j)
unfolding revoke_all member
has-revoke_all b [] j = refl
has-revoke_all b (id ∷ ids) j =
    ground (arith, has-revoke_all (revoke b id) ids j, has-revoke b id j)

has-zeros : (n j : ℕ) → has (replicate n 0) j ≡ false
has-zeros n j =
    rw (has_lem (replicate n 0) j, get_or-replicate n (j / 64), has_bit_of_zero (j % 64))

-- A new bitset has exactly the listed ids.
pub has-new_bitset : (ids : List ℕ) (j : ℕ) → has (new_bitset ids) j ≡ member j ids
unfolding new_bitset
has-new_bitset ids j = ground (
  arith,
  has-grant_all (replicate (max_command ids / 64 + 1) 0) ids j,
  has-zeros (max_command ids / 64 + 1) j,
)
