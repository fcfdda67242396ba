-- ===== src/Storage/Chronometer/Delivery.antt =====
-- A registered key comes back from the wheel after its steps.
use tellstone.Prelude.{
  ℕ, zero, suc, ◌+◌, ◌-◌, ◌/◌, ◌%◌, ◌<◌, ◌≡◌, ◌≢◌, refl, ap, ◌∙◌, true, some, List, [], ◌∷◌, ◌++◌,
  Bytes, arith, length, length-set, get_elem?, get_elem?-some, get_elem?-set_self, get_elem?-set_ne,
  set, min, contains, contains-append_self, wrap, add64,
}
use native.Mathlib.Nat.{mod-eq_of_lt}
use tellstone.Prelude.Run.{Run, done, panics}
use tellstone.Storage.Chronometer.{Chronometer, slot_capacity, advance, target_slot, register}
use tellstone.Storage.Chronometer.Fits.{Fits, target_slot-lt}

-- The wheel turns n times; what falls due on the way is dropped.
unfoldable pub turns : ℕ → Chronometer → Run Chronometer
turns zero c = done c
turns (suc n) c = elim (advance c) [ done (c', batch) ↦ turns n c' | panics ↦ panics ]

-- A slot holds a key.
abbrev pub Holds : Chronometer → ℕ → Bytes → Type 0
Holds c s key = (keys : List Bytes) × (get_elem? c.slots s ≡ some keys) × (contains key keys ≡ true)

advance_lem :
    (c : Chronometer) (keys : List Bytes)
    → get_elem? c.slots c.cur_slot ≡ some keys
    → (c' : Chronometer) × (advance c ≡ done (c', keys))
      × (c'.cur_slot ≡ (c.cur_slot + 1) % c.num_slots)
      × (c'.num_slots ≡ c.num_slots)
      × (c'.slots ≡ set c.slots c.cur_slot [])
unfolding advance
advance_lem c keys h = (
  record c {
    cur_slot = (c.cur_slot + 1) % c.num_slots;
    slots = set c.slots c.cur_slot [];
    expired_count = add64 c.expired_count (length keys);
  },
  ground arith,
  refl,
  refl,
  refl,
)

-- A key that stands d slots ahead is in the batch of the turn after d turns.
delivered :
    (d : ℕ) (c : Chronometer) (s : ℕ) (key : Bytes)
    → Fits c
    → d < c.num_slots
    → s ≡ (c.cur_slot + d) % c.num_slots
    → Holds c s key
    → (c₁ : Chronometer) × (c₂ : Chronometer) × (batch : List Bytes) × (turns d c ≡ done c₁)
      × (advance c₁ ≡ done (c₂, batch))
      × (contains key batch ≡ true)
unfolding turns
delivered zero c s key f h e (keys, at, in_keys) =
    let here : get_elem? c.slots c.cur_slot ≡ some keys = rw slot_now at at in
    let (c', turned, _, _, _) = advance_lem c keys here in (c, c', keys, refl, turned, in_keys)
  where
    slot_now : s ≡ c.cur_slot
    slot_now = ground (arith, wrap (c.cur_slot + 0) c.num_slots)
delivered (suc d) c s key f h e (keys, at, in_keys) =
    let (batch, found) = get_elem?-some {0} c.slots c.cur_slot (omega arith) in
    let (c', turned, cur, same, emptied) = advance_lem c batch found in
    let f' : Fits c' = record {
      rows = rw emptied (length-set {0} c.slots c.cur_slot [] ∙ f.rows);
      some_slot = omega arith;
      in_arrays = omega arith;
      current = omega arith;
    } in
    let later : s ≡ (c'.cur_slot + d) % c'.num_slots = ground (
      arith,
      wrap (c.cur_slot + suc d) c.num_slots,
      wrap (c.cur_slot + 1) c.num_slots,
      wrap (c'.cur_slot + d) c.num_slots,
    ) in
    let apart : c.cur_slot ≢ s = ground (arith, wrap (c.cur_slot + suc d) c.num_slots) in
    let held : Holds c' s key =
      (keys, rw emptied (get_elem?-set_ne {0} c.slots c.cur_slot s [] apart ∙ at), in_keys) in
    let (c₁, c₂, due, went, last, has) = delivered d c' s key f' (omega arith) later held in
    (c₁, c₂, due, rw (turned, turns) went, last, has)

register_lem :
    (c c' : Chronometer) (key : Bytes) (ttl : ℕ) (keys : List Bytes)
    → get_elem? c.slots (target_slot c ttl) ≡ some keys
    → length keys < slot_capacity
    → register c key ttl ≡ done c'
    → (c'.slots ≡ set c.slots (target_slot c ttl) (keys ++ key ∷ []))
      × (c'.cur_slot ≡ c.cur_slot)
      × (c'.num_slots ≡ c.num_slots)
unfolding register
register_lem c c' key ttl keys at free ran = ground arith

-- The uint32 sum does not wrap on a wheel that fits its arrays.
target_slot_lem :
    (c : Chronometer) (ttl : ℕ)
    → Fits c
    → target_slot c ttl ≡ (c.cur_slot + min (ttl / c.interval) (c.num_slots - 1)) % c.num_slots
unfolding target_slot
target_slot_lem c ttl f = ap (λ x. x % c.num_slots) (mod-eq_of_lt (omega arith))

-- A key registered for `ttl` on a wheel in range, where its slot has room, is in the batch of the tick
-- after min (ttl / interval) (num_slots - 1) further ticks, and none of these ticks panics.
pub register-delivered :
    (c c' : Chronometer) (key : Bytes) (ttl : ℕ) (keys : List Bytes)
    → Fits c
    → get_elem? c.slots (target_slot c ttl) ≡ some keys
    → length keys < slot_capacity
    → register c key ttl ≡ done c'
    → (c₁ : Chronometer) × (c₂ : Chronometer) × (batch : List Bytes) × (turns
          (min (ttl / c.interval) (c.num_slots - 1))
          c'
        ≡ done c₁)
      × (advance c₁ ≡ done (c₂, batch))
      × (contains key batch ≡ true)
register-delivered c c' key ttl keys f at free ran =
    let (slots, cur, same) = register_lem c c' key ttl keys at free ran in
    let inside = target_slot-lt c ttl f.some_slot in
    let f' : Fits c' = record {
      rows = rw slots (length-set {0} c.slots (target_slot c ttl) (keys ++ key ∷ []) ∙ f.rows);
      some_slot = omega arith;
      in_arrays = omega arith;
      current = omega arith;
    } in
    delivered (min (ttl / c.interval) (c.num_slots - 1)) c' (target_slot c ttl) key f' (omega arith)
      (rw (cur, same) (target_slot_lem c ttl f))
      (
        keys ++ key ∷ [],
        rw slots
            (get_elem?-set_self {0} c.slots (target_slot c ttl) (keys ++ key ∷ []) (omega arith)),
        contains-append_self key keys,
      )
