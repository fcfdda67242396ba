-- ===== src/Storage/Chronometer/Fits.antt =====
-- The wheel's indices stay in range: no call on a wheel that fits its arrays panics.
use tellstone.Prelude.{
  ℕ, ◌≤◌, ◌<◌, ◌≡◌, refl, List, [], ◌∷◌, ◌++◌, Bytes, arith, length, get_elem?-some, length-set,
  length-replicate,
}
use tellstone.Prelude.Run.{done, Returns, Returns-done}
use tellstone.Storage.Chronometer.{
  Chronometer, TimelineWheel, no_op, wheel, max_slots, new_chronometer, advance, target_slot,
  register, register_on,
}

pub record Fits (c : Chronometer) : Type 0 where
  pub rows : length c.slots ≡ max_slots
  pub some_slot : 0 < c.num_slots
  pub in_arrays : c.num_slots ≤ max_slots
  pub current : c.cur_slot < c.num_slots

abbrev pub WheelFits : TimelineWheel → Type 0
WheelFits no_op = Unit
WheelFits (wheel c) = Fits c

pub target_slot-lt : (c : Chronometer) (ttl : ℕ) → 0 < c.num_slots → target_slot c ttl < c.num_slots
unfolding target_slot
target_slot-lt c ttl h = omega arith

pub new_chronometer-Fits :
    (interval num_slots : ℕ)
    → 0 < num_slots
    → num_slots ≤ max_slots
    → Fits (new_chronometer interval num_slots)
unfolding new_chronometer
new_chronometer-Fits interval num_slots h k = record {
  rows = length-replicate {0} {A = List Bytes} max_slots [];
  some_slot = h;
  in_arrays = k;
  current = h;
}

-- A turn returns, on a wheel whose next slot is the following one.
pub advance-Fits : (c : Chronometer) → Fits c → Returns (λ r. Fits r.0) (advance c)
unfolding advance
advance-Fits c h =
    let (batch, e) = get_elem?-some {0} c.slots c.cur_slot (omega arith) in
    rw (e, advance, Returns)
      (record {
        rows = omega (arith, length-set {0} c.slots c.cur_slot []);
        some_slot = h.some_slot;
        in_arrays = h.in_arrays;
        current = omega arith;
      })

-- A registration returns, and leaves the wheel where it was.
pub register-Fits :
    (c : Chronometer) (key : Bytes) (ttl : ℕ)
    → Fits c
    → Returns (λ c'. Fits c' × (c'.cur_slot ≡ c.cur_slot)) (register c key ttl)
unfolding register
register-Fits c key ttl h =
    let (keys, e) =
      get_elem?-some {0} c.slots (target_slot c ttl) (omega (arith, target_slot-lt c ttl)) in
    rw (e, register, Returns)
      (ground (arith, length-set {0} c.slots (target_slot c ttl) (keys ++ key ∷ [])))

pub register_on-Fits :
    (w : TimelineWheel) (key : Bytes) (ttl : ℕ)
    → WheelFits w
    → (w' : TimelineWheel) × (register_on w key ttl ≡ done w') × WheelFits w'
unfolding register_on
register_on-Fits no_op key ttl h = (no_op, refl, tt)
register_on-Fits (wheel c) key ttl h =
    let (c', e, fits) = Returns-done _ (register c key ttl) (register-Fits c key ttl h) in
    (wheel c', ground arith, fits.0)
