-- ===== src/Storage/Chronometer.antt =====
-- internal/storage/chronometer.go: the timing wheel. `slots` holds, for each of the MaxSlots
-- slots, the first `slotSizes[i]` keys of `slots[i]`; an index past MaxSlots panics. The interval
-- is positive (NewEngine builds no wheel otherwise), and only a positive `ttl` is registered.
pub mod Fits
pub mod Delivery
use tellstone.Prelude.{
  ℕ, ◌+◌, ◌-◌, ◌/◌, ◌%◌, min, none, some, List, [], ◌∷◌, ◌++◌, Bytes, length, get_elem?, set,
  replicate, add64, u32_mod, ltb, if◌then◌else◌,
}
use tellstone.Prelude.Run.{Run, done, panics}

abbrev pub max_slots : ℕ
max_slots = 1000

abbrev pub slot_capacity : ℕ
slot_capacity = 512

pub record Chronometer : Type 0 where
  pub interval : ℕ
  pub num_slots : ℕ
  pub cur_slot : ℕ
  pub slots : List (List Bytes)
  pub overflows : ℕ
  pub expired_count : ℕ

-- NoOpChronometer, or the wheel
pub data TimelineWheel : Type 0 where
  no_op : TimelineWheel
  wheel : Chronometer → TimelineWheel

unfoldable pub new_chronometer : ℕ → ℕ → Chronometer
new_chronometer interval num_slots = record {
  interval = interval;
  num_slots = num_slots;
  cur_slot = 0;
  slots = replicate max_slots [];
  overflows = 0;
  expired_count = 0;
}

-- The slot's keys leave the wheel, and the wheel turns.
unfoldable pub advance : Chronometer → Run (Chronometer × List Bytes)
advance c = elim (get_elem? c.slots c.cur_slot) [
  | none ↦ panics
  | some batch ↦ done (
    record c {
      cur_slot = (c.cur_slot + 1) % c.num_slots;
      slots = set c.slots c.cur_slot [];
      expired_count = add64 c.expired_count (length batch);
    },
    batch,
  )
]

unfoldable pub steps_ahead : Chronometer → ℕ → ℕ
steps_ahead c ttl = min (ttl / c.interval) (c.num_slots - 1)

unfoldable pub target_slot : Chronometer → ℕ → ℕ
unfolding steps_ahead
target_slot c ttl = ((c.cur_slot + steps_ahead c ttl) % u32_mod) % c.num_slots

unfoldable pub register : Chronometer → Bytes → ℕ → Run Chronometer
unfolding target_slot
register c key ttl = elim (get_elem? c.slots (target_slot c ttl)) [
  | none ↦ panics
  | some keys ↦ done (
      if ltb (length keys) slot_capacity
      then record c { slots = set c.slots (target_slot c ttl) (keys ++ key ∷ []) }
      else record c { overflows = add64 c.overflows 1 })
]

-- The two through the interface.
unfoldable pub register_on : TimelineWheel → Bytes → ℕ → Run TimelineWheel
unfolding register
register_on no_op key ttl = done no_op
register_on (wheel c) key ttl = elim (register c key ttl) [
  | done c' ↦ done (wheel c')
  | panics ↦ panics
]
