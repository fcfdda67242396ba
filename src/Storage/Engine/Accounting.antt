-- ===== src/Storage/Engine/Accounting.antt =====
-- The byte and key counters of the engine agree with its map, whatever is called.
use tellstone.Prelude.{ℕ, ◌%◌, ◌≡◌, some, Bytes, arith, u64_mod}
use tellstone.Prelude.Table.{
  lookup, erase, Distinct, insert-Distinct, erase-Distinct, total, total-insert, total-erase,
}
use tellstone.Storage.Engine.{Engine, Item, item_size, put_item, release_key}

abbrev pub one : Bytes → Item → ℕ
one key item = 1

-- The counters are the sums over the map, up to the wrap of uint64, and no key stands twice.
pub record IsCounted (e : Engine) : Type 0 where
  pub bytes : e.allocated_bytes ≡ total item_size e.items % u64_mod
  pub keys : e.key_count ≡ total one e.items % u64_mod
  pub distinct : Distinct e.items

pub put_item-IsCounted :
    (e : Engine) (key : Bytes) (item : Item) → IsCounted e → IsCounted (put_item e key item)
unfolding put_item
put_item-IsCounted e key item v = record {
  bytes = ground (arith, total-insert item_size key item e.items);
  keys = ground (arith, total-insert one key item e.items);
  distinct = ground (arith, insert-Distinct key item e.items);
}

pub release_key-IsCounted :
    (e : Engine) (key : Bytes) (item : Item)
    → lookup key e.items ≡ some item
    → IsCounted e
    → IsCounted (release_key (record e { items = erase key e.items }) key item)
unfolding release_key
release_key-IsCounted e key item h v = record {
  bytes = ground (arith, total-erase item_size key e.items);
  keys = ground (arith, total-erase one key e.items);
  distinct = erase-Distinct key e.items v.distinct;
}
