-- ===== src/Wal/Snapshot/Dumping.antt =====
-- The dumps of internal/persistence/snapshot.go: snapshotWrite in the process, snapshotChildWrite in
-- the child and snapshotForkDump, which starts it. A dump writes to a temporary file beside the
-- snapshot; what a failure leaves in that file is an argument.
use tellstone.Prelude.{
  ℕ, Bool, false, not, ◌&&◌, Option, none, some, List, ◌++◌, Bytes, codes, length, take,
  if◌then◌else◌,
}
use tellstone.Prelude.Table.{Table, insert, erase}
use tellstone.Storage.Engine
use tellstone.Storage.Engine.{for_each}
use tellstone.Wal.Format.{Record}
use tellstone.Wal.Snapshot.{serialize_engine, entries_of, snapshot_bytes, parse_entries}

-- What the calls behind a dump come to. `fault` is what the temporary file holds where a write
-- fails.
pub record DumpCalls : Type 0 where
  pub open_ok : Bool
  pub fault : Option Bytes
  pub sync_ok : Bool
  pub close_ok : Bool
  pub remove_ok : Bool
  pub rename_ok : Bool
  pub parent_ok : Bool

abbrev pub tmp_of : Bytes → Bytes
tmp_of name = name ++ codes ".tmp"

-- snapshotCleanup, and the same os.Remove behind a failed close or rename
abbrev pub clean_up : DumpCalls → Bytes → Table Bytes → Table Bytes × Bool
clean_up c name d = if c.remove_ok then (erase (tmp_of name) d, false) else (d, false)

-- The writing half of snapshotWrite and of snapshotChildWrite.
unfoldable pub dump_file : DumpCalls → Bytes → Bytes → Table Bytes → Table Bytes × Bool
dump_file c name bytes d = if not c.open_ok then (d, false) else elim c.fault [
  | some junk ↦ clean_up c name (insert (tmp_of name) junk d)
  | none ↦
      let d' = insert (tmp_of name) bytes d in
      if not (c.sync_ok && (c.close_ok && c.rename_ok))
      then clean_up c name d'
      else (insert name bytes (erase (tmp_of name) d'), c.parent_ok)
]

-- What becomes of the pipe and of the child process. `cut` is after how many bytes a write into the
-- pipe fails; `killed` is what the temporary file holds where the child is killed before its rename.
pub record ForkCalls : Type 0 where
  pub pipe_ok : Bool
  pub start_ok : Bool
  pub cut : Option ℕ
  pub killed : Option Bytes

module _ (sum : Bytes → ℕ) where
  -- snapshotWrite
  unfoldable pub snapshot_write :
      DumpCalls → ℕ → Bytes → Engine.Engine → ℕ → Bytes → Table Bytes → Table Bytes × Bool
  unfolding snapshot_bytes dump_file for_each
  snapshot_write c now fp e clock name d =
      dump_file c name (snapshot_bytes sum now fp (entries_of (for_each e clock))) d

  -- The child behind its loop: the entries that it read, or none where a read failed. `junk` is what
  -- was copied by then.
  unfoldable pub child_finish :
      DumpCalls
      → Bytes
      → Bytes
      → ℕ
      → Bytes
      → Table Bytes
      → Option (List Record)
      → Table Bytes × Bool
  unfolding snapshot_bytes dump_file
  child_finish c junk fp now name d none =
      if c.open_ok then clean_up c name (insert (tmp_of name) junk d) else (d, false)
  child_finish c junk fp now name d (some rs) = dump_file c name (snapshot_bytes sum now fp rs) d

  -- snapshotChildWrite on the bytes that come through the pipe before its end. An end inside an entry
  -- is a failed read.
  unfoldable pub child_write :
      DumpCalls → Bytes → Bytes → ℕ → Bytes → Bytes → Table Bytes → Table Bytes × Bool
  unfolding parse_entries child_finish
  child_write c junk fp now input name d =
      child_finish c junk fp now name d (parse_entries (length input) input)

  -- The child on what came through the pipe, to its end or to the kill.
  unfoldable pub run_child :
      ForkCalls → DumpCalls → Bytes → Bytes → ℕ → Bytes → Bytes → Table Bytes → Table Bytes × Bool
  unfolding child_write
  run_child f c junk fp now input name d = elim f.killed [
    | some part ↦ (insert (tmp_of name) part d, false)
    | none ↦ child_write c junk fp now input name d
  ]

  -- snapshotForkDump, with what snapshotWrite gets where there is no child
  unfoldable pub fork_dump :
      ForkCalls
      → DumpCalls
      → Bytes
      → Bytes
      → ℕ
      → Engine.Engine
      → ℕ
      → Bytes
      → Table Bytes
      → Table Bytes × Bool
  unfolding snapshot_write run_child serialize_engine
  fork_dump f c junk fp now e clock name d =
      if not (f.pipe_ok && f.start_ok) then snapshot_write c now fp e clock name d else elim f.cut [
        | none ↦ run_child f c junk fp now (serialize_engine e clock) name d
        | some n ↦ ((run_child f c junk fp now (take n (serialize_engine e clock)) name d).0, false)
      ]
