-- ===== src/Db/Compact.antt =====
-- `DBImpl::Compact`: the entries of a file that the index still has are appended again, and the file
-- is removed. Nothing else runs between the steps of a compaction.
pub mod Keeps
pub mod Round
pub mod Loop
pub mod Refines
use pedrodb.Base.{
  ℕ, zero, suc, ◌+◌, List, [], ◌∷◌, Bool, true, false, not, ◌&&◌, Option, none, some, leb,
  if◌then◌else◌,
}
use pedrodb.Base.Bytes.{Memory}
use pedrodb.Platform.{Platform}
use pedrodb.Buffer.{ReadableBuffer}
use pedrodb.Format.Record.{EntryType, set, Entry, size_of}
use pedrodb.Format.Record.Location.{Location, Dir, lt, ne}
use pedrodb.File.{Faults}
use pedrodb.FileManager.{
  FileManager, ReadableFile, Run, done, crash, out_of_fuel, append, acquire_data_file, remove_file,
}
use pedrodb.Index.{IndexMap}
use pedrodb.Iterator.{RecordIterator, open_iterator, valid, next, get_offset}
use pedrodb.Status.{Status, ok}
use pedrodb.Db.{CompactState, compacting, FileState, new_state, Db, set_state, poll_compact_task}

abbrev pub is_set : EntryType → Bool
is_set set = true
is_set _ = false

module _ ⦃t : IndexMap⦄ where
  -- The index has the entry that stands at the offset of the file.
  pub is_found : Location → Option Dir → Bool
  is_found loc none = false
  is_found loc (some dir) = not (ne dir.loc loc)

  pub is_current : Location → Entry → Db → Bool
  is_current loc e db = is_set e.entry_type && is_found loc (t.find db.indices e.key)

  pub move_found : Entry → Location → Option Dir → Db → Db
  move_found e loc none db = db
  move_found e loc (some dir) db =
      if lt dir.loc loc
      then record db {
        indices = t.assign db.indices e.key (record { entry_size = size_of e; loc = loc });
      }
      else record db {
        file_states = set_state db.file_states loc.id (record (db.file_states loc.id) {
          free_bytes = (db.file_states loc.id).free_bytes + size_of e;
        });
      }

  -- The update of the index.
  unfoldable pub move_index : Entry → Location → Db → Db
  unfolding move_found
  move_index e loc db = move_found e loc (t.find db.indices e.key) db

  abbrev pub begin_compact : ℕ → Db → Db
  begin_compact id db = record db {
    file_states =
        set_state db.file_states id (record (db.file_states id) { compact_state = compacting });
  }

module _ ⦃p : Platform⦄ ⦃t : IndexMap⦄ where
  pub moved : Entry → Db → Run (Status × Location × FileManager) → Run (Status × Db)
  moved e db (done (ok, loc, files)) = done (ok, move_index e loc (record db { files = files }))
  moved e db (done (status, loc, files)) = done (status, record db { files = files })
  moved e db crash = crash
  moved e db out_of_fuel = out_of_fuel

  -- A round of the loop, for the entry that stands at the location.
  unfoldable pub compact_entry : Faults → Location → Entry → Db → Run (Status × Db)
  unfolding is_current is_found moved
  compact_entry io loc e db =
      if is_current loc e db then moved e db (append io 2 e db.files) else done (ok, db)

  -- The loop over the `RecordIterator` of the file.
  unfoldable pub compact_loop : ℕ → Faults → ℕ → ℕ → RecordIterator → Db → Run (Status × Db)
  compact_loop zero io id file it db = out_of_fuel
  compact_loop (suc fuel) io id file it db =
      let (read, it') = valid (db.files.data_files file).bytes it in
      elim read [
        | false ↦ done (ok, db)
        | true ↦
            elim (compact_entry io (record { id = id; offset = get_offset it' }) it'.entry db) [
              | done (ok, db') ↦ compact_loop fuel io id file (next it').1 db'
              | done (status, db') ↦ done (status, db')
              | crash ↦ crash
              | out_of_fuel ↦ out_of_fuel
            ]
      ]

  -- The state of the file is erased, and the file removed; what `RemoveFile` answers is ignored.
  unfoldable pub end_compact : Faults → ℕ → Db → Db
  end_compact io id db = record db {
    file_states = set_state db.file_states id new_state;
    files = (remove_file io id db.files).1;
  }

  pub compacted : Faults → ℕ → Run (Status × Db) → Run Db
  compacted io id (done (ok, db)) = done (end_compact io id db)
  compacted io id (done (status, db)) = done db
  compacted io id crash = crash
  compacted io id out_of_fuel = out_of_fuel

  -- A null file is dereferenced.
  pub compact_from :
      Faults → ReadableBuffer → ℕ → Status × Option ReadableFile × FileManager → Db → Run Db
  compact_from io buffer id (ok, some file, files) db = compacted io id (
      compact_loop (suc file.size) io id file.file (open_iterator file.size buffer)
        (begin_compact id (record db { files = files })))
  compact_from io buffer id (ok, none, files) db = crash
  compact_from io buffer id (status, file, files) db = done (record db { files = files })

  -- `Compact(id)`
  unfoldable pub compact_file : Faults → ReadableBuffer → ℕ → Db → Run Db
  unfolding compact_from compacted
  compact_file io buffer id db =
      if db.readonly
      then done db
      else compact_from io buffer id (acquire_data_file io id db.files) db

  insert_task : ℕ → List ℕ → List ℕ
  insert_task id [] = id ∷ []
  insert_task id (j ∷ l) = if leb id j then id ∷ (j ∷ l) else j ∷ insert_task id l

  sort : List ℕ → List ℕ
  sort [] = []
  sort (id ∷ l) = insert_task id (sort l)

  compact_files : Faults → ReadableBuffer → List ℕ → Db → Run Db
  compact_files io buffer [] db = done db
  compact_files io buffer (id ∷ ids) db = elim (compact_file io buffer id db) [
    | done db' ↦ compact_files io buffer ids db'
    | crash ↦ crash
    | out_of_fuel ↦ out_of_fuel
  ]

  -- `Compact()`
  unfoldable pub compact : Faults → ReadableBuffer → Db → Run Db
  unfolding compact_files sort insert_task
  compact io buffer db =
      let (tasks, db') = poll_compact_task db in compact_files io buffer (sort tasks) db'
