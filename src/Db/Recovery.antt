-- ===== src/Db/Recovery.antt =====
-- `DBImpl::Recovery`: the index is rebuilt from the files. `PEDRODB_FATAL` ends the process, which is
-- `none`.
pub mod Kept
pub mod Entries
pub mod IndexFile
pub mod DataFile
pub mod Empty
pub mod Replay
pub mod File
pub mod Files
use pedrodb.Base.{
  ℕ, zero, suc, ◌+◌, List, [], ◌∷◌, Bool, true, false, max, Option, none, some, if◌then◌else◌,
}
use pedrodb.Base.Bytes.{Memory, read_bytes}
use pedrodb.Platform.{Platform}
use pedrodb.Buffer.{ReadableBuffer, array_buffer, readable_bytes}
use pedrodb.Format.Record.{EntryType, set, delete, Entry, size_of}
use pedrodb.Format.Record.Location.{Location, Dir, gt, eq}
use pedrodb.Format.Index
use pedrodb.File.{Faults}
use pedrodb.FileManager.{
  FileManager, ReadableFile, acquire_index_file, acquire_data_file, release_data_file,
}
use pedrodb.Index.{IndexMap}
use pedrodb.Iterator.IndexFile.{IndexIterator, open_index, index_valid, index_next}
use pedrodb.Iterator.{RecordIterator, open_iterator, valid, next, get_offset}
use pedrodb.Status.{Status, ok, io_error}
use pedrodb.Db.{Db, update_unused}

module _ ⦃t : IndexMap⦄ where
  abbrev pub indexed : Location → Index.Entry → Db → Db
  indexed loc e db = record db {
    indices = t.assign db.indices e.key (record { entry_size = e.len; loc = loc });
  }

  abbrev pub unindexed : Index.Entry → Db → Db
  unindexed e db = record db { indices = t.erase db.indices e.key }

  pub recover_set : Location → Index.Entry → Option Dir → Db → Option Db
  recover_set loc e none db = some (indexed loc e db)
  recover_set loc e (some dir) db =
      if gt dir.loc loc
      then some (update_unused loc e.len db)
      else if eq dir.loc loc
      then none
      else some (indexed loc e (update_unused dir.loc dir.entry_size db))

  -- A tombstone. The bytes of the tombstone itself are always unused.
  pub recover_delete : Location → Index.Entry → Option Dir → Db → Option Db
  recover_delete loc e none db = some (update_unused loc e.len db)
  recover_delete loc e (some dir) db =
      let db1 = update_unused loc e.len db in
      let db2 = update_unused dir.loc dir.entry_size db1 in
      if gt dir.loc loc then some db1 else some (unindexed e db2)

  pub recover_type : EntryType → Location → Index.Entry → Option Dir → Db → Option Db
  recover_type set loc e found db = recover_set loc e found db
  recover_type delete loc e found db = recover_delete loc e found db
  recover_type _ loc e found db = some db

  -- `Recovery(id, entry)`
  unfoldable pub recover_entry : ℕ → Index.Entry → Db → Option Db
  unfolding recover_type recover_set recover_delete
  recover_entry id e db =
      recover_type e.entry_type (record { id = id; offset = e.offset }) e (t.find db.indices e.key)
        db

module _ ⦃p : Platform⦄ ⦃t : IndexMap⦄ where
  -- The loop over an `IndexIterator`. An index entry takes ten bytes or more, so more fuel than bytes
  -- in its buffer is never used up.
  unfoldable pub recover_index : ℕ → ℕ → IndexIterator → Db → Option Db
  recover_index zero id it db = some db
  recover_index (suc fuel) id it db =
      let (read, it') = index_valid it in
      elim read [
        | false ↦ some db
        | true ↦ elim (recover_entry id (index_next it') db) [
          | none ↦ none
          | some db' ↦ recover_index fuel id it' db'
        ]
      ]

  -- The index entry of what a `RecordIterator` reads.
  abbrev pub read_entry : RecordIterator → Index.Entry
  read_entry it = record {
    key = it.entry.key;
    entry_type = it.entry.entry_type;
    offset = get_offset it;
    len = size_of it.entry;
  }

  -- The loop over a `RecordIterator`: its index grows by 14 or more in each round, and ends at the
  -- size of the file.
  unfoldable pub recover_records : ℕ → ℕ → Memory → RecordIterator → Db → Option Db
  recover_records zero id bytes it db = some db
  recover_records (suc fuel) id bytes it db =
      let (read, it') = valid bytes it in
      elim read [
        | false ↦ some db
        | true ↦ elim (recover_entry id (read_entry it') db) [
          | none ↦ none
          | some db' ↦ recover_records fuel id bytes (next it').1 db'
        ]
      ]

  -- A null file is dereferenced, which ends the process too.
  pub recover_from_records :
      ReadableBuffer → ℕ → Status × Option ReadableFile × FileManager → Db → Option (Status × Db)
  recover_from_records buffer id (ok, some file, files) db =
      elim (recover_records (suc file.size) id (files.data_files file.file).bytes
        (open_iterator file.size buffer) (record db { files = files })) [
          | none ↦ none
          | some db' ↦ some (ok, record db' { files = release_data_file id db'.files })
        ]
  recover_from_records buffer id (ok, none, files) db = none
  recover_from_records buffer id (status, file, files) db =
      some (io_error, record db { files = files })

  -- The index file is read if it can be opened, else the data file.
  pub recover_from_index :
      Faults → ReadableBuffer → ℕ → Status × Option ReadableFile → Db → Option (Status × Db)
  recover_from_index io buffer id (ok, some file) db =
      let bytes = read_bytes (db.files.index_files file.file).bytes 0 file.size in
      elim (recover_index (suc file.size) id (open_index bytes) db) [
        | none ↦ none
        | some db' ↦ some (ok, db')
      ]
  recover_from_index io buffer id (ok, none) db = none
  recover_from_index io buffer id (status, file) db =
      recover_from_records buffer id (acquire_data_file io id db.files) db

  -- `Recovery(id)`
  unfoldable pub recover_file : Faults → ReadableBuffer → ℕ → Db → Option (Status × Db)
  unfolding recover_from_index recover_from_records
  recover_file io buffer id db =
      recover_from_index io buffer id (acquire_index_file io id db.files) db

  -- The loop of `Recovery()` over the files. What the thread's buffer has at the start of each is
  -- arbitrary.
  pub recover_files : Faults → (ℕ → ReadableBuffer) → List ℕ → Db → Option (Status × Db)
  recover_files io buffers [] db = some (ok, db)
  recover_files io buffers (id ∷ ids) db =
      elim (recover_file io (buffers id) id (record db { max_file = max db.max_file id })) [
        | none ↦ none
        | some (ok, db') ↦ recover_files io buffers ids db'
        | some (status, db') ↦ some (status, db')
      ]

  unfoldable pub recover : Faults → (ℕ → ReadableBuffer) → Db → Option (Status × Db)
  unfolding recover_files
  recover io buffers db = recover_files io buffers db.files.metadata.files db
