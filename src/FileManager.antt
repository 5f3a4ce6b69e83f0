-- ===== src/FileManager.antt =====
-- src/file_manager.cc and include/pedrodb/file_manager.h: the active file, the files on disk and the
-- handles that are open. A call that is scheduled on the executor waits in `tasks` until it is run.
pub mod Rebuild
pub mod Consistent
pub mod Create
pub mod Append
pub mod Keeps
pub mod Remove
pub mod Promise
pub mod Total
pub mod Durable
pub mod Acquire
use pedrodb.Base.{
  ℕ, zero, suc, ◌+◌, ◌%◌, ◌^◌, List, [], ◌∷◌, ◌++◌, Bool, true, false, not, Option, none, some,
  length, ltb, ◌==◌, ◌||◌, if◌then◌else◌,
}
use pedrodb.Base.Bytes.{write_bytes}
use pedrodb.Platform.{Platform}
use pedrodb.Buffer.{ReadableBuffer, WritableBuffer, readable_bytes}
use pedrodb.Format.Record.{Entry, size_of, unpack, pack}
use pedrodb.Format.Record.Location.{Location}
use pedrodb.Format.Index
use pedrodb.File.{
  DiskFile, Faults, max_file_bytes, open_mapping, MappedFile, no_offset, allocate, readable_buffer,
}
use pedrodb.Lru
use pedrodb.Lru.{LruCache}
use pedrodb.Metadata
use pedrodb.Metadata.{Manager}
use mathlib.Core.Option
use pedrodb.Status.{Status, ok, io_error}

-- `SyncFile(id, file)` and `CreateIndexFile(id, log)`, waiting on the executor.
pub data Task : Type 0 where
  sync_file : ℕ → Task
  create_index_file : ℕ → List ℕ → Task

-- `ReadableFile::Ptr`: which file its bytes are, and its `Size()`.
pub record ReadableFile : Type 0 where
  pub file : ℕ
  pub size : ℕ

pub record FileManager : Type 0 where
  pub metadata : Manager
  pub open_files : LruCache ReadableFile
  pub active_index_log : Option (List ℕ)
  pub active_data_file : Option MappedFile
  pub active_file_id : ℕ
  -- the disk, by the id in a file's name
  pub data_files : ℕ → DiskFile
  pub index_files : ℕ → DiskFile
  pub tasks : List Task

-- The disk with another file under an id.
abbrev pub update : (ℕ → DiskFile) → ℕ → DiskFile → ℕ → DiskFile
update files id f j = if j == id then f else files j

-- A result of code that may dereference a null pointer, or loop for ever.
pub data Run (A : Type 0) : Type 0 where
  done : A → Run A
  crash : Run A
  out_of_fuel : Run A

-- The index entry of an entry at an offset.
abbrev pub index_of : ℕ → Entry → Index.Entry
index_of offset e = record {
  key = e.key;
  entry_type = e.entry_type;
  offset = offset;
  len = size_of e;
}

-- A location that `Append` did not fill in.
abbrev pub no_location : Location
no_location = record { id = 0; offset = 0 }

-- The last of a sequence of ids.
unfoldable pub last : ℕ → List ℕ → ℕ
last id [] = id
last id (j ∷ l) = last j l

module _ ⦃p : Platform⦄ where
  -- The loop of `CreateFile` that rebuilds the index of a file: the offset and the log at its end.
  -- An entry takes 14 bytes or more, so more fuel than readable bytes is never used up.
  unfoldable pub rebuild_loop : ℕ → ReadableBuffer → ℕ → List ℕ → ℕ × List ℕ
  rebuild_loop zero b offset log = (offset, log)
  rebuild_loop (suc fuel) b offset log = elim (unpack b) [
    | none ↦ (offset, log)
    | some (e, b') ↦
        rebuild_loop fuel b' ((offset + size_of e) % 2 ^ 32) (Index.pack (index_of offset e) log)
  ]

  unfoldable pub rebuild : MappedFile → DiskFile → ℕ × List ℕ
  rebuild f disk =
      let b = readable_buffer f disk.bytes in rebuild_loop (suc (readable_bytes b)) b 0 []

  -- The first part of `CreateFile`: the active file is scheduled to be synchronised, and its index
  -- log to be written; the log is moved out.
  schedule_index : Option (List ℕ) → ℕ → List Task
  schedule_index none id = []
  schedule_index (some log) id = create_index_file id log ∷ []

  unfoldable pub retire_active : FileManager → FileManager
  unfolding schedule_index
  retire_active m = elim m.active_data_file [
    | none ↦ m
    | some f ↦ record m {
      tasks =
          m.tasks
          ++ (sync_file m.active_file_id ∷ schedule_index m.active_index_log m.active_file_id);
      active_index_log = none;
    }
  ]

  -- The rest, on a file that was opened. What `metadata_manager_->CreateFile` answers is ignored.
  unfoldable pub activate : Faults → ℕ → DiskFile → FileManager → FileManager
  activate io id disk m =
      let f : MappedFile = record { file = id; length = disk.length; write_index = 0 } in
      let (offset, log) = rebuild f disk in
      record m {
        metadata = (Metadata.create_file io id m.metadata).1;
        active_index_log = some log;
        active_data_file =
            some (if not (offset == 0) then record f { write_index = offset } else f);
        active_file_id = id;
        data_files = update m.data_files id disk;
      }

  pub open_active : Faults → ℕ → FileManager → Status × DiskFile → Status × FileManager
  open_active io id m (ok, disk) = (ok, activate io id disk m)
  open_active io id m (status, disk) =
      (status, record m { data_files = update m.data_files id disk })

  unfoldable pub create_file : Faults → ℕ → FileManager → Status × FileManager
  unfolding open_active
  create_file io id m =
      open_active io id (retire_active m) (open_mapping io max_file_bytes (m.data_files id))

  pub init_with : Faults → List ℕ → FileManager → Status × FileManager
  init_with io [] m = create_file io 1 m
  init_with io (id ∷ l) m = create_file io (last id l) m

  -- `Init`: the first file of a new database, or the last of an old one.
  unfoldable pub init : Faults → FileManager → Status × FileManager
  unfolding init_with last
  init io m = init_with io m.metadata.files m

  -- The entry is packed into the buffer, and its index entry into the log.
  append_packed :
      Entry
      → MappedFile
      → WritableBuffer
      → FileManager
      → Option (List ℕ)
      → Run (Status × Location × FileManager)
  append_packed e f b m none = crash
  append_packed e f b m (some log) = done (
    ok,
    record { id = m.active_file_id; offset = b.offset },
    record m {
      active_data_file = some f;
      active_index_log = some (Index.pack (index_of b.offset e) log);
      data_files =
          update m.data_files f.file (record (m.data_files f.file) { bytes = (pack e b).1.memory });
    },
  )

  -- `Append`. The loop goes round once more after each file that it created.
  unfoldable pub append : Faults → ℕ → Entry → FileManager → Run (Status × Location × FileManager)
  unfolding append_packed
  append io zero e m = out_of_fuel
  append io (suc fuel) e m = elim m.active_data_file [
    | none ↦ crash
    | some f ↦
        let (b, f') = allocate f (m.data_files f.file).bytes (size_of e) in
        let (status, m') = create_file io ((m.active_file_id + 1) % 2 ^ 32) m in
        let again = append io fuel e m' in
        if not (b.offset == no_offset)
        then append_packed e f' b m m.active_index_log
        else elim status [ ok ↦ again | other ↦ done (other, no_location, m') ]
  ]

  unfoldable pub release_data_file : ℕ → FileManager → FileManager
  release_data_file id m = record m { open_files = (Lru.remove id m.open_files).1 }

  -- `PosixReadonlyFile::Open` of a name, and the handle put into the cache.
  open_readonly : Faults → ℕ → FileManager → Status × Option ReadableFile × FileManager
  open_readonly io id m =
      if io.open_fails || not (m.data_files id).exists
      then (io_error, none, m)
      else if io.size_fails
      then (io_error, none, m)
      else (let file : ReadableFile = record { file = id; size = (m.data_files id).length } in
          (ok, some file, record m { open_files = Lru.put id file m.open_files }))

  acquire_inactive :
      Faults
      → ℕ
      → FileManager
      → Option ReadableFile × LruCache ReadableFile
      → Status × Option ReadableFile × FileManager
  unfolding open_readonly
  acquire_inactive io id m (some file, cache) = (ok, some file, record m { open_files = cache })
  acquire_inactive io id m (none, cache) = open_readonly io id (record m { open_files = cache })

  readable_of : MappedFile → ReadableFile
  readable_of f = record { file = f.file; size = f.length }

  -- `AcquireDataFile`. A null active file with the id 0 would be answered as it is.
  unfoldable pub acquire_data_file :
      Faults → ℕ → FileManager → Status × Option ReadableFile × FileManager
  unfolding acquire_inactive readable_of
  acquire_data_file io id m =
      if id == m.active_file_id
      then (ok, Option.map readable_of m.active_data_file, m)
      else acquire_inactive io id m (Lru.get id m.open_files)

  -- `AcquireIndexFile`
  unfoldable pub acquire_index_file : Faults → ℕ → FileManager → Status × Option ReadableFile
  acquire_index_file io id m =
      if io.open_fails || not (m.index_files id).exists
      then (io_error, none)
      else if io.size_fails
      then (io_error, none)
      else (ok, some (record { file = id; size = (m.index_files id).length }))

  abbrev removed : DiskFile → DiskFile
  removed f = record f { exists = false }

  remove_files : ℕ → Status × Manager → FileManager → Status × FileManager
  remove_files id (ok, metadata) m = (
    ok,
    record m {
      metadata = metadata;
      data_files = update m.data_files id (removed (m.data_files id));
      index_files = update m.index_files id (removed (m.index_files id));
    },
  )
  remove_files id (status, metadata) m = (status, record m { metadata = metadata })

  -- `RemoveFile`. That a name cannot be removed is ignored.
  unfoldable pub remove_file : Faults → ℕ → FileManager → Status × FileManager
  unfolding remove_files release_data_file
  remove_file io id m =
      let m' = release_data_file id m in remove_files id (Metadata.delete_file io id m'.metadata) m'

  -- `Flush` of a mapped file has nothing to do, so `Flush` answers kOk; `Sync` asks the system.
  unfoldable pub flush : Bool → FileManager → Status
  flush force m = ok

  unfoldable pub sync : Faults → FileManager → Status
  sync io m = elim m.active_data_file [
    | none ↦ ok
    | some f ↦ if io.sync_fails then io_error else ok
  ]

  write_index_file : ℕ → List ℕ → Status × DiskFile → FileManager → FileManager
  write_index_file id log (ok, disk) m = record m {
    index_files = update m.index_files id (record disk { bytes = write_bytes disk.bytes 0 log });
  }
  write_index_file id log (status, disk) m = record m {
    index_files = update m.index_files id disk;
    tasks = m.tasks ++ (create_index_file id log ∷ []);
  }

  -- A task that runs; one that fails is scheduled again.
  unfoldable pub run_task : Faults → Task → FileManager → FileManager
  unfolding write_index_file
  run_task io (sync_file id) m =
      if io.sync_fails then record m { tasks = m.tasks ++ (sync_file id ∷ []) } else m
  run_task io (create_index_file id log) m =
      write_index_file id log (open_mapping io (length log) (m.index_files id)) m
