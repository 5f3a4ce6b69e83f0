-- ===== src/Db/Open.antt =====
-- `DBImpl::DBImpl`, `DBImpl::Init` and `DB::Open`, and the worker that synchronises the active file.
-- A record that the index cannot hold ends the process, which is `none`.
pub mod Fresh
use pedrodb.Base.{ℕ, ◌+◌, List, [], Bool, true, false, Option, none, some, ltb, if◌then◌else◌}
use pedrodb.Platform.{Platform}
use pedrodb.Buffer.{ReadableBuffer}
use pedrodb.File.{DiskFile, Faults}
use pedrodb.FileManager
use pedrodb.FileManager.{FileManager, ReadableFile, sync}
use pedrodb.Index.{IndexMap}
use pedrodb.Lru
use pedrodb.Metadata
use pedrodb.Metadata.{Manager}
use pedrodb.ReadCache
use pedrodb.Status.{Status, ok}
use pedrodb.Db.{Options, Db, new_state}
use pedrodb.Db.Recovery.{recover}

-- The constructor of `MetadataManager`, for a path with an empty file or none.
unfoldable pub new_metadata : List ℕ → Manager
new_metadata path = record { path = path; name = []; files = []; log = [] }

-- The constructor of `FileManager`, on the files of a directory.
unfoldable pub new_files : ℕ → Manager → (ℕ → DiskFile) → (ℕ → DiskFile) → FileManager
new_files max_open_files metadata data_files index_files = record {
  metadata = metadata;
  open_files = Lru.new max_open_files;
  active_index_log = none;
  active_data_file = none;
  active_file_id = 0;
  data_files = data_files;
  index_files = index_files;
  tasks = [];
}

module _ ⦃t : IndexMap⦄ where
  -- The constructor, for the segments and the bytes of the read cache.
  unfoldable pub new_db : Options → ℕ → ℕ → FileManager → Db
  new_db options segments read_cache_bytes files = record {
    options = options;
    max_file = 0;
    indices = t.empty;
    files = files;
    readonly = false;
    read_cache = ReadCache.new segments read_cache_bytes;
    compact_tasks = [];
    file_states = λ id. new_state;
  }

module _ ⦃p : Platform⦄ ⦃t : IndexMap⦄ where
  pub recover_db : Faults → (ℕ → ReadableBuffer) → Status × Db → Option (Status × Db)
  recover_db io buffers (ok, db) = recover io buffers db
  recover_db io buffers (status, db) = some (status, db)

  pub init_files :
      Faults → (ℕ → ReadableBuffer) → Db → Option (Status × Manager) → Option (Status × Db)
  init_files io buffers db none = none
  init_files io buffers db (some (ok, metadata)) =
      let r = FileManager.init io (record db.files { metadata = metadata }) in
      recover_db io buffers (r.0, record db { files = r.1 })
  init_files io buffers db (some (status, metadata)) =
      some (status, record db { files = record db.files { metadata = metadata } })

  -- `Init`, up to the start of the workers
  unfoldable pub init : Faults → (ℕ → ReadableBuffer) → Db → Option (Status × Db)
  unfolding init_files recover_db
  init io buffers db = init_files io buffers db (Metadata.init io db.files.metadata)

  handed_out : Option (Status × Db) → Option (Status × Option Db)
  handed_out none = none
  handed_out (some (ok, db)) = some (ok, some db)
  handed_out (some (status, db)) = some (status, none)

  -- `DB::Open`: a database is handed out only if it could be initialised.
  unfoldable pub open_db : Faults → (ℕ → ReadableBuffer) → Db → Option (Status × Option Db)
  unfolding handed_out
  open_db io buffers db = handed_out (init io buffers db)

  -- A run of the sync worker: the number of failures, and a read-only database after more than
  -- `sync_max_io_error` of them.
  unfoldable pub sync_worker : Faults → ℕ → ℕ → Db → ℕ × Db
  sync_worker io max_io_error failed_count db = elim (sync io db.files) [
    | ok ↦
        (failed_count, if ltb max_io_error failed_count then record db { readonly = true } else db)
    | error ↦ (
      failed_count + 1,
      (if ltb max_io_error (failed_count + 1) then record db { readonly = true } else db),
    )
  ]

  -- `Flush`
  unfoldable pub flush : Db → Status
  flush db = FileManager.flush true db.files
