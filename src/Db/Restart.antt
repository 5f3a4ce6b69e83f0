-- ===== src/Db/Restart.antt =====
-- A database that is started on the files that an earlier process left.
pub mod Files
pub mod Init
pub mod Keeps
use pedrodb.Base.{ℕ, ◌≡◌, List, none, some}
use pedrodb.Platform.{Platform}
use pedrodb.Buffer.{ReadableBuffer}
use pedrodb.File.{Faults}
use pedrodb.FileManager.Durable.{IsDurable}
use pedrodb.Index.{IndexMap}
use pedrodb.Status.{ok}
use pedrodb.Db.{Db}
use pedrodb.Db.View.{Contents, Shows, IsReady}
use pedrodb.Db.Open.{new_metadata, new_files, new_db, init}
use pedrodb.Db.Recovery.Replay.{replayed}

module _ ⦃p : Platform⦄ ⦃t : IndexMap⦄ where
  -- A later process can recover the index from the files.
  pub record IsRecoverable (db : Db) : Type 0 where
    pub durable : IsDurable db.files
    pub index :
        (j : List ℕ) → t.find db.indices j ≡ replayed durable.log db.files.metadata.files j none

  -- The constructors in a later process, which finds the files and the log of the database file.
  abbrev pub restarted : List ℕ → ℕ → ℕ → ℕ → Db → Db
  restarted path segments read_cache_bytes max_open_files db =
      new_db db.options segments read_cache_bytes (
        new_files max_open_files (record (new_metadata path) { log = db.files.metadata.log })
          db.files.data_files db.files.index_files)

  -- A database that was started: `Init` ended with kOk, and the database stands for the map, can
  -- append and is recoverable.
  pub record IsStarted (io : Faults) (buffers : ℕ → ReadableBuffer) (first : Db) (s : Contents)
      : Type 0 where
    pub db : Db
    pub went : init io buffers first ≡ some (ok, db)
    pub shows : Shows db s
    pub ready : IsReady db
    pub recoverable : IsRecoverable db
