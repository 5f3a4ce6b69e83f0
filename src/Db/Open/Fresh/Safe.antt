-- ===== src/Db/Open/Fresh/Safe.antt =====
-- A database that is opened for the first time can be recovered by a later process.
use pedrodb.Base.{
  ℕ, ◌<◌, ◌^◌, ◌≡◌, refl, ap, sym, ◌∙◌, arith, List, [], ◌∷◌, length, true, false, none,
}
use pedrodb.Platform.{Platform}
use pedrodb.Buffer.{ReadableBuffer}
use pedrodb.Format.Record.Sequence.{entries_bytes}
use pedrodb.File.{DiskFile, Faults, faulty}
use pedrodb.FileManager.{FileManager, release_data_file, activate}
use pedrodb.FileManager.Consistent.{IsConsistent}
use pedrodb.FileManager.Create.{HoldsEntries, activate-IsConsistent}
use pedrodb.FileManager.Durable.{IsDurable, IsConsistent-with}
use pedrodb.Index.{IndexMap}
use pedrodb.Metadata.{path_accepted, name_of, create_database}
use pedrodb.Metadata.Recovery.{create_database-IsLogged, create_file-IsLogged}
use pedrodb.Db.{Db, Options}
use pedrodb.Db.Open.{new_metadata, new_files, new_db}
use pedrodb.Db.Open.Fresh.{
  create_file-first, first_file, fresh_db, created, start, opened_db, init_went, opened_db-Shows,
  opened_db-IsReady,
}
use pedrodb.Db.Recovery.IndexFile.{index_entries}
use pedrodb.Db.Recovery.Entries.{latest}
use pedrodb.Db.Recovery.Replay.{replayed}
use pedrodb.Db.Restart.{IsRecoverable, IsStarted}

module _ ⦃p : Platform⦄ ⦃t : IndexMap⦄ where
  module _ (io : Faults) (works : faulty io ≡ false) (buffers : ℕ → ReadableBuffer) (path : List ℕ)
      (options : Options) (segments read_cache_bytes max_open_files : ℕ)
      (data_files index_files : ℕ → DiskFile) (no_index : (i : ℕ) → (index_files i).exists ≡ false)
      (short : length (name_of path) < 2 ^ 16) where
    abbrev opened : DiskFile → Db
    opened =
        opened_db io buffers path options segments read_cache_bytes max_open_files data_files
          index_files

    -- The file manager when the first file is active.
    abbrev manager : DiskFile → FileManager
    manager d = activate io 1 d (
        start io buffers path options segments read_cache_bytes max_open_files data_files
          index_files)

    manager-consistent :
        (d : DiskFile) → HoldsEntries d [] → (c : IsConsistent (opened d).files) × (c.entries ≡ [])
    unfolding opened_db release_data_file
    manager-consistent d h =
        let m = manager d in
        let (c, none_yet) = activate-IsConsistent io 1 d [] _ h in
        let (c', same, _) = IsConsistent-with m c m.metadata _ m.index_files m.tasks in
        (c', same ∙ none_yet)

    one_file : (d : DiskFile) → (opened d).files.metadata.files ≡ 1 ∷ []
    unfolding opened_db release_data_file activate start new_files created create_database
        new_metadata
    one_file d = first_file io buffers works _ refl

    opened-IsDurable :
        (d : DiskFile) → HoldsEntries d [] → (x : IsDurable (opened d).files) × (x.log ≡ λ i. [])
    unfolding opened_db release_data_file activate start new_files created create_database
        new_metadata
    opened-IsDurable d h =
        let (c, none_yet) = manager-consistent d h in
        let empty : c.file.write_index ≡ 0 =
          c.written
          ∙ ap (λ es. length (entries_bytes es)) none_yet
          ∙ unfold entries_bytes in refl in
        (
          record {
            log = λ i. [];
            front = [];
            logged =
                create_file-IsLogged io 1 _
                  (create_database-IsLogged (record (new_metadata path) { name = name_of path })
                    short refl)
                  (omega arith);
            files_are = one_file d;
            older = tt;
            consistent = c;
            entries_are = none_yet;
            ends = omega arith;
            indexes = λ i is. let nothing = no_index i in cc;
            unindexed = λ i above. no_index i;
            pending = tt;
          },
          refl,
        )

    opened-IsRecoverable : (d : DiskFile) → HoldsEntries d [] → IsRecoverable (opened d)
    unfolding opened_db new_db replayed index_entries latest
    opened-IsRecoverable d h =
        let (x, log) = opened-IsDurable d h in
        let ids = (opened d).files.metadata.files in
        let one : ids ≡ 1 ∷ [] = one_file d in
        record {
          durable = x;
          index = λ j.
              t.find-empty j
              ∙ ap (λ ids. replayed (λ i. []) ids j none) (sym one)
              ∙ ap (λ l. replayed l ids j none) (sym log);
        }

    -- Where no call of the system fails, the path ends as the test wants it, the name has less than
    -- 64 KiB and the directory has no data file and no index file: `Init` of a database with at least
    -- one segment of the read cache ends with kOk, whatever the thread's buffer has. The database
    -- stands for the empty map, can append, and a later process can recover it.
    pub fresh_db-IsStarted :
        path_accepted path ≡ true
        → ((i : ℕ) → (data_files i).exists ≡ false)
        → 0 < segments
        → IsStarted io buffers
            (fresh_db io buffers path options segments read_cache_bytes max_open_files data_files
              index_files)
            (λ key. none)
    fresh_db-IsStarted accepted no_file some_segment =
        let (d, made, h) =
          create_file-first io
            (start io buffers path options segments read_cache_bytes max_open_files data_files
              index_files)
            works (unfold start new_files in refl) (unfold start new_files in no_file 1) in
        record {
          db = opened d;
          went =
              init_went io buffers path options segments read_cache_bytes max_open_files data_files
                index_files d works accepted made h (no_index 1);
          shows =
              opened_db-Shows io buffers path options segments read_cache_bytes max_open_files
                data_files index_files d h some_segment;
          ready =
              opened_db-IsReady io buffers path options segments read_cache_bytes max_open_files
                data_files index_files d h no_file;
          recoverable = opened-IsRecoverable d h;
        }
