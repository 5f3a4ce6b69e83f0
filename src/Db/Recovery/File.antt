-- ===== src/Db/Recovery/File.antt =====
-- `Recovery(id)` of a file that holds entries, from its index file or from itself.
use pedrodb.Base.{
  ℕ, suc, ◌≡◌, refl, ap, sym, ◌∙◌, arith, List, true, false, Option, some, All, inl, inr,
  Bool-cases,
}
use pedrodb.Platform.{Platform}
use pedrodb.Buffer.{ReadableBuffer}
use pedrodb.Format.Record.{Entry}
use pedrodb.File.{Faults, max_file_bytes}
use pedrodb.FileManager.{FileManager, ReadableFile, acquire_data_file, release_data_file}
use pedrodb.FileManager.Acquire.{IsHandle, HasActive, IsAcquired, acquire_data_file-IsAcquired}
use pedrodb.FileManager.Durable.{HoldsIndex, HoldsLog}
use pedrodb.Index.{IndexMap}
use pedrodb.Iterator.{open_iterator}
use pedrodb.Lru
use pedrodb.Lru.{LruCache}
use pedrodb.Lru.Laws.{remove-All}
use pedrodb.Status.{Status, ok}
use pedrodb.Db.{Db}
use pedrodb.Db.Recovery.{recover_file, recover_from_index, recover_from_records, recover_records}
use pedrodb.Db.Recovery.DataFile.{recover_records-entries_bytes}
use pedrodb.Db.Recovery.Empty.{no_index_file}
use pedrodb.Db.Recovery.Entries.{latest, IsBelow, recover_all-latest}
use pedrodb.Db.Recovery.Kept.{IsKept}
use pedrodb.Db.Recovery.IndexFile.{
  index_entries, index_entries-IsStorable, index_entries-IsSorted, recover_file-index_log,
}

module _ ⦃p : Platform⦄ ⦃t : IndexMap⦄ where
  recover_from_records-ok :
      (buffer : ReadableBuffer) (id : ℕ) (file : ReadableFile) (files : FileManager) (db db' : Db)
      → recover_records
          (suc file.size)
          id
          (files.data_files file.file).bytes
          (open_iterator file.size buffer)
          (record db { files = files })
        ≡ some db'
      → recover_from_records buffer id (ok, some file, files) db
        ≡ some (ok, record db' { files = release_data_file id db'.files })
  unfolding recover_from_records
  recover_from_records-ok buffer id file files db db' h = rw (h, recover_from_records) refl

  -- A database in recovery: its files are those of `base` but for the handles, and its settings are
  -- those of `start`.
  pub record IsRecovering (base : FileManager) (start db : Db) : Type 0 where
    pub cache : LruCache ReadableFile
    pub files : db.files ≡ record base { open_files = cache }
    pub handles : All IsHandle cache.entries
    pub options : db.options ≡ start.options
    pub readonly : db.readonly ≡ start.readonly
    pub read_cache : db.read_cache ≡ start.read_cache

  -- What the recovery of a file gives.
  pub record IsRecovered (base : FileManager) (es : List Entry) (id : ℕ) (start db : Db)
      (r : Option (Status × Db)) : Type 0 where
    pub db' : Db
    pub goes : r ≡ some (ok, db')
    pub state : IsRecovering base start db'
    pub max_file : db'.max_file ≡ db.max_file
    pub index :
        (j : List ℕ) → t.find db'.indices j ≡ latest id j (index_entries 0 es) (t.find db.indices j)

  module _ (io : Faults) (opens : io.open_fails ≡ false) (sized : io.size_fails ≡ false)
      (buffer : ReadableBuffer) (base : FileManager) (active : HasActive base) (start db : Db)
      (state : IsRecovering base start db) (id : ℕ) (es : List Entry) (holds : HoldsLog base id es)
      (below : IsBelow db id 0) where
    from_index :
        (base.index_files id).exists ≡ true
        → HoldsIndex (base.index_files id) es
        → IsRecovered base es id start db (recover_file io buffer id db)
    from_index exists (size, bytes) =
        let (db', goes, keeps, index) =
          recover_file-index_log io buffer id es db opens sized
            (ap (λ f. (f.index_files id).exists) state.files ∙ exists)
            (ap (λ f. (f.index_files id).length) state.files ∙ size) (rw state.files bytes)
            holds.entries.storable (omega (arith, holds.ends)) below in
        record {
          db' = db';
          goes = goes;
          state = record {
            cache = state.cache;
            files = keeps.files ∙ state.files;
            handles = state.handles;
            options = keeps.options ∙ state.options;
            readonly = keeps.readonly ∙ state.readonly;
            read_cache = keeps.read_cache ∙ state.read_cache;
          };
          max_file = keeps.max_file;
          index = index;
        }

    -- The handle of the data file.
    acquired : IsAcquired io id db.files (acquire_data_file io id db.files)
    acquired =
        acquire_data_file-IsAcquired io id db.files opens sized
          (ap (λ f. (f.data_files id).exists) state.files ∙ holds.entries.exists)
          (ap (λ f. (f.data_files id).length) state.files ∙ holds.entries.whole)
          (record {
            file = active.file;
            is = ap (λ f. f.active_data_file) state.files ∙ active.is;
            same_file = active.same_file ∙ ap (λ f. f.active_file_id) (sym state.files);
            whole = active.whole;
          })
          (rw state.files state.handles)

    -- The database with that handle in the cache, and the loop over the file.
    abbrev db1 : Db
    db1 = record db { files = record db.files { open_files = acquired.cache } }

    loop_goes :
        (db' : Db) × (recover_records
            (suc acquired.file.size)
            id
            (db.files.data_files acquired.file.file).bytes
            (open_iterator acquired.file.size buffer)
            db1
          ≡ some db')
        × IsKept db1 db'
        × ((j : List ℕ)
            → t.find db'.indices j ≡ latest id j (index_entries 0 es) (t.find db.indices j))
    unfolding open_iterator
    loop_goes =
        let same : (db.files.data_files acquired.file.file).bytes ≡ (base.data_files id).bytes =
          ap (λ f. (f.data_files acquired.file.file).bytes) state.files
          ∙ ap (λ i. (base.data_files i).bytes) acquired.handle.0 in
        let h = holds.entries in
        let size : acquired.file.size ≡ max_file_bytes = acquired.handle.1 in
        let (db', goes, keeps, index) =
          recover_all-latest id 0 (index_entries 0 es) db1
            (index_entries-IsStorable 0 es h.storable (omega (arith, holds.ends)))
            (index_entries-IsSorted 0 0 es h.storable (omega arith)) below in
        (
          db',
          recover_records-entries_bytes id es (suc acquired.file.size) _
                (open_iterator acquired.file.size buffer) db1 h.storable refl (rw same h.holds)
                (rw same (h.zeros _ (omega arith))) (omega (arith, holds.ends)) (omega arith)
                (inr (omega arith)) (omega arith)
              ∙ goes,
          keeps,
          index,
        )

    from_records :
        (base.index_files id).exists ≡ false
        → IsRecovered base es id start db (recover_file io buffer id db)
    unfolding recover_file recover_from_index release_data_file
    from_records unindexed =
        let (db', goes, keeps, index) = loop_goes in
        record {
          db' = record db' { files = release_data_file id db'.files };
          goes =
              ap (λ r. recover_from_index io buffer id r db)
                (no_index_file io id db.files
                  (ap (λ f. (f.index_files id).exists) state.files ∙ unindexed))
              ∙ ap (λ r. recover_from_records buffer id r db) acquired.answer
              ∙ recover_from_records-ok buffer id acquired.file db1.files db db' goes;
          state = record {
            cache = (Lru.remove id acquired.cache).1;
            files =
                ap (release_data_file id) keeps.files
                ∙ ap
                    (λ (f : FileManager). record f {
                      open_files = (Lru.remove id acquired.cache).1;
                    })
                    state.files;
            handles = remove-All IsHandle id acquired.cache acquired.handles;
            options = keeps.options ∙ state.options;
            readonly = keeps.readonly ∙ state.readonly;
            read_cache = keeps.read_cache ∙ state.read_cache;
          };
          max_file = keeps.max_file;
          index = index;
        }

    -- `Recovery(id)` of a file that holds a sequence of storable entries and does not end with them,
    -- from its index file if there is one.
    pub recover_file-IsRecovered :
        ((base.index_files id).exists ≡ true → HoldsIndex (base.index_files id) es)
        → IsRecovered base es id start db (recover_file io buffer id db)
    recover_file-IsRecovered index = elim (Bool-cases (base.index_files id).exists) [
      | inl exists ↦ from_index exists (index exists)
      | inr unindexed ↦ from_records unindexed
    ]
