-- ===== src/Db/Open/Fresh.antt =====
-- A database that is opened for the first time.
pub mod Safe
use pedrodb.Base.Ids.{contains, insert}
use pedrodb.Lru
use pedrodb.Lru.Laws.{remove-All}
use pedrodb.Db.Kept.{IsConsistent-HasActive}
use pedrodb.ReadCache.Fresh.{Every-new, length-new}
use pedrodb.FileManager
use pedrodb.Db.Get.Refines.{IsReady-with_caches}
use pedrodb.Base.{
  ==_ne, ℕ, ◌<◌, ◌≡◌, refl, ap, ◌∙◌, arith, List, [], ◌∷◌, true, false, none, some, length, inl,
  inr, max,
}
use pedrodb.Platform.{Platform}
use pedrodb.Buffer.{ReadableBuffer}
use pedrodb.Format.Record.Sequence.{entries_bytes}
use pedrodb.File.{DiskFile, Faults, faulty, max_file_bytes, open_mapping}
use pedrodb.File.Allocate.{open_mapping_new}
use pedrodb.FileManager.{
  FileManager, acquire_data_file, acquire_index_file, release_data_file, retire_active, activate,
  create_file,
}
use pedrodb.FileManager.Acquire.{IsHandle}
use pedrodb.FileManager.Create.{
  HoldsEntries, create_file_cases, activate-IsConsistent, new_HoldsEntries,
}
use pedrodb.Index.{IndexMap}
use pedrodb.Metadata
use pedrodb.Metadata.{Manager, path_accepted, name_of, create_database}
use pedrodb.Status.{ok}
use pedrodb.Db.{Db, Options}
use pedrodb.Db.View.{Shows, IsReady}
use pedrodb.Db.Open.{new_metadata, new_files, new_db, init, init_files, recover_db}
use pedrodb.Db.Recovery.{recover}
use pedrodb.Db.Recovery.Empty.{recover_file-empty, recover-single}

module _ ⦃p : Platform⦄ ⦃t : IndexMap⦄ where
  -- Where the first file can be created.
  create_file-first :
      (io : Faults) (m : FileManager)
      → faulty io ≡ false
      → m.active_data_file ≡ none
      → (m.data_files 1).exists ≡ false
      → (d : DiskFile) × (create_file io 1 m ≡ (ok, activate io 1 d m)) × HoldsEntries d []
  unfolding retire_active
  create_file-first io m works inactive new_file = elim (create_file_cases io 1 m) [
    | inl (opened, made) ↦ (
      (open_mapping io max_file_bytes (m.data_files 1)).1,
      made ∙ rw inactive refl,
      new_HoldsEntries io (m.data_files 1) new_file opened,
    )
    | inr (bad, made) ↦
        let broken =
          open_mapping_new io max_file_bytes (m.data_files 1) (omega arith) new_file bad in
        cc
  ]

  module _ (io : Faults) (buffers : ℕ → ReadableBuffer) (works : faulty io ≡ false) where
    init_metadata :
        (path : List ℕ)
        → path_accepted path ≡ true
        → Metadata.init io (new_metadata path)
          ≡ some (ok, (create_database (record (new_metadata path) { name = name_of path })).1)
    unfolding Metadata.init create_database new_metadata
    init_metadata path accepted =
        let opens : io.open_fails ≡ false = ground arith in
        let sized : io.size_fails ≡ false = ground arith in rw (accepted, opens, sized) refl

    first_file : (m : Manager) → m.files ≡ [] → (Metadata.create_file io 1 m).1.files ≡ 1 ∷ []
    unfolding Metadata.create_file contains insert
    first_file m no_files = rw no_files refl

    -- Recovery of the only file, which is empty.
    recover-first :
        (d : DiskFile) (m : FileManager) (db : Db)
        → HoldsEntries d []
        → m.metadata.files ≡ []
        → (m.index_files 1).exists ≡ false
        → recover io buffers (record db { files = activate io 1 d m })
          ≡ some (
            ok,
            record db {
              max_file = max db.max_file 1;
              files = release_data_file 1 (activate io 1 d m);
            },
          )
    unfolding activate
    recover-first d m db h no_files unindexed =
        let (c, none_yet) = activate-IsConsistent io 1 d [] m h in
        let empty_file : c.file.write_index ≡ 0 =
          c.written
          ∙ ap (λ es. length (entries_bytes es)) none_yet
          ∙ unfold entries_bytes in refl in
        let db1 : Db = record db { max_file = max db.max_file 1; files = activate io 1 d m } in
        recover-single io buffers 1 (record db { files = activate io 1 d m }) _
          (first_file m.metadata no_files)
          (recover_file-empty io (buffers 1) 1 db1 c.file unindexed refl c.active c.same_file
            c.whole (c.zeros 0 (omega arith)))

  -- The constructors for a path, and the directory that has no files of the database.
  module _ (io : Faults) (buffers : ℕ → ReadableBuffer) (path : List ℕ) (options : Options)
      (segments read_cache_bytes max_open_files : ℕ) (data_files index_files : ℕ → DiskFile) where
    abbrev pub fresh_db : Db
    fresh_db =
        new_db options segments read_cache_bytes
          (new_files max_open_files (new_metadata path) data_files index_files)

    -- What a first `Init` gives.
    pub record IsOpened : Type 0 where
      pub db : Db
      pub went : init io buffers fresh_db ≡ some (ok, db)
      pub shows : Shows db (λ key. none)
      pub ready : IsReady db

    created : Manager
    created = (create_database (record (new_metadata path) { name = name_of path })).1

    start : FileManager
    start = record (new_files max_open_files (new_metadata path) data_files index_files) {
      metadata = created;
    }

    opened_db : DiskFile → Db
    opened_db d = record fresh_db {
      max_file = 1;
      files = release_data_file 1 (activate io 1 d start);
    }

    init_went :
        (d : DiskFile)
        → faulty io ≡ false
        → path_accepted path ≡ true
        → create_file io 1 start ≡ (ok, activate io 1 d start)
        → HoldsEntries d []
        → (index_files 1).exists ≡ false
        → init io buffers fresh_db ≡ some (ok, opened_db d)
    unfolding init new_db new_files created start opened_db FileManager.init new_metadata
        create_database
    init_went d works accepted made h unindexed =
        ap (init_files io buffers fresh_db) (init_metadata io buffers works path accepted)
        ∙ ap (λ r. recover_db io buffers (r.0, record fresh_db { files = r.1 })) made
        ∙ recover-first io buffers works d start fresh_db h refl unindexed

    opened_db-Shows :
        (d : DiskFile) → HoldsEntries d [] → 0 < segments → Shows (opened_db d) (λ key. none)
    unfolding opened_db new_db new_files activate release_data_file
    opened_db-Shows d h some_segment =
        let (c, none_yet) = activate-IsConsistent io 1 d [] start h in
        let a = IsConsistent-HasActive (activate io 1 d start) c in
        record {
          present = λ key v e. cc;
          absent = λ key e. t.find-empty key;
          handles =
              unfold start Lru.new new_files in remove-All IsHandle 1 (Lru.new max_open_files) tt;
          active = record { file = a.file; is = a.is; same_file = a.same_file; whole = a.whole };
          cached = record {
            newest = refl;
            fresh = Every-new _ segments read_cache_bytes;
            segments = omega (arith, length-new segments read_cache_bytes);
          };
        }

    opened_db-IsReady :
        (d : DiskFile)
        → HoldsEntries d []
        → ((i : ℕ) → (data_files i).exists ≡ false)
        → IsReady (opened_db d)
    unfolding opened_db release_data_file activate start new_files
    opened_db-IsReady d h no_file =
        let (c, none_yet) = activate-IsConsistent io 1 d [] start h in
        let db0 : Db = record fresh_db { max_file = 1; files = activate io 1 d start } in
        let r =
          IsReady-with_caches db0 (release_data_file 1 (activate io 1 d start)).open_files
            db0.read_cache
            (record {
              consistent = c;
              fresh = λ i above. rw (==_ne i 1 (λ e. omega (arith, e, above))) (no_file i);
            }) in
        record { consistent = r.consistent; fresh = r.fresh }

    -- Where no call of the system fails, the path ends as the test wants it, and the directory has
    -- no data file and no index file of the first id: `Init` of a database with at least one segment
    -- of the read cache ends with kOk, and the database stands for the empty map and can append.
    pub init-IsOpened :
        faulty io ≡ false
        → path_accepted path ≡ true
        → ((i : ℕ) → (data_files i).exists ≡ false)
        → (index_files 1).exists ≡ false
        → 0 < segments
        → IsOpened
    init-IsOpened works accepted no_file unindexed some_segment =
        let (d, made, h) =
          create_file-first io start works (unfold start new_files in refl)
            (unfold start new_files in no_file 1) in
        record {
          db = opened_db d;
          went = init_went d works accepted made h unindexed;
          shows = opened_db-Shows d h some_segment;
          ready = opened_db-IsReady d h no_file;
        }
