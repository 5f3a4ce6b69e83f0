-- ===== src/Db/Recovery/Empty.antt =====
-- Recovery from an active file that has no entries yet.
use pedrodb.Base.{max, ◌∷◌, ℕ, suc, ◌≡◌, refl, ap, ◌∙◌, arith, [], false, some, none, ==_iff, inr}
use mathlib.Core.Path.{ap₂}
use pedrodb.Platform.{Platform}
use pedrodb.Buffer.{ReadableBuffer}
use pedrodb.Format.Record.Sequence.{entries_bytes}
use pedrodb.File.{MappedFile, Faults, max_file_bytes}
use pedrodb.FileManager.{FileManager, acquire_data_file, acquire_index_file, release_data_file}
use pedrodb.Index.{IndexMap}
use pedrodb.Iterator.{open_iterator}
use pedrodb.Status.{ok, io_error}
use pedrodb.Db.{Db}
use pedrodb.Db.Recovery.{
  recover_file, recover_from_index, recover_from_records, recover_records, recover_files, recover,
}
use pedrodb.Db.Recovery.DataFile.{recover_records-entries_bytes}
use pedrodb.Db.Recovery.Entries.{recover_all}
use pedrodb.Db.Recovery.IndexFile.{index_entries}

module _ ⦃p : Platform⦄ ⦃t : IndexMap⦄ where
  recover_records-empty :
      (id : ℕ) (buffer : ReadableBuffer) (db : Db)
      → (db.files.data_files id).bytes 0 ≡ 0
      → recover_records
          (suc max_file_bytes)
          id
          (db.files.data_files id).bytes
          (open_iterator max_file_bytes buffer)
          db
        ≡ some db
  unfolding open_iterator entries_bytes index_entries recover_all
  recover_records-empty id buffer db zero_byte =
      recover_records-entries_bytes id [] (suc max_file_bytes) (db.files.data_files id).bytes
        (open_iterator max_file_bytes buffer) db tt refl tt zero_byte (omega arith) (omega arith)
        (inr (omega arith)) (omega arith)

  pub no_index_file :
      (io : Faults) (id : ℕ) (m : FileManager)
      → (m.index_files id).exists ≡ false
      → acquire_index_file io id m ≡ (io_error, none)
  unfolding acquire_index_file
  no_index_file io id m unindexed = rw unindexed (ground arith)

  active_file :
      (io : Faults) (id : ℕ) (m : FileManager) (f : MappedFile)
      → id ≡ m.active_file_id
      → m.active_data_file ≡ some f
      → f.file ≡ id
      → f.length ≡ max_file_bytes
      → acquire_data_file io id m ≡ (ok, some (record { file = id; size = max_file_bytes }), m)
  unfolding acquire_data_file
  active_file io id m f active is same whole =
      let here = (==_iff id m.active_file_id).1 active in
      let at : acquire_data_file io id m
          ≡ (ok, some (record { file = f.file; size = f.length }), m) =
        simp (here, is) in
      at ∙ (ap₂ (λ i n. (ok, some (record { file = i; size = n }), m)) same whole)

  -- `Recovery(id)` of an empty active file without an index file.
  pub recover_file-empty :
      (io : Faults) (buffer : ReadableBuffer) (id : ℕ) (db : Db) (f : MappedFile)
      → (db.files.index_files id).exists ≡ false
      → id ≡ db.files.active_file_id
      → db.files.active_data_file ≡ some f
      → f.file ≡ id
      → f.length ≡ max_file_bytes
      → (db.files.data_files id).bytes 0 ≡ 0
      → recover_file io buffer id db
        ≡ some (ok, record db { files = release_data_file id db.files })
  unfolding recover_file recover_from_index recover_from_records
  recover_file-empty io buffer id db f unindexed active is same whole zero_byte =
      ap (λ r. recover_from_index io buffer id r db) (no_index_file io id db.files unindexed)
      ∙ ap (λ r. recover_from_records buffer id r db)
          (active_file io id db.files f active is same whole)
      ∙ rw (recover_records-empty id buffer db zero_byte, recover_from_records) refl

  -- `Recovery` of one file.
  pub recover-single :
      (io : Faults) (buffers : ℕ → ReadableBuffer) (id : ℕ) (db db' : Db)
      → db.files.metadata.files ≡ id ∷ []
      → recover_file io (buffers id) id (record db { max_file = max db.max_file id })
        ≡ some (ok, db')
      → recover io buffers db ≡ some (ok, db')
  unfolding recover recover_files
  recover-single io buffers id db db' one went =
      ap (λ ids. recover_files io buffers ids db) one ∙ rw (went, recover_files) refl
