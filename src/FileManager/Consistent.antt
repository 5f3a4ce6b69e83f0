-- ===== src/FileManager/Consistent.antt =====
-- The invariant of the file manager: the active file is a sequence of entries, and what the program
-- keeps in memory about it is what the file holds.
use pedrodb.Base.{ℕ, ◌+◌, ◌≤◌, ◌≡◌, List, length, All, some, true}
use pedrodb.Base.Bytes.{Holds}
use pedrodb.Platform.{Platform}
use pedrodb.Format.Record.{Entry, size_of}
use pedrodb.Format.Record.Pack.{entry_bytes}
use pedrodb.Format.Record.Location.{Location}
use pedrodb.Format.Record.RoundTrip.{IsStorable}
use pedrodb.Format.Record.Sequence.{entries_bytes}
use pedrodb.File.{MappedFile, max_file_bytes}
use pedrodb.FileManager.{FileManager}
use pedrodb.FileManager.Rebuild.{index_log}

module _ ⦃p : Platform⦄ where
  pub record IsConsistent (m : FileManager) : Type 0 where
    pub file : MappedFile
    pub entries : List Entry
    pub active : m.active_data_file ≡ some file
    pub same_file : file.file ≡ m.active_file_id
    pub whole : file.length ≡ max_file_bytes
    pub on_disk : (m.data_files m.active_file_id).exists ≡ true
    pub disk_length : (m.data_files m.active_file_id).length ≡ max_file_bytes
    pub storable : All IsStorable entries
    pub holds : Holds (m.data_files m.active_file_id).bytes 0 (entries_bytes entries)
    pub written : file.write_index ≡ length (entries_bytes entries)
    pub within : file.write_index ≤ max_file_bytes
    pub zeros : (i : ℕ) → file.write_index ≤ i → (m.data_files m.active_file_id).bytes i ≡ 0
    pub index_is : m.active_index_log ≡ some (index_log 0 entries)

  -- An entry stands in a data file, in the part that has been written.
  pub record IsStored (m : FileManager) (loc : Location) (e : Entry) : Type 0 where
    pub stands : Holds (m.data_files loc.id).bytes loc.offset (entry_bytes e)
    pub exists : (m.data_files loc.id).exists ≡ true
    pub length : (m.data_files loc.id).length ≡ max_file_bytes
    pub inside : loc.offset + size_of e ≤ max_file_bytes
    pub old : loc.id ≤ m.active_file_id
    pub before :
        (f : MappedFile)
        → m.active_data_file ≡ some f
        → loc.id ≡ m.active_file_id
        → loc.offset + size_of e ≤ f.write_index
