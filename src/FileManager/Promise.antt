-- ===== src/FileManager/Promise.antt =====
-- What the caller of `Append` of include/pedrodb/file_manager.h may rely on.
use pedrodb.Base.{ℕ, ◌+◌, ◌≤◌, ◌<◌, ◌≡◌, ◌≢◌, List, [], ◌∷◌, ◌++◌, length, none}
use pedrodb.Platform.{Platform}
use pedrodb.Format.Record.{Entry}
use pedrodb.Format.Record.Location.{Location, rank}
use pedrodb.Format.Record.RoundTrip.{IsStorable}
use pedrodb.Format.Record.Sequence.{entries_bytes}
use pedrodb.File.{Faults}
use pedrodb.Metadata
use pedrodb.FileManager.{FileManager, sync_file, create_index_file}
use pedrodb.FileManager.Rebuild.{index_log}
use pedrodb.FileManager.Consistent.{IsConsistent, IsStored}

module _ ⦃p : Platform⦄ where
  -- Where the entry went: behind the entries `es` of the active file, or first into a new file.
  pub data Grown (io : Faults) (es : List Entry) (m : FileManager) (e : Entry) (loc : Location)
      (m' : FileManager) (es' : List Entry) : Type 0 where
    in_active :
        loc.id ≡ m.active_file_id
        → loc.offset ≡ length (entries_bytes es)
        → es' ≡ es ++ (e ∷ [])
        → m'.metadata ≡ m.metadata
        → m'.tasks ≡ m.tasks
        → Grown io es m e loc m' es'
    in_new :
        loc.id ≡ m.active_file_id + 1
        → loc.offset ≡ 0
        → es' ≡ e ∷ []
        → m'.metadata ≡ (Metadata.create_file io (m.active_file_id + 1) m.metadata).1
        → m'.tasks
          ≡ m.tasks
            ++ (sync_file m.active_file_id
                ∷ create_index_file m.active_file_id (index_log 0 es)
                ∷ [])
        → Grown io es m e loc m' es'

  -- What a successful `Append` of `e` at `loc` promises.
  pub record Appended (io : Faults) (es : List Entry) (m : FileManager) (e : Entry) (loc : Location)
      (m' : FileManager) : Type 0 where
    pub consistent : IsConsistent m'
    pub grown : Grown io es m e loc m' consistent.entries
    pub stored : IsStored m' loc e
    pub kept : (l : Location) (x : Entry) → IsStored m l x → IsStorable x → IsStored m' l x
    pub newest : (l : Location) (x : Entry) → IsStored m l x → IsStorable x → rank l < rank loc
    pub active : loc.id ≡ m'.active_file_id
    pub grows : m.active_file_id ≤ m'.active_file_id
    pub step : m'.active_file_id ≤ m.active_file_id + 1
    pub others : (i : ℕ) → i ≢ m'.active_file_id → m'.data_files i ≡ m.data_files i
    pub handles : m'.open_files ≡ m.open_files
    pub indexes : m'.index_files ≡ m.index_files

  -- What a failed one promises: the active file is the same, and entries are kept.
  pub record Refused (m : FileManager) (m' : FileManager) : Type 0 where
    pub kept : (l : Location) (x : Entry) → IsStored m l x → IsStored m' l x
    pub same_id : m'.active_file_id ≡ m.active_file_id
    pub same_file : m'.active_data_file ≡ m.active_data_file
    pub others : (i : ℕ) → i ≤ m.active_file_id → m'.data_files i ≡ m.data_files i
    pub log_lost : m'.active_index_log ≡ none
    pub handles : m'.open_files ≡ m.open_files
