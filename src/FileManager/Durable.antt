-- ===== src/FileManager/Durable.antt =====
-- What the files of a database hold: the entries of every data file in the order of their ids, so
-- that a later process can recover from them.
pub mod Append
pub mod Tasks
use pedrodb.Base.{
  ℕ, ◌+◌, ◌≤◌, ◌<◌, ◌^◌, ◌≡◌, ◌≢◌, refl, ap, sym, ◌∙◌, arith, List, [], ◌∷◌, ◌++◌, length, All,
  All-append, All-imp, true, false, some, if◌then◌else◌, ◌==◌, ==_refl, ==_ne,
}
use pedrodb.Base.Bytes.{Holds}
use pedrodb.Base.Ids.{insert, contains, insert-above, not-contains_above}
use pedrodb.Platform.{Platform}
use pedrodb.Format.Record.{Entry}
use pedrodb.Format.Record.Location.{Location}
use pedrodb.Format.Record.Sequence.{entries_bytes}
use pedrodb.File.{DiskFile, MappedFile, Faults, max_file_bytes}
use pedrodb.Metadata
use pedrodb.Metadata.{Manager}
use pedrodb.Metadata.Recovery.{IsLogged, create_file-IsLogged}
use pedrodb.FileManager.{FileManager, ReadableFile, Task, sync_file, create_index_file}
use pedrodb.Lru.{LruCache}
use pedrodb.FileManager.Rebuild.{index_log}
use pedrodb.FileManager.Consistent.{IsConsistent}
use pedrodb.FileManager.Create.{HoldsEntries}
use pedrodb.FileManager.Promise.{Grown, in_active, in_new, Appended}

module _ ⦃p : Platform⦄ where
  -- An index file that has the index log of entries.
  abbrev pub HoldsIndex : DiskFile → List Entry → Type 0
  HoldsIndex disk es = (disk.length ≡ length (index_log 0 es)) × Holds disk.bytes 0 (index_log 0 es)

  -- The data file of an id holds entries and does not end with them.
  pub record HoldsLog (m : FileManager) (id : ℕ) (es : List Entry) : Type 0 where
    pub entries : HoldsEntries (m.data_files id) es
    pub ends : length (entries_bytes es) < max_file_bytes

  -- A scheduled index file is that of a file that is not written any more.
  abbrev pub IsPending : ℕ → (ℕ → List Entry) → Task → Type 0
  IsPending active log (sync_file id) = Unit
  IsPending active log (create_index_file id bytes) = (id < active) × (bytes ≡ index_log 0 (log id))

  -- The files and the log of the database are enough to start from: `log` has the entries of each
  -- data file, `front` the files before the active one, and every index file is that of its entries.
  pub record IsDurable (m : FileManager) : Type 0 where
    pub log : ℕ → List Entry
    pub front : List ℕ
    pub logged : IsLogged m.metadata
    pub files_are : m.metadata.files ≡ front ++ (m.active_file_id ∷ [])
    pub older : All (λ i. (i < m.active_file_id) × HoldsLog m i (log i)) front
    pub consistent : IsConsistent m
    pub entries_are : consistent.entries ≡ log m.active_file_id
    pub ends : consistent.file.write_index < max_file_bytes
    pub indexes : (i : ℕ) → (m.index_files i).exists ≡ true → HoldsIndex (m.index_files i) (log i)
    pub unindexed : (i : ℕ) → m.active_file_id ≤ i → (m.index_files i).exists ≡ false
    pub pending : All (IsPending m.active_file_id log) m.tasks

  IsConsistent-HoldsEntries :
      (m : FileManager) (c : IsConsistent m)
      → HoldsEntries (m.data_files m.active_file_id) c.entries
  IsConsistent-HoldsEntries m c = record {
    whole = c.disk_length;
    exists = c.on_disk;
    storable = c.storable;
    holds = c.holds;
    within = rw (← c.written) c.within;
    zeros = λ i h. c.zeros i (omega (arith, c.written));
  }

  -- The active file holds its entries too.
  pub IsDurable-active :
      (m : FileManager) (d : IsDurable m) → HoldsLog m m.active_file_id (d.log m.active_file_id)
  IsDurable-active m d =
      let c = d.consistent in
      rw (← d.entries_are) (record {
        entries = IsConsistent-HoldsEntries m c;
        ends = omega (arith, c.written, d.ends);
      })

  pub HoldsLog-kept :
      (m m' : FileManager) (id : ℕ) (es : List Entry)
      → m'.data_files id ≡ m.data_files id
      → HoldsLog m id es
      → HoldsLog m' id es
  HoldsLog-kept m m' id es same h = record { entries = rw same h.entries; ends = h.ends }

  -- The invariant of the active file reads nothing else.
  pub IsConsistent-with :
      (m : FileManager) (c : IsConsistent m) (metadata : Manager)
      (open_files : LruCache ReadableFile) (index_files : ℕ → DiskFile) (tasks : List Task)
      → (c' : IsConsistent (record m {
        metadata = metadata;
        open_files = open_files;
        index_files = index_files;
        tasks = tasks;
      }))
        × (c'.entries ≡ c.entries)
        × (c'.file ≡ c.file)
  IsConsistent-with m c metadata open_files index_files tasks = (
    record {
      file = c.file;
      entries = c.entries;
      active = c.active;
      same_file = c.same_file;
      whole = c.whole;
      on_disk = c.on_disk;
      disk_length = c.disk_length;
      storable = c.storable;
      holds = c.holds;
      written = c.written;
      within = c.within;
      zeros = c.zeros;
      index_is = c.index_is;
    },
    refl,
    refl,
  )

  -- Other handles, other tasks that are right, and more index files that are right.
  pub IsDurable-with :
      (m : FileManager) (d : IsDurable m) (open_files : LruCache ReadableFile)
      (index_files : ℕ → DiskFile) (tasks : List Task)
      → ((i : ℕ) → (index_files i).exists ≡ true → HoldsIndex (index_files i) (d.log i))
      → ((i : ℕ) → m.active_file_id ≤ i → (index_files i).exists ≡ false)
      → All (IsPending m.active_file_id d.log) tasks
      → (d' : IsDurable
          (record m { open_files = open_files; index_files = index_files; tasks = tasks }))
        × (d'.log ≡ d.log)
  IsDurable-with m d open_files index_files tasks indexes unindexed pending =
      let (c, entries, file) =
        IsConsistent-with m d.consistent m.metadata open_files index_files tasks in
      (
        record {
          log = d.log;
          front = d.front;
          logged = d.logged;
          files_are = d.files_are;
          older =
              All-imp _ _ d.front
                (λ i (h, holds). (h, record { entries = holds.entries; ends = holds.ends }))
                d.older;
          consistent = c;
          entries_are = entries ∙ d.entries_are;
          ends = rw file d.ends;
          indexes = indexes;
          unindexed = unindexed;
          pending = pending;
        },
        refl,
      )
