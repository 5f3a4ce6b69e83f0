-- ===== src/FileManager/Create.antt =====
-- `CreateFile` of a new file, and of the file that was active when the process ended.
use pedrodb.Base.{
  ℕ, ◌≤◌, ◌≡◌, ◌≢◌, refl, ◌∙◌, arith, List, [], length, All, true, false, ==_refl, inl, inr, ◌⊎◌,
}
use pedrodb.Base.Bytes.{Holds}
use pedrodb.Buffer.Readable.{readable_bytes-within}
use pedrodb.Platform.{Platform}
use pedrodb.Format.Record.{Entry}
use pedrodb.Format.Record.RoundTrip.{IsStorable}
use pedrodb.Format.Record.Sequence.{entries_bytes}
use pedrodb.File.{DiskFile, MappedFile, Faults, max_file_bytes, open_mapping, readable_buffer}
use pedrodb.File.Allocate.{open_mapping-ok}
use pedrodb.Status.{Status, ok}
use pedrodb.FileManager.{
  FileManager, update, rebuild, activate, retire_active, create_file, open_active,
}
use pedrodb.FileManager.Rebuild.{index_log, rebuild_loop-entries}
use pedrodb.FileManager.Consistent.{IsConsistent}

module _ ⦃p : Platform⦄ where
  -- A file that holds a sequence of entries with zero bytes behind it, which do not reach its end.
  pub record HoldsEntries (disk : DiskFile) (es : List Entry) : Type 0 where
    pub whole : disk.length ≡ max_file_bytes
    pub exists : disk.exists ≡ true
    pub storable : All IsStorable es
    pub holds : Holds disk.bytes 0 (entries_bytes es)
    pub within : length (entries_bytes es) ≤ max_file_bytes
    pub zeros : (i : ℕ) → length (entries_bytes es) ≤ i → disk.bytes i ≡ 0

  -- Rebuilding the index of a file that holds a sequence of storable entries, and zero bytes behind
  -- them, finds the end of the sequence and the index log of its entries.
  pub rebuild-entries :
      (f : MappedFile) (disk : DiskFile) (es : List Entry)
      → HoldsEntries disk es
      → f.length ≡ disk.length
      → rebuild f disk ≡ (length (entries_bytes es), index_log 0 es)
  unfolding rebuild readable_buffer
  rebuild-entries f disk es h same =
      let readable = readable_bytes-within disk.bytes 0 f.length (omega arith) in
      rebuild_loop-entries es _ (readable_buffer f disk.bytes) 0 [] h.storable h.holds
        (h.zeros _ (omega arith)) (omega (arith, h.within, h.whole)) (omega (arith, h.within))
        (omega arith)
      ∙ ground arith

  -- Activating such a file makes the manager consistent.
  pub activate-IsConsistent :
      (io : Faults) (id : ℕ) (disk : DiskFile) (es : List Entry) (m : FileManager)
      → HoldsEntries disk es
      → (c : IsConsistent (activate io id disk m)) × (c.entries ≡ es)
  unfolding activate
  activate-IsConsistent io id disk es m h =
      let f : MappedFile = record { file = id; length = disk.length; write_index = 0 } in
      let found = rebuild-entries f disk es h refl in
      (
        record {
          file = record {
            file = id;
            length = disk.length;
            write_index = length (entries_bytes es);
          };
          entries = es;
          active = rw found (ground arith);
          same_file = refl;
          whole = h.whole;
          on_disk = rw (==_refl id) h.exists;
          disk_length = rw (==_refl id) h.whole;
          storable = h.storable;
          holds = rw (==_refl id) h.holds;
          written = refl;
          within = h.within;
          zeros = rw (==_refl id) h.zeros;
          index_is = rw found;
        },
        refl,
      )

  -- What `CreateFile` has done where the file could not be opened.
  abbrev pub failed : FileManager → ℕ → DiskFile → FileManager
  failed m id disk = record m { data_files = update m.data_files id disk }

  open_active_cases :
      (io : Faults) (id : ℕ) (m : FileManager) (r : Status × DiskFile)
      → ((r.0 ≡ ok) × (open_active io id m r ≡ (ok, activate io id r.1 m)))
        ⊎ ((r.0 ≢ ok) × (open_active io id m r ≡ (r.0, failed m id r.1)))
  unfolding open_active
  open_active_cases io id m (ok, d) = inl (refl, refl)
  open_active_cases io id m (s, d) = inr (λ e. cc, refl)

  -- `CreateFile` either activates the file that it opened, or answers an error and leaves the active
  -- file, without its index log.
  pub create_file_cases :
      (io : Faults) (id : ℕ) (m : FileManager)
      → (let r = open_mapping io max_file_bytes (m.data_files id) in
          ((r.0 ≡ ok) × (create_file io id m ≡ (ok, activate io id r.1 (retire_active m))))
          ⊎ ((r.0 ≢ ok) × (create_file io id m ≡ (r.0, failed (retire_active m) id r.1))))
  unfolding create_file
  create_file_cases io id m = open_active_cases io id (retire_active m) _

  pub data_files-retire_active : (m : FileManager) → (retire_active m).data_files ≡ m.data_files
  unfolding retire_active
  data_files-retire_active m = ground arith

  pub open_files-retire_active : (m : FileManager) → (retire_active m).open_files ≡ m.open_files
  unfolding retire_active
  open_files-retire_active m = ground arith

  pub index_files-retire_active : (m : FileManager) → (retire_active m).index_files ≡ m.index_files
  unfolding retire_active
  index_files-retire_active m = ground arith

  pub active-retire_active :
      (m : FileManager)
      → ((retire_active m).active_data_file ≡ m.active_data_file)
        × ((retire_active m).active_file_id ≡ m.active_file_id)
        × ((retire_active m).metadata ≡ m.metadata)
  unfolding retire_active
  active-retire_active m = ground arith

  -- A file that is new on the disk, once opened, holds no entries.
  pub new_HoldsEntries :
      (io : Faults) (f : DiskFile)
      → f.exists ≡ false
      → (open_mapping io max_file_bytes f).0 ≡ ok
      → HoldsEntries (open_mapping io max_file_bytes f).1 []
  new_HoldsEntries io f new opened =
      let (whole, exists, _, bytes) = open_mapping-ok io max_file_bytes f opened in
      record {
        whole = whole;
        exists = exists;
        storable = tt;
        holds = unfold entries_bytes in tt;
        within = unfold entries_bytes in omega arith;
        zeros = λ i h. rw (bytes new);
      }
