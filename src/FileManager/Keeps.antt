-- ===== src/FileManager/Keeps.antt =====
-- What an append to the active file does to the invariant and to the stored entries.
use pedrodb.Base.{
  ℕ, ◌+◌, ◌≤◌, ◌≡◌, ◌≢◌, refl, ap, ◌∙◌, arith, [], ◌∷◌, ◌++◌, length, All-append, some,
  length-append,
}
use pedrodb.Base.Bytes.{
  Holds, write_bytes, Holds-append, Holds-write_before, Holds-write_self, write_bytes_after,
}
use pedrodb.Platform.{Platform}
use native.Mathlib.Decide.{ℕ_discrete}
use pedrodb.Format.Index
use pedrodb.Format.Record.{Entry, size_of}
use pedrodb.Format.Record.Location.{Location}
use pedrodb.Format.Record.Pack.{entry_bytes}
use pedrodb.Format.Record.RoundTrip.{IsStorable}
use pedrodb.Format.Record.Sequence.{entries_bytes, entries_bytes-append, length-entry_bytes-size_of}
use pedrodb.File.{max_file_bytes}
use pedrodb.FileManager.{FileManager, index_of}
use pedrodb.FileManager.Rebuild.{index_log, index_log-append}
use pedrodb.FileManager.Consistent.{IsConsistent, IsStored}
use pedrodb.FileManager.Append.{appended}

module _ ⦃p : Platform⦄ (m : FileManager) (c : IsConsistent m) (e : Entry) (s : IsStorable e)
    (room : c.file.write_index + size_of e ≤ max_file_bytes) where
  -- The manager after the entry was appended to the active file.
  abbrev next : FileManager
  next = appended m c.file (index_log 0 c.entries) e

  bytes_here :
      (i : ℕ)
      → i ≡ m.active_file_id
      → (next.data_files i).bytes
        ≡ write_bytes (m.data_files i).bytes c.file.write_index (entry_bytes e)
  unfolding appended
  bytes_here i h = ground (arith, c.same_file)

  -- The other files are as before.
  pub data_files_other : (i : ℕ) → i ≢ m.active_file_id → next.data_files i ≡ m.data_files i
  unfolding appended
  data_files_other i h = ground (arith, c.same_file)

  pub disk_same :
      (i : ℕ)
      → ((next.data_files i).exists ≡ (m.data_files i).exists)
        × ((next.data_files i).length ≡ (m.data_files i).length)
  unfolding appended
  disk_same i = ground (arith, c.same_file)

  size : length (entry_bytes e) ≡ size_of e
  size = length-entry_bytes-size_of e s

  Holds-next :
      Holds (next.data_files m.active_file_id).bytes 0 (entries_bytes (c.entries ++ (e ∷ [])))
  Holds-next =
      let bytes = (m.data_files m.active_file_id).bytes in
      let at : c.file.write_index ≡ 0 + length (entries_bytes c.entries) =
        omega (arith, c.written) in
      rw (bytes_here m.active_file_id refl, entries_bytes-append)
        (Holds-append _ 0 (entries_bytes c.entries) (entry_bytes e)
          (Holds-write_before bytes 0 c.file.write_index _ (entry_bytes e) (omega arith) c.holds)
          (rw (← at) (Holds-write_self bytes c.file.write_index (entry_bytes e))))

  written_next : c.file.write_index + size_of e ≡ length (entries_bytes (c.entries ++ (e ∷ [])))
  written_next =
      let len = length-append (entries_bytes c.entries) (entry_bytes e) in
      rw entries_bytes-append (omega (arith, size, c.written, len))

  zeros_next :
      (i : ℕ) → c.file.write_index + size_of e ≤ i → (next.data_files m.active_file_id).bytes i ≡ 0
  zeros_next i h =
      ap (λ f. f i) (bytes_here m.active_file_id refl)
      ∙ write_bytes_after _ c.file.write_index i (entry_bytes e) (omega (arith, size))
      ∙ c.zeros i (omega arith)

  index_next :
      index_log 0 c.entries ++ Index.index_bytes (index_of c.file.write_index e)
      ≡ index_log 0 (c.entries ++ (e ∷ []))
  index_next =
      let at : c.file.write_index ≡ 0 + length (entries_bytes c.entries) =
        omega (arith, c.written) in
      rw (index_log-append 0 c.entries e c.storable, at)

  pub appended-IsConsistent : (c' : IsConsistent next) × (c'.entries ≡ c.entries ++ (e ∷ []))
  unfolding appended
  appended-IsConsistent = (
    record {
      file = record c.file { write_index = c.file.write_index + size_of e };
      entries = c.entries ++ (e ∷ []);
      active = refl;
      same_file = c.same_file;
      whole = c.whole;
      on_disk = (disk_same m.active_file_id).0 ∙ c.on_disk;
      disk_length = (disk_same m.active_file_id).1 ∙ c.disk_length;
      storable = All-append IsStorable c.entries (e ∷ []) c.storable (s, tt);
      holds = Holds-next;
      written = written_next;
      within = room;
      zeros = zeros_next;
      index_is = ap some index_next;
    },
    refl,
  )

  stands_next :
      (loc : Location) (x : Entry)
      → IsStored m loc x
      → IsStorable x
      → Holds (next.data_files loc.id).bytes loc.offset (entry_bytes x)
  stands_next loc x st sx = elim (ℕ_discrete loc.id m.active_file_id) [
    | yes here ↦ rw (bytes_here loc.id here) (
        Holds-write_before _ loc.offset c.file.write_index (entry_bytes x) (entry_bytes e)
          (omega (arith, st.before c.file c.active here, length-entry_bytes-size_of x sx))
          st.stands)
    | no elsewhere ↦ rw (data_files_other loc.id elsewhere) st.stands
  ]

  -- An entry that was stored is stored still.
  pub IsStored-appended :
      (loc : Location) (x : Entry) → IsStored m loc x → IsStorable x → IsStored next loc x
  unfolding appended
  IsStored-appended loc x st sx = record {
    stands = stands_next loc x st sx;
    exists = (disk_same loc.id).0 ∙ st.exists;
    length = (disk_same loc.id).1 ∙ st.length;
    inside = st.inside;
    old = st.old;
    before = λ f a i. ground (arith, st.before c.file c.active i);
  }

  -- The new entry is stored at the old end of the file.
  pub appended-IsStored :
      IsStored next (record { id = m.active_file_id; offset = c.file.write_index }) e
  unfolding appended
  appended-IsStored = record {
    stands =
        rw (bytes_here m.active_file_id refl) (
          Holds-write_self (m.data_files m.active_file_id).bytes c.file.write_index
            (entry_bytes e));
    exists = (disk_same m.active_file_id).0 ∙ c.on_disk;
    length = (disk_same m.active_file_id).1 ∙ c.disk_length;
    inside = room;
    old = omega arith;
    before = λ f a i. ground arith;
  }
