-- ===== src/Examples/Files.antt =====
-- The files, their manager and the iterator at concrete states.
use pedrodb.Base.{
  ◌+◌, ◌≡◌, ◌≢◌, ◌≤◌, ◌<◌, ◌⊎◌, refl, arith, [], ◌∷◌, true, false, some, length, append-nil,
}
use pedrodb.Platform.BigEndian.{big_endian}
use pedrodb.Buffer.{array_buffer}
use pedrodb.Format.Record.{size_of}
use pedrodb.Format.Record.Sequence.{entries_bytes}
use pedrodb.File.{MappedFile, no_faults, max_file_bytes, allocate, no_offset}
use pedrodb.File.Allocate.{IsBounded, allocate-IsBounded}
use pedrodb.Metadata.{Manager, create_file, delete_file, create_database, recovery}
use pedrodb.Metadata.Recovery.{
  IsLogged, create_database-IsLogged, create_file-IsLogged, delete_file-IsLogged, recovery-IsLogged,
}
use pedrodb.FileManager.{rebuild}
use pedrodb.FileManager.Rebuild.{index_log}
use pedrodb.FileManager.Create.{HoldsEntries, rebuild-entries}
use pedrodb.FileManager.Total.{Result, append_total}
use pedrodb.Iterator.{RecordIterator, open_iterator, valid}
use pedrodb.Iterator.Step.{valid-entry, valid-entry_at_end, after}
use pedrodb.Status.{ok}
use pedrodb.Examples.{
  an_entry, an_entry-IsStorable, no_bytes, whole_file, entry_memory, metadata, manager_of,
  empty-IsConsistent, entry_held, entry_size, entry_zeros,
}

abbrev nearly_full : MappedFile
nearly_full = record { file = 1; length = max_file_bytes; write_index = 100 }

allocate-IsBounded_example :
    IsBounded (allocate nearly_full no_bytes 19).1
    × ((((allocate nearly_full no_bytes 19).0.offset ≡ no_offset)
          × (max_file_bytes < 100 + 19)
          × ((allocate nearly_full no_bytes 19).1 ≡ nearly_full))
        ⊎ (((allocate nearly_full no_bytes 19).0.offset ≡ 100)
            × ((allocate nearly_full no_bytes 19).0.offset ≢ no_offset)
            × (100 + 19 ≤ max_file_bytes)
            × ((allocate nearly_full no_bytes 19).0.base ≡ 100)
            × ((allocate nearly_full no_bytes 19).0.capacity ≡ 19)
            × ((allocate nearly_full no_bytes 19).1.write_index ≡ 100 + 19)))
allocate-IsBounded_example =
    allocate-IsBounded nearly_full no_bytes 19
      (record { within = omega arith; small = omega arith })

create_file-IsLogged_example : IsLogged (create_file no_faults 3 (create_database metadata).1).1
create_file-IsLogged_example =
    create_file-IsLogged no_faults 3 (create_database metadata).1
      (create_database-IsLogged metadata (omega arith) refl) (omega arith)

delete_file-IsLogged_example :
    IsLogged (delete_file no_faults 3 (create_file no_faults 3 (create_database metadata).1).1).1
delete_file-IsLogged_example =
    delete_file-IsLogged no_faults 3 (create_file no_faults 3 (create_database metadata).1).1
      (create_file-IsLogged no_faults 3 (create_database metadata).1
        (create_database-IsLogged metadata (omega arith) refl) (omega arith))
      (omega arith)

abbrev with_file : Manager
with_file = (create_file no_faults 3 (create_database metadata).1).1

recovery-IsLogged_example :
    recovery (record { path = []; name = []; files = []; log = with_file.log })
    ≡ some (ok, record with_file { path = [] })
recovery-IsLogged_example =
    recovery-IsLogged with_file (record { path = []; name = []; files = []; log = with_file.log })
      (create_file-IsLogged no_faults 3 (create_database metadata).1
        (create_database-IsLogged metadata (omega arith) refl) (omega arith))
      refl refl

entry_file : HoldsEntries (whole_file entry_memory) (an_entry ∷ [])
unfolding entries_bytes
entry_file = record {
  whole = refl;
  exists = refl;
  storable = (an_entry-IsStorable, tt);
  holds = rw append-nil entry_held;
  within = rw append-nil (omega (arith, entry_size));
  zeros = λ i h. entry_zeros i (omega (arith, rw append-nil at h, entry_size));
}

rebuild-entries_example :
    rebuild nearly_full (whole_file entry_memory)
    ≡ (length (entries_bytes (an_entry ∷ [])), index_log 0 (an_entry ∷ []))
rebuild-entries_example =
    rebuild-entries nearly_full (whole_file entry_memory) (an_entry ∷ []) entry_file refl

append_total_example :
    Result no_faults empty-IsConsistent.entries (manager_of no_bytes 0 []) an_entry
append_total_example =
    append_total no_faults (manager_of no_bytes 0 []) an_entry empty-IsConsistent
      an_entry-IsStorable (unfold size_of in omega arith) (omega arith) refl

abbrev start : RecordIterator
start = open_iterator max_file_bytes (array_buffer [])

valid-entry_example : valid entry_memory start ≡ (true, after start an_entry)
unfolding open_iterator
valid-entry_example =
    valid-entry entry_memory start an_entry an_entry-IsStorable refl entry_held
      (unfold size_of in omega arith)

abbrev short : RecordIterator
short = open_iterator 19 (array_buffer [])

valid-entry_at_end_example : (valid entry_memory short).0 ≡ false
unfolding open_iterator
valid-entry_at_end_example =
    valid-entry_at_end entry_memory short an_entry an_entry-IsStorable refl entry_held
      (unfold size_of in refl) (omega arith)
