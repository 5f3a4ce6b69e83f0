-- ===== src/Examples/Database/Tasks.antt =====
-- The executor writes the index file of a file that is not written any more.
use pedrodb.Base.{
  ℕ, ◌≡◌, refl, ap, sym, ◌∙◌, arith, List, [], ◌∷◌, ◌++◌, length, append-nil, none, some, ◌==◌,
  if◌then◌else◌,
}
use pedrodb.Base.Ids.{insert}
use pedrodb.Platform.BigEndian.{big_endian}
use pedrodb.Format.Record.{Entry}
use pedrodb.Format.Record.Sequence.{entries_bytes}
use pedrodb.Format.Metadata.{LogType, header_bytes, log_entry_bytes}
use pedrodb.File.{no_faults, max_file_bytes}
use pedrodb.FileManager.{FileManager, create_index_file}
use pedrodb.FileManager.Consistent.{IsConsistent}
use pedrodb.FileManager.Create.{HoldsEntries}
use pedrodb.FileManager.Durable.{IsDurable}
use pedrodb.FileManager.Rebuild.{index_log}
use pedrodb.Index.Sample.{function_map}
use pedrodb.Metadata.{apply}
use pedrodb.Metadata.Replay.{log_bytes, apply_all}
use pedrodb.Db.{Db}
use pedrodb.Db.Recovery.Replay.{replayed}
use pedrodb.Db.Restart.{IsRecoverable}
use pedrodb.Db.Restart.Keeps.{run_next, run_next-IsRecoverable}
use pedrodb.Examples.{
  a_path, an_entry, an_entry-IsStorable, no_file, no_bytes, whole_file, entry_memory, entry_held,
  entry_size, entry_zeros,
}
use pedrodb.Examples.Database.{empty_db}

-- The file 1 has the entry, the file 2 is active and empty.
abbrev entries_of : ℕ → List Entry
entries_of i = if i == 1 then an_entry ∷ [] else []

abbrev two_files : FileManager
two_files = record {
  metadata = record {
    path = a_path;
    name = 116 ∷ [];
    files = 1 ∷ 2 ∷ [];
    log =
        header_bytes (record { name = 116 ∷ [] })
        ++ (log_entry_bytes (record { log_type = LogType.create_file; id = 1 })
            ++ (log_entry_bytes (record { log_type = LogType.create_file; id = 2 }) ++ []));
  };
  open_files = record { capacity = 2; keys = []; entries = [] };
  active_index_log = some [];
  active_data_file = some (record { file = 2; length = max_file_bytes; write_index = 0 });
  active_file_id = 2;
  data_files = λ i.
      if i == 1 then whole_file entry_memory else if i == 2 then whole_file no_bytes else no_file;
  index_files = λ i. no_file;
  tasks = create_index_file 1 (index_log 0 (an_entry ∷ [])) ∷ [];
}

abbrev two_files_db : Db
two_files_db = record empty_db {
  max_file = 2;
  indices = λ j. replayed entries_of (1 ∷ 2 ∷ []) j none;
  files = two_files;
}

two_files-IsConsistent : (c : IsConsistent two_files) × (c.entries ≡ [])
unfolding entries_bytes index_log
two_files-IsConsistent = (
  record {
    file = record { file = 2; length = max_file_bytes; write_index = 0 };
    entries = [];
    active = refl;
    same_file = refl;
    whole = refl;
    on_disk = refl;
    disk_length = refl;
    storable = tt;
    holds = tt;
    written = refl;
    within = omega arith;
    zeros = λ i h. refl;
    index_is = refl;
  },
  refl,
)

entry_length : length (entries_bytes (an_entry ∷ [])) ≡ 19
unfolding entries_bytes
entry_length = rw append-nil entry_size

first-HoldsEntries : HoldsEntries (whole_file entry_memory) (an_entry ∷ [])
first-HoldsEntries = record {
  whole = refl;
  exists = refl;
  storable = (an_entry-IsStorable, tt);
  holds = unfold entries_bytes in rw append-nil entry_held;
  within = omega (arith, entry_length);
  zeros = λ i h. entry_zeros i (omega (arith, entry_length));
}

two_files-IsDurable : (d : IsDurable two_files) × (d.log ≡ entries_of)
unfolding log_bytes apply_all apply insert
two_files-IsDurable =
    let (c, none_yet) = two_files-IsConsistent in
    let end : c.file.write_index ≡ 0 =
      c.written ∙ ap (λ es. length (entries_bytes es)) none_yet ∙ unfold entries_bytes in refl in
    (
      record {
        log = entries_of;
        front = 1 ∷ [];
        logged = record {
          entries =
              record { log_type = LogType.create_file; id = 1 }
              ∷ record { log_type = LogType.create_file; id = 2 }
              ∷ [];
          storable = (
            record { written = tt; id_fits = omega arith },
            (record { written = tt; id_fits = omega arith }, tt),
          );
          name_fits = omega arith;
          log_is = refl;
          files_are = refl;
          ascending = ((omega arith, tt), (tt, tt));
        };
        files_are = refl;
        older = (
          (
            omega arith,
            record { entries = first-HoldsEntries; ends = omega (arith, entry_length) },
          ),
          tt,
        );
        consistent = c;
        entries_are = none_yet;
        ends = omega arith;
        indexes = λ i is. cc;
        unindexed = λ i h. refl;
        pending = ((omega arith, refl), tt);
      },
      refl,
    )

two_files_db-IsRecoverable : IsRecoverable two_files_db
two_files_db-IsRecoverable =
    let (d, log) = two_files-IsDurable in
    record { durable = d; index = λ j. ap (λ l. replayed l (1 ∷ 2 ∷ []) j none) (sym log) }

run_next-IsRecoverable_example :
    IsRecoverable
      (run_next no_faults (create_index_file 1 (index_log 0 (an_entry ∷ []))) [] two_files_db)
run_next-IsRecoverable_example =
    run_next-IsRecoverable no_faults (create_index_file 1 (index_log 0 (an_entry ∷ []))) []
      two_files_db refl refl two_files_db-IsRecoverable
