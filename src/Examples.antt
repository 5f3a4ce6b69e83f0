-- ===== src/Examples.antt =====
-- Concrete data, on which the theorems are applied.
mod Formats
mod Files
mod Database
mod Caches
mod Posix
use pedrodb.Base.{
  ℕ, List, [], ◌∷◌, ◌++◌, Bool, true, false, Option, none, some, ◌^◌, refl, arith, ◌==◌,
  if◌then◌else◌, length, ◌+◌, ◌<◌, ◌≡◌, ◌≤◌, ◌∙◌,
}
use pedrodb.Base.Bytes.{Memory, Holds, Holds-write_self, write_bytes, write_bytes_after}
use pedrodb.Platform.BigEndian.{big_endian}
use pedrodb.Buffer.{WritableBuffer, ReadableBuffer}
use pedrodb.Format.Record.{EntryType, set, Entry, checksum, size_of}
use pedrodb.Format.Record.Pack.{entry_bytes}
use pedrodb.Format.Record.RoundTrip.{IsStorable}
use pedrodb.Format.Record.Sequence.{entries_bytes, length-entry_bytes-size_of}
use pedrodb.FileManager.Consistent.{IsConsistent}
use pedrodb.FileManager.Rebuild.{index_log}
use pedrodb.File.{DiskFile, MappedFile, max_file_bytes}
use pedrodb.Lru.{LruCache}
use pedrodb.Format.Metadata.{header_bytes, log_entry_bytes, LogType}
use pedrodb.Metadata.{Manager}
use pedrodb.FileManager.{FileManager, ReadableFile}

abbrev pub a_key : List ℕ
a_key = 107 ∷ 49 ∷ []

abbrev pub a_value : List ℕ
a_value = 118 ∷ 49 ∷ 50 ∷ []

abbrev pub an_entry : Entry
an_entry = record {
  checksum = checksum a_key a_value;
  entry_type = set;
  key = a_key;
  value = a_value;
  timestamp = 0;
}

abbrev pub no_bytes : Memory
no_bytes = λ i. 0

abbrev pub a_path : List ℕ
a_path = 116 ∷ 46 ∷ 100 ∷ 98 ∷ []

abbrev pub metadata : Manager
metadata = record { path = a_path; name = 116 ∷ []; files = []; log = [] }

-- The metadata with the file 1.
abbrev pub logged_metadata : Manager
logged_metadata = record {
  path = a_path;
  name = 116 ∷ [];
  files = 1 ∷ [];
  log =
      header_bytes (record { name = 116 ∷ [] })
      ++ (log_entry_bytes (record { log_type = LogType.create_file; id = 1 }) ++ []);
}

abbrev pub no_file : DiskFile
no_file = record { exists = false; length = 0; bytes = no_bytes }

-- A whole file with these bytes.
abbrev pub whole_file : Memory → DiskFile
whole_file bytes = record { exists = true; length = max_file_bytes; bytes = bytes }

-- Only the file 1 is on the disk, and is the active one.
abbrev pub manager_of : Memory → ℕ → List ℕ → FileManager
manager_of bytes end log = record {
  metadata = logged_metadata;
  open_files = record { capacity = 2; keys = []; entries = [] };
  active_index_log = some log;
  active_data_file = some (record { file = 1; length = max_file_bytes; write_index = end });
  active_file_id = 1;
  data_files = λ i. if i == 1 then whole_file bytes else no_file;
  index_files = λ i. no_file;
  tasks = [];
}

-- The memory that holds the entry at its start.
abbrev pub entry_memory : Memory
entry_memory = write_bytes no_bytes 0 (entry_bytes an_entry)

pub an_entry-IsStorable : IsStorable an_entry
unfolding checksum
an_entry-IsStorable = record {
  written = tt;
  key_fits = omega arith;
  size_fits = omega arith;
  checksum_fits = omega arith;
  timestamp_fits = omega arith;
}

-- A manager of a new file, and the one after the entry was appended.
pub empty-IsConsistent : IsConsistent (manager_of no_bytes 0 [])
unfolding entries_bytes index_log
empty-IsConsistent = record {
  file = record { file = 1; length = max_file_bytes; write_index = 0 };
  entries = [];
  active = refl;
  same_file = refl;
  whole = refl;
  on_disk = refl;
  disk_length = refl;
  storable = tt;
  holds = tt;
  written = refl;
  within = omega arith;
  zeros = λ i h. refl;
  index_is = refl;
}

-- The entry stands at the start of the memory, and nothing behind it.
pub entry_held : Holds entry_memory 0 (entry_bytes an_entry)
entry_held = Holds-write_self no_bytes 0 (entry_bytes an_entry)

pub entry_size : length (entry_bytes an_entry) ≡ 19
entry_size = length-entry_bytes-size_of an_entry an_entry-IsStorable ∙ unfold size_of in refl

pub entry_zeros : (i : ℕ) → 19 ≤ i → entry_memory i ≡ 0
entry_zeros i h = write_bytes_after no_bytes 0 i (entry_bytes an_entry) (omega (arith, entry_size))
