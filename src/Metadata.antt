-- ===== src/Metadata.antt =====
-- src/metadata_manager.cc: the set of data files, kept in a log in the database file. `log` is the
-- content of `file_`; `PEDRODB_FATAL` ends the process, which is `none`.
pub mod Replay
pub mod Recovery
use pedrodb.Base.{
  ℕ, zero, suc, ◌+◌, ◌-◌, ◌%◌, ◌^◌, ◌||◌, List, [], ◌∷◌, ◌++◌, Bool, true, false, not, Option, none,
  some, length, take, ltb, ◌==◌, if◌then◌else◌,
}
use pedrodb.Base.Ids.{contains, insert, erase}
use pedrodb.Platform.{Platform}
use pedrodb.Buffer.{ReadableBuffer, readable_bytes, array_buffer}
use pedrodb.Format.Metadata.{
  Header, LogEntry, LogType, unpack_header, header_bytes, unpack_log_entry, log_entry_bytes,
}
use pedrodb.File.{Faults}
use pedrodb.Status.{Status, ok, invalid_argument, io_error}

pub record Manager : Type 0 where
  pub path : List ℕ
  pub name : List ℕ
  pub files : List ℕ
  pub log : List ℕ

-- What one log entry does to `files_`: whatever is no creation is a deletion.
unfoldable pub apply : LogEntry → List ℕ → List ℕ
apply e files = elim e.log_type [
  | LogType.create_file ↦ insert e.id files
  | LogType.delete_file ↦ erase e.id files
  | LogType.other n ↦ erase e.id files
]

-- `std::string::npos`
abbrev npos : ℕ
npos = 2 ^ 64 - 1

-- `find_last_of(chars)`, for the rest of a string from `index` on.
find_last_of : List ℕ → List ℕ → ℕ → ℕ → ℕ
unfolding contains
find_last_of chars [] index found = found
find_last_of chars (c ∷ s) index found =
    find_last_of chars s (index + 1) (if contains c chars then index else found)

-- The test of the database's file name in `Init`: `path_.find_last_of(".db") != path_.size() - 1`.
unfoldable pub path_accepted : List ℕ → Bool
unfolding find_last_of
path_accepted path =
    find_last_of (b'.' ∷ b'd' ∷ b'b' ∷ []) path 0 npos == (length path + 2 ^ 64 - 1) % 2 ^ 64

-- `path_.substr(0, path_.size() - 3)`
unfoldable pub name_of : List ℕ → List ℕ
name_of path = take ((length path + 2 ^ 64 - 3) % 2 ^ 64) path

module _ ⦃p : Platform⦄ where
  -- The loop of `Recovery`. Every round takes five bytes, so the number of readable bytes is enough
  -- fuel.
  unfoldable pub replay_loop : ℕ → ReadableBuffer → List ℕ → Option (List ℕ)
  replay_loop zero b files = if readable_bytes b == 0 then some files else none
  replay_loop (suc fuel) b files =
      if readable_bytes b == 0 then some files else elim (unpack_log_entry b) [
        | none ↦ none
        | some (e, b') ↦ replay_loop fuel b' (apply e files)
      ]

  recover_files : Manager → Option (Header × ReadableBuffer) → Option (Status × Manager)
  recover_files m none = none
  recover_files m (some (h, b)) = elim (replay_loop (readable_bytes b) b m.files) [
    | none ↦ none
    | some files ↦ some (ok, record m { name = h.name; files = files })
  ]

  unfoldable pub recovery : Manager → Option (Status × Manager)
  unfolding recover_files
  recovery m = recover_files m (unpack_header (array_buffer m.log))

  unfoldable pub create_database : Manager → Status × Manager
  create_database m = (ok, record m { log = header_bytes (record { name = m.name }) })

  unfoldable pub init : Faults → Manager → Option (Status × Manager)
  init io m =
      if not (path_accepted m.path)
      then some (invalid_argument, m)
      else (let m' : Manager = record m { name = name_of m.path } in
          if io.open_fails
          then some (io_error, m')
          else if io.size_fails
          then some (io_error, m')
          else if not (length m.log == 0)
          then recovery m'
          else some (create_database m'))

  -- An entry is appended to the log; what `Sync` answers is the status.
  log_entry : Faults → LogEntry → Manager → Status × Manager
  log_entry io e m =
      (if io.sync_fails then io_error else ok, record m { log = m.log ++ log_entry_bytes e })

  unfoldable pub create_file : Faults → ℕ → Manager → Status × Manager
  unfolding log_entry
  create_file io id m =
      if contains id m.files
      then (ok, m)
      else log_entry io (record { log_type = LogType.create_file; id = id })
          (record m { files = insert id m.files })

  unfoldable pub delete_file : Faults → ℕ → Manager → Status × Manager
  unfolding log_entry
  delete_file io id m =
      if not (contains id m.files)
      then (ok, m)
      else log_entry io (record { log_type = LogType.delete_file; id = id })
          (record m { files = erase id m.files })
