-- ===== src/Metadata/Recovery.antt =====
-- The log of the database file, and the set of data files that it stands for.
use pedrodb.Base.{
  ℕ, ◌<◌, ◌^◌, ◌≡◌, refl, arith, List, [], ◌∷◌, ◌++◌, length, length-append, some, All, All-append,
  Bool-cases, inl, inr, append_assoc, append-nil, ap, ◌∙◌, sym,
}
use pedrodb.Base.Bytes.{Holds-append_left, Holds-append_right, Holds-of_list}
use pedrodb.Base.Ids.{contains, IsAscending, insert-IsAscending, erase-IsAscending}
use pedrodb.Buffer.Readable.{readable_bytes-array_buffer, readable_bytes-retrieve}
use pedrodb.Platform.{Platform}
use pedrodb.Buffer.{array_buffer, readable_bytes, retrieve}
use pedrodb.Format.Metadata.{
  Header, unpack_header, LogEntry, LogType, log_entry_bytes, header_bytes, header_size,
}
use pedrodb.Format.Metadata.RoundTrip.{IsStorable, unpack_name-Holds}
use pedrodb.File.{Faults}
use pedrodb.Status.{ok}
use pedrodb.Metadata.{
  Manager, apply, recover_files, recovery, create_database, create_file, delete_file,
}
use pedrodb.Metadata.Replay.{
  apply_all, apply_all-append, log_bytes, log_bytes-append, replay_loop-log_bytes,
}

module _ ⦃p : Platform⦄ where
  -- The log is the header and the entries that built the set.
  pub record IsLogged (m : Manager) : Type 0 where
    pub entries : List LogEntry
    pub storable : All IsStorable entries
    pub name_fits : length m.name < 2 ^ 16
    pub log_is : m.log ≡ header_bytes (record { name = m.name }) ++ log_bytes entries
    pub files_are : m.files ≡ apply_all entries []
    pub ascending : IsAscending m.files

  -- A new database without files, named with less than 64 KiB, is logged.
  pub create_database-IsLogged :
      (m : Manager) → length m.name < 2 ^ 16 → m.files ≡ [] → IsLogged (create_database m).1
  unfolding create_database
  create_database-IsLogged m small unused = record {
    entries = [];
    storable = tt;
    name_fits = small;
    log_is = unfold log_bytes in sym (append-nil _);
    files_are = unfold apply_all in unused;
    ascending = rw unused tt;
  }

  IsLogged-entry :
      (m m' : Manager) (e : LogEntry)
      → IsLogged m
      → IsStorable e
      → m'.name ≡ m.name
      → m'.log ≡ m.log ++ log_entry_bytes e
      → m'.files ≡ apply e m.files
      → IsAscending m'.files
      → IsLogged m'
  IsLogged-entry m m' e w s same log files asc = record {
    entries = w.entries ++ (e ∷ []);
    storable = All-append IsStorable w.entries (e ∷ []) w.storable (s, tt);
    name_fits = rw same w.name_fits;
    log_is =
        rw (log, same, w.log_is, log_bytes-append)
          (append_assoc (header_bytes (record { name = m.name })) (log_bytes w.entries)
            (log_entry_bytes e));
    files_are = rw (files, w.files_are, apply_all-append);
    ascending = asc;
  }

  -- Creating a file with a 32-bit id keeps the manager logged, whether or not the id is new and
  -- whether or not the disk reports an error.
  pub create_file-IsLogged :
      (io : Faults) (id : ℕ) (m : Manager)
      → IsLogged m
      → id < 2 ^ 32
      → IsLogged (create_file io id m).1
  unfolding create_file
  create_file-IsLogged io id m w small = elim (Bool-cases (contains id m.files)) [
    | inl old ↦ rw old w
    | inr new ↦ rw new (
        IsLogged-entry m _ (record { log_type = LogType.create_file; id = id }) w
          (record { written = tt; id_fits = small }) refl refl (unfold apply in refl)
          (insert-IsAscending id m.files w.ascending))
  ]

  -- Deleting a file with a 32-bit id keeps the manager logged, whether or not the id is there and
  -- whether or not the disk reports an error.
  pub delete_file-IsLogged :
      (io : Faults) (id : ℕ) (m : Manager)
      → IsLogged m
      → id < 2 ^ 32
      → IsLogged (delete_file io id m).1
  unfolding delete_file
  delete_file-IsLogged io id m w small = elim (Bool-cases (contains id m.files)) [
    | inl old ↦ rw old (
        IsLogged-entry m _ (record { log_type = LogType.delete_file; id = id }) w
          (record { written = tt; id_fits = small }) refl refl (unfold apply in refl)
          (erase-IsAscending id m.files w.ascending))
    | inr new ↦ rw new w
  ]

  pub length-header_bytes : (h : Header) → length (header_bytes h) ≡ header_size (length h.name)
  unfolding header_bytes
  length-header_bytes h = simp (length-append, p.length-append_int)

  recover_packed :
      (fresh : Manager) (name : List ℕ) (es : List LogEntry)
      → All IsStorable es
      → length name < 2 ^ 16
      → recover_files fresh
          (unpack_header (array_buffer (header_bytes (record { name = name }) ++ log_bytes es)))
        ≡ some (ok, record fresh { name = name; files = apply_all es fresh.files })
  unfolding recovery
  recover_packed fresh name es s small =
      let head : List ℕ = header_bytes (record { name = name }) in
      let size = length-append head (log_bytes es) in
      let head_size = length-header_bytes (record { name = name }) in
      let at = Holds-of_list (head ++ log_bytes es) in
      let body = retrieve (array_buffer (head ++ log_bytes es)) (header_size (length name)) in
      let readable = readable_bytes-array_buffer (head ++ log_bytes es) in
      let left =
        readable_bytes-retrieve (array_buffer (head ++ log_bytes es)) (header_size (length name))
          (omega arith) in
      rw (
        unpack_name-Holds (record { name = name }) (array_buffer (head ++ log_bytes es)) small
            (omega arith) (Holds-append_left _ _ head _ at),
        recover_files,
        replay_loop-log_bytes es (readable_bytes body) body fresh.files s
            (rw head_size at (Holds-append_right _ _ head (log_bytes es) at)) (omega arith)
            (omega arith),
      )

  -- For a logged manager, `Recovery` of a manager that has the same log and no files ends with kOk,
  -- with the name, the files and the log of the first one.
  pub recovery-IsLogged :
      (m fresh : Manager)
      → IsLogged m
      → fresh.log ≡ m.log
      → fresh.files ≡ []
      → recovery fresh ≡ some (ok, record m { path = fresh.path })
  unfolding recovery
  recovery-IsLogged m fresh w same unused =
      ap (λ log. recover_files fresh (unpack_header (array_buffer log))) (same ∙ w.log_is)
      ∙ recover_packed fresh m.name w.entries w.storable w.name_fits
      ∙ ground (arith, w.files_are, same, ap (λ l. apply_all w.entries l) unused)
