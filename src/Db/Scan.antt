-- ===== src/Db/Scan.antt =====
-- The iterator of `DBImpl::GetIterator`, over the entries of a copy of the index, in the order of the
-- third-party map. The thread's buffer is part of its state.
pub mod Total
use pedrodb.Base.{
  ◌≡◌, ◌<◌, refl, ap, ◌∙◌, arith, List, [], ◌∷◌, Bool, true, false, Option, none, some, All,
}
use mathlib.Core.Path.{ap₂}
use pedrodb.Base.Bytes.{Holds}
use pedrodb.Platform.{Platform}
use pedrodb.Buffer.{ReadableBuffer}
use pedrodb.Format.Record.{Entry, size_of, validate}
use pedrodb.Format.Record.Location.{Dir}
use pedrodb.Format.Record.Pack.{entry_bytes}
use pedrodb.Format.Record.RoundTrip.{IsStorable}
use pedrodb.File.{Faults, max_file_bytes}
use pedrodb.FileManager.{
  FileManager, ReadableFile, Run, done, crash, out_of_fuel, acquire_data_file,
}
use pedrodb.FileManager.Acquire.{IsHandle, HasActive, acquire_data_file-IsAcquired}
use pedrodb.Iterator.{RecordIterator, open_iterator, valid, no_entry}
use pedrodb.Iterator.Step.{valid-entry, after}
use pedrodb.Status.{Status, ok}

pub record EntryIterator : Type 0 where
  pub dirs : List Dir
  pub next : Entry
  pub buffer : ReadableBuffer

-- `GetIterator`, on the entries of the index.
unfoldable pub get_iterator : List Dir → ReadableBuffer → EntryIterator
get_iterator dirs buffer = record { dirs = dirs; next = no_entry; buffer = buffer }

module _ ⦃p : Platform⦄ where
  -- The entry that was read, if one was and its checksum fits.
  accept : List Dir → Entry → Bool × RecordIterator → Bool × EntryIterator
  accept dirs e (false, it) = (false, record { dirs = dirs; next = e; buffer = it.buffer })
  accept dirs e (true, it) =
      (validate it.entry, record { dirs = dirs; next = it.entry; buffer = it.buffer })

  -- A round of the loop of `Valid`; a null file is dereferenced.
  try_file :
      List Dir
      → EntryIterator
      → Status × Option ReadableFile × FileManager
      → Run (Bool × EntryIterator × FileManager)
  try_file dirs it (ok, some file, m) =
      let (found, it') =
        accept dirs it.next
          (valid (m.data_files file.file).bytes (open_iterator file.size it.buffer)) in
      done (found, it', m)
  try_file dirs it (ok, none, m) = crash
  try_file dirs it (status, file, m) = done (false, record it { dirs = dirs }, m)

  -- `Valid`, for the entries of the index that are left.
  unfoldable pub scan :
      Faults → List Dir → EntryIterator → FileManager → Run (Bool × EntryIterator × FileManager)
  unfolding try_file accept
  scan io [] it m = done (false, record it { dirs = [] }, m)
  scan io (dir ∷ dirs) it m = elim (try_file dirs it (acquire_data_file io dir.loc.id m)) [
    | done (true, it', m') ↦ done (true, it', m')
    | done (false, it', m') ↦ scan io dirs it' m'
    | crash ↦ crash
    | out_of_fuel ↦ out_of_fuel
  ]

  unfoldable pub is_valid :
      Faults → EntryIterator → FileManager → Run (Bool × EntryIterator × FileManager)
  is_valid io it m = scan io it.dirs it m

  -- What `Valid` answers: an entry.
  pub record IsFound (e : Entry) (dirs : List Dir) (r : Run (Bool × EntryIterator × FileManager))
      : Type 0 where
    pub it : EntryIterator
    pub files : FileManager
    pub went : r ≡ done (true, it, files)
    pub next_is : it.next ≡ e
    pub rest : it.dirs ≡ dirs

  -- Where the file that the index has for the next key can be opened, is whole and starts with a
  -- storable entry whose checksum fits and that does not reach the end of the file, `Valid` answers
  -- true and that first entry of the file, wherever in the file the entry of the key stands.
  pub is_valid-first_entry :
      (io : Faults) (m : FileManager) (dir : Dir) (dirs : List Dir) (buffer : ReadableBuffer)
      (e : Entry)
      → io.open_fails ≡ false
      → io.size_fails ≡ false
      → (m.data_files dir.loc.id).exists ≡ true
      → (m.data_files dir.loc.id).length ≡ max_file_bytes
      → HasActive m
      → All IsHandle m.open_files.entries
      → IsStorable e
      → Holds (m.data_files dir.loc.id).bytes 0 (entry_bytes e)
      → size_of e < max_file_bytes
      → validate e ≡ true
      → IsFound e dirs (is_valid io (get_iterator (dir ∷ dirs) buffer) m)
  unfolding is_valid scan get_iterator try_file accept open_iterator
  is_valid-first_entry io m dir dirs buffer e opens sized exists whole active handles s holds inside
        checks =
      let a =
        acquire_data_file-IsAcquired io dir.loc.id m opens sized exists whole active handles in
      let m' : FileManager = record m { open_files = a.cache } in
      let it = open_iterator max_file_bytes buffer in
      let read = valid-entry (m.data_files dir.loc.id).bytes it e s refl holds (omega arith) in
      let start = get_iterator (dir ∷ dirs) buffer in
      let round : try_file dirs start (acquire_data_file io dir.loc.id m)
          ≡ done (true, record { dirs = dirs; next = e; buffer = (after it e).buffer }, m') =
        ap (try_file dirs start) a.answer
        ∙ ap₂ (λ i n. try_file dirs start (ok, some (record { file = i; size = n }), m')) a.handle.0
            a.handle.1
        ∙ ap (λ r. (let x = accept dirs no_entry r in done (x.0, x.1, m'))) read
        ∙ ap (λ b. done (b, record { dirs = dirs; next = e; buffer = (after it e).buffer }, m'))
            checks in
      record {
        it = record { dirs = dirs; next = e; buffer = (after it e).buffer };
        files = m';
        went = rw (round, scan) refl;
        next_is = refl;
        rest = refl;
      }
