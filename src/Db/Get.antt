-- ===== src/Db/Get.antt =====
-- `DBImpl::HandleGet`, which is `Get`: the data file is read directly if the read cache is off for
-- the database or the call, or if the entry is in the newest file; else through the read cache.
pub mod Direct
pub mod Cached
pub mod Refines
use pedrodb.Base.{ℕ, List, Bool, true, false, not, ◌||◌, ◌==◌, Option, none, some, if◌then◌else◌}
use pedrodb.Platform.{Platform}
use pedrodb.Buffer.{ReadableBuffer}
use pedrodb.Format.Record.{Entry, validate}
use pedrodb.Format.Record.Location.{Dir}
use pedrodb.File.{Faults}
use pedrodb.FileManager.{
  FileManager, ReadableFile, Run, done, crash, out_of_fuel, acquire_data_file,
}
use pedrodb.Index.{IndexMap}
use pedrodb.Iterator.{RecordIterator, open_iterator, seek, valid, next}
use pedrodb.ReadCache
use pedrodb.ReadCache.{ReadCache, Got, new_context}
use pedrodb.Status.{Status, ok, not_found, corruption}
use pedrodb.Db.{Options, Db}

module _ ⦃p : Platform⦄ where
  abbrev pub uncompressed : Options → List ℕ → List ℕ
  uncompressed options value = if options.compress_value then p.uncompress value else value

  pub get_entry : Options → Entry → Status × Option (List ℕ)
  get_entry options e =
      if not (validate e) then (corruption, none) else (ok, some (uncompressed options e.value))

  pub get_valid : Options → Bool × RecordIterator → Status × Option (List ℕ)
  get_valid options (false, it) = (corruption, none)
  get_valid options (true, it) = get_entry options (next it).0

  -- The record iterator on the file; a null file is dereferenced.
  pub get_from :
      Options
      → Dir
      → ReadableBuffer
      → Status × Option ReadableFile × FileManager
      → Run (Status × Option (List ℕ) × FileManager)
  get_from options dir buffer (ok, some file, files) =
      let it = seek dir.loc.offset (open_iterator file.size buffer) in
      let (status, value) = get_valid options (valid (files.data_files file.file).bytes it) in
      done (status, value, files)
  get_from options dir buffer (ok, none, files) = crash
  get_from options dir buffer (status, file, files) = done (status, none, files)

  -- What follows on the read through the cache.
  pub get_cached : Options → Run Got → Run (Status × Option (List ℕ) × FileManager × ReadCache)
  get_cached options (done (ok, context, files, cache)) =
      let (status, value) = get_entry options context.entry in done (status, value, files, cache)
  get_cached options (done (status, context, files, cache)) = done (status, none, files, cache)
  get_cached options crash = crash
  get_cached options out_of_fuel = out_of_fuel

module _ ⦃p : Platform⦄ ⦃t : IndexMap⦄ where
  abbrev pub Answer : Type 0
  Answer = Run (Status × Option (List ℕ) × Db)

  pub with_files : Db → Run (Status × Option (List ℕ) × FileManager) → Answer
  with_files db (done (status, value, files)) = done (status, value, record db { files = files })
  with_files db crash = crash
  with_files db out_of_fuel = out_of_fuel

  pub with_cache : Db → Run (Status × Option (List ℕ) × FileManager × ReadCache) → Answer
  with_cache db (done (status, value, files, cache)) =
      done (status, value, record db { files = files; read_cache = cache })
  with_cache db crash = crash
  with_cache db out_of_fuel = out_of_fuel

  abbrev pub directly_read : Bool → Dir → Db → Bool
  directly_read use_cache dir db =
      (not use_cache || not db.options.read_cache) || dir.loc.id == db.max_file

  pub get_found : Faults → Bool → ReadableBuffer → Option Dir → Db → Answer
  get_found io use_cache buffer none db = done (not_found, none, db)
  get_found io use_cache buffer (some dir) db =
      if directly_read use_cache dir db
      then with_files db (get_from db.options dir buffer (acquire_data_file io dir.loc.id db.files))
      else with_cache db (
          get_cached db.options
            (ReadCache.get io (new_context dir.loc dir.entry_size) db.files db.read_cache))

  -- `HandleGet`, for `options.use_read_cache` and the thread's buffer.
  unfoldable pub handle_get : Faults → Bool → ReadableBuffer → List ℕ → Db → Answer
  unfolding get_found with_files with_cache get_from get_cached get_valid get_entry
  handle_get io use_cache buffer key db = get_found io use_cache buffer (t.find db.indices key) db

  -- `Get`
  unfoldable pub get : Faults → Bool → ReadableBuffer → List ℕ → Db → Answer
  get = handle_get
