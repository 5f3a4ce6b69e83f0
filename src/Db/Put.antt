-- ===== src/Db/Put.antt =====
-- `DBImpl::HandlePut`, which is `Put` and `Delete`.
pub mod Index
pub mod Storable
pub mod Accepted
pub mod Refines
pub mod Recoverable
use pedrodb.Base.{
  ℕ, ◌^◌, List, [], ◌∷◌, Bool, true, false, not, max, Option, none, some, ltb, if◌then◌else◌,
}
use pedrodb.Platform.{Platform}
use pedrodb.Format.Record.{EntryType, set, delete, Entry, size_of, checksum}
use pedrodb.Format.Record.Location.{Location, Dir}
use pedrodb.File.{Faults, max_file_bytes}
use pedrodb.FileManager.{FileManager, Run, done, crash, out_of_fuel, append}
use pedrodb.Index.{IndexMap}
use pedrodb.Status.{Status, ok, not_found, not_supported}
use pedrodb.Db.{Options, Db, update_unused}
use pedrodb.Db.View.{is_empty, compressed}

module _ ⦃p : Platform⦄ where
  -- The entry that `HandlePut` appends.
  unfoldable pub put_entry : Options → List ℕ → List ℕ → Entry
  put_entry options key value = record {
    checksum = checksum key (compressed options value);
    entry_type = if is_empty value then delete else set;
    key = key;
    value = compressed options value;
    timestamp = 0;
  }

module _ ⦃p : Platform⦄ ⦃t : IndexMap⦄ where
  -- An insertion, for a key that the index does not have.
  insert : Entry → Location → List ℕ → List ℕ → Db → Status × Db
  insert e loc key value db =
      if is_empty value then (not_found, update_unused loc (size_of e) db) else (
        ok,
        record db {
          indices = t.assign db.indices key (record { entry_size = size_of e; loc = loc });
        },
      )

  -- A replacement or a deletion.
  replace : Entry → Location → List ℕ → List ℕ → Dir → Db → Status × Db
  replace e loc key value dir db =
      let db1 = update_unused dir.loc dir.entry_size db in
      let db2 : Db = record db1 { indices = t.erase db1.indices key } in
      (
        ok,
        (if not (is_empty value)
            then record db2 {
              indices = t.assign db2.indices key (record { entry_size = size_of e; loc = loc });
            }
            else db2),
      )

  pub put_found : Entry → Location → List ℕ → List ℕ → Option Dir → Db → Status × Db
  put_found e loc key value none db = insert e loc key value db
  put_found e loc key value (some dir) db = replace e loc key value dir db

  -- What follows on a successful `Append`, under the lock. What `Sync` answers is ignored, and it
  -- changes nothing in the process.
  unfoldable pub put_index : Entry → Location → List ℕ → List ℕ → Db → Status × Db
  unfolding put_found insert replace
  put_index e loc key value db =
      put_found e loc key value (t.find db.indices key)
        (record db { max_file = max db.max_file loc.id })

  pub put_appended :
      Entry → List ℕ → List ℕ → Db → Run (Status × Location × FileManager) → Run (Status × Db)
  put_appended e key value db (done (ok, loc, files)) =
      done (put_index e loc key value (record db { files = files }))
  put_appended e key value db (done (status, loc, files)) =
      done (status, record db { files = files })
  put_appended e key value db crash = crash
  put_appended e key value db out_of_fuel = out_of_fuel

  unfoldable pub handle_put : Faults → List ℕ → List ℕ → Db → Run (Status × Db)
  unfolding put_appended
  handle_put io key value db =
      let e = put_entry db.options key value in
      if db.readonly
      then done (not_supported, db)
      else if ltb max_file_bytes (size_of e)
      then done (not_supported, db)
      else put_appended e key value db (append io 2 e db.files)

  -- `Put` and `Delete`
  unfoldable pub put : Faults → List ℕ → List ℕ → Db → Run (Status × Db)
  put = handle_put

  unfoldable pub delete_key : Faults → List ℕ → Db → Run (Status × Db)
  delete_key io key db = handle_put io key [] db
