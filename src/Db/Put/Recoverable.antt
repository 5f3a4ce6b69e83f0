-- ===== src/Db/Put/Recoverable.antt =====
-- Calls keep a database such that a later process can recover it.
use pedrodb.Base.{
  ℕ, ◌+◌, ◌<◌, ◌^◌, ◌≡◌, refl, ap, sym, ◌∙◌, arith, List, length, Bool, true, false, none, some,
  if◌then◌else◌, ◌===◌, Bool-cases, inl, inr, ltb, ltb→le,
}
use mathlib.Core.Path.{subst}
use pedrodb.Platform.{Platform}
use pedrodb.Format.Record.{Entry, size_of, header_size}
use pedrodb.Format.Record.Location.{Location}
use pedrodb.File.{faulty, Faults, MappedFile, max_file_bytes}
use pedrodb.FileManager.{FileManager, Run, done, index_of}
use pedrodb.FileManager.Durable.Append.{append-IsDurable, grown_log}
use pedrodb.FileManager.Promise.{Appended}
use pedrodb.FileManager.Total.{Result, append_total}
use pedrodb.Index.{IndexMap}
use pedrodb.Status.{Status}
use pedrodb.Db.{Db}
use pedrodb.Db.View.{is_empty, compressed, IsReady}
use pedrodb.Db.Put.{put_entry, put_index, handle_put, put_appended}
use pedrodb.Db.Put.Index.{PutEffect, put_index_effect, new_dir}
use pedrodb.Db.Put.Refines.{handle_put_writes, handle_put_long, handle_put_readonly}
use pedrodb.Db.Put.Storable.{put_entry-IsStorable}
use pedrodb.Db.Recovery.Entries.{dir_of}
use pedrodb.Db.Recovery.Replay.{replayed, replayed_grown}
use pedrodb.Db.Restart.{IsRecoverable}

module _ ⦃p : Platform⦄ ⦃t : IndexMap⦄ where
  module _ (io : Faults) (key value : List ℕ) (db : Db) (r : IsRecoverable db) (loc : Location)
      (m' : FileManager)
      (a : Appended io r.durable.consistent.entries db.files
        (put_entry db.options key value)
        loc
        m')
      (small : db.files.active_file_id + 1 < 2 ^ 32)
      (room : (f : MappedFile)
        → m'.active_data_file ≡ some f
        → f.write_index < max_file_bytes) where
    abbrev entry : Entry
    entry = put_entry db.options key value

    abbrev result : Status × Db
    result = put_index entry loc key value (record db { files = m' })

    effect : PutEffect entry loc key value (record db { files = m' }) result
    effect = put_index_effect entry loc key value (record db { files = m' })

    -- The index has what the new entry says.
    entry_dir :
        (empty : Bool)
        → is_empty value ≡ empty
        → (if empty then none else some (new_dir entry loc))
          ≡ dir_of loc.id (index_of loc.offset entry)
    unfolding put_entry
    entry_dir true is = rw is refl
    entry_dir false is = rw is refl

    put_index-replayed :
        (j : List ℕ)
        → t.find result.1.indices j
          ≡ replayed (grown_log io db.files r.durable entry loc m' a) m'.metadata.files j none
    unfolding put_entry
    put_index-replayed j =
        effect.index j
        ∙ ap (λ x. if key === j then x else t.find db.indices j) (entry_dir (is_empty value) refl)
        ∙ ap (λ x. if key === j then dir_of loc.id (index_of loc.offset entry) else x) (r.index j)
        ∙ sym (replayed_grown io db.files r.durable entry loc m' a small j)

    put_index-IsRecoverable : IsRecoverable result.1
    put_index-IsRecoverable =
        let (d, log) = append-IsDurable io db.files r.durable entry loc m' a small room in
        subst IsRecoverable
          (ap (λ (f : FileManager). record result.1 { files = f }) (sym effect.files))
          (record {
            durable = d;
            index =
                λ j. put_index-replayed j ∙ ap (λ l. replayed l m'.metadata.files j none) (sym log);
          })

  same_end :
      {a b : Status} {d d' : Db} → ◌≡◌ {A = Run (Status × Db)} (done (a, d)) (done (b, d')) → d ≡ d'
  same_end h = cc

  -- Where no call of the system fails, `HandlePut` of a key of less than 256 bytes and a stored value
  -- that together stay below 4 GiB keeps a database that can append, and whose next file id is a
  -- 32-bit integer, recoverable, unless it fills the active file to its last byte.
  pub put-IsRecoverable :
      (io : Faults) (key value : List ℕ) (db db1 : Db) (status : Status)
      → IsRecoverable db
      → IsReady db
      → faulty io ≡ false
      → length key < 2 ^ 8
      → header_size + length key + length (compressed db.options value) < 2 ^ 32
      → db.files.active_file_id + 1 < 2 ^ 32
      → handle_put io key value db ≡ done (status, db1)
      → ((f : MappedFile) → db1.files.active_data_file ≡ some f → f.write_index < max_file_bytes)
      → IsRecoverable db1
  unfolding put_appended
  put-IsRecoverable io key value db db1 status r ready works small fits room went ends =
      let e = put_entry db.options key value in
      elim (Bool-cases db.readonly) [
        | inl ro ↦
            subst IsRecoverable (same_end (sym (handle_put_readonly io key value db ro) ∙ went)) r
        | inr writable ↦ elim (Bool-cases (ltb max_file_bytes (size_of e))) [
          | inl long ↦
              subst IsRecoverable (same_end (sym (handle_put_long io key value db long) ∙ went)) r
          | inr short ↦
              let start = handle_put_writes io key value db writable short in
              elim (append_total io db.files e r.durable.consistent
                (put_entry-IsStorable db.options key value small fits) (ltb→le _ _ short) room
                (ready.fresh _ (omega arith))) [
                  | Result.stored loc m' appended a ↦
                      let same : (put_index e loc key value (record db { files = m' })).1 ≡ db1 =
                        same_end (sym (start ∙ ap (put_appended e key value db) appended) ∙ went) in
                      let files : (put_index e loc key value (record db { files = m' })).1.files
                          ≡ m' =
                        (put_index_effect e loc key value (record db { files = m' })).files in
                      subst IsRecoverable same (
                        put_index-IsRecoverable io key value db r loc m' a room (λ f is. ends f (
                          ap (λ x. x.files.active_data_file) (sym same)
                          ∙ ap (λ x. x.active_data_file) files
                          ∙ is)))
                  | Result.refused status' m' appended bad lost broken ↦ cc
                ]
        ]
      ]
