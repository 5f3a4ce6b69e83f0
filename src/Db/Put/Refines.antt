-- ===== src/Db/Put/Refines.antt =====
-- `HandlePut` as the update of a map.
use pedrodb.Base.{
  ℕ, ◌+◌, ◌^◌, ◌<◌, ◌≡◌, ◌≢◌, refl, ap, sym, ◌∙◌, arith, List, true, false, length, ◌⊎◌, inl, inr,
  Bool-cases, ltb, ltb→lt, ltb→le,
}
use pedrodb.Platform.{Platform}
use pedrodb.Format.Record.{Entry, size_of, header_size}
use pedrodb.Format.Record.Location.{Location}
use pedrodb.File.{faulty, Faults, max_file_bytes}
use pedrodb.FileManager.{FileManager, done, append}
use pedrodb.FileManager.Promise.{Refused}
use pedrodb.FileManager.Total.{Result, append_total}
use pedrodb.Index.{IndexMap}
use pedrodb.Status.{Status, ok, not_supported}
use pedrodb.Db.{Db}
use pedrodb.Db.View.{Contents, updated, compressed, Shows, IsReady}
use pedrodb.Db.Put.{put_entry, put_index, handle_put, put_appended}
use pedrodb.Db.Put.Index.{put_status}
use pedrodb.Db.Kept.{HasValue-kept, Every-IsFresh}
use pedrodb.Db.Put.Storable.{put_entry-IsStorable}
use pedrodb.Db.Put.Accepted.{result-Shows, result-IsReady, result-answer}

module _ ⦃p : Platform⦄ ⦃t : IndexMap⦄ where
  -- What a call of `HandlePut` leads to.
  pub data Outcome (io : Faults) (key value : List ℕ) (db : Db) (s : Contents) : Type 0 where
    accepted :
        (db' : Db)
        → handle_put io key value db ≡ done (put_status value (s key), db')
        → Shows db' (updated s key value)
        → IsReady db'
        → Outcome io key value db s
    refused :
        handle_put io key value db ≡ done (not_supported, db)
        → (db.readonly ≡ true) ⊎ (max_file_bytes < size_of (put_entry db.options key value))
        → Outcome io key value db s
    failed :
        (status : Status) (db' : Db)
        → handle_put io key value db ≡ done (status, db')
        → status ≢ ok
        → faulty io ≡ true
        → Shows db' s
        → Outcome io key value db s

  Shows-Refused :
      (db : Db) (s : Contents) (m' : FileManager)
      → Shows db s
      → Refused db.files m'
      → Shows (record db { files = m' }) s
  Shows-Refused db s m' shows r = record {
    present = λ k v h.
        HasValue-kept db _ k v (λ l x st sx. r.kept l x st) refl refl (shows.present k v h);
    absent = shows.absent;
    handles = rw r.handles shows.handles;
    active = record {
      file = shows.active.file;
      is = r.same_file ∙ shows.active.is;
      same_file = shows.active.same_file ∙ sym r.same_id;
      whole = shows.active.whole;
    };
    cached = record {
      newest = shows.cached.newest ∙ sym r.same_id;
      fresh =
          Every-IsFresh db.files m' db.read_cache (omega (arith, r.same_id))
            (λ i h. r.others i (omega arith)) shows.cached.fresh;
      segments = shows.cached.segments;
    };
  }

  pub handle_put_writes :
      (io : Faults) (key value : List ℕ) (db : Db)
      → db.readonly ≡ false
      → ltb max_file_bytes (size_of (put_entry db.options key value)) ≡ false
      → handle_put io key value db ≡ (
          let e = put_entry db.options key value in
          put_appended e key value db (append io 2 e db.files))
  unfolding handle_put
  handle_put_writes io key value db writable short = simp (writable, short)

  pub handle_put_long :
      (io : Faults) (key value : List ℕ) (db : Db)
      → ltb max_file_bytes (size_of (put_entry db.options key value)) ≡ true
      → handle_put io key value db ≡ done (not_supported, db)
  unfolding handle_put
  handle_put_long io key value db long = rw long (ground arith)

  pub handle_put_readonly :
      (io : Faults) (key value : List ℕ) (db : Db)
      → db.readonly ≡ true
      → handle_put io key value db ≡ done (not_supported, db)
  unfolding handle_put
  handle_put_readonly io key value db ro = simp ro

  put_appended_failed :
      (e : Entry) (key value : List ℕ) (db : Db) (status : Status) (loc : Location)
      (m' : FileManager)
      → status ≢ ok
      → put_appended e key value db (done (status, loc, m'))
        ≡ done (status, record db { files = m' })
  unfolding put_appended
  put_appended_failed e key value db ok loc m' bad = absurd (bad refl)
  put_appended_failed e key value db _ loc m' bad = refl

  -- `HandlePut` always returns. For a key of less than 256 bytes and a key and stored value that
  -- together stay below 4 GiB, on a database that stands for a map and can append, and whose next file
  -- id is a 32-bit integer, there are three outcomes. It is accepted: the answer is kOk, or kNotFound for the deletion of an absent key, and
  -- the database stands for the map with the key updated, and can append. It is refused with
  -- kNotSupported, since the database is read-only or the entry is longer than a file, and nothing
  -- has changed. Or a call of the system failed, the answer is an error, and the database stands for
  -- the same map.
  pub put_refines :
      (io : Faults) (key value : List ℕ) (db : Db) (s : Contents)
      → Shows db s
      → IsReady db
      → length key < 2 ^ 8
      → header_size + length key + length (compressed db.options value) < 2 ^ 32
      → db.files.active_file_id + 1 < 2 ^ 32
      → Outcome io key value db s
  unfolding put_appended
  put_refines io key value db s shows ready small fits room =
      let e = put_entry db.options key value in
      let st = put_entry-IsStorable db.options key value small fits in
      elim (Bool-cases db.readonly) [
        | inl ro ↦ refused (handle_put_readonly io key value db ro) (inl ro)
        | inr writable ↦ elim (Bool-cases (ltb max_file_bytes (size_of e))) [
          | inl long ↦ refused (handle_put_long io key value db long) (inr (ltb→lt _ _ long))
          | inr short ↦
              let start = handle_put_writes io key value db writable short in
              elim (append_total io db.files e ready.consistent st (ltb→le _ _ short) room
                (ready.fresh _ (omega arith))) [
                  | Result.stored loc m' went a ↦
                      let r = put_index e loc key value (record db { files = m' }) in
                      accepted r.1
                        (start
                          ∙ ap (put_appended e key value db) went
                          ∙ ap (λ x. done (x, r.1))
                              (result-answer db s shows key value loc m' a st (s key) refl))
                        (result-Shows db s shows key value loc m' a st)
                        (result-IsReady db s shows key value loc m' a st ready)
                  | Result.refused status m' went bad r broken ↦
                      failed status (record db { files = m' })
                        (start
                          ∙ ap (put_appended e key value db) went
                          ∙ put_appended_failed e key value db status _ m' bad)
                        bad broken (Shows-Refused db s m' shows r)
                ]
        ]
      ]
