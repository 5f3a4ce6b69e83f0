-- ===== src/Db/History.antt =====
-- Histories of a database: its calls, one after the other, as steps with the answers they give. The
-- environment chooses the calls, the bytes that the thread's buffer has, and whether a caller wants
-- the read cache.
pub mod Session
use pedrodb.Base.{
  ℕ, ◌+◌, ◌^◌, ◌<◌, ◌≡◌, ap, sym, ◌∙◌, arith, List, [], ◌∷◌, Bool, true, false, Option, none, some,
  length, ◌⊎◌, inl, inr,
}
use mathlib.Core.Path.{subst}
use pedrodb.Platform.{Platform}
use pedrodb.Buffer.{ReadableBuffer}
use pedrodb.Format.Record.{header_size}
use pedrodb.Format.Record.Location.{Dir}
use pedrodb.File.{Faults, faulty, max_file_bytes}
use pedrodb.FileManager.{Run, done}
use pedrodb.Index.{IndexMap}
use pedrodb.Status.{Status, ok, not_found, not_supported}
use pedrodb.Db.{Db}
use pedrodb.Db.View.{Contents, updated, compressed, Shows, IsReady}
use pedrodb.Db.Put.{handle_put}
use pedrodb.Db.Put.Index.{put_status}
use pedrodb.Db.Put.Refines.{Outcome, accepted, refused, failed, put_refines}
use pedrodb.Db.Get.{handle_get, directly_read}
use pedrodb.Db.Get.Refines.{Found, found, missing, get_refines, IsReady-with_caches}

-- A call and its answer. An empty value is a call of `Delete`.
pub data Call : Type 0 where
  put : (key value : List ℕ) → Status → Call
  get : (key : List ℕ) → Status → Option (List ℕ) → Call

abbrev pub get_status : {A : Type 0} → Option A → Status
get_status none = not_found
get_status (some v) = ok

-- The answers are those that a map gives: an update is made, or not supported, and a lookup finds
-- what the map has.
pub data IsServed : Contents → List Call → Contents → Type 0 where
  nothing : {s : Contents} → IsServed s [] s
  update :
      {s s' : Contents} {key value : List ℕ} {status : Status} {calls : List Call}
      → status ≡ put_status value (s key)
      → IsServed (updated s key value) calls s'
      → IsServed s (put key value status ∷ calls) s'
  refuse :
      {s s' : Contents} {key value : List ℕ} {status : Status} {calls : List Call}
      → status ≡ not_supported
      → IsServed s calls s'
      → IsServed s (put key value status ∷ calls) s'
  lookup :
      {s s' : Contents} {key : List ℕ} {status : Status} {answer : Option (List ℕ)}
      {calls : List Call}
      → answer ≡ s key
      → status ≡ get_status (s key)
      → IsServed s calls s'
      → IsServed s (get key status answer ∷ calls) s'

module _ ⦃p : Platform⦄ ⦃t : IndexMap⦄ where
  -- What a caller of `Put` keeps to, and that there is another file id.
  abbrev pub IsSmall : List ℕ → List ℕ → Db → Type 0
  IsSmall key value db =
      (length key < 2 ^ 8)
      × (header_size + length key + length (compressed db.options value) < 2 ^ 32)
      × (db.files.active_file_id + 1 < 2 ^ 32)

  -- An entry that is read directly does not reach the very end of its file.
  abbrev pub IsReadable : Bool → List ℕ → Db → Type 0
  IsReadable use_cache key db =
      (dir : Dir)
      → t.find db.indices key ≡ some dir
      → directly_read use_cache dir db ≡ true
      → dir.loc.offset + dir.entry_size < max_file_bytes

  -- A sequence of calls, in which no call of the system fails.
  pub data History : Db → List Call → Db → Type 0 where
    start : {db : Db} → History db [] db
    put_step :
        {db db1 db2 : Db} {calls : List Call} {status : Status} (io : Faults) (key value : List ℕ)
        → faulty io ≡ false
        → IsSmall key value db
        → handle_put io key value db ≡ done (status, db1)
        → History db1 calls db2
        → History db (put key value status ∷ calls) db2
    get_step :
        {db db1 db2 : Db} {calls : List Call} {status : Status} {answer : Option (List ℕ)}
        (io : Faults) (use_cache : Bool) (buffer : ReadableBuffer) (key : List ℕ)
        → faulty io ≡ false
        → db.files.active_file_id < 2 ^ 32
        → IsReadable use_cache key db
        → handle_get io use_cache buffer key db ≡ done (status, answer, db1)
        → History db1 calls db2
        → History db (get key status answer ∷ calls) db2

  -- What is known of the database at the end.
  pub record IsSound (db : Db) (s : Contents) : Type 0 where
    pub shows : Shows db s
    pub ready : IsReady db

  same_result :
      {a b : Status} {d d' : Db}
      → ◌≡◌ {A = Run (Status × Db)} (done (a, d)) (done (b, d'))
      → (a ≡ b) × (d ≡ d')
  same_result {a} {b} {d} {d'} h = let x : a ≡ b = cc in let y : d ≡ d' = cc in (x, y)

  -- What one `Put` gives.
  put_answer :
      (io : Faults) (key value : List ℕ) (db : Db) (s : Contents) (status : Status) (db1 : Db)
      → faulty io ≡ false
      → IsReady db
      → Shows db s
      → handle_put io key value db ≡ done (status, db1)
      → Outcome io key value db s
      → ((status ≡ put_status value (s key)) × IsSound db1 (updated s key value))
        ⊎ ((status ≡ not_supported) × IsSound db1 s)
  put_answer io key value db s status db1 works ready shows went (accepted db' is shows' ready') =
      let (e, f) = same_result (sym went ∙ is) in
      inl (
        e,
        subst (λ d. IsSound d (updated s key value)) (sym f)
            (record { shows = shows'; ready = ready' }),
      )
  put_answer io key value db s status db1 works ready shows went (refused is why) =
      let (e, f) = same_result (sym went ∙ is) in
      inr (e, subst (λ d. IsSound d s) (sym f) (record { shows = shows; ready = ready }))
  put_answer io key value db s status db1 works ready shows went
        (failed st db' is bad broken shows') =
      cc

  same_lookup :
      {a b : Status} {v w : Option (List ℕ)} {d d' : Db}
      → ◌≡◌ {A = Run (Status × Option (List ℕ) × Db)} (done (a, v, d)) (done (b, w, d'))
      → (a ≡ b) × (v ≡ w) × (d ≡ d')
  same_lookup {a} {b} {v} {w} {d} {d'} h =
      let x : a ≡ b = cc in let y : v ≡ w = cc in let z : d ≡ d' = cc in (x, y, z)

  -- What one `Get` gives.
  get_answer :
      (io : Faults) (use_cache : Bool) (buffer : ReadableBuffer) (key : List ℕ) (db : Db)
      (s : Contents) (status : Status) (answer : Option (List ℕ)) (db1 : Db)
      → IsReady db
      → Shows db s
      → handle_get io use_cache buffer key db ≡ done (status, answer, db1)
      → Found io use_cache buffer key db s
      → (answer ≡ s key) × (status ≡ get_status (s key)) × IsSound db1 s
  get_answer io use_cache buffer key db s status answer db1 ready shows went
        (found v handles cache is answered shows') =
      let (e, f, g) = same_lookup (sym went ∙ answered) in
      (
        f ∙ sym is,
        e ∙ ap get_status (sym is),
        subst (λ d. IsSound d s) (sym g)
            (record { shows = shows'; ready = IsReady-with_caches db handles cache ready }),
      )
  get_answer io use_cache buffer key db s status answer db1 ready shows went (missing is answered) =
      let (e, f, g) = same_lookup (sym went ∙ answered) in
      (
        f ∙ sym is,
        e ∙ ap get_status (sym is),
        subst (λ d. IsSound d s) (sym g) (record { shows = shows; ready = ready }),
      )

  -- In a history of calls of `Put`, `Delete` and `Get` in which no call of the system fails, from a
  -- database that stands for a map and can append, each answer is the one that the map gives at that
  -- moment: an update is made and answered by whether the key was there, or it is not supported and
  -- nothing changes; a lookup answers what the map has. At the end the database stands for the map
  -- that results, and can append. The calls keep to the limits on keys, values and file ids, and no
  -- direct read is of an entry at the very end of a file.
  pub history-IsServed :
      {db db' : Db} {calls : List Call} (s : Contents)
      → IsSound db s
      → History db calls db'
      → (s' : Contents) × IsServed s calls s' × IsSound db' s'
  history-IsServed s sound start = (s, nothing, sound)
  history-IsServed s sound
        (put_step {db} {db1} {db2} {calls} {status} io key value works (a, b, c) went rest) =
      elim (put_answer io key value db s status db1 works sound.ready sound.shows went
        (put_refines io key value db s sound.shows sound.ready a b c)) [
          | inl (e, after) ↦
              let (s', served, last) = history-IsServed (updated s key value) after rest in
              (s', update e served, last)
          | inr (e, after) ↦
              let (s', served, last) = history-IsServed s after rest in (s', refuse e served, last)
        ]
  history-IsServed s sound
        (get_step {db} {db1} {db2} {calls} {status} {answer} io use_cache buffer key works small
          fits went rest) =
      let (e, f, after) =
        get_answer io use_cache buffer key db s status answer db1 sound.ready sound.shows went (
          get_refines io use_cache buffer key db s sound.shows (ground arith) (ground arith) small
            fits) in
      let (s', served, last) = history-IsServed s after rest in (s', lookup e f served, last)
