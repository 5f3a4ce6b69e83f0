-- ===== src/Db/History/Session.antt =====
-- Histories across processes: the calls of a database, the tasks that its executor runs, and starts
-- of a new process on the files that the last one left, at any moment between two of them.
use pedrodb.Base.{
  ℕ, ◌<◌, ◌^◌, ◌≡◌, sym, ◌∙◌, arith, List, [], ◌∷◌, Bool, true, false, Option, some, inl, inr,
}
use mathlib.Core.Path.{subst}
use pedrodb.Platform.{Platform}
use pedrodb.Buffer.{ReadableBuffer}
use pedrodb.File.{Faults, faulty, MappedFile, max_file_bytes}
use pedrodb.FileManager.{Task, done}
use pedrodb.Index.{IndexMap}
use pedrodb.Metadata.{path_accepted}
use pedrodb.Status.{Status}
use pedrodb.Db.{Db}
use pedrodb.Db.View.{Contents, updated}
use pedrodb.Db.Put.{handle_put}
use pedrodb.Db.Put.Recoverable.{put-IsRecoverable}
use pedrodb.Db.Put.Refines.{put_refines}
use pedrodb.Db.Get.{handle_get}
use pedrodb.Db.Get.Refines.{Found, found, missing, get_refines}
use pedrodb.Db.Open.{init}
use pedrodb.Db.Restart.{IsRecoverable, IsStarted, restarted}
use pedrodb.Db.Restart.Init.{restarted-IsStarted}
use pedrodb.Db.Restart.Keeps.{
  IsRecoverable-with_caches, run_next, run_next-Shows, run_next-IsReady, run_next-IsRecoverable,
}
use pedrodb.Db.History.{
  Call, put, get, IsServed, nothing, update, refuse, lookup, IsSmall, IsReadable, IsSound,
  put_answer, get_answer, same_lookup,
}

module _ ⦃p : Platform⦄ ⦃t : IndexMap⦄ where
  -- No file is filled to its last byte.
  abbrev pub HasRoom : Db → Type 0
  HasRoom db =
      (f : MappedFile) → db.files.active_data_file ≡ some f → f.write_index < max_file_bytes

  -- A sequence of calls, with what happens between them, in which no call of the system fails.
  pub data Session : Db → List Call → Db → Type 0 where
    start : {db : Db} → Session db [] db
    put_step :
        {db db1 db2 : Db} {calls : List Call} {status : Status} (io : Faults) (key value : List ℕ)
        → faulty io ≡ false
        → IsSmall key value db
        → handle_put io key value db ≡ done (status, db1)
        → HasRoom db1
        → Session db1 calls db2
        → Session db (put key value status ∷ calls) db2
    get_step :
        {db db1 db2 : Db} {calls : List Call} {status : Status} {answer : Option (List ℕ)}
        (io : Faults) (use_cache : Bool) (buffer : ReadableBuffer) (key : List ℕ)
        → faulty io ≡ false
        → db.files.active_file_id < 2 ^ 32
        → IsReadable use_cache key db
        → handle_get io use_cache buffer key db ≡ done (status, answer, db1)
        → Session db1 calls db2
        → Session db (get key status answer ∷ calls) db2
    task_step :
        {db db2 : Db} {calls : List Call} (io : Faults) (task : Task) (rest : List Task)
        → faulty io ≡ false
        → db.files.tasks ≡ task ∷ rest
        → Session (run_next io task rest db) calls db2
        → Session db calls db2
    restart_step :
        {db db1 db2 : Db} {calls : List Call} {status : Status} (io : Faults)
        (buffers : ℕ → ReadableBuffer) (path : List ℕ)
        (segments read_cache_bytes max_open_files : ℕ)
        → faulty io ≡ false
        → path_accepted path ≡ true
        → 0 < segments
        → init io buffers (restarted path segments read_cache_bytes max_open_files db)
          ≡ some (status, db1)
        → Session db1 calls db2
        → Session db calls db2

  -- What is known of the database at each moment.
  pub record IsSafe (db : Db) (s : Contents) : Type 0 where
    pub sound : IsSound db s
    pub recoverable : IsRecoverable db

  get-IsRecoverable :
      {io : Faults} {use_cache : Bool} {buffer : ReadableBuffer} {key : List ℕ} {db : Db}
      {s : Contents} {status : Status} {answer : Option (List ℕ)} {db1 : Db}
      → IsRecoverable db
      → handle_get io use_cache buffer key db ≡ done (status, answer, db1)
      → Found io use_cache buffer key db s
      → IsRecoverable db1
  get-IsRecoverable {db} r went (found v handles cache is answered shows) =
      let (_, _, same) = same_lookup (sym went ∙ answered) in
      subst IsRecoverable (sym same) (IsRecoverable-with_caches db handles cache r)
  get-IsRecoverable r went (missing is answered) =
      let (_, _, same) = same_lookup (sym went ∙ answered) in subst IsRecoverable (sym same) r

  same_start :
      {a b : Status} {d d' : Db}
      → ◌≡◌ {A = Option (Status × Db)} (some (a, d)) (some (b, d'))
      → d ≡ d'
  same_start h = cc

  started-IsSafe :
      {io : Faults} {buffers : ℕ → ReadableBuffer} {first db1 : Db} {s : Contents} {status : Status}
      → init io buffers first ≡ some (status, db1)
      → IsStarted io buffers first s
      → IsSafe db1 s
  started-IsSafe {s} went i =
      subst (λ d. IsSafe d s) (same_start (sym i.went ∙ went))
        (record {
          sound = record { shows = i.shows; ready = i.ready };
          recoverable = i.recoverable;
        })

  -- In a history of calls of `Put`, `Delete` and `Get`, of scheduled tasks that run, and of new
  -- processes that start on the files of the last one, in which no call of the system fails, from a
  -- database that stands for a map, can append and is recoverable, each answer is the one that the
  -- map gives at that moment, as if there had been one process. At the end the database stands for
  -- the map that results, can append and is recoverable. The calls keep to the limits on keys, values
  -- and file ids, no file is filled to its last byte, and no direct read is of an entry at the very
  -- end of a file.
  pub session-IsServed :
      {db db' : Db} {calls : List Call} (s : Contents)
      → IsSafe db s
      → Session db calls db'
      → (s' : Contents) × IsServed s calls s' × IsSafe db' s'
  session-IsServed s safe start = (s, nothing, safe)
  session-IsServed s safe
        (put_step {db} {db1} {db2} {calls} {status} io key value works (a, b, c) went room rest) =
      let sound = safe.sound in
      let r =
        put-IsRecoverable io key value db db1 status safe.recoverable sound.ready works a b c went
          room in
      elim (put_answer io key value db s status db1 works sound.ready sound.shows went
        (put_refines io key value db s sound.shows sound.ready a b c)) [
          | inl (e, after) ↦
              let (s', served, last) =
                session-IsServed (updated s key value) (record { sound = after; recoverable = r })
                  rest in
              (s', update e served, last)
          | inr (e, after) ↦
              let (s', served, last) =
                session-IsServed s (record { sound = after; recoverable = r }) rest in
              (s', refuse e served, last)
        ]
  session-IsServed s safe
        (get_step {db} {db1} {db2} {calls} {status} {answer} io use_cache buffer key works small
          fits went rest) =
      let sound = safe.sound in
      let f =
        get_refines io use_cache buffer key db s sound.shows (ground arith) (ground arith) small
          fits in
      let (e, g, after) =
        get_answer io use_cache buffer key db s status answer db1 sound.ready sound.shows went f in
      let (s', served, last) =
        session-IsServed s
          (record { sound = after; recoverable = get-IsRecoverable safe.recoverable went f })
          rest in
      (s', lookup e g served, last)
  session-IsServed s safe (task_step {db} io task tasks works next rest) =
      session-IsServed s
        (record {
          sound = record {
            shows = run_next-Shows io task tasks db s safe.sound.shows;
            ready = run_next-IsReady io task tasks db safe.sound.ready;
          };
          recoverable = run_next-IsRecoverable io task tasks db works next safe.recoverable;
        })
        rest
  session-IsServed s safe
        (restart_step {db} io buffers path segments read_cache_bytes max_open_files works accepted
          some_segment went rest) =
      session-IsServed s
        (started-IsSafe went (
          restarted-IsStarted io works buffers path segments read_cache_bytes max_open_files db
            safe.recoverable s accepted some_segment safe.sound.shows safe.sound.ready))
        rest
