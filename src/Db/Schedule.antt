-- ===== src/Db/Schedule.antt =====
-- How compactions are scheduled: the states of the files of src/db_impl.cc, with what the executor has
-- been given. `UpdateUnused` queues a file, `PollCompactTask` hands the queue to the executor, and a
-- `Compact(id)` begins, and ends or gives up.
pub mod Exclusive
pub mod Handover
use pedrodb.Base.{
  ℕ, ◌+◌, ◌-◌, ◌<◌, ◌≤◌, ◌≡◌, ◌≢◌, refl, ap, sym, ◌∙◌, arith, List, [], ◌∷◌, ◌++◌, true, false,
  count, count-append, ◌==◌, ==_refl, ==_ne, ==_iff, leb, le-leb, Bool-cases, inl, inr,
  if◌then◌else◌,
}
use mathlib.Core.Bool.{false≢true}
use mathlib.Core.Path.{subst}
use pedrodb.Platform.{Platform}
use pedrodb.File.{Faults}
use pedrodb.Format.Record.Location.{Location}
use pedrodb.Index.{IndexMap}
use pedrodb.Db.{
  CompactState, nop, queued, scheduling, compacting, FileState, new_state, Db, set_state, queue,
  update_unused, schedule, poll_compact_task,
}
use pedrodb.Db.Compact.{begin_compact, end_compact}

-- How often a file is in the queue, how many compactions of it wait in the executor, and how many run.
abbrev pub IsPhase : CompactState → ℕ → ℕ → ℕ → Type 0
IsPhase nop q w r = (q ≡ 0) × (w ≡ 0) × (r ≡ 0)
IsPhase queued q w r = (q ≡ 1) × (w ≡ 0) × (r ≡ 0)
IsPhase scheduling q w r = (q ≡ 0) × (w ≤ 1) × (r ≡ 0)
IsPhase compacting q w r = (q ≡ 0) × (w ≡ 0) × (r ≤ 1)

abbrev pub more : ℕ → (ℕ → ℕ) → ℕ → ℕ
more id f j = if j == id then f j + 1 else f j

abbrev pub less : ℕ → (ℕ → ℕ) → ℕ → ℕ
less id f j = if j == id then f j - 1 else f j

module _ ⦃t : IndexMap⦄ where
  pub record Scheduler : Type 0 where
    pub db : Db
    pub waiting : ℕ → ℕ
    pub running : ℕ → ℕ

  -- Each file is in one phase, and there at most once.
  abbrev pub IsExclusive : Scheduler → Type 0
  IsExclusive s =
      (j : ℕ)
      → IsPhase (s.db.file_states j).compact_state (count j s.db.compact_tasks) (s.waiting j)
          (s.running j)

  module _ ⦃p : Platform⦄ where
    pub data Step : Scheduler → Scheduler → Type 0 where
      unused :
          {s : Scheduler} (loc : Location) (n : ℕ)
          → Step s (record s { db = update_unused loc n s.db })
      poll :
          {s : Scheduler}
          → Step s (record s {
            db = (poll_compact_task s.db).1;
            waiting = λ j. s.waiting j + count j (poll_compact_task s.db).0;
          })
      -- `Compact(id)` begins; or it returns at once, since the database is read-only or the file
      -- cannot be opened.
      begin :
          {s : Scheduler} (id : ℕ)
          → 0 < s.waiting id
          → Step s (record {
            db = begin_compact id s.db;
            waiting = less id s.waiting;
            running = more id s.running;
          })
      give_up :
          {s : Scheduler} (id : ℕ)
          → 0 < s.waiting id
          → Step s (record s { waiting = less id s.waiting })
      -- It ends; or an `Append` fails.
      finish :
          {s : Scheduler} (io : Faults) (id : ℕ)
          → 0 < s.running id
          → Step s (record s { db = end_compact io id s.db; running = less id s.running })
      stop :
          {s : Scheduler} (id : ℕ)
          → 0 < s.running id
          → Step s (record s { running = less id s.running })
      -- Whatever else the database does leaves the queue and the states of the files as they are.
      work :
          {s : Scheduler} (db : Db)
          → db.compact_tasks ≡ s.db.compact_tasks
          → ((j : ℕ) → (db.file_states j).compact_state ≡ (s.db.file_states j).compact_state)
          → Step s (record s { db = db })

    pub data Reaches : Scheduler → Scheduler → Type 0 where
      here : {s : Scheduler} → Reaches s s
      step : {s s' s'' : Scheduler} → Step s s' → Reaches s' s'' → Reaches s s''

  -- Nothing is queued, waits or runs.
  abbrev pub IsIdle : Scheduler → Type 0
  IsIdle s =
      (s.db.compact_tasks ≡ [])
      × ((j : ℕ)
          → ((s.db.file_states j).compact_state ≡ nop) × (s.waiting j ≡ 0) × (s.running j ≡ 0))
