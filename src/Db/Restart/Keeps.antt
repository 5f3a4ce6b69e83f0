-- ===== src/Db/Restart/Keeps.antt =====
-- What lookups and scheduled tasks keep.
use pedrodb.Base.{ℕ, ◌≡◌, refl, ap, sym, ◌∙◌, List, ◌∷◌, false, none, All}
use mathlib.Core.Path.{subst}
use pedrodb.Platform.{Platform}
use pedrodb.File.{DiskFile, Faults, faulty}
use pedrodb.FileManager.{FileManager, ReadableFile, Task, run_task}
use pedrodb.FileManager.Durable.{IsDurable-with, IsConsistent-with, IsPending}
use pedrodb.FileManager.Durable.Tasks.{run_task-IsDurable, run_task-files}
use pedrodb.Index.{IndexMap}
use pedrodb.Lru.{LruCache}
use pedrodb.ReadCache.{ReadCache}
use pedrodb.Db.{Db}
use pedrodb.Db.Get.Refines.{with_caches}
use pedrodb.Db.Kept.{HasValue-kept}
use pedrodb.Db.Recovery.Replay.{replayed}
use pedrodb.Db.View.{Contents, Shows, IsReady}
use pedrodb.Db.Restart.{IsRecoverable}

module _ ⦃p : Platform⦄ ⦃t : IndexMap⦄ where
  -- Other caches leave the files as they are.
  pub IsRecoverable-with_caches :
      (db : Db) (handles : LruCache ReadableFile) (cache : ReadCache)
      → IsRecoverable db
      → IsRecoverable (with_caches db handles cache)
  IsRecoverable-with_caches db handles cache r =
      let d = r.durable in
      let (d', same) =
        IsDurable-with db.files d handles db.files.index_files db.files.tasks d.indexes d.unindexed
          d.pending in
      record {
        durable = record {
          log = d'.log;
          front = d'.front;
          logged = d'.logged;
          files_are = d'.files_are;
          older = d'.older;
          consistent = d'.consistent;
          entries_are = d'.entries_are;
          ends = d'.ends;
          indexes = d'.indexes;
          unindexed = d'.unindexed;
          pending = d'.pending;
        };
        index = λ j. r.index j ∙ ap (λ l. replayed l db.files.metadata.files j none) (sym same);
      }

  -- The database with other index files and tasks.
  abbrev with_tasks : Db → (ℕ → DiskFile) → List Task → Db
  with_tasks db index_files tasks = record db {
    files = record db.files { index_files = index_files; tasks = tasks };
  }

  module _ (db : Db) (index_files : ℕ → DiskFile) (tasks : List Task) where
    Shows-with_tasks : (s : Contents) → Shows db s → Shows (with_tasks db index_files tasks) s
    Shows-with_tasks s shows = record {
      present = λ k v h.
          HasValue-kept db _ k v
            (λ l x st sx. record {
              stands = st.stands;
              exists = st.exists;
              length = st.length;
              inside = st.inside;
              old = st.old;
              before = st.before;
            })
            refl refl (shows.present k v h);
      absent = shows.absent;
      handles = shows.handles;
      active = record {
        file = shows.active.file;
        is = shows.active.is;
        same_file = shows.active.same_file;
        whole = shows.active.whole;
      };
      cached = record {
        newest = shows.cached.newest;
        fresh = shows.cached.fresh;
        segments = shows.cached.segments;
      };
    }

    IsReady-with_tasks : IsReady db → IsReady (with_tasks db index_files tasks)
    IsReady-with_tasks ready = record {
      consistent =
          (IsConsistent-with db.files ready.consistent db.files.metadata db.files.open_files
            index_files tasks).0;
      fresh = ready.fresh;
    }

  -- The executor runs the first task.
  abbrev pub run_next : Faults → Task → List Task → Db → Db
  run_next io task rest db = record db {
    files = run_task io task (record db.files { tasks = rest });
  }

  module _ (io : Faults) (task : Task) (rest : List Task) (db : Db) where
    abbrev waiting : FileManager
    waiting = record db.files { tasks = rest }

    abbrev after : FileManager
    after = run_task io task waiting

    run_next_lem : with_tasks db after.index_files after.tasks ≡ run_next io task rest db
    run_next_lem =
        ap (λ (f : FileManager). record db { files = f }) (sym (run_task-files io task waiting))

    -- A task that runs leaves what the database stands for.
    pub run_next-Shows : (s : Contents) → Shows db s → Shows (run_next io task rest db) s
    run_next-Shows s shows =
        subst (λ d. Shows d s) run_next_lem
          (Shows-with_tasks db after.index_files after.tasks s shows)

    pub run_next-IsReady : IsReady db → IsReady (run_next io task rest db)
    run_next-IsReady ready =
        subst IsReady run_next_lem (IsReady-with_tasks db after.index_files after.tasks ready)

    -- A scheduled task that runs, where no call of the system fails, leaves a recoverable database.
    pub run_next-IsRecoverable :
        faulty io ≡ false
        → db.files.tasks ≡ task ∷ rest
        → IsRecoverable db
        → IsRecoverable (run_next io task rest db)
    run_next-IsRecoverable works next r =
        let d = r.durable in
        let (first, others) =
          subst (All (IsPending db.files.active_file_id d.log)) next d.pending in
        let (d1, same) =
          IsDurable-with db.files d db.files.open_files db.files.index_files rest d.indexes
            d.unindexed others in
        let (d2, same') =
          run_task-IsDurable io works waiting d1 task
            (subst (λ l. IsPending db.files.active_file_id l task) (sym same) first) in
        record {
          durable = d2;
          index = λ j.
              r.index j
              ∙ ap (λ l. replayed l db.files.metadata.files j none) (sym same ∙ sym same')
              ∙ ap (λ (f : FileManager). replayed d2.log f.metadata.files j none)
                  (sym (run_task-files io task waiting));
        }
