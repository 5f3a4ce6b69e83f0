-- ===== src/Db/Restart/Init.antt =====
-- `DBImpl::Init` on the files that an earlier process left.
use pedrodb.Base.{
  ℕ, ◌≤◌, ◌<◌, ◌≡◌, refl, ap, sym, ◌∙◌, arith, List, length, All-imp, true, false, some, none,
}
use mathlib.Core.Path.{subst}
use pedrodb.Platform.{Platform}
use pedrodb.Buffer.{ReadableBuffer}
use pedrodb.Format.Record.{Entry}
use pedrodb.Format.Record.Location.{Location}
use pedrodb.Format.Record.Sequence.{entries_bytes}
use pedrodb.File.{MappedFile, Faults, faulty}
use pedrodb.FileManager
use pedrodb.FileManager.{FileManager, ReadableFile, last}
use pedrodb.FileManager.Acquire.{HasActive}
use pedrodb.FileManager.Consistent.{IsConsistent, IsStored}
use pedrodb.FileManager.Durable.{IsConsistent-with, HoldsLog-kept}
use pedrodb.Index.{IndexMap}
use pedrodb.Lru
use pedrodb.Lru.{LruCache}
use pedrodb.Metadata.{Manager, path_accepted}
use pedrodb.Metadata.Recovery.{IsLogged}
use pedrodb.ReadCache.Supply.{IsFresh}
use pedrodb.SegmentCache.Laws.{Every}
use pedrodb.ReadCache.Fresh.{Every-new, length-new}
use pedrodb.Status.{ok}
use pedrodb.Db.{Db}
use pedrodb.Db.Kept.{HasValue-kept, IsConsistent-HasActive}
use pedrodb.Db.Open.{new_metadata, new_files, new_db, init, init_files, recover_db}
use pedrodb.Db.Recovery.{recover, recover_files}
use pedrodb.Db.Recovery.Entries.{IsBelow}
use pedrodb.Db.Recovery.Files.{AreRecovered, recover_files-AreRecovered}
use pedrodb.Db.Recovery.Replay.{replayed}
use pedrodb.Db.View.{Contents, Shows, IsReady}
use pedrodb.Db.Restart.{IsRecoverable, IsStarted, restarted}
use pedrodb.Db.Restart.Files.{
  reopened, init_logged, init-reopened, reopened-metadata, reopened-data_files,
  reopened-IsConsistent, reopened-HoldsLog, last-append,
}

module _ ⦃p : Platform⦄ ⦃t : IndexMap⦄ where
  module _ (io : Faults) (works : faulty io ≡ false) (buffers : ℕ → ReadableBuffer) (path : List ℕ)
      (segments read_cache_bytes max_open_files : ℕ) (db : Db) (r : IsRecoverable db) where
    abbrev first : Db
    first = restarted path segments read_cache_bytes max_open_files db

    abbrev base : FileManager
    base = reopened io works path max_open_files db.files r.durable

    -- The database after the files were opened, before the recovery.
    abbrev opened : Db
    opened = record first { files = base }

    base_active : HasActive base
    base_active =
        IsConsistent-HasActive base
          (reopened-IsConsistent io works path max_open_files db.files r.durable).0

    recovered :
        AreRecovered base r.durable.log db.files.metadata.files opened opened
          (recover io buffers opened)
    unfolding recover new_db new_files Lru.new FileManager.activate
    recovered =
        let opens : io.open_fails ≡ false = ground arith in
        let sized : io.size_fails ≡ false = ground arith in
        let d = r.durable in
        let holds = reopened-HoldsLog io works path max_open_files db.files d in
        let ids = db.files.metadata.files in
        subst
          (λ ids.
            AreRecovered base d.log db.files.metadata.files opened opened
              (recover_files io buffers ids opened))
          (ap (λ (x : Manager). x.files)
            (sym (reopened-metadata io works path max_open_files db.files d)))
          (recover_files-AreRecovered io opens sized buffers base base_active opened d.log
            (λ i is. d.indexes i is) ids opened d.logged.ascending holds
            (All-imp _ (λ i. opened.max_file ≤ i) ids (λ i h. omega arith) holds)
            (All-imp _ (λ i. IsBelow opened i 0) ids
              (λ i h j dir is. let nothing = t.find-empty j in cc) holds)
            (record {
              cache = opened.files.open_files;
              files = refl;
              handles = tt;
              options = refl;
              readonly = refl;
              read_cache = refl;
            }))

    init_goes : path_accepted path ≡ true → init io buffers first ≡ some (ok, recovered.db')
    unfolding init new_db new_files new_metadata
    init_goes accepted =
        let d = r.durable in
        ap (init_files io buffers first)
          (init_logged io path db.files.metadata works accepted d.logged)
        ∙ ap (λ x. recover_db io buffers (x.0, record first { files = x.1 }))
            (init-reopened io works path max_open_files db.files d)
        ∙ recovered.goes

    -- The database after the recovery, its files written out.
    abbrev final : Db
    final = record recovered.db' { files = record base { open_files = recovered.state.cache } }

    final_same : recovered.db' ≡ final
    final_same = ap (λ (f : FileManager). record recovered.db' { files = f }) recovered.state.files

    final-index : (j : List ℕ) → t.find final.indices j ≡ t.find db.indices j
    unfolding new_db
    final-index j =
        recovered.index j
        ∙ ap (replayed r.durable.log db.files.metadata.files j) (t.find-empty j)
        ∙ sym (r.index j)

    final-data_files : (i : ℕ) → final.files.data_files i ≡ db.files.data_files i
    final-data_files = reopened-data_files io works path max_open_files db.files r.durable

    final-active_id : final.files.active_file_id ≡ db.files.active_file_id
    unfolding FileManager.activate
    final-active_id = refl

    final-consistent :
        (c : IsConsistent final.files) × (c.entries ≡ r.durable.log db.files.active_file_id)
        × (c.file.write_index ≡ r.durable.consistent.file.write_index)
    final-consistent =
        let d = r.durable in
        let (c, entries) = reopened-IsConsistent io works path max_open_files db.files d in
        let (c', same, file) =
          IsConsistent-with base c base.metadata recovered.state.cache base.index_files
            base.tasks in
        (
          c',
          same ∙ entries,
          c'.written
              ∙ ap (λ es. length (entries_bytes es)) (same ∙ entries ∙ sym d.entries_are)
              ∙ sym d.consistent.written,
        )

    -- What was stored is stored.
    final-IsStored : (l : Location) (x : Entry) → IsStored db.files l x → IsStored final.files l x
    final-IsStored l x st =
        let same = final-data_files l.id in
        let (c, entries, end) = final-consistent in
        record {
          stands = rw same st.stands;
          exists = rw same st.exists;
          length = rw same st.length;
          inside = st.inside;
          old = rw final-active_id st.old;
          before = λ f is here.
              let both = sym c.active ∙ is in
              let e : c.file ≡ f = cc in
              let old =
                st.before r.durable.consistent.file r.durable.consistent.active
                  (here ∙ final-active_id) in
              omega (arith, ap (λ (g : MappedFile). g.write_index) e);
        }

    final-Shows : (s : Contents) → Shows db s → 0 < segments → Shows final s
    unfolding new_db
    final-Shows s shows some_segment = record {
      present = λ k v h.
          HasValue-kept db final k v (λ l x st sx. final-IsStored l x st) recovered.state.options
            (final-index k) (shows.present k v h);
      absent = λ k h. final-index k ∙ shows.absent k h;
      handles = recovered.state.handles;
      active = IsConsistent-HasActive final.files final-consistent.0;
      cached = record {
        newest =
            recovered.max_file
            ∙ ap (last 0) r.durable.files_are
            ∙ last-append 0 db.files.active_file_id r.durable.front
            ∙ sym final-active_id;
        fresh =
            subst (Every (IsFresh final.files)) (sym recovered.state.read_cache)
              (Every-new _ segments read_cache_bytes);
        segments =
            subst (λ c. 0 < length c) (sym recovered.state.read_cache)
              (omega (arith, length-new segments read_cache_bytes));
      };
    }

    final-IsReady : IsReady db → IsReady final
    final-IsReady ready = record {
      consistent = final-consistent.0;
      fresh = λ i h. rw (final-data_files i) (ready.fresh i (rw final-active_id at h));
    }

    final-metadata : final.files.metadata ≡ record db.files.metadata { path = path }
    final-metadata = reopened-metadata io works path max_open_files db.files r.durable

    -- A later process can recover from what this one has.
    final-IsRecoverable : IsRecoverable final
    unfolding FileManager.activate new_files
    final-IsRecoverable =
        let d = r.durable in
        let l = d.logged in
        record {
          durable = record {
            log = d.log;
            front = d.front;
            logged = subst IsLogged (sym final-metadata) (record {
              entries = l.entries;
              storable = l.storable;
              name_fits = l.name_fits;
              log_is = l.log_is;
              files_are = l.files_are;
              ascending = l.ascending;
            });
            files_are = ap (λ (x : Manager). x.files) final-metadata ∙ d.files_are;
            older =
                All-imp _ _ d.front
                  (λ i h.
                    (h.0, HoldsLog-kept db.files final.files i (d.log i) (final-data_files i) h.1))
                  d.older;
            consistent = final-consistent.0;
            entries_are = final-consistent.1;
            ends = rw final-consistent.2 d.ends;
            indexes = d.indexes;
            unindexed = d.unindexed;
            pending = tt;
          };
          index = λ j.
              final-index j
              ∙ r.index j
              ∙ ap (λ ids. replayed d.log ids j none)
                  (ap (λ (x : Manager). x.files) (sym final-metadata));
        }

    -- Where no call of the system fails, and the path is one that the test wants: on the files of a
    -- database that stands for a map, can append and is recoverable, `Init` of a new one with at
    -- least one segment of the read cache ends with kOk, whatever the thread's buffer has. The new
    -- database stands for the same map, can append and is recoverable.
    pub restarted-IsStarted :
        (s : Contents)
        → path_accepted path ≡ true
        → 0 < segments
        → Shows db s
        → IsReady db
        → IsStarted io buffers first s
    restarted-IsStarted s accepted some_segment shows ready = record {
      db = final;
      went = init_goes accepted ∙ ap (λ x. some (ok, x)) final_same;
      shows = final-Shows s shows some_segment;
      ready = final-IsReady ready;
      recoverable = final-IsRecoverable;
    }
