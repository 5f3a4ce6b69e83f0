-- ===== src/FileManager/Durable/Tasks.antt =====
-- The executor runs what was scheduled: the index files of the files that are not written any more.
use pedrodb.Base.{
  ℕ, ◌<◌, ◌≡◌, ◌≢◌, refl, ap, sym, ◌∙◌, arith, List, [], ◌∷◌, ◌++◌, length, All, All-append, true,
  false, Bool-cases, inl, inr, ==_iff, ==_ne,
}
use pedrodb.Base.Bytes.{Holds, write_bytes, Holds-write_self}
use mathlib.Core.Path.{subst}
use native.Mathlib.Decide.{ℕ_discrete}
use pedrodb.Platform.{Platform}
use pedrodb.File.{DiskFile, Faults, faulty, open_mapping}
use pedrodb.File.Allocate.{
  open_mapping-ok, open_mapping_again, open_mapping_opens, open_mapping_empty,
}
use pedrodb.Status.{Status, ok}
use pedrodb.FileManager.{
  FileManager, Task, sync_file, create_index_file, run_task, write_index_file, update,
}
use pedrodb.FileManager.Rebuild.{index_log}
use pedrodb.FileManager.Durable.{HoldsIndex, IsPending, IsDurable, IsDurable-with}

module _ ⦃p : Platform⦄ where
  -- A task changes index files and tasks only.
  pub run_task-files :
      (io : Faults) (task : Task) (m : FileManager)
      → (let m' = run_task io task m in
          m' ≡ record m { index_files = m'.index_files; tasks = m'.tasks })
  unfolding run_task write_index_file
  run_task-files io task m = ground arith

  module _ (io : Faults) (works : faulty io ≡ false) (m : FileManager) (d : IsDurable m) where
    -- An index file that is opened for a log with entries is the right one, or a new one.
    opened_index :
        (id : ℕ) (bytes : List ℕ)
        → 0 < length bytes
        → bytes ≡ index_log 0 (d.log id)
        → (open_mapping io (length bytes) (m.index_files id)).0 ≡ ok
    opened_index id bytes some_bytes same = elim (Bool-cases (m.index_files id).exists) [
      | inl old ↦
          open_mapping_again io (length bytes) (m.index_files id) works some_bytes
            ((d.indexes id old).0 ∙ ap length (sym same)) old
      | inr new ↦ open_mapping_opens io (length bytes) (m.index_files id) works some_bytes new
    ]

    -- The files with another index file of a file that is not written any more, and other tasks.
    indexed-IsDurable :
        (id : ℕ) (new : DiskFile) (tasks : List Task)
        → id < m.active_file_id
        → HoldsIndex new (d.log id)
        → All (IsPending m.active_file_id d.log) tasks
        → (d' : IsDurable (record m { index_files = update m.index_files id new; tasks = tasks }))
          × (d'.log ≡ d.log)
    indexed-IsDurable id new tasks old holds pending =
        IsDurable-with m d m.open_files _ tasks indexes
          (λ i h. rw (==_ne i id (λ e. omega (arith, e))) (d.unindexed i h)) pending
      where
        indexes :
            (i : ℕ)
            → (update m.index_files id new i).exists ≡ true
            → HoldsIndex (update m.index_files id new i) (d.log i)
        indexes i = elim (ℕ_discrete i id) [
          | yes here ↦ λ is.
              let at : update m.index_files id new i ≡ new = rw ((==_iff i id).1 here) refl in
              rw at (rw here holds)
          | no other ↦ rw (==_ne i id other) (d.indexes i)
        ]

    written-IsDurable :
        (id : ℕ) (bytes : List ℕ) (r : Status × DiskFile)
        → id < m.active_file_id
        → bytes ≡ index_log 0 (d.log id)
        → r.0 ≡ ok
        → r.1.length ≡ length bytes
        → (d' : IsDurable (write_index_file id bytes r m)) × (d'.log ≡ d.log)
    unfolding write_index_file
    written-IsDurable id bytes (ok, disk) old same is size =
        let new : DiskFile = record disk { bytes = write_bytes disk.bytes 0 bytes } in
        indexed-IsDurable id new m.tasks old
          (
            size ∙ ap length same,
            subst (Holds new.bytes 0) same (Holds-write_self disk.bytes 0 bytes),
          )
          d.pending
    written-IsDurable id bytes (s, disk) old same is size = cc

    -- An index file that cannot be mapped, since it has no bytes, is tried again.
    empty-IsDurable :
        (id : ℕ) (r : Status × DiskFile)
        → id < m.active_file_id
        → [] ≡ index_log 0 (d.log id)
        → r.0 ≢ ok
        → r.1.length ≡ 0
        → (d' : IsDurable (write_index_file id [] r m)) × (d'.log ≡ d.log)
    unfolding write_index_file
    empty-IsDurable id (ok, disk) old same bad size = absurd (bad refl)
    empty-IsDurable id (s, disk) old same bad size =
        indexed-IsDurable id disk (m.tasks ++ (create_index_file id [] ∷ [])) old
          (size ∙ ap length same, subst (Holds disk.bytes 0) same tt)
          (All-append _ m.tasks (create_index_file id [] ∷ []) d.pending ((old, same), tt))

    -- A scheduled task that runs keeps the files such that a later process can recover from them.
    pub run_task-IsDurable :
        (task : Task)
        → IsPending m.active_file_id d.log task
        → (d' : IsDurable (run_task io task m)) × (d'.log ≡ d.log)
    unfolding run_task
    run_task-IsDurable (sync_file id) h = elim (Bool-cases io.sync_fails) [
      | inl bad ↦ rw bad (
          IsDurable-with m d m.open_files m.index_files (m.tasks ++ (sync_file id ∷ [])) d.indexes
            d.unindexed (All-append _ m.tasks (sync_file id ∷ []) d.pending (tt, tt)))
      | inr good ↦ rw good (d, refl)
    ]
    run_task-IsDurable (create_index_file id []) (old, same) =
        let (bad, size) =
          open_mapping_empty io (m.index_files id) works
            (λ is. (d.indexes id is).0 ∙ ap length (sym same)) in
        empty-IsDurable id (open_mapping io 0 (m.index_files id)) old same bad size
    run_task-IsDurable (create_index_file id (b ∷ bytes)) (old, same) =
        let log = b ∷ bytes in
        let opened = opened_index id log (omega arith) same in
        written-IsDurable id log (open_mapping io (length log) (m.index_files id)) old same opened
          (open_mapping-ok io (length log) (m.index_files id) opened).0
