-- ===== src/FileManager/Durable/Append.antt =====
-- An append keeps the files such that a later process can recover from them.
use pedrodb.Base.{
  ℕ, ◌+◌, ◌≤◌, ◌<◌, ◌^◌, ◌≡◌, refl, ap, sym, ◌∙◌, arith, List, [], ◌∷◌, ◌++◌, All, All-append,
  All-imp, true, false, some, if◌then◌else◌, ◌==◌, ==_refl, ==_ne,
}
use mathlib.Core.Path.{subst}
use native.Mathlib.Decide.{dec_lt}
use pedrodb.Base.Ids.{insert-above, not-contains_above}
use pedrodb.Platform.{Platform}
use pedrodb.Format.Record.{Entry}
use pedrodb.Format.Record.Location.{Location}
use pedrodb.File.{MappedFile, Faults, max_file_bytes}
use pedrodb.Metadata
use pedrodb.Metadata.Recovery.{IsLogged, create_file-IsLogged}
use pedrodb.FileManager.{FileManager, Task, sync_file, create_index_file}
use pedrodb.FileManager.Rebuild.{index_log}
use pedrodb.FileManager.Promise.{Grown, in_active, in_new, Appended}
use pedrodb.FileManager.Durable.{
  HoldsIndex, HoldsLog, IsPending, IsDurable, IsDurable-active, HoldsLog-kept,
}

module _ ⦃p : Platform⦄ where
  -- What an append does.
  module _ (io : Faults) (m : FileManager) (d : IsDurable m) (e : Entry) (loc : Location)
      (m' : FileManager) (a : Appended io d.consistent.entries m e loc m') where
    -- The entries of the files afterwards.
    unfoldable pub grown_log : ℕ → List Entry
    grown_log i = if i == loc.id then a.consistent.entries else d.log i

    pub grown_log_other : (i : ℕ) → i < loc.id → grown_log i ≡ d.log i
    unfolding grown_log
    grown_log_other i h = rw (==_ne i loc.id (λ e. omega (arith, e))) refl

    grown_log_here : a.consistent.entries ≡ grown_log m'.active_file_id
    unfolding grown_log
    grown_log_here = rw (← a.active, ==_refl loc.id) refl

    -- A file before the active one stays as it is.
    older_kept :
        (i : ℕ) (es : List Entry)
        → i < m'.active_file_id
        → HoldsLog m i es
        → d.log i ≡ es
        → (i < m'.active_file_id) × HoldsLog m' i (grown_log i)
    older_kept i es h holds same = (
      h,
      rw (grown_log_other i (omega (arith, a.active)), same)
          (HoldsLog-kept m m' i es (a.others i (omega arith)) holds),
    )

    front_kept : All (λ i. (i < m'.active_file_id) × HoldsLog m' i (grown_log i)) d.front
    front_kept =
        All-imp (λ i. (i < m.active_file_id) × HoldsLog m i (d.log i))
          (λ i. (i < m'.active_file_id) × HoldsLog m' i (grown_log i)) d.front
          (λ i (h, holds). older_kept i (d.log i) (omega (arith, a.grows)) holds refl) d.older

    IsPending-kept : All (IsPending m'.active_file_id grown_log) m.tasks
    IsPending-kept =
        All-imp (IsPending m.active_file_id d.log) (IsPending m'.active_file_id grown_log) m.tasks
          task_kept d.pending
      where
        task_kept :
            (task : Task)
            → IsPending m.active_file_id d.log task
            → IsPending m'.active_file_id grown_log task
        task_kept (sync_file id) h = tt
        task_kept (create_index_file id bytes) (h, same) = (
          omega (arith, a.grows),
          same ∙ ap (index_log 0) (sym (grown_log_other id (omega (arith, a.active, a.grows)))),
        )

    unindexed_kept : (i : ℕ) → m'.active_file_id ≤ i → (m'.index_files i).exists ≡ false
    unindexed_kept i h = ap (λ f. (f i).exists) a.indexes ∙ d.unindexed i (omega (arith, a.grows))

    indexes_kept :
        (i : ℕ) → (m'.index_files i).exists ≡ true → HoldsIndex (m'.index_files i) (grown_log i)
    indexes_kept i is = elim (dec_lt i loc.id) [
      | yes h ↦ rw (grown_log_other i h, a.indexes) (d.indexes i (rw a.indexes at is))
      | no h ↦ let unindexed = unindexed_kept i (omega (arith, a.active)) in cc
    ]

    -- The set of files with one more.
    pub files_grown :
        (m.active_file_id + 1 < 2 ^ 32)
        → (let metadata = (Metadata.create_file io (m.active_file_id + 1) m.metadata).1 in
            IsLogged metadata
            × (metadata.files ≡ m.metadata.files ++ ((m.active_file_id + 1) ∷ [])))
    unfolding Metadata.create_file
    files_grown small =
        let below : All (λ i. i < m.active_file_id + 1) m.metadata.files = rw d.files_are (
          All-append (λ i. i < m.active_file_id + 1) d.front (m.active_file_id ∷ [])
            (All-imp _ (λ i. i < m.active_file_id + 1) d.front (λ i h. omega (arith, h.0)) d.older)
            (omega arith, tt)) in
        (
          create_file-IsLogged io (m.active_file_id + 1) m.metadata d.logged small,
          rw (not-contains_above (m.active_file_id + 1) m.metadata.files below)
              (insert-above (m.active_file_id + 1) m.metadata.files below),
        )

    -- Where no file is filled to its last byte, an append keeps the files such that a later process
    -- can recover from them.
    pub append-IsDurable :
        m.active_file_id + 1 < 2 ^ 32
        → ((f : MappedFile) → m'.active_data_file ≡ some f → f.write_index < max_file_bytes)
        → (d' : IsDurable m') × (d'.log ≡ grown_log)
    append-IsDurable small room = by a.grown
      where
        by :
            Grown io d.consistent.entries m e loc m' a.consistent.entries
            → (d' : IsDurable m') × (d'.log ≡ grown_log)
        by (in_active at offset entries metadata tasks) = (
          record {
            log = grown_log;
            front = d.front;
            logged = rw metadata d.logged;
            files_are =
                ap (λ x. x.files) metadata
                ∙ d.files_are
                ∙ ap (λ i. d.front ++ (i ∷ [])) (sym at ∙ a.active);
            older = front_kept;
            consistent = a.consistent;
            entries_are = grown_log_here;
            ends = room a.consistent.file a.consistent.active;
            indexes = indexes_kept;
            unindexed = unindexed_kept;
            pending =
                subst (All (IsPending m'.active_file_id grown_log)) (sym tasks) IsPending-kept;
          },
          refl,
        )
        by (in_new at offset entries metadata tasks) =
            let (logged, files) = files_grown small in
            let next : m'.active_file_id ≡ m.active_file_id + 1 = sym a.active ∙ at in
            let last_log : grown_log m.active_file_id ≡ d.log m.active_file_id =
              grown_log_other m.active_file_id (omega arith) in
            (
              record {
                log = grown_log;
                front = d.front ++ (m.active_file_id ∷ []);
                logged = rw metadata logged;
                files_are =
                    ap (λ x. x.files) metadata
                    ∙ files
                    ∙ ap (λ l. l ++ ((m.active_file_id + 1) ∷ [])) d.files_are
                    ∙ ap (λ i. (d.front ++ (m.active_file_id ∷ [])) ++ (i ∷ [])) (sym next);
                older =
                    All-append (λ i. (i < m'.active_file_id) × HoldsLog m' i (grown_log i)) d.front
                      (m.active_file_id ∷ []) front_kept
                      (older_kept m.active_file_id _ (omega arith) (IsDurable-active m d) refl, tt);
                consistent = a.consistent;
                entries_are = grown_log_here;
                ends = room a.consistent.file a.consistent.active;
                indexes = indexes_kept;
                unindexed = unindexed_kept;
                pending = subst (All (IsPending m'.active_file_id grown_log)) (sym tasks) (
                    All-append (IsPending m'.active_file_id grown_log) m.tasks _ IsPending-kept
                      (tt, ((omega arith, ap (index_log 0) (d.entries_are ∙ sym last_log)), tt)));
              },
              refl,
            )
