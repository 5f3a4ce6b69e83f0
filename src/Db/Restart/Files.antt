-- ===== src/Db/Restart/Files.antt =====
-- The file manager that is started on the files of an earlier one.
use pedrodb.Base.{
  ℕ, ◌≡◌, refl, ap, sym, ◌∙◌, arith, List, [], ◌∷◌, ◌++◌, length, length-append, All, All-append,
  All-imp, true, false, some, inl, inr, ◌==◌, ==_iff, ==_ne,
}
use mathlib.Core.Path.{subst}
use native.Mathlib.Decide.{ℕ_discrete}
use pedrodb.Base.Ids.{contains, contains-last}
use pedrodb.Platform.{Platform}
use pedrodb.File.{Faults, faulty, max_file_bytes}
use pedrodb.File.Allocate.{open_mapping-ok, open_mapping_again}
use pedrodb.FileManager
use pedrodb.FileManager.{FileManager, init_with, last, activate, create_file, retire_active}
use pedrodb.FileManager.Consistent.{IsConsistent}
use pedrodb.FileManager.Create.{create_file_cases, activate-IsConsistent}
use pedrodb.FileManager.Durable.{IsDurable, HoldsLog, HoldsLog-kept, IsDurable-active}
use pedrodb.Metadata
use pedrodb.Metadata.{Manager, path_accepted, name_of}
use pedrodb.Metadata.Recovery.{IsLogged, recovery-IsLogged, length-header_bytes}
use pedrodb.Metadata.Replay.{log_bytes}
use pedrodb.Format.Metadata.{header_bytes}
use pedrodb.Status.{ok}
use pedrodb.Db.Open.{new_metadata, new_files}

pub last-append : (i a : ℕ) (l : List ℕ) → last i (l ++ (a ∷ [])) ≡ a
unfolding last
last-append i a [] = refl
last-append i a (j ∷ l) = last-append j a l

module _ ⦃p : Platform⦄ where
  -- `MetadataManager::Init` reads the log of the earlier process.
  pub init_logged :
      (io : Faults) (path : List ℕ) (m : Manager)
      → faulty io ≡ false
      → path_accepted path ≡ true
      → IsLogged m
      → Metadata.init io (record (new_metadata path) { log = m.log })
        ≡ some (ok, record m { path = path })
  unfolding Metadata.init new_metadata
  init_logged io path m works accepted logged =
      let opens : io.open_fails ≡ false = ground arith in
      let sized : io.size_fails ≡ false = ground arith in
      let size =
        length-append (header_bytes (record { name = m.name })) (log_bytes logged.entries) in
      let head = length-header_bytes (record { name = m.name }) in
      let written : (length m.log == 0) ≡ false =
        ==_ne (length m.log) 0 (λ e. omega (arith, ap length logged.log_is, size, head, e)) in
      let fresh : Manager = record { path = path; name = name_of path; files = []; log = m.log } in
      rw (accepted, opens, sized, written) (recovery-IsLogged m fresh logged refl refl)

  module _ (io : Faults) (works : faulty io ≡ false) (path : List ℕ) (max_open_files : ℕ)
      (m : FileManager) (d : IsDurable m) where
    -- The file manager after the metadata was read, and after the last file was opened.
    abbrev pub found : FileManager
    found = new_files max_open_files (record m.metadata { path = path }) m.data_files m.index_files

    abbrev pub reopened : FileManager
    reopened = activate io m.active_file_id (m.data_files m.active_file_id) found

    created_again : create_file io m.active_file_id found ≡ (ok, reopened)
    unfolding retire_active new_files
    created_again =
        let a = m.active_file_id in
        let disk = m.data_files a in
        let h = (IsDurable-active m d).entries in
        elim (create_file_cases io a found) [
          | inl (opened, made) ↦
              let same =
                (open_mapping-ok io max_file_bytes disk opened).2 h.exists
                  (λ e. omega (arith, e, h.whole)) in
              made ∙ ap (λ f. (ok, activate io a f found)) same
          | inr (bad, made) ↦
              absurd (
                bad
                  (open_mapping_again io max_file_bytes disk works (omega arith) h.whole h.exists))
        ]

    pub init-reopened : FileManager.init io found ≡ (ok, reopened)
    unfolding FileManager.init new_files
    init-reopened = ap (λ ids. init_with io ids found) d.files_are ∙ by d.front
      where
        by :
            (front : List ℕ)
            → init_with io (front ++ (m.active_file_id ∷ [])) found ≡ (ok, reopened)
        by [] = created_again
        by (i ∷ l) =
            ap (λ id. create_file io id found) (last-append i m.active_file_id l) ∙ created_again

    pub reopened-metadata : reopened.metadata ≡ record m.metadata { path = path }
    unfolding activate Metadata.create_file new_files
    reopened-metadata =
        rw (ap (contains m.active_file_id) d.files_are ∙ contains-last m.active_file_id d.front)
          refl

    pub reopened-data_files : (i : ℕ) → reopened.data_files i ≡ m.data_files i
    unfolding activate new_files
    reopened-data_files i = elim (ℕ_discrete i m.active_file_id) [
      | yes here ↦ rw ((==_iff i m.active_file_id).1 here) (ap m.data_files (sym here))
      | no other ↦ rw (==_ne i m.active_file_id other) refl
    ]

    pub reopened-IsConsistent : (c : IsConsistent reopened) × (c.entries ≡ d.log m.active_file_id)
    reopened-IsConsistent =
        activate-IsConsistent io m.active_file_id (m.data_files m.active_file_id)
          (d.log m.active_file_id) found (IsDurable-active m d).entries

    pub reopened-HoldsLog : All (λ i. HoldsLog reopened i (d.log i)) m.metadata.files
    reopened-HoldsLog = subst (All (λ i. HoldsLog reopened i (d.log i))) (sym d.files_are) (
        All-append _ d.front (m.active_file_id ∷ [])
          (All-imp _ _ d.front (λ i h. kept i h.1) d.older)
          (kept m.active_file_id (IsDurable-active m d), tt))
      where
        kept : (i : ℕ) → HoldsLog m i (d.log i) → HoldsLog reopened i (d.log i)
        kept i h = HoldsLog-kept m reopened i (d.log i) (reopened-data_files i) h
