-- ===== src/Db/Recovery/Replay.antt =====
-- What the entries of all files say of each key, and how an append changes it.
use pedrodb.Base.{
  ℕ, ◌+◌, ◌^◌, ◌<◌, ◌≡◌, refl, ap, sym, ◌∙◌, arith, List, [], ◌∷◌, ◌++◌, Option, none, length,
  length-append, if◌then◌else◌, ◌===◌, All, All-imp, All-append, ==_refl,
}
use mathlib.Core.Path.{subst}
use pedrodb.Platform.{Platform}
use pedrodb.Format.Record.{Entry, size_of}
use pedrodb.Format.Record.Location.{Location, Dir}
use pedrodb.Format.Record.Pack.{entry_bytes}
use pedrodb.Format.Record.RoundTrip
use pedrodb.Format.Record.Sequence.{entries_bytes, length-entry_bytes-size_of}
use pedrodb.Format.Index
use pedrodb.File.{Faults}
use pedrodb.FileManager.{FileManager, index_of}
use pedrodb.FileManager.Promise.{Grown, in_active, in_new, Appended}
use pedrodb.FileManager.Durable.{IsDurable}
use pedrodb.FileManager.Durable.Append.{grown_log, grown_log_other, files_grown}
use pedrodb.Db.Recovery.Entries.{dir_of, latest}
use pedrodb.Db.Recovery.IndexFile.{index_entries}

-- What a key has after the entries of the files, one file after the other.
unfoldable pub replayed : (ℕ → List Entry) → List ℕ → List ℕ → Option Dir → Option Dir
replayed log [] j d = d
replayed log (i ∷ ids) j d = replayed log ids j (latest i j (index_entries 0 (log i)) d)

pub replayed-append :
    (log : ℕ → List Entry) (xs ys j : List ℕ) (d : Option Dir)
    → replayed log (xs ++ ys) j d ≡ replayed log ys j (replayed log xs j d)
unfolding replayed
replayed-append log [] ys j d = refl
replayed-append log (x ∷ xs) ys j d = replayed-append log xs ys j _

replayed_same :
    (log log' : ℕ → List Entry) (ids j : List ℕ) (d : Option Dir)
    → All (λ i. log' i ≡ log i) ids
    → replayed log' ids j d ≡ replayed log ids j d
unfolding replayed
replayed_same log log' [] j d h = refl
replayed_same log log' (i ∷ ids) j d (same, h) =
    rw same (replayed_same log log' ids j (latest i j (index_entries 0 (log i)) d) h)

latest-append :
    (id : ℕ) (j : List ℕ) (es : List Index.Entry) (e : Index.Entry) (d : Option Dir)
    → latest id j (es ++ (e ∷ [])) d ≡ (if e.key === j then dir_of id e else latest id j es d)
unfolding latest
latest-append id j [] e d = refl
latest-append id j (x ∷ es) e d = latest-append id j es e (if x.key === j then dir_of id x else d)

module _ ⦃p : Platform⦄ where
  index_entries-append :
      (offset : ℕ) (es : List Entry) (e : Entry)
      → All RoundTrip.IsStorable es
      → index_entries offset (es ++ (e ∷ []))
        ≡ index_entries offset es ++ (index_of (offset + length (entries_bytes es)) e ∷ [])
  unfolding index_entries entries_bytes
  index_entries-append offset [] e s = ap (λ o. index_of o e ∷ []) (omega arith)
  index_entries-append offset (x ∷ es) e (sx, s) =
      let at : offset + size_of x + length (entries_bytes es)
          ≡ offset + length (entry_bytes x ++ entries_bytes es) =
        omega (
          arith,
          length-append (entry_bytes x) (entries_bytes es),
          length-entry_bytes-size_of x sx,
        ) in
      ap (◌∷◌ (index_of offset x)) (
        index_entries-append (offset + size_of x) es e s
        ∙ ap (λ o. index_entries (offset + size_of x) es ++ (index_of o e ∷ [])) at)

  module _ (io : Faults) (m : FileManager) (d : IsDurable m) (e : Entry) (loc : Location)
      (m' : FileManager) (a : Appended io d.consistent.entries m e loc m')
      (small : m.active_file_id + 1 < 2 ^ 32) where
    abbrev log' : ℕ → List Entry
    log' = grown_log io m d e loc m' a

    log'_here : log' loc.id ≡ a.consistent.entries
    unfolding grown_log
    log'_here = rw (==_refl loc.id) refl

    same_before : (i : ℕ) → i < m.active_file_id → log' i ≡ d.log i
    same_before i h = grown_log_other io m d e loc m' a i (omega (arith, a.active, a.grows))

    front_same : All (λ i. log' i ≡ d.log i) d.front
    front_same = All-imp _ (λ i. log' i ≡ d.log i) d.front (λ i h. same_before i h.0) d.older

    -- The file with the new entry is the last one.
    replayed_last :
        (front j : List ℕ)
        → m'.metadata.files ≡ front ++ (loc.id ∷ [])
        → All (λ i. log' i ≡ d.log i) front
        → replayed log' m'.metadata.files j none
          ≡ latest loc.id j (index_entries 0 a.consistent.entries) (replayed d.log front j none)
    unfolding replayed
    replayed_last front j files same =
        ap (λ ids. replayed log' ids j none) files
        ∙ replayed-append log' front (loc.id ∷ []) j none
        ∙ ap (λ es. latest loc.id j (index_entries 0 es) (replayed log' front j none)) log'_here
        ∙ ap (latest loc.id j (index_entries 0 a.consistent.entries))
            (replayed_same d.log log' front j none same)

    replayed_active :
        (j : List ℕ)
        → replayed d.log m.metadata.files j none
          ≡ latest m.active_file_id j
              (index_entries 0 d.consistent.entries)
              (replayed d.log d.front j none)
    unfolding replayed
    replayed_active j =
        ap (λ ids. replayed d.log ids j none) d.files_are
        ∙ replayed-append d.log d.front (m.active_file_id ∷ []) j none
        ∙ ap (λ es. latest m.active_file_id j (index_entries 0 es) (replayed d.log d.front j none))
            (sym d.entries_are)

    abbrev Replays : List ℕ → Type 0
    Replays j = replayed log' m'.metadata.files j none ≡ (
        if e.key === j
        then dir_of loc.id (index_of loc.offset e)
        else replayed d.log m.metadata.files j none)

    -- The files before say what they said, and for its key the new entry says the last word.
    pub replayed_grown :
        (j : List ℕ)
        → replayed log' m'.metadata.files j none ≡ (
            if e.key === j
            then dir_of loc.id (index_of loc.offset e)
            else replayed d.log m.metadata.files j none)
    unfolding latest index_entries
    replayed_grown j = by a.grown
      where
        by : Grown io d.consistent.entries m e loc m' a.consistent.entries → Replays j
        by (in_active at offset entries metadata tasks) =
            let es = d.consistent.entries in
            replayed_last d.front j
              (ap (λ x. x.files) metadata ∙ d.files_are ∙ ap (λ i. d.front ++ (i ∷ [])) (sym at))
              front_same
            ∙ ap (λ xs. latest loc.id j (index_entries 0 xs) (replayed d.log d.front j none))
                entries
            ∙ ap (λ xs. latest loc.id j xs (replayed d.log d.front j none))
                (index_entries-append 0 es e d.consistent.storable)
            ∙ latest-append loc.id j (index_entries 0 es)
                (index_of (0 + length (entries_bytes es)) e) _
            ∙ ap
                (λ o.
                  if e.key === j
                  then dir_of loc.id (index_of o e)
                  else latest loc.id j (index_entries 0 es) (replayed d.log d.front j none))
                (omega arith)
            ∙ ap (λ x. if e.key === j then dir_of loc.id (index_of loc.offset e) else x)
                (ap (λ i. latest i j (index_entries 0 es) (replayed d.log d.front j none)) at
                  ∙ sym (replayed_active j))
        by (in_new at offset entries metadata tasks) =
            let (logged, files) = files_grown io m d e loc m' a small in
            let all_same : All (λ i. log' i ≡ d.log i) m.metadata.files =
              subst (All (λ i. log' i ≡ d.log i)) (sym d.files_are) (
                All-append _ d.front (m.active_file_id ∷ []) front_same
                  (grown_log_other io m d e loc m' a m.active_file_id (omega arith), tt)) in
            replayed_last m.metadata.files j
              (ap (λ x. x.files) metadata ∙ files ∙ ap (λ i. m.metadata.files ++ (i ∷ [])) (sym at))
              all_same
            ∙ ap
                (λ xs.
                  latest loc.id j (index_entries 0 xs) (replayed d.log m.metadata.files j none))
                entries
            ∙ ap
                (λ o.
                  if e.key === j
                  then dir_of loc.id (index_of o e)
                  else replayed d.log m.metadata.files j none)
                (sym offset)
