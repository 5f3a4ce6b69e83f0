-- ===== src/SegmentDb/Open/Restart.antt =====
-- A segmented database that is opened on the files of an earlier process.
use pedrodb.Base.{
  ℕ, zero, suc, ◌<◌, ◌≡◌, refl, ap, sym, ◌∙◌, arith, List, [], ◌∷◌, some, length, get_elem?, true,
  false,
}
use mathlib.Core.Path.{subst}
use pedrodb.Platform.{Platform}
use pedrodb.Buffer.{ReadableBuffer}
use pedrodb.File.{Faults, faulty}
use pedrodb.Index.{IndexMap}
use pedrodb.Metadata.{path_accepted}
use pedrodb.Status.{Status, ok}
use pedrodb.Db.{Db}
use pedrodb.Db.View.{Contents, Shows, IsReady}
use pedrodb.Db.Open.{init}
use pedrodb.Db.Restart.{IsRecoverable, IsStarted, restarted}
use pedrodb.Db.Restart.Init.{restarted-IsStarted}
use pedrodb.SegmentDb.{SegmentDb, opened, with_segment}
use pedrodb.SegmentDb.Refines.{part, IsServing, AreReady}
use pedrodb.SegmentDb.Open.{init_segments, segment_open, answered}

module _ ⦃p : Platform⦄ ⦃t : IndexMap⦄ where
  all_ok : List Db → List (Status × Db)
  all_ok [] = []
  all_ok (db ∷ dbs) = (ok, db) ∷ all_ok dbs

  opened-all_ok : (dbs : List Db) → opened (all_ok dbs) ≡ (ok, some dbs)
  unfolding opened with_segment all_ok
  opened-all_ok [] = refl
  opened-all_ok (db ∷ dbs) = ap (with_segment db) (opened-all_ok dbs)

  -- Segments of which each was started.
  record AreStarted (ios : ℕ → Faults) (buffers : ℕ → ℕ → ReadableBuffer) (firsts : List Db)
      (contents : ℕ → Contents) : Type 0 where
    dbs : List Db
    went : init_segments ios buffers firsts ≡ some (all_ok dbs)
    size : length dbs ≡ length firsts
    each :
        (i : ℕ) (db : Db)
        → get_elem? dbs i ≡ some db
        → Shows db (contents i) × IsReady db × IsRecoverable db

  init_segments_step :
      (ios : ℕ → Faults) (buffers : ℕ → ℕ → ReadableBuffer) (first : Db) (firsts : List Db)
      (r : Status × Db) (rs : List (Status × Db))
      → init (ios 0) (buffers 0) first ≡ some r
      → init_segments (λ i. ios (suc i)) (λ i. buffers (suc i)) firsts ≡ some rs
      → init_segments ios buffers (first ∷ firsts) ≡ some (r ∷ rs)
  unfolding init_segments
  init_segments_step ios buffers first firsts r rs h hs = rw (h, hs, init_segments) refl

  init_segments-AreStarted :
      (ios : ℕ → Faults) (buffers : ℕ → ℕ → ReadableBuffer) (firsts : List Db)
      (contents : ℕ → Contents)
      → ((i : ℕ) (first : Db)
          → get_elem? firsts i ≡ some first
          → IsStarted (ios i) (buffers i) first (contents i))
      → AreStarted ios buffers firsts contents
  unfolding init_segments all_ok
  init_segments-AreStarted ios buffers [] contents starts = record {
    dbs = [];
    went = refl;
    size = refl;
    each = λ i db h. cc;
  }
  init_segments-AreStarted ios buffers (first ∷ firsts) contents starts =
      let d = starts 0 first refl in
      let rest =
        init_segments-AreStarted (λ i. ios (suc i)) (λ i. buffers (suc i)) firsts
          (λ i. contents (suc i)) (λ i. starts (suc i)) in
      record {
        dbs = d.db ∷ rest.dbs;
        went = init_segments_step ios buffers first firsts _ _ d.went rest.went;
        size = ap suc rest.size;
        each = each d rest;
      }
    where
      each :
          (d : IsStarted (ios 0) (buffers 0) first (contents 0))
          (rest : AreStarted
            (λ i. ios (suc i))
            (λ i. buffers (suc i))
            firsts
            (λ i. contents (suc i)))
          (i : ℕ) (db : Db)
          → get_elem? (d.db ∷ rest.dbs) i ≡ some db
          → Shows db (contents i) × IsReady db × IsRecoverable db
      each d rest zero db h =
          let same : d.db ≡ db = cc in
          subst (λ x. Shows x (contents 0) × IsReady x × IsRecoverable x) same
            (d.shows, d.ready, d.recoverable)
      each d rest (suc i) db h = rest.each i db h

  -- A later process can recover each segment.
  abbrev pub AreRecoverable : SegmentDb → Type 0
  AreRecoverable segments = (i : ℕ) (db : Db) → get_elem? segments i ≡ some db → IsRecoverable db

  module _ (read_segments read_cache_bytes max_open_files : ℕ) where
    -- The constructors of the segments in a later process, with the paths of the segments.
    abbrev pub restarted_all : (ℕ → List ℕ) → List Db → List Db
    restarted_all paths [] = []
    restarted_all paths (db ∷ dbs) =
        restarted (paths 0) read_segments read_cache_bytes max_open_files db
        ∷ restarted_all (λ i. paths (suc i)) dbs

    length-restarted_all :
        (paths : ℕ → List ℕ) (dbs : List Db) → length (restarted_all paths dbs) ≡ length dbs
    length-restarted_all paths [] = refl
    length-restarted_all paths (db ∷ dbs) = ap suc (length-restarted_all (λ i. paths (suc i)) dbs)

    get_elem?-restarted_all :
        (paths : ℕ → List ℕ) (dbs : List Db) (i : ℕ) (first : Db)
        → get_elem? (restarted_all paths dbs) i ≡ some first
        → (db : Db) × (get_elem? dbs i ≡ some db)
          × (restarted (paths i) read_segments read_cache_bytes max_open_files db ≡ first)
    get_elem?-restarted_all paths [] i first h = cc
    get_elem?-restarted_all paths (db ∷ dbs) zero first h =
        let same : _ ≡ first = cc in (db, refl, same)
    get_elem?-restarted_all paths (db ∷ dbs) (suc i) first h =
        get_elem?-restarted_all (λ j. paths (suc j)) dbs i first h

    module _ (ios : ℕ → Faults) (buffers : ℕ → ℕ → ReadableBuffer) (paths : ℕ → List ℕ)
        (segments : SegmentDb) (s : Contents) where
      -- The segmented database was opened, and serves the map.
      pub record IsReopened : Type 0 where
        pub segments' : SegmentDb
        pub went :
            segment_open ios buffers (restarted_all paths segments) ≡ some (ok, some segments')
        pub serving : IsServing segments' s
        pub ready : AreReady segments'
        pub recoverable : AreRecoverable segments'

      -- Where no call of the system fails and the paths are such as the test wants: on the files of
      -- segments that stand for the parts of a map, can append and are recoverable, `Open` of a
      -- segmented database whose segments have at least one segment of the read cache answers kOk and
      -- segments that stand for the parts of the same map, can append and are recoverable.
      pub segment_open-IsReopened :
          ((i : ℕ) → faulty (ios i) ≡ false)
          → ((i : ℕ) → path_accepted (paths i) ≡ true)
          → 0 < read_segments
          → IsServing segments s
          → AreReady segments
          → AreRecoverable segments
          → IsReopened
      unfolding segment_open answered
      segment_open-IsReopened works accepted some_segment serving ready recoverable =
          let n = length segments in
          let x =
            init_segments-AreStarted ios buffers (restarted_all paths segments) (λ i. part n i s)
              (λ i first at.
                let (db, is, same) = get_elem?-restarted_all paths segments i first at in
                subst (λ f. IsStarted (ios i) (buffers i) f (part n i s)) same
                  (restarted-IsStarted (ios i) (works i) (buffers i) (paths i) read_segments
                    read_cache_bytes max_open_files db (recoverable i db is) (part n i s)
                    (accepted i) some_segment (serving.shows i db is) (ready i db is))) in
          let size : length x.dbs ≡ n = x.size ∙ length-restarted_all paths segments in
          record {
            segments' = x.dbs;
            went = ap answered x.went ∙ ap some (opened-all_ok x.dbs);
            serving = record {
              some_segment = omega (arith, size, serving.some_segment);
              shows = λ i db is. subst (λ m. Shows db (part m i s)) (sym size) (x.each i db is).0;
            };
            ready = λ i db is. (x.each i db is).1;
            recoverable = λ i db is. (x.each i db is).2;
          }
