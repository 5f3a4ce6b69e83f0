-- ===== src/SegmentDb/Open.antt =====
-- `SegmentDB::Open`: every segment is initialised, and then the first error is looked for. The
-- segments share nothing, so their order does not matter. A recovery that fails for good ends the
-- process, which is `none`.
pub mod Restart
use pedrodb.Base.{ℕ, zero, suc, List, [], ◌∷◌, Option, none, some}
use pedrodb.Platform.{Platform}
use pedrodb.Buffer.{ReadableBuffer}
use pedrodb.File.{Faults}
use pedrodb.Index.{IndexMap}
use pedrodb.Status.{Status}
use pedrodb.Db.{Db}
use pedrodb.Db.Open.{init}
use pedrodb.SegmentDb.{SegmentDb, opened}

module _ ⦃p : Platform⦄ ⦃t : IndexMap⦄ where
  -- The loop that initialises the segments, on the databases that the constructor made: the calls of
  -- the system that fail and the buffers are those of each segment.
  unfoldable pub init_segments :
      (ℕ → Faults) → (ℕ → ℕ → ReadableBuffer) → List Db → Option (List (Status × Db))
  init_segments ios buffers [] = some []
  init_segments ios buffers (db ∷ dbs) = elim (init (ios 0) (buffers 0) db) [
    | none ↦ none
    | some r ↦ elim (init_segments (λ i. ios (suc i)) (λ i. buffers (suc i)) dbs) [
      | none ↦ none
      | some rs ↦ some (r ∷ rs)
    ]
  ]

  -- What the initialised segments are answered with.
  answered : Option (List (Status × Db)) → Option (Status × Option SegmentDb)
  answered none = none
  answered (some rs) = some (opened rs)

  -- `Open`
  unfoldable pub segment_open :
      (ℕ → Faults) → (ℕ → ℕ → ReadableBuffer) → List Db → Option (Status × Option SegmentDb)
  unfolding answered
  segment_open ios buffers dbs = answered (init_segments ios buffers dbs)
