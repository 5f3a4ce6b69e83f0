-- ===== src/SegmentDb.antt =====
-- src/segment_db.cc and include/pedrodb/segment_db.h: databases side by side, of which a key has
-- one. A division by zero, where there are none, is a crash.
pub mod Refines
pub mod Open
pub mod Scan
use pedrodb.Base.{ℕ, ◌%◌, ◌^◌, List, [], ◌∷◌, Bool, Option, none, some, length, get_elem?, set}
use pedrodb.Platform.{Platform}
use pedrodb.Buffer.{ReadableBuffer}
use pedrodb.File.{Faults}
use pedrodb.FileManager.{Run, done, crash, out_of_fuel}
use pedrodb.Index.{IndexMap}
use pedrodb.Status.{Status, ok}
use pedrodb.Db.{Db}
use pedrodb.Db.Put
use pedrodb.Db.Get
use pedrodb.Db.Compact

module _ ⦃t : IndexMap⦄ where
  abbrev pub SegmentDb : Type 0
  SegmentDb = List Db

  with_segment : Db → Status × Option SegmentDb → Status × Option SegmentDb
  with_segment db (status, none) = (status, none)
  with_segment db (status, some segments) = (status, some (db ∷ segments))

  -- What `Open` answers when each segment was initialised: the first error, or the segments.
  unfoldable pub opened : List (Status × Db) → Status × Option SegmentDb
  unfolding with_segment
  opened [] = (ok, some [])
  opened ((ok, db) ∷ rest) = with_segment db (opened rest)
  opened ((status, db) ∷ rest) = (status, none)

module _ ⦃p : Platform⦄ ⦃t : IndexMap⦄ where
  -- The database of a key: `GetDB(Hash(key))`.
  abbrev pub segment_of : List ℕ → SegmentDb → ℕ
  segment_of key segments = p.hash key % 2 ^ 32 % length segments

  put_answer : ℕ → SegmentDb → Run (Status × Db) → Run (Status × SegmentDb)
  put_answer i segments (done (status, db)) = done (status, set segments i db)
  put_answer i segments crash = crash
  put_answer i segments out_of_fuel = out_of_fuel

  get_answer :
      ℕ
      → SegmentDb
      → Run (Status × Option (List ℕ) × Db)
      → Run (Status × Option (List ℕ) × SegmentDb)
  get_answer i segments (done (status, value, db)) = done (status, value, set segments i db)
  get_answer i segments crash = crash
  get_answer i segments out_of_fuel = out_of_fuel

  unfoldable pub put : Faults → List ℕ → List ℕ → SegmentDb → Run (Status × SegmentDb)
  unfolding put_answer
  put io key value segments = elim (get_elem? segments (segment_of key segments)) [
    | none ↦ crash
    | some db ↦ put_answer (segment_of key segments) segments (Put.put io key value db)
  ]

  unfoldable pub delete_key : Faults → List ℕ → SegmentDb → Run (Status × SegmentDb)
  unfolding put_answer
  delete_key io key segments = elim (get_elem? segments (segment_of key segments)) [
    | none ↦ crash
    | some db ↦ put_answer (segment_of key segments) segments (Put.delete_key io key db)
  ]

  unfoldable pub get :
      Faults
      → Bool
      → ReadableBuffer
      → List ℕ
      → SegmentDb
      → Run (Status × Option (List ℕ) × SegmentDb)
  unfolding get_answer
  get io use_cache buffer key segments = elim (get_elem? segments (segment_of key segments)) [
    | none ↦ crash
    | some db ↦ get_answer (segment_of key segments) segments (Get.get io use_cache buffer key db)
  ]

  with_first : Run Db → Run (Status × SegmentDb) → Run (Status × SegmentDb)
  with_first (done db) (done (status, segments)) = done (status, db ∷ segments)
  with_first (done db) other = other
  with_first crash rest = crash
  with_first out_of_fuel rest = out_of_fuel

  -- `Compact`: the segments, which share nothing, one after the other.
  unfoldable pub compact : Faults → ReadableBuffer → SegmentDb → Run (Status × SegmentDb)
  unfolding with_first
  compact io buffer [] = done (ok, [])
  compact io buffer (db ∷ segments) =
      with_first (Compact.compact io buffer db) (compact io buffer segments)

  -- `Flush`: what the segments answer is ignored.
  unfoldable pub flush : SegmentDb → Status
  flush segments = ok
