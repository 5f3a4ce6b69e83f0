-- ===== src/Examples/Database/Segments.antt =====
-- Segmented databases at concrete states.
use pedrodb.Base.{
  ◌+◌, ◌<◌, length, ℕ, suc, zero, ◌^◌, ◌≡◌, refl, fun_ext, arith, [], ◌∷◌, true, some, get_elem?,
}
use mathlib.Core.Path.{subst, subst₂}
use pedrodb.Platform.BigEndian.{big_endian}
use pedrodb.Buffer.{array_buffer}
use pedrodb.File.{no_faults}
use pedrodb.Index.Sample.{function_map}
use pedrodb.Db.{Db}
use pedrodb.Db.History.{IsReadable}
use pedrodb.Format.Record.{header_size}
use pedrodb.Db.View.{compressed, Shows, IsReady}
use pedrodb.SegmentDb.{SegmentDb}
use pedrodb.SegmentDb.Refines.{
  part, IsServing, AreReady, SegmentOutcome, SegmentFound, segment_put_refines, segment_get_refines,
}
use pedrodb.Examples.{a_key, a_value}
use pedrodb.SegmentDb.Scan.{segment_iterator, segment_valid}
use pedrodb.SegmentDb.Scan.Total.{IsAnswered, segment_valid-IsAnswered}
use pedrodb.Examples.Database.{
  one_db, one-Shows, a_dir, empty_db, nothing, empty-Shows, empty-IsReady,
}

abbrev two_empty : SegmentDb
two_empty = empty_db ∷ (empty_db ∷ [])

part-nothing : (i : ℕ) → nothing ≡ part 2 i nothing
part-nothing i = fun_ext (λ k. ground arith)

two_empty_lem : (i : ℕ) (db : Db) → get_elem? two_empty i ≡ some db → empty_db ≡ db
two_empty_lem zero db h = cc
two_empty_lem (suc zero) db h = cc
two_empty_lem (suc (suc i)) db h = cc

two_empty-IsServing : IsServing two_empty nothing
two_empty-IsServing = record {
  some_segment = omega arith;
  shows = λ i db h. subst₂ Shows (two_empty_lem i db h) (part-nothing i) empty-Shows;
}

two_empty-AreReady : AreReady two_empty
two_empty-AreReady i db h = subst IsReady (two_empty_lem i db h) empty-IsReady

segment_put_refines_example : SegmentOutcome no_faults a_key a_value two_empty nothing
segment_put_refines_example =
    segment_put_refines a_key two_empty nothing two_empty-IsServing no_faults a_value
      two_empty-AreReady (omega arith)
      (λ db h.
        subst
          (λ (d : Db).
            (header_size + length a_key + length (compressed d.options a_value) < 2 ^ 32)
            × (d.files.active_file_id + 1 < 2 ^ 32))
          (two_empty_lem _ db h) (omega arith, omega arith))

segment_get_refines_example :
    SegmentFound a_key two_empty nothing two_empty-IsServing no_faults true (array_buffer [])
segment_get_refines_example =
    segment_get_refines a_key two_empty nothing two_empty-IsServing no_faults true (array_buffer [])
      two_empty-AreReady refl refl
      (λ db h.
        subst (λ (d : Db). (d.files.active_file_id < 2 ^ 32) × IsReadable true a_key d)
          (two_empty_lem _ db h) (omega arith, λ dir e d. cc))

-- An iterator over two segments, of which each has an entry.
segment_valid-IsAnswered_example : IsAnswered (one_db ∷ (one_db ∷ [])) (
    segment_valid no_faults
      (λ i. true)
      (λ m. a_dir ∷ [])
      (λ i. array_buffer [])
      4
      segment_iterator
      (one_db ∷ (one_db ∷ [])))
segment_valid-IsAnswered_example =
    segment_valid-IsAnswered no_faults (λ i. true) (λ m. a_dir ∷ []) (λ i. array_buffer [])
      segment_iterator (one_db ∷ (one_db ∷ [])) (one-Shows.active, (one-Shows.active, tt))
      (λ i current h. cc)
