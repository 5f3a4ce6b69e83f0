-- ===== src/SegmentDb/Scan/Total.antt =====
-- `Valid` of the iterator over the segments ends.
use pedrodb.Base.{
  ℕ, zero, suc, ◌+◌, ◌≤◌, ◌<◌, ◌≡◌, refl, ap, sym, ◌∙◌, arith, List, Bool, false, none, some,
  length, Option-cases, inl, inr,
}
use mathlib.Core.Path.{subst}
use native.Mathlib.Decide.{dec_lt}
use pedrodb.Platform.{Platform}
use pedrodb.Buffer.{ReadableBuffer}
use pedrodb.Format.Record.Location.{Dir}
use pedrodb.File.{Faults}
use pedrodb.FileManager.{Run, done, crash, out_of_fuel}
use pedrodb.Index.{IndexMap}
use pedrodb.Db.Scan.{EntryIterator}
use pedrodb.SegmentDb.{SegmentDb}
use pedrodb.SegmentDb.Scan.Same.{AreActive, IsSame, IsSame-refl, IsSame-trans}
use pedrodb.SegmentDb.Scan.{
  SegmentIterator, Round, answer, again, check_current, open_next, valid_round, segment_valid,
}
use pedrodb.SegmentDb.Scan.Rounds.{
  IsAnswer, Ends, answers, goes_on, check_current-Ends, open_next_over, open_next-Ends,
}

module _ ⦃p : Platform⦄ ⦃t : IndexMap⦄ where
  pub record IsAnswered (segments : SegmentDb) (r : Run (Bool × SegmentIterator × SegmentDb))
      : Type 0 where
    pub found : Bool
    pub it : SegmentIterator
    pub segments' : SegmentDb
    pub went : r ≡ done (found, it, segments')
    pub is : IsAnswer segments found it segments'

  module _ (io : Faults) (alive : ℕ → Bool) (entries : t.Map → List Dir)
      (buffers : ℕ → ReadableBuffer) where
    -- What the loop does with a round.
    after_round : ℕ → Run Round → Run (Bool × SegmentIterator × SegmentDb)
    after_round fuel r = elim r [
      | done (answer found it' segments') ↦ done (found, it', segments')
      | done (again it' segments') ↦ segment_valid io alive entries buffers fuel it' segments'
      | crash ↦ crash
      | out_of_fuel ↦ out_of_fuel
    ]

    segment_valid_lem :
        (fuel : ℕ) (it : SegmentIterator) (segments : SegmentDb)
        → segment_valid io alive entries buffers (suc fuel) it segments
          ≡ after_round fuel (valid_round io alive entries buffers it segments)
    unfolding segment_valid after_round
    segment_valid_lem fuel it segments = refl

    IsAnswered-trans :
        {a b : SegmentDb} {r : Run (Bool × SegmentIterator × SegmentDb)}
        → IsSame a b
        → IsAnswered b r
        → IsAnswered a r
    IsAnswered-trans same x = record {
      found = x.found;
      it = x.it;
      segments' = x.segments';
      went = x.went;
      is = record {
        checked = x.is.checked;
        over = λ h. let (none_left, past) = x.is.over h in (none_left, omega (arith, same.size));
        same = IsSame-trans same x.is.same;
      };
    }

    after_round-IsAnswered :
        (fuel index : ℕ) (segments : SegmentDb) (r : Run Round)
        → Ends segments index r
        → ((it' : SegmentIterator) (segments' : SegmentDb)
            → it'.current ≡ none
            → it'.db_index ≡ index
            → IsSame segments segments'
            → AreActive segments'
            → IsAnswered segments' (segment_valid io alive entries buffers fuel it' segments'))
        → IsAnswered segments (after_round fuel r)
    unfolding after_round
    after_round-IsAnswered fuel index segments _ (answers found it' segments' is) rest = record {
      found = found;
      it = it';
      segments' = segments';
      went = refl;
      is = is;
    }
    after_round-IsAnswered fuel index segments _ (goes_on it' segments' none_yet at same active)
          rest =
        IsAnswered-trans same (rest it' segments' none_yet at same active)

    round_none :
        (it : SegmentIterator) (segments : SegmentDb)
        → it.current ≡ none
        → valid_round io alive entries buffers it segments
          ≡ open_next io alive entries buffers it segments
    unfolding valid_round
    round_none it segments none_yet = rw none_yet refl

    round_some :
        (it : SegmentIterator) (segments : SegmentDb) (i : ℕ) (current : EntryIterator)
        → it.current ≡ some (i, current)
        → valid_round io alive entries buffers it segments ≡ check_current io i current it segments
    unfolding valid_round
    round_some it segments i current is = rw is refl

    abbrev Answered : ℕ → SegmentIterator → SegmentDb → Type 0
    Answered fuel it segments =
        IsAnswered segments (segment_valid io alive entries buffers fuel it segments)

    no_more :
        (fuel : ℕ) (it : SegmentIterator) (segments : SegmentDb)
        → it.current ≡ none
        → length segments ≤ it.db_index
        → Answered (suc fuel) it segments
    unfolding after_round
    no_more fuel it segments none_yet past = record {
      found = false;
      it = it;
      segments' = segments;
      went =
          segment_valid_lem fuel it segments
          ∙ ap (after_round fuel) (
              round_none it segments none_yet
              ∙ open_next_over io alive entries buffers it segments past);
      is = record { checked = λ h. cc; over = λ h. (none_yet, past); same = IsSame-refl segments };
    }

    -- Without a current iterator.
    segment_valid-none :
        (fuel : ℕ) (it : SegmentIterator) (segments : SegmentDb)
        → it.current ≡ none
        → AreActive segments
        → length segments ≤ it.db_index + fuel
        → Answered (suc fuel) it segments
    segment_valid-none zero it segments none_yet h enough =
        no_more zero it segments none_yet (omega arith)
    segment_valid-none (suc fuel) it segments none_yet h enough =
        elim (dec_lt it.db_index (length segments)) [
          | no over ↦ no_more (suc fuel) it segments none_yet (omega arith)
          | yes inside ↦
              subst (IsAnswered segments)
                (sym (
                  segment_valid_lem (suc fuel) it segments
                  ∙ ap (after_round (suc fuel)) (round_none it segments none_yet)))
                (after_round-IsAnswered (suc fuel) (it.db_index + 1) segments _
                  (open_next-Ends io alive entries buffers it segments none_yet h inside)
                  (λ it' segments' gone at same active.
                    segment_valid-none fuel it' segments' gone active
                      (omega (arith, at, same.size))))
        ]

    -- What `Valid` needs of an iterator: its current segment is one of the segments.
    abbrev pub IsWithin : SegmentIterator → SegmentDb → Type 0
    IsWithin it segments =
        (i : ℕ) (current : EntryIterator) → it.current ≡ some (i, current) → i < length segments

    -- Where every segment has an active file that is open, `Valid` of an iterator on these segments
    -- ends, with the number of segments and two as fuel, whatever calls of the system fail and
    -- whichever segments are still alive. If it answers true, the current entry has a checksum that
    -- fits; if it answers false, there is no current iterator and no segment left. The segments differ
    -- afterwards in their caches of handles only.
    pub segment_valid-IsAnswered :
        (it : SegmentIterator) (segments : SegmentDb)
        → AreActive segments
        → IsWithin it segments
        → IsAnswered segments
            (segment_valid io alive entries buffers (length segments + 2) it segments)
    segment_valid-IsAnswered it segments h within =
        subst (λ n. Answered n it segments) more
          (elim (Option-cases it.current) [
            | inl gone ↦ segment_valid-none (suc (length segments)) it segments gone h (omega arith)
            | inr ((i, current), is) ↦
                subst (IsAnswered segments)
                  (sym (
                    segment_valid_lem (suc (length segments)) it segments
                    ∙ ap (after_round (suc (length segments)))
                        (round_some it segments i current is)))
                  (after_round-IsAnswered (suc (length segments)) it.db_index segments _
                    (check_current-Ends io i current it segments h (within i current is))
                    (λ it' segments' gone at same active.
                      segment_valid-none (length segments) it' segments' gone active
                        (omega (arith, same.size))))
          ])
      where
        more : suc (suc (length segments)) ≡ length segments + 2
        more = omega arith
