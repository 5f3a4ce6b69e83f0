-- ===== src/SegmentDb/Scan.antt =====
-- The iterator of `SegmentDB::GetIterator`, over the segments one after the other. A segment is named
-- by its place: `alive` says of which places `lock()` of the weak pointer gets the database, and
-- `entries` lists an index in the order of the third-party map. What the thread's buffer has when the
-- iterator of a segment is made is arbitrary.
pub mod Same
pub mod Rounds
pub mod Total
use pedrodb.Base.{
  ℕ, zero, suc, ◌+◌, List, Bool, true, false, not, Option, none, some, length, get_elem?, set, leb,
  if◌then◌else◌,
}
use pedrodb.Platform.{Platform}
use pedrodb.Buffer.{ReadableBuffer}
use pedrodb.Format.Record.{Entry}
use pedrodb.Format.Record.Location.{Dir}
use pedrodb.File.{Faults}
use pedrodb.FileManager.{FileManager, Run, done, crash, out_of_fuel}
use pedrodb.Index.{IndexMap}
use pedrodb.Db.{Db}
use pedrodb.Db.Scan
use pedrodb.Db.Scan.{EntryIterator, is_valid}
use pedrodb.SegmentDb.{SegmentDb}

-- `current` comes with the place of the segment that `lock` holds.
pub record SegmentIterator : Type 0 where
  pub db_index : ℕ
  pub current : Option (ℕ × EntryIterator)

-- `GetIterator`
abbrev pub segment_iterator : SegmentIterator
segment_iterator = record { db_index = 0; current = none }

-- `Next` dereferences `current`.
unfoldable pub next_entry : SegmentIterator → Run Entry
next_entry it = elim it.current [ none ↦ crash | some (i, current) ↦ done current.next ]

-- `Close`
unfoldable pub close : SegmentIterator → SegmentIterator
close it = record it { current = none }

module _ ⦃p : Platform⦄ ⦃t : IndexMap⦄ where
  -- How a round of the loop of `Valid` ends.
  pub data Round : Type 0 where
    answer : Bool → SegmentIterator → SegmentDb → Round
    again : SegmentIterator → SegmentDb → Round

  after_valid :
      ℕ → SegmentIterator → SegmentDb → Db → Run (Bool × EntryIterator × FileManager) → Run Round
  after_valid i it segments db (done (true, current, files)) = done (
      answer true (record it { current = some (i, current) })
        (set segments i (record db { files = files })))
  after_valid i it segments db (done (false, current, files)) =
      done (again (record it { current = none }) (set segments i (record db { files = files })))
  after_valid i it segments db crash = crash
  after_valid i it segments db out_of_fuel = out_of_fuel

  -- `current->Valid()`
  pub check_current : Faults → ℕ → EntryIterator → SegmentIterator → SegmentDb → Run Round
  unfolding after_valid
  check_current io i current it segments = elim (get_elem? segments i) [
    | none ↦ crash
    | some db ↦ after_valid i it segments db (is_valid io current db.files)
  ]

  module _ (io : Faults) (alive : ℕ → Bool) (entries : t.Map → List Dir)
      (buffers : ℕ → ReadableBuffer) where
    -- Where there is no current iterator, that of the next segment is made.
    pub open_next : SegmentIterator → SegmentDb → Run Round
    unfolding check_current
    open_next it segments =
        let it' : SegmentIterator = record it { db_index = it.db_index + 1 } in
        if leb (length segments) it.db_index
        then done (answer false it segments)
        else if not (alive it.db_index)
        then done (again it' segments)
        else elim (get_elem? segments it.db_index) [
          | none ↦ crash
          | some db ↦
              check_current io it.db_index
                (Scan.get_iterator (entries db.indices) (buffers it.db_index)) it' segments
        ]

    valid_round : SegmentIterator → SegmentDb → Run Round
    unfolding open_next check_current
    valid_round it segments = elim it.current [
      | none ↦ open_next it segments
      | some (i, current) ↦ check_current io i current it segments
    ]

    -- `Valid`. A round that goes on has left a segment, so that the number of segments and two is
    -- enough fuel.
    unfoldable pub segment_valid :
        ℕ → SegmentIterator → SegmentDb → Run (Bool × SegmentIterator × SegmentDb)
    unfolding valid_round
    segment_valid zero it segments = out_of_fuel
    segment_valid (suc fuel) it segments = elim (valid_round it segments) [
      | done (answer found it' segments') ↦ done (found, it', segments')
      | done (again it' segments') ↦ segment_valid fuel it' segments'
      | crash ↦ crash
      | out_of_fuel ↦ out_of_fuel
    ]
