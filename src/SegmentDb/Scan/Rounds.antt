-- ===== src/SegmentDb/Scan/Rounds.antt =====
-- The rounds of `Valid` of the iterator over the segments.
use pedrodb.Base.{
  ℕ, ◌+◌, ◌≤◌, ◌<◌, ◌≡◌, refl, ap, sym, ◌∙◌, List, Bool, true, false, none, some, length, get_elem?,
  set, All-get_elem?, get_elem?-some, Bool-cases, inl, inr, le-leb, leb-lt,
}
use mathlib.Core.Path.{subst}
use pedrodb.Platform.{Platform}
use pedrodb.Buffer.{ReadableBuffer}
use pedrodb.Format.Record.{validate}
use pedrodb.Format.Record.Location.{Dir}
use pedrodb.File.{Faults}
use pedrodb.FileManager.{ReadableFile, Run, done}
use pedrodb.FileManager.Acquire.{HasActive}
use pedrodb.Index.{IndexMap}
use pedrodb.Lru.{LruCache}
use pedrodb.Db.{Db}
use pedrodb.Db.Scan
use pedrodb.Db.Scan.{EntryIterator, is_valid}
use pedrodb.Db.Scan.Total.{is_valid-Answers}
use pedrodb.SegmentDb.{SegmentDb}
use pedrodb.SegmentDb.Scan.Same.{
  with_handles, AreActive, IsSame, IsSame-refl, IsSame-set, AreActive-set,
}
use pedrodb.SegmentDb.Scan.{
  SegmentIterator, Round, answer, again, after_valid, check_current, open_next,
}

module _ ⦃p : Platform⦄ ⦃t : IndexMap⦄ where
  -- An answer: an entry whose checksum fits, or there are no more segments.
  pub record IsAnswer (segments : SegmentDb) (found : Bool) (it : SegmentIterator)
      (segments' : SegmentDb) : Type 0 where
    pub checked :
        found ≡ true
        → (i : ℕ) × (current : EntryIterator) × (it.current ≡ some (i, current))
          × (validate current.next ≡ true)
    pub over : found ≡ false → (it.current ≡ none) × (length segments ≤ it.db_index)
    pub same : IsSame segments segments'

  -- How a round ends: with an answer, or without a current iterator.
  pub data Ends (segments : SegmentDb) (index : ℕ) : Run Round → Type 0 where
    answers :
        (found : Bool) (it' : SegmentIterator) (segments' : SegmentDb)
        → IsAnswer segments found it' segments'
        → Ends segments index (done (answer found it' segments'))
    goes_on :
        (it' : SegmentIterator) (segments' : SegmentDb)
        → it'.current ≡ none
        → it'.db_index ≡ index
        → IsSame segments segments'
        → AreActive segments'
        → Ends segments index (done (again it' segments'))

  check_current_lem :
      (io : Faults) (i : ℕ) (current : EntryIterator) (it : SegmentIterator) (segments : SegmentDb)
      (db : Db)
      → get_elem? segments i ≡ some db
      → check_current io i current it segments
        ≡ after_valid i it segments db (is_valid io current db.files)
  unfolding check_current
  check_current_lem io i current it segments db is = rw (is, check_current) refl

  after_valid-Ends :
      (i : ℕ) (it : SegmentIterator) (segments : SegmentDb) (db : Db) (found : Bool)
      (current : EntryIterator) (cache : LruCache ReadableFile)
      → (found ≡ true → validate current.next ≡ true)
      → IsSame segments (set segments i (with_handles db cache))
      → AreActive (set segments i (with_handles db cache))
      → Ends segments it.db_index (
          after_valid i it segments db
            (done (found, current, record db.files { open_files = cache })))
  unfolding after_valid
  after_valid-Ends i it segments db true current cache checked same active =
      answers true (record it { current = some (i, current) }) _
        (record { checked = λ h. (i, current, refl, checked refl); over = λ h. cc; same = same })
  after_valid-Ends i it segments db false current cache checked same active =
      goes_on (record it { current = none }) _ refl refl same active

  pub check_current-Ends :
      (io : Faults) (i : ℕ) (current : EntryIterator) (it : SegmentIterator) (segments : SegmentDb)
      → AreActive segments
      → i < length segments
      → Ends segments it.db_index (check_current io i current it segments)
  check_current-Ends io i current it segments h inside =
      let (db, is) = get_elem?-some segments i inside in
      let active = All-get_elem? (λ (db : Db). HasActive db.files) segments i db h is in
      let a = is_valid-Answers io current db.files active in
      subst (Ends segments it.db_index)
        (sym (
          check_current_lem io i current it segments db is
          ∙ ap (after_valid i it segments db) a.went))
        (after_valid-Ends i it segments db a.found a.it a.cache a.checked
          (IsSame-set segments i db a.cache is) (AreActive-set segments i db a.cache h active))

  module _ (io : Faults) (alive : ℕ → Bool) (entries : t.Map → List Dir)
      (buffers : ℕ → ReadableBuffer) where
    pub open_next_over :
        (it : SegmentIterator) (segments : SegmentDb)
        → length segments ≤ it.db_index
        → open_next io alive entries buffers it segments ≡ done (answer false it segments)
    unfolding open_next
    open_next_over it segments past = rw (le-leb (length segments) it.db_index past) refl

    open_next_dead :
        (it : SegmentIterator) (segments : SegmentDb)
        → it.db_index < length segments
        → alive it.db_index ≡ false
        → open_next io alive entries buffers it segments
          ≡ done (again (record it { db_index = it.db_index + 1 }) segments)
    unfolding open_next
    open_next_dead it segments inside dead =
        rw (leb-lt (length segments) it.db_index inside, dead) refl

    open_next_alive :
        (it : SegmentIterator) (segments : SegmentDb) (db : Db)
        → it.db_index < length segments
        → alive it.db_index ≡ true
        → get_elem? segments it.db_index ≡ some db
        → open_next io alive entries buffers it segments
          ≡ check_current io it.db_index
              (Scan.get_iterator (entries db.indices) (buffers it.db_index))
              (record it { db_index = it.db_index + 1 })
              segments
    unfolding open_next
    open_next_alive it segments db inside lives is =
        rw (leb-lt (length segments) it.db_index inside, lives, is, open_next) refl

    -- Without a current iterator the next segment is tried.
    pub open_next-Ends :
        (it : SegmentIterator) (segments : SegmentDb)
        → it.current ≡ none
        → AreActive segments
        → it.db_index < length segments
        → Ends segments (it.db_index + 1) (open_next io alive entries buffers it segments)
    open_next-Ends it segments none_yet h inside = elim (Bool-cases (alive it.db_index)) [
      | inl lives ↦
          let (db, is) = get_elem?-some segments it.db_index inside in
          subst (Ends segments (it.db_index + 1))
            (sym (open_next_alive it segments db inside lives is))
            (check_current-Ends io it.db_index _ (record it { db_index = it.db_index + 1 }) segments
              h inside)
      | inr dead ↦
          subst (Ends segments (it.db_index + 1)) (sym (open_next_dead it segments inside dead))
            (goes_on _ segments none_yet refl (IsSame-refl segments) h)
    ]
