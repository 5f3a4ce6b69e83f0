-- ===== src/Db/Recovery/Entries.antt =====
-- What the recovered index is.
use pedrodb.Base.{
  ℕ, ◌+◌, ◌*◌, ◌^◌, ◌≤◌, ◌<◌, ◌≡◌, refl, ap, sym, ◌∙◌, arith, List, [], ◌∷◌, Bool, true, false,
  Option, none, some, if◌then◌else◌, ◌===◌, All,
}
use pedrodb.Format.Record.{EntryType, set, delete, empty}
use pedrodb.Format.Record.RoundTrip.{IsWritten}
use pedrodb.Format.Record.Location.{Location, Dir, rank, gt, eq}
use pedrodb.Format.Index
use pedrodb.Format.Index.RoundTrip.{IsStorable}
use pedrodb.Index.{IndexMap}
use pedrodb.Db.{Db, update_unused}
use pedrodb.Db.Put.Index.{update_unused_keeps, find_same}
use pedrodb.Db.Recovery.Kept.{IsKept, IsKept-refl, IsKept-trans, IsKept-index, update_unused-IsKept}
use pedrodb.Db.Recovery.{
  indexed, unindexed, recover_entry, recover_type, recover_set, recover_delete,
}

abbrev pub dir_of_type : EntryType → Location → ℕ → Option Dir
dir_of_type set loc len = some (record { entry_size = len; loc = loc })
dir_of_type _ loc len = none

-- What the index has for a key after an entry of that key.
abbrev pub dir_of : ℕ → Index.Entry → Option Dir
dir_of id e = dir_of_type e.entry_type (record { id = id; offset = e.offset }) e.len

-- What a key has after a sequence of entries: what the last entry of the key says.
unfoldable pub latest : ℕ → List ℕ → List Index.Entry → Option Dir → Option Dir
latest id j [] d = d
latest id j (e ∷ es) d = latest id j es (if e.key === j then dir_of id e else d)

-- No entry of a key in an index has reached the location.
abbrev pub IsOlder : Option Dir → Location → Type 0
IsOlder none loc = Unit
IsOlder (some dir) loc = (rank dir.loc < rank loc) × (dir.loc.offset < 2 ^ 32)

-- The entries stand in ascending order, the first of them not below an offset.
abbrev pub IsSorted : ℕ → List Index.Entry → Type 0
IsSorted offset [] = Unit
IsSorted offset (e ∷ es) = (offset ≤ e.offset) × IsSorted (e.offset + 1) es

module _ ⦃t : IndexMap⦄ where
  -- An entry that is newer than what the index has takes effect.
  pub record Recovered (id : ℕ) (e : Index.Entry) (db : Db) (r : Option Db) : Type 0 where
    pub db' : Db
    pub goes : r ≡ some db'
    pub keeps : IsKept db db'
    pub index :
        (j : List ℕ)
        → t.find db'.indices j ≡ (if e.key === j then dir_of id e else t.find db.indices j)

  abbrev place : ℕ → Index.Entry → Location
  place id e = record { id = id; offset = e.offset }

  older-gt :
      (a b : Location)
      → a.offset < 2 ^ 32
      → b.offset < 2 ^ 32
      → rank a < rank b
      → (gt a b ≡ false) × (eq a b ≡ false)
  unfolding gt eq
  older-gt a b ha hb h = ground arith

  set-Recovered :
      (id : ℕ) (e : Index.Entry) (o : Option Dir) (db : Db)
      → e.entry_type ≡ set
      → e.offset < 2 ^ 32
      → IsOlder o (place id e)
      → Recovered id e db (recover_set (place id e) e o db)
  unfolding recover_entry
  set-Recovered id e none db is small old = record {
    db' = _;
    goes = refl;
    keeps = IsKept-index _ (IsKept-refl db);
    index = λ j. rw is (t.find-assign db.indices e.key j _);
  }
  set-Recovered id e (some dir) db is small (old, fits) =
      let (not_gt, not_eq) = older-gt dir.loc (place id e) fits small old in
      let (i, f, o, m, r, _) = update_unused_keeps dir.loc dir.entry_size db in
      record {
        db' = indexed (place id e) e (update_unused dir.loc dir.entry_size db);
        goes = rw (not_gt, not_eq) refl;
        keeps = IsKept-index _ (update_unused-IsKept dir.loc dir.entry_size db);
        index = λ j. rw is (t.find-assign _ e.key j _ ∙ rw i refl);
      }

  delete-Recovered :
      (id : ℕ) (e : Index.Entry) (o : Option Dir) (db : Db)
      → e.entry_type ≡ delete
      → t.find db.indices e.key ≡ o
      → e.offset < 2 ^ 32
      → IsOlder o (place id e)
      → Recovered id e db (recover_delete (place id e) e o db)
  unfolding recover_entry
  delete-Recovered id e none db is at small old =
      let (i, f, o, m, r, _) = update_unused_keeps (place id e) e.len db in
      record {
        db' = _;
        goes = refl;
        keeps = update_unused-IsKept (place id e) e.len db;
        index = λ j. rw (is, i) (find_same db e.key j at);
      }
  delete-Recovered id e (some dir) db is at small (old, fits) =
      let (not_gt, not_eq) = older-gt dir.loc (place id e) fits small old in
      let db1 = update_unused (place id e) e.len db in
      let (i, f, o, m, r, _) = update_unused_keeps (place id e) e.len db in
      let (i', f', o', m', r', _) = update_unused_keeps dir.loc dir.entry_size db1 in
      record {
        db' = unindexed e (update_unused dir.loc dir.entry_size db1);
        goes = rw not_gt refl;
        keeps = IsKept-index _ (
            IsKept-trans (update_unused-IsKept (place id e) e.len db)
              (update_unused-IsKept dir.loc dir.entry_size db1));
        index = λ j. rw is (t.find-erase _ e.key j ∙ rw (i', i) refl);
      }

  -- Where the location that the index has for the key of a storable entry, if any, is below that of
  -- the entry and has a 32-bit offset, `Recovery(id, entry)` ends, with the location of the entry for
  -- the key, or nothing for a tombstone, and what was there for the other keys; but for the
  -- bookkeeping of compaction nothing else changes.
  pub recover_entry-newer :
      (id : ℕ) (e : Index.Entry) (db : Db)
      → IsStorable e
      → IsOlder (t.find db.indices e.key) (place id e)
      → Recovered id e db (recover_entry id e db)
  unfolding recover_entry
  recover_entry-newer id e db s old = by_type e.entry_type s.written refl
    where
      by_type :
          (u : EntryType)
          → IsWritten u
          → e.entry_type ≡ u
          → Recovered id e db (recover_type u (place id e) e (t.find db.indices e.key) db)
      by_type set w is = set-Recovered id e (t.find db.indices e.key) db is s.offset_fits old
      by_type delete w is =
          delete-Recovered id e (t.find db.indices e.key) db is refl s.offset_fits old
      by_type empty w is = absurd w
      by_type (EntryType.other n) w is = absurd w

  -- The entries of a file, in a list, as the loops of `Recovery(id)` go through them.
  unfoldable pub recover_all : ℕ → List Index.Entry → Db → Option Db
  recover_all id [] db = some db
  recover_all id (e ∷ es) db = elim (recover_entry id e db) [
    | none ↦ none
    | some db' ↦ recover_all id es db'
  ]

  -- All locations in the index are below a place in a file.
  abbrev pub IsBelow : Db → ℕ → ℕ → Type 0
  IsBelow db id offset =
      (j : List ℕ) (d : Dir)
      → t.find db.indices j ≡ some d
      → (rank d.loc < id * 2 ^ 32 + offset) × (d.loc.offset < 2 ^ 32)

  below-IsOlder :
      (o : Option Dir) (id offset : ℕ) (e : Index.Entry)
      → offset ≤ e.offset
      → ((d : Dir) → o ≡ some d → (rank d.loc < id * 2 ^ 32 + offset) × (d.loc.offset < 2 ^ 32))
      → IsOlder o (place id e)
  below-IsOlder none id offset e up below = tt
  below-IsOlder (some d) id offset e up below =
      let (low, fits) = below d refl in (omega arith, fits)

  pub dir_of_type_loc :
      (u : EntryType) (loc : Location) (len : ℕ) (d : Dir)
      → dir_of_type u loc len ≡ some d
      → d.loc ≡ loc
  dir_of_type_loc set loc len d h = ground arith
  dir_of_type_loc delete loc len d h = cc
  dir_of_type_loc empty loc len d h = cc
  dir_of_type_loc (EntryType.other n) loc len d h = cc

  IsBelow-after :
      (id offset : ℕ) (e : Index.Entry) (db db' : Db)
      → offset ≤ e.offset
      → e.offset < 2 ^ 32
      → IsBelow db id offset
      → ((j : List ℕ)
          → t.find db'.indices j ≡ (if e.key === j then dir_of id e else t.find db.indices j))
      → IsBelow db' id (e.offset + 1)
  IsBelow-after id offset e db db' up fits below index j d h = at (e.key === j) (sym (index j) ∙ h)
    where
      at :
          (same : Bool)
          → (if same then dir_of id e else t.find db.indices j) ≡ some d
          → (rank d.loc < id * 2 ^ 32 + (e.offset + 1)) × (d.loc.offset < 2 ^ 32)
      at true h =
          let loc = dir_of_type_loc e.entry_type (place id e) e.len d h in
          (omega (arith, ap rank loc), omega (arith, ap (λ l. l.offset) loc))
      at false h = let (low, fits') = below j d h in (omega arith, fits')

  recover_all_step :
      (id : ℕ) (e : Index.Entry) (es : List Index.Entry) (db db' : Db)
      → recover_entry id e db ≡ some db'
      → recover_all id (e ∷ es) db ≡ recover_all id es db'
  unfolding recover_all
  recover_all_step id e es db db' h = rw (h, recover_all) refl

  -- Recovering entries in ascending order, all behind what the index has, ends, and leaves for each
  -- key what the last entry of the key says; but for the bookkeeping of compaction nothing else
  -- changes.
  pub recover_all-latest :
      (id offset : ℕ) (es : List Index.Entry) (db : Db)
      → All IsStorable es
      → IsSorted offset es
      → IsBelow db id offset
      → (db' : Db) × (recover_all id es db ≡ some db')
        × IsKept db db'
        × ((j : List ℕ) → t.find db'.indices j ≡ latest id j es (t.find db.indices j))
  unfolding recover_all latest
  recover_all-latest id offset [] db s sorted below = (db, refl, IsKept-refl db, λ j. refl)
  recover_all-latest id offset (e ∷ es) db (se, s) (up, sorted) below =
      let r =
        recover_entry-newer id e db se
          (below-IsOlder (t.find db.indices e.key) id offset e up (below e.key)) in
      let (db', goes, keeps, index) =
        recover_all-latest id (e.offset + 1) es r.db' s sorted
          (IsBelow-after id offset e db r.db' up se.offset_fits below r.index) in
      (
        db',
        recover_all_step id e es db r.db' r.goes ∙ goes,
        IsKept-trans r.keeps keeps,
        λ j. index j ∙ ap (latest id j es) (r.index j),
      )
