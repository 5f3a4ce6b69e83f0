-- ===== src/Db/Compact/Round.antt =====
-- One round of a compaction, against the map that the database stands for.
use pedrodb.Base.{
  ℕ, ◌+◌, ◌^◌, ◌<◌, ◌≤◌, ◌≡◌, ◌≢◌, refl, ap, sym, ◌∙◌, arith, List, true, false, Option, none, some,
  ◌===◌, ===→eq, ===_refl, if◌then◌else◌, Bool-cases, inl, inr,
}
use mathlib.Core.Path.{subst}
use pedrodb.Base.Bytes.{Holds}
use pedrodb.Platform.{Platform}
use pedrodb.Format.Record.{Entry, set, size_of, validate}
use pedrodb.Format.Record.Pack.{entry_bytes}
use pedrodb.Format.Record.Location.{Location, Dir, lt, ne, rank, compare-rank, ne→≡}
use pedrodb.Format.Record.RoundTrip.{IsStorable}
use pedrodb.File.{Faults, faulty, max_file_bytes}
use pedrodb.FileManager.{FileManager, Run, done, append}
use pedrodb.FileManager.Promise.{Appended}
use pedrodb.FileManager.Total.{Result, append_total}
use pedrodb.Index.{IndexMap}
use pedrodb.Status.{Status, ok}
use pedrodb.Db.{Db}
use pedrodb.Db.View.{Contents, HasValue, compressed}
use pedrodb.Db.Kept.{HasValue-kept}
use pedrodb.Db.Compact.{is_found, is_current, moved, move_found, move_index, compact_entry}
use pedrodb.Db.Compact.Keeps.{Keeps, current_value}

ne_refl : (l : Location) → ne l l ≡ false
unfolding ne
ne_refl l = ground arith

module _ ⦃p : Platform⦄ ⦃t : IndexMap⦄ where
  -- What a round leads to, for the entry at a location of a file before the active one: the index
  -- leads no key to the location, and to no new place of the file.
  pub record IsRound (loc : Location) (db : Db) (s : Contents) (r : Run (Status × Db))
      : Type 0 where
    pub db' : Db
    pub went : r ≡ done (ok, db')
    pub keeps : Keeps db' s
    pub index :
        (key : List ℕ) (dir : Dir)
        → t.find db'.indices key ≡ some dir
        → dir.loc.id ≡ loc.id
        → (t.find db.indices key ≡ some dir) × (dir.loc ≢ loc)
    pub file : db'.files.data_files loc.id ≡ db.files.data_files loc.id
    pub grows : db.files.active_file_id ≤ db'.files.active_file_id
    pub step : db'.files.active_file_id ≤ db.files.active_file_id + 1

  module _ (loc : Location) (e : Entry) (db : Db) (s : Contents) (k : Keeps db s)
      (st : IsStorable e)
      (holds : Holds (db.files.data_files loc.id).bytes loc.offset (entry_bytes e)) where
    -- A key that the index leads to the location is the entry's, and has its value.
    at_loc :
        (key : List ℕ) (dir : Dir)
        → t.find db.indices key ≡ some dir
        → dir.loc ≡ loc
        → (v : List ℕ) × (h : HasValue db key v) × (s key ≡ some v) × (h.dir ≡ dir) × (h.entry ≡ e)
    at_loc key dir found same = current_value db s k key dir e found st (
        subst (λ (l : Location). Holds (db.files.data_files l.id).bytes l.offset (entry_bytes e))
          (sym same) holds)

    not_current :
        is_current loc e db ≡ false
        → (key : List ℕ) (dir : Dir) → t.find db.indices key ≡ some dir
        → dir.loc ≢ loc
    not_current other key dir found same =
        let (v, h, is, same_dir, same_entry) = at_loc key dir found same in
        let type_is : e.entry_type ≡ set = ap (λ x. x.entry_type) (sym same_entry) ∙ h.is_set in
        let key_is : e.key ≡ key = ap (λ x. x.key) (sym same_entry) ∙ h.key_is in
        let find_is : t.find db.indices e.key ≡ some dir = ap (t.find db.indices) key_is ∙ found in
        let current : is_current loc e db ≡ true =
          (unfold is_current is_found in rw (type_is, find_is, same, ne_refl loc) refl) in
        cc

    IsRound-skip : is_current loc e db ≡ false → IsRound loc db s (done (ok, db))
    IsRound-skip other = record {
      db' = db;
      went = refl;
      keeps = k;
      index = λ key dir found here. (found, not_current other key dir found);
      file = refl;
      grows = omega arith;
      step = omega arith;
    }

    module _ (dir : Dir) (found : t.find db.indices e.key ≡ some dir) (same : dir.loc ≡ loc)
        (new : Location) (m' : FileManager) {io : Faults} {es : List Entry}
        (a : Appended io es db.files e new m') (old : loc.id < db.files.active_file_id) where
      new_dir : Dir
      new_dir = record { entry_size = size_of e; loc = new }

      later_loc : lt dir.loc new ≡ true
      later_loc =
          let (v, h, is, same_dir, same_entry) = at_loc e.key dir found same in
          let at = ap (λ d. rank d.loc) same_dir in
          let offset = ap (λ d. d.loc.offset) same_dir in
          (compare-rank dir.loc new (omega (arith, h.stored.inside, offset))
              (omega (arith, a.stored.inside))).0.1
            (omega (arith, a.newest h.dir.loc h.entry h.stored h.storable, at))

      moved_db : Db
      moved_db = record db { indices = t.assign db.indices e.key new_dir; files = m' }

      move_index_lem : move_index e new (record db { files = m' }) ≡ moved_db
      unfolding move_index move_found moved_db new_dir
      move_index_lem = rw (found, move_index, later_loc) refl

      find-moved_db :
          (key : List ℕ)
          → t.find moved_db.indices key
            ≡ (if e.key === key then some new_dir else t.find db.indices key)
      unfolding moved_db
      find-moved_db key = t.find-assign db.indices e.key key new_dir

      moved_value : (v : List ℕ) → s e.key ≡ some v → HasValue moved_db e.key v
      moved_value v is =
          let (w, h, w_is, same_dir, same_entry) = at_loc e.key dir found same in
          let value : v ≡ w = (let both = sym is ∙ w_is in cc) in
          record {
            dir = new_dir;
            entry = e;
            found = find-moved_db e.key ∙ rw (===_refl e.key) refl;
            storable = st;
            stored = unfold moved_db new_dir in a.stored;
            is_set = ap (λ x. x.entry_type) (sym same_entry) ∙ h.is_set;
            key_is = refl;
            value_is =
                ap (λ x. x.value) (sym same_entry)
                ∙ h.value_is
                ∙ unfold moved_db in ap (compressed db.options) (sym value);
            valid = ap validate (sym same_entry) ∙ h.valid;
            size_is = unfold new_dir in refl;
          }

      moved_present : (key v : List ℕ) → s key ≡ some v → HasValue moved_db key v
      moved_present key v is = elim (Bool-cases (e.key === key)) [
        | inl equal ↦
            let key_is = ===→eq e.key key equal in
            subst (λ j. HasValue moved_db j v) key_is (moved_value v (ap s key_is ∙ is))
        | inr other ↦
            HasValue-kept db moved_db key v
              (λ l x stored sx. unfold moved_db in a.kept l x stored sx) (unfold moved_db in refl)
              (find-moved_db key ∙ rw other refl) (k.present key v is)
      ]

      moved_absent : (key : List ℕ) → s key ≡ none → t.find moved_db.indices key ≡ none
      moved_absent key is = elim (Bool-cases (e.key === key)) [
        | inl equal ↦
            let key_is = ===→eq e.key key equal in
            let no_dir = k.absent e.key (ap s key_is ∙ is) in cc
        | inr other ↦ find-moved_db key ∙ rw other (k.absent key is)
      ]

      not_key :
          (key : List ℕ) (d : Dir)
          → t.find db.indices key ≡ some d
          → d.loc ≡ loc
          → (e.key === key) ≢ false
      not_key key d at equal other =
          let (v, h, is, same_dir, same_entry) = at_loc key d at equal in
          let key_is : e.key ≡ key = ap (λ x. x.key) (sym same_entry) ∙ h.key_is in
          let yes_it_is : (e.key === key) ≡ true = rw key_is (===_refl key) in cc

      moved_index :
          (key : List ℕ) (d : Dir)
          → t.find moved_db.indices key ≡ some d
          → d.loc.id ≡ loc.id
          → (t.find db.indices key ≡ some d) × (d.loc ≢ loc)
      moved_index key d at here = elim (Bool-cases (e.key === key)) [
        | inl equal ↦
            let new_one : t.find moved_db.indices key ≡ some new_dir =
              find-moved_db key ∙ rw equal refl in
            let same_one : new_dir ≡ d = (let both = sym new_one ∙ at in cc) in
            let id_is : new.id ≡ d.loc.id = unfold new_dir in ap (λ x. x.loc.id) same_one in
            absurd (omega (arith, id_is, here, a.active, a.grows, old))
        | inr other ↦
            let kept : t.find moved_db.indices key ≡ t.find db.indices key =
              find-moved_db key ∙ rw other refl in
            let before = sym kept ∙ at in (before, λ equal. not_key key d before equal other)
      ]

      moved-Keeps : Keeps moved_db s
      moved-Keeps = record {
        present = moved_present;
        absent = moved_absent;
        handles = unfold moved_db in rw a.handles k.handles;
        ready = record {
          consistent = unfold moved_db in a.consistent;
          fresh =
              unfold moved_db in
              λ i h.
                rw (a.others i (omega (arith, h))) (k.ready.fresh i (omega (arith, h, a.grows)));
        };
      }

  -- The next file id is a 32-bit integer, and no call of the system fails.
  module _ (io : Faults) (loc : Location) (e : Entry) (db : Db) (s : Contents) (k : Keeps db s)
      (st : IsStorable e) (fits : size_of e ≤ max_file_bytes)
      (holds : Holds (db.files.data_files loc.id).bytes loc.offset (entry_bytes e))
      (old : loc.id < db.files.active_file_id) (room : db.files.active_file_id + 1 < 2 ^ 32)
      (works : faulty io ≡ false) where
    IsRound-move :
        (dir : Dir)
        → t.find db.indices e.key ≡ some dir
        → dir.loc ≡ loc
        → IsRound loc db s (moved e db (append io 2 e db.files))
    unfolding moved moved_db
    IsRound-move dir found same =
        elim (append_total io db.files e k.ready.consistent st fits room
          (k.ready.fresh _ (omega arith))) [
            | Result.stored new m' went a ↦ record {
              db' = moved_db loc e db s k st holds dir found same new m' a old;
              went =
                  ap (moved e db) went
                  ∙ ap (λ d. done (ok, d))
                      (move_index_lem loc e db s k st holds dir found same new m' a old);
              keeps = moved-Keeps loc e db s k st holds dir found same new m' a old;
              index = moved_index loc e db s k st holds dir found same new m' a old;
              file = a.others loc.id (λ h. omega (arith, h, a.grows, old));
              grows = a.grows;
              step = a.step;
            }
            | Result.refused status m' went bad r broken ↦ cc
          ]

    found_at :
        (o : Option Dir) → is_found loc o ≡ true → (dir : Dir) × (o ≡ some dir) × (dir.loc ≡ loc)
    unfolding is_found
    found_at none h = cc
    found_at (some dir) h = (dir, refl, ne→≡ dir.loc loc (ground arith))

    -- A round keeps the map that the database stands for. Where the index has the entry at the
    -- location, it leads the key to a copy in another file afterwards.
    pub compact_entry-IsRound : IsRound loc db s (compact_entry io loc e db)
    unfolding compact_entry is_current
    compact_entry-IsRound = elim (Bool-cases (is_current loc e db)) [
      | inl current ↦
          let (dir, found, same) = found_at (t.find db.indices e.key) (ground arith) in
          rw (current, compact_entry) (IsRound-move dir found same)
      | inr other ↦ rw (other, compact_entry) (IsRound-skip loc e db s k st holds other)
    ]
