-- ===== src/Db/Put/Index.antt =====
-- What `HandlePut` does to the index, on all four of its branches.
use pedrodb.Base.{
  ℕ, ◌≡◌, refl, arith, List, [], ◌∷◌, ap, ===→eq, max, Option, none, some, if◌then◌else◌, ◌===◌,
}
use pedrodb.Platform.{Platform}
use pedrodb.Format.Record.{Entry, size_of}
use pedrodb.Format.Record.Location.{Location, Dir}
use pedrodb.Index.{IndexMap}
use pedrodb.Status.{Status, ok, not_found}
use pedrodb.Db.{Db, update_unused}
use pedrodb.Db.View.{is_empty}
use pedrodb.Db.Put.{put_index, put_found}

-- The answer: kNotFound exactly for the deletion of a key that is not there.
abbrev pub put_status {ℓ} : {A : Type ℓ} → List ℕ → Option A → Status
put_status [] none = not_found
put_status _ _ = ok

module _ ⦃t : IndexMap⦄ where
  -- `UpdateUnused` changes nothing but the bookkeeping of compaction.
  pub update_unused_keeps :
      (loc : Location) (n : ℕ) (db : Db)
      → (let db' = update_unused loc n db in
          (db'.indices ≡ db.indices)
          × (db'.files ≡ db.files)
          × (db'.options ≡ db.options)
          × (db'.max_file ≡ db.max_file)
          × (db'.readonly ≡ db.readonly)
          × (db'.read_cache ≡ db.read_cache))
  unfolding update_unused
  update_unused_keeps loc n db = ground arith

  pub find_same :
      (db : Db) (key j : List ℕ)
      → t.find db.indices key ≡ none
      → t.find db.indices j ≡ (if key === j then none else t.find db.indices j)
  find_same db key j h =
      ground (arith, h, ===→eq key j, ap (λ k. t.find db.indices k) {x = key} {y = j})

module _ ⦃p : Platform⦄ ⦃t : IndexMap⦄ where
  abbrev pub new_dir : Entry → Location → Dir
  new_dir e loc = record { entry_size = size_of e; loc = loc }

  -- The state after `put_index`, seen from the state before.
  pub record PutEffect (e : Entry) (loc : Location) (key value : List ℕ) (db : Db) (r : Status × Db)
      : Type 0 where
    pub answer : r.0 ≡ put_status value (t.find db.indices key)
    pub index :
        (j : List ℕ)
        → t.find r.1.indices j ≡ (
            if key === j
            then (if is_empty value then none else some (new_dir e loc))
            else t.find db.indices j)
    pub files : r.1.files ≡ db.files
    pub options : r.1.options ≡ db.options
    pub readonly : r.1.readonly ≡ db.readonly
    pub read_cache : r.1.read_cache ≡ db.read_cache

  put_found_effect :
      (e : Entry) (loc : Location) (key value : List ℕ) (o : Option Dir) (db : Db)
      → t.find db.indices key ≡ o
      → PutEffect e loc key value db (put_found e loc key value o db)
  unfolding put_index
  put_found_effect e loc key [] none db q =
      let (i, f, o, m, r, rc) = update_unused_keeps loc (size_of e) db in
      record {
        answer = rw q;
        index = λ j. rw i (find_same db key j q);
        files = f;
        options = o;
        readonly = r;
        read_cache = rc;
      }
  put_found_effect e loc key (b ∷ bs) none db q = record {
    answer = refl;
    index = λ j. t.find-assign db.indices key j _;
    files = refl;
    options = refl;
    readonly = refl;
    read_cache = refl;
  }
  put_found_effect e loc key [] (some dir) db q =
      let (i, f, o, m, r, rc) = update_unused_keeps dir.loc dir.entry_size db in
      record {
        answer = rw q;
        index = λ j. rw i (t.find-erase db.indices key j);
        files = f;
        options = o;
        readonly = r;
        read_cache = rc;
      }
  put_found_effect e loc key (b ∷ bs) (some dir) db q =
      let (i, f, o, m, r, rc) = update_unused_keeps dir.loc dir.entry_size db in
      record {
        answer = refl;
        index = λ j. rw (t.find-assign, i, t.find-erase) (ground arith);
        files = f;
        options = o;
        readonly = r;
        read_cache = rc;
      }

  -- On every branch the index has the new entry at the key, or nothing if the value is empty, and is
  -- as before at the other keys; the files, the options and the mode are as before; and the answer is
  -- kNotFound exactly for the deletion of a key that is not there.
  pub put_index_effect :
      (e : Entry) (loc : Location) (key value : List ℕ) (db : Db)
      → PutEffect e loc key value db (put_index e loc key value db)
  unfolding put_index
  put_index_effect e loc key value db =
      let f =
        put_found_effect e loc key value (t.find db.indices key)
          (record db { max_file = max db.max_file loc.id }) refl in
      record {
        answer = f.answer;
        index = f.index;
        files = f.files;
        options = f.options;
        readonly = f.readonly;
        read_cache = f.read_cache;
      }

  put_found-max_file :
      (e : Entry) (loc : Location) (key value : List ℕ) (o : Option Dir) (db : Db)
      → (put_found e loc key value o db).1.max_file ≡ db.max_file
  unfolding put_index
  put_found-max_file e loc key [] none db = (update_unused_keeps loc (size_of e) db).3
  put_found-max_file e loc key (b ∷ bs) none db = refl
  put_found-max_file e loc key [] (some dir) db = (update_unused_keeps dir.loc dir.entry_size db).3
  put_found-max_file e loc key (b ∷ bs) (some dir) db =
      (update_unused_keeps dir.loc dir.entry_size db).3

  pub put_index-max_file :
      (e : Entry) (loc : Location) (key value : List ℕ) (db : Db)
      → (put_index e loc key value db).1.max_file ≡ max db.max_file loc.id
  unfolding put_index
  put_index-max_file e loc key value db =
      put_found-max_file e loc key value (t.find db.indices key)
        (record db { max_file = max db.max_file loc.id })
