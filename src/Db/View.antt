-- ===== src/Db/View.antt =====
-- What a database means: the map from keys to values that it stands for.
use pedrodb.Base.{
  ℕ, ◌<◌, ◌≡◌, List, [], ◌∷◌, All, length, Bool, true, false, Option, none, some, if◌then◌else◌,
  ◌===◌,
}
use pedrodb.Platform.{Platform}
use pedrodb.Format.Record.{set, Entry, size_of, validate}
use pedrodb.Format.Record.Location.{Dir}
use pedrodb.Format.Record.RoundTrip.{IsStorable}
use pedrodb.FileManager.Consistent.{IsConsistent, IsStored}
use pedrodb.FileManager.Acquire.{IsHandle, HasActive}
use pedrodb.SegmentCache.Laws.{Every}
use pedrodb.ReadCache.Supply.{IsFresh}
use pedrodb.Index.{IndexMap}
use pedrodb.Db.{Options, Db}

-- The abstract database: a partial map.
abbrev pub Contents : Type 0
Contents = List ℕ → Option (List ℕ)

-- Storing an empty value removes the key.
abbrev pub is_empty : List ℕ → Bool
is_empty [] = true
is_empty (b ∷ bs) = false

abbrev pub stored_value : List ℕ → Option (List ℕ)
stored_value value = if is_empty value then none else some value

abbrev pub updated : Contents → List ℕ → List ℕ → Contents
updated s key value j = if key === j then stored_value value else s j

module _ ⦃p : Platform⦄ where
  abbrev pub compressed : Options → List ℕ → List ℕ
  compressed options value = if options.compress_value then p.compress value else value

module _ ⦃p : Platform⦄ ⦃t : IndexMap⦄ where
  -- The index leads from the key to an entry on the disk that holds the key and the value, with a
  -- checksum that fits.
  pub record HasValue (db : Db) (key value : List ℕ) : Type 0 where
    pub dir : Dir
    pub entry : Entry
    pub found : t.find db.indices key ≡ some dir
    pub storable : IsStorable entry
    pub stored : IsStored db.files dir.loc entry
    pub is_set : entry.entry_type ≡ set
    pub key_is : entry.key ≡ key
    pub value_is : entry.value ≡ compressed db.options value
    pub valid : validate entry ≡ true
    pub size_is : dir.entry_size ≡ size_of entry

  -- The read cache holds blocks of files that are no longer written, as they are, and the newest
  -- file that the database knows is the active one.
  pub record IsCached (db : Db) : Type 0 where
    pub newest : db.max_file ≡ db.files.active_file_id
    pub fresh : Every (IsFresh db.files) db.read_cache
    pub segments : 0 < length db.read_cache

  -- The database stands for the map.
  pub record Shows (db : Db) (s : Contents) : Type 0 where
    pub present : (key value : List ℕ) → s key ≡ some value → HasValue db key value
    pub absent : (key : List ℕ) → s key ≡ none → t.find db.indices key ≡ none
    pub handles : All IsHandle db.files.open_files.entries
    pub active : HasActive db.files
    pub cached : IsCached db

  -- The database can append: its file manager keeps its invariant, and no file follows the active one.
  pub record IsReady (db : Db) : Type 0 where
    pub consistent : IsConsistent db.files
    pub fresh : (i : ℕ) → db.files.active_file_id < i → (db.files.data_files i).exists ≡ false
