-- ===== src/Db/Recovery/Kept.antt =====
-- What recovery keeps of a database.
use pedrodb.Base.{ℕ, ◌≡◌, refl, ◌∙◌}
use pedrodb.Format.Record.Location.{Location}
use pedrodb.Index.{IndexMap}
use pedrodb.Db.{Db, update_unused}
use pedrodb.Db.Put.Index.{update_unused_keeps}

module _ ⦃t : IndexMap⦄ where
  -- Only the index and the bookkeeping of compaction differ.
  pub record IsKept (db db' : Db) : Type 0 where
    pub files : db'.files ≡ db.files
    pub options : db'.options ≡ db.options
    pub max_file : db'.max_file ≡ db.max_file
    pub readonly : db'.readonly ≡ db.readonly
    pub read_cache : db'.read_cache ≡ db.read_cache

  pub IsKept-refl : (db : Db) → IsKept db db
  IsKept-refl db = record {
    files = refl;
    options = refl;
    max_file = refl;
    readonly = refl;
    read_cache = refl;
  }

  pub IsKept-trans : {a b c : Db} → IsKept a b → IsKept b c → IsKept a c
  IsKept-trans x y = record {
    files = y.files ∙ x.files;
    options = y.options ∙ x.options;
    max_file = y.max_file ∙ x.max_file;
    readonly = y.readonly ∙ x.readonly;
    read_cache = y.read_cache ∙ x.read_cache;
  }

  pub IsKept-index :
      {a b : Db} (indices : t.Map) → IsKept a b → IsKept a (record b { indices = indices })
  IsKept-index indices k = record {
    files = k.files;
    options = k.options;
    max_file = k.max_file;
    readonly = k.readonly;
    read_cache = k.read_cache;
  }

  pub update_unused-IsKept : (loc : Location) (n : ℕ) (db : Db) → IsKept db (update_unused loc n db)
  update_unused-IsKept loc n db =
      let (_, files, options, max_file, readonly, read_cache) = update_unused_keeps loc n db in
      record {
        files = files;
        options = options;
        max_file = max_file;
        readonly = readonly;
        read_cache = read_cache;
      }
