-- ===== src/Db/Kept.antt =====
-- What a database keeps where its files grow.
use pedrodb.Base.{All, All-imp, ◌≤◌, ℕ, ◌<◌, ◌≡◌, refl, ap, sym, ◌∙◌, arith, List}
use pedrodb.Platform.{Platform}
use pedrodb.Format.Record.{Entry}
use pedrodb.Format.Record.Location.{Location}
use pedrodb.Format.Record.RoundTrip.{IsStorable}
use pedrodb.FileManager.{FileManager}
use pedrodb.FileManager.Consistent.{IsConsistent, IsStored}
use pedrodb.FileManager.Acquire.{HasActive}
use pedrodb.Lru.{LruCache}
use pedrodb.SegmentCache.Laws.{Every}
use pedrodb.ReadCache.{ReadCache, file_of}
use pedrodb.ReadCache.Supply.{IsFresh}
use pedrodb.Index.{IndexMap}
use pedrodb.Db.{Db}
use pedrodb.Db.View.{compressed, HasValue}

module _ ⦃p : Platform⦄ ⦃t : IndexMap⦄ where
  -- A value that a database holds is held by a later one with the same index entry.
  pub HasValue-kept :
      (db db' : Db) (key value : List ℕ)
      → ((l : Location) (x : Entry) → IsStored db.files l x → IsStorable x → IsStored db'.files l x)
      → db'.options ≡ db.options
      → t.find db'.indices key ≡ t.find db.indices key
      → HasValue db key value
      → HasValue db' key value
  HasValue-kept db db' key value kept same index h = record {
    dir = h.dir;
    entry = h.entry;
    found = index ∙ h.found;
    storable = h.storable;
    stored = kept h.dir.loc h.entry h.stored h.storable;
    is_set = h.is_set;
    key_is = h.key_is;
    value_is = h.value_is ∙ ap (λ o. compressed o value) (sym same);
    valid = h.valid;
    size_is = h.size_is;
  }

  pub IsConsistent-HasActive : (m : FileManager) → IsConsistent m → HasActive m
  IsConsistent-HasActive m c = record {
    file = c.file;
    is = c.active;
    same_file = c.same_file;
    whole = c.whole;
  }

  -- Cached blocks stay right where the files before the active one stay as they are.
  pub Every-IsFresh :
      (m m' : FileManager) (cache : ReadCache)
      → m.active_file_id ≤ m'.active_file_id
      → ((i : ℕ) → i < m.active_file_id → m'.data_files i ≡ m.data_files i)
      → Every (IsFresh m) cache
      → Every (IsFresh m') cache
  Every-IsFresh m m' cache grows same fresh =
      All-imp (λ (c : LruCache (List ℕ)). All (IsFresh m) c.entries)
        (λ (c : LruCache (List ℕ)). All (IsFresh m') c.entries) cache
        (λ c h.
          All-imp (IsFresh m) (IsFresh m') c.entries
            (λ x f. (omega (arith, f.0), f.1 ∙ rw (same (file_of x.0) f.0) refl)) h)
        fresh
