-- ===== src/SegmentDb/Scan/Same.antt =====
-- Segments that differ in their caches of handles only.
use pedrodb.Base.{
  ℕ, ◌≡◌, refl, ap, sym, ◌∙◌, some, length, get_elem?, set, All, All-set, length-set, get_elem?-set,
  inl, inr,
}
use pedrodb.Platform.{Platform}
use pedrodb.FileManager.{ReadableFile}
use pedrodb.FileManager.Acquire.{HasActive}
use pedrodb.Index.{IndexMap}
use pedrodb.Lru.{LruCache}
use pedrodb.Db.{Db}
use pedrodb.SegmentDb.{SegmentDb}

module _ ⦃p : Platform⦄ ⦃t : IndexMap⦄ where
  abbrev pub with_handles : Db → LruCache ReadableFile → Db
  with_handles db cache = record db { files = record db.files { open_files = cache } }

  -- Every segment has an active file that is open.
  abbrev pub AreActive : SegmentDb → Type 0
  AreActive segments = All (λ (db : Db). HasActive db.files) segments

  -- The segments differ in their caches of handles only.
  pub record IsSame (segments segments' : SegmentDb) : Type 0 where
    pub size : length segments' ≡ length segments
    pub each :
        (i : ℕ) (db' : Db)
        → get_elem? segments' i ≡ some db'
        → (db : Db) × (cache : LruCache ReadableFile) × (get_elem? segments i ≡ some db)
          × (db' ≡ with_handles db cache)

  pub IsSame-refl : (segments : SegmentDb) → IsSame segments segments
  IsSame-refl segments = record {
    size = refl;
    each = λ i db' is. (db', db'.files.open_files, is, refl);
  }

  pub IsSame-trans : {a b c : SegmentDb} → IsSame a b → IsSame b c → IsSame a c
  IsSame-trans x y = record {
    size = y.size ∙ x.size;
    each = λ i db' is.
        let (db1, cache1, is1, same1) = y.each i db' is in
        let (db, cache, is0, same0) = x.each i db1 is1 in
        (db, cache1, is0, same1 ∙ ap (λ d. with_handles d cache1) same0);
  }

  pub IsSame-set :
      (segments : SegmentDb) (i : ℕ) (db : Db) (cache : LruCache ReadableFile)
      → get_elem? segments i ≡ some db
      → IsSame segments (set segments i (with_handles db cache))
  IsSame-set segments i db cache is = record {
    size = length-set segments i (with_handles db cache);
    each = λ j db' at. elim (get_elem?-set segments i j (with_handles db cache) db' at) [
      | inl (here, same) ↦ (db, cache, ap (get_elem? segments) here ∙ is, sym same)
      | inr (other, same) ↦ (db', db'.files.open_files, same, refl)
    ];
  }

  pub AreActive-set :
      (segments : SegmentDb) (i : ℕ) (db : Db) (cache : LruCache ReadableFile)
      → AreActive segments
      → HasActive db.files
      → AreActive (set segments i (with_handles db cache))
  AreActive-set segments i db cache h a =
      All-set (λ (db : Db). HasActive db.files) segments i (with_handles db cache) h
        (record { file = a.file; is = a.is; same_file = a.same_file; whole = a.whole })
