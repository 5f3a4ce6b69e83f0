-- ===== src/Db/Scan/Total.antt =====
-- `Valid` of the iterator over a database ends.
use pedrodb.Base.{◌≡◌, refl, List, [], ◌∷◌, Bool, true, false, Option, inl, inr, Bool-cases}
use pedrodb.Platform.{Platform}
use pedrodb.Format.Record.{Entry, validate}
use pedrodb.Format.Record.Location.{Dir}
use pedrodb.File.{Faults}
use pedrodb.FileManager.{FileManager, ReadableFile, Run, done}
use pedrodb.FileManager.Acquire.{HasActive, Acquires, gives, fails, acquire_data_file-Acquires}
use pedrodb.Iterator.{RecordIterator, open_iterator, valid}
use pedrodb.Lru.{LruCache}
use pedrodb.Status.{Status}
use pedrodb.Db.Scan.{EntryIterator, scan, try_file, accept, is_valid}

module _ ⦃p : Platform⦄ where
  -- An answer of `Valid`: whether an entry was found, whose checksum fits.
  pub record Answers (m : FileManager) (r : Run (Bool × EntryIterator × FileManager)) : Type 0 where
    pub found : Bool
    pub it : EntryIterator
    pub cache : LruCache ReadableFile
    pub went : r ≡ done (found, it, record m { open_files = cache })
    pub checked : found ≡ true → validate it.next ≡ true
    pub over : found ≡ false → it.dirs ≡ []

  accept_checked :
      (dirs : List Dir) (e : Entry) (r : Bool × RecordIterator)
      → (accept dirs e r).0 ≡ true
      → validate (accept dirs e r).1.next ≡ true
  unfolding accept
  accept_checked dirs e (false, it) h = cc
  accept_checked dirs e (true, it) h = h

  accept-dirs :
      (dirs : List Dir) (e : Entry) (r : Bool × RecordIterator) → (accept dirs e r).1.dirs ≡ dirs
  unfolding accept
  accept-dirs dirs e (false, it) = refl
  accept-dirs dirs e (true, it) = refl

  -- A round of the loop.
  record Tries (dirs : List Dir) (m : FileManager) (r : Run (Bool × EntryIterator × FileManager))
      : Type 0 where
    found : Bool
    it : EntryIterator
    cache : LruCache ReadableFile
    went : r ≡ done (found, it, record m { open_files = cache })
    checked : found ≡ true → validate it.next ≡ true

  try_file-Tries :
      (dirs : List Dir) (it : EntryIterator) (m : FileManager)
      (r : Status × Option ReadableFile × FileManager)
      → Acquires m r
      → Tries dirs m (try_file dirs it r)
  unfolding try_file
  try_file-Tries dirs it m _ (gives file cache) =
      let r = valid (m.data_files file.file).bytes (open_iterator file.size it.buffer) in
      record {
        found = (accept dirs it.next r).0;
        it = (accept dirs it.next r).1;
        cache = cache;
        went = refl;
        checked = accept_checked dirs it.next r;
      }
  try_file-Tries dirs it m _ (fails cache) = record {
    found = false;
    it = record it { dirs = dirs };
    cache = cache;
    went = refl;
    checked = λ h. cc;
  }

  scan-Answers :
      (io : Faults) (dirs : List Dir) (it : EntryIterator) (m : FileManager)
      → HasActive m
      → Answers m (scan io dirs it m)
  unfolding scan
  scan-Answers io [] it m a = record {
    found = false;
    it = record it { dirs = [] };
    cache = m.open_files;
    went = refl;
    checked = λ h. cc;
    over = λ h. refl;
  }
  scan-Answers io (dir ∷ dirs) it m a =
      let t = try_file-Tries dirs it m _ (acquire_data_file-Acquires io dir.loc.id m a) in
      elim (Bool-cases t.found) [
        | inl hit ↦ record {
          found = true;
          it = t.it;
          cache = t.cache;
          went = rw (t.went, hit, scan) refl;
          checked = λ h. t.checked hit;
          over = λ h. cc;
        }
        | inr miss ↦
            let rest =
              scan-Answers io dirs t.it (record m { open_files = t.cache })
                (record { file = a.file; is = a.is; same_file = a.same_file; whole = a.whole }) in
            record {
              found = rest.found;
              it = rest.it;
              cache = rest.cache;
              went = rw (t.went, miss, scan) rest.went;
              checked = rest.checked;
              over = rest.over;
            }
      ]

  -- On a file manager whose active file is open, `Valid` ends: it has found an entry whose checksum
  -- fits, or the index has no more; and only the cache of handles differs.
  pub is_valid-Answers :
      (io : Faults) (it : EntryIterator) (m : FileManager)
      → HasActive m
      → Answers m (is_valid io it m)
  unfolding is_valid
  is_valid-Answers io it m a = scan-Answers io it.dirs it m a
