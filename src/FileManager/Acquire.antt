-- ===== src/FileManager/Acquire.antt =====
-- `AcquireDataFile`: handles of the data files.
use pedrodb.Base.{
  ℕ, ◌≡◌, refl, sym, ◌∙◌, true, false, Option, none, some, All, ◌==◌, ==_iff, Bool-cases, inl, inr,
  ◌||◌, not,
}
use pedrodb.Platform.{Platform}
use pedrodb.File.{Faults, MappedFile, max_file_bytes}
use pedrodb.FileManager.{
  FileManager, ReadableFile, acquire_data_file, acquire_inactive, open_readonly, readable_of,
}
use pedrodb.Lru
use pedrodb.Lru.{LruCache}
use pedrodb.Lru.Laws.{get-All, get_hit, put-All}
use pedrodb.Status.{Status, ok, io_error}

-- A cached handle reads the file with its id, whole.
abbrev pub IsHandle : ℕ × ReadableFile → Type 0
IsHandle (id, f) = (f.file ≡ id) × (f.size ≡ max_file_bytes)

-- The active file is open, and whole.
pub record HasActive (m : FileManager) : Type 0 where
  pub file : MappedFile
  pub is : m.active_data_file ≡ some file
  pub same_file : file.file ≡ m.active_file_id
  pub whole : file.length ≡ max_file_bytes

module _ ⦃p : Platform⦄ where
  -- An answer of `AcquireDataFile`: a handle of the whole file, and only the cache of handles differs.
  pub record IsAcquired (io : Faults) (id : ℕ) (m : FileManager)
      (r : Status × Option ReadableFile × FileManager) : Type 0 where
    pub file : ReadableFile
    pub cache : LruCache ReadableFile
    pub answer : r ≡ (ok, some file, record m { open_files = cache })
    pub handle : IsHandle (id, file)
    pub handles : All IsHandle cache.entries

  module _ (io : Faults) (id : ℕ) (m : FileManager) (opens : io.open_fails ≡ false)
      (sized : io.size_fails ≡ false) (exists : (m.data_files id).exists ≡ true)
      (whole : (m.data_files id).length ≡ max_file_bytes) where
    opened : ReadableFile
    opened = record { file = id; size = (m.data_files id).length }

    open_readonly-ok :
        (c : LruCache ReadableFile)
        → open_readonly io id (record m { open_files = c })
          ≡ (ok, some opened, record m { open_files = Lru.put id opened c })
    unfolding open_readonly opened
    open_readonly-ok c = simp (opens, sized, exists)

    inactive-IsAcquired :
        (o : Option ReadableFile) (c : LruCache ReadableFile)
        → ((f : ReadableFile) → o ≡ some f → IsHandle (id, f))
        → All IsHandle c.entries
        → IsAcquired io id m (acquire_inactive io id m (o, c))
    unfolding acquire_inactive
    inactive-IsAcquired (some f) c hit h = record {
      file = f;
      cache = c;
      answer = refl;
      handle = hit f refl;
      handles = h;
    }
    inactive-IsAcquired none c hit h = record {
      file = opened;
      cache = Lru.put id opened c;
      answer = open_readonly-ok c;
      handle = unfold opened in (refl, whole);
      handles = put-All IsHandle id opened c (unfold opened in (refl, whole)) h;
    }

    pub acquire_data_file-IsAcquired :
        HasActive m
        → All IsHandle m.open_files.entries
        → IsAcquired io id m (acquire_data_file io id m)
    unfolding acquire_data_file readable_of
    acquire_data_file-IsAcquired a h = elim (Bool-cases (id == m.active_file_id)) [
      | inl here ↦ record {
        file = readable_of a.file;
        cache = m.open_files;
        answer = rw (here, a.is) refl;
        handle = (a.same_file ∙ sym ((==_iff id m.active_file_id).0 here), a.whole);
        handles = h;
      }
      | inr elsewhere ↦ rw elsewhere (
          inactive-IsAcquired (Lru.get id m.open_files).0 (Lru.get id m.open_files).1
            (λ f e. get_hit IsHandle id m.open_files f h e) (get-All IsHandle id m.open_files h))
    ]

  -- `AcquireDataFile` gives a handle or an error, and only the cache of handles differs.
  pub data Acquires (m : FileManager) : Status × Option ReadableFile × FileManager → Type 0 where
    gives :
        (file : ReadableFile) (cache : LruCache ReadableFile)
        → Acquires m (ok, some file, record m { open_files = cache })
    fails :
        (cache : LruCache ReadableFile)
        → Acquires m (io_error, none, record m { open_files = cache })

  acquire_inactive-Acquires :
      (io : Faults) (id : ℕ) (m : FileManager) (o : Option ReadableFile) (c : LruCache ReadableFile)
      → Acquires m (acquire_inactive io id m (o, c))
  unfolding acquire_inactive open_readonly
  acquire_inactive-Acquires io id m (some f) c = gives f c
  acquire_inactive-Acquires io id m none c =
      elim (Bool-cases (io.open_fails || not (m.data_files id).exists)) [
        | inl broken ↦ rw broken (fails c)
        | inr opens ↦ elim (Bool-cases io.size_fails) [
          | inl broken ↦ rw (opens, broken) (fails c)
          | inr sized ↦ rw (opens, sized) (gives _ _)
        ]
      ]

  pub acquire_data_file-Acquires :
      (io : Faults) (id : ℕ) (m : FileManager)
      → HasActive m
      → Acquires m (acquire_data_file io id m)
  unfolding acquire_data_file
  acquire_data_file-Acquires io id m a = elim (Bool-cases (id == m.active_file_id)) [
    | inl here ↦ rw (here, a.is) (gives (readable_of a.file) m.open_files)
    | inr elsewhere ↦
        rw elsewhere (
          acquire_inactive-Acquires io id m (Lru.get id m.open_files).0 (Lru.get id m.open_files).1)
  ]
