-- ===== src/ReadCache/Supply.antt =====
-- The supplier of a block, against the bytes of the file.
use pedrodb.Base.{
  ℕ, ◌+◌, ◌-◌, ◌<◌, ◌≤◌, ◌≡◌, refl, sym, ap, ◌∙◌, arith, List, length, min, All, Option, none, some,
  true, false, ◌==◌, ==_iff,
}
use pedrodb.Base.Bytes.{read_bytes, length-read_bytes}
use pedrodb.Platform.{Platform}
use pedrodb.File.{Faults, max_file_bytes}
use pedrodb.FileManager.{FileManager, ReadableFile, acquire_data_file}
use pedrodb.FileManager.Acquire.{IsHandle, HasActive, acquire_data_file-IsAcquired}
use pedrodb.Lru.{LruCache}
use pedrodb.Status.{ok}
use pedrodb.ReadCache.{block_size, offset_of, file_of, pread, open_file, read_block, supply}

-- A cached block is one of a file before the active one, and has the bytes that the file has.
abbrev pub IsFresh : FileManager → ℕ × List ℕ → Type 0
IsFresh m (k, block) =
    (file_of k < m.active_file_id)
    × (block ≡ read_bytes (m.data_files (file_of k)).bytes (offset_of k) block_size)

abbrev pub IsFileOf : ℕ → Option ReadableFile → Type 0
IsFileOf id none = Unit
IsFileOf id (some f) = IsHandle (id, f)

-- The file manager but for its cache of handles, and the handle that a context has.
pub record IsSame (m : FileManager) (id : ℕ) (s : Option ReadableFile × FileManager) : Type 0 where
  pub handles : LruCache ReadableFile
  pub same : s.1 ≡ record m { open_files = handles }
  pub are_handles : All IsHandle handles.entries
  pub file : IsFileOf id s.0

module _ ⦃p : Platform⦄ (io : Faults) (id : ℕ) (m : FileManager) (opens : io.open_fails ≡ false)
    (sized : io.size_fails ≡ false) (exists : (m.data_files id).exists ≡ true)
    (whole : (m.data_files id).length ≡ max_file_bytes) (active : HasActive m)
    (old : id < m.active_file_id) where
  module _ (k : ℕ) (same_file : file_of k ≡ id)
      (inside : offset_of k + block_size ≤ max_file_bytes) where
    block : List ℕ
    block = read_bytes (m.data_files id).bytes (offset_of k) block_size

    read_block_lem :
        (f : ReadableFile) (handles : LruCache ReadableFile)
        → IsHandle (id, f)
        → read_block k (ok, some f, record m { open_files = handles })
          ≡ some (ok, block, (some f, record m { open_files = handles }))
    unfolding read_block pread block
    read_block_lem f handles (at, _) =
        let n : min block_size ((m.data_files id).length - offset_of k) ≡ block_size =
          omega (arith, whole) in
        let n' : (length (read_bytes (m.data_files id).bytes (offset_of k) block_size)
              == block_size)
            ≡ true =
          (==_iff _ _).1 (length-read_bytes (m.data_files id).bytes (offset_of k) block_size) in
        rw (at, n, n') refl

    block-IsFresh : IsFresh m (k, block)
    unfolding block
    block-IsFresh = (
      rw same_file old,
      ap (λ i. read_bytes (m.data_files i).bytes (offset_of k) block_size) (sym same_file),
    )

    pub supply_lem :
        (s : Option ReadableFile × FileManager)
        → IsSame m id s
        → (v : List ℕ) × (s' : Option ReadableFile × FileManager) × (supply io k s
            ≡ some (ok, v, s'))
          × IsFresh m (k, v)
          × IsSame m id s'
    unfolding supply open_file
    supply_lem (some f, m') h = (
      block,
      (some f, record m { open_files = h.handles }),
      ap (λ x. read_block k (ok, some f, x)) h.same ∙ read_block_lem f h.handles h.file,
      block-IsFresh,
      record { handles = h.handles; same = refl; are_handles = h.are_handles; file = h.file },
    )
    supply_lem (none, m') h =
        let a =
          acquire_data_file-IsAcquired io id (record m { open_files = h.handles }) opens sized
            exists whole
            (record {
              file = active.file;
              is = active.is;
              same_file = active.same_file;
              whole = active.whole;
            })
            h.are_handles in
        (
          block,
          (some a.file, record m { open_files = a.cache }),
          ap (λ x. read_block k (open_file io k (none, x))) h.same
              ∙ ap
                  (λ i. read_block k (acquire_data_file io i (record m { open_files = h.handles })))
                  same_file
              ∙ ap (read_block k) a.answer
              ∙ read_block_lem a.file a.cache a.handle,
          block-IsFresh,
          record { handles = a.cache; same = refl; are_handles = a.handles; file = a.handle },
        )
