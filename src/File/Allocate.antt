-- ===== src/File/Allocate.antt =====
-- Bounds of the mapped file.
use pedrodb.Base.{ℕ, ◌+◌, ◌≤◌, ◌<◌, ◌≡◌, ◌≢◌, ◌⊎◌, arith, true, false}
use pedrodb.Base.Bytes.{Memory}
use pedrodb.File.{
  DiskFile, Faults, open_mapping, faulty, MappedFile, no_offset, allocate, max_file_bytes,
}
use pedrodb.Status.{ok}

-- The write index stays within the file.
pub record IsBounded (f : MappedFile) : Type 0 where
  pub within : f.write_index ≤ f.length
  pub small : f.length ≤ max_file_bytes

-- On a file of at most 128 MB whose write index is within it, `Allocate` keeps the write index within
-- the file, and answers an offset exactly if `n` more bytes fit: then the buffer is the `n` bytes at
-- the old write index, which moves by `n`; otherwise the file is as before.
pub allocate-IsBounded :
    (f : MappedFile) (m : Memory) (n : ℕ)
    → IsBounded f
    → IsBounded (allocate f m n).1
      × ((((allocate f m n).0.offset ≡ no_offset)
            × (f.length < f.write_index + n)
            × ((allocate f m n).1 ≡ f))
          ⊎ (((allocate f m n).0.offset ≡ f.write_index)
              × ((allocate f m n).0.offset ≢ no_offset)
              × (f.write_index + n ≤ f.length)
              × ((allocate f m n).0.base ≡ f.write_index)
              × ((allocate f m n).0.capacity ≡ n)
              × ((allocate f m n).1.write_index ≡ f.write_index + n)))
unfolding allocate
allocate-IsBounded f m n b = ground arith

-- A file that was opened exists and has the capacity as its length. One that existed with any
-- length but 0 is as before; a new one is filled with zero bytes.
pub open_mapping-ok :
    (io : Faults) (capacity : ℕ) (f : DiskFile)
    → (open_mapping io capacity f).0 ≡ ok
    → ((open_mapping io capacity f).1.length ≡ capacity)
      × ((open_mapping io capacity f).1.exists ≡ true)
      × (f.exists ≡ true → f.length ≢ 0 → (open_mapping io capacity f).1 ≡ f)
      × (f.exists ≡ false → (open_mapping io capacity f).1.bytes ≡ λ i. 0)
unfolding open_mapping
open_mapping-ok io capacity f h = (ground arith, ground arith, ground arith, ground arith)

-- A new file is always opened, unless a call fails.
pub open_mapping_new :
    (io : Faults) (capacity : ℕ) (f : DiskFile)
    → 0 < capacity
    → f.exists ≡ false
    → (open_mapping io capacity f).0 ≢ ok
    → faulty io ≡ true
unfolding open_mapping
open_mapping_new io capacity f some_bytes new bad = ground arith

-- A file that exists with the capacity as its length is opened as it is, unless a call fails.
pub open_mapping_again :
    (io : Faults) (capacity : ℕ) (f : DiskFile)
    → faulty io ≡ false
    → 0 < capacity
    → f.length ≡ capacity
    → f.exists ≡ true
    → (open_mapping io capacity f).0 ≡ ok
unfolding open_mapping
open_mapping_again io capacity f works some_bytes whole exists = ground arith

pub open_mapping_opens :
    (io : Faults) (capacity : ℕ) (f : DiskFile)
    → faulty io ≡ false
    → 0 < capacity
    → f.exists ≡ false
    → (open_mapping io capacity f).0 ≡ ok
unfolding open_mapping
open_mapping_opens io capacity f works some_bytes new = ground arith

-- A mapping of no bytes is refused, and leaves a file that is new, or was empty, with no bytes.
pub open_mapping_empty :
    (io : Faults) (f : DiskFile)
    → faulty io ≡ false
    → (f.exists ≡ true → f.length ≡ 0)
    → ((open_mapping io 0 f).0 ≢ ok) × ((open_mapping io 0 f).1.length ≡ 0)
unfolding open_mapping
open_mapping_empty io f works empty = (λ h. ground (arith, empty), ground (arith, empty))
