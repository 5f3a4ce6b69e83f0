-- ===== src/File/Posix/Flush.antt =====
-- What is flushed is on the disk.
use pedrodb.Base.{ℕ, ◌-◌, ◌<◌, ◌≤◌, ◌≡◌, if◌then◌else◌, Bool}
use pedrodb.File.Posix.{PosixFile, flush_block_size}

-- The disk has what the buffer had up to the last flush, the system writes on from there, and no more
-- was flushed than was allocated.
pub record IsBacked (f : PosixFile) : Type 0 where
  pub at_cursor : f.cursor ≡ f.flush_offset
  pub in_order : f.flush_offset ≤ f.offset
  pub same : (i : ℕ) → i < f.flush_offset → f.disk.bytes i ≡ f.bytes i

-- What `Flush` leaves.
pub record IsFlushed (force : Bool) (f f' : PosixFile) : Type 0 where
  pub backed : IsBacked f'
  pub same_bytes : f'.bytes ≡ f.bytes
  pub same_offset : f'.offset ≡ f.offset
  pub pending : f'.offset - f'.flush_offset ≤ (if force then 0 else flush_block_size)
