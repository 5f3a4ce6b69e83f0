-- ===== src/File/Posix.antt =====
-- include/pedrodb/file/posix_readwrite_file.h: a file that is written from a buffer. `cursor` is the
-- place in the file where the system writes next.
pub mod Flush
use pedrodb.Base.{
  ℕ, ◌+◌, ◌-◌, ◌^◌, ◌*◌, List, Bool, true, false, not, ◌||◌, ◌&&◌, Option, none, some, min, ltb,
  leb, ◌==◌, if◌then◌else◌,
}
use pedrodb.Base.Bytes.{Memory, read_bytes, write_bytes}
use pedrodb.Buffer.{WritableBuffer}
use pedrodb.File.{DiskFile, Faults}
use pedrodb.Status.{Status, ok, corruption, io_error}

-- `kBlockSize` of include/pedrodb/defines.h
abbrev pub flush_block_size : ℕ
flush_block_size = 512 * 2 ^ 10

pub record PosixFile : Type 0 where
  pub disk : DiskFile
  pub cursor : ℕ
  -- `buffer_`: its size and its bytes
  pub length : ℕ
  pub bytes : Memory
  pub flush_offset : ℕ
  pub offset : ℕ

-- `Read`; -1 is `none`.
unfoldable pub read : ℕ → ℕ → PosixFile → Option (List ℕ)
read offset n f =
    if leb f.offset offset
    then none
    else some (read_bytes f.bytes offset (min (offset + n) f.offset - offset))

-- `SetWriteOffset`
unfoldable pub set_write_offset : ℕ → PosixFile → PosixFile
set_write_offset n f = record f { offset = n }

-- `Allocate`: a null buffer has the offset -1.
unfoldable pub allocate : ℕ → PosixFile → WritableBuffer × PosixFile
allocate n f =
    if ltb (f.length - f.offset) n
    then (
      record { memory = λ i. 0; base = 0; write_index = 0; capacity = 0; offset = 2 ^ 64 - 1 },
      f,
    )
    else (
      record {
        memory = f.bytes;
        base = f.offset;
        write_index = 0;
        capacity = n;
        offset = f.offset;
      },
      record f { offset = f.offset + n },
    )

-- The buffer that `Allocate` gave is a part of `buffer_`.
unfoldable pub written : WritableBuffer → PosixFile → PosixFile
written b f = record f { bytes = b.memory }

-- `File::Write`: the system takes so many of the bytes, and its cursor moves behind them.
write : ℕ → PosixFile → PosixFile
write n f = record f {
  disk = record f.disk {
    bytes = write_bytes f.disk.bytes f.cursor (read_bytes f.bytes f.flush_offset n);
  };
  cursor = f.cursor + n;
}

-- `Flush`, where the system takes at most `accepted` bytes.
unfoldable pub flush : ℕ → Bool → PosixFile → Status × PosixFile
unfolding write
flush accepted force f =
    let pending = f.offset - f.flush_offset in
    if (force || ltb flush_block_size pending) && ltb 0 pending
    then (if not (min pending accepted == pending)
        then (io_error, write (min pending accepted) f)
        else (ok, record (write pending f) { flush_offset = f.offset }))
    else (ok, f)

after_flush : Faults → Status × PosixFile → Status × PosixFile
after_flush io (ok, f) = if io.sync_fails then (io_error, f) else (ok, f)
after_flush io (status, f) = (status, f)

-- `Sync`
unfoldable pub sync : Faults → ℕ → PosixFile → Status × PosixFile
unfolding after_flush
sync io accepted f = after_flush io (flush accepted true f)

opened : ℕ → Memory → DiskFile → PosixFile
opened n bytes disk = record {
  disk = disk;
  cursor = 0;
  length = n;
  bytes = bytes;
  flush_offset = 0;
  offset = 0;
}

-- `Open` with a capacity: a file that is not there is created, and an empty one extended with zeros.
unfoldable pub open_posix : Faults → ℕ → DiskFile → Status × Option PosixFile
unfolding opened
open_posix io capacity f =
    let length = if f.exists then f.length else 0 in
    if io.open_fails
    then (io_error, none)
    else if io.size_fails
    then (io_error, none)
    else if length == 0
    then (if io.reserve_fails then (io_error, none) else (
      ok,
      some (opened capacity (λ i. 0) (record { exists = true; length = capacity; bytes = λ i. 0 })),
    ))
    else if not (length == capacity)
    then (corruption, none)
    else (ok, some (opened length f.bytes f))
