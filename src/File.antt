-- ===== src/File.antt =====
-- Files on disk and the memory-mapped read-write file of include/pedrodb/file/mapping_readwrite_file.h.
-- pedrolib's `File` is reached through the operating system: which of its calls fail is an argument.
pub mod Allocate
pub mod Posix
pub mod Readonly
use pedrodb.Base.{
  ℕ, zero, ◌+◌, ◌-◌, ◌*◌, ◌^◌, Bool, ◌||◌, true, false, not, ltb, ◌==◌, if◌then◌else◌,
}
use pedrodb.Base.Bytes.{Memory}
use pedrodb.Buffer.{WritableBuffer, ReadableBuffer}
use pedrodb.Status.{Status, ok, corruption, io_error}

-- `kMaxFileBytes` of include/pedrodb/defines.h: 128 MB
abbrev pub max_file_bytes : ℕ
max_file_bytes = 128 * 2 ^ 20

-- A file by its name: the bytes stay readable through open handles after the name is removed.
pub record DiskFile : Type 0 where
  pub exists : Bool
  pub length : ℕ
  pub bytes : Memory

-- The calls of the operating system that fail during an operation.
pub record Faults : Type 0 where
  pub open_fails : Bool
  pub size_fails : Bool
  pub reserve_fails : Bool
  pub map_fails : Bool
  pub sync_fails : Bool

abbrev pub no_faults : Faults
no_faults = record {
  open_fails = false;
  size_fails = false;
  reserve_fails = false;
  map_fails = false;
  sync_fails = false;
}

-- A call that matters to opening a file fails.
abbrev pub faulty : Faults → Bool
faulty io = (io.open_fails || io.size_fails) || (io.reserve_fails || io.map_fails)

-- Opening with the option to create makes an empty file where there was none.
abbrev created : DiskFile → DiskFile
created f = if f.exists then f else record { exists = true; length = 0; bytes = λ i. 0 }

-- The size test and the call of `mmap`, which refuses a mapping of no bytes.
map_file : Faults → ℕ → DiskFile → Status × DiskFile
map_file io capacity f =
    if not (f.length == capacity)
    then (corruption, f)
    else if io.map_fails || capacity == 0
    then (io_error, f)
    else (ok, f)

-- What follows on opening: the size, and for an empty file the reservation of `capacity` zero bytes.
size_file : Faults → ℕ → DiskFile → Status × DiskFile
unfolding map_file
size_file io capacity f =
    if io.size_fails
    then (io_error, f)
    else if f.length == 0
    then (if io.reserve_fails
        then (io_error, f)
        else map_file io capacity (record f { length = capacity; bytes = λ i. 0 }))
    else map_file io capacity f

-- `MappingReadWriteFile::Open(path, capacity)` for a capacity that is not -1.
unfoldable pub open_mapping : Faults → ℕ → DiskFile → Status × DiskFile
unfolding size_file
open_mapping io capacity f =
    if io.open_fails then (io_error, f) else size_file io capacity (created f)

-- A `MappingReadWriteFile` that is open: `file` names the disk file whose bytes are mapped.
pub record MappedFile : Type 0 where
  pub file : ℕ
  pub length : ℕ
  pub write_index : ℕ

-- `(size_t)-1`
abbrev pub no_offset : ℕ
no_offset = 2 ^ 64 - 1

-- `Allocate(n)` over the mapped bytes: a buffer for the next `n` bytes, or one with no offset.
unfoldable pub allocate : MappedFile → Memory → ℕ → WritableBuffer × MappedFile
allocate f bytes n =
    if ltb (f.length - f.write_index) n
    then (record { memory = bytes; base = 0; write_index = 0; capacity = 0; offset = no_offset }, f)
    else (
      record {
        memory = bytes;
        base = f.write_index;
        write_index = 0;
        capacity = n;
        offset = f.write_index;
      },
      record f { write_index = f.write_index + n },
    )

-- `GetReadableBuffer()`
unfoldable pub readable_buffer : MappedFile → Memory → ReadableBuffer
readable_buffer f bytes = record { memory = bytes; read_index = 0; capacity = f.length }
