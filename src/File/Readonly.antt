-- ===== src/File/Readonly.antt =====
-- include/pedrodb/file/mapping_readonly_file.h: a file that is mapped for reading.
use pedrodb.Base.{ℕ, ◌-◌, ◌^◌, List, not, ◌||◌, Option, none, some, min, if◌then◌else◌}
use pedrodb.Base.Bytes.{read_bytes}
use pedrodb.Buffer.{ReadableBuffer}
use pedrodb.File.{DiskFile, Faults}
use pedrodb.Status.{Status, ok, io_error}

pub record MappingReadonlyFile : Type 0 where
  pub disk : DiskFile
  pub capacity : ℕ

-- `Open`. `map_fails` is a failure of `mmap` or `madvise`. A size that cannot be had is -1, which the
-- test does not find, the capacity being unsigned.
unfoldable pub open_readonly : Faults → DiskFile → Status × Option MappingReadonlyFile
open_readonly io f =
    if io.open_fails || not f.exists
    then (io_error, none)
    else (let capacity = if io.size_fails then 2 ^ 64 - 1 else f.length in
        if io.map_fails
        then (io_error, none)
        else (ok, some (record { disk = f; capacity = capacity })))

-- `Read`, by `Pread`: up to the end of the file.
unfoldable pub read : ℕ → ℕ → MappingReadonlyFile → List ℕ
read offset n f = read_bytes f.disk.bytes offset (min n (f.disk.length - offset))

-- `Size`
unfoldable pub size : MappingReadonlyFile → ℕ
size f = f.capacity

-- `GetReadonlyBuffer`
unfoldable pub readonly_buffer : MappingReadonlyFile → ReadableBuffer
readonly_buffer f = record { memory = f.disk.bytes; read_index = 0; capacity = f.capacity }
