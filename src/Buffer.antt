-- ===== src/Buffer.antt =====
-- The buffers that the formats read from and write into: `ReadableBuffer` of
-- include/pedrodb/file/readable_file.h (`ReadableView` of cache/read_cache.h is the same class), and
-- `WritableBuffer` of include/pedrodb/file/readwrite_file.h. pedrolib's `ArrayBuffer` is read through
-- the same interface; what was appended to it is the list of its bytes.
pub mod Ints
pub mod Readable
use pedrodb.Base.{ℕ, ◌+◌, ◌-◌, ◌^◌, leb, if◌then◌else◌, List, length}
use pedrodb.Base.Bytes.{Memory, read_bytes, write_bytes, of_list}

pub record ReadableBuffer : Type 0 where
  pub memory : Memory
  pub read_index : ℕ
  pub capacity : ℕ

-- The difference of two `size_t`: it wraps where the read index has passed the capacity.
abbrev pub readable_bytes : ReadableBuffer → ℕ
readable_bytes b =
    if leb b.read_index b.capacity
    then b.capacity - b.read_index
    else 2 ^ 64 - (b.read_index - b.capacity)

abbrev pub retrieve : ReadableBuffer → ℕ → ReadableBuffer
retrieve b n = record b { read_index = b.read_index + n }

-- The string that starts at `ReadIndex()` and has `n` bytes.
abbrev pub peek : ReadableBuffer → ℕ → List ℕ
peek b n = read_bytes b.memory b.read_index n

-- An `ArrayBuffer` that holds these bytes.
abbrev pub array_buffer : List ℕ → ReadableBuffer
array_buffer bs = record { memory = of_list bs; read_index = 0; capacity = length bs }

-- `data_` points at the index `base` of a memory, the mapped file.
pub record WritableBuffer : Type 0 where
  pub memory : Memory
  pub base : ℕ
  pub write_index : ℕ
  pub capacity : ℕ
  pub offset : ℕ

abbrev pub writable_bytes : WritableBuffer → ℕ
writable_bytes b = b.capacity - b.write_index

unfoldable pub append : WritableBuffer → List ℕ → WritableBuffer
append b bs = record b {
  memory = write_bytes b.memory (b.base + b.write_index) bs;
  write_index = b.write_index + length bs;
}
