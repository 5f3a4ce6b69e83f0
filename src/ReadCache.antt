-- ===== src/ReadCache.antt =====
-- include/pedrodb/cache/read_cache.h: blocks of 4096 bytes of the data files. The file opener is
-- `AcquireDataFile`, as the constructor of `DBImpl` sets it.
pub mod Blocks
pub mod Supply
pub mod Loading
pub mod Rounds
pub mod Reads
pub mod Fresh
use pedrodb.Base.{
  ℕ, zero, suc, ◌+◌, ◌-◌, ◌*◌, ◌/◌, ◌%◌, ◌^◌, List, [], ◌++◌, true, false, not, Option, none, some,
  length, take, drop, min, max, ltb, ◌==◌, if◌then◌else◌,
}
use pedrodb.Base.Bytes.{read_bytes}
use pedrodb.Platform.{Platform}
use pedrodb.Buffer.{array_buffer, ReadableBuffer}
use pedrodb.Format.Record.{Entry, unpack}
use pedrodb.Format.Record.Location.{Location}
use pedrodb.File.{DiskFile, Faults}
use pedrodb.FileManager.{
  FileManager, ReadableFile, Run, done, crash, out_of_fuel, acquire_data_file,
}
use pedrodb.Iterator.{no_entry}
use pedrodb.SegmentCache.{SegmentCache, segment_add, get_or_compute}
use pedrodb.Status.{Status, ok, io_error, corruption}

abbrev pub block_size : ℕ
block_size = 2 ^ 12

abbrev pub ReadCache : Type 0
ReadCache = SegmentCache (List ℕ)

add_segments : ℕ → ℕ → ReadCache → ReadCache
add_segments zero capacity cache = cache
add_segments (suc n) capacity cache =
    add_segments n capacity (segment_add (capacity / 2 ^ 12) cache)

-- `ReadCache(segments, capacity)`, for a number of segments that is not 0.
unfoldable pub new : ℕ → ℕ → ReadCache
unfolding add_segments
new segments capacity = add_segments segments ((capacity + segments - 1) / segments) []

-- `GetOffset`, `GetFile` and `GetBlockIdx`; the two parts of the last have no bit in common, so `|`
-- is their sum.
unfoldable pub offset_of : ℕ → ℕ
offset_of index = (index * 2 ^ 12) % 2 ^ 32

unfoldable pub file_of : ℕ → ℕ
file_of index = (index * 2 ^ 12) % 2 ^ 64 / 2 ^ 32

unfoldable pub index_of : ℕ → ℕ → ℕ
index_of file offset = (file * 2 ^ 32 + offset) / 2 ^ 12

-- `a - b` of two `uint32_t`.
abbrev sub32 : ℕ → ℕ → ℕ
sub32 a b = (a + 2 ^ 32 - b) % 2 ^ 32

-- `block_ref` is the view of a block that holds the whole entry.
pub record Context : Type 0 where
  pub file : Option ReadableFile
  pub file_index : ℕ
  pub begin : ℕ
  pub end : ℕ
  pub entry : Entry
  pub buffer : List ℕ
  pub block_ref : Option (List ℕ)

unfoldable pub new_context : Location → ℕ → Context
new_context loc length = record {
  file = none;
  file_index = loc.id;
  begin = loc.offset;
  end = (loc.offset + length) % 2 ^ 32;
  entry = no_entry;
  buffer = [];
  block_ref = none;
}

-- `Context::Size()`
unfoldable pub size : Context → ℕ
size c = sub32 c.end c.begin

-- `Pread` of a file: up to the end of the file.
unfoldable pub pread : DiskFile → ℕ → ℕ → List ℕ
pread disk offset n = read_bytes disk.bytes offset (min n (disk.length - offset))

-- `substr(left, length)` of a block
abbrev substr : List ℕ → ℕ → ℕ → List ℕ
substr block left n = take n (drop left block)

-- The part of a block that is in the range of the context.
unfoldable pub slice : ℕ → Context → List ℕ → List ℕ
unfolding offset_of
slice index c block =
    let begin = max (offset_of index) c.begin in
    let end = min (offset_of (index + 1)) c.end in
    substr block (sub32 begin (offset_of index)) (sub32 end begin)

unfoldable pub add_slice : List ℕ → Context → Context
add_slice part c =
    if length part == size c
    then record c { block_ref = some part }
    else record c { buffer = c.buffer ++ part }

abbrev view : Option (List ℕ) → List ℕ → List ℕ
view (some part) buffer = part
view none buffer = buffer

abbrev pub Got : Type 0
Got = Status × Context × FileManager × ReadCache

module _ ⦃p : Platform⦄ where
  unpacked : Context → Option (Entry × ReadableBuffer) → Status × Context
  unpacked c none = (corruption, c)
  unpacked c (some (e, b)) = (ok, record c { entry = e })

  -- `Build`
  unfoldable pub build : Context → Status × Context
  unfolding unpacked
  build c = unpacked c (unpack (array_buffer (view c.block_ref c.buffer)))

  open_file :
      Faults → ℕ → Option ReadableFile × FileManager → Status × Option ReadableFile × FileManager
  open_file io index (some f, m) = (ok, some f, m)
  open_file io index (none, m) = acquire_data_file io (file_of index) m

  -- A block that was not read is never looked at. A null file is dereferenced, which is `none`.
  read_block :
      ℕ
      → Status × Option ReadableFile × FileManager
      → Option (Status × List ℕ × (Option ReadableFile × FileManager))
  read_block index (ok, some f, m) =
      let block = pread (m.data_files f.file) (offset_of index) block_size in
      if not (length block == block_size)
      then some (io_error, block, (some f, m))
      else some (ok, block, (some f, m))
  read_block index (ok, none, m) = none
  read_block index (status, f, m) = some (status, [], (f, m))

  -- The supplier of `Get(block_idx, ctx)`.
  unfoldable pub supply :
      Faults
      → ℕ
      → Option ReadableFile × FileManager
      → Option (Status × List ℕ × (Option ReadableFile × FileManager))
  unfolding open_file read_block pread
  supply io index s = read_block index (open_file io index s)

  got_block :
      ℕ
      → Context
      → Option (Status × List ℕ × (Option ReadableFile × FileManager) × ReadCache)
      → Option Got
  got_block index c none = none
  got_block index c (some (ok, block, s, cache)) =
      some (ok, add_slice (slice index c block) (record c { file = s.0 }), s.1, cache)
  got_block index c (some (status, block, s, cache)) =
      some (status, record c { file = s.0 }, s.1, cache)

  -- `Get(block_idx, ctx)`
  unfoldable pub get_block : Faults → ℕ → Context → FileManager → ReadCache → Option Got
  unfolding got_block
  get_block io index c m cache =
      got_block index c (get_or_compute index (supply io index) (c.file, m) cache)

  -- The loop of `Get(ctx)`, from a block on.
  unfoldable pub get_blocks : ℕ → Faults → ℕ → Context → FileManager → ReadCache → Run Got
  get_blocks zero io index c m cache = out_of_fuel
  get_blocks (suc fuel) io index c m cache = elim (ltb (offset_of index) c.end) [
    | false ↦ done (ok, c, m, cache)
    | true ↦ elim (get_block io index c m cache) [
      | none ↦ crash
      | some (ok, c', m', cache') ↦ get_blocks fuel io (index + 1) c' m' cache'
      | some (status, c', m', cache') ↦ done (status, c', m', cache')
    ]
  ]

  built : Run Got → Run Got
  built (done (ok, c, m, cache)) = done ((build c).0, (build c).1, m, cache)
  built other = other

  -- `Get(ctx)`. A range of `size` bytes meets at most `size / 4096 + 2` blocks, and one more round
  -- ends the loop.
  unfoldable pub get : Faults → Context → FileManager → ReadCache → Run Got
  unfolding built
  get io c m cache =
      built (get_blocks (suc (size c / 2 ^ 12 + 2)) io (index_of c.file_index c.begin) c m cache)
