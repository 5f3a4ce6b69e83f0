-- ===== src/Iterator.antt =====
-- include/pedrodb/iterator/record_iterator.h. The thread's buffer is part of the iterator; the bytes
-- of the file are an argument of each read, since the file may be written meanwhile.
pub mod Step
pub mod End
pub mod IndexFile
use pedrodb.Base.{
  ℕ, ◌+◌, ◌%◌, ◌^◌, List, [], Bool, true, false, Option, none, some, leb, if◌then◌else◌,
}
use pedrodb.Base.Bytes.{Memory, read_bytes}
use pedrodb.Platform.{Platform}
use pedrodb.Buffer.{ReadableBuffer, array_buffer}
use pedrodb.Format.Record.{Header, Entry, empty, header_size, size_of, unpack_header, unpack_body}

pub record RecordIterator : Type 0 where
  pub index : ℕ
  pub read_index : ℕ
  pub entry : Entry
  pub size : ℕ
  pub buffer : ReadableBuffer

-- `entry_` before anything was read.
abbrev pub no_entry : Entry
no_entry = record { checksum = 0; entry_type = empty; key = []; value = []; timestamp = 0 }

-- The constructor, on the buffer that the thread has.
unfoldable pub open_iterator : ℕ → ReadableBuffer → RecordIterator
open_iterator size buffer = record {
  index = 0;
  read_index = 0;
  entry = no_entry;
  size = size;
  buffer = buffer;
}

-- `fetch`: nothing is read where the bytes would reach the end of the file.
unfoldable pub fetch : Memory → ℕ → RecordIterator → RecordIterator
fetch bytes n it = if leb it.size (it.read_index + n) then it else record it {
  buffer = array_buffer (read_bytes bytes it.read_index n);
  read_index = it.read_index + n;
}

-- `Seek`
unfoldable pub seek : ℕ → RecordIterator → RecordIterator
seek offset it = record it { index = offset; read_index = offset; buffer = array_buffer [] }

-- `GetOffset`
unfoldable pub get_offset : RecordIterator → ℕ
get_offset it = it.index % 2 ^ 32

-- `Next`
unfoldable pub next : RecordIterator → Entry × RecordIterator
next it = (it.entry, record it { index = it.index + size_of it.entry })

module _ ⦃p : Platform⦄ where
  pub valid_entry : RecordIterator → Option (Entry × ReadableBuffer) → Bool × RecordIterator
  valid_entry it none = (false, it)
  valid_entry it (some (e, b)) = (true, record it { entry = e; buffer = b })

  pub valid_body :
      Memory → RecordIterator → Option (Header × ReadableBuffer) → Bool × RecordIterator
  unfolding valid_entry
  valid_body bytes it none = (false, it)
  valid_body bytes it (some (h, b)) =
      let it' = fetch bytes ((h.key_size + h.value_size) % 2 ^ 32) (record it { buffer = b }) in
      valid_entry it' (unpack_body h it'.buffer)

  -- `Valid`: it reads the next entry.
  unfoldable pub valid : Memory → RecordIterator → Bool × RecordIterator
  unfolding valid_body
  valid bytes it =
      if leb it.size it.index
      then (false, it)
      else (let it' = fetch bytes header_size it in valid_body bytes it' (unpack_header it'.buffer))
