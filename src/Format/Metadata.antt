-- ===== src/Format/Metadata.antt =====
-- include/pedrodb/format/metadata_format.h: the header and the log entries of the database file.
pub mod RoundTrip
use pedrodb.Base.{
  ℕ, ◌+◌, ◌%◌, ◌^◌, List, ◌++◌, Option, none, some, length, ltb, ◌==◌, if◌then◌else◌,
}
use pedrodb.Platform.{Platform}
use pedrodb.Buffer.{ReadableBuffer, readable_bytes, retrieve, peek}
use pedrodb.Buffer.Ints.{retrieve_int}

pub record Header : Type 0 where
  pub name : List ℕ

-- `Header::SizeOf(name_length)`
abbrev pub header_size : ℕ → ℕ
header_size name_length = 2 + name_length

-- `static_cast<LogType>` of a byte that names no enumerator is `other`.
pub data LogType : Type 0 where
  create_file delete_file : LogType
  other : ℕ → LogType

unfoldable pub to_u8 : LogType → ℕ
to_u8 create_file = 0
to_u8 delete_file = 1
to_u8 (other n) = n

unfoldable pub of_u8 : ℕ → LogType
of_u8 n = if n == 0 then create_file else if n == 1 then delete_file else other n

pub record LogEntry : Type 0 where
  pub log_type : LogType
  pub id : ℕ

-- `LogEntry::SizeOf()`
abbrev pub log_entry_size : ℕ
log_entry_size = 5

module _ ⦃p : Platform⦄ where
  -- The name behind a length that was read.
  unpack_name : ℕ × ReadableBuffer → Option (Header × ReadableBuffer)
  unpack_name (name_length, b) =
      if ltb (readable_bytes b) name_length
      then none
      else some (record { name = peek b name_length }, retrieve b name_length)

  unfoldable pub unpack_header : ReadableBuffer → Option (Header × ReadableBuffer)
  unfolding unpack_name retrieve_int
  unpack_header b =
      if ltb (readable_bytes b) (header_size 0) then none else unpack_name (retrieve_int 2 b)

  -- What `Header::Pack` appends: the length is cut to a `uint16_t`, the name is not.
  unfoldable pub header_bytes : Header → List ℕ
  header_bytes h = p.append_int 2 (length h.name % 2 ^ 16) ++ h.name

  -- The two `RetrieveInt` of `LogEntry::UnPack`.
  unfoldable pub retrieve_log_entry : ReadableBuffer → LogEntry × ReadableBuffer
  unfolding retrieve_int
  retrieve_log_entry b =
      let (u8_type, b1) = retrieve_int 1 b in
      let (id, b2) = retrieve_int 4 b1 in (record { log_type = of_u8 u8_type; id = id }, b2)

  unfoldable pub unpack_log_entry : ReadableBuffer → Option (LogEntry × ReadableBuffer)
  unpack_log_entry b =
      if ltb (readable_bytes b) log_entry_size then none else some (retrieve_log_entry b)

  -- What `LogEntry::Pack` appends.
  unfoldable pub log_entry_bytes : LogEntry → List ℕ
  log_entry_bytes e = p.append_int 1 (to_u8 e.log_type) ++ p.append_int 4 e.id
