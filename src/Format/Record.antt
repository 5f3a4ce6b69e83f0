-- ===== src/Format/Record.antt =====
-- include/pedrodb/format/record_format.h: the header and the entry of a data file, and locations.
pub mod Pack
pub mod RoundTrip
pub mod Location
pub mod Sequence
use pedrodb.Base.{
  ℕ, ◌+◌, ◌%◌, ◌^◌, bit_xor, List, Bool, true, false, Option, none, some, length, ltb, ◌==◌,
  if◌then◌else◌,
}
use pedrodb.Platform.{Platform}
use pedrodb.Buffer.{
  ReadableBuffer, readable_bytes, retrieve, peek, WritableBuffer, writable_bytes, append,
}
use pedrodb.Buffer.Ints.{peek_int, retrieve_int, append_int}

-- `static_cast<Type>` of a byte that names no enumerator is `other`.
pub data EntryType : Type 0 where
  empty set delete : EntryType
  other : ℕ → EntryType

unfoldable pub to_u8 : EntryType → ℕ
to_u8 empty = 0
to_u8 set = 1
to_u8 delete = 2
to_u8 (other n) = n

unfoldable pub of_u8 : ℕ → EntryType
of_u8 n = if n == 0 then empty else if n == 1 then set else if n == 2 then delete else other n

pub record Header : Type 0 where
  pub checksum : ℕ
  pub entry_type : EntryType
  pub key_size : ℕ
  pub value_size : ℕ
  pub timestamp : ℕ

-- `Header::SizeOf()`: 1 + 4 + 1 + 4 + 4
abbrev pub header_size : ℕ
header_size = 14

pub record Entry : Type 0 where
  pub checksum : ℕ
  pub entry_type : EntryType
  pub key : List ℕ
  pub value : List ℕ
  pub timestamp : ℕ

-- The result is a `uint32_t`.
unfoldable pub size_of : Entry → ℕ
size_of e = (header_size + length e.key + length e.value) % 2 ^ 32

-- The header of an entry: the sizes are cut to a `uint8_t` and a `uint32_t`.
unfoldable pub header_of : Entry → Header
header_of e = record {
  checksum = e.checksum;
  entry_type = e.entry_type;
  key_size = length e.key % 2 ^ 8;
  value_size = length e.value % 2 ^ 32;
  timestamp = e.timestamp;
}

module _ ⦃p : Platform⦄ where
  -- `Entry::Hash` keeps the low 32 bits of the hash.
  unfoldable pub entry_hash : List ℕ → ℕ
  entry_hash s = p.hash s % 2 ^ 32

  unfoldable pub checksum : List ℕ → List ℕ → ℕ
  unfolding entry_hash
  checksum key value = bit_xor (entry_hash value) (entry_hash key) % 2 ^ 32

  unfoldable pub validate : Entry → Bool
  validate e = e.checksum == checksum e.key e.value

  -- The five `RetrieveInt` of `Header::UnPack`.
  unfoldable pub retrieve_header : ReadableBuffer → Header × ReadableBuffer
  unfolding retrieve_int
  retrieve_header b =
      let (u8_type, b1) = retrieve_int 1 b in
      let (sum, b2) = retrieve_int 4 b1 in
      let (key_size, b3) = retrieve_int 1 b2 in
      let (value_size, b4) = retrieve_int 4 b3 in
      let (timestamp, b5) = retrieve_int 4 b4 in
      (
        record {
          checksum = sum;
          entry_type = of_u8 u8_type;
          key_size = key_size;
          value_size = value_size;
          timestamp = timestamp;
        },
        b5,
      )

  unpack_header_from : Option ℕ → ReadableBuffer → Option (Header × ReadableBuffer)
  unpack_header_from none b = none
  unpack_header_from (some u8_type) b =
      if u8_type == to_u8 empty then none else some (retrieve_header b)

  -- `Header::UnPack`; `none` is `false`, which leaves the buffer as it was.
  unfoldable pub unpack_header : ReadableBuffer → Option (Header × ReadableBuffer)
  unfolding unpack_header_from
  unpack_header b =
      if ltb (readable_bytes b) header_size then none else unpack_header_from (peek_int 1 b) b

  -- The key and the value that follow a header. The sum of the sizes is a `uint32_t`.
  unfoldable pub unpack_body : Header → ReadableBuffer → Option (Entry × ReadableBuffer)
  unpack_body h b =
      if ltb (readable_bytes b) ((h.key_size + h.value_size) % 2 ^ 32)
      then none
      else (let b' = retrieve b h.key_size in
          some (
            record {
              checksum = h.checksum;
              entry_type = h.entry_type;
              key = peek b h.key_size;
              value = peek b' h.value_size;
              timestamp = h.timestamp;
            },
            retrieve b' h.value_size,
          ))

  unpack_after : Option (Header × ReadableBuffer) → Option (Entry × ReadableBuffer)
  unpack_after none = none
  unpack_after (some (h, b)) = unpack_body h b

  -- `Entry::UnPack`; no caller looks at the buffer after `false`.
  unfoldable pub unpack : ReadableBuffer → Option (Entry × ReadableBuffer)
  unfolding unpack_after
  unpack b = unpack_after (unpack_header b)

  -- The five `AppendInt` of `Header::Pack`.
  unfoldable pub append_header : Header → WritableBuffer → WritableBuffer
  append_header h b =
      let b1 = append_int b 1 (to_u8 h.entry_type) in
      let b2 = append_int b1 4 h.checksum in
      let b3 = append_int b2 1 h.key_size in
      let b4 = append_int b3 4 h.value_size in append_int b4 4 h.timestamp

  unfoldable pub pack_header : Header → WritableBuffer → Bool × WritableBuffer
  pack_header h b =
      if ltb (writable_bytes b) header_size then (false, b) else (true, append_header h b)

  -- `Entry::Pack` does not look at what `Header::Pack` returned.
  unfoldable pub pack : Entry → WritableBuffer → Bool × WritableBuffer
  unfolding header_of pack_header
  pack e b =
      if ltb (writable_bytes b) (size_of e)
      then (false, b)
      else (let b' = (pack_header (header_of e) b).1 in (true, append (append b' e.key) e.value))
