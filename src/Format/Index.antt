-- ===== src/Format/Index.antt =====
-- include/pedrodb/format/index_format.h: an entry of an index file.
pub mod RoundTrip
use pedrodb.Base.{ℕ, ◌+◌, ◌%◌, ◌^◌, List, ◌++◌, Option, none, some, length, ltb, if◌then◌else◌}
use pedrodb.Platform.{Platform}
use pedrodb.Buffer.{ReadableBuffer, readable_bytes, retrieve, peek}
use pedrodb.Buffer.Ints.{peek_int, retrieve_int}
use pedrodb.Format.Record.{EntryType, to_u8, of_u8}

pub record Entry : Type 0 where
  pub key : List ℕ
  pub entry_type : EntryType
  pub offset : ℕ
  pub len : ℕ

-- `SizeOf(key_size)`: 1 + 1 + 4 + 4 and the key, whose size is a `uint8_t`.
unfoldable pub size_of_key : ℕ → ℕ
size_of_key key_size = 10 + key_size % 2 ^ 8

module _ ⦃p : Platform⦄ where
  -- What `Pack` appends to an `ArrayBuffer`.
  unfoldable pub index_bytes : Entry → List ℕ
  index_bytes e =
      p.append_int 1 (length e.key % 2 ^ 8)
      ++ (p.append_int 1 (to_u8 e.entry_type)
          ++ (p.append_int 4 e.offset ++ (p.append_int 4 e.len ++ e.key)))

  unfoldable pub pack : Entry → List ℕ → List ℕ
  pack e log = log ++ index_bytes e

  -- The four `RetrieveInt` of `UnPack` and the key.
  unfoldable pub retrieve_entry : ReadableBuffer → Entry × ReadableBuffer
  unfolding retrieve_int
  retrieve_entry b =
      let (key_size, b1) = retrieve_int 1 b in
      let (u8_type, b2) = retrieve_int 1 b1 in
      let (offset, b3) = retrieve_int 4 b2 in
      let (len, b4) = retrieve_int 4 b3 in
      (
        record { key = peek b4 key_size; entry_type = of_u8 u8_type; offset = offset; len = len },
        retrieve b4 key_size,
      )

  unpack_from : Option ℕ → ReadableBuffer → Option (Entry × ReadableBuffer)
  unpack_from none b = none
  unpack_from (some key_size) b =
      if ltb (readable_bytes b) (size_of_key key_size) then none else some (retrieve_entry b)

  -- `none` is `false`, which leaves the buffer as it was.
  unfoldable pub unpack : ReadableBuffer → Option (Entry × ReadableBuffer)
  unfolding unpack_from size_of_key
  unpack b = unpack_from (peek_int 1 b) b
