-- ===== src/Format/Record/RoundTrip.antt =====
-- Reading back an entry: `UnPack` after `Pack`.
use pedrodb.Base.{
  ℕ, ◌+◌, ◌%◌, ◌^◌, ◌≤◌, ◌<◌, ◌≡◌, refl, arith, ◌++◌, length, true, false, ltb, ◌==◌, le→ltb, some,
}
use pedrodb.Base.Bytes.{
  Memory, read_bytes, Holds, Holds-read, Holds-append_left, Holds-append_right, Holds-write_self,
}
use pedrodb.Buffer.Readable.{readable_bytes-within, readable_bytes-retrieve}
use pedrodb.Platform.{Platform}
use pedrodb.Buffer.{
  ReadableBuffer, readable_bytes, retrieve, WritableBuffer, writable_bytes, append,
}
use pedrodb.Buffer.Ints.{peek_int, read_int-Holds, next_field}
use pedrodb.Format.Record.{
  EntryType, empty, set, delete, other, Header, Entry, to_u8, of_u8, header_size, size_of,
  header_of, retrieve_header, unpack_header, unpack_body, unpack, pack,
}
use pedrodb.Format.Record.Pack.{header_bytes, entry_bytes, length-header_bytes, pack-entry_bytes}

-- The two types that the program writes.
abbrev pub IsWritten : EntryType → Type 0
IsWritten set = Unit
IsWritten delete = Unit
IsWritten _ = ⊥

-- What the format can represent: the fields fit their integers.
pub record IsStorable (e : Entry) : Type 0 where
  pub written : IsWritten e.entry_type
  pub key_fits : length e.key < 2 ^ 8
  pub size_fits : header_size + length e.key + length e.value < 2 ^ 32
  pub checksum_fits : e.checksum < 2 ^ 32
  pub timestamp_fits : e.timestamp < 2 ^ 32

pub size_of-eq :
    (e : Entry) → IsStorable e → size_of e ≡ header_size + length e.key + length e.value
unfolding size_of
size_of-eq e s =
    let h : header_size + length e.key + length e.value < 2 ^ 32 = s.size_fits in omega arith

pub u8_lt : (t : EntryType) → IsWritten t → to_u8 t < 256
unfolding to_u8
u8_lt set w = omega arith
u8_lt delete w = omega arith
u8_lt empty w = absurd w
u8_lt (other n) w = absurd w

pub u8_not_empty : (t : EntryType) → IsWritten t → (to_u8 t == to_u8 empty) ≡ false
unfolding to_u8
u8_not_empty set w = refl
u8_not_empty delete w = refl
u8_not_empty empty w = absurd w
u8_not_empty (other n) w = absurd w

pub of_u8-to_u8 : (t : EntryType) → IsWritten t → of_u8 (to_u8 t) ≡ t
unfolding to_u8 of_u8
of_u8-to_u8 set w = refl
of_u8-to_u8 delete w = refl
of_u8-to_u8 empty w = absurd w
of_u8-to_u8 (other n) w = absurd w

module _ ⦃p : Platform⦄ where
  -- The fields of a header whose integers fit, at their places.
  record HoldsHeader (m : Memory) (offset : ℕ) (h : Header) : Type 0 where
    type_at : p.read_int (read_bytes m offset 1) ≡ to_u8 h.entry_type
    checksum_at : p.read_int (read_bytes m (offset + 1) 4) ≡ h.checksum
    key_size_at : p.read_int (read_bytes m (offset + 1 + 4) 1) ≡ h.key_size
    value_size_at : p.read_int (read_bytes m (offset + 1 + 4 + 1) 4) ≡ h.value_size
    timestamp_at : p.read_int (read_bytes m (offset + 1 + 4 + 1 + 4) 4) ≡ h.timestamp

  HoldsHeader-of :
      (m : Memory) (offset : ℕ) (e : Entry)
      → IsStorable e
      → Holds m offset (header_bytes (header_of e))
      → HoldsHeader m offset (header_of e)
  unfolding header_bytes header_of
  HoldsHeader-of m offset e s h0 =
      let h1 = next_field m offset 1 _ _ h0 in
      let h2 = next_field m (offset + 1) 4 _ _ h1 in
      let h3 = next_field m (offset + 1 + 4) 1 _ _ h2 in
      let h4 = next_field m (offset + 1 + 4 + 1) 4 _ _ h3 in
      record {
        type_at =
            read_int-Holds m offset 1 _ (u8_lt e.entry_type s.written)
              (Holds-append_left _ _ _ _ h0);
        checksum_at = read_int-Holds m _ 4 _ s.checksum_fits (Holds-append_left _ _ _ _ h1);
        key_size_at = read_int-Holds m _ 1 _ (omega arith) (Holds-append_left _ _ _ _ h2);
        value_size_at = read_int-Holds m _ 4 _ (omega arith) (Holds-append_left _ _ _ _ h3);
        timestamp_at = read_int-Holds m _ 4 _ s.timestamp_fits h4;
      }

  -- Where the bytes of an entry stand, its header is read.
  pub unpack_header-Holds :
      (e : Entry) (r : ReadableBuffer)
      → IsStorable e
      → header_size ≤ readable_bytes r
      → Holds r.memory r.read_index (header_bytes (header_of e))
      → unpack_header r ≡ some (header_of e, retrieve r header_size)
  unfolding unpack_header retrieve_header peek_int header_of
  unpack_header-Holds e r s room h =
      let f = HoldsHeader-of r.memory r.read_index e s h in
      let fits : ltb (readable_bytes r) header_size ≡ false = le→ltb _ _ room in
      let fits1 : ltb (readable_bytes r) 1 ≡ false = le→ltb _ _ (omega arith) in
      rw (fits, fits1, f.type_at, u8_not_empty e.entry_type s.written)
        (ground (
          arith,
          of_u8-to_u8 e.entry_type s.written,
          f.type_at,
          f.checksum_at,
          f.key_size_at,
          f.value_size_at,
          f.timestamp_at,
        ))

  pub unpack_body-Holds :
      (e : Entry) (r : ReadableBuffer)
      → IsStorable e
      → length e.key + length e.value ≤ readable_bytes r
      → Holds r.memory r.read_index (e.key ++ e.value)
      → unpack_body (header_of e) r ≡ some (e, retrieve r (length e.key + length e.value))
  unfolding unpack_body header_of
  unpack_body-Holds e r s room h =
      let key_size : length e.key % 2 ^ 8 ≡ length e.key = omega (arith, s.key_fits) in
      let value_size : length e.value % 2 ^ 32 ≡ length e.value = omega (arith, s.size_fits) in
      let fits : ltb (readable_bytes r) ((length e.key + length e.value) % 2 ^ 32) ≡ false =
        le→ltb _ _ (omega (arith, s.size_fits)) in
      rw (key_size, value_size, fits)
        (ground (
          arith,
          Holds-read r.memory r.read_index e.key (Holds-append_left _ _ _ _ h),
          Holds-read r.memory (r.read_index + length e.key) e.value (Holds-append_right _ _ _ _ h),
        ))

  -- Where the bytes of an entry stand, the entry is read, and the buffer moves behind it.
  pub unpack-Holds :
      (e : Entry) (r : ReadableBuffer)
      → IsStorable e
      → size_of e ≤ readable_bytes r
      → Holds r.memory r.read_index (entry_bytes e)
      → unpack r ≡ some (e, retrieve r (size_of e))
  unfolding unpack entry_bytes
  unpack-Holds e r s room h =
      let size = size_of-eq e s in
      let left = readable_bytes-retrieve r header_size (omega arith) in
      let body : Holds r.memory (r.read_index + header_size) (e.key ++ e.value) =
        rw length-header_bytes at (
          Holds-append_right r.memory r.read_index (header_bytes (header_of e)) (e.key ++ e.value)
            h) in
      rw
        (
          unpack_header-Holds e r s (omega arith) (Holds-append_left _ _ _ _ h),
          unpack_body-Holds e (retrieve r header_size) s (omega arith) body,
        )
        (ground (arith, size))

  -- For an entry that the format can represent, packed into a buffer with room for it: `Pack`
  -- answers true, and any buffer that reads the written memory from that place on, up to the end of
  -- the entry at least, unpacks the same entry and moves behind it.
  pub unpack-pack :
      (e : Entry) (b : WritableBuffer) (capacity : ℕ)
      → IsStorable e
      → size_of e ≤ writable_bytes b
      → b.base + b.write_index + size_of e ≤ capacity
      → (pack e b).0 ≡ true
        × (let r : ReadableBuffer = record {
          memory = (pack e b).1.memory;
          read_index = b.base + b.write_index;
          capacity = capacity;
        } in
            unpack r ≡ some (e, retrieve r (size_of e)))
  unpack-pack e b capacity s room inside = rw (pack-entry_bytes e b s.size_fits room) (
    refl,
    unpack-Holds e _ s
        (omega (
          arith,
          readable_bytes-within (pack e b).1.memory (b.base + b.write_index) capacity (omega arith),
        ))
        (unfold append in Holds-write_self b.memory _ _),
  )
