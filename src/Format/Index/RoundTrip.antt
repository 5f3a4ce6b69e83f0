-- ===== src/Format/Index/RoundTrip.antt =====
-- Reading back an index entry.
use pedrodb.Base.{
  ℕ, ◌+◌, ◌%◌, ◌^◌, ◌≤◌, ◌<◌, ◌≡◌, arith, length, length-append, false, ltb, le→ltb, some,
}
use pedrodb.Base.Bytes.{Memory, read_bytes, Holds, Holds-read, Holds-append_left}
use pedrodb.Platform.{Platform}
use pedrodb.Buffer.{ReadableBuffer, readable_bytes, retrieve}
use pedrodb.Buffer.Ints.{peek_int, read_int-Holds, next_field}
use pedrodb.Format.Record.{to_u8}
use pedrodb.Format.Record.RoundTrip.{IsWritten, u8_lt, of_u8-to_u8}
use pedrodb.Format.Index.{Entry, index_bytes, retrieve_entry, unpack}

-- What the format can represent.
pub record IsStorable (e : Entry) : Type 0 where
  pub written : IsWritten e.entry_type
  pub key_fits : length e.key < 2 ^ 8
  pub offset_fits : e.offset < 2 ^ 32
  pub len_fits : e.len < 2 ^ 32

module _ ⦃p : Platform⦄ where
  pub length-index_bytes : (e : Entry) → IsStorable e → length (index_bytes e) ≡ 10 + length e.key
  unfolding index_bytes
  length-index_bytes e s = simp (length-append, p.length-append_int) (omega arith)

  record HoldsFields (m : Memory) (offset : ℕ) (e : Entry) : Type 0 where
    key_size_at : p.read_int (read_bytes m offset 1) ≡ length e.key
    type_at : p.read_int (read_bytes m (offset + 1) 1) ≡ to_u8 e.entry_type
    offset_at : p.read_int (read_bytes m (offset + 1 + 1) 4) ≡ e.offset
    len_at : p.read_int (read_bytes m (offset + 1 + 1 + 4) 4) ≡ e.len
    key_at : read_bytes m (offset + 1 + 1 + 4 + 4) (length e.key) ≡ e.key

  HoldsFields-of :
      (m : Memory) (offset : ℕ) (e : Entry)
      → IsStorable e
      → Holds m offset (index_bytes e)
      → HoldsFields m offset e
  unfolding index_bytes
  HoldsFields-of m offset e s h =
      let key_size : length e.key % 2 ^ 8 ≡ length e.key = omega (arith, s.key_fits) in
      let h0 = rw key_size at h in
      let h1 = next_field m offset 1 _ _ h0 in
      let h2 = next_field m (offset + 1) 1 _ _ h1 in
      let h3 = next_field m (offset + 1 + 1) 4 _ _ h2 in
      let h4 = next_field m (offset + 1 + 1 + 4) 4 _ _ h3 in
      record {
        key_size_at =
            read_int-Holds m offset 1 _ (omega (arith, s.key_fits)) (Holds-append_left _ _ _ _ h0);
        type_at =
            read_int-Holds m _ 1 _ (u8_lt e.entry_type s.written) (Holds-append_left _ _ _ _ h1);
        offset_at = read_int-Holds m _ 4 _ s.offset_fits (Holds-append_left _ _ _ _ h2);
        len_at = read_int-Holds m _ 4 _ s.len_fits (Holds-append_left _ _ _ _ h3);
        key_at = Holds-read m _ e.key h4;
      }

  -- Where the packed bytes of a storable index entry stand at the read index and are readable,
  -- `UnPack` reads the entry, and the buffer moves behind it.
  pub unpack_index-Holds :
      (e : Entry) (r : ReadableBuffer)
      → IsStorable e
      → length (index_bytes e) ≤ readable_bytes r
      → Holds r.memory r.read_index (index_bytes e)
      → unpack r ≡ some (e, retrieve r (length (index_bytes e)))
  unfolding unpack retrieve_entry peek_int
  unpack_index-Holds e r s room h =
      let f = HoldsFields-of r.memory r.read_index e s h in
      let size = length-index_bytes e s in
      let fits1 : ltb (readable_bytes r) 1 ≡ false = le→ltb _ _ (omega arith) in
      let fits : ltb (readable_bytes r) (10 + length e.key % 2 ^ 8) ≡ false =
        le→ltb _ _ (omega (arith, s.key_fits)) in
      rw (fits1, f.key_size_at, fits)
        (ground (
          arith,
          size,
          of_u8-to_u8 e.entry_type s.written,
          f.key_size_at,
          f.type_at,
          f.offset_at,
          f.len_at,
          f.key_at,
        ))
