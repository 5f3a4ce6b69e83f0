-- ===== src/Iterator/End.antt =====
-- Where a scan of a file ends.
use pedrodb.Base.{
  ◌+◌, ◌<◌, ◌≡◌, ◌⊎◌, refl, ap, ◌∙◌, arith, true, false, none, ltb, lt→ltb, leb, Bool-cases, inl,
  inr,
}
use pedrodb.Base.Bytes.{Memory, read_bytes, of_list}
use pedrodb.Platform.{Platform}
use pedrodb.Buffer.{ReadableBuffer, array_buffer, readable_bytes}
use pedrodb.Buffer.Ints.{peek_int}
use pedrodb.Format.Record.{header_size, unpack_header, to_u8}
use pedrodb.Iterator.{RecordIterator, valid, valid_body, fetch}

module _ ⦃p : Platform⦄ where
  unpack_header_short : (b : ReadableBuffer) → readable_bytes b ≡ 0 → unpack_header b ≡ none
  unfolding unpack_header
  unpack_header_short b h =
      let short : ltb (readable_bytes b) header_size ≡ true = lt→ltb _ _ (omega arith) in rw short

  unpack_header_zero : (b : ReadableBuffer) → b.memory b.read_index ≡ 0 → unpack_header b ≡ none
  unfolding unpack_header peek_int to_u8 read_bytes
  unpack_header_zero b zero_byte = rw zero_byte (ground (arith, p.read_int_zeros 1))

  -- Nothing is left in the buffer, or the next header is read into it.
  abbrev pub IsClear : RecordIterator → Type 0
  IsClear it = (readable_bytes it.buffer ≡ 0) ⊎ (it.index + header_size < it.size)

  -- Before a zero byte there is no entry.
  pub valid_end :
      (bytes : Memory) (it : RecordIterator)
      → it.read_index ≡ it.index
      → bytes it.index ≡ 0
      → IsClear it
      → (valid bytes it).0 ≡ false
  unfolding valid fetch valid_body
  valid_end bytes it at zero_byte clear = elim (Bool-cases (leb it.size it.index)) [
    | inl over ↦ rw over refl
    | inr inside ↦ elim (Bool-cases (leb it.size (it.read_index + header_size))) [
      | inl short ↦
          let nothing : readable_bytes it.buffer ≡ 0 = ground arith in
          rw (inside, short, unpack_header_short it.buffer nothing) refl
      | inr room ↦
          let first : of_list (read_bytes bytes it.read_index header_size) 0 ≡ 0 =
            unfold of_list read_bytes in (ap bytes at ∙ zero_byte) in
          rw
            (
              inside,
              room,
              unpack_header_zero (array_buffer (read_bytes bytes it.read_index header_size)) first,
            )
            refl
    ]
  ]
