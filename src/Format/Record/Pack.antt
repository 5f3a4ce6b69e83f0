-- ===== src/Format/Record/Pack.antt =====
-- What `Entry::Pack` writes: the bytes of an entry, in one piece.
use pedrodb.Base.{
  ℕ, ◌+◌, ◌^◌, ◌≤◌, ◌<◌, ◌≡◌, ap, ◌∙◌, arith, List, ◌++◌, length, length-append, append_assoc, true,
  false, le→ltb, ltb,
}
use pedrodb.Base.Bytes.{write_bytes, write_bytes-append}
use pedrodb.Platform.{Platform}
use pedrodb.Buffer.{WritableBuffer, writable_bytes, append}
use pedrodb.Buffer.Ints.{append_int}
use pedrodb.Format.Record.{
  Header, Entry, to_u8, header_size, size_of, header_of, append_header, pack,
}

offset_shift : (a b c : ℕ) → a + (b + c) ≡ a + b + c
offset_shift a b c = omega arith

pub append-append :
    (b : WritableBuffer) (xs ys : List ℕ) → append (append b xs) ys ≡ append b (xs ++ ys)
unfolding append
append-append b xs ys = ground (
  arith,
  write_bytes-append b.memory (b.base + b.write_index) xs ys,
  length-append xs ys,
  ap (λ i. write_bytes (write_bytes b.memory (b.base + b.write_index) xs) i ys)
      (offset_shift b.base b.write_index (length xs)),
)

module _ ⦃p : Platform⦄ where
  unfoldable pub header_bytes : Header → List ℕ
  header_bytes h =
      p.append_int 1 (to_u8 h.entry_type)
      ++ (p.append_int 4 h.checksum
          ++ (p.append_int 1 h.key_size
              ++ (p.append_int 4 h.value_size ++ p.append_int 4 h.timestamp)))

  -- The bytes of an entry in a data file.
  unfoldable pub entry_bytes : Entry → List ℕ
  entry_bytes e = header_bytes (header_of e) ++ (e.key ++ e.value)

  pub length-header_bytes : (h : Header) → length (header_bytes h) ≡ header_size
  unfolding header_bytes
  length-header_bytes h = simp (length-append, p.length-append_int)

  append_header_bytes :
      (h : Header) (b : WritableBuffer) → append_header h b ≡ append b (header_bytes h)
  unfolding append_header append_int header_bytes
  append_header_bytes h b = simp (append-append, append_assoc)

  pub length-entry_bytes :
      (e : Entry) → length (entry_bytes e) ≡ header_size + length e.key + length e.value
  unfolding entry_bytes
  length-entry_bytes e =
      length-append (header_bytes (header_of e)) (e.key ++ e.value)
      ∙ omega (arith, length-header_bytes (header_of e), length-append e.key e.value)

  -- `Pack` succeeds where there is room, and appends exactly the bytes of the entry.
  pub pack-entry_bytes :
      (e : Entry) (b : WritableBuffer)
      → header_size + length e.key + length e.value < 2 ^ 32
      → size_of e ≤ writable_bytes b
      → pack e b ≡ (true, append b (entry_bytes e))
  unfolding pack size_of entry_bytes
  pack-entry_bytes e b small room =
      let fits : ltb (writable_bytes b) (size_of e) ≡ false = le→ltb _ _ room in
      let header_fits : ltb (writable_bytes b) header_size ≡ false = le→ltb _ _ (omega arith) in
      rw (fits, header_fits) (simp (append_header_bytes, append-append, append_assoc))
