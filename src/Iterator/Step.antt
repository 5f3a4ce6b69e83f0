-- ===== src/Iterator/Step.antt =====
-- What one call of `Valid` reads.
use pedrodb.Base.{
  ℕ, ◌+◌, ◌%◌, ◌^◌, ◌≤◌, ◌<◌, ◌≡◌, ap, ◌∙◌, arith, List, ◌++◌, length, length-append, true, false,
  leb, ltb, lt→ltb, some, leb-lt, le-leb,
}
use pedrodb.Base.Bytes.{
  Memory, read_bytes, Holds, Holds-at, Holds-append_left, Holds-append_right, Holds-of_list,
}
use pedrodb.Buffer.Readable.{readable_bytes-array_buffer, readable_bytes-retrieve}
use pedrodb.Platform.{Platform}
use pedrodb.Buffer.{ReadableBuffer, readable_bytes, array_buffer, retrieve}
use pedrodb.Format.Record.{Entry, header_size, header_of, size_of, unpack_header, unpack_body}
use pedrodb.Format.Record.Pack.{header_bytes, entry_bytes, length-header_bytes}
use pedrodb.Format.Record.RoundTrip.{IsStorable, size_of-eq, unpack_header-Holds, unpack_body-Holds}
use pedrodb.Iterator.{RecordIterator, fetch, valid, valid_body, valid_entry}

fetch_lem :
    (bytes : Memory) (n : ℕ) (it : RecordIterator) (bs : List ℕ)
    → it.read_index + n < it.size
    → read_bytes bytes it.read_index n ≡ bs
    → fetch bytes n it ≡ record it { buffer = array_buffer bs; read_index = it.read_index + n }
unfolding fetch
fetch_lem bytes n it bs room read =
    let inside : leb it.size (it.read_index + n) ≡ false = leb-lt _ _ room in rw (inside, read)

module _ ⦃p : Platform⦄ where
  -- The iterator after an entry was read, its index not yet moved.
  abbrev pub after : RecordIterator → Entry → RecordIterator
  after it e = record it {
    entry = e;
    read_index = it.index + size_of e;
    buffer = retrieve (array_buffer (e.key ++ e.value)) (length e.key + length e.value);
  }

  -- The buffer has been read to its end.
  pub after_empty : (it : RecordIterator) (e : Entry) → readable_bytes (after it e).buffer ≡ 0
  after_empty it e =
      let size = length-append e.key e.value in
      let all = readable_bytes-array_buffer (e.key ++ e.value) in
      omega (
        arith,
        readable_bytes-retrieve (array_buffer (e.key ++ e.value)) (length e.key + length e.value)
            (omega arith),
      )

  body_read :
      (bytes : Memory) (it : RecordIterator) (b : ReadableBuffer) (e : Entry)
      → IsStorable e
      → Holds bytes it.read_index (e.key ++ e.value)
      → it.read_index + (length e.key + length e.value) < it.size
      → valid_body bytes it (some (header_of e, b)) ≡ (
        true,
        record it {
          entry = e;
          read_index = it.read_index + (length e.key + length e.value);
          buffer = retrieve (array_buffer (e.key ++ e.value)) (length e.key + length e.value);
        },
      )
  unfolding valid_body valid_entry
  body_read bytes it b e s h room =
      let body = Holds-at bytes it.read_index _ _ h (length-append e.key e.value) in
      let n : ℕ = length e.key + length e.value in
      let sum : ((header_of e).key_size + (header_of e).value_size) % 2 ^ 32 ≡ n =
        unfold header_of in omega (arith, s.key_fits, s.size_fits) in
      let second : ReadableBuffer = array_buffer (e.key ++ e.value) in
      let fetched = fetch_lem bytes n (record it { buffer = b }) _ room body in
      let all = readable_bytes-array_buffer (e.key ++ e.value) in
      let read =
        unpack_body-Holds e second s (omega (arith, length-append e.key e.value))
          (Holds-of_list _) in
      rw sum (
        ap (λ (i : RecordIterator). valid_entry i (unpack_body (header_of e) i.buffer)) fetched
        ∙ rw (read, valid_entry))

  header_first : (e : Entry) → ReadableBuffer
  header_first e = array_buffer (header_bytes (header_of e))

  -- The first read of `Valid`, on a stored entry whose header ends before the end of the file.
  valid_header :
      (bytes : Memory) (it : RecordIterator) (e : Entry)
      → IsStorable e
      → it.read_index ≡ it.index
      → Holds bytes it.read_index (header_bytes (header_of e))
      → it.read_index + header_size < it.size
      → valid bytes it
        ≡ valid_body bytes
            (record it { buffer = header_first e; read_index = it.read_index + header_size })
            (some (header_of e, retrieve (header_first e) header_size))
  unfolding valid header_first
  valid_header bytes it e s at h inside =
      let head = Holds-at bytes it.read_index header_size _ h (length-header_bytes (header_of e)) in
      let started : leb it.size it.index ≡ false = leb-lt _ _ (omega arith) in
      let it' : RecordIterator = record it {
        buffer = header_first e;
        read_index = it.read_index + header_size;
      } in
      let all = readable_bytes-array_buffer (header_bytes (header_of e)) in
      let header_read =
        unpack_header-Holds e (header_first e) s (omega (arith, length-header_bytes (header_of e)))
          (Holds-of_list _) in
      rw started (
        ap (λ (i : RecordIterator). valid_body bytes i (unpack_header i.buffer))
          (fetch_lem bytes header_size it _ inside head)
        ∙ ap (λ r. valid_body bytes it' r) header_read)

  rest_held :
      (bytes : Memory) (from : ℕ) (e : Entry)
      → Holds bytes from (entry_bytes e)
      → Holds bytes from (header_bytes (header_of e))
        × Holds bytes (from + header_size) (e.key ++ e.value)
  unfolding entry_bytes
  rest_held bytes from e h = (
    Holds-append_left _ _ _ _ h,
    rw length-header_bytes at
        (Holds-append_right bytes from (header_bytes (header_of e)) (e.key ++ e.value) h),
  )

  -- Where both indices are at the start of a storable entry that the file holds, and the entry ends
  -- before the last byte of the file does, `Valid` answers true: the entry is read, whatever the
  -- buffer held, and the read index is behind it.
  pub valid-entry :
      (bytes : Memory) (it : RecordIterator) (e : Entry)
      → IsStorable e
      → it.read_index ≡ it.index
      → Holds bytes it.index (entry_bytes e)
      → it.index + size_of e < it.size
      → valid bytes it ≡ (true, after it e)
  valid-entry bytes it e s at h inside =
      let size = size_of-eq e s in
      let (head, rest) = rest_held bytes it.read_index e (rw at h) in
      let it' : RecordIterator = record it {
        buffer = header_first e;
        read_index = it.read_index + header_size;
      } in
      valid_header bytes it e s at head (omega arith)
      ∙ body_read bytes it' (retrieve (header_first e) header_size) e s rest (omega arith)
      ∙ ground arith

  not_fetched :
      (bytes : Memory) (it : RecordIterator) (e : Entry)
      → IsStorable e
      → 0 < length e.key + length e.value
      → it.size ≤ it.read_index + (length e.key + length e.value)
      → (valid_body bytes it (some (header_of e, retrieve (header_first e) header_size))).0 ≡ false
  unfolding valid_body valid_entry fetch unpack_body header_first
  not_fetched bytes it e s some_bytes ends =
      let n : ℕ = length e.key + length e.value in
      let sum : ((header_of e).key_size + (header_of e).value_size) % 2 ^ 32 ≡ n =
        unfold header_of in omega (arith, s.key_fits, s.size_fits) in
      let beyond : leb it.size (it.read_index + n) ≡ true = le-leb _ _ ends in
      let all = readable_bytes-array_buffer (header_bytes (header_of e)) in
      let header_length = length-header_bytes (header_of e) in
      let left =
        readable_bytes-retrieve (array_buffer (header_bytes (header_of e))) header_size
          (omega arith) in
      let nothing_left : ltb
            (readable_bytes (retrieve (array_buffer (header_bytes (header_of e))) header_size)) n
          ≡ true =
        lt→ltb _ _ (omega arith) in
      rw (sum, beyond, nothing_left)

  -- Where both indices are at the start of a storable entry with a key or a value that the file
  -- holds, and the entry ends exactly at the end of the file, `Valid` answers false.
  pub valid-entry_at_end :
      (bytes : Memory) (it : RecordIterator) (e : Entry)
      → IsStorable e
      → it.read_index ≡ it.index
      → Holds bytes it.index (entry_bytes e)
      → it.index + size_of e ≡ it.size
      → 0 < length e.key + length e.value
      → (valid bytes it).0 ≡ false
  valid-entry_at_end bytes it e s at h ends some_bytes =
      let size = size_of-eq e s in
      let (head, rest) = rest_held bytes it.read_index e (rw at h) in
      ap (λ r. r.0) (valid_header bytes it e s at head (omega arith))
      ∙ not_fetched bytes
          (record it { buffer = header_first e; read_index = it.read_index + header_size }) e s
          some_bytes (omega arith)
