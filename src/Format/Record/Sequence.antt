-- ===== src/Format/Record/Sequence.antt =====
-- Entries that stand one behind the other, as in a data file.
use pedrodb.Base.{
  ℕ, ◌≤◌, ◌≡◌, ap, ◌∙◌, sym, arith, List, [], ◌∷◌, ◌++◌, length, append-nil, append_assoc, none,
}
use pedrodb.Base.Bytes.{read_bytes}
use pedrodb.Platform.{Platform}
use pedrodb.Buffer.{ReadableBuffer}
use pedrodb.Buffer.Ints.{peek_int}
use pedrodb.Format.Record.{Entry, to_u8, size_of, header_size, unpack_header, unpack}
use pedrodb.Format.Record.Pack.{entry_bytes, length-entry_bytes}
use pedrodb.Format.Record.RoundTrip.{IsStorable, size_of-eq}

module _ ⦃p : Platform⦄ where
  unfoldable pub entries_bytes : List Entry → List ℕ
  entries_bytes [] = []
  entries_bytes (e ∷ es) = entry_bytes e ++ entries_bytes es

  pub length-entry_bytes-size_of : (e : Entry) → IsStorable e → length (entry_bytes e) ≡ size_of e
  length-entry_bytes-size_of e s = length-entry_bytes e ∙ sym (size_of-eq e s)

  pub size_of-pos : (e : Entry) → IsStorable e → header_size ≤ size_of e
  size_of-pos e s = omega (arith, size_of-eq e s)

  pub entries_bytes-append :
      (es : List Entry) (e : Entry)
      → entries_bytes (es ++ (e ∷ [])) ≡ entries_bytes es ++ entry_bytes e
  unfolding entries_bytes
  entries_bytes-append [] e = append-nil (entry_bytes e)
  entries_bytes-append (x ∷ es) e =
      ap (◌++◌ (entry_bytes x)) (entries_bytes-append es e)
      ∙ sym (append_assoc (entry_bytes x) (entries_bytes es) (entry_bytes e))

  -- A zero byte, or too few bytes for a header, end a sequence.
  pub unpack_end : (r : ReadableBuffer) → r.memory r.read_index ≡ 0 → unpack r ≡ none
  unfolding unpack unpack_header peek_int to_u8 read_bytes
  unpack_end r zero_byte = rw zero_byte (ground (arith, p.read_int_zeros 1))
