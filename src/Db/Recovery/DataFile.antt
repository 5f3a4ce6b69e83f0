-- ===== src/Db/Recovery/DataFile.antt =====
-- Recovery from a data file.
use pedrodb.Base.{
  ℕ, zero, suc, ◌+◌, ◌%◌, ◌^◌, ◌<◌, ◌≡◌, refl, ap, sym, ◌∙◌, arith, List, [], ◌∷◌, Bool, true,
  false, inl, Option, none, some, length, All, length-append,
}
use pedrodb.Base.Bytes.{Memory, Holds, Holds-append_left, Holds-append_right, Holds-of_list}
use pedrodb.Buffer.Readable.{readable_bytes-array_buffer}
use pedrodb.Platform.{Platform}
use pedrodb.Buffer.{ReadableBuffer, readable_bytes}
use pedrodb.Format.Record.{Entry, size_of}
use pedrodb.Format.Record.RoundTrip.{IsStorable}
use pedrodb.Format.Record.Pack.{entry_bytes}
use pedrodb.Format.Record.Sequence.{entries_bytes, length-entry_bytes-size_of, size_of-pos}
use pedrodb.Format.Index
use pedrodb.FileManager.{index_of}
use pedrodb.FileManager.Rebuild.{index_log}
use pedrodb.Index.{IndexMap}
use pedrodb.Iterator.IndexFile.{open_index}
use pedrodb.Iterator.{RecordIterator, open_iterator, valid, next, get_offset}
use pedrodb.Iterator.End.{valid_end, IsClear}
use pedrodb.Iterator.Step.{valid-entry, after, after_empty}
use pedrodb.Db.{Db}
use pedrodb.Db.Recovery.{recover_entry, recover_index, recover_records, read_entry}
use pedrodb.Db.Recovery.Entries.{recover_all}
use pedrodb.Db.Recovery.IndexFile.{
  index_entries, indices_bytes, index_log-index_entries, recover_index-indices_bytes,
  index_entries-IsStorable,
}

module _ ⦃p : Platform⦄ ⦃t : IndexMap⦄ where
  recover_records_end :
      (fuel id : ℕ) (bytes : Memory) (it : RecordIterator) (db : Db)
      → (valid bytes it).0 ≡ false
      → recover_records (suc fuel) id bytes it db ≡ some db
  unfolding recover_records
  recover_records_end fuel id bytes it db h = rw (h, recover_records) refl

  recover_records_step :
      (fuel id : ℕ) (bytes : Memory) (it it' : RecordIterator) (es : List Index.Entry) (db : Db)
      → valid bytes it ≡ (true, it')
      → ((db' : Db) → recover_records fuel id bytes (next it').1 db' ≡ recover_all id es db')
      → recover_records (suc fuel) id bytes it db ≡ recover_all id (read_entry it' ∷ es) db
  unfolding recover_records recover_all
  recover_records_step fuel id bytes it it' es db read rest =
      ap after_read read ∙ by (recover_entry id (read_entry it') db)
    where
      after_read : Bool × RecordIterator → Option Db
      after_read r = elim r.0 [
        | false ↦ some db
        | true ↦ elim (recover_entry id (read_entry r.1) db) [
          | none ↦ none
          | some db' ↦ recover_records fuel id bytes (next r.1).1 db'
        ]
      ]

      by :
          (o : Option Db)
          → elim o [ none ↦ none | some db' ↦ recover_records fuel id bytes (next it').1 db' ]
            ≡ elim o [ none ↦ none | some db' ↦ recover_all id es db' ]
      by none = refl
      by (some db') = rest db'

  -- The loop over a data file recovers the index entries of its entries, in their order, whatever
  -- the fuel above the number of bytes before the end of the file.
  pub recover_records-entries_bytes :
      (id : ℕ) (es : List Entry) (fuel : ℕ) (bytes : Memory) (it : RecordIterator) (db : Db)
      → All IsStorable es
      → it.read_index ≡ it.index
      → Holds bytes it.index (entries_bytes es)
      → bytes (it.index + length (entries_bytes es)) ≡ 0
      → it.index + length (entries_bytes es) < it.size
      → it.size < 2 ^ 32
      → IsClear it
      → it.size < it.index + fuel
      → recover_records fuel id bytes it db ≡ recover_all id (index_entries it.index es) db
  unfolding entries_bytes index_entries recover_all next
  recover_records-entries_bytes id es zero bytes it db s at h end room small clear enough =
      absurd (omega arith)
  recover_records-entries_bytes id [] (suc fuel) bytes it db s at h end room small clear enough =
      recover_records_end fuel id bytes it db
        (valid_end bytes it at (ap bytes (omega arith) ∙ end) clear)
  recover_records-entries_bytes id (e ∷ es) (suc fuel) bytes it db (se, s) at h end room small clear
        enough =
      let len = length-append (entry_bytes e) (entries_bytes es) in
      let size = length-entry_bytes-size_of e se in
      let pos = size_of-pos e se in
      let fits : it.index % 2 ^ 32 ≡ it.index = omega arith in
      let same : read_entry (after it e) ≡ index_of it.index e =
        unfold get_offset in rw fits refl in
      let rest = Holds-append_right bytes it.index (entry_bytes e) (entries_bytes es) h in
      recover_records_step fuel id bytes it (after it e) (index_entries (it.index + size_of e) es)
        db (valid-entry bytes it e se at (Holds-append_left _ _ _ _ h) (omega arith))
        (λ db'.
          recover_records-entries_bytes id es fuel bytes (next (after it e)).1 db' s refl
            (rw size at rest) (ap bytes (omega (arith, len, size)) ∙ end) (omega (arith, len, size))
            small (inl (after_empty it e)) (omega (arith, pos)))
      ∙ ap (λ x. recover_all id (x ∷ index_entries (it.index + size_of e) es) db) same

  -- For a file that holds a sequence of storable entries with a zero byte behind them, before its
  -- end, and is shorter than 4 GiB, the loop over its index log and the loop over the file itself,
  -- started with an empty buffer, have the same result.
  pub recover_index-recover_records :
      (id : ℕ) (es : List Entry) (bytes : Memory) (size : ℕ) (buffer : ReadableBuffer) (db : Db)
      → All IsStorable es
      → Holds bytes 0 (entries_bytes es)
      → bytes (length (entries_bytes es)) ≡ 0
      → length (entries_bytes es) < size
      → size < 2 ^ 32
      → readable_bytes buffer ≡ 0
      → recover_index (suc (length (index_log 0 es))) id (open_index (index_log 0 es)) db
        ≡ recover_records (suc size) id bytes (open_iterator size buffer) db
  unfolding open_iterator
  recover_index-recover_records id es bytes size buffer db s h end room small nothing =
      let readable = readable_bytes-array_buffer (indices_bytes (index_entries 0 es)) in
      rw index_log-index_entries (
        recover_index-indices_bytes id (index_entries 0 es) _
          (open_index (indices_bytes (index_entries 0 es))) db
          (index_entries-IsStorable 0 es s (omega arith)) (Holds-of_list _) (omega arith)
          (omega arith)
        ∙ sym (
            recover_records-entries_bytes id es (suc size) bytes (open_iterator size buffer) db s
              refl h (ap bytes (omega arith) ∙ end) (omega arith) small (inl nothing)
              (omega arith)))
