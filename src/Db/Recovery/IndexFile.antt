-- ===== src/Db/Recovery/IndexFile.antt =====
-- Recovery from an index file.
use pedrodb.Base.{
  ℕ, zero, suc, ◌+◌, ◌^◌, ◌≤◌, ◌<◌, ◌≡◌, refl, ap, sym, ◌∙◌, arith, List, [], ◌∷◌, ◌++◌, Bool, true,
  false, Option, none, some, length, All, length-append, ltb, lt→ltb,
}
use pedrodb.Base.Bytes.{
  read_bytes, Holds, Holds-append_left, Holds-append_right, Holds-of_list, Holds-at,
}
use pedrodb.Buffer.Readable.{readable_bytes-array_buffer, readable_bytes-retrieve}
use pedrodb.Platform.{Platform}
use pedrodb.Buffer.{ReadableBuffer, readable_bytes, retrieve}
use pedrodb.Buffer.Ints.{peek_int}
use pedrodb.Format.Record.{Entry, size_of}
use pedrodb.Format.Record.RoundTrip
use pedrodb.Format.Record.Pack.{entry_bytes}
use pedrodb.Format.Record.Sequence.{entries_bytes, length-entry_bytes-size_of, size_of-pos}
use pedrodb.Format.Index
use pedrodb.Format.Index.RoundTrip.{IsStorable, unpack_index-Holds, length-index_bytes}
use pedrodb.File.{Faults}
use pedrodb.FileManager.{FileManager, index_of, acquire_index_file, ReadableFile}
use pedrodb.FileManager.Rebuild.{index_log}
use pedrodb.Index.{IndexMap}
use pedrodb.Iterator.IndexFile.{
  IndexIterator, open_index, index_valid, index_next, index_valid_end, index_valid_next,
}
use pedrodb.Status.{ok}
use pedrodb.Db.{Db}
use pedrodb.Db.Recovery.{recover_entry, recover_index, recover_file, recover_from_index}
use pedrodb.Db.Recovery.Entries.{recover_all, recover_all-latest, latest, IsSorted, IsBelow}
use pedrodb.Db.Recovery.Kept.{IsKept}

-- The index entries of entries that stand one behind the other from an offset on.
unfoldable pub index_entries : ℕ → List Entry → List Index.Entry
index_entries offset [] = []
index_entries offset (e ∷ es) = index_of offset e ∷ index_entries (offset + size_of e) es

module _ ⦃p : Platform⦄ where
  unfoldable pub indices_bytes : List Index.Entry → List ℕ
  indices_bytes [] = []
  indices_bytes (e ∷ es) = Index.index_bytes e ++ indices_bytes es

  pub index_log-index_entries :
      (offset : ℕ) (es : List Entry) → index_log offset es ≡ indices_bytes (index_entries offset es)
  unfolding index_log indices_bytes index_entries
  index_log-index_entries offset [] = refl
  index_log-index_entries offset (e ∷ es) =
      ap (◌++◌ (Index.index_bytes (index_of offset e)))
        (index_log-index_entries (offset + size_of e) es)

  unpack_nothing : (b : ReadableBuffer) → readable_bytes b ≡ 0 → Index.unpack b ≡ none
  unfolding Index.unpack peek_int
  unpack_nothing b h =
      let short : ltb (readable_bytes b) 1 ≡ true = lt→ltb _ _ (omega arith) in rw short

module _ ⦃p : Platform⦄ ⦃t : IndexMap⦄ where
  recover_index_end :
      (fuel id : ℕ) (it : IndexIterator) (db : Db)
      → (index_valid it).0 ≡ false
      → recover_index (suc fuel) id it db ≡ some db
  unfolding recover_index
  recover_index_end fuel id it db h = rw (h, recover_index) refl

  recover_index_step :
      (fuel id : ℕ) (it it' : IndexIterator) (es : List Index.Entry) (db : Db)
      → index_valid it ≡ (true, it')
      → ((db' : Db) → recover_index fuel id it' db' ≡ recover_all id es db')
      → recover_index (suc fuel) id it db ≡ recover_all id (index_next it' ∷ es) db
  unfolding recover_index recover_all
  recover_index_step fuel id it it' es db read rest =
      ap after_read read ∙ by (recover_entry id (index_next it') db)
    where
      after_read : Bool × IndexIterator → Option Db
      after_read r = elim r.0 [
        | false ↦ some db
        | true ↦ elim (recover_entry id (index_next r.1) db) [
          | none ↦ none
          | some db' ↦ recover_index fuel id r.1 db'
        ]
      ]

      by :
          (o : Option Db)
          → elim o [ none ↦ none | some db' ↦ recover_index fuel id it' db' ]
            ≡ elim o [ none ↦ none | some db' ↦ recover_all id es db' ]
      by none = refl
      by (some db') = rest db'

  -- The loop over an index file recovers its entries in their order.
  pub recover_index-indices_bytes :
      (id : ℕ) (es : List Index.Entry) (fuel : ℕ) (it : IndexIterator) (db : Db)
      → All IsStorable es
      → Holds it.buffer.memory it.buffer.read_index (indices_bytes es)
      → readable_bytes it.buffer ≡ length (indices_bytes es)
      → readable_bytes it.buffer < fuel
      → recover_index fuel id it db ≡ recover_all id es db
  unfolding indices_bytes recover_all
  recover_index-indices_bytes id es zero it db s h size enough = absurd (omega arith)
  recover_index-indices_bytes id [] (suc fuel) it db s h size enough =
      recover_index_end fuel id it db (index_valid_end it (unpack_nothing it.buffer (omega arith)))
  recover_index-indices_bytes id (e ∷ es) (suc fuel) it db (se, s) h size enough =
      let b = it.buffer in
      let len = length-append (Index.index_bytes e) (indices_bytes es) in
      let one = length-index_bytes e se in
      let left = readable_bytes-retrieve b (length (Index.index_bytes e)) (omega arith) in
      let it' : IndexIterator = record {
        buffer = retrieve b (length (Index.index_bytes e));
        entry = e;
      } in
      recover_index_step fuel id it it' es db
        (index_valid_next it e _
          (unpack_index-Holds e b se (omega arith) (Holds-append_left _ _ _ _ h)))
        (λ db'.
          recover_index-indices_bytes id es fuel it' db' s
            (Holds-append_right b.memory b.read_index (Index.index_bytes e) (indices_bytes es) h)
            (omega arith) (omega arith))

module _ ⦃p : Platform⦄ where
  pub index_entries-IsStorable :
      (offset : ℕ) (es : List Entry)
      → All RoundTrip.IsStorable es
      → offset + length (entries_bytes es) < 2 ^ 32
      → All IsStorable (index_entries offset es)
  unfolding index_entries entries_bytes
  index_entries-IsStorable offset [] s small = tt
  index_entries-IsStorable offset (e ∷ es) (se, s) small =
      let len = length-append (entry_bytes e) (entries_bytes es) in
      let size = length-entry_bytes-size_of e se in
      (
        record {
          written = se.written;
          key_fits = se.key_fits;
          offset_fits = omega arith;
          len_fits = omega arith;
        },
        index_entries-IsStorable (offset + size_of e) es s (omega arith),
      )

  pub index_entries-IsSorted :
      (low offset : ℕ) (es : List Entry)
      → All RoundTrip.IsStorable es
      → low ≤ offset
      → IsSorted low (index_entries offset es)
  unfolding index_entries
  index_entries-IsSorted low offset [] s h = tt
  index_entries-IsSorted low offset (e ∷ es) (se, s) h = (
    h,
    index_entries-IsSorted (offset + 1) (offset + size_of e) es s (omega (arith, size_of-pos e se)),
  )

module _ ⦃p : Platform⦄ ⦃t : IndexMap⦄ where
  acquire_index_file-ok :
      (io : Faults) (id : ℕ) (m : FileManager)
      → io.open_fails ≡ false
      → io.size_fails ≡ false
      → (m.index_files id).exists ≡ true
      → acquire_index_file io id m
        ≡ (ok, some (record { file = id; size = (m.index_files id).length }))
  unfolding acquire_index_file
  acquire_index_file-ok io id m opens sized exists = simp (opens, sized, exists)

  recover_from_index-ok :
      (io : Faults) (buffer : ReadableBuffer) (id : ℕ) (file : ReadableFile) (db db' : Db)
      → recover_index
          (suc file.size)
          id
          (open_index (read_bytes (db.files.index_files file.file).bytes 0 file.size))
          db
        ≡ some db'
      → recover_from_index io buffer id (ok, some file) db ≡ some (ok, db')
  unfolding recover_from_index
  recover_from_index-ok io buffer id file db db' h = rw (h, recover_from_index) refl

  -- Where the index file of a file can be opened and holds the index log of a sequence of storable
  -- entries of less than 4 GiB, and the index has nothing in this or a later file, `Recovery(id)`
  -- ends with kOk, and leaves for each key the location of the last of the entries with the key,
  -- nothing if that is a tombstone, and what it had if there is none; but for the bookkeeping of
  -- compaction nothing else changes.
  pub recover_file-index_log :
      (io : Faults) (buffer : ReadableBuffer) (id : ℕ) (es : List Entry) (db : Db)
      → io.open_fails ≡ false
      → io.size_fails ≡ false
      → (db.files.index_files id).exists ≡ true
      → (db.files.index_files id).length ≡ length (index_log 0 es)
      → Holds (db.files.index_files id).bytes 0 (index_log 0 es)
      → All RoundTrip.IsStorable es
      → length (entries_bytes es) < 2 ^ 32
      → IsBelow db id 0
      → (db' : Db) × (recover_file io buffer id db ≡ some (ok, db'))
        × IsKept db db'
        × ((j : List ℕ)
            → t.find db'.indices j ≡ latest id j (index_entries 0 es) (t.find db.indices j))
  unfolding recover_file
  recover_file-index_log io buffer id es db opens sized exists size holds s small below =
      let (db', goes, keeps, index) =
        recover_all-latest id 0 (index_entries 0 es) db
          (index_entries-IsStorable 0 es s (omega arith))
          (index_entries-IsSorted 0 0 es s (omega arith)) below in
      let file : ReadableFile = record { file = id; size = (db.files.index_files id).length } in
      let bytes : read_bytes (db.files.index_files id).bytes 0 (db.files.index_files id).length
          ≡ indices_bytes (index_entries 0 es) =
        Holds-at _ 0 _ _ holds (sym size) ∙ index_log-index_entries 0 es in
      let readable = readable_bytes-array_buffer (indices_bytes (index_entries 0 es)) in
      let loop : recover_index (suc file.size) id
            (open_index
              (read_bytes (db.files.index_files id).bytes 0 (db.files.index_files id).length))
            db
          ≡ some db' =
        rw bytes (
          recover_index-indices_bytes id (index_entries 0 es) _
            (open_index (indices_bytes (index_entries 0 es))) db
            (index_entries-IsStorable 0 es s (omega arith)) (Holds-of_list _) (omega arith)
            (omega (arith, size, ap length (index_log-index_entries 0 es)))
          ∙ goes) in
      (
        db',
        ap (λ r. recover_from_index io buffer id r db)
              (acquire_index_file-ok io id db.files opens sized exists)
            ∙ recover_from_index-ok io buffer id file db db' loop,
        keeps,
        index,
      )
