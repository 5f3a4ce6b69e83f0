-- ===== src/Db/Get/Direct.antt =====
-- The value of an entry, read from the data file.
use pedrodb.Base.{ℕ, ◌+◌, ◌<◌, ◌≡◌, refl, ap, ◌∙◌, List, true, some, Bool-cases, inl, inr}
use pedrodb.Base.Bytes.{Memory, Holds}
use pedrodb.Platform.{Platform}
use pedrodb.Buffer.{ReadableBuffer}
use pedrodb.Format.Record.{Entry, size_of, validate}
use pedrodb.Format.Record.Location.{Dir}
use pedrodb.Format.Record.RoundTrip.{IsStorable}
use pedrodb.Format.Record.Pack.{entry_bytes}
use pedrodb.File.{max_file_bytes}
use pedrodb.FileManager.{done, FileManager, ReadableFile}
use pedrodb.Iterator.{RecordIterator, open_iterator, seek, valid, next}
use pedrodb.Iterator.Step.{valid-entry}
use pedrodb.FileManager.Acquire.{IsHandle}
use pedrodb.Status.{ok}
use pedrodb.Db.{Options}
use pedrodb.Db.View.{compressed}
use pedrodb.Db.Get.{uncompressed, get_entry, get_valid, get_from}

module _ ⦃p : Platform⦄ where
  -- The iterator at the entry.
  abbrev at_entry : Dir → ReadableBuffer → RecordIterator
  at_entry dir buffer = seek dir.loc.offset (open_iterator max_file_bytes buffer)

  uncompressed_lem : (o : Options) (v : List ℕ) → uncompressed o (compressed o v) ≡ v
  uncompressed_lem o v = elim (Bool-cases o.compress_value) [
    | inl on ↦ rw on (p.uncompress-compress v)
    | inr off ↦ rw off refl
  ]

  pub get_entry_lem :
      (o : Options) (e : Entry) (v : List ℕ)
      → validate e ≡ true
      → e.value ≡ compressed o v
      → get_entry o e ≡ (ok, some v)
  unfolding get_entry
  get_entry_lem o e v checks value = rw (checks, value, uncompressed_lem o v)

  get_valid_lem :
      (o : Options) (dir : Dir) (bytes : Memory) (buffer : ReadableBuffer) (e : Entry) (v : List ℕ)
      → IsStorable e
      → Holds bytes dir.loc.offset (entry_bytes e)
      → dir.loc.offset + size_of e < max_file_bytes
      → validate e ≡ true
      → e.value ≡ compressed o v
      → get_valid o (valid bytes (at_entry dir buffer)) ≡ (ok, some v)
  unfolding get_valid next seek open_iterator
  get_valid_lem o dir bytes buffer e v storable holds inside checks value =
      ap (get_valid o) (valid-entry bytes (at_entry dir buffer) e storable refl holds inside)
      ∙ get_entry_lem o e v checks value

  pub get_from_lem :
      (o : Options) (dir : Dir) (buffer : ReadableBuffer) (file : ReadableFile) (m : FileManager)
      (e : Entry) (v : List ℕ)
      → IsHandle (dir.loc.id, file)
      → IsStorable e
      → Holds (m.data_files dir.loc.id).bytes dir.loc.offset (entry_bytes e)
      → dir.loc.offset + size_of e < max_file_bytes
      → validate e ≡ true
      → e.value ≡ compressed o v
      → get_from o dir buffer (ok, some file, m) ≡ done (ok, some v, m)
  unfolding get_from
  get_from_lem o dir buffer file m e v (same, whole) storable holds inside checks value =
      let answer : get_valid o (
            valid (m.data_files file.file).bytes
              (seek dir.loc.offset (open_iterator file.size buffer)))
          ≡ (ok, some v) =
        rw (same, whole) (get_valid_lem o dir _ buffer e v storable holds inside checks value) in
      ap (λ r. done (r.0, r.1, m)) answer
