-- ===== src/Iterator/IndexFile.antt =====
-- include/pedrodb/iterator/index_iterator.h. The buffer that the constructor fills has exactly the
-- bytes of the index file.
use pedrodb.Base.{ℕ, ◌≡◌, refl, List, [], Bool, true, false, none, some}
use pedrodb.Platform.{Platform}
use pedrodb.Buffer.{ReadableBuffer, array_buffer}
use pedrodb.Format.Record.{empty}
use pedrodb.Format.Index.{Entry, unpack}

pub record IndexIterator : Type 0 where
  pub buffer : ReadableBuffer
  pub entry : Entry

-- The constructor, on the bytes of the file; `entry_` has no value yet.
abbrev pub open_index : List ℕ → IndexIterator
open_index bytes = record {
  buffer = array_buffer bytes;
  entry = record { key = []; entry_type = empty; offset = 0; len = 0 };
}

-- `Next`
abbrev pub index_next : IndexIterator → Entry
index_next it = it.entry

module _ ⦃p : Platform⦄ where
  -- `Valid`: it reads the next entry.
  unfoldable pub index_valid : IndexIterator → Bool × IndexIterator
  index_valid it = elim (unpack it.buffer) [
    | none ↦ (false, it)
    | some (e, b) ↦ (true, record { buffer = b; entry = e })
  ]

  pub index_valid_end : (it : IndexIterator) → unpack it.buffer ≡ none → (index_valid it).0 ≡ false
  unfolding index_valid
  index_valid_end it h = rw (h, index_valid) refl

  pub index_valid_next :
      (it : IndexIterator) (e : Entry) (b : ReadableBuffer)
      → unpack it.buffer ≡ some (e, b)
      → index_valid it ≡ (true, record { buffer = b; entry = e })
  unfolding index_valid
  index_valid_next it e b h = rw (h, index_valid) refl
