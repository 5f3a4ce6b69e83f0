-- ===== src/Db/Compact/Keeps.antt =====
-- The index during a compaction, against the map that the database stands for.
use pedrodb.Base.{ℕ, ◌+◌, ◌≡◌, sym, ◌∙◌, arith, List, none, some, All, Option-cases, inl, inr}
use mathlib.Core.Path.{subst}
use pedrodb.Base.Bytes.{Memory, Holds}
use pedrodb.Buffer.Readable.{readable_bytes-within}
use pedrodb.Platform.{Platform}
use pedrodb.Buffer.{ReadableBuffer}
use pedrodb.Format.Record.{Entry, size_of}
use pedrodb.Format.Record.Pack.{entry_bytes}
use pedrodb.Format.Record.Location.{Dir}
use pedrodb.Format.Record.RoundTrip.{IsStorable, unpack-Holds}
use pedrodb.FileManager.Acquire.{IsHandle}
use pedrodb.Index.{IndexMap}
use pedrodb.Db.{Db}
use pedrodb.Db.View.{Contents, HasValue, IsReady}

-- A storable entry is determined by its bytes.
pub entry_unique :
    ⦃p : Platform⦄ (bytes : Memory) (o : ℕ) (x y : Entry)
    → IsStorable x
    → IsStorable y
    → Holds bytes o (entry_bytes x)
    → Holds bytes o (entry_bytes y)
    → x ≡ y
entry_unique bytes o x y sx sy hx hy =
    let n : ℕ = o + size_of x + size_of y in
    let r : ReadableBuffer = record { memory = bytes; read_index = o; capacity = n } in
    let readable = readable_bytes-within bytes o n (omega arith) in
    let both = sym (unpack-Holds x r sx (omega arith) hx) ∙ unpack-Holds y r sy (omega arith) hy in
    cc

module _ ⦃p : Platform⦄ ⦃t : IndexMap⦄ where
  -- The index stands for the map, and the database can append. Nothing is said of the read cache.
  pub record Keeps (db : Db) (s : Contents) : Type 0 where
    pub present : (key value : List ℕ) → s key ≡ some value → HasValue db key value
    pub absent : (key : List ℕ) → s key ≡ none → t.find db.indices key ≡ none
    pub handles : All IsHandle db.files.open_files.entries
    pub ready : IsReady db

  -- What the index has is a value of the map.
  pub found_value :
      (db : Db) (s : Contents)
      → Keeps db s
      → (key : List ℕ) (dir : Dir) → t.find db.indices key ≡ some dir
      → (v : List ℕ) × (h : HasValue db key v) × (s key ≡ some v) × (h.dir ≡ dir)
  found_value db s k key dir found = elim (Option-cases (s key)) [
    | inl none_is ↦ let no_dir = k.absent key none_is in cc
    | inr (v, is) ↦
        let h = k.present key v is in
        let same : h.dir ≡ dir = (let e = sym h.found ∙ found in cc) in (v, h, is, same)
  ]

  -- Where the index has a location of an entry, the entry is what the map has of its key.
  pub current_value :
      (db : Db) (s : Contents)
      → Keeps db s
      → (key : List ℕ) (dir : Dir) (e : Entry) → t.find db.indices key ≡ some dir
      → IsStorable e
      → Holds (db.files.data_files dir.loc.id).bytes dir.loc.offset (entry_bytes e)
      → (v : List ℕ) × (h : HasValue db key v) × (s key ≡ some v) × (h.dir ≡ dir) × (h.entry ≡ e)
  current_value db s k key dir e found se holds =
      let (v, h, is, same) = found_value db s k key dir found in
      (
        v,
        h,
        is,
        same,
        entry_unique (db.files.data_files dir.loc.id).bytes dir.loc.offset h.entry e h.storable se
            (subst
              (λ (d : Dir).
                Holds (db.files.data_files d.loc.id).bytes d.loc.offset (entry_bytes h.entry))
              same h.stored.stands)
            holds,
      )
