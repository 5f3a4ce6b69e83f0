-- ===== src/Db/Compact/Loop.antt =====
-- The loop of a compaction over a file that is a sequence of entries.
use pedrodb.Base.{
  ◌⊎◌, inl, ℕ, zero, suc, ◌+◌, ◌^◌, ◌<◌, ◌≤◌, ◌≡◌, ◌≢◌, refl, ap, sym, ◌∙◌, arith, List, [], ◌∷◌,
  Bool, true, false, some, length, length-append, All,
}
use mathlib.Core.Path.{ap₂, subst}
use pedrodb.Base.Bytes.{Holds, Holds-append_left, Holds-append_right}
use pedrodb.Platform.{Platform}
use pedrodb.Buffer.{readable_bytes}
use pedrodb.Format.Record.{Entry, size_of}
use pedrodb.Format.Record.Location.{Location, Dir}
use pedrodb.Format.Record.Pack.{entry_bytes}
use pedrodb.Format.Record.RoundTrip.{IsStorable}
use pedrodb.Format.Record.Sequence.{entries_bytes, length-entry_bytes-size_of, size_of-pos}
use pedrodb.File.{DiskFile, Faults, faulty, max_file_bytes}
use pedrodb.FileManager.{Run, done, crash, out_of_fuel}
use pedrodb.Index.{IndexMap}
use pedrodb.Iterator.{RecordIterator, valid, next, get_offset}
use pedrodb.Iterator.End.{valid_end}
use pedrodb.Iterator.Step.{valid-entry, after, after_empty}
use pedrodb.Status.{Status, ok}
use pedrodb.Db.{Db}
use pedrodb.Db.View.{Contents}
use pedrodb.Db.Compact.{compact_entry, compact_loop}
use pedrodb.Db.Compact.Keeps.{Keeps}
use pedrodb.Db.Compact.Round.{compact_entry-IsRound}

-- An offset at which one of the entries starts, the first of which is at `o`.
pub data IsStart : ℕ → List Entry → ℕ → Type 0 where
  first : {o q : ℕ} {e : Entry} {es : List Entry} → q ≡ o → IsStart o (e ∷ es) q
  later :
      {o q : ℕ} {e : Entry} {es : List Entry} → IsStart (o + size_of e) es q → IsStart o (e ∷ es) q

not_first :
    (o q : ℕ) (e : Entry) (es : List Entry)
    → IsStart o (e ∷ es) q
    → q ≢ o
    → IsStart (o + size_of e) es q
not_first o q e es (first h) other = absurd (other h)
not_first o q e es (later h) other = h

module _ ⦃p : Platform⦄ ⦃t : IndexMap⦄ where
  -- The index leads into the file at starts of entries only.
  abbrev pub LeadsTo : ℕ → ℕ → List Entry → Db → Type 0
  LeadsTo id o es db =
      (key : List ℕ) (dir : Dir)
      → t.find db.indices key ≡ some dir
      → dir.loc.id ≡ id
      → IsStart o es dir.loc.offset

  -- The loop has ended: the index leads no key into the file.
  pub record IsEmptied (id : ℕ) (f : DiskFile) (s : Contents) (r : Run (Status × Db)) : Type 0 where
    pub db' : Db
    pub went : r ≡ done (ok, db')
    pub keeps : Keeps db' s
    pub away : (key : List ℕ) (dir : Dir) → t.find db'.indices key ≡ some dir → dir.loc.id ≢ id
    pub file : db'.files.data_files id ≡ f
    pub old : id < db'.files.active_file_id

  module _ (io : Faults) (works : faulty io ≡ false) (id : ℕ) (f : DiskFile) (s : Contents) where
    loop_end :
        (fuel : ℕ) (it : RecordIterator) (db : Db)
        → (valid (db.files.data_files id).bytes it).0 ≡ false
        → compact_loop (suc fuel) io id id it db ≡ done (ok, db)
    unfolding compact_loop
    loop_end fuel it db h = rw (h, compact_loop) refl

    loop_step :
        (fuel : ℕ) (it it' : RecordIterator) (db db' : Db)
        → valid (db.files.data_files id).bytes it ≡ (true, it')
        → compact_entry io (record { id = id; offset = get_offset it' }) it'.entry db
          ≡ done (ok, db')
        → compact_loop (suc fuel) io id id it db ≡ compact_loop fuel io id id (next it').1 db'
    unfolding compact_loop
    loop_step fuel it it' db db' read went = ap after_read read ∙ ap after_round went
      where
        after_round : Run (Status × Db) → Run (Status × Db)
        after_round r = elim r [
          | done (ok, db'') ↦ compact_loop fuel io id id (next it').1 db''
          | done (status, db'') ↦ done (status, db'')
          | crash ↦ crash
          | out_of_fuel ↦ out_of_fuel
        ]

        after_read : Bool × RecordIterator → Run (Status × Db)
        after_read r = elim r.0 [
          | false ↦ done (ok, db)
          | true ↦
              elim (compact_entry io (record { id = id; offset = get_offset r.1 }) r.1.entry db) [
                | done (ok, db'') ↦ compact_loop fuel io id id (next r.1).1 db''
                | done (status, db'') ↦ done (status, db'')
                | crash ↦ crash
                | out_of_fuel ↦ out_of_fuel
              ]
        ]

    pub compact_loop-entries_bytes :
        (es : List Entry) (fuel : ℕ) (it : RecordIterator) (db : Db)
        → Keeps db s
        → db.files.data_files id ≡ f
        → All IsStorable es
        → it.read_index ≡ it.index
        → Holds f.bytes it.index (entries_bytes es)
        → f.bytes (it.index + length (entries_bytes es)) ≡ 0
        → it.index + length (entries_bytes es) < it.size
        → it.size ≤ max_file_bytes
        → (readable_bytes it.buffer ≡ 0) ⊎ (0 < length es)
        → it.size < it.index + fuel
        → id < db.files.active_file_id
        → db.files.active_file_id + length es + 1 < 2 ^ 32
        → LeadsTo id it.index es db
        → IsEmptied id f s (compact_loop fuel io id id it db)
    unfolding entries_bytes next
    compact_loop-entries_bytes es zero it db k file ss at h end inside small clear enough old room
          leads =
        absurd (omega arith)
    compact_loop-entries_bytes [] (suc fuel) it db k file ss at h end inside small clear enough old
          room leads =
        record {
          db' = db;
          went = loop_end fuel it db (
              valid_end (db.files.data_files id).bytes it at
                (rw file (ap f.bytes (omega arith) ∙ end)) (inl (ground arith)));
          keeps = k;
          away = λ key dir found here. elim (leads key dir found here) [ ];
          file = file;
          old = old;
        }
    compact_loop-entries_bytes (e ∷ es) (suc fuel) it db k file (se, ss) at h end inside small clear
          enough old room leads =
        let len = length-append (entry_bytes e) (entries_bytes es) in
        let size = length-entry_bytes-size_of e se in
        let pos = size_of-pos e se in
        let here : Holds f.bytes it.index (entry_bytes e) = Holds-append_left _ _ _ _ h in
        let rest = Holds-append_right f.bytes it.index (entry_bytes e) (entries_bytes es) h in
        let loc : Location = record { id = id; offset = it.index } in
        let r =
          compact_entry-IsRound io loc e db s k se (omega (arith, len, size)) (rw file here) old
            (omega arith) works in
        let fits : get_offset (after it e) ≡ it.index = unfold get_offset in omega arith in
        let step =
          loop_step fuel it (after it e) db r.db'
            (valid-entry (db.files.data_files id).bytes it e se at (rw file here)
              (omega (arith, len, size)))
            (ap (λ o. compact_entry io (record { id = id; offset = o }) e db) fits ∙ r.went) in
        subst (IsEmptied id f s) (sym step) (
          compact_loop-entries_bytes es fuel (next (after it e)).1 r.db' r.keeps (r.file ∙ file) ss
            refl (rw size at rest) (ap f.bytes (omega (arith, len, size)) ∙ end)
            (omega (arith, len, size)) small (inl (after_empty it e)) (omega (arith, pos))
            (omega (arith, r.grows)) (omega (arith, r.step))
            (λ key dir found in_file.
              let (before, other) = r.index key dir found in_file in
              not_first it.index dir.loc.offset e es (leads key dir before in_file)
                (λ same. other (ap₂ (λ i o. record { id = i; offset = o }) in_file same))))
