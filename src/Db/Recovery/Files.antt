-- ===== src/Db/Recovery/Files.antt =====
-- `Recovery()`: the files in the order of their ids.
use pedrodb.Base.{
  ℕ, ◌^◌, ◌≤◌, ◌<◌, ◌≡◌, ◌⊎◌, refl, ap, sym, ◌∙◌, arith, List, [], ◌∷◌, Bool, true, false, Option,
  some, if◌then◌else◌, ◌===◌, All, All-imp, All-both, inl, inr, max,
}
use pedrodb.Base.Ids.{IsAscending}
use pedrodb.Platform.{Platform}
use pedrodb.Buffer.{ReadableBuffer}
use pedrodb.Format.Record.{Entry}
use pedrodb.Format.Record.Location.{Dir}
use pedrodb.Format.Index
use pedrodb.Format.Index.RoundTrip.{IsStorable}
use pedrodb.File.{Faults}
use pedrodb.FileManager.{FileManager, last}
use pedrodb.FileManager.Acquire.{HasActive}
use pedrodb.FileManager.Durable.{HoldsIndex, HoldsLog}
use pedrodb.Index.{IndexMap}
use pedrodb.Status.{Status, ok}
use pedrodb.Db.{Db}
use pedrodb.Db.Recovery.{recover_file, recover_files}
use pedrodb.Db.Recovery.Entries.{dir_of, dir_of_type_loc, latest, IsBelow}
use pedrodb.Db.Recovery.IndexFile.{index_entries, index_entries-IsStorable}
use pedrodb.Db.Recovery.File.{IsRecovering, recover_file-IsRecovered}
use pedrodb.Db.Recovery.Replay.{replayed}

module _ ⦃t : IndexMap⦄ where
  -- What a key has after the entries of a file is of that file, or was there before.
  latest_place :
      (id : ℕ) (j : List ℕ) (es : List Index.Entry) (d : Option Dir) (dir : Dir)
      → All IsStorable es
      → latest id j es d ≡ some dir
      → ((dir.loc.id ≡ id) × (dir.loc.offset < 2 ^ 32)) ⊎ (d ≡ some dir)
  unfolding latest
  latest_place id j [] d dir s h = inr h
  latest_place id j (e ∷ es) d dir (se, s) h =
      elim (latest_place id j es (if e.key === j then dir_of id e else d) dir s h) [
        | inl new ↦ inl new
        | inr before ↦ here (e.key === j) before
      ]
    where
      here :
          (same : Bool)
          → (if same then dir_of id e else d) ≡ some dir
          → ((dir.loc.id ≡ id) × (dir.loc.offset < 2 ^ 32)) ⊎ (d ≡ some dir)
      here true is =
          let loc = dir_of_type_loc e.entry_type _ e.len dir is in
          inl (ap (λ l. l.id) loc, rw loc se.offset_fits)
      here false is = inr is

module _ ⦃p : Platform⦄ ⦃t : IndexMap⦄ where
  -- The recovery of the files, in a database where nothing is of these files yet.
  pub record AreRecovered (base : FileManager) (log : ℕ → List Entry) (ids : List ℕ) (start db : Db)
      (r : Option (Status × Db)) : Type 0 where
    pub db' : Db
    pub goes : r ≡ some (ok, db')
    pub state : IsRecovering base start db'
    pub max_file : db'.max_file ≡ last db.max_file ids
    pub index : (j : List ℕ) → t.find db'.indices j ≡ replayed log ids j (t.find db.indices j)

  IsBelow-next :
      (id i : ℕ) (es : List Entry) (db db' : Db)
      → id < i
      → All IsStorable (index_entries 0 es)
      → IsBelow db i 0
      → ((j : List ℕ)
          → t.find db'.indices j ≡ latest id j (index_entries 0 es) (t.find db.indices j))
      → IsBelow db' i 0
  IsBelow-next id i es db db' above s below index j dir is =
      elim (latest_place id j (index_entries 0 es) (t.find db.indices j) dir s
        (sym (index j) ∙ is)) [
          | inl (at, fits) ↦ (omega arith, fits)
          | inr before ↦ below j dir before
        ]

  recover_files_step :
      (io : Faults) (buffers : ℕ → ReadableBuffer) (id : ℕ) (ids : List ℕ) (db db' : Db)
      → recover_file io (buffers id) id (record db { max_file = max db.max_file id })
        ≡ some (ok, db')
      → recover_files io buffers (id ∷ ids) db ≡ recover_files io buffers ids db'
  unfolding recover_files
  recover_files_step io buffers id ids db db' h = rw (h, recover_files) refl

  module _ (io : Faults) (opens : io.open_fails ≡ false) (sized : io.size_fails ≡ false)
      (buffers : ℕ → ReadableBuffer) (base : FileManager) (active : HasActive base) (start : Db)
      (log : ℕ → List Entry)
      (index : (i : ℕ)
        → (base.index_files i).exists ≡ true
        → HoldsIndex (base.index_files i) (log i)) where
    -- `Recovery()` of files that hold sequences of storable entries and do not end with them, with
    -- the index files that there are, ends; each key has what the last of its entries says.
    pub recover_files-AreRecovered :
        (ids : List ℕ) (db : Db)
        → IsAscending ids
        → All (λ i. HoldsLog base i (log i)) ids
        → All (λ i. db.max_file ≤ i) ids
        → All (λ i. IsBelow db i 0) ids
        → IsRecovering base start db
        → AreRecovered base log ids start db (recover_files io buffers ids db)
    unfolding recover_files replayed last
    recover_files-AreRecovered [] db sorted holds low below state = record {
      db' = db;
      goes = refl;
      state = state;
      max_file = refl;
      index = λ j. refl;
    }
    recover_files-AreRecovered (id ∷ ids) db (above, sorted) (h, holds) (low, lows) (below, belows)
          state =
        let db1 : Db = record db { max_file = max db.max_file id } in
        let r =
          recover_file-IsRecovered io opens sized (buffers id) base active start db1
            (record {
              cache = state.cache;
              files = state.files;
              handles = state.handles;
              options = state.options;
              readonly = state.readonly;
              read_cache = state.read_cache;
            })
            id (log id) h below (index id) in
        let s = index_entries-IsStorable 0 (log id) h.entries.storable (omega (arith, h.ends)) in
        let newest : r.db'.max_file ≡ id = omega (arith, r.max_file, low) in
        let rest =
          recover_files-AreRecovered ids r.db' sorted holds
            (All-imp (λ i. id < i) (λ i. r.db'.max_file ≤ i) ids (λ i up. omega arith) above)
            (All-both (λ i. id < i) (λ i. IsBelow db i 0) (λ i. IsBelow r.db' i 0) ids
              (λ i up b. IsBelow-next id i (log id) db r.db' up s b r.index) above belows)
            r.state in
        record {
          db' = rest.db';
          goes = recover_files_step io buffers id ids db r.db' r.goes ∙ rest.goes;
          state = rest.state;
          max_file = rest.max_file ∙ ap (λ n. last n ids) newest;
          index = λ j. rest.index j ∙ ap (replayed log ids j) (r.index j);
        }
