-- ===== src/Db/Compact/Refines.antt =====
-- A whole compaction of a file.
use pedrodb.Base.{
  ◌⊎◌, if◌then◌else◌, ℕ, suc, ◌+◌, ◌^◌, ◌<◌, ◌≡◌, ◌≢◌, refl, ap, sym, ◌∙◌, arith, List, true, false,
  some, length, All,
}
use mathlib.Core.Path.{ap₂}
use pedrodb.Base.Bytes.{Holds}
use pedrodb.Platform.{Platform}
use pedrodb.Buffer.{ReadableBuffer, readable_bytes}
use pedrodb.Format.Record.{Entry}
use pedrodb.Format.Record.Location.{Dir}
use pedrodb.Format.Record.RoundTrip.{IsStorable}
use pedrodb.Format.Record.Sequence.{entries_bytes}
use pedrodb.File.{Faults, faulty, max_file_bytes}
use pedrodb.FileManager.{ReadableFile, done, acquire_data_file}
use pedrodb.FileManager.Acquire.{IsHandle, acquire_data_file-IsAcquired}
use pedrodb.FileManager.Remove.{IsRemoved, remove_file-IsRemoved, remove_file-exists}
use pedrodb.Index.{IndexMap}
use pedrodb.Iterator.{open_iterator}
use pedrodb.Lru.{LruCache}
use pedrodb.Db.{Db, FileState}
use pedrodb.Db.View.{Contents, HasValue, IsReady}
use pedrodb.Db.Kept.{HasValue-kept, IsConsistent-HasActive}
use pedrodb.Db.Get.Refines.{IsReady-with_caches}
use pedrodb.Db.Compact.{
  begin_compact, compact_loop, compacted, compact_from, end_compact, compact_file,
}
use pedrodb.Db.Compact.Keeps.{Keeps}
use pedrodb.Db.Compact.Loop.{LeadsTo, compact_loop-entries_bytes}

module _ ⦃p : Platform⦄ where
  IsReady-removed :
      ⦃t : IndexMap⦄ (id : ℕ) (db db' : Db)
      → IsRemoved id db.files db'.files
      → id < db.files.active_file_id
      → IsReady db
      → IsReady db'
  IsReady-removed id db db' r old ready =
      let c = ready.consistent in
      let same = r.others db.files.active_file_id (λ h. omega (arith, h, old)) in
      record {
        consistent = record {
          file = c.file;
          entries = c.entries;
          active = r.data_file ∙ c.active;
          same_file = c.same_file ∙ sym r.active;
          whole = c.whole;
          on_disk = rw (r.active, same) c.on_disk;
          disk_length = rw (r.active, same) c.disk_length;
          storable = c.storable;
          holds = rw (r.active, same) c.holds;
          written = c.written;
          within = c.within;
          zeros = rw (r.active, same) c.zeros;
          index_is = r.index_log ∙ c.index_is;
        };
        fresh = λ i h. r.gone i (ready.fresh i (omega (arith, h, r.active)));
      }

module _ ⦃p : Platform⦄ ⦃t : IndexMap⦄ where
  -- A value that is in none of the removed file stays.
  HasValue-removed :
      (id : ℕ) (db db' : Db) (key v : List ℕ)
      → IsRemoved id db.files db'.files
      → db'.options ≡ db.options
      → db'.indices ≡ db.indices
      → (h : HasValue db key v) → h.dir.loc.id ≢ id
      → HasValue db' key v
  HasValue-removed id db db' key v r options index h other =
      let same = r.others h.dir.loc.id other in
      record {
        dir = h.dir;
        entry = h.entry;
        found = ap (λ m. t.find m key) index ∙ h.found;
        storable = h.storable;
        stored = record {
          stands = rw same h.stored.stands;
          exists = rw same h.stored.exists;
          length = rw same h.stored.length;
          inside = h.stored.inside;
          old = rw r.active h.stored.old;
          before = λ f a at. h.stored.before f (sym r.data_file ∙ a) (at ∙ r.active);
        };
        is_set = h.is_set;
        key_is = h.key_is;
        value_is = rw options h.value_is;
        valid = h.valid;
        size_is = h.size_is;
      }

  Keeps-end_compact :
      (io : Faults) (id : ℕ) (db : Db) (s : Contents)
      → Keeps db s
      → ((key : List ℕ) (dir : Dir) → t.find db.indices key ≡ some dir → dir.loc.id ≢ id)
      → id < db.files.active_file_id
      → Keeps (end_compact io id db) s
  unfolding end_compact
  Keeps-end_compact io id db s k away old =
      let r = remove_file-IsRemoved io id db.files in
      record {
        present = λ key v is.
            let h = k.present key v is in
            HasValue-removed id db (end_compact io id db) key v r refl refl h
              (away key h.dir h.found);
        absent = k.absent;
        handles = r.handles k.handles;
        ready = IsReady-removed id db (end_compact io id db) r old k.ready;
      }

  IsReady-opened :
      (db : Db) (handles : LruCache ReadableFile) (states : ℕ → FileState)
      → IsReady db
      → IsReady
          (record db { files = record db.files { open_files = handles }; file_states = states })
  IsReady-opened db handles states ready =
      let r = IsReady-with_caches db handles db.read_cache ready in
      record { consistent = r.consistent; fresh = r.fresh }

  -- Another cache of handles, and other states of the files, keep the map.
  Keeps-opened :
      (db : Db) (s : Contents) (handles : LruCache ReadableFile) (states : ℕ → FileState)
      → Keeps db s
      → All IsHandle handles.entries
      → Keeps
          (record db { files = record db.files { open_files = handles }; file_states = states })
          s
  Keeps-opened db s handles states k are_handles = record {
    present = λ key v is.
        HasValue-kept db _ key v
          (λ l x st sx. record {
            stands = st.stands;
            exists = st.exists;
            length = st.length;
            inside = st.inside;
            old = st.old;
            before = st.before;
          })
          refl refl (k.present key v is);
    absent = k.absent;
    handles = are_handles;
    ready = IsReady-opened db handles states k.ready;
  }

  -- What `Compact(id)` leads to: the map is kept, and the file is gone and not needed.
  pub record IsCompacted (io : Faults) (buffer : ReadableBuffer) (id : ℕ) (db : Db) (s : Contents)
      : Type 0 where
    pub db' : Db
    pub went : compact_file io buffer id db ≡ done db'
    pub keeps : Keeps db' s
    pub away : (key : List ℕ) (dir : Dir) → t.find db'.indices key ≡ some dir → dir.loc.id ≢ id
    pub gone : (db'.files.data_files id).exists ≡ false

  -- `Compact(id)` of a file before the active one, with no call of the system failing, on a database
  -- that is not read-only, stands for a map and can append. The file is whole and holds a sequence of
  -- storable entries, a zero byte behind them and before its end, the index leads into the file at
  -- starts of entries only, and there are 32-bit ids for as many files as there are entries. The
  -- thread's buffer is empty, or the file has an entry; then the buffer is arbitrary. Then it ends, the database stands for the same map and can append, the index leads no key into the file,
  -- and the file is removed.
  pub compact_file-IsCompacted :
      (io : Faults) (buffer : ReadableBuffer) (id : ℕ) (es : List Entry) (db : Db) (s : Contents)
      → Keeps db s
      → faulty io ≡ false
      → io.sync_fails ≡ false
      → db.readonly ≡ false
      → id < db.files.active_file_id
      → db.files.active_file_id + length es + 1 < 2 ^ 32
      → (db.files.data_files id).exists ≡ true
      → (db.files.data_files id).length ≡ max_file_bytes
      → All IsStorable es
      → Holds (db.files.data_files id).bytes 0 (entries_bytes es)
      → (db.files.data_files id).bytes (length (entries_bytes es)) ≡ 0
      → length (entries_bytes es) < max_file_bytes
      → (readable_bytes buffer ≡ 0) ⊎ (0 < length es)
      → LeadsTo id 0 es db
      → IsCompacted io buffer id db s
  unfolding compact_file compact_from compacted open_iterator
  compact_file-IsCompacted io buffer id es db s k works synced writable old room exists whole ss
        holds end inside clear leads =
      let opens : io.open_fails ≡ false = ground arith in
      let sized : io.size_fails ≡ false = ground arith in
      let a =
        acquire_data_file-IsAcquired io id db.files opens sized exists whole
          (IsConsistent-HasActive db.files k.ready.consistent) k.handles in
      let db1 : Db =
        begin_compact id (record db { files = record db.files { open_files = a.cache } }) in
      let e =
        compact_loop-entries_bytes io works id (db.files.data_files id) s es (suc max_file_bytes)
          (open_iterator max_file_bytes buffer) db1
          (Keeps-opened db s a.cache db1.file_states k a.handles) refl ss refl holds
          (ap (db.files.data_files id).bytes (omega arith) ∙ end) (omega arith) (omega arith) clear
          (omega arith) old room leads in
      let read : compact_file io buffer id db
          ≡ compacted io id (
              compact_loop (suc max_file_bytes) io id id (open_iterator max_file_bytes buffer)
                db1) =
        ap
          (λ b.
            if b then done db else compact_from io buffer id (acquire_data_file io id db.files) db)
          writable
        ∙ ap (λ r. compact_from io buffer id r db) a.answer
        ∙ ap₂ (λ n i. compacted io id (compact_loop (suc n) io id i (open_iterator n buffer) db1))
            a.handle.1 a.handle.0 in
      record {
        db' = end_compact io id e.db';
        went = read ∙ ap (compacted io id) e.went;
        keeps = Keeps-end_compact io id e.db' s e.keeps e.away e.old;
        away = unfold end_compact in e.away;
        gone = unfold end_compact in remove_file-exists io id e.db'.files synced;
      }
