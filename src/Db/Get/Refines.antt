-- ===== src/Db/Get/Refines.antt =====
-- `HandleGet` as the lookup in a map.
use pedrodb.Base.{
  ℕ, ◌+◌, ◌^◌, ◌<◌, ◌≡◌, refl, ap, ◌∙◌, arith, List, Bool, true, false, none, some, All, Bool-cases,
  Option-cases, inl, inr, length,
}
use pedrodb.Platform.{Platform}
use pedrodb.Buffer.{ReadableBuffer}
use pedrodb.Format.Record.Location.{Dir}
use pedrodb.File.{Faults, max_file_bytes}
use pedrodb.FileManager.{ReadableFile, done}
use pedrodb.FileManager.Acquire.{IsHandle, acquire_data_file-IsAcquired}
use pedrodb.Lru.{LruCache}
use pedrodb.SegmentCache.Laws.{Every}
use pedrodb.ReadCache
use pedrodb.ReadCache.{ReadCache, new_context}
use pedrodb.ReadCache.Supply.{IsFresh}
use pedrodb.ReadCache.Reads.{get_entry-IsGot}
use pedrodb.Index.{IndexMap}
use pedrodb.Status.{ok, not_found}
use pedrodb.Db.{Db}
use pedrodb.Db.View.{Contents, HasValue, Shows, IsCached, IsReady}
use pedrodb.Db.Get.{
  get_from, get_cached, get_found, directly_read, with_files, with_cache, handle_get,
}
use pedrodb.Db.Get.Direct.{get_from_lem}
use pedrodb.Db.Get.Cached.{get_cached_lem}
use pedrodb.Db.Kept.{HasValue-kept}

module _ ⦃p : Platform⦄ ⦃t : IndexMap⦄ where
  -- The database with other caches.
  abbrev pub with_caches : Db → LruCache ReadableFile → ReadCache → Db
  with_caches db handles cache = record db {
    files = record db.files { open_files = handles };
    read_cache = cache;
  }

  module _ (db : Db) (handles : LruCache ReadableFile) (cache : ReadCache) where
    IsCached-with_caches :
        IsCached db
        → Every (IsFresh db.files) cache
        → 0 < length cache
        → IsCached (with_caches db handles cache)
    IsCached-with_caches c fresh segments = record {
      newest = c.newest;
      fresh = fresh;
      segments = segments;
    }

    Shows-with_caches :
        (s : Contents)
        → Shows db s
        → All IsHandle handles.entries
        → IsCached (with_caches db handles cache)
        → Shows (with_caches db handles cache) s
    Shows-with_caches s shows are_handles cached = record {
      present = λ k v h.
          HasValue-kept db _ k v
            (λ l x st sx. record {
              stands = st.stands;
              exists = st.exists;
              length = st.length;
              inside = st.inside;
              old = st.old;
              before = st.before;
            })
            refl refl (shows.present k v h);
      absent = shows.absent;
      handles = are_handles;
      active = record {
        file = shows.active.file;
        is = shows.active.is;
        same_file = shows.active.same_file;
        whole = shows.active.whole;
      };
      cached = cached;
    }

    -- Other caches leave the database ready to append.
    pub IsReady-with_caches : IsReady db → IsReady (with_caches db handles cache)
    IsReady-with_caches ready =
        let c = ready.consistent in
        record {
          consistent = record {
            file = c.file;
            entries = c.entries;
            active = c.active;
            same_file = c.same_file;
            whole = c.whole;
            on_disk = c.on_disk;
            disk_length = c.disk_length;
            storable = c.storable;
            holds = c.holds;
            written = c.written;
            within = c.within;
            zeros = c.zeros;
            index_is = c.index_is;
          };
          fresh = ready.fresh;
        }

  -- What a call of `HandleGet` leads to.
  pub data Found (io : Faults) (use_cache : Bool) (buffer : ReadableBuffer) (key : List ℕ) (db : Db)
      (s : Contents) : Type 0 where
    found :
        (value : List ℕ) (handles : LruCache ReadableFile) (cache : ReadCache)
        → s key ≡ some value
        → handle_get io use_cache buffer key db
          ≡ done (ok, some value, with_caches db handles cache)
        → Shows (with_caches db handles cache) s
        → Found io use_cache buffer key db s
    missing :
        s key ≡ none
        → handle_get io use_cache buffer key db ≡ done (not_found, none, db)
        → Found io use_cache buffer key db s

  module _ (io : Faults) (use_cache : Bool) (buffer : ReadableBuffer) (key : List ℕ) (db : Db)
      (s : Contents) (shows : Shows db s) (opens : io.open_fails ≡ false)
      (sized : io.size_fails ≡ false) where
    get_missing :
        t.find db.indices key ≡ none
        → handle_get io use_cache buffer key db ≡ done (not_found, none, db)
    unfolding handle_get get_found
    get_missing absent = rw absent refl

    get_directly :
        (v : List ℕ)
        → s key ≡ some v
        → (h : HasValue db key v) → directly_read use_cache h.dir db ≡ true
        → h.dir.loc.offset + h.dir.entry_size < max_file_bytes
        → Found io use_cache buffer key db s
    unfolding handle_get get_found with_files
    get_directly v is h direct inside =
        let a =
          acquire_data_file-IsAcquired io h.dir.loc.id db.files opens sized h.stored.exists
            h.stored.length shows.active shows.handles in
        found v a.cache db.read_cache is
          (ap (λ o. get_found io use_cache buffer o db) h.found
            ∙ rw (direct, get_found)
                (ap (λ r. with_files db (get_from db.options h.dir buffer r)) a.answer
                  ∙ ap (with_files db) (
                      get_from_lem db.options h.dir buffer a.file
                        (record db.files { open_files = a.cache }) h.entry v a.handle h.storable
                        h.stored.stands (omega (arith, h.size_is)) h.valid h.value_is)))
          (Shows-with_caches db a.cache db.read_cache s shows a.handles (
            IsCached-with_caches db a.cache db.read_cache shows.cached shows.cached.fresh
              shows.cached.segments))

    get_through_cache :
        (v : List ℕ)
        → s key ≡ some v
        → (h : HasValue db key v) → directly_read use_cache h.dir db ≡ false
        → db.files.active_file_id < 2 ^ 32
        → Found io use_cache buffer key db s
    unfolding handle_get get_found with_cache
    get_through_cache v is h through small =
        let older : h.dir.loc.id < db.files.active_file_id =
          ground (arith, shows.cached.newest, h.stored.old) in
        let g =
          get_entry-IsGot io h.dir.loc.id db.files opens sized h.stored.exists h.stored.length
            shows.active older h.dir.loc.offset h.entry h.storable (omega (arith, older))
            h.stored.stands h.stored.inside db.read_cache shows.handles shows.cached.fresh
            shows.cached.segments in
        found v g.handles g.cache is
          (ap (λ o. get_found io use_cache buffer o db) h.found
            ∙ rw (through, get_found)
                (ap
                    (λ n. with_cache db (
                      get_cached db.options
                        (ReadCache.get io (new_context h.dir.loc n) db.files db.read_cache)))
                    h.size_is
                  ∙ ap (with_cache db)
                      (get_cached_lem db.options db.files h.entry v _ g h.valid h.value_is)))
          (Shows-with_caches db g.handles g.cache s shows g.are_handles
            (IsCached-with_caches db g.handles g.cache shows.cached g.fresh g.segments))

    -- Where no open and no size call fails and the active file has a 32-bit id, `HandleGet` on a
    -- database that stands for a map ends and answers by the map, whether it reads directly or
    -- through the cache: kOk and the value of a key, unless it reads directly an entry that reaches
    -- the very end of its file, and kNotFound for a key that the map does not have. The database
    -- stands for the same map afterwards, and only its caches differ.
    pub get_refines :
        db.files.active_file_id < 2 ^ 32
        → ((dir : Dir)
            → t.find db.indices key ≡ some dir
            → directly_read use_cache dir db ≡ true
            → dir.loc.offset + dir.entry_size < max_file_bytes)
        → Found io use_cache buffer key db s
    get_refines small inside = elim (Option-cases (s key)) [
      | inl absent ↦ missing absent (get_missing (shows.absent key absent))
      | inr (v, is) ↦
          let h = shows.present key v is in
          elim (Bool-cases (directly_read use_cache h.dir db)) [
            | inl direct ↦ get_directly v is h direct (inside h.dir h.found direct)
            | inr through ↦ get_through_cache v is h through small
          ]
    ]
