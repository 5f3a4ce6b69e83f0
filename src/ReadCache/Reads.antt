-- ===== src/ReadCache/Reads.antt =====
-- Reads of an entry through the cache, against the bytes of the file.
use pedrodb.Base.{
  ℕ, suc, ◌+◌, ◌-◌, ◌/◌, ◌%◌, ◌^◌, ◌<◌, ◌≤◌, ◌≡◌, refl, sym, ap, ◌∙◌, arith, length, All, true,
  false,
}
use mathlib.Core.Path.{subst}
use pedrodb.Base.Bytes.{Holds, Holds-at, Holds-of_list}
use pedrodb.Buffer.Readable.{readable_bytes-array_buffer}
use pedrodb.Platform.{Platform}
use pedrodb.Buffer.{array_buffer}
use pedrodb.Format.Record.{Entry, size_of}
use pedrodb.Format.Record.Pack.{entry_bytes}
use pedrodb.Format.Record.RoundTrip.{IsStorable, unpack-Holds}
use pedrodb.Format.Record.Sequence.{length-entry_bytes-size_of, size_of-pos}
use pedrodb.File.{Faults, max_file_bytes}
use pedrodb.FileManager.{FileManager, ReadableFile, Run, done}
use pedrodb.FileManager.Acquire.{IsHandle, HasActive}
use pedrodb.Lru.{LruCache}
use pedrodb.SegmentCache.Laws.{Every}
use pedrodb.Status.{ok}
use pedrodb.ReadCache.{
  ReadCache, Context, new_context, size, build, get_blocks, get, view, Got, built, unpacked,
}
use pedrodb.ReadCache.Blocks.{index_of_lem, read_bytes_none}
use pedrodb.ReadCache.Supply.{IsFresh}
use pedrodb.ReadCache.Rounds.{IsRead, get_blocks_lem}
use pedrodb.ReadCache.Loading.{size_lem, IsLoading, IsLoaded}

-- What `Get(ctx)` answers: the entry, with only the caches changed.
pub record IsGot (m : FileManager) (e : Entry) (r : Run Got) : Type 0 where
  pub context : Context
  pub handles : LruCache ReadableFile
  pub cache : ReadCache
  pub went : r ≡ done (ok, context, record m { open_files = handles }, cache)
  pub entry : context.entry ≡ e
  pub are_handles : All IsHandle handles.entries
  pub fresh : Every (IsFresh m) cache
  pub segments : 0 < length cache

module _ ⦃p : Platform⦄ (io : Faults) (id : ℕ) (m : FileManager) (opens : io.open_fails ≡ false)
    (sized : io.size_fails ≡ false) (exists : (m.data_files id).exists ≡ true)
    (whole : (m.data_files id).length ≡ max_file_bytes) (active : HasActive m)
    (old : id < m.active_file_id) where
  module _ (o : ℕ) (e : Entry) (s : IsStorable e) (small : id < 2 ^ 32)
      (holds : Holds (m.data_files id).bytes o (entry_bytes e))
      (inside : o + size_of e ≤ max_file_bytes) where
    context : Context
    context = new_context (record { id = id; offset = o }) (size_of e)

    nonempty : o < o + size_of e
    nonempty = omega (arith, size_of-pos e s)

    build_lem :
        (c : Context)
        → IsLoaded (m.data_files id).bytes id o (o + size_of e) nonempty inside small c
        → build c ≡ (ok, record c { entry = e })
    unfolding build unpacked
    build_lem c l =
        let size = length-entry_bytes-size_of e s in
        let all : view c.block_ref c.buffer ≡ entry_bytes e =
          l.loaded
          ∙ Holds-at (m.data_files id).bytes o (o + size_of e - o) (entry_bytes e) holds
              (omega arith) in
        let readable = readable_bytes-array_buffer (entry_bytes e) in
        rw
          (
            all,
            build,
            unpack-Holds e (array_buffer (entry_bytes e)) s (omega arith)
                (Holds-of_list (entry_bytes e)),
            unpacked,
          )
          refl

    built_lem :
        (r : Run Got)
        → IsRead io id m opens sized exists whole active old o
            (o + size_of e)
            nonempty
            inside
            small
            r
        → IsGot m e (built r)
    unfolding built
    built_lem r x = record {
      context = record x.context { entry = e };
      handles = x.handles;
      cache = x.cache;
      went =
          ap built x.went
          ∙ ap (λ y. done (y.0, y.1, record m { open_files = x.handles }, x.cache))
              (build_lem x.context x.loaded);
      entry = refl;
      are_handles = x.are_handles;
      fresh = x.fresh;
      segments = x.segments;
    }

    -- On a cache with a segment, whose blocks are those of files before the active one and have their
    -- bytes, where the file of a storable entry is there, whole and before the active one, and no open
    -- and no size call fails, `Get(ctx)` ends with kOk
    -- and the entry that stands at the location; the caches keep what is said of them, and nothing
    -- else changes.
    pub get_entry-IsGot :
        (cache : ReadCache)
        → All IsHandle m.open_files.entries
        → Every (IsFresh m) cache
        → 0 < length cache
        → IsGot m e (get io (new_context (record { id = id; offset = o }) (size_of e)) m cache)
    unfolding get new_context
    get_entry-IsGot cache are_handles fresh segments =
        let c = new_context (record { id = id; offset = o }) (size_of e) in
        let fits : (o + size_of e) % 2 ^ 32 ≡ o + size_of e = omega arith in
        let n =
          size_lem (m.data_files id).bytes id o (o + size_of e) nonempty inside small c refl fits in
        let (_, lo, hi, k) = index_of_lem id o small (omega (arith, nonempty)) in
        let l : IsLoading (m.data_files id).bytes id o (o + size_of e) nonempty inside small
            (o / 2 ^ 12) c =
          record {
            begin_is = refl;
            end_is = fits;
            no_ref = refl;
            loaded = read_bytes_none (m.data_files id).bytes o _ (omega arith);
          } in
        built_lem _ (
          subst
            (λ i.
              IsRead io id m opens sized exists whole active old o (o + size_of e) nonempty inside
                small (get_blocks (suc (size c / 2 ^ 12 + 2)) io i c m cache))
            (sym k)
            (get_blocks_lem io id m opens sized exists whole active old o (o + size_of e) nonempty
              inside small (size c / 2 ^ 12 + 2) (o / 2 ^ 12) c m.open_files cache l (omega arith)
              (omega (arith, n)) (omega (arith, nonempty)) tt are_handles fresh segments))
