-- ===== src/ReadCache/Rounds.antt =====
-- The rounds of the loop of `Get`, against the bytes of the file.
use pedrodb.Base.{
  ℕ, zero, suc, ◌+◌, ◌*◌, ◌^◌, ◌<◌, ◌≤◌, ◌≡◌, refl, sym, ap, ◌∙◌, arith, List, length, All, Option,
  some, true, false, lt→ltb, le→ltb, inl, inr,
}
use mathlib.Core.Path.{ap₂, subst}
use native.Mathlib.Decide.{dec_lt}
use pedrodb.Base.Bytes.{Memory, read_bytes}
use pedrodb.Platform.{Platform}
use pedrodb.File.{Faults, max_file_bytes}
use pedrodb.FileManager.{FileManager, ReadableFile, Run, done}
use pedrodb.FileManager.Acquire.{IsHandle, HasActive}
use pedrodb.Lru.{LruCache}
use pedrodb.SegmentCache.{get_or_compute}
use pedrodb.SegmentCache.Laws.{Every, Answer, answer, get_or_compute_lem}
use pedrodb.Status.{Status, ok}
use pedrodb.ReadCache.{
  block_size, ReadCache, Context, offset_of, slice, add_slice, supply, got_block, get_block,
  get_blocks, Got,
}
use pedrodb.ReadCache.Blocks.{offset_of-index, file_of-index}
use pedrodb.ReadCache.Supply.{IsFresh, IsFileOf, IsSame, supply_lem}
use pedrodb.ReadCache.Loading.{part, slice_lem, IsLoading, IsLoaded, IsLoading-done, add_part}

module _ ⦃p : Platform⦄ (io : Faults) (id : ℕ) (m : FileManager) (opens : io.open_fails ≡ false)
    (sized : io.size_fails ≡ false) (exists : (m.data_files id).exists ≡ true)
    (whole : (m.data_files id).length ≡ max_file_bytes) (active : HasActive m)
    (old : id < m.active_file_id) where
  module _ (b e : ℕ) (nonempty : b < e) (inside : e ≤ max_file_bytes) (small : id < 2 ^ 32) where
    abbrev bytes : Memory
    bytes = (m.data_files id).bytes

    abbrev part_of : ℕ → List ℕ
    part_of = part bytes id b e nonempty inside small

    -- What the loop answers.
    pub record IsRead (r : Run Got) : Type 0 where
      pub context : Context
      pub handles : LruCache ReadableFile
      pub cache : ReadCache
      pub went : r ≡ done (ok, context, record m { open_files = handles }, cache)
      pub loaded : IsLoaded bytes id b e nonempty inside small context
      pub are_handles : All IsHandle handles.entries
      pub fresh : Every (IsFresh m) cache
      pub segments : 0 < length cache

    get_blocks_end :
        (fuel k : ℕ) (c : Context) (handles : LruCache ReadableFile) (cache : ReadCache)
        → IsLoaded bytes id b e nonempty inside small c
        → e ≤ offset_of k
        → All IsHandle handles.entries
        → Every (IsFresh m) cache
        → 0 < length cache
        → IsRead (get_blocks (suc fuel) io k c (record m { open_files = handles }) cache)
    unfolding get_blocks
    get_blocks_end fuel k c handles cache l h are_handles fresh segments = record {
      context = c;
      handles = handles;
      cache = cache;
      went = rw (le→ltb (offset_of k) c.end (rw l.end_is h), get_blocks) refl;
      loaded = l;
      are_handles = are_handles;
      fresh = fresh;
      segments = segments;
    }

    get_blocks_step :
        (fuel k : ℕ) (c c' : Context) (m1 m2 : FileManager) (cache cache' : ReadCache)
        → offset_of k < c.end
        → get_block io k c m1 cache ≡ some (ok, c', m2, cache')
        → get_blocks (suc fuel) io k c m1 cache ≡ get_blocks fuel io (k + 1) c' m2 cache'
    unfolding get_blocks
    get_blocks_step fuel k c c' m1 m2 cache cache' h went =
        rw (lt→ltb (offset_of k) c.end h, went, get_blocks) refl

    -- One round: the part of the block is added to the context.
    record IsAdded (q : ℕ) (c : Context) (r : Option Got) : Type 0 where
      file : Option ReadableFile
      handles : LruCache ReadableFile
      cache : ReadCache
      went :
          r
          ≡ some (
            ok,
            add_slice (part_of q) (record c { file = file }),
            record m { open_files = handles },
            cache,
          )
      is_file : IsFileOf id file
      are_handles : All IsHandle handles.entries
      fresh : Every (IsFresh m) cache
      segments : 0 < length cache

    module _ (q : ℕ) (c : Context) (l : IsLoading bytes id b e nonempty inside small q c)
        (lo : q * 2 ^ 12 < e) (hi : b < (q + 1) * 2 ^ 12) (handles : LruCache ReadableFile)
        (cache : ReadCache) (segments : 0 < length cache) where
      k : ℕ
      k = id * 2 ^ 20 + q

      got_block_lem :
          (r : Option (Status × List ℕ × (Option ReadableFile × FileManager) × ReadCache))
          → Answer (IsFresh m) (IsSame m id) k cache (c.file, record m { open_files = handles }) r
          → IsAdded q c (got_block k c r)
      unfolding got_block k
      got_block_lem r (answer v (f', m') cache' went fresh same every len) =
          let block_is : v ≡ read_bytes bytes (q * 2 ^ 12) block_size =
            fresh.1
            ∙ ap₂ (λ i o. read_bytes (m.data_files i).bytes o block_size)
                (file_of-index id q small (omega arith))
                (offset_of-index id q small (omega arith)) in
          let cut : slice k c v ≡ part_of q =
            rw block_is
              (slice_lem bytes id b e nonempty inside small q c l.begin_is l.end_is lo hi) in
          record {
            file = f';
            handles = same.handles;
            cache = cache';
            went = rw went (
                ap₂ (λ x y. some (ok, add_slice x (record c { file = f' }), y, cache')) cut
                  same.same);
            is_file = same.file;
            are_handles = same.are_handles;
            fresh = every;
            segments = omega (arith, len);
          }

      get_block_lem :
          IsFileOf id c.file
          → All IsHandle handles.entries
          → Every (IsFresh m) cache
          → IsAdded q c (get_block io k c (record m { open_files = handles }) cache)
      unfolding get_block k
      get_block_lem file are_handles fresh =
          let same : IsSame m id (c.file, record m { open_files = handles }) = record {
            handles = handles;
            same = refl;
            are_handles = are_handles;
            file = file;
          } in
          got_block_lem
            (get_or_compute k (supply io k) (c.file, record m { open_files = handles }) cache)
            (get_or_compute_lem (IsFresh m) (IsSame m id) k (supply io k)
              (c.file, record m { open_files = handles }) cache fresh same
              (supply_lem io id m opens sized exists whole active old k
                (file_of-index id q small (omega arith))
                (omega (arith, offset_of-index id q small (omega arith)))
                (c.file, record m { open_files = handles }) same)
              segments)

    add_slice_file : (slice_part : List ℕ) (c : Context) → (add_slice slice_part c).file ≡ c.file
    unfolding add_slice
    add_slice_file slice_part c = ground arith

    -- The blocks from `q` on are read, with fuel for them and one more round.
    pub get_blocks_lem :
        (fuel q : ℕ) (c : Context) (handles : LruCache ReadableFile) (cache : ReadCache)
        → IsLoading bytes id b e nonempty inside small q c
        → b < (q + 1) * 2 ^ 12
        → e ≤ (q + fuel) * 2 ^ 12
        → q * 2 ^ 12 < e + 2 ^ 12
        → IsFileOf id c.file
        → All IsHandle handles.entries
        → Every (IsFresh m) cache
        → 0 < length cache
        → IsRead
            (get_blocks (suc fuel) io (id * 2 ^ 20 + q) c (record m { open_files = handles }) cache)
    get_blocks_lem zero q c handles cache l hi enough near file are_handles fresh segments =
        get_blocks_end zero (id * 2 ^ 20 + q) c handles cache
          (IsLoading-done bytes id b e nonempty inside small q c l (omega arith))
          (omega (arith, offset_of-index id q small (omega arith))) are_handles fresh segments
    get_blocks_lem (suc fuel) q c handles cache l hi enough near file are_handles fresh segments =
        elim (dec_lt (q * 2 ^ 12) e) [
          | no over ↦
              get_blocks_end (suc fuel) (id * 2 ^ 20 + q) c handles cache
                (IsLoading-done bytes id b e nonempty inside small q c l (omega arith))
                (omega (arith, offset_of-index id q small (omega arith))) are_handles fresh segments
          | yes lo ↦
              let a = get_block_lem q c l lo hi handles cache segments file are_handles fresh in
              let c' = add_slice (part_of q) (record c { file = a.file }) in
              let step =
                get_blocks_step (suc fuel) (id * 2 ^ 20 + q) c c'
                  (record m { open_files = handles }) (record m { open_files = a.handles }) cache
                  a.cache (omega (arith, offset_of-index id q small (omega arith), l.end_is))
                  (unfold k in a.went) in
              let next_index : id * 2 ^ 20 + q + 1 ≡ id * 2 ^ 20 + (q + 1) = omega arith in
              let l' : IsLoading bytes id b e nonempty inside small q (record c { file = a.file }) =
                record {
                  begin_is = l.begin_is;
                  end_is = l.end_is;
                  no_ref = l.no_ref;
                  loaded = l.loaded;
                } in
              subst IsRead (sym step)
                (elim (add_part bytes id b e nonempty inside small q (record c { file = a.file }) l'
                  lo hi) [
                    | inl more ↦
                        subst
                          (λ i. IsRead (
                            get_blocks (suc fuel) io i c' (record m { open_files = a.handles })
                              a.cache))
                          (omega arith)
                          (get_blocks_lem fuel (q + 1) c' a.handles a.cache more (omega arith)
                            (omega arith) (omega arith) (rw (add_slice_file (part_of q)) a.is_file)
                            a.are_handles a.fresh a.segments)
                    | inr (loaded, ends) ↦
                        get_blocks_end fuel (id * 2 ^ 20 + q + 1) c' a.handles a.cache loaded
                          (omega (
                            arith,
                            ap offset_of next_index,
                            offset_of-index id (q + 1) small (omega arith),
                          ))
                          a.are_handles a.fresh a.segments
                  ])
        ]
