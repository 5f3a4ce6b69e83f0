-- ===== src/SegmentCache.antt =====
-- include/pedrodb/cache/segment_cache.h: caches side by side, of which a key has one. A division by
-- zero, where there are no segments, is `none`. Each method holds the lock of its segment.
pub mod Laws
pub mod Map
use pedrodb.Base.{ℕ, ◌%◌, List, [], ◌∷◌, ◌++◌, Option, none, some, length, get_elem?, set}
use pedrodb.Platform.{Platform}
use pedrodb.Lru
use pedrodb.Lru.{LruCache}
use pedrodb.Status.{Status, ok}

abbrev pub SegmentCache : Type 0 → Type 0
SegmentCache V = List (LruCache V)

module _ {V : Type 0} where
  -- `SegmentAdd(capacity)`
  unfoldable pub segment_add : ℕ → SegmentCache V → SegmentCache V
  unfolding Lru.new
  segment_add capacity segments = segments ++ (Lru.new capacity ∷ [])

module _ ⦃p : Platform⦄ {V : Type 0} where
  abbrev pub locate : ℕ → SegmentCache V → ℕ
  locate key segments = p.hash_int key % length segments

  -- A method of the segment that a key has, and the segment put back.
  on_segment :
      {A : Type 0}
      → ℕ
      → (LruCache V → A × LruCache V)
      → SegmentCache V
      → Option (A × SegmentCache V)
  on_segment key method segments = elim (get_elem? segments (locate key segments)) [
    | none ↦ none
    | some c ↦ some ((method c).0, set segments (locate key segments) (method c).1)
  ]

  unfoldable pub get : ℕ → SegmentCache V → Option (Option V × SegmentCache V)
  unfolding on_segment
  get key segments = on_segment key (Lru.get key) segments

  unfoldable pub remove : ℕ → SegmentCache V → Option (Option V × SegmentCache V)
  unfolding on_segment
  remove key segments = on_segment key (Lru.remove key) segments

  unfoldable pub put : ℕ → V → SegmentCache V → Option (Unit {0} × SegmentCache V)
  unfolding on_segment
  put key value segments = on_segment key (λ c. (tt, Lru.put key value c)) segments

  module _ {S : Type 0} where
    -- What the supplier answered is kept if it was successful. It may crash, which is `none`.
    store : ℕ → LruCache V → Option (Status × V × S) → Option (Status × V × S × LruCache V)
    store key c none = none
    store key c (some (ok, v, s)) = some (ok, v, s, Lru.put key v c)
    store key c (some (status, v, s)) = some (status, v, s, c)

    lookup_or_store :
        ℕ
        → (S → Option (Status × V × S))
        → S
        → Option V × LruCache V
        → Option (Status × V × S × LruCache V)
    lookup_or_store key supplier s (some v, c) = some (ok, v, s, c)
    lookup_or_store key supplier s (none, c) = store key c (supplier s)

    put_back :
        ℕ
        → SegmentCache V
        → Option (Status × V × S × LruCache V)
        → Option (Status × V × S × SegmentCache V)
    put_back i segments none = none
    put_back i segments (some (status, v, s, c)) = some (status, v, s, set segments i c)

    -- `GetOrCompute`, with a supplier that has a state.
    unfoldable pub get_or_compute :
        ℕ
        → (S → Option (Status × V × S))
        → S
        → SegmentCache V
        → Option (Status × V × S × SegmentCache V)
    unfolding lookup_or_store store put_back
    get_or_compute key supplier s segments = elim (get_elem? segments (locate key segments)) [
      | none ↦ none
      | some c ↦
          put_back (locate key segments) segments (lookup_or_store key supplier s (Lru.get key c))
    ]
