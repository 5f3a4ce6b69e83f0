-- ===== src/SegmentCache/Laws.antt =====
-- What holds of the entries of a segmented cache.
use pedrodb.Base.{
  ℕ, ◌<◌, ◌≡◌, refl, Option, none, some, All, All-get_elem?, All-set, get_elem?-some, set, length,
  length-set,
}
use native.Mathlib.Nat.{mod-lt}
use pedrodb.Platform.{Platform}
use pedrodb.Lru
use pedrodb.Lru.{LruCache}
use pedrodb.Lru.Laws.{get-All, get_hit, put-All}
use pedrodb.Status.{Status, ok}
use pedrodb.SegmentCache.{SegmentCache, locate, store, lookup_or_store, put_back, get_or_compute}

-- Every entry of every segment has a property.
abbrev pub Every : {V : Type 0} → (ℕ × V → Type 0) → SegmentCache V → Type 0
Every {V} P segments = All (λ (c : LruCache V). All P c.entries) segments

module _ ⦃p : Platform⦄ {V S : Type 0} (P : ℕ × V → Type 0) (Q : S → Type 0) where
  -- A successful answer, from the cache or computed, and the cache behind it.
  pub data Answer (key : ℕ) (segments : SegmentCache V) (s : S)
      (r : Option (Status × V × S × SegmentCache V)) : Type 0 where
    answer :
        (v : V) (s' : S) (segments' : SegmentCache V)
        → r ≡ some (ok, v, s', segments')
        → P (key, v)
        → Q s'
        → Every P segments'
        → length segments' ≡ length segments
        → Answer key segments s r

  module _ (key : ℕ) (supplier : S → Option (Status × V × S)) (s : S) (segments : SegmentCache V)
      (every : Every P segments) (here : Q s)
      (supplied : (v : V) × (s' : S) × (supplier s ≡ some (ok, v, s')) × P (key, v) × Q s') where
    i : ℕ
    i = locate key segments

    from_get :
        (o : Option V) (c : LruCache V)
        → All P c.entries
        → ((v : V) → o ≡ some v → P (key, v))
        → Answer key segments s (put_back i segments (lookup_or_store key supplier s (o, c)))
    unfolding put_back lookup_or_store store
    from_get (some v) c hc hit =
        answer v s (set segments i c) refl (hit v refl) here
          (All-set (λ (x : LruCache V). All P x.entries) segments i c every hc)
          (length-set segments i c)
    from_get none c hc hit =
        let (v, s', went, hv, hs) = supplied in
        let c' = Lru.put key v c in
        answer v s' (set segments i c') (rw (went, put_back, lookup_or_store, store) refl) hv hs
          (All-set (λ (x : LruCache V). All P x.entries) segments i c' every
            (put-All P key v c hv hc))
          (length-set segments i c')

    -- Where what is cached has a property, and so has what the supplier answers, `GetOrCompute`
    -- answers a value that has it, and what is cached has it again.
    pub get_or_compute_lem :
        0 < length segments → Answer key segments s (get_or_compute key supplier s segments)
    unfolding get_or_compute i
    get_or_compute_lem some_segment =
        let (c, at) = get_elem?-some segments i (mod-lt (p.hash_int key) some_segment) in
        let hc = All-get_elem? (λ (x : LruCache V). All P x.entries) segments i c every at in
        rw (at, get_or_compute)
          (from_get (Lru.get key c).0 (Lru.get key c).1 (get-All P key c hc)
            (λ v e. get_hit P key c v hc e))
