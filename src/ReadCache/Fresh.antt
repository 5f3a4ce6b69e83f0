-- ===== src/ReadCache/Fresh.antt =====
-- A new read cache.
use pedrodb.Base.{
  ℕ, zero, suc, ◌+◌, ◌-◌, ◌/◌, ◌^◌, ◌≡◌, ◌∙◌, arith, List, [], ◌∷◌, length, length-append, All,
  All-append,
}
use pedrodb.Lru
use pedrodb.Lru.{LruCache}
use pedrodb.SegmentCache.{segment_add}
use pedrodb.SegmentCache.Laws.{Every}
use pedrodb.ReadCache.{ReadCache, new, add_segments}

module _ (P : ℕ × List ℕ → Type 0) where
  Every-add_segments :
      (n capacity : ℕ) (cache : ReadCache) → Every P cache → Every P (add_segments n capacity cache)
  unfolding add_segments segment_add Lru.new
  Every-add_segments zero capacity cache h = h
  Every-add_segments (suc n) capacity cache h =
      Every-add_segments n capacity (segment_add (capacity / 2 ^ 12) cache)
        (All-append (λ (c : LruCache (List ℕ)). All P c.entries) cache _ h (tt, tt))

  -- It has no block.
  pub Every-new : (segments capacity : ℕ) → Every P (new segments capacity)
  unfolding new
  Every-new segments capacity =
      Every-add_segments segments ((capacity + segments - 1) / segments) [] tt

length-add_segments :
    (n capacity : ℕ) (cache : ReadCache) → length (add_segments n capacity cache) ≡ n + length cache
unfolding add_segments segment_add
length-add_segments zero capacity cache = omega arith
length-add_segments (suc n) capacity cache =
    length-add_segments n capacity (segment_add (capacity / 2 ^ 12) cache)
    ∙ omega (arith, length-append cache (Lru.new (capacity / 2 ^ 12) ∷ []))

-- It has the segments that it was given.
pub length-new : (segments capacity : ℕ) → length (new segments capacity) ≡ segments
unfolding new
length-new segments capacity =
    length-add_segments segments ((capacity + segments - 1) / segments) [] ∙ omega arith
