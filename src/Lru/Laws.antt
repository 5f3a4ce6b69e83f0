-- ===== src/Lru/Laws.antt =====
-- Predicates on the entries of a cache, and its eviction.
use pedrodb.Base.{
  ℕ, ◌≡◌, refl, arith, List, [], ◌∷◌, Option, none, some, All, All-append, ◌==◌, ==_iff, Bool-cases,
  inl, inr, length, not, ◌+◌,
}
use mathlib.Core.Path.{subst₂}
use pedrodb.Lru.{
  LruCache, lookup, unlink, find, get, get_found, evict, evict_first, remove, remove_found, put,
  put_found, push, to_end, is_empty,
}

module _ {V : Type 0} (P : ℕ × V → Type 0) where
  All-unlink : (k : ℕ) (l : List (ℕ × V)) → All P l → All P (unlink k l)
  unfolding unlink
  All-unlink k [] h = tt
  All-unlink k ((j, v) ∷ l) (hv, h) = elim (Bool-cases (j == k)) [
    | inl e ↦ rw e h
    | inr e ↦ rw e (hv, All-unlink k l h)
  ]

  All-lookup : (k : ℕ) (l : List (ℕ × V)) (v : V) → All P l → lookup k l ≡ some v → P (k, v)
  unfolding lookup
  All-lookup k [] v h e = cc
  All-lookup k ((j, w) ∷ l) v (hw, h) e = elim (Bool-cases (j == k)) [
    | inl same ↦
        let hit : some w ≡ some v = rw same at e in
        let value : w ≡ v = cc in subst₂ (λ i x. P (i, x)) ((==_iff j k).0 same) value hw
    | inr other ↦ All-lookup k l v h (rw other at e)
  ]

  All-to_end : (k : ℕ) (v : V) (l : List (ℕ × V)) → P (k, v) → All P l → All P (to_end k v l)
  All-to_end k v l hv h = All-append P (unlink k l) ((k, v) ∷ []) (All-unlink k l h) (hv, tt)

  get_found-All :
      (k : ℕ) (c : LruCache V) (o : Option V)
      → All P c.entries
      → ((v : V) → o ≡ some v → P (k, v))
      → All P (get_found k c o).1.entries
  unfolding get_found
  get_found-All k c none h hv = h
  get_found-All k c (some v) h hv = All-to_end k v c.entries (hv v refl) h

  found-All : (k : ℕ) (c : LruCache V) (v : V) → All P c.entries → find k c ≡ some v → P (k, v)
  unfolding find
  found-All k c v h e = All-lookup k c.entries v h (ground arith)

  -- A hit and its move to the end keep it.
  pub get-All : (k : ℕ) (c : LruCache V) → All P c.entries → All P (get k c).1.entries
  unfolding get
  get-All k c h = elim (Bool-cases (c.capacity == 0)) [
    | inl off ↦ rw off h
    | inr on ↦ rw on (get_found-All k c (find k c) h (λ v. found-All k c v h))
  ]

  -- It holds of a hit.
  pub get_hit : (k : ℕ) (c : LruCache V) (v : V) → All P c.entries → (get k c).0 ≡ some v → P (k, v)
  unfolding get get_found
  get_hit k c v h e = found-All k c v h (ground arith)

  remove_found-All :
      (k : ℕ) (c : LruCache V) (o : Option V)
      → All P c.entries
      → All P (remove_found k c o).1.entries
  unfolding remove_found
  remove_found-All k c none h = h
  remove_found-All k c (some v) h = All-unlink k c.entries h

  pub remove-All : (k : ℕ) (c : LruCache V) → All P c.entries → All P (remove k c).1.entries
  unfolding remove
  remove-All k c h = elim (Bool-cases (c.capacity == 0)) [
    | inl off ↦ rw off h
    | inr on ↦ rw on (remove_found-All k c (find k c) h)
  ]

  evict_first-All :
      (l : List (ℕ × V)) (c : LruCache V)
      → All P l
      → All P c.entries
      → All P (evict_first l c).entries
  unfolding evict_first
  evict_first-All [] c hl h = h
  evict_first-All ((k, v) ∷ l) c (hv, hl) h = hl

  evict-All : (c : LruCache V) → All P c.entries → All P (evict c).entries
  unfolding evict
  evict-All c h = elim (Bool-cases (not (is_empty c.keys))) [
    | inl stops ↦ rw stops h
    | inr goes ↦ rw goes (evict_first-All c.entries c h h)
  ]

  push-All :
      (k : ℕ) (v : V) (c : LruCache V) → P (k, v) → All P c.entries → All P (push k v c).entries
  unfolding push
  push-All k v c hv h = All-append P c.entries ((k, v) ∷ []) h (hv, tt)

  put_found-All :
      (k : ℕ) (v : V) (c : LruCache V) (o : Option V)
      → P (k, v)
      → All P c.entries
      → All P (put_found k v c o).entries
  unfolding put_found
  put_found-All k v c (some w) hv h = All-to_end k v c.entries hv h
  put_found-All k v c none hv h = elim (Bool-cases (length c.keys + 1 == c.capacity)) [
    | inl full ↦ rw full (push-All k v (evict c) hv (evict-All c h))
    | inr room ↦ rw room (push-All k v c hv h)
  ]

  -- What is put in must have it.
  pub put-All :
      (k : ℕ) (v : V) (c : LruCache V) → P (k, v) → All P c.entries → All P (put k v c).entries
  unfolding put
  put-All k v c hv h = elim (Bool-cases (c.capacity == 0)) [
    | inl off ↦ rw off h
    | inr on ↦ rw on (put_found-All k v c (find k c) hv h)
  ]
