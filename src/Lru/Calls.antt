-- ===== src/Lru/Calls.antt =====
-- Calls of a cache one after the other, against a map from keys to values.
use pedrodb.Base.{
  ℕ, ◌-◌, ◌≡◌, refl, ap, sym, ◌∙◌, arith, List, [], ◌∷◌, Bool, true, false, Option, none, some,
  count, ◌==◌, ==_iff, Option-cases, inl, inr, if◌then◌else◌,
}
use mathlib.Core.Path.{ap₂}
use pedrodb.Lru.{LruCache, new, erase, lookup, unlink, find, get, put, remove, remove_found}
use pedrodb.Lru.Map.{
  IsValid, put-IsPut, changed-IsPut, get_miss, get_present, get-find, occurs-unlink, lookup-none,
  lookup-unlink, find-lookup,
}

count-erase :
    (k j : ℕ) (l : List ℕ) → count j (erase k l) ≡ (if k == j then count j l - 1 else count j l)
unfolding erase
count-erase k j [] = ground arith
count-erase k j (i ∷ l) = ground (arith, count-erase k j l)

module _ {V : Type 0} where
  -- A cache that is in use and stands for a map.
  pub record Shows (c : LruCache V) (s : ℕ → Option V) : Type 0 where
    pub valid : IsValid c
    pub on : (c.capacity == 0) ≡ false
    pub finds : (j : ℕ) → find j c ≡ s j

  pub new-Shows : (capacity : ℕ) → (capacity == 0) ≡ false → Shows (new capacity) (λ j. none)
  unfolding new find
  new-Shows capacity on = record { valid = λ k. (refl, omega arith); on = on; finds = λ j. refl }

  pub put-Shows :
      (k : ℕ) (v : V) (c : LruCache V) (s : ℕ → Option V)
      → Shows c s
      → Shows (put k v c) (λ j. if j == k then some v else s j)
  put-Shows k v c s h =
      let r = put-IsPut k v c h.valid h.on in
      record {
        valid = r.valid;
        on = rw r.same_capacity h.on;
        finds = λ j. r.lookups j ∙ ap (λ o. if j == k then some v else o) (h.finds j);
      }

  -- `Get` answers what the map has, and the cache stands for the same map.
  pub get-Shows :
      (k : ℕ) (c : LruCache V) (s : ℕ → Option V)
      → Shows c s
      → ((get k c).0 ≡ s k) × Shows (get k c).1 s
  get-Shows k c s h = (
    get-find k c h.on ∙ h.finds k,
    elim (Option-cases (find k c)) [
      | inl absent ↦ rw (get_miss k c h.on absent) h
      | inr (v, present) ↦
          let r = changed-IsPut k v v c h.valid present in
          rw (get_present k v c h.on present) (record {
            valid = r.valid;
            on = rw r.same_capacity h.on;
            finds = λ j. r.lookups j ∙ same_value v present j (j == k) refl;
          })
    ],
  )
    where
      same_value :
          (v : V) (present : find k c ≡ some v) (j : ℕ) (same : Bool)
          → (j == k) ≡ same
          → (if same then some v else find j c) ≡ s j
      same_value v present j true e = sym present ∙ h.finds k ∙ ap s (sym ((==_iff j k).0 e))
      same_value v present j false e = h.finds j

  remove_absent :
      (k : ℕ) (c : LruCache V)
      → (c.capacity == 0) ≡ false
      → find k c ≡ none
      → remove k c ≡ (none, c)
  unfolding remove remove_found
  remove_absent k c on absent = simp (on, absent)

  removed : ℕ → LruCache V → LruCache V
  removed k c = record c { keys = erase k c.keys; entries = unlink k c.entries }

  remove_present :
      (k : ℕ) (v : V) (c : LruCache V)
      → (c.capacity == 0) ≡ false
      → find k c ≡ some v
      → remove k c ≡ (some v, removed k c)
  unfolding remove remove_found removed
  remove_present k v c on present = simp (on, present)

  removed-Shows :
      (k : ℕ) (c : LruCache V) (s : ℕ → Option V)
      → Shows c s
      → Shows (removed k c) (λ j. if j == k then none else s j)
  unfolding removed
  removed-Shows k c s h =
      let valid : IsValid (record c { keys = erase k c.keys; entries = unlink k c.entries }) =
        λ j. ground (arith, h.valid j, count-erase k j c.keys, occurs-unlink k j c.entries) in
      record { valid = valid; on = h.on; finds = λ j. find-lookup _ valid j ∙ gone j (j == k) refl }
    where
      gone :
          (j : ℕ) (same : Bool)
          → (j == k) ≡ same
          → lookup j (unlink k c.entries) ≡ (if same then none else s j)
      gone j true e =
          let here = (==_iff j k).0 e in
          lookup-none j (unlink k c.entries) (
            ground (arith, here, h.valid j, occurs-unlink k j c.entries, (==_iff k j).1 (sym here)))
      gone j false e =
          lookup-unlink k j c.entries (λ here. (let same = (==_iff j k).1 here in cc))
          ∙ sym (find-lookup c h.valid j)
          ∙ h.finds j

  pub remove-Shows :
      (k : ℕ) (c : LruCache V) (s : ℕ → Option V)
      → Shows c s
      → ((remove k c).0 ≡ s k) × Shows (remove k c).1 (λ j. if j == k then none else s j)
  remove-Shows k c s h = elim (Option-cases (find k c)) [
    | inl absent ↦ rw (remove_absent k c h.on absent) (
      sym absent ∙ h.finds k,
      record {
        valid = h.valid;
        on = h.on;
        finds = λ j. h.finds j ∙ same_none absent j (j == k) refl;
      },
    )
    | inr (v, present) ↦
        rw (remove_present k v c h.on present) (sym present ∙ h.finds k, removed-Shows k c s h)
  ]
    where
      same_none :
          (absent : find k c ≡ none) (j : ℕ) (same : Bool)
          → (j == k) ≡ same
          → s j ≡ (if same then none else s j)
      same_none absent j true e = ap s ((==_iff j k).0 e) ∙ sym (h.finds k) ∙ absent
      same_none absent j false e = refl

-- A call of a method.
pub data Call (V : Type 0) : Type 0 where
  put_call : ℕ → V → Call V
  get_call remove_call : ℕ → Call V

module _ {V : Type 0} where
  -- The answers of a cache, in the order of the calls. `Put` has none.
  pub answers : List (Call V) → LruCache V → List (Option V)
  answers [] c = []
  answers (put_call k v ∷ calls) c = answers calls (put k v c)
  answers (get_call k ∷ calls) c = let (o, c') = get k c in o ∷ answers calls c'
  answers (remove_call k ∷ calls) c = let (o, c') = remove k c in o ∷ answers calls c'

  -- The answers of a map, which forgets nothing.
  pub map_answers : List (Call V) → (ℕ → Option V) → List (Option V)
  map_answers [] s = []
  map_answers (put_call k v ∷ calls) s = map_answers calls (λ j. if j == k then some v else s j)
  map_answers (get_call k ∷ calls) s = s k ∷ map_answers calls s
  map_answers (remove_call k ∷ calls) s =
      s k ∷ map_answers calls (λ j. if j == k then none else s j)

  answers-Shows :
      (calls : List (Call V)) (c : LruCache V) (s : ℕ → Option V)
      → Shows c s
      → answers calls c ≡ map_answers calls s
  unfolding answers map_answers
  answers-Shows [] c s h = refl
  answers-Shows (put_call k v ∷ calls) c s h = answers-Shows calls _ _ (put-Shows k v c s h)
  answers-Shows (get_call k ∷ calls) c s h =
      let (same, h') = get-Shows k c s h in ap₂ ◌∷◌ same (answers-Shows calls _ s h')
  answers-Shows (remove_call k ∷ calls) c s h =
      let (same, h') = remove-Shows k c s h in ap₂ ◌∷◌ same (answers-Shows calls _ _ h')

  -- A new cache whose capacity is not 0 answers every sequence of calls of `Put`, `Get` and `Remove`
  -- as a map that was empty at the start does: the capacity has no effect, and nothing is evicted.
  pub answers-map_answers :
      (capacity : ℕ) (calls : List (Call V))
      → (capacity == 0) ≡ false
      → answers calls (new capacity) ≡ map_answers calls (λ j. none)
  answers-map_answers capacity calls on =
      answers-Shows calls (new capacity) (λ j. none) (new-Shows capacity on)
