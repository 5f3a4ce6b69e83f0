-- ===== src/Lru/Map.antt =====
-- A cache as a map from keys to values.
use pedrodb.Base.{
  ℕ, suc, ◌+◌, ◌-◌, ◌≤◌, ◌≡◌, ◌≢◌, refl, ap, sym, ◌∙◌, arith, List, [], ◌∷◌, ◌++◌, false, not,
  Option, none, some, length, count, ◌==◌, ==_iff, ==_refl, ==_ne, Bool-cases, Option-cases, inl,
  inr, if◌then◌else◌,
}
use mathlib.Core.Path.{subst}
use mathlib.Core.Bool.{false≢true}
use pedrodb.Lru.{
  LruCache, has, lookup, unlink, find, get, get_found, to_end, put, put_found, push, evict,
  evict_first,
}

has-count : (k : ℕ) (l : List ℕ) → has k l ≡ not (count k l == 0)
unfolding has
has-count k [] = refl
has-count k (j ∷ l) = ground (arith, has-count k l)

module _ {V : Type 0} where
  -- How many entries a key has.
  abbrev pub occurs : ℕ → List (ℕ × V) → ℕ
  occurs k [] = 0
  occurs k ((j, v) ∷ l) = let rest = occurs k l in if j == k then suc rest else rest

  -- Each key has at most one entry, and is in the set of keys just then.
  abbrev pub IsValid : LruCache V → Type 0
  IsValid c = (k : ℕ) → (count k c.keys ≡ occurs k c.entries) × (occurs k c.entries ≤ 1)

  occurs-append : (k : ℕ) (xs ys : List (ℕ × V)) → occurs k (xs ++ ys) ≡ occurs k xs + occurs k ys
  occurs-append k [] ys = omega arith
  occurs-append k ((j, v) ∷ xs) ys = ground (arith, occurs-append k xs ys)

  pub occurs-unlink :
      (k j : ℕ) (l : List (ℕ × V))
      → occurs j (unlink k l) ≡ (if k == j then occurs j l - 1 else occurs j l)
  unfolding unlink
  occurs-unlink k j [] = ground arith
  occurs-unlink k j ((i, v) ∷ l) = ground (arith, occurs-unlink k j l)

  pub lookup-none : (k : ℕ) (l : List (ℕ × V)) → occurs k l ≡ 0 → lookup k l ≡ none
  unfolding lookup
  lookup-none k [] h = refl
  lookup-none k ((j, v) ∷ l) h = ground (arith, lookup-none k l)

  lookup-some : (k : ℕ) (l : List (ℕ × V)) (v : V) → lookup k l ≡ some v → occurs k l ≢ 0
  unfolding lookup
  lookup-some k [] v h = cc
  lookup-some k ((j, w) ∷ l) v h = ground (arith, lookup-some k l v)

  absent_lem : (k : ℕ) (l : List (ℕ × V)) → lookup k l ≡ none → occurs k l ≡ 0
  unfolding lookup
  absent_lem k [] h = refl
  absent_lem k ((j, v) ∷ l) h = elim (Bool-cases (j == k)) [
    | inl same ↦ let hit : some v ≡ none = rw same at h in cc
    | inr other ↦ rw other (absent_lem k l (rw other at h))
  ]

  -- The value behind all others, for a key that has at most no other entry.
  lookup_last :
      (j k : ℕ) (v : V) (l : List (ℕ × V)) (o : Option V)
      → (j ≡ k → occurs k l ≡ 0)
      → (j ≢ k → lookup j l ≡ o)
      → (if occurs j l == 0 then lookup j ((k, v) ∷ []) else lookup j l)
        ≡ (if j == k then some v else o)
  unfolding lookup
  lookup_last j k v l o at_key away = elim (Bool-cases (j == k)) [
    | inl equal ↦
        let same = (==_iff j k).0 equal in
        let once : occurs j l ≡ 0 = ap (λ i. occurs i l) same ∙ at_key same in
        rw ((==_iff _ 0).1 once, (==_iff j k).1 same, (==_iff k j).1 (sym same)) refl
    | inr unequal ↦
        let other : j ≢ k = λ e. false≢true (sym unequal ∙ (==_iff j k).1 e) in
        let off : (k == j) ≡ false = ==_ne k j (λ e. other (sym e)) in
        elim (Bool-cases (occurs j l == 0)) [
          | inl absent ↦
              rw (absent, off, ==_ne j k other)
                (sym (lookup-none j l ((==_iff _ 0).0 absent)) ∙ away other)
          | inr present ↦ rw (present, ==_ne j k other) (away other)
        ]
  ]

  lookup-append :
      (k : ℕ) (xs ys : List (ℕ × V))
      → lookup k (xs ++ ys) ≡ (if occurs k xs == 0 then lookup k ys else lookup k xs)
  unfolding lookup
  lookup-append k [] ys = refl
  lookup-append k ((j, v) ∷ xs) ys = ground (arith, lookup-append k xs ys)

  pub lookup-unlink : (k j : ℕ) (l : List (ℕ × V)) → j ≢ k → lookup j (unlink k l) ≡ lookup j l
  unfolding lookup unlink
  lookup-unlink k j [] other = refl
  lookup-unlink k j ((i, v) ∷ l) other = ground (arith, lookup-unlink k j l other)

  pub find-lookup : (c : LruCache V) → IsValid c → (k : ℕ) → find k c ≡ lookup k c.entries
  unfolding find
  find-lookup c h k = elim (Bool-cases (occurs k c.entries == 0)) [
    | inl absent ↦
        rw (has-count k c.keys, (h k).0, absent)
          (sym (lookup-none k c.entries ((==_iff _ 0).0 absent)))
    | inr present ↦ rw (has-count k c.keys, (h k).0, present) refl
  ]

  evict_empty :
      (c : LruCache V) (keys : List ℕ) (entries : List (ℕ × V))
      → c.keys ≡ keys
      → c.entries ≡ entries
      → IsValid c
      → evict c ≡ c
  unfolding evict evict_first
  evict_empty c (k ∷ keys) entries e f h = rw e refl
  evict_empty c [] [] e f h = rw (e, f) refl
  evict_empty c [] ((k, v) ∷ l) e f h =
      let one : occurs k c.entries ≡ suc (occurs k l) = ap (occurs k) f ∙ rw (==_refl k) refl in
      let none_is : count k c.keys ≡ 0 = ap (count k) e in absurd (omega (arith, h k, one, none_is))

  added : ℕ → V → LruCache V → LruCache V
  added k v c = record c { keys = k ∷ c.keys; entries = c.entries ++ ((k, v) ∷ []) }

  pub changed : ℕ → V → LruCache V → LruCache V
  changed k v c = record c { entries = to_end k v c.entries }

  put_absent :
      (k : ℕ) (v : V) (c : LruCache V)
      → IsValid c
      → (c.capacity == 0) ≡ false
      → find k c ≡ none
      → put k v c ≡ added k v c
  unfolding put put_found push added
  put_absent k v c h on absent = elim (Bool-cases (length c.keys + 1 == c.capacity)) [
    | inl full ↦ simp (on, absent, full, evict_empty c c.keys c.entries refl refl h)
    | inr room ↦ simp (on, absent, room)
  ]

  put_present :
      (k : ℕ) (v w : V) (c : LruCache V)
      → (c.capacity == 0) ≡ false
      → find k c ≡ some w
      → put k v c ≡ changed k v c
  unfolding put put_found changed
  put_present k v w c on present = simp (on, present)

  -- What the cache has after a change.
  pub record IsPut (k : ℕ) (v : V) (c c' : LruCache V) : Type 0 where
    pub valid : IsValid c'
    pub lookups : (j : ℕ) → find j c' ≡ (if j == k then some v else find j c)
    pub same_capacity : c'.capacity ≡ c.capacity

  added-IsPut :
      (k : ℕ) (v : V) (c : LruCache V) → IsValid c → find k c ≡ none → IsPut k v c (added k v c)
  unfolding added
  added-IsPut k v c h absent =
      let once : occurs k c.entries ≡ 0 =
        absent_lem k c.entries (sym (find-lookup c h k) ∙ absent) in
      let valid : IsValid (record c { keys = k ∷ c.keys; entries = c.entries ++ ((k, v) ∷ []) }) =
        λ j.
          let more = occurs-append j c.entries ((k, v) ∷ []) in ground (arith, h j, more, once) in
      record {
        valid = valid;
        lookups = λ j.
            find-lookup _ valid j
            ∙ lookup-append j c.entries ((k, v) ∷ [])
            ∙ lookup_last j k v c.entries (find j c) (λ e. once) (λ e. sym (find-lookup c h j));
        same_capacity = refl;
      }

  pub changed-IsPut :
      (k : ℕ) (v w : V) (c : LruCache V)
      → IsValid c
      → find k c ≡ some w
      → IsPut k v c (changed k v c)
  unfolding changed
  changed-IsPut k v w c h present =
      let some_entry = lookup-some k c.entries w (sym (find-lookup c h k) ∙ present) in
      let valid : IsValid (record c { entries = to_end k v c.entries }) = λ j.
        let more = occurs-append j (unlink k c.entries) ((k, v) ∷ []) in
        let less = occurs-unlink k j c.entries in ground (arith, h j, more, less, some_entry) in
      record {
        valid = valid;
        lookups = λ j.
            find-lookup _ valid j
            ∙ lookup-append j (unlink k c.entries) ((k, v) ∷ [])
            ∙ lookup_last j k v (unlink k c.entries) (find j c)
                (λ e. let less = occurs-unlink k k c.entries in ground (arith, less, h k))
                (λ e. lookup-unlink k j c.entries e ∙ sym (find-lookup c h j));
        same_capacity = refl;
      }

  pub put-IsPut :
      (k : ℕ) (v : V) (c : LruCache V)
      → IsValid c
      → (c.capacity == 0) ≡ false
      → IsPut k v c (put k v c)
  put-IsPut k v c h on = elim (Option-cases (find k c)) [
    | inl absent ↦
        subst (IsPut k v c) (sym (put_absent k v c h on absent)) (added-IsPut k v c h absent)
    | inr (w, present) ↦
        subst (IsPut k v c) (sym (put_present k v w c on present)) (changed-IsPut k v w c h present)
  ]

  pub get-find : (k : ℕ) (c : LruCache V) → (c.capacity == 0) ≡ false → (get k c).0 ≡ find k c
  unfolding get get_found
  get-find k c on = ground arith

  pub get_miss :
      (k : ℕ) (c : LruCache V) → (c.capacity == 0) ≡ false → find k c ≡ none → get k c ≡ (none, c)
  unfolding get get_found
  get_miss k c on absent = simp (on, absent)

  -- A hit moves the entry to the end.
  pub get_present :
      (k : ℕ) (v : V) (c : LruCache V)
      → (c.capacity == 0) ≡ false
      → find k c ≡ some v
      → get k c ≡ (some v, changed k v c)
  unfolding get get_found changed
  get_present k v c on present = simp (on, present)

  -- On a cache whose capacity is not 0, and in which each key has at most one entry and is in the set
  -- of keys just then, `Put` keeps that, and a later `Get` answers the value that was put for the
  -- key, and for another key what it would have answered before: nothing is evicted.
  pub get-put :
      (k : ℕ) (v : V) (c : LruCache V)
      → IsValid c
      → (c.capacity == 0) ≡ false
      → IsValid (put k v c)
        × ((j : ℕ) → (get j (put k v c)).0 ≡ (if j == k then some v else (get j c).0))
  get-put k v c h on =
      let r = put-IsPut k v c h on in
      let on' : ((put k v c).capacity == 0) ≡ false = rw r.same_capacity on in
      (
        r.valid,
        λ j.
            get-find j (put k v c) on'
            ∙ r.lookups j
            ∙ ap (λ o. if j == k then some v else o) (sym (get-find j c on)),
      )
