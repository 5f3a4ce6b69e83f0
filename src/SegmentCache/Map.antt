-- ===== src/SegmentCache/Map.antt =====
-- A segmented cache as a map from keys to values.
use pedrodb.Base.{
  ℕ, ◌%◌, ◌<◌, ◌≡◌, ◌≢◌, refl, ap, sym, ◌∙◌, Bool, true, false, Option, none, some, All,
  All-get_elem?, All-set, get_elem?-some, get_elem?-set_at, get_elem?, set, length, length-set,
  ◌==◌, ==_iff, ==_ne, Bool-cases, inl, inr, if◌then◌else◌,
}
use mathlib.Core.Path.{subst}
use native.Mathlib.Nat.{mod-lt}
use pedrodb.Platform.{Platform}
use pedrodb.Lru
use pedrodb.Lru.{LruCache, find}
use pedrodb.Lru.Map.{IsValid, get_miss, get-find}
use pedrodb.Lru.Calls.{Shows, get-Shows, put-Shows}
use pedrodb.Status.{Status, ok}
use pedrodb.SegmentCache.{
  SegmentCache, on_segment, get, locate, store, lookup_or_store, put_back, get_or_compute,
}

module _ {V : Type 0} where
  -- Every segment is in use, and each of its keys has at most one entry.
  abbrev pub IsServing : SegmentCache V → Type 0
  IsServing segments = All (λ (c : LruCache V). IsValid c × ((c.capacity == 0) ≡ false)) segments

module _ ⦃p : Platform⦄ {V : Type 0} where
  abbrev answer_of : Option (Option V × SegmentCache V) → Option V
  answer_of none = none
  answer_of (some (o, segments)) = o

  -- What the cache has for a key: the answer of `Get`.
  pub held : ℕ → SegmentCache V → Option V
  held key segments = answer_of (get key segments)

  held_at :
      (key : ℕ) (segments : SegmentCache V) (c : LruCache V)
      → get_elem? segments (locate key segments) ≡ some c
      → held key segments ≡ (Lru.get key c).0
  unfolding held get on_segment
  held_at key segments c at = rw (at, get, on_segment) refl

  -- Another cache in the place of a segment, which answers for its keys.
  held-set :
      (j i : ℕ) (segments : SegmentCache V) (c c' : LruCache V) (s : ℕ → Option V)
      → get_elem? segments i ≡ some c
      → Shows c' s
      → 0 < length segments
      → held j (set segments i c') ≡ (if locate j segments == i then s j else held j segments)
  held-set j i segments c c' s at shows some_segment = elim (Bool-cases (locate j segments == i)) [
    | inl here ↦
        held_at j (set segments i c') c' (
          ap (get_elem? (set segments i c')) same_place
          ∙ get_elem?-set_at segments i (locate j segments) c' c at
          ∙ rw here refl)
        ∙ get-find j c' shows.on
        ∙ shows.finds j
        ∙ rw here refl
    | inr away ↦
        let (d, is) =
          get_elem?-some segments (locate j segments) (mod-lt (p.hash_int j) some_segment) in
        held_at j (set segments i c') d (
          ap (get_elem? (set segments i c')) same_place
          ∙ get_elem?-set_at segments i (locate j segments) c' c at
          ∙ rw away is)
        ∙ sym (held_at j segments d is)
        ∙ rw away refl
  ]
    where
      same_place : locate j (set segments i c') ≡ locate j segments
      same_place = ap (λ n. p.hash_int j % n) (length-set segments i c')

  -- The segments after a call: they are in use, as many as before, and have the values of a map.
  pub record Holds (segments : SegmentCache V) (s : ℕ → Option V) (segments' : SegmentCache V)
      : Type 0 where
    pub serving : IsServing segments'
    pub size : length segments' ≡ length segments
    pub has : (j : ℕ) → held j segments' ≡ s j

  module _ (key : ℕ) (segments : SegmentCache V) (c : LruCache V)
      (at : get_elem? segments (locate key segments) ≡ some c) (serving : IsServing segments)
      (some_segment : 0 < length segments) where
    -- The segment of the key stands for the values that the cache has for its keys.
    held_here : (j : ℕ) → locate j segments ≡ locate key segments → held j segments ≡ find j c
    held_here j here =
        held_at j segments c (ap (get_elem? segments) here ∙ at)
        ∙ get-find j c
            (All-get_elem? (λ (x : LruCache V). IsValid x × ((x.capacity == 0) ≡ false)) segments
              (locate key segments) c serving at).1

    segment-Shows : Shows c (λ j. find j c)
    segment-Shows =
        let (valid, on) =
          All-get_elem? (λ (x : LruCache V). IsValid x × ((x.capacity == 0) ≡ false)) segments
            (locate key segments) c serving at in
        record { valid = valid; on = on; finds = λ j. refl }

    Holds-set :
        (c' : LruCache V) (s t : ℕ → Option V)
        → Shows c' t
        → ((j : ℕ) → locate j segments ≡ locate key segments → t j ≡ s j)
        → ((j : ℕ) → locate j segments ≢ locate key segments → held j segments ≡ s j)
        → Holds segments s (set segments (locate key segments) c')
    Holds-set c' s t shows here away = record {
      serving =
          All-set (λ (x : LruCache V). IsValid x × ((x.capacity == 0) ≡ false)) segments
            (locate key segments) c' serving (shows.valid, shows.on);
      size = length-set segments (locate key segments) c';
      has = λ j.
          held-set j (locate key segments) segments c c' t at shows some_segment
          ∙ by j (locate j segments == locate key segments) refl;
    }
      where
        by :
            (j : ℕ) (same : Bool)
            → (locate j segments == locate key segments) ≡ same
            → (if same then t j else held j segments) ≡ s j
        by j true e = here j ((==_iff _ _).0 e)
        by j false e = away j (λ h. (let same = (==_iff _ _).1 h in cc))

    -- The segment with the same values.
    same-Holds :
        (c' : LruCache V)
        → Shows c' (λ j. find j c)
        → Holds segments (λ j. held j segments) (set segments (locate key segments) c')
    same-Holds c' shows =
        Holds-set c' (λ j. held j segments) (λ j. find j c) shows (λ j h. sym (held_here j h))
          (λ j h. refl)

    -- The segment with another value of the key.
    put-Holds :
        (v : V)
        → Holds segments
            (λ j. if j == key then some v else held j segments)
            (set segments (locate key segments) (Lru.put key v c))
    put-Holds v =
        Holds-set (Lru.put key v c) (λ j. if j == key then some v else held j segments)
          (λ j. if j == key then some v else find j c)
          (put-Shows key v c (λ j. find j c) segment-Shows)
          (λ j h. ap (λ o. if j == key then some v else o) (sym (held_here j h)))
          (λ j h. sym (rw (==_ne j key (λ e. h (ap (λ k. locate k segments) e))) refl))

  module _ {S : Type 0} where
    -- What a call of `GetOrCompute` leads to.
    pub data Computed (key : ℕ) (supplied : Option (Status × V × S)) (s : S)
        (segments : SegmentCache V) : Option (Status × V × S × SegmentCache V) → Type 0 where
      cached :
          (v : V) (segments' : SegmentCache V)
          → held key segments ≡ some v
          → Holds segments (λ j. held j segments) segments'
          → Computed key supplied s segments (some (ok, v, s, segments'))
      stored :
          (v : V) (s' : S) (segments' : SegmentCache V)
          → held key segments ≡ none
          → supplied ≡ some (ok, v, s')
          → Holds segments (λ j. if j == key then some v else held j segments) segments'
          → Computed key supplied s segments (some (ok, v, s', segments'))
      failed :
          (status : Status) (v : V) (s' : S) (segments' : SegmentCache V)
          → held key segments ≡ none
          → supplied ≡ some (status, v, s')
          → status ≢ ok
          → Holds segments (λ j. held j segments) segments'
          → Computed key supplied s segments (some (status, v, s', segments'))
      crashed : held key segments ≡ none → supplied ≡ none → Computed key supplied s segments none

    module _ (key : ℕ) (s : S) (segments : SegmentCache V) (c : LruCache V)
        (at : get_elem? segments (locate key segments) ≡ some c) (serving : IsServing segments)
        (some_segment : 0 < length segments) where
      abbrev i : ℕ
      i = locate key segments

      -- Where the segment does not have the key.
      stored-Computed :
          (supplied : Option (Status × V × S))
          → held key segments ≡ none
          → Computed key supplied s segments (put_back i segments (store key c supplied))
      unfolding put_back store
      stored-Computed none nothing = crashed nothing refl
      stored-Computed (some (ok, v, s')) nothing =
          stored v s' _ nothing refl (put-Holds key segments c at serving some_segment v)
      stored-Computed (some (status, v, s')) nothing =
          failed status v s' _ nothing refl (λ e. cc)
            (same-Holds key segments c at serving some_segment c
              (segment-Shows key segments c at serving some_segment))

      looked_up-Computed :
          (supplier : S → Option (Status × V × S)) (o : Option V) (c' : LruCache V)
          → Lru.get key c ≡ (o, c')
          → Computed key
              (supplier s)
              s
              segments
              (put_back i segments (lookup_or_store key supplier s (o, c')))
      unfolding put_back lookup_or_store
      looked_up-Computed supplier (some v) c' got =
          let (answer, shows) =
            get-Shows key c (λ j. find j c)
              (segment-Shows key segments c at serving some_segment) in
          cached v _ (held_at key segments c at ∙ ap (λ r. r.0) got)
            (same-Holds key segments c at serving some_segment c' (rw got at shows))
      looked_up-Computed supplier none c' got =
          let on = (segment-Shows key segments c at serving some_segment).on in
          let absent : find key c ≡ none = sym (get-find key c on) ∙ ap (λ r. r.0) got in
          subst
            (λ d.
              Computed key (supplier s) s segments (put_back i segments (store key d (supplier s))))
            (ap (λ r. r.1) (sym (get_miss key c on absent) ∙ got))
            (stored-Computed (supplier s) (held_at key segments c at ∙ ap (λ r. r.0) got))

    -- On a cache with at least one segment, whose segments have a capacity that is not 0 and keys with
    -- at most one entry each: `GetOrCompute` of a key that the cache has answers kOk and the value,
    -- without a call of the supplier. For another key it answers the status and the value of the
    -- supplier, and if the status is kOk, a later `Get` of the key finds the value. Apart from that
    -- every later `Get` answers as before, and the segments are as many and as well-formed as before.
    -- It crashes where the supplier is called and crashes, and nowhere else.
    pub get_or_compute-Computed :
        (key : ℕ) (supplier : S → Option (Status × V × S)) (s : S) (segments : SegmentCache V)
        → IsServing segments
        → 0 < length segments
        → Computed key (supplier s) s segments (get_or_compute key supplier s segments)
    unfolding get_or_compute
    get_or_compute-Computed key supplier s segments serving some_segment =
        let (c, at) =
          get_elem?-some segments (locate key segments) (mod-lt (p.hash_int key) some_segment) in
        rw (at, get_or_compute)
          (looked_up-Computed key s segments c at serving some_segment supplier (Lru.get key c).0
            (Lru.get key c).1 refl)
