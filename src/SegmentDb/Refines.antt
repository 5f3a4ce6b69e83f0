-- ===== src/SegmentDb/Refines.antt =====
-- The segmented database as one map.
use pedrodb.Base.{
  ℕ, ◌+◌, ◌%◌, ◌^◌, ◌<◌, ◌≡◌, ◌≢◌, refl, ap, sym, ◌∙◌, fun_ext, arith, List, Bool, true, false,
  none, some, length, length-set, get_elem?, get_elem?-some, get_elem?-set, set, set_same, ◌==◌,
  ==_refl, ==_ne, ◌===◌, ===→eq, if◌then◌else◌, inl, inr, Bool-cases,
}
use mathlib.Core.Path.{subst}
use native.Mathlib.Nat.{mod-lt}
use pedrodb.Platform.{Platform}
use pedrodb.Buffer.{ReadableBuffer}
use pedrodb.Format.Record.{header_size}
use pedrodb.File.{Faults, faulty}
use pedrodb.FileManager.{done}
use pedrodb.Index.{IndexMap}
use pedrodb.Status.{Status, ok, not_found, not_supported}
use pedrodb.Db.{Db}
use pedrodb.Db.View.{Contents, updated, stored_value, compressed, Shows, IsReady}
use pedrodb.Db.Put
use pedrodb.Db.Put.Index.{put_status}
use pedrodb.Db.Put.Refines.{Outcome, accepted, refused, failed, put_refines}
use pedrodb.Db.Get
use pedrodb.Db.Get.{directly_read}
use pedrodb.Db.Get.Refines.{Found, found, missing, get_refines, with_caches, IsReady-with_caches}
use pedrodb.Db.History.{get_status, IsReadable}
use pedrodb.SegmentDb.{SegmentDb, segment_of, put, put_answer, get, get_answer}

module _ ⦃p : Platform⦄ ⦃t : IndexMap⦄ where
  -- The map restricted to the keys of a segment, of `n`.
  abbrev pub part : ℕ → ℕ → Contents → Contents
  part n i s key = if p.hash key % 2 ^ 32 % n == i then s key else none

  -- Each database stands for the part of the map with its keys.
  pub record IsServing (segments : SegmentDb) (s : Contents) : Type 0 where
    pub some_segment : 0 < length segments
    pub shows :
        (i : ℕ) (db : Db) → get_elem? segments i ≡ some db → Shows db (part (length segments) i s)

  -- Each database can append.
  abbrev pub AreReady : SegmentDb → Type 0
  AreReady segments = (i : ℕ) (db : Db) → get_elem? segments i ≡ some db → IsReady db

  module _ (n : ℕ) (s : Contents) (key : List ℕ) where
    i : ℕ
    i = p.hash key % 2 ^ 32 % n

    part-here : part n i s key ≡ s key
    unfolding i
    part-here = rw (==_refl (p.hash key % 2 ^ 32 % n)) refl

    updated_key :
        (value j : List ℕ)
        → (key === j) ≡ true
        → part n i (updated s key value) j ≡ updated (part n i s) key value j
    unfolding i
    updated_key value j e =
        let same = ===→eq key j e in
        rw (e, ← same)
          (ap (λ b. if b then stored_value value else none) (==_refl (p.hash key % 2 ^ 32 % n)))

    part-updated :
        (value : List ℕ) → part n i (updated s key value) ≡ updated (part n i s) key value
    part-updated value =
        fun_ext
          (λ j. elim (Bool-cases (key === j)) [ inl e ↦ updated_key value j e | inr e ↦ rw e refl ])

    part-other : (value : List ℕ) (k : ℕ) → k ≢ i → part n k (updated s key value) ≡ part n k s
    unfolding i
    part-other value k other = fun_ext (λ j. elim (Bool-cases (key === j)) [
      | inl e ↦
          let same = ===→eq key j e in
          let off : (p.hash j % 2 ^ 32 % n == k) ≡ false =
            ==_ne _ k (λ h. other (sym h ∙ ap (λ x. p.hash x % 2 ^ 32 % n) (sym same))) in
          rw off refl
      | inr e ↦ rw e refl
    ])

  -- What a call of `Put` leads to.
  pub data SegmentOutcome (io : Faults) (key value : List ℕ) (segments : SegmentDb) (s : Contents)
      : Type 0 where
    stored :
        (segments' : SegmentDb)
        → put io key value segments ≡ done (put_status value (s key), segments')
        → IsServing segments' (updated s key value)
        → AreReady segments'
        → SegmentOutcome io key value segments s
    turned_down :
        put io key value segments ≡ done (not_supported, segments)
        → SegmentOutcome io key value segments s
    broken :
        (status : Status) (segments' : SegmentDb)
        → put io key value segments ≡ done (status, segments')
        → status ≢ ok
        → faulty io ≡ true
        → IsServing segments' s
        → SegmentOutcome io key value segments s

  module _ (key : List ℕ) (segments : SegmentDb) (s : Contents)
      (serving : IsServing segments s) where
    here : ℕ
    here = segment_of key segments

    -- A segment that stands for its part of another map, which is the same on the other parts.
    IsServing-set :
        (db : Db) (s' : Contents)
        → Shows db (part (length segments) here s')
        → ((k : ℕ) → k ≢ here → part (length segments) k s' ≡ part (length segments) k s)
        → IsServing (set segments here db) s'
    IsServing-set db s' shows other = record {
      some_segment = omega (arith, length-set segments here db, serving.some_segment);
      shows = λ k x h. elim (get_elem?-set segments here k db x h) [
        | inl (e, f) ↦ rw (length-set segments here db, e, ← f) shows
        | inr (n, f) ↦ rw (length-set segments here db, other k n) (serving.shows k x f)
      ];
    }

    AreReady-set : (db : Db) → AreReady segments → IsReady db → AreReady (set segments here db)
    AreReady-set db ready r k x h = elim (get_elem?-set segments here k db x h) [
      | inl (e, f) ↦ subst IsReady f r
      | inr (n, f) ↦ ready k x f
    ]

    put-here :
        (io : Faults) (value : List ℕ) (db : Db)
        → get_elem? segments here ≡ some db
        → put io key value segments ≡ put_answer here segments (Put.put io key value db)
    unfolding put here
    put-here io value db at = rw (at, put) refl

    put_outcome :
        (io : Faults) (value : List ℕ) (db : Db)
        → get_elem? segments here ≡ some db
        → AreReady segments
        → Outcome io key value db (part (length segments) here s)
        → SegmentOutcome io key value segments s
    unfolding put_answer Put.put here i
    put_outcome io value db at ready (accepted db' went shows ready') =
        stored (set segments here db')
          (put-here io value db at
            ∙ ap (put_answer here segments) went
            ∙ ap (λ o. done (put_status value o, set segments here db'))
                (part-here (length segments) s key))
          (IsServing-set db' (updated s key value)
            (subst (Shows db') (sym (part-updated (length segments) s key value)) shows)
            (part-other (length segments) s key value))
          (AreReady-set db' ready ready')
    put_outcome io value db at ready (refused went why) = turned_down (
        put-here io value db at
        ∙ ap (put_answer here segments) went
        ∙ ap (λ x. done (not_supported, x)) (set_same segments here db at))
    put_outcome io value db at ready (failed status db' went bad wrong shows) =
        broken status (set segments here db')
          (put-here io value db at ∙ ap (put_answer here segments) went) bad wrong
          (IsServing-set db' s shows (λ k n. refl))

    -- On segments that stand for the parts of a map and can append, `Put` always returns, for a key
    -- of less than 256 bytes whose entry stays below 4 GiB, where the next file id of the segment of
    -- the key is a 32-bit integer. It is accepted, with the answer that the map gives, and the
    -- segments stand for the map with the key updated, and can append; or it is refused with
    -- kNotSupported, and nothing has changed; or a call of the system failed, the answer is an
    -- error, and the segments stand for the same map.
    pub segment_put_refines :
        (io : Faults) (value : List ℕ)
        → AreReady segments
        → length key < 2 ^ 8
        → ((db : Db)
            → get_elem? segments (segment_of key segments) ≡ some db
            → (header_size + length key + length (compressed db.options value) < 2 ^ 32)
              × (db.files.active_file_id + 1 < 2 ^ 32))
        → SegmentOutcome io key value segments s
    unfolding here
    segment_put_refines io value ready small fits =
        let (db, at) =
          get_elem?-some segments here (mod-lt (p.hash key % 2 ^ 32) serving.some_segment) in
        put_outcome io value db at ready (
          put_refines io key value db (part (length segments) here s) (serving.shows here db at)
            (ready here db at) small (fits db at).0 (fits db at).1)

    -- What a call of `Get` leads to: the answer of the map.
    pub record SegmentFound (io : Faults) (use_cache : Bool) (buffer : ReadableBuffer)
        : Type 0 where
      pub segments' : SegmentDb
      pub went : get io use_cache buffer key segments ≡ done (get_status (s key), s key, segments')
      pub serving' : IsServing segments' s
      pub ready' : AreReady segments'

    get-here :
        (io : Faults) (use_cache : Bool) (buffer : ReadableBuffer) (db : Db)
        → get_elem? segments here ≡ some db
        → get io use_cache buffer key segments
          ≡ get_answer here segments (Get.get io use_cache buffer key db)
    unfolding get here
    get-here io use_cache buffer db at = rw (at, get) refl

    get_outcome :
        (io : Faults) (use_cache : Bool) (buffer : ReadableBuffer) (db : Db)
        → get_elem? segments here ≡ some db
        → AreReady segments
        → Found io use_cache buffer key db (part (length segments) here s)
        → SegmentFound io use_cache buffer
    unfolding get_answer Get.get i here
    get_outcome io use_cache buffer db at ready (found v handles cache is went shows) =
        let value = sym (part-here (length segments) s key) ∙ is in
        record {
          segments' = set segments here (with_caches db handles cache);
          went = rw value (get-here io use_cache buffer db at ∙ ap (get_answer here segments) went);
          serving' = IsServing-set (with_caches db handles cache) s shows (λ k n. refl);
          ready' =
              AreReady-set (with_caches db handles cache) ready
                (IsReady-with_caches db handles cache (ready here db at));
        }
    get_outcome io use_cache buffer db at ready (missing is went) =
        let value = sym (part-here (length segments) s key) ∙ is in
        record {
          segments' = segments;
          went = rw value (
              get-here io use_cache buffer db at
              ∙ ap (get_answer here segments) went
              ∙ ap (λ x. done (not_found, none, x)) (set_same segments here db at));
          serving' = serving;
          ready' = ready;
        }

    -- On segments that stand for the parts of a map and can append, where no open and no size call
    -- fails, `Get` answers kOk and the value that the map has for the key, or kNotFound, unless it
    -- reads directly an entry at the very end of its file; and the segments stand for the same map.
    pub segment_get_refines :
        (io : Faults) (use_cache : Bool) (buffer : ReadableBuffer)
        → AreReady segments
        → io.open_fails ≡ false
        → io.size_fails ≡ false
        → ((db : Db)
            → get_elem? segments (segment_of key segments) ≡ some db
            → (db.files.active_file_id < 2 ^ 32) × IsReadable use_cache key db)
        → SegmentFound io use_cache buffer
    unfolding here
    segment_get_refines io use_cache buffer ready opens sized fits =
        let (db, at) =
          get_elem?-some segments here (mod-lt (p.hash key % 2 ^ 32) serving.some_segment) in
        get_outcome io use_cache buffer db at ready (
          get_refines io use_cache buffer key db (part (length segments) here s)
            (serving.shows here db at) opens sized (fits db at).0 (fits db at).1)
