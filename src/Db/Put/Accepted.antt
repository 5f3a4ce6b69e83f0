-- ===== src/Db/Put/Accepted.antt =====
-- What a put that is accepted does to the map.
use pedrodb.Base.{
  ℕ, ◌<◌, ◌≡◌, refl, ap, sym, ◌∙◌, arith, List, [], ◌∷◌, Bool, true, false, Option, none, some,
  if◌then◌else◌, ◌===◌, ===→eq, ===_refl,
}
use mathlib.Core.Path.{subst₂}
use pedrodb.Platform.{Platform}
use pedrodb.Format.Record.{Entry}
use pedrodb.Format.Record.Location.{Location, Dir}
use pedrodb.Format.Record.RoundTrip.{IsStorable}
use pedrodb.File.{Faults}
use pedrodb.FileManager.{FileManager}
use pedrodb.FileManager.Promise.{Appended}
use pedrodb.Index.{IndexMap}
use pedrodb.Status.{Status}
use pedrodb.Db.{Db}
use pedrodb.Db.View.{Contents, is_empty, updated, compressed, HasValue, IsCached, Shows, IsReady}
use pedrodb.Db.Put.{put_entry, put_index}
use pedrodb.Db.Put.Index.{PutEffect, put_index_effect, put_index-max_file, put_status, new_dir}
use pedrodb.Db.Kept.{HasValue-kept, IsConsistent-HasActive, Every-IsFresh}
use pedrodb.Db.Put.Storable.{put_entry-valid}

status_none : (w : List ℕ) → put_status {A = Dir} w none ≡ put_status {A = List ℕ} w none
status_none [] = refl
status_none (b ∷ bs) = refl

status_some : (w : List ℕ) (d : Dir) (v : List ℕ) → put_status w (some d) ≡ put_status w (some v)
status_some [] d v = refl
status_some (b ∷ bs) d v = refl

module _ ⦃p : Platform⦄ ⦃t : IndexMap⦄ where
  module _ (db : Db) (s : Contents) (shows : Shows db s) (key value : List ℕ) (loc : Location)
      (m' : FileManager) {io : Faults} {es : List Entry}
      (a : Appended io es db.files (put_entry db.options key value) loc m')
      (storable : IsStorable (put_entry db.options key value)) where
    abbrev pub entry : Entry
    entry = put_entry db.options key value

    abbrev pub appended_db : Db
    appended_db = record db { files = m' }

    abbrev pub result : Status × Db
    result = put_index entry loc key value appended_db

    effect : PutEffect entry loc key value appended_db result
    effect = put_index_effect entry loc key value appended_db

    new_value : is_empty value ≡ false → HasValue result.1 key value
    new_value full = record {
      dir = new_dir entry loc;
      entry = entry;
      found = effect.index key ∙ rw (===_refl key, full);
      storable = storable;
      stored = rw effect.files a.stored;
      is_set = unfold put_entry in rw full;
      key_is = unfold put_entry in refl;
      value_is = unfold put_entry in ap (λ o. compressed o value) (sym effect.options);
      valid = put_entry-valid db.options key value;
      size_is = refl;
    }

    other_value : (j v : List ℕ) → (key === j) ≡ false → s j ≡ some v → HasValue result.1 j v
    other_value j v other h =
        HasValue-kept db result.1 j v (λ l x st sx. rw effect.files (a.kept l x st sx))
          effect.options (effect.index j ∙ rw other) (shows.present j v h)

    present_at :
        (j v : List ℕ) (same empty : Bool)
        → (key === j) ≡ same
        → is_empty value ≡ empty
        → (if same then (if empty then none else some value) else s j) ≡ some v
        → HasValue result.1 j v
    present_at j v true true e f h = cc
    present_at j v true false e f h =
        let same_value : value ≡ v = cc in
        subst₂ (λ k w. HasValue result.1 k w) (===→eq key j e) same_value (new_value f)
    present_at j v false empty e f h = other_value j v e h

    absent_at :
        (j : List ℕ) (same empty : Bool)
        → (key === j) ≡ same
        → is_empty value ≡ empty
        → (if same then (if empty then none else some value) else s j) ≡ none
        → t.find result.1.indices j ≡ none
    absent_at j true true e f h = effect.index j ∙ rw (e, f)
    absent_at j true false e f h = cc
    absent_at j false empty e f h = effect.index j ∙ rw e (shows.absent j h)

    result-IsCached : IsCached result.1
    result-IsCached = record {
      newest = rw effect.files (
          put_index-max_file entry loc key value appended_db
          ∙ omega (arith, a.active, a.grows, shows.cached.newest));
      fresh =
          rw (effect.files, effect.read_cache)
            (Every-IsFresh db.files m' db.read_cache a.grows
              (λ i h. a.others i (omega (arith, a.grows))) shows.cached.fresh);
      segments = rw effect.read_cache shows.cached.segments;
    }

    pub result-Shows : Shows result.1 (updated s key value)
    result-Shows = record {
      present = λ j v. present_at j v (key === j) (is_empty value) refl refl;
      absent = λ j. absent_at j (key === j) (is_empty value) refl refl;
      handles = rw (effect.files, a.handles) shows.handles;
      active = rw effect.files (IsConsistent-HasActive m' a.consistent);
      cached = result-IsCached;
    }

    pub result-IsReady : IsReady db → IsReady result.1
    result-IsReady r = record {
      consistent = rw effect.files a.consistent;
      fresh = λ i h.
          let at : m'.active_file_id < i = rw effect.files at h in
          rw effect.files (rw (a.others i (omega arith)) (r.fresh i (omega (arith, a.grows))));
    }

    -- The answer, by the abstract map.
    pub result-answer : (o : Option (List ℕ)) → s key ≡ o → result.0 ≡ put_status value o
    result-answer none h =
        effect.answer ∙ ap (λ d. put_status value d) (shows.absent key h) ∙ status_none value
    result-answer (some v) h =
        effect.answer
        ∙ ap (λ d. put_status value d) (shows.present key v h).found
        ∙ status_some value _ v
