-- ===== src/Db/Get/Cached.antt =====
-- The value of an entry, read through the read cache.
use pedrodb.Base.{ℕ, ◌≡◌, ap, ◌∙◌, List, true, some}
use pedrodb.Platform.{Platform}
use pedrodb.Format.Record.{Entry, validate}
use pedrodb.FileManager.{FileManager, Run, done}
use pedrodb.ReadCache.{Got}
use pedrodb.ReadCache.Reads.{IsGot}
use pedrodb.Status.{ok}
use pedrodb.Db.{Options}
use pedrodb.Db.View.{compressed}
use pedrodb.Db.Get.{get_entry, get_cached}
use pedrodb.Db.Get.Direct.{get_entry_lem}

module _ ⦃p : Platform⦄ where
  pub get_cached_lem :
      (o : Options) (m : FileManager) (e : Entry) (v : List ℕ) (r : Run Got)
      → (g : IsGot m e r) → validate e ≡ true
      → e.value ≡ compressed o v
      → get_cached o r ≡ done (ok, some v, record m { open_files = g.handles }, g.cache)
  unfolding get_cached
  get_cached_lem o m e v r g checks value =
      ap (get_cached o) g.went
      ∙ ap (λ x. done (x.0, x.1, record m { open_files = g.handles }, g.cache))
          (ap (get_entry o) g.entry ∙ get_entry_lem o e v checks value)
