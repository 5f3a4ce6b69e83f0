-- ===== src/Index.antt =====
-- The map from keys to entries, `tsl::htrie_map<char, record::Dir>`: a third-party container, taken
-- with the contract that the program relies on.
pub mod Sample
use pedrodb.Base.{ℕ, List, ◌≡◌, Option, none, some, ◌===◌, if◌then◌else◌}
use pedrodb.Format.Record.Location.{Dir}

pub record IndexMap : Type 1 where
  pub Map : Type 0
  pub empty : Map
  -- `find`, `m[key] = dir` and `erase`
  pub find : Map → List ℕ → Option Dir
  pub assign : Map → List ℕ → Dir → Map
  pub erase : Map → List ℕ → Map
  pub find-empty : (k : List ℕ) → find empty k ≡ none
  pub find-assign :
      (m : Map) (k j : List ℕ) (d : Dir)
      → find (assign m k d) j ≡ (if k === j then some d else find m j)
  pub find-erase :
      (m : Map) (k j : List ℕ) → find (erase m k) j ≡ (if k === j then none else find m j)
