-- ===== src/Index/Sample.antt =====
-- A map that meets the contract: a function.
use pedrodb.Base.{ℕ, List, refl, Option, none, some, ◌===◌, if◌then◌else◌}
use pedrodb.Format.Record.Location.{Dir}
use pedrodb.Index.{IndexMap}

instance abbrev pub function_map : IndexMap
function_map = record {
  Map = List ℕ → Option Dir;
  empty = λ k. none;
  find = λ m k. m k;
  assign = λ m k d j. if k === j then some d else m j;
  erase = λ m k j. if k === j then none else m j;
  find-empty = λ k. refl;
  find-assign = λ m k j d. refl;
  find-erase = λ m k j. refl;
}
