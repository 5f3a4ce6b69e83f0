-- ===== src/Examples/Caches.antt =====
-- The caches at concrete states.
use pedrodb.Base.{
  ◌∷◌, ℕ, ◌+◌, ◌^◌, ◌<◌, ◌≤◌, ◌≡◌, ◌*◌, ◌/◌, refl, arith, List, [], Option, none, some, false, ◌==◌,
  if◌then◌else◌,
}
use pedrodb.Platform.BigEndian.{big_endian}
use pedrodb.Format.Record.{size_of}
use pedrodb.File.{no_faults, max_file_bytes}
use pedrodb.FileManager.{FileManager}
use pedrodb.FileManager.Acquire.{HasActive}
use pedrodb.SegmentCache.{SegmentCache, segment_add, get_or_compute}
use pedrodb.SegmentCache.Map.{Computed, get_or_compute-Computed}
use pedrodb.ReadCache
use pedrodb.ReadCache.{new_context, file_of, index_of, offset_of}
use pedrodb.ReadCache.Blocks.{index_of_lem}
use pedrodb.ReadCache.Reads.{IsGot, get_entry-IsGot}
use pedrodb.Lru.{LruCache, new, get, put}
use pedrodb.Lru.Calls.{
  Call, put_call, get_call, remove_call, answers, map_answers, answers-map_answers,
}
use pedrodb.Lru.Map.{IsValid, get-put}
use pedrodb.Status.{Status, ok}
use pedrodb.Examples.{
  an_entry, an_entry-IsStorable, no_bytes, whole_file, entry_memory, manager_of, no_file,
  entry_held,
}

-- The file 0 has the entry, and the file 1 is active.
abbrev pub two_files : FileManager
two_files = record (manager_of no_bytes 0 []) {
  data_files = λ i.
      if i == 0 then whole_file entry_memory else if i == 1 then whole_file no_bytes else no_file;
}

pub two_files-HasActive : HasActive two_files
two_files-HasActive = record {
  file = record { file = 1; length = max_file_bytes; write_index = 0 };
  is = refl;
  same_file = refl;
  whole = refl;
}

get_entry-IsGot_example : IsGot two_files an_entry (
    ReadCache.get no_faults
      (new_context (record { id = 0; offset = 0 }) (size_of an_entry))
      two_files
      (ReadCache.new 1 8192))
get_entry-IsGot_example =
    get_entry-IsGot no_faults 0 two_files refl refl refl refl two_files-HasActive (omega arith) 0
      an_entry an_entry-IsStorable (omega arith) entry_held (unfold size_of in omega arith)
      (ReadCache.new 1 8192) tt (unfold ReadCache.new segment_add in (tt, tt))
      (unfold ReadCache.new segment_add in omega arith)

index_of_lem_example :
    (file_of (index_of 3 5000) ≡ 3)
    × (offset_of (index_of 3 5000) ≤ 5000)
    × (5000 < offset_of (index_of 3 5000) + 2 ^ 12)
    × (index_of 3 5000 ≡ 3 * 2 ^ 20 + 5000 / 2 ^ 12)
index_of_lem_example = index_of_lem 3 5000 (omega arith) (omega arith)

-- Two segments, and a supplier that counts its calls.
abbrev two_segments : SegmentCache ℕ
two_segments = segment_add 4 (segment_add 4 [])

two_valid : IsValid {V = ℕ} (new 4) × ((4 == 0) ≡ false)
unfolding new
two_valid = (λ k. (refl, omega arith), refl)

abbrev counting : ℕ → Option (Status × ℕ × ℕ)
counting calls = some (ok, 7, calls + 1)

-- A key that is not there, whose value is computed and kept.
get_or_compute-Computed_example :
    Computed 5 (counting 0) 0 two_segments (get_or_compute 5 counting 0 two_segments)
get_or_compute-Computed_example =
    get_or_compute-Computed 5 counting 0 two_segments
      (unfold segment_add in (two_valid, (two_valid, tt))) (unfold segment_add in omega arith)

-- A cache with one entry and room for one more.
abbrev a_cache : LruCache ℕ
a_cache = record { capacity = 2; keys = 3 ∷ []; entries = (3, 10) ∷ [] }

get-put_example :
    IsValid (put 4 11 a_cache)
    × ((j : ℕ) → (get j (put 4 11 a_cache)).0 ≡ (if j == 4 then some 11 else (get j a_cache).0))
get-put_example = get-put 4 11 a_cache (λ k. ground arith) refl

-- A cache of one entry is used for two keys.
abbrev calls : List (Call ℕ)
calls = put_call 3 10 ∷ put_call 4 11 ∷ get_call 3 ∷ remove_call 4 ∷ get_call 4 ∷ []

answers-map_answers_example : answers calls (new 1) ≡ map_answers calls (λ j. none)
answers-map_answers_example = answers-map_answers 1 calls refl
