-- ===== src/Lru.antt =====
-- include/pedrodb/cache/lru_cache.h. The doubly linked list is the list of its entries from
-- `lru_.next` to `lru_.prev`. `keys_` is the list of its keys; the pointer behind a key is the entry
-- of the list that has the key.
pub mod Laws
pub mod Map
pub mod Calls
use pedrodb.Base.{
  ℕ, ◌+◌, List, [], ◌∷◌, ◌++◌, Bool, true, false, Option, none, some, not, ◌||◌, length, ◌==◌,
  if◌then◌else◌,
}

pub record LruCache (V : Type 0) : Type 0 where
  pub capacity : ℕ
  pub keys : List ℕ
  pub entries : List (ℕ × V)

unfoldable pub has : ℕ → List ℕ → Bool
has k [] = false
has k (j ∷ l) = j == k || has k l

unfoldable pub erase : ℕ → List ℕ → List ℕ
erase k [] = []
erase k (j ∷ l) = let rest = erase k l in if j == k then l else j ∷ rest

abbrev pub is_empty : List ℕ → Bool
is_empty [] = true
is_empty (j ∷ l) = false

module _ {V : Type 0} where
  -- The constructor.
  unfoldable pub new : ℕ → LruCache V
  new capacity = record { capacity = capacity; keys = []; entries = [] }

  unfoldable pub lookup : ℕ → List (ℕ × V) → Option V
  lookup k [] = none
  lookup k ((j, v) ∷ l) = if j == k then some v else lookup k l

  -- The list without the entry of the key: unlinking it.
  unfoldable pub unlink : ℕ → List (ℕ × V) → List (ℕ × V)
  unlink k [] = []
  unlink k ((j, v) ∷ l) = let rest = unlink k l in if j == k then l else (j, v) ∷ rest

  -- `keys_.find(key)`, and the value of the entry behind it.
  unfoldable pub find : ℕ → LruCache V → Option V
  unfolding lookup has
  find k c = if has k c.keys then lookup k c.entries else none

  -- An entry of the list moves to its end.
  abbrev to_end : ℕ → V → List (ℕ × V) → List (ℕ × V)
  to_end k v l = unlink k l ++ ((k, v) ∷ [])

  get_found : ℕ → LruCache V → Option V → Option V × LruCache V
  get_found k c none = (none, c)
  get_found k c (some v) = (some v, record c { entries = to_end k v c.entries })

  unfoldable pub get : ℕ → LruCache V → Option V × LruCache V
  unfolding get_found
  get k c = if c.capacity == 0 then (none, c) else get_found k c (find k c)

  remove_found : ℕ → LruCache V → Option V → Option V × LruCache V
  remove_found k c none = (none, c)
  remove_found k c (some v) =
      (some v, record c { keys = erase k c.keys; entries = unlink k c.entries })

  unfoldable pub remove : ℕ → LruCache V → Option V × LruCache V
  unfolding remove_found
  remove k c = if c.capacity == 0 then (none, c) else remove_found k c (find k c)

  evict_first : List (ℕ × V) → LruCache V → LruCache V
  evict_first [] c = c
  evict_first ((k, v) ∷ l) c = record c { keys = erase k c.keys; entries = l }

  -- `Evict` goes on only if `keys_` is empty.
  unfoldable pub evict : LruCache V → LruCache V
  unfolding evict_first
  evict c = if not (is_empty c.keys) then c else evict_first c.entries c

  push : ℕ → V → LruCache V → LruCache V
  push k v c = record c { keys = k ∷ c.keys; entries = c.entries ++ ((k, v) ∷ []) }

  put_found : ℕ → V → LruCache V → Option V → LruCache V
  put_found k v c (some w) = record c { entries = to_end k v c.entries }
  put_found k v c none = push k v (if length c.keys + 1 == c.capacity then evict c else c)

  unfoldable pub put : ℕ → V → LruCache V → LruCache V
  unfolding put_found push
  put k v c = if c.capacity == 0 then c else put_found k v c (find k c)
