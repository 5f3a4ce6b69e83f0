-- ===== src/Base/Ids.antt =====
-- `std::set<file_id_t>` as the ascending list that it iterates over.
use Prim.Native.Nat.{ℕ, ◌<◌}
use mathlib.Core.Path.{◌≡◌, refl}
use mathlib.Core.Bool.{Bool, true, false, ◌||◌}
use mathlib.Core.List.{List, [], ◌∷◌, ◌++◌}
use native.Mathlib.Omega.{arith}
use pedrodb.Base.Tests.{ltb, ◌==◌, if◌then◌else◌}
use pedrodb.Base.Lists.{All}

-- `count(id)`
unfoldable pub contains : ℕ → List ℕ → Bool
contains k [] = false
contains k (j ∷ l) = j == k || contains k l

-- `emplace(id)`
unfoldable pub insert : ℕ → List ℕ → List ℕ
insert k [] = k ∷ []
insert k (j ∷ l) =
    let rest = insert k l in if j == k then j ∷ l else if ltb k j then k ∷ j ∷ l else j ∷ rest

-- `erase(id)`
unfoldable pub erase : ℕ → List ℕ → List ℕ
erase k [] = []
erase k (j ∷ l) = let rest = erase k l in if j == k then l else j ∷ rest

-- Ascending, so that no id stands twice.
abbrev pub IsAscending : List ℕ → Type 0
IsAscending [] = Unit
IsAscending (j ∷ l) = All (λ i. j < i) l × IsAscending l

All-lt_trans : (a b : ℕ) (l : List ℕ) → a < b → All (λ i. b < i) l → All (λ i. a < i) l
All-lt_trans a b [] h t = tt
All-lt_trans a b (x ∷ l) h (p, t) = (omega arith, All-lt_trans a b l h t)

All-insert : (a k : ℕ) (l : List ℕ) → a < k → All (λ i. a < i) l → All (λ i. a < i) (insert k l)
unfolding insert
All-insert a k [] h t = (h, tt)
All-insert a k (j ∷ l) h (p, t) = ground (arith, All-insert a k l h t)

All-erase : (a k : ℕ) (l : List ℕ) → All (λ i. a < i) l → All (λ i. a < i) (erase k l)
unfolding erase
All-erase a k [] t = tt
All-erase a k (j ∷ l) (p, t) = ground (arith, All-erase a k l t)

pub insert-IsAscending : (k : ℕ) (l : List ℕ) → IsAscending l → IsAscending (insert k l)
unfolding insert
insert-IsAscending k [] s = (tt, tt)
insert-IsAscending k (j ∷ l) (lo, s) =
    ground (arith, insert-IsAscending k l s, All-insert j k l, All-lt_trans k j l)

pub erase-IsAscending : (k : ℕ) (l : List ℕ) → IsAscending l → IsAscending (erase k l)
unfolding erase
erase-IsAscending k [] s = tt
erase-IsAscending k (j ∷ l) (lo, s) = ground (arith, erase-IsAscending k l s, All-erase j k l lo)

pub contains-insert :
    (k j : ℕ) (l : List ℕ) → contains j (insert k l) ≡ (if k == j then true else contains j l)
unfolding contains insert
contains-insert k j [] = ground arith
contains-insert k j (i ∷ l) = ground (arith, contains-insert k j l)

not-contains_of_lt : (k : ℕ) (l : List ℕ) → All (λ i. k < i) l → contains k l ≡ false
unfolding contains
not-contains_of_lt k [] t = refl
not-contains_of_lt k (j ∷ l) (p, t) = ground (arith, not-contains_of_lt k l t)

pub contains-erase :
    (k j : ℕ) (l : List ℕ)
    → IsAscending l
    → contains j (erase k l) ≡ (if k == j then false else contains j l)
unfolding contains erase
contains-erase k j [] s = ground arith
contains-erase k j (i ∷ l) (lo, s) =
    ground (arith, contains-erase k j l s, not-contains_of_lt i l lo)

-- A number above all others goes to the end.
pub insert-above : (k : ℕ) (l : List ℕ) → All (λ i. i < k) l → insert k l ≡ l ++ (k ∷ [])
unfolding insert
insert-above k [] h = refl
insert-above k (j ∷ l) (p, h) = ground (arith, insert-above k l h)

pub not-contains_above : (k : ℕ) (l : List ℕ) → All (λ i. i < k) l → contains k l ≡ false
unfolding contains
not-contains_above k [] h = refl
not-contains_above k (j ∷ l) (p, h) = ground (arith, not-contains_above k l h)

pub contains-last : (k : ℕ) (l : List ℕ) → contains k (l ++ (k ∷ [])) ≡ true
unfolding contains
contains-last k [] = ground arith
contains-last k (j ∷ l) = ground (arith, contains-last k l)
