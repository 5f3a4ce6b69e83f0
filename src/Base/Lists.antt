-- ===== src/Base/Lists.antt =====
-- Lists measured by native numbers, and the equality test of byte strings.
use Prim.Native.Nat.{ℕ, zero, suc, ◌+◌, ◌<◌}
use mathlib.Core.Path.{◌≡◌, refl, sym, ap, subst}
use mathlib.Core.Logic.{◌≢◌, ◌↔◌, ◌⊎◌, inl, inr}
use mathlib.Core.Bool.{Bool, true, false, ◌&&◌}
use mathlib.Core.Option.{Option, none, some}
use mathlib.Core.List.{List, [], ◌∷◌, ◌++◌}
use native.Mathlib.Omega.{arith}
use pedrodb.Base.Tests.{◌==◌, if◌then◌else◌}

module _ {ℓ} {A : Type ℓ} where
  abbrev pub length : List A → ℕ
  length [] = 0
  length (x ∷ xs) = suc (length xs)

  pub length-append : (xs ys : List A) → length (xs ++ ys) ≡ length xs + length ys
  length-append [] ys = omega arith
  length-append (x ∷ xs) ys = omega (arith, length-append xs ys)

  abbrev pub All {κ} : (A → Type κ) → List A → Type κ
  All P [] = Unit {κ}
  All P (x ∷ xs) = P x × All P xs

  pub All-append {κ} : (P : A → Type κ) (xs ys : List A) → All P xs → All P ys → All P (xs ++ ys)
  All-append P [] ys hx hy = hy
  All-append P (x ∷ xs) ys hx hy = (hx.0, All-append P xs ys hx.1 hy)

  pub All-imp {κ} : (P Q : A → Type κ) (xs : List A) → ((x : A) → P x → Q x) → All P xs → All Q xs
  All-imp P Q [] f h = h
  All-imp P Q (x ∷ xs) f h = (f x h.0, All-imp P Q xs f h.1)

  pub All-both {κ} :
      (P Q R : A → Type κ) (xs : List A)
      → ((x : A) → P x → Q x → R x)
      → All P xs
      → All Q xs
      → All R xs
  All-both P Q R [] f h k = h
  All-both P Q R (x ∷ xs) f h k = (f x h.0 k.0, All-both P Q R xs f h.1 k.1)

  abbrev pub replicate : ℕ → A → List A
  replicate zero a = []
  replicate (suc n) a = a ∷ replicate n a

  abbrev pub take : ℕ → List A → List A
  take zero xs = []
  take (suc n) [] = []
  take (suc n) (x ∷ xs) = x ∷ take n xs

  abbrev pub drop : ℕ → List A → List A
  drop zero xs = xs
  drop (suc n) [] = []
  drop (suc n) (x ∷ xs) = drop n xs

  abbrev pub get_elem? : List A → ℕ → Option A
  get_elem? [] i = none
  get_elem? (x ∷ xs) zero = some x
  get_elem? (x ∷ xs) (suc i) = get_elem? xs i

  abbrev pub set : List A → ℕ → A → List A
  set [] i v = []
  set (x ∷ xs) zero v = v ∷ xs
  set (x ∷ xs) (suc i) v = x ∷ set xs i v

  pub All-get_elem? {κ} :
      (P : A → Type κ) (xs : List A) (i : ℕ) (x : A) → All P xs → get_elem? xs i ≡ some x → P x
  All-get_elem? P [] i x h e = cc
  All-get_elem? P (y ∷ ys) zero x h e = let same : y ≡ x = cc in subst P same h.0
  All-get_elem? P (y ∷ ys) (suc i) x h e = All-get_elem? P ys i x h.1 e

  pub All-set {κ} :
      (P : A → Type κ) (xs : List A) (i : ℕ) (x : A) → All P xs → P x → All P (set xs i x)
  All-set P [] i x h hx = h
  All-set P (y ∷ ys) zero x h hx = (hx, h.1)
  All-set P (y ∷ ys) (suc i) x h hx = (h.0, All-set P ys i x h.1 hx)

  pub get_elem?-some : (xs : List A) (i : ℕ) → i < length xs → (x : A) × (get_elem? xs i ≡ some x)
  get_elem?-some [] i h = absurd (omega arith)
  get_elem?-some (x ∷ xs) zero h = (x, refl)
  get_elem?-some (x ∷ xs) (suc i) h = get_elem?-some xs i (omega arith)

  pub length-set : (xs : List A) (i : ℕ) (x : A) → length (set xs i x) ≡ length xs
  length-set [] i x = refl
  length-set (y ∷ ys) zero x = refl
  length-set (y ∷ ys) (suc i) x = ap suc (length-set ys i x)

  -- Where an element comes from after a place was set.
  pub get_elem?-set :
      (xs : List A) (i j : ℕ) (x y : A)
      → get_elem? (set xs i x) j ≡ some y
      → ((j ≡ i) × (x ≡ y)) ⊎ ((j ≢ i) × (get_elem? xs j ≡ some y))
  get_elem?-set [] i j x y h = cc
  get_elem?-set (z ∷ zs) zero zero x y h = let same : x ≡ y = cc in inl (refl, same)
  get_elem?-set (z ∷ zs) zero (suc j) x y h = inr (λ e. omega (arith, e), h)
  get_elem?-set (z ∷ zs) (suc i) zero x y h = inr (λ e. omega (arith, e), h)
  get_elem?-set (z ∷ zs) (suc i) (suc j) x y h = elim (get_elem?-set zs i j x y h) [
    | inl (e, f) ↦ inl (omega (arith, e), f)
    | inr (n, f) ↦ inr (λ e. n (omega (arith, e)), f)
  ]

  -- A place that was set, where there was an element, and the other places.
  pub get_elem?-set_at :
      (xs : List A) (i j : ℕ) (x y : A)
      → get_elem? xs i ≡ some y
      → get_elem? (set xs i x) j ≡ (if j == i then some x else get_elem? xs j)
  get_elem?-set_at [] i j x y h = cc
  get_elem?-set_at (z ∷ zs) zero zero x y h = refl
  get_elem?-set_at (z ∷ zs) zero (suc j) x y h = ground arith
  get_elem?-set_at (z ∷ zs) (suc i) zero x y h = ground arith
  get_elem?-set_at (z ∷ zs) (suc i) (suc j) x y h = ground (arith, get_elem?-set_at zs i j x y h)

  pub set_same : (xs : List A) (i : ℕ) (x : A) → get_elem? xs i ≡ some x → set xs i x ≡ xs
  set_same [] i x h = refl
  set_same (y ∷ ys) zero x h = let same : y ≡ x = cc in ap (λ z. z ∷ ys) (sym same)
  set_same (y ∷ ys) (suc i) x h = ap (◌∷◌ y) (set_same ys i x h)

-- How often a number is in a list.
abbrev pub count : ℕ → List ℕ → ℕ
count j [] = 0
count j (x ∷ xs) = let rest = count j xs in if x == j then suc rest else rest

pub count-append : (j : ℕ) (xs ys : List ℕ) → count j (xs ++ ys) ≡ count j xs + count j ys
count-append j [] ys = omega arith
count-append j (x ∷ xs) ys = ground (arith, count-append j xs ys)

-- Equality of byte strings, as `std::string_view` compares.
infix 50 ◌===◌
unfoldable pub ◌===◌ : List ℕ → List ℕ → Bool
[] === [] = true
[] === (y ∷ ys) = false
(x ∷ xs) === [] = false
(x ∷ xs) === (y ∷ ys) = x == y && xs === ys

pub ===→eq : (xs ys : List ℕ) → (xs === ys) ≡ true → xs ≡ ys
unfolding ◌===◌
===→eq [] [] h = refl
===→eq [] (y ∷ ys) h = cc
===→eq (x ∷ xs) [] h = cc
===→eq (x ∷ xs) (y ∷ ys) h = ground (arith, ===→eq xs ys)

pub ===_refl : (xs : List ℕ) → (xs === xs) ≡ true
unfolding ◌===◌
===_refl [] = refl
===_refl (x ∷ xs) = ground (arith, ===_refl xs)

pub ===_iff : (xs ys : List ℕ) → ((xs === ys) ≡ true) ↔ (xs ≡ ys)
===_iff xs ys = (===→eq xs ys, λ e. rw (← e) (===_refl xs))
