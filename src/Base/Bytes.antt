-- ===== src/Base/Bytes.antt =====
-- Memory as a function from an index to a byte, and `memcpy` out of it and into it. The mapped
-- files and the buffers of the program stand on this.
use Prim.Native.Nat.{ℕ, zero, suc, ◌+◌, ◌≤◌}
use mathlib.Core.Path.{◌≡◌, refl, ap, ap₂, ◌∙◌, fun_ext}
use mathlib.Core.List.{List, [], ◌∷◌, ◌++◌}
use native.Mathlib.Omega.{arith}
use pedrodb.Base.Tests.{◌==◌, if◌then◌else◌}
use pedrodb.Base.Lists.{length}

abbrev pub Memory : Type 0
Memory = ℕ → ℕ

-- The `n` bytes from `offset` on.
unfoldable pub read_bytes : Memory → ℕ → ℕ → List ℕ
read_bytes m offset zero = []
read_bytes m offset (suc n) = m offset ∷ read_bytes m (offset + 1) n

-- The memory after the bytes were copied to `offset`.
unfoldable pub write_bytes : Memory → ℕ → List ℕ → Memory
write_bytes m offset [] = m
write_bytes m offset (b ∷ bs) = λ i. if i == offset then b else write_bytes m (offset + 1) bs i

-- A list of bytes laid out from index 0 on, with 0 behind it.
unfoldable pub of_list : List ℕ → Memory
of_list [] i = 0
of_list (b ∷ bs) zero = b
of_list (b ∷ bs) (suc i) = of_list bs i

pub length-read_bytes : (m : Memory) (offset n : ℕ) → length (read_bytes m offset n) ≡ n
unfolding read_bytes
length-read_bytes m offset zero = refl
length-read_bytes m offset (suc n) = omega (arith, length-read_bytes m (offset + 1) n)

shift : (a b : ℕ) → a + suc b ≡ a + 1 + b
shift a b = omega arith

add-zero : (a : ℕ) → a + 0 ≡ a
add-zero a = omega arith

zero_add : (a : ℕ) → 0 + a ≡ a
zero_add a = omega arith

suc_add : (a b : ℕ) → suc a + b ≡ suc (a + b)
suc_add a b = omega arith

add_suc : (a : ℕ) → suc a + 1 ≡ suc (a + 1)
add_suc a = omega arith

pub read_bytes-add :
    (m : Memory) (offset n k : ℕ)
    → read_bytes m offset (n + k) ≡ read_bytes m offset n ++ read_bytes m (offset + n) k
unfolding read_bytes
read_bytes-add m offset zero k = rw (zero_add k, add-zero offset)
read_bytes-add m offset (suc n) k =
    rw (suc_add n k, shift offset n) (ap (◌∷◌ (m offset)) (read_bytes-add m (offset + 1) n k))

pub write_bytes_before :
    (m : Memory) (offset i : ℕ) (bs : List ℕ) → suc i ≤ offset → write_bytes m offset bs i ≡ m i
unfolding write_bytes
write_bytes_before m offset i [] h = refl
write_bytes_before m offset i (b ∷ bs) h = ground (arith, write_bytes_before m (offset + 1) i bs)

pub write_bytes_after :
    (m : Memory) (offset i : ℕ) (bs : List ℕ)
    → offset + length bs ≤ i
    → write_bytes m offset bs i ≡ m i
unfolding write_bytes
write_bytes_after m offset i [] h = refl
write_bytes_after m offset i (b ∷ bs) h = ground (arith, write_bytes_after m (offset + 1) i bs)

-- A read depends only on the bytes in its range.
pub read_bytes_ext :
    (m m' : Memory) (offset n : ℕ)
    → ((i : ℕ) → offset ≤ i → suc i ≤ offset + n → m i ≡ m' i)
    → read_bytes m offset n ≡ read_bytes m' offset n
unfolding read_bytes
read_bytes_ext m m' offset zero h = refl
read_bytes_ext m m' offset (suc n) h =
    ap₂ ◌∷◌ (h offset (omega arith) (omega arith))
      (read_bytes_ext m m' (offset + 1) n (λ i lo hi. h i (omega arith) (omega arith)))

-- The bytes stand in the memory from `offset` on.
abbrev pub Holds : Memory → ℕ → List ℕ → Type 0
Holds m offset [] = Unit
Holds m offset (b ∷ bs) = (m offset ≡ b) × Holds m (offset + 1) bs

pub Holds-read :
    (m : Memory) (offset : ℕ) (bs : List ℕ)
    → Holds m offset bs
    → read_bytes m offset (length bs) ≡ bs
unfolding read_bytes
Holds-read m offset [] h = refl
Holds-read m offset (b ∷ bs) (e, h) = ap₂ ◌∷◌ e (Holds-read m (offset + 1) bs h)

pub Holds-at :
    (m : Memory) (offset n : ℕ) (bs : List ℕ)
    → Holds m offset bs
    → length bs ≡ n
    → read_bytes m offset n ≡ bs
Holds-at m offset n bs h e = rw (← e) (Holds-read m offset bs h)

-- Any memory holds what is read of it.
pub Holds-read_bytes : (m : Memory) (offset n : ℕ) → Holds m offset (read_bytes m offset n)
unfolding read_bytes
Holds-read_bytes m offset zero = tt
Holds-read_bytes m offset (suc n) = (refl, Holds-read_bytes m (offset + 1) n)

pub Holds-append :
    (m : Memory) (offset : ℕ) (xs ys : List ℕ)
    → Holds m offset xs
    → Holds m (offset + length xs) ys
    → Holds m offset (xs ++ ys)
Holds-append m offset [] ys hx hy = rw (add-zero offset) at hy
Holds-append m offset (x ∷ xs) ys (e, hx) hy =
    (e, Holds-append m (offset + 1) xs ys hx (rw (shift offset (length xs)) at hy))

pub Holds-append_left :
    (m : Memory) (offset : ℕ) (xs ys : List ℕ) → Holds m offset (xs ++ ys) → Holds m offset xs
Holds-append_left m offset [] ys h = tt
Holds-append_left m offset (x ∷ xs) ys (e, h) = (e, Holds-append_left m (offset + 1) xs ys h)

pub Holds-append_right :
    (m : Memory) (offset : ℕ) (xs ys : List ℕ)
    → Holds m offset (xs ++ ys)
    → Holds m (offset + length xs) ys
Holds-append_right m offset [] ys h = rw (add-zero offset) h
Holds-append_right m offset (x ∷ xs) ys (e, h) =
    rw (shift offset (length xs)) (Holds-append_right m (offset + 1) xs ys h)

pub Holds-ext :
    (m m' : Memory) (offset : ℕ) (bs : List ℕ)
    → ((i : ℕ) → offset ≤ i → suc i ≤ offset + length bs → m i ≡ m' i)
    → Holds m' offset bs
    → Holds m offset bs
Holds-ext m m' offset [] same h = tt
Holds-ext m m' offset (b ∷ bs) same (e, h) = (
  same offset (omega arith) (omega arith) ∙ e,
  Holds-ext m m' (offset + 1) bs (λ i lo hi. same i (omega arith) (omega arith)) h,
)

-- A write leaves what stands before it.
pub Holds-write_before :
    (m : Memory) (offset at : ℕ) (bs new : List ℕ)
    → offset + length bs ≤ at
    → Holds m offset bs
    → Holds (write_bytes m at new) offset bs
Holds-write_before m offset at bs new h =
    Holds-ext (write_bytes m at new) m offset bs
      (λ i lo hi. write_bytes_before m at i new (omega arith))

-- A write leaves what stands behind it.
pub Holds-write_after :
    (m : Memory) (offset at : ℕ) (bs new : List ℕ)
    → at + length new ≤ offset
    → Holds m offset bs
    → Holds (write_bytes m at new) offset bs
Holds-write_after m offset at bs new h =
    Holds-ext (write_bytes m at new) m offset bs
      (λ i lo hi. write_bytes_after m at i new (omega arith))

-- What was written stands where it was written.
pub Holds-write_self : (m : Memory) (at : ℕ) (bs : List ℕ) → Holds (write_bytes m at bs) at bs
Holds-write_self m at [] = tt
Holds-write_self m at (b ∷ bs) = (
  unfold write_bytes in ground arith,
  Holds-ext (write_bytes m at (b ∷ bs)) (write_bytes m (at + 1) bs) (at + 1) bs
      (λ i lo hi. unfold write_bytes in ground arith) (Holds-write_self m (at + 1) bs),
)

of_list_shift :
    (b : ℕ) (bs cs : List ℕ) (offset : ℕ)
    → Holds (of_list bs) offset cs
    → Holds (of_list (b ∷ bs)) (suc offset) cs
unfolding of_list
of_list_shift b bs [] offset h = tt
of_list_shift b bs (c ∷ cs) offset (e, h) = (e, rw add_suc (of_list_shift b bs cs (offset + 1) h))

pub Holds-of_list : (bs : List ℕ) → Holds (of_list bs) 0 bs
Holds-of_list [] = tt
Holds-of_list (b ∷ bs) = (unfold of_list in refl, of_list_shift b bs bs 0 (Holds-of_list bs))

write_bytes_hit :
    (f : Memory) (at x offset i : ℕ) (ys : List ℕ)
    → suc at ≤ offset
    → write_bytes (λ j. if j == at then x else f j) offset ys i
      ≡ (if i == at then x else write_bytes f offset ys i)
unfolding write_bytes
write_bytes_hit f at x offset i [] h = refl
write_bytes_hit f at x offset i (y ∷ ys) h =
    ground (arith, write_bytes_hit f at x (offset + 1) i ys)

write_bytes_at :
    (m : Memory) (at i : ℕ) (xs ys : List ℕ)
    → write_bytes (write_bytes m at xs) (at + length xs) ys i ≡ write_bytes m at (xs ++ ys) i
unfolding write_bytes
write_bytes_at m at i [] ys = rw (add-zero at)
write_bytes_at m at i (x ∷ xs) ys = rw (shift at (length xs)) (
    ground (
      arith,
      write_bytes_hit (write_bytes m (at + 1) xs) at x (at + 1 + length xs) i ys,
      write_bytes_at m (at + 1) i xs ys,
    ))

-- Two copies, the second behind the first, are one copy.
pub write_bytes-append :
    (m : Memory) (at : ℕ) (xs ys : List ℕ)
    → write_bytes (write_bytes m at xs) (at + length xs) ys ≡ write_bytes m at (xs ++ ys)
write_bytes-append m at xs ys = fun_ext λ i. write_bytes_at m at i xs ys
