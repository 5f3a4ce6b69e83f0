-- ===== src/ReadCache/Blocks.antt =====
-- The numbers of blocks, and their ranges.
use pedrodb.Base.{
  ℕ, zero, suc, ◌+◌, ◌-◌, ◌*◌, ◌/◌, ◌^◌, ◌<◌, ◌≤◌, ◌≡◌, refl, ap, ◌∙◌, arith, [], ◌∷◌, take, drop,
}
use mathlib.Core.Path.{ap₂}
use pedrodb.Base.Bytes.{Memory, read_bytes}
use pedrodb.ReadCache.{offset_of, file_of, index_of}

module _ (f q : ℕ) (small : f < 2 ^ 32) (inside : q < 2 ^ 20) where
  pub offset_of-index : offset_of (f * 2 ^ 20 + q) ≡ q * 2 ^ 12
  unfolding offset_of
  offset_of-index = omega arith

  pub file_of-index : file_of (f * 2 ^ 20 + q) ≡ f
  unfolding file_of
  file_of-index = omega arith

-- The number of a block leads to the file and the offset that it is in.
pub index_of_lem :
    (f o : ℕ)
    → f < 2 ^ 32
    → o < 2 ^ 32
    → (file_of (index_of f o) ≡ f)
      × (offset_of (index_of f o) ≤ o)
      × (o < offset_of (index_of f o) + 2 ^ 12)
      × (index_of f o ≡ f * 2 ^ 20 + o / 2 ^ 12)
unfolding file_of offset_of index_of
index_of_lem f o hf ho = omega arith

pub read_bytes_at :
    (m : Memory) {o o' n n' : ℕ} → o ≡ o' → n ≡ n' → read_bytes m o n ≡ read_bytes m o' n'
read_bytes_at m e f = ap₂ (read_bytes m) e f

pub read_bytes_none : (m : Memory) (o n : ℕ) → n ≡ 0 → [] ≡ read_bytes m o n
unfolding read_bytes
read_bytes_none m o n h = rw h refl

pub take-read_bytes :
    (m : Memory) (offset n k : ℕ) → k ≤ n → take k (read_bytes m offset n) ≡ read_bytes m offset k
unfolding read_bytes
take-read_bytes m offset n zero h = refl
take-read_bytes m offset zero (suc k) h = absurd (omega arith)
take-read_bytes m offset (suc n) (suc k) h =
    ap (◌∷◌ (m offset)) (take-read_bytes m (offset + 1) n k (omega arith))

pub drop-read_bytes :
    (m : Memory) (offset n k : ℕ)
    → k ≤ n
    → drop k (read_bytes m offset n) ≡ read_bytes m (offset + k) (n - k)
unfolding read_bytes
drop-read_bytes m offset n zero h = read_bytes_at m (omega arith) (omega arith)
drop-read_bytes m offset zero (suc k) h = absurd (omega arith)
drop-read_bytes m offset (suc n) (suc k) h =
    drop-read_bytes m (offset + 1) n k (omega arith) ∙ read_bytes_at m (omega arith) (omega arith)

-- A part of a block.
pub substr-read_bytes :
    (m : Memory) (offset n left k : ℕ)
    → left + k ≤ n
    → take k (drop left (read_bytes m offset n)) ≡ read_bytes m (offset + left) k
substr-read_bytes m offset n left k h =
    ap (take k) (drop-read_bytes m offset n left (omega arith))
    ∙ take-read_bytes m (offset + left) (n - left) k (omega arith)
