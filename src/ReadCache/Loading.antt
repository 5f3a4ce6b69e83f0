-- ===== src/ReadCache/Loading.antt =====
-- The context while the blocks of an entry are read.
use pedrodb.Base.{
  ℕ, ◌+◌, ◌-◌, ◌*◌, ◌%◌, ◌^◌, ◌<◌, ◌≤◌, ◌≡◌, refl, sym, ap, ◌∙◌, arith, List, ◌++◌, length, take,
  drop, min, max, none, ◌==◌, ==_iff, Bool-cases, inl, inr, ◌⊎◌,
}
use mathlib.Core.Path.{ap₂}
use pedrodb.Base.Bytes.{Memory, read_bytes, length-read_bytes, read_bytes-add}
use pedrodb.File.{max_file_bytes}
use pedrodb.ReadCache.{block_size, Context, offset_of, size, slice, add_slice, view}
use pedrodb.ReadCache.Blocks.{offset_of-index, read_bytes_at, substr-read_bytes}

module _ (bytes : Memory) (id b e : ℕ) (nonempty : b < e) (inside : e ≤ max_file_bytes)
    (small : id < 2 ^ 32) where
  -- The part of a block that is in the range.
  pub part : ℕ → List ℕ
  part q = read_bytes bytes (max (q * 2 ^ 12) b) (min ((q + 1) * 2 ^ 12) e - max (q * 2 ^ 12) b)

  pub slice_lem :
      (q : ℕ) (c : Context)
      → c.begin ≡ b
      → c.end ≡ e
      → q * 2 ^ 12 < e
      → b < (q + 1) * 2 ^ 12
      → slice (id * 2 ^ 20 + q) c (read_bytes bytes (q * 2 ^ 12) block_size) ≡ part q
  unfolding slice part
  slice_lem q c hb he lo hi =
      let here : offset_of (id * 2 ^ 20 + q) ≡ q * 2 ^ 12 =
        offset_of-index id q small (omega arith) in
      let next : offset_of (id * 2 ^ 20 + q + 1) ≡ (q + 1) * 2 ^ 12 =
        ap offset_of (omega arith) ∙ offset_of-index id (q + 1) small (omega arith) in
      let n_is : (min ((q + 1) * 2 ^ 12) e + 2 ^ 32 - max (q * 2 ^ 12) b) % 2 ^ 32
          ≡ min ((q + 1) * 2 ^ 12) e - max (q * 2 ^ 12) b =
        omega arith in
      let left_is : (max (q * 2 ^ 12) b + 2 ^ 32 - q * 2 ^ 12) % 2 ^ 32
          ≡ max (q * 2 ^ 12) b - q * 2 ^ 12 =
        omega arith in
      rw (here, next, hb, he)
        (ap₂ (λ k left. take k (drop left (read_bytes bytes (q * 2 ^ 12) block_size))) n_is left_is
          ∙ substr-read_bytes bytes (q * 2 ^ 12) block_size _ _ (omega arith)
          ∙ read_bytes_at bytes (omega arith) refl)

  pub size_lem : (c : Context) → c.begin ≡ b → c.end ≡ e → size c ≡ e - b
  unfolding size
  size_lem c hb he = omega (arith, hb, he)

  length-part : (q : ℕ) → length (part q) ≡ min ((q + 1) * 2 ^ 12) e - max (q * 2 ^ 12) b
  unfolding part
  length-part q = length-read_bytes bytes _ _

  -- The context when the blocks before `q` were read and the entry goes on.
  pub record IsLoading (q : ℕ) (c : Context) : Type 0 where
    pub begin_is : c.begin ≡ b
    pub end_is : c.end ≡ e
    pub no_ref : c.block_ref ≡ none
    pub loaded : c.buffer ≡ read_bytes bytes b (min (q * 2 ^ 12) e - b)

  -- The context when all was read.
  pub record IsLoaded (c : Context) : Type 0 where
    pub end_is : c.end ≡ e
    pub loaded : view c.block_ref c.buffer ≡ read_bytes bytes b (e - b)

  pub IsLoading-done : (q : ℕ) (c : Context) → IsLoading q c → e ≤ q * 2 ^ 12 → IsLoaded c
  IsLoading-done q c l h = record {
    end_is = l.end_is;
    loaded = rw l.no_ref (l.loaded ∙ read_bytes_at bytes refl (omega arith));
  }

  extended :
      (q : ℕ) (c : Context)
      → IsLoading q c
      → q * 2 ^ 12 < e
      → b < (q + 1) * 2 ^ 12
      → c.buffer ++ part q ≡ read_bytes bytes b (min ((q + 1) * 2 ^ 12) e - b)
  unfolding part
  extended q c l lo hi =
      let before : ℕ = min (q * 2 ^ 12) e - b in
      let more : ℕ = min ((q + 1) * 2 ^ 12) e - max (q * 2 ^ 12) b in
      ap₂ ◌++◌ l.loaded (read_bytes_at bytes {n = more} (omega arith) refl)
      ∙ sym (read_bytes-add bytes b before more)
      ∙ read_bytes_at bytes refl (omega arith)

  -- The next block goes on with it, or holds the whole entry.
  pub add_part :
      (q : ℕ) (c : Context)
      → IsLoading q c
      → q * 2 ^ 12 < e
      → b < (q + 1) * 2 ^ 12
      → IsLoading (q + 1) (add_slice (part q) c)
        ⊎ (IsLoaded (add_slice (part q) c) × (e ≤ (q + 1) * 2 ^ 12))
  unfolding add_slice
  add_part q c l lo hi = elim (Bool-cases (length (part q) == size c)) [
    | inl whole ↦
        let all : min ((q + 1) * 2 ^ 12) e - max (q * 2 ^ 12) b ≡ e - b =
          sym (length-part q) ∙ (==_iff _ _).0 whole ∙ size_lem c l.begin_is l.end_is in
        inr (
          record {
            end_is = rw whole l.end_is;
            loaded = rw whole (unfold part in read_bytes_at bytes (omega arith) all);
          },
          omega arith,
        )
    | inr goes_on ↦ inl (record {
      begin_is = rw goes_on l.begin_is;
      end_is = rw goes_on l.end_is;
      no_ref = rw goes_on l.no_ref;
      loaded = rw goes_on (extended q c l lo hi);
    })
  ]
