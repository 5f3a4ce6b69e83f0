-- ===== src/Format/Record/Location.antt =====
-- `record::Location` and `record::Dir`: where an entry stands, and the order of locations.
use pedrodb.Base.{
  ℕ, ◌+◌, ◌*◌, ◌^◌, ◌<◌, ◌≡◌, ◌≢◌, ◌↔◌, ◌||◌, ◌&&◌, not, arith, Bool, true, false, ltb, ◌==◌,
  if◌then◌else◌,
}

pub record Location : Type 0 where
  pub id : ℕ
  pub offset : ℕ

pub record Dir : Type 0 where
  pub entry_size : ℕ
  pub loc : Location

-- `operator<`
unfoldable pub lt : Location → Location → Bool
lt a b = if not (a.id == b.id) then ltb a.id b.id else ltb a.offset b.offset

-- `operator>`
unfoldable pub gt : Location → Location → Bool
gt a b = if not (a.id == b.id) then ltb b.id a.id else ltb b.offset a.offset

-- `operator==`
unfoldable pub eq : Location → Location → Bool
eq a b = a.id == b.id && a.offset == b.offset

-- `operator!=`
unfoldable pub ne : Location → Location → Bool
ne a b = not (a.id == b.id) || not (a.offset == b.offset)

-- The place of a location in the sequence of all bytes of all files, `offset` being a `uint32_t`.
abbrev pub rank : Location → ℕ
rank l = l.id * 2 ^ 32 + l.offset

-- The four comparisons are those of the ranks, where the offsets fit a `uint32_t`; so locations
-- are ordered linearly, and `==` holds of equal locations only.
pub compare-rank :
    (a b : Location)
    → a.offset < 2 ^ 32
    → b.offset < 2 ^ 32
    → ((lt a b ≡ true) ↔ (rank a < rank b))
      × ((gt a b ≡ true) ↔ (rank b < rank a))
      × ((eq a b ≡ true) ↔ (a ≡ b))
      × ((ne a b ≡ true) ↔ (rank a ≢ rank b))
      × ((rank a ≡ rank b) ↔ (a ≡ b))
unfolding lt gt eq ne
compare-rank a b ha hb = ground arith

pub eq→≡ : (a b : Location) → eq a b ≡ true → a ≡ b
unfolding eq
eq→≡ a b h = ground arith

pub ne→≡ : (a b : Location) → ne a b ≡ false → a ≡ b
unfolding ne
ne→≡ a b h = ground arith
