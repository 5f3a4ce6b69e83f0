-- ===== src/Db/Put/Storable.antt =====
-- The entry that `HandlePut` makes.
use pedrodb.Base.{
  ℕ, ◌+◌, ◌^◌, ◌<◌, ◌≡◌, arith, List, Bool, true, false, length, if◌then◌else◌, ==_refl,
}
use pedrodb.Platform.{Platform}
use pedrodb.Format.Record.{set, delete, header_size, checksum, validate}
use pedrodb.Format.Record.RoundTrip.{IsStorable, IsWritten}
use pedrodb.Db.{Options}
use pedrodb.Db.View.{is_empty, compressed}
use pedrodb.Db.Put.{put_entry}

written_type : (b : Bool) → IsWritten (if b then delete else set)
written_type true = tt
written_type false = tt

module _ ⦃p : Platform⦄ where
  pub put_entry-IsStorable :
      (o : Options) (key value : List ℕ)
      → length key < 2 ^ 8
      → header_size + length key + length (compressed o value) < 2 ^ 32
      → IsStorable (put_entry o key value)
  unfolding put_entry checksum
  put_entry-IsStorable o key value small fits = record {
    written = written_type (is_empty value);
    key_fits = small;
    size_fits = fits;
    checksum_fits = omega arith;
    timestamp_fits = omega arith;
  }

  pub put_entry-valid : (o : Options) (key value : List ℕ) → validate (put_entry o key value) ≡ true
  unfolding put_entry validate
  put_entry-valid o key value = ==_refl _
