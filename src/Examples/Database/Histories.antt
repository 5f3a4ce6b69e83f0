-- ===== src/Examples/Database/Histories.antt =====
-- A history of a database: a lookup of a key that is not there, then an update.
use pedrodb.Base.{◌≡◌, refl, arith, [], ◌∷◌, none, true, inl, inr}
use pedrodb.Platform.BigEndian.{big_endian}
use pedrodb.Buffer.{array_buffer}
use pedrodb.Format.Record.{size_of}
use pedrodb.File.{no_faults}
use pedrodb.FileManager.{Run, done}
use pedrodb.Index.Sample.{function_map}
use pedrodb.Status.{Status, ok, not_found}
use pedrodb.Db.{Db}
use pedrodb.Db.Put.{handle_put, put_entry}
use pedrodb.Db.Put.Refines.{accepted, refused, failed, put_refines}
use pedrodb.Db.Get.{handle_get}
use pedrodb.Db.View.{Contents}
use pedrodb.Db.History.{
  put, get, History, start, put_step, get_step, IsServed, IsSound, history-IsServed,
}
use pedrodb.Examples.{a_key, a_value}
use pedrodb.Examples.Database.{empty_db, nothing, empty-Shows, empty-IsReady}

abbrev pub db_of : Run (Status × Db) → Db
db_of (done (status, db)) = db
db_of other = empty_db

abbrev pub filled_db : Db
filled_db = db_of (handle_put no_faults a_key a_value empty_db)

pub put_went : handle_put no_faults a_key a_value empty_db ≡ done (ok, filled_db)
put_went =
    elim (put_refines no_faults a_key a_value empty_db nothing empty-Shows empty-IsReady
      (omega arith) (omega arith) (omega arith)) [
        | accepted db' is shows ready ↦ rw is refl
        | refused is (inl locked) ↦ cc
        | refused is (inr long) ↦ unfold size_of put_entry in ground arith
        | failed status db' is bad broken shows ↦ cc
      ]

pub get_went :
    handle_get no_faults true (array_buffer []) a_key empty_db ≡ done (not_found, none, empty_db)
unfolding handle_get
get_went = refl

a_history : History empty_db (get a_key not_found none ∷ (put a_key a_value ok ∷ [])) filled_db
a_history =
    get_step no_faults true (array_buffer []) a_key refl (omega arith) (λ dir h d. cc) get_went
      (put_step no_faults a_key a_value refl (omega arith, omega arith, omega arith) put_went start)

history-IsServed_example :
    (s' : Contents) × IsServed nothing (get a_key not_found none ∷ (put a_key a_value ok ∷ [])) s'
    × IsSound filled_db s'
history-IsServed_example =
    history-IsServed nothing (record { shows = empty-Shows; ready = empty-IsReady }) a_history
