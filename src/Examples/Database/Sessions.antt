-- ===== src/Examples/Database/Sessions.antt =====
-- A database that is opened, an update, and a new process that finds it.
use mathlib.Core.Path.{subst, subst₂}
use pedrodb.Base.{
  zero, suc, get_elem?, fun_ext, ℕ, ◌<◌, ◌^◌, length, ◌≡◌, refl, ap, sym, ◌∙◌, arith, [], ◌∷◌, none,
  some, inl, inr,
}
use pedrodb.Base.Ids.{insert}
use pedrodb.Platform.BigEndian.{big_endian}
use pedrodb.Buffer.{ReadableBuffer, array_buffer}
use pedrodb.Format.Record.{size_of}
use pedrodb.Format.Metadata.{LogType}
use pedrodb.File.{no_faults, allocate, max_file_bytes}
use pedrodb.FileManager.{append}
use pedrodb.FileManager.Durable.{IsDurable}
use pedrodb.Index.Sample.{function_map}
use pedrodb.Metadata.{path_accepted, name_of, apply}
use pedrodb.Metadata.Replay.{log_bytes, apply_all}
use pedrodb.Status.{ok}
use pedrodb.Db.Put.{handle_put, put_entry, put_index}
use pedrodb.Db.Put.Recoverable.{put-IsRecoverable}
use pedrodb.Db.Put.Refines.{accepted, refused, failed, put_refines}
use pedrodb.Db.{Db}
use pedrodb.Db.View.{Contents, updated, Shows, IsReady}
use pedrodb.Db.History.{put, IsServed, IsSound}
use pedrodb.Db.History.Session.{
  HasRoom, Session, start, put_step, restart_step, IsSafe, session-IsServed,
}
use pedrodb.Db.Open.Fresh.{fresh_db}
use pedrodb.Db.Open.Fresh.Safe.{fresh_db-IsStarted}
use pedrodb.Db.Recovery.Entries.{latest}
use pedrodb.Db.Recovery.IndexFile.{index_entries}
use pedrodb.Db.Recovery.Replay.{replayed}
use pedrodb.Db.Restart.{IsRecoverable, IsStarted, restarted}
use pedrodb.Db.Restart.Init.{restarted-IsStarted}
use pedrodb.SegmentDb.{SegmentDb}
use pedrodb.SegmentDb.Refines.{part, IsServing}
use pedrodb.SegmentDb.Open.Restart.{IsReopened, segment_open-IsReopened}
use pedrodb.Examples.{a_key, a_value, a_path, no_file, empty-IsConsistent}
use pedrodb.Examples.Database.{empty_db, nothing, options, empty-Shows, empty-IsReady}
use pedrodb.Examples.Database.Histories.{filled_db, put_went}

filled_file :
    filled_db.files.active_data_file
    ≡ some (record { file = 1; length = max_file_bytes; write_index = 19 })
unfolding handle_put append allocate put_index put_entry size_of
filled_file = refl

filled-HasRoom : HasRoom filled_db
filled-HasRoom f is = let both = sym filled_file ∙ is in ground arith

empty-IsDurable : (d : IsDurable empty_db.files) × (d.log ≡ λ i. [])
unfolding empty-IsConsistent log_bytes apply_all apply insert
empty-IsDurable = (
  record {
    log = λ i. [];
    front = [];
    logged = record {
      entries = record { log_type = LogType.create_file; id = 1 } ∷ [];
      storable = (record { written = tt; id_fits = omega arith }, tt);
      name_fits = omega arith;
      log_is = refl;
      files_are = refl;
      ascending = (tt, tt);
    };
    files_are = refl;
    older = tt;
    consistent = empty-IsConsistent;
    entries_are = refl;
    ends = omega arith;
    indexes = λ i is. cc;
    unindexed = λ i h. refl;
    pending = tt;
  },
  refl,
)

empty-IsRecoverable : IsRecoverable empty_db
unfolding replayed index_entries latest
empty-IsRecoverable =
    let (d, log) = empty-IsDurable in
    record { durable = d; index = λ j. ap (λ l. replayed l (1 ∷ []) j none) (sym log) }

abbrev one_value : Contents
one_value = updated nothing a_key a_value

filled-IsRecoverable : IsRecoverable filled_db
filled-IsRecoverable =
    put-IsRecoverable no_faults a_key a_value empty_db filled_db ok empty-IsRecoverable
      empty-IsReady refl (omega arith) (omega arith) (omega arith) put_went filled-HasRoom

filled-IsSound : IsSound filled_db one_value
filled-IsSound =
    elim (put_refines no_faults a_key a_value empty_db nothing empty-Shows empty-IsReady
      (omega arith) (omega arith) (omega arith)) [
        | accepted db' is shows ready ↦ rw is (record { shows = shows; ready = ready })
        | refused is (inl locked) ↦ cc
        | refused is (inr long) ↦ unfold size_of put_entry in ground arith
        | failed status db' is bad broken shows ↦ cc
      ]

abbrev buffers : ℕ → ReadableBuffer
buffers = λ i. array_buffer []

started_again : IsStarted no_faults buffers (restarted a_path 1 8192 2 filled_db) one_value
started_again =
    restarted-IsStarted no_faults refl buffers a_path 1 8192 2 filled_db filled-IsRecoverable
      one_value (unfold path_accepted in refl) (omega arith) filled-IsSound.shows
      filled-IsSound.ready

restarted-IsStarted_example :
    IsStarted no_faults buffers (restarted a_path 1 8192 2 filled_db) one_value
restarted-IsStarted_example =
    restarted-IsStarted no_faults refl buffers a_path 1 8192 2 filled_db filled-IsRecoverable
      one_value (unfold path_accepted in refl) (omega arith) filled-IsSound.shows
      filled-IsSound.ready

put-IsRecoverable_example : IsRecoverable filled_db
put-IsRecoverable_example =
    put-IsRecoverable no_faults a_key a_value empty_db filled_db ok empty-IsRecoverable
      empty-IsReady refl (omega arith) (omega arith) (omega arith) put_went filled-HasRoom

-- An update, and then a new process.
a_session : Session empty_db (put a_key a_value ok ∷ []) started_again.db
a_session =
    put_step no_faults a_key a_value refl (omega arith, omega arith, omega arith) put_went
      filled-HasRoom
      (restart_step no_faults buffers a_path 1 8192 2 refl (unfold path_accepted in refl)
        (omega arith) started_again.went start)

session-IsServed_example :
    (s' : Contents) × IsServed nothing (put a_key a_value ok ∷ []) s' × IsSafe started_again.db s'
session-IsServed_example =
    session-IsServed nothing
      (record {
        sound = record { shows = empty-Shows; ready = empty-IsReady };
        recoverable = empty-IsRecoverable;
      })
      a_session

short_name : length (name_of a_path) < 2 ^ 16
unfolding name_of
short_name = omega arith

fresh_db-IsStarted_example :
    IsStarted no_faults buffers
      (fresh_db no_faults buffers a_path options 1 8192 2 (λ i. no_file) (λ i. no_file))
      nothing
fresh_db-IsStarted_example =
    fresh_db-IsStarted no_faults refl buffers a_path options 1 8192 2 (λ i. no_file) (λ i. no_file)
      (λ i. refl) short_name (unfold path_accepted in refl) (λ i. refl) (omega arith)

-- A segmented database of one segment, with an entry.
abbrev one_segment : SegmentDb
one_segment = filled_db ∷ []

one_segment_lem : (i : ℕ) (db : Db) → get_elem? one_segment i ≡ some db → filled_db ≡ db
one_segment_lem zero db h = cc
one_segment_lem (suc i) db h = cc

part-one_value :
    (i : ℕ) (db : Db) → get_elem? one_segment i ≡ some db → one_value ≡ part 1 i one_value
part-one_value zero db h = fun_ext (λ k. ground arith)
part-one_value (suc i) db h = cc

one_segment-IsServing : IsServing one_segment one_value
one_segment-IsServing = record {
  some_segment = omega arith;
  shows =
      λ i db h. subst₂ Shows (one_segment_lem i db h) (part-one_value i db h) filled-IsSound.shows;
}

segment_open-IsReopened_example :
    IsReopened 1 8192 2 (λ i. no_faults) (λ i. buffers) (λ i. a_path) one_segment one_value
segment_open-IsReopened_example =
    segment_open-IsReopened 1 8192 2 (λ i. no_faults) (λ i. buffers) (λ i. a_path) one_segment
      one_value (λ i. refl) (λ i. unfold path_accepted in refl) (omega arith) one_segment-IsServing
      (λ i db h. subst IsReady (one_segment_lem i db h) filled-IsSound.ready)
      (λ i db h. subst IsRecoverable (one_segment_lem i db h) filled-IsRecoverable)
