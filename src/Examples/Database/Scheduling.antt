-- ===== src/Examples/Database/Scheduling.antt =====
-- A file is queued, handed over, and compacted.
use pedrodb.Base.{◌+◌, ◌≤◌, refl, arith, count}
use pedrodb.Platform.BigEndian.{big_endian}
use pedrodb.Format.Record.Location.{Location}
use pedrodb.Index.Sample.{function_map}
use pedrodb.Db.{update_unused, poll_compact_task}
use pedrodb.Db.Schedule.{Scheduler, IsIdle, Reaches, unused, poll, begin, here, step, more, less}
use pedrodb.Db.Compact.{begin_compact}
use pedrodb.Db.Schedule.Exclusive.{reaches_once}
use pedrodb.Db.Schedule.Handover.{IsHandedOver, update_unused-poll_compact_task}
use pedrodb.Examples.Database.{empty_db}

abbrev a_loc : Location
a_loc = record { id = 0; offset = 0 }

abbrev idle : Scheduler
idle = record { db = empty_db; waiting = λ j. 0; running = λ j. 0 }

idle-IsIdle : IsIdle idle
idle-IsIdle = (refl, λ j. (refl, refl, refl))

abbrev polled : Scheduler
polled = record {
  db = (poll_compact_task (update_unused a_loc 5000 empty_db)).1;
  waiting = λ j. 0 + count j (poll_compact_task (update_unused a_loc 5000 empty_db)).0;
  running = λ j. 0;
}

abbrev begun : Scheduler
begun = record {
  db = begin_compact 0 polled.db;
  waiting = less 0 polled.waiting;
  running = more 0 polled.running;
}

to_begun : Reaches idle begun
unfolding update_unused poll_compact_task
to_begun = step (unused a_loc 5000) (step poll (step (begin 0 (omega arith)) here))

reaches_once_example : count 0 begun.db.compact_tasks + begun.waiting 0 + begun.running 0 ≤ 1
reaches_once_example = reaches_once idle-IsIdle to_begun 0

update_unused-poll_compact_task_example :
    IsHandedOver 0
      (poll_compact_task (update_unused a_loc 5000 empty_db)).0
      (poll_compact_task (update_unused a_loc 5000 empty_db)).1
update_unused-poll_compact_task_example =
    update_unused-poll_compact_task idle a_loc 5000 (λ j. (refl, refl, refl)) refl (omega arith)
