-- ===== src/Tests/Apps.antt =====
-- Runs of the query monitor, the watcher and their setup.
use dbmysqlpool.Base.{
  ◌+◌, ◌≤◌, true, false, Bool-cases, List, [], ◌∷◌, ◌++◌, Option, none, some, Bytes, codes, ◌≡◌,
  refl, arith, pos, length, replicate, inl, inr,
}
use dbmysqlpool.Number.{atoi}
use dbmysqlpool.Mysql.{Mysql, Call, Trace, Row}
use dbmysqlpool.Connection.Link.{query}
use dbmysqlpool.Connection.Results.{query_rows, fetch_rows}
use dbmysqlpool.Monitor.{QueryTime, insert_times}
use dbmysqlpool.Monitor.Times.{longest, longer, insert_times-longest}
use dbmysqlpool.Monitor.Control.{
  Control, at_rest, Controls, ControlStep, start_query_thread, query_thread_begins,
  query_thread_ends, stop_query_thread, stop_waits, stop_waits-alone, stopped_after, threads_left,
}
use dbmysqlpool.Monitor.Order.{is_descending, is_once, insert_times-is_descending}
use dbmysqlpool.Setup.{new_monitor_setup, monitor_read, monitor_reread}
use dbmysqlpool.Setup.Values.{HasPositive, IsRead, monitor_read-IsRead}
use dbmysqlpool.Watcher.{SlaveStatus, new_status, status_text, check_slave, watch_seconds}
use dbmysqlpool.Watcher.Repairs.{Watched, Answers, asked_refused, check_slave-Watched}
use dbmysqlpool.Watcher.Timer.{watch_seconds-missed}
use dbmysqlpool.Tests.Samples.{server, connected}

abbrev slow : QueryTime
slow = record { sql = codes "b"; second = pos 5 }

abbrev slower : QueryTime
slower = record { sql = codes "b"; second = pos 9 }

abbrev other : QueryTime
other = record { sql = codes "c"; second = pos 7 }

insert_times-longest_example :
    (result : List QueryTime) × (insert_times (pos 5) (slower ∷ other ∷ []) (slow ∷ [])
      ≡ some result)
    × ((sql : Bytes)
        → longest sql result ≡ longer (longest sql (slower ∷ other ∷ [])) (longest sql (slow ∷ [])))
insert_times-longest_example =
    insert_times-longest 5 (slower ∷ other ∷ []) (slow ∷ []) (omega arith)

insert_times-is_descending_example :
    (result : List QueryTime) × (insert_times (pos 1) (slower ∷ other ∷ []) (slow ∷ [])
      ≡ some result)
    × (length result ≤ 1)
    × (is_descending result ≡ true)
    × (is_once result ≡ true)
insert_times-is_descending_example =
    insert_times-is_descending 1 (slower ∷ other ∷ []) (slow ∷ []) refl

-- A server whose result is one row.
abbrev row_after : Row → Trace → Option Row
row_after row [] = none
row_after row (Call.use_result ok ∷ t) = some row
row_after row (c ∷ t) = none

abbrev server_of : Row → Mysql
server_of row = record (server true 0) { fetch_row = row_after row }

abbrev process : Row
process = some (codes "12") ∷ some (codes "SELECT 1") ∷ []

-- A slave whose thread for SQL has stopped.
abbrev stopped_slave : Row
stopped_slave =
    replicate 10 none
    ++ some (codes "Yes") ∷ some (codes "No") ∷ replicate 6 none
    ++ some (codes "1062") ∷ some (codes "Duplicate") ∷ []

abbrev stopped_status : SlaveStatus
stopped_status = record {
  slave_io_running = codes "Yes";
  slave_sql_running = codes "No";
  last_err_no = atoi (codes "1062");
  last_error = codes "Duplicate";
}

stopped_slave-Answers : Answers (server_of stopped_slave) 2
unfolding query_rows fetch_rows
stopped_slave-Answers s = elim (Bool-cases (query (server_of stopped_slave) status_text s).0) [
  | inl e ↦ (true, stopped_status, rw (e, query_rows) refl)
  | inr e ↦ (false, new_status, asked_refused (server_of stopped_slave) 2 s e)
]

threads_left_example :
    Controls false at_rest (stopped_after 0)
    × ((stopped_after 0).running ≡ 1)
    × ((stopped_after 0).run ≡ false)
    × ((stopped_after 0).stop_set ≡ false)
    × (stop_query_thread (stopped_after 0) ≡ stopped_after 0)
threads_left_example = threads_left 0

check_slave-Watched_example :
    Watched
      (server_of stopped_slave)
      2
      3
      (check_slave (server_of stopped_slave) 3 2 connected).0
      connected
      (check_slave (server_of stopped_slave) 3 2 connected).1
check_slave-Watched_example =
    check_slave-Watched (server_of stopped_slave) 3 2 connected stopped_slave-Answers

watch_seconds-missed_example : (watch_seconds 100 10 30).0 ≡ 0
watch_seconds-missed_example = watch_seconds-missed 100 10 30 (omega arith)

abbrev setup_file : Bytes
setup_file =
    codes
      "<Setup><Db><Host>h</Host><UserId> u </UserId><MaxQueryCount>-3</MaxQueryCount></Db></Setup>"

monitor_read-IsRead_example :
    IsRead (monitor_read (codes "f") (some setup_file) none new_monitor_setup)
    × HasPositive (monitor_reread (some setup_file) none new_monitor_setup).1
monitor_read-IsRead_example =
    monitor_read-IsRead (codes "f") (some setup_file) none new_monitor_setup
      (omega arith, omega arith)

kept_longest :
    insert_times
      (pos 2)
      (record { sql = codes "a"; second = pos 3 } ∷ record { sql = codes "b"; second = pos 9 } ∷ [])
      (record { sql = codes "b"; second = pos 5 } ∷ record { sql = codes "c"; second = pos 4 } ∷ [])
    ≡ some (
        record { sql = codes "b"; second = pos 9 }
        ∷ record { sql = codes "c"; second = pos 4 }
        ∷ [])
unfolding insert_times
kept_longest = refl

-- A thread was started, has begun, was asked to stop and has ended.
abbrev ended : Control
ended = record { run = false; stop_set = true; stopping = true; started = 0; running = 0 }

ended-Controls : Controls true at_rest ended
unfolding start_query_thread query_thread_begins query_thread_ends stop_query_thread
ended-Controls =
    let started : Control = record at_rest { started = 1 } in
    let begun : Control = record at_rest { run = true; running = 1 } in
    let asked : Control = record begun { stop_set = true; stopping = true } in
    let first : ControlStep true at_rest started = ControlStep.starts true refl in
    let second : ControlStep true started begun = ControlStep.begins 0 refl in
    let third : ControlStep true begun asked = ControlStep.stops in
    let fourth : ControlStep true asked ended = ControlStep.ends 0 refl in
    Controls.then_step first (
      Controls.then_step second
        (Controls.then_step third (Controls.then_step fourth Controls.done)))

stop_waits-alone_example :
    (ended.started + ended.running ≡ 0)
    × ((stop_waits ended).stop_set ≡ false)
    × ((stop_waits ended).stopping ≡ false)
stop_waits-alone_example = stop_waits-alone ended ended-Controls refl refl
