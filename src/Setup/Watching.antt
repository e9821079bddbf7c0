-- ===== src/Setup/Watching.antt =====
-- MySQLSlaveOverWatcher/MySQLSlaveOverWatcherSetup.cpp: the setup of the watcher. What it tells the log is
-- kept in the setup.
use dbmysqlpool.Base.{
  ◌<◌, leb_ℤ, ◌&&◌, ◌||◌, Bool, true, false, not, [], Option, none, some, Bytes, codes, ℤ, pos,
  pos_part, is_empty, if◌then◌else◌, arith, Bool-cases, Option-cases, inl, inr,
}
use dbmysqlpool.Xml.Element.{Element}
use dbmysqlpool.Xml.Select.{
  select_element_trim_data, select_element_int, select_element_int64, select_attribute_bool,
}
use dbmysqlpool.Setup.{
  DbSetup, new_db_setup, read_db, can_connect, positive_or, first_child, parse_file,
}
use dbmysqlpool.Setup.Values.{positive_or-positive}

-- What `CLog::SetLevel`, `SetMaxLogSize` and `SetMaxFolderSize` were called with.
pub record LogSetup : Type 0 where
  pub log_debug : Bool
  pub log_info : Bool
  pub log_sql : Bool
  pub max_log_size : ℤ
  pub max_folder_size : ℤ

pub record WatcherSetup : Type 0 where
  pub db : DbSetup
  pub db_watch_period : ℤ
  pub db_re_watch_period : ℤ
  pub file_name : Bytes
  pub file_size_time : ℤ × ℤ
  pub log : Option LogSetup

abbrev pub new_watcher_setup : WatcherSetup
new_watcher_setup = record {
  db = new_db_setup;
  db_watch_period = pos 60;
  db_re_watch_period = pos 20;
  file_name = [];
  file_size_time = (pos 0, pos 0);
  log = none;
}

-- The attributes of the element `Level`; none are set without it.
abbrev pub log_levels : Option Element → Bool × Bool × Bool
log_levels none = (false, false, false)
log_levels (some level) =
    let (debug, level') = select_attribute_bool (codes "Debug") level in
    let (info, level'') = select_attribute_bool (codes "Info") level' in
    let (sql, level''') = select_attribute_bool (codes "Sql") level'' in (debug.1, info.1, sql.1)

abbrev pub log_values : Option Element → Option LogSetup → Option LogSetup
log_values none old = old
log_values (some log) old =
    let (debug, info, sql) = log_levels (first_child (codes "Level") log) in
    let (size, log') = select_element_int (codes "MaxSize") (pos 0) log in
    let (folder_size, log'') = select_element_int64 (codes "MaxFolderSize") (pos 0) log' in
    some (record {
      log_debug = debug;
      log_info = info;
      log_sql = sql;
      max_log_size = size.1;
      max_folder_size = folder_size.1;
    })

abbrev pub period_values : Option Element → WatcherSetup → WatcherSetup
period_values none setup = setup
period_values (some db) setup =
    let (period, db') = select_element_int (codes "WatchPeriod") (pos 0) db in
    let (again, db'') = select_element_int (codes "ReWatchPeriod") (pos 0) db' in
    record setup {
      db_watch_period = positive_or period.1 (pos 60);
      db_re_watch_period = positive_or again.1 (pos 20);
    }

-- `Read( clsXml )`, from the elements `Db` and `Log`.
unfoldable pub watcher_values : Option Element → Option Element → WatcherSetup → WatcherSetup
watcher_values db log setup =
    let setup' = period_values db setup in record setup' { log = log_values log setup.log }

abbrev pub note_watched_file : Option (ℤ × ℤ) → WatcherSetup → WatcherSetup
note_watched_file none setup = setup
note_watched_file (some size_time) setup = record setup { file_size_time = size_time }

module _ (set_directory : Bytes → Bool) where
  -- The log directory is set, or none is given.
  abbrev pub has_directory : Option Element → Bool
  has_directory none = true
  has_directory (some log) =
      let (found, folder) = select_element_trim_data (codes "Folder") (pos 0) log in
      if found then set_directory folder else true

  -- `Read( pszFileName )` behind the reading of `Db`.
  unfoldable pub watcher_read_db :
      Bytes
      → Option (ℤ × ℤ)
      → Option Element
      → DbSetup × Element
      → WatcherSetup
      → Bool × WatcherSetup
  unfolding watcher_values
  watcher_read_db name stat log (d, db) setup =
      let setup' : WatcherSetup = record setup { db = d } in
      if not (can_connect d)
      then (false, setup')
      else if has_directory log
      then (
        true,
        note_watched_file stat (record (watcher_values (some db) log setup') { file_name = name }),
      )
      else (false, setup')

  abbrev pub watcher_read_parsed :
      Bytes → Option (ℤ × ℤ) → Bool × Element → WatcherSetup → Bool × WatcherSetup
  watcher_read_parsed name stat (false, xml) setup = (false, setup)
  watcher_read_parsed name stat (true, xml) setup = elim (first_child (codes "Db") xml) [
    | none ↦ (false, setup)
    | some db ↦ watcher_read_db name stat (first_child (codes "Log") xml) (read_db db) setup
  ]

  unfoldable pub watcher_read :
      Bytes → Option Bytes → Option (ℤ × ℤ) → WatcherSetup → Bool × WatcherSetup
  unfolding parse_file watcher_read_db
  watcher_read name file stat setup = watcher_read_parsed name stat (parse_file file) setup

-- `Read()`
abbrev pub watcher_reread_parsed :
    Option (ℤ × ℤ) → Bool × Element → WatcherSetup → Bool × WatcherSetup
watcher_reread_parsed stat (true, xml) setup = (
  true,
  note_watched_file stat
      (watcher_values (first_child (codes "Db") xml) (first_child (codes "Log") xml) setup),
)
watcher_reread_parsed stat (false, xml) setup = (false, setup)

unfoldable pub watcher_reread : Option Bytes → Option (ℤ × ℤ) → WatcherSetup → Bool × WatcherSetup
unfolding parse_file watcher_values
watcher_reread file stat setup =
    if is_empty setup.file_name
    then (false, setup)
    else watcher_reread_parsed stat (parse_file file) setup

-- `IsChange`
abbrev pub is_watched_change : Option (ℤ × ℤ) → WatcherSetup → Bool
is_watched_change none setup = false
is_watched_change (some (file_size, file_time)) setup =
    let (size, time) = setup.file_size_time in
    not (leb_ℤ file_size size && leb_ℤ size file_size)
    || not (leb_ℤ file_time time && leb_ℤ time file_time)

-- The periods that the watcher counts with.
abbrev pub HasPeriods : WatcherSetup → Type 0
HasPeriods setup = (0 < pos_part setup.db_watch_period) × (0 < pos_part setup.db_re_watch_period)

period_values-HasPeriods :
    (db : Option Element) (setup : WatcherSetup)
    → HasPeriods setup
    → HasPeriods (period_values db setup)
period_values-HasPeriods none setup h = h
period_values-HasPeriods (some db) setup h =
    let (period, db') = select_element_int (codes "WatchPeriod") (pos 0) db in
    let again = (select_element_int (codes "ReWatchPeriod") (pos 0) db').0.1 in
    (
      positive_or-positive period.1 (pos 60) (omega arith),
      positive_or-positive again (pos 20) (omega arith),
    )

note_watched_file-HasPeriods :
    (stat : Option (ℤ × ℤ)) (setup : WatcherSetup)
    → HasPeriods setup
    → HasPeriods (note_watched_file stat setup)
note_watched_file-HasPeriods none setup h = h
note_watched_file-HasPeriods (some size_time) setup h = h

watcher_reread_parsed-HasPeriods :
    (stat : Option (ℤ × ℤ)) (file : Bool × Element) (setup : WatcherSetup)
    → HasPeriods setup
    → HasPeriods (watcher_reread_parsed stat file setup).1
unfolding watcher_values
watcher_reread_parsed-HasPeriods stat (false, xml) setup h = h
watcher_reread_parsed-HasPeriods stat (true, xml) setup h =
    note_watched_file-HasPeriods stat
      (watcher_values (first_child (codes "Db") xml) (first_child (codes "Log") xml) setup)
      (period_values-HasPeriods (first_child (codes "Db") xml) setup h)

watcher_reread-HasPeriods :
    (file : Option Bytes) (stat : Option (ℤ × ℤ)) (setup : WatcherSetup)
    → HasPeriods setup
    → HasPeriods (watcher_reread file stat setup).1
unfolding watcher_reread
watcher_reread-HasPeriods file stat setup h = elim (Bool-cases (is_empty setup.file_name)) [
  | inl e ↦ rw (e, watcher_reread) h
  | inr e ↦ rw (e, watcher_reread) (watcher_reread_parsed-HasPeriods stat (parse_file file) setup h)
]

module _ (set_directory : Bytes → Bool) where
  watcher_read_db-HasPeriods :
      (name : Bytes) (stat : Option (ℤ × ℤ)) (log : Option Element) (d : DbSetup) (db : Element)
      (setup : WatcherSetup)
      → HasPeriods setup
      → HasPeriods (watcher_read_db set_directory name stat log (d, db) setup).1
  unfolding watcher_read_db watcher_values
  watcher_read_db-HasPeriods name stat log d db setup h =
      let setup' : WatcherSetup = record setup { db = d } in
      let values = record (watcher_values (some db) log setup') { file_name = name } in
      elim (Bool-cases (can_connect d)) [
        | inr e ↦ rw (e, watcher_read_db) h
        | inl e ↦ elim (Bool-cases (has_directory set_directory log)) [
          | inr k ↦ rw (e, k, watcher_read_db) h
          | inl k ↦
              rw (e, k, watcher_read_db)
                (note_watched_file-HasPeriods stat values
                  (period_values-HasPeriods (some db) setup' h))
        ]
      ]

  watcher_read_parsed-HasPeriods :
      (name : Bytes) (stat : Option (ℤ × ℤ)) (file : Bool × Element) (setup : WatcherSetup)
      → HasPeriods setup
      → HasPeriods (watcher_read_parsed set_directory name stat file setup).1
  watcher_read_parsed-HasPeriods name stat (false, xml) setup h = h
  watcher_read_parsed-HasPeriods name stat (true, xml) setup h =
      elim (Option-cases (first_child (codes "Db") xml)) [
        | inl e ↦ rw (e, watcher_read_parsed) h
        | inr (db, e) ↦
            rw (e, watcher_read_parsed)
              (watcher_read_db-HasPeriods name stat (first_child (codes "Log") xml) (read_db db).0
                (read_db db).1 setup h)
      ]

  -- Whatever the file holds and on every path, both periods stay positive, with the first reading and with a
  -- later one.
  watcher_read-HasPeriods :
      (name : Bytes) (file : Option Bytes) (stat : Option (ℤ × ℤ)) (setup : WatcherSetup)
      → HasPeriods setup
      → HasPeriods (watcher_read set_directory name file stat setup).1
        × HasPeriods (watcher_reread file stat setup).1
  unfolding watcher_read
  watcher_read-HasPeriods name file stat setup h = (
    watcher_read_parsed-HasPeriods name stat (parse_file file) setup h,
    watcher_reread-HasPeriods file stat setup h,
  )
