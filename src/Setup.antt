-- ===== src/Setup.antt =====
-- MySQLQueryMonitor/MySQLQueryMonitorSetup.cpp and MySQLSlaveOverWatcher/MySQLSlaveOverWatcherSetup.cpp: the
-- setups that the applications read from an XML file, and XmlParser/XmlElement.cpp's `ParseFile`. What a file
-- holds, what `stat` says of it, and whether the log directory can be set are arguments.
pub mod Values
pub mod Watching
use dbmysqlpool.Base.{
  ℕ, Bool, true, false, not, [], Option, none, some, Bytes, codes, ℤ, pos, negsuc, is_empty, leb_ℤ,
  if◌then◌else◌, ◌||◌, ◌&&◌,
}
use dbmysqlpool.Xml.Element.{Element, element, Elements, nil}
use dbmysqlpool.Xml.Parse.{Outcome, parse}
use dbmysqlpool.Xml.Select.{
  select_child, pointed, select_element_trim_data, select_element_int, select_element_int64,
  select_attribute_bool,
}

-- `ParseFile`, for a file that holds this text, or that cannot be opened.
abbrev pub is_done : Option ℕ → Bool
is_done none = false
is_done (some length) = true

abbrev pub parsed : Option Outcome → Bool × Element
parsed none = (false, element [] [] [] nil)
parsed (some o) = (is_done o.result, o.left)

unfoldable pub parse_file : Option Bytes → Bool × Element
unfolding parse
parse_file none = (false, element [] [] [] nil)
parse_file (some text) = parsed (parse text)

-- `SelectElement( pszName )`
abbrev pub first_child : Bytes → Element → Option Element
first_child name e = pointed e (select_child name (pos 0) e)

-- The members that say how to connect; both setups have them.
pub record DbSetup : Type 0 where
  pub db_host : Bytes
  pub db_port : ℤ
  pub db_user_id : Bytes
  pub db_pass_word : Bytes

-- What both read first of the element `Db`, with the element as it is after.
abbrev pub read_db : Element → DbSetup × Element
read_db db =
    let (port, after) = select_element_int (codes "Port") (pos 0) db in
    (
      record {
        db_host = (select_element_trim_data (codes "Host") (pos 0) db).1;
        db_port = port.1;
        db_user_id = (select_element_trim_data (codes "UserId") (pos 0) after).1;
        db_pass_word = (select_element_trim_data (codes "PassWord") (pos 0) after).1;
      },
      after,
    )

abbrev pub can_connect : DbSetup → Bool
can_connect d = not (is_empty d.db_host || is_empty d.db_user_id)

-- An `int` of a child, or the default where it is not positive.
abbrev pub positive_or : ℤ → ℤ → ℤ
positive_or value default_value = if leb_ℤ value (pos 0) then default_value else value

-- `CMySQLQueryMonitorSetup`; the last member stands for `m_iFileSize` and `m_iFileTime`.
pub record MonitorSetup : Type 0 where
  pub db : DbSetup
  pub db_monitor_period : ℤ
  pub max_query_count : ℤ
  pub file_name : Bytes
  pub file_size_time : ℤ × ℤ

abbrev pub new_db_setup : DbSetup
new_db_setup = record { db_host = []; db_port = pos 3306; db_user_id = []; db_pass_word = [] }

abbrev pub new_monitor_setup : MonitorSetup
new_monitor_setup = record {
  db = new_db_setup;
  db_monitor_period = pos 1;
  max_query_count = pos 10;
  file_name = [];
  file_size_time = (pos 0, pos 0);
}

-- `Read( clsXml )`, from the element `Db` if there is one.
unfoldable pub monitor_values : Option Element → MonitorSetup → MonitorSetup
monitor_values none setup = setup
monitor_values (some db) setup =
    let (period, db') = select_element_int (codes "MonitorPeriod") (pos 0) db in
    let (count, db'') = select_element_int (codes "MaxQueryCount") (pos 0) db' in
    record setup {
      db_monitor_period = positive_or period.1 (pos 1);
      max_query_count = positive_or count.1 (pos 10);
    }

-- `SetFileSizeTime`, with the answer of `stat`.
abbrev pub note_file : Option (ℤ × ℤ) → MonitorSetup → MonitorSetup
note_file none setup = setup
note_file (some size_time) setup = record setup { file_size_time = size_time }

-- The part behind the reading of `Db`, where `Read( clsXml )` selects the same child again.
unfoldable pub monitor_read_db :
    Bytes → Option (ℤ × ℤ) → DbSetup × Element → MonitorSetup → Bool × MonitorSetup
unfolding monitor_values
monitor_read_db name stat (d, db) setup =
    let setup' : MonitorSetup = record setup { db = d } in
    if can_connect d
    then (true, note_file stat (record (monitor_values (some db) setup') { file_name = name }))
    else (false, setup')

-- `Read( pszFileName )` behind `ParseFile`: the element of the file.
unfoldable pub monitor_read_element :
    Bytes → Option (ℤ × ℤ) → Element → MonitorSetup → Bool × MonitorSetup
unfolding monitor_read_db
monitor_read_element name stat xml setup = elim (first_child (codes "Db") xml) [
  | none ↦ (false, setup)
  | some db ↦ monitor_read_db name stat (read_db db) setup
]

abbrev pub monitor_read_parsed :
    Bytes → Option (ℤ × ℤ) → Bool × Element → MonitorSetup → Bool × MonitorSetup
monitor_read_parsed name stat (true, xml) setup = monitor_read_element name stat xml setup
monitor_read_parsed name stat (false, xml) setup = (false, setup)

unfoldable pub monitor_read :
    Bytes → Option Bytes → Option (ℤ × ℤ) → MonitorSetup → Bool × MonitorSetup
unfolding parse_file monitor_read_element
monitor_read name file stat setup = monitor_read_parsed name stat (parse_file file) setup

-- `Read()`: the values that can change while the program runs.
abbrev pub monitor_reread_parsed :
    Option (ℤ × ℤ) → Bool × Element → MonitorSetup → Bool × MonitorSetup
monitor_reread_parsed stat (true, xml) setup =
    (true, note_file stat (monitor_values (first_child (codes "Db") xml) setup))
monitor_reread_parsed stat (false, xml) setup = (false, setup)

unfoldable pub monitor_reread : Option Bytes → Option (ℤ × ℤ) → MonitorSetup → Bool × MonitorSetup
unfolding parse_file monitor_values
monitor_reread file stat setup =
    if is_empty setup.file_name
    then (false, setup)
    else monitor_reread_parsed stat (parse_file file) setup

-- `IsChange`
abbrev pub is_change : Option (ℤ × ℤ) → MonitorSetup → Bool
is_change none setup = false
is_change (some (file_size, file_time)) setup =
    not (leb_ℤ file_size setup.file_size_time.0 && leb_ℤ setup.file_size_time.0 file_size)
    || not (leb_ℤ file_time setup.file_size_time.1 && leb_ℤ setup.file_size_time.1 file_time)
