-- ===== src/Setup/Values.antt =====
-- MySQLQueryMonitor/MySQLQueryMonitorSetup.cpp: what the setup holds after it was read.
use dbmysqlpool.Base.{
  ℕ, ◌<◌, Bool, true, false, [], Option, none, some, Bytes, codes, ℤ, pos, negsuc, pos_part,
  is_empty, ◌≡◌, refl, arith, ap, ◌∙◌, ◌⊎◌, inl, inr, Option-cases, Bool-cases,
}
use dbmysqlpool.Xml.Element.{Element}
use dbmysqlpool.Xml.Parse.{Outcome}
use dbmysqlpool.Xml.Print.{to_string}
use dbmysqlpool.Xml.Select.{select_element_int}
use dbmysqlpool.Xml.Writable.{IsWritable}
use dbmysqlpool.Xml.RoundTrip.{parse-to_string}
use dbmysqlpool.Setup.{
  parsed, monitor_read_parsed, monitor_reread_parsed, DbSetup, read_db, MonitorSetup,
  monitor_read_db, parse_file, positive_or, monitor_values, monitor_read_element, monitor_read,
  monitor_reread, note_file, first_child, can_connect,
}

-- The numbers that the program counts with.
abbrev pub HasPositive : MonitorSetup → Type 0
HasPositive setup = (0 < pos_part setup.db_monitor_period) × (0 < pos_part setup.max_query_count)

pub positive_or-positive :
    (value default_value : ℤ)
    → 0 < pos_part default_value
    → 0 < pos_part (positive_or value default_value)
positive_or-positive (pos n) default_value h = ground arith
positive_or-positive (negsuc n) default_value h = ground arith

monitor_values-HasPositive :
    (db : Option Element) (setup : MonitorSetup)
    → HasPositive setup
    → HasPositive (monitor_values db setup)
unfolding monitor_values
monitor_values-HasPositive none setup h = h
monitor_values-HasPositive (some db) setup h =
    let (period, db') = select_element_int (codes "MonitorPeriod") (pos 0) db in
    let count = (select_element_int (codes "MaxQueryCount") (pos 0) db').0.1 in
    (
      positive_or-positive period.1 (pos 1) (omega arith),
      positive_or-positive count (pos 10) (omega arith),
    )

note_file-HasPositive :
    (stat : Option (ℤ × ℤ)) (setup : MonitorSetup)
    → HasPositive setup
    → HasPositive (note_file stat setup)
note_file-HasPositive none setup h = h
note_file-HasPositive (some size_time) setup h = h

-- What a reading of the file may leave: it failed, or there is a host and a user.
abbrev pub IsRead : Bool × MonitorSetup → Type 0
IsRead (done, setup) = HasPositive setup × ((done ≡ false) ⊎ (can_connect setup.db ≡ true))

note_file-db : (stat : Option (ℤ × ℤ)) (setup : MonitorSetup) → (note_file stat setup).db ≡ setup.db
note_file-db none setup = refl
note_file-db (some size_time) setup = refl

monitor_values-db :
    (db : Option Element) (setup : MonitorSetup) → (monitor_values db setup).db ≡ setup.db
unfolding monitor_values
monitor_values-db none setup = refl
monitor_values-db (some db) setup = refl

monitor_read_db-IsRead :
    (name : Bytes) (stat : Option (ℤ × ℤ)) (d : DbSetup) (db : Element) (setup : MonitorSetup)
    → HasPositive setup
    → IsRead (monitor_read_db name stat (d, db) setup)
unfolding monitor_read_db
monitor_read_db-IsRead name stat d db setup h =
    let setup' : MonitorSetup = record setup { db = d } in
    let final : MonitorSetup = record (monitor_values (some db) setup') { file_name = name } in
    elim (Bool-cases (can_connect d)) [
      | inl e ↦ rw e (
        note_file-HasPositive stat final (monitor_values-HasPositive (some db) setup' h),
        inr (ap can_connect (note_file-db stat final ∙ monitor_values-db (some db) setup') ∙ e),
      )
      | inr e ↦ rw e (h, inl refl)
    ]

monitor_read_element-IsRead :
    (name : Bytes) (stat : Option (ℤ × ℤ)) (xml : Element) (setup : MonitorSetup)
    → HasPositive setup
    → IsRead (monitor_read_element name stat xml setup)
unfolding monitor_read_element
monitor_read_element-IsRead name stat xml setup h =
    elim (Option-cases (first_child (codes "Db") xml)) [
      | inl e ↦ rw (e, monitor_read_element) (h, inl refl)
      | inr (db, e) ↦
          rw (e, monitor_read_element)
            (monitor_read_db-IsRead name stat (read_db db).0 (read_db db).1 setup h)
    ]

monitor_read_parsed-IsRead :
    (name : Bytes) (stat : Option (ℤ × ℤ)) (file : Bool × Element) (setup : MonitorSetup)
    → HasPositive setup
    → IsRead (monitor_read_parsed name stat file setup)
monitor_read_parsed-IsRead name stat (true, xml) setup h =
    monitor_read_element-IsRead name stat xml setup h
monitor_read_parsed-IsRead name stat (false, xml) setup h = (h, inl refl)

monitor_reread_parsed-HasPositive :
    (stat : Option (ℤ × ℤ)) (file : Bool × Element) (setup : MonitorSetup)
    → HasPositive setup
    → HasPositive (monitor_reread_parsed stat file setup).1
monitor_reread_parsed-HasPositive stat (true, xml) setup h =
    note_file-HasPositive stat (monitor_values (first_child (codes "Db") xml) setup)
      (monitor_values-HasPositive (first_child (codes "Db") xml) setup h)
monitor_reread_parsed-HasPositive stat (false, xml) setup h = h

monitor_reread-HasPositive :
    (file : Option Bytes) (stat : Option (ℤ × ℤ)) (setup : MonitorSetup)
    → HasPositive setup
    → HasPositive (monitor_reread file stat setup).1
unfolding monitor_reread
monitor_reread-HasPositive file stat setup h = elim (Bool-cases (is_empty setup.file_name)) [
  | inl e ↦ rw (e, monitor_reread) h
  | inr e ↦
      rw (e, monitor_reread) (monitor_reread_parsed-HasPositive stat (parse_file file) setup h)
]

-- Whatever the file holds and on every path, the period and the number of texts stay positive, with the first
-- reading and with a later one; and the first reading fails, or there is a host and a user.
pub monitor_read-IsRead :
    (name : Bytes) (file : Option Bytes) (stat : Option (ℤ × ℤ)) (setup : MonitorSetup)
    → HasPositive setup
    → IsRead (monitor_read name file stat setup) × HasPositive (monitor_reread file stat setup).1
unfolding monitor_read
monitor_read-IsRead name file stat setup h = (
  monitor_read_parsed-IsRead name stat (parse_file file) setup h,
  monitor_reread-HasPositive file stat setup h,
)

-- A setup file that `ToString` wrote is read as the element that was written.
pub monitor_read-to_string :
    (use_tab : Bool) (depth : ℕ) (xml : Element) (name : Bytes) (stat : Option (ℤ × ℤ))
    (setup : MonitorSetup)
    → IsWritable xml
    → monitor_read name (some (to_string [] use_tab depth xml)) stat setup
      ≡ monitor_read_element name stat xml setup
unfolding monitor_read parse_file
monitor_read-to_string use_tab depth xml name stat setup w =
    ap (λ (o : Option Outcome). monitor_read_parsed name stat (parsed o) setup)
      (parse-to_string use_tab depth xml w)
