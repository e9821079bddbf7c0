-- ===== src/Tests/Platform.antt =====
-- Runs of the log, of the making of directories and of the sockets.
use mathlib.Core.Option.{some-injective, some-ne-none}
use dbmysqlpool.Base.{
  map, ltb, ◌||◌, ℕ, ◌+◌, ◌<◌, ◌≤◌, Bool, true, false, List, [], ◌∷◌, ◌++◌, none, some, Bytes,
  codes, length, length-take, drop, take, is_empty, if◌then◌else◌, ◌≡◌, ◌≢◌, refl, subst, arith, ℤ,
  pos, negsuc, ltb_ℤ, Bool-cases, inl, inr,
}
use dbmysqlpool.StringMap.{same_key, same_key_refl, same_key-≡}
use dbmysqlpool.Log.{Log, EnumLogLevel, initial_log, is_print_log_level}
use dbmysqlpool.Log.Names.{Tm, full_name, log_file_name, padded}
use dbmysqlpool.Log.Disk.{Disk, IsOrderly, get_file_size}
use dbmysqlpool.Log.Folder.{delete_old_file, want_size}
use dbmysqlpool.Log.Deletion.{Deletes, oldest_first, delete_old_file-Deletes}
use dbmysqlpool.Log.Sorted.{LogFile, SortsTo, sort_file_list-SortsTo}
use dbmysqlpool.Log.Print.{Message, Logged, file_line, open_loop, open_if_due, print}
use dbmysqlpool.Log.Rotation.{Opens, open_loop-Opens}
use dbmysqlpool.Log.Bounds.{destination, print-fits}
use dbmysqlpool.Decimal.{print_int, digits_onto}
use dbmysqlpool.Directory.{Tree, IsTree, create, create_loop, create_at, make_directory, last_byte}
use dbmysqlpool.Directory.Creation.{IsDirectory, slashes, create-IsDirectory}
use dbmysqlpool.Text.Split.{split_string}
use dbmysqlpool.Time.{date_time_string}
use dbmysqlpool.Time.Texts.{time_number, date_time_string-order}
use dbmysqlpool.Log.Names.{is_before}
use dbmysqlpool.MonitorString.{
  Cell, cell_text, put_rows, get_string, clear_string, split_string-put_rows,
}
use dbmysqlpool.Socket.{Wire, IsWire, tcp_send, tcp_recv_size}
use dbmysqlpool.Socket.Transfer.{tcp_send-Sends, tcp_recv_size-Receives}

-- A disk of three files, whose state is the size of each file.
abbrev disk : Disk
disk = record {
  State = Bytes → ℕ;
  entries = λ d dir.
      some
        (codes "." ∷ codes "20240101_2.txt" ∷ codes "20240101_1.txt" ∷ codes "20240102_1.txt" ∷ []);
  kind = λ d name. some false;
  stat_size = λ d name. some (d name);
  unlink = λ d file name. if same_key file name then 0 else d name;
  open_append = λ d file. (true, d);
  write = λ d file text.
      (pos (length text), λ name. if same_key file name then d name + length text else d name);
}

disk-IsOrderly : IsOrderly disk
unfolding get_file_size
disk-IsOrderly = record {
  size-unlink = λ d file other ne. elim (Bool-cases (same_key file other)) [
    | inl e ↦ absurd (ne (same_key-≡ file other e))
    | inr e ↦ rw e refl
  ];
  unlink_smaller = λ d file. rw (same_key_refl file) (omega arith);
  size-open = λ d file. refl;
  write-at_most = λ d file text. ground arith;
}

abbrev sizes : Bytes → ℕ
sizes name = 30

abbrev full_log : Log
full_log = record initial_log {
  dir_name = some (codes "log");
  max_folder_size = pos 100;
  folder_size = pos 100;
  max_log_size = pos 50;
}

delete_old_file-Deletes_example :
    (end : ℤ × (Bytes → ℕ)) × ((delete_old_file disk full_log sizes
        ≡ some (record full_log { folder_size = end.0 }, end.1))
      × ((n : ℕ) × Deletes disk
            (codes "log")
            (want_size (pos 100))
            (oldest_first disk sizes (codes "log") (
              codes "."
              ∷ codes "20240101_2.txt"
              ∷ codes "20240101_1.txt"
              ∷ codes "20240102_1.txt"
              ∷ []))
            (pos 100)
            sizes
            end
            n))
unfolding initial_log
delete_old_file-Deletes_example =
    delete_old_file-Deletes disk full_log sizes (codes "log")
      (codes "." ∷ codes "20240101_2.txt" ∷ codes "20240101_1.txt" ∷ codes "20240102_1.txt" ∷ [])
      disk-IsOrderly refl refl refl refl refl

abbrev morning : Tm
morning = record { year = 2024; month = 1; day = 2; hour = 9; minute = 0; second = 0 }

abbrev log_files : List LogFile
log_files = record { tm = morning; index = 10 } ∷ record { tm = morning; index = 9 } ∷ []

sort_file_list-SortsTo_example : (gs : List LogFile) × SortsTo log_files gs
sort_file_list-SortsTo_example = sort_file_list-SortsTo log_files refl

-- The first file of the day is full.
abbrev first_full : Bytes → ℕ
first_full name = if same_key name (codes "log/20240102_1.txt") then 60 else 0

second_small : get_file_size disk first_full (full_name (codes "log") morning 2) < 50
unfolding get_file_size full_name log_file_name padded print_int digits_onto
second_small = omega arith

open_loop-Opens_example :
    Opens disk
      (codes "log")
      morning
      50
      1
      2
      (open_loop disk 3 morning (record full_log { folder_size = pos 0 }) first_full)
unfolding initial_log
open_loop-Opens_example =
    open_loop-Opens disk 3 2 morning (codes "log") 50 (record full_log { folder_size = pos 0 })
      first_full disk-IsOrderly (λ d. some-ne-none _) refl refl (omega arith) (omega arith)
      (omega arith) second_small (omega arith)

abbrev message : Message
message = record {
  level = EnumLogLevel.log_error;
  tm = morning;
  micro = 5;
  thread = codes "1F";
  thread_number = codes "31";
  text = codes "connect error";
}

error_on : is_print_log_level EnumLogLevel.log_error full_log ≡ true
unfolding is_print_log_level initial_log
error_on = refl

print-fits_example :
    (ok : Bool) × (due : Logged disk) × (after : Logged disk) × (open_if_due disk 3 message.tm
        full_log first_full
      ≡ some (ok, due))
    × (print disk 3 (true, true) (λ w. w) message (full_log, first_full)
        ≡ some (if ok then pos 0 else negsuc 0, (some (destination disk message due.0), after)))
    × (ltb_ℤ after.0.log_size (pos (50 + length (file_line message))) ≡ true)
unfolding initial_log
print-fits_example =
    print-fits disk 3 2 (codes "log") 50 message full_log first_full disk-IsOrderly
      (
        (λ d. some-ne-none _),
        refl,
        refl,
        omega arith,
        omega arith,
        omega arith,
        omega arith,
        second_small,
        omega arith,
      )
      error_on

abbrev is_among : Bytes → List Bytes → Bool
is_among name [] = false
is_among name (other ∷ names) = same_key other name || is_among name names

-- A tree whose state is the list of its directories, in which any name can be made one.
abbrev tree : Tree
tree = record {
  State = List Bytes;
  kind = λ t name. if is_among name t then some true else none;
  mkdir = λ t name. (true, name ∷ t);
}

tree-IsTree : IsTree tree
tree-IsTree = record {
  mkdir_makes = λ t name h. rw (same_key_refl name) refl;
  mkdir_keeps = λ t name other h. ground (arith, h);
}

create-IsDirectory_example :
    ((last_byte (codes "/a/b") ≢ some b'/')
      → IsDirectory tree (codes "/a/b" ∷ codes "/a" ∷ []) (codes "/a/b"))
    × ((p q : Bytes)
        → codes "/a/b" ≡ p ++ b'/' ∷ q
        → 1 ≤ slashes p
        → IsDirectory tree (codes "/a/b" ∷ codes "/a" ∷ []) p)
unfolding create create_loop create_at make_directory
create-IsDirectory_example =
    create-IsDirectory tree (codes "/a/b") [] (codes "/a/b" ∷ codes "/a" ∷ []) tree-IsTree refl

-- A socket that takes one byte at a time, and gives what is asked for of the bytes that are there.
abbrev at_most_one : Bytes → ℕ
at_most_one [] = 0
at_most_one (c ∷ s) = 1

abbrev wire : Wire
wire = record {
  State = Bytes × (Bytes × Bytes);
  send = λ w s. (some (at_most_one s), (w.0 ++ take (at_most_one s) s, w.1));
  recv = λ w n. (some (take n w.1.0), (w.0, (drop n w.1.0, w.1.1 ++ take n w.1.0)));
  poll = λ w n. (pos 1, w);
  sent = λ w. w.0;
  received = λ w. w.1.1;
}

at_most_one_within :
    (s : Bytes) → (at_most_one s ≤ length s) × (is_empty s ≡ false → 0 < at_most_one s)
at_most_one_within [] = (omega arith, λ h. cc h)
at_most_one_within (c ∷ s) = (omega arith, λ h. omega arith)

wire-IsWire : IsWire wire
wire-IsWire = record {
  send_takes = λ w s n e.
      subst
        (λ m.
          (m ≤ length s)
          × (is_empty s ≡ false → 0 < m)
          × (w.0 ++ take (at_most_one s) s ≡ w.0 ++ take m s))
        (some-injective _ _ e) ((at_most_one_within s).0, (at_most_one_within s).1, refl);
  send_fails = λ w s e. absurd (some-ne-none _ e);
  recv_gives = λ w n s e.
      subst (λ t. (length t ≤ n) × (w.1.1 ++ take n w.1.0 ≡ w.1.1 ++ t)) (some-injective _ _ e)
        (omega (arith, length-take n w.1.0), refl);
  recv_fails = λ w n e. absurd (some-ne-none _ e);
  poll_waits = λ w n. refl;
}

abbrev three_waiting : Bytes × (Bytes × Bytes)
three_waiting = ([], (codes "abc", []))

tcp_send-Sends_example :
    (ok : Bool) × ((w' : Bytes × (Bytes × Bytes)) × ((n : ℕ) × ((tcp_send wire 4
              (codes "xyz")
              three_waiting
            ≡ some (if ok then pos 3 else negsuc 0, w'))
          × (w'.0 ≡ take n (codes "xyz"))
          × (n ≤ 3)
          × (ok ≡ true → n ≡ 3))))
tcp_send-Sends_example = tcp_send-Sends wire 4 (codes "xyz") three_waiting wire-IsWire (omega arith)

tcp_recv_size-Receives_example :
    (ok : Bool) × ((w' : Bytes × (Bytes × Bytes)) × ((came : Bytes) × ((tcp_recv_size wire 3 2 1
              three_waiting
            ≡ some (if ok then some came else none, w'))
          × (w'.1.1 ≡ came)
          × (length came ≤ 2)
          × (ok ≡ true → length came ≡ 2))))
tcp_recv_size-Receives_example =
    tcp_recv_size-Receives wire 3 2 1 three_waiting wire-IsWire (omega arith)

abbrev noon : Tm
noon = record { year = 2024; month = 1; day = 2; hour = 12; minute = 30; second = 5 }

date_time_string-order_example :
    (length (date_time_string morning 21) ≡ 14)
    × (is_before 14 (date_time_string morning 21) (date_time_string noon 21)
        ≡ ltb (time_number morning) (time_number noon))
date_time_string-order_example =
    date_time_string-order morning noon 21
      ((omega arith, omega arith, omega arith), omega arith, omega arith, omega arith)
      ((omega arith, omega arith, omega arith), omega arith, omega arith, omega arith) (omega arith)

abbrev report : List (List Cell)
report =
    (Cell.text (codes "peer") ∷ Cell.address (codes "10.0.0.1") (pos 3306) ∷ [])
    ∷ (Cell.number (negsuc 4) ∷ Cell.time noon ∷ [])
    ∷ []

split_string-put_rows_example :
    map (split_string b'|') (split_string 10 (get_string (put_rows report (clear_string []))))
    ≡ map (map cell_text) report
unfolding print_int digits_onto date_time_string padded
split_string-put_rows_example = split_string-put_rows report refl
