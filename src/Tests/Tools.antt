-- ===== src/Tests/Tools.antt =====
-- Runs of the command-line tools.
use dbmysqlpool.Base.{true, false, List, [], ◌∷◌, Option, some, Bytes, codes, map, ◌≡◌, refl, arith}
use dbmysqlpool.Mysql.{Row}
use dbmysqlpool.Connection.State.{new_connection}
use dbmysqlpool.Connection.Link.{
  connect_to, connect_begun, choose_character_set, set_options, query,
}
use dbmysqlpool.Connection.Effects.{effects}
use dbmysqlpool.Tools.{kept, answers}
use dbmysqlpool.Tools.LogFile.{is_query_at, read_log}
use dbmysqlpool.Tools.Entries.{Entry, log_text, texts_of, are_entries, read_log-texts_of}
use dbmysqlpool.Tools.AlterTable.{
  alter_table, alter_text, tables_text, table_names, listed_tables, alter_table-kept,
}
use dbmysqlpool.Tests.Samples.{server, unconnected}

-- A log of two texts, with a time in front of the first only; the second has two lines.
abbrev entries : List Entry
entries =
    record {
      header = codes "161018 10:00:00\t     2 ";
      separator = b'\t';
      first = codes "INSERT INTO t VALUES(1)";
      later = [];
    }
    ∷ record {
      header = codes "\t\t     2 ";
      separator = b'\t';
      first = codes "INSERT INTO t";
      later = codes " VALUES(2)" ∷ [];
    }
    ∷ []

entries_right : are_entries entries ≡ true
unfolding is_query_at
entries_right = refl

read_log-texts_of_example : read_log (log_text entries) ≡ texts_of entries
read_log-texts_of_example = read_log-texts_of entries entries_right

abbrev arguments : List Bytes
arguments =
    codes "localhost" ∷ codes "test" ∷ codes "1234" ∷ codes "test" ∷ codes "3306" ∷ codes "log" ∷ []

abbrev files : Bytes → Option Bytes
files name = some (log_text entries)

abbrev alter_arguments : List Bytes
alter_arguments =
    codes "localhost"
    ∷ codes "test"
    ∷ codes "1234"
    ∷ codes "test"
    ∷ codes "3306"
    ∷ codes "ENGINE=InnoDB"
    ∷ []

abbrev table_rows : List Row
table_rows = (some (codes "7") ∷ []) ∷ []

alter_table-kept_example :
    ((alter_table (server true 0) 2 alter_arguments unconnected).0 ≡ some tt)
    × ((alter_table (server true 0) 2 alter_arguments unconnected).1.conn.connected ≡ false)
    × ((effects (alter_table (server true 0) 2 alter_arguments unconnected).1.trace).acknowledged
        ≡ kept
            (answers
              (server true 0)
              (map (alter_text (codes "ENGINE=InnoDB")) (table_names table_rows))
              (listed_tables (server true 0) 2 alter_arguments unconnected))
            (map (alter_text (codes "ENGINE=InnoDB")) (table_names table_rows))
            (tables_text (codes "test") ∷ (effects unconnected.trace).acknowledged))
unfolding connect_to query connect_begun choose_character_set set_options new_connection
alter_table-kept_example =
    alter_table-kept (server true 0) table_rows 2 alter_arguments unconnected refl refl refl refl
      (refl, refl) refl (omega arith)
