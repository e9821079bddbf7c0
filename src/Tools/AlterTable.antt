-- ===== src/Tools/AlterTable.antt =====
-- MySQLAlterTable/MySQLAlterTable.cpp: one statement for each table of a database.
use dbmysqlpool.Base.{
  ℕ, ◌<◌, Bool, true, false, List, [], ◌∷◌, ◌++◌, Option, none, some, Bytes, codes, leb, length,
  map, get_or, if◌then◌else◌, ◌≡◌, refl, sym, arith, ap, ◌∙◌, append_assoc, append-nil,
}
use dbmysqlpool.Decimal.{snprintf}
use dbmysqlpool.SetData.{set_column, set_string}
use dbmysqlpool.Mysql.{Mysql, Row}
use dbmysqlpool.Connection.State.{Session, M, pure, when◌then◌else◌, if_null, ◌>>=◌, ◌>>◌}
use dbmysqlpool.Connection.Link.{connect_to, query, close}
use dbmysqlpool.Connection.Results.{query_rows}
use dbmysqlpool.Connection.Rows.{fold_rows, HasRows, opened, query_rows-fold_rows}
use dbmysqlpool.Connection.Effects.{effects, close-effects, connect_to-effects, query-Sends}
use dbmysqlpool.Connection.Effects.Reading.{query_rows-effects}
use dbmysqlpool.Tools.{argument_target, answers, execute_each, execute_each-kept, kept}

-- `FetchTable`, over the list it appends to; `none`: the row has no column.
unfoldable pub fetch_table : Option (List Bytes) → Row → Bool × Option (List Bytes)
unfolding set_string
fetch_table none row = (true, none)
fetch_table (some tables) row = elim (set_string row 0 []) [
  | none ↦ (true, none)
  | some (col, table) ↦ (true, some (tables ++ table ∷ []))
]

-- What `szSQL` holds for the query and for a table.
abbrev pub tables_text : Bytes → Bytes
tables_text db_name = snprintf 1024 (
    codes "SELECT TABLE_NAME FROM information_schema.tables WHERE table_schema = '"
    ++ db_name
    ++ codes "'")

abbrev pub alter_text : Bytes → Bytes → Bytes
alter_text command table = snprintf 1024 (codes "ALTER TABLE " ++ table ++ codes " " ++ command)

module _ (lib : Mysql) where
  -- The query for the tables and the loop over them. `none`: the fuel for the rows ran out, or a row had no
  -- column.
  unfoldable pub alter_tables : ℕ → Bytes → Bytes → M (Option (Unit {0}))
  unfolding fetch_table
  alter_tables fuel db_name command = do
    seen ← query_rows lib fuel (tables_text db_name) fetch_table (some [])
    if_null seen (pure none) (λ r. if_null r.1 (pure none) (λ tables. do
      when r.0 then execute_each lib (map (alter_text command) tables) else pure tt
      pure (some tt)))

  -- `main`
  unfoldable pub alter_table : ℕ → List Bytes → M (Option (Unit {0}))
  unfolding alter_tables
  alter_table fuel args =
      when leb 6 (length args)
      then (do
        up ← connect_to lib (argument_target args) (some (codes "utf8"))
        when up
            then (do
              end ← alter_tables fuel (get_or args 3 []) (get_or args 5 [])
              if_null end (pure none) (λ done. do close; pure (some done)))
            else pure (some tt))
      else pure (some tt)

-- The names in the rows; a NULL gives an empty one.
abbrev pub table_names : List Row → List Bytes
table_names [] = []
table_names ([] ∷ rows) = table_names rows
table_names ((none ∷ row) ∷ rows) = [] ∷ table_names rows
table_names ((some table ∷ row) ∷ rows) = table ∷ table_names rows

-- Every row has a column.
abbrev pub have_column : List Row → Bool
have_column [] = true
have_column ([] ∷ rows) = false
have_column ((c ∷ row) ∷ rows) = have_column rows

fold_rows-table_names :
    (rows : List Row) (tables : List Bytes)
    → have_column rows ≡ true
    → fold_rows fetch_table (some tables) rows ≡ some (tables ++ table_names rows)
unfolding fetch_table set_string set_column
fold_rows-table_names [] tables h = ap some (sym (append-nil tables))
fold_rows-table_names ([] ∷ rows) tables h = cc
fold_rows-table_names ((none ∷ row) ∷ rows) tables h =
    fold_rows-table_names rows (tables ++ [] ∷ []) h
    ∙ ap some (append_assoc tables ([] ∷ []) (table_names rows))
fold_rows-table_names ((some table ∷ row) ∷ rows) tables h =
    fold_rows-table_names rows (tables ++ table ∷ []) h
    ∙ ap some (append_assoc tables (table ∷ []) (table_names rows))

close_down : (s : Session) → (close s).1.conn.connected ≡ false
unfolding close
close_down s = ground arith

module _ (lib : Mysql) where
  alter_tables-run :
      (rows : List Row) (fuel : ℕ) (db_name command : Bytes) (s : Session)
      → (query lib (tables_text db_name) s).0 ≡ true
      → lib.use_result (query lib (tables_text db_name) s).1.trace ≡ true
      → HasRows lib (opened lib (tables_text db_name) s).trace rows
      → have_column rows ≡ true
      → length rows < fuel
      → alter_tables lib fuel db_name command s ≡ (
        some tt,
        (execute_each lib
            (map (alter_text command) (table_names rows))
            (query_rows lib fuel (tables_text db_name) fetch_table (some []) s).1).1,
      )
  unfolding alter_tables
  alter_tables-run rows fuel db_name command s sent got h columns lt =
      let seen =
        query_rows-fold_rows lib fetch_table rows fuel (tables_text db_name) (some []) s sent got h
          lt
        ∙ ap (λ d. some (true, d)) (fold_rows-table_names rows [] columns) in
      rw (seen, if_null) refl

  alter_table-run :
      (fuel : ℕ) (args : List Bytes) (s : Session)
      → leb 6 (length args) ≡ true
      → (connect_to lib (argument_target args) (some (codes "utf8")) s).0 ≡ true
      → (alter_tables lib fuel
          (get_or args 3 [])
          (get_or args 5 [])
          (connect_to lib (argument_target args) (some (codes "utf8")) s).1).0
        ≡ some tt
      → alter_table lib fuel args s ≡ (
        some tt,
        (close
            (alter_tables lib fuel
              (get_or args 3 [])
              (get_or args 5 [])
              (connect_to lib (argument_target args) (some (codes "utf8")) s).1).1).1,
      )
  unfolding alter_table
  alter_table-run fuel args s six up done = rw (six, up, done, if_null) refl

  -- The session of the program when it is connected.
  abbrev pub begun : List Bytes → Session → Session
  begun args s = (connect_to lib (argument_target args) (some (codes "utf8")) s).1

  -- The session when the rows of the query for the tables have been read.
  abbrev pub listed_tables : ℕ → List Bytes → Session → Session
  listed_tables fuel args s =
      (query_rows lib fuel (tables_text (get_or args 3 [])) fetch_table (some []) (begun args s)).1

  -- If the arguments are given, the server can be reached, accepts the query for the tables and gives finitely
  -- many rows that have a column, the program ends with more fuel than there are rows, and closes the connection;
  -- after the query it has given one statement for each name in the rows to `Query`, each cut to 1023 bytes and
  -- one after the other, whatever the answers: the acknowledged texts are the query and, in order and each
  -- once, the statements on which `Query` succeeds there.
  pub alter_table-kept :
      (rows : List Row) (fuel : ℕ) (args : List Bytes) (s : Session)
      → leb 6 (length args) ≡ true
      → (connect_to lib (argument_target args) (some (codes "utf8")) s).0 ≡ true
      → (query lib (tables_text (get_or args 3 [])) (begun args s)).0 ≡ true
      → lib.use_result (query lib (tables_text (get_or args 3 [])) (begun args s)).1.trace ≡ true
      → HasRows lib (opened lib (tables_text (get_or args 3 [])) (begun args s)).trace rows
      → have_column rows ≡ true
      → length rows < fuel
      → ((alter_table lib fuel args s).0 ≡ some tt)
        × ((alter_table lib fuel args s).1.conn.connected ≡ false)
        × ((effects (alter_table lib fuel args s).1.trace).acknowledged
            ≡ kept
                (answers lib
                  (map (alter_text (get_or args 5 [])) (table_names rows))
                  (listed_tables fuel args s))
                (map (alter_text (get_or args 5 [])) (table_names rows))
                (tables_text (get_or args 3 []) ∷ (effects s.trace).acknowledged))
  alter_table-kept rows fuel args s six up sent got h columns lt =
      let s₁ = begun args s in
      let text = tables_text (get_or args 3 []) in
      let texts = map (alter_text (get_or args 5 [])) (table_names rows) in
      let s₂ = (query_rows lib fuel text fetch_table (some []) s₁).1 in
      let ran =
        alter_tables-run rows fuel (get_or args 3 []) (get_or args 5 []) s₁ sent got h columns lt in
      let run = alter_table-run fuel args s six up (ap (λ r. r.0) ran) in
      (
        ap (λ r. r.0) run,
        ap (λ r. r.1.conn.connected) run ∙ close_down _,
        ap (λ r. (effects r.1.trace).acknowledged) run
            ∙ (ap (λ f. f.acknowledged) (close-effects _)
                ∙ (ap (λ r. (effects r.1.trace).acknowledged) ran
                    ∙ (execute_each-kept lib texts s₂
                        ∙ ap (kept (answers lib texts s₂) texts) (
                            ap (λ f. f.acknowledged)
                              (query_rows-effects lib fuel text fetch_table (some []) s₁)
                            ∙ ground (
                              arith,
                              (query-Sends lib text s₁).0,
                              sent,
                              connect_to-effects lib (argument_target args) (some (codes "utf8")) s,
                            ))))),
      )
