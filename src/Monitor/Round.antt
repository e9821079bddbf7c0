-- ===== src/Monitor/Round.antt =====
-- MySQLQueryMonitor/MySQLQueryThread.cpp: what a round reads and inserts.
use dbmysqlpool.Base.{
  ℕ, ◌<◌, Bool, true, false, List, [], ◌∷◌, ◌++◌, none, some, ℤ, length, ◌≡◌, append_assoc,
  append-nil, ◌∙◌, ap, sym,
}
use dbmysqlpool.Number.{atoi}
use dbmysqlpool.Mysql.{Mysql, Row}
use dbmysqlpool.Connection.State.{Session}
use dbmysqlpool.Connection.Link.{query}
use dbmysqlpool.Connection.Rows.{fold_rows, HasRows, opened, query_rows-fold_rows}
use dbmysqlpool.Monitor.{
  QueryTime, fetch_query, insert_times, processlist_text, monitor_round, if_some,
}

-- The texts with their times in the rows; a row with a NULL in the first two columns has none.
abbrev pub seen_in : List Row → List QueryTime
seen_in [] = []
seen_in ((some time ∷ some sql ∷ row) ∷ rows) =
    record { sql = sql; second = atoi time } ∷ seen_in rows
seen_in (row ∷ rows) = seen_in rows

-- Every row has the two columns that were asked for.
abbrev pub are_pairs : List Row → Bool
are_pairs [] = true
are_pairs ((time ∷ sql ∷ []) ∷ rows) = are_pairs rows
are_pairs (row ∷ rows) = false

fold_rows-seen_in :
    (rows : List Row) (qs : List QueryTime)
    → are_pairs rows ≡ true
    → fold_rows fetch_query (some qs) rows ≡ some (qs ++ seen_in rows)
fold_rows-seen_in [] qs h = ap some (sym (append-nil qs))
fold_rows-seen_in ([] ∷ rows) qs h = cc
fold_rows-seen_in ((time ∷ []) ∷ rows) qs h = cc
fold_rows-seen_in ((time ∷ sql ∷ c ∷ row) ∷ rows) qs h = cc
fold_rows-seen_in ((none ∷ sql ∷ []) ∷ rows) qs h = fold_rows-seen_in rows qs h
fold_rows-seen_in ((some time ∷ none ∷ []) ∷ rows) qs h = fold_rows-seen_in rows qs h
fold_rows-seen_in ((some time ∷ some sql ∷ []) ∷ rows) qs h =
    let q : QueryTime = record { sql = sql; second = atoi time } in
    fold_rows-seen_in rows (qs ++ q ∷ []) h ∙ ap some (append_assoc qs (q ∷ []) (seen_in rows))

module _ (lib : Mysql) where
  -- If the server accepts the query and gives finitely many rows of two columns, a round ends with more
  -- fuel than there are rows, and inserts in the list the texts and times of the rows without a NULL.
  monitor_round-seen_in :
      (rows : List Row) (fuel : ℕ) (max_count : ℤ) (times : List QueryTime) (s : Session)
      → (query lib processlist_text s).0 ≡ true
      → lib.use_result (query lib processlist_text s).1.trace ≡ true
      → HasRows lib (opened lib processlist_text s).trace rows
      → are_pairs rows ≡ true
      → length rows < fuel
      → (monitor_round lib fuel max_count times s).0 ≡ insert_times max_count (seen_in rows) times
  unfolding monitor_round
  monitor_round-seen_in rows fuel max_count times s sent got h pairs lt =
      ap (λ r. if_some r (λ r'. if_some r'.1 (λ qs. insert_times max_count qs times)))
        (query_rows-fold_rows lib fetch_query rows fuel processlist_text (some []) s sent got h lt
          ∙ ap (λ d. some (true, d)) (fold_rows-seen_in rows [] pairs))
