-- ===== src/Connection/Rows.antt =====
-- DbMySQLPool/DbMySQLConnection.cpp: what `Query` and `QueryOne` read from the rows of a result.
use dbmysqlpool.Base.{
  ℕ, zero, suc, ◌<◌, ◌&&◌, Bool, true, false, List, [], ◌∷◌, none, some, Bytes, ◌≡◌, arith, length,
}
use dbmysqlpool.Mysql.{Mysql, Call, Trace, Row}
use dbmysqlpool.Connection.State.{Session, call, if_null}
use dbmysqlpool.Connection.Link.{query}
use dbmysqlpool.Connection.Results.{fetch_rows, query_rows, first_column, query_one}

-- What the callback makes of the rows: it sees them in order, up to the first that it refuses.
abbrev pub fold_rows : {D : Type 0} → (D → Row → Bool × D) → D → List Row → D
fold_rows fetch d [] = d
fold_rows fetch d (row ∷ rows) =
    let rest = fold_rows fetch (fetch d row).1 rows in
    elim (fetch d row).0 [ true ↦ rest | false ↦ (fetch d row).1 ]

module _ (lib : Mysql) where
  -- The result that is being read after these calls has these rows.
  abbrev pub HasRows : Trace → List Row → Type 0
  HasRows t [] = lib.fetch_row t ≡ none
  HasRows t (row ∷ rows) =
      (lib.fetch_row t ≡ some row) × HasRows (Call.fetch_row (some row) ∷ t) rows

  fetch_rows-fold_rows :
      {D : Type 0} (fetch : D → Row → Bool × D) (rows : List Row) (fuel : ℕ) (d : D) (s : Session)
      → HasRows s.trace rows
      → length rows < fuel
      → (fetch_rows lib fuel fetch d s).0 ≡ some (fold_rows fetch d rows)
  unfolding fetch_rows
  fetch_rows-fold_rows fetch rows zero d s h lt = elim lt [ ]
  fetch_rows-fold_rows fetch [] (suc fuel) d s h lt = rw (h, if_null)
  fetch_rows-fold_rows fetch (row ∷ rows) (suc fuel) d s h lt =
      let s₁ : Session = record s { trace = Call.fetch_row (some row) ∷ s.trace } in
      rw (h.0, if_null)
        (ground (arith, fetch_rows-fold_rows fetch rows fuel (fetch d row).1 s₁ h.1))

  -- The session in which the rows are read.
  abbrev pub opened : Bytes → Session → Session
  opened sql s = (call lib.use_result Call.use_result (query lib sql s).1).1

  -- If the server accepts the text and gives a result of finitely many rows, `Query` with a callback
  -- ends: with more fuel than there are rows it gives true and what the callback makes of the rows up to
  -- the first that it refuses.
  pub query_rows-fold_rows :
      {D : Type 0} (fetch : D → Row → Bool × D) (rows : List Row) (fuel : ℕ) (sql : Bytes) (d : D)
      (s : Session)
      → (query lib sql s).0 ≡ true
      → lib.use_result (query lib sql s).1.trace ≡ true
      → HasRows (opened sql s).trace rows
      → length rows < fuel
      → (query_rows lib fuel sql fetch d s).0 ≡ some (true, fold_rows fetch d rows)
  unfolding query_rows
  query_rows-fold_rows fetch rows fuel sql d s sent got h lt =
      ground (arith, fetch_rows-fold_rows fetch rows fuel d (opened sql s) h)

  -- `QueryOne` gives the first column of the first row, and fails without a text if the query fails,
  -- there is no result or no row, or the column is NULL.
  query_one_lem :
      (sql : Bytes) (s : Session)
      → (query_one lib sql s).0
        ≡ elim ((query lib sql s).0 && lib.use_result (query lib sql s).1.trace) [
          | true ↦ elim (first_column (lib.fetch_row (opened sql s).trace)) [
            | none ↦ (false, [])
            | some v ↦ (true, v)
          ]
          | false ↦ (false, [])
        ]
  unfolding query_one
  query_one_lem sql s = ground arith
