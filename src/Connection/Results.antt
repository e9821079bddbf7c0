-- ===== src/Connection/Results.antt =====
-- DbMySQLPool/DbMySQLConnection.cpp: the public calls that send a whole statement and read what
-- comes back. The loop over the rows of a result takes fuel; `none` means that it ran out.
use dbmysqlpool.Base.{
  ℕ, zero, suc, ◌+◌, ◌%◌, ◌^◌, Bool, true, false, List, [], ◌∷◌, Option, none, some, Bytes, ℤ, pos,
  pos_part, if◌then◌else◌,
}
use dbmysqlpool.Number.{atoi, atoll, get_uint32, get_uint64, bits64}
use dbmysqlpool.Mysql.{Mysql, Row, Call}
use dbmysqlpool.Connection.State.{M, pure, when◌then◌else◌, if_null, ◌>>=◌, ◌>>◌, call, tell, ask}
use dbmysqlpool.Connection.Link.{prepare_close, query}
use dbmysqlpool.Connection.Prepared.{prepare, bind, run_and_close}

-- The first column of a fetched row, if there is a row and the column is not NULL; a result has
-- at least one column.
abbrev pub first_column : Option Row → Option Bytes
first_column none = none
first_column (some []) = none
first_column (some (column ∷ columns)) = column

-- The forms of `QueryOne` for numbers: 0 where there is no result, else the converted text.
abbrev pub converted : {A : Type 0} → (Bytes → A) → A → Bool × Bytes → Bool × A
converted convert zero_value (true, v) = (true, convert v)
converted convert zero_value (false, v) = (false, zero_value)

module _ (lib : Mysql) where
  -- `Execute( pszSQL )`
  unfoldable pub execute : Bytes → M Bool
  unfolding query
  execute sql = query lib sql

  -- The loop over the variable arguments: the rounds left, `i`, and what `va_arg` gives at each
  -- place, NULL being `none`. The result says that no error arose.
  unfoldable pub bind_variadic : ℕ → ℕ → (ℕ → Option Bytes) → M Bool
  bind_variadic zero i args = pure true
  bind_variadic (suc rounds) i args =
      let rest = bind_variadic rounds (i + 1) args in
      if_null (args i) (pure false)
        (λ value. do bound ← bind (pos i) value; when bound then rest else pure false)

  -- `Execute( pszSQL, iArgCount, ... )`
  unfoldable pub execute_variadic : Bytes → ℤ → (ℕ → Option Bytes) → M Bool
  unfolding bind_variadic
  execute_variadic sql arg_count args = do
    prepared ← prepare lib sql
    when prepared
        then (do
          bound ← bind_variadic (pos_part arg_count) 0 args
          when bound then run_and_close lib else (do prepare_close; pure false))
        else pure false

  unfoldable pub bind_all : ℕ → List Bytes → M Bool
  bind_all i [] = pure true
  bind_all i (value ∷ values) =
      let rest = bind_all (i + 1) values in
      do bound ← bind (pos i) value; when bound then rest else pure false

  -- `Execute( pszSQL, clsArgList )`
  unfoldable pub execute_list : Bytes → List Bytes → M Bool
  unfolding bind_all
  execute_list sql args = do
    prepared ← prepare lib sql
    when prepared
        then (do
          bound ← bind_all 0 args
          when bound then run_and_close lib else (do prepare_close; pure false))
        else pure false

  -- The second result is `*piId`, where `piId` is given and the text was sent.
  unfoldable pub insert : Bytes → Bool → M (Bool × Option ℕ)
  unfolding query
  insert sql wants_id = do
    sent ← query lib sql
    new_id ← ask lib.insert_id
    pure (if sent then (true, if wants_id then some new_id else none) else (false, none))

  -- The loop of `Query` over the rows: `fetch` is the callback over the application's data, and
  -- stops the loop by `false`.
  unfoldable pub fetch_rows : {D : Type 0} → ℕ → (D → Row → Bool × D) → D → M (Option D)
  fetch_rows zero fetch d = pure none
  fetch_rows (suc fuel) fetch d = do
    fetched ← call lib.fetch_row Call.fetch_row
    if_null fetched (pure (some d)) (λ row.
        let rest = fetch_rows fuel fetch (fetch d row).1 in
        when (fetch d row).0 then rest else pure (some (fetch d row).1))

  unfoldable pub query_rows :
      {D : Type 0} → ℕ → Bytes → (D → Row → Bool × D) → D → M (Option (Bool × D))
  unfolding query fetch_rows
  query_rows fuel sql fetch d = do
    sent ← query lib sql
    when sent
        then (do
          got ← call lib.use_result Call.use_result
          when got
              then (do
                end ← fetch_rows fuel fetch d
                elim end [
                  | none ↦ pure none
                  | some d' ↦ do tell Call.free_result; pure (some (true, d'))
                ])
              else pure (some (false, d)))
        else pure (some (false, d))

  -- `QueryOne( pszSQL, strData )` returns its result and `strData`.
  unfoldable pub query_one : Bytes → M (Bool × Bytes)
  unfolding query
  query_one sql = do
    sent ← query lib sql
    when sent
        then (do
          got ← call lib.use_result Call.use_result
          when got
              then (do
                fetched ← call lib.fetch_row Call.fetch_row
                tell Call.free_result
                pure (elim (first_column fetched) [ none ↦ (false, []) | some v ↦ (true, v) ]))
              else pure (false, []))
        else pure (false, [])

  unfoldable pub query_one_int : Bytes → M (Bool × ℤ)
  unfolding query_one
  query_one_int sql = do r ← query_one sql; pure (converted atoi (pos 0) r)

  unfoldable pub query_one_uint8 : Bytes → M (Bool × ℕ)
  unfolding query_one
  query_one_uint8 sql = do r ← query_one sql; pure (converted (λ v. bits64 (atoi v) % 2 ^ 8) 0 r)

  unfoldable pub query_one_uint32 : Bytes → M (Bool × ℕ)
  unfolding query_one
  query_one_uint32 sql = do r ← query_one sql; pure (converted (λ v. get_uint32 (some v)) 0 r)

  unfoldable pub query_one_uint64 : Bytes → M (Bool × ℕ)
  unfolding query_one
  query_one_uint64 sql = do r ← query_one sql; pure (converted (λ v. get_uint64 (some v)) 0 r)

  unfoldable pub query_one_int64 : Bytes → M (Bool × ℤ)
  unfolding query_one
  query_one_int64 sql = do r ← query_one sql; pure (converted atoll (pos 0) r)
