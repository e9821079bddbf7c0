-- ===== src/Connection/Lookup.antt =====
-- DbMySQLPool/DbMySQLConnection.cpp: the `QueryOne` with one bound argument, `IsExistTable`, and the
-- calls that read what the library knows of the last statement.
use dbmysqlpool.Base.{
  ℕ, ◌+◌, ◌-◌, ◌%◌, ◌^◌, Bool, true, false, ◌&&◌, [], ◌++◌, none, some, Bytes, pos, leb_ℤ,
  if◌then◌else◌, codes, take,
}
use dbmysqlpool.Mysql.{Mysql, Call, Fetched}
use dbmysqlpool.Connection.State.{
  M, pure, when◌then◌else◌, if_null, ◌>>=◌, ◌>>◌, call, tell, ask, get,
}
use dbmysqlpool.Connection.Link.{prepare_close}
use dbmysqlpool.Connection.Prepared.{prepare, bind, prepare_execute}
use dbmysqlpool.Connection.Results.{query_one_int}

-- `strData` after `mysql_stmt_fetch`: the buffer was zeroed, and `bNull` stays 0 because `is_null`
-- points to `bError`, so a NULL column is read as the empty text.
abbrev pub fetched_text : Bytes → Fetched → Bytes
fetched_text old Fetched.no_row = old
fetched_text old (Fetched.row none) = []
fetched_text old (Fetched.row (some v)) = v

module _ (lib : Mysql) where
  -- `Prepare( pszSQL ) && Bind( 0, pszArg ) && PrepareExecute( )`, each called if those before
  -- it succeed.
  unfoldable pub run_with_arg : Bytes → Bytes → M Bool
  run_with_arg sql arg = do
    prepared ← prepare lib sql
    when prepared
        then (do
          bound ← bind (pos 0) arg
          when bound then (do done ← prepare_execute lib false; pure done.0) else pure false)
        else pure false

  -- `QueryOne( pszSQL, pszArg, strData, iDataSize )` for a size that is not negative; the last two
  -- arguments are `iDataSize` and what `strData` holds before.
  unfoldable pub query_one_arg : Bytes → Bytes → ℕ → Bytes → M (Bool × Bytes)
  unfolding run_with_arg
  query_one_arg sql arg data_size old = do
    ran ← run_with_arg sql arg
    allocated ← ask (λ t. lib.malloc t data_size)
    stmt ← get (λ c. c.stmt)
    if_null stmt (do prepare_close; pure (false, old))
        (λ id.
          when ran && allocated
          then (do
            bound ← call (λ t. lib.stmt_bind_result t id) (Call.stmt_bind_result id)
            when bound
                then (do
                  fetched ← ask (λ t. lib.stmt_fetch t id ((data_size + 2 ^ 64 - 1) % 2 ^ 64))
                  tell (Call.stmt_fetch id)
                  prepare_close
                  pure (true, fetched_text old fetched))
                else (do prepare_close; pure (false, old)))
          else (do prepare_close; pure (false, old)))

  unfoldable pub is_exist_table : Bytes → M Bool
  is_exist_table table_name = do
    db_name ← get (λ c. c.db_name)
    let sql = take 1047 (
        codes "select count(*) from information_schema.tables where table_schema = '"
        ++ (db_name ++ (codes "' and table_name = '" ++ (table_name ++ codes "'"))))
    count ← query_one_int lib sql
    pure (if count.0 then leb_ℤ count.1 (pos 1) && leb_ℤ (pos 1) count.1 else false)

  unfoldable pub get_affected_row : M ℕ
  get_affected_row = do
    connected ← get (λ c. c.connected)
    affected ← ask lib.affected_rows
    pure (if connected then affected else 0)

  unfoldable pub get_error : M ℕ
  get_error = ask lib.errno
