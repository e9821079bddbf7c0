-- ===== src/Connection/Link.antt =====
-- DbMySQLPool/DbMySQLConnection.cpp: connecting, closing, and the private `Query` that sends a text
-- with one reconnect. What goes to the log only is left out.
use dbmysqlpool.Base.{
  ℕ, zero, suc, ◌+◌, Bool, true, false, not, ◌&&◌, ◌||◌, [], Option, none, Bytes, pos, ltb_ℤ, ◌==◌,
  if◌then◌else◌, is_empty,
}
use dbmysqlpool.Mysql.{Mysql, Target, Setting, Call}
use dbmysqlpool.Connection.State.{
  Connection, M, pure, when◌then◌else◌, if_null, ◌>>=◌, ◌>>◌, call, tell, ask, get, modify,
}

-- `free( m_psttBind )` and `mysql_stmt_close`, each behind its test for NULL.
unfoldable pub free_bind_array : M (Unit {0})
free_bind_array = do
  array ← get (λ c. c.bind_array)
  if_null array (pure tt) (λ _. modify (λ c. record c { bind_array = none }))

unfoldable pub close_stmt : M (Unit {0})
close_stmt = do
  stmt ← get (λ c. c.stmt)
  if_null stmt (pure tt)
      (λ id. do tell (Call.stmt_close id); modify (λ c. record c { stmt = none }))

unfoldable pub prepare_close : M Bool
unfolding free_bind_array close_stmt
prepare_close = do
  free_bind_array
  close_stmt
  modify (λ c. record c { bind_count = 0; bind_list = [] })
  pure true

unfoldable pub close : M (Unit {0})
unfolding prepare_close
close = do
  connected ← get (λ c. c.connected)
  when not connected
      then pure tt
      else do prepare_close; tell Call.close; modify (λ c. record c { connected = false })

-- The calls of `mysql_options` that `Connect` makes.
unfoldable pub set_options : M (Unit {0})
set_options = do
  c ← get (λ c. c)
  when is_empty c.plugin_dir then pure tt else tell (Call.options (Setting.plugin_dir c.plugin_dir))
  when c.secure_auth then pure tt else tell (Call.options (Setting.secure_auth c.secure_auth))
  when ltb_ℤ (pos 0) c.read_timeout
      then tell (Call.options (Setting.read_timeout c.read_timeout))
      else pure tt
  when ltb_ℤ (pos 0) c.write_timeout
      then tell (Call.options (Setting.write_timeout c.write_timeout))
      else pure tt

abbrev pub target : Connection → Target
target c = record {
  host = c.db_host;
  user_id = c.db_user_id;
  pass_word = c.db_pass_word;
  db_name = c.db_name;
  port = c.port;
}

abbrev pub cr_server_gone_error : ℕ
cr_server_gone_error = 2006

abbrev pub cr_server_lost : ℕ
cr_server_lost = 2013

abbrev pub is_gone : ℕ → Bool
is_gone errno = (errno == cr_server_gone_error) || (errno == cr_server_lost)

module _ (lib : Mysql) where
  -- The part of `Connect` behind a successful `mysql_real_connect`: a refused character set is only
  -- logged.
  unfoldable pub choose_character_set : M Bool
  choose_character_set = do
    modify (λ c. record c { connected = true })
    name ← get (λ c. c.character_set)
    when is_empty name
        then pure true
        else do call (λ t. lib.set_character_set t name) (Call.set_character_set name); pure true

  -- The part of `Connect` behind a successful `mysql_init`.
  unfoldable pub connect_begun : M Bool
  connect_begun = do
    set_options
    to ← get target
    up ← call (λ t. lib.real_connect t to) (Call.real_connect to)
    when not up then (do tell Call.close; pure false) else choose_character_set

  unfoldable pub connect : M Bool
  connect = do
    host ← get (λ c. c.db_host)
    when is_empty host then pure false else do
      started ← call lib.init Call.init
      when not started then pure false else connect_begun

  -- The public `Connect`; a NULL character set keeps the old one.
  unfoldable pub connect_to : Target → Option Bytes → M Bool
  unfolding connect
  connect_to to character_set = do
    modify (λ c. record c {
      db_host = to.host;
      db_user_id = to.user_id;
      db_pass_word = to.pass_word;
      db_name = to.db_name;
      port = to.port;
    })
    if_null character_set (pure tt) (λ name. modify (λ c. record c { character_set = name }))
    connect

  unfoldable pub ensure_connected : M Bool
  ensure_connected = do
    connected ← get (λ c. c.connected)
    when not connected then connect else pure true

  -- The loop `for( int i = 0; i < 2; ++i )` of `Query`: the rounds left and `cTryCount`.
  unfoldable pub query_loop : ℕ → ℕ → Bytes → M Bool
  query_loop zero try_count sql = pure false
  query_loop (suc rounds) try_count sql =
      let again = query_loop rounds (try_count + 1) sql in
      do
        sent ← call (λ t. lib.query t sql) (Call.query sql)
        errno ← ask lib.errno
        when sent
            then pure true
            else when (try_count + 1 == 1) && is_gone errno
            then (do close; back ← connect; when back then again else pure false)
            else pure false

  unfoldable pub query : Bytes → M Bool
  unfolding ensure_connected query_loop
  query sql = do ready ← ensure_connected; when ready then query_loop 2 0 sql else pure false
