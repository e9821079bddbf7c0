-- ===== src/Connection/History.antt =====
-- DbMySQLPool/DbMySQLConnection.cpp: what the life of a connection object can look like, as any
-- sequence of its public calls.
use dbmysqlpool.Base.{
  ℕ, Bool, true, false, List, [], Option, none, some, Bytes, ℤ, ◌≡◌, ◌≢◌, refl, ◌∙◌, arith,
}
use dbmysqlpool.Mysql.{Mysql, Row, Target, Call}
use dbmysqlpool.Connection.State.{
  Connection, Session, call, LogLevel, new_connection, set_read_timeout, set_write_timeout,
  set_plugin_dir, set_secure_auth, set_log_level,
}
use dbmysqlpool.Connection.Protocol.{Link, replay, check}
use dbmysqlpool.Connection.Link.{
  prepare_close, close, set_options, choose_character_set, connect_begun, connect, connect_to,
}
use dbmysqlpool.Connection.Prepared.{prepare, bind, prepare_execute}
use dbmysqlpool.Connection.Results.{
  execute, execute_variadic, execute_list, insert, query_rows, query_one,
}
use dbmysqlpool.Connection.Lookup.{query_one_arg, is_exist_table, get_affected_row, get_error}
use dbmysqlpool.Connection.Invariant.{
  Inv, prepare_close-Inv, close-Inv, close-shut, connect-Inv, query-Inv,
}
use dbmysqlpool.Connection.Invariant.Statements.{prepare-Inv, bind-Inv, prepare_execute-Inv}
use dbmysqlpool.Connection.Invariant.Results.{
  execute_variadic-Inv, execute_list-Inv, insert-Inv, query_rows-Inv, query_one-Inv,
  query_one_arg-Inv, is_exist_table-Inv,
}

abbrev pub new_session : Session
new_session = record { conn = new_connection; trace = [] }

-- The setters, as changes of the members.
pub data Setter : (Connection → Connection) → Type 0 where
  sets_read_timeout : (second : ℤ) → Setter (set_read_timeout second)
  sets_write_timeout : (second : ℤ) → Setter (set_write_timeout second)
  sets_plugin_dir : (dir : Bytes) → Setter (set_plugin_dir dir)
  sets_secure_auth : (secure : Bool) → Setter (set_secure_auth secure)
  sets_log_level : (level : LogLevel) → Setter (set_log_level level)

-- One public call; the `QueryOne`s for numbers make the calls of the one for a text. `Connect` is called on
-- an object that is not connected, `GetError` on one that has called the library before, since `m_sttMySQL`
-- is not set before `mysql_init`, and the loop over the rows of a result has enough fuel.
pub data Step (lib : Mysql) (s : Session) : Session → Type 1 where
  sets : {f : Connection → Connection} → Setter f → Step lib s (record s { conn = f s.conn })
  connects :
      (to : Target) (character_set : Option Bytes)
      → s.conn.connected ≡ false
      → Step lib s (connect_to lib to character_set s).1
  closes : Step lib s (close s).1
  executes : (sql : Bytes) → Step lib s (execute lib sql s).1
  executes_variadic :
      (sql : Bytes) (count : ℤ) (args : ℕ → Option Bytes)
      → Step lib s (execute_variadic lib sql count args s).1
  executes_list : (sql : Bytes) (args : List Bytes) → Step lib s (execute_list lib sql args s).1
  inserts : (sql : Bytes) (wants_id : Bool) → Step lib s (insert lib sql wants_id s).1
  queries :
      {D : Type 0} (fuel : ℕ) (sql : Bytes) (fetch : D → Row → Bool × D) (d : D)
      → (query_rows lib fuel sql fetch d s).0 ≢ none
      → Step lib s (query_rows lib fuel sql fetch d s).1
  queries_one : (sql : Bytes) → Step lib s (query_one lib sql s).1
  queries_one_arg :
      (sql arg : Bytes) (data_size : ℕ) (old : Bytes)
      → Step lib s (query_one_arg lib sql arg data_size old s).1
  prepares : (sql : Bytes) → Step lib s (prepare lib sql s).1
  binds : (index : ℤ) (value : Bytes) → Step lib s (bind index value s).1
  executes_prepared : (wants_id : Bool) → Step lib s (prepare_execute lib wants_id s).1
  closes_prepared : Step lib s (prepare_close s).1
  looks_up_table : (table_name : Bytes) → Step lib s (is_exist_table lib table_name s).1
  asks_affected_row : Step lib s (get_affected_row lib s).1
  asks_error : s.trace ≢ [] → Step lib s (get_error lib s).1

pub data Reach (lib : Mysql) : Session → Type 1 where
  start : Reach lib new_session
  next : {s t : Session} → Reach lib s → Step lib s t → Reach lib t

set_read_timeout-Inv :
    (second : ℤ) (s : Session) → Inv s → Inv (record s { conn = set_read_timeout second s.conn })
unfolding set_read_timeout
set_read_timeout-Inv second s v = ground arith

set_write_timeout-Inv :
    (second : ℤ) (s : Session) → Inv s → Inv (record s { conn = set_write_timeout second s.conn })
unfolding set_write_timeout
set_write_timeout-Inv second s v = ground arith

Setter-Inv :
    {f : Connection → Connection}
    → Setter f
    → (s : Session) → Inv s
    → Inv (record s { conn = f s.conn })
unfolding set_plugin_dir set_secure_auth set_log_level
Setter-Inv (sets_read_timeout second) s v = set_read_timeout-Inv second s v
Setter-Inv (sets_write_timeout second) s v = set_write_timeout-Inv second s v
Setter-Inv (sets_plugin_dir dir) s v = ground arith
Setter-Inv (sets_secure_auth secure) s v = ground arith
Setter-Inv (sets_log_level level) s v = ground arith

new_session-Inv : Inv new_session
unfolding new_connection replay
new_session-Inv = ground arith

-- The session that `Connect` leaves with the new target.
abbrev targeted : Target → Option Bytes → Session → Session
targeted to none s = record s {
  conn = record s.conn {
    db_host = to.host;
    db_user_id = to.user_id;
    db_pass_word = to.pass_word;
    db_name = to.db_name;
    port = to.port;
  };
}
targeted to (some name) s = record s {
  conn = record s.conn {
    db_host = to.host;
    db_user_id = to.user_id;
    db_pass_word = to.pass_word;
    db_name = to.db_name;
    port = to.port;
    character_set = name;
  };
}

connect_to_lem :
    (lib : Mysql) (to : Target) (character_set : Option Bytes) (s : Session)
    → connect_to lib to character_set s ≡ connect lib (targeted to character_set s)
unfolding connect_to
connect_to_lem lib to none s = refl
connect_to_lem lib to (some name) s = refl

targeted-Inv :
    (to : Target) (character_set : Option Bytes) (s : Session)
    → Inv s
    → Inv (targeted to character_set s)
targeted-Inv to none s v = ground arith
targeted-Inv to (some name) s v = ground arith

targeted-connected :
    (to : Target) (character_set : Option Bytes) (s : Session)
    → (targeted to character_set s).conn.connected ≡ s.conn.connected
targeted-connected to none s = refl
targeted-connected to (some name) s = refl

pub connect_to-Inv :
    (lib : Mysql) (to : Target) (character_set : Option Bytes) (s : Session)
    → Inv s
    → s.conn.connected ≡ false
    → Inv (connect_to lib to character_set s).1
connect_to-Inv lib to character_set s v e = rw (connect_to_lem lib to character_set s) (
    (connect-Inv lib (targeted to character_set s) (targeted-Inv to character_set s v)
      (targeted-connected to character_set s ∙ e)).0)

-- `Connect` succeeds exactly when it leaves the object connected.
pub connect_to-connected :
    (lib : Mysql) (to : Target) (character_set : Option Bytes) (s : Session)
    → Inv s
    → s.conn.connected ≡ false
    → (connect_to lib to character_set s).1.conn.connected ≡ (connect_to lib to character_set s).0
connect_to-connected lib to character_set s v e = rw (connect_to_lem lib to character_set s) (
    (connect-Inv lib (targeted to character_set s) (targeted-Inv to character_set s v)
      (targeted-connected to character_set s ∙ e)).1)

targeted-host :
    (to : Target) (character_set : Option Bytes) (s : Session)
    → (targeted to character_set s).conn.db_host ≡ to.host
targeted-host to none s = refl
targeted-host to (some name) s = refl

get_affected_row-Inv : (lib : Mysql) (s : Session) → Inv s → Inv (get_affected_row lib s).1
unfolding get_affected_row
get_affected_row-Inv lib s v = v

get_error-Inv : (lib : Mysql) (s : Session) → Inv s → Inv (get_error lib s).1
unfolding get_error
get_error-Inv lib s v = v

-- Each public call keeps the connection object well formed, and each call of the client library that it makes
-- finds the handle, the statement and the result in the state that it needs, whatever the library answers.
pub Step-Inv : {lib : Mysql} {s t : Session} → Step lib s t → Inv s → Inv t
unfolding execute
Step-Inv {s} (sets f) v = Setter-Inv f s v
Step-Inv {lib} {s} (connects to character_set e) v = connect_to-Inv lib to character_set s v e
Step-Inv closes v = close-Inv v
Step-Inv {lib} {s} (executes sql) v = (query-Inv lib sql s v).0
Step-Inv {lib} {s} (executes_variadic sql count args) v =
    execute_variadic-Inv lib sql count args s v
Step-Inv {lib} {s} (executes_list sql args) v = execute_list-Inv lib sql args s v
Step-Inv {lib} {s} (inserts sql wants_id) v = insert-Inv lib sql wants_id s v
Step-Inv {lib} {s} (queries fuel sql fetch d h) v = query_rows-Inv lib fuel sql fetch d s v h
Step-Inv {lib} {s} (queries_one sql) v = query_one-Inv lib sql s v
Step-Inv {lib} {s} (queries_one_arg sql arg data_size old) v =
    query_one_arg-Inv lib sql arg data_size old s v
Step-Inv {lib} {s} (prepares sql) v = prepare-Inv lib sql s v
Step-Inv {s} (binds index value) v = bind-Inv index value s v
Step-Inv {lib} {s} (executes_prepared wants_id) v = prepare_execute-Inv lib wants_id s v
Step-Inv closes_prepared v = prepare_close-Inv v
Step-Inv {lib} {s} (looks_up_table table_name) v = is_exist_table-Inv lib table_name s v
Step-Inv {lib} {s} asks_affected_row v = get_affected_row-Inv lib s v
Step-Inv {lib} {s} (asks_error h) v = get_error-Inv lib s v

-- In every state that the public calls of a new connection object lead to, each call of the client library so far
-- that needs a closed, a begun or a connected handle, the open statement, or a result to read found it so;
-- the handle is connected exactly when `m_bConnected` says so, the statement that is open on it is
-- `m_psttStmt`, each result that `mysql_use_result` gave is freed, and the object is well formed. `Connect` is
-- only called on an object that is not connected, `GetError` only after a call of the library, and the loop over
-- the rows of a result has enough fuel. A result that no call takes is not followed: the library may refuse the
-- text after it.
pub Reach-Inv : {lib : Mysql} {s : Session} → Reach lib s → Inv s
Reach-Inv start = new_session-Inv
Reach-Inv (next r st) = Step-Inv st (Reach-Inv r)

-- After `Close`, in any state that the public calls lead to, the handle is closed and no statement is open.
close-down :
    {lib : Mysql} {s : Session}
    → Reach lib s
    → replay (close s).1.trace
      ≡ some (record { link = Link.down; open_stmt = none; reading = false })
close-down {s} r = ground (arith, close-Inv (Reach-Inv r), close-shut s)

-- A call that did not find what it needs stays so.
set_options-none : (s : Session) → replay s.trace ≡ none → replay (set_options s).1.trace ≡ none
unfolding set_options replay
set_options-none s h = ground arith

connect_begun-none :
    (lib : Mysql) (s : Session)
    → replay s.trace ≡ none
    → replay (connect_begun lib s).1.trace ≡ none
unfolding connect_begun choose_character_set replay
connect_begun-none lib s h = ground (arith, set_options-none s h)

connect_again :
    (lib : Mysql) (s : Session)
    → Inv s
    → s.conn.connected ≡ true
    → s.conn.db_host ≢ []
    → replay (connect lib s).1.trace ≡ none
unfolding connect check replay
connect_again lib s v e h = ground (arith, connect_begun-none lib (call lib.init Call.init s).1)

-- In any such state in which the object is connected, `Connect` with a host makes a call that does not find the
-- handle as it needs it: it starts by `mysql_init` over the open handle.
pub connect_twice :
    {lib : Mysql} {s : Session} (to : Target) (character_set : Option Bytes)
    → Reach lib s
    → s.conn.connected ≡ true
    → to.host ≢ []
    → replay (connect_to lib to character_set s).1.trace ≡ none
connect_twice {lib} {s} to character_set r e h = rw (connect_to_lem lib to character_set s) (
    connect_again lib (targeted to character_set s) (targeted-Inv to character_set s (Reach-Inv r))
      (targeted-connected to character_set s ∙ e)
      (ground (arith, targeted-host to character_set s)))
