-- ===== src/Connection/State.antt =====
-- DbMySQLPool/DbMySQLConnection.h and the small methods of DbMySQLPool/DbMySQLConnection.cpp: the
-- members of a connection object, its constructor and the setters. A session is an object together
-- with the calls that it has made of the client library; a method is a step on sessions.
use dbmysqlpool.Base.{
  ℕ, Bool, true, false, List, [], ◌∷◌, Option, none, some, Bytes, ℤ, pos, ltb_ℤ, if◌then◌else◌,
}
use dbmysqlpool.Mysql.{Param, Trace, Call}

-- The log levels that a connection can be given for its SQL texts.
pub data LogLevel : Type 0 where
  log_sql log_sql1 log_sql2 log_sql3 : LogLevel

pub record Connection : Type 0 where
  pub db_host : Bytes
  pub db_user_id : Bytes
  pub db_pass_word : Bytes
  pub db_name : Bytes
  pub character_set : Bytes
  pub plugin_dir : Bytes
  pub secure_auth : Bool
  pub port : ℤ
  pub connected : Bool
  pub stmt : Option ℕ
  pub bind_array : Option (List Param)
  pub bind_count : ℕ
  pub bind_list : List Bytes
  pub read_timeout : ℤ
  pub write_timeout : ℤ
  pub log_level : LogLevel

unfoldable pub new_connection : Connection
new_connection = record {
  db_host = [];
  db_user_id = [];
  db_pass_word = [];
  db_name = [];
  character_set = [];
  plugin_dir = [];
  secure_auth = true;
  port = pos 3306;
  connected = false;
  stmt = none;
  bind_array = none;
  bind_count = 0;
  bind_list = [];
  read_timeout = pos 0;
  write_timeout = pos 0;
  log_level = log_sql;
}

unfoldable pub set_read_timeout : ℤ → Connection → Connection
set_read_timeout second c = if ltb_ℤ (pos 0) second then record c { read_timeout = second } else c

unfoldable pub set_write_timeout : ℤ → Connection → Connection
set_write_timeout second c = if ltb_ℤ (pos 0) second then record c { write_timeout = second } else c

unfoldable pub set_plugin_dir : Bytes → Connection → Connection
set_plugin_dir dir c = record c { plugin_dir = dir }

unfoldable pub set_secure_auth : Bool → Connection → Connection
set_secure_auth secure c = record c { secure_auth = secure }

unfoldable pub set_log_level : LogLevel → Connection → Connection
set_log_level level c = record c { log_level = level }

pub record Session : Type 0 where
  pub conn : Connection
  pub trace : Trace

abbrev pub M : Type 0 → Type 0
M A = Session → A × Session

abbrev pub pure : {A : Type 0} → A → M A
pure a s = (a, s)

infixl 5 ◌>>=◌ ◌>>◌
abbrev pub ◌>>=◌ : {A B : Type 0} → M A → (A → M B) → M B
◌>>=◌ m f s = f (m s).0 (m s).1

abbrev pub ◌>>◌ : {A B : Type 0} → M A → M B → M B
◌>>◌ m k s = k (m s).1

-- The conditional statement. It takes the session, so that a stuck one is no function.
infix 1 when◌then◌else◌
abbrev pub when◌then◌else◌ : {A : Type 0} → Bool → M A → M A → M A
when◌then◌else◌ true m k s = m s
when◌then◌else◌ false m k s = k s

-- `if( pointer == NULL )`, with the pointer's value for the other branch.
abbrev pub if_null : {A B : Type 0} → Option B → M A → (B → M A) → M A
if_null none m k s = m s
if_null (some b) m k s = k b s

-- A call of the library: what it answers to the calls before it, and the record of the call.
abbrev pub call : {A : Type 0} → (Trace → A) → (A → Call) → M A
call answer entry s = (answer s.trace, record s { trace = entry (answer s.trace) ∷ s.trace })

-- A call without an answer, and one that the trace does not keep.
abbrev pub tell : Call → M (Unit {0})
tell entry s = (tt, record s { trace = entry ∷ s.trace })

abbrev pub ask : {A : Type 0} → (Trace → A) → M A
ask answer s = (answer s.trace, s)

abbrev pub get : {A : Type 0} → (Connection → A) → M A
get f s = (f s.conn, s)

abbrev pub modify : (Connection → Connection) → M (Unit {0})
modify f s = (tt, record s { conn = f s.conn })
