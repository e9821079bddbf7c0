-- ===== src/Tests/Samples.antt =====
-- Sample answers of the client library and of the other threads.
use dbmysqlpool.Base.{ℕ, Bool, true, false, [], ◌∷◌, Option, none, some, Bytes, codes, pos}
use dbmysqlpool.Mysql.{Mysql, Row, Trace, Call, Target, row}
use dbmysqlpool.Connection.State.{Session, new_connection}
use dbmysqlpool.Pool.State.{World, new_pool}

-- A result of one row is left to read right after `mysql_use_result`.
abbrev pub next_row : Trace → Option Row
next_row [] = none
next_row (Call.use_result ok ∷ t) = some (some (codes "7") ∷ [])
next_row (c ∷ t) = none

-- A server that answers `accepts` to each text, and finds the same number of parameters in each
-- statement.
abbrev pub server : Bool → ℕ → Mysql
server accepts params = record {
  init = λ t. true;
  real_connect = λ t to. true;
  set_character_set = λ t name. true;
  query = λ t sql. accepts;
  errno = λ t. 1064;
  use_result = λ t. true;
  fetch_row = next_row;
  insert_id = λ t. 12;
  affected_rows = λ t. 1;
  stmt_init = λ t. some 1;
  stmt_prepare = λ t id sql. true;
  stmt_param_count = λ t o. params;
  stmt_bind_param = λ t id. true;
  stmt_execute = λ t id values. accepts;
  stmt_insert_id = λ t id. 12;
  stmt_bind_result = λ t id. true;
  stmt_fetch = λ t id size. row (some (codes "7"));
  malloc = λ t size. true;
}

-- A server that cannot be reached.
abbrev pub unreachable : Mysql
unreachable = record (server true 0) { real_connect = λ t to. false }

abbrev pub localhost : Target
localhost = record {
  host = codes "localhost";
  user_id = codes "test";
  pass_word = codes "1234";
  db_name = codes "test";
  port = pos 3306;
}

abbrev pub unconnected : Session
unconnected = record { conn = record new_connection { port = pos 3306 }; trace = [] }

abbrev pub connected : Session
connected = record {
  conn = record new_connection { connected = true; db_host = codes "localhost" };
  trace = [];
}

-- A pool of three objects: one is in use, and two stand by.
abbrev pub three : World
three = record {
  pool = record new_pool { standby_list = 1 ∷ 2 ∷ []; use_map = 0 ∷ [] };
  objects = λ id. connected;
  next_object = 3;
  deleted = [];
}

-- Other threads that do nothing.
abbrev pub idle : ℕ → World → World
idle i w = w

abbrev pub insert_text : Bytes
insert_text = codes "INSERT INTO t VALUES(?)"

abbrev pub select_text : Bytes
select_text = codes "SELECT a FROM t"
