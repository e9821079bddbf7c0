-- ===== src/Mysql.antt =====
-- The MySQL client library and `malloc`, which the repository only calls. Its answers are an
-- argument of the model: a function of the calls made so far on the handle, newest first, with
-- what they answered. A handle is the `m_sttMySQL` of one connection object.
use dbmysqlpool.Base.{ℕ, Bool, List, Option, Bytes, ℤ}

-- One entry of the `MYSQL_BIND` array: zeroed by `memset`, or set by `Bind`, where `buffer` is
-- the entry of `m_clsBindList` that the pointer goes to.
pub data Param : Type 0 where
  unset : Param
  text : (buffer buffer_length : ℕ) → Param

-- `MYSQL_ROW`: a column is NULL or a text.
abbrev pub Row : Type 0
Row = List (Option Bytes)

pub data Setting : Type 0 where
  plugin_dir : Bytes → Setting
  secure_auth : Bool → Setting
  read_timeout : ℤ → Setting
  write_timeout : ℤ → Setting

-- The arguments of `mysql_real_connect`.
pub record Target : Type 0 where
  pub host : Bytes
  pub user_id : Bytes
  pub pass_word : Bytes
  pub db_name : Bytes
  pub port : ℤ

-- One call of the library with its answer, where `true` is success or a pointer that is not NULL.
pub data Call : Type 0 where
  init : Bool → Call
  options : Setting → Call
  real_connect : Target → Bool → Call
  set_character_set : Bytes → Bool → Call
  close : Call
  query : Bytes → Bool → Call
  use_result : Bool → Call
  fetch_row : Option Row → Call
  free_result : Call
  stmt_init : Option ℕ → Call
  stmt_prepare : ℕ → Bytes → Bool → Call
  stmt_bind_param : ℕ → Bool → Call
  stmt_execute : ℕ → List (Option Bytes) → Bool → Call
  stmt_bind_result : ℕ → Bool → Call
  stmt_fetch : ℕ → Call
  stmt_close : ℕ → Call

abbrev pub Trace : Type 0
Trace = List Call

-- What `mysql_stmt_fetch` leaves: no row (a result other than 0), or what the buffer then holds,
-- which is nothing new for a NULL column.
pub data Fetched : Type 0 where
  no_row : Fetched
  row : Option Bytes → Fetched

pub record Mysql : Type 0 where
  pub init : Trace → Bool
  pub real_connect : Trace → Target → Bool
  pub set_character_set : Trace → Bytes → Bool
  pub query : Trace → Bytes → Bool
  pub errno : Trace → ℕ
  pub use_result : Trace → Bool
  pub fetch_row : Trace → Option Row
  pub insert_id : Trace → ℕ
  pub affected_rows : Trace → ℕ
  pub stmt_init : Trace → Option ℕ
  pub stmt_prepare : Trace → ℕ → Bytes → Bool
  pub stmt_param_count : Trace → Option ℕ → ℕ
  pub stmt_bind_param : Trace → ℕ → Bool
  pub stmt_execute : Trace → ℕ → List (Option Bytes) → Bool
  pub stmt_insert_id : Trace → ℕ → ℕ
  pub stmt_bind_result : Trace → ℕ → Bool
  -- The argument is `buffer_length`.
  pub stmt_fetch : Trace → ℕ → ℕ → Fetched
  -- `malloc` of the given number of bytes or entries gives a pointer.
  pub malloc : Trace → ℕ → Bool
