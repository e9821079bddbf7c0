-- ===== src/Watcher.antt =====
-- MySQLSlaveOverWatcher/MySQLSlaveOverWatcher.cpp: the check that restarts a stopped replication slave, and
-- when it runs. The sleeps are left out.
pub mod Repairs
pub mod Timer
use dbmysqlpool.Base.{
  ℕ, zero, suc, ◌+◌, Bool, true, false, not, ◌||◌, List, [], ◌∷◌, Option, none, some, Bytes, codes,
  ℤ, pos, ltb, ◌==◌, get_or, length,
}
use dbmysqlpool.Number.{atoi}
use dbmysqlpool.Text.Case.{same_ignoring_case}
use dbmysqlpool.Mysql.{Mysql, Row}
use dbmysqlpool.Connection.State.{M, pure, when◌then◌else◌, if_null, ◌>>=◌, ◌>>◌}
use dbmysqlpool.Connection.Results.{execute, query_rows}

-- `CSlaveStatus`
pub record SlaveStatus : Type 0 where
  pub slave_io_running : Bytes
  pub slave_sql_running : Bytes
  pub last_err_no : ℤ
  pub last_error : Bytes

abbrev pub new_status : SlaveStatus
new_status = record {
  slave_io_running = [];
  slave_sql_running = [];
  last_err_no = pos 0;
  last_error = [];
}

-- A column of the row, or the old value for a NULL.
abbrev pub column_text : Option Bytes → Bytes → Bytes
column_text none old = old
column_text (some v) old = v

abbrev pub column_int : Option Bytes → ℤ → ℤ
column_int none old = old
column_int (some v) old = atoi v

-- `FetchStatus`; `none`: a column that is read is behind the row.
abbrev pub fetch_status : Option SlaveStatus → Row → Bool × Option SlaveStatus
fetch_status none row = (true, none)
fetch_status (some status) row = elim (ltb 19 (length row)) [
  | false ↦ (true, none)
  | true ↦ (
    true,
    some (record {
      slave_io_running = column_text (get_or row 10 none) status.slave_io_running;
      slave_sql_running = column_text (get_or row 11 none) status.slave_sql_running;
      last_err_no = column_int (get_or row 18 none) status.last_err_no;
      last_error = column_text (get_or row 19 none) status.last_error;
    }),
  )
]

-- One of the two threads of the slave says `No`.
unfoldable pub is_stopped : SlaveStatus → Bool
is_stopped status =
    same_ignoring_case status.slave_io_running (codes "No")
    || same_ignoring_case status.slave_sql_running (codes "No")

abbrev pub status_text : Bytes
status_text = codes "SHOW SLAVE STATUS"

abbrev pub stop_text : Bytes
stop_text = codes "STOP SLAVE"

abbrev pub skip_text : Bytes
skip_text = codes "SET GLOBAL SQL_SLAVE_SKIP_COUNTER = 1"

abbrev pub start_text : Bytes
start_text = codes "START SLAVE"

module _ (lib : Mysql) where
  -- The statements of a round that found the slave stopped; the result is that of the last.
  unfoldable pub restart : M Bool
  unfolding execute
  restart = do execute lib stop_text; execute lib skip_text; execute lib start_text

  -- `CheckSlave`, with the rounds that are left and the fuel for the rows. `none`: one of them ran out, or
  -- a row was too short.
  unfoldable pub check_slave : ℕ → ℕ → M (Option Bool)
  unfolding restart is_stopped
  check_slave zero fuel = pure none
  check_slave (suc rounds) fuel =
      let again = check_slave rounds fuel in
      do
        answer ← query_rows lib fuel status_text fetch_status (some new_status)
        if_null answer (pure none) (λ a. if_null a.1 (pure none) (λ status.
            when not (is_stopped status)
            then pure (some true)
            else (do started ← restart; when not started then pure (some true) else again)))

-- A round of the loop of `ServiceMain`: whether `CheckSlave` is called, and `iSecond` after.
abbrev pub watch_second : ℕ → ℕ → Bool × ℕ
watch_second period second = elim (second + 1 == period) [
  | true ↦ (true, 0)
  | false ↦ (false, second + 1)
]

-- `iSecond` after some rounds with one period, and how often `CheckSlave` was called.
abbrev pub watch_seconds : ℕ → ℕ → ℕ → ℕ × ℕ
watch_seconds zero period second = (0, second)
watch_seconds (suc n) period second =
    let rest = watch_seconds n period (watch_second period second).1 in
    elim (watch_second period second).0 [ true ↦ (suc rest.0, rest.1) | false ↦ rest ]
