-- ===== src/Time.antt =====
-- SipPlatform/TimeString.cpp and SipPlatform/TimeUtility.cpp: times as texts and differences of times. What
-- `localtime_r` and `gettimeofday` give is an argument.
pub mod Texts
pub mod Differences
use dbmysqlpool.Base.{
  ℕ, ◌+◌, ◌-◌, ◌*◌, ◌/◌, ◌%◌, ◌++◌, Bytes, ℤ, pos, add_ℤ, sub_ℤ, diff, leb, if◌then◌else◌,
}
use dbmysqlpool.Number.{as_int, bits64}
use dbmysqlpool.Decimal.{snprintf}
use dbmysqlpool.Log.Names.{Tm, padded}

-- `GetDateTimeString`, `GetDateString` and `GetTimeString` into a buffer of a size.
unfoldable pub date_time_string : Tm → ℕ → Bytes
date_time_string tm size = snprintf size (
    padded 4 tm.year
    ++ padded 2 tm.month
    ++ padded 2 tm.day
    ++ padded 2 tm.hour
    ++ padded 2 tm.minute
    ++ padded 2 tm.second)

unfoldable pub date_string : Tm → ℕ → Bytes
date_string tm size = snprintf size (padded 4 tm.year ++ padded 2 tm.month ++ padded 2 tm.day)

unfoldable pub time_string : Tm → ℕ → Bytes
time_string tm size = snprintf size (padded 2 tm.hour ++ padded 2 tm.minute ++ padded 2 tm.second)

-- `struct timeval`
pub record TimeVal : Type 0 where
  pub sec : ℕ
  pub usec : ℕ

-- `DiffTimeval`: C divides toward zero, and the sum is put into an `int`.
unfoldable pub diff_timeval : TimeVal → TimeVal → ℤ
diff_timeval old new = as_int (
    bits64 (
      if leb old.usec new.usec
      then add_ℤ (pos ((new.usec - old.usec) / 1000)) (diff (new.sec * 1000) (old.sec * 1000))
      else add_ℤ (sub_ℤ (pos 1000) (pos ((old.usec - new.usec) / 1000)))
          (diff (new.sec * 1000) (old.sec * 1000 + 1000))))

-- What `MiliSleep` asks of `nanosleep`: seconds and nanoseconds.
unfoldable pub mili_sleep : ℕ → ℕ × ℕ
mili_sleep mili = (mili / 1000, mili % 1000 * 1000000)

-- `GetCurrentMiliSecond`
unfoldable pub mili_second : TimeVal → ℕ
mili_second t = t.sec * 1000 + t.usec / 1000
