-- ===== src/Log.antt =====
-- SipPlatform/Log.h and SipPlatform/Log.cpp: the state of the log and its settings; the names, the folder and
-- the files of the log are in the modules below.
pub mod Names
pub mod Disk
pub mod Folder
pub mod Deletion
pub mod Order
pub mod Sorted
pub mod Print
pub mod Rotation
pub mod Bounds
pub mod Settings
use Prim.Native.Nat.{bit_and, bit_or}
use dbmysqlpool.Base.{
  ℕ, ◌+◌, ◌-◌, ◌*◌, ◌/◌, ◌%◌, ◌^◌, Bool, true, false, not, ◌&&◌, List, [], ◌∷◌, Option, none, some,
  Bytes, codes, ℤ, pos, negsuc, diff, pos_part, neg_part, ltb_ℤ, leb_ℤ, ltb, ◌==◌, if◌then◌else◌,
  ◌≡◌, refl, arith,
}
use dbmysqlpool.Number.{as_int, bits64}

-- The static members of `CLog`. The open file is known by its name.
pub record Log : Type 0 where
  pub dir_name : Option Bytes
  pub date : Bytes
  pub file : Option Bytes
  pub has_mutex : Bool
  pub level : ℕ
  pub max_log_size : ℤ
  pub log_size : ℤ
  pub max_folder_size : ℤ
  pub folder_size : ℤ
  pub index : ℕ
  pub has_call_back : Bool

abbrev pub min_log_file_size : ℕ
min_log_file_size = 1024 * 1024

abbrev pub max_log_file_size : ℕ
max_log_file_size = 1024 * 1024 * 1024

-- `EnumLogLevel`
pub data EnumLogLevel : Type 0 where
  log_error log_info log_debug log_network log_system log_sql log_sql1 log_sql2 log_sql3 :
      EnumLogLevel

abbrev pub bit_of : EnumLogLevel → ℕ
bit_of log_error = 0x0001
bit_of log_info = 0x0010
bit_of log_debug = 0x0100
bit_of log_network = 0x0200
bit_of log_system = 0x0400
bit_of log_sql = 0x0800
bit_of log_sql1 = 0x1000
bit_of log_sql2 = 0x2000
bit_of log_sql3 = 0x4000

unfoldable pub initial_log : Log
initial_log = record {
  dir_name = none;
  date = [];
  file = none;
  has_mutex = false;
  level = 0x0001;
  max_log_size = pos (1024 * 1024 * 10);
  log_size = pos 0;
  max_folder_size = pos 3145728000;
  folder_size = pos 0;
  index = 1;
  has_call_back = false;
}

unfoldable pub set_level : ℕ → Log → Log
set_level level log = record log { level = bit_or (bit_or 0x0001 0x0400) level }

unfoldable pub set_null_level : Log → Log
set_null_level log = record log { level = 0 }

unfoldable pub set_debug_level : Log → Log
set_debug_level log = record log { level = bit_or log.level (bit_of log_debug) }

unfoldable pub is_print_log_level : EnumLogLevel → Log → Bool
is_print_log_level level log = not (bit_and log.level (bit_of level) == 0)

unfoldable pub set_max_log_size : ℤ → Log → Log
set_max_log_size size log =
    if ltb_ℤ size (pos min_log_file_size)
    then record log { max_log_size = pos min_log_file_size }
    else if ltb_ℤ (pos max_log_file_size) size
    then record log { max_log_size = pos max_log_file_size }
    else record log { max_log_size = size }

abbrev pub is_zero : ℤ → Bool
is_zero z = (pos_part z == 0) && (neg_part z == 0)

-- The product of an `int` that is not negative and 30, which wraps.
abbrev pub times_thirty : ℤ → ℤ
times_thirty z = as_int (pos_part z * 30)

unfoldable pub set_max_folder_size : ℤ → Log → Log
set_max_folder_size size log =
    let least =
      if is_zero log.max_log_size
      then pos (min_log_file_size * 30)
      else times_thirty log.max_log_size in
    record log { max_folder_size = if ltb_ℤ size least then least else size }
