-- ===== src/Log/Settings.antt =====
-- SipPlatform/Log.cpp: the limits that the settings allow.
use dbmysqlpool.Base.{
  ℕ, ◌*◌, ◌≤◌, ◌<◌, ◌^◌, true, ℤ, pos, negsuc, leb_ℤ, leb, pos_part, if◌then◌else◌, ◌≡◌, refl,
  arith,
}
use dbmysqlpool.Log.{
  Log, initial_log, min_log_file_size, max_log_file_size, set_max_log_size, set_max_folder_size,
}

-- The nearest number between one megabyte and one gigabyte.
abbrev pub clamped : ℤ → ℕ
clamped z =
    if leb (pos_part z) min_log_file_size
    then min_log_file_size
    else if leb max_log_file_size (pos_part z)
    then max_log_file_size
    else pos_part z

set_max_log_size-clamped :
    (size : ℤ) (log : Log) → (set_max_log_size size log).max_log_size ≡ pos (clamped size)
unfolding set_max_log_size
set_max_log_size-clamped (pos n) log = ground arith
set_max_log_size-clamped (negsuc n) log = ground arith

set_max_folder_size-least :
    (folder : ℤ) (log : Log) (max : ℕ)
    → log.max_log_size ≡ pos max
    → 0 < max
    → max * 30 < 2 ^ 31
    → leb_ℤ (pos (max * 30)) (set_max_folder_size folder log).max_folder_size ≡ true
unfolding set_max_folder_size
set_max_folder_size-least folder log max e lo hi = ground (arith, e)

-- If 30 files of one megabyte to one gigabyte, of the size nearest to the one that `SetMaxLogSize` is given, are
-- below two gigabytes, it sets that size, and after it `SetMaxFolderSize` leaves room for 30 such files, whatever
-- it is given.
set_max_folder_size-clamped :
    (size folder : ℤ) (log : Log)
    → clamped size * 30 < 2 ^ 31
    → ((set_max_log_size size log).max_log_size ≡ pos (clamped size))
      × (min_log_file_size ≤ clamped size)
      × (clamped size ≤ max_log_file_size)
      × (leb_ℤ
            (pos (clamped size * 30))
            (set_max_folder_size folder (set_max_log_size size log)).max_folder_size
          ≡ true)
set_max_folder_size-clamped size folder log h = (
  set_max_log_size-clamped size log,
  ground arith,
  ground arith,
  set_max_folder_size-least folder (set_max_log_size size log) (clamped size)
      (set_max_log_size-clamped size log) (ground arith) h,
)

-- With files of one gigabyte the product does not fit an `int`, and the folder is left without a limit.
folder_unlimited :
    (set_max_folder_size (pos 0) (set_max_log_size (pos (2 ^ 30)) initial_log)).max_folder_size
    ≡ pos 0
unfolding set_max_folder_size set_max_log_size initial_log
folder_unlimited = refl
