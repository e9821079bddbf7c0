-- ===== src/Log/Print.antt =====
-- SipPlatform/Log.cpp: `CLog::Print`, in its two sections under the mutex.
use dbmysqlpool.Base.{
  ℕ, zero, suc, Bool, true, false, not, ◌&&◌, ◌++◌, Option, none, some, Bytes, codes, ℤ, pos,
  negsuc, add_ℤ, ltb_ℤ, leb_ℤ, if◌then◌else◌,
}
use dbmysqlpool.StringMap.{same_key}
use dbmysqlpool.Number.{as_int}
use dbmysqlpool.Decimal.{snprintf}
use dbmysqlpool.Log.{Log, EnumLogLevel, is_print_log_level}
use dbmysqlpool.Log.Names.{Tm, padded, date_text, full_name}
use dbmysqlpool.Log.Disk.{Disk, get_file_size}
use dbmysqlpool.Log.Folder.{delete_old_file}

-- What is printed and when: `text` is what `vsnprintf` makes of the arguments, `micro` the microseconds and
-- `thread` and `thread_number` the thread's number in hexadecimal and in decimal digits.
pub record Message : Type 0 where
  pub level : EnumLogLevel
  pub tm : Tm
  pub micro : ℕ
  pub thread : Bytes
  pub thread_number : Bytes
  pub text : Bytes

abbrev pub level_header : EnumLogLevel → Bytes
level_header EnumLogLevel.log_error = codes "[ERROR] "
level_header EnumLogLevel.log_info = codes "[INFO] "
level_header EnumLogLevel.log_debug = codes "[DEBUG] "
level_header EnumLogLevel.log_network = codes "[NETWORK] "
level_header EnumLogLevel.log_system = codes "[SYSTEM] "
level_header EnumLogLevel.log_sql = codes "[SQL] "
level_header EnumLogLevel.log_sql1 = codes "[SQL1] "
level_header EnumLogLevel.log_sql2 = codes "[SQL2] "
level_header EnumLogLevel.log_sql3 = codes "[SQL3] "

abbrev clock_text : Tm → Bytes
clock_text tm =
    padded 2 tm.hour ++ codes ":" ++ padded 2 tm.minute ++ codes ":" ++ padded 2 tm.second

-- The line in a file and on the screen.
unfoldable pub file_line : Message → Bytes
file_line m =
    codes "["
    ++ clock_text m.tm
    ++ codes "."
    ++ padded 6 m.micro
    ++ codes "] "
    ++ level_header m.level
    ++ codes "["
    ++ m.thread
    ++ codes "] "
    ++ snprintf 8191 m.text
    ++ codes "\n"

unfoldable pub screen_line : Message → Bytes
screen_line m =
    codes "["
    ++ clock_text m.tm
    ++ codes "] "
    ++ level_header m.level
    ++ snprintf 8191 m.text
    ++ codes "\n"

-- Where a message goes.
pub data Output : Type 0 where
  to_file to_screen to_call_back : Bytes → Output

module _ (D : Disk) where
  abbrev pub Logged : Type 0
  Logged = Log × D.State

  -- The opening behind `OPEN_FILE` when the file's size is below the maximum.
  unfoldable pub open_file : Bytes → Bytes → ℤ → Log → D.State → Bool × Logged
  open_file name date size log d =
      let opened = D.open_append d name in
      (
        opened.0,
        (
          record log { log_size = size; file = if opened.0 then some name else none; date = date },
          opened.1,
        ),
      )

  -- `OPEN_FILE`. `none`: the fuel ran out, the folder cannot be read, or the name is made of a directory that
  -- is NULL.
  unfoldable pub open_loop : ℕ → Tm → Log → D.State → Option (Bool × Logged)
  unfolding open_file delete_old_file full_name get_file_size date_text
  open_loop zero tm log d = none
  open_loop (suc fuel) tm log d = elim log.dir_name [
    | none ↦ none
    | some dir ↦
        let name = full_name dir tm log.index in
        elim (delete_old_file D (record log { log_size = pos 0; file = none }) d) [
          | none ↦ none
          | some (log', d') ↦
              let size = get_file_size D d' name in
              let next = open_loop fuel tm (record log' { index = suc log'.index }) d' in
              if ltb_ℤ (pos 0) log'.max_log_size
              then (if leb_ℤ log'.max_log_size (pos size)
                  then next
                  else some (open_file name (date_text tm) (as_int size) log' d'))
              else some (open_file name (date_text tm) (pos 0) log' d')
        ]
  ]

  -- The first section: a new file on a new day, and where the file is full.
  unfoldable pub open_if_due : ℕ → Tm → Log → D.State → Option (Bool × Logged)
  unfolding open_loop
  open_if_due fuel tm log d =
      let has_dir : Bool = elim log.dir_name [ none ↦ false | some dir ↦ true ] in
      if has_dir && not (same_key log.date (date_text tm))
      then open_loop fuel tm (record log { index = 1 }) d
      else if ltb_ℤ (pos 0) log.max_log_size && leb_ℤ log.max_log_size log.log_size
      then open_loop fuel tm (record log { index = suc log.index }) d
      else some (true, (log, d))

  -- The second section.
  unfoldable pub write_message : Message → Logged → Output × Logged
  unfolding file_line screen_line
  write_message m (log, d) = elim log.file [
    | some name ↦
        let written = D.write d name (file_line m) in
        (
          to_file name,
          (
            record log {
              log_size = add_ℤ log.log_size written.0;
              folder_size = add_ℤ log.folder_size written.0;
            },
            written.1,
          ),
        )
    | none ↦
        if log.has_call_back
        then (
          to_call_back (codes "[" ++ m.thread_number ++ codes "] " ++ snprintf 8191 m.text),
          (log, d),
        )
        else (to_screen (screen_line m), (log, d))
  ]

  -- The result of `Print`, what it put out, and the log; `locks` are the answers to the two `acquire`s, if there
  -- is a mutex, and `others` what other threads do between the sections.
  unfoldable pub print :
      ℕ → Bool × Bool → (Logged → Logged) → Message → Logged → Option (ℤ × (Option Output × Logged))
  unfolding open_if_due write_message
  print fuel locks others m (log, d) =
      if not (is_print_log_level m.level log)
      then some (pos 1, (none, (log, d)))
      else if log.has_mutex && not locks.0
      then some (negsuc 0, (none, (log, d)))
      else elim (open_if_due fuel m.tm log d) [
        | none ↦ none
        | some (opened, due) ↦
            let between = others due in
            if between.0.has_mutex && not locks.1
            then some (negsuc 0, (none, between))
            else let out = write_message m between in
              some (if opened then pos 0 else negsuc 0, (some out.0, out.1))
      ]
