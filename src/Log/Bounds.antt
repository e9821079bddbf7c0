-- ===== src/Log/Bounds.antt =====
-- SipPlatform/Log.cpp: what a message leaves in the log.
use dbmysqlpool.Base.{
  ℕ, suc, ◌+◌, ◌≤◌, ◌<◌, ◌^◌, Bool, true, false, Option, some, Bytes, ℤ, pos, negsuc, add_ℤ, ltb_ℤ,
  leb_ℤ, length, ◌++◌, none, codes, if◌then◌else◌, ◌≡◌, arith, sym, subst, Bool-cases, Option-cases,
  inl, inr,
}
use dbmysqlpool.StringMap.{same_key}
use dbmysqlpool.Decimal.{snprintf}
use dbmysqlpool.Log.{Log, is_print_log_level}
use dbmysqlpool.Log.Names.{Tm, date_text, full_name}
use dbmysqlpool.Log.Disk.{Disk, IsOrderly, get_file_size}
use dbmysqlpool.Log.Print.{
  Logged, Message, Output, file_line, screen_line, open_loop, open_if_due, write_message, print,
}
use dbmysqlpool.Log.Rotation.{IsReadable, Opens, open_loop-Opens}

module _ (D : Disk) where
  -- A result with a log that is below the maximum.
  abbrev pub IsBelow : ℕ → Option (Bool × Logged D) → Type 0
  IsBelow max end =
      (ok : Bool) × ((log : Log) × ((d : D.State) × ((end ≡ some (ok, (log, d)))
            × (ltb_ℤ log.log_size (pos max) ≡ true))))

  Opens-IsBelow :
      (dir : Bytes) (tm : Tm) (max first last : ℕ) (end : Option (Bool × Logged D))
      → Opens D dir tm max first last end
      → IsBelow max end
  Opens-IsBelow dir tm max first last end (ok, (log, (d, (e, lo, hi, file, date, size, small)))) =
      (ok, (log, (d, (e, ground (arith, size, small)))))

  -- What `Print` relies on: the log has a directory that can be read, its maximum is positive and fits an `int`,
  -- and there is an index from the next one on whose file is below the maximum.
  abbrev pub HasRoom : ℕ → ℕ → Tm → Bytes → ℕ → Log → D.State → Type 0
  HasRoom fuel last tm dir max log d =
      IsReadable D dir
      × (log.dir_name ≡ some dir)
      × (log.max_log_size ≡ pos max)
      × (0 < max)
      × (max < 2 ^ 31)
      × (1 ≤ last)
      × (log.index < last)
      × (get_file_size D d (full_name dir tm last) < max)
      × (last < fuel)

  open_if_due-IsBelow :
      (fuel last : ℕ) (tm : Tm) (dir : Bytes) (max : ℕ) (log : Log) (d : D.State)
      → IsOrderly D
      → HasRoom fuel last tm dir max log d
      → IsBelow max (open_if_due D fuel tm log d)
  unfolding open_if_due
  open_if_due-IsBelow fuel last tm dir max log d o
        (readable, named, most, room, fits, one, le, small, lt) =
      let first =
        Opens-IsBelow dir tm max 1 last (open_loop D fuel tm (record log { index = 1 }) d) (
          open_loop-Opens D fuel last tm dir max (record log { index = 1 }) d o readable named most
            room fits one small (omega arith)) in
      let next =
        Opens-IsBelow dir tm max (suc log.index) last
          (open_loop D fuel tm (record log { index = suc log.index }) d)
          (open_loop-Opens D fuel last tm dir max (record log { index = suc log.index }) d o
            readable named most room fits (omega arith) small (omega arith)) in
      elim (Bool-cases (same_key log.date (date_text tm))) [
        | inr e ↦ subst (IsBelow max) (sym (due_today e)) first
        | inl e ↦ elim (Bool-cases (leb_ℤ log.max_log_size log.log_size)) [
          | inl full ↦ subst (IsBelow max) (sym (due_full e full)) next
          | inr below ↦ (true, (log, (d, (not_due e below, ground (arith, most, below)))))
        ]
      ]
    where
      due_today :
          same_key log.date (date_text tm) ≡ false
          → open_if_due D fuel tm log d ≡ open_loop D fuel tm (record log { index = 1 }) d
      due_today e = ground (arith, named, e)

      due_full :
          same_key log.date (date_text tm) ≡ true
          → leb_ℤ log.max_log_size log.log_size ≡ true
          → open_if_due D fuel tm log d
            ≡ open_loop D fuel tm (record log { index = suc log.index }) d
      due_full e full = ground (arith, named, e, full, most)

      not_due :
          same_key log.date (date_text tm) ≡ true
          → leb_ℤ log.max_log_size log.log_size ≡ false
          → open_if_due D fuel tm log d ≡ some (true, (log, d))
      not_due e below = ground (arith, named, e, below, most)

  write_message-below :
      (m : Message) (max : ℕ) (log : Log) (d : D.State)
      → IsOrderly D
      → ltb_ℤ log.log_size (pos max) ≡ true
      → ltb_ℤ (write_message D m (log, d)).1.0.log_size (pos (max + length (file_line m))) ≡ true
  unfolding write_message
  write_message-below m max log d o h = elim (Option-cases log.file) [
    | inl e ↦ rw e (ground (arith, h))
    | inr (name, e) ↦ rw e (
        add_below log.log_size (D.write d name (file_line m)).0 max (length (file_line m)) h
          (o.write-at_most d name (file_line m)))
  ]
    where
      add_below :
          (a b : ℤ) (max n : ℕ)
          → ltb_ℤ a (pos max) ≡ true
          → leb_ℤ b (pos n) ≡ true
          → ltb_ℤ (add_ℤ a b) (pos (max + n)) ≡ true
      add_below a b max n h k = ground (arith, h, k)

  -- Where a message goes: the file that is open, or else the callback, or else the screen.
  abbrev pub destination : Message → Log → Output
  destination m log = elim log.file [
    | some name ↦ Output.to_file name
    | none ↦
        if log.has_call_back
        then Output.to_call_back
            (codes "[" ++ m.thread_number ++ codes "] " ++ snprintf 8191 m.text)
        else Output.to_screen (screen_line m)
  ]

  write_message-destination :
      (m : Message) (w : Logged D) → (write_message D m w).0 ≡ destination m w.0
  unfolding write_message
  write_message-destination m w = ground arith

  -- On an orderly disk, if the log's directory can be read, its maximum is positive and below 2^31, the file of
  -- some later index is below the maximum, and there is more fuel than that index, and if both locks are
  -- granted and no other thread comes between the sections: a message of a level that is on goes to the file
  -- that is open after the first section, or else to the callback, or else to the screen, the result is 0 or,
  -- where a file that was due could not be opened, -1, and the log's size is then below the maximum and
  -- the length of one line.
  pub print-fits :
      (fuel last : ℕ) (dir : Bytes) (max : ℕ) (m : Message) (log : Log) (d : D.State)
      → IsOrderly D
      → HasRoom fuel last m.tm dir max log d
      → is_print_log_level m.level log ≡ true
      → (ok : Bool) × (due : Logged D) × (after : Logged D) × (open_if_due D fuel m.tm log d
          ≡ some (ok, due))
        × (print D fuel (true, true) (λ w. w) m (log, d)
            ≡ some (if ok then pos 0 else negsuc 0, (some (destination m due.0), after)))
        × (ltb_ℤ after.0.log_size (pos (max + length (file_line m))) ≡ true)
  unfolding print
  print-fits fuel last dir max m log d o h on =
      let (ok, (log', (d', (e, below)))) = open_if_due-IsBelow fuel last m.tm dir max log d o h in
      let written = write_message D m (log', d') in
      (
        ok,
        (log', d'),
        written.1,
        e,
        ground (arith, on, e, write_message-destination m (log', d')),
        write_message-below m max log' d' o below,
      )
