-- ===== src/Log/Folder.antt =====
-- SipPlatform/Directory.cpp: `CDirectory::FileList`. SipPlatform/Log.cpp: `CLog::DeleteOldFile`.
use dbmysqlpool.Base.{
  ◌*◌, ◌/◌, Bool, false, not, ◌&&◌, ◌||◌, List, [], ◌∷◌, Option, none, some, Bytes, codes, ℤ, pos,
  diff, sub_ℤ, pos_part, neg_part, ltb_ℤ, leb_ℤ, if◌then◌else◌,
}
use dbmysqlpool.StringMap.{same_key}
use dbmysqlpool.Log.{Log, is_zero}
use dbmysqlpool.Log.Names.{sort_file_list}
use dbmysqlpool.Log.Disk.{Disk, get_file_size, append_name}

-- `iWantSize`, four fifths of the maximum, which C divides toward zero.
abbrev pub want_size : ℤ → ℤ
want_size size = diff (pos_part size * 8 / 10) (neg_part size * 8 / 10)

module _ (D : Disk) where
  abbrev is_listed : D.State → Bytes → Bytes → Bool
  is_listed d dir name =
      not (same_key name (codes ".") || same_key name (codes ".."))
      && elim (D.kind d (append_name dir name)) [ none ↦ false | some is_dir ↦ not is_dir ]

  abbrev pub listed_files : D.State → Bytes → List Bytes → List Bytes
  listed_files d dir [] = []
  listed_files d dir (name ∷ names) =
      let rest = listed_files d dir names in if is_listed d dir name then name ∷ rest else rest

  -- `none`: the directory cannot be opened.
  unfoldable pub file_list : D.State → Bytes → Option (List Bytes)
  file_list d dir = elim (D.entries d dir) [
    | none ↦ none
    | some names ↦ some (listed_files d dir names)
  ]

  -- The loop of `DeleteOldFile`: `m_iFolderSize` and the files after it.
  unfoldable pub delete_loop : Bytes → ℤ → List Bytes → ℤ → D.State → ℤ × D.State
  unfolding get_file_size
  delete_loop dir want [] size d = (size, d)
  delete_loop dir want (name ∷ names) size d =
      let file = append_name dir name in
      let size' = sub_ℤ size (pos (get_file_size D d file)) in
      let rest = delete_loop dir want names size' (D.unlink d file) in
      if ltb_ℤ size' want then (size', D.unlink d file) else rest

  -- `none`: the directory cannot be opened, which is logged from here, where the log's mutex is held.
  unfoldable pub delete_old_file : Log → D.State → Option (Log × D.State)
  unfolding file_list delete_loop sort_file_list
  delete_old_file log d = if is_zero log.max_folder_size then some (log, d) else elim log.dir_name [
    | none ↦ some (log, d)
    | some dir ↦
        if leb_ℤ log.max_folder_size log.folder_size
        then elim (file_list d dir) [
          | none ↦ none
          | some names ↦
              let end =
                delete_loop dir (want_size log.max_folder_size) (sort_file_list names)
                  log.folder_size d in
              some (record log { folder_size = end.0 }, end.1)
        ]
        else some (log, d)
  ]
