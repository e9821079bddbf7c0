-- ===== src/Log/Disk.antt =====
-- The file system that SipPlatform/Log.cpp, SipPlatform/Directory.cpp and SipPlatform/FileUtility.cpp call, with
-- what they rely on; its answers depend on an unknown state.
use dbmysqlpool.Base.{
  leb_ℤ, pos, length, ℕ, ◌≤◌, Bool, true, List, ◌∷◌, ◌++◌, Option, none, some, Bytes, ℤ, pos, ◌≡◌,
  ◌≢◌,
}

-- `entries` are the names that `readdir` gives after `opendir`, `kind` what `lstat` says of being a directory,
-- `stat_size` the size that `stat` gives, `open_append` is `fopen( …, "ab" )` and `write` is `fprintf` with
-- `fflush`.
pub record Disk : Type 1 where
  pub State : Type 0
  pub entries : State → Bytes → Option (List Bytes)
  pub kind : State → Bytes → Option Bool
  pub stat_size : State → Bytes → Option ℕ
  pub unlink : State → Bytes → State
  pub open_append : State → Bytes → Bool × State
  pub write : State → Bytes → Bytes → ℤ × State

module _ (D : Disk) where
  unfoldable pub get_file_size : D.State → Bytes → ℕ
  get_file_size d name = elim (D.stat_size d name) [ none ↦ 0 | some n ↦ n ]

-- Of two file names that differ, unlinking one leaves the size of the other, and what was unlinked has no
-- more size than before; opening a file for appending leaves its size; a write tells no more bytes than it was
-- given.
pub record IsOrderly (D : Disk) : Type 0 where
  pub size-unlink :
      (d : D.State) (file other : Bytes)
      → file ≢ other
      → D.stat_size (D.unlink d file) other ≡ D.stat_size d other
  pub unlink_smaller :
      (d : D.State) (file : Bytes) → get_file_size D (D.unlink d file) file ≤ get_file_size D d file
  pub size-open :
      (d : D.State) (file : Bytes)
      → get_file_size D (D.open_append d file).1 file ≡ get_file_size D d file
  pub write-at_most :
      (d : D.State) (file text : Bytes) → leb_ℤ (D.write d file text).0 (pos (length text)) ≡ true

-- `CDirectory::AppendName`
abbrev pub append_name : Bytes → Bytes → Bytes
append_name name append = name ++ b'/' ∷ append
