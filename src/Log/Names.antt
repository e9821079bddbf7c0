-- ===== src/Log/Names.antt =====
-- SipPlatform/Log.cpp: the names of the log's files and their order.
use dbmysqlpool.Base.{
  ℕ, zero, suc, ◌-◌, Bool, true, false, List, [], ◌∷◌, ◌++◌, Bytes, codes, pos, ltb, ltb_ℤ, length,
  drop, replicate, if◌then◌else◌,
}
use dbmysqlpool.Number.{atoi, shown}
use dbmysqlpool.Decimal.{digits, print_int, snprintf}

-- `struct tm`, with the year and the month as they are printed.
pub record Tm : Type 0 where
  pub year : ℕ
  pub month : ℕ
  pub day : ℕ
  pub hour : ℕ
  pub minute : ℕ
  pub second : ℕ

-- `%0wd` for a number that is not negative.
unfoldable pub padded : ℕ → ℕ → Bytes
padded width n = let ds = shown (digits n) in replicate (width - length ds) b'0' ++ ds

-- `szDate`
unfoldable pub date_text : Tm → Bytes
unfolding padded
date_text tm = snprintf 9 (padded 4 tm.year ++ padded 2 tm.month ++ padded 2 tm.day)

-- `szFileName`, below the directory.
unfoldable pub log_file_name : Tm → ℕ → Bytes
unfolding padded
log_file_name tm index =
    padded 4 tm.year
    ++ padded 2 tm.month
    ++ padded 2 tm.day
    ++ b'_' ∷ print_int (pos index)
    ++ codes ".txt"

unfoldable pub full_name : Bytes → Tm → ℕ → Bytes
unfolding log_file_name
full_name dir tm index = snprintf 1024 (dir ++ b'/' ∷ log_file_name tm index)

-- `strncmp( first, second, n ) < 0` and `== 0` for two texts of `n` bytes or more.
unfoldable pub is_before : ℕ → Bytes → Bytes → Bool
is_before zero s t = false
is_before (suc n) (c ∷ s) (d ∷ t) =
    let rest = is_before n s t in if ltb c d then true else if ltb d c then false else rest
is_before (suc n) _ _ = false

unfoldable pub log_file_compare : Bytes → Bytes → Bool
unfolding is_before
log_file_compare first second =
    if ltb (length first) 10
    then true
    else if ltb (length second) 10
    then false
    else if is_before 8 first second
    then true
    else if is_before 8 second first
    then false
    else ltb_ℤ (atoi (drop 9 first)) (atoi (drop 9 second))

-- `list::sort`, which keeps the order of names of which neither stands before the other.
unfoldable pub insert_name : Bytes → List Bytes → List Bytes
insert_name name [] = name ∷ []
insert_name name (other ∷ names) =
    let rest = insert_name name names in
    if log_file_compare other name then other ∷ rest else name ∷ other ∷ names

unfoldable pub sort_file_list : List Bytes → List Bytes
unfolding insert_name
sort_file_list [] = []
sort_file_list (name ∷ names) = insert_name name (sort_file_list names)
