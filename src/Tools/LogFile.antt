-- ===== src/Tools/LogFile.antt =====
-- MySQLLogExecute/MySQLLogExecute.cpp: the loop of `main` that reads the SQL texts of a general log.
use dbmysqlpool.Base.{
  ℕ, ◌-◌, Bool, true, false, ◌&&◌, ◌||◌, List, [], ◌∷◌, ◌++◌, Bytes, codes, ◌==◌, leb, length, take,
  drop, get_or, is_empty, if◌then◌else◌,
}
use dbmysqlpool.Text.Find.{starts_with}

-- What `fgets` gives, call by call, for a buffer that holds so many bytes in front of its zero: a piece ends
-- behind a line feed or where the buffer is full.
abbrev pub to_first : ℕ → List Bytes → List Bytes
to_first c [] = (c ∷ []) ∷ []
to_first c (piece ∷ pieces) = (c ∷ piece) ∷ pieces

abbrev pub fgets_loop : ℕ → ℕ → Bytes → List Bytes
fgets_loop room left [] = []
fgets_loop room left (c ∷ text) = elim ((c == 10) || leb left 1) [
  | true ↦ (c ∷ []) ∷ fgets_loop room room text
  | false ↦ to_first c (fgets_loop room (left - 1) text)
]

-- The line without its end, as the two tests cut it.
unfoldable pub chomp : Bytes → Bytes
chomp buf =
    let len = length buf in
    if leb 2 len && (get_or buf (len - 2) 0 == 13)
    then take (len - 2) buf
    else if leb 1 len && (get_or buf (len - 1) 0 == 10)
    then take (len - 1) buf
    else buf

-- `iLen >= least && !strncmp( szBuf + at, "Query", 5 )`
unfoldable pub is_query_at : ℕ → ℕ → ℕ → Bytes → Bool
is_query_at least at len buf = leb least len && starts_with (codes "Query") (drop at buf)

abbrev pub push_text : Bytes → List Bytes → List Bytes
push_text sql texts = if is_empty sql then texts else texts ++ sql ∷ []

-- `clsList` and `strSQL` after a piece, from its length and its line.
unfoldable pub take_cut : ℕ → Bytes → List Bytes × Bytes → List Bytes × Bytes
unfolding is_query_at
take_cut len buf (texts, sql) =
    if is_query_at 20 9 len buf
    then (push_text sql texts, drop 15 buf)
    else if is_query_at 34 23 len buf
    then (push_text sql texts, drop 29 buf)
    else if is_empty sql
    then (texts, sql)
    else (texts, sql ++ buf)

unfoldable pub take_line : Bytes → List Bytes × Bytes → List Bytes × Bytes
unfolding chomp take_cut
take_line piece r = take_cut (length piece) (chomp piece) r

abbrev pub take_lines : List Bytes → List Bytes × Bytes → List Bytes × Bytes
take_lines [] r = r
take_lines (piece ∷ pieces) r = take_lines pieces (take_line piece r)

unfoldable pub read_log : Bytes → List Bytes
unfolding take_line
read_log text =
    let (texts, sql) = take_lines (fgets_loop 8191 8191 text) ([], []) in push_text sql texts
