-- ===== src/SetData.antt =====
-- DbMySQLPool/DbSetData.cpp: the functions by which a callback reads the columns of a row one after the
-- other. Each leaves the variable as it is for a NULL column, and moves on by one column.
use dbmysqlpool.Base.{
  ℕ, suc, ◌+◌, List, [], ◌∷◌, Option, none, some, Bytes, ℤ, ◌≡◌, ap, arith, get_elem?,
  get_elem?-append, length, length-append, append_assoc, ◌++◌,
}
use mathlib.Core.Option
use dbmysqlpool.Mysql.{Row}
use dbmysqlpool.Number.{atoi, atoll, get_uint32, get_uint64}

-- `sttRow[iCol]`; `none` is an access beyond the row.
abbrev pub column : Row → ℕ → Option (Option Bytes)
column row col = get_elem? row col

-- The shape of the five functions: the value of a column that is not NULL, the row, the column, and
-- what the variable holds.
unfoldable pub set_column : {A : Type 0} → (Bytes → A) → Row → ℕ → A → Option (ℕ × A)
set_column read row col old = elim (column row col) [
  | none ↦ none
  | some none ↦ some (suc col, old)
  | some (some text) ↦ some (suc col, read text)
]

unfoldable pub set_string : Row → ℕ → Bytes → Option (ℕ × Bytes)
set_string row col old = set_column (λ text. text) row col old

unfoldable pub set_int : Row → ℕ → ℤ → Option (ℕ × ℤ)
set_int row col old = set_column atoi row col old

unfoldable pub set_uint32 : Row → ℕ → ℕ → Option (ℕ × ℕ)
set_uint32 row col old = set_column (λ text. get_uint32 (some text)) row col old

unfoldable pub set_int64 : Row → ℕ → ℤ → Option (ℕ × ℤ)
set_int64 row col old = set_column atoll row col old

unfoldable pub set_uint64 : Row → ℕ → ℕ → Option (ℕ × ℕ)
set_uint64 row col old = set_column (λ text. get_uint64 (some text)) row col old

-- A callback that reads strings, one for each entry of the list, from the column `col` on.
unfoldable pub set_strings : Row → ℕ → List Bytes → Option (ℕ × List Bytes)
set_strings row col [] = some (col, [])
set_strings row col (old ∷ olds) = elim (set_string row col old) [
  | none ↦ none
  | some (col', v) ↦ Option.map (λ r. (r.0, v ∷ r.1)) (set_strings row col' olds)
]

-- The columns of a row, with the old values where they are NULL.
abbrev pub filled : Row → List Bytes → List Bytes
filled [] olds = []
filled (c ∷ cs) [] = []
filled (none ∷ cs) (old ∷ olds) = old ∷ filled cs olds
filled (some text ∷ cs) (old ∷ olds) = text ∷ filled cs olds

set_string-append :
    (done cs : Row) (c : Option Bytes) (old : Bytes)
    → set_string (done ++ c ∷ cs) (length done) old
      ≡ some (suc (length done), elim c [ none ↦ old | some text ↦ text ])
unfolding set_string set_column
set_string-append done cs none old = ground (arith, get_elem?-append done none cs)
set_string-append done cs (some text) old = ground (arith, get_elem?-append done (some text) cs)

set_strings-append :
    (done cs : Row) (olds : List Bytes)
    → length olds ≡ length cs
    → set_strings (done ++ cs) (length done) olds ≡ some (length done + length cs, filled cs olds)
unfolding set_strings
set_strings-append done [] [] e = ap (λ (n : ℕ). some (n, [])) (omega arith)
set_strings-append done [] (old ∷ olds) e = absurd (omega arith)
set_strings-append done (c ∷ cs) [] e = absurd (omega arith)
set_strings-append done (none ∷ cs) (old ∷ olds) e = ground (
  arith,
  set_string-append done cs none old,
  length-append done (none ∷ []),
  append_assoc done (none ∷ []) cs,
  set_strings-append (done ++ none ∷ []) cs olds,
)
set_strings-append done (some text ∷ cs) (old ∷ olds) e = ground (
  arith,
  set_string-append done cs (some text) old,
  length-append done (some text ∷ []),
  append_assoc done (some text ∷ []) cs,
  set_strings-append (done ++ some text ∷ []) cs olds,
)

-- `DbSetData` for strings, once for each column of a row from column 0 on, stays in the row, ends behind the last
-- column, and gives the columns' texts in order, with the old value for each NULL.
set_strings-filled :
    (row : Row) (olds : List Bytes)
    → length olds ≡ length row
    → set_strings row 0 olds ≡ some (length row, filled row olds)
set_strings-filled row olds e = ground (arith, set_strings-append [] row olds e)
