-- ===== src/Tools/LogExecute.antt =====
-- MySQLLogExecute/MySQLLogExecute.cpp: running the texts of the log.
use dbmysqlpool.Base.{
  append-not_empty, ◌+◌, Bool, true, false, List, [], ◌∷◌, ◌++◌, Option, none, some, Bytes, codes,
  leb, length, drop, get_or, is_empty, if◌then◌else◌, ◌≡◌, arith, ap, sym, append-nil, append_assoc,
  length-append,
}
use dbmysqlpool.StringMap.{same_key}
use dbmysqlpool.Text.Find.{find}
use dbmysqlpool.Mysql.{Mysql}
use dbmysqlpool.Connection.State.{M, pure, when◌then◌else◌, if_null, ◌>>=◌, ◌>>◌}
use dbmysqlpool.Connection.Link.{connect_to}
use dbmysqlpool.Tools.Lines.{drop_at}
use dbmysqlpool.Connection.Results.{execute}
use dbmysqlpool.Tools.{argument_target, execute_each}
use dbmysqlpool.Tools.LogFile.{read_log}

-- The text of all the values; `none`: a text behind the first has no `VALUES`.
abbrev pub add_values : Bytes → Bytes → Option Bytes
add_values sql text = elim (find (codes "VALUES") text) [
  | none ↦ none
  | some pos ↦ some (sql ++ b',' ∷ drop (pos + 6) text)
]

abbrev pub merge_loop : Bytes → List Bytes → Option Bytes
merge_loop sql [] = some sql
merge_loop sql (text ∷ texts) =
    if is_empty sql
    then merge_loop text texts
    else elim (add_values sql text) [ none ↦ none | some sql' ↦ merge_loop sql' texts ]

unfoldable pub merge_values : List Bytes → Option Bytes
merge_values texts = merge_loop [] texts

abbrev pub is_bulk : List Bytes → Bool
is_bulk args = if leb 7 (length args) then same_key (get_or args 6 []) (codes "1") else false

module _ (lib : Mysql) where
  -- The bulk text is sent if there is one.
  unfoldable pub run_merged : Option Bytes → M (Unit {0})
  unfolding execute
  run_merged none = pure tt
  run_merged (some sql) = do execute lib sql; pure tt

  -- The two loops of `main` over the texts of the log.
  unfoldable pub run_texts : Bool → List Bytes → M (Unit {0})
  unfolding run_merged merge_values
  run_texts false texts = execute_each lib texts
  run_texts true texts = run_merged (merge_values texts)

  -- `main`, where `files` gives what the files hold that can be opened.
  unfoldable pub log_execute : (Bytes → Option Bytes) → List Bytes → M (Unit {0})
  unfolding run_texts
  log_execute files args =
      when leb 6 (length args)
      then (do
        up ← connect_to lib (argument_target args) none
        when up
            then if_null (files (get_or args 5 [])) (pure tt)
                (λ text. run_texts (is_bulk args) (read_log text))
            else pure tt)
      else pure tt

abbrev listed : Option Bytes → List Bytes
listed none = []
listed (some sql) = sql ∷ []

-- What is sent.
abbrev pub planned : Bool → List Bytes → List Bytes
planned false texts = texts
planned true texts = listed (merge_values texts)

-- The text of an insertion: what stands in front of the first `VALUES`, and what stands behind.
pub record Insertion : Type 0 where
  pub head : Bytes
  pub values : Bytes

abbrev pub insertion_text : Insertion → Bytes
insertion_text i = i.head ++ (codes "VALUES" ++ i.values)

abbrev pub HasFirst : Insertion → Type 0
HasFirst i = find (codes "VALUES") (insertion_text i) ≡ some (length i.head)

abbrev pub HaveFirst : List Insertion → Type 0
HaveFirst [] = Unit
HaveFirst (i ∷ is) = HasFirst i × HaveFirst is

abbrev pub insertion_texts : List Insertion → List Bytes
insertion_texts [] = []
insertion_texts (i ∷ is) = insertion_text i ∷ insertion_texts is

abbrev pub more_values : List Insertion → Bytes
more_values [] = []
more_values (i ∷ is) = b',' ∷ (i.values ++ more_values is)

merge_loop-more_values :
    (is : List Insertion) (sql : Bytes)
    → HaveFirst is
    → is_empty sql ≡ false
    → merge_loop sql (insertion_texts is) ≡ some (sql ++ more_values is)
merge_loop-more_values [] sql h k = ap some (sym (append-nil sql))
merge_loop-more_values (i ∷ is) sql h k = ground (
  arith,
  h,
  k,
  drop_at (length i.head + 6) (i.head ++ codes "VALUES") i.values
      (omega (arith, length-append i.head (codes "VALUES"))),
  append_assoc i.head (codes "VALUES") i.values,
  merge_loop-more_values is (sql ++ b',' ∷ i.values) h.1 (append-not_empty sql (b',' ∷ i.values) k),
  append_assoc sql (b',' ∷ i.values) (more_values is),
)

-- The bulk text is the first text with the values of all the others behind it, each behind a comma.
merge_values-more_values :
    (sql : Bytes) (is : List Insertion)
    → is_empty sql ≡ false
    → HaveFirst is
    → merge_values (sql ∷ insertion_texts is) ≡ some (sql ++ more_values is)
unfolding merge_values
merge_values-more_values sql is k h = merge_loop-more_values is sql h k
