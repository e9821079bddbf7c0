-- ===== src/Tools.antt =====
-- The command-line tools of the repository, MySQLLogExecute and MySQLAlterTable: statements that are run one
-- after the other, whatever becomes of each.
pub mod LogFile
pub mod Lines
pub mod Entries
pub mod LogExecute
pub mod AlterTable
use dbmysqlpool.Base.{
  ℕ, suc, Bool, true, false, List, [], ◌∷◌, Bytes, ◌≡◌, refl, arith, length, get_or, ap, ◌∙◌, codes,
}
use dbmysqlpool.Mysql.{Mysql, Target}
use dbmysqlpool.Number.{atoi}
use dbmysqlpool.Connection.State.{Session, M, pure, ◌>>=◌, ◌>>◌}
use dbmysqlpool.Connection.Link.{query}
use dbmysqlpool.Connection.Results.{execute}
use dbmysqlpool.Connection.Effects.{noted, effects, query-Sends}

-- The first five of the arguments of `main` behind the program's name, of which there are at least six.
abbrev pub argument_target : List Bytes → Target
argument_target args = record {
  host = get_or args 0 [];
  user_id = get_or args 1 [];
  pass_word = get_or args 2 [];
  db_name = get_or args 3 [];
  port = atoi (get_or args 4 []);
}

-- The acknowledged texts, newest first, after each of these texts was given to `Query` with these answers.
abbrev pub kept : List Bool → List Bytes → List Bytes → List Bytes
kept oks [] texts = texts
kept [] (sql ∷ sqls) texts = texts
kept (ok ∷ oks) (sql ∷ sqls) texts = kept oks sqls (noted ok sql texts)

module _ (lib : Mysql) where
  unfoldable pub execute_each : List Bytes → M (Unit {0})
  unfolding execute
  execute_each [] = pure tt
  execute_each (sql ∷ sqls) = do execute lib sql; execute_each sqls

  -- What `Query` answers for each of the texts, sent one after the other from a session on.
  abbrev pub answers : List Bytes → Session → List Bool
  answers [] s = []
  answers (sql ∷ sqls) s = (query lib sql s).0 ∷ answers sqls (query lib sql s).1

  -- Each text is acknowledged once if `Query` succeeds on it where it is sent, and not at all otherwise, in the
  -- order of the list.
  pub execute_each-kept :
      (sqls : List Bytes) (s : Session)
      → (effects (execute_each sqls s).1.trace).acknowledged
        ≡ kept (answers sqls s) sqls (effects s.trace).acknowledged
  unfolding execute_each execute
  execute_each-kept [] s = refl
  execute_each-kept (sql ∷ sqls) s =
      execute_each-kept sqls (query lib sql s).1
      ∙ ap (kept (answers sqls (query lib sql s).1) sqls) (query-Sends lib sql s).0
