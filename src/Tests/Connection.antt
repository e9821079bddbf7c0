-- ===== src/Tests/Connection.antt =====
-- Runs of connections against sample servers.
use dbmysqlpool.Base.{
  ℕ, suc, ◌≤◌, Bool, true, false, [], ◌∷◌, none, some, codes, ◌≡◌, refl, arith, if◌then◌else◌, ◌+◌,
}
use dbmysqlpool.Mysql.{Row}
use dbmysqlpool.Connection.State.{Session, new_connection}
use dbmysqlpool.Connection.Protocol.{replay}
use dbmysqlpool.Connection.Link.{
  connect_to, connect, query, query_loop, ensure_connected, set_options, choose_character_set,
  connect_begun,
}
use dbmysqlpool.Connection.Results.{execute_list, query_rows}
use dbmysqlpool.Connection.Invariant.{Inv}
use dbmysqlpool.Connection.History.{
  Reach, start, next, connects, new_session, Reach-Inv, connect_twice,
}
use dbmysqlpool.Connection.Effects
use dbmysqlpool.Connection.Effects.{effects, query-Sends}
use dbmysqlpool.Connection.Effects.Statements.{execute_list-Runs}
use dbmysqlpool.Connection.Rows.{query_rows-fold_rows}
use dbmysqlpool.Tests.Samples.{server, localhost, connected, insert_text, select_text}

abbrev linked : Session
linked = (connect_to (server true 1) localhost none new_session).1

new_session-unconnected : new_session.conn.connected ≡ false
unfolding new_connection
new_session-unconnected = refl

linked-connected : linked.conn.connected ≡ true
unfolding new_connection connect_to connect connect_begun set_options choose_character_set
linked-connected = refl

abbrev run : Reach (server true 1) (connect_to (server true 1) localhost none new_session).1
run = next start (connects localhost none new_session-unconnected)

Reach-Inv_example : Inv linked
Reach-Inv_example = Reach-Inv run

connect_twice_example : replay (connect_to (server true 1) localhost none linked).1.trace ≡ none
connect_twice_example = connect_twice localhost none run linked-connected (λ e. cc)

query-Sends_example :
    ((effects (query (server true 0) insert_text connected).1.trace).acknowledged ≡ (
      if (query (server true 0) insert_text connected).0
      then insert_text ∷ (effects connected.trace).acknowledged
      else (effects connected.trace).acknowledged))
    × ((effects (query (server true 0) insert_text connected).1.trace).attempts
        ≤ (effects connected.trace).attempts + 2)
    × ((effects (query (server true 0) insert_text connected).1.trace).prepared
        ≡ (effects connected.trace).prepared)
    × ((effects (query (server true 0) insert_text connected).1.trace).executed
        ≡ (effects connected.trace).executed)
query-Sends_example = query-Sends (server true 0) insert_text connected

execute_list-Runs_example :
    Effects.Statements.Runs
      (server true 1)
      insert_text
      (some (codes "7") ∷ [])
      (effects connected.trace)
      (execute_list (server true 1) insert_text (codes "7" ∷ []) connected).0
      (effects (execute_list (server true 1) insert_text (codes "7" ∷ []) connected).1.trace)
execute_list-Runs_example =
    execute_list-Runs (server true 1) 0 insert_text (codes "7" ∷ []) connected (λ t id. refl)

-- A callback that counts the rows.
abbrev count_row : ℕ → Row → Bool × ℕ
count_row n row = (true, suc n)

sent : (query (server true 0) select_text connected).0 ≡ true
unfolding query ensure_connected query_loop
sent = refl

query_rows-fold_rows_example :
    (query_rows (server true 0) 2 select_text count_row 0 connected).0 ≡ some (true, 1)
query_rows-fold_rows_example =
    query_rows-fold_rows (server true 0) count_row ((some (codes "7") ∷ []) ∷ []) 2 select_text 0
      connected sent refl (refl, refl) (omega arith)
