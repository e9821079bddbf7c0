-- ===== src/Connection/Effects.antt =====
-- What a sequence of calls tells of the server: the texts and the prepared statements whose call reported
-- success, and how often a text was sent. A call that reports a failure counts as sent only: after a lost
-- connection (CR_SERVER_LOST) the client library does not know whether the server ran the text.
pub mod Opening
pub mod Binding
pub mod Statements
pub mod Reading
use dbmysqlpool.Base.{
  ℕ, zero, suc, ◌+◌, ◌≤◌, Bool, true, false, List, [], ◌∷◌, Option, none, some, Bytes, ◌≡◌, refl,
  arith, if◌then◌else◌, codes, ◌&&◌, not, Option-cases, inl, inr, sym, ap, ◌∙◌,
}
use dbmysqlpool.Mysql.{Mysql, Target, Call, Trace, Row}
use dbmysqlpool.Connection.State.{Connection, Session, call}
use dbmysqlpool.Connection.Link.{
  free_bind_array, close_stmt, prepare_close, close, set_options, choose_character_set,
  connect_begun, connect, connect_to, ensure_connected, query_loop, query, is_gone,
}
use dbmysqlpool.Connection.Results.{execute, insert, fetch_rows, query_rows, query_one}

-- How often a text was sent, the texts for which `mysql_query` reported success, the text prepared last, and the
-- prepared statements for which `mysql_stmt_execute` reported success, with their values; the newest first.
pub record Effects : Type 0 where
  pub attempts : ℕ
  pub acknowledged : List Bytes
  pub prepared : Bytes
  pub executed : List (Bytes × List (Option Bytes))

abbrev pub after_call : Call → Effects → Effects
after_call (Call.query sql ok) e = record e {
  attempts = suc e.attempts;
  acknowledged = if ok then sql ∷ e.acknowledged else e.acknowledged;
}
after_call (Call.stmt_prepare id sql ok) e = record e { prepared = if ok then sql else e.prepared }
after_call (Call.stmt_execute id values ok) e = record e {
  executed = if ok then (e.prepared, values) ∷ e.executed else e.executed;
}
after_call _ e = e

unfoldable pub effects : Trace → Effects
effects [] = record { attempts = 0; acknowledged = []; prepared = []; executed = [] }
effects (c ∷ t) = after_call c (effects t)

-- A text that was acknowledged or not, in front of those of before.
abbrev pub noted : Bool → Bytes → List Bytes → List Bytes
noted ok sql texts = if ok then sql ∷ texts else texts

pub prepare_close-effects : (s : Session) → effects (prepare_close s).1.trace ≡ effects s.trace
unfolding prepare_close free_bind_array close_stmt effects
prepare_close-effects s = ground arith

pub close-effects : (s : Session) → effects (close s).1.trace ≡ effects s.trace
unfolding close effects
close-effects s = ground (arith, prepare_close-effects s)

set_options-effects : (s : Session) → effects (set_options s).1.trace ≡ effects s.trace
unfolding set_options effects
set_options-effects s = ground arith

module _ (lib : Mysql) where
  connect_begun-effects : (s : Session) → effects (connect_begun lib s).1.trace ≡ effects s.trace
  unfolding connect_begun choose_character_set effects
  connect_begun-effects s = ground (arith, set_options-effects s)

  pub connect-effects : (s : Session) → effects (connect lib s).1.trace ≡ effects s.trace
  unfolding connect effects
  connect-effects s = ground (arith, connect_begun-effects (call lib.init Call.init s).1)

  pub connect_to-effects :
      (to : Target) (character_set : Option Bytes) (s : Session)
      → effects (connect_to lib to character_set s).1.trace ≡ effects s.trace
  unfolding connect_to
  connect_to-effects to none s = connect-effects _
  connect_to-effects to (some name) s = connect-effects _

  -- The text is among the acknowledged ones once more if the result is true, and nothing else changed;
  -- it was sent at most as often as there were rounds.
  abbrev Sends : ℕ → Bytes → Effects → Bool → Effects → Type 0
  Sends rounds sql e ok e' =
      (e'.acknowledged ≡ (if ok then sql ∷ e.acknowledged else e.acknowledged))
      × (e'.attempts ≤ e.attempts + rounds)
      × (e'.prepared ≡ e.prepared)
      × (e'.executed ≡ e.executed)

  query_loop-Sends :
      (rounds try_count : ℕ) (sql : Bytes) (s : Session)
      → Sends rounds sql
          (effects s.trace)
          (query_loop lib rounds try_count sql s).0
          (effects (query_loop lib rounds try_count sql s).1.trace)
  unfolding query_loop effects
  query_loop-Sends zero try_count sql s = ground arith
  query_loop-Sends (suc rounds) try_count sql s =
      let s₁ = (call (λ t. lib.query t sql) (Call.query sql) s).1 in
      let s₂ = (close s₁).1 in
      ground (
        arith,
        close-effects s₁,
        connect-effects s₂,
        query_loop-Sends rounds (try_count + 1) sql (connect lib s₂).1,
      )

  -- The text is acknowledged once, which is that its call of `mysql_query` reports success, if `Query` succeeds,
  -- and not at all if it fails; no other text is, no statement is prepared or executed, and `mysql_query` is called
  -- at most twice. Nothing is said of whether the server ran a text whose call failed.
  pub query-Sends :
      (sql : Bytes) (s : Session)
      → Sends 2 sql (effects s.trace) (query lib sql s).0 (effects (query lib sql s).1.trace)
  unfolding query ensure_connected
  query-Sends sql s = ground (
    arith,
    connect-effects s,
    query_loop-Sends 2 0 sql s,
    query_loop-Sends 2 0 sql (connect lib s).1,
  )

  -- Whether a first failure was the loss of the connection.
  abbrev lost_first : Bytes → Session → Bool
  lost_first sql s = is_gone (lib.errno (call (λ t. lib.query t sql) (Call.query sql) s).1.trace)

  -- On a connected object a text that the server refuses for another reason than a lost connection is
  -- sent once, and `Query` fails.
  query_refused :
      (sql : Bytes) (s : Session)
      → s.conn.connected ≡ true
      → lib.query s.trace sql ≡ false
      → lost_first sql s ≡ false
      → ((query lib sql s).0 ≡ false)
        × (effects (query lib sql s).1.trace
            ≡ record (effects s.trace) { attempts = suc (effects s.trace).attempts })
  unfolding query ensure_connected query_loop effects
  query_refused sql s up refused kept = ground arith

  -- The session in which the text is sent again: after the first call of `mysql_query`, `Close` and `Connect`.
  abbrev reconnected : Bytes → Session → Bool × Session
  reconnected sql s = connect lib (close (call (λ t. lib.query t sql) (Call.query sql) s).1).1

  -- On a connected object, a text whose first call fails by the loss of the connection is sent a second time if
  -- the object can connect again, although the server may have run it, and the answer to the second call is the
  -- result.
  query_resent :
      (sql : Bytes) (s : Session)
      → s.conn.connected ≡ true
      → lib.query s.trace sql ≡ false
      → lost_first sql s ≡ true
      → (reconnected sql s).0 ≡ true
      → ((query lib sql s).0 ≡ lib.query (reconnected sql s).1.trace sql)
        × ((effects (query lib sql s).1.trace).attempts ≡ suc (suc (effects s.trace).attempts))
  unfolding query ensure_connected query_loop effects
  query_resent sql s up failed lost back = ground (
    arith,
    close-effects (call (λ t. lib.query t sql) (Call.query sql) s).1,
    connect-effects (close (call (λ t. lib.query t sql) (Call.query sql) s).1).1,
  )
