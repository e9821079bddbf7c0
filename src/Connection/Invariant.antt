-- ===== src/Connection/Invariant.antt =====
-- What a well-formed connection object is, and the lemmas on it for the methods of
-- DbMySQLPool/DbMySQLConnection.cpp that connect, close and send.
pub mod Statements
pub mod Results
use dbmysqlpool.Base.{
  zero, suc, ◌+◌, Bytes, true, ℕ, false, List, [], Option, none, some, ◌≡◌, refl, sym, subst, arith,
  if◌then◌else◌, length,
}
use dbmysqlpool.Mysql.{Call, Mysql, Param, Target}
use dbmysqlpool.Connection.State.{Connection, Session, call}
use dbmysqlpool.Connection.Protocol.{Link, Protocol, replay, check}
use dbmysqlpool.Connection.Link.{
  free_bind_array, close_stmt, prepare_close, close, set_options, choose_character_set,
  connect_begun, connect, connect_to, ensure_connected, query_loop, query, target,
}

-- The protocol state that the fields of a connection stand for.
abbrev pub protocol_of : Connection → Protocol
protocol_of c = record {
  link = if c.connected then Link.up else Link.down;
  open_stmt = c.stmt;
  reading = false;
}

abbrev pub Sized : Option (List Param) → ℕ → Type 0
Sized none n = n ≡ 0
Sized (some array) n = length array ≡ n

-- An object without a connection has no statement, one without a statement has no parameters, and
-- both arrays have an entry for each parameter.
pub record IsWell (c : Connection) : Type 0 where
  pub shut : c.connected ≡ false → c.stmt ≡ none
  pub unbound : c.stmt ≡ none → c.bind_count ≡ 0
  pub texts : length c.bind_list ≡ c.bind_count
  pub array : Sized c.bind_array c.bind_count

-- Each call so far found the handle, the statement and the result in the state that it needs, and they led to
-- where the fields say.
pub record Inv (s : Session) : Type 0 where
  pub allowed : replay s.trace ≡ some (protocol_of s.conn)
  pub well : IsWell s.conn

-- What `PrepareClose` leaves.
abbrev pub released : Connection → Connection
released c = record c { stmt = none; bind_array = none; bind_count = 0; bind_list = [] }

pub prepare_close-conn : (s : Session) → (prepare_close s).1.conn ≡ released s.conn
unfolding prepare_close free_bind_array close_stmt
prepare_close-conn s = ground arith

pub prepare_close-replay :
    (s : Session) {p : Protocol}
    → replay s.trace ≡ some p
    → p.open_stmt ≡ s.conn.stmt
    → replay (prepare_close s).1.trace ≡ some (record p { open_stmt = none })
unfolding prepare_close free_bind_array close_stmt replay check
prepare_close-replay s h e = ground arith

released-IsWell : (c : Connection) → IsWell (released c)
released-IsWell c = record { shut = λ _. refl; unbound = λ _. refl; texts = refl; array = refl }

pub prepare_close-Inv : {s : Session} → Inv s → Inv (prepare_close s).1
prepare_close-Inv {s} v = record {
  allowed = ground (arith, prepare_close-replay s v.allowed refl, prepare_close-conn s);
  well = subst IsWell (sym (prepare_close-conn s)) (released-IsWell s.conn);
}

pub close-Inv : {s : Session} → Inv s → Inv (close s).1
unfolding close check replay
close-Inv {s} v = ground (arith, prepare_close-conn s, prepare_close-replay s v.allowed refl)

-- After `Close` the object is not connected; only the members of the connection change.
pub close-shut : (s : Session) → (close s).1.conn.connected ≡ false
unfolding close
close-shut s = ground (arith, prepare_close-conn s)

abbrev IsBegun : Session → Type 0
IsBegun s =
    (replay s.trace ≡ some (record { link = Link.begun; open_stmt = none; reading = false }))
    × (s.conn.connected ≡ false)

set_options-conn : (s : Session) → (set_options s).1.conn ≡ s.conn
unfolding set_options
set_options-conn s = ground arith

set_options-replay : (s : Session) → IsBegun s → IsBegun (set_options s).1
unfolding set_options check replay
set_options-replay s h = ground arith

-- Right after `mysql_real_connect`.
abbrev JustUp : Session → Type 0
JustUp s =
    (replay s.trace ≡ some (record { link = Link.up; open_stmt = none; reading = false }))
    × (s.conn.stmt ≡ none)
    × IsWell s.conn

module _ (lib : Mysql) where
  choose_character_set-Inv :
      (s : Session)
      → JustUp s
      → Inv (choose_character_set lib s).1
        × ((choose_character_set lib s).1.conn.connected ≡ true)
        × ((choose_character_set lib s).0 ≡ true)
  unfolding choose_character_set check replay
  choose_character_set-Inv s h = ground arith

  -- The session after the call of `mysql_real_connect`.
  abbrev real_connected : Session → Session
  real_connected s =
      (call (λ t. lib.real_connect t (target s.conn)) (Call.real_connect (target s.conn)) s).1

  connect_begun-Inv :
      (s : Session)
      → IsBegun s
      → IsWell s.conn
      → Inv (connect_begun lib s).1
        × ((connect_begun lib s).1.conn.connected ≡ (connect_begun lib s).0)
  unfolding connect_begun check replay
  connect_begun-Inv s h v = ground (
    arith,
    set_options-conn s,
    set_options-replay s h,
    choose_character_set-Inv (real_connected (set_options s).1),
  )

  -- `Connect` succeeds exactly when it leaves the object connected.
  pub connect-Inv :
      (s : Session)
      → Inv s
      → s.conn.connected ≡ false
      → Inv (connect lib s).1 × ((connect lib s).1.conn.connected ≡ (connect lib s).0)
  unfolding connect check replay
  connect-Inv s v e = ground (arith, connect_begun-Inv (call lib.init Call.init s).1)

  -- The session after a call of `mysql_query`.
  abbrev sent : Bytes → Session → Session
  sent sql s = (call (λ t. lib.query t sql) (Call.query sql) s).1

  sent-Inv : (sql : Bytes) (s : Session) → Inv s → s.conn.connected ≡ true → Inv (sent sql s)
  unfolding check replay
  sent-Inv sql s v e = ground arith

  query_loop-Inv :
      (rounds try_count : ℕ) (sql : Bytes) (s : Session)
      → Inv s
      → s.conn.connected ≡ true
      → Inv (query_loop lib rounds try_count sql s).1
        × ((query_loop lib rounds try_count sql s).0 ≡ true
            → (query_loop lib rounds try_count sql s).1.conn.connected ≡ true)
  unfolding query_loop
  query_loop-Inv zero try_count sql s v e = (v, λ h. e)
  query_loop-Inv (suc rounds) try_count sql s v e =
      let s₁ = sent sql s in
      let s₂ = (close s₁).1 in
      let v₂ = close-Inv (sent-Inv sql s v e) in
      ground (
        arith,
        sent-Inv sql s v e,
        v₂,
        close-shut s₁,
        connect-Inv s₂ v₂ (close-shut s₁),
        query_loop-Inv rounds (try_count + 1) sql (connect lib s₂).1,
      )

  -- Sending a text keeps the invariant, and leaves the object connected where it succeeds.
  pub query-Inv :
      (sql : Bytes) (s : Session)
      → Inv s
      → Inv (query lib sql s).1
        × ((query lib sql s).0 ≡ true → (query lib sql s).1.conn.connected ≡ true)
  unfolding query ensure_connected
  query-Inv sql s v =
      ground (
        arith,
        connect-Inv s v,
        query_loop-Inv 2 0 sql s v,
        query_loop-Inv 2 0 sql (connect lib s).1,
      )
