-- ===== src/Connection/Invariant/Statements.antt =====
-- Prepared statements keep a connection object well formed.
use dbmysqlpool.Base.{
  ℕ, true, false, List, [], Option, none, some, ◌≡◌, ◌≢◌, refl, ◌∙◌, arith, Bytes, ℤ, pos_part,
  length-replicate, length-set, set, length-append, replicate, Bool, ◌==◌, Option-cases, inl, inr,
}
use mathlib.Core.Option
use dbmysqlpool.Mysql.{Call, Mysql, Param, unset}
use dbmysqlpool.Connection.State.{M, Session, call, modify}
use dbmysqlpool.Connection.Protocol.{replay, check}
use dbmysqlpool.Connection.Link.{prepare_close, close, connect, ensure_connected}
use dbmysqlpool.Connection.Prepared.{
  prepare_round, prepare_loop, allocate_binds, prepare_connected, prepare, set_bind, bind,
  prepare_execute, run_and_close,
}
use dbmysqlpool.Connection.Invariant.{
  protocol_of, Sized, Inv, prepare_close-conn, prepare_close-replay, prepare_close-Inv, close-Inv,
  close-shut, connect-Inv,
}

module _ (lib : Mysql) where
  -- The session after `mysql_stmt_init`, and after `mysql_stmt_prepare` for the new statement.
  abbrev begun : Session → Session
  begun s =
      (modify (λ c. record c { stmt = lib.stmt_init s.trace })
        (call lib.stmt_init Call.stmt_init s).1).1

  abbrev tried : ℕ → Bytes → Session → Session
  tried id sql s = (call (λ t. lib.stmt_prepare t id sql) (Call.stmt_prepare id sql) s).1

  begun-Inv : (s : Session) → Inv s → s.conn.connected ≡ true → s.conn.stmt ≡ none → Inv (begun s)
  unfolding check replay
  begun-Inv s v e h = ground arith

  tried-Inv :
      (id : ℕ) (sql : Bytes) (s : Session)
      → Inv s
      → s.conn.connected ≡ true
      → s.conn.stmt ≡ some id
      → Inv (tried id sql s)
  unfolding check replay
  tried-Inv id sql s v e h = ground arith

  -- A success of the loop leaves a statement on a connected object.
  abbrev Prepared : Bool → Session → Type 0
  Prepared ok t =
      Inv t
      × (ok ≡ true → t.conn.connected ≡ true)
      × (ok ≡ true → t.conn.stmt ≢ none)
      × (ok ≡ true → t.conn.bind_count ≡ 0)

  abbrev Continues : M Bool → Type 0
  Continues again =
      (t : Session)
      → Inv t
      → t.conn.connected ≡ true
      → t.conn.stmt ≡ none
      → Prepared (again t).0 (again t).1

  prepare_round-Prepared :
      (again : M Bool) (i : ℕ) (sql : Bytes) (s : Session)
      → ((i == 0) ≡ true → Continues again)
      → Inv s
      → s.conn.connected ≡ true
      → s.conn.stmt ≡ none
      → Prepared (prepare_round lib again i sql s).0 (prepare_round lib again i sql s).1
  unfolding prepare_round
  prepare_round-Prepared again i sql s next v e h = elim (Option-cases (lib.stmt_init s.trace)) [
    | inl null ↦ rw null (ground (arith, begun-Inv s v e h))
    | inr (id, made) ↦
        let s₁ = tried id sql (begun s) in
        let v₁ = tried-Inv id sql (begun s) (begun-Inv s v e h) (ground arith) (ground arith) in
        let s₂ = (close s₁).1 in
        let v₂ = close-Inv v₁ in
        let s₃ = (connect lib s₂).1 in
        let back = connect-Inv lib s₂ v₂ (close-shut s₁) in
        rw made (
          ground (
            arith,
            v₁,
            back,
            prepare_close-Inv back.0,
            prepare_close-conn s₃,
            λ (first : (i == 0) ≡ true). next first (prepare_close s₃).1,
          ))
  ]

  prepare_loop-Prepared :
      (sql : Bytes) (s : Session)
      → Inv s
      → s.conn.connected ≡ true
      → s.conn.stmt ≡ none
      → Prepared (prepare_loop lib 2 0 sql s).0 (prepare_loop lib 2 0 sql s).1
  unfolding prepare_loop
  prepare_loop-Prepared sql s =
      prepare_round-Prepared (prepare_loop lib 1 1 sql) 0 sql s
        λ _ t. prepare_round-Prepared (prepare_loop lib 0 2 sql) 1 sql t (λ e. cc)

  -- The arrays that the end of `Prepare` makes have an entry for each parameter.
  allocate_binds-Inv :
      (s : Session)
      → Inv s
      → s.conn.stmt ≢ none
      → s.conn.bind_count ≡ 0
      → Inv (allocate_binds lib s).1
  unfolding allocate_binds
  allocate_binds-Inv s v h e =
      let count = lib.stmt_param_count s.trace s.conn.stmt in
      let s₁ : Session = record s { conn = record s.conn { bind_count = count } } in
      ground (
        arith,
        prepare_close-Inv v,
        prepare_close-conn s₁,
        prepare_close-replay s₁ {p = protocol_of s.conn} v.allowed refl,
        length-replicate count unset,
        length-replicate {0} {A = Bytes} count [],
        length-append s.conn.bind_list (replicate count []),
      )

  prepare_connected-Inv :
      (sql : Bytes) (s : Session)
      → Inv s
      → s.conn.connected ≡ true
      → Inv (prepare_connected lib sql s).1
  unfolding prepare_connected
  prepare_connected-Inv sql s v e =
      let s₁ = (prepare_close s).1 in
      ground (
        arith,
        prepare_close-Inv v,
        prepare_close-conn s,
        prepare_loop-Prepared sql s₁,
        allocate_binds-Inv (prepare_loop lib 2 0 sql s₁).1,
      )

  pub prepare-Inv : (sql : Bytes) (s : Session) → Inv s → Inv (prepare lib sql s).1
  unfolding prepare ensure_connected
  prepare-Inv sql s v = ground (
    arith,
    connect-Inv lib s v,
    prepare_connected-Inv sql s v,
    prepare_connected-Inv sql (connect lib s).1,
  )

  pub prepare_execute-Inv :
      (wants_id : Bool) (s : Session) → Inv s → Inv (prepare_execute lib wants_id s).1
  unfolding prepare_execute check replay
  prepare_execute-Inv wants_id s v = ground arith

  pub run_and_close-Inv : (s : Session) → Inv s → Inv (run_and_close lib s).1
  unfolding run_and_close
  run_and_close-Inv s v = prepare_close-Inv (prepare_execute-Inv false s v)

Sized-map :
    (a : Option (List Param)) (n index : ℕ) (p : Param)
    → Sized a n
    → Sized (Option.map (λ array. set array index p) a) n
Sized-map none n index p h = h
Sized-map (some a) n index p h = length-set a index p ∙ h

set_bind-Inv :
    (index : ℕ) (value : Bytes) (s : Session)
    → Inv s
    → Inv (record s { conn = set_bind index value s.conn })
set_bind-Inv index value s v = record {
  allowed = v.allowed;
  well = record {
    shut = v.well.shut;
    unbound = v.well.unbound;
    texts = length-set s.conn.bind_list index value ∙ v.well.texts;
    array = Sized-map s.conn.bind_array s.conn.bind_count index _ v.well.array;
  };
}

pub bind-Inv : (index : ℤ) (value : Bytes) (s : Session) → Inv s → Inv (bind index value s).1
unfolding bind
bind-Inv index value s v = ground (arith, set_bind-Inv (pos_part index) value s v)
