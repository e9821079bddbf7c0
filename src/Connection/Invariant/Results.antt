-- ===== src/Connection/Invariant/Results.antt =====
-- The calls that send a whole statement and read what comes back keep a connection object well
-- formed, and free a result that they take.
use dbmysqlpool.Base.{
  ℕ, zero, suc, ◌+◌, true, false, List, [], ◌∷◌, Option, none, some, ◌≡◌, ◌≢◌, arith, Bytes, ℤ, pos,
  pos_part, Bool, Option-cases, inl, inr,
}
use dbmysqlpool.Mysql.{Call, Mysql, Row}
use dbmysqlpool.Connection.State.{Session, call, tell}
use dbmysqlpool.Connection.Protocol.{Link, replay, check}
use dbmysqlpool.Connection.Link.{query}
use dbmysqlpool.Connection.Prepared.{prepare, bind}
use dbmysqlpool.Connection.Results.{
  bind_variadic, execute_variadic, bind_all, execute_list, insert, fetch_rows, query_rows,
  query_one, query_one_int,
}
use dbmysqlpool.Connection.Lookup.{run_with_arg, query_one_arg, is_exist_table}
use dbmysqlpool.Connection.Invariant.{IsWell, Inv, prepare_close-Inv, query-Inv}
use dbmysqlpool.Connection.Invariant.Statements.{
  prepare-Inv, bind-Inv, prepare_execute-Inv, run_and_close-Inv,
}

-- A result was taken on a connected object, and not freed yet.
abbrev pub IsReading : Session → Type 0
IsReading s =
    (replay s.trace ≡ some (record { link = Link.up; open_stmt = s.conn.stmt; reading = true }))
    × (s.conn.connected ≡ true)
    × IsWell s.conn

module _ (lib : Mysql) where
  bind_variadic-Inv :
      (rounds i : ℕ) (args : ℕ → Option Bytes) (s : Session)
      → Inv s
      → Inv (bind_variadic lib rounds i args s).1
  unfolding bind_variadic
  bind_variadic-Inv zero i args s v = v
  bind_variadic-Inv (suc rounds) i args s v = elim (Option-cases (args i)) [
    | inl null ↦ rw null v
    | inr (value, given) ↦
        let s₁ = (bind (pos i) value s).1 in
        rw given
          (ground (arith, bind-Inv (pos i) value s v, bind_variadic-Inv rounds (i + 1) args s₁))
  ]

  pub execute_variadic-Inv :
      (sql : Bytes) (count : ℤ) (args : ℕ → Option Bytes) (s : Session)
      → Inv s
      → Inv (execute_variadic lib sql count args s).1
  unfolding execute_variadic
  execute_variadic-Inv sql count args s v =
      let s₁ = (prepare lib sql s).1 in
      let v₁ = prepare-Inv lib sql s v in
      let s₂ = (bind_variadic lib (pos_part count) 0 args s₁).1 in
      let v₂ = bind_variadic-Inv (pos_part count) 0 args s₁ v₁ in
      ground (arith, v₁, v₂, run_and_close-Inv lib s₂ v₂, prepare_close-Inv v₂)

  bind_all-Inv :
      (values : List Bytes) (i : ℕ) (s : Session) → Inv s → Inv (bind_all lib i values s).1
  unfolding bind_all
  bind_all-Inv [] i s v = v
  bind_all-Inv (value ∷ values) i s v =
      let s₁ = (bind (pos i) value s).1 in
      ground (arith, bind-Inv (pos i) value s v, bind_all-Inv values (i + 1) s₁)

  pub execute_list-Inv :
      (sql : Bytes) (args : List Bytes) (s : Session) → Inv s → Inv (execute_list lib sql args s).1
  unfolding execute_list
  execute_list-Inv sql args s v =
      let s₁ = (prepare lib sql s).1 in
      let v₁ = prepare-Inv lib sql s v in
      let s₂ = (bind_all lib 0 args s₁).1 in
      let v₂ = bind_all-Inv args 0 s₁ v₁ in
      ground (arith, v₁, v₂, run_and_close-Inv lib s₂ v₂, prepare_close-Inv v₂)

  pub insert-Inv :
      (sql : Bytes) (wants_id : Bool) (s : Session) → Inv s → Inv (insert lib sql wants_id s).1
  unfolding insert
  insert-Inv sql wants_id s v = (query-Inv lib sql s v).0

  -- The session after `mysql_use_result`, and after `mysql_fetch_row`.
  abbrev used : Session → Session
  used s = (call lib.use_result Call.use_result s).1

  abbrev fetched : Session → Session
  fetched s = (call lib.fetch_row Call.fetch_row s).1

  used-IsReading :
      (s : Session)
      → Inv s
      → s.conn.connected ≡ true
      → lib.use_result s.trace ≡ true
      → IsReading (used s)
  unfolding check replay
  used-IsReading s v e h = ground arith

  unused-Inv :
      (s : Session)
      → Inv s
      → s.conn.connected ≡ true
      → lib.use_result s.trace ≡ false
      → Inv (used s)
  unfolding check replay
  unused-Inv s v e h = ground arith

  fetched-IsReading : (s : Session) → IsReading s → IsReading (fetched s)
  unfolding check replay
  fetched-IsReading s v = ground arith

  fetch_rows-IsReading :
      {D : Type 0} (fuel : ℕ) (fetch : D → Row → Bool × D) (d : D) (s : Session)
      → IsReading s
      → IsReading (fetch_rows lib fuel fetch d s).1
  unfolding fetch_rows
  fetch_rows-IsReading zero fetch d s v = v
  fetch_rows-IsReading (suc fuel) fetch d s v = elim (Option-cases (lib.fetch_row s.trace)) [
    | inl end ↦ ground (arith, fetched-IsReading s v)
    | inr (row, more) ↦ ground (
      arith,
      fetched-IsReading s v,
      fetch_rows-IsReading fuel fetch (fetch d row).1 (fetched s) (fetched-IsReading s v),
    )
  ]

  freed-Inv : (s : Session) → IsReading s → Inv (record s { trace = Call.free_result ∷ s.trace })
  unfolding check replay
  freed-Inv s v = ground arith

  -- The calls on the rows, with the result freed unless the fuel ran out.
  pub query_rows-Inv :
      {D : Type 0} (fuel : ℕ) (sql : Bytes) (fetch : D → Row → Bool × D) (d : D) (s : Session)
      → Inv s
      → (query_rows lib fuel sql fetch d s).0 ≢ none
      → Inv (query_rows lib fuel sql fetch d s).1
  unfolding query_rows
  query_rows-Inv fuel sql fetch d s v =
      let s₁ = (query lib sql s).1 in
      let s₂ = used s₁ in
      ground (
        arith,
        query-Inv lib sql s v,
        used-IsReading s₁,
        unused-Inv s₁,
        fetch_rows-IsReading fuel fetch d s₂,
        freed-Inv (fetch_rows lib fuel fetch d s₂).1,
      )

  pub query_one-Inv : (sql : Bytes) (s : Session) → Inv s → Inv (query_one lib sql s).1
  unfolding query_one
  query_one-Inv sql s v =
      let s₁ = (query lib sql s).1 in
      let s₂ = used s₁ in
      ground (
        arith,
        query-Inv lib sql s v,
        used-IsReading s₁,
        unused-Inv s₁,
        fetched-IsReading s₂,
        freed-Inv (fetched s₂),
      )

  query_one_int-Inv : (sql : Bytes) (s : Session) → Inv s → Inv (query_one_int lib sql s).1
  unfolding query_one_int
  query_one_int-Inv sql s v = query_one-Inv sql s v

  pub is_exist_table-Inv :
      (table_name : Bytes) (s : Session) → Inv s → Inv (is_exist_table lib table_name s).1
  unfolding is_exist_table
  is_exist_table-Inv table_name s v = query_one_int-Inv _ s v

  run_with_arg-Inv : (sql arg : Bytes) (s : Session) → Inv s → Inv (run_with_arg lib sql arg s).1
  unfolding run_with_arg
  run_with_arg-Inv sql arg s v =
      let s₁ = (prepare lib sql s).1 in
      let v₁ = prepare-Inv lib sql s v in
      let s₂ = (bind (pos 0) arg s₁).1 in
      let v₂ = bind-Inv (pos 0) arg s₁ v₁ in
      ground (arith, v₁, v₂, prepare_execute-Inv lib false s₂ v₂)

  -- The session after `mysql_stmt_bind_result`, and after `mysql_stmt_fetch`.
  abbrev bound : ℕ → Session → Session
  bound id s = (call (λ t. lib.stmt_bind_result t id) (Call.stmt_bind_result id) s).1

  abbrev fetched_stmt : ℕ → Session → Session
  fetched_stmt id s = (tell (Call.stmt_fetch id) s).1

  bound-Inv : (id : ℕ) (s : Session) → Inv s → s.conn.stmt ≡ some id → Inv (bound id s)
  unfolding check replay
  bound-Inv id s v e = ground arith

  fetched_stmt-Inv :
      (id : ℕ) (s : Session) → Inv s → s.conn.stmt ≡ some id → Inv (fetched_stmt id s)
  unfolding check replay
  fetched_stmt-Inv id s v e = ground arith

  pub query_one_arg-Inv :
      (sql arg : Bytes) (data_size : ℕ) (old : Bytes) (s : Session)
      → Inv s
      → Inv (query_one_arg lib sql arg data_size old s).1
  unfolding query_one_arg
  query_one_arg-Inv sql arg data_size old s v = elim (Option-cases s₁.conn.stmt) [
    | inl e ↦ ground (arith, prepare_close-Inv v₁)
    | inr (id, e) ↦ ground (
      arith,
      prepare_close-Inv v₁,
      prepare_close-Inv (bound-Inv id s₁ v₁ e),
      prepare_close-Inv (fetched_stmt-Inv id (bound id s₁) (bound-Inv id s₁ v₁ e) e),
    )
  ]
    where
      s₁ : Session
      s₁ = (run_with_arg lib sql arg s).1

      v₁ : Inv s₁
      v₁ = run_with_arg-Inv sql arg s v
