-- ===== src/Connection/Effects/Statements.antt =====
-- What prepared statements run on the server, and with which values.
use dbmysqlpool.Base.{
  ℕ, suc, ◌+◌, Bool, true, false, List, [], ◌∷◌, ◌++◌, Option, none, some, Bytes, ◌≡◌, ◌≢◌, refl,
  arith, if◌then◌else◌, Option-cases, inl, inr, pos, length, replicate, map,
}
use dbmysqlpool.Mysql.{Mysql, Trace}
use dbmysqlpool.Connection.State.{if_null, M, Session}
use dbmysqlpool.Connection.Link.{prepare_close, connect, ensure_connected}
use dbmysqlpool.Connection.Prepared.{
  param_values, prepare_loop, allocate_binds, prepare_connected, prepare, bind, prepare_execute,
  run_and_close,
}
use dbmysqlpool.Connection.Results.{bind_variadic, execute_variadic, bind_all, execute_list}
use dbmysqlpool.Connection.Invariant.{prepare_close-conn}
use dbmysqlpool.Connection.Effects.{Effects, effects, prepare_close-effects, connect-effects}
use dbmysqlpool.Connection.Effects.Opening.{IsBlank, Prepares, prepare_loop-Opens}
use dbmysqlpool.Connection.Effects.Binding.{BoundTo, bind_all-BoundTo, param_values-BoundTo}

module _ (lib : Mysql) where
  -- The server reports `n` parameters for the statements that are prepared.
  abbrev pub HasParams : ℕ → Type 0
  HasParams n = (t : Trace) (id : ℕ) → lib.stmt_param_count t (some id) ≡ n

  allocate_binds-BoundTo :
      (n : ℕ) (s : Session)
      → HasParams n
      → IsBlank s.conn
      → s.conn.stmt ≢ none
      → (effects (allocate_binds lib s).1.trace ≡ effects s.trace)
        × ((allocate_binds lib s).0 ≡ true → BoundTo [] n (allocate_binds lib s).1.conn)
  unfolding allocate_binds
  allocate_binds-BoundTo n s count b open_stmt = elim (Option-cases s.conn.stmt) [
    | inl e ↦ absurd (open_stmt e)
    | inr (id, e) ↦
        let s₁ : Session = record s { conn = record s.conn { bind_count = n } } in
        ground (arith, count s.trace id, prepare_close-effects s₁)
  ]

  abbrev Readies : ℕ → Bytes → M Bool → Session → Type 0
  Readies n sql m s =
      Prepares sql (effects s.trace) (m s).0 (effects (m s).1.trace)
      × ((m s).0 ≡ true → BoundTo [] n (m s).1.conn)

  prepare_connected-Readies :
      (n : ℕ) (sql : Bytes) (s : Session)
      → HasParams n
      → Readies n sql (prepare_connected lib sql) s
  unfolding prepare_connected
  prepare_connected-Readies n sql s count =
      let s₁ = (prepare_close s).1 in
      ground (
        arith,
        prepare_close-conn s,
        prepare_close-effects s,
        prepare_loop-Opens lib sql s₁,
        allocate_binds-BoundTo n (prepare_loop lib 2 0 sql s₁).1 count,
      )

  -- `Prepare` runs nothing on the server, and its success leaves an unbound place for each parameter.
  prepare-Readies :
      (n : ℕ) (sql : Bytes) (s : Session) → HasParams n → Readies n sql (prepare lib sql) s
  unfolding prepare ensure_connected
  prepare-Readies n sql s count = ground (
    arith,
    connect-effects lib s,
    prepare_connected-Readies n sql s count,
    prepare_connected-Readies n sql (connect lib s).1 count,
  )

  -- The prepared text is run with the values of the bound places, if the result is true.
  abbrev pub Runs : Bytes → List (Option Bytes) → Effects → Bool → Effects → Type 0
  Runs sql values e ok e' =
      (e'.acknowledged ≡ e.acknowledged)
      × (e'.executed ≡ (if ok then (sql, values) ∷ e.executed else e.executed))

  run_and_close-Runs :
      (sql : Bytes) (s : Session)
      → (effects s.trace).prepared ≡ sql
      → Runs sql
          (param_values s.conn)
          (effects s.trace)
          (run_and_close lib s).0
          (effects (run_and_close lib s).1.trace)
  unfolding run_and_close prepare_execute effects
  run_and_close-Runs sql s e = ground (arith, prepare_close-effects (prepare_execute lib false s).1)

  -- `Execute( pszSQL, clsArgList )` runs the statement exactly when it succeeds, and then once, with
  -- the arguments in their order; the places of missing arguments stay unset. The statement has as
  -- many parameters as there are arguments, and `k` more.
  pub execute_list-Runs :
      (k : ℕ) (sql : Bytes) (args : List Bytes) (s : Session)
      → HasParams (length args + k)
      → Runs sql
          (map some args ++ replicate k none)
          (effects s.trace)
          (execute_list lib sql args s).0
          (effects (execute_list lib sql args s).1.trace)
  unfolding execute_list
  execute_list-Runs k sql args s count =
      let s₁ = (prepare lib sql s).1 in
      let s₂ = (bind_all lib 0 args s₁).1 in
      ground (
        arith,
        prepare-Readies (length args + k) sql s count,
        bind_all-BoundTo lib args [] k 0 s₁ refl,
        param_values-BoundTo args k s₂.conn,
        run_and_close-Runs sql s₂,
      )

  bind_variadic-refused :
      (rounds : ℕ) (args : ℕ → Option Bytes) (s : Session)
      → s.conn.bind_count ≡ 0
      → ((bind_variadic lib (suc rounds) 0 args s).0 ≡ false)
        × ((bind_variadic lib (suc rounds) 0 args s).1.trace ≡ s.trace)
  unfolding bind_variadic bind
  bind_variadic-refused rounds args s e = elim (Option-cases (args 0)) [
    | inl null ↦ rw (null, if_null) (refl, refl)
    | inr (v, given) ↦ rw (given, if_null) (ground arith)
  ]

  -- If the server finds no parameter in a text and at least one argument is counted, the variadic `Execute`
  -- fails and runs nothing, whatever `va_arg` finds.
  pub execute_variadic_plain :
      (sql : Bytes) (arg_count : ℕ) (args : ℕ → Option Bytes) (s : Session)
      → HasParams 0
      → ((execute_variadic lib sql (pos (suc arg_count)) args s).0 ≡ false)
        × ((effects (execute_variadic lib sql (pos (suc arg_count)) args s).1.trace).acknowledged
            ≡ (effects s.trace).acknowledged)
        × ((effects (execute_variadic lib sql (pos (suc arg_count)) args s).1.trace).executed
            ≡ (effects s.trace).executed)
  unfolding execute_variadic
  execute_variadic_plain sql arg_count args s count =
      let s₁ = (prepare lib sql s).1 in
      ground (
        arith,
        prepare-Readies 0 sql s count,
        bind_variadic-refused arg_count args s₁,
        prepare_close-effects (bind_variadic lib (suc arg_count) 0 args s₁).1,
      )
