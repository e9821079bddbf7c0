-- ===== src/Connection/Prepared.antt =====
-- DbMySQLPool/DbMySQLConnection.cpp: prepared statements.
use dbmysqlpool.Base.{
  ℕ, zero, suc, ◌+◌, Bool, true, false, ◌&&◌, ◌||◌, List, [], ◌++◌, Option, none, some, Bytes, ℤ,
  pos, pos_part, leb_ℤ, ltb_ℤ, ltb, ◌==◌, if◌then◌else◌, get_elem?, set, replicate, take, length,
  map,
}
use mathlib.Core.Option
use dbmysqlpool.Mysql.{Mysql, Param, unset, text, Call}
use dbmysqlpool.Connection.State.{
  Connection, M, pure, when◌then◌else◌, if_null, ◌>>=◌, ◌>>◌, call, ask, get, modify,
}
use dbmysqlpool.Connection.Link.{prepare_close, close, connect, ensure_connected, is_gone}

-- What a call of the library reads through an entry of the `MYSQL_BIND` array: the first
-- `buffer_length` bytes of the text that the pointer goes to.
unfoldable pub param_value : List Bytes → Param → Option Bytes
param_value texts unset = none
param_value texts (text buffer buffer_length) =
    Option.map (take buffer_length) (get_elem? texts buffer)

unfoldable pub param_values : Connection → List (Option Bytes)
unfolding param_value
param_values c = elim c.bind_array [ none ↦ [] | some array ↦ map (param_value c.bind_list) array ]

module _ (lib : Mysql) where
  -- One round of the loop of `Prepare`, at `i`, with what follows after a reconnect.
  unfoldable pub prepare_round : M Bool → ℕ → Bytes → M Bool
  prepare_round again i sql = do
    stmt ← call lib.stmt_init Call.stmt_init
    modify (λ c. record c { stmt = stmt })
    if_null stmt (pure false) (λ id. do
      prepared ← call (λ t. lib.stmt_prepare t id sql) (Call.stmt_prepare id sql)
      errno ← ask lib.errno
      when prepared
          then pure true
          else when (i == 0) && is_gone errno
          then (do
            close
            back ← connect lib
            when back then (do prepare_close; again) else pure false)
          else pure false)

  -- The loop: the rounds left and `i`.
  unfoldable pub prepare_loop : ℕ → ℕ → Bytes → M Bool
  unfolding prepare_round
  prepare_loop zero i sql = pure true
  prepare_loop (suc rounds) i sql = prepare_round (prepare_loop rounds (i + 1) sql) i sql

  -- The end of `Prepare`: an entry of the array and an empty text for each parameter.
  unfoldable pub allocate_binds : M Bool
  allocate_binds = do
    stmt ← get (λ c. c.stmt)
    count ← ask (λ t. lib.stmt_param_count t stmt)
    modify (λ c. record c { bind_count = count })
    when ltb 0 count
        then (do
          allocated ← ask (λ t. lib.malloc t count)
          when allocated
              then (do
                modify (λ c. record c {
                  bind_array = some (replicate count unset);
                  bind_list = c.bind_list ++ replicate count [];
                })
                pure true)
              else (do prepare_close; pure false))
        else pure true

  -- `Prepare` on a connected object.
  unfoldable pub prepare_connected : Bytes → M Bool
  unfolding prepare_loop allocate_binds
  prepare_connected sql = do
    prepare_close
    prepared ← prepare_loop 2 0 sql
    when prepared then allocate_binds else pure false

  unfoldable pub prepare : Bytes → M Bool
  prepare sql = do
    ready ← ensure_connected lib
    when ready then prepare_connected sql else pure false

-- The writes of `Bind` behind its guards.
abbrev pub set_bind : ℕ → Bytes → Connection → Connection
set_bind index value c = record c {
  bind_list = set c.bind_list index value;
  bind_array = Option.map (λ array. set array index (text index (length value))) c.bind_array;
}

unfoldable pub bind : ℤ → Bytes → M Bool
bind index value = do
  stmt ← get (λ c. c.stmt)
  count ← get (λ c. c.bind_count)
  if_null stmt (pure false) (λ _.
      when leb_ℤ (pos count) index || ltb_ℤ index (pos 0)
      then pure false
      else (do modify (set_bind (pos_part index) value); pure true))

module _ (lib : Mysql) where
  -- The second result is `*piId`, where `piId` is given and the statement ran.
  unfoldable pub prepare_execute : Bool → M (Bool × Option ℕ)
  prepare_execute wants_id = do
    stmt ← get (λ c. c.stmt)
    if_null stmt (pure (false, none)) (λ id. do
      bound ← call (λ t. lib.stmt_bind_param t id) (Call.stmt_bind_param id)
      when bound
          then (do
            values ← get param_values
            ran ← call (λ t. lib.stmt_execute t id values) (Call.stmt_execute id values)
            new_id ← ask (λ t. lib.stmt_insert_id t id)
            pure (if ran then (true, if wants_id then some new_id else none) else (false, none)))
          else pure (false, none))

  -- `PrepareExecute( )` and `PrepareClose( )`, the end of both dynamic forms of `Execute`.
  unfoldable pub run_and_close : M Bool
  run_and_close = do done ← prepare_execute false; prepare_close; pure done.0
