-- ===== src/Pool/Calls.antt =====
-- DbMySQLPool/DbMySQLPool.cpp: the calls that borrow a connection for one statement, with
-- SipPlatform/AutoRelease.h, which gives it back at the end of the block.
use dbmysqlpool.Base.{ℕ, Bool, true, false, Option, none, some, Bytes, ℤ}
use dbmysqlpool.Mysql.{Mysql, Row}
use dbmysqlpool.Connection.State.{M}
use dbmysqlpool.Connection.Results.{
  execute, insert, query_rows, query_one, query_one_int, query_one_uint32, query_one_uint64,
  query_one_int64,
}
use dbmysqlpool.Pool.State.{World, update, select, release}

-- A statement on the connection that `Select` gives; `CAutoRelease` releases what it holds.
unfoldable pub borrow :
    {A : Type 0} → ℕ → (ℕ → World → World) → (ℕ → M A) → A → World → Option (A × World)
borrow fuel others method refused w = elim (select fuel true others true w) [
  | none ↦ none
  | some (none, w') ↦ some (refused, w')
  | some (some id, w') ↦
      let r = method id (w'.objects id) in
      some (r.0, release (some id) (record w' { objects = update w'.objects id r.1 }))
]

module _ (lib : ℕ → Mysql) (fuel : ℕ) (others : ℕ → World → World) where
  unfoldable pub pool_execute : Bytes → World → Option (Bool × World)
  unfolding borrow
  pool_execute sql = borrow fuel others (λ id. execute (lib id) sql) false

  unfoldable pub pool_insert : Bytes → Bool → World → Option ((Bool × Option ℕ) × World)
  unfolding borrow
  pool_insert sql wants_id = borrow fuel others (λ id. insert (lib id) sql wants_id) (false, none)

  -- The first number is the fuel of the loop over the rows.
  unfoldable pub pool_query :
      {D : Type 0}
      → ℕ
      → Bytes
      → (D → Row → Bool × D)
      → D
      → World
      → Option (Option (Bool × D) × World)
  unfolding borrow
  pool_query rows sql fetch d =
      borrow fuel others (λ id. query_rows (lib id) rows sql fetch d) (some (false, d))

  -- The last argument is what the variable holds before the call.
  unfoldable pub pool_query_one_int : Bytes → ℤ → World → Option ((Bool × ℤ) × World)
  unfolding borrow
  pool_query_one_int sql old = borrow fuel others (λ id. query_one_int (lib id) sql) (false, old)

  unfoldable pub pool_query_one_uint32 : Bytes → ℕ → World → Option ((Bool × ℕ) × World)
  unfolding borrow
  pool_query_one_uint32 sql old =
      borrow fuel others (λ id. query_one_uint32 (lib id) sql) (false, old)

  unfoldable pub pool_query_one_uint64 : Bytes → ℕ → World → Option ((Bool × ℕ) × World)
  unfolding borrow
  pool_query_one_uint64 sql old =
      borrow fuel others (λ id. query_one_uint64 (lib id) sql) (false, old)

  unfoldable pub pool_query_one_int64 : Bytes → ℤ → World → Option ((Bool × ℤ) × World)
  unfolding borrow
  pool_query_one_int64 sql old =
      borrow fuel others (λ id. query_one_int64 (lib id) sql) (false, old)

  unfoldable pub pool_query_one : Bytes → Bytes → World → Option ((Bool × Bytes) × World)
  unfolding borrow
  pool_query_one sql old = borrow fuel others (λ id. query_one (lib id) sql) (false, old)
