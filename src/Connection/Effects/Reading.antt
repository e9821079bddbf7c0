-- ===== src/Connection/Effects/Reading.antt =====
-- DbMySQLPool/DbMySQLConnection.cpp: reading the rows of a result changes nothing on the server.
use dbmysqlpool.Base.{
  ℕ, zero, suc, Bool, Option-cases, inl, inr, some, Bytes, ◌∷◌, ◌≡◌, refl, arith,
}
use dbmysqlpool.Mysql.{Mysql, Call, Row}
use dbmysqlpool.Connection.State.{Session, call}
use dbmysqlpool.Connection.Link.{query}
use dbmysqlpool.Connection.Results.{fetch_rows, query_rows}
use dbmysqlpool.Connection.Effects.{effects}

module _ (lib : Mysql) where
  fetch_rows-effects :
      {D : Type 0} (fetch : D → Row → Bool × D) (fuel : ℕ) (d : D) (s : Session)
      → effects (fetch_rows lib fuel fetch d s).1.trace ≡ effects s.trace
  unfolding fetch_rows effects
  fetch_rows-effects fetch zero d s = refl
  fetch_rows-effects fetch (suc fuel) d s = elim (Option-cases (lib.fetch_row s.trace)) [
    | inl end ↦ ground arith
    | inr (row, more) ↦
        let s₁ : Session = record s { trace = Call.fetch_row (some row) ∷ s.trace } in
        ground (arith, fetch_rows-effects fetch fuel (fetch d row).1 s₁)
  ]

  -- `Query` with a callback does on the server what the sending of its text does.
  pub query_rows-effects :
      {D : Type 0} (fuel : ℕ) (sql : Bytes) (fetch : D → Row → Bool × D) (d : D) (s : Session)
      → effects (query_rows lib fuel sql fetch d s).1.trace ≡ effects (query lib sql s).1.trace
  unfolding query_rows effects
  query_rows-effects fuel sql fetch d s =
      let s₁ = (query lib sql s).1 in
      ground (arith, fetch_rows-effects fetch fuel d (call lib.use_result Call.use_result s₁).1)
