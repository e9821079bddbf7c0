-- ===== src/Connection/Effects/Opening.antt =====
-- `Prepare` up to its arrays, and what it does on the server.
use dbmysqlpool.Base.{
  ℕ, Bool, true, [], ◌∷◌, none, some, Bytes, ◌≡◌, ◌≢◌, arith, ◌==◌, Option-cases, inl, inr,
}
use dbmysqlpool.Mysql.{Mysql, Call}
use dbmysqlpool.Connection.State.{M, Connection, Session, call}
use dbmysqlpool.Connection.Link.{
  prepare_close, close, set_options, choose_character_set, connect_begun, connect,
}
use dbmysqlpool.Connection.Prepared.{prepare_round, prepare_loop}
use dbmysqlpool.Connection.Invariant.{prepare_close-conn}
use dbmysqlpool.Connection.Effects.{
  Effects, effects, prepare_close-effects, close-effects, connect-effects,
}

-- No arrays of parameters.
abbrev pub IsBlank : Connection → Type 0
IsBlank c = (c.bind_array ≡ none) × (c.bind_list ≡ []) × (c.bind_count ≡ 0)

close-IsBlank : (s : Session) → IsBlank s.conn → IsBlank (close s).1.conn
unfolding close
close-IsBlank s b = ground (arith, prepare_close-conn s)

set_options-conn : (s : Session) → (set_options s).1.conn ≡ s.conn
unfolding set_options
set_options-conn s = ground arith

-- The text is prepared, and nothing else happens on the server.
abbrev pub Prepares : Bytes → Effects → Bool → Effects → Type 0
Prepares sql e ok e' =
    (e'.acknowledged ≡ e.acknowledged)
    × (e'.executed ≡ e.executed)
    × (e'.attempts ≡ e.attempts)
    × (ok ≡ true → e'.prepared ≡ sql)

module _ (lib : Mysql) where
  connect_begun-IsBlank : (s : Session) → IsBlank s.conn → IsBlank (connect_begun lib s).1.conn
  unfolding connect_begun choose_character_set
  connect_begun-IsBlank s b = ground (arith, set_options-conn s)

  connect-IsBlank : (s : Session) → IsBlank s.conn → IsBlank (connect lib s).1.conn
  unfolding connect
  connect-IsBlank s b = ground (arith, connect_begun-IsBlank (call lib.init Call.init s).1)

  -- A success leaves an open statement without arrays.
  abbrev pub Opens : Bytes → M Bool → Session → Type 0
  Opens sql m s =
      Prepares sql (effects s.trace) (m s).0 (effects (m s).1.trace)
      × IsBlank (m s).1.conn
      × ((m s).0 ≡ true → (m s).1.conn.stmt ≢ none)

  prepare_round-Opens :
      (again : M Bool) (i : ℕ) (sql : Bytes) (s : Session)
      → ((i == 0) ≡ true → (t : Session) → IsBlank t.conn → Opens sql again t)
      → IsBlank s.conn
      → Opens sql (prepare_round lib again i sql) s
  unfolding prepare_round effects
  prepare_round-Opens again i sql s next b = elim (Option-cases (lib.stmt_init s.trace)) [
    | inl null ↦ rw null (ground arith)
    | inr (id, made) ↦
        let s₁ : Session = record s {
          conn = record s.conn { stmt = some id };
          trace =
              Call.stmt_prepare id sql
                (lib.stmt_prepare (Call.stmt_init (some id) ∷ s.trace) id sql)
              ∷ Call.stmt_init (some id)
              ∷ s.trace;
        } in
        let s₂ = (close s₁).1 in
        let s₃ = (connect lib s₂).1 in
        rw made (
          ground (
            arith,
            close-IsBlank s₁,
            close-effects s₁,
            connect-IsBlank s₂,
            connect-effects lib s₂,
            prepare_close-conn s₃,
            prepare_close-effects s₃,
            λ (first : (i == 0) ≡ true). next first (prepare_close s₃).1,
          ))
  ]

  pub prepare_loop-Opens :
      (sql : Bytes) (s : Session) → IsBlank s.conn → Opens sql (prepare_loop lib 2 0 sql) s
  unfolding prepare_loop
  prepare_loop-Opens sql s =
      prepare_round-Opens (prepare_loop lib 1 1 sql) 0 sql s
        λ _ t. prepare_round-Opens (prepare_loop lib 0 2 sql) 1 sql t (λ e. cc)
