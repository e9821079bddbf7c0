-- ===== src/Watcher/Repairs.antt =====
-- MySQLSlaveOverWatcher/MySQLSlaveOverWatcher.cpp: what `CheckSlave` runs on the server.
use dbmysqlpool.Base.{
  ℕ, zero, suc, ◌==◌, ◌||◌, ◌&&◌, [], codes, Bool, true, false, List, ◌∷◌, Option, none, some,
  Bytes, ◌≡◌, refl, arith, Bool-cases, inl, inr, ap, ◌∙◌, sym, subst,
}
use dbmysqlpool.Text.Case.{same_ignoring_case}
use dbmysqlpool.Mysql.{Mysql}
use dbmysqlpool.Connection.State.{Session}
use dbmysqlpool.Connection.Link.{query}
use dbmysqlpool.Connection.Results.{execute, query_rows}
use dbmysqlpool.Connection.Effects.{noted, effects, query-Sends}
use dbmysqlpool.Connection.Effects.Reading.{query_rows-effects}
use dbmysqlpool.Watcher.{
  SlaveStatus, new_status, fetch_status, is_stopped, status_text, stop_text, skip_text, start_text,
  restart, check_slave,
}

-- `No`, in letters of either case.
abbrev pub is_no : Bytes → Bool
is_no [] = false
is_no (c ∷ []) = false
is_no (c ∷ d ∷ []) = (c == b'N' || c == b'n') && (d == b'O' || d == b'o')
is_no (c ∷ d ∷ e ∷ s) = false

abbrev pub says_no : SlaveStatus → Bool
says_no status = is_no status.slave_io_running || is_no status.slave_sql_running

abbrev pub acknowledged_in : Session → List Bytes
acknowledged_in s = (effects s.trace).acknowledged

module _ (lib : Mysql) where
  -- What a check of the slave's status gives, and the session after.
  abbrev pub asked : ℕ → Session → Option (Bool × Option SlaveStatus) × Session
  asked fuel s = query_rows lib fuel status_text fetch_status (some new_status) s

  -- What `Query` answers to each of the three texts behind the check of the status, and the session after.
  abbrev pub after_stop : ℕ → Session → Bool × Session
  after_stop fuel s = query lib stop_text (asked fuel s).1

  abbrev pub after_skip : ℕ → Session → Bool × Session
  after_skip fuel s = query lib skip_text (after_stop fuel s).1

  abbrev pub after_start : ℕ → Session → Bool × Session
  after_start fuel s = query lib start_text (after_skip fuel s).1

  -- The acknowledged texts, newest first, after a round that sent all four.
  abbrev pub repaired : ℕ → Session → List Bytes
  repaired fuel s = noted (after_start fuel s).0 start_text (
      noted (after_skip fuel s).0 skip_text
        (noted (after_stop fuel s).0 stop_text (status_text ∷ acknowledged_in s)))

-- A check of so many rounds with this result, between two sessions.
pub data Watched (lib : Mysql) (fuel : ℕ) : ℕ → Option Bool → Session → Session → Type 0 where
  rounds_over : {s : Session} → Watched lib fuel 0 none s s
  left_alone :
      {n : ℕ} {s : Session}
      → (ok : Bool) (status : SlaveStatus) → (asked lib fuel s).0 ≡ some (ok, some status)
      → says_no status ≡ false
      → acknowledged_in (asked lib fuel s).1
        ≡ noted (query lib status_text s).0 status_text (acknowledged_in s)
      → Watched lib fuel (suc n) (some true) s (asked lib fuel s).1
  gave_up :
      {n : ℕ} {s : Session}
      → (ok : Bool) (status : SlaveStatus) → (asked lib fuel s).0 ≡ some (ok, some status)
      → says_no status ≡ true
      → (after_start lib fuel s).0 ≡ false
      → acknowledged_in (after_start lib fuel s).1 ≡ repaired lib fuel s
      → Watched lib fuel (suc n) (some true) s (after_start lib fuel s).1
  restarted :
      {n : ℕ} {r : Option Bool} {s t : Session}
      → (ok : Bool) (status : SlaveStatus) → (asked lib fuel s).0 ≡ some (ok, some status)
      → says_no status ≡ true
      → (after_start lib fuel s).0 ≡ true
      → acknowledged_in (after_start lib fuel s).1 ≡ repaired lib fuel s
      → Watched lib fuel n r (after_start lib fuel s).1 t
      → Watched lib fuel (suc n) r s t

is_no_lem : (v : Bytes) → same_ignoring_case v (codes "No") ≡ is_no v
is_no_lem [] = refl
is_no_lem (c ∷ []) = ground arith
is_no_lem (c ∷ d ∷ []) = ground arith
is_no_lem (c ∷ d ∷ e ∷ s) = ground arith

is_stopped-says_no : (status : SlaveStatus) → is_stopped status ≡ says_no status
unfolding is_stopped
is_stopped-says_no status =
    rw (is_no_lem status.slave_io_running, is_no_lem status.slave_sql_running) refl

module _ (lib : Mysql) where
  -- The query and the reading of its rows come to an end, and the rows have the columns that are read.
  abbrev pub Answers : ℕ → Type 0
  Answers fuel =
      (s : Session)
      → (ok : Bool) × (status : SlaveStatus) × ((asked lib fuel s).0 ≡ some (ok, some status))

  new_status-running : is_stopped new_status ≡ false
  unfolding is_stopped
  new_status-running = refl

  pub asked_refused :
      (fuel : ℕ) (s : Session)
      → (query lib status_text s).0 ≡ false
      → (asked lib fuel s).0 ≡ some (false, some new_status)
  unfolding query_rows
  asked_refused fuel s h = ground arith

  asked-acknowledged :
      (fuel : ℕ) (s : Session)
      → acknowledged_in (asked lib fuel s).1
        ≡ noted (query lib status_text s).0 status_text (acknowledged_in s)
  asked-acknowledged fuel s = ground (
    arith,
    query_rows-effects lib fuel status_text fetch_status (some new_status) s,
    query-Sends lib status_text s,
  )

  restart_lem : (fuel : ℕ) (s : Session) → restart lib (asked lib fuel s).1 ≡ after_start lib fuel s
  unfolding restart execute
  restart_lem fuel s = refl

  after_start-acknowledged :
      (fuel : ℕ) (s : Session)
      → (query lib status_text s).0 ≡ true
      → acknowledged_in (after_start lib fuel s).1 ≡ repaired lib fuel s
  after_start-acknowledged fuel s sent = ground (
    arith,
    sent,
    asked-acknowledged fuel s,
    query-Sends lib stop_text (asked lib fuel s).1,
    query-Sends lib skip_text (after_stop lib fuel s).1,
    query-Sends lib start_text (after_skip lib fuel s).1,
  )

  module _ (rounds fuel : ℕ) (s : Session) (ok : Bool) (status : SlaveStatus) where
    check_running :
        (asked lib fuel s).0 ≡ some (ok, some status)
        → is_stopped status ≡ false
        → check_slave lib (suc rounds) fuel s ≡ (some true, (asked lib fuel s).1)
    unfolding check_slave
    check_running e r = ground arith

    check_given_up :
        (asked lib fuel s).0 ≡ some (ok, some status)
        → is_stopped status ≡ true
        → (restart lib (asked lib fuel s).1).0 ≡ false
        → check_slave lib (suc rounds) fuel s ≡ (some true, (restart lib (asked lib fuel s).1).1)
    unfolding check_slave
    check_given_up e r f = ground arith

    check_again :
        (asked lib fuel s).0 ≡ some (ok, some status)
        → is_stopped status ≡ true
        → (restart lib (asked lib fuel s).1).0 ≡ true
        → check_slave lib (suc rounds) fuel s
          ≡ check_slave lib rounds fuel (restart lib (asked lib fuel s).1).1
    unfolding check_slave
    check_again e r f = ground arith

  running_stopped :
      {ok : Bool} {status : SlaveStatus}
      → Path
          (Option (Bool × Option SlaveStatus))
          (some (false, some new_status))
          (some (ok, some status))
      → is_stopped status ≡ true
      → ⊥
  running_stopped e r = ground (arith, new_status-running)

  -- A status that is not the empty one comes from an acknowledged query.
  stopped_sent :
      (fuel : ℕ) (s : Session) (ok : Bool) (status : SlaveStatus)
      → (asked lib fuel s).0 ≡ some (ok, some status)
      → is_stopped status ≡ true
      → (query lib status_text s).0 ≡ true
  stopped_sent fuel s ok status e r = elim (Bool-cases (query lib status_text s).0) [
    | inl q ↦ q
    | inr q ↦ absurd (running_stopped (sym (asked_refused fuel s q) ∙ e) r)
  ]

  over :
      (fuel : ℕ) (s : Session)
      → Watched lib fuel 0 (check_slave lib zero fuel s).0 s (check_slave lib zero fuel s).1
  unfolding check_slave
  over fuel s = rounds_over

  -- A check that comes down to another result and session.
  same_check :
      {fuel n : ℕ} {s : Session} {x y : Option Bool × Session}
      → x ≡ y
      → Watched lib fuel n y.0 s y.1
      → Watched lib fuel n x.0 s x.1
  same_check {fuel} {n} {s} e w =
      subst (λ (z : Option Bool × Session). Watched lib fuel n z.0 s z.1) (sym e) w

  -- If, in whatever session, the query for the status and the reading of its rows end with this fuel, and each row
  -- has the columns that are read: a check of so many rounds leaves the slave alone, having sent only the query
  -- for the status, in the first round in which neither thread of the slave says `No`, in letters of either case,
  -- a query that failed included. In a round in which one does, the query was acknowledged, STOP SLAVE, the
  -- skipping of one statement and START SLAVE are then given to `Query`, in this order and whatever became of
  -- those before, and the check is over in the round whose START SLAVE fails; only if it succeeds in every
  -- round do the rounds run out. The acknowledged texts after a round are those on which `Query` succeeded.
  pub check_slave-Watched :
      (rounds fuel : ℕ) (s : Session)
      → Answers fuel
      → Watched lib fuel rounds
          (check_slave lib rounds fuel s).0
          s
          (check_slave lib rounds fuel s).1
  check_slave-Watched zero fuel s answers = over fuel s
  check_slave-Watched (suc rounds) fuel s answers =
      let (ok, status, e) = answers s in
      let same = restart_lem fuel s in
      elim (Bool-cases (is_stopped status)) [
        | inr r ↦ same_check (check_running rounds fuel s ok status e r) (
            left_alone ok status e (sym (is_stopped-says_no status) ∙ r)
              (asked-acknowledged fuel s))
        | inl r ↦
            let no = sym (is_stopped-says_no status) ∙ r in
            let sent = after_start-acknowledged fuel s (stopped_sent fuel s ok status e r) in
            elim (Bool-cases (after_start lib fuel s).0) [
              | inr f ↦
                  same_check
                    (check_given_up rounds fuel s ok status e r (ap (λ x. x.0) same ∙ f)
                      ∙ ap (λ (x : Bool × Session). (some true, x.1)) same)
                    (gave_up ok status e no f sent)
              | inl f ↦
                  same_check
                    (check_again rounds fuel s ok status e r (ap (λ x. x.0) same ∙ f)
                      ∙ ap (λ (x : Bool × Session). check_slave lib rounds fuel x.1) same)
                    (restarted ok status e no f sent
                      (check_slave-Watched rounds fuel (after_start lib fuel s).1 answers))
            ]
      ]
