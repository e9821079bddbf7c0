-- ===== src/Thread/Laws.antt =====
-- What a queued statement does on the server, how a thread ends, and what starting reports.
use dbmysqlpool.Base.{
  ℕ, zero, suc, ◌+◌, ◌<◌, Bool, true, false, List, [], ◌∷◌, ◌++◌, Option, none, some, Bytes, pos,
  if◌then◌else◌, ◌≡◌, refl, arith, length, map, append-nil, ◌∙◌, subst, inl, inr, Bool-cases, not,
  ◌||◌,
}
use dbmysqlpool.Mysql.{Mysql, Target}
use dbmysqlpool.Connection.State.{Session, new_connection}
use dbmysqlpool.Connection.Link.{close, connect_to}
use dbmysqlpool.Connection.Protocol.{Link, replay}
use dbmysqlpool.Connection.Results.{execute_list}
use dbmysqlpool.Connection.Invariant
use dbmysqlpool.Connection.Invariant.{close-Inv, close-shut}
use dbmysqlpool.Connection.Invariant.Results.{execute_variadic-Inv, execute_list-Inv}
use dbmysqlpool.Connection.Effects.{effects}
use dbmysqlpool.Connection.Effects.Statements.{HasParams, execute_variadic_plain, execute_list-Runs}
use dbmysqlpool.Queue.{QueueData, Queue, pop_cases}
use dbmysqlpool.Thread.Defs.{
  Globals, stop, run_data, thread_round, thread_loop, start_thread, start_loop, start_threads,
}

stops_at : (stops : ℕ → Bool) (a b : ℕ) → a ≡ b → stops a ≡ true → stops b ≡ true
stops_at stops a b p e = subst (λ n. stops n ≡ true) p e

module _ (lib : Mysql) (missing : ℕ → Option Bytes) where
  -- A queued text without arguments is lost: the thread takes it from the queue, and if the server
  -- finds no parameter in it, the thread runs nothing, whatever `va_arg` finds in the missing place.
  pub thread_round_plain :
      (sql : Bytes) (ds : List QueueData) (q : Queue) (s : Session)
      → HasParams lib 0
      → q.list ≡ record { sql = sql; arg_list = [] } ∷ ds
      → ((thread_round lib missing q s).0.list ≡ ds)
        × ((effects (thread_round lib missing q s).1.trace).acknowledged
            ≡ (effects s.trace).acknowledged)
        × ((effects (thread_round lib missing q s).1.trace).executed ≡ (effects s.trace).executed)
  unfolding thread_round run_data
  thread_round_plain sql ds q s count e =
      ground (arith, pop_cases q, execute_variadic_plain lib sql 0 missing s count)

  -- A queued text with as many arguments as parameters is taken from the queue and run at most once,
  -- with those arguments; it has run if `Execute` succeeded.
  thread_round_list :
      (sql arg : Bytes) (args : List Bytes) (ds : List QueueData) (q : Queue) (s : Session)
      → HasParams lib (suc (length args))
      → q.list ≡ record { sql = sql; arg_list = arg ∷ args } ∷ ds
      → ((thread_round lib missing q s).0.list ≡ ds)
        × ((effects (thread_round lib missing q s).1.trace).executed ≡ (
            if (execute_list lib sql (arg ∷ args) s).0
            then (sql, map some (arg ∷ args)) ∷ (effects s.trace).executed
            else (effects s.trace).executed))
  unfolding thread_round run_data
  thread_round_list sql arg args ds q s count e = ground (
    arith,
    pop_cases q,
    execute_list-Runs lib 0 sql (arg ∷ args) s (λ t id. count t id ∙ omega arith),
    append-nil (map some args),
  )

  run_data-Inv :
      (d : QueueData) (s : Session) → Invariant.Inv s → Invariant.Inv (run_data lib missing d s)
  unfolding run_data
  run_data-Inv d s v = ground (
    arith,
    execute_variadic-Inv lib d.sql (pos 1) missing s v,
    execute_list-Inv lib d.sql d.arg_list s v,
  )

  thread_round-Inv :
      (q : Queue) (s : Session) → Invariant.Inv s → Invariant.Inv (thread_round lib missing q s).1
  unfolding thread_round
  thread_round-Inv q s v = elim (pop_cases q) [
    | inl (e, p) ↦ rw (p, thread_round) v
    | inr (d, ds, e, p) ↦ rw (p, thread_round) (run_data-Inv d s v)
  ]

  -- Closing leaves the handle down.
  closed_down :
      (s : Session)
      → Invariant.Inv s
      → replay (close s).1.trace
        ≡ some (record { link = Link.down; open_stmt = none; reading = false })
  closed_down s v = ground (arith, close-Inv v, close-shut s)

  -- A thread with a well-formed connection, whose round `i + k` sees the stop flag, ends by then: with fuel for more than `k` rounds it
  -- returns, and its connection is closed with no statement open.
  pub thread_loop-down :
      (k fuel i : ℕ) (stops : ℕ → Bool) (others : ℕ → Queue → Queue) (q : Queue) (s : Session)
      → Invariant.Inv s
      → stops (i + k) ≡ true
      → k < fuel
      → (q' : Queue) × (s' : Session) × (thread_loop lib missing fuel i stops others q s
          ≡ some (q', s'))
        × (replay s'.trace ≡ some (record { link = Link.down; open_stmt = none; reading = false }))
  unfolding thread_loop
  thread_loop-down k zero i stops others q s v e lt = absurd (omega arith)
  thread_loop-down zero (suc fuel) i stops others q s v e lt =
      (q, (close s).1, rw (stops_at stops (i + 0) i (omega arith) e, thread_loop), closed_down s v)
  thread_loop-down (suc k) (suc fuel) i stops others q s v e lt = elim (Bool-cases (stops i)) [
    | inl stop_now ↦ (q, (close s).1, rw (stop_now, thread_loop), closed_down s v)
    | inr go_on ↦
        let r = thread_round lib missing q s in
        rw (go_on, thread_loop)
          (thread_loop-down k fuel (suc i) stops others (others i r.0) r.1 (thread_round-Inv q s v)
            (stops_at stops (i + suc k) (suc i + k) (omega arith) e) (omega arith))
  ]

module _ (lib : ℕ → Mysql) (answers : ℕ → Bool) (to : Target) (character_set : Option Bytes) where
  -- Whether a thread among the next `rounds` cannot be started.
  abbrev pub fails : ℕ → ℕ → Bool
  fails zero i = false
  fails (suc rounds) i = not (answers i) || fails rounds (suc i)

  start_loop-fails :
      (rounds i : ℕ) (threads : List Session) (g : Globals)
      → (start_loop lib answers rounds i to character_set threads g).0 ≡ fails rounds i
  unfolding start_loop start_thread
  start_loop-fails zero i threads g = refl
  start_loop-fails (suc rounds) i threads g =
      let s =
        (connect_to (lib i) to character_set (record { conn = new_connection; trace = [] })).1 in
      ground (
        arith,
        start_loop-fails rounds (suc i) (threads ++ s ∷ []) (record g { stop_thread = false }),
      )

  start_loop-flag :
      (rounds i : ℕ) (threads : List Session) (g : Globals)
      → (start_loop lib answers (suc rounds) i to character_set threads g).2.stop_thread ≡ false
  unfolding start_loop start_thread
  start_loop-flag zero i threads g = ground arith
  start_loop-flag (suc rounds) i threads g =
      let s =
        (connect_to (lib i) to character_set (record { conn = new_connection; trace = [] })).1 in
      ground (
        arith,
        start_loop-flag rounds (suc i) (threads ++ s ∷ []) (record g { stop_thread = false }),
      )

  -- Starting one thread or more reports success on every path. The stop flag is set after it exactly
  -- if one of the threads cannot be started, so that those started before it end.
  pub start_threads_lem :
      (n : ℕ) (g : Globals)
      → ((start_threads lib answers (pos (suc n)) to character_set g).0 ≡ true)
        × ((start_threads lib answers (pos (suc n)) to character_set g).2.stop_thread
            ≡ fails (suc n) 0)
  unfolding start_threads stop
  start_threads_lem n g = ground (arith, start_loop-fails (suc n) 0 [] g, start_loop-flag n 0 [] g)
