-- ===== src/Thread/Defs.antt =====
-- DbMySQLPool/DbMySQLThread.cpp: the globals of the threads, one thread, and starting and stopping.
-- What the other threads do to the queue, when the stop flag is seen, and what `StartThread` answers
-- are arguments.
use dbmysqlpool.Base.{
  ℕ, zero, suc, ◌+◌, ◌-◌, Bool, true, false, List, [], ◌∷◌, ◌++◌, Option, none, some, Bytes, ℤ, pos,
  pos_part, if◌then◌else◌, is_empty, ltb,
}
use dbmysqlpool.Mysql.{Mysql, Target}
use dbmysqlpool.Connection.State.{Session, new_connection}
use dbmysqlpool.Connection.Link.{close, connect_to}
use dbmysqlpool.Connection.Results.{execute_variadic, execute_list}
use dbmysqlpool.Queue.{QueueData, Queue, pop}

-- `gbStopThread` and `giThreadCount`.
pub record Globals : Type 0 where
  pub stop_thread : Bool
  pub thread_count : ℕ

unfoldable pub stop : Globals → Globals
stop g = record g { stop_thread = true }

unfoldable pub is_thread_run : Globals → Bool
is_thread_run g = ltb 0 g.thread_count

-- One statement of the queue. `Execute( sql, true )` is the call of the variadic form with the count
-- 1, and without an argument: `missing` is what `va_arg` finds.
unfoldable pub run_data : Mysql → (ℕ → Option Bytes) → QueueData → Session → Session
run_data lib missing d s =
    if is_empty d.arg_list
    then (execute_variadic lib d.sql (pos 1) missing s).1
    else (execute_list lib d.sql d.arg_list s).1

-- A round of the loop: the queue and the connection of the thread.
unfoldable pub thread_round : Mysql → (ℕ → Option Bytes) → Queue → Session → Queue × Session
thread_round lib missing q s = elim (pop q).0 [
  | none ↦ ((pop q).1, s)
  | some d ↦ ((pop q).1, run_data lib missing d s)
]

-- The loop from a round on, to the closing of the connection. `stops` is what a round sees of
-- `gbStopThread`, and `others` what happens to the queue before the next; `none`: the fuel ran out.
unfoldable pub thread_loop :
    Mysql
    → (ℕ → Option Bytes)
    → ℕ
    → ℕ
    → (ℕ → Bool)
    → (ℕ → Queue → Queue)
    → Queue
    → Session
    → Option (Queue × Session)
thread_loop lib missing zero i stops others q s = none
thread_loop lib missing (suc fuel) i stops others q s =
    let r = thread_round lib missing q s in
    let rest = thread_loop lib missing fuel (suc i) stops others (others i r.0) r.1 in
    elim (stops i) [ true ↦ some (q, (close s).1) | false ↦ rest ]

-- The thread's entry and exit.
unfoldable pub enter : Globals → Globals
enter g = record g { thread_count = g.thread_count + 1 }

unfoldable pub leave : Globals → Globals
leave g = record g { thread_count = g.thread_count - 1 }

-- `StartDbMySQLThread( pclsDbConn, pclsSqlQueue )`, with the answer of `StartThread`.
unfoldable pub start_thread : Bool → Globals → Bool × Globals
start_thread answer g = (answer, record g { stop_thread = false })

-- The loop of `StartDbMySQLThread( iThreadCount, … )`: whether an error arose, and the connections of
-- the threads that were started. The result of `Connect` is not looked at.
unfoldable pub start_loop :
    (ℕ → Mysql)
    → (ℕ → Bool)
    → ℕ
    → ℕ
    → Target
    → Option Bytes
    → List Session
    → Globals
    → Bool × List Session × Globals
start_loop lib answers zero i to character_set threads g = (false, threads, g)
start_loop lib answers (suc rounds) i to character_set threads g =
    let s =
      (connect_to (lib i) to character_set (record { conn = new_connection; trace = [] })).1 in
    let r = start_thread (answers i) g in
    let rest = start_loop lib answers rounds (suc i) to character_set (threads ++ s ∷ []) r.1 in
    elim r.0 [ true ↦ rest | false ↦ (true, threads, r.1) ]

unfoldable pub start_threads :
    (ℕ → Mysql) → (ℕ → Bool) → ℤ → Target → Option Bytes → Globals → Bool × List Session × Globals
start_threads lib answers thread_count to character_set g =
    let r = start_loop lib answers (pos_part thread_count) 0 to character_set [] g in
    if r.0 then (true, r.1, stop r.2) else (true, r.1, r.2)
