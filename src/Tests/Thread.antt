-- ===== src/Tests/Thread.antt =====
-- Runs of a thread that takes statements from the queue.
use dbmysqlpool.Base.{
  ℕ, true, false, [], ◌∷◌, Option, none, some, Bytes, codes, pos, ◌≡◌, refl, arith, ◌==◌,
}
use dbmysqlpool.Connection.State.{Session}
use dbmysqlpool.Connection.Protocol.{Link, replay}
use dbmysqlpool.Connection.History.{new_session, start, Reach-Inv}
use dbmysqlpool.Connection.Effects.{effects}
use dbmysqlpool.Queue.{Queue}
use dbmysqlpool.Thread.Defs.{Globals, thread_round, thread_loop, start_threads}
use dbmysqlpool.Thread.Laws.{thread_round_plain, thread_loop-down, start_threads_lem, fails}
use dbmysqlpool.Tests.Samples.{server, localhost, connected, insert_text}

abbrev plain_queue : Queue
plain_queue = record {
  list = record { sql = codes "DELETE FROM t"; arg_list = [] } ∷ [];
  max_size = pos 0;
}

abbrev list_queue : Queue
list_queue = record {
  list = record { sql = insert_text; arg_list = codes "7" ∷ [] } ∷ [];
  max_size = pos 0;
}

-- What `va_arg` finds.
abbrev missing : ℕ → Option Bytes
missing i = some (codes "x")

thread_round_plain_example :
    ((thread_round (server true 0) missing plain_queue connected).0.list ≡ [])
    × ((effects (thread_round (server true 0) missing plain_queue connected).1.trace).acknowledged
        ≡ (effects connected.trace).acknowledged)
    × ((effects (thread_round (server true 0) missing plain_queue connected).1.trace).executed
        ≡ (effects connected.trace).executed)
thread_round_plain_example =
    thread_round_plain (server true 0) missing (codes "DELETE FROM t") [] plain_queue connected
      (λ t id. refl) refl

thread_loop-down_example :
    (q' : Queue) × (s' : Session) × (thread_loop
        (server true 1)
        missing
        2
        0
        (λ i. i == 1)
        (λ i q. q)
        list_queue
        new_session
      ≡ some (q', s'))
    × (replay s'.trace ≡ some (record { link = Link.down; open_stmt = none; reading = false }))
thread_loop-down_example =
    thread_loop-down (server true 1) missing 1 2 0 (λ i. i == 1) (λ i q. q) list_queue new_session
      (Reach-Inv {lib = server true 1} start) refl (omega arith)

abbrev stopped : Globals
stopped = record { stop_thread = true; thread_count = 0 }

start_threads_lem_example :
    ((start_threads (λ i. server true 1) (λ i. i == 0) (pos 2) localhost none stopped).0 ≡ true)
    × ((start_threads
          (λ i. server true 1)
          (λ i. i == 0)
          (pos 2)
          localhost
          none
          stopped).2.stop_thread
        ≡ fails (λ i. server true 1) (λ i. i == 0) localhost none 2 0)
start_threads_lem_example =
    start_threads_lem (λ i. server true 1) (λ i. i == 0) localhost none 1 stopped
