-- ===== src/Tests/Queue.antt =====
-- Runs of the queue.
use dbmysqlpool.Base.{[], ◌∷◌, ◌++◌, codes, pos, ◌≡◌, refl, arith}
use dbmysqlpool.Queue.{QueueData, Queue}
use dbmysqlpool.Queue.Order.{run_ops, start, pushes, pops, run_ops-start}
use dbmysqlpool.Queue.Waiting.{
  Monitor, IsServed, none_yet, then_step, inserts, inserted, Steps, Singles-IsServed,
  inserted_quiet, lost_wakeup, waiting,
}

abbrev entry : QueueData
entry = record { sql = codes "DELETE FROM t"; arg_list = [] }

-- At most two entries.
abbrev small : Queue
small = record { list = []; max_size = pos 2 }

run_ops-start_example :
    (run_ops (pushes entry ∷ pushes entry ∷ pops ∷ []) (start small)).taken
    ≡ (run_ops (pushes entry ∷ pushes entry ∷ pops ∷ []) (start small)).given
      ++ (run_ops (pushes entry ∷ pushes entry ∷ pops ∷ []) (start small)).queue.list
run_ops-start_example = run_ops-start (pushes entry ∷ pushes entry ∷ pops ∷ []) small

abbrev quiet : Monitor
quiet = record { queue = small; asleep = 1; woken = 0 }

quiet-IsServed : IsServed quiet
quiet-IsServed = record { one = omega arith; awake = λ h. refl }

Singles-IsServed_example : IsServed (inserted entry (inserted entry quiet))
Singles-IsServed_example =
    Singles-IsServed (then_step (then_step none_yet (inserts entry) tt) (inserts entry) tt)
      quiet-IsServed

abbrev holding : Monitor
holding = record { queue = record small { list = entry ∷ [] }; asleep = 1; woken = 0 }

inserted_quiet_example :
    ((inserted entry holding).asleep ≡ 1) × ((inserted entry holding).woken ≡ 0)
inserted_quiet_example = inserted_quiet entry holding (λ e. cc)

lost_wakeup_example :
    (u : Monitor) × Steps (waiting 0) u
    × (u.queue.list ≡ entry ∷ [])
    × (u.asleep ≡ 1)
    × (u.woken ≡ 0)
    × ((f : QueueData) → ((inserted f u).asleep ≡ 1) × ((inserted f u).woken ≡ 0))
lost_wakeup_example = lost_wakeup 0 entry entry
