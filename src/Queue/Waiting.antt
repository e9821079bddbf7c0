-- ===== src/Queue/Waiting.antt =====
-- The threads that wait in `Select( clsData, true )`: `wait` gives the mutex up until a signal, and
-- `Select` looks into the queue once after it. An insertion signals one thread, if the queue was empty.
use dbmysqlpool.Base.{
  ℕ, suc, ◌+◌, ◌-◌, ◌≤◌, ◌<◌, Bool, [], ◌∷◌, pos, ◌≡◌, ◌≢◌, refl, arith, if◌then◌else◌, is_empty,
  ltb, ◌&&◌,
}
use dbmysqlpool.Queue.{QueueData, Queue, push, pop, pop_cases}
use dbmysqlpool.Queue.Order.{push_lem}

-- The queue, the threads that sleep in `wait`, and those that were signalled and have not yet looked.
pub record Monitor : Type 0 where
  pub queue : Queue
  pub asleep : ℕ
  pub woken : ℕ

-- `signal` wakes one sleeping thread, if there is one.
abbrev pub wake : Bool → Monitor → Monitor
wake signalled m =
    if signalled && ltb 0 m.asleep
    then record m { asleep = m.asleep - 1; woken = m.woken + 1 }
    else m

-- `Insert`
unfoldable pub inserted : QueueData → Monitor → Monitor
inserted d m = wake (push d m.queue).signalled (record m { queue = (push d m.queue).queue })

-- `Select( clsData, true )` up to its return or its sleep.
unfoldable pub select_waiting : Monitor → Monitor
select_waiting m =
    if is_empty m.queue.list
    then record m { asleep = m.asleep + 1 }
    else record m { queue = (pop m.queue).1 }

-- The end of `Select` of a thread that was woken.
unfoldable pub resumed : Monitor → Monitor
resumed m = record m { queue = (pop m.queue).1; woken = m.woken - 1 }

-- `Signal( )`
unfoldable pub broadcast : Monitor → Monitor
broadcast m = record m { asleep = 0; woken = m.woken + m.asleep }

-- The steps of the threads; a sleep may also end by itself.
pub data Step (m : Monitor) : Monitor → Type 0 where
  inserts : (d : QueueData) → Step m (inserted d m)
  selects : Step m (select_waiting m)
  resumes : 0 < m.woken → Step m (resumed m)
  broadcasts : Step m (broadcast m)
  wakes_up : 0 < m.asleep → Step m (record m { asleep = m.asleep - 1; woken = m.woken + 1 })

pub data Steps (m : Monitor) : Monitor → Type 0 where
  here : Steps m m
  next : {u v : Monitor} → Steps m u → Step u v → Steps m v

-- With one consumer: it never sleeps while there is something to take, unless it was signalled.
pub record IsServed (m : Monitor) : Type 0 where
  pub one : m.asleep + m.woken ≤ 1
  pub awake : 0 < m.asleep → m.queue.list ≡ []

-- A step other than another thread's entry into `Select`.
abbrev pub IsSingle : {m u : Monitor} → Step m u → Type 0
IsSingle {m} selects = m.asleep + m.woken ≡ 0
IsSingle (inserts d) = Unit
IsSingle (resumes h) = Unit
IsSingle broadcasts = Unit
IsSingle (wakes_up h) = Unit

pub Step-IsServed : {m u : Monitor} (st : Step m u) → IsSingle st → IsServed m → IsServed u
unfolding inserted select_waiting resumed broadcast
Step-IsServed {m} (inserts d) single v = ground (arith, push_lem d m.queue)
Step-IsServed selects single v = ground arith
Step-IsServed {m} (resumes h) single v = ground (arith, pop_cases m.queue)
Step-IsServed broadcasts single v = ground arith
Step-IsServed (wakes_up h) single v = ground arith

-- Steps among which no thread enters `Select` while another sleeps or is on its way out of it.
pub data Singles (m : Monitor) : Monitor → Type 0 where
  none_yet : Singles m m
  then_step : {u v : Monitor} → Singles m u → (st : Step u v) → IsSingle st → Singles m v

-- With one consumer no wake-up is lost: whatever the order of insertions, signals and wake-ups, at most
-- one thread is in the wait, and it does not sleep while the queue holds something, if it was so at
-- first and no thread enters `Select` while another is in the wait.
pub Singles-IsServed : {m u : Monitor} → Singles m u → IsServed m → IsServed u
Singles-IsServed none_yet v = v
Singles-IsServed (then_step r st single) v = Step-IsServed st single (Singles-IsServed r v)

-- An insertion into a queue that holds something wakes nobody.
pub inserted_quiet :
    (d : QueueData) (m : Monitor)
    → m.queue.list ≢ []
    → ((inserted d m).asleep ≡ m.asleep) × ((inserted d m).woken ≡ m.woken)
unfolding inserted
inserted_quiet d m h = ground (arith, push_lem d m.queue)

-- Insertions without a maximum size.
inserted_first :
    (d : QueueData) (m : Monitor) (k : ℕ)
    → m.queue ≡ record { list = []; max_size = pos 0 }
    → m.asleep ≡ suc k
    → (inserted d m).queue ≡ record { list = d ∷ []; max_size = pos 0 }
      × ((inserted d m).asleep ≡ k)
      × ((inserted d m).woken ≡ suc m.woken)
unfolding inserted
inserted_first d m k q h = ground (arith, push_lem d m.queue)

inserted_second :
    (d e : QueueData) (m : Monitor)
    → m.queue ≡ record { list = d ∷ []; max_size = pos 0 }
    → (inserted e m).queue ≡ record { list = d ∷ e ∷ []; max_size = pos 0 }
      × ((inserted e m).asleep ≡ m.asleep)
      × ((inserted e m).woken ≡ m.woken)
unfolding inserted
inserted_second d e m q = ground (arith, push_lem e m.queue)

resumed_first :
    (d e : QueueData) (m : Monitor)
    → m.queue ≡ record { list = d ∷ e ∷ []; max_size = pos 0 }
    → ((resumed m).queue.list ≡ e ∷ [])
      × ((resumed m).asleep ≡ m.asleep)
      × ((resumed m).woken ≡ m.woken - 1)
unfolding resumed
resumed_first d e m q = ground (arith, pop_cases m.queue)

-- Two or more threads that sleep at an unbounded empty queue.
abbrev pub waiting : ℕ → Monitor
waiting n = record {
  queue = record { list = []; max_size = pos 0 };
  asleep = suc (suc n);
  woken = 0;
}

-- With two or more waiting consumers wake-ups are lost: two insertions before the first signalled
-- thread runs wake that one only; when it has taken its entry, the other entry is in the queue, all the
-- other consumers sleep, none is on its way, and the next insertion wakes none either.
pub lost_wakeup :
    (n : ℕ) (d e : QueueData)
    → (u : Monitor) × Steps (waiting n) u
      × (u.queue.list ≡ e ∷ [])
      × (u.asleep ≡ suc n)
      × (u.woken ≡ 0)
      × ((f : QueueData) → ((inserted f u).asleep ≡ suc n) × ((inserted f u).woken ≡ 0))
lost_wakeup n d e =
    let m₁ = inserted d (waiting n) in
    let m₂ = inserted e m₁ in
    let (q₁, a₁, w₁) = inserted_first d (waiting n) (suc n) refl refl in
    let (q₂, a₂, w₂) = inserted_second d e m₁ q₁ in
    let (q₃, a₃, w₃) = resumed_first d e m₂ q₂ in
    (
      resumed m₂,
      next (next (next here (inserts d)) (inserts e)) (resumes (omega arith)),
      q₃,
      omega arith,
      omega arith,
      λ f. ground (arith, inserted_quiet f (resumed m₂)),
    )
