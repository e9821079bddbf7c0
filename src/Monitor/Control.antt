-- ===== src/Monitor/Control.antt =====
-- MySQLQueryMonitor/MySQLQueryThread.cpp: starting and stopping the monitor's thread.
use dbmysqlpool.Base.{
  ℕ, zero, suc, ◌+◌, ◌≤◌, ◌∙◌, ap, sym, subst, ◌==◌, Bool, true, false, not, ◌&&◌, if◌then◌else◌,
  ◌≡◌, refl, arith,
}

-- `gbRun` and `gbStop`, whether `StopMySQLQueryThread` waits, and how many threads were started but have not
-- set `gbRun`, and how many have set it and not ended.
pub record Control : Type 0 where
  pub run : Bool
  pub stop_set : Bool
  pub stopping : Bool
  pub started : ℕ
  pub running : ℕ

abbrev pub at_rest : Control
at_rest = record { run = false; stop_set = false; stopping = false; started = 0; running = 0 }

-- `StartMySQLQueryThread`, with the answer of `StartThread`.
unfoldable pub start_query_thread : Bool → Control → Bool × Control
start_query_thread can_start c =
    if c.run
    then (true, c)
    else if can_start
    then (true, record c { started = suc c.started })
    else (false, c)

-- The first and the last statement on `gbRun` of `MySQLQueryThread`.
unfoldable pub query_thread_begins : ℕ → Control → Control
query_thread_begins left c = record c { run = true; started = left; running = suc c.running }

unfoldable pub query_thread_ends : ℕ → Control → Control
query_thread_ends left c = record c { run = false; running = left }

-- `StopMySQLQueryThread` up to its loop, and behind a test of `gbRun` in the loop.
unfoldable pub stop_query_thread : Control → Control
stop_query_thread c = if c.run then record c { stop_set = true; stopping = true } else c

unfoldable pub stop_waits : Control → Control
stop_waits c =
    if c.run
    then c
    else record c { stop_set = if c.stopping then false else c.stop_set; stopping = false }

-- A step of the threads. `careful`: the thread of the windows starts none while one that it started has not set
-- `gbRun` yet, or while it waits in the stop.
pub data ControlStep : Bool → Control → Control → Type 0 where
  starts :
      {careful : Bool} {c : Control}
      → (can_start : Bool) → (careful && not ((c.started == 0) && not c.stopping)) ≡ false
      → ControlStep careful c (start_query_thread can_start c).1
  begins :
      {careful : Bool} {c : Control}
      → (left : ℕ) → c.started ≡ suc left
      → ControlStep careful c (query_thread_begins left c)
  ends :
      {careful : Bool} {c : Control}
      → (left : ℕ) → c.running ≡ suc left
      → ControlStep careful c (query_thread_ends left c)
  stops : {careful : Bool} {c : Control} → ControlStep careful c (stop_query_thread c)
  waits : {careful : Bool} {c : Control} → c.stopping ≡ true → ControlStep careful c (stop_waits c)

pub data Controls : Bool → Control → Control → Type 0 where
  done : {careful : Bool} {c : Control} → Controls careful c c
  then_step :
      {careful : Bool} {c d e : Control}
      → ControlStep careful c d
      → Controls careful d e
      → Controls careful c e

-- One thread at most, which runs exactly if `gbRun` is set; none is about to begin while a stop waits.
abbrev pub IsAlone : Control → Type 0
IsAlone c =
    (c.started + c.running ≤ 1)
    × (c.run ≡ (c.running == 1))
    × ((c.stopping && not (c.started == 0)) ≡ false)
    × ((c.stop_set && not c.stopping) ≡ false)

step-IsAlone : {c d : Control} → ControlStep true c d → IsAlone c → IsAlone d
unfolding start_query_thread query_thread_begins query_thread_ends stop_query_thread stop_waits
step-IsAlone {c} (starts can_start h) (one, same, calm, off) =
    ground (arith, h, one, same, calm, off)
step-IsAlone {c} (begins left e) (one, same, calm, off) = ground (arith, e, one, same, calm, off)
step-IsAlone {c} (ends left e) (one, same, calm, off) = ground (arith, e, one, same, calm, off)
step-IsAlone {c} stops (one, same, calm, off) = ground (arith, one, same, calm, off)
step-IsAlone {c} (waits h) (one, same, calm, off) = ground (arith, h, one, same, calm, off)

Controls-IsAlone : {c d : Control} → Controls true c d → IsAlone c → IsAlone d
Controls-IsAlone done h = h
Controls-IsAlone (then_step s r) h = Controls-IsAlone r (step-IsAlone s h)

-- If the windows start no thread while one that was started has not set `gbRun` or while a stop waits, there is at
-- most one thread at any time, and where `StopMySQLQueryThread` has waited until `gbRun` is not set, none is left
-- and the flag of the stop is taken back.
pub stop_waits-alone :
    (c : Control)
    → Controls true at_rest c
    → c.stopping ≡ true
    → c.run ≡ false
    → (c.started + c.running ≡ 0)
      × ((stop_waits c).stop_set ≡ false)
      × ((stop_waits c).stopping ≡ false)
unfolding stop_waits
stop_waits-alone c r h k =
    let (one, same, calm, off) = Controls-IsAlone r (omega arith, refl, refl, refl) in
    ground (arith, one, same, calm, off, h, k)

Controls-append : {b : Bool} {c d e : Control} → Controls b c d → Controls b d e → Controls b c e
Controls-append done r = r
Controls-append (then_step s q) r = then_step s (Controls-append q r)

abbrev control : Bool → Bool → ℕ → ℕ → Control
control run stop started running = record {
  run = run;
  stop_set = stop;
  stopping = stop;
  started = started;
  running = running;
}

-- So many calls of `StartMySQLQueryThread` that find a thread, so many first statements of threads, and a stop
-- during whose wait one thread ends.
abbrev pub starts_of : ℕ → Control → Control
starts_of zero c = c
starts_of (suc n) c = starts_of n (start_query_thread true c).1

abbrev pub begins_of : ℕ → Control → Control
begins_of zero c = c
begins_of (suc n) c = begins_of n (query_thread_begins n c)

abbrev pub stopped_with_one : ℕ → Control → Control
stopped_with_one left c = stop_waits (query_thread_ends left (stop_query_thread c))

starts_of-run :
    (n k : ℕ)
    → Controls false (control false false k 0) (starts_of n (control false false k 0))
      × (starts_of n (control false false k 0) ≡ control false false (n + k) 0)
unfolding start_query_thread
starts_of-run zero k = (done, ap (λ m. control false false m 0) (omega arith))
starts_of-run (suc n) k =
    let (steps, same) = starts_of-run n (suc k) in
    (then_step (starts true refl) steps, same ∙ ap (λ m. control false false m 0) (omega arith))

begins_of-run :
    (n k : ℕ) (run : Bool)
    → Controls false (control run false (suc n) k) (begins_of (suc n) (control run false (suc n) k))
      × (begins_of (suc n) (control run false (suc n) k) ≡ control true false 0 (suc n + k))
unfolding query_thread_begins
begins_of-run zero k run =
    (then_step (begins 0 refl) done, ap (λ m. control true false 0 m) (omega arith))
begins_of-run (suc n) k run =
    let (steps, same) = begins_of-run n (suc k) true in
    (then_step (begins (suc n) refl) steps, same ∙ ap (λ m. control true false 0 m) (omega arith))

stopped_with_one-run :
    (n : ℕ)
    → Controls false
        (control true false 0 (suc n))
        (stopped_with_one n (control true false 0 (suc n)))
      × (stopped_with_one n (control true false 0 (suc n)) ≡ control false false 0 n)
unfolding query_thread_ends stop_query_thread stop_waits
stopped_with_one-run n =
    (then_step stops (then_step (ends n refl) (then_step (waits refl) done)), refl)

-- From rest, `n + 2` calls of `StartMySQLQueryThread` before any thread has set `gbRun`, the first statements of all
-- their threads, and one stop, during whose wait one thread ends.
abbrev pub all_started : ℕ → Control
all_started n = starts_of (suc (suc n)) at_rest

abbrev pub all_begun : ℕ → Control
all_begun n = begins_of (suc (suc n)) (all_started n)

abbrev pub stopped_after : ℕ → Control
stopped_after n = stopped_with_one (suc n) (all_begun n)

all_started-run :
    (n : ℕ)
    → Controls false at_rest (all_started n) × (all_started n ≡ control false false (suc (suc n)) 0)
all_started-run n =
    let (steps, same) = starts_of-run (suc (suc n)) 0 in
    (steps, same ∙ ap (λ m. control false false m 0) (omega arith))

all_begun-run :
    (n : ℕ)
    → Controls false at_rest (all_begun n) × (all_begun n ≡ control true false 0 (suc (suc n)))
all_begun-run n =
    let (steps, same) = all_started-run n in
    let (more, end) = begins_of-run (suc n) 0 false in
    (
      Controls-append steps
          (subst (λ c. Controls false c (begins_of (suc (suc n)) c)) (sym same) more),
      ap (begins_of (suc (suc n))) same ∙ (end ∙ ap (λ m. control true false 0 m) (omega arith)),
    )

stopped_after-run :
    (n : ℕ)
    → Controls false at_rest (stopped_after n) × (stopped_after n ≡ control false false 0 (suc n))
stopped_after-run n =
    let (steps, same) = all_begun-run n in
    let (more, end) = stopped_with_one-run (suc n) in
    (
      Controls-append steps
          (subst (λ c. Controls false c (stopped_with_one (suc n) c)) (sym same) more),
      ap (stopped_with_one (suc n)) same ∙ end,
    )

at_rest_still : (n : ℕ) → stop_query_thread (control false false 0 n) ≡ control false false 0 n
unfolding stop_query_thread
at_rest_still n = refl

-- If `StartMySQLQueryThread` is called `n + 2` times before any thread has set `gbRun`, the threads then all begin,
-- and `StopMySQLQueryThread` is called and waits until one of them has ended, then the other `n + 1` still
-- run, with `gbRun` and `gbStop` not set, and a further stop changes nothing. All of it is a sequence of steps
-- from rest.
pub threads_left :
    (n : ℕ)
    → Controls false at_rest (stopped_after n)
      × ((stopped_after n).running ≡ suc n)
      × ((stopped_after n).run ≡ false)
      × ((stopped_after n).stop_set ≡ false)
      × (stop_query_thread (stopped_after n) ≡ stopped_after n)
threads_left n =
    let (steps, same) = stopped_after-run n in
    (
      steps,
      ap (λ c. c.running) same,
      ap (λ c. c.run) same,
      ap (λ c. c.stop_set) same,
      ap stop_query_thread same ∙ (at_rest_still (suc n) ∙ sym same),
    )
