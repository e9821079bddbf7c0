-- ===== src/Queue/Order.antt =====
-- DbMySQLPool/DbMySQLQueue.cpp: sequences of the sections of any threads, and what they take in and hand
-- out.
use dbmysqlpool.Base.{
  ℕ, suc, ◌≤◌, ◌&&◌, not, List, [], ◌∷◌, ◌++◌, Option, none, some, pos, ◌≡◌, refl, arith,
  if◌then◌else◌, length, length-append, append_assoc, append-nil, inl, inr, is_empty,
}
use dbmysqlpool.Queue.{QueueData, Queue, is_full, push, pop, pop_cases}

-- A section of a thread: an insertion or a `Select` that finds out what is there.
pub data Op : Type 0 where
  pushes : QueueData → Op
  pops : Op

-- What a sequence of sections leaves, with the entries that were taken in and handed out, each in
-- order.
pub record Run : Type 0 where
  pub queue : Queue
  pub taken : List QueueData
  pub given : List QueueData

abbrev pub given_by : Option QueueData → List QueueData
given_by none = []
given_by (some d) = d ∷ []

unfoldable pub run_op : Op → Run → Run
run_op (pushes d) r =
    let i = push d r.queue in
    record {
      queue = i.queue;
      taken = (if i.result then r.taken ++ d ∷ [] else r.taken);
      given = r.given;
    }
run_op pops r =
    let p = pop r.queue in record { queue = p.1; taken = r.taken; given = r.given ++ given_by p.0 }

unfoldable pub run_ops : List Op → Run → Run
run_ops [] r = r
run_ops (o ∷ os) r = run_ops os (run_op o r)

abbrev InOrder : Run → Type 0
InOrder r = r.taken ≡ r.given ++ r.queue.list

run_op-InOrder : (o : Op) (r : Run) → InOrder r → InOrder (run_op o r)
unfolding run_op push
run_op-InOrder (pushes d) r h = ground (arith, append_assoc r.given r.queue.list (d ∷ []))
run_op-InOrder pops r h = elim (pop_cases r.queue) [
  | inl (e, p) ↦ ground (arith, append-nil r.given)
  | inr (d, ds, e, p) ↦ ground (arith, append_assoc r.given (d ∷ []) ds)
]

run_ops-InOrder : (os : List Op) (r : Run) → InOrder r → InOrder (run_ops os r)
unfolding run_ops
run_ops-InOrder [] r h = h
run_ops-InOrder (o ∷ os) r h = run_ops-InOrder os (run_op o r) (run_op-InOrder o r h)

abbrev pub start : Queue → Run
start q = record { queue = q; taken = q.list; given = [] }

-- First in, first out: after any sequence of insertions and removals by any threads, the entries
-- handed out, followed by those still in the queue, are those that were in it at first, followed by
-- the ones it took in, in order. A refused entry is in none.
pub run_ops-start : (os : List Op) (q : Queue) → InOrder (run_ops os (start q))
run_ops-start os q = run_ops-InOrder os (start q) refl

run_op-size :
    (o : Op) (r : Run) (n : ℕ)
    → r.queue.max_size ≡ pos (suc n)
    → length r.queue.list ≤ suc n
    → ((run_op o r).queue.max_size ≡ pos (suc n)) × (length (run_op o r).queue.list ≤ suc n)
unfolding run_op push
run_op-size (pushes d) r n m h = ground (arith, length-append r.queue.list (d ∷ []))
run_op-size pops r n m h = ground (arith, pop_cases r.queue)

-- With a maximum size the queue never holds more entries, if it did not at first.
run_ops-size :
    (os : List Op) (r : Run) (n : ℕ)
    → r.queue.max_size ≡ pos (suc n)
    → length r.queue.list ≤ suc n
    → length (run_ops os r).queue.list ≤ suc n
unfolding run_ops
run_ops-size [] r n m h = h
run_ops-size (o ∷ os) r n m h =
    let (m', h') = run_op-size o r n m h in run_ops-size os (run_op o r) n m' h'

-- An insertion is refused exactly when the queue is full, and then changes nothing and signals
-- nobody; a waiting thread is signalled exactly when the queue was empty.
pub push_lem :
    (d : QueueData) (q : Queue)
    → ((push d q).result ≡ not (is_full q))
      × ((push d q).queue ≡ (if is_full q then q else record q { list = q.list ++ d ∷ [] }))
      × ((push d q).signalled ≡ (not (is_full q) && is_empty q.list))
unfolding push
push_lem d q = ground (arith, length-append q.list (d ∷ []))
