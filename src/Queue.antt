-- ===== src/Queue.antt =====
-- DbMySQLPool/DbMySQLQueue.cpp: the queue of SQL texts, as the sections under its mutex.
pub mod Order
pub mod Waiting
use dbmysqlpool.Base.{
  ℕ, zero, suc, ◌+◌, Bool, true, false, not, ◌&&◌, List, [], ◌∷◌, ◌++◌, Option, none, some, Bytes,
  ℤ, pos, negsuc, pos_part, leb_ℤ, ◌==◌, if◌then◌else◌, is_empty, length, ◌≡◌, refl, ◌⊎◌, inl, inr,
  arith,
}
use mathlib.Core.Option

pub record QueueData : Type 0 where
  pub sql : Bytes
  pub arg_list : List Bytes

pub record Queue : Type 0 where
  pub list : List QueueData
  pub max_size : ℤ

unfoldable pub new_queue : Queue
new_queue = record { list = []; max_size = pos 0 }

abbrev pub is_zero : ℤ → Bool
is_zero (pos zero) = true
is_zero (pos (suc n)) = false
is_zero (negsuc n) = false

-- `m_iMaxSize != 0 && (int)m_clsList.size() >= m_iMaxSize`
abbrev pub is_full : Queue → Bool
is_full q = not (is_zero q.max_size) && leb_ℤ q.max_size (pos (length q.list))

-- What an insertion gives: its result, whether it signalled, and the queue.
pub record Inserted : Type 0 where
  pub result : Bool
  pub signalled : Bool
  pub queue : Queue

unfoldable pub push : QueueData → Queue → Inserted
push d q =
    let q' : Queue = record q { list = q.list ++ d ∷ [] } in
    if is_full q
    then record { result = false; signalled = false; queue = q }
    else record { result = true; signalled = length q'.list == 1; queue = q' }

-- `Insert( pszSQL )`
unfoldable pub insert_sql : Bytes → Queue → Inserted
unfolding push
insert_sql sql q = push (record { sql = sql; arg_list = [] }) q

-- The variable arguments from place `i` on, unless one of them is NULL.
unfoldable pub collect_args : ℕ → ℕ → (ℕ → Option Bytes) → Option (List Bytes)
collect_args zero i args = some []
collect_args (suc rounds) i args =
    let rest = collect_args rounds (suc i) args in
    elim (args i) [ none ↦ none | some a ↦ Option.map (λ l. a ∷ l) rest ]

-- `Insert( pszSQL, iArgCount, ... )`
unfoldable pub insert_variadic : Bytes → ℤ → (ℕ → Option Bytes) → Queue → Inserted
unfolding push collect_args
insert_variadic sql arg_count args q = elim (collect_args (pos_part arg_count) 0 args) [
  | none ↦ record { result = false; signalled = false; queue = q }
  | some l ↦ push (record { sql = sql; arg_list = l }) q
]

-- The end of `Select`: the first entry, if there is one.
unfoldable pub pop : Queue → Option QueueData × Queue
pop q = elim q.list [ [] ↦ (none, q) | d ∷ ds ↦ (some d, record q { list = ds }) ]

-- `Select( clsData, bWait )`; `others` is what the other threads do to the queue in `wait`.
unfoldable pub select_data : Bool → (Queue → Queue) → Queue → Option QueueData × Queue
unfolding pop
select_data waits others q = if waits && is_empty q.list then pop (others q) else pop q

unfoldable pub get_size : Queue → ℕ
get_size q = length q.list

unfoldable pub set_max_size : ℤ → Queue → Queue
set_max_size n q = record q { max_size = n }

-- `pop` by cases.
pub pop_cases :
    (q : Queue)
    → ((q.list ≡ []) × (pop q ≡ (none, q)))
      ⊎ ((d : QueueData) × (ds : List QueueData) × (q.list ≡ d ∷ ds)
          × (pop q ≡ (some d, record q { list = ds })))
unfolding pop
pop_cases q = go q.list refl
  where
    go :
        (xs : List QueueData)
        → q.list ≡ xs
        → ((q.list ≡ []) × (pop q ≡ (none, q)))
          ⊎ ((d : QueueData) × (ds : List QueueData) × (q.list ≡ d ∷ ds)
              × (pop q ≡ (some d, record q { list = ds })))
    go [] e = inl (e, ground arith)
    go (d ∷ ds) e = inr (d, ds, e, ground arith)
