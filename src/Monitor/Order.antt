-- ===== src/Monitor/Order.antt =====
-- MySQLQueryMonitor/QueryTimeList.cpp: the order and the size of the list.
use dbmysqlpool.Base.{
  ℕ, zero, suc, ◌≤◌, Bool, true, false, not, ◌&&◌, ◌||◌, List, [], ◌∷◌, ◌++◌, none, some, Bytes, ℤ,
  pos, ltb, leb_ℤ, length, take, length-take, ◌≡◌, refl, arith, Bool-cases, Option-cases, inl, inr,
}
use dbmysqlpool.StringMap.{same_key}
use dbmysqlpool.Monitor.{
  QueryTime, raise_time, insert_before, insert_time, insert_each, insert_sorted, sort, insert_times,
}

-- The times fall from one entry to the next.
abbrev pub is_descending : List QueryTime → Bool
is_descending [] = true
is_descending (q ∷ []) = true
is_descending (q ∷ p ∷ times) = leb_ℤ p.second q.second && is_descending (p ∷ times)

insert_sorted-is_descending :
    (q : QueryTime) (times : List QueryTime)
    → is_descending times ≡ true
    → is_descending (insert_sorted q times) ≡ true
insert_sorted-is_descending q [] h = refl
insert_sorted-is_descending q (p ∷ []) h = ground arith
insert_sorted-is_descending q (p ∷ r ∷ times) h =
    ground (arith, insert_sorted-is_descending q (r ∷ times))

sort-is_descending : (times : List QueryTime) → is_descending (sort times) ≡ true
sort-is_descending [] = refl
sort-is_descending (q ∷ times) =
    insert_sorted-is_descending q (sort times) (sort-is_descending times)

take-is_descending :
    (n : ℕ) (times : List QueryTime)
    → is_descending times ≡ true
    → is_descending (take n times) ≡ true
take-is_descending zero times h = refl
take-is_descending (suc n) [] h = refl
take-is_descending (suc zero) (q ∷ times) h = refl
take-is_descending (suc (suc n)) (q ∷ []) h = refl
take-is_descending (suc (suc n)) (q ∷ p ∷ times) h =
    ground (arith, take-is_descending (suc n) (p ∷ times))

-- A text is in the list; no text is in it twice.
abbrev pub has_sql : Bytes → List QueryTime → Bool
has_sql sql [] = false
has_sql sql (q ∷ times) = same_key sql q.sql || has_sql sql times

abbrev pub is_once : List QueryTime → Bool
is_once [] = true
is_once (q ∷ times) = not (has_sql q.sql times) && is_once times

raise_time-has_sql :
    (q : QueryTime) (times times' : List QueryTime) (sql : Bytes)
    → raise_time q times ≡ some times'
    → has_sql sql times' ≡ has_sql sql times
raise_time-has_sql q [] times' sql h = ground arith
raise_time-has_sql q (p ∷ times) times' sql h = elim (Option-cases (raise_time q times)) [
  | inl r ↦ ground (arith, h, r)
  | inr (later, r) ↦ ground (arith, raise_time-has_sql q times later sql r)
]

raise_time-is_once :
    (q : QueryTime) (times times' : List QueryTime)
    → raise_time q times ≡ some times'
    → is_once times ≡ true
    → is_once times' ≡ true
raise_time-is_once q [] times' h k = ground arith
raise_time-is_once q (p ∷ times) times' h k = elim (Option-cases (raise_time q times)) [
  | inl r ↦ ground (arith, h, r)
  | inr (later, r) ↦
      ground (arith, raise_time-has_sql q times later p.sql r, raise_time-is_once q times later r)
]

raise_time-absent :
    (q : QueryTime) (times : List QueryTime)
    → raise_time q times ≡ none
    → has_sql q.sql times ≡ false
raise_time-absent q [] h = refl
raise_time-absent q (p ∷ times) h = elim (Option-cases (raise_time q times)) [
  | inl r ↦ ground (arith, h, raise_time-absent q times r)
  | inr (later, r) ↦ ground (arith, h, r)
]

same_key_sym : (s t : Bytes) → same_key s t ≡ same_key t s
same_key_sym [] [] = refl
same_key_sym [] (d ∷ t) = refl
same_key_sym (c ∷ s) [] = refl
same_key_sym (c ∷ s) (d ∷ t) = ground (arith, same_key_sym s t)

insert_before-has_sql :
    (q : QueryTime) (times times' : List QueryTime) (sql : Bytes)
    → insert_before q times ≡ some times'
    → has_sql sql times' ≡ (same_key sql q.sql || has_sql sql times)
insert_before-has_sql q [] times' sql h = ground arith
insert_before-has_sql q (p ∷ times) times' sql h = elim (Option-cases (insert_before q times)) [
  | inl r ↦ ground (arith, h, r)
  | inr (later, r) ↦ ground (arith, insert_before-has_sql q times later sql r)
]

insert_before-is_once :
    (q : QueryTime) (times times' : List QueryTime)
    → insert_before q times ≡ some times'
    → has_sql q.sql times ≡ false
    → is_once times ≡ true
    → is_once times' ≡ true
insert_before-is_once q [] times' h a k = ground arith
insert_before-is_once q (p ∷ times) times' h a k = elim (Option-cases (insert_before q times)) [
  | inl r ↦ ground (arith, h, r)
  | inr (later, r) ↦ ground (
    arith,
    same_key_sym q.sql p.sql,
    insert_before-has_sql q times later p.sql r,
    insert_before-is_once q times later r,
  )
]

has_sql-append :
    (sql : Bytes) (times : List QueryTime) (q : QueryTime)
    → has_sql sql (times ++ q ∷ []) ≡ (has_sql sql times || same_key sql q.sql)
has_sql-append sql [] q = ground arith
has_sql-append sql (p ∷ times) q = ground (arith, has_sql-append sql times q)

append-is_once :
    (times : List QueryTime) (q : QueryTime)
    → has_sql q.sql times ≡ false
    → is_once times ≡ true
    → is_once (times ++ q ∷ []) ≡ true
append-is_once [] q a k = refl
append-is_once (p ∷ times) q a k =
    ground (arith, same_key_sym q.sql p.sql, has_sql-append p.sql times q, append-is_once times q)

insert_time-is_once :
    (max_count : ℤ) (q : QueryTime) (times : List QueryTime)
    → is_once times ≡ true
    → is_once (insert_time max_count q times) ≡ true
insert_time-is_once max_count q times k = elim (Option-cases (raise_time q times)) [
  | inr (later, r) ↦ ground (arith, raise_time-is_once q times later r)
  | inl r ↦ elim (Option-cases (insert_before q times)) [
    | inr (later, b) ↦
        ground (arith, insert_before-is_once q times later b (raise_time-absent q times r))
    | inl b ↦ ground (arith, append-is_once times q (raise_time-absent q times r))
  ]
]

insert_each-is_once :
    (max_count : ℤ) (qs times : List QueryTime)
    → is_once times ≡ true
    → is_once (insert_each max_count qs times) ≡ true
insert_each-is_once max_count [] times k = k
insert_each-is_once max_count (q ∷ qs) times k =
    insert_each-is_once max_count qs (insert_time max_count q times)
      (insert_time-is_once max_count q times k)

has_sql-insert_sorted :
    (sql : Bytes) (q : QueryTime) (times : List QueryTime)
    → has_sql sql (insert_sorted q times) ≡ (same_key sql q.sql || has_sql sql times)
has_sql-insert_sorted sql q [] = refl
has_sql-insert_sorted sql q (p ∷ times) = ground (arith, has_sql-insert_sorted sql q times)

insert_sorted-is_once :
    (q : QueryTime) (times : List QueryTime)
    → is_once (q ∷ times) ≡ true
    → is_once (insert_sorted q times) ≡ true
insert_sorted-is_once q [] k = refl
insert_sorted-is_once q (p ∷ times) k = ground (
  arith,
  same_key_sym q.sql p.sql,
  has_sql-insert_sorted p.sql q times,
  insert_sorted-is_once q times,
)

has_sql-sort : (sql : Bytes) (times : List QueryTime) → has_sql sql (sort times) ≡ has_sql sql times
has_sql-sort sql [] = refl
has_sql-sort sql (q ∷ times) =
    ground (arith, has_sql-insert_sorted sql q (sort times), has_sql-sort sql times)

sort-is_once : (times : List QueryTime) → is_once times ≡ true → is_once (sort times) ≡ true
sort-is_once [] k = refl
sort-is_once (q ∷ times) k =
    ground
      (arith, has_sql-sort q.sql times, insert_sorted-is_once q (sort times), sort-is_once times)

has_sql-take :
    (sql : Bytes) (n : ℕ) (times : List QueryTime)
    → has_sql sql times ≡ false
    → has_sql sql (take n times) ≡ false
has_sql-take sql zero times h = refl
has_sql-take sql (suc n) [] h = refl
has_sql-take sql (suc n) (q ∷ times) h = ground (arith, has_sql-take sql n times)

take-is_once :
    (n : ℕ) (times : List QueryTime) → is_once times ≡ true → is_once (take n times) ≡ true
take-is_once zero times h = refl
take-is_once (suc n) [] h = refl
take-is_once (suc n) (q ∷ times) h =
    ground (arith, has_sql-take q.sql n times, take-is_once n times)

-- If no text was in the list twice, then with a maximum that is not negative `Insert` succeeds, and the list
-- holds at most so many entries, the longest times first, and no text twice.
pub insert_times-is_descending :
    (n : ℕ) (qs times : List QueryTime)
    → is_once times ≡ true
    → (result : List QueryTime) × (insert_times (pos n) qs times ≡ some result)
      × (length result ≤ n)
      × (is_descending result ≡ true)
      × (is_once result ≡ true)
unfolding insert_times
insert_times-is_descending n qs times k =
    let sorted = sort (insert_each (pos n) qs times) in
    let falling = sort-is_descending (insert_each (pos n) qs times) in
    let once =
      sort-is_once (insert_each (pos n) qs times) (insert_each-is_once (pos n) qs times k) in
    elim (Bool-cases (ltb n (length sorted))) [
      | inl e ↦ (
        take n sorted,
        ground (arith, e),
        omega (arith, length-take n sorted),
        take-is_descending n sorted falling,
        take-is_once n sorted once,
      )
      | inr e ↦ (sorted, ground (arith, e), ground (arith, e), falling, once)
    ]
