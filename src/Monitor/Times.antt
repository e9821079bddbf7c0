-- ===== src/Monitor/Times.antt =====
-- MySQLQueryMonitor/QueryTimeList.cpp: what the list holds after an insertion.
use dbmysqlpool.Base.{
  ℕ, suc, ◌+◌, ◌≤◌, ◌<◌, true, List, [], ◌∷◌, ◌++◌, Option, none, some, Bytes, ℤ, pos, negsuc,
  ltb_ℤ, if◌then◌else◌, length, length-append, ◌≡◌, refl, arith, ap, ◌∙◌, sym, Bool-cases,
  Option-cases, inl, inr,
}
use dbmysqlpool.StringMap.{same_key, same_key-≡}
use dbmysqlpool.Monitor.{
  QueryTime, raise_time, insert_before, insert_time, insert_each, insert_sorted, sort, insert_times,
}

-- The longest time of a text, and the longer of two.
abbrev pub longer : Option ℤ → Option ℤ → Option ℤ
longer none b = b
longer (some a) none = some a
longer (some a) (some b) = if ltb_ℤ a b then some b else some a

abbrev pub time_in : Bytes → QueryTime → Option ℤ
time_in sql q = if same_key q.sql sql then some q.second else none

abbrev pub longest : Bytes → List QueryTime → Option ℤ
longest sql [] = none
longest sql (q ∷ times) = longer (time_in sql q) (longest sql times)

longer_comm : (a b : Option ℤ) → longer a b ≡ longer b a
longer_comm none none = refl
longer_comm none (some b) = refl
longer_comm (some a) none = refl
longer_comm (some (pos m)) (some (pos n)) = ground arith
longer_comm (some (pos m)) (some (negsuc n)) = ground arith
longer_comm (some (negsuc m)) (some (pos n)) = ground arith
longer_comm (some (negsuc m)) (some (negsuc n)) = ground arith

longer_assoc : (a b c : Option ℤ) → longer (longer a b) c ≡ longer a (longer b c)
longer_assoc none b c = refl
longer_assoc (some a) none c = refl
longer_assoc (some a) (some b) none = ground arith
longer_assoc (some a) (some b) (some c) = ground arith

longer_swap : (a b c : Option ℤ) → longer a (longer b c) ≡ longer b (longer a c)
longer_swap a b c =
    sym (longer_assoc a b c)
    ∙ (ap (λ (d : Option ℤ). longer d c) (longer_comm a b) ∙ longer_assoc b a c)

longest-append :
    (sql : Bytes) (xs ys : List QueryTime)
    → longest sql (xs ++ ys) ≡ longer (longest sql xs) (longest sql ys)
longest-append sql [] ys = refl
longest-append sql (x ∷ xs) ys =
    ap (longer (time_in sql x)) (longest-append sql xs ys)
    ∙ sym (longer_assoc (time_in sql x) (longest sql xs) (longest sql ys))

longest-insert_sorted :
    (sql : Bytes) (q : QueryTime) (times : List QueryTime)
    → longest sql (insert_sorted q times) ≡ longest sql (q ∷ times)
longest-insert_sorted sql q [] = refl
longest-insert_sorted sql q (p ∷ times) = ground (
  arith,
  longest-insert_sorted sql q times,
  longer_swap (time_in sql p) (time_in sql q) (longest sql times),
)

longest-sort : (sql : Bytes) (times : List QueryTime) → longest sql (sort times) ≡ longest sql times
longest-sort sql [] = refl
longest-sort sql (q ∷ times) =
    longest-insert_sorted sql q (sort times) ∙ ap (longer (time_in sql q)) (longest-sort sql times)

-- Raising the time of a text in an entry is as good as one more entry.
time_in-raised :
    (sql : Bytes) (q p : QueryTime)
    → same_key q.sql p.sql ≡ true
    → time_in sql (if ltb_ℤ p.second q.second then record p { second = q.second } else p)
      ≡ longer (time_in sql q) (time_in sql p)
time_in-raised sql q p h = ground (
  arith,
  ap (λ (k : Bytes). same_key k sql) (same_key-≡ q.sql p.sql h),
  longer_comm (some q.second) (some p.second),
)

longest-raise_time :
    (sql : Bytes) (q : QueryTime) (times times' : List QueryTime)
    → raise_time q times ≡ some times'
    → longest sql times' ≡ longest sql (q ∷ times)
longest-raise_time sql q [] times' h = ground arith
longest-raise_time sql q (p ∷ times) times' h = elim (Bool-cases (same_key q.sql p.sql)) [
  | inl e ↦
      let p' = if ltb_ℤ p.second q.second then record p { second = q.second } else p in
      let same : times' ≡ p' ∷ times = ground (arith, h, e) in
      ap (longest sql) same
      ∙ (ap (λ (a : Option ℤ). longer a (longest sql times)) (time_in-raised sql q p e)
          ∙ longer_assoc (time_in sql q) (time_in sql p) (longest sql times))
  | inr e ↦ elim (Option-cases (raise_time q times)) [
    | inl r ↦ ground (arith, h, e, r)
    | inr (later, r) ↦ ground (
      arith,
      longest-raise_time sql q times later r,
      longer_swap (time_in sql p) (time_in sql q) (longest sql times),
    )
  ]
]

longest-insert_before :
    (sql : Bytes) (q : QueryTime) (times times' : List QueryTime)
    → insert_before q times ≡ some times'
    → longest sql times' ≡ longest sql (q ∷ times)
longest-insert_before sql q [] times' h = ground arith
longest-insert_before sql q (p ∷ times) times' h = elim (Option-cases (insert_before q times)) [
  | inl r ↦ ground (arith, h, r)
  | inr (later, r) ↦ ground (
    arith,
    longest-insert_before sql q times later r,
    longer_swap (time_in sql p) (time_in sql q) (longest sql times),
  )
]

length-raise_time :
    (q : QueryTime) (times times' : List QueryTime)
    → raise_time q times ≡ some times'
    → length times' ≡ length times
length-raise_time q [] times' h = ground arith
length-raise_time q (p ∷ times) times' h = elim (Option-cases (raise_time q times)) [
  | inl r ↦ ground (arith, h, r)
  | inr (later, r) ↦ ground (arith, length-raise_time q times later r)
]

length-insert_before :
    (q : QueryTime) (times times' : List QueryTime)
    → insert_before q times ≡ some times'
    → length times' ≡ suc (length times)
length-insert_before q [] times' h = ground arith
length-insert_before q (p ∷ times) times' h = elim (Option-cases (insert_before q times)) [
  | inl r ↦ ground (arith, h, r)
  | inr (later, r) ↦ ground (arith, length-insert_before q times later r)
]

-- With room for one more entry, a text and its time are not lost.
insert_time-longest :
    (n : ℕ) (sql : Bytes) (q : QueryTime) (times : List QueryTime)
    → length times < n
    → (longest sql (insert_time (pos n) q times) ≡ longest sql (q ∷ times))
      × (length (insert_time (pos n) q times) ≤ suc (length times))
insert_time-longest n sql q times lt = elim (Option-cases (raise_time q times)) [
  | inr (later, r) ↦
      ground (arith, longest-raise_time sql q times later r, length-raise_time q times later r)
  | inl r ↦ elim (Option-cases (insert_before q times)) [
    | inr (later, b) ↦
        ground
          (arith, longest-insert_before sql q times later b, length-insert_before q times later b)
    | inl b ↦ ground (
      arith,
      longest-append sql times (q ∷ []),
      longer_comm (longest sql times) (time_in sql q),
      longer_comm (time_in sql q) none,
      length-append times (q ∷ []),
    )
  ]
]

insert_each-longest :
    (n : ℕ) (sql : Bytes) (qs times : List QueryTime)
    → length times + length qs ≤ n
    → (longest sql (insert_each (pos n) qs times) ≡ longer (longest sql qs) (longest sql times))
      × (length (insert_each (pos n) qs times) ≤ length times + length qs)
insert_each-longest n sql [] times h = (refl, omega arith)
insert_each-longest n sql (q ∷ qs) times h =
    let (same, short) = insert_time-longest n sql q times (omega arith) in
    let (later, bound) = insert_each-longest n sql qs (insert_time (pos n) q times) (omega arith) in
    (
      later
          ∙ (ap (longer (longest sql qs)) same
              ∙ (longer_swap (longest sql qs) (time_in sql q) (longest sql times)
                  ∙ sym (longer_assoc (time_in sql q) (longest sql qs) (longest sql times)))),
      omega arith,
    )

length-insert_sorted :
    (q : QueryTime) (times : List QueryTime) → length (insert_sorted q times) ≡ suc (length times)
length-insert_sorted q [] = refl
length-insert_sorted q (p ∷ times) = ground (arith, length-insert_sorted q times)

length-sort : (times : List QueryTime) → length (sort times) ≡ length times
length-sort [] = refl
length-sort (q ∷ times) = length-insert_sorted q (sort times) ∙ ap suc (length-sort times)

-- If the maximum leaves room for all, the list holds, for each text, the longest of the times it had and of
-- those inserted, and no other text.
pub insert_times-longest :
    (n : ℕ) (qs times : List QueryTime)
    → length times + length qs ≤ n
    → (result : List QueryTime) × (insert_times (pos n) qs times ≡ some result)
      × ((sql : Bytes) → longest sql result ≡ longer (longest sql qs) (longest sql times))
unfolding insert_times
insert_times-longest n qs times h = (
  sort (insert_each (pos n) qs times),
  ground
      (arith, length-sort (insert_each (pos n) qs times), (insert_each-longest n [] qs times h).1),
  λ sql. longest-sort sql (insert_each (pos n) qs times) ∙ (insert_each-longest n sql qs times h).0,
)
