-- ===== src/Monitor.antt =====
-- MySQLQueryMonitor/QueryTimeList.cpp: the list of the slowest SQL texts seen on a server; the sections
-- under the mutex are functions on the list. MySQLQueryMonitor/MySQLQueryThread.cpp: how it is filled.
pub mod Times
pub mod Order
pub mod Round
pub mod Control
use dbmysqlpool.Base.{
  ℕ, zero, suc, ◌+◌, Bool, true, false, List, [], ◌∷◌, ◌++◌, Option, none, some, Bytes, codes, ℤ,
  pos, negsuc, ltb, ltb_ℤ, leb_ℤ, if◌then◌else◌, length, take, ◌≡◌, refl,
}
use dbmysqlpool.Number.{atoi}
use dbmysqlpool.StringMap.{same_key}
use dbmysqlpool.Mysql.{Mysql, Row}
use dbmysqlpool.Connection.State.{M, pure, if_null, ◌>>=◌, ◌>>◌}
use dbmysqlpool.Connection.Results.{query_rows}

pub record QueryTime : Type 0 where
  pub sql : Bytes
  pub second : ℤ

-- The first loop of the private `Insert`: `none` if the text is not in the list.
abbrev pub raise_time : QueryTime → List QueryTime → Option (List QueryTime)
raise_time q [] = none
raise_time q (p ∷ times) =
    let rest = raise_time q times in
    if same_key q.sql p.sql
    then some ((if ltb_ℤ p.second q.second then record p { second = q.second } else p) ∷ times)
    else elim rest [ none ↦ none | some times' ↦ some (p ∷ times') ]

-- The second loop: `none` if every time in the list is longer.
abbrev pub insert_before : QueryTime → List QueryTime → Option (List QueryTime)
insert_before q [] = none
insert_before q (p ∷ times) =
    let rest = insert_before q times in
    if leb_ℤ p.second q.second
    then some (q ∷ p ∷ times)
    else elim rest [ none ↦ none | some times' ↦ some (p ∷ times') ]

-- `Insert( clsQT )`, with `m_iMaxQueryCount`.
abbrev pub insert_new : ℤ → QueryTime → List QueryTime → List QueryTime
insert_new max_count q times = elim (insert_before q times) [
  | some times' ↦ times'
  | none ↦ if ltb_ℤ (pos (length times)) max_count then times ++ q ∷ [] else times
]

abbrev pub insert_time : ℤ → QueryTime → List QueryTime → List QueryTime
insert_time max_count q times = elim (raise_time q times) [
  | some times' ↦ times'
  | none ↦ insert_new max_count q times
]

abbrev pub insert_each : ℤ → List QueryTime → List QueryTime → List QueryTime
insert_each max_count [] times = times
insert_each max_count (q ∷ qs) times = insert_each max_count qs (insert_time max_count q times)

-- `m_clsList.sort( CQueryTimeCompare )`, which keeps the order of equal times.
abbrev pub insert_sorted : QueryTime → List QueryTime → List QueryTime
insert_sorted q [] = q ∷ []
insert_sorted q (p ∷ times) =
    if ltb_ℤ q.second p.second then p ∷ insert_sorted q times else q ∷ p ∷ times

abbrev pub sort : List QueryTime → List QueryTime
sort [] = []
sort (q ∷ times) = insert_sorted q (sort times)

-- The cut to the maximum; `none`: a negative one is a size that `resize` cannot make.
abbrev pub cut : ℤ → List QueryTime → Option (List QueryTime)
cut (pos n) times = if ltb n (length times) then some (take n times) else some times
cut (negsuc n) times = none

-- `Insert( clsList )`
unfoldable pub insert_times : ℤ → List QueryTime → List QueryTime → Option (List QueryTime)
insert_times max_count qs times = cut max_count (sort (insert_each max_count qs times))

-- `Select( clsList )` and `DeleteAll`
abbrev pub select_times : List QueryTime → List QueryTime
select_times times = times

abbrev pub delete_all_times : List QueryTime → List QueryTime
delete_all_times times = []

-- `FetchQuery`, over the list it appends to; `none`: the row has no second column.
abbrev pub fetch_query : Option (List QueryTime) → Row → Bool × Option (List QueryTime)
fetch_query none row = (true, none)
fetch_query (some qs) (some time ∷ some sql ∷ row) =
    (true, some (qs ++ record { sql = sql; second = atoi time } ∷ []))
fetch_query (some qs) (none ∷ row) = (true, some qs)
fetch_query (some qs) (some time ∷ none ∷ row) = (true, some qs)
fetch_query (some qs) _ = (true, none)

-- Where a value can be missing, the next step.
abbrev pub if_some : {A B : Type 0} → Option A → (A → Option B) → Option B
if_some none k = none
if_some (some a) k = k a

abbrev pub processlist_text : Bytes
processlist_text =
    codes
      "SELECT TIME, INFO FROM information_schema.processlist WHERE COMMAND = 'Query' AND TIME > 0"

-- The query and the insertion in a round of `MySQLQueryThread`, which takes the list whether the query
-- succeeded or not. `none`: the fuel ran out, or one of the cases above.
unfoldable pub monitor_round : Mysql → ℕ → ℤ → List QueryTime → M (Option (List QueryTime))
unfolding insert_times
monitor_round lib fuel max_count times = do
  seen ← query_rows lib fuel processlist_text fetch_query (some [])
  pure (if_some seen (λ r. if_some r.1 (λ qs. insert_times max_count qs times)))
