-- ===== src/Pool/Ownership.antt =====
-- DbMySQLPool/DbMySQLPool.cpp: who has which connection, whatever order the threads' sections under
-- the mutex come in.
use dbmysqlpool.Base.{
  ℕ, zero, suc, ◌+◌, ◌≤◌, ◌<◌, Bool, true, false, List, [], ◌∷◌, ◌++◌, Option, none, some, Bytes,
  ◌≡◌, refl, arith, ◌==◌, if◌then◌else◌,
}
use dbmysqlpool.Mysql.{Mysql, Target}
use dbmysqlpool.Connection.State.{Session}
use dbmysqlpool.Connection.Link.{close}
use dbmysqlpool.Pool.State.{
  World, contains, map_erase, update, take_front, release, close_all, set_destroy, close_standby,
  create_one, create_loop,
}

abbrev pub count : ℕ → List ℕ → ℕ
count a [] = 0
count a (x ∷ xs) = (if x == a then 1 else 0) + count a xs

count-append :
    (id : ℕ) (front back : List ℕ) → count id (front ++ back) ≡ count id front + count id back
count-append id [] back = ground arith
count-append id (held ∷ front) back = ground (arith, count-append id front back)

pub count-contains : (a : ℕ) (xs : List ℕ) → contains a xs ≡ false → count a xs ≡ 0
count-contains a [] h = refl
count-contains a (x ∷ xs) h = ground (arith, count-contains a xs)

pub contains-count : (a : ℕ) (xs : List ℕ) → contains a xs ≡ true → 0 < count a xs
contains-count a [] h = cc
contains-count a (x ∷ xs) h = ground (arith, contains-count a xs)

count-map_erase :
    (a b : ℕ) (xs : List ℕ)
    → contains a xs ≡ true
    → count b (map_erase a xs) + (if a == b then 1 else 0) ≡ count b xs
count-map_erase a b [] h = cc
count-map_erase a b (x ∷ xs) h = ground (arith, count-map_erase a b xs)

-- How often a connection stands by, is in use, and was deleted, together.
abbrev pub tally : World → ℕ → ℕ
tally w a = count a w.standby_list + count a w.use_map + count a w.deleted

-- Each connection is in at most one of these places, and once; a number that was not allocated is in
-- none.
abbrev pub IsExclusive : World → Type 0
IsExclusive w = (a : ℕ) → (tally w a ≤ 1) × (w.next_object ≤ a → tally w a ≡ 0)

-- One section of a thread: of `Select`, of `Release`, of `Create`, of `Destroy`, or a call on a
-- connection that is in use.
pub data Move (lib : ℕ → Mysql) (w : World) : World → Type 0 where
  takes : Move lib w (take_front w).1
  gives : (o : Option ℕ) → Move lib w (release o w)
  uses :
      (id : ℕ) (s : Session)
      → contains id w.use_map ≡ true
      → Move lib w (record w { objects = update w.objects id s })
  creates :
      (rounds : ℕ) (to : Target) (character_set : Option Bytes)
      → Move lib w (create_loop lib rounds to character_set w).1
  marks : (b : Bool) → Move lib w (set_destroy b w)
  closes : Move lib w (close_standby lib w)

pub data Moves (lib : ℕ → Mysql) (w : World) : World → Type 0 where
  here : Moves lib w w
  next : {u v : World} → Moves lib w u → Move lib u v → Moves lib w v

-- The tally of a connection stays.
take_front-tally : (w : World) → IsExclusive w → (a : ℕ) → tally (take_front w).1 a ≡ tally w a
unfolding take_front
take_front-tally w v a = go w.standby_list refl
  where
    go : (xs : List ℕ) → w.standby_list ≡ xs → tally (take_front w).1 a ≡ tally w a
    go [] e = ground arith
    go (x ∷ xs) e = ground (arith, v x, contains-count x w.use_map)

release-tally : (o : Option ℕ) (w : World) (a : ℕ) → tally (release o w) a ≡ tally w a
unfolding release
release-tally none w a = refl
release-tally (some id) w a =
    ground (arith, count-append a w.standby_list (id ∷ []), count-map_erase id a w.use_map)

pub close_all-deleted :
    (lib : ℕ → Mysql) (ids : List ℕ) (w : World) (a : ℕ)
    → (count a (close_all lib ids w).deleted ≡ count a ids + count a w.deleted)
      × ((close_all lib ids w).pool ≡ w.pool)
      × ((close_all lib ids w).next_object ≡ w.next_object)
unfolding close_all
close_all-deleted lib [] w a = (omega arith, refl, refl)
close_all-deleted lib (id ∷ ids) w a = ground (
  arith,
  close_all-deleted lib ids
      (record w {
        objects = update w.objects id (close (w.objects id)).1;
        deleted = id ∷ w.deleted;
      })
      a,
)

close_standby-tally :
    (lib : ℕ → Mysql) (w : World) (a : ℕ) → tally (close_standby lib w) a ≡ tally w a
unfolding close_standby
close_standby-tally lib w a = ground (arith, close_all-deleted lib w.standby_list w a)

close_standby-next :
    (lib : ℕ → Mysql) (w : World) → (close_standby lib w).next_object ≡ w.next_object
unfolding close_standby
close_standby-next lib w = ground (arith, close_all-deleted lib w.standby_list w 0)

-- A new connection is counted once if it connects, and no other changes.
pub create_one-tally :
    (lib : ℕ → Mysql) (to : Target) (character_set : Option Bytes) (w : World) (a : ℕ)
    → let r = create_one lib to character_set w in
      (r.1.next_object ≡ suc w.next_object)
      × (tally r.1 a ≡ tally w a + (if r.0 then (if w.next_object == a then 1 else 0) else 0))
unfolding create_one
create_one-tally lib to character_set w a =
    ground (arith, count-append a w.standby_list (w.next_object ∷ []))

create_one-IsExclusive :
    (lib : ℕ → Mysql) (to : Target) (character_set : Option Bytes) (w : World)
    → IsExclusive w
    → IsExclusive (create_one lib to character_set w).1
create_one-IsExclusive lib to character_set w v a =
    ground (arith, v a, create_one-tally lib to character_set w a)

create_loop-IsExclusive :
    (lib : ℕ → Mysql) (rounds : ℕ) (to : Target) (character_set : Option Bytes) (w : World)
    → IsExclusive w
    → IsExclusive (create_loop lib rounds to character_set w).1
unfolding create_loop
create_loop-IsExclusive lib zero to character_set w v a = v a
create_loop-IsExclusive lib (suc rounds) to character_set w v a =
    let r = create_one lib to character_set w in
    ground (
      arith,
      create_one-IsExclusive lib to character_set w v a,
      create_loop-IsExclusive lib rounds to character_set r.1
          (create_one-IsExclusive lib to character_set w v) a,
    )

release-next : (o : Option ℕ) (w : World) → (release o w).next_object ≡ w.next_object
unfolding release
release-next none w = refl
release-next (some id) w = ground arith

take_front-next : (w : World) → (take_front w).1.next_object ≡ w.next_object
unfolding take_front
take_front-next w = ground arith

-- Each section keeps every connection in at most one place.
pub Move-IsExclusive :
    {lib : ℕ → Mysql} {w u : World} → Move lib w u → IsExclusive w → IsExclusive u
Move-IsExclusive {w} takes v a = ground (arith, v a, take_front-tally w v a, take_front-next w)
Move-IsExclusive {w} (gives o) v a = ground (arith, v a, release-tally o w a, release-next o w)
Move-IsExclusive (uses id s h) v a = v a
Move-IsExclusive {lib} {w} (creates rounds to character_set) v a =
    create_loop-IsExclusive lib rounds to character_set w v a
Move-IsExclusive (marks b) v a = v a
Move-IsExclusive {lib} {w} closes v a =
    ground (arith, v a, close_standby-tally lib w a, close_standby-next lib w)

-- Whatever order the sections of the threads come in, no connection comes to be in two of the standby
-- list, the use map and the deleted objects, or in one of them twice, and no number that was not
-- allocated comes to be in one, if it was so at first.
pub Moves-IsExclusive :
    {lib : ℕ → Mysql} {w u : World} → Moves lib w u → IsExclusive w → IsExclusive u
Moves-IsExclusive here v = v
Moves-IsExclusive (next r m) v = Move-IsExclusive m (Moves-IsExclusive r v)

-- Where each connection is in one place, the one that `Select` hands out is the first that stands by;
-- it was neither in use nor deleted, it is in use after, and no other moves.
pub take_front-unused :
    (w : World) (id : ℕ) (rest : List ℕ)
    → IsExclusive w
    → w.standby_list ≡ id ∷ rest
    → ((take_front w).0 ≡ some id)
      × (contains id w.use_map ≡ false)
      × (count id w.deleted ≡ 0)
      × ((take_front w).1.standby_list ≡ rest)
      × ((take_front w).1.use_map ≡ id ∷ w.use_map)
unfolding take_front
take_front-unused w id rest v e = ground (arith, v id, contains-count id w.use_map)

-- Where each connection is in one place, the second of two releases of a connection changes nothing.
release_twice :
    (w : World) (id : ℕ)
    → IsExclusive w
    → release (some id) (release (some id) w) ≡ release (some id) w
unfolding release
release_twice w id v =
    ground
      (arith, v id, count-map_erase id id w.use_map, contains-count id (map_erase id w.use_map))
