-- ===== src/Pool/Borrow.antt =====
-- DbMySQLPool/DbMySQLPool.cpp: a statement on a borrowed connection, and the making of the pool.
use dbmysqlpool.Base.{
  ℕ, zero, suc, ◌+◌, ◌≤◌, ◌<◌, true, false, List, [], ◌∷◌, ◌++◌, Option, some, Bytes, ◌≡◌, ◌≢◌,
  refl, sym, arith, if◌then◌else◌, pos, append_assoc, append-nil,
}
use dbmysqlpool.Mysql.{Mysql, Target}
use dbmysqlpool.Connection.State.{
  M, Session, new_connection, set_read_timeout, set_write_timeout, set_plugin_dir, set_secure_auth,
}
use dbmysqlpool.Connection.Protocol.{replay}
use dbmysqlpool.Connection.Invariant
use dbmysqlpool.Connection.History.{connect_to-connected}
use dbmysqlpool.Pool.State.{
  Pool, World, map_erase, update, take_front, select_loop, select, release, create_one, create_loop,
  create, prepared_connection,
}
use dbmysqlpool.Pool.Calls.{borrow}
use dbmysqlpool.Pool.Ownership.{IsExclusive, take_front-unused, tally, create_one-tally}
use dbmysqlpool.Pool.Lifecycle.{destroy-reset}

map_erase_head : (id : ℕ) (xs : List ℕ) → map_erase id (id ∷ xs) ≡ xs
map_erase_head id xs = ground arith

-- What is left of the pool by a statement on the connection that stood by longest.
abbrev pub borrowed : ℕ → List ℕ → Session → World → World
borrowed id rest s w = record w {
  pool = record w.pool { standby_list = rest ++ id ∷ [] };
  objects = update w.objects id s;
}

-- While a connection stands by, each connection is in one place and the pool is not being destroyed, a
-- statement runs at once on the first that stands by; then that one is given back behind the others, and
-- the connections in use are those of before.
pub borrow_lem :
    {A : Type 0} (fuel : ℕ) (others : ℕ → World → World) (method : ℕ → M A) (refused : A)
    (w : World) (id : ℕ) (rest : List ℕ)
    → IsExclusive w
    → w.is_destroy ≡ false
    → w.standby_list ≡ id ∷ rest
    → borrow (suc fuel) others method refused w
      ≡ some ((method id (w.objects id)).0, borrowed id rest (method id (w.objects id)).1 w)
unfolding borrow select select_loop take_front release
borrow_lem fuel others method refused w id rest v up e =
    ground (arith, take_front-unused w id rest v e, map_erase_head id w.use_map)

-- A pool that is being destroyed refuses every statement and stays as it is.
borrow_destroyed :
    {A : Type 0} (fuel : ℕ) (others : ℕ → World → World) (method : ℕ → M A) (refused : A)
    (w : World)
    → w.is_destroy ≡ true
    → borrow fuel others method refused w ≡ some (refused, w)
unfolding borrow select
borrow_destroyed fuel others method refused w down = ground arith

abbrev new_object : World → Session
new_object w = record { conn = prepared_connection w.pool; trace = [] }

prepared_connection-Inv : (w : World) → Invariant.Inv (new_object w)
unfolding prepared_connection new_connection set_read_timeout set_write_timeout set_plugin_dir
    set_secure_auth replay
prepared_connection-Inv w = ground arith

prepared_connection-unconnected : (p : Pool) → (prepared_connection p).connected ≡ false
unfolding prepared_connection new_connection set_read_timeout set_write_timeout set_plugin_dir
    set_secure_auth
prepared_connection-unconnected p = ground arith

module _ (lib : ℕ → Mysql) (to : Target) (character_set : Option Bytes) where
  -- A round allocates one object and leaves the others; the new one is connected if it succeeds.
  create_one_lem :
      (w : World) (a : ℕ)
      → let r = create_one lib to character_set w in
        (r.1.next_object ≡ suc w.next_object)
        × ((r.1.objects w.next_object).conn.connected ≡ r.0)
        × (w.next_object ≢ a → r.1.objects a ≡ w.objects a)
        × (r.1.standby_list
            ≡ (if r.0 then w.standby_list ++ w.next_object ∷ [] else w.standby_list))
  unfolding create_one
  create_one_lem w a = ground (
    arith,
    connect_to-connected (lib w.next_object) to character_set (new_object w)
        (prepared_connection-Inv w) (prepared_connection-unconnected w.pool),
  )

  create_loop-kept :
      (rounds : ℕ) (w : World) (a : ℕ)
      → a < w.next_object
      → (create_loop lib rounds to character_set w).1.objects a ≡ w.objects a
  unfolding create_loop
  create_loop-kept zero w a h = refl
  create_loop-kept (suc rounds) w a h =
      ground
        (arith, create_one_lem w a, create_loop-kept rounds (create_one lib to character_set w).1 a)

  -- The numbers that a successful loop allocates.
  abbrev pub numbers : ℕ → ℕ → List ℕ
  numbers n zero = []
  numbers n (suc k) = n ∷ numbers (suc n) k

  create_loop-standby :
      (rounds : ℕ) (w : World)
      → (create_loop lib rounds to character_set w).0 ≡ true
      → (create_loop lib rounds to character_set w).1.standby_list
        ≡ w.standby_list ++ numbers w.next_object rounds
  unfolding create_loop
  create_loop-standby zero w e = sym (append-nil w.standby_list)
  create_loop-standby (suc rounds) w e = ground (
    arith,
    create_one_lem w 0,
    create_loop-standby rounds (create_one lib to character_set w).1,
    append_assoc w.standby_list (w.next_object ∷ []) (numbers (suc w.next_object) rounds),
  )

  create_loop-connected :
      (rounds : ℕ) (w : World) (a : ℕ)
      → (create_loop lib rounds to character_set w).0 ≡ true
      → w.next_object ≤ a
      → a < w.next_object + rounds
      → ((create_loop lib rounds to character_set w).1.objects a).conn.connected ≡ true
  unfolding create_loop
  create_loop-connected zero w a e lo hi = absurd (omega arith)
  create_loop-connected (suc rounds) w a e lo hi =
      let w' = (create_one lib to character_set w).1 in
      ground
        (arith, create_one_lem w a, create_loop-kept rounds w' a, create_loop-connected rounds w' a)

  -- If `Create` with a positive number succeeds, it has made that many connections: they stand by
  -- behind those of before, and each of them is connected.
  create-ready :
      (others : ℕ → World → World) (n : ℕ) (w : World) (a : ℕ)
      → (create lib others (pos (suc n)) to character_set w).0 ≡ true
      → w.next_object ≤ a
      → a < w.next_object + suc n
      → ((create lib others (pos (suc n)) to character_set w).1.standby_list
          ≡ w.standby_list ++ numbers w.next_object (suc n))
        × (((create lib others (pos (suc n)) to character_set w).1.objects a).conn.connected ≡ true)
  unfolding create
  create-ready others n w a e lo hi =
      ground (arith, create_loop-standby (suc n) w, create_loop-connected (suc n) w a)

  -- If `Create` with a positive number fails, no connection stands by, and `m_bDestroy` is false.
  create-failed :
      (others : ℕ → World → World) (n : ℕ) (w : World)
      → (create lib others (pos (suc n)) to character_set w).0 ≡ false
      → ((create lib others (pos (suc n)) to character_set w).1.standby_list ≡ [])
        × ((create lib others (pos (suc n)) to character_set w).1.is_destroy ≡ false)
  unfolding create
  create-failed others n w e =
      ground (arith, destroy-reset lib others (create_loop lib (suc n) to character_set w).1)

  -- Where each connection is in one place, a round of `Create` whose connection cannot be made allocates
  -- an object that neither stands by, nor is in use, nor is deleted.
  create_leak :
      (w : World)
      → IsExclusive w
      → (create_one lib to character_set w).0 ≡ false
      → let w' = (create_one lib to character_set w).1 in
        (w'.next_object ≡ suc w.next_object) × (tally w' w.next_object ≡ 0)
  create_leak w v e =
      ground (arith, v w.next_object, create_one-tally lib to character_set w w.next_object)
