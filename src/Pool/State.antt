-- ===== src/Pool/State.antt =====
-- DbMySQLPool/DbMySQLPool.h and DbMySQLPool/DbMySQLPool.cpp: the members of the pool, the objects that
-- it allocates, and the methods that hand connections out, take them back, make and close them. A
-- connection is named by the number of its object. What other threads do while a method sleeps is an
-- argument.
use dbmysqlpool.Base.{
  ℕ, zero, suc, Bool, true, false, not, List, [], ◌∷◌, ◌++◌, Option, none, some, Bytes, ℤ, pos,
  pos_part, ltb_ℤ, leb_ℤ, ◌==◌, if◌then◌else◌, is_empty,
}
use dbmysqlpool.Mysql.{Mysql, Target}
use dbmysqlpool.Connection.State.{
  Connection, Session, new_connection, set_read_timeout, set_write_timeout, set_plugin_dir,
  set_secure_auth,
}
use dbmysqlpool.Connection.Link.{close, connect_to}

-- `m_clsUseMap` maps a connection to itself; it is the list of its keys.
pub record Pool : Type 0 where
  pub standby_list : List ℕ
  pub use_map : List ℕ
  pub is_destroy : Bool
  pub secure_auth : Bool
  pub read_timeout : ℤ
  pub write_timeout : ℤ
  pub plugin_dir : Bytes

-- The pool and the connection objects: the next one to allocate, and those that were deleted.
pub record World : Type 0 where
  pub pool : Pool
  pub open pool use *
  pub objects : ℕ → Session
  pub next_object : ℕ
  pub deleted : List ℕ

unfoldable pub new_pool : Pool
new_pool = record {
  standby_list = [];
  use_map = [];
  is_destroy = false;
  secure_auth = true;
  read_timeout = pos 0;
  write_timeout = pos 0;
  plugin_dir = [];
}

unfoldable pub pool_set_read_timeout : ℤ → Pool → Pool
pool_set_read_timeout second p =
    if ltb_ℤ (pos 0) second then record p { read_timeout = second } else p

unfoldable pub pool_set_write_timeout : ℤ → Pool → Pool
pool_set_write_timeout second p =
    if ltb_ℤ (pos 0) second then record p { write_timeout = second } else p

unfoldable pub pool_set_plugin_dir : Bytes → Pool → Pool
pool_set_plugin_dir dir p = record p { plugin_dir = dir }

unfoldable pub pool_set_secure_auth : Bool → Pool → Pool
pool_set_secure_auth secure p = record p { secure_auth = secure }

abbrev pub contains : ℕ → List ℕ → Bool
contains a [] = false
contains a (x ∷ xs) = if x == a then true else contains a xs

-- `std::map::insert` and `std::map::erase`.
abbrev pub map_insert : ℕ → List ℕ → List ℕ
map_insert a xs = if contains a xs then xs else a ∷ xs

abbrev pub map_erase : ℕ → List ℕ → List ℕ
map_erase a [] = []
map_erase a (x ∷ xs) = if x == a then xs else x ∷ map_erase a xs

abbrev pub update {ℓ} : {A : Type ℓ} → (ℕ → A) → ℕ → A → ℕ → A
update f i a j = if i == j then a else f j

-- The section of `Select` under the mutex.
unfoldable pub take_front : World → Option ℕ × World
take_front w = elim w.standby_list [
  | [] ↦ (none, w)
  | id ∷ rest ↦ (
    some id,
    record w { pool = record w.pool { standby_list = rest; use_map = map_insert id w.use_map } },
  )
]

-- The loop of `Select`: the rounds that the fuel allows, the round, and what the other threads do
-- during its sleep. `none` means that the fuel ran out; the inner result is `*ppclsDbConn`.
unfoldable pub select_loop : ℕ → ℕ → (ℕ → World → World) → Bool → World → Option (Option ℕ × World)
unfolding take_front
select_loop zero i others stand_by w = none
select_loop (suc fuel) i others stand_by w =
    let rest = select_loop fuel (suc i) others stand_by (others i w) in
    elim w.is_destroy [
      | true ↦ some (none, w)
      | false ↦ elim (is_empty w.standby_list) [
        | false ↦ some (take_front w)
        | true ↦ elim stand_by [ true ↦ rest | false ↦ some (none, w) ]
      ]
    ]

-- `Select( ppclsDbConn, bStandByUntilAvailable )`; the second argument tells whether `ppclsDbConn` is
-- given.
unfoldable pub select : ℕ → Bool → (ℕ → World → World) → Bool → World → Option (Option ℕ × World)
unfolding select_loop
select fuel out_given others stand_by w =
    if not out_given
    then some (none, w)
    else if w.is_destroy
    then some (none, w)
    else select_loop fuel 0 others stand_by w

unfoldable pub release : Option ℕ → World → World
release none w = w
release (some id) w =
    if contains id w.use_map
    then record w {
      pool = record w.pool {
        use_map = map_erase id w.use_map;
        standby_list = w.standby_list ++ id ∷ [];
      };
    }
    else w

-- The closing of the connections that stand by, each closed and deleted.
unfoldable pub close_all : (ℕ → Mysql) → List ℕ → World → World
close_all lib [] w = w
close_all lib (id ∷ ids) w =
    close_all lib ids (record w {
      objects = update w.objects id (close (w.objects id)).1;
      deleted = id ∷ w.deleted;
    })

-- The loop of `Destroy` that waits for the connections in use: the rounds left and the round.
unfoldable pub wait_unused : ℕ → ℕ → (ℕ → World → World) → World → World
wait_unused zero i others w = w
wait_unused (suc rounds) i others w =
    let rest = wait_unused rounds (suc i) others (others i w) in
    elim (is_empty w.use_map) [ true ↦ w | false ↦ rest ]

abbrev pub set_destroy : Bool → World → World
set_destroy b w = record w { pool = record w.pool { is_destroy = b } }

-- The end of `Destroy`, under the mutex.
unfoldable pub close_standby : (ℕ → Mysql) → World → World
unfolding close_all
close_standby lib w =
    let w' = close_all lib w.standby_list w in
    record w' { pool = record w'.pool { standby_list = [] } }

unfoldable pub destroy : (ℕ → Mysql) → (ℕ → World → World) → World → World
destroy lib others w =
    set_destroy false (close_standby lib (wait_unused 500 0 others (set_destroy true w)))

-- The members of a new connection in `Create`, before it connects.
unfoldable pub prepared_connection : Pool → Connection
prepared_connection p =
    let c = set_write_timeout p.write_timeout (set_read_timeout p.read_timeout new_connection) in
    let d = if is_empty p.plugin_dir then c else set_plugin_dir p.plugin_dir c in
    set_secure_auth p.secure_auth d

-- One round of the loop of `Create`: a new object, which joins the pool if it connects.
unfoldable pub create_one : (ℕ → Mysql) → Target → Option Bytes → World → Bool × World
unfolding prepared_connection
create_one lib to character_set w =
    let id = w.next_object in
    let r =
      connect_to (lib id) to character_set
        (record { conn = prepared_connection w.pool; trace = [] }) in
    let w' : World = record w { objects = update w.objects id r.1; next_object = suc id } in
    if r.0
    then (true, record w' { pool = record w.pool { standby_list = w.standby_list ++ id ∷ [] } })
    else (false, w')

unfoldable pub create_loop : (ℕ → Mysql) → ℕ → Target → Option Bytes → World → Bool × World
create_loop lib zero to character_set w = (true, w)
create_loop lib (suc rounds) to character_set w =
    let r = create_one lib to character_set w in
    let rest = create_loop lib rounds to character_set r.1 in
    elim r.0 [ true ↦ rest | false ↦ (false, r.1) ]

-- `Create`; `others` is what other threads do while a failed `Create` destroys the pool.
unfoldable pub create :
    (ℕ → Mysql) → (ℕ → World → World) → ℤ → Target → Option Bytes → World → Bool × World
create lib others pool_count to character_set w =
    let r = create_loop lib (pos_part pool_count) to character_set w in
    if leb_ℤ pool_count (pos 0)
    then (false, w)
    else if r.0
    then (true, r.1)
    else (false, destroy lib others r.1)
