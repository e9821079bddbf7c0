-- ===== src/Tests/Pool.antt =====
-- Runs of a pool of three connections.
use dbmysqlpool.Base.{
  ◌||◌, not, ℕ, true, false, [], ◌∷◌, none, some, pos, ◌≡◌, refl, arith, is_empty,
}
use dbmysqlpool.Mysql.{Mysql}
use dbmysqlpool.Connection.State.{
  new_connection, set_read_timeout, set_write_timeout, set_plugin_dir, set_secure_auth,
}
use dbmysqlpool.Connection.Link.{
  connect_to, connect, connect_begun, set_options, choose_character_set,
}
use dbmysqlpool.Connection.Results.{execute}
use dbmysqlpool.Pool.State.{
  wait_unused, World, new_pool, take_front, release, create, create_one, create_loop, contains,
  prepared_connection, set_destroy,
}
use dbmysqlpool.Pool.Calls.{borrow}
use dbmysqlpool.Pool.Ownership.{IsExclusive, here, next, takes, gives, Moves-IsExclusive}
use dbmysqlpool.Pool.Lifecycle.{sleeps, waited, Ended, select_loop-ends}
use dbmysqlpool.Pool.Borrow.{borrowed, borrow_lem}
use dbmysqlpool.Tests.Samples.{server, unreachable, localhost, connected, three, idle, insert_text}

three-up : three.is_destroy ≡ false
unfolding new_pool
three-up = refl

three-IsExclusive : IsExclusive three
three-IsExclusive a = ground arith

-- A pool without connections.
abbrev empty_pool : World
empty_pool = record { pool = new_pool; objects = λ id. connected; next_object = 0; deleted = [] }

empty_pool-IsExclusive : IsExclusive empty_pool
unfolding new_pool
empty_pool-IsExclusive a = ground arith

abbrev servers : ℕ → Mysql
servers id = server true 0

Moves-IsExclusive_example : IsExclusive (release (some 0) (take_front three).1)
Moves-IsExclusive_example =
    Moves-IsExclusive {lib = servers} (next (next here takes) (gives (some 0))) three-IsExclusive

borrow_lem_example :
    borrow 1 idle (λ id. execute (servers id) insert_text) false three
    ≡ some (
      (execute (server true 0) insert_text connected).0,
      borrowed 1 (2 ∷ []) (execute (server true 0) insert_text connected).1 three,
    )
borrow_lem_example =
    borrow_lem 0 idle (λ id. execute (servers id) insert_text) false three 1 (2 ∷ [])
      three-IsExclusive three-up refl

create-made : (create servers idle (pos 2) localhost none empty_pool).0 ≡ true
unfolding create create_loop create_one prepared_connection connect_to connect connect_begun
    set_options choose_character_set new_pool new_connection set_read_timeout set_write_timeout
    set_plugin_dir set_secure_auth
create-made = refl

create-refused : (create (λ id. unreachable) idle (pos 2) localhost none empty_pool).0 ≡ false
unfolding create create_loop create_one prepared_connection connect_to connect connect_begun
    set_options choose_character_set new_pool new_connection set_read_timeout set_write_timeout
    set_plugin_dir set_secure_auth
create-refused = refl

one-refused : (create_one (λ id. unreachable) localhost none empty_pool).0 ≡ false
unfolding create_one prepared_connection connect_to connect connect_begun set_options
    choose_character_set new_pool new_connection set_read_timeout set_write_timeout set_plugin_dir
    set_secure_auth
one-refused = refl

-- The thread that uses the connection gives it back in the first sleep.
abbrev returning : ℕ → World → World
returning i w = release (some 0) w

returned : is_empty (sleeps 1 0 returning (set_destroy true three)).use_map ≡ true
unfolding release
returned = refl

-- No connection is in use.
abbrev resting : World
resting = record three { pool = record three.pool { use_map = [] } }

resting-waited : contains 2 (waited servers idle resting).standby_list ≡ true
unfolding wait_unused
resting-waited = refl

-- All connections are in use.
abbrev exhausted : World
exhausted = record three { pool = record three.pool { standby_list = [] } }

exhausted-returned :
    ((sleeps 1 0 returning exhausted).is_destroy
      || not (is_empty (sleeps 1 0 returning exhausted).standby_list))
    ≡ true
unfolding release new_pool
exhausted-returned = refl

select_loop-ends_example : Ended servers 1 2 0 returning exhausted
select_loop-ends_example =
    select_loop-ends servers 1 2 0 returning exhausted (λ i w. next here (gives (some 0)))
      (omega arith) exhausted-returned
