-- ===== src/Connection/Protocol.antt =====
-- The part of the client library's rules that is about its objects: which calls need a handle that is closed, begun
-- or connected, which need the statement that is open on it, and that rows are fetched from a result that
-- `mysql_use_result` gave and that is freed before another call. A result that nobody takes is not followed:
-- whether a text yields rows is known to the server only, and the library refuses the next text
-- (CR_COMMANDS_OUT_OF_SYNC) while they are not read.
use dbmysqlpool.Base.{
  ℕ, Bool, true, false, not, ◌&&◌, [], ◌∷◌, Option, none, some, ◌==◌, if◌then◌else◌, ◌≡◌, refl,
  arith, codes,
}
use dbmysqlpool.Mysql.{Call, Trace}

-- A handle is closed, begun by `mysql_init`, or connected.
pub data Link : Type 0 where
  down begun up : Link

abbrev pub is_down : Link → Bool
is_down Link.down = true
is_down _ = false

abbrev pub is_begun : Link → Bool
is_begun Link.begun = true
is_begun _ = false

abbrev pub is_up : Link → Bool
is_up Link.up = true
is_up _ = false

-- The link, the statement that is open on it, and whether a result that was taken is not freed.
pub record Protocol : Type 0 where
  pub link : Link
  pub open_stmt : Option ℕ
  pub reading : Bool

abbrev pub is_open : ℕ → Option ℕ → Bool
is_open id none = false
is_open id (some other) = other == id

abbrev pub is_none : Option ℕ → Bool
is_none none = true
is_none (some id) = false

abbrev pub require : Bool → Protocol → Option Protocol
require true p = some p
require false p = none

-- Connected, and each result that was taken is freed.
abbrev pub is_ready : Protocol → Bool
is_ready p = is_up p.link && not p.reading

-- The state after a call, or `none` where the handle, the statement or the result that was taken is not in the
-- state that the call needs.
unfoldable pub check : Call → Protocol → Option Protocol
check (Call.init ok) p =
    require (is_down p.link) (record p { link = if ok then Link.begun else Link.down })
check (Call.options o) p = require (is_begun p.link) p
check (Call.real_connect to ok) p =
    require (is_begun p.link) (record p { link = if ok then Link.up else Link.begun })
check (Call.set_character_set name ok) p = require (is_ready p) p
check Call.close p =
    require (not (is_down p.link) && (is_none p.open_stmt && not p.reading))
      (record p { link = Link.down })
check (Call.query sql ok) p = require (is_ready p) p
check (Call.use_result got) p = require (is_ready p) (record p { reading = got })
check (Call.fetch_row row) p = require p.reading p
check Call.free_result p = require p.reading (record p { reading = false })
check (Call.stmt_init id) p =
    require (is_ready p && is_none p.open_stmt) (record p { open_stmt = id })
check (Call.stmt_prepare id sql ok) p = require (is_ready p && is_open id p.open_stmt) p
check (Call.stmt_bind_param id ok) p = require (is_ready p && is_open id p.open_stmt) p
check (Call.stmt_execute id values ok) p = require (is_ready p && is_open id p.open_stmt) p
check (Call.stmt_bind_result id ok) p = require (is_ready p && is_open id p.open_stmt) p
check (Call.stmt_fetch id) p = require (is_ready p && is_open id p.open_stmt) p
check (Call.stmt_close id) p = require (is_open id p.open_stmt) (record p { open_stmt = none })

abbrev pub and_then : Option Protocol → (Protocol → Option Protocol) → Option Protocol
and_then none f = none
and_then (some p) f = f p

-- The state after a trace, newest call first, where each of its calls found what it needs.
unfoldable pub replay : Trace → Option Protocol
replay [] = some (record { link = Link.down; open_stmt = none; reading = false })
replay (c ∷ t) = and_then (replay t) (check c)

pub replay_step :
    (c : Call) (t : Trace) {p : Protocol} → replay t ≡ some p → replay (c ∷ t) ≡ check c p
unfolding replay
replay_step c t h = ground arith

-- A query needs a handle that is connected.
replay_query_after_close :
    replay (Call.query (codes "x") true ∷ Call.close ∷ Call.init true ∷ []) ≡ none
unfolding replay check
replay_query_after_close = refl
