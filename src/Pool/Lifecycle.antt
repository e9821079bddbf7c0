-- ===== src/Pool/Lifecycle.antt =====
-- DbMySQLPool/DbMySQLPool.cpp: the whole methods, from the first connection to the last.
use dbmysqlpool.Base.{
  ◌||◌, Bool-cases, inr, not, ℕ, zero, suc, ◌<◌, ◌≤◌, Bool, ◌∙◌, if◌then◌else◌, true, false, List,
  [], ◌∷◌, Option, none, some, ◌≡◌, refl, arith, is_empty, ◌⊎◌, inl,
}
use dbmysqlpool.Mysql.{Mysql}
use dbmysqlpool.Connection.Link.{close}
use dbmysqlpool.Connection.Invariant.{close-shut}
use dbmysqlpool.Pool.State.{
  World, contains, update, take_front, select_loop, close_all, wait_unused, set_destroy,
  close_standby, destroy,
}
use dbmysqlpool.Pool.Ownership.{
  Moves, here, next, takes, marks, closes, count, contains-count, close_all-deleted,
}

-- The world after the other threads have had `k` sleeps, from the given round on.
abbrev pub sleeps : ℕ → ℕ → (ℕ → World → World) → World → World
sleeps zero i others w = w
sleeps (suc k) i others w = sleeps k (suc i) others (others i w)

module _ (lib : ℕ → Mysql) where
  pub Moves-trans : {u v w : World} → Moves lib u v → Moves lib v w → Moves lib u w
  Moves-trans r here = r
  Moves-trans r (next q m) = next (Moves-trans r q) m

  -- What other threads do in a sleep is a sequence of their sections.
  abbrev pub AreThreads : (ℕ → World → World) → Type 0
  AreThreads others = (i : ℕ) (w : World) → Moves lib w (others i w)

  -- Whether `Select` stops waiting in this world.
  abbrev pub is_served : World → Bool
  is_served w = w.is_destroy || not (is_empty w.standby_list)

  -- The wait is over in the first round `j`, of those up to `k`, whose world lets it be: it then has NULL and that
  -- world if the pool is being destroyed, and if not what taking the first connection that stands by
  -- gives.
  abbrev pub Ended : ℕ → ℕ → ℕ → (ℕ → World → World) → World → Type 0
  Ended k fuel i others w =
      (j : ℕ) × (r : Option ℕ × World) × (j ≤ k)
      × ((m : ℕ) → m < j → is_served (sleeps m i others w) ≡ false)
      × (is_served (sleeps j i others w) ≡ true)
      × (r ≡ (
          if (sleeps j i others w).is_destroy
          then (none, sleeps j i others w)
          else take_front (sleeps j i others w)))
      × (select_loop fuel i others true w ≡ some r)
      × Moves lib w r.1

  select_loop-sleeps :
      (fuel i : ℕ) (others : ℕ → World → World) (w : World)
      → is_served w ≡ false
      → select_loop (suc fuel) i others true w ≡ select_loop fuel (suc i) others true (others i w)
  unfolding select_loop
  select_loop-sleeps fuel i others w e = ground (arith, e)

  served_now :
      (i fuel : ℕ) (others : ℕ → World → World) (w : World) (k : ℕ)
      → is_served w ≡ true
      → Ended k (suc fuel) i others w
  unfolding select_loop
  served_now i fuel others w k h = elim (Bool-cases w.is_destroy) [
    | inl e ↦ (
      zero,
      (none, w),
      omega arith,
      (λ m lt. absurd (omega arith)),
      h,
      rw e refl,
      ground (arith, e),
      here,
    )
    | inr e ↦ (
      zero,
      take_front w,
      omega arith,
      (λ m lt. absurd (omega arith)),
      h,
      rw e refl,
      ground (arith, e, h),
      next here takes,
    )
  ]

  waits_on :
      (i : ℕ) (others : ℕ → World → World) (w : World) (j : ℕ)
      → is_served w ≡ false
      → ((m : ℕ) → m < j → is_served (sleeps m (suc i) others (others i w)) ≡ false)
      → (m : ℕ) → m < suc j
      → is_served (sleeps m i others w) ≡ false
  waits_on i others w j e before zero lt = e
  waits_on i others w j e before (suc m) lt = before m (omega arith)

  -- If after `k` sleeps, in which the other threads run sections only, a connection stands by or the pool is being
  -- destroyed, then `Select` that waits ends with fuel for more than `k` rounds. It sleeps until the first
  -- round `j` in which this is so, and not longer: it then gives NULL and changes nothing if the pool is
  -- being destroyed, and takes the first connection that stands by if not. What it leaves is reached by sections
  -- of this thread and the others.
  pub select_loop-ends :
      (k fuel i : ℕ) (others : ℕ → World → World) (w : World)
      → AreThreads others
      → k < fuel
      → is_served (sleeps k i others w) ≡ true
      → Ended k fuel i others w
  unfolding select_loop
  select_loop-ends k zero i others w threads lt h = absurd (omega arith)
  select_loop-ends zero (suc fuel) i others w threads lt h = served_now i fuel others w zero h
  select_loop-ends (suc k) (suc fuel) i others w threads lt h = elim (Bool-cases (is_served w)) [
    | inl e ↦ served_now i fuel others w (suc k) e
    | inr e ↦
        let (j, r, le, before, now, result, done, moves) =
          select_loop-ends k fuel (suc i) others (others i w) threads (omega arith) h in
        (
          suc j,
          r,
          omega arith,
          waits_on i others w j e before,
          now,
          result,
          select_loop-sleeps fuel i others w e ∙ done,
          Moves-trans (threads i w) moves,
        )
  ]

  wait_unused-Moves :
      (rounds i : ℕ) (others : ℕ → World → World) (w : World)
      → AreThreads others
      → Moves lib w (wait_unused rounds i others w)
  unfolding wait_unused
  wait_unused-Moves zero i others w threads = here
  wait_unused-Moves (suc rounds) i others w threads =
      elim (is_empty w.use_map)
        as (λ b.
          Moves lib w
            (elim b [ true ↦ w | false ↦ wait_unused rounds (suc i) others (others i w) ])) [
              | true ↦ here
              | false ↦
                  Moves-trans (threads i w)
                    (wait_unused-Moves rounds (suc i) others (others i w) threads)
            ]

  destroy-Moves :
      (others : ℕ → World → World) (w : World)
      → AreThreads others
      → Moves lib w (destroy lib others w)
  unfolding destroy
  destroy-Moves others w threads =
      next
        (next
          (Moves-trans (next here (marks true))
            (wait_unused-Moves 500 0 others (set_destroy true w) threads))
          closes)
        (marks false)

  close_all-closed :
      (ids : List ℕ) (w : World) (id : ℕ)
      → (contains id ids ≡ true) ⊎ ((w.objects id).conn.connected ≡ false)
      → ((close_all lib ids w).objects id).conn.connected ≡ false
  unfolding close_all
  close_all-closed [] w id h = ground arith
  close_all-closed (x ∷ ids) w id h = ground (
    arith,
    close-shut (w.objects x),
    close_all-closed ids
        (record w { objects = update w.objects x (close (w.objects x)).1; deleted = x ∷ w.deleted })
        id,
  )

wait_unused-empty :
    (k rounds i : ℕ) (others : ℕ → World → World) (w : World)
    → k < rounds
    → is_empty (sleeps k i others w).use_map ≡ true
    → is_empty (wait_unused rounds i others w).use_map ≡ true
unfolding wait_unused
wait_unused-empty k zero i others w lt e = elim lt [ ]
wait_unused-empty zero (suc rounds) i others w lt e = ground arith
wait_unused-empty (suc k) (suc rounds) i others w lt e =
    ground (arith, wait_unused-empty k rounds (suc i) others (others i w))

module _ (lib : ℕ → Mysql) (others : ℕ → World → World) (w : World) where
  -- The world when `Destroy` starts to close.
  abbrev pub waited : World
  waited = wait_unused 500 0 others (set_destroy true w)

  pub destroy-reset :
      ((destroy lib others w).standby_list ≡ []) × ((destroy lib others w).is_destroy ≡ false)
  unfolding destroy close_standby
  destroy-reset = (refl, refl)

  -- After `Destroy` no connection stands by, `m_bDestroy` is false again, and a connection that stood by
  -- when the waiting was over is closed and deleted.
  destroy-closed :
      (id : ℕ)
      → contains id waited.standby_list ≡ true
      → ((destroy lib others w).standby_list ≡ [])
        × ((destroy lib others w).is_destroy ≡ false)
        × (((destroy lib others w).objects id).conn.connected ≡ false)
        × (0 < count id (destroy lib others w).deleted)
  unfolding destroy close_standby
  destroy-closed id h = (
    refl,
    refl,
    close_all-closed lib waited.standby_list waited id (inl h),
    omega (
      arith,
      close_all-deleted lib waited.standby_list waited id,
      contains-count id waited.standby_list h,
    ),
  )

  -- If no connection is in use after fewer than 500 sleeps of the other threads, from where `Destroy` is
  -- called, none is in use after `Destroy`.
  destroy_in_time :
      (k : ℕ)
      → k < 500
      → is_empty (sleeps k 0 others (set_destroy true w)).use_map ≡ true
      → is_empty (destroy lib others w).use_map ≡ true
  unfolding destroy close_standby
  destroy_in_time k lt e = ground (
    arith,
    wait_unused-empty k 500 0 others (set_destroy true w) lt e,
    close_all-deleted lib waited.standby_list waited 0,
  )
