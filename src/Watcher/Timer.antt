-- ===== src/Watcher/Timer.antt =====
-- MySQLSlaveOverWatcher/MySQLSlaveOverWatcher.cpp: how often `ServiceMain` checks the slave.
use dbmysqlpool.Base.{
  ℕ, zero, suc, ◌+◌, ◌*◌, ◌≤◌, ◌<◌, ◌==◌, ◌≡◌, refl, arith, Bool-cases, inl, inr,
}
use dbmysqlpool.Watcher.{watch_seconds}

suc_times : (a p : ℕ) → suc a * p ≡ p + a * p
suc_times a p = omega arith

-- While the period stays, the check runs once in each: the seconds since the start of the count are the
-- checks times the period and the seconds since the last check, which are fewer than a period.
watch_seconds-period :
    (n period second : ℕ)
    → second < period
    → ((watch_seconds n period second).0 * period + (watch_seconds n period second).1 ≡ second + n)
      × ((watch_seconds n period second).1 < period)
watch_seconds-period zero period second h = (omega arith, h)
watch_seconds-period (suc n) period second h = elim (Bool-cases (second + 1 == period)) [
  | inl e ↦ ground (
    arith,
    watch_seconds-period n period 0 (omega arith),
    suc_times (watch_seconds n period 0).0 period,
  )
  | inr e ↦ ground (arith, watch_seconds-period n period (second + 1) (ground (arith, e)))
]

-- Once a whole period or more has gone without a check, as after a change of the setup to a smaller period,
-- no check runs any more.
pub watch_seconds-missed :
    (n period second : ℕ) → period ≤ second → (watch_seconds n period second).0 ≡ 0
watch_seconds-missed zero period second h = refl
watch_seconds-missed (suc n) period second h =
    ground (arith, watch_seconds-missed n period (second + 1) (omega arith))
