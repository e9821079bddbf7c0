-- ===== src/Time/Differences.antt =====
-- SipPlatform/TimeUtility.cpp: how exact a difference is.
use dbmysqlpool.Number.{as_int, bits64}
use dbmysqlpool.Base.{
  refl, add_ℤ, sub_ℤ, diff, ◌-◌, ◌/◌, ◌^◌, leb, Bool-cases, inl, inr, ℕ, ◌+◌, ◌*◌, ◌≤◌, ◌<◌, pos,
  ◌≡◌, arith,
}
use dbmysqlpool.Time.{TimeVal, diff_timeval, mili_sleep}

-- The microseconds of a time.
abbrev pub micros : TimeVal → ℕ
micros t = t.sec * 1000000 + t.usec

fits_int : (n : ℕ) → n < 2 ^ 31 → as_int (bits64 (pos n)) ≡ pos n
fits_int n h = ground arith

later_micros :
    (a b c d : ℕ)
    → a ≤ b
    → d ≤ c
    → add_ℤ (pos ((b - a) / 1000)) (diff (c * 1000) (d * 1000))
      ≡ pos ((b - a) / 1000 + (c - d) * 1000)
later_micros a b c d le h = ground arith

earlier_micros :
    (a b c d : ℕ)
    → a < 1000000
    → b < a
    → d < c
    → add_ℤ (sub_ℤ (pos 1000) (pos ((a - b) / 1000))) (diff (c * 1000) (d * 1000 + 1000))
      ≡ pos (1000 - (a - b) / 1000 + (c - d - 1) * 1000)
earlier_micros a b c d lo lt h = ground arith

-- Of two times, the older first and less than 2147483 seconds apart, `DiffTimeval` gives a number of milliseconds
-- that is less than one away from the difference.
diff_timeval-micros :
    (old new : TimeVal)
    → old.usec < 1000000
    → new.usec < 1000000
    → micros old ≤ micros new
    → new.sec < old.sec + 2147483
    → (n : ℕ) × ((diff_timeval old new ≡ pos n)
        × (micros old + n * 1000 < micros new + 1000)
        × (micros new < micros old + n * 1000 + 1000))
unfolding diff_timeval
diff_timeval-micros old new h k le near = elim (Bool-cases (leb old.usec new.usec)) [
  | inl e ↦ (
    (new.usec - old.usec) / 1000 + (new.sec - old.sec) * 1000,
    (
      rw (e, diff_timeval)
          (rw (later_micros old.usec new.usec new.sec old.sec (ground (arith, e)) (omega arith))
            (fits_int ((new.usec - old.usec) / 1000 + (new.sec - old.sec) * 1000) (omega arith))),
      ground (arith, e),
      ground (arith, e),
    ),
  )
  | inr e ↦ (
    1000 - (old.usec - new.usec) / 1000 + (new.sec - old.sec - 1) * 1000,
    (
      rw (e, diff_timeval)
          (rw
            (earlier_micros old.usec new.usec new.sec old.sec h (ground (arith, e))
              (ground (arith, e)))
            (fits_int (1000 - (old.usec - new.usec) / 1000 + (new.sec - old.sec - 1) * 1000)
              (omega arith))),
      ground (arith, e),
      ground (arith, e),
    ),
  )
]

-- `MiliSleep` asks for exactly its milliseconds.
mili_sleep_lem :
    (mili : ℕ)
    → ((mili_sleep mili).0 * 1000000000 + (mili_sleep mili).1 ≡ mili * 1000000)
      × ((mili_sleep mili).1 < 1000000000)
unfolding mili_sleep
mili_sleep_lem mili = ground arith

-- A microsecond counts as a millisecond where the second changes, and 999 of them as none where it does not.
diff_timeval_second :
    (diff_timeval (record { sec = 0; usec = 999999 }) (record { sec = 1; usec = 0 }) ≡ pos 1)
    × (diff_timeval (record { sec = 0; usec = 0 }) (record { sec = 0; usec = 999 }) ≡ pos 0)
unfolding diff_timeval
diff_timeval_second = (refl, refl)
