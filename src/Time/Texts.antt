-- ===== src/Time/Texts.antt =====
-- SipPlatform/TimeString.cpp: the order of times as texts.
use dbmysqlpool.Base.{
  ℕ, ◌+◌, ◌*◌, ◌≤◌, ◌<◌, ◌++◌, Bytes, length, ltb, ◌≡◌, refl, arith, ◌∙◌, ◌-◌, not, ◌&&◌, ◌||◌,
}
use dbmysqlpool.Shown.{take_all}
use dbmysqlpool.Log.Names.{Tm, is_before}
use dbmysqlpool.Log.Order.{
  IsPrintable, day_number, day_digits, two, is_before-append, is_before-two, is_before-day_digits,
  padded-two, padded-four,
}
use dbmysqlpool.Time.{date_time_string}

-- The digits of the clock, and the time as a number that can be compared.
abbrev clock_digits : Tm → Bytes
clock_digits tm = two tm.hour ++ (two tm.minute ++ two tm.second)

abbrev pub clock_number : Tm → ℕ
clock_number tm = tm.hour * 10000 + tm.minute * 100 + tm.second

abbrev pub time_number : Tm → ℕ
time_number tm = day_number tm * 1000000 + clock_number tm

-- The fields have the digits that they are printed with.
abbrev pub IsClock : Tm → Type 0
IsClock tm = IsPrintable tm × (tm.hour < 100) × (tm.minute < 100) × (tm.second < 100)

date_time_string-digits :
    (tm : Tm) (size : ℕ)
    → IsClock tm
    → 15 ≤ size
    → date_time_string tm size ≡ day_digits tm ++ clock_digits tm
unfolding date_time_string
date_time_string-digits tm size (h, hour, minute, second) le =
    rw
      (
        padded-four tm.year h.0,
        padded-two tm.month h.1,
        padded-two tm.day h.2,
        padded-two tm.hour hour,
        padded-two tm.minute minute,
        padded-two tm.second second,
      )
      (take_all (size - 1) (day_digits tm ++ clock_digits tm) (omega arith))

is_before-clock_digits :
    (a b : Tm)
    → IsClock a
    → IsClock b
    → is_before 6 (clock_digits a) (clock_digits b) ≡ ltb (clock_number a) (clock_number b)
is_before-clock_digits a b (h, h₁, h₂, h₃) (k, k₁, k₂, k₃) = ground (
  arith,
  is_before-append 4 (two a.hour) (two b.hour) (two a.minute ++ two a.second)
      (two b.minute ++ two b.second) refl,
  is_before-append 2 (two a.minute) (two b.minute) (two a.second) (two b.second) refl,
  is_before-two a.hour b.hour h₁ k₁,
  is_before-two b.hour a.hour k₁ h₁,
  is_before-two a.minute b.minute h₂ k₂,
  is_before-two b.minute a.minute k₂ h₂,
  is_before-two a.second b.second h₃ k₃,
)

-- In a buffer of 15 bytes or more the texts of times have 14 bytes and the order of the times.
pub date_time_string-order :
    (a b : Tm) (size : ℕ)
    → IsClock a
    → IsClock b
    → 15 ≤ size
    → (length (date_time_string a size) ≡ 14)
      × (is_before 14 (date_time_string a size) (date_time_string b size)
          ≡ ltb (time_number a) (time_number b))
date_time_string-order a b size h k le =
    rw (date_time_string-digits a size h le, date_time_string-digits b size k le)
      (
        refl,
        is_before-append 6 (day_digits a) (day_digits b) (clock_digits a) (clock_digits b) refl
            ∙ ordered,
      )
  where
    ordered :
        (is_before 8 (day_digits a) (day_digits b)
          || (not (is_before 8 (day_digits b) (day_digits a))
              && is_before 6 (clock_digits a) (clock_digits b)))
        ≡ ltb (time_number a) (time_number b)
    ordered =
        rw
          (
            is_before-day_digits a b h.0 k.0,
            is_before-day_digits b a k.0 h.0,
            is_before-clock_digits a b h k,
          )
          (ground (arith, h, k))
