-- ===== src/Log/Order.antt =====
-- SipPlatform/Log.cpp: the order in which the names of the log's files stand.
use dbmysqlpool.Base.{
  ℕ, zero, suc, ◌+◌, ◌-◌, ◌*◌, ◌/◌, ◌%◌, ◌<◌, ◌^◌, true, false, not, ◌&&◌, ◌||◌, ◌==◌, List, [],
  ◌∷◌, ◌++◌, Bytes, codes, pos, ltb, length, drop, is_empty, if◌then◌else◌, ◌≡◌, refl, arith, ap,
  ◌∙◌, length-append,
}
use dbmysqlpool.Number.{
  atoi, atoll, shown, value_of, are_digits, is_digit, scan_digits, skip_space, scan_signed,
  to_signed,
}
use dbmysqlpool.Decimal.{digits_onto, digits, print_int, digits-value_of}
use dbmysqlpool.Log.Names.{Tm, padded, log_file_name, is_before, log_file_compare}

-- Two and four digits of a number.
abbrev pub two : ℕ → Bytes
two n = (n / 10 + 48) ∷ (n % 10 + 48) ∷ []

abbrev pub four : ℕ → Bytes
four n = (n / 1000 + 48) ∷ (n / 100 % 10 + 48) ∷ (n / 10 % 10 + 48) ∷ (n % 10 + 48) ∷ []

pub padded-two : (n : ℕ) → n < 100 → padded 2 n ≡ two n
unfolding padded digits_onto
padded-two n h = ground arith

pub padded-four : (n : ℕ) → n < 10000 → padded 4 n ≡ four n
unfolding padded digits_onto
padded-four n h = ground arith

pub is_before-two : (a b : ℕ) → a < 100 → b < 100 → is_before 2 (two a) (two b) ≡ ltb a b
unfolding is_before
is_before-two a b h k = ground arith

-- As many steps as the text is long, and `n` more.
abbrev pub behind : Bytes → ℕ → ℕ
behind [] n = n
behind (c ∷ s) n = suc (behind s n)

pub is_before-append :
    (n : ℕ) (xs ys s t : Bytes)
    → length ys ≡ length xs
    → is_before (behind xs n) (xs ++ s) (ys ++ t)
      ≡ (is_before (length xs) xs ys || (not (is_before (length xs) ys xs) && is_before n s t))
unfolding is_before
is_before-append n [] [] s t e = refl
is_before-append n [] (y ∷ ys) s t e = absurd (omega arith)
is_before-append n (x ∷ xs) [] s t e = absurd (omega arith)
is_before-append n (x ∷ xs) (y ∷ ys) s t e =
    ground (arith, is_before-append n xs ys s t (omega arith))

four-two : (n : ℕ) → n < 10000 → four n ≡ two (n / 100) ++ two (n % 100)
four-two n h = ground arith

is_before-four : (a b : ℕ) → a < 10000 → b < 10000 → is_before 4 (four a) (four b) ≡ ltb a b
is_before-four a b h k = ground (
  arith,
  four-two a h,
  four-two b k,
  is_before-append 2 (two (a / 100)) (two (b / 100)) (two (a % 100)) (two (b % 100)) refl,
  is_before-two (a / 100) (b / 100) (omega arith) (omega arith),
  is_before-two (b / 100) (a / 100) (omega arith) (omega arith),
  is_before-two (a % 100) (b % 100) (omega arith) (omega arith),
)

-- The day in a form that can be compared, and the two parts of a name that stand for it.
abbrev pub day_number : Tm → ℕ
day_number tm = tm.year * 10000 + tm.month * 100 + tm.day

abbrev pub day_digits : Tm → Bytes
day_digits tm = four tm.year ++ (two tm.month ++ two tm.day)

-- The fields have the digits that they are printed with.
abbrev pub IsPrintable : Tm → Type 0
IsPrintable tm = (tm.year < 10000) × (tm.month < 100) × (tm.day < 100)

pub is_before-day_digits :
    (a b : Tm)
    → IsPrintable a
    → IsPrintable b
    → is_before 8 (day_digits a) (day_digits b) ≡ ltb (day_number a) (day_number b)
is_before-day_digits a b h k = ground (
  arith,
  is_before-append 4 (four a.year) (four b.year) (two a.month ++ two a.day)
      (two b.month ++ two b.day) refl,
  is_before-append 2 (two a.month) (two b.month) (two a.day) (two b.day) refl,
  is_before-four a.year b.year h.0 k.0,
  is_before-four b.year a.year k.0 h.0,
  is_before-two a.month b.month h.1 k.1,
  is_before-two b.month a.month k.1 h.1,
  is_before-two a.day b.day h.2 k.2,
)

scan_digits-before :
    (n c : ℕ) (ds : List ℕ) (s : Bytes)
    → are_digits ds ≡ true
    → is_digit c ≡ false
    → scan_digits n (shown ds ++ c ∷ s) ≡ value_of n ds
unfolding scan_digits
scan_digits-before n c [] s h k = ground (arith, k)
scan_digits-before n c (d ∷ ds) s h k = ground (
  arith,
  scan_digits-before (n * 10 + d) c ds s,
  ap (λ (m : ℕ). scan_digits (n * 10 + m) (shown ds ++ c ∷ s)) {x = d + b'0' - b'0'} {y = d}
      (omega arith),
)

digits_onto-not_empty : (fuel n : ℕ) (ds : List ℕ) → is_empty (digits_onto fuel n ds) ≡ false
unfolding digits_onto
digits_onto-not_empty zero n ds = refl
digits_onto-not_empty (suc fuel) n ds =
    ground (arith, digits_onto-not_empty fuel (n / 10) ((n % 10) ∷ ds))

atoll-before :
    (ds : List ℕ) (s : Bytes)
    → are_digits ds ≡ true
    → is_empty ds ≡ false
    → atoll (shown ds ++ b'.' ∷ s) ≡ to_signed (false, value_of 0 ds)
unfolding atoll skip_space scan_signed
atoll-before [] s h k = cc
atoll-before (d ∷ ds) s h k = ground (arith, scan_digits-before 0 b'.' (d ∷ ds) s h refl)

atoi-index_text : (i : ℕ) → i < 2 ^ 31 → atoi (print_int (pos i) ++ codes ".txt") ≡ pos i
unfolding atoi print_int
atoi-index_text i h =
    let (value, right) = digits-value_of i (omega arith) in
    ground
      (arith, atoll-before (digits i) (codes "txt") right (digits_onto-not_empty 19 i []), value)

log_file_name-day_digits :
    (tm : Tm) (i : ℕ)
    → IsPrintable tm
    → log_file_name tm i ≡ day_digits tm ++ (b'_' ∷ print_int (pos i) ++ codes ".txt")
unfolding log_file_name
log_file_name-day_digits tm i h =
    rw (padded-four tm.year h.0, padded-two tm.month h.1, padded-two tm.day h.2) refl

is_before-days :
    (a b : Tm) (s t : Bytes)
    → IsPrintable a
    → IsPrintable b
    → is_before 8 (day_digits a ++ s) (day_digits b ++ t) ≡ ltb (day_number a) (day_number b)
unfolding is_before
is_before-days a b s t h k =
    is_before-append 0 (day_digits a) (day_digits b) s t refl
    ∙ ground (arith, is_before-day_digits a b h k)

compare_parts :
    (first second : Bytes) (x y i j : ℕ)
    → ltb (length first) 10 ≡ false
    → ltb (length second) 10 ≡ false
    → is_before 8 first second ≡ ltb x y
    → is_before 8 second first ≡ ltb y x
    → atoi (drop 9 first) ≡ pos i
    → atoi (drop 9 second) ≡ pos j
    → log_file_compare first second ≡ (if x == y then ltb i j else ltb x y)
unfolding log_file_compare
compare_parts first second x y i j h k e e' f f' = rw (h, k, e, e', f, f') (ground arith)

day_digits-long :
    (a : Tm) (i : ℕ)
    → ltb (length (day_digits a ++ (b'_' ∷ print_int (pos i) ++ codes ".txt"))) 10 ≡ false
day_digits-long a i = ground (arith, length-append (print_int (pos i)) (codes ".txt"))

-- Of two names that the log gives its files, the one of the earlier day stands before the other, and of one
-- day the one with the smaller index: numbers are compared, and `_10` stands behind `_9`.
pub log_file_compare-log_file_name :
    (a b : Tm) (i j : ℕ)
    → IsPrintable a
    → IsPrintable b
    → i < 2 ^ 31
    → j < 2 ^ 31
    → log_file_compare (log_file_name a i) (log_file_name b j)
      ≡ (if day_number a == day_number b then ltb i j else ltb (day_number a) (day_number b))
log_file_compare-log_file_name a b i j h k small small' =
    let s = b'_' ∷ print_int (pos i) ++ codes ".txt" in
    let t = b'_' ∷ print_int (pos j) ++ codes ".txt" in
    rw (log_file_name-day_digits a i h, log_file_name-day_digits b j k)
      (compare_parts (day_digits a ++ s) (day_digits b ++ t) (day_number a) (day_number b) i j
        (day_digits-long a i) (day_digits-long b j) (is_before-days a b s t h k)
        (is_before-days b a t s k h) (atoi-index_text i small) (atoi-index_text j small'))
