-- ===== src/Number.antt =====
-- Decimal numbers in texts: `atoi`, `atoll`, `strtoul` and `strtoull` of the C library at base 10,
-- on a platform with a 64-bit `long`, and SipPlatform/StringUtility.cpp's `GetUInt32`, `GetUInt64`.
use dbmysqlpool.Base.{
  ℕ, ◌+◌, ◌-◌, ◌*◌, ◌%◌, ◌^◌, Bool, true, false, ◌&&◌, ◌||◌, [], ◌∷◌, Option, none, some, Bytes, ℤ,
  pos, negsuc, ltb, leb, ◌==◌, if◌then◌else◌, codes, ◌≡◌, refl, List, ap, arith,
}

-- `isspace` in the C locale.
abbrev pub is_space : ℕ → Bool
is_space c = (c == b' ') || (leb 9 c && leb c 13)

abbrev pub is_digit : ℕ → Bool
is_digit c = leb b'0' c && leb c b'9'

unfoldable pub skip_space : Bytes → Bytes
skip_space [] = []
skip_space (c ∷ s) = if is_space c then skip_space s else c ∷ s

-- The value of the digits at the head, behind the digits read so far.
unfoldable pub scan_digits : ℕ → Bytes → ℕ
scan_digits n [] = n
scan_digits n (c ∷ s) =
    let rest = scan_digits (n * 10 + (c - b'0')) s in if is_digit c then rest else n

-- A sign (`true` for a minus) and the magnitude behind it.
unfoldable pub scan_signed : Bytes → Bool × ℕ
unfolding scan_digits
scan_signed [] = (false, 0)
scan_signed (c ∷ s) =
    if c == b'-'
    then (true, scan_digits 0 s)
    else if c == b'+'
    then (false, scan_digits 0 s)
    else (false, scan_digits 0 (c ∷ s))

-- `strtoul` and `strtoull`: too large a magnitude gives the maximum, a minus negates modulo 2^64.
abbrev pub to_unsigned : Bool × ℕ → ℕ
to_unsigned (minus, n) =
    if leb (2 ^ 64) n then 2 ^ 64 - 1 else if minus then (2 ^ 64 - n) % 2 ^ 64 else n

-- `strtol` and `strtoll` stop at the ends of their range.
abbrev pub to_signed : Bool × ℕ → ℤ
to_signed (minus, n) =
    if n == 0
    then pos 0
    else if minus
    then (if leb (2 ^ 63) n then negsuc (2 ^ 63 - 1) else negsuc (n - 1))
    else (if leb (2 ^ 63) n then pos (2 ^ 63 - 1) else pos n)

-- The bits of a 64-bit integer, and the `int` that the low 32 of them stand for.
abbrev pub bits64 : ℤ → ℕ
bits64 (pos n) = n
bits64 (negsuc n) = 2 ^ 64 - 1 - n

abbrev pub as_int : ℕ → ℤ
as_int n = if ltb (n % 2 ^ 32) (2 ^ 31) then pos (n % 2 ^ 32) else negsuc (2 ^ 32 - 1 - n % 2 ^ 32)

unfoldable pub strtoul : Bytes → ℕ
unfolding skip_space scan_signed
strtoul s = to_unsigned (scan_signed (skip_space s))

unfoldable pub atoll : Bytes → ℤ
unfolding skip_space scan_signed
atoll s = to_signed (scan_signed (skip_space s))

unfoldable pub atoi : Bytes → ℤ
unfolding atoll
atoi s = as_int (bits64 (atoll s))

unfoldable pub get_uint32 : Option Bytes → ℕ
unfolding strtoul
get_uint32 none = 0
get_uint32 (some s) = strtoul s % 2 ^ 32

unfoldable pub get_uint64 : Option Bytes → ℕ
unfolding strtoul
get_uint64 none = 0
get_uint64 (some s) = strtoul s

atoi_negative : atoi (codes " -42x") ≡ negsuc 41
unfolding atoi
atoi_negative = refl

get_uint32_wraps : get_uint32 (some (codes "4294967297")) ≡ 1
unfolding get_uint32
get_uint32_wraps = refl

get_uint64_minus : get_uint64 (some (codes "-1")) ≡ 2 ^ 64 - 1
unfolding get_uint64
get_uint64_minus = refl

-- The text of decimal digits, and their value behind what was read so far.
abbrev pub shown : List ℕ → Bytes
shown [] = []
shown (d ∷ ds) = (d + b'0') ∷ shown ds

abbrev pub value_of : ℕ → List ℕ → ℕ
value_of n [] = n
value_of n (d ∷ ds) = value_of (n * 10 + d) ds

abbrev pub are_digits : List ℕ → Bool
are_digits [] = true
are_digits (d ∷ ds) = leb d 9 && are_digits ds

pub scan_digits-shown :
    (n : ℕ) (ds : List ℕ) → are_digits ds ≡ true → scan_digits n (shown ds) ≡ value_of n ds
unfolding scan_digits
scan_digits-shown n [] h = refl
scan_digits-shown n (d ∷ ds) h = ground (
  arith,
  scan_digits-shown (n * 10 + d) ds,
  ap (λ (m : ℕ). scan_digits (n * 10 + m) (shown ds)) {x = d + b'0' - b'0'} {y = d} (omega arith),
)

strtoul-shown :
    (ds : List ℕ)
    → are_digits ds ≡ true
    → strtoul (shown ds) ≡ (if leb (2 ^ 64) (value_of 0 ds) then 2 ^ 64 - 1 else value_of 0 ds)
unfolding strtoul skip_space scan_signed
strtoul-shown [] h = refl
strtoul-shown (d ∷ ds) h = ground (arith, scan_digits-shown 0 (d ∷ ds) h)

-- The value as 64 bits hold it: too large a one is the maximum.
abbrev pub saturated : ℕ → ℕ
saturated n = if leb (2 ^ 64) n then 2 ^ 64 - 1 else n

-- `GetUInt64` gives the value of a text of decimal digits, or the maximum if 64 bits do not hold it, and
-- `GetUInt32` the low 32 bits of that.
get_uint-shown :
    (ds : List ℕ)
    → are_digits ds ≡ true
    → (get_uint64 (some (shown ds)) ≡ saturated (value_of 0 ds))
      × (get_uint32 (some (shown ds)) ≡ saturated (value_of 0 ds) % 2 ^ 32)
unfolding get_uint64 get_uint32
get_uint-shown ds h = ground (arith, strtoul-shown ds h)
