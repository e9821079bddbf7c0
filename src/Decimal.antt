-- ===== src/Decimal.antt =====
-- `snprintf` with `%d` and `%lld`, as the C library defines it, into a buffer of a given size.
use dbmysqlpool.Base.{
  ℕ, zero, suc, ◌+◌, ◌-◌, ◌*◌, ◌/◌, ◌%◌, ◌^◌, ◌≤◌, ◌<◌, true, false, List, [], ◌∷◌, Bytes, ℤ, pos,
  negsuc, ltb, if◌then◌else◌, take, length, codes, ◌≡◌, refl, ap, ◌∙◌, arith, pos_part, neg_part,
}
use native.Mathlib.Omega.{pow_step}
use dbmysqlpool.Number.{
  shown, value_of, are_digits, scan_digits-shown, skip_space, scan_signed, atoll, atoi, to_signed,
}

-- The decimal digits of a number in front of those in the list; the fuel is the most there can be.
unfoldable pub digits_onto : ℕ → ℕ → List ℕ → List ℕ
digits_onto zero n ds = n ∷ ds
digits_onto (suc fuel) n ds =
    let rest = digits_onto fuel (n / 10) ((n % 10) ∷ ds) in if ltb n 10 then n ∷ ds else rest

-- A number of at most 20 digits, as 64 bits hold it.
abbrev pub digits : ℕ → List ℕ
digits n = digits_onto 19 n []

unfoldable pub print_int : ℤ → Bytes
print_int (pos n) = shown (digits n)
print_int (negsuc n) = b'-' ∷ shown (digits (suc n))

-- `snprintf( szText, iSize, … )`: what the buffer holds up to its zero byte.
abbrev pub snprintf : ℕ → Bytes → Bytes
snprintf buffer_size text = take (buffer_size - 1) text

pub digits_onto-value_of :
    (fuel n : ℕ) (ds : List ℕ)
    → n < 10 ^ suc fuel
    → (value_of 0 (digits_onto fuel n ds) ≡ value_of n ds)
      × (are_digits (digits_onto fuel n ds) ≡ are_digits ds)
unfolding digits_onto
digits_onto-value_of zero n ds h =
    (ap (λ (m : ℕ). value_of m ds) {x = 0 * 10 + n} {y = n} (omega arith), ground arith)
digits_onto-value_of (suc fuel) n ds h = ground (
  arith,
  digits_onto-value_of fuel (n / 10) ((n % 10) ∷ ds) (omega (arith, pow_step 10 (suc fuel))),
  ap (λ (m : ℕ). value_of m ds) {x = n / 10 * 10 + n % 10} {y = n} (omega arith),
  ap (λ (m : ℕ). value_of m ds) {x = 0 * 10 + n} {y = n} (omega arith),
)

pub digits-value_of :
    (n : ℕ) → n < 10 ^ 20 → (value_of 0 (digits n) ≡ n) × (are_digits (digits n) ≡ true)
digits-value_of n h = digits_onto-value_of 19 n [] h

atoll-shown :
    (ds : List ℕ) → are_digits ds ≡ true → atoll (shown ds) ≡ to_signed (false, value_of 0 ds)
unfolding atoll skip_space scan_signed
atoll-shown [] h = ground arith
atoll-shown (d ∷ ds) h = ground (arith, scan_digits-shown 0 (d ∷ ds) h)

pub atoll-minus :
    (ds : List ℕ) → are_digits ds ≡ true → atoll (b'-' ∷ shown ds) ≡ to_signed (true, value_of 0 ds)
unfolding atoll skip_space scan_signed
atoll-minus ds h = ground (arith, scan_digits-shown 0 ds h)

to_signed_pos : (n : ℕ) → n < 2 ^ 63 → to_signed (false, n) ≡ pos n
to_signed_pos n h = ground arith

to_signed_negsuc : (n : ℕ) → suc n ≤ 2 ^ 63 → to_signed (true, suc n) ≡ negsuc n
to_signed_negsuc n h = ground arith

-- `atoll` gives back a number of 64 bits.
pub atoll-print_int : (z : ℤ) → pos_part z < 2 ^ 63 → neg_part z ≤ 2 ^ 63 → atoll (print_int z) ≡ z
unfolding print_int
atoll-print_int (pos n) lo hi =
    let (value, right) = digits-value_of n (omega arith) in
    atoll-shown (digits n) right ∙ (ap (λ (m : ℕ). to_signed (false, m)) value ∙ to_signed_pos n lo)
atoll-print_int (negsuc n) lo hi =
    let (value, right) = digits-value_of (suc n) (omega arith) in
    atoll-minus (digits (suc n)) right
    ∙ (ap (λ (m : ℕ). to_signed (true, m)) value ∙ to_signed_negsuc n hi)

-- `atoi` gives back a number of 32 bits.
pub atoi-print_int : (z : ℤ) → pos_part z < 2 ^ 31 → neg_part z ≤ 2 ^ 31 → atoi (print_int z) ≡ z
unfolding atoi
atoi-print_int (pos n) lo hi = ground (arith, atoll-print_int (pos n) (omega arith) (omega arith))
atoi-print_int (negsuc n) lo hi =
    ground (arith, atoll-print_int (negsuc n) (omega arith) (omega arith))

pub length-shown : (ds : List ℕ) → length (shown ds) ≡ length ds
length-shown [] = refl
length-shown (d ∷ ds) = ap suc (length-shown ds)

pub length-digits_onto :
    (fuel k n : ℕ) (ds : List ℕ)
    → n < 10 ^ suc k
    → k ≤ fuel
    → length (digits_onto fuel n ds) ≤ suc k + length ds
unfolding digits_onto
length-digits_onto zero k n ds h le = omega arith
length-digits_onto (suc fuel) zero n ds h le = ground arith
length-digits_onto (suc fuel) (suc k) n ds h le =
    ground (
      arith,
      length-digits_onto fuel k (n / 10) ((n % 10) ∷ ds) (omega (arith, pow_step 10 (suc k))),
    )

longest : snprintf 11 (print_int (negsuc 999999999)) ≡ codes "-100000000"
unfolding print_int digits_onto
longest = refl
