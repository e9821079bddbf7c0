-- ===== src/Shown.antt =====
-- The lengths of printed decimal numbers, what `snprintf` cuts off, and reading back what is left.
use dbmysqlpool.Base.{
  ℕ, zero, suc, ◌+◌, ◌-◌, ◌/◌, ◌%◌, ◌^◌, ◌≤◌, ◌<◌, Bool, true, ◌&&◌, ◌||◌, List, [], ◌∷◌, ◌++◌,
  Bytes, ℤ, pos, negsuc, leb, ◌==◌, if◌then◌else◌, take, length, ◌≡◌, refl, ap, ◌∙◌, arith,
  Bool-cases, pos_part, neg_part, inl, inr,
}
use native.Mathlib.Omega.{pow_step}
use dbmysqlpool.Number.{shown, are_digits, atoll, atoi, as_int, bits64, to_signed}
use dbmysqlpool.Decimal.{
  digits_onto, digits, print_int, snprintf, digits_onto-value_of, atoi-print_int, atoll-print_int,
  atoll-minus, length-shown, length-digits_onto, digits-value_of,
}

-- An `int` behind the buffer of 11 bytes: of -1000000000 and below, the last digit is lost.
abbrev pub shortened : ℤ → ℤ
shortened (pos n) = pos n
shortened (negsuc n) = if leb (10 ^ 9) (suc n) then negsuc (suc n / 10 - 1) else negsuc n

pub take_all : (n : ℕ) (s : Bytes) → length s ≤ n → take n s ≡ s
take_all zero [] h = refl
take_all zero (c ∷ s) h = absurd (omega arith)
take_all (suc n) [] h = refl
take_all (suc n) (c ∷ s) h = ap (◌∷◌ c) (take_all n s (omega arith))

take_head : (xs ys : Bytes) (n : ℕ) → n ≡ length xs → take n (xs ++ ys) ≡ xs
take_head [] ys zero h = refl
take_head [] ys (suc n) h = absurd (omega arith)
take_head (x ∷ xs) ys zero h = absurd (omega arith)
take_head (x ∷ xs) ys (suc n) h = ap (◌∷◌ x) (take_head xs ys n (omega arith))

shown-append : (ds es : List ℕ) → shown (ds ++ es) ≡ shown ds ++ shown es
shown-append [] es = refl
shown-append (d ∷ ds) es = ap (◌∷◌ (d + b'0')) (shown-append ds es)

digits_onto-append :
    (fuel n : ℕ) (ds es : List ℕ) → digits_onto fuel n (ds ++ es) ≡ digits_onto fuel n ds ++ es
unfolding digits_onto
digits_onto-append zero n ds es = refl
digits_onto-append (suc fuel) n ds es =
    ground (arith, digits_onto-append fuel (n / 10) ((n % 10) ∷ ds) es)

-- How many digits there are.
digits_onto-exact :
    (fuel k n : ℕ) (ds : List ℕ)
    → n < 10 ^ suc k
    → 10 ^ k ≤ n
    → k ≤ fuel
    → length (digits_onto fuel n ds) ≡ suc k + length ds
unfolding digits_onto
digits_onto-exact zero k n ds h lo le = omega arith
digits_onto-exact (suc fuel) zero n ds h lo le = ground arith
digits_onto-exact (suc fuel) (suc k) n ds h lo le = ground (
  arith,
  pow_step 10 k,
  digits_onto-exact fuel k (n / 10) ((n % 10) ∷ ds) (omega (arith, pow_step 10 (suc k)))
      (omega (arith, pow_step 10 k)) (omega arith),
)

length-print_int :
    (z : ℤ) (k : ℕ)
    → k ≤ 19
    → pos_part z < 10 ^ suc k
    → neg_part z < 10 ^ k
    → length (print_int z) ≤ suc k
unfolding print_int
length-print_int (pos n) k le lo hi =
    omega (arith, length-digits_onto 19 k n [] lo le, length-shown (digits n))
length-print_int (negsuc n) zero le lo hi = absurd (omega arith)
length-print_int (negsuc n) (suc k) le lo hi =
    omega
      (arith, length-digits_onto 19 k (suc n) [] hi (omega arith), length-shown (digits (suc n)))

snprintf-short : (size : ℕ) (s : Bytes) → length s < size → snprintf size s ≡ s
snprintf-short size s h = take_all (size - 1) s (omega arith)

-- A number of at least two digits: its digits are those of a tenth of it and the last one.
digits-last : (n : ℕ) → 10 ≤ n → digits n ≡ digits_onto 18 (n / 10) [] ++ (n % 10) ∷ []
unfolding digits_onto
digits-last n h = ground (arith, digits_onto-append 18 (n / 10) [] ((n % 10) ∷ []))

snprintf-long :
    (n : ℕ)
    → 10 ^ 9 ≤ n
    → n < 10 ^ 10
    → snprintf 11 (b'-' ∷ shown (digits n)) ≡ b'-' ∷ shown (digits_onto 18 (n / 10) [])
snprintf-long n lo hi =
    let ds = digits_onto 18 (n / 10) [] in
    ap (λ (s : Bytes). b'-' ∷ s)
      (ap (λ (s : Bytes). take 9 s)
          (ap shown (digits-last n (omega arith)) ∙ shown-append ds ((n % 10) ∷ []))
        ∙ take_head (shown ds) (shown ((n % 10) ∷ [])) 9 (
            omega (
              arith,
              length-shown ds,
              digits_onto-exact 18 8 (n / 10) [] (omega arith) (omega arith) (omega arith),
            )))

atoi-long :
    (n : ℕ)
    → 10 ^ 9 ≤ suc n
    → suc n ≤ 2 ^ 31
    → atoi (snprintf 11 (print_int (negsuc n))) ≡ negsuc (suc n / 10 - 1)
unfolding atoi print_int
atoi-long n lo hi =
    let ds = digits_onto 18 (suc n / 10) [] in
    let (value, right) = digits_onto-value_of 18 (suc n / 10) [] (omega arith) in
    ap (λ (s : Bytes). as_int (bits64 (atoll s))) (snprintf-long (suc n) lo (omega arith))
    ∙ (ap (λ (z : ℤ). as_int (bits64 z)) (atoll-minus ds right)
        ∙ (ap (λ (m : ℕ). as_int (bits64 (to_signed (true, m)))) value ∙ ground arith))

-- `snprintf` with `%d` into 11 bytes and `atoi` on them give back a number of 32 bits, but a tenth of it
-- from -1000000000 down; `snprintf` with `%lld` into 21 bytes and `atoll` give back one of 64 bits.
pub atoi-snprintf :
    (z : ℤ)
    → pos_part z < 2 ^ 31
    → neg_part z ≤ 2 ^ 31
    → atoi (snprintf 11 (print_int z)) ≡ shortened z
atoi-snprintf (pos n) lo hi =
    ap atoi (
      snprintf-short 11 (print_int (pos n))
        (omega (arith, length-print_int (pos n) 9 (omega arith) (omega arith) (omega arith))))
    ∙ atoi-print_int (pos n) lo hi
atoi-snprintf (negsuc n) lo hi = elim (Bool-cases (leb (10 ^ 9) (suc n))) [
  | inl h ↦ ground (arith, atoi-long n (ground (arith, h)) hi)
  | inr h ↦ ground (
    arith,
    h,
    ap atoi (
          snprintf-short 11 (print_int (negsuc n)) (
            omega (
              arith,
              length-print_int (negsuc n) 9 (omega arith) (omega arith) (ground (arith, h)),
            )))
        ∙ atoi-print_int (negsuc n) lo hi,
  )
]

pub atoll-snprintf :
    (z : ℤ) → pos_part z < 2 ^ 63 → neg_part z ≤ 2 ^ 63 → atoll (snprintf 21 (print_int z)) ≡ z
atoll-snprintf z lo hi =
    ap atoll (
      snprintf-short 21 (print_int z)
        (omega (arith, length-print_int z 19 (omega arith) (omega arith) (omega arith))))
    ∙ atoll-print_int z lo hi

-- The bytes of printed numbers: digits and a minus.
abbrev pub is_number_text : Bytes → Bool
is_number_text [] = true
is_number_text (c ∷ s) = ((c == b'-') || (leb b'0' c && leb c b'9')) && is_number_text s

shown-is_number_text : (ds : List ℕ) → are_digits ds ≡ true → is_number_text (shown ds) ≡ true
shown-is_number_text [] h = refl
shown-is_number_text (d ∷ ds) h = ground (arith, shown-is_number_text ds)

print_int-is_number_text :
    (z : ℤ) → pos_part z < 10 ^ 20 → neg_part z < 10 ^ 20 → is_number_text (print_int z) ≡ true
unfolding print_int
print_int-is_number_text (pos n) lo hi = shown-is_number_text (digits n) (digits-value_of n lo).1
print_int-is_number_text (negsuc n) lo hi =
    ground (arith, shown-is_number_text (digits (suc n)) (digits-value_of (suc n) hi).1)

take-is_number_text :
    (n : ℕ) (s : Bytes) → is_number_text s ≡ true → is_number_text (take n s) ≡ true
take-is_number_text zero s h = refl
take-is_number_text (suc n) [] h = refl
take-is_number_text (suc n) (c ∷ s) h = ground (arith, take-is_number_text n s)

pub snprintf-is_number_text :
    (size : ℕ) (z : ℤ)
    → pos_part z < 10 ^ 20
    → neg_part z < 10 ^ 20
    → is_number_text (snprintf size (print_int z)) ≡ true
snprintf-is_number_text size z lo hi =
    take-is_number_text (size - 1) (print_int z) (print_int-is_number_text z lo hi)
