-- ===== src/Injection.antt =====
-- DbMySQLPool/DbCheckSqlInjection.cpp: the tests for the characters of an SQL injection, and their
-- replacement.
use dbmysqlpool.Base.{
  ℕ, ◌<◌, Bool, true, false, not, ◌&&◌, [], ◌∷◌, Option, none, some, Bytes, ◌≡◌, refl, ap, sym, ◌∙◌,
  arith, ◌==◌, if◌then◌else◌, length, length-map, map, is_empty, codes,
}
use dbmysqlpool.Text.Find.{search_char, occurs, search_char-occurs}
use dbmysqlpool.Text.Replace.{replace_char, replace_char-map}

-- The loop over `pszTest`.
unfoldable pub check_all : Bytes → Bytes → Bool
check_all [] value = true
check_all (c ∷ test) value = if search_char value c then false else check_all test value

abbrev pub test_chars : Bytes
test_chars = codes "'\"/\\;: +-"

abbrev pub test_chars_not_slash : Bytes
test_chars_not_slash = codes "'\"\\;: +-"

abbrev pub test_chars_not_space : Bytes
test_chars_not_space = codes "'\"/\\;:+-"

abbrev pub test_chars_not_minus : Bytes
test_chars_not_minus = codes "'\"/\\;: +"

unfoldable pub check_sql_injection : Bytes → Bool
check_sql_injection value = check_all test_chars value

unfoldable pub check_sql_injection_not_slash : Bytes → Bool
check_sql_injection_not_slash value = check_all test_chars_not_slash value

unfoldable pub check_sql_injection_not_space : Bytes → Bool
check_sql_injection_not_space value = check_all test_chars_not_space value

unfoldable pub check_sql_injection_not_minus : Bytes → Bool
check_sql_injection_not_minus value = check_all test_chars_not_minus value

-- The loop of the replacement; the fuel is that of each `ReplaceString`.
unfoldable pub replace_all : ℕ → Bytes → Bytes → Option Bytes
replace_all fuel [] value = some value
replace_all fuel (c ∷ test) value = elim (replace_char fuel c b' ' value) [
  | none ↦ none
  | some value' ↦ replace_all fuel test value'
]

unfoldable pub replace_sql_injection_not_space : ℕ → Bytes → Option Bytes
replace_sql_injection_not_space fuel value =
    if is_empty value then some value else replace_all fuel test_chars_not_space value

-- Whether a value has none of the characters, byte by byte.
abbrev pub is_clean : Bytes → Bytes → Bool
is_clean test [] = true
is_clean test (c ∷ value) = not (occurs c test) && is_clean test value

is_clean-cons :
    (c : ℕ) (test value : Bytes)
    → is_clean (c ∷ test) value ≡ (not (occurs c value) && is_clean test value)
is_clean-cons c test [] = refl
is_clean-cons c test (d ∷ value) = ground (arith, is_clean-cons c test value)

is_clean-nil : (value : Bytes) → is_clean [] value ≡ true
is_clean-nil [] = refl
is_clean-nil (d ∷ value) = is_clean-nil value

-- The loop over the characters accepts a value exactly when no byte of it is one of them.
pub check_all-is_clean : (test value : Bytes) → check_all test value ≡ is_clean test value
unfolding check_all
check_all-is_clean [] value = ground (arith, is_clean-nil value)
check_all-is_clean (c ∷ test) value =
    ground
      (arith, search_char-occurs value c, is_clean-cons c test value, check_all-is_clean test value)

-- A byte, with the given ones made spaces.
abbrev pub spaced : Bytes → ℕ → ℕ
spaced test c = if occurs c test then b' ' else c

map-same : (s : Bytes) → map (spaced []) s ≡ s
map-same [] = refl
map-same (c ∷ s) = ap (◌∷◌ c) (map-same s)

map-spaced :
    (c : ℕ) (test s : Bytes)
    → map (spaced test) (map (λ d. if d == c then b' ' else d) s) ≡ map (spaced (c ∷ test)) s
map-spaced c test [] = refl
map-spaced c test (d ∷ s) = ground (arith, map-spaced c test s)

replace_all-spaced :
    (fuel : ℕ) (test value : Bytes)
    → length value < fuel
    → replace_all fuel test value ≡ some (map (spaced test) value)
unfolding replace_all
replace_all-spaced fuel [] value lt = ap some (sym (map-same value))
replace_all-spaced fuel (c ∷ test) value lt =
    let value' = map (λ d. if d == c then b' ' else d) value in
    ground (
      arith,
      replace_char-map fuel c b' ' value lt,
      length-map value (λ d. if d == c then b' ' else d),
      replace_all-spaced fuel test value',
      map-spaced c test value,
    )

is_clean-spaced :
    (test value : Bytes) → occurs b' ' test ≡ false → is_clean test (map (spaced test) value) ≡ true
is_clean-spaced test [] h = refl
is_clean-spaced test (c ∷ value) h = ground (arith, is_clean-spaced test value h)

-- The replacement ends: with fuel for more rounds than the value has bytes, it gives the value with a
-- space for each tested character, a value of the same length, which the test that allows spaces accepts.
pub replace_sql_injection_not_space-clean :
    (fuel : ℕ) (value : Bytes)
    → length value < fuel
    → (value' : Bytes) × (replace_sql_injection_not_space fuel value ≡ some value')
      × (value' ≡ map (spaced test_chars_not_space) value)
      × (length value' ≡ length value)
      × (check_sql_injection_not_space value' ≡ true)
unfolding replace_sql_injection_not_space check_sql_injection_not_space
replace_sql_injection_not_space-clean fuel [] lt =
    ([], refl, refl, refl, check_all-is_clean test_chars_not_space [])
replace_sql_injection_not_space-clean fuel (c ∷ value) lt = (
  map (spaced test_chars_not_space) (c ∷ value),
  replace_all-spaced fuel test_chars_not_space (c ∷ value) lt,
  refl,
  length-map (c ∷ value) (spaced test_chars_not_space),
  check_all-is_clean test_chars_not_space (map (spaced test_chars_not_space) (c ∷ value))
      ∙ is_clean-spaced test_chars_not_space (c ∷ value) refl,
)

-- The four tests accept a value exactly when no byte of it is in their list of characters.
check_sql_injection-is_clean :
    (value : Bytes)
    → (check_sql_injection value ≡ is_clean test_chars value)
      × (check_sql_injection_not_slash value ≡ is_clean test_chars_not_slash value)
      × (check_sql_injection_not_space value ≡ is_clean test_chars_not_space value)
      × (check_sql_injection_not_minus value ≡ is_clean test_chars_not_minus value)
unfolding check_sql_injection check_sql_injection_not_slash check_sql_injection_not_space
    check_sql_injection_not_minus
check_sql_injection-is_clean value = (
  check_all-is_clean test_chars value,
  check_all-is_clean test_chars_not_slash value,
  check_all-is_clean test_chars_not_space value,
  check_all-is_clean test_chars_not_minus value,
)
