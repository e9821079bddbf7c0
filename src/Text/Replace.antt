-- ===== src/Text/Replace.antt =====
-- SipPlatform/StringUtility.cpp: `ReplaceString`.
use dbmysqlpool.Base.{
  ℕ, zero, suc, ◌+◌, ◌-◌, ◌≤◌, ◌<◌, true, List, [], ◌∷◌, ◌++◌, Option, none, some, Bytes, ◌≡◌, refl,
  sym, ap, ◌∙◌, arith, if◌then◌else◌, length, length-append, take, drop, ◌==◌, append_assoc, map,
  Option-cases, inl, inr,
}
use mathlib.Core.Option
use dbmysqlpool.Text.Find.{starts_with, find, find_from}

-- `strCallId.replace( pos, n, after )`
abbrev pub replace_at : ℕ → ℕ → Bytes → Bytes → Bytes
replace_at pos n after s = take pos s ++ (after ++ drop (pos + n) s)

-- The loop of `ReplaceString` at `iPos`; `none` means that the fuel ran out.
unfoldable pub replace_loop : ℕ → Bytes → Bytes → Option ℕ → Bytes → Option Bytes
replace_loop zero before after at s = none
replace_loop (suc fuel) before after none s = some s
replace_loop (suc fuel) before after (some pos) s =
    let s' = replace_at pos (length before) after s in
    replace_loop fuel before after (find_from before s' (pos + length after)) s'

unfoldable pub replace_string : ℕ → Bytes → Bytes → Bytes → Option Bytes
unfolding replace_loop
replace_string fuel before after s = replace_loop fuel before after (find before s) s

-- `ReplaceString( strCallId, cBefore, cAfter )`
unfoldable pub replace_char : ℕ → ℕ → ℕ → Bytes → Option Bytes
replace_char fuel before after s = replace_string fuel (before ∷ []) (after ∷ []) s

-- What it should give, from left to right, where the first number of bytes are still to be passed over.
unfoldable pub replaced : Bytes → Bytes → ℕ → Bytes → Bytes
replaced before after skip [] = []
replaced before after (suc k) (c ∷ s) = replaced before after k s
replaced before after zero (c ∷ s) =
    let hit = after ++ replaced before after (length before - 1) s in
    let miss = c ∷ replaced before after 0 s in if starts_with before (c ∷ s) then hit else miss

starts_with-length : (pat s : Bytes) → starts_with pat s ≡ true → length pat ≤ length s
starts_with-length [] s e = omega arith
starts_with-length (p ∷ ps) [] e = cc
starts_with-length (p ∷ ps) (c ∷ s) e = ground (arith, starts_with-length ps s)

module _ {ℓ} {A : Type ℓ} where
  take-prefix : (k : ℕ) (xs ys : List A) → take (length xs + k) (xs ++ ys) ≡ xs ++ take k ys
  take-prefix k [] ys = ap (λ (n : ℕ). take n ys) (omega arith)
  take-prefix k (x ∷ xs) ys =
      ap (λ (n : ℕ). take n (x ∷ xs ++ ys)) {x = suc (length xs) + k} {y = suc (length xs + k)}
        (omega arith)
      ∙ ap (◌∷◌ x) (take-prefix k xs ys)

  drop-prefix : (k : ℕ) (xs ys : List A) → drop (length xs + k) (xs ++ ys) ≡ drop k ys
  drop-prefix k [] ys = ap (λ (n : ℕ). drop n ys) (omega arith)
  drop-prefix k (x ∷ xs) ys =
      ap (λ (n : ℕ). drop n (x ∷ xs ++ ys)) {x = suc (length xs) + k} {y = suc (length xs + k)}
        (omega arith)
      ∙ drop-prefix k xs ys

  length-take_le : (k : ℕ) (xs : List A) → k ≤ length xs → length (take k xs) ≡ k
  length-take_le zero xs h = refl
  length-take_le (suc k) [] h = absurd (omega arith)
  length-take_le (suc k) (x ∷ xs) h = ap suc (length-take_le k xs (omega arith))

  length-drop_le : (k : ℕ) (xs : List A) → k ≤ length xs → length (drop k xs) + k ≡ length xs
  length-drop_le zero xs h = omega arith
  length-drop_le (suc k) [] h = absurd (omega arith)
  length-drop_le (suc k) (x ∷ xs) h = omega (arith, length-drop_le k xs (omega arith))

find_from_behind :
    (pat xs ys : Bytes) (n : ℕ)
    → n ≡ length xs
    → find_from pat (xs ++ ys) n ≡ Option.map (λ k. length xs + k) (find pat ys)
unfolding find_from
find_from_behind pat xs ys n e = ground (
  arith,
  length-append xs ys,
  drop-prefix 0 xs ys,
  ap (λ (m : ℕ). drop m (xs ++ ys)) {x = n} {y = length xs + 0} (omega arith),
)

-- A replacement in the part that is not yet done.
replace_at_behind :
    (k n : ℕ) (after xs ys : Bytes)
    → replace_at (length xs + k) n after (xs ++ ys)
      ≡ (xs ++ (take k ys ++ after)) ++ drop (k + n) ys
replace_at_behind k n after xs ys = ground (
  arith,
  take-prefix k xs ys,
  drop-prefix (k + n) xs ys,
  ap (λ (m : ℕ). drop m (xs ++ ys)) {x = length xs + k + n} {y = length xs + (k + n)} (omega arith),
  append_assoc xs (take k ys ++ after) (drop (k + n) ys),
  append_assoc (take k ys) after (drop (k + n) ys),
  append_assoc xs (take k ys) (after ++ drop (k + n) ys),
)

find_empty : (s : Bytes) → find [] s ≡ some 0
unfolding find
find_empty [] = refl
find_empty (c ∷ s) = refl

map_zero : (o : Option ℕ) → Option.map (λ (k : ℕ). 0 + k) o ≡ o
map_zero none = refl
map_zero (some k) = ap some (omega arith)

replaced-map :
    (b a : ℕ) (s : Bytes) → replaced (b ∷ []) (a ∷ []) 0 s ≡ map (λ c. if c == b then a else c) s
unfolding replaced
replaced-map b a [] = refl
replaced-map b a (c ∷ s) = ground (arith, replaced-map b a s)

-- A pattern that is not empty.
module _ (b : ℕ) (bs after : Bytes) where
  abbrev before : Bytes
  before = b ∷ bs

  replaced_absent : (s : Bytes) → find before s ≡ none → replaced before after 0 s ≡ s
  unfolding replaced find
  replaced_absent [] e = refl
  replaced_absent (c ∷ s) e = ground (arith, replaced_absent s)

  replaced_skip :
      (k : ℕ) (s : Bytes) → replaced before after k s ≡ replaced before after 0 (drop k s)
  unfolding replaced
  replaced_skip zero s = refl
  replaced_skip (suc k) [] = refl
  replaced_skip (suc k) (c ∷ s) = replaced_skip k s

  -- The first match splits the text.
  replaced_found :
      (s : Bytes) (k : ℕ)
      → find before s ≡ some k
      → (suc (k + length bs) ≤ length s)
        × (replaced before after 0 s
            ≡ take k s ++ (after ++ replaced before after 0 (drop (suc (k + length bs)) s)))
  unfolding replaced find
  replaced_found [] k e = cc
  replaced_found (c ∷ s) zero e =
      ground (arith, starts_with-length bs s, replaced_skip (length bs) s)
  replaced_found (c ∷ s) (suc k) e = ground (arith, replaced_found s k)

  -- The loop with a part done.
  replace_loop-replaced :
      (fuel : ℕ) (done rest : Bytes)
      → length rest < fuel
      → replace_loop fuel before after
          (Option.map (λ k. length done + k) (find before rest))
          (done ++ rest)
        ≡ some (done ++ replaced before after 0 rest)
  unfolding replace_loop
  replace_loop-replaced zero done rest lt = absurd (omega arith)
  replace_loop-replaced (suc fuel) done rest lt = elim (Option-cases (find before rest)) [
    | inl e ↦ rw e (ap (λ r. some (done ++ r)) (sym (replaced_absent rest e)))
    | inr (k, e) ↦
        let done' = done ++ (take k rest ++ after) in
        let rest' = drop (k + suc (length bs)) rest in
        let (fits, split) = replaced_found rest k e in
        rw e (
          ground (
            arith,
            replace_at_behind k (suc (length bs)) after done rest,
            find_from_behind before done' rest' (length done + k + length after),
            replace_loop-replaced fuel done' rest',
            split,
            length-append done (take k rest ++ after),
            length-append (take k rest) after,
            length-take_le k rest (omega (arith, fits)),
            length-drop_le (k + suc (length bs)) rest (omega (arith, fits)),
            append_assoc done (take k rest ++ after) (replaced before after 0 rest'),
            append_assoc (take k rest) after (replaced before after 0 rest'),
            ap (λ (n : ℕ). drop n rest) {x = suc (k + length bs)} {y = k + suc (length bs)}
                (omega arith),
          ))
  ]

  -- With a pattern that is not empty `ReplaceString` ends: with fuel for more rounds than the text has
  -- bytes it gives the text with the matches replaced from left to right, where what a replacement puts
  -- in is not searched again.
  pub replace_string-replaced :
      (fuel : ℕ) (s : Bytes)
      → length s < fuel
      → replace_string fuel before after s ≡ some (replaced before after 0 s)
  unfolding replace_string
  replace_string-replaced fuel s lt =
      ground (arith, replace_loop-replaced fuel [] s lt, map_zero (find before s))

-- With an empty pattern the loop never ends from a place in the text: each round puts the replacement
-- in and moves on by its length.
replace_loop-endless :
    (fuel pos : ℕ) (after s : Bytes)
    → pos ≤ length s
    → replace_loop fuel [] after (some pos) s ≡ none
unfolding replace_loop find_from find
replace_loop-endless zero pos after s h = refl
replace_loop-endless (suc fuel) pos after s h = ground (
  arith,
  length-append (take pos s) (after ++ drop (pos + 0) s),
  length-append after (drop (pos + 0) s),
  length-take_le pos s h,
  length-drop_le (pos + 0) s (omega arith),
  find_empty (drop (pos + length after) (replace_at pos 0 after s)),
  replace_loop-endless fuel (pos + length after + 0) after (replace_at pos 0 after s),
)

-- With one byte each occurrence becomes the other byte.
pub replace_char-map :
    (fuel b a : ℕ) (s : Bytes)
    → length s < fuel
    → replace_char fuel b a s ≡ some (map (λ c. if c == b then a else c) s)
unfolding replace_char
replace_char-map fuel b a s lt =
    replace_string-replaced b [] (a ∷ []) fuel s lt ∙ ap some (replaced-map b a s)
