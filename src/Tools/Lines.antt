-- ===== src/Tools/Lines.antt =====
-- MySQLLogExecute/MySQLLogExecute.cpp: the lines of a file.
use dbmysqlpool.Base.{
  ℕ, zero, suc, ◌-◌, ◌≤◌, ◌<◌, Bool, true, not, ◌&&◌, [], ◌∷◌, ◌++◌, Bytes, ◌==◌, leb, length,
  length-append, take, drop, get_or, ◌≡◌, refl, arith, ap,
}
use dbmysqlpool.Text.Find.{starts_with}
use dbmysqlpool.Tools.LogFile.{fgets_loop, chomp}

-- A line without its line feed: no other one is in it, and no carriage return is at its end.
abbrev pub has_no_feed : Bytes → Bool
has_no_feed [] = true
has_no_feed (c ∷ s) = not (c == 10) && has_no_feed s

abbrev pub is_line : Bytes → Bool
is_line s = has_no_feed s && not (get_or s (length s - 1) 0 == 13) && leb (length s) 8190

pub fgets_loop-line :
    (line rest : Bytes) (room left : ℕ)
    → has_no_feed line ≡ true
    → length line < left
    → fgets_loop room left (line ++ 10 ∷ rest) ≡ (line ++ 10 ∷ []) ∷ fgets_loop room room rest
fgets_loop-line [] rest room left h lt = refl
fgets_loop-line (c ∷ line) rest room left h lt =
    ground (arith, fgets_loop-line line rest room (left - 1))

pub get_or-append : (xs ys : Bytes) (i : ℕ) → i < length xs → get_or (xs ++ ys) i 0 ≡ get_or xs i 0
get_or-append [] ys i lt = absurd (omega arith)
get_or-append (x ∷ xs) ys zero lt = refl
get_or-append (x ∷ xs) ys (suc i) lt = get_or-append xs ys i (omega arith)

pub get_or-length : (xs : Bytes) (y : ℕ) (ys : Bytes) → get_or (xs ++ y ∷ ys) (length xs) 0 ≡ y
get_or-length [] y ys = refl
get_or-length (x ∷ xs) y ys = get_or-length xs y ys

pub take-length : (xs ys : Bytes) → take (length xs) (xs ++ ys) ≡ xs
take-length [] ys = refl
take-length (x ∷ xs) ys = ap (◌∷◌ x) (take-length xs ys)

pub chomp-line : (line : Bytes) → is_line line ≡ true → chomp (line ++ 10 ∷ []) ≡ line
unfolding chomp
chomp-line [] h = refl
chomp-line (c ∷ s) h = ground (
  arith,
  length-append (c ∷ s) (10 ∷ []),
  get_or-append (c ∷ s) (10 ∷ []) (length s) (omega arith),
  get_or-length (c ∷ s) 10 [],
  take-length (c ∷ s) (10 ∷ []),
)

pub drop_at : (n : ℕ) (h x : Bytes) → length h ≡ n → drop n (h ++ x) ≡ x
drop_at zero [] x e = refl
drop_at zero (c ∷ h) x e = absurd (omega arith)
drop_at (suc n) [] x e = absurd (omega arith)
drop_at (suc n) (c ∷ h) x e = drop_at n h x (omega arith)

pub drop_within : (n : ℕ) (h x : Bytes) → n ≤ length h → drop n (h ++ x) ≡ drop n h ++ x
drop_within zero h x le = refl
drop_within (suc n) [] x le = absurd (omega arith)
drop_within (suc n) (c ∷ h) x le = drop_within n h x (omega arith)

pub starts_with-append :
    (p s x : Bytes) → length p ≤ length s → starts_with p (s ++ x) ≡ starts_with p s
starts_with-append [] s x le = refl
starts_with-append (c ∷ p) [] x le = absurd (omega arith)
starts_with-append (c ∷ p) (d ∷ s) x le = ground (arith, starts_with-append p s x (omega arith))
