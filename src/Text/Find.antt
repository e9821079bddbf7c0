-- ===== src/Text/Find.antt =====
-- `std::string::find`, and SipPlatform/StringUtility.cpp's `SearchString` and `SearchValue`.
use dbmysqlpool.Base.{
  ℕ, suc, ◌+◌, Bool, true, false, [], ◌∷◌, Option, none, some, Bytes, ◌≡◌, refl, arith,
  if◌then◌else◌, length, take, drop, is_empty, ◌==◌, leb, codes, ◌&&◌, ℤ,
}
use mathlib.Core.Option
use dbmysqlpool.Number.{atoi}

abbrev pub starts_with : Bytes → Bytes → Bool
starts_with [] s = true
starts_with (p ∷ ps) [] = false
starts_with (p ∷ ps) (c ∷ s) = (p == c) && starts_with ps s

-- The first place at which the text goes on with `pat`.
unfoldable pub find : Bytes → Bytes → Option ℕ
find pat [] = if is_empty pat then some 0 else none
find pat (c ∷ s) = if starts_with pat (c ∷ s) then some 0 else Option.map suc (find pat s)

-- `find( pat, pos )`
unfoldable pub find_from : Bytes → Bytes → ℕ → Option ℕ
find_from pat s pos =
    if leb pos (length s) then Option.map (λ k. pos + k) (find pat (drop pos s)) else none

-- `find( c )`
unfoldable pub find_char : ℕ → Bytes → Option ℕ
find_char c [] = none
find_char c (d ∷ s) = if d == c then some 0 else Option.map suc (find_char c s)

abbrev pub is_found : Option ℕ → Bool
is_found none = false
is_found (some k) = true

-- `SearchString( strText, pszValue )` and `SearchString( strText, cValue )`.
unfoldable pub search_string : Bytes → Bytes → Bool
search_string text value = is_found (find value text)

unfoldable pub search_char : Bytes → ℕ → Bool
search_char text c = is_found (find_char c text)

-- `SearchValue( strText, pszKey, cSep, strValue )`: the text behind the key, up to the separator.
unfoldable pub search_value : Bytes → Bytes → ℕ → Bool × Bytes
search_value text key sep = elim (find key text) [
  | none ↦ (false, [])
  | some pos ↦
      let rest = drop (pos + length key) text in
      elim (find_char sep rest) [ none ↦ (true, rest) | some k ↦ (true, take k rest) ]
]

-- `SearchValue( strText, pszKey, cSep, iValue )`; the last argument is what `iValue` holds before.
unfoldable pub search_int : Bytes → Bytes → ℕ → ℤ → Bool × ℤ
search_int text key sep old =
    let r = search_value text key sep in if r.0 then (true, atoi r.1) else (false, old)

-- Whether a byte occurs.
abbrev pub occurs : ℕ → Bytes → Bool
occurs c [] = false
occurs c (d ∷ s) = if d == c then true else occurs c s

pub search_char-occurs : (s : Bytes) (c : ℕ) → search_char s c ≡ occurs c s
unfolding search_char find_char
search_char-occurs [] c = refl
search_char-occurs (d ∷ s) c = ground (arith, search_char-occurs s c)

documented_value :
    search_value
      (codes "app=36;msg=36;hotline=46;presence=36; broadcast=46")
      (codes "hotline=")
      b';'
    ≡ (true, codes "46")
unfolding search_value find find_char
documented_value = refl
