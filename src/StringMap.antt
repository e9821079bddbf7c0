-- ===== src/StringMap.antt =====
-- SipPlatform/StringMap.cpp: a map from texts to texts under a mutex, as the sections under it. `none`
-- is a NULL pointer.
use dbmysqlpool.Base.{
  ℕ, ◌+◌, Bool, true, false, not, List, [], ◌∷◌, Option, none, some, Bytes, ◌≡◌, refl, arith,
  if◌then◌else◌, ◌==◌, ◌&&◌, length, Option-cases, inl, inr,
}

-- `m_clsMap`, as an association list.
abbrev pub StringMap : Type 0
StringMap = List (Bytes × Bytes)

abbrev pub same_key : Bytes → Bytes → Bool
same_key [] [] = true
same_key [] (c ∷ s) = false
same_key (c ∷ s) [] = false
same_key (c ∷ s) (d ∷ t) = (c == d) && same_key s t

abbrev pub find_key : Bytes → StringMap → Option Bytes
find_key key [] = none
find_key key ((k, v) ∷ m) = if same_key k key then some v else find_key key m

abbrev pub erase_key : Bytes → StringMap → StringMap
erase_key key [] = []
erase_key key ((k, v) ∷ m) = if same_key k key then m else (k, v) ∷ erase_key key m

abbrev pub value_or_empty : Option Bytes → Bytes
value_or_empty none = []
value_or_empty (some v) = v

-- `Insert( pszKey, pszValue )`
unfoldable pub map_put : Option Bytes → Option Bytes → StringMap → Bool × StringMap
map_put none value m = (false, m)
map_put (some key) value m = elim (find_key key m) [
  | none ↦ (true, (key, value_or_empty value) ∷ m)
  | some v ↦ (false, m)
]

-- `Select( pszKey )` and `Select( pszKey, strValue )`.
unfoldable pub map_has : Option Bytes → StringMap → Bool
map_has none m = false
map_has (some key) m = elim (find_key key m) [ none ↦ false | some v ↦ true ]

unfoldable pub map_get : Option Bytes → StringMap → Bool × Bytes
map_get none m = (false, [])
map_get (some key) m = elim (find_key key m) [ none ↦ (false, []) | some v ↦ (true, v) ]

-- `Delete( pszKey )`
unfoldable pub map_delete : Option Bytes → StringMap → Bool × StringMap
map_delete none m = (false, m)
map_delete (some key) m = elim (find_key key m) [
  | none ↦ (false, m)
  | some v ↦ (true, erase_key key m)
]

unfoldable pub map_count : StringMap → ℕ
map_count m = length m

unfoldable pub map_delete_all : StringMap → StringMap
map_delete_all m = []

pub same_key_refl : (s : Bytes) → same_key s s ≡ true
same_key_refl [] = refl
same_key_refl (c ∷ s) = ground (arith, same_key_refl s)

pub same_key-≡ : (s t : Bytes) → same_key s t ≡ true → s ≡ t
same_key-≡ [] [] h = refl
same_key-≡ [] (d ∷ t) h = cc
same_key-≡ (c ∷ s) [] h = cc
same_key-≡ (c ∷ s) (d ∷ t) h = ground (arith, same_key-≡ s t)

-- No key is in the map twice.
abbrev pub HasKeysOnce : StringMap → Type 0
HasKeysOnce [] = Unit
HasKeysOnce ((k, v) ∷ m) = (find_key k m ≡ none) × HasKeysOnce m

find_key-erase_key :
    (key other : Bytes) (m : StringMap)
    → HasKeysOnce m
    → find_key other (erase_key key m) ≡ (if same_key key other then none else find_key other m)
find_key-erase_key key other [] h = ground arith
find_key-erase_key key other ((k, v) ∷ m) h = ground (
  arith,
  find_key-erase_key key other m h.1,
  same_key-≡ k key,
  same_key-≡ key other,
  same_key-≡ k other,
  same_key_refl k,
  same_key_refl key,
  h.0,
)

erase_key-HasKeysOnce :
    (key : Bytes) (m : StringMap) → HasKeysOnce m → HasKeysOnce (erase_key key m)
erase_key-HasKeysOnce key [] h = tt
erase_key-HasKeysOnce key ((k, v) ∷ m) h =
    ground (arith, erase_key-HasKeysOnce key m h.1, find_key-erase_key key k m h.1, h.0, h.1)

-- `Insert` with a key succeeds exactly when the key was absent; the key is then in the map with the
-- value, the empty text for NULL, and any other key keeps what it had. A key that was there keeps its
-- value.
map_put_lem :
    (key other : Bytes) (value : Option Bytes) (m : StringMap)
    → let r = map_put (some key) value m in
      (r.0 ≡ not (map_has (some key) m))
      × (map_get (some other) r.1 ≡ (
          if r.0 && same_key key other
          then (true, value_or_empty value)
          else map_get (some other) m))
      × (map_count r.1 ≡ (if r.0 then 1 else 0) + map_count m)
unfolding map_put map_has map_get map_count
map_put_lem key other value m = ground (arith, same_key-≡ key other)

-- `Delete` with a key succeeds exactly when the key was there; the key is then absent, and any other
-- key keeps what it had, if no key was in the map twice.
map_delete_lem :
    (key other : Bytes) (m : StringMap)
    → HasKeysOnce m
    → let r = map_delete (some key) m in
      (r.0 ≡ map_has (some key) m)
      × (map_get (some other) r.1
          ≡ (if same_key key other then (false, []) else map_get (some other) m))
      × HasKeysOnce r.1
unfolding map_delete map_has map_get
map_delete_lem key other m h =
    ground
      (arith, same_key-≡ key other, find_key-erase_key key other m h, erase_key-HasKeysOnce key m h)

-- `Insert` keeps the keys of the map apart.
pub map_put-HasKeysOnce :
    (key value : Option Bytes) (m : StringMap) → HasKeysOnce m → HasKeysOnce (map_put key value m).1
unfolding map_put
map_put-HasKeysOnce none value m h = h
map_put-HasKeysOnce (some key) value m h = elim (Option-cases (find_key key m)) [
  | inl e ↦ rw (e, map_put) (e, h)
  | inr (v, e) ↦ rw (e, map_put) h
]
