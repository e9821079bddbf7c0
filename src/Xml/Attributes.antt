-- ===== src/Xml/Attributes.antt =====
-- The attribute map of XmlParser/XmlElement.h, a `std::map` from texts to texts: the list of its
-- entries in the order of the keys.
use dbmysqlpool.Base.{
  Bool, true, false, [], ◌∷◌, ◌++◌, none, some, Bytes, ◌≡◌, refl, arith, ltb, ◌==◌, ◌&&◌, ◌||◌,
  if◌then◌else◌,
}
use dbmysqlpool.StringMap.{StringMap, same_key, find_key}

-- `std::string::operator<`
abbrev pub is_less : Bytes → Bytes → Bool
is_less s [] = false
is_less [] (d ∷ t) = true
is_less (c ∷ s) (d ∷ t) = ltb c d || ((c == d) && is_less s t)

-- `insert`, which keeps an entry that is there.
abbrev pub insert_entry : Bytes → Bytes → StringMap → StringMap
insert_entry key value [] = (key, value) ∷ []
insert_entry key value ((k, v) ∷ m) =
    if same_key k key
    then (k, v) ∷ m
    else if is_less key k
    then (key, value) ∷ (k, v) ∷ m
    else (k, v) ∷ insert_entry key value m

-- `itMap->second = pszValue`
abbrev pub assign_entry : Bytes → Bytes → StringMap → StringMap
assign_entry key value [] = []
assign_entry key value ((k, v) ∷ m) =
    if same_key k key then (k, value) ∷ m else (k, v) ∷ assign_entry key value m

-- The keys are in order, each once.
abbrev pub is_before_all : Bytes → StringMap → Bool
is_before_all key [] = true
is_before_all key ((k, v) ∷ m) = is_less key k && is_before_all key m

abbrev pub is_sorted : StringMap → Bool
is_sorted [] = true
is_sorted ((k, v) ∷ m) = is_before_all k m && is_sorted m

is_before_all-entry :
    (k : Bytes) (m : StringMap) (key value : Bytes) (n : StringMap)
    → is_before_all k (m ++ (key, value) ∷ n) ≡ true
    → is_less k key ≡ true
is_before_all-entry k [] key value n h = ground arith
is_before_all-entry k ((l, w) ∷ m) key value n h =
    ground (arith, is_before_all-entry k m key value n)

pub is_less-same_key : (s t : Bytes) → is_less s t ≡ true → same_key s t ≡ false
is_less-same_key [] [] h = cc
is_less-same_key [] (d ∷ t) h = refl
is_less-same_key (c ∷ s) [] h = cc
is_less-same_key (c ∷ s) (d ∷ t) h = ground (arith, is_less-same_key s t)

pub is_less_asymm : (s t : Bytes) → is_less s t ≡ true → is_less t s ≡ false
is_less_asymm [] [] h = cc
is_less_asymm [] (d ∷ t) h = refl
is_less_asymm (c ∷ s) [] h = cc
is_less_asymm (c ∷ s) (d ∷ t) h = ground (arith, is_less_asymm s t)

-- An entry whose key is behind those that are there goes to the end.
pub insert_entry-last :
    (key value : Bytes) (m n : StringMap)
    → is_sorted (m ++ (key, value) ∷ n) ≡ true
    → insert_entry key value m ≡ m ++ (key, value) ∷ []
insert_entry-last key value [] n h = refl
insert_entry-last key value ((k, v) ∷ m) n h = ground (
  arith,
  is_before_all-entry k m key value n,
  is_less-same_key k key,
  is_less_asymm k key,
  insert_entry-last key value m n,
)

-- `InsertAttribute( pszName, pszValue )`
abbrev pub put_entry : Bytes → Bytes → StringMap → StringMap
put_entry name value m = elim (find_key name m) [
  | none ↦ insert_entry name value m
  | some old ↦ assign_entry name value m
]
