-- ===== src/Xml/Matches.antt =====
-- XmlParser/XmlSearch.cpp: which elements the searches find.
use dbmysqlpool.Base.{
  ℕ, zero, suc, ◌+◌, true, false, List, [], ◌∷◌, ◌++◌, Option, none, some, Bytes, ◌==◌, ◌≡◌, refl,
  arith, ap, get_elem?, if◌then◌else◌, ℤ, pos, negsuc,
}
use dbmysqlpool.StringMap.{same_key}
use dbmysqlpool.Xml.Element.{Element, element, Elements, nil, cons, name_of}
use dbmysqlpool.Xml.Search.{
  Found, unless_found, select_in, select_below, select_child_in, select_child_below, select_path_in,
  select_path_below, select_element, select_element_child, select_element_path,
}

-- The elements that a path of names leads to, in the order of the document; nothing is looked for below
-- an element that the last name fits.
abbrev mutual
  pub matches : Bytes → List Bytes → Elements → List Element
  matches name rest nil = []
  matches name [] (cons e es) =
      (if same_key name (name_of e) then e ∷ [] else matches_below name [] e) ++ matches name [] es
  matches name (next ∷ rest) (cons e es) =
      (if same_key name (name_of e)
        then matches_below next rest e
        else matches_below name (next ∷ rest) e)
      ++ matches name (next ∷ rest) es

  pub matches_below : Bytes → List Bytes → Element → List Element
  matches_below name rest (element n text attributes children) = matches name rest children

-- A search through a list of elements that are all of the searched kind.
abbrev pub counted : List Element → ℕ → ℕ → Found
counted [] index count = (none, count)
counted (e ∷ es) index count = elim (count == index) [
  | true ↦ (some e, count)
  | false ↦ counted es index (suc count)
]

counted-append :
    (xs ys : List Element) (index count : ℕ)
    → counted (xs ++ ys) index count
      ≡ unless_found (counted xs index count) (λ n. counted ys index n)
counted-append [] ys index count = refl
counted-append (x ∷ xs) ys index count = ground (arith, counted-append xs ys index (suc count))

counted-get_elem? :
    (xs : List Element) (k count : ℕ) → (counted xs (count + k) count).0 ≡ get_elem? xs k
counted-get_elem? [] k count = refl
counted-get_elem? (x ∷ xs) zero count = ground arith
counted-get_elem? (x ∷ xs) (suc k) count = ground (
  arith,
  counted-get_elem? xs k (suc count),
  ap (λ (n : ℕ). (counted xs n (suc count)).0) {x = suc count + k} {y = count + suc k}
      (omega arith),
)

mutual
  unfolding select_path_in

  select_path_in-counted :
      (name : Bytes) (rest : List Bytes) (index : ℕ) (es : Elements) (count : ℕ)
      → select_path_in name rest index es count ≡ counted (matches name rest es) index count
  select_path_in-counted name rest index nil count = refl
  select_path_in-counted name [] index (cons e es) count = ground (
    arith,
    select_path_in-counted name [] index es (suc count),
    counted-append (matches_below name [] e) (matches name [] es) index count,
    select_path_below-counted name [] index e count,
    select_path_in-counted name [] index es (counted (matches_below name [] e) index count).1,
  )
  select_path_in-counted name (next ∷ rest) index (cons e es) count = ground (
    arith,
    counted-append (matches_below next rest e) (matches name (next ∷ rest) es) index count,
    counted-append (matches_below name (next ∷ rest) e) (matches name (next ∷ rest) es) index count,
    select_path_below-counted next rest index e count,
    select_path_below-counted name (next ∷ rest) index e count,
    select_path_in-counted name (next ∷ rest) index es
        (counted (matches_below next rest e) index count).1,
    select_path_in-counted name (next ∷ rest) index es
        (counted (matches_below name (next ∷ rest) e) index count).1,
  )

  select_path_below-counted :
      (name : Bytes) (rest : List Bytes) (index : ℕ) (e : Element) (count : ℕ)
      → select_path_below name rest index e count ≡ counted (matches_below name rest e) index count
  select_path_below-counted name rest index (element n text attributes children) count =
      select_path_in-counted name rest index children count

mutual
  unfolding select_in

  select_in-counted :
      (name : Bytes) (index : ℕ) (es : Elements) (count : ℕ)
      → select_in name index es count ≡ counted (matches name [] es) index count
  select_in-counted name index nil count = refl
  select_in-counted name index (cons e es) count = ground (
    arith,
    select_in-counted name index es (suc count),
    counted-append (matches_below name [] e) (matches name [] es) index count,
    select_below-counted name index e count,
    select_in-counted name index es (counted (matches_below name [] e) index count).1,
  )

  select_below-counted :
      (name : Bytes) (index : ℕ) (e : Element) (count : ℕ)
      → select_below name index e count ≡ counted (matches_below name [] e) index count
  select_below-counted name index (element n text attributes children) count =
      select_in-counted name index children count

mutual
  unfolding select_child_in

  select_child_in-counted :
      (name child : Bytes) (index : ℕ) (es : Elements) (count : ℕ)
      → select_child_in name child index es count
        ≡ counted (matches name (child ∷ []) es) index count
  select_child_in-counted name child index nil count = refl
  select_child_in-counted name child index (cons e es) count = ground (
    arith,
    counted-append (matches_below child [] e) (matches name (child ∷ []) es) index count,
    counted-append (matches_below name (child ∷ []) e) (matches name (child ∷ []) es) index count,
    select_below-counted child index e count,
    select_child_below-counted name child index e count,
    select_child_in-counted name child index es (counted (matches_below child [] e) index count).1,
    select_child_in-counted name child index es
        (counted (matches_below name (child ∷ []) e) index count).1,
  )

  select_child_below-counted :
      (name child : Bytes) (index : ℕ) (e : Element) (count : ℕ)
      → select_child_below name child index e count
        ≡ counted (matches_below name (child ∷ []) e) index count
  select_child_below-counted name child index (element n text attributes children) count =
      select_child_in-counted name child index children count

-- The entry at an index, none at a negative one.
abbrev pub entry_at : ℤ → List Element → Option Element
entry_at (pos i) es = get_elem? es i
entry_at (negsuc i) es = none

-- The search by a name, by a name and a child's name and by a list of names finds the element at the
-- index among those that the names lead to in the order of the document, or none: the first two are the
-- third with one and two names.
pub select_element-matches :
    (name child : Bytes) (rest : List Bytes) (index : ℤ) (n : ℕ) (es : Elements)
    → (select_element name index es ≡ entry_at index (matches name [] es))
      × (select_element_child name child index es ≡ entry_at index (matches name (child ∷ []) es))
      × (select_element_path index (pos (suc n)) (name ∷ rest) es
          ≡ some (entry_at index (matches name rest es)))
unfolding select_element select_element_child select_element_path
select_element-matches name child rest (negsuc i) n es = (refl, refl, refl)
select_element-matches name child rest (pos i) n es = ground (
  arith,
  select_in-counted name i es 0,
  select_child_in-counted name child i es 0,
  select_path_in-counted name rest i es 0,
  counted-get_elem? (matches name [] es) i 0,
  counted-get_elem? (matches name (child ∷ []) es) i 0,
  counted-get_elem? (matches name rest es) i 0,
)
