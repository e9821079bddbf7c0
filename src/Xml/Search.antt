-- ===== src/Xml/Search.antt =====
-- XmlParser/XmlSearch.cpp: the searches through all the elements below one. A pointer to an element is
-- the element that it points at, `none` the NULL pointer.
use dbmysqlpool.Base.{
  ℕ, zero, suc, Bool, true, false, List, [], ◌∷◌, Option, none, some, Bytes, ◌==◌, ℤ, pos, negsuc,
}
use dbmysqlpool.Number.{atoi}
use dbmysqlpool.StringMap.{same_key}
use dbmysqlpool.Xml.Select.{get_boolean, select_attribute, select_attribute_text}
use dbmysqlpool.Xml.Element.{Element, element, Elements, nil, cons, name_of, data_of}

-- What a search returns: the element and `iCount`.
abbrev pub Found : Type 0
Found = Option Element × ℕ

-- The next round of a loop, unless the element was found.
abbrev pub unless_found : Found → (ℕ → Found) → Found
unless_found (some e, count) later = (some e, count)
unless_found (none, count) later = later count

-- `SelectElement( pclsList, pszName, iIndex, iCount )`
unfoldable mutual
  pub select_in : Bytes → ℕ → Elements → ℕ → Found
  select_in name index nil count = (none, count)
  select_in name index (cons e es) count = elim (same_key name (name_of e)) [
    | true ↦ elim (count == index) [
      | true ↦ (some e, count)
      | false ↦ select_in name index es (suc count)
    ]
    | false ↦ unless_found (select_below name index e count) (λ n. select_in name index es n)
  ]

  -- The same in `itEL->GetElementList()`.
  pub select_below : Bytes → ℕ → Element → ℕ → Found
  select_below name index (element n text attributes children) count =
      select_in name index children count

-- `SelectElement( pclsList, pszName, pszChildName, iIndex, iCount )`
unfoldable mutual
  unfolding select_in

  pub select_child_in : Bytes → Bytes → ℕ → Elements → ℕ → Found
  select_child_in name child index nil count = (none, count)
  select_child_in name child index (cons e es) count = elim (same_key name (name_of e)) [
    | true ↦
        unless_found (select_below child index e count) (λ n. select_child_in name child index es n)
    | false ↦
        unless_found (select_child_below name child index e count)
          (λ n. select_child_in name child index es n)
  ]

  pub select_child_below : Bytes → Bytes → ℕ → Element → ℕ → Found
  select_child_below name child index (element n text attributes children) count =
      select_child_in name child index children count

-- `SelectElement( pclsList, clsNameList, iNameIndex, iIndex, iCount )`, with the name at `iNameIndex` and
-- those behind it.
unfoldable mutual
  pub select_path_in : Bytes → List Bytes → ℕ → Elements → ℕ → Found
  select_path_in name rest index nil count = (none, count)
  select_path_in name [] index (cons e es) count = elim (same_key name (name_of e)) [
    | true ↦ elim (count == index) [
      | true ↦ (some e, count)
      | false ↦ select_path_in name [] index es (suc count)
    ]
    | false ↦
        unless_found (select_path_below name [] index e count)
          (λ n. select_path_in name [] index es n)
  ]
  select_path_in name (next ∷ rest) index (cons e es) count = elim (same_key name (name_of e)) [
    | true ↦
        unless_found (select_path_below next rest index e count)
          (λ n. select_path_in name (next ∷ rest) index es n)
    | false ↦
        unless_found (select_path_below name (next ∷ rest) index e count)
          (λ n. select_path_in name (next ∷ rest) index es n)
  ]

  pub select_path_below : Bytes → List Bytes → ℕ → Element → ℕ → Found
  select_path_below name rest index (element n text attributes children) count =
      select_path_in name rest index children count

-- The public searches, for an index and, at the last, the names up to the first NULL.
unfoldable pub select_element : Bytes → ℤ → Elements → Option Element
unfolding select_in
select_element name (negsuc i) es = none
select_element name (pos i) es = (select_in name i es 0).0

unfoldable pub select_element_child : Bytes → Bytes → ℤ → Elements → Option Element
unfolding select_child_in
select_element_child name child (negsuc i) es = none
select_element_child name child (pos i) es = (select_child_in name child i es 0).0

-- `iNameCount` names are given; the outer `none` is a read of the name at 0 of no names.
unfoldable pub select_element_path : ℤ → ℤ → List Bytes → Elements → Option (Option Element)
unfolding select_path_in
select_element_path (negsuc i) name_count names es = some none
select_element_path (pos i) (negsuc n) names es = some none
select_element_path (pos i) (pos zero) names es = some none
select_element_path (pos i) (pos (suc n)) [] es = none
select_element_path (pos i) (pos (suc n)) (name ∷ rest) es =
    some ((select_path_in name rest i es 0).0)

-- What is read of the element that was found is written to an argument of the caller, which keeps its value
-- if none was.
abbrev pub stored {ℓ} : {A : Type ℓ} → A → (Bytes → A) → Option Element → Bool × A
stored old read none = (false, old)
stored old read (some e) = (true, read (data_of e))

-- `SelectElementData` with a name, for a text, an `int` and a `bool`.
abbrev pub search_data : Bytes → ℤ → Bytes → Elements → Bool × Bytes
search_data name index old es = stored old (λ t. t) (select_element name index es)

abbrev pub search_number : Bytes → ℤ → ℤ → Elements → Bool × ℤ
search_number name index old es = stored old atoi (select_element name index es)

abbrev pub search_bool : Bytes → ℤ → Bool → Elements → Bool × Bool
search_bool name index old es = stored old get_boolean (select_element name index es)

-- The same with a child's name.
abbrev pub search_child_data : Bytes → Bytes → ℤ → Bytes → Elements → Bool × Bytes
search_child_data name child index old es =
    stored old (λ t. t) (select_element_child name child index es)

abbrev pub search_child_int : Bytes → Bytes → ℤ → ℤ → Elements → Bool × ℤ
search_child_int name child index old es =
    stored old atoi (select_element_child name child index es)

abbrev pub search_child_bool : Bytes → Bytes → ℤ → Bool → Elements → Bool × Bool
search_child_bool name child index old es =
    stored old get_boolean (select_element_child name child index es)

-- The same with a list of names.
abbrev pub stored_path {ℓ} :
    {A : Type ℓ} → A → (Bytes → A) → Option (Option Element) → Option (Bool × A)
stored_path old read none = none
stored_path old read (some found) = some (stored old read found)

abbrev pub search_path_data : ℤ → ℤ → List Bytes → Bytes → Elements → Option (Bool × Bytes)
search_path_data index name_count names old es =
    stored_path old (λ t. t) (select_element_path index name_count names es)

abbrev pub search_path_int : ℤ → ℤ → List Bytes → ℤ → Elements → Option (Bool × ℤ)
search_path_int index name_count names old es =
    stored_path old atoi (select_element_path index name_count names es)

abbrev pub search_path_bool : ℤ → ℤ → List Bytes → Bool → Elements → Option (Bool × Bool)
search_path_bool index name_count names old es =
    stored_path old get_boolean (select_element_path index name_count names es)

-- `SelectAttribute( pszName, pszAttrName, iIndex )`, and the same for a text.
abbrev pub search_attribute : Bytes → Bytes → ℤ → Elements → Option Bytes
search_attribute name attribute index es = elim (select_element name index es) [
  | none ↦ none
  | some e ↦ select_attribute attribute e
]

abbrev pub search_attribute_text : Bytes → Bytes → ℤ → Bytes → Elements → Bool × Bytes
search_attribute_text name attribute index old es = elim (select_element name index es) [
  | none ↦ (false, old)
  | some e ↦ select_attribute_text attribute e
]
