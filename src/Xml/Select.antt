-- ===== src/Xml/Select.antt =====
-- XmlParser/XmlElement.cpp: what is read from an element, its attributes and its children. A pointer to a
-- child is its place in `m_clsElementList`, and an operation that trims a stored text gives the element
-- back as it is then.
use dbmysqlpool.Base.{
  ℕ, zero, suc, Bool, true, false, List, [], ◌∷◌, Option, none, some, Bytes, codes, ◌==◌, ◌||◌, ℤ,
  pos, negsuc, not, is_empty, if◌then◌else◌,
}
use dbmysqlpool.Number.{atoi, atoll}
use dbmysqlpool.StringMap.{StringMap, same_key, find_key}
use dbmysqlpool.Text.Case.{same_ignoring_case}
use dbmysqlpool.Text.Trim.{trim_string}
use dbmysqlpool.Xml.Attributes.{assign_entry}
use dbmysqlpool.Xml.Element.{
  Element, element, Elements, nil, cons, name_of, data_of, attributes_of, children_of,
}

-- The child at a place, and the children with another one there.
abbrev pub child_at : ℕ → Elements → Option Element
child_at place nil = none
child_at zero (cons e es) = some e
child_at (suc place) (cons e es) = child_at place es

abbrev pub set_child : ℕ → Element → Elements → Elements
set_child place e nil = nil
set_child zero e (cons x xs) = cons e xs
set_child (suc place) e (cons x xs) = cons x (set_child place e xs)

abbrev pub with_children : Elements → Element → Element
with_children es (element name text attributes children) = element name text attributes es

abbrev pub with_attributes : StringMap → Element → Element
with_attributes m (element name text attributes children) = element name text m children

abbrev pub get_boolean : Bytes → Bool
get_boolean text = same_ignoring_case text (codes "true") || same_ignoring_case text (codes "yes")

abbrev pub clear : Element → Element
clear e = element [] [] [] nil

abbrev pub is_data_empty : Element → Bool
is_data_empty e = is_empty (data_of e)

abbrev pub set_name : Bytes → Element → Element
set_name new_name (element name text attributes children) =
    element new_name text attributes children

abbrev pub set_data : Bytes → Element → Element
set_data new_text (element name text attributes children) =
    element name new_text attributes children

-- `SelectAttribute( pszName )`
abbrev pub select_attribute : Bytes → Element → Option Bytes
select_attribute name e = find_key name (attributes_of e)

-- `SelectAttributeTrim( pszName )`, which trims the text in the map.
abbrev pub select_attribute_trim : Bytes → Element → Option Bytes × Element
select_attribute_trim name e = elim (find_key name (attributes_of e)) [
  | none ↦ (none, e)
  | some value ↦ (
    some (trim_string value),
    with_attributes (assign_entry name (trim_string value) (attributes_of e)) e,
  )
]

-- What is written to an argument of the caller, with whether it was found.
abbrev pub or_else {ℓ} : {A : Type ℓ} → A → Option A → Bool × A
or_else start none = (false, start)
or_else start (some a) = (true, a)

abbrev pub read_as {ℓ} : {A : Type ℓ} → A → (Bytes → A) → Option Bytes → Bool × A
read_as start read none = (false, start)
read_as start read (some text) = (true, read text)

-- `SelectAttribute( pszName, strValue )` and `SelectAttributeTrim( pszName, strValue )`
abbrev pub select_attribute_text : Bytes → Element → Bool × Bytes
select_attribute_text name e = or_else [] (find_key name (attributes_of e))

abbrev pub select_attribute_trim_text : Bytes → Element → Bool × Bytes
select_attribute_trim_text name e = read_as [] trim_string (find_key name (attributes_of e))

-- `SelectAttribute` with an `int`, an `int64_t` and a `bool`.
abbrev pub select_attribute_int : Bytes → Element → (Bool × ℤ) × Element
select_attribute_int name e =
    let (value, after) = select_attribute_trim name e in (read_as (pos 0) atoi value, after)

abbrev pub select_attribute_int64 : Bytes → Element → (Bool × ℤ) × Element
select_attribute_int64 name e =
    let (value, after) = select_attribute_trim name e in (read_as (pos 0) atoll value, after)

abbrev pub select_attribute_bool : Bytes → Element → (Bool × Bool) × Element
select_attribute_bool name e =
    let (value, after) = select_attribute_trim name e in (read_as false get_boolean value, after)

-- The loop of `SelectElement( pszName, iIndex )` from a place on.
abbrev pub child_loop : Bytes → ℕ → ℕ → ℕ → Elements → Option ℕ
child_loop name index count place nil = none
child_loop name index count place (cons e es) = elim (same_key name (name_of e)) [
  | true ↦ elim (count == index) [
    | true ↦ some place
    | false ↦ child_loop name index (suc count) (suc place) es
  ]
  | false ↦ child_loop name index count (suc place) es
]

abbrev pub select_child : Bytes → ℤ → Element → Option ℕ
select_child name (negsuc i) e = none
select_child name (pos i) e = child_loop name i 0 0 (children_of e)

-- `SelectElement( iIndex )`
abbrev pub select_place_loop : ℕ → ℕ → Elements → Option ℕ
select_place_loop index count nil = none
select_place_loop index count (cons e es) = elim (count == index) [
  | true ↦ some count
  | false ↦ select_place_loop index (suc count) es
]

abbrev pub select_place : ℤ → Element → Option ℕ
select_place (negsuc i) e = none
select_place (pos i) e = select_place_loop i 0 (children_of e)

-- `SelectElementList`
abbrev pub select_list_loop : Bytes → Elements → List Element
select_list_loop name nil = []
select_list_loop name (cons e es) =
    if same_key name (name_of e) then e ∷ select_list_loop name es else select_list_loop name es

abbrev pub select_element_list : Bytes → Element → Bool × List Element
select_element_list name e =
    let found = select_list_loop name (children_of e) in (not (is_empty found), found)

-- What a pointer to a child points at.
abbrev pub pointed : Element → Option ℕ → Option Element
pointed e none = none
pointed e (some place) = child_at place (children_of e)

abbrev pub data_pointed : Option Element → Option Bytes
data_pointed none = none
data_pointed (some child) = some (data_of child)

-- `GetElementData`
abbrev pub get_element_data : Bytes → ℤ → Element → Option Bytes
get_element_data name index e = data_pointed (pointed e (select_child name index e))

-- `SetData` on the child that a pointer points at.
abbrev pub set_pointed : Bytes → Element → Option ℕ → Element
set_pointed text e none = e
set_pointed text e (some place) = elim (child_at place (children_of e)) [
  | none ↦ e
  | some child ↦ with_children (set_child place (set_data text child) (children_of e)) e
]

-- `GetElementDataTrim`, which trims the text in the child.
abbrev pub get_element_data_trim : Bytes → ℤ → Element → Option Bytes × Element
get_element_data_trim name index e = elim (get_element_data name index e) [
  | none ↦ (none, e)
  | some text ↦
      (some (trim_string text), set_pointed (trim_string text) e (select_child name index e))
]

-- `SelectElementData( pszName, strData, iIndex )` and `SelectElementTrimData`
abbrev pub select_element_data : Bytes → ℤ → Element → Bool × Bytes
select_element_data name index e = or_else [] (get_element_data name index e)

abbrev pub select_element_trim_data : Bytes → ℤ → Element → Bool × Bytes
select_element_trim_data name index e = read_as [] trim_string (get_element_data name index e)

-- `SelectElementData` with an `int`, an `int64_t` and a `bool`.
abbrev pub select_element_int : Bytes → ℤ → Element → (Bool × ℤ) × Element
select_element_int name index e =
    let (text, after) = get_element_data_trim name index e in (read_as (pos 0) atoi text, after)

abbrev pub select_element_int64 : Bytes → ℤ → Element → (Bool × ℤ) × Element
select_element_int64 name index e =
    let (text, after) = get_element_data_trim name index e in (read_as (pos 0) atoll text, after)

abbrev pub select_element_bool : Bytes → ℤ → Element → (Bool × Bool) × Element
select_element_bool name index e =
    let (text, after) = get_element_data_trim name index e in
    (read_as false get_boolean text, after)
