-- ===== src/Xml/Build.antt =====
-- XmlParser/XmlElement.cpp: how an element is put together and changed.
use dbmysqlpool.Base.{
  Bool, true, false, [], ◌∷◌, ◌++◌, Option, none, some, Bytes, codes, ◌==◌, ◌||◌, ℤ, if◌then◌else◌,
}
use dbmysqlpool.Decimal.{print_int, snprintf}
use dbmysqlpool.Xml.Attributes.{put_entry}
use dbmysqlpool.Xml.Element.{Element, element, nil, attributes_of, children_of, push_back}
use dbmysqlpool.Xml.Select.{with_children, with_attributes, select_child, set_pointed}

-- `CXmlElement clsElement( pszName )`
abbrev pub new_element : Bytes → Element
new_element name = element name [] [] nil

-- `InsertElement`
abbrev pub insert_element : Element → Element → Element
insert_element child e = with_children (push_back child (children_of e)) e

-- `InsertElementData( pszName, pclsElement )`
abbrev pub insert_element_child : Bytes → Element → Element → Element
insert_element_child name child e = insert_element (insert_element child (new_element name)) e

-- `strstr( pszData, "<" ) || strstr( pszData, ">" )`
abbrev pub has_bracket : Bytes → Bool
has_bracket [] = false
has_bracket (c ∷ s) = (c == b'<') || (c == b'>') || has_bracket s

-- `m_strData` of the new child; `none` is a NULL text.
abbrev pub wrapped : Option Bytes → Bytes
wrapped none = []
wrapped (some text) = if has_bracket text then codes "<![CDATA[" ++ (text ++ codes "]]>") else text

-- `InsertElementData( pszName, pszData )`
abbrev pub insert_element_data : Bytes → Option Bytes → Element → Element
insert_element_data name text e = insert_element (element name (wrapped text) [] nil) e

abbrev pub bool_text : Bool → Bytes
bool_text b = if b then codes "true" else codes "false"

-- The same with an `int`, an `int64_t` and a `bool`.
abbrev pub insert_element_int : Bytes → ℤ → Element → Element
insert_element_int name n e = insert_element_data name (some (snprintf 11 (print_int n))) e

abbrev pub insert_element_int64 : Bytes → ℤ → Element → Element
insert_element_int64 name n e = insert_element_data name (some (snprintf 21 (print_int n))) e

abbrev pub insert_element_bool : Bytes → Bool → Element → Element
insert_element_bool name b e = insert_element_data name (some (bool_text b)) e

-- `UpdateElementData( pszName, pszData, iIndex )`
abbrev pub update_element_data : Bytes → Bytes → ℤ → Element → Bool × Element
update_element_data name text index e = elim (select_child name index e) [
  | none ↦ (false, e)
  | some place ↦ (true, set_pointed text e (some place))
]

abbrev pub update_element_int : Bytes → ℤ → ℤ → Element → Bool × Element
update_element_int name n index e = update_element_data name (snprintf 11 (print_int n)) index e

abbrev pub update_element_int64 : Bytes → ℤ → ℤ → Element → Bool × Element
update_element_int64 name n index e = update_element_data name (snprintf 21 (print_int n)) index e

abbrev pub update_element_bool : Bytes → Bool → ℤ → Element → Bool × Element
update_element_bool name b index e = update_element_data name (bool_text b) index e

-- `InsertAttribute( pszName, pszValue )`
abbrev pub insert_attribute : Bytes → Bytes → Element → Element
insert_attribute name value e = with_attributes (put_entry name value (attributes_of e)) e

abbrev pub insert_attribute_int : Bytes → ℤ → Element → Element
insert_attribute_int name n e = insert_attribute name (snprintf 11 (print_int n)) e

abbrev pub insert_attribute_int64 : Bytes → ℤ → Element → Element
insert_attribute_int64 name n e = insert_attribute name (snprintf 21 (print_int n)) e

abbrev pub insert_attribute_bool : Bytes → Bool → Element → Element
insert_attribute_bool name b e = insert_attribute name (bool_text b) e
