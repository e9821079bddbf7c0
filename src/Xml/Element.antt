-- ===== src/Xml/Element.antt =====
-- XmlParser/XmlElement.h: the members of an element.
use dbmysqlpool.Base.{ℕ, suc, Bytes}
use dbmysqlpool.StringMap.{StringMap}

-- `m_strName`, `m_strData`, `m_clsAttributeMap` and `m_clsElementList`.
mutual
  pub data Element : Type 0 where
    element : (name text : Bytes) → StringMap → Elements → Element

  pub data Elements : Type 0 where
    nil : Elements
    cons : Element → Elements → Elements

abbrev pub name_of : Element → Bytes
name_of (element name text attributes children) = name

abbrev pub data_of : Element → Bytes
data_of (element name text attributes children) = text

abbrev pub attributes_of : Element → StringMap
attributes_of (element name text attributes children) = attributes

abbrev pub children_of : Element → Elements
children_of (element name text attributes children) = children

-- `push_back`
abbrev pub push_back : Element → Elements → Elements
push_back e nil = cons e nil
push_back e (cons x xs) = cons x (push_back e xs)

abbrev pub join : Elements → Elements → Elements
join nil ys = ys
join (cons x xs) ys = cons x (join xs ys)

abbrev pub size : Elements → ℕ
size nil = 0
size (cons x xs) = suc (size xs)
