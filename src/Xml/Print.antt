-- ===== src/Xml/Print.antt =====
-- XmlParser/XmlElement.cpp: `ToString( strText, bUseTab, iDepth )`.
use dbmysqlpool.Base.{ℕ, suc, Bool, [], ◌∷◌, ◌++◌, Bytes, if◌then◌else◌, replicate}
use dbmysqlpool.StringMap.{StringMap}
use dbmysqlpool.Xml.Element.{Element, element, Elements, nil, cons}

abbrev pub tabs : Bool → ℕ → Bytes
tabs use_tab depth = if use_tab then replicate depth 9 else []

-- ` name="value"` for each attribute.
abbrev pub print_attributes : StringMap → Bytes
print_attributes [] = []
print_attributes ((k, v) ∷ m) = b' ' ∷ (k ++ (b'=' ∷ b'"' ∷ (v ++ (b'"' ∷ print_attributes m))))

abbrev pub end_tag : Bytes → Bytes
end_tag name = b'<' ∷ b'/' ∷ (name ++ b'>' ∷ [])

-- The rest of an element behind its attributes, with the lines of its children, if it has any.
abbrev pub content : Bool → ℕ → Bytes → Bytes → Elements → Bytes → Bytes
content use_tab depth name (c ∷ text) children printed = b'>' ∷ ((c ∷ text) ++ end_tag name)
content use_tab depth name [] nil printed = b'/' ∷ b'>' ∷ []
content use_tab depth name [] (cons e es) printed =
    b'>' ∷ 10 ∷ (printed ++ (tabs use_tab depth ++ end_tag name))

-- An element between its tabs and its line end, and the lines of its children.
unfoldable mutual
  pub body : Bool → ℕ → Element → Bytes
  body use_tab depth (element name text attributes children) =
      b'<'
      ∷ (name
          ++ (print_attributes attributes
              ++ content use_tab depth name text children (lines use_tab (suc depth) children)))

  pub lines : Bool → ℕ → Elements → Bytes
  lines use_tab depth nil = []
  lines use_tab depth (cons e es) =
      tabs use_tab depth ++ (body use_tab depth e ++ (10 ∷ lines use_tab depth es))

-- What `ToString` appends to `strText`.
unfoldable pub to_string : Bytes → Bool → ℕ → Element → Bytes
unfolding body
to_string text use_tab depth e = text ++ (tabs use_tab depth ++ (body use_tab depth e ++ 10 ∷ []))
