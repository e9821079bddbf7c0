-- ===== src/Xml/Writable.antt =====
-- The elements that `Parse` reads back from what `ToString` writes.
use dbmysqlpool.Base.{Bool, true, false, ◌&&◌, [], ◌∷◌, Bytes, ◌≡◌}
use dbmysqlpool.Xml.Attributes.{is_sorted}
use dbmysqlpool.Xml.Element.{Element, element, Elements, nil, cons}
use dbmysqlpool.Xml.Runs.{all_bytes}
use dbmysqlpool.Xml.Steps.{is_plain, is_solid}
use dbmysqlpool.Xml.AttributeRuns.{are_attributes}
use dbmysqlpool.Xml.TagRuns.{is_first}

-- The bytes of a name.
abbrev pub is_name : Bytes → Bool
is_name [] = false
is_name (c ∷ s) = is_first c && all_bytes is_plain s

-- No byte needs another notation, an element has data or children but not both, and the attributes are
-- in order, as a `std::map` keeps them.
unfoldable mutual
  pub IsWritable : Element → Type 0
  IsWritable (element name text attributes children) =
      (is_name name ≡ true)
      × (all_bytes is_solid text ≡ true)
      × (are_attributes attributes ≡ true)
      × (is_sorted attributes ≡ true)
      × HasOneOf text children
      × AreWritable children

  pub AreWritable : Elements → Type 0
  AreWritable nil = Unit
  AreWritable (cons e es) = IsWritable e × AreWritable es

  pub HasOneOf : Bytes → Elements → Type 0
  HasOneOf [] children = Unit
  HasOneOf (c ∷ text) nil = Unit
  HasOneOf (c ∷ text) (cons e es) = ⊥
