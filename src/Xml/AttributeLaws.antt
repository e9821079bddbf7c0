-- ===== src/Xml/AttributeLaws.antt =====
-- XmlParser/XmlElement.cpp: what is read after `InsertAttribute`.
use dbmysqlpool.Base.{
  true, false, [], ◌∷◌, none, some, Bytes, ◌≡◌, refl, arith, if◌then◌else◌, Option-cases, inl, inr,
}
use dbmysqlpool.StringMap.{StringMap, same_key, same_key-≡, find_key}
use dbmysqlpool.Xml.Attributes.{is_less, insert_entry, assign_entry, is_before_all, is_sorted}
use dbmysqlpool.Xml.Element.{Element, element, attributes_of}
use dbmysqlpool.Xml.Select.{select_attribute}
use dbmysqlpool.Xml.Build.{insert_attribute}

same_key_both : (s t r : Bytes) → same_key s r ≡ true → same_key t r ≡ true → same_key s t ≡ true
same_key_both [] [] r h k = refl
same_key_both [] (d ∷ t) [] h k = k
same_key_both [] (d ∷ t) (b ∷ r) h k = h
same_key_both (c ∷ s) [] [] h k = h
same_key_both (c ∷ s) [] (b ∷ r) h k = k
same_key_both (c ∷ s) (d ∷ t) [] h k = cc
same_key_both (c ∷ s) (d ∷ t) (b ∷ r) h k = ground (arith, same_key_both s t r)

find_key-insert_entry :
    (key value other : Bytes) (m : StringMap)
    → find_key key m ≡ none
    → find_key other (insert_entry key value m)
      ≡ (if same_key key other then some value else find_key other m)
find_key-insert_entry key value other [] h = refl
find_key-insert_entry key value other ((k, v) ∷ m) h =
    ground (arith, same_key_both k key other, find_key-insert_entry key value other m)

find_key-assign_entry :
    (key value old other : Bytes) (m : StringMap)
    → find_key key m ≡ some old
    → find_key other (assign_entry key value m)
      ≡ (if same_key key other then some value else find_key other m)
find_key-assign_entry key value old other [] h = cc
find_key-assign_entry key value old other ((k, v) ∷ m) h = ground (
  arith,
  same_key-≡ k key,
  same_key_both k key other,
  find_key-assign_entry key value old other m,
)

is_less_trans : (r s t : Bytes) → is_less r s ≡ true → is_less s t ≡ true → is_less r t ≡ true
is_less_trans r [] t h k = cc
is_less_trans r (d ∷ s) [] h k = cc
is_less_trans [] (d ∷ s) (c ∷ t) h k = refl
is_less_trans (b ∷ r) (d ∷ s) (c ∷ t) h k = ground (arith, is_less_trans r s t)

is_less_total : (s t : Bytes) → same_key s t ≡ false → is_less t s ≡ false → is_less s t ≡ true
is_less_total [] [] h k = cc
is_less_total [] (d ∷ t) h k = refl
is_less_total (c ∷ s) [] h k = cc
is_less_total (c ∷ s) (d ∷ t) h k = ground (arith, is_less_total s t)

is_before_all-is_less :
    (j k : Bytes) (m : StringMap)
    → is_less j k ≡ true
    → is_before_all k m ≡ true
    → is_before_all j m ≡ true
is_before_all-is_less j k [] h b = refl
is_before_all-is_less j k ((l, w) ∷ m) h b =
    ground (arith, is_less_trans j k l, is_before_all-is_less j k m)

is_before_all-insert_entry :
    (j key value : Bytes) (m : StringMap)
    → is_less j key ≡ true
    → is_before_all j m ≡ true
    → is_before_all j (insert_entry key value m) ≡ true
is_before_all-insert_entry j key value [] h b = ground arith
is_before_all-insert_entry j key value ((k, v) ∷ m) h b =
    ground (arith, is_before_all-insert_entry j key value m)

insert_entry-is_sorted :
    (key value : Bytes) (m : StringMap)
    → is_sorted m ≡ true
    → is_sorted (insert_entry key value m) ≡ true
insert_entry-is_sorted key value [] h = refl
insert_entry-is_sorted key value ((k, v) ∷ m) h = ground (
  arith,
  is_less_total k key,
  is_before_all-insert_entry k key value m,
  is_before_all-is_less key k m,
  insert_entry-is_sorted key value m,
)

is_before_all-assign_entry :
    (j key value : Bytes) (m : StringMap)
    → is_before_all j (assign_entry key value m) ≡ is_before_all j m
is_before_all-assign_entry j key value [] = refl
is_before_all-assign_entry j key value ((k, v) ∷ m) =
    ground (arith, is_before_all-assign_entry j key value m)

assign_entry-is_sorted :
    (key value : Bytes) (m : StringMap) → is_sorted (assign_entry key value m) ≡ is_sorted m
assign_entry-is_sorted key value [] = refl
assign_entry-is_sorted key value ((k, v) ∷ m) =
    ground (arith, is_before_all-assign_entry k key value m, assign_entry-is_sorted key value m)

-- After `InsertAttribute` the name has the value that was given, whether it was there or not, and every
-- other name what it had; the attributes stay in the order of their names, each once.
pub insert_attribute-select :
    (name value other : Bytes) (e : Element)
    → is_sorted (attributes_of e) ≡ true
    → (select_attribute other (insert_attribute name value e)
        ≡ (if same_key name other then some value else select_attribute other e))
      × (is_sorted (attributes_of (insert_attribute name value e)) ≡ true)
insert_attribute-select name value other (element n t m es) h =
    elim (Option-cases (find_key name m)) [
      | inl none_there ↦
          ground
            (arith, find_key-insert_entry name value other m, insert_entry-is_sorted name value m)
      | inr (old, there) ↦
          ground (
            arith,
            find_key-assign_entry name value old other m,
            assign_entry-is_sorted name value m,
          )
    ]
