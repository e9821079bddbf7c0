-- ===== src/Xml/Updates.antt =====
-- XmlParser/XmlElement.cpp: what is read after `UpdateElementData` and `InsertElementData`.
use dbmysqlpool.Base.{
  ℕ, zero, suc, Bool, false, List, [], ◌∷◌, ◌++◌, Option, none, some, Bytes, ◌==◌, ◌&&◌, ℤ, pos,
  negsuc, if◌then◌else◌, ◌≡◌, refl, get_elem?, length, arith, append-nil, ◌∙◌, ◌⊎◌, inl, inr,
}
use dbmysqlpool.StringMap.{same_key}
use dbmysqlpool.Xml.Element.{Element, element, Elements, nil, cons, name_of, children_of, push_back}
use dbmysqlpool.Xml.Select.{
  child_at, set_child, select_child, select_list_loop, select_element_list, pointed, data_pointed,
  get_element_data, set_pointed,
}
use dbmysqlpool.Xml.Build.{insert_element, insert_element_data, update_element_data, wrapped}
use dbmysqlpool.Xml.Children.{
  place_of, place_of-cases, child_loop-place_of, place_of-set_child, child_at-set_child, is_found,
  same_place, select_child-select_element_list,
}

select_child-place_of :
    (name : Bytes) (i : ℕ) (e : Element)
    → select_child name (pos i) e ≡ place_of name i (children_of e)
select_child-place_of name i e = ground (arith, child_loop-place_of name (children_of e) i 0 0)

-- A name and an index select no child, or a place where one is.
select_child-cases :
    (name : Bytes) (index : ℤ) (e : Element)
    → (select_child name index e ≡ none)
      ⊎ (p : ℕ) × (c : Element) × (select_child name index e ≡ some p)
        × (child_at p (children_of e) ≡ some c)
select_child-cases name (negsuc i) e = inl refl
select_child-cases name (pos i) e = elim (place_of-cases name i (children_of e)) [
  | inl h ↦ inl (select_child-place_of name i e ∙ h)
  | inr (p, c, h, q) ↦ inr (p, c, select_child-place_of name i e ∙ h, q)
]

select_child-set_pointed :
    (name : Bytes) (index : ℤ) (text : Bytes) (e : Element) (p : ℕ) (c : Element)
    → child_at p (children_of e) ≡ some c
    → select_child name index (set_pointed text e (some p)) ≡ select_child name index e
select_child-set_pointed name (negsuc i) text e p c h = refl
select_child-set_pointed name (pos i) text (element n t m es) p (element cn ct cm ces) h = ground (
  arith,
  child_loop-place_of name es i 0 0,
  child_loop-place_of name (set_child p (element cn text cm ces) es) i 0 0,
  place_of-set_child name i p (element cn ct cm ces) (element cn text cm ces) es h refl,
)

data_pointed-set_pointed :
    (text : Bytes) (e : Element) (p : ℕ) (c : Element) (q : Option ℕ)
    → child_at p (children_of e) ≡ some c
    → data_pointed (pointed (set_pointed text e (some p)) q)
      ≡ (if same_place q (some p) then some text else data_pointed (pointed e q))
data_pointed-set_pointed text (element n t m es) p c none h = refl
data_pointed-set_pointed text (element n t m es) p (element cn ct cm ces) (some q) h =
    ground (arith, child_at-set_child p q (element cn ct cm ces) (element cn text cm ces) es h)

-- `UpdateElementData` succeeds exactly if the name and the index select a child. Then that child's text is
-- the new one; every other child that a name and an index select, and all of them on a failure, has the
-- text that it had.
update_element_data-get :
    (name other text : Bytes) (index index' : ℤ) (e : Element)
    → ((update_element_data name text index e).0 ≡ is_found (select_child name index e))
      × (get_element_data other index' (update_element_data name text index e).1 ≡ (
          if same_place (select_child other index' e) (select_child name index e)
          then some text
          else get_element_data other index' e))
update_element_data-get name other text index index' e = elim (select_child-cases name index e) [
  | inl h ↦ ground arith
  | inr (p, c, h, q) ↦ ground (
    arith,
    select_child-set_pointed other index' text e p c q,
    data_pointed-set_pointed text e p c (select_child other index' e) q,
  )
]

-- Reads after an insertion.
abbrev pub count_named : Bytes → Element → ℕ
count_named name e = length (select_element_list name e).1

select_list_loop-push_back :
    (name : Bytes) (c : Element) (es : Elements)
    → select_list_loop name (push_back c es)
      ≡ select_list_loop name es ++ (if same_key name (name_of c) then c ∷ [] else [])
select_list_loop-push_back name c nil = ground arith
select_list_loop-push_back name c (cons e es) = ground (arith, select_list_loop-push_back name c es)

get_elem?-last :
    (xs : List Element) (a : Element) (i : ℕ)
    → get_elem? (xs ++ a ∷ []) i ≡ (if i == length xs then some a else get_elem? xs i)
get_elem?-last [] a zero = refl
get_elem?-last [] a (suc i) = ground arith
get_elem?-last (x ∷ xs) a zero = ground arith
get_elem?-last (x ∷ xs) a (suc i) = ground (arith, get_elem?-last xs a i)

abbrev pub is_at : ℤ → ℕ → Bool
is_at (pos i) n = i == n
is_at (negsuc i) n = false

-- The child that `InsertElement` adds is the last of its name, and every other name and index selects what
-- it did.
insert_element-select :
    (other : Bytes) (index : ℤ) (child e : Element)
    → pointed (insert_element child e) (select_child other index (insert_element child e)) ≡ (
        if same_key other (name_of child) && is_at index (count_named other e)
        then some child
        else pointed e (select_child other index e))
insert_element-select other (negsuc i) child e = ground arith
insert_element-select other (pos i) child (element n t m es) = ground (
  arith,
  (select_child-select_element_list other (pos i) (element n t m es)).0,
  (select_child-select_element_list other (pos i) (insert_element child (element n t m es))).0,
  select_list_loop-push_back other child es,
  get_elem?-last (select_list_loop other es) child i,
  append-nil (select_list_loop other es),
)

-- `InsertElementData` adds a child behind those of its name, with the text that was given, in a CDATA
-- section if a `<` or a `>` is in it; every other name and index select a child with the text that it had.
pub insert_element_data-get :
    (name other : Bytes) (text : Option Bytes) (index : ℤ) (e : Element)
    → get_element_data other index (insert_element_data name text e) ≡ (
        if same_key other name && is_at index (count_named other e)
        then some (wrapped text)
        else get_element_data other index e)
insert_element_data-get name other text index e =
    ground (arith, insert_element-select other index (element name (wrapped text) [] nil) e)
