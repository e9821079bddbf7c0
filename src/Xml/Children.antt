-- ===== src/Xml/Children.antt =====
-- XmlParser/XmlElement.cpp: the children that a name and an index select, and what inserting and updating
-- them changes.
use dbmysqlpool.Base.{
  ℕ, zero, suc, ◌+◌, Bool, true, false, Option, none, some, Bytes, ◌==◌, ℤ, pos, negsuc,
  if◌then◌else◌, ◌≡◌, refl, get_elem?, arith, ap, ◌⊎◌, inl, inr, Bool-cases,
}
use dbmysqlpool.StringMap.{same_key}
use dbmysqlpool.Xml.Element.{Element, element, Elements, nil, cons, name_of, children_of}
use dbmysqlpool.Xml.Select.{
  child_at, set_child, child_loop, select_child, select_list_loop, select_element_list, pointed,
  select_place, select_place_loop,
}
use dbmysqlpool.Xml.Matches.{entry_at}

abbrev pub shifted : ℕ → Option ℕ → Option ℕ
shifted n none = none
shifted n (some p) = some (n + p)

-- The place of the k-th child of a name.
abbrev pub place_of : Bytes → ℕ → Elements → Option ℕ
place_of name k nil = none
place_of name zero (cons e es) =
    if same_key name (name_of e) then some 0 else shifted 1 (place_of name zero es)
place_of name (suc k) (cons e es) =
    let here = shifted 1 (place_of name k es) in
    let later = shifted 1 (place_of name (suc k) es) in
    if same_key name (name_of e) then here else later

pub child_loop-place_of :
    (name : Bytes) (es : Elements) (k count place : ℕ)
    → child_loop name (count + k) count place es ≡ shifted place (place_of name k es)
child_loop-place_of name nil k count place = refl
child_loop-place_of name (cons e es) zero count place =
    ground (arith, child_loop-place_of name es zero count (suc place))
child_loop-place_of name (cons e es) (suc k) count place = ground (
  arith,
  child_loop-place_of name es k (suc count) (suc place),
  child_loop-place_of name es (suc k) count (suc place),
  ap (λ (n : ℕ). child_loop name n (suc count) (suc place) es) {x = suc count + k}
      {y = count + suc k} (omega arith),
)

abbrev pub child_at_option : Option ℕ → Elements → Option Element
child_at_option none es = none
child_at_option (some p) es = child_at p es

pub child_at_option-place_of :
    (name : Bytes) (k : ℕ) (es : Elements)
    → child_at_option (place_of name k es) es ≡ get_elem? (select_list_loop name es) k
child_at_option-place_of name k nil = refl
child_at_option-place_of name zero (cons e es) =
    ground (arith, child_at_option-place_of name zero es)
child_at_option-place_of name (suc k) (cons e es) =
    ground (arith, child_at_option-place_of name k es, child_at_option-place_of name (suc k) es)

-- The place of the k-th child, if there is one.
abbrev pub in_bounds : ℕ → Elements → Option ℕ
in_bounds k nil = none
in_bounds zero (cons e es) = some 0
in_bounds (suc k) (cons e es) = shifted 1 (in_bounds k es)

select_place_loop-in_bounds :
    (k count : ℕ) (es : Elements)
    → select_place_loop (count + k) count es ≡ shifted count (in_bounds k es)
select_place_loop-in_bounds k count nil = refl
select_place_loop-in_bounds zero count (cons e es) = ground arith
select_place_loop-in_bounds (suc k) count (cons e es) = ground (
  arith,
  select_place_loop-in_bounds k (suc count) es,
  ap (λ (n : ℕ). select_place_loop n (suc count) es) {x = suc count + k} {y = count + suc k}
      (omega arith),
)

child_at_option-in_bounds :
    (k : ℕ) (es : Elements) → child_at_option (in_bounds k es) es ≡ child_at k es
child_at_option-in_bounds k nil = refl
child_at_option-in_bounds zero (cons e es) = refl
child_at_option-in_bounds (suc k) (cons e es) = ground (arith, child_at_option-in_bounds k es)

-- The child at an index, none at a negative one.
abbrev pub child_at_index : ℤ → Elements → Option Element
child_at_index (pos i) es = child_at i es
child_at_index (negsuc i) es = none

-- `SelectElement` by a name and an index finds the entry at that index of what `SelectElementList` copies
-- for the name, and `SelectElement` by an index the child there; each finds none if there is none.
pub select_child-select_element_list :
    (name : Bytes) (index : ℤ) (e : Element)
    → (pointed e (select_child name index e) ≡ entry_at index (select_element_list name e).1)
      × (pointed e (select_place index e) ≡ child_at_index index (children_of e))
select_child-select_element_list name (negsuc i) e = (refl, refl)
select_child-select_element_list name (pos i) (element n text attributes children) = ground (
  arith,
  child_loop-place_of name children i 0 0,
  child_at_option-place_of name i children,
  select_place_loop-in_bounds i 0 children,
  child_at_option-in_bounds i children,
)

-- Reads after an update.
pub place_of-set_child :
    (name : Bytes) (k p : ℕ) (c d : Element) (es : Elements)
    → child_at p es ≡ some c
    → name_of d ≡ name_of c
    → place_of name k (set_child p d es) ≡ place_of name k es
place_of-set_child name k p c d nil h q = refl
place_of-set_child name zero zero c d (cons e es) h q = ground arith
place_of-set_child name zero (suc p) c d (cons e es) h q =
    ground (arith, place_of-set_child name zero p c d es h q)
place_of-set_child name (suc k) zero c d (cons e es) h q = ground arith
place_of-set_child name (suc k) (suc p) c d (cons e es) h q =
    ground
      (arith, place_of-set_child name k p c d es h q, place_of-set_child name (suc k) p c d es h q)

pub child_at-set_child :
    (p q : ℕ) (c d : Element) (es : Elements)
    → child_at p es ≡ some c
    → child_at q (set_child p d es) ≡ (if q == p then some d else child_at q es)
child_at-set_child p q c d nil h = ground arith
child_at-set_child zero q c d (cons e es) h = ground arith
child_at-set_child (suc p) zero c d (cons e es) h = ground arith
child_at-set_child (suc p) (suc q) c d (cons e es) h =
    ground (arith, child_at-set_child p q c d es h)

-- A name and an index select no child, or a place where one is.
pub place_of-cases :
    (name : Bytes) (k : ℕ) (es : Elements)
    → (place_of name k es ≡ none)
      ⊎ (p : ℕ) × (c : Element) × (place_of name k es ≡ some p) × (child_at p es ≡ some c)
place_of-cases name k nil = inl refl
place_of-cases name zero (cons e es) = elim (Bool-cases (same_key name (name_of e))) [
  | inl h ↦ inr (0, e, ground (arith, h), refl)
  | inr h ↦ elim (place_of-cases name zero es) [
    | inl r ↦ inl (ground (arith, h, r))
    | inr (p, c, r, q) ↦ inr (suc p, c, ground (arith, h, r), q)
  ]
]
place_of-cases name (suc k) (cons e es) = elim (Bool-cases (same_key name (name_of e))) [
  | inl h ↦ elim (place_of-cases name k es) [
    | inl r ↦ inl (ground (arith, h, r))
    | inr (p, c, r, q) ↦ inr (suc p, c, ground (arith, h, r), q)
  ]
  | inr h ↦ elim (place_of-cases name (suc k) es) [
    | inl r ↦ inl (ground (arith, h, r))
    | inr (p, c, r, q) ↦ inr (suc p, c, ground (arith, h, r), q)
  ]
]

abbrev pub is_found : Option ℕ → Bool
is_found none = false
is_found (some p) = true

abbrev pub same_place : Option ℕ → Option ℕ → Bool
same_place none q = false
same_place (some p) none = false
same_place (some p) (some q) = p == q
