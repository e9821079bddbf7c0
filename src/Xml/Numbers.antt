-- ===== src/Xml/Numbers.antt =====
-- XmlParser/XmlElement.cpp: numbers and Booleans that are inserted in an element and read back.
use dbmysqlpool.Base.{
  ℕ, ◌^◌, ◌≤◌, ◌<◌, Bool, true, false, ◌&&◌, ◌||◌, not, [], ◌∷◌, ◌++◌, some, Bytes, ℤ, pos, ◌==◌,
  ◌≡◌, refl, ap, ◌∙◌, sym, arith, pos_part, neg_part, append-nil,
}
use dbmysqlpool.Number.{atoll, atoi}
use dbmysqlpool.Decimal.{print_int, snprintf}
use dbmysqlpool.Shown.{
  shortened, is_number_text, snprintf-is_number_text, atoi-snprintf, atoll-snprintf,
}
use dbmysqlpool.StringMap.{same_key_refl}
use dbmysqlpool.Text.Trim.{is_blank, trim_string, trim_string_lem, all_blank}
use dbmysqlpool.Xml.Attributes.{is_sorted}
use dbmysqlpool.Xml.AttributeLaws.{insert_attribute-select}
use dbmysqlpool.Xml.Element.{Element, attributes_of}
use dbmysqlpool.Xml.Select.{
  get_element_data, get_boolean, read_as, select_element_int, select_element_int64,
  select_element_bool, select_attribute_trim, select_attribute_int, select_attribute_int64,
  select_attribute_bool, get_element_data_trim,
}
use dbmysqlpool.Xml.Build.{
  has_bracket, wrapped, bool_text, insert_element_data, insert_element_int, insert_element_int64,
  insert_element_bool, insert_attribute, insert_attribute_int, insert_attribute_int64,
  insert_attribute_bool,
}
use dbmysqlpool.Xml.Updates.{count_named, insert_element_data-get}

-- No byte is a space or a tab, and none a `<` or a `>`.
abbrev pub is_simple : Bytes → Bool
is_simple [] = true
is_simple (c ∷ s) = not (is_blank c) && not ((c == b'<') || (c == b'>')) && is_simple s

is_number_text-is_simple : (s : Bytes) → is_number_text s ≡ true → is_simple s ≡ true
is_number_text-is_simple [] h = refl
is_number_text-is_simple (c ∷ s) h = ground (arith, is_number_text-is_simple s)

snprintf-is_simple :
    (size : ℕ) (z : ℤ)
    → pos_part z < 10 ^ 20
    → neg_part z < 10 ^ 20
    → is_simple (snprintf size (print_int z)) ≡ true
snprintf-is_simple size z lo hi =
    is_number_text-is_simple (snprintf size (print_int z)) (snprintf-is_number_text size z lo hi)

is_simple-front :
    (front s : Bytes) → is_simple (front ++ s) ≡ true → all_blank front ≡ true → front ≡ []
is_simple-front [] s h k = refl
is_simple-front (c ∷ front) s h k = ground arith

is_simple-back : (s back : Bytes) → is_simple (s ++ back) ≡ true → all_blank back ≡ true → back ≡ []
is_simple-back [] back h k = is_simple-front back [] (ap is_simple (append-nil back) ∙ h) k
is_simple-back (c ∷ s) back h k = is_simple-back s back (ground arith) k

trim_string-is_simple : (s : Bytes) → is_simple s ≡ true → trim_string s ≡ s
trim_string-is_simple s h =
    let (solid, ends, front, back, blank, blank', split) = trim_string_lem s in
    let h' : is_simple (front ++ (trim_string s ++ back)) ≡ true = ap is_simple (sym split) ∙ h in
    let e : front ≡ [] = is_simple-front front (trim_string s ++ back) h' blank in
    let split' : s ≡ trim_string s ++ back =
      split ∙ ap (λ (r : Bytes). r ++ (trim_string s ++ back)) e in
    let e' : back ≡ [] =
      is_simple-back (trim_string s) back (ap is_simple (sym split') ∙ h) blank' in
    sym (split' ∙ (ap (λ (r : Bytes). trim_string s ++ r) e' ∙ append-nil (trim_string s)))

has_bracket-is_simple : (s : Bytes) → is_simple s ≡ true → has_bracket s ≡ false
has_bracket-is_simple [] h = refl
has_bracket-is_simple (c ∷ s) h = ground (arith, has_bracket-is_simple s)

wrapped-is_simple : (s : Bytes) → is_simple s ≡ true → wrapped (some s) ≡ s
wrapped-is_simple s h = ground (arith, has_bracket-is_simple s h)

bool_text-is_simple : (b : Bool) → is_simple (bool_text b) ≡ true
bool_text-is_simple true = refl
bool_text-is_simple false = refl

get_boolean-bool_text : (b : Bool) → get_boolean (bool_text b) ≡ b
get_boolean-bool_text true = refl
get_boolean-bool_text false = refl

get_element_data_trim-get :
    (name : Bytes) (index : ℤ) (e : Element) (text : Bytes)
    → get_element_data name index e ≡ some text
    → (get_element_data_trim name index e).0 ≡ some (trim_string text)
get_element_data_trim-get name index e text h = ground arith

-- What was inserted last under a name is read back there.
inserted_read :
    (name text : Bytes) (e : Element)
    → is_simple text ≡ true
    → (get_element_data_trim name
        (pos (count_named name e))
        (insert_element_data name (some text) e)).0
      ≡ some text
inserted_read name text e h = ground (
  arith,
  get_element_data_trim-get name (pos (count_named name e)) (insert_element_data name (some text) e)
      text,
  insert_element_data-get name name (some text) (pos (count_named name e)) e,
  same_key_refl name,
  wrapped-is_simple text h,
  trim_string-is_simple text h,
)

-- An `int` that `InsertElementData` inserted, an `int64_t` and a `bool` are read back by `SelectElementData`
-- under the name, at the index behind the children that had the name; but of an `int` of -1000000000 or
-- below the last digit is lost.
pub insert_element_int-select :
    (name : Bytes) (n m : ℤ) (b : Bool) (e : Element)
    → pos_part n < 2 ^ 31
    → neg_part n ≤ 2 ^ 31
    → pos_part m < 2 ^ 63
    → neg_part m ≤ 2 ^ 63
    → ((select_element_int name (pos (count_named name e)) (insert_element_int name n e)).0
        ≡ (true, shortened n))
      × ((select_element_int64 name (pos (count_named name e)) (insert_element_int64 name m e)).0
          ≡ (true, m))
      × ((select_element_bool name (pos (count_named name e)) (insert_element_bool name b e)).0
          ≡ (true, b))
insert_element_int-select name n m b e lo hi lo' hi' = (
  ap (read_as (pos 0) atoi) (
        inserted_read name (snprintf 11 (print_int n)) e
          (snprintf-is_simple 11 n (omega arith) (omega arith)))
      ∙ ap (λ (z : ℤ). (true, z)) (atoi-snprintf n lo hi),
  ap (read_as (pos 0) atoll) (
        inserted_read name (snprintf 21 (print_int m)) e
          (snprintf-is_simple 21 m (omega arith) (omega arith)))
      ∙ ap (λ (z : ℤ). (true, z)) (atoll-snprintf m lo' hi'),
  ap (read_as false get_boolean) (inserted_read name (bool_text b) e (bool_text-is_simple b))
      ∙ ap (λ (c : Bool). (true, c)) (get_boolean-bool_text b),
)

attribute_read :
    (name text : Bytes) (e : Element)
    → is_sorted (attributes_of e) ≡ true
    → is_simple text ≡ true
    → (select_attribute_trim name (insert_attribute name text e)).0 ≡ some text
attribute_read name text e h k = ground (
  arith,
  (insert_attribute-select name text name e h).0,
  same_key_refl name,
  trim_string-is_simple text k,
)

-- An `int` that `InsertAttribute` stored under a name, an `int64_t` and a `bool` are read back by
-- `SelectAttribute`, whether the name was there or not, if the attributes are in order; but of an `int` of
-- -1000000000 or below the last digit is lost.
insert_attribute_int-select :
    (name : Bytes) (n m : ℤ) (b : Bool) (e : Element)
    → is_sorted (attributes_of e) ≡ true
    → pos_part n < 2 ^ 31
    → neg_part n ≤ 2 ^ 31
    → pos_part m < 2 ^ 63
    → neg_part m ≤ 2 ^ 63
    → ((select_attribute_int name (insert_attribute_int name n e)).0 ≡ (true, shortened n))
      × ((select_attribute_int64 name (insert_attribute_int64 name m e)).0 ≡ (true, m))
      × ((select_attribute_bool name (insert_attribute_bool name b e)).0 ≡ (true, b))
insert_attribute_int-select name n m b e h lo hi lo' hi' = (
  ap (read_as (pos 0) atoi) (
        attribute_read name (snprintf 11 (print_int n)) e h
          (snprintf-is_simple 11 n (omega arith) (omega arith)))
      ∙ ap (λ (z : ℤ). (true, z)) (atoi-snprintf n lo hi),
  ap (read_as (pos 0) atoll) (
        attribute_read name (snprintf 21 (print_int m)) e h
          (snprintf-is_simple 21 m (omega arith) (omega arith)))
      ∙ ap (λ (z : ℤ). (true, z)) (atoll-snprintf m lo' hi'),
  ap (read_as false get_boolean) (attribute_read name (bool_text b) e h (bool_text-is_simple b))
      ∙ ap (λ (c : Bool). (true, c)) (get_boolean-bool_text b),
)
