-- ===== src/Xml/Parse.antt =====
-- XmlParser/XmlElement.cpp: `Parse`. Texts hold no zero byte; a read behind the end finds the
-- terminating zero.
use dbmysqlpool.Base.{
  ℕ, zero, suc, ◌+◌, ◌-◌, ◌*◌, Bool, true, false, ◌&&◌, ◌||◌, [], ◌++◌, Option, none, some, Bytes,
  codes, ◌==◌, ltb, if◌then◌else◌, length, take, drop, get_or, is_empty,
}
use dbmysqlpool.Text.Find.{starts_with}
use dbmysqlpool.StringMap.{StringMap}
use dbmysqlpool.Xml.Attributes.{insert_entry}
use dbmysqlpool.Xml.Element.{Element, element, Elements, nil, push_back}

-- `XML_ELEMENT_NULL` and the others.
pub data Kind : Type 0 where
  kind_null kind_name kind_attr kind_data kind_name_end kind_data_parse : Kind
  kind_comment kind_cdata kind_declaration : Kind

abbrev pub is_null_kind : Kind → Bool
is_null_kind kind_null = true
is_null_kind _ = false

abbrev pub is_name_kind : Kind → Bool
is_name_kind kind_name = true
is_name_kind _ = false

abbrev pub is_data_kind : Kind → Bool
is_data_kind kind_data = true
is_data_kind _ = false

abbrev pub is_name_end_kind : Kind → Bool
is_name_end_kind kind_name_end = true
is_name_end_kind _ = false

abbrev pub is_attr_kind : Kind → Bool
is_attr_kind kind_attr = true
is_attr_kind _ = false

abbrev pub is_cdata_kind : Kind → Bool
is_cdata_kind kind_cdata = true
is_cdata_kind _ = false

-- The local variables of `Parse` and the members of the element. `none` is a start position of -1.
-- `strValue` is empty between the rounds.
pub record Scan : Type 0 where
  pub kind : Kind
  pub old_kind : Kind
  pub start_pos : Option ℕ
  pub attr_name : Bytes
  pub name : Bytes
  pub text : Bytes
  pub attributes : StringMap
  pub children : Elements

-- The variables at the start, the members after `Clear`.
abbrev pub cleared : Scan
cleared = record {
  kind = kind_null;
  old_kind = kind_null;
  start_pos = none;
  attr_name = [];
  name = [];
  text = [];
  attributes = [];
  children = nil;
}

abbrev pub built : Scan → Element
built s = element s.name s.text s.attributes s.children

-- What `Parse` returns, -1 being `none`, and the element it leaves.
pub record Outcome : Type 0 where
  pub result : Option ℕ
  pub left : Element

-- The end of one round: the next position, the end of `Parse`, or the parsing of a child from here.
pub data Next : Type 0 where
  go : ℕ → Scan → Next
  finish : Outcome → Next
  child : Next

abbrev pub fail : Scan → Next
fail s = finish (record { result = none; left = built s })

-- The bytes from `iStartPos` to `iPos`.
abbrev pub slice : Bytes → Option ℕ → ℕ → Bytes
slice t none i = []
slice t (some start) i = take (i - start) (drop start t)

-- `!strncmp( pszText + iPos, … )`
abbrev pub looking_at : Bytes → Bytes → ℕ → Bool
looking_at pat t i = starts_with pat (drop i t)

abbrev pub is_break : ℕ → Bool
is_break c = (c == b' ') || (c == 9) || (c == b'/') || (c == 13) || (c == 10)

unfoldable pub closes_comment : Bytes → ℕ → ℕ → Bool
closes_comment t i c = (c == b'-') && ltb (i + 3) (length t) && looking_at (codes "->") t (suc i)

unfoldable pub closes_cdata : Bytes → ℕ → ℕ → Bool
closes_cdata t i c = (c == b']') && ltb (i + 3) (length t) && looking_at (codes "]>") t (suc i)

unfoldable pub opens_comment : Bytes → ℕ → Bool
opens_comment t i = ltb (i + 4) (length t) && looking_at (codes "!--") t (suc i)

unfoldable pub opens_cdata : Bytes → ℕ → Bool
opens_cdata t i = ltb (i + 9) (length t) && looking_at (codes "![CDATA[") t (suc i)

unfoldable pub opens_declaration : Bytes → ℕ → Bool
opens_declaration t i =
    let next = get_or t (suc i) 0 in ltb (i + 1) (length t) && ((next == b'?') || (next == b'!'))

unfoldable pub in_comment : Bytes → ℕ → ℕ → Scan → Next
unfolding closes_comment
in_comment t i c s =
    if closes_comment t i c then go (i + 3) (record s { kind = s.old_kind }) else go (suc i) s

unfoldable pub in_declaration : ℕ → ℕ → Scan → Next
in_declaration i c s =
    if c == b'>' then go (suc i) (record s { kind = kind_null }) else go (suc i) s

unfoldable pub at_break : Bytes → ℕ → Scan → Next
at_break t i s =
    if is_name_kind s.kind
    then go (suc i) (record s {
      name = s.name ++ slice t s.start_pos i;
      kind = kind_attr;
      start_pos = none;
      attr_name = [];
    })
    else go (suc i) s

unfoldable pub in_cdata : Bytes → ℕ → ℕ → Scan → Next
unfolding closes_cdata
in_cdata t i c s =
    if closes_cdata t i c
    then go (i + 3) (record s {
      text = s.text ++ slice t s.start_pos i;
      kind = kind_data;
      start_pos = some (i + 3);
    })
    else go (suc i) s

-- The data so far, if the parser is in data.
abbrev pub with_data : Bytes → ℕ → Scan → Scan
with_data t i s =
    if is_data_kind s.kind then record s { text = s.text ++ slice t s.start_pos i } else s

-- `</`
unfoldable pub at_end_tag : Bytes → ℕ → Scan → Next
at_end_tag t i s =
    let s' = with_data t i s in
    if ltb (length t) (i + 2 + length s.name + 1)
    then fail s'
    else if looking_at s.name t (i + 2)
    then go (i + length s.name + 2) (record s' { kind = kind_name_end })
    else fail s'

unfoldable pub at_less : Bytes → ℕ → Scan → Next
unfolding opens_comment opens_cdata opens_declaration at_end_tag
at_less t i s =
    let next = get_or t (suc i) 0 in
    if opens_comment t i
    then go (suc i) (record s { old_kind = s.kind; kind = kind_comment })
    else if opens_cdata t i
    then go (suc i) (record (with_data t i s) {
      old_kind = s.kind;
      kind = kind_cdata;
      start_pos = some (i + 9);
    })
    else if opens_declaration t i
    then go (suc i) (record s { old_kind = s.kind; kind = kind_declaration })
    else if is_null_kind s.kind
    then go (suc i) (record s { kind = kind_name; start_pos = some (suc i) })
    else if next == b'/'
    then at_end_tag t i s
    else child

unfoldable pub at_greater : Bytes → ℕ → Scan → Next
at_greater t i s =
    let s' : Scan = record s { kind = kind_data; start_pos = some (suc i) } in
    if is_name_kind s.kind
    then go (suc i) (record s' { name = s.name ++ slice t s.start_pos i })
    else if is_name_end_kind s.kind
    then finish (record { result = some (suc i); left = built s })
    else if ltb i 2
    then fail s
    else if get_or t (i - 1) 0 == b'/'
    then finish (record { result = some (suc i); left = built s })
    else go (suc i) s'

unfoldable pub in_attr : Bytes → ℕ → ℕ → Scan → Next
in_attr t i c s = elim s.start_pos [
  | none ↦ go (suc i) (record s { start_pos = some i })
  | some start ↦
      if (c == b'=') && is_empty s.attr_name
      then (if get_or t (suc i) 0 == b'"'
          then go (i + 2) (record s {
            attr_name = s.attr_name ++ slice t s.start_pos i;
            start_pos = some (i + 2);
          })
          else fail s)
      else if c == b'"'
      then go (suc i) (record s {
        attributes = insert_entry s.attr_name (slice t s.start_pos i) s.attributes;
        attr_name = [];
        start_pos = none;
      })
      else go (suc i) s
]

-- A round outside comments and declarations.
unfoldable pub in_text : Bytes → ℕ → ℕ → Scan → Next
unfolding at_break in_cdata at_less at_greater in_attr
in_text t i c s =
    if is_break c
    then at_break t i s
    else if is_cdata_kind s.kind
    then in_cdata t i c s
    else if c == b'<'
    then at_less t i s
    else if c == b'>'
    then at_greater t i s
    else if is_attr_kind s.kind
    then in_attr t i c s
    else go (suc i) s

unfoldable pub step : Bytes → ℕ → Scan → Next
unfolding in_comment in_declaration in_text
step t i s = elim s.kind [
  | kind_comment ↦ in_comment t i (get_or t i 0) s
  | kind_declaration ↦ in_declaration i (get_or t i 0) s
  | _ ↦ in_text t i (get_or t i 0) s
]

-- The loop from `iPos` on. `none`: the fuel ran out.
unfoldable pub parse_loop : ℕ → Bytes → ℕ → Scan → Option Outcome
unfolding step
parse_loop zero t i s = none
parse_loop (suc fuel) t i s = elim (ltb i (length t)) [
  | false ↦ some (record { result = some i; left = built s })
  | true ↦ elim (step t i s) [
    | go j s' ↦ parse_loop fuel t j s'
    | finish o ↦ some o
    | child ↦ elim (parse_loop fuel (drop i t) 0 cleared) [
      | none ↦ none
      | some o ↦ elim o.result [
        | none ↦ some (record { result = none; left = built s })
        | some len ↦
            parse_loop fuel t (i + len)
              (record s { children = push_back o.left s.children; kind = kind_data_parse })
      ]
    ]
  ]
]

-- `Parse( pszText, iTextLen )`, with the fuel that is enough.
unfoldable pub parse : Bytes → Option Outcome
unfolding parse_loop
parse t = parse_loop (2 * length t + 1) t 0 cleared
