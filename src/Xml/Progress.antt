-- ===== src/Xml/Progress.antt =====
-- Every round of `Parse` moves on, stays in the text, and leaves enough fuel.
use dbmysqlpool.Base.{
  ℕ, zero, suc, ◌+◌, ◌-◌, ◌*◌, ◌≤◌, ◌<◌, Bool, true, false, ◌&&◌, [], ◌∷◌, Option, none, some,
  Bytes, ◌==◌, ltb, if◌then◌else◌, length, length-drop, drop, get_or, ◌≡◌, ◌≢◌, refl, arith,
  Bool-cases, lt→ltb, ◌∙◌, ltb→lt, inl, inr,
}
use dbmysqlpool.Xml.Element.{Element, push_back}
use dbmysqlpool.Xml.Parse.{
  opens_comment, opens_cdata, opens_declaration, kind_name, closes_comment, closes_cdata, Kind,
  kind_data_parse, is_null_kind, Scan, cleared, built, Outcome, Next, go, finish, child, in_comment,
  in_declaration, at_break, in_cdata, at_end_tag, at_less, at_greater, in_attr, in_text, step,
  parse_loop, parse,
}

get_or-lt : (t : Bytes) (j : ℕ) → get_or t j 0 ≢ 0 → j < length t
get_or-lt [] j h = absurd (h refl)
get_or-lt (c ∷ t) zero h = omega arith
get_or-lt (c ∷ t) (suc j) h = omega (arith, get_or-lt t j h)

&&-first : (a b c : Bool) → (a && b && c) ≡ true → b ≡ true
&&-first a b c e = ground arith

-- A position behind this one, within the text.
abbrev pub IsAhead : Bytes → ℕ → ℕ → Type 0
IsAhead t i j = (i < j) × (j ≤ length t)

abbrev pub IsAheadOr : Bytes → ℕ → Option ℕ → Type 0
IsAheadOr t i none = Unit
IsAheadOr t i (some j) = IsAhead t i j

abbrev pub Proceeds : Bytes → ℕ → Kind → Next → Type 0
Proceeds t i kind (go j s) = IsAhead t i j
Proceeds t i kind (finish o) = IsAheadOr t i o.result
Proceeds t i kind child = is_null_kind kind ≡ false

if_Proceeds :
    (t : Bytes) (i : ℕ) (kind : Kind) (a b : Next) (test : Bool)
    → Proceeds t i kind a
    → Proceeds t i kind b
    → Proceeds t i kind (if test then a else b)
if_Proceeds t i kind a b true p q = p
if_Proceeds t i kind a b false p q = q

module _ (t : Bytes) (i : ℕ) (s : Scan) where
  closes_comment-lt : (c : ℕ) → closes_comment t i c ≡ true → i + 3 < length t
  unfolding closes_comment
  closes_comment-lt c e = ltb→lt _ _ (&&-first (c == b'-') (ltb (i + 3) (length t)) _ e)

  closes_cdata-lt : (c : ℕ) → closes_cdata t i c ≡ true → i + 3 < length t
  unfolding closes_cdata
  closes_cdata-lt c e = ltb→lt _ _ (&&-first (c == b']') (ltb (i + 3) (length t)) _ e)

  in_comment-Proceeds : i < length t → (c : ℕ) → Proceeds t i s.kind (in_comment t i c s)
  unfolding in_comment
  in_comment-Proceeds h c = ground (arith, closes_comment-lt c)

  in_declaration-Proceeds : i < length t → (c : ℕ) → Proceeds t i s.kind (in_declaration i c s)
  unfolding in_declaration
  in_declaration-Proceeds h c = ground arith

  at_break-Proceeds : i < length t → Proceeds t i s.kind (at_break t i s)
  unfolding at_break
  at_break-Proceeds h = ground arith

  in_cdata-Proceeds : i < length t → (c : ℕ) → Proceeds t i s.kind (in_cdata t i c s)
  unfolding in_cdata
  in_cdata-Proceeds h c = ground (arith, closes_cdata-lt c)

  at_end_tag-Proceeds : Proceeds t i s.kind (at_end_tag t i s)
  unfolding at_end_tag
  at_end_tag-Proceeds = ground arith

  at_tag-Proceeds :
      i < length t
      → Proceeds t i s.kind (
          if is_null_kind s.kind
          then go (suc i) (record s { kind = kind_name; start_pos = some (suc i) })
          else if get_or t (suc i) 0 == b'/'
          then at_end_tag t i s
          else child)
  at_tag-Proceeds h = ground (arith, at_end_tag-Proceeds)

  at_less-Proceeds : i < length t → Proceeds t i s.kind (at_less t i s)
  unfolding at_less
  at_less-Proceeds h = if_Proceeds t i s.kind _ _ (opens_comment t i) (omega arith) (
      if_Proceeds t i s.kind _ _ (opens_cdata t i) (omega arith)
        (if_Proceeds t i s.kind _ _ (opens_declaration t i) (omega arith) (at_tag-Proceeds h)))

  at_greater-Proceeds : i < length t → Proceeds t i s.kind (at_greater t i s)
  unfolding at_greater
  at_greater-Proceeds h = ground arith

  in_attr-Proceeds : i < length t → (c : ℕ) → Proceeds t i s.kind (in_attr t i c s)
  unfolding in_attr
  in_attr-Proceeds h c = ground (arith, get_or-lt t (suc i))

  in_text-Proceeds : i < length t → (c : ℕ) → Proceeds t i s.kind (in_text t i c s)
  unfolding in_text
  in_text-Proceeds h c = ground (
    arith,
    at_break-Proceeds h,
    in_cdata-Proceeds h c,
    at_less-Proceeds h,
    at_greater-Proceeds h,
    in_attr-Proceeds h c,
  )

  step-Proceeds : i < length t → Proceeds t i s.kind (step t i s)
  unfolding step
  step-Proceeds h = ground (
    arith,
    in_comment-Proceeds h (get_or t i 0),
    in_declaration-Proceeds h (get_or t i 0),
    in_text-Proceeds h (get_or t i 0),
  )

-- The fuel for the rest of the text: two rounds for each byte, and one for a child that starts here.
abbrev pub measure : Bytes → ℕ → Kind → ℕ
measure t i kind = 2 * (length t - i) + (if is_null_kind kind then 0 else 1)

pub bit_le : (kind : Kind) → (if is_null_kind kind then 0 else 1) ≤ 1
bit_le kind = ground arith

-- What a loop from `i` on gives: a result is a position from here on within the text, and behind this
-- one if there is a byte here.
abbrev pub IsFrom : Bytes → ℕ → Option ℕ → Type 0
IsFrom t i none = Unit
IsFrom t i (some j) = (i ≤ j) × (j ≤ length t) × (i < length t → i < j)

abbrev pub Ends : Bytes → ℕ → Option Outcome → Type 0
Ends t i r = (o : Outcome) × (r ≡ some o) × IsFrom t i o.result

AheadOr-From : (t : Bytes) (i : ℕ) (r : Option ℕ) → IsAheadOr t i r → IsFrom t i r
AheadOr-From t i none h = tt
AheadOr-From t i (some j) h = omega arith

From-shift : (t : Bytes) (i j : ℕ) (r : Option ℕ) → i < j → IsFrom t j r → IsFrom t i r
From-shift t i j none lt h = tt
From-shift t i j (some k) lt h = omega arith

-- A child's result, counted from where it starts.
From-child :
    (t : Bytes) (i len : ℕ) → i < length t → IsFrom (drop i t) 0 (some len) → IsAhead t i (i + len)
From-child t i len lt h = omega (arith, length-drop i t)

module _ (fuel : ℕ) (t : Bytes) (i : ℕ) (s : Scan) where
  pub loop_done :
      ltb i (length t) ≡ false
      → parse_loop (suc fuel) t i s ≡ some (record { result = some i; left = built s })
  unfolding parse_loop
  loop_done e = rw (e, parse_loop)

  pub loop_go :
      (j : ℕ) (s' : Scan)
      → ltb i (length t) ≡ true
      → step t i s ≡ go j s'
      → parse_loop (suc fuel) t i s ≡ parse_loop fuel t j s'
  unfolding parse_loop
  loop_go j s' e p = rw (e, p, parse_loop)

  pub loop_stop :
      (o : Outcome)
      → ltb i (length t) ≡ true
      → step t i s ≡ finish o
      → parse_loop (suc fuel) t i s ≡ some o
  unfolding parse_loop
  loop_stop o e p = rw (e, p, parse_loop)

  -- What a child's outcome leads to.
  abbrev pub after_child : Outcome → Option Outcome
  after_child o = elim o.result [
    | none ↦ some (record { result = none; left = built s })
    | some len ↦
        parse_loop fuel t (i + len)
          (record s { children = push_back o.left s.children; kind = kind_data_parse })
  ]

  pub loop_child :
      (o : Outcome)
      → ltb i (length t) ≡ true
      → step t i s ≡ child
      → parse_loop fuel (drop i t) 0 cleared ≡ some o
      → parse_loop (suc fuel) t i s ≡ after_child o
  unfolding parse_loop
  loop_child o e p q = rw (e, p, q, parse_loop)

  -- A round of the loop ends if those with less fuel do.
  round-Ends :
      ((u : Bytes) (j : ℕ) (v : Scan)
        → measure u j v.kind < fuel
        → j ≤ length u
        → Ends u j (parse_loop fuel u j v))
      → measure t i s.kind < suc fuel
      → i < length t
      → (n : Next) → step t i s ≡ n
      → Proceeds t i s.kind n
      → Ends t i (parse_loop (suc fuel) t i s)
  round-Ends ih m lt (go j s') p q =
      let (o, e, b) = ih t j s' (omega (arith, bit_le s'.kind)) q.1 in
      (o, loop_go j s' (lt→ltb i (length t) lt) p ∙ e, From-shift t i j o.result q.0 b)
  round-Ends ih m lt (finish o) p q =
      (o, loop_stop o (lt→ltb i (length t) lt) p, AheadOr-From t i o.result q)
  round-Ends ih m lt child p q =
      let (o, e, b) = ih (drop i t) 0 cleared (ground (arith, q, length-drop i t)) (omega arith) in
      let same = loop_child o (lt→ltb i (length t) lt) p e in after o.result o.left same b
    where
      after :
          (r : Option ℕ) (l : Element)
          → parse_loop (suc fuel) t i s ≡ after_child (record { result = r; left = l })
          → IsFrom (drop i t) 0 r
          → Ends t i (parse_loop (suc fuel) t i s)
      after none l same b = (record { result = none; left = built s }, same, tt)
      after (some len) l same b =
          let (f, g) = From-child t i len lt b in
          let s' : Scan = record s { children = push_back l s.children; kind = kind_data_parse } in
          let (o', e', b') = ih t (i + len) s' (ground (arith, q)) g in
          (o', same ∙ e', From-shift t i (i + len) o'.result f b')

-- With more fuel than the measure the loop returns.
pub parse_loop-Ends :
    (fuel : ℕ) (t : Bytes) (i : ℕ) (s : Scan)
    → measure t i s.kind < fuel
    → i ≤ length t
    → Ends t i (parse_loop fuel t i s)
parse_loop-Ends zero t i s m h = absurd (omega arith)
parse_loop-Ends (suc fuel) t i s m h = elim (Bool-cases (ltb i (length t))) [
  | inr e ↦ (record { result = some i; left = built s }, loop_done fuel t i s e, ground (arith, e))
  | inl e ↦
      let lt = ltb→lt i (length t) e in
      round-Ends fuel t i s (λ u j v. parse_loop-Ends fuel u j v) m lt (step t i s) refl
        (step-Proceeds t i s lt)
]

-- `Parse` ends on every text, and returns -1 or a position within the text, behind the first byte if
-- there is one.
pub parse-Ends : (t : Bytes) → Ends t 0 (parse t)
unfolding parse
parse-Ends t = parse_loop-Ends (2 * length t + 1) t 0 cleared (omega arith) (omega arith)
