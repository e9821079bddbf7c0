-- ===== src/Xml/Steps.antt =====
-- Single rounds of `Parse`, at a byte that is known.
use dbmysqlpool.Base.{
  ℕ, suc, ◌+◌, ◌-◌, ◌≤◌, Bool, true, false, not, ◌&&◌, ◌||◌, [], ◌∷◌, ◌++◌, none, some, Bytes, ◌==◌,
  ltb, length, drop, get_or, is_empty, ◌≡◌, ◌≢◌, refl, ap, ◌∙◌, arith,
}
use dbmysqlpool.Text.Find.{starts_with}
use dbmysqlpool.Xml.Attributes.{insert_entry}
use dbmysqlpool.Xml.Parse.{
  Kind, kind_null, kind_name, kind_attr, kind_data, kind_name_end, kind_data_parse, is_null_kind,
  Scan, built, go, finish, child, slice, step, is_break, at_break, at_less, at_end_tag, at_greater,
  in_attr, in_text, opens_comment, opens_cdata, opens_declaration, with_data, looking_at,
}
use dbmysqlpool.Xml.Runs.{drop_head, drop_behind}

-- A byte that ends no name, and one that ends no data.
abbrev pub is_plain : ℕ → Bool
is_plain c = not (is_break c) && not (c == b'<') && not (c == b'>')

abbrev pub is_solid : ℕ → Bool
is_solid c = not (c == b'<') && not (c == b'>')

abbrev pub is_textual : Kind → Bool
is_textual kind_null = true
is_textual kind_name = true
is_textual kind_attr = true
is_textual kind_data = true
is_textual kind_name_end = true
is_textual kind_data_parse = true
is_textual _ = false

module _ (t : Bytes) (i c : ℕ) (rest : Bytes) (s : Scan) where
  -- Outside comments, declarations and CDATA.
  step_textual : is_textual s.kind ≡ true → drop i t ≡ c ∷ rest → step t i s ≡ in_text t i c s
  unfolding step
  step_textual k d = ground (arith, drop_head i t c rest d)

  pub pass_name :
      s.kind ≡ kind_name → is_plain c ≡ true → drop i t ≡ c ∷ rest → step t i s ≡ go (suc i) s
  unfolding in_text
  pass_name k p d = ground (arith, step_textual (ground (arith, k)) d)

  pub pass_data :
      (s.kind ≡ kind_data) → is_solid c ≡ true → drop i t ≡ c ∷ rest → step t i s ≡ go (suc i) s
  unfolding in_text at_break
  pass_data k p d = ground (arith, step_textual (ground (arith, k)) d)

  pub pass_data_parse :
      (s.kind ≡ kind_data_parse)
      → is_solid c ≡ true
      → drop i t ≡ c ∷ rest
      → step t i s ≡ go (suc i) s
  unfolding in_text at_break
  pass_data_parse k p d = ground (arith, step_textual (ground (arith, k)) d)

  pub pass_break :
      is_textual s.kind ≡ true
      → s.kind ≢ kind_name
      → is_break c ≡ true
      → drop i t ≡ c ∷ rest
      → step t i s ≡ go (suc i) s
  unfolding in_text at_break
  pass_break k n p d = ground (arith, step_textual k d)

  -- The end of a name at a break.
  pub end_name_break :
      (p : ℕ) (word : Bytes)
      → s.kind ≡ kind_name
      → s.start_pos ≡ some p
      → slice t (some p) i ≡ word
      → is_break c ≡ true
      → drop i t ≡ c ∷ rest
      → step t i s
        ≡ go
            (suc i)
            (record s { name = s.name ++ word; kind = kind_attr; start_pos = none; attr_name = [] })
  unfolding in_text at_break
  end_name_break p word k st w b d = ground (arith, step_textual (ground (arith, k)) d)

  -- The end of a name at `>`.
  pub end_name_greater :
      (p : ℕ) (word : Bytes)
      → s.kind ≡ kind_name
      → s.start_pos ≡ some p
      → slice t (some p) i ≡ word
      → drop i t ≡ b'>' ∷ rest
      → c ≡ b'>'
      → step t i s
        ≡ go
            (suc i)
            (record s { name = s.name ++ word; kind = kind_data; start_pos = some (suc i) })
  unfolding in_text at_greater
  end_name_greater p word k st w d e =
      ground (arith, step_textual (ground (arith, k)) (ground (arith, e)))

  -- The end of a start tag with attributes.
  pub end_attr_greater :
      s.kind ≡ kind_attr
      → 2 ≤ i
      → get_or t (i - 1) 0 ≢ b'/'
      → c ≡ b'>'
      → drop i t ≡ c ∷ rest
      → step t i s ≡ go (suc i) (record s { kind = kind_data; start_pos = some (suc i) })
  unfolding in_text at_greater
  end_attr_greater k two last e d = ground (arith, step_textual (ground (arith, k)) d)

  -- The end of an element without an end tag.
  pub end_attr_slash :
      s.kind ≡ kind_attr
      → 2 ≤ i
      → get_or t (i - 1) 0 ≡ b'/'
      → c ≡ b'>'
      → drop i t ≡ c ∷ rest
      → step t i s ≡ finish (record { result = some (suc i); left = built s })
  unfolding in_text at_greater
  end_attr_slash k two last e d = ground (arith, step_textual (ground (arith, k)) d)

  -- The end of an end tag.
  pub end_name_end :
      s.kind ≡ kind_name_end
      → c ≡ b'>'
      → drop i t ≡ c ∷ rest
      → step t i s ≡ finish (record { result = some (suc i); left = built s })
  unfolding in_text at_greater
  end_name_end k e d = ground (arith, step_textual (ground (arith, k)) d)

  -- The first byte of an attribute's name, a further one, and one of its value.
  pub start_attr :
      s.kind ≡ kind_attr
      → s.start_pos ≡ none
      → is_plain c ≡ true
      → drop i t ≡ c ∷ rest
      → step t i s ≡ go (suc i) (record s { start_pos = some i })
  unfolding in_text in_attr
  start_attr k st p d = ground (arith, step_textual (ground (arith, k)) d)

  in_text_attr :
      s.kind ≡ kind_attr → is_plain c ≡ true → drop i t ≡ c ∷ rest → step t i s ≡ in_attr t i c s
  unfolding in_text
  in_text_attr k p d = ground (arith, step_textual (ground (arith, k)) d)

  in_attr_pass :
      (p : ℕ)
      → s.start_pos ≡ some p
      → (c == b'=') ≡ false
      → (c == b'"') ≡ false
      → in_attr t i c s ≡ go (suc i) s
  unfolding in_attr
  in_attr_pass p st no_equals no_quote = ground arith

  pub pass_attr :
      (p : ℕ)
      → s.kind ≡ kind_attr
      → s.start_pos ≡ some p
      → is_plain c ≡ true
      → (c == b'=') ≡ false
      → (c == b'"') ≡ false
      → drop i t ≡ c ∷ rest
      → step t i s ≡ go (suc i) s
  pass_attr p k st q no_equals no_quote d =
      in_text_attr k q d ∙ in_attr_pass p st no_equals no_quote

  pub pass_value :
      (p : ℕ)
      → s.kind ≡ kind_attr
      → s.start_pos ≡ some p
      → is_empty s.attr_name ≡ false
      → (is_solid c && not (c == b'"')) ≡ true
      → drop i t ≡ c ∷ rest
      → step t i s ≡ go (suc i) s
  unfolding in_text in_attr at_break
  pass_value p k st n q d = ground (arith, step_textual (ground (arith, k)) d)

  pub end_value :
      (p : ℕ) (word : Bytes)
      → s.kind ≡ kind_attr
      → s.start_pos ≡ some p
      → is_empty s.attr_name ≡ false
      → slice t (some p) i ≡ word
      → c ≡ b'"'
      → drop i t ≡ c ∷ rest
      → step t i s
        ≡ go (suc i) (record s {
          attributes = insert_entry s.attr_name word s.attributes;
          attr_name = [];
          start_pos = none;
        })
  unfolding in_text in_attr
  end_value p word k st n w e d = ground (arith, step_textual (ground (arith, k)) d)

  pub end_attr_name :
      (p : ℕ) (word behind : Bytes)
      → s.kind ≡ kind_attr
      → s.start_pos ≡ some p
      → s.attr_name ≡ []
      → slice t (some p) i ≡ word
      → c ≡ b'='
      → drop i t ≡ c ∷ rest
      → rest ≡ b'"' ∷ behind
      → step t i s ≡ go (i + 2) (record s { attr_name = word; start_pos = some (i + 2) })
  unfolding in_text in_attr
  end_attr_name p word behind k st n w e d q = ground (
    arith,
    step_textual (ground (arith, k)) d,
    drop_head i t c rest d,
    drop_head (suc i) t b'"' behind,
  )

module _ (t : Bytes) (i c : ℕ) (rest : Bytes) (s : Scan) where
  -- `<` before another byte than `!` and `?` opens no comment, CDATA or declaration.
  at_less-plain :
      drop i t ≡ b'<' ∷ c ∷ rest
      → ((c == b'!') || (c == b'?')) ≡ false
      → (opens_comment t i ≡ false)
        × (opens_cdata t i ≡ false)
        × (opens_declaration t i ≡ false)
        × (get_or t (suc i) 0 ≡ c)
  unfolding opens_comment opens_cdata opens_declaration
  at_less-plain d p =
      let behind = (drop_head i t b'<' (c ∷ rest) d).2 in
      let next = (drop_head (suc i) t c rest behind).0 in
      (
        rw behind (ground (arith, p)),
        rw behind (ground (arith, p)),
        rw next (ground (arith, p)),
        next,
      )

  -- `<` at the start of an element, in no element.
  pub start_name :
      s.kind ≡ kind_null
      → drop i t ≡ b'<' ∷ c ∷ rest
      → ((c == b'!') || (c == b'?')) ≡ false
      → step t i s ≡ go (suc i) (record s { kind = kind_name; start_pos = some (suc i) })
  unfolding in_text at_less
  start_name k d p =
      ground (arith, step_textual t i b'<' (c ∷ rest) s (ground (arith, k)) d, at_less-plain d p)

  -- `<` at the start of a child.
  pub start_child :
      is_textual s.kind ≡ true
      → is_null_kind s.kind ≡ false
      → drop i t ≡ b'<' ∷ c ∷ rest
      → ((c == b'!') || (c == b'?')) ≡ false
      → (c == b'/') ≡ false
      → step t i s ≡ child
  unfolding in_text at_less
  start_child k n d p q = ground (arith, step_textual t i b'<' (c ∷ rest) s k d, at_less-plain d p)

  -- `</`, with the data so far.
  start_end_tag :
      is_textual s.kind ≡ true
      → is_null_kind s.kind ≡ false
      → drop i t ≡ b'<' ∷ c ∷ rest
      → c ≡ b'/'
      → step t i s ≡ at_end_tag t i s
  unfolding in_text at_less
  start_end_tag k n d e =
      ground (arith, step_textual t i b'<' (c ∷ rest) s k d, at_less-plain d (ground (arith, e)))

starts_with_self : (word rest : Bytes) → starts_with word (word ++ rest) ≡ true
starts_with_self [] rest = refl
starts_with_self (c ∷ word) rest = ground (arith, starts_with_self word rest)

module _ (t : Bytes) (i : ℕ) (rest : Bytes) (s : Scan) where
  -- The end tag of the element, up to its `>`.
  pub end_tag_step :
      is_textual s.kind ≡ true
      → is_null_kind s.kind ≡ false
      → drop i t ≡ b'<' ∷ b'/' ∷ (s.name ++ (b'>' ∷ rest))
      → step t i s ≡ go (i + length s.name + 2) (record (with_data t i s) { kind = kind_name_end })
  unfolding at_end_tag
  end_tag_step k n d =
      let (h₁, lt₁, d₁) = drop_head i t b'<' (b'/' ∷ (s.name ++ (b'>' ∷ rest))) d in
      let (h₂, lt₂, d₂) = drop_head (suc i) t b'/' (s.name ++ (b'>' ∷ rest)) d₁ in
      let d₃ = drop_behind s.name (suc (suc i)) t (b'>' ∷ rest) d₂ in
      let (h₄, lt₄, d₄) = drop_head (suc (suc i) + length s.name) t b'>' rest d₃ in
      let here : looking_at s.name t (i + 2) ≡ true =
        ap (λ (m : ℕ). starts_with s.name (drop m t)) {x = i + 2} {y = suc (suc i)} (omega arith)
        ∙ (ap (starts_with s.name) d₂ ∙ starts_with_self s.name (b'>' ∷ rest)) in
      let fits : ltb (length t) (i + 2 + length s.name + 1) ≡ false = ground (arith, lt₄) in
      start_end_tag t i b'/' (s.name ++ (b'>' ∷ rest)) s k n d refl
      ∙ rw (fits, here, at_end_tag) refl
