-- ===== src/Xml/ContentRuns.antt =====
-- `Parse` over the data and over the children that `ToString` writes.
use dbmysqlpool.Base.{
  ℕ, zero, suc, ◌+◌, Bool, true, false, ◌||◌, [], ◌∷◌, ◌++◌, some, Bytes, ◌==◌, length,
  length-append, drop, ◌≡◌, refl, sym, ap, ◌∙◌, arith, subst, append_assoc,
}
use dbmysqlpool.StringMap.{StringMap}
use dbmysqlpool.Xml.Attributes.{is_sorted}
use dbmysqlpool.Xml.Element.{Element, element, Elements, nil, cons, push_back, join}
use dbmysqlpool.Xml.Parse.{step, kind_data, kind_data_parse, Scan, cleared, Outcome, go}
use dbmysqlpool.Xml.Print.{print_attributes, tabs, end_tag, content, body, lines}
use dbmysqlpool.Xml.Runs.{Runs, run_over, run_step, all_bytes, drop_head, slice_lem}
use dbmysqlpool.Xml.Steps.{is_solid, pass_data, pass_break}
use dbmysqlpool.Xml.AttributeRuns.{are_attributes}
use dbmysqlpool.Xml.TagRuns.{in_content, start_tag_run, end_tag_run}
use dbmysqlpool.Xml.Writable.{is_name}

-- The state of the parser behind these children.
abbrev pub after : Elements → Scan → Scan
after nil s = s
after (cons e es) s =
    after es (record s { children = push_back e s.children; kind = kind_data_parse })

join-push_back : (e : Element) (xs ys : Elements) → join (push_back e xs) ys ≡ join xs (cons e ys)
join-push_back e nil ys = refl
join-push_back e (cons x xs) ys = ap (cons x) (join-push_back e xs ys)

join-nil : (xs : Elements) → join xs nil ≡ xs
join-nil nil = refl
join-nil (cons x xs) = ap (cons x) (join-nil xs)

after-join :
    (es : Elements) (e : Element) (s : Scan)
    → after (cons e es) s
      ≡ record s { children = join s.children (cons e es); kind = kind_data_parse }
after-join nil e s =
    ap (λ z. record s { children = z; kind = kind_data_parse })
      (sym (join-nil (push_back e s.children)) ∙ join-push_back e s.children nil)
after-join (cons f es) e s =
    after-join es f (record s { children = push_back e s.children; kind = kind_data_parse })
    ∙ ap (λ z. record s { children = z; kind = kind_data_parse })
        (join-push_back e s.children (cons f es))

-- Within an element, behind its start tag.
abbrev pub is_inside : Scan → Bool
is_inside s = elim s.kind [ kind_data ↦ true | kind_data_parse ↦ true | _ ↦ false ]

abbrev pub is_tab : ℕ → Bool
is_tab c = c == 9

pub tabs-is_tab : (use_tab : Bool) (depth : ℕ) → all_bytes is_tab (tabs use_tab depth) ≡ true
tabs-is_tab false depth = refl
tabs-is_tab true zero = refl
tabs-is_tab true (suc depth) = tabs-is_tab true depth

module _ (use_tab : Bool) where
  pub length-body :
      (depth : ℕ) (c : ℕ) (ks text : Bytes) (m : StringMap) (children : Elements)
      → length (body use_tab depth (element (c ∷ ks) text m children))
        ≡ length ks
          + 2
          + length (print_attributes m)
          + length
              (content use_tab depth (c ∷ ks) text children (lines use_tab (suc depth) children))
  unfolding body
  length-body depth c ks text m children =
      let rest =
        content use_tab depth (c ∷ ks) text children (lines use_tab (suc depth) children) in
      ground (
        arith,
        length-append ks (print_attributes m ++ rest),
        length-append (print_attributes m) rest,
      )

  pub body-append :
      (depth : ℕ) (name text : Bytes) (m : StringMap) (children : Elements) (rest : Bytes)
      → body use_tab depth (element name text m children) ++ rest
        ≡ b'<'
          ∷ (name
              ++ (print_attributes m
                  ++ (content use_tab depth name text children (lines use_tab (suc depth) children)
                      ++ rest)))
  unfolding body
  body-append depth name text m children rest =
      let inner = content use_tab depth name text children (lines use_tab (suc depth) children) in
      ground (
        arith,
        append_assoc name (print_attributes m ++ inner) rest,
        append_assoc (print_attributes m) inner rest,
      )

  end_tag-append :
      (name rest : Bytes) → end_tag name ++ rest ≡ b'<' ∷ b'/' ∷ (name ++ (b'>' ∷ rest))
  end_tag-append name rest = ground (arith, append_assoc name (b'>' ∷ []) rest)

  -- The break bytes that `ToString` writes are passed over inside an element.
  pub pass_inside :
      (t : Bytes) (i c : ℕ) (rest : Bytes) (s : Scan)
      → is_inside s ≡ true
      → ((c == 9) || (c == 10)) ≡ true
      → drop i t ≡ c ∷ rest
      → step t i s ≡ go (suc i) s
  pass_inside t i c rest s k b d =
      pass_break t i c rest s (ground (arith, k)) (λ n. ground (arith, k, n)) (ground (arith, b)) d

  pub tabs_run :
      (t : Bytes) (depth i j : ℕ) (rest : Bytes) (s : Scan) (o : Outcome)
      → is_inside s ≡ true
      → drop i t ≡ tabs use_tab depth ++ rest
      → j ≡ i + length (tabs use_tab depth)
      → (drop j t ≡ rest → Runs t j s o)
      → Runs t i s o
  tabs_run t depth i j rest s o k d e r =
      run_over is_tab t s o (λ n c behind h at. pass_inside t n c behind s k (ground (arith, h)) at)
        (tabs use_tab depth) i j rest (tabs-is_tab use_tab depth) d e r

  -- An element with data.
  pub text_run :
      (c b : ℕ) (ks text : Bytes) (m : StringMap) (t : Bytes) (depth i q : ℕ) (rest : Bytes)
      → is_name (c ∷ ks) ≡ true
      → all_bytes is_solid (b ∷ text) ≡ true
      → are_attributes m ≡ true
      → is_sorted m ≡ true
      → drop i t ≡ body use_tab depth (element (c ∷ ks) (b ∷ text) m nil) ++ rest
      → q ≡ i + length (body use_tab depth (element (c ∷ ks) (b ∷ text) m nil))
      → Runs t i cleared (record { result = some q; left = element (c ∷ ks) (b ∷ text) m nil })
  text_run c b ks text m t depth i q rest name solid attrs sorted d e =
      let q₀ = i + length ks + 3 + length (print_attributes m) in
      let j = q₀ + length (b ∷ text) in
      let s = in_content (c ∷ ks) m q₀ in
      let tail = b'<' ∷ b'/' ∷ ((c ∷ ks) ++ (b'>' ∷ rest)) in
      let whole : content use_tab depth (c ∷ ks) (b ∷ text) nil [] ++ rest
          ≡ b'>' ∷ ((b ∷ text) ++ tail) =
        ap (◌∷◌ b'>') (
          append_assoc (b ∷ text) (end_tag (c ∷ ks)) rest
          ∙ ap (◌++◌ (b ∷ text)) (end_tag-append (c ∷ ks) rest)) in
      start_tag_run t _ c ks m i q₀ ((b ∷ text) ++ tail) (ground (arith, name))
        (ground (arith, name)) attrs sorted
        (d
          ∙ body-append depth (c ∷ ks) (b ∷ text) m nil rest
          ∙ ap (λ z. b'<' ∷ ((c ∷ ks) ++ (print_attributes m ++ z))) whole)
        refl
        (λ d'.
          run_over is_solid t s _ (λ n x behind h at. pass_data t n x behind s refl h at) (b ∷ text)
            q₀ j tail solid d' refl
            (λ d''.
              subst (λ z. Runs t j s (record { result = some q; left = element (c ∷ ks) z m nil }))
                (slice_lem t (b ∷ text) tail q₀ d')
                (end_tag_run t j q rest s refl refl d'' (
                  omega (
                    arith,
                    length-body depth c ks (b ∷ text) m nil,
                    length-append text (end_tag (c ∷ ks)),
                    length-append ks (b'>' ∷ []),
                  )))))

  -- An element with children, given the run over these.
  pub children_run :
      (c : ℕ) (ks : Bytes) (m : StringMap) (x : Element) (xs : Elements) (t : Bytes) (depth i q : ℕ)
      (rest : Bytes)
      → ((i j : ℕ) (rest : Bytes) (s : Scan) (o : Outcome)
          → is_inside s ≡ true
          → drop i t ≡ lines use_tab (suc depth) (cons x xs) ++ rest
          → j ≡ i + length (lines use_tab (suc depth) (cons x xs))
          → (drop j t ≡ rest → Runs t j (after (cons x xs) s) o)
          → Runs t i s o)
      → is_name (c ∷ ks) ≡ true
      → are_attributes m ≡ true
      → is_sorted m ≡ true
      → drop i t ≡ body use_tab depth (element (c ∷ ks) [] m (cons x xs)) ++ rest
      → q ≡ i + length (body use_tab depth (element (c ∷ ks) [] m (cons x xs)))
      → Runs t i cleared (record { result = some q; left = element (c ∷ ks) [] m (cons x xs) })
  children_run c ks m x xs t depth i q rest inner name attrs sorted d e =
      let q₀ = i + length ks + 3 + length (print_attributes m) in
      let printed = lines use_tab (suc depth) (cons x xs) in
      let j = suc q₀ + length printed in
      let p = j + length (tabs use_tab depth) in
      let s = in_content (c ∷ ks) m q₀ in
      let s' : Scan = record s { children = cons x xs; kind = kind_data_parse } in
      let tail = b'<' ∷ b'/' ∷ ((c ∷ ks) ++ (b'>' ∷ rest)) in
      let whole : content use_tab depth (c ∷ ks) [] (cons x xs) printed ++ rest
          ≡ b'>' ∷ 10 ∷ (printed ++ (tabs use_tab depth ++ tail)) =
        ap (λ z. b'>' ∷ 10 ∷ z)
          (append_assoc printed (tabs use_tab depth ++ end_tag (c ∷ ks)) rest
            ∙ ap (◌++◌ printed) (
                append_assoc (tabs use_tab depth) (end_tag (c ∷ ks)) rest
                ∙ ap (◌++◌ (tabs use_tab depth)) (end_tag-append (c ∷ ks) rest))) in
      start_tag_run t _ c ks m i q₀ (10 ∷ (printed ++ (tabs use_tab depth ++ tail)))
        (ground (arith, name)) (ground (arith, name)) attrs sorted
        (d
          ∙ body-append depth (c ∷ ks) [] m (cons x xs) rest
          ∙ ap (λ z. b'<' ∷ ((c ∷ ks) ++ (print_attributes m ++ z))) whole)
        refl
        (λ d₁.
          run_step t q₀ (suc q₀) 10 (printed ++ (tabs use_tab depth ++ tail)) s s _ d₁ (omega arith)
            (pass_inside t q₀ 10 (printed ++ (tabs use_tab depth ++ tail)) s refl refl d₁)
            (inner (suc q₀) j (tabs use_tab depth ++ tail) s _ refl
              ((drop_head q₀ t 10 (printed ++ (tabs use_tab depth ++ tail)) d₁).2) refl
              (λ d₂.
                subst
                  (λ z.
                    Runs t j z
                      (record { result = some q; left = element (c ∷ ks) [] m (cons x xs) }))
                  (sym (after-join xs x s))
                  (tabs_run t depth j p tail s' _ refl d₂ refl (λ d₃.
                    end_tag_run t p q rest s' refl refl d₃ (
                      omega (
                        arith,
                        length-body depth c ks [] m (cons x xs),
                        length-append printed (tabs use_tab depth ++ end_tag (c ∷ ks)),
                        length-append (tabs use_tab depth) (end_tag (c ∷ ks)),
                        length-append ks (b'>' ∷ []),
                      )))))))
