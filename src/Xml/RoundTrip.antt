-- ===== src/Xml/RoundTrip.antt =====
-- `Parse` on what `ToString` writes.
use dbmysqlpool.Base.{
  ℕ, suc, ◌+◌, ◌*◌, ◌<◌, Bool, true, [], ◌∷◌, ◌++◌, some, Bytes, length, length-append, drop, ◌≡◌,
  refl, ap, ◌∙◌, arith, subst, append_assoc,
}
use dbmysqlpool.Xml.Element.{Element, element, Elements, nil, cons, push_back}
use dbmysqlpool.Xml.Parse.{kind_data_parse, Scan, cleared, Outcome, parse}
use dbmysqlpool.Xml.Print.{tabs, body, lines, to_string}
use dbmysqlpool.Xml.Runs.{Runs, run_over, run_step, run_child, drop_head, drop_behind}
use dbmysqlpool.Xml.Steps.{pass_break, start_child}
use dbmysqlpool.Xml.TagRuns.{is_first, empty_tag_run}
use dbmysqlpool.Xml.Writable.{IsWritable, AreWritable}
use dbmysqlpool.Xml.ContentRuns.{
  after, is_inside, is_tab, tabs-is_tab, length-body, body-append, pass_inside, tabs_run, text_run,
  children_run,
}

module _ (use_tab : Bool) where
  mutual
    unfolding IsWritable body

    -- The first two bytes of an element.
    body_head :
        (e : Element) (depth : ℕ) (rest : Bytes)
        → IsWritable e
        → (c : ℕ) × (behind : Bytes) × (body use_tab depth e ++ rest ≡ b'<' ∷ c ∷ behind)
          × (is_first c ≡ true)
          × (0 < length (body use_tab depth e))
    body_head (element [] text m children) depth rest w = cc
    body_head (element (c ∷ ks) text m children) depth rest w =
        (c, _, refl, ground (arith, w.0), omega arith)

    body_run :
        (e : Element) (t : Bytes) (depth i q : ℕ) (rest : Bytes)
        → IsWritable e
        → drop i t ≡ body use_tab depth e ++ rest
        → q ≡ i + length (body use_tab depth e)
        → Runs t i cleared (record { result = some q; left = e })
    body_run (element [] text m children) t depth i q rest w d e = cc
    body_run (element (c ∷ ks) (b ∷ text) m (cons x xs)) t depth i q rest w d e = elim w.4 [ ]
    body_run (element (c ∷ ks) (b ∷ text) m nil) t depth i q rest w d e =
        text_run use_tab c b ks text m t depth i q rest w.0 w.1 w.2 w.3 d e
    body_run (element (c ∷ ks) [] m nil) t depth i q rest w d e =
        empty_tag_run t c ks m i q rest (ground (arith, w.0)) (ground (arith, w.0)) w.2 w.3
          (d ∙ body-append use_tab depth (c ∷ ks) [] m nil rest)
          (omega (arith, length-body use_tab depth c ks [] m nil))
    body_run (element (c ∷ ks) [] m (cons x xs)) t depth i q rest w d e =
        children_run use_tab c ks m x xs t depth i q rest
          (λ i' j' rest' s' o'. lines_run (cons x xs) t (suc depth) i' j' rest' s' o' w.5) w.0 w.2
          w.3 d e

    lines_run :
        (es : Elements) (t : Bytes) (depth i j : ℕ) (rest : Bytes) (s : Scan) (o : Outcome)
        → AreWritable es
        → is_inside s ≡ true
        → drop i t ≡ lines use_tab depth es ++ rest
        → j ≡ i + length (lines use_tab depth es)
        → (drop j t ≡ rest → Runs t j (after es s) o)
        → Runs t i s o
    lines_run nil t depth i j rest s o w k d e r =
        subst (λ (n : ℕ). Runs t n s o) {x = j} {y = i} (omega arith)
          (r (ap (λ (n : ℕ). drop n t) {x = j} {y = i} (omega arith) ∙ d))
    lines_run (cons e es) t depth i j rest s o w k d q r =
        let p = i + length (tabs use_tab depth) in
        let len = length (body use_tab depth e) in
        let later = lines use_tab depth es ++ rest in
        let s' : Scan = record s { children = push_back e s.children; kind = kind_data_parse } in
        tabs_run use_tab t depth i p (body use_tab depth e ++ (10 ∷ later)) s o k
          (d
            ∙ append_assoc (tabs use_tab depth)
                (body use_tab depth e ++ (10 ∷ lines use_tab depth es)) rest
            ∙ ap (◌++◌ (tabs use_tab depth))
                (append_assoc (body use_tab depth e) (10 ∷ lines use_tab depth es) rest))
          refl
          (λ d₁.
            let (c, behind, head, first, pos) = body_head e depth (10 ∷ later) w.0 in
            let d₂ = drop_behind (body use_tab depth e) p t (10 ∷ later) d₁ in
            run_child t p s o len e (drop_head p t b'<' (c ∷ behind) (d₁ ∙ head)).1 pos
              (ground (arith, k))
              (start_child t p c behind s (ground (arith, k)) (ground (arith, k)) (d₁ ∙ head)
                (ground (arith, first)) (ground (arith, first)))
              (body_run e (drop p t) depth 0 len (10 ∷ later) w.0 d₁ (omega arith))
              (run_step t (p + len) (suc (p + len)) 10 later s' s' o d₂ (omega arith)
                (pass_inside use_tab t (p + len) 10 later s' refl refl d₂)
                (lines_run es t depth (suc (p + len)) j rest s' o w.1 refl
                  ((drop_head (p + len) t 10 later d₂).2)
                  (omega (
                    arith,
                    length-append (tabs use_tab depth)
                        (body use_tab depth e ++ (10 ∷ lines use_tab depth es)),
                    length-append (body use_tab depth e) (10 ∷ lines use_tab depth es),
                  ))
                  r)))

  -- Parsing what was printed gives the element back, and the position of the line end that `ToString`
  -- puts last, with tabs or without, at any depth.
  pub parse-to_string :
      (depth : ℕ) (e : Element)
      → IsWritable e
      → parse (to_string [] use_tab depth e)
        ≡ some (record {
          result = some (length (tabs use_tab depth) + length (body use_tab depth e));
          left = e;
        })
  unfolding parse to_string
  parse-to_string depth e w =
      let t = tabs use_tab depth ++ (body use_tab depth e ++ 10 ∷ []) in
      let p = length (tabs use_tab depth) in
      run_over is_tab t cleared _
        (λ n c behind h at. pass_break t n c behind cleared refl (λ x. cc) (ground (arith, h)) at)
        (tabs use_tab depth) 0 p (body use_tab depth e ++ 10 ∷ []) (tabs-is_tab use_tab depth) refl
        (omega arith)
        (λ d. body_run e t depth p (p + length (body use_tab depth e)) (10 ∷ []) w d refl)
        (2 * length t + 1) (omega arith)
