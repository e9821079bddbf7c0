-- ===== src/Xml/TagRuns.antt =====
-- `Parse` over the start tags and end tags that `ToString` writes.
use dbmysqlpool.Base.{
  ℕ, suc, ◌+◌, ◌-◌, ◌≤◌, Bool, true, false, not, ◌&&◌, ◌||◌, [], ◌∷◌, ◌++◌, some, Bytes, ◌==◌,
  length, drop, get_or, ◌≡◌, refl, ap, ◌∙◌, arith, subst,
}
use dbmysqlpool.StringMap.{StringMap}
use dbmysqlpool.Xml.Attributes.{is_sorted}
use dbmysqlpool.Xml.Element.{element, nil}
use dbmysqlpool.Xml.Parse.{
  kind_name, kind_data, kind_name_end, is_null_kind, Scan, cleared, built, Outcome, slice,
  with_data,
}
use dbmysqlpool.Xml.Print.{print_attributes}
use dbmysqlpool.Xml.Runs.{
  Runs, run_over, run_step, run_stop, all_bytes, drop_head, drop_behind, slice_lem,
}
use dbmysqlpool.Xml.Steps.{
  is_plain, is_textual, pass_name, pass_break, start_name, end_name_break, end_name_greater,
  end_attr_greater, end_attr_slash, end_tag_step, end_name_end,
}
use dbmysqlpool.Xml.AttributeRuns.{
  are_attributes, in_tag, attributes_run, print_attributes-append, length-print_attributes, no_key,
}

-- The first byte of a name does not look like a declaration.
abbrev pub is_first : ℕ → Bool
is_first c = is_plain c && not ((c == b'!') || (c == b'?'))

abbrev pub named : Bytes → Scan
named name = record cleared { name = name }

-- Behind the `>` of a start tag.
abbrev pub in_content : Bytes → StringMap → ℕ → Scan
in_content name m i = record cleared {
  kind = kind_data;
  start_pos = some i;
  name = name;
  attributes = m;
}

module _ (t : Bytes) (o : Outcome) (c : ℕ) (ks : Bytes) where
  -- The name of an element.
  name_run :
      (i p : ℕ) (rest : Bytes)
      → is_first c ≡ true
      → all_bytes is_plain ks ≡ true
      → drop i t ≡ b'<' ∷ ((c ∷ ks) ++ rest)
      → p ≡ i + length ks + 2
      → (drop p t ≡ rest
          → slice t (some (suc i)) p ≡ c ∷ ks
          → Runs t p (record cleared { kind = kind_name; start_pos = some (suc i) }) o)
      → Runs t i cleared o
  name_run i p rest first plain d e r =
      let s₁ : Scan = record cleared { kind = kind_name; start_pos = some (suc i) } in
      let behind = (drop_head i t b'<' ((c ∷ ks) ++ rest) d).2 in
      run_step t i (suc i) b'<' ((c ∷ ks) ++ rest) cleared s₁ o d (omega arith)
        (start_name t i c (ks ++ rest) cleared refl d (ground (arith, first)))
        (run_over is_plain t s₁ o (λ j b after h at. pass_name t j b after s₁ refl h at) (c ∷ ks)
          (suc i) p rest (ground (arith, first, plain)) behind (omega arith)
          (λ d'. r d' (
            ap (slice t (some (suc i))) {x = p} {y = suc i + length (c ∷ ks)} (omega arith)
            ∙ slice_lem t (c ∷ ks) rest (suc i) behind)))

  -- A start tag with attributes, up to the byte behind them.
  tag_run :
      (k v : Bytes) (m : StringMap) (i e : ℕ) (rest : Bytes)
      → is_first c ≡ true
      → all_bytes is_plain ks ≡ true
      → are_attributes ((k, v) ∷ m) ≡ true
      → is_sorted ((k, v) ∷ m) ≡ true
      → drop i t ≡ b'<' ∷ ((c ∷ ks) ++ (print_attributes ((k, v) ∷ m) ++ rest))
      → e ≡ i + length ks + 2 + length (print_attributes ((k, v) ∷ m))
      → (drop e t ≡ rest
          → get_or t (e - 1) 0 ≡ b'"'
          → Runs t e (in_tag (named (c ∷ ks)) ((k, v) ∷ m)) o)
      → Runs t i cleared o
  tag_run [] v m i e rest first plain h sorted d q r = absurd (no_key v m h)
  tag_run (b ∷ k) v m i e rest first plain h sorted d q r =
      let p = i + length ks + 2 in
      let behind = (b ∷ k) ++ (b'=' ∷ b'"' ∷ (v ++ (b'"' ∷ (print_attributes m ++ rest)))) in
      let s₁ : Scan = record cleared { kind = kind_name; start_pos = some (suc i) } in
      name_run i p (b' ' ∷ behind) first plain
        (subst (λ z. drop i t ≡ b'<' ∷ ((c ∷ ks) ++ z)) (print_attributes-append (b ∷ k) v rest m)
          d)
        refl
        (λ d' word.
          run_step t p (suc p) b' ' behind s₁ (in_tag (named (c ∷ ks)) []) o d' (omega arith)
            (end_name_break t p b' ' behind s₁ (suc i) (c ∷ ks) refl refl word refl d')
            (attributes_run t (named (c ∷ ks)) o m b k v [] (suc p) e rest h sorted
              ((drop_head p t b' ' behind d').2) (omega (arith, length-print_attributes b k v m))
              r))

  -- A start tag with `>`.
  pub start_tag_run :
      (m : StringMap) (i q : ℕ) (rest : Bytes)
      → is_first c ≡ true
      → all_bytes is_plain ks ≡ true
      → are_attributes m ≡ true
      → is_sorted m ≡ true
      → drop i t ≡ b'<' ∷ ((c ∷ ks) ++ (print_attributes m ++ (b'>' ∷ rest)))
      → q ≡ i + length ks + 3 + length (print_attributes m)
      → (drop q t ≡ rest → Runs t q (in_content (c ∷ ks) m q) o)
      → Runs t i cleared o
  start_tag_run [] i q rest first plain h sorted d e r =
      let p = i + length ks + 2 in
      let s₁ : Scan = record cleared { kind = kind_name; start_pos = some (suc i) } in
      name_run i p (b'>' ∷ rest) first plain d refl (λ d' word.
        run_step t p (suc p) b'>' rest s₁ (in_content (c ∷ ks) [] (suc p)) o d' (omega arith)
          (end_name_greater t p b'>' rest s₁ (suc i) (c ∷ ks) refl refl word d' refl)
          (subst (λ (n : ℕ). Runs t n (in_content (c ∷ ks) [] n) o) {x = q} {y = suc p}
            (omega arith)
            (r (
              ap (λ (n : ℕ). drop n t) {x = q} {y = suc p} (omega arith)
              ∙ (drop_head p t b'>' rest d').2))))
  start_tag_run ((k, v) ∷ m) i q rest first plain h sorted d e r =
      let p = i + length ks + 2 + length (print_attributes ((k, v) ∷ m)) in
      let s₁ = in_tag (named (c ∷ ks)) ((k, v) ∷ m) in
      tag_run k v m i p (b'>' ∷ rest) first plain h sorted d refl (λ d' last.
        run_step t p (suc p) b'>' rest s₁ (in_content (c ∷ ks) ((k, v) ∷ m) (suc p)) o d'
          (omega arith)
          (end_attr_greater t p b'>' rest s₁ refl (omega arith) (ground (arith, last)) refl d')
          (subst (λ (n : ℕ). Runs t n (in_content (c ∷ ks) ((k, v) ∷ m) n) o) {x = q} {y = suc p}
            (omega arith)
            (r (
              ap (λ (n : ℕ). drop n t) {x = q} {y = suc p} (omega arith)
              ∙ (drop_head p t b'>' rest d').2))))

module _ (t : Bytes) (c : ℕ) (ks : Bytes) where
  -- The end of an element without an end tag, at its `/`.
  slash_run :
      (m : StringMap) (p q : ℕ) (rest : Bytes)
      → drop p t ≡ b'/' ∷ b'>' ∷ rest
      → 2 ≤ p
      → q ≡ p + 2
      → Runs t
          (suc p)
          (in_tag (named (c ∷ ks)) m)
          (record { result = some q; left = element (c ∷ ks) [] m nil })
  slash_run m p q rest d two e =
      let (slash, lt, behind) = drop_head p t b'/' (b'>' ∷ rest) d in
      let (greater, lt', behind') = drop_head (suc p) t b'>' rest behind in
      subst
        (λ (n : ℕ).
          Runs t (suc p) (in_tag (named (c ∷ ks)) m)
            (record { result = some n; left = element (c ∷ ks) [] m nil }))
        {x = suc (suc p)} {y = q} (omega arith)
        (run_stop t (suc p) (in_tag (named (c ∷ ks)) m) _ lt' (
          end_attr_slash t (suc p) b'>' rest (in_tag (named (c ∷ ks)) m) refl (omega arith)
            (ap (λ (n : ℕ). get_or t n 0) {x = suc p - 1} {y = p} (omega arith) ∙ slash) refl
            behind))

  pub empty_tag_run :
      (m : StringMap) (i q : ℕ) (rest : Bytes)
      → is_first c ≡ true
      → all_bytes is_plain ks ≡ true
      → are_attributes m ≡ true
      → is_sorted m ≡ true
      → drop i t ≡ b'<' ∷ ((c ∷ ks) ++ (print_attributes m ++ (b'/' ∷ b'>' ∷ rest)))
      → q ≡ i + length ks + 4 + length (print_attributes m)
      → Runs t i cleared (record { result = some q; left = element (c ∷ ks) [] m nil })
  empty_tag_run [] i q rest first plain h sorted d e =
      let p = i + length ks + 2 in
      let s₁ : Scan = record cleared { kind = kind_name; start_pos = some (suc i) } in
      name_run t _ c ks i p (b'/' ∷ b'>' ∷ rest) first plain d refl (λ d' word.
        run_step t p (suc p) b'/' (b'>' ∷ rest) s₁ (in_tag (named (c ∷ ks)) []) _ d' (omega arith)
          (end_name_break t p b'/' (b'>' ∷ rest) s₁ (suc i) (c ∷ ks) refl refl word refl d')
          (slash_run [] p q rest d' (omega arith) (omega arith)))
  empty_tag_run ((k, v) ∷ m) i q rest first plain h sorted d e =
      let p = i + length ks + 2 + length (print_attributes ((k, v) ∷ m)) in
      let s₁ = in_tag (named (c ∷ ks)) ((k, v) ∷ m) in
      tag_run t _ c ks k v m i p (b'/' ∷ b'>' ∷ rest) first plain h sorted d refl (λ d' last.
        run_step t p (suc p) b'/' (b'>' ∷ rest) s₁ s₁ _ d' (omega arith)
          (pass_break t p b'/' (b'>' ∷ rest) s₁ refl (λ x. cc) refl d')
          (slash_run ((k, v) ∷ m) p q rest d' (omega arith) (omega arith)))

-- An end tag.
pub end_tag_run :
    (t : Bytes) (i q : ℕ) (rest : Bytes) (s : Scan)
    → is_textual s.kind ≡ true
    → is_null_kind s.kind ≡ false
    → drop i t ≡ b'<' ∷ b'/' ∷ (s.name ++ (b'>' ∷ rest))
    → q ≡ i + length s.name + 3
    → Runs t i s (record { result = some q; left = built (with_data t i s) })
end_tag_run t i q rest s k n d e =
    let o : Outcome = record { result = some q; left = built (with_data t i s) } in
    let j = i + length s.name + 2 in
    let s' : Scan = record (with_data t i s) { kind = kind_name_end } in
    let d₁ = (drop_head i t b'<' (b'/' ∷ (s.name ++ (b'>' ∷ rest))) d).2 in
    let d₂ = (drop_head (suc i) t b'/' (s.name ++ (b'>' ∷ rest)) d₁).2 in
    let d₃ : drop j t ≡ b'>' ∷ rest =
      ap (λ (n : ℕ). drop n t) {x = j} {y = suc (suc i) + length s.name} (omega arith)
      ∙ drop_behind s.name (suc (suc i)) t (b'>' ∷ rest) d₂ in
    run_step t i j b'<' (b'/' ∷ (s.name ++ (b'>' ∷ rest))) s s' o d (omega arith)
      (end_tag_step t i rest s k n d)
      (subst (λ (n : ℕ). Runs t j s' (record { result = some n; left = built (with_data t i s) }))
        {x = suc j} {y = q} (omega arith)
        (run_stop t j s' _ (drop_head j t b'>' rest d₃).1
          (end_name_end t j b'>' rest s' refl refl d₃)))
