-- ===== src/Xml/AttributeRuns.antt =====
-- `Parse` over the attributes that `ToString` writes.
use dbmysqlpool.Base.{
  ℕ, suc, ◌+◌, ◌-◌, Bool, true, false, not, ◌&&◌, [], ◌∷◌, ◌++◌, none, some, Bytes, ◌==◌, length,
  length-append, drop, get_or, is_empty, ◌≡◌, refl, sym, ap, ◌∙◌, arith, subst, append_assoc,
}
use dbmysqlpool.StringMap.{StringMap}
use dbmysqlpool.Xml.Attributes.{insert_entry, is_sorted, insert_entry-last}
use dbmysqlpool.Xml.Parse.{kind_attr, Scan, Outcome}
use dbmysqlpool.Xml.Print.{print_attributes}
use dbmysqlpool.Xml.Runs.{Runs, run_over, run_step, all_bytes, drop_head, slice_lem}
use dbmysqlpool.Xml.Steps.{
  is_plain, is_solid, start_attr, pass_attr, pass_value, end_value, end_attr_name, pass_break,
}

-- A byte of an attribute's name, and of its value.
abbrev pub is_key_byte : ℕ → Bool
is_key_byte c = is_plain c && not (c == b'=') && not (c == b'"')

abbrev pub is_value_byte : ℕ → Bool
is_value_byte c = is_solid c && not (c == b'"')

abbrev pub are_attributes : StringMap → Bool
are_attributes [] = true
are_attributes ((k, v) ∷ m) =
    not (is_empty k) && all_bytes is_key_byte k && all_bytes is_value_byte v && are_attributes m

-- In a start tag, behind these attributes.
abbrev pub in_tag : Scan → StringMap → Scan
in_tag s m = record s { kind = kind_attr; start_pos = none; attr_name = []; attributes = m }

key_byte-plain :
    (c : ℕ)
    → is_key_byte c ≡ true
    → (is_plain c ≡ true) × ((c == b'=') ≡ false) × ((c == b'"') ≡ false)
key_byte-plain c h = ground arith

pub no_key : (v : Bytes) (m : StringMap) → ¬ (are_attributes (([], v) ∷ m) ≡ true)
no_key v m h = ground arith

no_empty_key :
    (c : ℕ) (k v v' : Bytes) (m : StringMap) → ¬ (are_attributes ((c ∷ k, v) ∷ ([], v') ∷ m) ≡ true)
no_empty_key c k v v' m h = ground arith

pub print_attributes-append :
    (k v rest : Bytes) (m : StringMap)
    → print_attributes ((k, v) ∷ m) ++ rest
      ≡ b' ' ∷ (k ++ (b'=' ∷ b'"' ∷ (v ++ (b'"' ∷ (print_attributes m ++ rest)))))
print_attributes-append k v rest m = ground (
  arith,
  append_assoc k (b'=' ∷ b'"' ∷ (v ++ (b'"' ∷ print_attributes m))) rest,
  append_assoc v (b'"' ∷ print_attributes m) rest,
)

pub length-print_attributes :
    (c : ℕ) (k v : Bytes) (m : StringMap)
    → length (print_attributes ((c ∷ k, v) ∷ m))
      ≡ suc (length k + length v + 4) + length (print_attributes m)
length-print_attributes c k v m = ground (
  arith,
  length-append k (b'=' ∷ b'"' ∷ (v ++ (b'"' ∷ print_attributes m))),
  length-append v (b'"' ∷ print_attributes m),
)

module _ (t : Bytes) (s : Scan) (o : Outcome) where
  -- One attribute behind its space.
  attribute_run :
      (c : ℕ) (k v : Bytes) (acc : StringMap) (i e : ℕ) (rest : Bytes)
      → all_bytes is_key_byte (c ∷ k) ≡ true
      → all_bytes is_value_byte v ≡ true
      → drop i t ≡ (c ∷ k) ++ (b'=' ∷ b'"' ∷ (v ++ (b'"' ∷ rest)))
      → e ≡ i + (length k + length v + 4)
      → (drop e t ≡ rest
          → get_or t (e - 1) 0 ≡ b'"'
          → Runs t e (in_tag s (insert_entry (c ∷ k) v acc)) o)
      → Runs t i (in_tag s acc) o
  attribute_run c k v acc i e rest kh vh d eq r =
      let value = b'"' ∷ (v ++ (b'"' ∷ rest)) in
      let s₁ : Scan = record (in_tag s acc) { start_pos = some i } in
      let p = i + length (c ∷ k) in
      let s₂ : Scan = record s₁ { attr_name = c ∷ k; start_pos = some (p + 2) } in
      let q = p + 2 + length v in
      run_step t i (suc i) c (k ++ (b'=' ∷ value)) (in_tag s acc) s₁ o d (omega arith)
        (start_attr t i c (k ++ (b'=' ∷ value)) (in_tag s acc) refl refl (ground (arith, kh)) d)
        (run_over is_key_byte t s₁ o
          (λ j b behind h at.
            let (plain, no_equals, no_quote) = key_byte-plain b h in
            pass_attr t j b behind s₁ i refl refl plain no_equals no_quote at)
          k (suc i) p (b'=' ∷ value) (ground (arith, kh))
          ((drop_head i t c (k ++ (b'=' ∷ value)) d).2) (omega arith)
          (λ d₁.
            let d₂ = (drop_head p t b'=' value d₁).2 in
            let d₃ = (drop_head (suc p) t b'"' (v ++ (b'"' ∷ rest)) d₂).2 in
            let d₄ : drop (p + 2) t ≡ v ++ (b'"' ∷ rest) =
              ap (λ (n : ℕ). drop n t) {x = p + 2} {y = suc (suc p)} (omega arith) ∙ d₃ in
            run_step t p (p + 2) b'=' value s₁ s₂ o d₁ (omega arith)
              (end_attr_name t p b'=' value s₁ i (c ∷ k) (v ++ (b'"' ∷ rest)) refl refl refl
                (slice_lem t (c ∷ k) (b'=' ∷ value) i d) refl d₁ refl)
              (run_over is_value_byte t s₂ o
                (λ j b behind h at. pass_value t j b behind s₂ (p + 2) refl refl refl h at) v
                (p + 2) q (b'"' ∷ rest) vh d₄ refl
                (λ d₅.
                  let (quote, lt, behind) = drop_head q t b'"' rest d₅ in
                  let s₃ = in_tag s (insert_entry (c ∷ k) v acc) in
                  run_step t q (suc q) b'"' rest s₂ s₃ o d₅ (omega arith)
                    (end_value t q b'"' rest s₂ (p + 2) v refl refl refl
                      (slice_lem t v (b'"' ∷ rest) (p + 2) d₄) refl d₅)
                    (subst (λ (n : ℕ). Runs t n s₃ o) {x = e} {y = suc q} (omega arith)
                      (r (ap (λ (n : ℕ). drop n t) {x = e} {y = suc q} (omega arith) ∙ behind) (
                        ap (λ (n : ℕ). get_or t n 0) {x = e - 1} {y = q} (omega arith)
                        ∙ quote)))))))

  -- All attributes from the one behind this space on.
  pub attributes_run :
      (m : StringMap) (c : ℕ) (k v : Bytes) (acc : StringMap) (i e : ℕ) (rest : Bytes)
      → are_attributes ((c ∷ k, v) ∷ m) ≡ true
      → is_sorted (acc ++ (c ∷ k, v) ∷ m) ≡ true
      → drop i t ≡ (c ∷ k) ++ (b'=' ∷ b'"' ∷ (v ++ (b'"' ∷ (print_attributes m ++ rest))))
      → e ≡ i + (length k + length v + 4) + length (print_attributes m)
      → (drop e t ≡ rest
          → get_or t (e - 1) 0 ≡ b'"'
          → Runs t e (in_tag s (acc ++ (c ∷ k, v) ∷ m)) o)
      → Runs t i (in_tag s acc) o
  attributes_run [] c k v acc i e rest h sorted d eq r =
      attribute_run c k v acc i e rest (ground (arith, h)) (ground (arith, h)) d (omega arith)
        λ d' last.
          subst (λ a. Runs t e (in_tag s a) o) (sym (insert_entry-last (c ∷ k) v acc [] sorted))
            (r d' last)
  attributes_run (([], v') ∷ m) c k v acc i e rest h sorted d eq r =
      absurd (no_empty_key c k v v' m h)
  attributes_run ((c' ∷ k', v') ∷ m) c k v acc i e rest h sorted d eq r =
      let acc' = acc ++ (c ∷ k, v) ∷ [] in
      let whole = append_assoc acc ((c ∷ k, v) ∷ []) ((c' ∷ k', v') ∷ m) in
      let j = i + (length k + length v + 4) in
      let behind = (c' ∷ k') ++ (b'=' ∷ b'"' ∷ (v' ++ (b'"' ∷ (print_attributes m ++ rest)))) in
      attribute_run c k v acc i j (b' ' ∷ behind) (ground (arith, h)) (ground (arith, h))
        (subst (λ z. drop i t ≡ (c ∷ k) ++ (b'=' ∷ b'"' ∷ (v ++ (b'"' ∷ z))))
          (print_attributes-append (c' ∷ k') v' rest m) d)
        refl
        λ d' last.
          subst (λ a. Runs t j (in_tag s a) o)
            (sym (insert_entry-last (c ∷ k) v acc ((c' ∷ k', v') ∷ m) sorted))
            (run_step t j (suc j) b' ' behind (in_tag s acc') (in_tag s acc') o d' (omega arith)
              (pass_break t j b' ' behind (in_tag s acc') refl (λ e. cc) refl d')
              (attributes_run m c' k' v' acc' (suc j) e rest (ground (arith, h))
                (subst (λ z. is_sorted z ≡ true) (sym whole) sorted)
                ((drop_head j t b' ' behind d').2)
                (omega (arith, length-print_attributes c' k' v' m))
                (λ d₁ last₁. subst (λ z. Runs t e (in_tag s z) o) (sym whole) (r d₁ last₁))))
