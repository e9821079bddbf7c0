-- ===== src/Xml/Runs.antt =====
-- Runs of the loop of `Parse` over the parts of a text.
use dbmysqlpool.Base.{
  ℕ, zero, suc, ◌+◌, ◌-◌, ◌<◌, Bool, true, false, ◌&&◌, [], ◌∷◌, ◌++◌, some, Bytes, lt→ltb, length,
  length-drop, take, drop, get_or, ◌≡◌, refl, ap, ◌∙◌, arith, subst,
}
use dbmysqlpool.Xml.Element.{Element, push_back}
use dbmysqlpool.Xml.Parse.{
  kind_data_parse, is_null_kind, Scan, cleared, Outcome, go, finish, child, slice, step, parse_loop,
}
use dbmysqlpool.Xml.Progress.{measure, bit_le, loop_go, loop_stop, loop_child}

-- The byte at a place, and the text behind it.
pub drop_head :
    (i : ℕ) (t : Bytes) (c : ℕ) (rest : Bytes)
    → drop i t ≡ c ∷ rest
    → (get_or t i 0 ≡ c) × (i < length t) × (drop (suc i) t ≡ rest)
drop_head zero [] c rest d = cc
drop_head zero (x ∷ t) c rest d = ground arith
drop_head (suc i) [] c rest d = cc
drop_head (suc i) (x ∷ t) c rest d = ground (arith, drop_head i t c rest)

pub drop_behind :
    (seg : Bytes) (i : ℕ) (t rest : Bytes) → drop i t ≡ seg ++ rest → drop (i + length seg) t ≡ rest
drop_behind [] i t rest d = ap (λ (n : ℕ). drop n t) {x = i + 0} {y = i} (omega arith) ∙ d
drop_behind (c ∷ seg) i t rest d =
    ap (λ (n : ℕ). drop n t) {x = i + suc (length seg)} {y = suc i + length seg} (omega arith)
    ∙ drop_behind seg (suc i) t rest ((drop_head i t c (seg ++ rest) d).2)

take_head : (seg rest : Bytes) → take (length seg) (seg ++ rest) ≡ seg
take_head [] rest = refl
take_head (c ∷ seg) rest = ap (◌∷◌ c) (take_head seg rest)

pub slice_lem :
    (t seg rest : Bytes) (i : ℕ) → drop i t ≡ seg ++ rest → slice t (some i) (i + length seg) ≡ seg
slice_lem t seg rest i d =
    ap (λ (n : ℕ). take n (drop i t)) {x = i + length seg - i} {y = length seg} (omega arith)
    ∙ (ap (take (length seg)) d ∙ take_head seg rest)

abbrev pub all_bytes : (ℕ → Bool) → Bytes → Bool
all_bytes test [] = true
all_bytes test (c ∷ s) = test c && all_bytes test s

-- With enough fuel the loop gives this outcome.
abbrev pub Runs : Bytes → ℕ → Scan → Outcome → Type 0
Runs t i s o = (fuel : ℕ) → measure t i s.kind < fuel → parse_loop fuel t i s ≡ some o

module _ (t : Bytes) (i : ℕ) (s : Scan) (o : Outcome) where
  pub run_go :
      (j : ℕ) (s' : Scan)
      → i < length t
      → i < j
      → step t i s ≡ go j s'
      → Runs t j s' o
      → Runs t i s o
  run_go j s' lt ahead p r zero m = absurd (omega arith)
  run_go j s' lt ahead p r (suc fuel) m =
      loop_go fuel t i s j s' (lt→ltb i (length t) lt) p ∙ r fuel (omega (arith, bit_le s'.kind))

  pub run_stop : i < length t → step t i s ≡ finish o → Runs t i s o
  run_stop lt p zero m = absurd (omega arith)
  run_stop lt p (suc fuel) m = loop_stop fuel t i s o (lt→ltb i (length t) lt) p

  pub run_child :
      (len : ℕ) (e : Element)
      → i < length t
      → 0 < len
      → is_null_kind s.kind ≡ false
      → step t i s ≡ child
      → Runs (drop i t) 0 cleared (record { result = some len; left = e })
      → Runs t (i + len) (record s { children = push_back e s.children; kind = kind_data_parse }) o
      → Runs t i s o
  run_child len e lt ahead open_kind p inner r zero m = absurd (omega arith)
  run_child len e lt ahead open_kind p inner r (suc fuel) m =
      loop_child fuel t i s (record { result = some len; left = e }) (lt→ltb i (length t) lt) p
        (inner fuel (ground (arith, open_kind, length-drop i t)))
      ∙ r fuel (ground (arith, open_kind))

-- Bytes that a state passes over.
pub run_over :
    (quiet : ℕ → Bool) (t : Bytes) (s : Scan) (o : Outcome)
    → ((i c : ℕ) (rest : Bytes) → quiet c ≡ true → drop i t ≡ c ∷ rest → step t i s ≡ go (suc i) s)
    → (seg : Bytes) (i j : ℕ) (rest : Bytes) → all_bytes quiet seg ≡ true
    → drop i t ≡ seg ++ rest
    → j ≡ i + length seg
    → (drop j t ≡ rest → Runs t j s o)
    → Runs t i s o
run_over quiet t s o steps [] i j rest h d e r =
    subst (λ (n : ℕ). Runs t n s o) {x = j} {y = i} (omega arith)
      (r (ap (λ (n : ℕ). drop n t) {x = j} {y = i} (omega arith) ∙ d))
run_over quiet t s o steps (c ∷ seg) i j rest h d e r =
    let (here, lt, behind) = drop_head i t c (seg ++ rest) d in
    run_go t i s o (suc i) s lt (omega arith) (steps i c (seg ++ rest) (ground (arith, h)) d)
      (run_over quiet t s o steps seg (suc i) j rest (ground (arith, h)) behind (omega arith) r)

-- One round at a byte that is known.
pub run_step :
    (t : Bytes) (i j c : ℕ) (rest : Bytes) (s s' : Scan) (o : Outcome)
    → drop i t ≡ c ∷ rest
    → i < j
    → step t i s ≡ go j s'
    → Runs t j s' o
    → Runs t i s o
run_step t i j c rest s s' o d ahead p r = run_go t i s o j s' (drop_head i t c rest d).1 ahead p r
