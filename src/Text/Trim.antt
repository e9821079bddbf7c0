-- ===== src/Text/Trim.antt =====
-- SipPlatform/StringUtility.cpp: `LeftTrimString`, `RightTrimString`, `TrimString` and `SplitString`.
use dbmysqlpool.Base.{
  ℕ, zero, suc, ◌≤◌, ◌<◌, ◌&&◌, ◌||◌, not, Bool, true, [], ◌∷◌, ◌++◌, Bytes, ◌≡◌, refl, sym, ap,
  ◌∙◌, arith, if◌then◌else◌, length, length-append, take, drop, ◌==◌, append_assoc, append-nil,
  get_or, Bool-cases, inl, inr,
}

-- `c == ' ' || c == '\t'`
abbrev pub is_blank : ℕ → Bool
is_blank c = (c == b' ') || (c == 9)

-- The loop of `LeftTrimString` from `iIndex` on, over the text that is left there.
unfoldable pub left_scan : ℕ → Bytes → Bytes → Bytes
left_scan index [] text = []
left_scan index (c ∷ rest) text =
    if is_blank c then left_scan (suc index) rest text else drop index text

unfoldable pub left_trim_string : Bytes → Bytes
left_trim_string text = left_scan 0 text text

-- The loop of `RightTrimString`, where `iIndex + 1` rounds are left.
unfoldable pub right_scan : ℕ → Bytes → Bytes
right_scan zero text = []
right_scan (suc index) text =
    if is_blank (get_or text index 0) then right_scan index text else take (suc index) text

unfoldable pub right_trim_string : Bytes → Bytes
right_trim_string text = right_scan (length text) text

unfoldable pub trim_string : Bytes → Bytes
trim_string text = right_trim_string (left_trim_string text)

abbrev pub all_blank : Bytes → Bool
all_blank [] = true
all_blank (c ∷ s) = is_blank c && all_blank s

-- The first byte, if there is one, is not blank; the last one.
abbrev pub starts_solid : Bytes → Bool
starts_solid [] = true
starts_solid (c ∷ s) = not (is_blank c)

abbrev pub ends_solid : Bytes → Bool
ends_solid [] = true
ends_solid (c ∷ []) = not (is_blank c)
ends_solid (c ∷ d ∷ s) = ends_solid (d ∷ s)

-- The part of the text from the first byte that is not blank.
abbrev pub solid_part : Bytes → Bytes
solid_part [] = []
solid_part (c ∷ s) = if is_blank c then solid_part s else c ∷ s

drop_behind : (xs ys : Bytes) → drop (length xs) (xs ++ ys) ≡ ys
drop_behind [] ys = refl
drop_behind (x ∷ xs) ys = drop_behind xs ys

left_scan-solid_part :
    (seen rest : Bytes) → left_scan (length seen) rest (seen ++ rest) ≡ solid_part rest
unfolding left_scan
left_scan-solid_part seen [] = refl
left_scan-solid_part seen (c ∷ rest) = ground (
  arith,
  drop_behind seen (c ∷ rest),
  length-append seen (c ∷ []),
  append_assoc seen (c ∷ []) rest,
  left_scan-solid_part (seen ++ c ∷ []) rest,
)

solid_part_lem :
    (s : Bytes)
    → (starts_solid (solid_part s) ≡ true)
      × (blanks : Bytes) × (all_blank blanks ≡ true)
      × (s ≡ blanks ++ solid_part s)
solid_part_lem [] = (refl, [], refl, refl)
solid_part_lem (c ∷ s) = elim (Bool-cases (is_blank c)) [
  | inl e ↦
      let (solid, blanks, blank, split) = solid_part_lem s in
      rw e (solid, c ∷ blanks, rw (e, blank), ap (◌∷◌ c) split)
  | inr e ↦ rw e (rw e, [], refl, refl)
]

take-suc :
    (index : ℕ) (s : Bytes)
    → index < length s
    → take (suc index) s ≡ take index s ++ get_or s index 0 ∷ []
take-suc index [] lt = absurd (omega arith)
take-suc zero (c ∷ s) lt = refl
take-suc (suc index) (c ∷ s) lt = ap (◌∷◌ c) (take-suc index s (omega arith))

take_all : (s : Bytes) → take (length s) s ≡ s
take_all [] = refl
take_all (c ∷ s) = ap (◌∷◌ c) (take_all s)

all_blank-append :
    (s : Bytes) (c : ℕ) → all_blank s ≡ true → is_blank c ≡ true → all_blank (s ++ c ∷ []) ≡ true
all_blank-append [] c h e = ground arith
all_blank-append (d ∷ s) c h e = ground (arith, all_blank-append s c)

ends_solid-append : (s : Bytes) (c : ℕ) → ends_solid (s ++ c ∷ []) ≡ not (is_blank c)
ends_solid-append [] c = refl
ends_solid-append (d ∷ []) c = refl
ends_solid-append (d ∷ e ∷ s) c = ends_solid-append (e ∷ s) c

starts_solid-append : (s t : Bytes) → starts_solid (s ++ t) ≡ true → starts_solid s ≡ true
starts_solid-append [] t h = refl
starts_solid-append (c ∷ s) t h = h

right_scan_lem :
    (index : ℕ) (s : Bytes)
    → index ≤ length s
    → (ends_solid (right_scan index s) ≡ true)
      × (blanks : Bytes) × (all_blank blanks ≡ true)
      × (take index s ≡ right_scan index s ++ blanks)
unfolding right_scan
right_scan_lem zero s le = (refl, [], refl, refl)
right_scan_lem (suc index) s le = elim (Bool-cases (is_blank (get_or s index 0))) [
  | inl e ↦
      let (solid, blanks, blank, split) = right_scan_lem index s (omega arith) in
      rw (e, right_scan)
        (
          solid,
          blanks ++ get_or s index 0 ∷ [],
          all_blank-append blanks (get_or s index 0) blank e,
          take-suc index s (omega arith)
              ∙ ap (λ r. r ++ get_or s index 0 ∷ []) split
              ∙ append_assoc (right_scan index s) blanks (get_or s index 0 ∷ []),
        )
  | inr e ↦
      rw (e, right_scan)
        (
          ground (
            arith,
            take-suc index s (omega arith),
            ends_solid-append (take index s) (get_or s index 0),
            e,
          ),
          [],
          refl,
          sym (append-nil (take (suc index) s)),
        )
]

-- `TrimString` takes blanks from both ends and nothing else: the text is its result between two runs of
-- spaces and tabs, and the result neither starts nor ends with one.
pub trim_string_lem :
    (s : Bytes)
    → (starts_solid (trim_string s) ≡ true)
      × (ends_solid (trim_string s) ≡ true)
      × (front : Bytes) × (back : Bytes) × (all_blank front ≡ true)
      × (all_blank back ≡ true)
      × (s ≡ front ++ (trim_string s ++ back))
unfolding trim_string left_trim_string right_trim_string
trim_string_lem s =
    let t = left_scan 0 s s in
    let same : t ≡ solid_part s = left_scan-solid_part [] s in
    let (solid, front, blank, split) = solid_part_lem s in
    let (ends, back, blank', split') = right_scan_lem (length t) t (omega arith) in
    let whole : t ≡ right_scan (length t) t ++ back = sym (take_all t) ∙ split' in
    (
      starts_solid-append (right_scan (length t) t) back (ground (arith, whole, same, solid)),
      ends,
      front,
      back,
      blank,
      blank',
      split ∙ ap (λ r. front ++ r) (sym same ∙ whole),
    )
