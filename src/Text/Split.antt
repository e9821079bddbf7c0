-- ===== src/Text/Split.antt =====
-- SipPlatform/StringUtility.cpp: `SplitString`.
use dbmysqlpool.Base.{
  ℕ, suc, ◌+◌, ◌-◌, ◌<◌, ◌&&◌, not, Bool, true, false, List, [], ◌∷◌, ◌++◌, Option, none, some,
  Bytes, ◌≡◌, refl, sym, ap, ◌∙◌, arith, if◌then◌else◌, length, length-append, take, drop, is_empty,
  ◌==◌, append_assoc, append-nil, Bool-cases, inl, inr,
}
use dbmysqlpool.Text.Find.{occurs}

-- The bytes from `iStartPos` to `i` as one more entry, unless there are none; `none` is -1.
abbrev pub add_piece : Bytes → Option ℕ → ℕ → List Bytes → List Bytes
add_piece text none i list = list
add_piece text (some start) i list =
    if start == i then list else list ++ take (i - start) (drop start text) ∷ []

-- The loop at `i`, over the text that is left there, and what follows it.
unfoldable pub split_scan : ℕ → Bytes → Bytes → ℕ → Option ℕ → List Bytes → List Bytes
split_scan sep text [] i start list = add_piece text start i list
split_scan sep text (c ∷ rest) i start list =
    if c == sep
    then split_scan sep text rest (suc i) (some (i + 1)) (add_piece text start i list)
    else split_scan sep text rest (suc i) (if i == 0 then some 0 else start) list

unfoldable pub split_string : ℕ → Bytes → List Bytes
split_string sep text = split_scan sep text text 0 none []

-- The pieces between separators that are not empty, where `word` is the piece so far.
abbrev pub words : ℕ → Bytes → Bytes → List Bytes
words sep word [] = if is_empty word then [] else word ∷ []
words sep word (c ∷ s) =
    if c == sep
    then (if is_empty word then words sep [] s else word ∷ words sep [] s)
    else words sep (word ++ c ∷ []) s

drop_front : (front back : Bytes) → drop (length front) (front ++ back) ≡ back
drop_front [] back = refl
drop_front (c ∷ front) back = drop_front front back

take_front_of : (front back : Bytes) → take (length front) (front ++ back) ≡ front
take_front_of [] back = refl
take_front_of (c ∷ front) back = ap (◌∷◌ c) (take_front_of front back)

add_piece-word :
    (done word rest : Bytes) (list : List Bytes)
    → add_piece (done ++ (word ++ rest)) (some (length done)) (length done + length word) list
      ≡ (if is_empty word then list else list ++ word ∷ [])
add_piece-word done [] rest list = ground arith
add_piece-word done (c ∷ word) rest list = ground (
  arith,
  drop_front done (c ∷ word ++ rest),
  take_front_of (c ∷ word) rest,
  ap (λ (n : ℕ). take n (c ∷ word ++ rest)) {x = length done + suc (length word) - length done}
      {y = suc (length word)} (omega arith),
)

split_scan-words :
    (sep : ℕ) (rest done word : Bytes) (i : ℕ) (text : Bytes) (list : List Bytes)
    → i ≡ length done + length word
    → text ≡ done ++ (word ++ rest)
    → 0 < i
    → split_scan sep text rest i (some (length done)) list ≡ list ++ words sep word rest
unfolding split_scan
split_scan-words sep [] done word i text list at whole go =
    ground (arith, add_piece-word done word [] list, append-nil list)
split_scan-words sep (c ∷ rest) done word i text list at whole go = elim (Bool-cases (c == sep)) [
  | inl e ↦
      let list' = add_piece text (some (length done)) i list in
      let done' = done ++ (word ++ c ∷ []) in
      ground (
        arith,
        e,
        add_piece-word done word (c ∷ rest) list,
        length-append done (word ++ c ∷ []),
        length-append word (c ∷ []),
        append_assoc done (word ++ c ∷ []) rest,
        append_assoc word (c ∷ []) rest,
        append_assoc list (word ∷ []) (words sep [] rest),
        split_scan-words sep rest done' [] (suc i) text list',
      )
  | inr e ↦ ground (
    arith,
    e,
    length-append word (c ∷ []),
    append_assoc word (c ∷ []) rest,
    split_scan-words sep rest done (word ++ c ∷ []) (suc i) text list,
  )
]

-- `SplitString` gives the pieces between the separators, without the empty ones.
pub split_string-words : (sep : ℕ) (text : Bytes) → split_string sep text ≡ words sep [] text
unfolding split_string split_scan
split_string-words sep [] = refl
split_string-words sep (c ∷ rest) = ground (
  arith,
  split_scan-words sep rest (c ∷ []) [] 1 (c ∷ rest) [],
  split_scan-words sep rest [] (c ∷ []) 1 (c ∷ rest) [],
)

-- Entries with a separator between each two.
abbrev pub joined : ℕ → List Bytes → Bytes
joined sep [] = []
joined sep (w ∷ []) = w
joined sep (w ∷ v ∷ ws) = w ++ sep ∷ joined sep (v ∷ ws)

-- Each entry has a byte, and none is the separator.
abbrev pub are_words : ℕ → List Bytes → Bool
are_words sep [] = true
are_words sep (w ∷ ws) = not (is_empty w) && not (occurs sep w) && are_words sep ws

pub words-append :
    (sep : ℕ) (word w s : Bytes)
    → occurs sep w ≡ false
    → words sep word (w ++ s) ≡ words sep (word ++ w) s
words-append sep word [] s h = ap (λ v. words sep v s) (sym (append-nil word))
words-append sep word (c ∷ w) s h =
    ground (arith, append_assoc word (c ∷ []) w, words-append sep (word ++ c ∷ []) w s)

words-joined :
    (sep : ℕ) (ws : List Bytes) → are_words sep ws ≡ true → words sep [] (joined sep ws) ≡ ws
words-joined sep [] h = refl
words-joined sep (w ∷ []) h = ground (arith, words-append sep [] w [], append-nil w)
words-joined sep (w ∷ v ∷ ws) h =
    ground (arith, words-append sep [] w (sep ∷ joined sep (v ∷ ws)), words-joined sep (v ∷ ws))

-- Splitting undoes joining: entries that are not empty and do not hold the separator, put together with
-- one separator between each two, are what `SplitString` gives back.
pub split_string-joined :
    (sep : ℕ) (ws : List Bytes) → are_words sep ws ≡ true → split_string sep (joined sep ws) ≡ ws
split_string-joined sep ws h = split_string-words sep (joined sep ws) ∙ words-joined sep ws h
