-- ===== src/Tools/Entries.antt =====
-- MySQLLogExecute/MySQLLogExecute.cpp: what is read of a general log.
use dbmysqlpool.Base.{
  append-not_empty, ℕ, ◌+◌, ◌≤◌, Bool, true, false, not, ◌&&◌, ◌||◌, List, [], ◌∷◌, ◌++◌, Bytes,
  codes, ◌==◌, leb, length, length-append, length-drop, drop, is_empty, ◌≡◌, refl, arith, ap, ◌∙◌,
  sym, append_assoc, append-nil, Bool-cases, inl, inr,
}
use dbmysqlpool.Text.Find.{starts_with}
use dbmysqlpool.Tools.LogFile.{
  fgets_loop, is_query_at, push_text, take_cut, take_line, take_lines, read_log,
}
use dbmysqlpool.Tools.Lines.{
  fgets_loop-line, chomp-line, drop_at, drop_within, starts_with-append, is_line,
}

-- An entry of the log: what stands in front of `Query`, one byte behind it, the first line of the text, and
-- the lines that follow.
pub record Entry : Type 0 where
  pub header : Bytes
  pub separator : ℕ
  pub first : Bytes
  pub later : List Bytes

abbrev pub first_line : Entry → Bytes
first_line e = e.header ++ (codes "Query" ++ e.separator ∷ e.first)

abbrev pub lines_text : List Bytes → Bytes
lines_text [] = []
lines_text (line ∷ lines) = line ++ 10 ∷ lines_text lines

abbrev pub log_text : List Entry → Bytes
log_text [] = []
log_text (e ∷ es) = lines_text (first_line e ∷ e.later) ++ log_text es

abbrev pub joined : Bytes → List Bytes → Bytes
joined sql [] = sql
joined sql (line ∷ lines) = joined (sql ++ line) lines

abbrev pub texts_of : List Entry → List Bytes
texts_of [] = []
texts_of (e ∷ es) = joined e.first e.later ∷ texts_of es

-- The two forms of a header, without and with the time.
abbrev pub is_header : Bytes → Bool
is_header h = (length h == 9) || ((length h == 23) && not (starts_with (codes "Query") (drop 9 h)))

abbrev pub is_later : Bytes → Bool
is_later line =
    is_line line
    && not (is_query_at 20 9 (length line + 1) line || is_query_at 34 23 (length line + 1) line)

abbrev pub are_later : List Bytes → Bool
are_later [] = true
are_later (line ∷ lines) = is_later line && are_later lines

abbrev pub is_entry : Entry → Bool
is_entry e =
    is_header e.header && leb 4 (length e.first) && is_line (first_line e) && are_later e.later

abbrev pub are_entries : List Entry → Bool
are_entries [] = true
are_entries (e ∷ es) = is_entry e && are_entries es

drop-first_line :
    (n : ℕ) (e : Entry)
    → length e.header ≡ n
    → (drop n (first_line e) ≡ codes "Query" ++ e.separator ∷ e.first)
      × (drop (n + 6) (first_line e) ≡ e.first)
drop-first_line n e h =
    let front = e.header ++ (codes "Query" ++ e.separator ∷ []) in
    (
      drop_at n e.header (codes "Query" ++ e.separator ∷ e.first) h,
      ap (drop (n + 6)) (sym (append_assoc e.header (codes "Query" ++ e.separator ∷ []) e.first))
          ∙ drop_at (n + 6) front e.first
              (omega (arith, length-append e.header (codes "Query" ++ e.separator ∷ []))),
    )

is_query_at-header :
    (n : ℕ) (e : Entry) (least len : ℕ)
    → length e.header ≡ n
    → least ≤ len
    → is_query_at least n len (first_line e) ≡ true
unfolding is_query_at
is_query_at-header n e least len h le =
    ground (arith, ap (starts_with (codes "Query")) (drop-first_line n e h).0)

is_query_at-other :
    (e : Entry) (len : ℕ)
    → 14 ≤ length e.header
    → starts_with (codes "Query") (drop 9 e.header) ≡ false
    → is_query_at 20 9 len (first_line e) ≡ false
unfolding is_query_at
is_query_at-other e len le h =
    let x = codes "Query" ++ e.separator ∷ e.first in
    let same : starts_with (codes "Query") (drop 9 (first_line e)) ≡ false =
      ap (starts_with (codes "Query")) (drop_within 9 e.header x (omega arith))
      ∙ (starts_with-append (codes "Query") (drop 9 e.header) x
            (omega (arith, length-drop 9 e.header))
          ∙ h) in
    ground (arith, same)

take_cut-first :
    (e : Entry) (len : ℕ) (texts : List Bytes) (sql : Bytes)
    → is_header e.header ≡ true
    → length e.header + 11 ≤ len
    → take_cut len (first_line e) (texts, sql) ≡ (push_text sql texts, e.first)
unfolding take_cut
take_cut-first e len texts sql h le = elim (Bool-cases (length e.header == 9)) [
  | inl k ↦ ground (
    arith,
    is_query_at-header 9 e 20 len (ground (arith, k)) (ground (arith, k)),
    (drop-first_line 9 e (ground (arith, k))).1,
  )
  | inr k ↦ ground (
    arith,
    is_query_at-other e len (ground (arith, h, k)) (ground (arith, h, k)),
    is_query_at-header 23 e 34 len (ground (arith, h, k)) (ground (arith, h, k)),
    (drop-first_line 23 e (ground (arith, h, k))).1,
  )
]

length-first_line : (e : Entry) → length (first_line e) ≡ length e.header + 6 + length e.first
length-first_line e = omega (arith, length-append e.header (codes "Query" ++ e.separator ∷ e.first))

take_line-first :
    (e : Entry) (texts : List Bytes) (sql : Bytes)
    → is_entry e ≡ true
    → take_line (first_line e ++ 10 ∷ []) (texts, sql) ≡ (push_text sql texts, e.first)
unfolding take_line
take_line-first e texts sql h =
    let len = length (first_line e ++ 10 ∷ []) in
    ap (λ b. take_cut len b (texts, sql)) (chomp-line (first_line e) (ground (arith, h)))
    ∙ take_cut-first e len texts sql (ground (arith, h))
        (ground (arith, h, length-first_line e, length-append (first_line e) (10 ∷ [])))

take_line-later :
    (line : Bytes) (texts : List Bytes) (sql : Bytes)
    → is_later line ≡ true
    → is_empty sql ≡ false
    → take_line (line ++ 10 ∷ []) (texts, sql) ≡ (texts, sql ++ line)
unfolding take_line take_cut
take_line-later line texts sql h k =
    ap (λ b. take_cut (length (line ++ 10 ∷ [])) b (texts, sql))
      (chomp-line line (ground (arith, h)))
    ∙ (ap (λ n. take_cut n line (texts, sql)) (length-append line (10 ∷ [])) ∙ ground (arith, h, k))

-- Reading the lines that follow, with the rest of the log behind them.
abbrev pub read_rest : Bytes → List Bytes × Bytes → List Bytes × Bytes
read_rest text r = take_lines (fgets_loop 8191 8191 text) r

joined-not_empty :
    (lines : List Bytes) (sql : Bytes) → is_empty sql ≡ false → is_empty (joined sql lines) ≡ false
joined-not_empty [] sql h = h
joined-not_empty (line ∷ lines) sql h =
    joined-not_empty lines (sql ++ line) (append-not_empty sql line h)

read_rest-line :
    (line rest : Bytes) (r : List Bytes × Bytes)
    → is_line line ≡ true
    → read_rest (line ++ 10 ∷ rest) r ≡ read_rest rest (take_line (line ++ 10 ∷ []) r)
read_rest-line line rest r h =
    ap (λ pieces. take_lines pieces r)
      (fgets_loop-line line rest 8191 8191 (ground (arith, h)) (ground (arith, h)))

read_rest-later :
    (lines : List Bytes) (rest : Bytes) (texts : List Bytes) (sql : Bytes)
    → are_later lines ≡ true
    → is_empty sql ≡ false
    → read_rest (lines_text lines ++ rest) (texts, sql) ≡ read_rest rest (texts, joined sql lines)
read_rest-later [] rest texts sql h k = refl
read_rest-later (line ∷ lines) rest texts sql h k =
    ap (λ t. read_rest t (texts, sql)) (append_assoc line (10 ∷ lines_text lines) rest)
    ∙ (read_rest-line line (lines_text lines ++ rest) (texts, sql) (ground (arith, h))
        ∙ (ap (read_rest (lines_text lines ++ rest))
              (take_line-later line texts sql (ground (arith, h)) k)
            ∙ read_rest-later lines rest texts (sql ++ line) (ground (arith, h))
                (append-not_empty sql line k)))

first-not_empty : (e : Entry) → is_entry e ≡ true → is_empty e.first ≡ false
first-not_empty e h = first_not_empty e.first (ground (arith, h))
  where
    first_not_empty : (s : Bytes) → leb 4 (length s) ≡ true → is_empty s ≡ false
    first_not_empty [] k = cc
    first_not_empty (c ∷ s) k = refl

push_text-not_empty :
    (sql : Bytes) (texts : List Bytes)
    → is_empty sql ≡ false
    → push_text sql texts ≡ texts ++ sql ∷ []
push_text-not_empty sql texts h = ground (arith, h)

read_rest-entry :
    (e : Entry) (rest : Bytes) (texts : List Bytes) (sql : Bytes)
    → is_entry e ≡ true
    → read_rest (lines_text (first_line e ∷ e.later) ++ rest) (texts, sql)
      ≡ read_rest rest (push_text sql texts, joined e.first e.later)
read_rest-entry e rest texts sql h =
    ap (λ t. read_rest t (texts, sql)) (append_assoc (first_line e) (10 ∷ lines_text e.later) rest)
    ∙ (read_rest-line (first_line e) (lines_text e.later ++ rest) (texts, sql) (ground (arith, h))
        ∙ (ap (read_rest (lines_text e.later ++ rest)) (take_line-first e texts sql h)
            ∙ read_rest-later e.later rest (push_text sql texts) e.first (ground (arith, h))
                (first-not_empty e h)))

unfoldable push_all : List Bytes × Bytes → List Bytes
push_all (texts, sql) = push_text sql texts

read_entries :
    (es : List Entry) (texts : List Bytes) (sql : Bytes)
    → are_entries es ≡ true
    → push_all (read_rest (log_text es) (texts, sql)) ≡ push_text sql texts ++ texts_of es
unfolding push_all
read_entries [] texts sql h = sym (append-nil (push_text sql texts))
read_entries (e ∷ es) texts sql h =
    let whole = joined e.first e.later in
    ap push_all (read_rest-entry e (log_text es) texts sql (ground (arith, h)))
    ∙ (read_entries es (push_text sql texts) whole (ground (arith, h))
        ∙ (ap (λ ts. ts ++ texts_of es)
              (push_text-not_empty whole (push_text sql texts)
                (joined-not_empty e.later e.first (first-not_empty e (ground (arith, h)))))
            ∙ append_assoc (push_text sql texts) (whole ∷ []) (texts_of es)))

-- Of a general log whose entries have one of the two headers and a text of four bytes or more in the first
-- line, with lines that fit the buffer and do not look like an entry behind it, the texts are read in order,
-- each with its lines put together and nothing between them.
pub read_log-texts_of :
    (es : List Entry) → are_entries es ≡ true → read_log (log_text es) ≡ texts_of es
unfolding read_log push_all
read_log-texts_of es h = read_entries es [] [] h
