-- ===== src/MonitorString.antt =====
-- SipPlatform/MonitorString.cpp: rows of columns in one text.
use dbmysqlpool.Base.{
  append-not_empty, ℕ, Bool, true, false, not, ◌&&◌, List, [], ◌∷◌, ◌++◌, Bytes, codes, ℤ, length,
  map, is_empty, ◌≡◌, refl, sym, arith, ap, ◌∙◌, append_assoc, append-nil,
}
use dbmysqlpool.Decimal.{print_int, snprintf}
use dbmysqlpool.Log.Names.{Tm}
use dbmysqlpool.Text.Find.{occurs}
use dbmysqlpool.Text.Split.{
  split_string, words, joined, are_words, words-append, split_string-words, split_string-joined,
}
use dbmysqlpool.Time.{date_time_string}

-- `AddCol` and `AddRow` for a text, a number, an address and a time, over `m_strBuf`.
unfoldable pub add_col : Bytes → Bytes → Bytes
add_col value buf = (buf ++ value) ++ codes "|"

unfoldable pub add_col_int : ℤ → Bytes → Bytes
unfolding add_col
add_col_int value buf = add_col (snprintf 21 (print_int value)) buf

unfoldable pub add_col_ip : Bytes → ℤ → Bytes → Bytes
unfolding add_col_int
add_col_ip ip port buf = add_col_int port ((buf ++ ip) ++ codes ":")

unfoldable pub add_col_time : Tm → Bytes → Bytes
unfolding add_col
add_col_time tm buf = add_col (date_time_string tm 21) buf

unfoldable pub add_row : Bytes → Bytes → Bytes
add_row value buf = (buf ++ value) ++ codes "\n"

unfoldable pub add_row_int : ℤ → Bytes → Bytes
unfolding add_row
add_row_int value buf = add_row (snprintf 21 (print_int value)) buf

unfoldable pub add_row_ip : Bytes → ℤ → Bytes → Bytes
unfolding add_row_int
add_row_ip ip port buf = add_row_int port ((buf ++ ip) ++ codes ":")

unfoldable pub add_row_time : Tm → Bytes → Bytes
unfolding add_row
add_row_time tm buf = add_row (date_time_string tm 21) buf

-- `Clear`, `GetString` and `GetLength`
abbrev pub clear_string : Bytes → Bytes
clear_string buf = []

abbrev pub get_string : Bytes → Bytes
get_string buf = buf

abbrev pub get_length : Bytes → ℕ
get_length buf = length buf

-- What a row is made of.
pub data Cell : Type 0 where
  text : Bytes → Cell
  number : ℤ → Cell
  address : Bytes → ℤ → Cell
  time : Tm → Cell

abbrev pub cell_text : Cell → Bytes
cell_text (text value) = value
cell_text (number value) = snprintf 21 (print_int value)
cell_text (address ip port) = ip ++ codes ":" ++ snprintf 21 (print_int port)
cell_text (time tm) = date_time_string tm 21

abbrev pub put_col : Cell → Bytes → Bytes
put_col (text value) buf = add_col value buf
put_col (number value) buf = add_col_int value buf
put_col (address ip port) buf = add_col_ip ip port buf
put_col (time tm) buf = add_col_time tm buf

abbrev pub put_last : Cell → Bytes → Bytes
put_last (text value) buf = add_row value buf
put_last (number value) buf = add_row_int value buf
put_last (address ip port) buf = add_row_ip ip port buf
put_last (time tm) buf = add_row_time tm buf

-- A row by `AddCol` for all cells but the last, and rows one after the other.
abbrev pub put_row : List Cell → Bytes → Bytes
put_row [] buf = buf
put_row (c ∷ []) buf = put_last c buf
put_row (c ∷ d ∷ cells) buf = put_row (d ∷ cells) (put_col c buf)

abbrev pub put_rows : List (List Cell) → Bytes → Bytes
put_rows [] buf = buf
put_rows (row ∷ rows) buf = put_rows rows (put_row row buf)

-- Each row has a cell, and each cell a byte and neither of the separators.
abbrev pub are_cells : List Cell → Bool
are_cells row =
    not (is_empty row)
    && are_words b'|' (map cell_text row)
    && not (occurs 10 (joined b'|' (map cell_text row)))

abbrev pub are_rows : List (List Cell) → Bool
are_rows [] = true
are_rows (row ∷ rows) = are_cells row && are_rows rows

address_assoc :
    (buf ip port end : Bytes)
    → (((buf ++ ip) ++ codes ":") ++ port) ++ end ≡ buf ++ ((ip ++ codes ":" ++ port) ++ end)
address_assoc buf ip port end = simp append_assoc

put_col-cell_text : (c : Cell) (buf : Bytes) → put_col c buf ≡ buf ++ (cell_text c ++ codes "|")
unfolding add_col add_col_int add_col_ip add_col_time
put_col-cell_text (text value) buf = append_assoc buf value (codes "|")
put_col-cell_text (number value) buf = append_assoc buf (snprintf 21 (print_int value)) (codes "|")
put_col-cell_text (address ip port) buf =
    address_assoc buf ip (snprintf 21 (print_int port)) (codes "|")
put_col-cell_text (time tm) buf = append_assoc buf (date_time_string tm 21) (codes "|")

put_last-cell_text : (c : Cell) (buf : Bytes) → put_last c buf ≡ buf ++ (cell_text c ++ codes "\n")
unfolding add_row add_row_int add_row_ip add_row_time
put_last-cell_text (text value) buf = append_assoc buf value (codes "\n")
put_last-cell_text (number value) buf =
    append_assoc buf (snprintf 21 (print_int value)) (codes "\n")
put_last-cell_text (address ip port) buf =
    address_assoc buf ip (snprintf 21 (print_int port)) (codes "\n")
put_last-cell_text (time tm) buf = append_assoc buf (date_time_string tm 21) (codes "\n")

abbrev row_text : List Cell → Bytes
row_text row = joined b'|' (map cell_text row)

put_row-row_text :
    (row : List Cell) (buf : Bytes)
    → is_empty row ≡ false
    → put_row row buf ≡ buf ++ (row_text row ++ codes "\n")
put_row-row_text [] buf h = cc
put_row-row_text (c ∷ []) buf h = put_last-cell_text c buf
put_row-row_text (c ∷ d ∷ row) buf h =
    put_row-row_text (d ∷ row) (put_col c buf) refl
    ∙ (ap (λ b. b ++ (row_text (d ∷ row) ++ codes "\n")) (put_col-cell_text c buf)
        ∙ simp append_assoc)

abbrev rows_text : List (List Cell) → Bytes
rows_text [] = []
rows_text (row ∷ rows) = row_text row ++ 10 ∷ rows_text rows

put_rows-rows_text :
    (rows : List (List Cell)) (buf : Bytes)
    → are_rows rows ≡ true
    → put_rows rows buf ≡ buf ++ rows_text rows
put_rows-rows_text [] buf h = sym (append-nil buf)
put_rows-rows_text (row ∷ rows) buf h =
    put_rows-rows_text rows (put_row row buf) (ground (arith, h))
    ∙ (ap (λ b. b ++ rows_text rows) (put_row-row_text row buf (ground (arith, h)))
        ∙ simp append_assoc)

row_text-not_empty : (row : List Cell) → are_cells row ≡ true → is_empty (row_text row) ≡ false
row_text-not_empty [] h = cc
row_text-not_empty (c ∷ []) h = ground (arith, h)
row_text-not_empty (c ∷ d ∷ row) h =
    append-not_empty (cell_text c) (b'|' ∷ row_text (d ∷ row)) (ground (arith, h))

words-rows_text :
    (rows : List (List Cell))
    → are_rows rows ≡ true
    → words 10 [] (rows_text rows) ≡ map row_text rows
words-rows_text [] h = refl
words-rows_text (row ∷ rows) h =
    words-append 10 [] (row_text row) (10 ∷ rows_text rows) (ground (arith, h))
    ∙ ground (
      arith,
      row_text-not_empty row (ground (arith, h)),
      words-rows_text rows (ground (arith, h)),
    )

-- Rows of cells that are put one after the other, each cell with a byte and neither of the separators, are got
-- back by splitting the text at line feeds and each line at the bars.
pub split_string-put_rows :
    (rows : List (List Cell))
    → are_rows rows ≡ true
    → map (split_string b'|') (split_string 10 (get_string (put_rows rows (clear_string []))))
      ≡ map (map cell_text) rows
split_string-put_rows rows h =
    ap (λ s. map (split_string b'|') (split_string 10 s)) (put_rows-rows_text rows [] h)
    ∙ (ap (map (split_string b'|'))
          (split_string-words 10 (rows_text rows) ∙ words-rows_text rows h)
        ∙ cells rows h)
  where
    cells :
        (rows : List (List Cell))
        → are_rows rows ≡ true
        → map (split_string b'|') (map row_text rows) ≡ map (map cell_text) rows
    cells [] h = refl
    cells (row ∷ rows) h = cc (
      split_string-joined b'|' (map cell_text row) (ground (arith, h)),
      cells rows (ground (arith, h)),
    )
