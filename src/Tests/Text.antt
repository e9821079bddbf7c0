-- ===== src/Tests/Text.antt =====
-- Runs of the functions on texts, rows and maps.
use dbmysqlpool.Base.{true, [], ◌∷◌, some, Bytes, codes, ◌≡◌, refl, arith, length}
use dbmysqlpool.Text.Replace.{replace_string, replaced, replace_string-replaced}
use dbmysqlpool.Injection.{
  check_sql_injection_not_space, replace_sql_injection_not_space,
  replace_sql_injection_not_space-clean,
}
use dbmysqlpool.Text.Split.{split_string, split_scan}
use dbmysqlpool.StringMap.{StringMap}

replace_string-replaced_example :
    replace_string 20 (codes "ab") (codes "aab") (codes "abcab")
    ≡ some (replaced (codes "ab") (codes "aab") 0 (codes "abcab"))
replace_string-replaced_example =
    replace_string-replaced b'a' (codes "b") (codes "aab") 20 (codes "abcab") (omega arith)

replaced_twice : replaced (codes "ab") (codes "aab") 0 (codes "abcab") ≡ codes "aabcaab"
unfolding replaced
replaced_twice = refl

replace_sql_injection_not_space-clean_example :
    (value' : Bytes) × (replace_sql_injection_not_space 10 (codes "a;'b") ≡ some value')
    × (value' ≡ codes "a  b")
    × (length value' ≡ 4)
    × (check_sql_injection_not_space value' ≡ true)
replace_sql_injection_not_space-clean_example =
    replace_sql_injection_not_space-clean 10 (codes "a;'b") (omega arith)

abbrev one_key : StringMap
one_key = (codes "k", codes "v") ∷ []

split_skips : split_string b',' (codes ",a,,bc,") ≡ codes "a" ∷ codes "bc" ∷ []
unfolding split_string split_scan
split_skips = refl
