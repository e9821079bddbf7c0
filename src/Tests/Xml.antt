-- ===== src/Tests/Xml.antt =====
-- Runs of the XML parser, printer, searches and changes.
use dbmysqlpool.Base.{
  ◌+◌, true, [], ◌∷◌, some, codes, ◌≡◌, refl, arith, pos, negsuc, length, if◌then◌else◌,
}
use dbmysqlpool.Shown.{shortened}
use dbmysqlpool.StringMap.{same_key}
use dbmysqlpool.Xml.Attributes.{is_sorted}
use dbmysqlpool.Xml.Element.{Element, element, nil, cons, attributes_of, children_of}
use dbmysqlpool.Xml.Parse.{parse}
use dbmysqlpool.Xml.Print.{tabs, body, to_string}
use dbmysqlpool.Xml.Progress.{Ends, parse-Ends}
use dbmysqlpool.Xml.Writable.{IsWritable}
use dbmysqlpool.Xml.RoundTrip.{parse-to_string}
use dbmysqlpool.Xml.Search.{select_element, select_element_child, select_element_path}
use dbmysqlpool.Xml.Select.{
  select_attribute, select_element_int, select_element_int64, select_element_bool,
}
use dbmysqlpool.Xml.Build.{
  insert_attribute, wrapped, insert_element_int, insert_element_int64, insert_element_bool,
}
use dbmysqlpool.Xml.Matches.{entry_at, matches, select_element-matches}
use dbmysqlpool.Xml.Updates.{count_named}
use dbmysqlpool.Xml.AttributeLaws.{insert_attribute-select}
use dbmysqlpool.Xml.Numbers.{insert_element_int-select}

abbrev leaf : Element
leaf = element (codes "b") (codes "x y") [] nil

abbrev sample : Element
sample =
    element (codes "a") [] ((codes "k", codes "v w") ∷ [])
      (cons leaf (cons (element (codes "c") [] [] (cons leaf nil)) nil))

sample-IsWritable : IsWritable sample
unfolding IsWritable
sample-IsWritable = ground arith

parse-Ends_example : Ends (codes "<a><b") 0 (parse (codes "<a><b"))
parse-Ends_example = parse-Ends (codes "<a><b")

parse-to_string_example :
    parse (to_string [] true 1 sample)
    ≡ some (record {
      result = some (length (tabs true 1) + length (body true 1 sample));
      left = sample;
    })
parse-to_string_example = parse-to_string true 1 sample sample-IsWritable

select_element-matches_example :
    (select_element (codes "b") (pos 1) (children_of sample)
      ≡ entry_at (pos 1) (matches (codes "b") [] (children_of sample)))
    × (select_element_child (codes "b") (codes "c") (pos 1) (children_of sample)
        ≡ entry_at (pos 1) (matches (codes "b") (codes "c" ∷ []) (children_of sample)))
    × (select_element_path (pos 1) (pos 2) (codes "b" ∷ codes "x" ∷ []) (children_of sample)
        ≡ some (entry_at (pos 1) (matches (codes "b") (codes "x" ∷ []) (children_of sample))))
select_element-matches_example =
    select_element-matches (codes "b") (codes "c") (codes "x" ∷ []) (pos 1) 1 (children_of sample)

path_found :
    select_element_path (pos 0) (pos 2) (codes "c" ∷ codes "b" ∷ []) (children_of sample)
    ≡ some (some leaf)
unfolding select_element_path
path_found = refl

wrapped_bracket : wrapped (some (codes "a<b")) ≡ codes "<![CDATA[a<b]]>"
wrapped_bracket = refl

insert_attribute-select_example :
    (select_attribute (codes "k") (insert_attribute (codes "j") (codes "z") sample) ≡ (
      if same_key (codes "j") (codes "k")
      then some (codes "z")
      else select_attribute (codes "k") sample))
    × (is_sorted (attributes_of (insert_attribute (codes "j") (codes "z") sample)) ≡ true)
insert_attribute-select_example =
    insert_attribute-select (codes "j") (codes "z") (codes "k") sample refl

insert_element_int-select_example :
    ((select_element_int
        (codes "n")
        (pos (count_named (codes "n") sample))
        (insert_element_int (codes "n") (negsuc 1999999998) sample)).0
      ≡ (true, shortened (negsuc 1999999998)))
    × ((select_element_int64
          (codes "n")
          (pos (count_named (codes "n") sample))
          (insert_element_int64 (codes "n") (negsuc 5000000000) sample)).0
        ≡ (true, negsuc 5000000000))
    × ((select_element_bool
          (codes "n")
          (pos (count_named (codes "n") sample))
          (insert_element_bool (codes "n") true sample)).0
        ≡ (true, true))
insert_element_int-select_example =
    insert_element_int-select (codes "n") (negsuc 1999999998) (negsuc 5000000000) true sample
      (omega arith) (omega arith) (omega arith) (omega arith)

-- An end tag is compared as far as the name goes.
parse_longer_end :
    parse (codes "<a>x</ab>")
    ≡ some (record { result = some 9; left = element (codes "a") (codes "x") [] nil })
unfolding parse
parse_longer_end = refl

-- A `>` in the data drops what is in front of it, and a comment stays in the data.
parse_greater :
    parse (codes "<a>x>y</a>")
    ≡ some (record { result = some 10; left = element (codes "a") (codes "y") [] nil })
unfolding parse
parse_greater = refl

parse_comment :
    parse (codes "<a>x<!--c-->y</a>")
    ≡ some (record { result = some 17; left = element (codes "a") (codes "x<!--c-->y") [] nil })
unfolding parse
parse_comment = refl

-- Behind a declaration inside an element the next tag's name is put behind the element's.
parse_declaration :
    parse (codes "<a><?p?><b>x</ab>")
    ≡ some (record { result = some 17; left = element (codes "ab") (codes "x") [] nil })
unfolding parse
parse_declaration = refl

-- A text that stops inside an element is accepted.
parse_open :
    parse (codes "<a><b>x</b>")
    ≡ some (record {
      result = some 11;
      left = element (codes "a") [] [] (cons (element (codes "b") (codes "x") [] nil) nil);
    })
unfolding parse
parse_open = refl

parse_nested :
    parse (codes "<a k=\"v w\"><b/><c>x</c></a>\n")
    ≡ some (record {
      result = some 27;
      left = element (codes "a") [] ((codes "k", codes "v w") ∷ []) (
          cons (element (codes "b") [] [] nil) (cons (element (codes "c") (codes "x") [] nil) nil));
    })
unfolding parse
parse_nested = refl

to_string_tabs :
    to_string [] true 1 (
      element
        (codes "a")
        []
        []
        (cons (element (codes "b") (codes "x") ((codes "k", codes "v") ∷ []) nil) nil))
    ≡ codes "\t<a>\n\t\t<b k=\"v\">x</b>\n\t</a>\n"
unfolding to_string
to_string_tabs = refl
