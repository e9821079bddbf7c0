-- ===== src/Text/Case.antt =====
-- `strcasecmp` of the C library, which the XML element and the watcher call.
use dbmysqlpool.Base.{ℕ, ◌+◌, Bool, true, false, ◌&&◌, [], ◌∷◌, Bytes, leb, ◌==◌, if◌then◌else◌}

-- `strcasecmp` in the C locale, for equality.
abbrev pub to_lower : ℕ → ℕ
to_lower c = if leb b'A' c && leb c b'Z' then c + 32 else c

abbrev pub same_ignoring_case : Bytes → Bytes → Bool
same_ignoring_case [] [] = true
same_ignoring_case [] (d ∷ t) = false
same_ignoring_case (c ∷ s) [] = false
same_ignoring_case (c ∷ s) (d ∷ t) = (to_lower c == to_lower d) && same_ignoring_case s t
