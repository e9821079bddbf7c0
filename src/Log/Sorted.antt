-- ===== src/Log/Sorted.antt =====
-- SipPlatform/Log.cpp: `SortFileList` on the names that the log gives its files.
use dbmysqlpool.Base.{
  ℕ, ◌^◌, Bool, true, false, not, ◌&&◌, ◌==◌, List, [], ◌∷◌, Bytes, ltb, map, if◌then◌else◌, ◌≡◌,
  refl, arith, ap, ◌∙◌, Bool-cases, inl, inr,
}
use mathlib.Core.List.{Perm}
use mathlib.Core.List.Perm
use dbmysqlpool.Log.Names.{Tm, log_file_name, log_file_compare, insert_name, sort_file_list}
use dbmysqlpool.Log.Order.{day_number, log_file_compare-log_file_name}

-- A file of the log: the time of its opening and its index.
pub record LogFile : Type 0 where
  pub tm : Tm
  pub index : ℕ

abbrev pub log_name : LogFile → Bytes
log_name f = log_file_name f.tm f.index

unfoldable pub is_earlier : LogFile → LogFile → Bool
is_earlier f g =
    if day_number f.tm == day_number g.tm
    then ltb f.index g.index
    else ltb (day_number f.tm) (day_number g.tm)

-- The fields have the digits that they are printed with, and the index fits an `int`.
abbrev pub is_log_file : LogFile → Bool
is_log_file f =
    ltb f.tm.year 10000 && ltb f.tm.month 100 && ltb f.tm.day 100 && ltb f.index (2 ^ 31)

abbrev pub are_log_files : List LogFile → Bool
are_log_files [] = true
are_log_files (f ∷ fs) = is_log_file f && are_log_files fs

-- No file stands right behind a later one.
unfoldable pub is_chronological : List LogFile → Bool
is_chronological [] = true
is_chronological (f ∷ []) = true
is_chronological (f ∷ g ∷ fs) = not (is_earlier g f) && is_chronological (g ∷ fs)

compare-log_name :
    (f g : LogFile)
    → is_log_file f ≡ true
    → is_log_file g ≡ true
    → log_file_compare (log_name f) (log_name g) ≡ is_earlier f g
unfolding is_earlier
compare-log_name f g h k =
    log_file_compare-log_file_name f.tm g.tm f.index g.index
      (ground (arith, h), ground (arith, h), ground (arith, h))
      (ground (arith, k), ground (arith, k), ground (arith, k)) (ground (arith, h))
      (ground (arith, k))

-- What the insertion of a name makes of the files.
insert_file : LogFile → List LogFile → List LogFile
insert_file f [] = f ∷ []
insert_file f (g ∷ fs) =
    let rest = insert_file f fs in if is_earlier g f then g ∷ rest else f ∷ g ∷ fs

insert_name-files :
    (f : LogFile) (fs : List LogFile)
    → is_log_file f ≡ true
    → are_log_files fs ≡ true
    → insert_name (log_name f) (map log_name fs) ≡ map log_name (insert_file f fs)
unfolding insert_name insert_file
insert_name-files f [] h k = refl
insert_name-files f (g ∷ fs) h k = elim (Bool-cases (is_earlier g f)) [
  | inl e ↦
      rw (compare-log_name g f (ground (arith, k)) h, e)
        (ap (◌∷◌ (log_name g)) (insert_name-files f fs h (ground (arith, k))))
  | inr e ↦ rw (compare-log_name g f (ground (arith, k)) h, e) refl
]

first_of : (a b : Bool) → (a && b) ≡ true → a ≡ true
first_of a b h = ground (arith, h)

second_of : (a b : Bool) → (a && b) ≡ true → b ≡ true
second_of a b h = ground (arith, h)

both : (a b : Bool) → a ≡ true → b ≡ true → (a && b) ≡ true
both a b h k = rw (h, k) refl

are_log_files-insert_file :
    (f : LogFile) (fs : List LogFile)
    → is_log_file f ≡ true
    → are_log_files fs ≡ true
    → are_log_files (insert_file f fs) ≡ true
unfolding insert_file
are_log_files-insert_file f [] h k = rw h refl
are_log_files-insert_file f (g ∷ fs) h k = elim (Bool-cases (is_earlier g f)) [
  | inl e ↦ rw e (
      both (is_log_file g) (are_log_files (insert_file f fs)) (first_of _ _ k)
        (are_log_files-insert_file f fs h (second_of _ _ k)))
  | inr e ↦ rw e (both (is_log_file f) (are_log_files (g ∷ fs)) h k)
]

insert_file-Perm : (f : LogFile) (fs : List LogFile) → Perm (insert_file f fs) (f ∷ fs)
unfolding insert_file
insert_file-Perm f [] = Perm.refl (f ∷ [])
insert_file-Perm f (g ∷ fs) = elim (Bool-cases (is_earlier g f)) [
  | inl e ↦ rw e (Perm.trans (Perm.cons g (insert_file-Perm f fs)) (Perm.swap f g fs))
  | inr e ↦ rw e (Perm.refl (f ∷ g ∷ fs))
]

earlier_once : (f g : LogFile) → is_earlier g f ≡ true → is_earlier f g ≡ false
unfolding is_earlier
earlier_once f g h = ground (arith, h)

is_chronological-insert_file :
    (f : LogFile) (fs : List LogFile)
    → is_chronological fs ≡ true
    → is_chronological (insert_file f fs) ≡ true
unfolding insert_file is_chronological
is_chronological-insert_file f [] h = refl
is_chronological-insert_file f (g ∷ []) h = ground (arith, earlier_once f g)
is_chronological-insert_file f (g ∷ g' ∷ fs) h = elim (Bool-cases (is_earlier g f)) [
  | inr e ↦ rw (e, e) h
  | inl e ↦ elim (Bool-cases (is_earlier g' f)) [
    | inl e' ↦ ground (
      arith,
      e,
      e',
      h,
      is_chronological-insert_file f (g' ∷ fs)
          (second_of (not (is_earlier g' g)) (is_chronological (g' ∷ fs)) h),
    )
    | inr e' ↦ ground (arith, e, e', h, earlier_once f g e)
  ]
]

sort_files : List LogFile → List LogFile
sort_files [] = []
sort_files (f ∷ fs) = insert_file f (sort_files fs)

abbrev pub SortsTo : List LogFile → List LogFile → Type 0
SortsTo fs gs =
    (sort_file_list (map log_name fs) ≡ map log_name gs) × Perm gs fs × (is_chronological gs ≡ true)

sort_files-SortsTo :
    (fs : List LogFile)
    → are_log_files fs ≡ true
    → SortsTo fs (sort_files fs) × (are_log_files (sort_files fs) ≡ true)
unfolding sort_file_list sort_files is_chronological
sort_files-SortsTo [] h = ((refl, Perm.refl [], refl), refl)
sort_files-SortsTo (f ∷ fs) h =
    let ((same, perm, order), right) = sort_files-SortsTo fs (second_of _ _ h) in
    (
      (
        ap (insert_name (log_name f)) same
            ∙ insert_name-files f (sort_files fs) (first_of _ _ h) right,
        Perm.trans (insert_file-Perm f (sort_files fs)) (Perm.cons f perm),
        is_chronological-insert_file f (sort_files fs) order,
      ),
      are_log_files-insert_file f (sort_files fs) (first_of _ _ h) right,
    )

-- Of names that the log gives its files, `SortFileList` makes a list of the same names in which no file stands
-- right behind one of a later day, or of the same day with a larger index.
pub sort_file_list-SortsTo :
    (fs : List LogFile) → are_log_files fs ≡ true → (gs : List LogFile) × SortsTo fs gs
sort_file_list-SortsTo fs h = (sort_files fs, (sort_files-SortsTo fs h).0)
