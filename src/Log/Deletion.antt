-- ===== src/Log/Deletion.antt =====
-- SipPlatform/Log.cpp: which files `DeleteOldFile` deletes.
use dbmysqlpool.Base.{
  ℕ, zero, suc, ◌+◌, ◌≤◌, ◌<◌, Bool, true, false, not, ◌&&◌, ◌||◌, List, [], ◌∷◌, some, Bytes, ℤ,
  pos, negsuc, sub_ℤ, ltb_ℤ, leb_ℤ, leb, length, take, ◌≡◌, ◌≢◌, refl, arith, ap, ◌∙◌, sym,
  Bool-cases, inl, inr,
}
use dbmysqlpool.StringMap.{same_key, same_key_refl}
use dbmysqlpool.Log.{Log, is_zero}
use dbmysqlpool.Log.Names.{log_file_compare, insert_name, sort_file_list}
use dbmysqlpool.Log.Disk.{Disk, IsOrderly, get_file_size, append_name}
use dbmysqlpool.Log.Folder.{listed_files, file_list, delete_loop, want_size, delete_old_file}

abbrev pub is_new : Bytes → List Bytes → Bool
is_new name [] = true
is_new name (other ∷ names) = not (same_key name other) && is_new name names

-- No name is in the list twice.
abbrev pub are_once : List Bytes → Bool
are_once [] = true
are_once (name ∷ names) = is_new name names && are_once names

sub_ℤ_twice : (z : ℤ) (a b : ℕ) → sub_ℤ (sub_ℤ z (pos a)) (pos b) ≡ sub_ℤ z (pos (a + b))
sub_ℤ_twice (pos n) a b = ground arith
sub_ℤ_twice (negsuc n) a b = ground arith

sub_ℤ_zero : (z : ℤ) → sub_ℤ z (pos 0) ≡ z
sub_ℤ_zero (pos n) = ground arith
sub_ℤ_zero (negsuc n) = ground arith

append-same_key :
    (dir s t : Bytes) → same_key (append_name dir s) (append_name dir t) ≡ same_key s t
append-same_key [] s t = ground arith
append-same_key (c ∷ dir) s t = ground (arith, append-same_key dir s t)

append_name-≢ : (dir s t : Bytes) → same_key s t ≡ false → append_name dir s ≢ append_name dir t
append_name-≢ dir s t h e =
    let same : same_key (append_name dir s) (append_name dir t) ≡ true =
      ap (λ f. same_key f (append_name dir t)) e ∙ same_key_refl (append_name dir t) in
    cc (h, same, append-same_key dir s t)

is_new-take :
    (name : Bytes) (n : ℕ) (names : List Bytes)
    → is_new name names ≡ true
    → is_new name (take n names) ≡ true
is_new-take name zero names h = refl
is_new-take name (suc n) [] h = refl
is_new-take name (suc n) (other ∷ names) h = ground (arith, is_new-take name n names, h)

module _ (D : Disk) (dir : Bytes) where
  -- The bytes of the files of these names, and the files after these are unlinked.
  abbrev pub freed : D.State → List Bytes → ℕ
  freed d [] = 0
  freed d (name ∷ names) = get_file_size D d (append_name dir name) + freed d names

  abbrev pub unlink_all : List Bytes → D.State → D.State
  unlink_all [] d = d
  unlink_all (name ∷ names) d = unlink_all names (D.unlink d (append_name dir name))

  freed-unlink :
      (name : Bytes) (names : List Bytes) (d : D.State)
      → IsOrderly D
      → is_new name names ≡ true
      → freed (D.unlink d (append_name dir name)) names ≡ freed d names
  unfolding get_file_size
  freed-unlink name [] d o h = refl
  freed-unlink name (other ∷ names) d o h =
      let kept =
        o.size-unlink d (append_name dir name) (append_name dir other)
          (append_name-≢ dir name other (ground (arith, h))) in
      ground (arith, kept, h, freed-unlink name names d o)

  -- What is deleted are the first `n` names: that many are needed, or there are no more.
  abbrev pub Deletes : ℤ → List Bytes → ℤ → D.State → ℤ × D.State → ℕ → Type 0
  Deletes want names size d end n =
      (end ≡ (sub_ℤ size (pos (freed d (take n names))), unlink_all (take n names) d))
      × (n ≤ length names)
      × ((leb (length names) n || ltb_ℤ (sub_ℤ size (pos (freed d (take n names)))) want) ≡ true)
      × ((m : ℕ) → 1 ≤ m → m < n → leb_ℤ want (sub_ℤ size (pos (freed d (take m names)))) ≡ true)

  left_after :
      (name : Bytes) (names : List Bytes) (size : ℤ) (d : D.State) (n : ℕ)
      → IsOrderly D
      → is_new name names ≡ true
      → sub_ℤ
          (sub_ℤ size (pos (get_file_size D d (append_name dir name))))
          (pos (freed (D.unlink d (append_name dir name)) (take n names)))
        ≡ sub_ℤ size (pos (freed d (take (suc n) (name ∷ names))))
  left_after name names size d n o h =
      sub_ℤ_twice size (get_file_size D d (append_name dir name))
        (freed (D.unlink d (append_name dir name)) (take n names))
      ∙ ap (λ k. sub_ℤ size (pos (get_file_size D d (append_name dir name) + k)))
          (freed-unlink name (take n names) d o (is_new-take name n names h))

  more_needed :
      (want : ℤ) (name : Bytes) (names : List Bytes) (size : ℤ) (d : D.State) (n : ℕ)
      → IsOrderly D
      → is_new name names ≡ true
      → ltb_ℤ (sub_ℤ size (pos (get_file_size D d (append_name dir name)))) want ≡ false
      → ((m : ℕ)
          → 1 ≤ m
          → m < n
          → leb_ℤ want (
              sub_ℤ
                (sub_ℤ size (pos (get_file_size D d (append_name dir name))))
                (pos (freed (D.unlink d (append_name dir name)) (take m names))))
            ≡ true)
      → (m : ℕ) → 1 ≤ m
      → m < suc n
      → leb_ℤ want (sub_ℤ size (pos (freed d (take m (name ∷ names))))) ≡ true
  more_needed want name names size d n o h more needed zero lo hi = absurd (omega arith)
  more_needed want name names size d n o h more needed (suc zero) lo hi = ground (arith, more)
  more_needed want name names size d n o h more needed (suc (suc m)) lo hi =
      sym (ap (leb_ℤ want) (left_after name names size d (suc m) o h))
      ∙ needed (suc m) (omega arith) (omega arith)

  delete_loop-Deletes :
      (want : ℤ) (names : List Bytes) (size : ℤ) (d : D.State)
      → IsOrderly D
      → are_once names ≡ true
      → (n : ℕ) × Deletes want names size d (delete_loop D dir want names size d) n
  unfolding delete_loop
  delete_loop-Deletes want [] size d o h = (
    0,
    (ap (λ z. (z, d)) (sym (sub_ℤ_zero size)), omega arith, refl, λ m lo hi. absurd (omega arith)),
  )
  delete_loop-Deletes want (name ∷ names) size d o h =
      let file = append_name dir name in
      let d' = D.unlink d file in
      let size' = sub_ℤ size (pos (get_file_size D d file)) in
      elim (Bool-cases (ltb_ℤ size' want)) [
        | inl less ↦ (
          1,
          (
            rw less (
                ap (λ k. (sub_ℤ size (pos k), d')) {x = get_file_size D d file}
                  {y = get_file_size D d file + 0} (omega arith)),
            omega arith,
            ground (arith, less),
            λ m lo hi. absurd (omega arith),
          ),
        )
        | inr more ↦
            let (n, ends) = delete_loop-Deletes want names size' d' o (ground (arith, h)) in
            let same = left_after name names size d n o (ground (arith, h)) in
            (
              suc n,
              (
                rw more (ends.0 ∙ ap (λ z. (z, unlink_all (take n names) d')) same),
                omega (arith, ends.1),
                ground (arith, ends.2, ap (λ z. ltb_ℤ z want) same),
                more_needed want name names size d n o (ground (arith, h)) more ends.3,
              ),
            )
      ]

is_new-insert_name :
    (other name : Bytes) (names : List Bytes)
    → is_new other (insert_name name names) ≡ (not (same_key other name) && is_new other names)
unfolding insert_name
is_new-insert_name other name [] = refl
is_new-insert_name other name (first ∷ names) = elim (Bool-cases (log_file_compare first name)) [
  | inl e ↦ rw e (
      ap (λ b. not (same_key other first) && b) (is_new-insert_name other name names)
      ∙ swap (not (same_key other first)) (not (same_key other name)) (is_new other names))
  | inr e ↦ rw e refl
]
  where
    swap : (a b c : Bool) → (a && (b && c)) ≡ (b && (a && c))
    swap a b c = ground arith

same_key_sym : (s t : Bytes) → same_key s t ≡ same_key t s
same_key_sym [] [] = refl
same_key_sym [] (d ∷ t) = refl
same_key_sym (c ∷ s) [] = refl
same_key_sym (c ∷ s) (d ∷ t) = ground (arith, same_key_sym s t)

are_once-insert_name :
    (name : Bytes) (names : List Bytes)
    → is_new name names ≡ true
    → are_once names ≡ true
    → are_once (insert_name name names) ≡ true
unfolding insert_name
are_once-insert_name name [] h k = refl
are_once-insert_name name (first ∷ names) h k = ground (
  arith,
  h,
  k,
  same_key_sym name first,
  is_new-insert_name first name names,
  are_once-insert_name name names,
)

is_new-sort_file_list :
    (name : Bytes) (names : List Bytes) → is_new name (sort_file_list names) ≡ is_new name names
unfolding sort_file_list
is_new-sort_file_list name [] = refl
is_new-sort_file_list name (first ∷ names) =
    ground (
      arith,
      is_new-insert_name name first (sort_file_list names),
      is_new-sort_file_list name names,
    )

are_once-sort_file_list :
    (names : List Bytes) → are_once names ≡ true → are_once (sort_file_list names) ≡ true
unfolding sort_file_list
are_once-sort_file_list [] h = refl
are_once-sort_file_list (name ∷ names) h = ground (
  arith,
  h,
  is_new-sort_file_list name names,
  are_once-sort_file_list names,
  are_once-insert_name name (sort_file_list names),
)

module _ (D : Disk) where
  is_new-listed_files :
      (d : D.State) (dir name : Bytes) (names : List Bytes)
      → is_new name names ≡ true
      → is_new name (listed_files D d dir names) ≡ true
  is_new-listed_files d dir name [] h = refl
  is_new-listed_files d dir name (first ∷ names) h =
      ground (arith, h, is_new-listed_files d dir name names)

  are_once-listed_files :
      (d : D.State) (dir : Bytes) (names : List Bytes)
      → are_once names ≡ true
      → are_once (listed_files D d dir names) ≡ true
  are_once-listed_files d dir [] h = refl
  are_once-listed_files d dir (name ∷ names) h =
      ground (arith, h, is_new-listed_files d dir name names, are_once-listed_files d dir names)

  -- The files of the directory, the oldest first.
  abbrev pub oldest_first : D.State → Bytes → List Bytes → List Bytes
  oldest_first d dir names = sort_file_list (listed_files D d dir names)

  -- If the folder has reached its maximum and the directory can be read and gives no name twice, the files
  -- that are deleted are the first ones of the sorted list, as few as bring the folder below four fifths of
  -- the maximum, and one at least, or all if none suffice; the folder's size is less by their sizes.
  pub delete_old_file-Deletes :
      (log : Log) (d : D.State) (dir : Bytes) (names : List Bytes)
      → IsOrderly D
      → is_zero log.max_folder_size ≡ false
      → leb_ℤ log.max_folder_size log.folder_size ≡ true
      → log.dir_name ≡ some dir
      → D.entries d dir ≡ some names
      → are_once names ≡ true
      → (end : ℤ × D.State) × ((delete_old_file D log d
            ≡ some (record log { folder_size = end.0 }, end.1))
          × ((n : ℕ) × Deletes D dir
                (want_size log.max_folder_size)
                (oldest_first d dir names)
                log.folder_size
                d
                end
                n))
  unfolding delete_old_file file_list
  delete_old_file-Deletes log d dir names o limited full named read h =
      let files = oldest_first d dir names in
      let once =
        are_once-sort_file_list (listed_files D d dir names)
          (are_once-listed_files d dir names h) in
      (
        delete_loop D dir (want_size log.max_folder_size) files log.folder_size d,
        (
          ground (arith, limited, named, full, read),
          delete_loop-Deletes D dir (want_size log.max_folder_size) files log.folder_size d o once,
        ),
      )
