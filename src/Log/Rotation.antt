-- ===== src/Log/Rotation.antt =====
-- SipPlatform/Log.cpp: the file that `OPEN_FILE` ends at, and how large the files become.
use dbmysqlpool.Base.{
  ℕ, zero, suc, ◌+◌, ◌≤◌, ◌<◌, ◌^◌, Bool, false, List, [], ◌∷◌, Option, none, some, Bytes, ℤ, pos,
  sub_ℤ, ltb_ℤ, leb_ℤ, leb, ltb, if◌then◌else◌, ◌≡◌, ◌≢◌, refl, arith, ap, sym, subst, Bool-cases,
  Option-cases, inl, inr,
}
use dbmysqlpool.StringMap.{same_key, same_key_refl, same_key-≡}
use dbmysqlpool.Number.{as_int}
use dbmysqlpool.Log.{Log, is_zero}
use dbmysqlpool.Log.Names.{Tm, date_text, full_name, sort_file_list}
use dbmysqlpool.Log.Disk.{Disk, IsOrderly, get_file_size, append_name}
use dbmysqlpool.Log.Folder.{listed_files, file_list, delete_loop, want_size, delete_old_file}
use dbmysqlpool.Log.Print.{Logged, open_file, open_loop}

module _ (D : Disk) where
  -- No file is larger in the second state.
  abbrev AreSmaller : D.State → D.State → Type 0
  AreSmaller d d' = (f : Bytes) → get_file_size D d' f ≤ get_file_size D d f

  other_kept :
      (d : D.State) (file f : Bytes)
      → IsOrderly D
      → same_key file f ≡ false
      → get_file_size D (D.unlink d file) f ≡ get_file_size D d f
  unfolding get_file_size
  other_kept d file f o e =
      ground
        (arith, o.size-unlink d file f (λ q. cc (e, ap (λ g. same_key g f) q, same_key_refl f)))

  unlink-AreSmaller : (d : D.State) (file : Bytes) → IsOrderly D → AreSmaller d (D.unlink d file)
  unlink-AreSmaller d file o f = elim (Bool-cases (same_key file f)) [
    | inl e ↦
        subst (λ g. get_file_size D (D.unlink d file) g ≤ get_file_size D d g) (same_key-≡ file f e)
          (o.unlink_smaller d file)
    | inr e ↦ omega (arith, other_kept d file f o e)
  ]

  delete_loop-AreSmaller :
      (dir : Bytes) (want : ℤ) (names : List Bytes) (size : ℤ) (d : D.State)
      → IsOrderly D
      → AreSmaller d (delete_loop D dir want names size d).1
  unfolding delete_loop
  delete_loop-AreSmaller dir want [] size d o f = omega arith
  delete_loop-AreSmaller dir want (name ∷ names) size d o f =
      let file = append_name dir name in
      let size' = sub_ℤ size (pos (get_file_size D d file)) in
      let here = unlink-AreSmaller d file o f in
      let there = delete_loop-AreSmaller dir want names size' (D.unlink d file) o f in
      elim (Bool-cases (ltb_ℤ size' want)) [
        | inl e ↦ rw e here
        | inr e ↦ rw e (omega (arith, here, there))
      ]

  -- The log's folder can be read, whatever is done to its files.
  abbrev pub IsReadable : Bytes → Type 0
  IsReadable dir = (d : D.State) → D.entries d dir ≢ none

  abbrev Shrinks : Log → D.State → Option (Log × D.State) → Type 0
  Shrinks log d end =
      (folder : ℤ) × ((d' : D.State) × ((end ≡ some (record log { folder_size = folder }, d'))
          × AreSmaller d d'))

  delete_old_file-Shrinks :
      (log : Log) (d : D.State) (dir : Bytes)
      → IsOrderly D
      → log.dir_name ≡ some dir
      → IsReadable dir
      → Shrinks log d (delete_old_file D log d)
  unfolding delete_old_file file_list
  delete_old_file-Shrinks log d dir o named readable =
      elim (Bool-cases (is_zero log.max_folder_size)) [
        | inl e ↦ (log.folder_size, (d, (ground (arith, e), λ f. omega arith)))
        | inr e ↦ elim (Bool-cases (leb_ℤ log.max_folder_size log.folder_size)) [
          | inr room ↦ (log.folder_size, (d, (ground (arith, e, named, room), λ f. omega arith)))
          | inl full ↦ elim (Option-cases (D.entries d dir)) [
            | inl shut ↦ absurd (readable d shut)
            | inr (names, read) ↦
                let files = sort_file_list (listed_files D d dir names) in
                let end =
                  delete_loop D dir (want_size log.max_folder_size) files log.folder_size d in
                (
                  end.0,
                  (
                    end.1,
                    (
                      ground (arith, e, named, full, read),
                      delete_loop-AreSmaller dir (want_size log.max_folder_size) files
                          log.folder_size d o,
                    ),
                  ),
                )
          ]
        ]
      ]

  -- The end of `OPEN_FILE`: a file of an index from the first to the last given, which is smaller than the
  -- maximum, and whose size is known.
  abbrev pub Opens : Bytes → Tm → ℕ → ℕ → ℕ → Option (Bool × Logged D) → Type 0
  Opens dir tm max first last end =
      (ok : Bool) × ((log : Log) × ((d : D.State) × ((end ≡ some (ok, (log, d)))
            × (first ≤ log.index)
            × (log.index ≤ last)
            × (log.file ≡ (if ok then some (full_name dir tm log.index) else none))
            × (log.date ≡ date_text tm)
            × (log.log_size ≡ pos (get_file_size D d (full_name dir tm log.index)))
            × (get_file_size D d (full_name dir tm log.index) < max))))

  -- The log after a file of this size is opened, or is found full.
  abbrev begun : Log → ℤ → Log
  begun log folder = record log { log_size = pos 0; file = none; folder_size = folder }

  open_loop-found :
      (fuel : ℕ) (tm : Tm) (dir : Bytes) (max : ℕ) (log : Log) (d d' : D.State) (folder : ℤ)
      → log.dir_name ≡ some dir
      → log.max_log_size ≡ pos max
      → 0 < max
      → delete_old_file D (record log { log_size = pos 0; file = none }) d
        ≡ some (begun log folder, d')
      → get_file_size D d' (full_name dir tm log.index) < max
      → open_loop D (suc fuel) tm log d
        ≡ some (
            open_file D
              (full_name dir tm log.index)
              (date_text tm)
              (as_int (get_file_size D d' (full_name dir tm log.index)))
              (begun log folder)
              d')
  unfolding open_loop
  open_loop-found fuel tm dir max log d d' folder named most some_room e small =
      ground (arith, named, most, e)

  open_loop-full :
      (fuel : ℕ) (tm : Tm) (dir : Bytes) (max : ℕ) (log : Log) (d d' : D.State) (folder : ℤ)
      → log.dir_name ≡ some dir
      → log.max_log_size ≡ pos max
      → 0 < max
      → delete_old_file D (record log { log_size = pos 0; file = none }) d
        ≡ some (begun log folder, d')
      → max ≤ get_file_size D d' (full_name dir tm log.index)
      → open_loop D (suc fuel) tm log d
        ≡ open_loop D fuel tm (record (begun log folder) { index = suc log.index }) d'
  unfolding open_loop
  open_loop-full fuel tm dir max log d d' folder named most some_room e full =
      ground (arith, named, most, e)

  open_file-Opens :
      (last : ℕ) (tm : Tm) (dir : Bytes) (max : ℕ) (log : Log) (d : D.State)
      → IsOrderly D
      → max < 2 ^ 31
      → get_file_size D d (full_name dir tm log.index) < max
      → log.index ≤ last
      → Opens dir tm max log.index last (
          some (
            open_file D
              (full_name dir tm log.index)
              (date_text tm)
              (as_int (get_file_size D d (full_name dir tm log.index)))
              log
              d))
  unfolding open_file
  open_file-Opens last tm dir max log d o fits small le =
      let name = full_name dir tm log.index in
      let same = o.size-open d name in
      (
        (D.open_append d name).0,
        (
          _,
          (
            (D.open_append d name).1,
            (refl, omega arith, le, refl, refl, ground (arith, same), omega (arith, same)),
          ),
        ),
      )

  not_last :
      (i last : ℕ) (d : D.State) (dir : Bytes) (tm : Tm) (max : ℕ)
      → i ≤ last
      → get_file_size D d (full_name dir tm last) < max
      → max ≤ get_file_size D d (full_name dir tm i)
      → suc i ≤ last
  not_last i last d dir tm max le small full = elim (Bool-cases (leb last i)) [
    | inl e ↦
        let same : last ≡ i = ground (arith, e) in
        absurd (
          omega (arith, full, subst (λ j. get_file_size D d (full_name dir tm j) < max) same small))
    | inr e ↦ ground (arith, e)
  ]

  Opens-earlier :
      (dir : Bytes) (tm : Tm) (max first last : ℕ) (end : Option (Bool × Logged D))
      → Opens dir tm max (suc first) last end
      → Opens dir tm max first last end
  Opens-earlier dir tm max first last end (ok, (log, (d, (e, lo, hi, file, date, size, small)))) =
      (ok, (log, (d, (e, omega arith, hi, file, date, size, small))))

  -- `OPEN_FILE` ends if an index from the present one on has a file below the maximum, with more fuel than there
  -- are indexes up to it; it passes only files that have reached the maximum.
  pub open_loop-Opens :
      (fuel last : ℕ) (tm : Tm) (dir : Bytes) (max : ℕ) (log : Log) (d : D.State)
      → IsOrderly D
      → IsReadable dir
      → log.dir_name ≡ some dir
      → log.max_log_size ≡ pos max
      → 0 < max
      → max < 2 ^ 31
      → log.index ≤ last
      → get_file_size D d (full_name dir tm last) < max
      → last < log.index + fuel
      → Opens dir tm max log.index last (open_loop D fuel tm log d)
  open_loop-Opens zero last tm dir max log d o readable named most some_room fits le small lt =
      absurd (omega arith)
  open_loop-Opens (suc fuel) last tm dir max log d o readable named most some_room fits le small
        lt =
      let log₀ : Log = record log { log_size = pos 0; file = none } in
      let (folder, (d', (e, smaller))) = delete_old_file-Shrinks log₀ d dir o named readable in
      let name = full_name dir tm log.index in
      let log₁ : Log = record (begun log folder) { index = suc log.index } in
      elim (Bool-cases (ltb (get_file_size D d' name) max)) [
        | inl fine ↦
            subst (Opens dir tm max log.index last)
              (sym (
                open_loop-found fuel tm dir max log d d' folder named most some_room e
                  (ground (arith, fine))))
              (open_file-Opens last tm dir max (begun log folder) d' o fits (ground (arith, fine))
                le)
        | inr full ↦
            let there = smaller (full_name dir tm last) in
            let later =
              not_last log.index last d' dir tm max le (omega (arith, there))
                (ground (arith, full)) in
            subst (Opens dir tm max log.index last)
              (sym (
                open_loop-full fuel tm dir max log d d' folder named most some_room e
                  (ground (arith, full))))
              (Opens-earlier dir tm max log.index last _ (
                open_loop-Opens fuel last tm dir max log₁ d' o readable named most some_room fits
                  later (omega (arith, there)) (omega arith)))
      ]
