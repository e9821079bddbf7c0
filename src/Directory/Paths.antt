-- ===== src/Directory/Paths.antt =====
-- SipPlatform/Directory.cpp: `CDirectory::GetDirName` and `CDirectory::GetFileName`. SipPlatform/FileUtility.cpp:
-- `GetFileExt`.
use dbmysqlpool.Base.{
  ℕ, zero, suc, ◌+◌, ◌≤◌, ◌<◌, Bool, true, false, [], ◌∷◌, ◌++◌, Option, none, some, Bytes, codes,
  length, length-append, get_or, take, drop, ◌==◌, if◌then◌else◌, ◌≡◌, refl, arith, ap, ◌∙◌,
}
use dbmysqlpool.Text.Find.{occurs}
use dbmysqlpool.Log.Disk.{append_name}
use dbmysqlpool.Tools.Lines.{take-length}

-- The loops from the last byte of a text down: where the byte stands last.
unfoldable pub find_back : ℕ → Bytes → ℕ → Option ℕ
find_back c s zero = none
find_back c s (suc i) = let rest = find_back c s i in if get_or s i 0 == c then some i else rest

unfoldable pub get_dir_name : Bytes → Bytes
get_dir_name path = elim (find_back b'/' path (length path)) [ none ↦ [] | some i ↦ take i path ]

unfoldable pub get_file_name : Bytes → Bytes
get_file_name path = elim (find_back b'/' path (length path)) [
  | none ↦ []
  | some i ↦ drop (i + 1) path
]

unfoldable pub get_file_ext : Bytes → Bool × Bytes
get_file_ext name = elim (find_back b'.' name (length name)) [
  | none ↦ (false, [])
  | some i ↦ (true, drop (i + 1) name)
]

get_or-behind :
    (xs ys : Bytes) (i j : ℕ) → i ≡ length xs + j → get_or (xs ++ ys) i 0 ≡ get_or ys j 0
get_or-behind [] ys i j e = ap (λ k. get_or ys k 0) {x = i} {y = j} (omega arith)
get_or-behind (x ∷ xs) ys zero j e = absurd (omega arith)
get_or-behind (x ∷ xs) ys (suc i) j e = get_or-behind xs ys i j (omega arith)

get_or-other :
    (c : ℕ) (s : Bytes) (i : ℕ) → occurs c s ≡ false → i < length s → (get_or s i 0 == c) ≡ false
get_or-other c [] i h lt = absurd (omega arith)
get_or-other c (d ∷ s) zero h lt = ground (arith, h)
get_or-other c (d ∷ s) (suc i) h lt = get_or-other c s i (ground (arith, h)) (omega arith)

find_back-last :
    (c : ℕ) (front back : Bytes) (n k : ℕ)
    → occurs c back ≡ false
    → k ≤ length back
    → n ≡ suc (length front + k)
    → find_back c (front ++ c ∷ back) n ≡ some (length front)
unfolding find_back
find_back-last c front back zero k h le e = absurd (omega arith)
find_back-last c front back (suc i) zero h le e =
    ground (arith, get_or-behind front (c ∷ back) i 0 (omega arith))
find_back-last c front back (suc i) (suc k) h le e = ground (
  arith,
  get_or-behind front (c ∷ back) i (suc k) (omega arith),
  get_or-other c back k h (omega arith),
  find_back-last c front back i k h (omega arith) (omega arith),
)

found :
    (c : ℕ) (front back : Bytes)
    → occurs c back ≡ false
    → find_back c (front ++ c ∷ back) (length (front ++ c ∷ back)) ≡ some (length front)
found c front back h =
    find_back-last c front back (length (front ++ c ∷ back)) (length back) h (omega arith)
      (omega (arith, length-append front (c ∷ back)))

behind_found : (c : ℕ) (front back : Bytes) → drop (length front + 1) (front ++ c ∷ back) ≡ back
behind_found c [] back = refl
behind_found c (x ∷ front) back =
    ap (λ k. drop k (x ∷ front ++ c ∷ back)) {x = suc (length front) + 1}
      {y = suc (length front + 1)} (omega arith)
    ∙ behind_found c front back

-- The directory and the file that `AppendName` puts together are what `GetDirName` and `GetFileName` take apart,
-- and `GetFileExt` gives what stands behind the last point.
get_dir_name-append_name :
    (dir file front ext : Bytes)
    → occurs b'/' file ≡ false
    → occurs b'.' ext ≡ false
    → (get_dir_name (append_name dir file) ≡ dir)
      × (get_file_name (append_name dir file) ≡ file)
      × (get_file_ext (front ++ b'.' ∷ ext) ≡ (true, ext))
unfolding get_dir_name get_file_name get_file_ext
get_dir_name-append_name dir file front ext h k = (
  rw (get_dir_name, found b'/' dir file h) (take-length dir (b'/' ∷ file)),
  rw (get_file_name, found b'/' dir file h) (behind_found b'/' dir file),
  rw (get_file_ext, found b'.' front ext k) (ap (λ s. (true, s)) (behind_found b'.' front ext)),
)

-- A path without a separator has no file name.
no_file_name : get_file_name (codes "log.txt") ≡ []
unfolding get_file_name find_back
no_file_name = refl
