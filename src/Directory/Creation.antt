-- ===== src/Directory/Creation.antt =====
-- SipPlatform/Directory.cpp: the directories that are there after `CDirectory::Create`.
use dbmysqlpool.Base.{
  ℕ, suc, ◌+◌, ◌≤◌, Bool, true, false, not, ◌&&◌, length, get_or, drop, [], ◌∷◌, ◌++◌, Option, some,
  Bytes, ◌==◌, if◌then◌else◌, ◌≡◌, ◌≢◌, refl, arith, ap, ◌∙◌, sym, append_assoc, append-nil,
  Bool-cases, Option-cases, inl, inr, subst,
}
use mathlib.Core.Bool.{true≢false}
use mathlib.Core.Option.{none-ne-some, some-injective}
use dbmysqlpool.Directory.{Tree, IsTree, last_byte, make_directory, create_at, create_loop, create}

-- The separators in a text.
abbrev pub slashes : Bytes → ℕ
slashes [] = 0
slashes (c ∷ s) = if c == b'/' then suc (slashes s) else slashes s

module _ (T : Tree) where
  abbrev pub IsDirectory : T.State → Bytes → Type 0
  IsDirectory t name = T.kind t name ≡ some true

  make_directory-IsDirectory :
      (name : Bytes) (t : T.State)
      → IsTree T
      → (make_directory T name t).0 ≡ true
      → IsDirectory (make_directory T name t).1 name
  unfolding make_directory
  make_directory-IsDirectory name t w h = ground (arith, h, w.mkdir_makes t name)

  make_directory-keeps :
      (name other : Bytes) (t : T.State)
      → IsTree T
      → IsDirectory t other
      → IsDirectory (make_directory T name t).1 other
  unfolding make_directory
  make_directory-keeps name other t w h = ground (arith, h, w.mkdir_keeps t name other)

  create_at-keeps :
      (count c : ℕ) (name other : Bytes) (t : T.State)
      → IsTree T
      → IsDirectory t other
      → IsDirectory (create_at T count name c t).1 other
  unfolding create_at
  create_at-keeps count c name other t w h =
      ground (arith, h, make_directory-keeps name other t w h)

  create_loop-keeps :
      (rest : Bytes) (count : ℕ) (name other : Bytes) (t : T.State)
      → IsTree T
      → IsDirectory t other
      → IsDirectory (create_loop T count name rest t).1 other
  unfolding create_loop
  create_loop-keeps [] count name other t w h = h
  create_loop-keeps (c ∷ rest) count name other t w h =
      let here = create_at T count name c t in
      let kept = create_at-keeps count c name other t w h in
      elim (Bool-cases here.0) [
        | inl e ↦
            rw (e, create_loop)
              (create_loop-keeps rest (if c == b'/' then suc count else count) (name ++ c ∷ [])
                other here.1 w kept)
        | inr e ↦ rw (e, create_loop) kept
      ]

  create_at-IsDirectory :
      (count : ℕ) (name : Bytes) (t : T.State)
      → IsTree T
      → 1 ≤ count
      → (create_at T count name b'/' t).0 ≡ true
      → IsDirectory (create_at T count name b'/' t).1 name
  unfolding create_at
  create_at-IsDirectory count name t w le h =
      ground (arith, le, h, make_directory-IsDirectory name t w)

  create_loop_first :
      (count c : ℕ) (name rest : Bytes) (t : T.State)
      → (create_loop T count name (c ∷ rest) t).0 ≡ true
      → (create_at T count name c t).0 ≡ true
  unfolding create_loop
  create_loop_first count c name rest t h = ground (arith, h)

  create_loop_later :
      (count c : ℕ) (name rest : Bytes) (t : T.State)
      → (create_at T count name c t).0 ≡ true
      → create_loop T count name (c ∷ rest) t
        ≡ create_loop T
            (if c == b'/' then suc count else count)
            (name ++ c ∷ [])
            rest
            (create_at T count name c t).1
  unfolding create_loop
  create_loop_later count c name rest t h = rw (h, create_loop) refl

  create_loop-IsDirectory :
      (rest : Bytes) (count : ℕ) (name : Bytes) (t : T.State) (p q : Bytes)
      → IsTree T
      → (create_loop T count name rest t).0 ≡ true
      → rest ≡ p ++ b'/' ∷ q
      → 1 ≤ count + slashes p
      → IsDirectory (create_loop T count name rest t).1 (name ++ p)
  unfolding create_loop
  create_loop-IsDirectory [] count name t [] q w h e le = absurd (omega (arith, ap length e))
  create_loop-IsDirectory [] count name t (x ∷ p) q w h e le = absurd (omega (arith, ap length e))
  create_loop-IsDirectory (c ∷ rest) count name t [] q w h e le =
      let same : c ≡ b'/' = ap (λ s. get_or s 0 0) e in
      let first = create_loop_first count c name rest t h in
      let made : IsDirectory (create_at T count name c t).1 name =
        subst (λ d. IsDirectory (create_at T count name d t).1 name) (sym same)
          (create_at-IsDirectory count name t w (omega arith)
            (ap (λ d. (create_at T count name d t).0) (sym same) ∙ first)) in
      subst (λ r. IsDirectory r.1 (name ++ [])) (sym (create_loop_later count c name rest t first))
        (subst (IsDirectory _) (sym (append-nil name)) (create_loop-keeps rest _ _ name _ w made))
  create_loop-IsDirectory (c ∷ rest) count name t (x ∷ p) q w h e le =
      let same : c ≡ x = ap (λ s. get_or s 0 0) e in
      let first = create_loop_first count c name rest t h in
      let later = create_loop_later count c name rest t first in
      subst (λ r. IsDirectory r.1 (name ++ x ∷ p)) (sym later)
        (subst (IsDirectory _) (append_assoc name (c ∷ []) p ∙ ap (λ d. name ++ d ∷ p) same) (
          create_loop-IsDirectory rest (if c == b'/' then suc count else count) (name ++ c ∷ [])
            (create_at T count name c t).1 p q w (ap (λ r. r.0) (sym later) ∙ h) (ap (drop 1) e)
            (ground (arith, le, same))))

  -- The end of `Create` for a name with this last byte.
  finish : Bytes → ℕ → Bool × T.State → Option (Bool × T.State)
  finish name c parents =
      if parents.0 && not (c == b'/') then some (make_directory T name parents.1) else some parents

  finish-IsDirectory :
      (name : Bytes) (c : ℕ) (parents : Bool × T.State) (t' : T.State)
      → IsTree T
      → finish name c parents ≡ some (true, t')
      → (parents.0 ≡ true)
        × ((c == b'/') ≡ false → IsDirectory t' name)
        × ((other : Bytes) → IsDirectory parents.1 other → IsDirectory t' other)
  unfolding finish
  finish-IsDirectory name c (false, t) t' w h =
      absurd (true≢false (sym (ap (λ r. r.0) (some-injective _ _ h))))
  finish-IsDirectory name c (true, t) t' w h = elim (Bool-cases (c == b'/')) [
    | inl e ↦
        let same : (true, t) ≡ (true, t') = some-injective _ _ (rw e at h) in
        (
          refl,
          (λ k. absurd (true≢false (sym e ∙ k))),
          λ other d. subst (λ r. IsDirectory r.1 other) same d,
        )
    | inr e ↦
        let same : make_directory T name t ≡ (true, t') = some-injective _ _ (rw e at h) in
        (
          refl,
          (λ k.
              subst (λ r. IsDirectory r.1 name) same
                (make_directory-IsDirectory name t w (ap (λ r. r.0) same))),
          λ other d.
              subst (λ r. IsDirectory r.1 other) same (make_directory-keeps name other t w d),
        )
  ]

  -- Where `mkdir` and `stat` agree, as `IsTree` says: if `Create` succeeds on a name that does not end in a
  -- separator, the name is a directory; and on any name, every part in front of a separator that has another
  -- separator in front of it is a directory.
  pub create-IsDirectory :
      (name : Bytes) (t t' : T.State)
      → IsTree T
      → create T name t ≡ some (true, t')
      → ((last_byte name ≢ some b'/') → IsDirectory t' name)
        × ((p q : Bytes) → name ≡ p ++ b'/' ∷ q → 1 ≤ slashes p → IsDirectory t' p)
  unfolding create finish
  create-IsDirectory name t t' w h = elim (Option-cases (last_byte name)) [
    | inl e ↦ absurd (none-ne-some (true, t') (rw (e, create) at h))
    | inr (c, e) ↦
        let (made, last, kept) =
          finish-IsDirectory name c (create_loop T 0 [] name t) t' w (rw (e, create) at h) in
        (
          (λ other. last (ground (arith, e, other))),
          λ p q same le. kept p (create_loop-IsDirectory name 0 [] t p q w made same (omega arith)),
        )
  ]
