-- ===== src/Directory.antt =====
-- SipPlatform/Directory.cpp: `CDirectory::Create`, with the calls that it makes of the file system.
pub mod Creation
pub mod Paths
use dbmysqlpool.Base.{
  ℕ, zero, suc, ◌+◌, ◌≤◌, Bool, true, false, not, ◌&&◌, List, length, get_or, drop, [], ◌∷◌, ◌++◌,
  Option, none, some, Bytes, leb, ◌==◌, if◌then◌else◌, ◌≡◌, ◌≢◌, refl, arith, ap, ◌∙◌, sym,
  append_assoc, append-nil, Bool-cases, Option-cases, inl, inr, subst,
}
use mathlib.Core.Bool.{true≢false}
use mathlib.Core.Option.{none-ne-some, some-injective}

-- `kind` is what `stat` says of a name being a directory, and `mkdir` tells whether it succeeded.
pub record Tree : Type 1 where
  pub State : Type 0
  pub kind : State → Bytes → Option Bool
  pub mkdir : State → Bytes → Bool × State

-- What `mkdir` makes is a directory, and what was one stays one.
pub record IsTree (T : Tree) : Type 0 where
  pub mkdir_makes :
      (t : T.State) (name : Bytes)
      → (T.mkdir t name).0 ≡ true
      → T.kind (T.mkdir t name).1 name ≡ some true
  pub mkdir_keeps :
      (t : T.State) (name other : Bytes)
      → T.kind t other ≡ some true
      → T.kind (T.mkdir t name).1 other ≡ some true

abbrev pub last_byte : Bytes → Option ℕ
last_byte [] = none
last_byte (c ∷ []) = some c
last_byte (c ∷ d ∷ s) = last_byte (d ∷ s)

module _ (T : Tree) where
  -- `IsDirectoryCheck` and what follows it, for one name.
  unfoldable pub make_directory : Bytes → T.State → Bool × T.State
  make_directory name t = elim (T.kind t name) [
    | some true ↦ (true, t)
    | some false ↦ (false, t)
    | none ↦ T.mkdir t name
  ]

  -- What the loop does at a byte, with `iCount` and `pszName`.
  unfoldable pub create_at : ℕ → Bytes → ℕ → T.State → Bool × T.State
  create_at count name c t = if (c == b'/') && leb 1 count then make_directory name t else (true, t)

  -- The loop: `iCount`, `pszName`, the bytes that are left.
  unfoldable pub create_loop : ℕ → Bytes → Bytes → T.State → Bool × T.State
  create_loop count name [] t = (true, t)
  create_loop count name (c ∷ rest) t =
      let here = create_at count name c t in
      let later =
        create_loop (if c == b'/' then suc count else count) (name ++ c ∷ []) rest here.1 in
      elim here.0 [ true ↦ later | false ↦ (false, here.1) ]

  -- `none`: the byte in front of an empty name is read.
  unfoldable pub create : Bytes → T.State → Option (Bool × T.State)
  unfolding create_loop
  create name t =
      let parents = create_loop 0 [] name t in
      elim (last_byte name) [
        | none ↦ none
        | some c ↦
            if parents.0 && not (c == b'/')
            then some (make_directory name parents.1)
            else some parents
      ]
