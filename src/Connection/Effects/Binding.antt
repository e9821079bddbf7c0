-- ===== src/Connection/Effects/Binding.antt =====
-- `Bind` for one argument after the other, and the values that a statement then has.
use dbmysqlpool.Base.{
  ℕ, zero, suc, ◌+◌, ◌<◌, true, List, [], ◌∷◌, ◌++◌, none, some, Bytes, ◌≡◌, ◌≢◌, refl, arith, ap,
  ◌∙◌, pos, length, set, replicate, map, get_elem?-append, take, append_assoc, subst, append-nil,
  length-append,
}
use mathlib.Core.List.{map-append}
use dbmysqlpool.Mysql.{Mysql, Param, unset, text}
use dbmysqlpool.Connection.State.{Connection, Session}
use dbmysqlpool.Connection.Prepared.{param_value, param_values, bind}
use dbmysqlpool.Connection.Results.{bind_all}

-- The entries of the array for the texts from place `i` on.
abbrev pub entries : ℕ → List Bytes → List Param
entries i [] = []
entries i (v ∷ vs) = text i (length v) ∷ entries (suc i) vs

-- The first values are bound, and `k` places are left.
abbrev pub BoundTo : List Bytes → ℕ → Connection → Type 0
BoundTo done k c =
    (c.stmt ≢ none)
    × (c.bind_count ≡ length done + k)
    × (c.bind_list ≡ done ++ replicate k [])
    × ((0 < length done + k → c.bind_array ≡ some (entries 0 done ++ replicate k unset)))
    × (length done + k ≡ 0 → c.bind_array ≡ none)

module _ {ℓ} {A : Type ℓ} where
  set-append :
      (xs : List A) (a v : A) (ys : List A) → set (xs ++ a ∷ ys) (length xs) v ≡ xs ++ v ∷ ys
  set-append [] a v ys = refl
  set-append (x ∷ xs) a v ys = ap (◌∷◌ x) (set-append xs a v ys)

  take-length : (xs : List A) → take (length xs) xs ≡ xs
  take-length [] = refl
  take-length (x ∷ xs) = ap (◌∷◌ x) (take-length xs)

entries-append :
    (i : ℕ) (xs ys : List Bytes) → entries i (xs ++ ys) ≡ entries i xs ++ entries (i + length xs) ys
entries-append i [] ys = ap (λ (n : ℕ). entries n ys) (omega arith)
entries-append i (x ∷ xs) ys = ap (◌∷◌ (text i (length x))) (
    entries-append (suc i) xs ys ∙ ap (λ (n : ℕ). entries (suc i) xs ++ entries n ys) (omega arith))

length-entries : (i : ℕ) (xs : List Bytes) → length (entries i xs) ≡ length xs
length-entries i [] = refl
length-entries i (x ∷ xs) = ap suc (length-entries (suc i) xs)

-- Reading through the entries gives the values back.
param_value-entries :
    (before vs after : List Bytes)
    → map (param_value (before ++ (vs ++ after))) (entries (length before) vs) ≡ map some vs
unfolding param_value
param_value-entries before [] after = refl
param_value-entries before (v ∷ vs) after = ground (
  arith,
  get_elem?-append before v (vs ++ after),
  take-length v,
  append_assoc before (v ∷ []) (vs ++ after),
  length-append before (v ∷ []),
  param_value-entries (before ++ v ∷ []) vs after,
)

map-unset :
    (texts : List Bytes) (k : ℕ) → map (param_value texts) (replicate k unset) ≡ replicate k none
unfolding param_value
map-unset texts zero = refl
map-unset texts (suc k) = ap (◌∷◌ none) (map-unset texts k)

set-entries :
    (done : List Bytes) (v : Bytes) (k : ℕ)
    → set (entries 0 done ++ replicate (suc k) unset) (length done) (text (length done) (length v))
      ≡ entries 0 (done ++ v ∷ []) ++ replicate k unset
set-entries done v k = ground (
  arith,
  length-entries 0 done,
  set-append (entries 0 done) unset (text (length done) (length v)) (replicate k unset),
  entries-append 0 done (v ∷ []),
  append_assoc (entries 0 done) (text (length done) (length v) ∷ []) (replicate k unset),
)

bind-BoundTo :
    (done : List Bytes) (v : Bytes) (k : ℕ) (s : Session)
    → BoundTo done (suc k) s.conn
    → ((bind (pos (length done)) v s).0 ≡ true)
      × BoundTo (done ++ v ∷ []) k (bind (pos (length done)) v s).1.conn
      × ((bind (pos (length done)) v s).1.trace ≡ s.trace)
unfolding bind
bind-BoundTo done v k s b = ground (
  arith,
  length-append done (v ∷ []),
  set-append done [] v (replicate k []),
  append_assoc done (v ∷ []) (replicate k []),
  set-entries done v k,
)

pub bind_all-BoundTo :
    (lib : Mysql) (vs done : List Bytes) (k i : ℕ) (s : Session)
    → i ≡ length done
    → BoundTo done (length vs + k) s.conn
    → ((bind_all lib i vs s).0 ≡ true)
      × BoundTo (done ++ vs) k (bind_all lib i vs s).1.conn
      × ((bind_all lib i vs s).1.trace ≡ s.trace)
unfolding bind_all
bind_all-BoundTo lib [] done k i s e b =
    (refl, rw append-nil (subst (λ (n : ℕ). BoundTo done n s.conn) (omega arith) b), refl)
bind_all-BoundTo lib (v ∷ vs) done k i s e b =
    let s₁ = (bind (pos (length done)) v s).1 in
    ground (
      arith,
      bind-BoundTo done v (length vs + k) s,
      append_assoc done (v ∷ []) vs,
      length-append done (v ∷ []),
      bind_all-BoundTo lib vs (done ++ v ∷ []) k (suc i) s₁,
    )

param_values-some :
    (done : List Bytes) (k : ℕ) (c : Connection)
    → c.bind_array ≡ some (entries 0 done ++ replicate k unset)
    → c.bind_list ≡ done ++ replicate k []
    → param_values c ≡ map some done ++ replicate k none
unfolding param_values
param_values-some done k c array list = ground (
  arith,
  map-append (param_value (done ++ replicate k [])) (entries 0 done) (replicate k unset),
  param_value-entries [] done (replicate k []),
  map-unset (done ++ replicate k []) k,
)

-- A statement is run with the bound values and with nothing for the places that are left.
pub param_values-BoundTo :
    (done : List Bytes) (k : ℕ) (c : Connection)
    → BoundTo done k c
    → param_values c ≡ map some done ++ replicate k none
param_values-BoundTo [] zero c b = unfold param_values in ground arith
param_values-BoundTo [] (suc k) c b = param_values-some [] (suc k) c (b.3 (omega arith)) b.2
param_values-BoundTo (v ∷ vs) k c b = param_values-some (v ∷ vs) k c (b.3 (omega arith)) b.2
