-- ===== src/Prelude/Maps.antt =====
-- Hash maps and hash sets, as lists of entries in the order of insertion.
use mathlib.Core.Logic.{inl, inr}
use mathlib.Core.Path.{◌≡◌, refl}
use mathlib.Core.Bool.{Bool, true, false, ◌||◌}
use mathlib.Core.List.{List, [], ◌∷◌, ◌++◌}
use mathlib.Core.Option.{Option, none, some}
use native.Mathlib.Omega.{arith}
use mpc_sdk_framework.Prelude.Tests.{Eq, ◌==◌, if◌then◌else◌, beq_refl, Bool-cases}

abbrev pub Map {ℓ κ} : Type ℓ → Type κ → Type (ℓ ⊔ κ)
Map K V = List (K × V)

module _ {ℓ κ} {K : Type ℓ} {V : Type κ} ⦃e : Eq K⦄ where
  unfoldable pub get : K → Map K V → Option V
  get k [] = none
  get k ((j, v) ∷ m) = if j == k then some v else get k m

  unfoldable pub insert : K → V → Map K V → Map K V
  insert k v [] = (k, v) ∷ []
  insert k v ((j, w) ∷ m) = if j == k then (k, v) ∷ m else (j, w) ∷ insert k v m

  unfoldable pub remove : K → Map K V → Map K V
  remove k [] = []
  remove k ((j, w) ∷ m) = let rest = remove k m in if j == k then rest else (j, w) ∷ rest

  pub get-insert :
      (k j : K) (v : V) (m : Map K V) → get j (insert k v m) ≡ (if k == j then some v else get j m)
  unfolding get insert
  get-insert k j v [] = refl
  get-insert k j v ((i, w) ∷ m) =
      ground (arith, e.same_iff k j, e.same_iff i k, e.same_iff i j, get-insert k j v m)

  pub get-remove : (k j : K) (m : Map K V) → get j (remove k m) ≡ (if k == j then none else get j m)
  unfolding get remove
  get-remove k j [] = ground arith
  get-remove k j ((i, w) ∷ m) =
      ground (arith, e.same_iff k j, e.same_iff i k, e.same_iff i j, get-remove k j m)

  pub get_inserted : (k : K) (v : V) (m : Map K V) → get k (insert k v m) ≡ some v
  get_inserted k v m = rw (get-insert k k v m, beq_refl k) refl

module _ {ℓ} {A : Type ℓ} ⦃e : Eq A⦄ where
  unfoldable pub contains : A → List A → Bool
  contains a [] = false
  contains a (x ∷ xs) = x == a || contains a xs

  -- A hash set takes a value once.
  unfoldable pub set_insert : A → List A → List A
  unfolding contains
  set_insert a xs = if contains a xs then xs else xs ++ a ∷ []

  -- `into_iter().collect()` of a list into a hash set that holds `seen`.
  unfoldable pub set_of : List A → List A → List A
  set_of seen [] = seen
  set_of seen (x ∷ xs) = set_of (set_insert x seen) xs

  pub contains-append :
      (a : A) (xs ys : List A) → contains a (xs ++ ys) ≡ (contains a xs || contains a ys)
  unfolding contains
  contains-append a [] ys = refl
  contains-append a (x ∷ xs) ys = ground (arith, contains-append a xs ys)

  pub contains-set_insert :
      (a x : A) (xs : List A) → contains a (set_insert x xs) ≡ (x == a || contains a xs)
  unfolding set_insert
  contains-set_insert a x xs = ground (arith, contains-append a xs (x ∷ []), e.same_iff x a)

  pub contains-set_of :
      (a : A) (xs seen : List A) → contains a (set_of seen xs) ≡ (contains a seen || contains a xs)
  unfolding set_of contains
  contains-set_of a [] seen = ground arith
  contains-set_of a (x ∷ xs) seen =
      ground (arith, contains-set_of a xs (set_insert x seen), contains-set_insert a x seen)

  pub contains_self : (a : A) (xs : List A) → contains a (a ∷ xs) ≡ true
  unfolding contains
  contains_self a xs = ground (arith, beq_refl a)

module _ {ℓ} {A : Type ℓ} ⦃e : Eq A⦄ where
  -- No element stands twice.
  abbrev pub IsDistinct : List A → Type 0
  IsDistinct [] = Unit {0}
  IsDistinct (x ∷ xs) = (contains x xs ≡ false) × IsDistinct xs

-- No key stands twice.
module _ {ℓ κ} {K : Type ℓ} {V : Type κ} ⦃e : Eq K⦄ where
  abbrev pub IsMap : Map K V → Type κ
  IsMap [] = Unit
  IsMap ((k, v) ∷ m) = (get k m ≡ none) × IsMap m

  pub insert-IsMap : (k : K) (v : V) (m : Map K V) → IsMap m → IsMap (insert k v m)
  unfolding insert get
  insert-IsMap k v [] h = (refl, tt)
  insert-IsMap k v ((j, w) ∷ m) h = elim (Bool-cases (j == k)) [
    | inl p ↦ rw p (ground (arith, e.same_iff j k, h.0), h.1)
    | inr p ↦
        rw p (
          ground (arith, e.same_iff j k, e.same_iff k j, get-insert k j v m),
          insert-IsMap k v m h.1,
        )
  ]

  pub remove-IsMap : (k : K) (m : Map K V) → IsMap m → IsMap (remove k m)
  unfolding remove
  remove-IsMap k [] h = tt
  remove-IsMap k ((j, w) ∷ m) h = elim (Bool-cases (j == k)) [
    | inl p ↦ rw p (remove-IsMap k m h.1)
    | inr p ↦ rw p (ground (arith, get-remove k j m), remove-IsMap k m h.1)
  ]
