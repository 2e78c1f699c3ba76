-- ===== src/Common/Assoc.antt =====
-- Go maps with text keys as association lists, and sets of texts as lists under `contains`. The
-- order of the entries stands for the unspecified order in which Go iterates.
use text.Mathlib.Text.{◌==◌ as str_eq}
use text.Mathlib.TextEquality.{eq_iff}
use Prim.Native.String.{String}
use mathlib.Core.Path.{◌≡◌, refl}
use mathlib.Core.Logic.{◌⊎◌, inl, inr}
use mathlib.Core.Bool.{Bool, true, false, ◌||◌, ◌&&◌, not}
use mathlib.Core.List.{List, [], ◌∷◌, ◌++◌}
use mathlib.Core.Option.{Option, none, some}
use native.Mathlib.Omega.{arith}
use k8e.Common.Tests.{if◌then◌else◌, Bool-cases}

str_cases : (a b : String) → (str_eq a b ≡ true) ⊎ (str_eq a b ≡ false)
str_cases a b = Bool-cases (str_eq a b)

unfoldable pub contains : String → List String → Bool
contains a [] = false
contains a (x ∷ xs) = str_eq x a || contains a xs

pub contains-append :
    (a : String) (xs ys : List String) → contains a (xs ++ ys) ≡ contains a xs || contains a ys
unfolding contains
contains-append a [] ys = refl
contains-append a (x ∷ xs) ys = ground (arith, contains-append a xs ys)

-- The elements of the first list that the second lacks.
unfoldable pub difference : List String → List String → List String
difference [] ys = []
difference (x ∷ xs) ys = let rest = difference xs ys in if contains x ys then rest else x ∷ rest

pub contains-difference :
    (a : String) (xs ys : List String)
    → contains a (difference xs ys) ≡ contains a xs && not (contains a ys)
unfolding contains difference
contains-difference a [] ys = refl
contains-difference a (x ∷ xs) ys = ground (arith, eq_iff x a, contains-difference a xs ys)

module _ {ℓ} {V : Type ℓ} where
  unfoldable pub lookup : String → List (String × V) → Option V
  lookup key [] = none
  lookup key ((name, value) ∷ entries) = if str_eq name key then some value else lookup key entries

  unfoldable pub remove : String → List (String × V) → List (String × V)
  remove key [] = []
  remove key ((name, value) ∷ entries) =
      let rest = remove key entries in if str_eq name key then rest else (name, value) ∷ rest

  -- A new key goes to the end.
  unfoldable pub insert : String → V → List (String × V) → List (String × V)
  insert key value [] = (key, value) ∷ []
  insert key value ((name, old) ∷ entries) =
      let rest = insert key value entries in
      if str_eq name key then (key, value) ∷ entries else (name, old) ∷ rest

  pub lookup-insert :
      (new asked : String) (value : V) (entries : List (String × V))
      → lookup asked (insert new value entries)
        ≡ (if str_eq new asked then some value else lookup asked entries)
  unfolding insert lookup
  lookup-insert new asked value [] = refl
  lookup-insert new asked value ((name, old) ∷ entries) = ground (
    arith,
    lookup-insert new asked value entries,
    eq_iff name new,
    eq_iff name asked,
    eq_iff new asked,
  )

  pub lookup-remove :
      (k j : String) (m : List (String × V))
      → lookup j (remove k m) ≡ (if str_eq k j then none else lookup j m)
  unfolding lookup remove
  lookup-remove k j [] = ground arith
  lookup-remove k j ((i, w) ∷ m) =
      ground (arith, eq_iff k j, eq_iff i k, eq_iff i j, lookup-remove k j m)

  -- Whether a key has an entry.
  unfoldable pub has : String → List (String × V) → Bool
  has k [] = false
  has k ((j, v) ∷ m) = str_eq j k || has k m

  pub has-insert :
      (k j : String) (v : V) (m : List (String × V)) → has j (insert k v m) ≡ str_eq k j || has j m
  unfolding has insert
  has-insert k j v [] = refl
  has-insert k j v ((i, w) ∷ m) =
      ground (arith, eq_iff k j, eq_iff i k, eq_iff i j, has-insert k j v m)

  pub has-remove :
      (k j : String) (m : List (String × V)) → has j (remove k m) ≡ has j m && not (str_eq k j)
  unfolding has remove
  has-remove k j [] = refl
  has-remove k j ((i, w) ∷ m) = ground (arith, eq_iff k j, eq_iff i k, eq_iff i j, has-remove k j m)

  pub has-lookup :
      (k : String) (m : List (String × V)) → has k m ≡ true → (v : V) × (lookup k m ≡ some v)
  unfolding has lookup
  has-lookup k [] h = cc
  has-lookup k ((j, v) ∷ m) h = elim (str_cases j k) [
    | inl e ↦ (v, rw e)
    | inr e ↦ rw e (has-lookup k m (rw e at h))
  ]

  pub lookup-has :
      (k : String) (v : V) (m : List (String × V)) → lookup k m ≡ some v → has k m ≡ true
  unfolding has lookup
  lookup-has k v [] h = cc
  lookup-has k v ((j, w) ∷ m) h = ground (arith, lookup-has k v m)
