-- ===== src/Common/Sorting.antt =====
-- sort.Strings of Go's library: texts in the order of their code points.
use Prim.Native.Nat.{Ordering}
use Prim.Native.String.{String, compare}
use mathlib.Core.Path.{◌≡◌, refl, ap, ◌∙◌}
use mathlib.Core.Bool.{Bool, true, false, ◌||◌}
use mathlib.Core.List.{List, [], ◌∷◌}
use native.Mathlib.Omega.{arith}
use text.Mathlib.Text.{◌==◌ as str_eq}
use k8e.Common.Tests.{if◌then◌else◌}
use k8e.Common.Assoc.{contains}

unfoldable pub str_leb : String → String → Bool
str_leb a b = elim (compare a b) [ Ordering.gt ↦ false | _ ↦ true ]

unfoldable pub insert_sorted : String → List String → List String
insert_sorted a [] = a ∷ []
insert_sorted a (x ∷ xs) =
    let rest = insert_sorted a xs in if str_leb a x then a ∷ x ∷ xs else x ∷ rest

unfoldable pub sort_strings : List String → List String
unfolding insert_sorted str_leb
sort_strings [] = []
sort_strings (x ∷ xs) = insert_sorted x (sort_strings xs)

-- No text twice.
abbrev pub IsDistinct : List String → Type 0
IsDistinct [] = Unit {0}
IsDistinct (x ∷ xs) = (contains x xs ≡ false) × IsDistinct xs

pub contains-insert_sorted :
    (a x : String) (xs : List String)
    → contains a (insert_sorted x xs) ≡ str_eq x a || contains a xs
unfolding insert_sorted contains
contains-insert_sorted a x [] = refl
contains-insert_sorted a x (y ∷ xs) = ground (arith, contains-insert_sorted a x xs)

pub contains-sort_strings :
    (a : String) (xs : List String) → contains a (sort_strings xs) ≡ contains a xs
unfolding contains sort_strings
contains-sort_strings a [] = refl
contains-sort_strings a (x ∷ xs) =
    (contains-insert_sorted a x (sort_strings xs)
      ∙ ap (λ b. str_eq x a || b) (contains-sort_strings a xs))
