-- ===== src/LoadBalancer/Sorting.antt =====
-- sortServers of pkg/agent/loadbalancer/utility.go.
use text.Mathlib.TextPositions.{eq_refl as text_refl}
use k8e.Common.{
  String, ◌≡◌, refl, ◌∙◌, Bool, false, ◌&&◌, ◌||◌, not, List, [], ◌∷◌, arith, str_eq, eq_iff,
  if◌then◌else◌,
}
use k8e.Common.Assoc.{contains}
use k8e.Common.Sorting.{
  IsDistinct, insert_sorted, sort_strings, contains-insert_sorted, contains-sort_strings,
}

-- The loop: `skip` holds "" and what has been taken.
collect : List String → String → List String → List String × Bool
collect [] search skip = ([], false)
collect (entry ∷ input) search skip =
    let skipped = collect input search skip in
    let (rest, found) = collect input search (entry ∷ skip) in
    if contains entry skip then skipped else (entry ∷ rest, str_eq search entry || found)

unfoldable pub sort_servers : List String → String → List String × Bool
unfolding collect sort_strings
sort_servers input search =
    let (result, found) = collect input search ("" ∷ []) in (sort_strings result, found)

contains-collect :
    (a : String) (input : List String) (search : String) (skip : List String)
    → contains a (collect input search skip).0 ≡ contains a input && not (contains a skip)
unfolding collect contains
contains-collect a [] search skip = refl
contains-collect a (entry ∷ input) search skip = ground (
  arith,
  eq_iff entry a,
  contains-collect a input search skip,
  contains-collect a input search (entry ∷ skip),
)

found-collect :
    (input : List String) (search : String) (skip : List String)
    → (collect input search skip).1 ≡ contains search input && not (contains search skip)
unfolding collect contains
found-collect [] search skip = refl
found-collect (entry ∷ input) search skip = ground (
  arith,
  eq_iff entry search,
  eq_iff search entry,
  found-collect input search skip,
  found-collect input search (entry ∷ skip),
)

-- No address stands twice.
collect-IsDistinct :
    (input : List String) (search : String) (skip : List String)
    → IsDistinct (collect input search skip).0
unfolding collect contains
collect-IsDistinct [] search skip = tt
collect-IsDistinct (entry ∷ input) search skip = ground (
  arith,
  text_refl entry,
  contains-collect entry input search (entry ∷ skip),
  collect-IsDistinct input search skip,
  collect-IsDistinct input search (entry ∷ skip),
)

insert_sorted-IsDistinct :
    (a : String) (xs : List String)
    → contains a xs ≡ false
    → IsDistinct xs
    → IsDistinct (insert_sorted a xs)
unfolding insert_sorted contains
insert_sorted-IsDistinct a [] e d = (refl, tt)
insert_sorted-IsDistinct a (x ∷ xs) e d =
    ground
      (arith, eq_iff x a, eq_iff a x, contains-insert_sorted x a xs, insert_sorted-IsDistinct a xs)

sort_strings-IsDistinct : (xs : List String) → IsDistinct xs → IsDistinct (sort_strings xs)
unfolding sort_strings
sort_strings-IsDistinct [] d = tt
sort_strings-IsDistinct (x ∷ xs) d =
    insert_sorted-IsDistinct x (sort_strings xs) (contains-sort_strings x xs ∙ d.0)
      (sort_strings-IsDistinct xs d.1)

-- The result holds the addresses of the input but the empty one, each once; the flag says whether
-- the address searched for is among them.
pub sort_servers_lem :
    (input : List String) (search : String)
    → ((a : String)
        → contains a (sort_servers input search).0 ≡ contains a input && not (str_eq "" a))
      × IsDistinct (sort_servers input search).0
      × ((sort_servers input search).1 ≡ contains search (sort_servers input search).0)
unfolding sort_servers contains
sort_servers_lem input search = (
  λ a. ground (
    arith,
    contains-sort_strings a (collect input search ("" ∷ [])).0,
    contains-collect a input search ("" ∷ []),
  ),
  sort_strings-IsDistinct _ (collect-IsDistinct input search ("" ∷ [])),
  ground (
    arith,
    contains-sort_strings search (collect input search ("" ∷ [])).0,
    contains-collect search input search ("" ∷ []),
    found-collect input search ("" ∷ []),
  ),
)
