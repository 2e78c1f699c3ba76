-- ===== src/LoadBalancer/Updates.antt =====
-- The invariant of the load balancer, and that setServers keeps it.
use k8e.Common.{
  ◌≤◌, String, ◌≡◌, refl, ◌⊎◌, inl, inr, Bool, true, false, ◌||◌, some, List, [], ◌∷◌, ◌++◌, arith,
  str_eq, if◌then◌else◌, Option-cases, length, get_elem?,
}
use k8e.Common.Assoc.{
  contains, contains-append, difference, contains-difference, lookup, insert, remove, has,
  has-insert, has-remove,
}
use k8e.LoadBalancer.Sorting.{sort_servers}
use k8e.LoadBalancer.Servers.{
  LoadBalancer, Server, HealthCheck, new_server, is_empty, add_servers, drop_servers, fail_default,
  first, replace_servers, set_servers,
}
use k8e.LoadBalancer.Dial.Rounds.{IsPlaced}

-- Every listed address has an entry in the map and is tried by dials, and the dialing position is
-- in range unless there is nothing to dial.
pub record Inv (lb : LoadBalancer) : Type 0 where
  pub known : (a : String) → contains a lb.server_addresses ≡ true → has a lb.servers ≡ true
  pub tried :
      (a : String) → contains a lb.server_addresses ≡ true → contains a lb.random_servers ≡ true
  pub placed : (lb.random_servers ≡ []) ⊎ IsPlaced lb

has-add_servers :
    (a : String) (added : List String) (m : List (String × Server))
    → has a (add_servers added m) ≡ contains a added || has a m
unfolding add_servers contains
has-add_servers a [] m = refl
has-add_servers a (x ∷ added) m =
    ground
      (arith, has-add_servers a added (insert x (new_server x) m), has-insert x a (new_server x) m)

has-drop_servers :
    (a : String) (removed : List String) (d : String) (m : List (String × Server))
    → contains a removed ≡ false
    → has a m ≡ true
    → has a (drop_servers removed d m) ≡ true
unfolding drop_servers contains
has-drop_servers a [] d m n h = h
has-drop_servers a (x ∷ removed) d m n h =
    has-drop_servers a removed d (if str_eq x d then m else remove x m) (ground arith)
      (ground (arith, has-remove x a m))

has-fail_default :
    (a d : String) (m : List (String × Server)) → has a m ≡ true → has a (fail_default d m) ≡ true
unfolding fail_default
has-fail_default a d m h = elim (Option-cases (lookup d m)) [
  | inl e ↦ rw (e, fail_default) h
  | inr (s, e) ↦
      rw (e, fail_default)
        (ground (arith, has-insert d a (record s { health_check = HealthCheck.failing }) m))
]

first-IsPlaced :
    (xs : List String) → is_empty xs ≡ false → (1 ≤ length xs) × (get_elem? xs 0 ≡ some (first xs))
first-IsPlaced [] h = cc
first-IsPlaced (x ∷ xs) h = (omega arith, refl)

module _ (shuffle : List String → List String)
    (shuffle_contains : (a : String) (xs : List String) → contains a (shuffle xs) ≡ contains a xs)
    (shuffle_length : (xs : List String) → length (shuffle xs) ≡ length xs) where
  nonempty-append : (xs ys : List String) → is_empty xs ≡ false → is_empty (xs ++ ys) ≡ false
  nonempty-append [] ys h = cc
  nonempty-append (x ∷ xs) ys h = refl

  nonempty_of_length :
      (xs ys : List String) → length xs ≡ length ys → is_empty ys ≡ false → is_empty xs ≡ false
  nonempty_of_length [] [] e h = h
  nonempty_of_length [] (y ∷ ys) e h = absurd (omega arith)
  nonempty_of_length (x ∷ xs) ys e h = refl

  replace-known :
      (lb : LoadBalancer) (addresses : List String) (found : Bool)
      → Inv lb
      → (a : String) → contains a addresses ≡ true
      → has a (replace_servers shuffle lb addresses found).servers ≡ true
  unfolding replace_servers
  replace-known lb addresses found v a h =
      let added = add_servers (difference addresses lb.server_addresses) lb.servers in
      let removed = difference lb.server_addresses addresses in
      let kept =
        has-drop_servers a removed lb.default_server_address added
          (ground (arith, contains-difference a lb.server_addresses addresses))
          (ground (
            arith,
            v.known a,
            contains-difference a addresses lb.server_addresses,
            has-add_servers a (difference addresses lb.server_addresses) lb.servers,
          )) in
      ground (
        arith,
        kept,
        has-fail_default a lb.default_server_address
            (drop_servers removed lb.default_server_address added),
      )

  random_of : List String → Bool → String → List String
  random_of addresses found d = if found then shuffle addresses else shuffle addresses ++ d ∷ []

  random-contains :
      (a : String) (addresses : List String) (found : Bool) (d : String)
      → contains a addresses ≡ true
      → contains a (random_of addresses found d) ≡ true
  unfolding random_of
  random-contains a addresses found d h =
      ground (arith, shuffle_contains a addresses, contains-append a (shuffle addresses) (d ∷ []))

  random-nonempty :
      (addresses : List String) (found : Bool) (d : String)
      → is_empty addresses ≡ false
      → is_empty (random_of addresses found d) ≡ false
  unfolding random_of
  random-nonempty addresses true d h =
      nonempty_of_length (shuffle addresses) addresses (shuffle_length addresses) h
  random-nonempty addresses false d h =
      nonempty-append (shuffle addresses) (d ∷ [])
        (nonempty_of_length (shuffle addresses) addresses (shuffle_length addresses) h)

  replace-Inv :
      (lb : LoadBalancer) (addresses : List String) (found : Bool)
      → is_empty addresses ≡ false
      → Inv lb
      → Inv (replace_servers shuffle lb addresses found)
  unfolding replace_servers random_of
  replace-Inv lb addresses found h v =
      let random = random_of addresses found lb.default_server_address in
      let (long, head) =
        first-IsPlaced random (random-nonempty addresses found lb.default_server_address h) in
      record {
        known = replace-known lb addresses found v;
        tried = λ a k. random-contains a addresses found lb.default_server_address k;
        placed = inr (record { from_one = omega arith; in_range = long; at_current = head });
      }

  -- Whatever list it is given, setServers keeps the invariant, for a shuffle that keeps the members
  -- and the length of a list.
  pub set_servers-Inv :
      (lb : LoadBalancer) (input : List String) → Inv lb → Inv (set_servers shuffle lb input).0
  unfolding set_servers
  set_servers-Inv lb input v = ground (
    arith,
    v,
    replace-Inv lb (sort_servers input lb.default_server_address).0
        (sort_servers input lb.default_server_address).1,
  )
