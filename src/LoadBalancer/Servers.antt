-- ===== src/LoadBalancer/Servers.antt =====
-- The state of a load balancer (pkg/agent/loadbalancer/loadbalancer.go) and the operations of
-- servers.go that change it: setServers, nextServer, SetDefault, SetHealthCheck.
use k8e.Common.{
  ℕ, ◌+◌, String, Bool, true, false, ◌&&◌, not, Option, none, some, List, [], ◌∷◌, ◌++◌, str_eq,
  leb, ◌==◌, if◌then◌else◌, length, get_elem?,
}
use k8e.Common.Assoc.{contains, difference, lookup, insert, remove}
use k8e.LoadBalancer.Sorting.{sort_servers}

-- The function in `healthCheck`: the two constant ones, or a callback that the agent has set.
pub data HealthCheck : Type 0 where
  passing failing : HealthCheck
  callback : ℕ → HealthCheck

-- The open connections are numbered.
pub record Server : Type 0 where
  pub address : String
  pub health_check : HealthCheck
  pub was_healthy : Bool
  pub connections : List ℕ

pub record LoadBalancer : Type 0 where
  pub default_server_address : String
  pub server_addresses : List String
  pub random_servers : List String
  pub servers : List (String × Server)
  pub current_server_address : String
  pub next_server_index : ℕ

abbrev pub new_server : String → Server
new_server address = record {
  address = address;
  health_check = HealthCheck.passing;
  was_healthy = true;
  connections = [];
}

abbrev pub is_empty : List String → Bool
is_empty [] = true
is_empty (x ∷ xs) = false

-- `newAddresses.Equal(curAddresses)` on the sets of the two lists.
unfoldable pub same_set : List String → List String → Bool
same_set xs ys = is_empty (difference xs ys) && is_empty (difference ys xs)

unfoldable pub add_servers : List String → List (String × Server) → List (String × Server)
add_servers [] servers = servers
add_servers (a ∷ added) servers = add_servers added (insert a (new_server a) servers)

-- The default server stays in the map.
unfoldable pub drop_servers : List String → String → List (String × Server) → List (String × Server)
drop_servers [] default_address servers = servers
drop_servers (a ∷ removed) default_address servers =
    drop_servers removed default_address
      (if str_eq a default_address then servers else remove a servers)

-- The removed addresses that have an entry: their connections are closed.
closed_servers : List String → List (String × Server) → List String
closed_servers [] servers = []
closed_servers (a ∷ removed) servers =
    let rest = closed_servers removed servers in
    elim (lookup a servers) [ none ↦ rest | some s ↦ a ∷ rest ]

-- The default address, when it is not in the list, is marked as failing its checks.
unfoldable pub fail_default : String → List (String × Server) → List (String × Server)
fail_default address servers = elim (lookup address servers) [
  | none ↦ servers
  | some s ↦ insert address (record s { health_check = HealthCheck.failing }) servers
]

-- `lb.randomServers[0]`, of a list that is not empty.
abbrev pub first : List String → String
first [] = ""
first (x ∷ xs) = x

-- math/rand's Shuffle is the parameter.
module _ (shuffle : List String → List String) where
  -- The body of setServers from the point at which the new list is known to differ.
  unfoldable pub replace_servers : LoadBalancer → List String → Bool → LoadBalancer
  replace_servers lb addresses has_default =
      let removed = difference lb.server_addresses addresses in
      let servers =
        drop_servers removed lb.default_server_address
          (add_servers (difference addresses lb.server_addresses) lb.servers) in
      let random =
        if has_default
        then shuffle addresses
        else shuffle addresses ++ lb.default_server_address ∷ [] in
      record lb {
        server_addresses = addresses;
        random_servers = random;
        servers = if has_default then servers else fail_default lb.default_server_address servers;
        current_server_address = first random;
        next_server_index = 1;
      }

  -- setServers: the new state, whether it changed, and the servers whose connections are closed.
  unfoldable pub set_servers : LoadBalancer → List String → LoadBalancer × Bool × List String
  unfolding closed_servers
  set_servers lb input =
      let (addresses, has_default) = sort_servers input lb.default_server_address in
      let changed : LoadBalancer × Bool × List String = (
        replace_servers lb addresses has_default,
        true,
        closed_servers (difference lb.server_addresses addresses)
            (add_servers (difference addresses lb.server_addresses) lb.servers),
      ) in
      if is_empty addresses
      then (lb, false, [])
      else if same_set addresses lb.server_addresses
      then (lb, false, [])
      else changed

-- nextServer: `none` is the error of an empty list. The clamped index is in range, so that the
-- panic of an index out of range, here the inner `none`, does not happen.
unfoldable pub next_server : LoadBalancer → String → Option String × LoadBalancer
next_server lb failed_server =
    let index =
      if leb (length lb.random_servers) lb.next_server_index then 0 else lb.next_server_index in
    let current = get_elem? lb.random_servers index in
    if length lb.random_servers == 0
    then (none, lb)
    else if length lb.random_servers == 1
    then (some lb.current_server_address, lb)
    else if not (str_eq failed_server lb.current_server_address)
    then (some lb.current_server_address, lb)
    else elim current [
      | none ↦ (none, lb)
      | some address ↦ (
        some address,
        record lb { current_server_address = address; next_server_index = index + 1 },
      )
    ]

-- SetDefault: the new state, and the servers whose connections are closed.
unfoldable pub set_default : LoadBalancer → String → LoadBalancer × List String
set_default lb address =
    let in_use = contains lb.default_server_address lb.server_addresses in
    let old = lookup lb.default_server_address lb.servers in
    let dropped : Bool = elim old [ none ↦ false | some s ↦ not in_use ] in
    let kept = if dropped then remove lb.default_server_address lb.servers else lb.servers in
    let added : List (String × Server) = elim (lookup address kept) [
      | none ↦
          insert address
            (record (new_server address) {
              health_check = HealthCheck.failing;
              was_healthy = false;
            })
            kept
      | some s ↦ kept
    ] in
    (
      record lb { servers = added; default_server_address = address },
      if dropped then lb.default_server_address ∷ [] else [],
    )

-- SetHealthCheck
unfoldable pub set_health_check : LoadBalancer → String → ℕ → LoadBalancer
set_health_check lb address check = elim (lookup address lb.servers) [
  | none ↦ lb
  | some s ↦ record lb {
    servers =
        insert address (record s { health_check = HealthCheck.callback check; was_healthy = true })
          lb.servers;
  }
]
