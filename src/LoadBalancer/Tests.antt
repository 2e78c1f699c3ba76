-- ===== src/LoadBalancer/Tests.antt =====
-- The load balancer's theorems at concrete inputs.
use k8e.Common.{
  ℕ, ◌+◌, String, ◌≡◌, refl, ◌≢◌, false, ◌&&◌, not, none, some, List, [], ◌∷◌, arith, str_eq,
  if◌then◌else◌,
}
use k8e.Common.Assoc.{contains, lookup}
use k8e.Common.Sorting.{IsDistinct}
use k8e.LoadBalancer.Sorting.{sort_servers, sort_servers_lem}
use k8e.LoadBalancer.Servers.{LoadBalancer, new_server}
use k8e.LoadBalancer.Dial.{Network, dial_context, connected, out_of_fuel}
use k8e.LoadBalancer.Dial.Rounds.{IsPlaced}
use k8e.LoadBalancer.Dial.Reach.{dial_context-ends, dial_context-connects}
use k8e.LoadBalancer.Updates.{Inv}
use k8e.LoadBalancer.Invariant.{
  Operation, updates, sets_default, sets_health_check, fails_over, run, start, run-start-Inv,
}

abbrev addresses : List String
addresses = "10.0.0.2:6443" ∷ "" ∷ "10.0.0.1:6443" ∷ "10.0.0.2:6443" ∷ []

sort_servers_lem_example :
    ((a : String)
      → contains a (sort_servers addresses "10.0.0.1:6443").0
        ≡ contains a addresses && not (str_eq "" a))
    × IsDistinct (sort_servers addresses "10.0.0.1:6443").0
    × ((sort_servers addresses "10.0.0.1:6443").1
        ≡ contains "10.0.0.1:6443" (sort_servers addresses "10.0.0.1:6443").0)
sort_servers_lem_example = sort_servers_lem addresses "10.0.0.1:6443"

-- Two servers, of which the one in use fails its check and refuses.
abbrev two_servers : LoadBalancer
two_servers = record {
  default_server_address = "a:6443";
  server_addresses = "a:6443" ∷ "b:6443" ∷ [];
  random_servers = "a:6443" ∷ "b:6443" ∷ [];
  servers = ("a:6443", new_server "a:6443") ∷ ("b:6443", new_server "b:6443") ∷ [];
  current_server_address = "a:6443";
  next_server_index = 1;
}

abbrev network : Network
network = record {
  healthy = λ round check. false;
  dial = λ round address. if str_eq address "b:6443" then some (round + 40) else none;
  cancelled = λ round. false;
}

two_servers-IsPlaced : IsPlaced two_servers
two_servers-IsPlaced = record { from_one = omega arith; in_range = omega arith; at_current = refl }

dial_context-ends_example : (dial_context network two_servers).0 ≢ out_of_fuel
dial_context-ends_example = dial_context-ends network two_servers two_servers-IsPlaced

dial_context-connects_example :
    (address : String) × (c : ℕ) × ((dial_context network two_servers).0 ≡ connected address c)
unfolding lookup
dial_context-connects_example =
    dial_context-connects network 1 "b:6443" (new_server "b:6443") (λ round. round + 40) refl
      (λ round. refl) (λ round. refl) two_servers two_servers-IsPlaced refl refl (omega arith)

abbrev history : List Operation
history =
    updates addresses
    ∷ fails_over "10.0.0.1:6443"
    ∷ sets_default "10.0.0.9:6443"
    ∷ sets_health_check "10.0.0.2:6443" 7
    ∷ updates ("10.0.0.3:6443" ∷ [])
    ∷ []

run-start-Inv_example : Inv (run (λ xs. xs) (start (λ xs. xs) "10.0.0.1:6443") history)
run-start-Inv_example = run-start-Inv (λ xs. xs) (λ a xs. refl) (λ xs. refl) "10.0.0.1:6443" history
