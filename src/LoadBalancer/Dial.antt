-- ===== src/LoadBalancer/Dial.antt =====
-- dialContext of pkg/agent/loadbalancer/loadbalancer.go.
pub mod Rounds
pub mod Reach
use k8e.Common.{
  ℕ, zero, suc, ◌+◌, ◌*◌, String, Bool, true, false, ◌&&◌, ◌||◌, not, Option, none, some, List, [],
  ◌∷◌, str_eq, ltb, ◌==◌, if◌then◌else◌, length,
}
use k8e.Common.Assoc.{lookup, insert}
use k8e.LoadBalancer.Servers.{LoadBalancer, HealthCheck, next_server}

-- What the network and the callbacks answer, by the round of the loop: a callback's result, the
-- connection that a dial opens, and whether the context is done.
pub record Network : Type 0 where
  pub healthy : ℕ → ℕ → Bool
  pub dial : ℕ → String → Option ℕ
  pub cancelled : ℕ → Bool

pub data Outcome : Type 0 where
  connected : String → ℕ → Outcome
  no_servers context_done all_failed out_of_fuel : Outcome

unfoldable pub run_check : Network → ℕ → HealthCheck → Bool
run_check net round HealthCheck.passing = true
run_check net round HealthCheck.failing = false
run_check net round (HealthCheck.callback c) = net.healthy round c

-- Whether this round dials its target.
unfoldable pub dials : Network → LoadBalancer → ℕ → Bool → String → Bool
unfolding run_check
dials net lb round ignore_checks target = elim (lookup target lb.servers) [
  | none ↦ false
  | some s ↦ if str_eq target "" then false else ignore_checks || run_check net round s.health_check
]

-- The connection that this round opens to its target, if any.
unfoldable pub attempt : Network → LoadBalancer → ℕ → Bool → String → Option ℕ
unfolding dials
attempt net lb round ignore_checks target =
    if dials net lb round ignore_checks target then net.dial round target else none

-- The connection is added to the server's map.
unfoldable pub add_connection : LoadBalancer → String → ℕ → LoadBalancer
add_connection lb target conn = elim (lookup target lb.servers) [
  | none ↦ lb
  | some s ↦ record lb {
    servers = insert target (record s { connections = conn ∷ s.connections }) lb.servers;
  }
]

abbrev pub min_index : ℕ → ℕ → ℕ
min_index start_index max_index = if ltb max_index start_index then max_index else start_index

-- The result, the final state, and the servers whose connections are closed on return.
abbrev pub Dialed : Type 0
Dialed = Outcome × LoadBalancer × List String

-- The rest of a round whose target did not answer, from what nextServer returns; `again` is the
-- next round, with allChecksFailed and the state.
unfoldable pub fail_over :
    Network
    → ℕ
    → Bool
    → ℕ
    → List String
    → (Bool → LoadBalancer → Dialed)
    → Option String × LoadBalancer
    → Dialed
fail_over net round ignore_checks start_index closed again (none, lb) = (no_servers, lb, closed)
fail_over net round ignore_checks start_index closed again (some new_server, lb) =
    if net.cancelled round
    then (context_done, lb, closed)
    else if lb.next_server_index == start_index
    then (if ignore_checks then (all_failed, lb, closed) else again true lb)
    else again ignore_checks lb

-- The loop; `ignore_checks` is allChecksFailed.
unfoldable pub dial_loop : Network → ℕ → ℕ → Bool → ℕ → List String → LoadBalancer → Dialed
dial_loop net zero round ignore_checks start_index closed lb = (out_of_fuel, lb, closed)
dial_loop net (suc fuel) round ignore_checks start_index closed lb =
    let target = lb.current_server_address in
    let closed' =
      if dials net lb round ignore_checks target && not ignore_checks
      then target ∷ closed
      else closed in
    let start' = min_index start_index (length lb.random_servers) in
    let again : Bool → LoadBalancer → Dialed =
      λ ignore lb'. dial_loop net fuel (round + 1) ignore start' closed' lb' in
    elim (attempt net lb round ignore_checks target) [
      | some conn ↦ (connected target conn, add_connection lb target conn, closed)
      | none ↦ fail_over net round ignore_checks start' closed' again (next_server lb target)
    ]

-- Two turns over the list are enough: see LoadBalancer/Dial/Reach.
unfoldable pub dial_context : Network → LoadBalancer → Dialed
unfolding dial_loop fail_over
dial_context net lb =
    dial_loop net (suc (2 * length lb.random_servers)) 0 false lb.next_server_index [] lb
