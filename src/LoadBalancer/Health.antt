-- ===== src/LoadBalancer/Health.antt =====
-- The pass of runHealthChecks of pkg/agent/loadbalancer/servers.go over the servers: one tick of
-- its timer.
use k8e.Common.{
  ℕ, String, ◌≡◌, refl, Bool, true, false, ◌&&◌, ◌||◌, not, List, [], ◌∷◌, ◌++◌, if◌then◌else◌, All,
}
use k8e.Common.Assoc.{contains, has}
use k8e.LoadBalancer.Servers.{LoadBalancer, Server, HealthCheck}
use k8e.LoadBalancer.Dial.{Network, run_check}

-- The checked servers, whether one of them is healthy, and the servers whose connections are closed.
unfoldable pub check_servers :
    Network → ℕ → List (String × Server) → List (String × Server) × Bool × List String
check_servers net round [] = ([], false, [])
check_servers net round ((a, s) ∷ servers) =
    let (checked, healthy, closed) = check_servers net round servers in
    let status = run_check net round s.health_check in
    (
      (a, record s { was_healthy = status }) ∷ checked,
      status || healthy,
      if not status && s.was_healthy then a ∷ closed else closed,
    )

-- The new state, and the servers whose connections are closed.
unfoldable pub run_health_checks : Network → ℕ → LoadBalancer → LoadBalancer × List String
unfolding check_servers
run_health_checks net round lb =
    let (checked, healthy, closed) = check_servers net round lb.servers in
    let in_use = contains lb.default_server_address lb.server_addresses in
    let preferred = healthy && not in_use && has lb.default_server_address lb.servers in
    (
      record lb { servers = checked },
      if preferred then closed ++ lb.default_server_address ∷ [] else closed,
    )

run_check_same :
    (net : Network) (round round' : ℕ) (check : HealthCheck)
    → ((c : ℕ) → net.healthy round' c ≡ net.healthy round c)
    → run_check net round' check ≡ run_check net round check
unfolding run_check
run_check_same net round round' HealthCheck.passing same = refl
run_check_same net round round' HealthCheck.failing same = refl
run_check_same net round round' (HealthCheck.callback c) same = same c

not-and : (b : Bool) → not b && b ≡ false
not-and true = refl
not-and false = refl

at_most_one : (b : Bool) (a : String) → All (λ x. x ≡ a) (if b then a ∷ [] else [])
at_most_one true a = (refl, tt)
at_most_one false a = tt

check_twice :
    (net : Network) (round round' : ℕ) (servers : List (String × Server))
    → ((c : ℕ) → net.healthy round' c ≡ net.healthy round c)
    → check_servers net round' (check_servers net round servers).0
      ≡ ((check_servers net round servers).0, (check_servers net round servers).1, [])
unfolding check_servers
check_twice net round round' [] same = refl
check_twice net round round' ((a, s) ∷ servers) same =
    rw
      (
        check_twice net round round' servers same,
        run_check_same net round round' s.health_check same,
        not-and (run_check net round s.health_check),
      )
      refl

-- When the callbacks answer twice the same, the second pass leaves the state of the first, and
-- closes no connections but those of the default server.
pub health_settles :
    (net : Network) (round round' : ℕ) (lb : LoadBalancer)
    → ((c : ℕ) → net.healthy round' c ≡ net.healthy round c)
    → let after = (run_health_checks net round lb).0 in
      let (again, closed) = run_health_checks net round' after in
      (again ≡ after) × All (λ a. a ≡ lb.default_server_address) closed
unfolding run_health_checks
health_settles net round round' lb same =
    rw (check_twice net round round' lb.servers same) (refl, at_most_one _ _)
