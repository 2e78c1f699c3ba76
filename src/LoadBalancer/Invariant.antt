-- ===== src/LoadBalancer/Invariant.antt =====
-- What every operation of pkg/agent/loadbalancer/servers.go keeps.
use k8e.Common.{
  ℕ, String, ◌≡◌, refl, ap, ◌⊎◌, inl, inr, true, false, List, [], ◌∷◌, arith, str_eq, eq_iff,
  Bool-cases, Option-cases, length,
}
use k8e.Common.Assoc.{contains, lookup, insert, remove, has, has-insert, has-remove}
use k8e.LoadBalancer.Servers.{
  LoadBalancer, Server, HealthCheck, new_server, set_servers, next_server, set_default,
  set_health_check,
}
use k8e.LoadBalancer.Dial.Rounds.{IsPlaced, IsPlaced-Moves, moved}
use k8e.LoadBalancer.Updates.{Inv, set_servers-Inv}

-- The position does not depend on the map and the default address.
same_place :
    (lb : LoadBalancer) (m : List (String × Server)) (d : String)
    → (lb.random_servers ≡ []) ⊎ IsPlaced lb
    → (lb.random_servers ≡ []) ⊎ IsPlaced (record lb { servers = m; default_server_address = d })
same_place lb m d (inl e) = inl e
same_place lb m d (inr p) =
    inr (record { from_one = p.from_one; in_range = p.in_range; at_current = p.at_current })

set_default-known :
    (lb : LoadBalancer) (address : String)
    → Inv lb
    → (a : String) → contains a lb.server_addresses ≡ true
    → has a (set_default lb address).0.servers ≡ true
unfolding set_default
set_default-known lb address v a h =
    let failing = record (new_server address) {
      health_check = HealthCheck.failing;
      was_healthy = false;
    } in
    let rest = remove lb.default_server_address lb.servers in
    ground (
      arith,
      v.known a,
      eq_iff lb.default_server_address a,
      has-remove lb.default_server_address a lb.servers,
      has-insert address a failing rest,
      has-insert address a failing lb.servers,
    )

set_default-Inv : (lb : LoadBalancer) (address : String) → Inv lb → Inv (set_default lb address).0
unfolding set_default
set_default-Inv lb address v = record {
  known = set_default-known lb address v;
  tried = v.tried;
  placed = same_place lb _ address v.placed;
}

set_health_check-Inv :
    (lb : LoadBalancer) (address : String) (check : ℕ)
    → Inv lb
    → Inv (set_health_check lb address check)
unfolding set_health_check
set_health_check-Inv lb address check v = elim (Option-cases (lookup address lb.servers)) [
  | inl e ↦ rw (e, set_health_check) v
  | inr (s, e) ↦
      let s' = record s { health_check = HealthCheck.callback check; was_healthy = true } in
      rw (e, set_health_check)
        (record {
          known = λ a h. ground (arith, v.known a, has-insert address a s' lb.servers);
          tried = v.tried;
          placed = same_place lb (insert address s' lb.servers) lb.default_server_address v.placed;
        })
]

moved-Inv :
    (lb : LoadBalancer) (p : IsPlaced lb) → Inv lb → Inv (moved lb (IsPlaced-Moves lb p).address)
moved-Inv lb p v = record {
  known = v.known;
  tried = v.tried;
  placed = inr (IsPlaced-Moves lb p).placed;
}

next_server_empty :
    (lb : LoadBalancer) (failed : String) → lb.random_servers ≡ [] → (next_server lb failed).1 ≡ lb
unfolding next_server
next_server_empty lb failed e = ground (arith, ap length e)

next_server_stale :
    (lb : LoadBalancer) (failed : String)
    → str_eq failed lb.current_server_address ≡ false
    → (next_server lb failed).1 ≡ lb
unfolding next_server
next_server_stale lb failed e = ground arith

next_server-Inv : (lb : LoadBalancer) (failed : String) → Inv lb → Inv (next_server lb failed).1
next_server-Inv lb failed v = elim v.placed [
  | inl e ↦ rw (next_server_empty lb failed e) v
  | inr p ↦ elim (Bool-cases (str_eq failed lb.current_server_address)) [
    | inl same ↦
        rw ((eq_iff failed lb.current_server_address).0 same)
          (rw (IsPlaced-Moves lb p).step (moved-Inv lb p v))
    | inr other ↦ rw (next_server_stale lb failed other) v
  ]
]

-- The operations on a running load balancer.
pub data Operation : Type 0 where
  updates : List String → Operation
  sets_default : String → Operation
  sets_health_check : String → ℕ → Operation
  fails_over : String → Operation

module _ (shuffle : List String → List String) where
  pub step : LoadBalancer → Operation → LoadBalancer
  step lb (updates input) = (set_servers shuffle lb input).0
  step lb (sets_default address) = (set_default lb address).0
  step lb (sets_health_check address check) = set_health_check lb address check
  step lb (fails_over failed) = (next_server lb failed).1

  pub run : LoadBalancer → List Operation → LoadBalancer
  run lb [] = lb
  run lb (o ∷ rest) = run (step lb o) rest

  -- New, from the point where the default address is known.
  unfoldable pub start : String → LoadBalancer
  start address =
      (set_servers shuffle
        (record {
          default_server_address = address;
          server_addresses = [];
          random_servers = [];
          servers = [];
          current_server_address = "";
          next_server_index = 0;
        })
        (address ∷ [])).0

module _ (shuffle : List String → List String)
    (shuffle_contains : (a : String) (xs : List String) → contains a (shuffle xs) ≡ contains a xs)
    (shuffle_length : (xs : List String) → length (shuffle xs) ≡ length xs) where
  step-Inv : (lb : LoadBalancer) (o : Operation) → Inv lb → Inv (step shuffle lb o)
  unfolding step
  step-Inv lb (updates input) v = set_servers-Inv shuffle shuffle_contains shuffle_length lb input v
  step-Inv lb (sets_default address) v = set_default-Inv lb address v
  step-Inv lb (sets_health_check address check) v = set_health_check-Inv lb address check v
  step-Inv lb (fails_over failed) v = next_server-Inv lb failed v

  run-Inv : (lb : LoadBalancer) (os : List Operation) → Inv lb → Inv (run shuffle lb os)
  unfolding run
  run-Inv lb [] v = v
  run-Inv lb (o ∷ os) v = run-Inv (step shuffle lb o) os (step-Inv lb o v)

  start-Inv : (address : String) → Inv (start shuffle address)
  unfolding start contains
  start-Inv address =
      set_servers-Inv shuffle shuffle_contains shuffle_length _ _
        (record { known = λ a h. cc; tried = λ a h. cc; placed = inl refl })

  -- After any sequence of updates, changes of the default, new health checks and failovers, every
  -- listed address is known and tried, and the next server is in range; the shuffle is any that
  -- keeps the members and the length of a list.
  pub run-start-Inv :
      (address : String) (os : List Operation) → Inv (run shuffle (start shuffle address) os)
  run-start-Inv address os = run-Inv (start shuffle address) os (start-Inv address)
