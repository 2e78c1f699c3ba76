-- ===== src/LoadBalancer/Dial/Reach.antt =====
-- The dial loop ends within two turns over the list, and finds a server that accepts connections.
use k8e.Common.{
  ℕ, zero, suc, ◌+◌, ◌-◌, ◌*◌, ◌≤◌, ◌<◌, String, ◌≡◌, refl, ap, ◌≢◌, true, false, none, some, List,
  [], arith, str_eq, ltb, leb, if◌then◌else◌, get_elem?,
}
use k8e.Common.Assoc.{lookup}
use k8e.LoadBalancer.Servers.{LoadBalancer, Server}
use k8e.LoadBalancer.Dial.{
  Network, Dialed, attempt, dial_loop, dial_context, connected, out_of_fuel,
}
use k8e.LoadBalancer.Dial.Rounds.{IsPlaced, IsPlaced-Moves, round_cases, moved, size}

-- Rounds until the index is back at `start`, and until position `p` is the target.
abbrev left : ℕ → ℕ → ℕ → ℕ
left n index start = if ltb index start then start - index else n - (index - start)

abbrev ahead : ℕ → ℕ → ℕ → ℕ
ahead n index p = if leb index (p + 1) then p + 1 - index else n + p + 1 - index

abbrev Ends : Dialed → Type 0
Ends r = r.0 ≢ out_of_fuel

turn_two_lem :
    (net : Network) (fuel round start : ℕ) (closed : List String) (lb : LoadBalancer)
    → IsPlaced lb
    → 1 ≤ start
    → start ≤ size lb
    → left (size lb) lb.next_server_index start ≤ fuel
    → Ends (dial_loop net fuel round true start closed lb)
turn_two_lem net zero round start closed lb v lo hi h = absurd (ground (arith, v.in_range))
turn_two_lem net (suc fuel) round start closed lb v lo hi h =
    let m = IsPlaced-Moves lb v in
    round_cases Ends net fuel round true start closed lb m hi (λ conn e q. cc) (λ c e d q. cc)
      (λ c e w i q. cc) (λ c e w i. cc)
      (λ c e w.
        turn_two_lem net fuel (round + 1) start c (moved lb m.address) m.placed lo hi
          (ground (arith, v.in_range)))

turn_one_lem :
    (net : Network) (fuel round start : ℕ) (closed : List String) (lb : LoadBalancer)
    → IsPlaced lb
    → 1 ≤ start
    → start ≤ size lb
    → left (size lb) lb.next_server_index start + size lb ≤ fuel
    → Ends (dial_loop net fuel round false start closed lb)
turn_one_lem net zero round start closed lb v lo hi h = absurd (ground (arith, v.in_range))
turn_one_lem net (suc fuel) round start closed lb v lo hi h =
    let m = IsPlaced-Moves lb v in
    round_cases Ends net fuel round false start closed lb m hi (λ conn e q. cc) (λ c e d q. cc)
      (λ c e w i. cc)
      (λ c e w i.
        turn_two_lem net fuel (round + 1) start c (moved lb m.address) m.placed lo hi
          (ground (arith, v.in_range)))
      (λ c e w.
        turn_one_lem net fuel (round + 1) start c (moved lb m.address) m.placed lo hi
          (ground (arith, v.in_range)))

-- From a placed state, whatever the callbacks, the dials and the context answer, a dial ends
-- within its fuel of two turns over the list.
pub dial_context-ends :
    (net : Network) (lb : LoadBalancer) → IsPlaced lb → (dial_context net lb).0 ≢ out_of_fuel
unfolding dial_context
dial_context-ends net lb v =
    turn_one_lem net (suc (2 * size lb)) 0 lb.next_server_index [] lb v v.from_one v.in_range
      (ground (arith, v.in_range))

abbrev Connects : Dialed → Type 0
Connects r = (address : String) × (conn : ℕ) × (r.0 ≡ connected address conn)

-- A known server at position `p` that accepts every dial, in a context that is never done.
module _ (net : Network) (p : ℕ) (a : String) (s : Server) (conn : ℕ → ℕ)
    (named : str_eq a "" ≡ false) (accepts : (round : ℕ) → net.dial round a ≡ some (conn round))
    (live : (round : ℕ) → net.cancelled round ≡ false) where
  -- The state knows the server, and lists it at the position.
  record Offers (lb : LoadBalancer) : Type 0 where
    listed : get_elem? lb.random_servers p ≡ some a
    known : lookup a lb.servers ≡ some s
    inside : p < size lb

  Offers-moved : (lb : LoadBalancer) (address : String) → Offers lb → Offers (moved lb address)
  Offers-moved lb address o = record { listed = o.listed; known = o.known; inside = o.inside }

  -- With the checks ignored, the server at the position is not passed over.
  not_passed :
      (lb : LoadBalancer) (round : ℕ)
      → IsPlaced lb
      → Offers lb
      → attempt net lb round true lb.current_server_address ≡ none
      → p + 1 ≢ lb.next_server_index
  unfolding attempt
  not_passed lb round v o e q =
      let shift : lb.next_server_index - 1 ≡ p = omega arith in
      let target : lb.current_server_address ≡ a = cc (ap (get_elem? lb.random_servers) shift) in
      let refused : attempt net lb round true a ≡ none = rw target at e in
      ground (arith, refused, accepts round, o.known)

  reach_second :
      (fuel round start : ℕ) (closed : List String) (lb : LoadBalancer)
      → IsPlaced lb
      → Offers lb
      → 1 ≤ start
      → start ≤ size lb
      → ahead (size lb) lb.next_server_index p < left (size lb) lb.next_server_index start
      → ahead (size lb) lb.next_server_index p < fuel
      → Connects (dial_loop net fuel round true start closed lb)
  reach_second zero round start closed lb v o lo hi k h = absurd (omega arith)
  reach_second (suc fuel) round start closed lb v o lo hi k h =
      let m = IsPlaced-Moves lb v in
      round_cases Connects net fuel round true start closed lb m hi (λ conn e. (_, conn, refl))
        (λ c e d. cc (live round))
        (λ c e w i. absurd (ground (arith, not_passed lb round v o e, v.in_range, o.inside)))
        (λ c e w i. cc)
        (λ c e w.
          reach_second fuel (round + 1) start c (moved lb m.address) m.placed
            (Offers-moved lb m.address o) lo hi
            (ground (arith, not_passed lb round v o e, v.in_range, v.from_one, o.inside))
            (ground (arith, not_passed lb round v o e, v.in_range, v.from_one, o.inside)))

  reach_first :
      (fuel round start : ℕ) (closed : List String) (lb : LoadBalancer)
      → IsPlaced lb
      → Offers lb
      → 1 ≤ start
      → start ≤ size lb
      → left (size lb) lb.next_server_index start + size lb ≤ fuel
      → Connects (dial_loop net fuel round false start closed lb)
  reach_first zero round start closed lb v o lo hi h = absurd (ground (arith, v.in_range))
  reach_first (suc fuel) round start closed lb v o lo hi h =
      let m = IsPlaced-Moves lb v in
      round_cases Connects net fuel round false start closed lb m hi (λ conn e. (_, conn, refl))
        (λ c e d. cc (live round)) (λ c e w i. cc)
        (λ c e w i.
          reach_second fuel (round + 1) start c (moved lb m.address) m.placed
            (Offers-moved lb m.address o) lo hi (ground (arith, v.in_range, v.from_one, o.inside))
            (ground (arith, v.in_range, v.from_one, o.inside)))
        (λ c e w.
          reach_first fuel (round + 1) start c (moved lb m.address) m.placed
            (Offers-moved lb m.address o) lo hi (ground (arith, v.in_range, v.from_one)))

  -- From a placed state a dial opens a connection if some listed and known server accepts every
  -- dial, whatever its health check says, and the context is never done.
  pub dial_context-connects :
      (lb : LoadBalancer)
      → IsPlaced lb
      → get_elem? lb.random_servers p ≡ some a
      → lookup a lb.servers ≡ some s
      → p < size lb
      → (address : String) × (c : ℕ) × ((dial_context net lb).0 ≡ connected address c)
  unfolding dial_context
  dial_context-connects lb v listed known inside =
      reach_first (suc (2 * size lb)) 0 lb.next_server_index [] lb v
        (record { listed = listed; known = known; inside = inside }) v.from_one v.in_range
        (ground (arith, v.in_range))
