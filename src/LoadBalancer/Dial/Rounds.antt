-- ===== src/LoadBalancer/Dial/Rounds.antt =====
-- One round of the dial loop, from a state whose current server stands before the next index.
use text.Mathlib.TextPositions.{eq_refl as text_refl}
use k8e.Common.{
  ℕ, zero, suc, ◌+◌, ◌-◌, ◌≤◌, ◌<◌, String, ◌≡◌, refl, ap, ◌∙◌, ◌≢◌, inl, inr, Bool, true, false,
  Option, none, some, List, [], ◌∷◌, arith, ltb, leb, ◌==◌, if◌then◌else◌, ltb→lt, ==_iff,
  Bool-cases, Option-cases, length, get_elem?,
}
use k8e.LoadBalancer.Servers.{LoadBalancer, next_server}
use k8e.LoadBalancer.Dial.{
  Network, fail_over, attempt, dial_loop, Dialed, connected, context_done, all_failed,
  add_connection, min_index,
}

abbrev pub size : LoadBalancer → ℕ
size lb = length lb.random_servers

-- The next index is in range, and the current server is the one before it.
pub record IsPlaced (lb : LoadBalancer) : Type 0 where
  pub from_one : 1 ≤ lb.next_server_index
  pub in_range : lb.next_server_index ≤ size lb
  pub at_current :
      get_elem? lb.random_servers (lb.next_server_index - 1) ≡ some lb.current_server_address

get_elem?-some :
    (xs : List String) (i : ℕ) → i < length xs → (a : String) × (get_elem? xs i ≡ some a)
get_elem?-some [] i h = elim h [ ]
get_elem?-some (x ∷ xs) zero h = (x, refl)
get_elem?-some (x ∷ xs) (suc i) h = get_elem?-some xs i (omega arith)

-- The index after a failed round: it goes round from the length to 1.
abbrev pub after : ℕ → ℕ → ℕ
after n index = if index == n then 1 else index + 1

abbrev pub moved : LoadBalancer → String → LoadBalancer
moved lb address = record lb {
  current_server_address = address;
  next_server_index = after (size lb) lb.next_server_index;
}

pub record Moves (lb : LoadBalancer) : Type 0 where
  pub address : String
  pub step : next_server lb lb.current_server_address ≡ (some address, moved lb address)
  pub placed : IsPlaced (moved lb address)

moved-IsPlaced :
    (lb : LoadBalancer) (i : ℕ) (a : String)
    → IsPlaced lb
    → i + 1 ≡ after (size lb) lb.next_server_index
    → get_elem? lb.random_servers i ≡ some a
    → IsPlaced (moved lb a)
moved-IsPlaced lb i a v h e = record {
  from_one = omega arith;
  in_range = ground arith;
  at_current = ap (get_elem? lb.random_servers) (omega arith) ∙ e;
}

move_one : (lb : LoadBalancer) → IsPlaced lb → size lb ≡ 1 → Moves lb
unfolding next_server
move_one lb v h = record {
  address = lb.current_server_address;
  step = ground (arith, text_refl lb.current_server_address);
  placed =
      moved-IsPlaced lb (lb.next_server_index - 1) lb.current_server_address v (ground arith)
        v.at_current;
}

move_many :
    (lb : LoadBalancer) (i : ℕ) (a : String)
    → IsPlaced lb
    → 1 < size lb
    → i ≡ (if leb (size lb) lb.next_server_index then 0 else lb.next_server_index)
    → get_elem? lb.random_servers i ≡ some a
    → Moves lb
unfolding next_server
move_many lb i a v h k e = record {
  address = a;
  step = ground (arith, text_refl lb.current_server_address);
  placed = moved-IsPlaced lb i a v (ground arith) e;
}

index_below : (n next : ℕ) → 1 < n → (if leb n next then 0 else next) < n
index_below n next h = ground arith

-- After a failed round the next server of the list is the current one.
pub IsPlaced-Moves : (lb : LoadBalancer) → IsPlaced lb → Moves lb
IsPlaced-Moves lb v = elim (Bool-cases (ltb 1 (size lb))) [
  | inl many ↦
      let i : ℕ = if leb (size lb) lb.next_server_index then 0 else lb.next_server_index in
      let (a, e) =
        get_elem?-some lb.random_servers i
          (index_below (size lb) lb.next_server_index (ltb→lt 1 (size lb) many)) in
      move_many lb i a v (ltb→lt 1 (size lb) many) refl e
  | inr one ↦ move_one lb v (ground (arith, v.from_one, v.in_range))
]

min_index-le : (a b : ℕ) → a ≤ b → min_index a b ≡ a
min_index-le a b h = ground arith

-- A statement about a run of the loop holds if it holds for each way in which a round can end.
module _ {ℓ} (P : Dialed → Type ℓ) (net : Network) (fuel round : ℕ) (ignore_checks : Bool)
    (start : ℕ) (closed : List String) (lb : LoadBalancer) (m : Moves lb) where
  abbrev opened : Option ℕ
  opened = attempt net lb round ignore_checks lb.current_server_address

  pub round_cases :
      start ≤ size lb
      → ((conn : ℕ)
          → opened ≡ some conn
          → P (
            connected lb.current_server_address conn,
            add_connection lb lb.current_server_address conn,
            closed,
          ))
      → ((c : List String)
          → opened ≡ none
          → net.cancelled round ≡ true
          → P (context_done, moved lb m.address, c))
      → ((c : List String)
          → opened ≡ none
          → after (size lb) lb.next_server_index ≡ start
          → ignore_checks ≡ true
          → P (all_failed, moved lb m.address, c))
      → ((c : List String)
          → opened ≡ none
          → after (size lb) lb.next_server_index ≡ start
          → ignore_checks ≡ false
          → P (dial_loop net fuel (round + 1) true start c (moved lb m.address)))
      → ((c : List String)
          → opened ≡ none
          → after (size lb) lb.next_server_index ≢ start
          → P (dial_loop net fuel (round + 1) ignore_checks start c (moved lb m.address)))
      → P (dial_loop net (suc fuel) round ignore_checks start closed lb)
  unfolding dial_loop fail_over
  round_cases h hit stop finish retry next = elim (Option-cases opened) [
    | inr (conn, e) ↦ rw (e, dial_loop) (hit conn e)
    | inl e ↦
        rw (e, dial_loop)
          (rw (m.step, fail_over)
            (rw (min_index-le start (size lb) h) (elim (Bool-cases (net.cancelled round)) [
              | inl done ↦ rw done (stop _ e done)
              | inr live ↦
                  rw live (elim (Bool-cases (after (size lb) lb.next_server_index == start)) [
                    | inl wrap ↦ rw wrap (elim (Bool-cases ignore_checks) [
                      | inl ignored ↦ rw ignored (finish _ e ((==_iff _ start).0 wrap) ignored)
                      | inr checked ↦ rw checked (retry _ e ((==_iff _ start).0 wrap) checked)
                    ])
                    | inr on ↦ rw on (
                        next _ e
                          (λ q. cc ((==_iff (after (size lb) lb.next_server_index) start).1 q)))
                  ])
            ])))
  ]
