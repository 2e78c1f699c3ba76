-- ===== src/Gateway/Ports.antt =====
-- The registry of exposed ports, and the policy that is built from it.
use text.Mathlib.TextPositions.{eq_refl as text_refl}
use k8e.Common.{
  ℕ, String, ◌≡◌, refl, ap, ◌∙◌, inl, inr, Bool, true, false, ◌&&◌, ◌||◌, none, some, List, [], ◌∷◌,
  ◌++◌, arith, str_eq, eq_iff, ◌==◌, if◌then◌else◌, Bool-cases,
}
use k8e.Common.Assoc.{insert, remove, lookup-insert, lookup-remove}
use k8e.Gateway.Api.{Session, Ingress, from_host, from_app}
use k8e.Gateway.Policy.{
  ExposedEntry, Exposures, entries_of, exposed_ingress, build_session_cnp_exposed, find_exposed,
  without_port, put_entries, remove_exposed, add_exposed,
}

-- Whether a policy lets the pods of an app reach a port.
unfoldable pub admits : String → ℕ → List Ingress → Bool
admits app port [] = false
admits app port (from_host p ∷ rules) = admits app port rules
admits app port (from_app a p ∷ rules) = str_eq a app && p == port || admits app port rules

unfoldable pub is_exposed : List ExposedEntry → ℕ → Bool
unfolding find_exposed
is_exposed es port = elim (find_exposed es port) [ none ↦ false | some e ↦ true ]

-- The registries hold the same ports for every session.
abbrev pub SameEntries : Exposures → Exposures → Type 0
SameEntries x x' = (j : String) → entries_of x' j ≡ entries_of x j

entries-insert :
    (x : Exposures) (id j : String) (es : List ExposedEntry)
    → entries_of (record x { exposed = insert id es x.exposed }) j
      ≡ (if str_eq id j then es else entries_of x j)
unfolding entries_of
entries-insert x id j es = elim (Bool-cases (str_eq id j)) [
  | inl same ↦ rw (lookup-insert id j es x.exposed, same, entries_of) refl
  | inr other ↦ rw (lookup-insert id j es x.exposed, other, entries_of) refl
]

entries-remove :
    (x : Exposures) (id j : String)
    → entries_of (record x { exposed = remove id x.exposed }) j
      ≡ (if str_eq id j then [] else entries_of x j)
unfolding entries_of
entries-remove x id j = elim (Bool-cases (str_eq id j)) [
  | inl same ↦ rw (lookup-remove id j x.exposed, same, entries_of) refl
  | inr other ↦ rw (lookup-remove id j x.exposed, other, entries_of) refl
]

without_port-add :
    (es : List ExposedEntry) (e : ExposedEntry)
    → find_exposed es e.port ≡ none
    → without_port e.port (es ++ e ∷ []) ≡ es
unfolding without_port find_exposed
without_port-add [] e h = ground arith
without_port-add (a ∷ es) e h = elim (Bool-cases (a.port == e.port)) [
  | inl same ↦ cc (rw same at h)
  | inr other ↦ rw other (ap (λ r. a ∷ r) (without_port-add es e (rw other at h)))
]

put_entries_lem :
    (x : Exposures) (id j : String) (es : List ExposedEntry)
    → entries_of (put_entries x id es) j ≡ (if str_eq id j then es else entries_of x j)
unfolding put_entries
put_entries_lem x id j [] = entries-remove x id j
put_entries_lem x id j (e ∷ es) = entries-insert x id j (e ∷ es)

pub add_exposed_lem :
    (x : Exposures) (id j : String) (e : ExposedEntry)
    → entries_of (add_exposed x id e) j
      ≡ (if str_eq id j then entries_of x id ++ e ∷ [] else entries_of x j)
unfolding add_exposed
add_exposed_lem x id j e = entries-insert x id j (entries_of x id ++ e ∷ [])

-- Taking out a port that has just been put in.
pub remove-add :
    (x : Exposures) (id : String) (e : ExposedEntry)
    → find_exposed (entries_of x id) e.port ≡ none
    → SameEntries x (remove_exposed (add_exposed x id e) id e.port)
unfolding remove_exposed
remove-add x id e free j =
    let added = add_exposed x id e in
    let own : entries_of added id ≡ entries_of x id ++ e ∷ [] =
      add_exposed_lem x id id e ∙ rw (text_refl id) refl in
    put_entries_lem added id j (without_port e.port (entries_of added id))
    ∙ elim (Bool-cases (str_eq id j)) [
      | inl same ↦
          let here : id ≡ j = (eq_iff id j).0 same in
          rw same (rw own (without_port-add (entries_of x id) e free) ∙ ap (entries_of x) here)
      | inr other ↦ rw other (add_exposed_lem x id j e ∙ rw other refl)
    ]

-- The apps that the gateway runs.
abbrev pub is_gateway : String → Bool
is_gateway app = str_eq "sandbox-grpc-gateway" app || str_eq "e2b-server" app

admits-exposed :
    (app : String) (port : ℕ) (es : List ExposedEntry)
    → admits app port (exposed_ingress es) ≡ is_gateway app && is_exposed es port
unfolding admits exposed_ingress is_exposed find_exposed
admits-exposed app port [] = ground arith
admits-exposed app port (e ∷ es) = ground (arith, admits-exposed app port es)

-- The policy of a session lets an app into a port exactly if the app is the gRPC gateway or the E2B
-- server and the port is sandboxd's 2024 or one of the exposed.
pub admits-build_session_cnp_exposed :
    (s : Session) (fqdn_enabled : Bool) (es : List ExposedEntry) (app : String) (port : ℕ)
    → admits app port (build_session_cnp_exposed s fqdn_enabled es).ingress
      ≡ is_gateway app && (2_024 == port || is_exposed es port)
unfolding admits build_session_cnp_exposed
admits-build_session_cnp_exposed s fqdn_enabled es app port =
    ground (arith, admits-exposed app port es)
