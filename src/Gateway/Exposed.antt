-- ===== src/Gateway/Exposed.antt =====
-- What ExposeService and UnexposeService do to the registry and to the session's policy.
use text.Mathlib.TextPositions.{eq_refl as text_refl}
use k8e.Common.{
  ℕ, String, ◌≡◌, refl, sym, ap, ◌∙◌, inl, inr, Bool, true, false, ◌||◌, Option, none, some, List,
  [], ◌∷◌, ◌++◌, arith, str_eq, if◌then◌else◌, Bool-cases, Option-cases,
}
use k8e.Common.Int.{ℤ, pos, pos_part, ltb_ℤ, leb_ℤ}
use k8e.Gateway.Api.{Session, Error, Api}
use k8e.Gateway.Policy.{
  ExposedEntry, Exposures, entries_of, find_exposed, remove_exposed, add_exposed, Reply,
  apply_session_cnp, open_port, expose_new, expose_service, close_port, unexpose_service,
}
use k8e.Gateway.Ports.{is_exposed, SameEntries, add_exposed_lem, remove-add}

-- The entry that a request for a port adds.
abbrev pub new_entry : (ℕ → String) → ℤ → String → ℤ → ExposedEntry
new_entry url port host now = record {
  port = pos_part port;
  host = if str_eq host "" then "127.0.0.1" else host;
  url = url (pos_part port);
  started_at = now;
}

module _ {W : Type 0} (api : Api W) where
  -- How a request ends that found the port free: with the port in the registry, and the policy
  -- written for that registry; or with the registry as it was.
  pub data Ends (x : Exposures) (w : W) (id : String) (e : ExposedEntry)
      : Reply W String → Type 0 where
    refused :
        (w' : W) (x' : Exposures) (err : Error) → SameEntries x x' → Ends x w id e (w', x', inl err)
    opened :
        (s : Session)
        → api.get_session w id ≡ some s
        → (apply_session_cnp api (add_exposed x id e) w s).1 ≡ true
        → Ends x w id e
            ((apply_session_cnp api (add_exposed x id e) w s).0, add_exposed x id e, inr e.url)

  open_port-Ends :
      (x : Exposures) (w : W) (id : String) (e : ExposedEntry) (s : Session) (v : W) (b : Bool)
      → api.get_session w id ≡ some s
      → find_exposed (entries_of x id) e.port ≡ none
      → apply_session_cnp api (add_exposed x id e) w s ≡ (v, b)
      → Ends x w id e (open_port api (add_exposed x id e) id e (v, b))
  unfolding open_port
  open_port-Ends x w id e s v true there free applied =
      let at_end : (apply_session_cnp api (add_exposed x id e) w s).0 ≡ v = ap (λ r. r.0) applied in
      rw (sym at_end) (opened s there (ap (λ r. r.1) applied))
  open_port-Ends x w id e s v false there free applied =
      refused v (remove_exposed (add_exposed x id e) id e.port) Error.internal
        (remove-add x id e free)

  expose_new-Ends :
      (x : Exposures) (w : W) (id : String) (e : ExposedEntry) (o : Option Session)
      → api.get_session w id ≡ o
      → find_exposed (entries_of x id) e.port ≡ none
      → Ends x w id e (expose_new api x w id e o)
  unfolding expose_new
  expose_new-Ends x w id e none there free = refused w x Error.not_found (λ j. refl)
  expose_new-Ends x w id e (some s) there free =
      open_port-Ends x w id e s (apply_session_cnp api (add_exposed x id e) w s).0
        (apply_session_cnp api (add_exposed x id e) w s).1 there free refl

  expose-Ends :
      (url : ℕ → String) (x : Exposures) (w : W) (id : String) (port : ℤ) (host : String) (now : ℤ)
      → find_exposed (entries_of x id) (pos_part port) ≡ none
      → Ends x w id (new_entry url port host now) (expose_service api url x w id port host now)
  unfolding expose_service
  expose-Ends url x w id port host now free =
      elim (Bool-cases (leb_ℤ port (pos 0) || ltb_ℤ (pos 65_535) port)) [
        | inl out ↦ rw (out, expose_service) (refused w x Error.invalid_argument (λ j. refl))
        | inr fits ↦
            rw (fits, free, expose_service)
              (expose_new-Ends x w id (new_entry url port host now) (api.get_session w id) refl
                free)
      ]

  -- The registry after UnexposeService of a port that it has.
  unexpose_entries :
      (x : Exposures) (w : W) (id : String) (port : ℕ)
      → is_exposed (entries_of x id) port ≡ true
      → (unexpose_service api x w id port).1 ≡ remove_exposed x id port
  unfolding unexpose_service is_exposed close_port
  unexpose_entries x w id port there = elim (Option-cases (find_exposed (entries_of x id) port)) [
    | inl lacks ↦ cc (rw (lacks, is_exposed) at there)
    | inr (e, has) ↦ elim (Option-cases (api.get_session w id)) [
      | inl gone ↦ rw (has, gone, unexpose_service) refl
      | inr (s, here) ↦ rw (has, here, unexpose_service) refl
    ]
  ]

is_exposed-add :
    (es : List ExposedEntry) (e : ExposedEntry) → is_exposed (es ++ e ∷ []) e.port ≡ true
unfolding is_exposed find_exposed
is_exposed-add [] e = ground arith
is_exposed-add (a ∷ es) e = ground (arith, is_exposed-add es e)

module _ {W : Type 0} (api : Api W) where
  ends_opened :
      (x : Exposures) (w : W) (id : String) (e : ExposedEntry) (r : Reply W String) (w' : W)
      (x' : Exposures) (u : String)
      → Ends api x w id e r
      → r ≡ (w', x', inr u)
      → x' ≡ add_exposed x id e
  ends_opened x w id e _ w' x' u (Ends.refused v y err' same) h = cc
  ends_opened x w id e _ w' x' u (Ends.opened s there applied) h = sym (ap (λ r. r.1) h)

-- Exposing a port that was free and closing it again, when the first succeeds: in between the port is
-- exposed, and after it every session has the ports that it had, whatever has happened to the cluster
-- meanwhile and also when the second cannot write the policy.
pub unexpose-expose :
    {W : Type 0} (api : Api W) (url : ℕ → String) (x x' : Exposures) (w w' v : W) (id : String)
    (port : ℤ) (host : String) (now : ℤ) (u : String)
    → find_exposed (entries_of x id) (pos_part port) ≡ none
    → expose_service api url x w id port host now ≡ (w', x', inr u)
    → (is_exposed (entries_of x' id) (pos_part port) ≡ true)
      × SameEntries x (unexpose_service api x' v id (pos_part port)).1
unexpose-expose api url x x' w w' v id port host now u free h =
    let e = new_entry url port host now in
    let opened =
      ends_opened api x w id e (expose_service api url x w id port host now) w' x' u
        (expose-Ends api url x w id port host now free) h in
    let own : entries_of x' id ≡ entries_of x id ++ e ∷ [] =
      ap (λ y. entries_of y id) opened ∙ add_exposed_lem x id id e ∙ rw (text_refl id) refl in
    let there : is_exposed (entries_of x' id) (pos_part port) ≡ true =
      ap (λ es. is_exposed es (pos_part port)) own ∙ is_exposed-add (entries_of x id) e in
    (
      there,
      λ j.
          ap (λ y. entries_of y j) (unexpose_entries api x' v id (pos_part port) there)
          ∙ ap (λ y. entries_of (remove_exposed y id (pos_part port)) j) opened
          ∙ remove-add x id e free j,
    )
