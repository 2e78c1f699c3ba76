-- ===== src/Gateway/Policy.antt =====
-- The network policy of a session and the ports that it exposes: buildSessionCNPExposed of
-- pkg/sandboxmatrix/grpc/orchestrator.go, and pkg/sandboxmatrix/grpc/expose.go. The two locks make
-- each access to the registry one step; the calls of one operation are not interleaved with others.
use k8e.Common.{
  ℕ, String, ◌⊎◌, inl, inr, Bool, true, false, ◌&&◌, ◌||◌, Option, none, some, List, [], ◌∷◌, ◌++◌,
  str_eq, ◌==◌, if◌then◌else◌,
}
use k8e.Common.Int.{ℤ, pos, pos_part, ltb_ℤ, leb_ℤ}
use k8e.Common.Assoc.{lookup, insert, remove}
use k8e.Gateway.Api.{
  Session, Policy, to_world, to_fqdns, Ingress, from_host, from_app, Lookup, found, missing, broken,
  Error, Api,
}

pub record ExposedEntry : Type 0 where
  pub port : ℕ
  pub host : String
  pub url : String
  pub started_at : ℤ

-- What the gateway holds in memory for this: the exposed ports by session, and the flag.
pub record Exposures : Type 0 where
  pub exposed : List (String × List ExposedEntry)
  pub fqdn_egress_enabled : Bool

-- The entries of a session; none if the map has no such key.
unfoldable pub entries_of : Exposures → String → List ExposedEntry
entries_of x session_id = elim (lookup session_id x.exposed) [ none ↦ [] | some es ↦ es ]

-- The rules for the exposed ports.
unfoldable pub exposed_ingress : List ExposedEntry → List Ingress
exposed_ingress [] = []
exposed_ingress (e ∷ es) =
    from_app "sandbox-grpc-gateway" e.port ∷ from_app "e2b-server" e.port ∷ exposed_ingress es

abbrev pub is_nonempty : List String → Bool
is_nonempty [] = false
is_nonempty (x ∷ xs) = true

-- buildSessionCNPExposed
unfoldable pub build_session_cnp_exposed : Session → Bool → List ExposedEntry → Policy
unfolding exposed_ingress
build_session_cnp_exposed s fqdn_enabled es =
    let https =
      if fqdn_enabled && is_nonempty s.spec.allowed_hosts
      then to_fqdns s.spec.allowed_hosts 443
      else to_world 443 in
    record {
      session = s.name;
      ingress =
          from_host 2_024
          ∷ from_app "sandbox-grpc-gateway" 2_024
          ∷ from_app "e2b-server" 2_024
          ∷ exposed_ingress es;
      egress = to_world 53 ∷ https ∷ [];
    }

-- findExposedLocked
unfoldable pub find_exposed : List ExposedEntry → ℕ → Option ExposedEntry
find_exposed [] port = none
find_exposed (e ∷ es) port = if e.port == port then some e else find_exposed es port

unfoldable pub without_port : ℕ → List ExposedEntry → List ExposedEntry
without_port port [] = []
without_port port (e ∷ es) =
    let rest = without_port port es in if e.port == port then rest else e ∷ rest

-- removeExposed: a session that has no port left loses its key.
unfoldable pub put_entries : Exposures → String → List ExposedEntry → Exposures
put_entries x session_id [] = record x { exposed = remove session_id x.exposed }
put_entries x session_id (e ∷ es) = record x { exposed = insert session_id (e ∷ es) x.exposed }

unfoldable pub remove_exposed : Exposures → String → ℕ → Exposures
unfolding entries_of without_port put_entries
remove_exposed x session_id port =
    put_entries x session_id (without_port port (entries_of x session_id))

unfoldable pub add_exposed : Exposures → String → ExposedEntry → Exposures
unfolding entries_of
add_exposed x session_id e = record x {
  exposed = insert session_id (entries_of x session_id ++ e ∷ []) x.exposed;
}

-- What a request that changes the registry returns: the cluster, the registry, and its result.
abbrev pub Reply : Type 0 → Type 0 → Type 0
Reply W A = W × Exposures × (Error ⊎ A)

module _ {W : Type 0} (api : Api W) where
  -- applySessionCNP: the policy as it is looked up decides how the new one is written.
  unfoldable pub put_policy : W → Policy → Lookup → W × Bool
  put_policy w policy missing = api.create_policy w policy
  put_policy w policy broken = (w, false)
  put_policy w policy found = api.update_policy w policy

  unfoldable pub apply_session_cnp : Exposures → W → Session → W × Bool
  unfolding build_session_cnp_exposed entries_of put_policy
  apply_session_cnp x w s =
      put_policy w (build_session_cnp_exposed s x.fqdn_egress_enabled (entries_of x s.name))
        (api.find_policy w s.name)

  -- The end of ExposeService, after the registry has the new entry.
  unfoldable pub open_port : Exposures → String → ExposedEntry → W × Bool → Reply W String
  unfolding remove_exposed
  open_port x session_id e (w, true) = (w, x, inr e.url)
  open_port x session_id e (w, false) = (w, remove_exposed x session_id e.port, inl Error.internal)

  unfoldable pub expose_new :
      Exposures → W → String → ExposedEntry → Option Session → Reply W String
  unfolding add_exposed apply_session_cnp open_port
  expose_new x w session_id e none = (w, x, inl Error.not_found)
  expose_new x w session_id e (some s) =
      let x' = add_exposed x session_id e in open_port x' session_id e (apply_session_cnp x' w s)

  -- ExposeService; `url` is the URL of a port, and `now` the time.
  unfoldable pub expose_service :
      (ℕ → String) → Exposures → W → String → ℤ → String → ℤ → Reply W String
  unfolding find_exposed expose_new entries_of
  expose_service url x w session_id port host now =
      let number = pos_part port in
      let entry : ExposedEntry = record {
        port = number;
        host = if str_eq host "" then "127.0.0.1" else host;
        url = url number;
        started_at = now;
      } in
      let fresh = expose_new x w session_id entry (api.get_session w session_id) in
      if leb_ℤ port (pos 0) || ltb_ℤ (pos 65_535) port
      then (w, x, inl Error.invalid_argument)
      else elim (find_exposed (entries_of x session_id) number) [
        | some e ↦ (w, x, inr e.url)
        | none ↦ fresh
      ]

  -- The policy without the port; no session, no policy.
  unfoldable pub close_port : Exposures → W → Option Session → Reply W Bool
  unfolding apply_session_cnp
  close_port x w none = (w, x, inr true)
  close_port x w (some s) =
      let (w', applied) = apply_session_cnp x w s in
      (w', x, if applied then inr true else inl Error.internal)

  -- UnexposeService
  unfoldable pub unexpose_service : Exposures → W → String → ℕ → Reply W Bool
  unfolding find_exposed entries_of remove_exposed close_port
  unexpose_service x w session_id port =
      let rest = close_port (remove_exposed x session_id port) w (api.get_session w session_id) in
      elim (find_exposed (entries_of x session_id) port) [
        | none ↦ (w, x, inr false)
        | some e ↦ rest
      ]

  -- ListExposed
  unfoldable pub list_exposed : Exposures → W → String → Exposures × List ExposedEntry
  unfolding entries_of
  list_exposed x w session_id = elim (api.get_session w session_id) [
    | none ↦ (record x { exposed = remove session_id x.exposed }, [])
    | some s ↦ (x, entries_of x session_id)
  ]

  -- UpdateAllowedHosts
  unfoldable pub update_allowed_hosts :
      Exposures → W → String → List String → W × (Error ⊎ List String)
  unfolding apply_session_cnp
  update_allowed_hosts x w session_id hosts = elim (api.get_session w session_id) [
    | none ↦ (w, inl Error.api_error)
    | some s ↦
        let s' : Session = record s { spec = record s.spec { allowed_hosts = hosts } } in
        let (w', updated) = api.update_session w s' in
        let (w'', applied) = apply_session_cnp x w' s' in
        (w'', if applied then inr hosts else inl Error.internal)
  ]
