-- ===== src/Gateway/Sessions.antt =====
-- The sessions of pkg/sandboxmatrix/grpc/orchestrator.go: how one is found and created. One call runs
-- at a time but for the claim of a warm pod (Gateway/Claims).
pub mod Destroy
pub mod Pause
pub mod SubAgent
use Prim.Native.String.{◌++◌ as str_append}
use k8e.Common.{
  ℕ, zero, suc, ◌+◌, ◌-◌, ◌*◌, ◌/◌, ◌%◌, ◌^◌, ◌≤◌, ◌<◌, String, ◌≡◌, refl, sym, ap, ◌∙◌, ◌≢◌, ◌↔◌,
  ◌⊎◌, inl, inr, Bool, true, false, ◌&&◌, ◌||◌, not, Option, none, some, List, [], ◌∷◌, ◌++◌, map,
  arith, str_eq, eq_iff, ltb, leb, ◌==◌, if◌then◌else◌, ltb→lt, lt→ltb, leb→le, ==_iff, Bool-cases,
  Option-cases, length, get_elem?, replicate, select, length-append, length-replicate, All,
}
use k8e.Common.Int.{
  ℤ, pos, negsuc, pos_part, neg_part, sub_ℕ, ◌+ℤ◌, ◌-ℤ◌, ◌*ℤ◌, ◌≤ℤ◌, ◌<ℤ◌, ltb_ℤ, leb_ℤ, eqb_ℤ,
  div_ℤ, wrap64, IsInt64, wrap64-IsInt64, wrap64_fits, +ℤ_parts, -ℤ_parts, eq_of_parts, int_laws,
}
use k8e.Sandbox.Pods.{Pod, PodState, or_default}
use k8e.Sandbox.Env.{
  Strings, SecretRef, validate_session_env, validate_secret_refs, pb_secret_refs_to_api,
}
use k8e.Gateway.Api.{
  SandboxPhase, DestroyStep, Status, Session, Deletion, Error, Answer, Api, chain,
}
use k8e.Gateway.Policy.{Exposures, apply_session_cnp, is_nonempty}
use k8e.Gateway.Claims.{claim_or_create_pod}

pub record CreateSessionRequest : Type 0 where
  pub session_id : String
  pub tenant_id : String
  pub runtime_class : String
  pub allowed_hosts : List String
  pub env : List (String × String)
  pub secret_refs : List (Option SecretRef)

abbrev pub no_status : Status
no_status = record {
  phase = SandboxPhase.unset;
  pod_name = "";
  pod_ip = "";
  workspace_pvc = "";
  created_at = none;
  expires_at = none;
}

unfoldable pub is_phase : SandboxPhase → SandboxPhase → Bool
is_phase SandboxPhase.unset SandboxPhase.unset = true
is_phase SandboxPhase.warm SandboxPhase.warm = true
is_phase SandboxPhase.active SandboxPhase.active = true
is_phase SandboxPhase.paused SandboxPhase.paused = true
is_phase SandboxPhase.resetting SandboxPhase.resetting = true
is_phase SandboxPhase.terminating SandboxPhase.terminating = true
is_phase SandboxPhase.background_running SandboxPhase.background_running = true
is_phase SandboxPhase.background_completed SandboxPhase.background_completed = true
is_phase p q = false

unfoldable pub is_step : DestroyStep → DestroyStep → Bool
is_step DestroyStep.cnp DestroyStep.cnp = true
is_step DestroyStep.workspace DestroyStep.workspace = true
is_step DestroyStep.release DestroyStep.release = true
is_step a b = false

-- destroyStepsDone, asked for one step.
unfoldable pub is_done : DestroyStep → List DestroyStep → Bool
unfolding is_step
is_done step [] = false
is_done step (s ∷ steps) = is_step s step || is_done step steps

-- A pod as releasePod leaves it.
abbrev pub released : Pod → Pod
released pod = record pod { state = some PodState.resetting; session_id = "" }

-- The expiry of a session that is created at `now` with a TTL in seconds.
unfoldable pub expiry : ℤ → ℤ → Option ℤ
expiry now ttl = if ltb_ℤ (pos 0) ttl then some (now +ℤ wrap64 (ttl *ℤ pos 1_000_000_000)) else none

unfoldable pub workspace_name : String → String
workspace_name session_id = str_append "workspace-" session_id

-- The address and the name of the first pod that was listed.
unfoldable pub first_pod : Option (List Pod) → String × String
first_pod none = ("", "")
first_pod (some []) = ("", "")
first_pod (some (pod ∷ pods)) = (pod.pod_ip, pod.name)

-- The fallback to the pod that a status names.
unfoldable pub or_by_name : String × String → String → Option Pod → String × String
or_by_name by_label pod_name none = by_label
or_by_name by_label pod_name (some pod) =
    if str_eq by_label.0 "" && not (str_eq pod_name "") then (pod.pod_ip, pod.name) else by_label

module _ {W : Type 0} (api : Api W) where
  -- ensureWorkspacePVC
  unfoldable pub ensure_workspace_pvc : W → String → Answer W String
  unfolding workspace_name
  ensure_workspace_pvc w session_id =
      let (w', created) = api.create_pvc w (workspace_name session_id) in
      if api.has_pvc w (workspace_name session_id)
      then (w, inr (workspace_name session_id))
      else if created
      then (w', inr (workspace_name session_id))
      else (w', inl Error.api_error)

  -- markDestroyStep: the session is read again, and a failed update is ignored.
  unfoldable pub mark_destroy_step : W → String → DestroyStep → W
  unfolding is_done
  mark_destroy_step w session_id step = elim (api.get_session w session_id) [
    | none ↦ w
    | some s ↦
        let marked =
          (api.update_session w (record s { destroy_steps = s.destroy_steps ++ step ∷ [] })).0 in
        if is_done step s.destroy_steps then w else marked
  ]

  -- findPodBySession
  abbrev pub find_pod_by_session : W → String → String × String
  find_pod_by_session w session_id = first_pod (api.pods_of_session w session_id)

  -- The same, with the pod that the status names where the label leads to no address.
  abbrev pub find_pod : W → Session → String × String
  find_pod w s =
      or_by_name (find_pod_by_session w s.name) s.status.pod_name (api.get_pod w s.status.pod_name)

  -- releasePod
  unfoldable pub release_pod : W → String → W
  release_pod w pod_name = elim (api.get_pod w pod_name) [
    | none ↦ w
    | some pod ↦ (api.update_pod w pod (released pod)).0
  ]

  -- The end of createSessionWithTTL, on the pod that was claimed or created.
  unfoldable pub activate :
      Exposures → ℤ → ℤ → String → Session → W × Option Pod × Bool → Answer W Session
  unfolding expiry apply_session_cnp
  activate x now ttl pvc_name s (w, none, warm) = (w, inl Error.api_error)
  activate x now ttl pvc_name s (w, some pod, warm) =
      let s' : Session = record s {
        status = record {
          phase = SandboxPhase.active;
          pod_name = pod.name;
          pod_ip = pod.pod_ip;
          workspace_pvc = pvc_name;
          created_at = some now;
          expires_at = expiry now ttl;
        };
      } in
      let stored = (api.update_status w s').0 in
      let (w', applied) = apply_session_cnp api x stored s' in
      (w', if applied then inr s' else inl Error.api_error)

  -- The session object of a request; `fresh` is the ID where the request has none.
  unfoldable pub session_of_request : CreateSessionRequest → String → List String → Session
  unfolding or_default pb_secret_refs_to_api
  session_of_request req fresh matrix_hosts = record {
    name = or_default req.session_id fresh;
    versioned = false;
    destroy_steps = [];
    background_runs = [];
    spec = record {
      tenant_id = req.tenant_id;
      allowed_hosts = if is_nonempty req.allowed_hosts then req.allowed_hosts else matrix_hosts;
      runtime_class = or_default req.runtime_class "gvisor";
      parent_session_id = "";
      depth = pos 0;
      env = req.env;
      secret_refs = pb_secret_refs_to_api req.secret_refs;
    };
    status = no_status;
  }

  -- createSessionWithTTL after the validations.
  unfoldable pub create_valid :
      (ℕ → W → W) → Exposures → W → ℤ → ℤ → Session → String → String → Answer W Session
  unfolding chain ensure_workspace_pvc claim_or_create_pod activate
  create_valid others x w now ttl s cpu memory =
      let (w₁, created) = api.create_session w s in
      let claim : W → String → Answer W Session = λ w₂ pvc_name.
        activate x now ttl pvc_name s
          (claim_or_create_pod api others w₂ s.name s.spec.runtime_class pvc_name cpu memory) in
      if not created
      then (w₁, inl Error.api_error)
      else if str_eq s.spec.tenant_id ""
      then claim w₁ ""
      else chain (ensure_workspace_pvc w₁ s.name) claim

  -- CreateSession
  unfoldable pub create_session :
      Strings → (ℕ → W → W) → Exposures → W → CreateSessionRequest → String → ℤ → Answer W Session
  unfolding validate_session_env validate_secret_refs session_of_request create_valid
  create_session st others x w req fresh now =
      let (hosts, ttl, cpu, memory) = api.matrix_config w in
      let go = create_valid others x w now ttl (session_of_request req fresh hosts) cpu memory in
      elim (validate_session_env st req.env) [
        | some e ↦ (w, inl Error.invalid_argument)
        | none ↦ elim (validate_secret_refs st req.secret_refs) [
          | some e ↦ (w, inl Error.invalid_argument)
          | none ↦ go
        ]
      ]
