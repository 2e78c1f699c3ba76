-- ===== src/Gateway/Sessions/Pause.antt =====
-- PauseSession and ResumeSession.
use k8e.Common.{
  ℕ, String, inl, inr, Bool, true, ◌&&◌, not, Option, none, some, str_eq, if◌then◌else◌,
}
use k8e.Sandbox.Pods.{Pod}
use k8e.Gateway.Api.{SandboxPhase, Session, Deletion, Error, Answer, Api, chain}
use k8e.Gateway.Policy.{Exposures, apply_session_cnp}
use k8e.Gateway.Claims.{claim_or_create_pod}
use k8e.Gateway.Sessions.{is_phase, ensure_workspace_pvc, find_pod, or_by_name, first_pod}

module _ {W : Type 0} (api : Api W) where
  -- The end of PauseSession, once the pod is gone.
  unfoldable pub suspend : W → Session → String → W
  suspend w s pvc_name =
      api.delete_policy
        (api.update_status w (record s {
          status = record s.status {
            phase = SandboxPhase.paused;
            pod_name = "";
            pod_ip = "";
            workspace_pvc = pvc_name;
          };
        })).0
        s.name

  -- A pod that is not there any more counts as deleted.
  unfoldable pub after_delete : Session → String → W × Deletion → Answer W Bool
  unfolding suspend
  after_delete s pvc_name (w, Deletion.failed) = (w, inl Error.internal)
  after_delete s pvc_name (w, Deletion.deleted) = (suspend w s pvc_name, inr true)
  after_delete s pvc_name (w, Deletion.absent) = (suspend w s pvc_name, inr true)

  unfoldable pub pause_with : Session → W → String → Answer W Bool
  unfolding or_by_name first_pod suspend after_delete
  pause_with s w pvc_name =
      let pod_name = (find_pod api w s).1 in
      if str_eq pod_name ""
      then (suspend w s pvc_name, inr true)
      else after_delete s pvc_name (api.delete_pod w pod_name)

  -- The error of a volume claim as PauseSession passes it on.
  unfoldable pub as_internal : Answer W String → Answer W String
  as_internal (w, inl e) = (w, inl Error.internal)
  as_internal (w, inr name) = (w, inr name)

  unfoldable pub pause_found : W → Session → Answer W Bool
  unfolding is_phase chain as_internal ensure_workspace_pvc pause_with
  pause_found w s =
      if not (is_phase s.status.phase SandboxPhase.active)
      then (w, inl Error.failed_precondition)
      else if str_eq s.spec.tenant_id "" && str_eq s.status.workspace_pvc ""
      then (w, inl Error.failed_precondition)
      else if str_eq s.status.workspace_pvc ""
      then chain (as_internal (ensure_workspace_pvc api w s.name)) (pause_with s)
      else pause_with s w s.status.workspace_pvc

  -- PauseSession
  unfoldable pub pause_session : W → String → Answer W Bool
  unfolding pause_found
  pause_session w session_id = elim (api.get_session w session_id) [
    | none ↦ (w, inl Error.api_error)
    | some s ↦ pause_found w s
  ]

  -- The end of ResumeSession, on the pod that was created.
  unfoldable pub reactivate : Exposures → Session → W × Option Pod × Bool → Answer W Pod
  unfolding apply_session_cnp
  reactivate x s (w, none, warm) = (w, inl Error.internal)
  reactivate x s (w, some pod, warm) =
      let s' : Session = record s {
        status = record s.status {
          phase = SandboxPhase.active;
          pod_name = pod.name;
          pod_ip = pod.pod_ip;
        };
      } in
      let stored = (api.update_status w s').0 in
      let (w', applied) = apply_session_cnp api x stored s' in
      (w', if applied then inr pod else inl Error.internal)

  unfoldable pub resume_found : (ℕ → W → W) → Exposures → W → Session → Answer W Pod
  unfolding is_phase claim_or_create_pod reactivate
  resume_found others x w s =
      let (hosts, ttl, cpu, memory) = api.matrix_config w in
      let go = reactivate x s (
        claim_or_create_pod api others w s.name s.spec.runtime_class s.status.workspace_pvc cpu
          memory) in
      if not (is_phase s.status.phase SandboxPhase.paused)
      then (w, inl Error.failed_precondition)
      else if str_eq s.status.workspace_pvc ""
      then (w, inl Error.failed_precondition)
      else go

  -- ResumeSession
  unfoldable pub resume_session : (ℕ → W → W) → Exposures → W → String → Answer W Pod
  unfolding resume_found
  resume_session others x w session_id = elim (api.get_session w session_id) [
    | none ↦ (w, inl Error.api_error)
    | some s ↦ resume_found others x w s
  ]
