-- ===== src/Gateway/Resumed.antt =====
-- ResumeSession, and that it brings back what PauseSession put to rest.
use k8e.Common.{
  ℕ, String, ◌≡◌, refl, sym, ap, ◌∙◌, ◌⊎◌, inl, inr, Bool, true, Option, none, some, str_eq,
  Bool-cases,
}
use k8e.Sandbox.Pods.{Pod}
use k8e.Gateway.Api.{
  Session, Policy, SandboxPhase, Error, Answer, Api, Lookup, found, missing, broken,
}
use k8e.Gateway.Policy.{
  Exposures, entries_of, build_session_cnp_exposed, put_policy, apply_session_cnp,
}
use k8e.Gateway.Claims.{session_pod, cold_start}
use k8e.Gateway.Sessions.{is_phase}
use k8e.Gateway.Sessions.Pause.{pause_session, reactivate, resume_found, resume_session}
use k8e.Gateway.Store.{IsStore, SameSessions}
use k8e.Gateway.Paused.{resumed, paused, kept_pvc, written, pause_lem}

module _ {W : Type 0} (api : Api W) (resets : W → String → ℕ) (store : IsStore api resets) where
  -- A network policy does not change a session.
  put_policy-sessions :
      (w : W) (p : Policy) (l : Lookup) → SameSessions api w (put_policy api w p l).0
  unfolding put_policy
  put_policy-sessions w p missing j = store.create_policy-sessions w p j
  put_policy-sessions w p broken j = refl
  put_policy-sessions w p found j = store.update_policy-sessions w p j

  pub apply_cnp-sessions :
      (x : Exposures) (w : W) (s : Session) → SameSessions api w (apply_session_cnp api x w s).0
  unfolding apply_session_cnp
  apply_cnp-sessions x w s j =
      put_policy-sessions w
        (build_session_cnp_exposed s x.fqdn_egress_enabled (entries_of x s.name))
        (api.find_policy w s.name) j

module _ {W : Type 0} (api : Api W) (resets : W → String → ℕ) (store : IsStore api resets)
    (writes : (w : W) (s : Session) → s.versioned ≡ true → (api.update_status w s).1 ≡ true) where
  reactivate_lem :
      (x : Exposures) (s : Session) (r : W × Option Pod × Bool) (w' : W) (pod : Pod)
      → api.get_session r.0 s.name ≡ some s
      → reactivate api x s r ≡ (w', inr pod)
      → (r.1 ≡ some pod) × (api.get_session w' s.name ≡ some (resumed s s.status.workspace_pvc pod))
  unfolding reactivate
  reactivate_lem x s (w, none, warm) w' pod e h = cc
  reactivate_lem x s (w, some q, warm) w' pod e h =
      let s' = resumed s s.status.workspace_pvc q in
      let stored = (api.update_status w s').0 in
      elim (Bool-cases (apply_session_cnp api x stored s').1) [
        | inr lost ↦ cc (rw (lost, reactivate) at h)
        | inl applied ↦
            let ends : (let r : Answer W Pod = ((apply_session_cnp api x stored s').0, inr q) in
                r ≡ (w', inr pod)) =
              rw (applied, reactivate) at h in
            let at_end : (apply_session_cnp api x stored s').0 ≡ w' = ap (λ r. r.0) ends in
            let picked : ◌≡◌ {A = Error ⊎ Pod} (inr q) (inr pod) = ap (λ r. r.1) ends in
            let same : q ≡ pod = cc in
            (
              ap some same,
              ap (λ v. api.get_session v s.name) (sym at_end)
                  ∙ apply_cnp-sessions api resets store x stored s' s.name
                  ∙ written api resets store writes w s s' e (store.versioned w s.name s e)
                  ∙ ap (λ p. some (resumed s s.status.workspace_pvc p)) same,
            )
      ]

  resume_cold :
      (x : Exposures) (w : W) (s : Session) (cpu memory : String) (w' : W) (pod : Pod)
      → api.get_session w s.name ≡ some s
      → reactivate api x s (
          cold_start api w
            (session_pod s.name s.spec.runtime_class s.status.workspace_pvc cpu memory))
        ≡ (w', inr pod)
      → (api.get_session w' s.name ≡ some (resumed s s.status.workspace_pvc pod))
        × (pod.pvc_name ≡ s.status.workspace_pvc)
  unfolding cold_start session_pod
  resume_cold x w s cpu memory w' pod e h =
      let p = session_pod s.name s.spec.runtime_class s.status.workspace_pvc cpu memory in
      let (made, stored) =
        reactivate_lem x s (cold_start api w p) w' pod (store.create_pod-sessions w p s.name ∙ e)
          h in
      (stored, store.volume_kept w p pod made)

  resume_found_lem :
      (others : ℕ → W → W) (x : Exposures) (w : W) (s : Session) (w' : W) (pod : Pod)
      → api.get_session w s.name ≡ some s
      → resume_found api others x w s ≡ (w', inr pod)
      → (api.get_session w' s.name ≡ some (resumed s s.status.workspace_pvc pod))
        × (pod.pvc_name ≡ s.status.workspace_pvc)
  unfolding resume_found
  resume_found_lem others x w s w' pod e h =
      let cpu = (api.matrix_config w).2 in
      let memory = (api.matrix_config w).3 in
      elim (Bool-cases (is_phase s.status.phase SandboxPhase.paused)) [
        | inr other ↦ cc (rw (other, resume_found) at h)
        | inl at_rest ↦ elim (Bool-cases (str_eq s.status.workspace_pvc "")) [
          | inl bare ↦ cc (rw (at_rest, bare, resume_found) at h)
          | inr own ↦
              -- With a volume claim no warm pod is taken.
              resume_cold x w s cpu memory w' pod e (rw (at_rest, own, resume_found) at h)
        ]
      ]

  resume_lem :
      (others : ℕ → W → W) (x : Exposures) (w : W) (id : String) (s : Session) (w' : W) (pod : Pod)
      → api.get_session w id ≡ some s
      → resume_session api others x w id ≡ (w', inr pod)
      → (api.get_session w' id ≡ some (resumed s s.status.workspace_pvc pod))
        × (pod.pvc_name ≡ s.status.workspace_pvc)
  unfolding resume_session
  resume_lem others x w id s w' pod e h =
      let named = store.named w id s e in
      let (stored, kept) =
        resume_found_lem others x w s w' pod (ap (λ j. api.get_session w j) named ∙ e)
          (rw (e, resume_session) at h) in
      (ap (λ j. api.get_session w' j) (sym named) ∙ stored, kept)

-- Pausing an active session and resuming it, when both succeed and no write of a status that was
-- read fails,
-- whatever other clients do to the warm pods: the session is stored as it was before, its spec, its
-- ledger and its times included, active on the pod that the call returns, with the volume claim that
-- it had or, if it had none, the one named after it; and the new pod mounts this claim.
pub resume-pause :
    {W : Type 0} (api : Api W) (resets : W → String → ℕ) (others : ℕ → W → W) (x : Exposures)
    (w w₁ w₂ : W) (id : String) (s : Session) (b : Bool) (pod : Pod)
    → IsStore api resets
    → ((v : W) (t : Session) → t.versioned ≡ true → (api.update_status v t).1 ≡ true)
    → api.get_session w id ≡ some s
    → pause_session api w id ≡ (w₁, inr b)
    → resume_session api others x w₁ id ≡ (w₂, inr pod)
    → (api.get_session w₂ id ≡ some (resumed s (kept_pvc s) pod)) × (pod.pvc_name ≡ kept_pvc s)
resume-pause api resets others x w w₁ w₂ id s b pod store writes e pauses resumes =
    resume_lem api resets store writes others x w₁ id (paused s (kept_pvc s)) w₂ pod
      (pause_lem api resets store writes w w₁ id s b e pauses) resumes
