-- ===== src/Gateway/Paused.antt =====
-- What a PauseSession that succeeds leaves.
use text.Mathlib.TextPositions.{eq_refl as text_refl}
use k8e.Common.{
  ℕ, String, ◌≡◌, refl, sym, ap, ◌∙◌, ◌⊎◌, inl, inr, Bool, true, false, ◌&&◌, some, str_eq,
  if◌then◌else◌, Bool-cases,
}
use k8e.Sandbox.Pods.{Pod}
use k8e.Gateway.Api.{Session, SandboxPhase, Deletion, Error, Answer, Api, chain}
use k8e.Gateway.Sessions.{is_phase, workspace_name, ensure_workspace_pvc, find_pod}
use k8e.Gateway.Sessions.Pause.{
  suspend, after_delete, pause_with, as_internal, pause_found, pause_session,
}
use k8e.Gateway.Store.{IsStore, with_status, SameSessions}

-- The status of a paused session, and of one that is resumed on a pod.
abbrev pub paused : Session → String → Session
paused s pvc_name = record s {
  status = record s.status {
    phase = SandboxPhase.paused;
    pod_name = "";
    pod_ip = "";
    workspace_pvc = pvc_name;
  };
}

abbrev pub resumed : Session → String → Pod → Session
resumed s pvc_name pod = record s {
  status = record s.status {
    phase = SandboxPhase.active;
    pod_name = pod.name;
    pod_ip = pod.pod_ip;
    workspace_pvc = pvc_name;
  };
}

-- The volume claim that a session keeps: its own, or the one named after it.
abbrev pub kept_pvc : Session → String
kept_pvc s =
    if str_eq s.status.workspace_pvc "" then workspace_name s.name else s.status.workspace_pvc

and_false : (b : Bool) → (b && false) ≡ false
and_false false = refl
and_false true = refl

module _ {W : Type 0} (api : Api W) (resets : W → String → ℕ) (store : IsStore api resets) where
  same_end :
      (w v w' : W) (name pvc_name : String)
      → SameSessions api w v
      → (let r : Answer W String = (v, inr name) in r ≡ (w', inr pvc_name))
      → SameSessions api w w' × (pvc_name ≡ name)
  same_end w v w' name pvc_name same h =
      let at_end : v ≡ w' = ap (λ r. r.0) h in
      let picked : ◌≡◌ {A = Error ⊎ String} (inr name) (inr pvc_name) = ap (λ r. r.1) h in
      ((λ j. ap (λ u. api.get_session u j) (sym at_end) ∙ same j), cc)

  -- The claim of the volume that a session without one gets.
  pub ensure_lem :
      (w w' : W) (id pvc_name : String)
      → ensure_workspace_pvc api w id ≡ (w', inr pvc_name)
      → SameSessions api w w' × (pvc_name ≡ workspace_name id)
  unfolding ensure_workspace_pvc
  ensure_lem w w' id pvc_name h = elim (Bool-cases (api.has_pvc w (workspace_name id))) [
    | inl there ↦
        same_end w w w' (workspace_name id) pvc_name (λ j. refl)
          (rw (there, ensure_workspace_pvc) at h)
    | inr lacks ↦ elim (Bool-cases (api.create_pvc w (workspace_name id)).1) [
      | inr lost ↦ cc (rw (lacks, lost, ensure_workspace_pvc) at h)
      | inl made ↦
          same_end w (api.create_pvc w (workspace_name id)).0 w' (workspace_name id) pvc_name
            (store.create_pvc-sessions w (workspace_name id))
            (rw (lacks, made, ensure_workspace_pvc) at h)
    ]
  ]

module _ {W : Type 0} (api : Api W) (resets : W → String → ℕ) (store : IsStore api resets)
    (writes : (w : W) (s : Session) → s.versioned ≡ true → (api.update_status w s).1 ≡ true) where
  pub written :
      (w : W) (s s' : Session)
      → api.get_session w s'.name ≡ some s
      → s'.versioned ≡ true
      → api.get_session (api.update_status w s').0 s'.name ≡ some (record s { status = s'.status })
  unfolding with_status
  written w s s' e read =
      store.status_updated w s' s'.name ∙ rw (writes w s' read, text_refl s'.name, e) refl

  suspend_lem :
      (w : W) (s : Session) (pvc_name : String)
      → api.get_session w s.name ≡ some s
      → api.get_session (suspend api w s pvc_name) s.name ≡ some (paused s pvc_name)
  unfolding suspend
  suspend_lem w s pvc_name e =
      store.delete_policy-sessions _ s.name s.name
      ∙ written w s (paused s pvc_name) e (store.versioned w s.name s e)

  after_delete_lem :
      (s : Session) (pvc_name : String) (r : W × Deletion) (w' : W) (b : Bool)
      → api.get_session r.0 s.name ≡ some s
      → after_delete api s pvc_name r ≡ (w', inr b)
      → api.get_session w' s.name ≡ some (paused s pvc_name)
  unfolding after_delete
  after_delete_lem s pvc_name (w, Deletion.failed) w' b e h = cc
  after_delete_lem s pvc_name (w, Deletion.deleted) w' b e h =
      let at_end : suspend api w s pvc_name ≡ w' = ap (λ r. r.0) h in
      rw (sym at_end) (suspend_lem w s pvc_name e)
  after_delete_lem s pvc_name (w, Deletion.absent) w' b e h =
      let at_end : suspend api w s pvc_name ≡ w' = ap (λ r. r.0) h in
      rw (sym at_end) (suspend_lem w s pvc_name e)

  pause_with_lem :
      (w w' : W) (s : Session) (pvc_name : String) (b : Bool)
      → api.get_session w s.name ≡ some s
      → pause_with api s w pvc_name ≡ (w', inr b)
      → api.get_session w' s.name ≡ some (paused s pvc_name)
  unfolding pause_with
  pause_with_lem w w' s pvc_name b e h = elim (Bool-cases (str_eq (find_pod api w s).1 "")) [
    | inl nameless ↦
        let at_end : suspend api w s pvc_name ≡ w' =
          ap (λ r. r.0) (rw (nameless, pause_with) at h) in
        rw (sym at_end) (suspend_lem w s pvc_name e)
    | inr named ↦
        after_delete_lem s pvc_name (api.delete_pod w (find_pod api w s).1) w' b
          (store.delete_pod-sessions w (find_pod api w s).1 s.name ∙ e)
          (rw (named, pause_with) at h)
  ]

  pause_ensured :
      (r : Answer W String) (w w' : W) (s : Session) (b : Bool)
      → ensure_workspace_pvc api w s.name ≡ r
      → api.get_session w s.name ≡ some s
      → chain (as_internal api r) (pause_with api s) ≡ (w', inr b)
      → api.get_session w' s.name ≡ some (paused s (workspace_name s.name))
  unfolding chain as_internal
  pause_ensured (v, inl err) w w' s b f e h = cc
  pause_ensured (v, inr pvc_name) w w' s b f e h =
      let (same, picked) = ensure_lem api resets store w v s.name pvc_name f in
      rw (sym picked) (pause_with_lem v w' s pvc_name b (same s.name ∙ e) h)

  kept_own :
      (s : Session) → str_eq s.status.workspace_pvc "" ≡ false → s.status.workspace_pvc ≡ kept_pvc s
  kept_own s own = rw own refl

  kept_new :
      (s : Session) → str_eq s.status.workspace_pvc "" ≡ true → workspace_name s.name ≡ kept_pvc s
  kept_new s bare = rw bare refl

  pause_found_lem :
      (w w' : W) (s : Session) (b : Bool)
      → api.get_session w s.name ≡ some s
      → pause_found api w s ≡ (w', inr b)
      → api.get_session w' s.name ≡ some (paused s (kept_pvc s))
  unfolding pause_found
  pause_found_lem w w' s b e h = elim (Bool-cases (is_phase s.status.phase SandboxPhase.active)) [
    | inr other ↦ cc (rw (other, pause_found) at h)
    | inl active ↦ elim (Bool-cases (str_eq s.status.workspace_pvc "")) [
      | inr own ↦
          pause_with_lem w w' s s.status.workspace_pvc b e
            (rw (active, own, and_false (str_eq s.spec.tenant_id ""), pause_found) at h)
          ∙ ap (λ p. some (paused s p)) (kept_own s own)
      | inl bare ↦ elim (Bool-cases (str_eq s.spec.tenant_id "")) [
        | inl ephemeral ↦ cc (rw (active, bare, ephemeral, pause_found) at h)
        | inr tenant ↦
            pause_ensured (ensure_workspace_pvc api w s.name) w w' s b refl e
              (rw (active, bare, tenant, pause_found) at h)
            ∙ ap (λ p. some (paused s p)) (kept_new s bare)
      ]
    ]
  ]

  pub pause_lem :
      (w w' : W) (id : String) (s : Session) (b : Bool)
      → api.get_session w id ≡ some s
      → pause_session api w id ≡ (w', inr b)
      → api.get_session w' id ≡ some (paused s (kept_pvc s))
  unfolding pause_session
  pause_lem w w' id s b e h =
      let named = store.named w id s e in
      ap (λ j. api.get_session w' j) (sym named)
      ∙ pause_found_lem w w' s b (ap (λ j. api.get_session w j) named ∙ e)
          (rw (e, pause_session) at h)
