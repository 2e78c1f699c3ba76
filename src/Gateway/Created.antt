-- ===== src/Gateway/Created.antt =====
-- CreateSession: the session that it returns, and what is stored of it.
use text.Mathlib.TextPositions.{eq_refl as text_refl}
use k8e.Common.{
  ℕ, ◌+◌, String, ◌≡◌, refl, sym, ap, ◌∙◌, ◌⊎◌, inl, inr, Bool, true, false, Option, none, some,
  List, [], ◌∷◌, str_eq, if◌then◌else◌, Bool-cases, Option-cases,
}
use k8e.Common.Int.{ℤ}
use k8e.Sandbox.Pods.{Pod, PodState}
use k8e.Sandbox.Env.{Strings, validate_session_env, validate_secret_refs}
use k8e.Gateway.Api.{Session, SandboxPhase, Error, Answer, Api, chain}
use k8e.Gateway.Policy.{Exposures, apply_session_cnp}
use k8e.Gateway.Claims.{
  claimed, fits_runtime, session_pod, claim_warm, cold_start, after_warm, claim_or_create_pod,
}
use k8e.Gateway.Sessions.{
  CreateSessionRequest, workspace_name, expiry, ensure_workspace_pvc, activate, session_of_request,
  create_valid, create_session, is_phase,
}
use k8e.Gateway.Sessions.Pause.{pause_found, pause_session}
use k8e.Gateway.Store.{IsStore, as_stored, SameSessions}
use k8e.Gateway.Paused.{ensure_lem}
use k8e.Gateway.Resumed.{apply_cnp-sessions}

module _ {W : Type 0} (api : Api W) (resets : W → String → ℕ) (store : IsStore api resets)
    (others : ℕ → W → W) (quiet : (i : ℕ) (w : W) → SameSessions api w (others i w)) where
  claim_warm-sessions :
      (id runtime_class : String) (w : W) (i : ℕ) (pods : List Pod)
      → SameSessions api w (claim_warm api others id runtime_class w i pods).0
  unfolding claim_warm
  claim_warm-sessions id runtime_class w i [] j = refl
  claim_warm-sessions id runtime_class w i (p ∷ ps) j = elim (Bool-cases (api.is_healthy w p)) [
    | inr sick ↦ rw (sick, claim_warm) (claim_warm-sessions id runtime_class w (i + 1) ps j)
    | inl well ↦ elim (Bool-cases (fits_runtime runtime_class p)) [
      | inr other ↦
          rw (well, other, claim_warm) (claim_warm-sessions id runtime_class w (i + 1) ps j)
      | inl fits ↦
          let v = (api.update_pod (others i w) p (claimed id p)).0 in
          let same = store.update_pod-sessions (others i w) p (claimed id p) j ∙ quiet i w j in
          elim (Bool-cases (api.update_pod (others i w) p (claimed id p)).1) [
            | inl won ↦ rw (well, fits, won, claim_warm) same
            | inr lost ↦
                rw (well, fits, lost, claim_warm)
                  (claim_warm-sessions id runtime_class v (i + 1) ps j ∙ same)
          ]
    ]
  ]

  after_warm-sessions : (q : Pod) (r : W × Option Pod) → SameSessions api r.0 (after_warm api q r).0
  unfolding after_warm cold_start
  after_warm-sessions q (w, some p) j = refl
  after_warm-sessions q (w, none) j = store.create_pod-sessions w q j

  claim-sessions :
      (w : W) (id runtime_class pvc_name cpu memory : String)
      → SameSessions api w (claim_or_create_pod api others w id runtime_class pvc_name cpu memory).0
  unfolding claim_or_create_pod cold_start
  claim-sessions w id runtime_class pvc_name cpu memory j =
      let q = session_pod id runtime_class pvc_name cpu memory in
      elim (Bool-cases (str_eq pvc_name "")) [
        | inr own ↦ rw (own, claim_or_create_pod, cold_start) (store.create_pod-sessions w q j)
        | inl bare ↦ elim (Option-cases (api.pods_in_state w PodState.warm)) [
          | inl broken ↦
              rw (bare, broken, claim_or_create_pod, cold_start) (store.create_pod-sessions w q j)
          | inr (ps, listed) ↦
              rw (bare, listed, claim_or_create_pod)
                (after_warm-sessions q (claim_warm api others id runtime_class w 0 ps) j
                  ∙ claim_warm-sessions id runtime_class w 0 ps j)
        ]
      ]

  -- A session as it is returned, active as it was asked for, and as it is stored, without a status.
  pub record IsReturned (w : W) (asked : Session) (pvc_name : String) (s : Session) : Type 0 where
    pub name : s.name ≡ asked.name
    pub spec : s.spec ≡ asked.spec
    pub phase : s.status.phase ≡ SandboxPhase.active
    pub pvc : s.status.workspace_pvc ≡ pvc_name
    pub stored : api.get_session w s.name ≡ some (as_stored asked)

  -- The status that a session gets.
  abbrev pub activated : ℤ → ℤ → String → Session → Pod → Session
  activated now ttl pvc_name s pod = record s {
    status = record {
      phase = SandboxPhase.active;
      pod_name = pod.name;
      pod_ip = pod.pod_ip;
      workspace_pvc = pvc_name;
      created_at = some now;
      expires_at = expiry now ttl;
    };
  }

  -- The write of a status without a resourceVersion leaves what is stored.
  unwritten :
      (w : W) (s : Session) → s.versioned ≡ false → SameSessions api w (api.update_status w s).0
  unwritten w s built j = store.status_updated w s j ∙ rw (store.unversioned w s built) refl

  activate-IsReturned :
      (x : Exposures) (now ttl : ℤ) (pvc_name : String) (s : Session) (r : W × Option Pod × Bool)
      (w' : W) (s' : Session)
      → s.versioned ≡ false
      → api.get_session r.0 s.name ≡ some (as_stored s)
      → activate api x now ttl pvc_name s r ≡ (w', inr s')
      → IsReturned w' s pvc_name s'
  unfolding activate
  activate-IsReturned x now ttl pvc_name s (w, none, warm) w' s' built e h = cc
  activate-IsReturned x now ttl pvc_name s (w, some pod, warm) w' s' built e h =
      let t = activated now ttl pvc_name s pod in
      let v = (api.update_status w t).0 in
      elim (Bool-cases (apply_session_cnp api x v t).1) [
        | inr lost ↦ cc (rw (lost, activate) at h)
        | inl applied ↦
            let ends : (let r : Answer W Session = ((apply_session_cnp api x v t).0, inr t) in
                r ≡ (w', inr s')) =
              rw (applied, activate) at h in
            let at_end : (apply_session_cnp api x v t).0 ≡ w' = ap (λ r. r.0) ends in
            let picked : ◌≡◌ {A = Error ⊎ Session} (inr t) (inr s') = ap (λ r. r.1) ends in
            let same : t ≡ s' = cc in
            record {
              name = ap (λ k. k.name) (sym same);
              spec = ap (λ k. k.spec) (sym same);
              phase = ap (λ k. k.status.phase) (sym same);
              pvc = ap (λ k. k.status.workspace_pvc) (sym same);
              stored =
                  ap (λ k. api.get_session w' k.name) (sym same)
                  ∙ ap (λ u. api.get_session u s.name) (sym at_end)
                  ∙ apply_cnp-sessions api resets store x v t s.name
                  ∙ unwritten w t built s.name
                  ∙ e;
            }
      ]

  claimed-IsReturned :
      (x : Exposures) (w : W) (now ttl : ℤ) (s : Session) (cpu memory pvc_name : String) (w' : W)
      (s' : Session)
      → s.versioned ≡ false
      → api.get_session w s.name ≡ some (as_stored s)
      → activate api x now ttl pvc_name s
          (claim_or_create_pod api others w s.name s.spec.runtime_class pvc_name cpu memory)
        ≡ (w', inr s')
      → IsReturned w' s pvc_name s'
  claimed-IsReturned x w now ttl s cpu memory pvc_name w' s' built e h =
      activate-IsReturned x now ttl pvc_name s
        (claim_or_create_pod api others w s.name s.spec.runtime_class pvc_name cpu memory) w' s'
        built (claim-sessions w s.name s.spec.runtime_class pvc_name cpu memory s.name ∙ e) h

  -- The volume claim of a new session: none for one without a tenant.
  abbrev pub pvc_of : Session → String
  pvc_of s = if str_eq s.spec.tenant_id "" then "" else workspace_name s.name

  ensured-IsReturned :
      (x : Exposures) (w : W) (now ttl : ℤ) (s : Session) (cpu memory : String) (w' : W)
      (s' : Session) (r : Answer W String)
      → ensure_workspace_pvc api w s.name ≡ r
      → s.versioned ≡ false
      → api.get_session w s.name ≡ some (as_stored s)
      → chain r (λ v pvc_name.
        activate api x now ttl pvc_name s
          (claim_or_create_pod api others v s.name s.spec.runtime_class pvc_name cpu memory))
        ≡ (w', inr s')
      → IsReturned w' s (workspace_name s.name) s'
  unfolding chain
  ensured-IsReturned x w now ttl s cpu memory w' s' (v, inl err) f built e h = cc
  ensured-IsReturned x w now ttl s cpu memory w' s' (v, inr pvc_name) f built e h =
      let (same, picked) = ensure_lem api resets store w v s.name pvc_name f in
      rw (sym picked)
        (claimed-IsReturned x v now ttl s cpu memory pvc_name w' s' built (same s.name ∙ e) h)

  created_lem :
      (w : W) (s : Session)
      → (api.create_session w s).1 ≡ true
      → api.get_session (api.create_session w s).0 s.name ≡ some (as_stored s)
  created_lem w s ok = store.created w s s.name ∙ rw (ok, text_refl s.name) refl

  create_valid-IsReturned :
      (x : Exposures) (w : W) (now ttl : ℤ) (s : Session) (cpu memory : String) (w' : W)
      (s' : Session)
      → s.versioned ≡ false
      → create_valid api others x w now ttl s cpu memory ≡ (w', inr s')
      → IsReturned w' s (pvc_of s) s'
  unfolding create_valid
  create_valid-IsReturned x w now ttl s cpu memory w' s' built h =
      let v = (api.create_session w s).0 in
      elim (Bool-cases (api.create_session w s).1) [
        | inr lost ↦ cc (rw (lost, create_valid) at h)
        | inl ok ↦ elim (Bool-cases (str_eq s.spec.tenant_id "")) [
          | inl bare ↦ rw bare (
              claimed-IsReturned x v now ttl s cpu memory "" w' s' built (created_lem w s ok)
                (rw (ok, bare, create_valid) at h))
          | inr tenant ↦ rw tenant (
              ensured-IsReturned x v now ttl s cpu memory w' s' (ensure_workspace_pvc api v s.name)
                refl built (created_lem w s ok) (rw (ok, tenant, create_valid) at h))
        ]
      ]

-- CreateSession returns a session only when the request's variables and secret references are
-- accepted. What it returns is active, under the name and the spec that the request asks for, with
-- the volume claim that is named after it, or none if the request names no tenant. But what is stored
-- is the session without a status, since the write of the status carries no resourceVersion and is
-- refused; so a PauseSession of the new session fails. The other clients leave the sessions alone.
pub create_session-IsReturned :
    {W : Type 0} (api : Api W) (resets : W → String → ℕ) (st : Strings) (others : ℕ → W → W)
    (x : Exposures) (w : W) (req : CreateSessionRequest) (fresh : String) (now : ℤ) (w' : W)
    (s : Session) (store : IsStore api resets)
    (quiet : (i : ℕ) (v : W) → SameSessions api v (others i v))
    → create_session api st others x w req fresh now ≡ (w', inr s)
    → let asked = session_of_request api req fresh (api.matrix_config w).0 in
      (validate_session_env st req.env ≡ none)
      × (validate_secret_refs st req.secret_refs ≡ none)
      × IsReturned api resets store others quiet w' asked
          (pvc_of api resets store others quiet asked)
          s
      × (pause_session api w' s.name ≡ (w', inl Error.failed_precondition))
unfolding create_session session_of_request pause_session pause_found is_phase as_stored
create_session-IsReturned api resets st others x w req fresh now w' s store quiet h =
    let asked = session_of_request api req fresh (api.matrix_config w).0 in
    elim (Option-cases (validate_session_env st req.env)) [
      | inr (err, bad) ↦ cc (rw (bad, create_session) at h)
      | inl good ↦ elim (Option-cases (validate_secret_refs st req.secret_refs)) [
        | inr (err, bad) ↦ cc (rw (good, bad, create_session) at h)
        | inl fine ↦
            let new =
              create_valid-IsReturned api resets store others quiet x w now (api.matrix_config w).1
                asked (api.matrix_config w).2 (api.matrix_config w).3 w' s refl
                (rw (good, fine, create_session) at h) in
            (good, fine, new, rw (new.stored, pause_session) refl)
      ]
    ]
