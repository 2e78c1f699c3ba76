-- ===== src/Gateway/Store.antt =====
-- What the code relies on of the Kubernetes API and of sandboxd, as laws of the parameter: a write
-- that succeeds is seen by later reads, one that fails changes nothing, and neither changes what it
-- is not about. UpdateStatus writes the status alone, and the server refuses it for a custom
-- resource without a resourceVersion. An update of a pod carries the resourceVersion that was read,
-- and succeeds only while the pod is as it was then.
use k8e.Common.{
  ℕ, suc, String, ◌≡◌, true, false, ◌&&◌, Option, none, some, List, str_eq, if◌then◌else◌, All,
}
use k8e.Sandbox.Pods.{Pod, PodState, is_state}
use k8e.Gateway.Api.{Session, Policy, Api}

unfoldable pub with_status : Session → Option Session → Option Session
with_status s none = none
with_status s (some old) = some (record old { status = s.status })

-- An object as the server stores it.
unfoldable pub as_stored : Session → Session
as_stored s = record s { versioned = true }

module _ {W : Type 0} (api : Api W) where
  abbrev pub SameSessions : W → W → Type 0
  SameSessions w w' = (j : String) → api.get_session w' j ≡ api.get_session w j

  abbrev pub SamePods : W → W → Type 0
  SamePods w w' = (j : String) → api.get_pod w' j ≡ api.get_pod w j

  -- `resets w ip` is how often the sandboxd at an address has been told to reset its workspace.
  pub record IsStore (resets : W → String → ℕ) : Type 0 where
    pub named : (w : W) (j : String) (s : Session) → api.get_session w j ≡ some s → s.name ≡ j
    pub created :
        (w : W) (s : Session) (j : String)
        → api.get_session (api.create_session w s).0 j ≡ (
            if (api.create_session w s).1 && str_eq s.name j
            then some (as_stored s)
            else api.get_session w j)
    -- What is read carries its resourceVersion, and a status without one is not written.
    pub versioned :
        (w : W) (j : String) (s : Session) → api.get_session w j ≡ some s → s.versioned ≡ true
    pub unversioned :
        (w : W) (s : Session) → s.versioned ≡ false → (api.update_status w s).1 ≡ false
    pub status_updated :
        (w : W) (s : Session) (j : String)
        → api.get_session (api.update_status w s).0 j ≡ (
            if (api.update_status w s).1 && str_eq s.name j
            then with_status s (api.get_session w j)
            else api.get_session w j)
    pub session_deleted :
        (w : W) (id j : String)
        → api.get_session (api.delete_session w id).0 j
          ≡ (if (api.delete_session w id).1 && str_eq id j then none else api.get_session w j)
    pub pod_updated :
        (w : W) (p q : Pod) (j : String)
        → api.get_pod (api.update_pod w p q).0 j
          ≡ (if (api.update_pod w p q).1 && str_eq p.name j then some q else api.get_pod w j)
    -- The resourceVersion.
    pub unchanged :
        (w : W) (p q : Pod) → (api.update_pod w p q).1 ≡ true → api.get_pod w p.name ≡ some p
    pub listed_in_state :
        (w : W) (st : PodState) (ps : List Pod)
        → api.pods_in_state w st ≡ some ps
        → All (λ p. is_state st p.state ≡ true) ps
    -- What is labelled depends on the pods alone.
    pub of_session-pods :
        (w v : W) (id : String) → SamePods w v → api.pods_of_session v id ≡ api.pods_of_session w id
    pub pod_named : (w : W) (j : String) (p : Pod) → api.get_pod w j ≡ some p → p.name ≡ j
    pub reset_done :
        (w : W) (ip j : String)
        → resets (api.reset_workspace w ip) j
          ≡ (if str_eq ip j then suc (resets w j) else resets w j)
    -- What a write is not about.
    pub create_session-pods : (w : W) (s : Session) → SamePods w (api.create_session w s).0
    pub update_session-pods : (w : W) (s : Session) → SamePods w (api.update_session w s).0
    pub update_status-pods : (w : W) (s : Session) → SamePods w (api.update_status w s).0
    pub delete_session-pods : (w : W) (id : String) → SamePods w (api.delete_session w id).0
    pub delete_policy-pods : (w : W) (id : String) → SamePods w (api.delete_policy w id)
    pub reset_workspace-pods : (w : W) (ip : String) → SamePods w (api.reset_workspace w ip)
    pub create_session-resets :
        (w : W) (s : Session) (j : String) → resets (api.create_session w s).0 j ≡ resets w j
    pub update_session-resets :
        (w : W) (s : Session) (j : String) → resets (api.update_session w s).0 j ≡ resets w j
    pub update_status-resets :
        (w : W) (s : Session) (j : String) → resets (api.update_status w s).0 j ≡ resets w j
    pub delete_session-resets :
        (w : W) (id j : String) → resets (api.delete_session w id).0 j ≡ resets w j
    pub delete_policy-resets :
        (w : W) (id j : String) → resets (api.delete_policy w id) j ≡ resets w j
    pub delete_policy-sessions : (w : W) (id : String) → SameSessions w (api.delete_policy w id)
    pub create_policy-sessions : (w : W) (p : Policy) → SameSessions w (api.create_policy w p).0
    pub update_policy-sessions : (w : W) (p : Policy) → SameSessions w (api.update_policy w p).0
    pub update_pod-sessions : (w : W) (p q : Pod) → SameSessions w (api.update_pod w p q).0
    pub delete_pod-sessions : (w : W) (name : String) → SameSessions w (api.delete_pod w name).0
    pub create_pod-sessions : (w : W) (p : Pod) → SameSessions w (api.create_pod w p).0
    pub create_pvc-sessions : (w : W) (name : String) → SameSessions w (api.create_pvc w name).0
    -- The server keeps the volume that a new pod asks for.
    pub volume_kept :
        (w : W) (p q : Pod) → (api.create_pod w p).1 ≡ some q → q.pvc_name ≡ p.pvc_name
