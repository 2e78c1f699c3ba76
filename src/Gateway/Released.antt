-- ===== src/Gateway/Released.antt =====
-- A destroy that runs to its end gives the pod back.
use text.Mathlib.TextPositions.{eq_refl as text_refl}
use k8e.Common.{
  ℕ, String, ◌≡◌, refl, ◌∙◌, inl, inr, true, false, none, some, [], str_eq, Bool-cases,
}
use k8e.Sandbox.Pods.{Pod}
use k8e.Gateway.Api.{Session, DestroyStep, Api}
use k8e.Gateway.Sessions.{is_done, mark_destroy_step, find_pod, released, release_pod}
use k8e.Gateway.Sessions.Destroy.{destroy_workspace, destroy_session}
use k8e.Gateway.Store.{IsStore}
use k8e.Gateway.Destroyed.{mark-IsUntouched, closed, closed-IsUntouched, find_pod-same}

module _ {W : Type 0} (api : Api W) (resets : W → String → ℕ) (store : IsStore api resets)
    (pod : Pod)
    (no_conflict : (v : W)
      → api.get_pod v pod.name ≡ some pod
      → (api.update_pod v pod (released pod)).1 ≡ true) where
  -- The pod has been released once, and nothing else has happened to the pods.
  pub record IsFreed (w w' : W) : Type 0 where
    pub free : api.get_pod w' pod.name ≡ some (released pod)
    pub others : (j : String) → str_eq pod.name j ≡ false → api.get_pod w' j ≡ api.get_pod w j

  release-IsFreed :
      (w : W) → api.get_pod w pod.name ≡ some pod → IsFreed w (release_pod api w pod.name)
  unfolding release_pod
  release-IsFreed w here =
      rw (here, release_pod)
        (record {
          free =
              store.pod_updated w pod (released pod) pod.name
              ∙ rw (no_conflict w here, text_refl pod.name) refl;
          others = λ j other.
              store.pod_updated w pod (released pod) j ∙ rw (no_conflict w here, other) refl;
        })

  -- The cluster with the workspace reset and marked so.
  abbrev wiped : W → Session → W
  wiped w s = mark_destroy_step api (api.reset_workspace w pod.pod_ip) s.name DestroyStep.workspace

  wiped-pods : (w : W) (s : Session) (j : String) → api.get_pod (wiped w s) j ≡ api.get_pod w j
  wiped-pods w s j =
      (mark-IsUntouched api resets store (api.reset_workspace w pod.pod_ip) s.name
          DestroyStep.workspace).pods
        j
      ∙ store.reset_workspace-pods w pod.pod_ip j

  workspace-IsFreed :
      (w : W) (s : Session)
      → str_eq pod.pod_ip "" ≡ false
      → str_eq pod.name "" ≡ false
      → is_done DestroyStep.workspace s.destroy_steps ≡ false
      → api.get_pod w pod.name ≡ some pod
      → IsFreed w (destroy_workspace api w s (pod.pod_ip, pod.name))
  unfolding destroy_workspace
  workspace-IsFreed w s ip name fresh here =
      let free = release-IsFreed (wiped w s) (wiped-pods w s pod.name ∙ here) in
      let marked =
        mark-IsUntouched api resets store (release_pod api (wiped w s) pod.name) s.name
          DestroyStep.release in
      rw (ip, name, fresh, destroy_workspace)
        (record {
          free = marked.pods pod.name ∙ free.free;
          others = λ j other. marked.pods j ∙ free.others j other ∙ wiped-pods w s j;
        })

-- A destroy that starts with an empty ledger and finds the session's pod, when no other client
-- changes this pod meanwhile: if it succeeds the session is gone, the pod is resetting and carries
-- no session's ID, and every other pod is as it was.
pub destroy-IsFreed :
    {W : Type 0} (api : Api W) (resets : W → String → ℕ) (w : W) (id : String) (s : Session)
    (pod : Pod)
    → IsStore api resets
    → ((v : W) → api.get_pod v pod.name ≡ some pod → (api.update_pod v pod (released pod)).1 ≡ true)
    → api.get_session w id ≡ some s
    → s.destroy_steps ≡ []
    → find_pod api w s ≡ (pod.pod_ip, pod.name)
    → str_eq pod.pod_ip "" ≡ false
    → str_eq pod.name "" ≡ false
    → api.get_pod w pod.name ≡ some pod
    → (destroy_session api w id).1 ≡ none
    → (api.get_session (destroy_session api w id).0 id ≡ none)
      × (api.get_pod (destroy_session api w id).0 pod.name ≡ some (released pod))
      × ((j : String)
          → str_eq pod.name j ≡ false
          → api.get_pod (destroy_session api w id).0 j ≡ api.get_pod w j)
unfolding destroy_session is_done
destroy-IsFreed api resets w id s pod store no_conflict e fresh at ip name here ok =
    let shut = closed api resets store w s in
    let same = closed-IsUntouched api resets store w s in
    let freed : IsFreed api resets store pod no_conflict shut
        (destroy_workspace api shut s (find_pod api shut s)) =
      rw (find_pod-same api resets store w shut s same.pods, at)
        (workspace-IsFreed api resets store pod no_conflict shut s ip name (rw fresh refl)
          (same.pods pod.name ∙ here)) in
    let v = destroy_workspace api shut s (find_pod api shut s) in
    elim (Bool-cases (api.delete_session v id).1) [
      | inr lost ↦ cc (rw (e, lost, destroy_session) at ok)
      | inl done ↦
          rw (e, destroy_session)
            (
              store.session_deleted v id id ∙ rw (done, text_refl id) refl,
              store.delete_session-pods v id pod.name ∙ freed.free,
              λ j other. store.delete_session-pods v id j ∙ freed.others j other ∙ same.pods j,
            )
    ]
