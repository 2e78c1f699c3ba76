-- ===== src/Gateway/Destroyed.antt =====
-- What DestroySession does to the pods.
use k8e.Common.{
  ℕ, String, ◌≡◌, refl, ◌∙◌, inl, inr, Bool, true, false, ◌||◌, Option, none, some, [], str_eq,
  Bool-cases, Option-cases,
}
use k8e.Sandbox.Pods.{Pod}
use k8e.Gateway.Api.{Session, SandboxPhase, DestroyStep, Api}
use k8e.Gateway.Sessions.{is_done, mark_destroy_step, first_pod, or_by_name, find_pod}
use k8e.Gateway.Sessions.Destroy.{destroy_policy, destroy_workspace, destroy_session}
use k8e.Gateway.Store.{IsStore, SamePods}

module _ {W : Type 0} (api : Api W) (resets : W → String → ℕ) where
  -- Neither a pod nor a workspace changes.
  pub record IsUntouched (w w' : W) : Type 0 where
    pub pods : (j : String) → api.get_pod w' j ≡ api.get_pod w j
    pub files : (j : String) → resets w' j ≡ resets w j

or_true : (b : Bool) → b || true ≡ true
or_true true = refl
or_true false = refl

module _ {W : Type 0} (api : Api W) (resets : W → String → ℕ) (store : IsStore api resets) where
  pub IsUntouched-refl : (w : W) → IsUntouched api resets w w
  IsUntouched-refl w = record { pods = λ j. refl; files = λ j. refl }

  pub IsUntouched-trans :
      {u v w : W}
      → IsUntouched api resets u v
      → IsUntouched api resets v w
      → IsUntouched api resets u w
  IsUntouched-trans a b = record {
    pods = λ j. b.pods j ∙ a.pods j;
    files = λ j. b.files j ∙ a.files j;
  }

  pub mark-IsUntouched :
      (w : W) (id : String) (step : DestroyStep)
      → IsUntouched api resets w (mark_destroy_step api w id step)
  unfolding mark_destroy_step
  mark-IsUntouched w id step = elim (Option-cases (api.get_session w id)) [
    | inl e ↦ rw (e, mark_destroy_step) (IsUntouched-refl w)
    | inr (s, e) ↦ elim (Bool-cases (is_done step s.destroy_steps)) [
      | inl d ↦ rw (e, d, mark_destroy_step) (IsUntouched-refl w)
      | inr d ↦
          rw (e, d, mark_destroy_step)
            (record {
              pods = store.update_session-pods w _;
              files = store.update_session-resets w _;
            })
    ]
  ]

  policy-IsUntouched : (w : W) (s : Session) → IsUntouched api resets w (destroy_policy api w s)
  unfolding destroy_policy
  policy-IsUntouched w s = elim (Bool-cases (is_done DestroyStep.cnp s.destroy_steps)) [
    | inl d ↦ rw (d, destroy_policy) (IsUntouched-refl w)
    | inr d ↦
        rw (d, destroy_policy)
          (IsUntouched-trans
            (record {
              pods = store.delete_policy-pods w s.name;
              files = store.delete_policy-resets w s.name;
            })
            (mark-IsUntouched (api.delete_policy w s.name) s.name DestroyStep.cnp))
  ]

  -- The cluster once the policy is gone.
  abbrev pub closed : W → Session → W
  closed w s =
      destroy_policy api
        (api.update_status w
          (record s { status = record s.status { phase = SandboxPhase.terminating } })).0
        s

  pub closed-IsUntouched : (w : W) (s : Session) → IsUntouched api resets w (closed w s)
  closed-IsUntouched w s =
      IsUntouched-trans
        (record { pods = store.update_status-pods w _; files = store.update_status-resets w _ })
        (policy-IsUntouched _ s)

  skip_lem :
      (w : W) (s : Session) (at : String × String)
      → (str_eq at.0 "" || is_done DestroyStep.workspace s.destroy_steps) ≡ true
      → destroy_workspace api w s at ≡ w
  unfolding destroy_workspace
  skip_lem w s (ip, name) e = rw (e, destroy_workspace) refl

  -- A destroy that has no pod to clean, or has cleaned it.
  pub skipped-IsUntouched :
      (w : W) (id : String) (s : Session)
      → api.get_session w id ≡ some s
      → (str_eq (find_pod api (closed w s) s).0 "" || is_done DestroyStep.workspace s.destroy_steps)
        ≡ true
      → IsUntouched api resets w (destroy_session api w id).0
  unfolding destroy_session
  skipped-IsUntouched w id s e skip =
      rw (e, skip_lem (closed w s) s (find_pod api (closed w s) s) skip, destroy_session)
        (IsUntouched-trans (closed-IsUntouched w s) (record {
          pods = store.delete_session-pods _ id;
          files = store.delete_session-resets _ id;
        }))

  pub find_pod-same :
      (w v : W) (s : Session) → SamePods api w v → find_pod api v s ≡ find_pod api w s
  find_pod-same w v s same = rw (store.of_session-pods w v s.name same, same s.status.pod_name) refl

  or_by_name-nameless : (p : Option Pod) → (or_by_name ("", "") "" p).0 ≡ ""
  unfolding or_by_name
  or_by_name-nameless none = refl
  or_by_name-nameless (some p) = refl

  -- Without a labelled pod and without a pod's name there is no address.
  no_pod_lem :
      (w : W) (s : Session)
      → api.pods_of_session w s.name ≡ some []
      → s.status.pod_name ≡ ""
      → (find_pod api w s).0 ≡ ""
  unfolding first_pod
  no_pod_lem w s none_labelled e = rw (none_labelled, e) (or_by_name-nameless (api.get_pod w ""))

  -- A session with no pod's name of its own.
  pub record HasNoPod (w : W) (id : String) : Type 0 where
    pub session : Session
    pub found : api.get_session w id ≡ some session
    pub named : session.name ≡ id
    pub no_pod : session.status.pod_name ≡ ""

  pub no_pod-IsUntouched :
      (w : W) (id : String)
      → HasNoPod w id
      → api.pods_of_session w id ≡ some []
      → IsUntouched api resets w (destroy_session api w id).0
  no_pod-IsUntouched w id h none_labelled =
      let s = h.session in
      skipped-IsUntouched w id s h.found (
        rw
          (
            find_pod-same w (closed w s) s (closed-IsUntouched w s).pods,
            no_pod_lem w s (rw h.named none_labelled) h.no_pod,
          )
          refl)

-- A destroy that is resumed after its workspace step never releases the pod: with that step in the
-- ledger, no pod changes and no workspace is reset, although the pod may still carry the session's
-- label.
pub resumed-IsUntouched :
    {W : Type 0} (api : Api W) (resets : W → String → ℕ) (w : W) (id : String) (s : Session)
    → IsStore api resets
    → api.get_session w id ≡ some s
    → is_done DestroyStep.workspace s.destroy_steps ≡ true
    → IsUntouched api resets w (destroy_session api w id).0
resumed-IsUntouched api resets w id s store e done =
    skipped-IsUntouched api resets store w id s e (rw done (or_true _))
