-- ===== src/Gateway/Children.antt =====
-- A sub-agent's session shares its parent's pod: its end leaves the pod alone.
use text.Mathlib.TextPositions.{eq_refl as text_refl}
use k8e.Common.{
  ℕ, String, ◌≡◌, refl, sym, ap, ◌∙◌, inl, inr, true, some, [], str_eq, Bool-cases, Option-cases,
}
use k8e.Common.Int.{ℤ, pos, leb_ℤ}
use k8e.Gateway.Api.{Session, Api}
use k8e.Gateway.Sessions.Destroy.{destroy_session}
use k8e.Gateway.Sessions.SubAgent.{run_sub_agent, run_child, child_of, child_status}
use k8e.Gateway.Store.{IsStore, as_stored, with_status}
use k8e.Gateway.Destroyed.{IsUntouched, IsUntouched-trans, HasNoPod, no_pod-IsUntouched}

module _ {W : Type 0} (api : Api W) (resets : W → String → ℕ) (store : IsStore api resets) where
  -- The child as it is stored before its status, and after.
  abbrev stored_child : W → Session → String → W
  stored_child w parent child_id = (api.create_session w (child_of api parent child_id)).0

  abbrev full_child : Session → String → ℤ → Session
  full_child parent child_id now = record (child_of api parent child_id) {
    status = child_status api parent now;
  }

  abbrev finished_child : W → Session → String → ℤ → W
  finished_child w parent child_id now =
      (api.update_status (stored_child w parent child_id) (full_child parent child_id now)).0

  stored_child_lem :
      (w : W) (parent : Session) (child_id : String)
      → (api.create_session w (child_of api parent child_id)).1 ≡ true
      → api.get_session (stored_child w parent child_id) child_id
        ≡ some (as_stored (child_of api parent child_id))
  unfolding child_of as_stored
  stored_child_lem w parent child_id ok =
      store.created w (child_of api parent child_id) child_id ∙ rw (ok, text_refl child_id) refl

  finished_child-HasNoPod :
      (w : W) (parent : Session) (child_id : String) (now : ℤ)
      → (api.create_session w (child_of api parent child_id)).1 ≡ true
      → HasNoPod api resets store (finished_child w parent child_id now) child_id
  unfolding child_of child_status with_status as_stored
  finished_child-HasNoPod w parent child_id now ok =
      let law =
        store.status_updated (stored_child w parent child_id) (full_child parent child_id now)
          child_id in
      elim (Bool-cases
        (api.update_status (stored_child w parent child_id) (full_child parent child_id now)).1) [
          | inl done ↦ record {
            session = as_stored (full_child parent child_id now);
            found = law ∙ rw (done, text_refl child_id, stored_child_lem w parent child_id ok) refl;
            named = refl;
            no_pod = refl;
          }
          | inr lost ↦ record {
            session = as_stored (child_of api parent child_id);
            found = law ∙ rw (lost, stored_child_lem w parent child_id ok) refl;
            named = refl;
            no_pod = refl;
          }
        ]

  finished_child-IsUntouched :
      (w : W) (parent : Session) (child_id : String) (now : ℤ)
      → IsUntouched api resets w (finished_child w parent child_id now)
  finished_child-IsUntouched w parent child_id now =
      IsUntouched-trans api resets store
        (record { pods = store.create_session-pods w _; files = store.create_session-resets w _ })
        (record { pods = store.update_status-pods _ _; files = store.update_status-resets _ _ })

  run_child_inv :
      (w w' : W) (parent : Session) (child_id got : String) (now : ℤ)
      → run_child api w parent child_id now ≡ (w', inr got)
      → ((api.create_session w (child_of api parent child_id)).1 ≡ true)
        × (finished_child w parent child_id now ≡ w')
  unfolding run_child
  run_child_inv w w' parent child_id got now e =
      elim (Bool-cases (leb_ℤ (pos 1) parent.spec.depth)) [
        | inl deep ↦ cc (rw (deep, run_child) at e)
        | inr shallow ↦ elim (Bool-cases (str_eq parent.status.workspace_pvc "")) [
          | inl bare ↦ cc (rw (shallow, bare, run_child) at e)
          | inr shared ↦ elim (Bool-cases (api.create_session w (child_of api parent child_id)).1) [
            | inr lost ↦ cc (rw (shallow, shared, lost, run_child) at e)
            | inl ok ↦ (ok, ap (λ r. r.0) (rw (shallow, shared, ok, run_child) at e))
          ]
        ]
      ]

  run_child-destroy :
      (w w' : W) (parent : Session) (child_id got : String) (now : ℤ)
      → run_child api w parent child_id now ≡ (w', inr got)
      → api.pods_of_session w child_id ≡ some []
      → IsUntouched api resets w (destroy_session api w' child_id).0
  run_child-destroy w w' parent child_id got now e none_labelled =
      let (ok, at_end) = run_child_inv w w' parent child_id got now e in
      let created = finished_child-IsUntouched w parent child_id now in
      rw (sym at_end) (
        IsUntouched-trans api resets store created (
          no_pod-IsUntouched api resets store (finished_child w parent child_id now) child_id
            (finished_child-HasNoPod w parent child_id now ok)
            (store.of_session-pods w (finished_child w parent child_id now) child_id created.pods
              ∙ none_labelled)))

-- A sub-agent that RunSubAgent has started, and that no pod is labelled with, can be destroyed: from
-- before its start to after its end no pod has changed and no workspace has been reset.
pub sub_agent-IsUntouched :
    {W : Type 0} (api : Api W) (resets : W → String → ℕ) (w w' : W) (parent child_id got : String)
    (now : ℤ)
    → IsStore api resets
    → run_sub_agent api w parent child_id now ≡ (w', inr got)
    → api.pods_of_session w child_id ≡ some []
    → IsUntouched api resets w (destroy_session api w' child_id).0
unfolding run_sub_agent
sub_agent-IsUntouched api resets w w' parent child_id got now store e none_labelled =
    elim (Option-cases (api.get_session w parent)) [
      | inl gone ↦ cc (rw (gone, run_sub_agent) at e)
      | inr (p, found) ↦
          run_child-destroy api resets store w w' p child_id got now
            (rw (found, run_sub_agent) at e) none_labelled
    ]
