-- ===== src/Gateway/Claimed.antt =====
-- A warm pod is claimed only while it is warm, whatever other clients do meanwhile.
use text.Mathlib.TextPositions.{eq_refl as text_refl}
use k8e.Common.{
  ℕ, ◌+◌, String, ◌≡◌, refl, sym, ap, ◌∙◌, inl, inr, true, Option, none, some, List, [], ◌∷◌,
  str_eq, eq_iff, Bool-cases, Option-cases, All,
}
use k8e.Sandbox.Pods.{Pod, PodState, is_state}
use k8e.Gateway.Api.{Api}
use k8e.Gateway.Claims.{
  claimed, fits_runtime, claim_warm, cold_start, after_warm, claim_or_create_pod, session_pod,
}
use k8e.Gateway.Store.{IsStore}

module _ {W : Type 0} (api : Api W) where
  -- A claim of a warm pod: the moment `v` of its update, the pod as it was then, and the pod as it is
  -- handed to the session.
  pub record IsClaim (session_id runtime_class : String) (w : W) (pod : Pod) : Type 0 where
    pub moment : W
    pub before : Pod
    pub current : api.get_pod moment before.name ≡ some before
    pub was_warm : is_state PodState.warm before.state ≡ true
    pub fits : fits_runtime runtime_class before ≡ true
    pub is_own : pod ≡ claimed session_id before
    pub stored : api.get_pod w before.name ≡ some pod

module _ {W : Type 0} (api : Api W) (resets : W → String → ℕ) (store : IsStore api resets)
    (others : ℕ → W → W) (session_id runtime_class : String) where
  won_lem :
      (v : W) (p : Pod) (w' : W) (pod : Pod)
      → is_state PodState.warm p.state ≡ true
      → fits_runtime runtime_class p ≡ true
      → (api.update_pod v p (claimed session_id p)).1 ≡ true
      → (api.update_pod v p (claimed session_id p)).0 ≡ w'
      → claimed session_id p ≡ pod
      → IsClaim api session_id runtime_class w' pod
  won_lem v p w' pod warm fits won at_end same = record {
    moment = v;
    before = p;
    current = store.unchanged v p (claimed session_id p) won;
    was_warm = warm;
    fits = fits;
    is_own = sym same;
    stored =
        rw (sym at_end, sym same)
          (store.pod_updated v p (claimed session_id p) p.name ∙ rw (won, text_refl p.name) refl);
  }

  claim_warm-IsClaim :
      (w : W) (i : ℕ) (pods : List Pod) (w' : W) (pod : Pod)
      → All (λ p. is_state PodState.warm p.state ≡ true) pods
      → claim_warm api others session_id runtime_class w i pods ≡ (w', some pod)
      → IsClaim api session_id runtime_class w' pod
  unfolding claim_warm
  claim_warm-IsClaim w i [] w' pod all e = cc
  claim_warm-IsClaim w i (p ∷ ps) w' pod (warm, all) e = elim (Bool-cases (api.is_healthy w p)) [
    | inr sick ↦ claim_warm-IsClaim w (i + 1) ps w' pod all (rw (sick, claim_warm) at e)
    | inl well ↦ elim (Bool-cases (fits_runtime runtime_class p)) [
      | inr other ↦ claim_warm-IsClaim w (i + 1) ps w' pod all (rw (well, other, claim_warm) at e)
      | inl fits ↦ elim (Bool-cases (api.update_pod (others i w) p (claimed session_id p)).1) [
        | inr lost ↦
            claim_warm-IsClaim (api.update_pod (others i w) p (claimed session_id p)).0 (i + 1) ps
              w' pod all (rw (well, fits, lost, claim_warm) at e)
        | inl won ↦
            let same : (
              (api.update_pod (others i w) p (claimed session_id p)).0,
              some (claimed session_id p),
            )
                ≡ (w', some pod) =
              rw (well, fits, won, claim_warm) at e in
            won_lem (others i w) p w' pod warm fits won (ap (λ r. r.0) same) (cc)
      ]
    ]
  ]

  after_warm_inv :
      (q : Pod) (r : W × Option Pod) (w' : W) (pod : Pod)
      → after_warm api q r ≡ (w', some pod, true)
      → r ≡ (w', some pod)
  unfolding after_warm cold_start
  after_warm_inv q (w, some p) w' pod e = cc
  after_warm_inv q (w, none) w' pod e = cc

  from_pool_lem :
      (w : W) (pvc_name cpu memory : String) (w' : W) (pod : Pod)
      → str_eq pvc_name "" ≡ true
      → claim_or_create_pod api others w session_id runtime_class pvc_name cpu memory
        ≡ (w', some pod, true)
      → IsClaim api session_id runtime_class w' pod
  unfolding claim_or_create_pod cold_start
  from_pool_lem w pvc_name cpu memory w' pod eph e =
      elim (Option-cases (api.pods_in_state w PodState.warm)) [
        | inl failed ↦ cc (rw (eph, failed, claim_or_create_pod) at e)
        | inr (ps, listed) ↦
            claim_warm-IsClaim w 0 ps w' pod (store.listed_in_state w PodState.warm ps listed) (
              after_warm_inv (session_pod session_id runtime_class pvc_name cpu memory)
                (claim_warm api others session_id runtime_class w 0 ps) w' pod
                (rw (eph, listed, claim_or_create_pod) at e))
      ]

-- A session that is given a warm pod by claimOrCreatePod has no volume claim; its pod was warm and of
-- its runtime class, or of none, at the very moment of the update, whatever other clients do between
-- the list of the pods and the updates; and it is stored as active under the session's ID.
pub claim_or_create_pod-IsClaim :
    {W : Type 0} (api : Api W) (resets : W → String → ℕ) (others : ℕ → W → W)
    (session_id runtime_class : String) (w : W) (pvc_name cpu memory : String) (w' : W) (pod : Pod)
    → IsStore api resets
    → claim_or_create_pod api others w session_id runtime_class pvc_name cpu memory
      ≡ (w', some pod, true)
    → (pvc_name ≡ "") × IsClaim api session_id runtime_class w' pod
unfolding claim_or_create_pod cold_start
claim_or_create_pod-IsClaim api resets others session_id runtime_class w pvc_name cpu memory w' pod
      store e =
    elim (Bool-cases (str_eq pvc_name "")) [
      | inl eph ↦ (
        (eq_iff pvc_name "").0 eph,
        from_pool_lem api resets store others session_id runtime_class w pvc_name cpu memory w' pod
            eph e,
      )
      | inr persistent ↦ cc (rw (persistent, claim_or_create_pod) at e)
    ]
