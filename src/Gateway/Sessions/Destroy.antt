-- ===== src/Gateway/Sessions/Destroy.antt =====
-- DestroySession with its ledger, and gcExpiredSessions of pkg/sandboxmatrix/controller.go.
use k8e.Common.{
  String, Bool, false, ◌&&◌, ◌||◌, Option, none, some, List, [], ◌∷◌, str_eq, if◌then◌else◌,
}
use k8e.Common.Int.{ℤ, ltb_ℤ}
use k8e.Gateway.Api.{SandboxPhase, DestroyStep, Session, Error, Api}
use k8e.Gateway.Sessions.{
  is_phase, is_done, mark_destroy_step, find_pod, release_pod, or_by_name, first_pod,
}

module _ {W : Type 0} (api : Api W) where
  -- Step 1 of DestroySession.
  unfoldable pub destroy_policy : W → Session → W
  unfolding is_done mark_destroy_step
  destroy_policy w s =
      let gone = mark_destroy_step api (api.delete_policy w s.name) s.name DestroyStep.cnp in
      if is_done DestroyStep.cnp s.destroy_steps then w else gone

  -- Steps 2 and 3, on the pod that was found.
  unfoldable pub destroy_workspace : W → Session → String × String → W
  unfolding is_done mark_destroy_step release_pod
  destroy_workspace w s (pod_ip, pod_name) =
      let reset =
        mark_destroy_step api (api.reset_workspace w pod_ip) s.name DestroyStep.workspace in
      let freed =
        mark_destroy_step api (release_pod api reset pod_name) s.name DestroyStep.release in
      if str_eq pod_ip "" || is_done DestroyStep.workspace s.destroy_steps
      then w
      else if str_eq pod_name ""
      then reset
      else freed

  -- DestroySession
  unfoldable pub destroy_session : W → String → W × Option Error
  unfolding destroy_policy destroy_workspace or_by_name first_pod
  destroy_session w session_id = elim (api.get_session w session_id) [
    | none ↦ (w, some Error.api_error)
    | some s ↦
        let terminating =
          (api.update_status w
            (record s { status = record s.status { phase = SandboxPhase.terminating } })).0 in
        let closed = destroy_policy terminating s in
        let freed = destroy_workspace closed s (find_pod api closed s) in
        let (w', deleted) = api.delete_session freed session_id in
        (w', if deleted then none else some Error.api_error)
  ]

  -- gcExpiredSessions: the sessions to destroy at `now`, and their destruction one after the other.
  unfoldable pub is_expired : ℤ → Session → Bool
  unfolding is_phase
  is_expired now s =
      is_phase s.status.phase SandboxPhase.active
      && elim s.status.expires_at [ none ↦ false | some t ↦ ltb_ℤ t now ]

  unfoldable pub gc_sessions : ℤ → List Session → W → W
  unfolding is_expired destroy_session
  gc_sessions now [] w = w
  gc_sessions now (s ∷ ss) w =
      gc_sessions now ss (if is_expired now s then (destroy_session w s.name).0 else w)

  unfoldable pub gc_expired_sessions : ℤ → W → W
  unfolding gc_sessions
  gc_expired_sessions now w = elim (api.list_sessions w) [
    | none ↦ w
    | some ss ↦ gc_sessions now ss w
  ]
