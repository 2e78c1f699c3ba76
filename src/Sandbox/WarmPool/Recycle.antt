-- ===== src/Sandbox/WarmPool/Recycle.antt =====
-- recycleUnhealthyWarmPods and detectResetting of pkg/sandboxmatrix/controller.go, with the time at
-- which the pass reads the clock as an argument.
use k8e.Common.{
  ℕ, ◌+◌, ◌*◌, ◌/◌, ◌^◌, ◌≤◌, ◌<◌, ◌≡◌, ◌⊎◌, inl, inr, Bool, true, false, ◌||◌, not, Option, none,
  some, List, [], ◌∷◌, arith, if◌then◌else◌, Bool-cases,
}
use k8e.Common.Int.{ℤ, pos, ltb_ℤ}
use k8e.Common.Int.{time_sub}
use k8e.Sandbox.Pods.{
  Pod, PodState, Phase, Stamp, Request, delete_pod, update_pod, is_running, is_failed,
  ready_condition,
}

-- recycleUnhealthyWarmPodAfter, five minutes.
abbrev pub recycle_unhealthy_warm_pod_after : ℤ
recycle_unhealthy_warm_pod_after = pos 300_000_000_000

-- The body of the loop: whether it reaches a deletion before a `continue`.
should_recycle : ℕ → Pod → Bool
should_recycle now pod =
    if is_failed pod.phase
    then true
    else if not (is_running pod.phase) || ready_condition pod.conditions
    then false
    else not (ltb_ℤ (time_sub now pod.created_at) recycle_unhealthy_warm_pod_after)

pub recycle_pods : ℕ → List Pod → List Request
recycle_pods now [] = []
recycle_pods now (pod ∷ pods) =
    let rest = recycle_pods now pods in
    if should_recycle now pod then delete_pod pod.name ∷ rest else rest

-- `none` for a failed List call.
pub recycle_unhealthy_warm_pods : ℕ → Option (List Pod) → List Request
recycle_unhealthy_warm_pods now none = []
recycle_unhealthy_warm_pods now (some pods) = recycle_pods now pods

-- RFC 3339 drops the fraction of a second.
abbrev pub to_seconds : ℕ → ℕ
to_seconds now = now / 1_000_000_000 * 1_000_000_000

pub detect_resetting_pods : ℕ → List Pod → List Request
detect_resetting_pods now [] = []
detect_resetting_pods now (pod ∷ pods) =
    let rest = detect_resetting_pods now pods in
    let promoted = record pod {
      state = some PodState.warm;
      released_at = Stamp.at (to_seconds now);
    } in
    if is_running pod.phase then update_pod promoted ∷ rest else rest

pub detect_resetting : ℕ → Option (List Pod) → List Request
detect_resetting now none = []
detect_resetting now (some pods) = detect_resetting_pods now pods

-- A pod that has failed, or that runs without the Ready condition for five minutes.
abbrev pub IsDead : ℕ → Pod → Type 0
IsDead now pod =
    (pod.phase ≡ Phase.failed)
    ⊎ ((pod.phase ≡ Phase.running)
        × (ready_condition pod.conditions ≡ false)
        × (pod.created_at + 300_000_000_000 ≤ now))

-- The requests delete the dead pods, in order, and no others.
pub data Culls (now : ℕ) : List Pod → List Request → Type 0 where
  done : Culls now [] []
  cull :
      {pod : Pod} {pods : List Pod} {rs : List Request}
      → IsDead now pod
      → Culls now pods rs
      → Culls now (pod ∷ pods) (delete_pod pod.name ∷ rs)
  spare :
      {pod : Pod} {pods : List Pod} {rs : List Request}
      → ¬ IsDead now pod
      → Culls now pods rs
      → Culls now (pod ∷ pods) rs

should_recycle-IsDead :
    (now : ℕ) (pod : Pod) → now < 2 ^ 63 → should_recycle now pod ≡ true → IsDead now pod
unfolding should_recycle time_sub
should_recycle-IsDead now pod h e = ground arith

not-should_recycle :
    (now : ℕ) (pod : Pod) → now < 2 ^ 63 → should_recycle now pod ≡ false → ¬ IsDead now pod
unfolding should_recycle time_sub
not-should_recycle now pod h e (inl f) = ground arith
not-should_recycle now pod h e (inr f) = ground arith

-- One pass, with a clock below 2^63 nanoseconds, deletes exactly the pods of the warm list that
-- have failed, or have run for five minutes and are not ready.
pub recycle-Culls :
    (now : ℕ) (pods : List Pod)
    → now < 2 ^ 63
    → Culls now pods (recycle_unhealthy_warm_pods now (some pods))
unfolding recycle_unhealthy_warm_pods recycle_pods
recycle-Culls now [] h = done
recycle-Culls now (pod ∷ pods) h = elim (Bool-cases (should_recycle now pod)) [
  | inl e ↦ rw e (cull (should_recycle-IsDead now pod h e) (recycle-Culls now pods h))
  | inr e ↦ rw e (spare (not-should_recycle now pod h e) (recycle-Culls now pods h))
]
