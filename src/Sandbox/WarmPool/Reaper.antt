-- ===== src/Sandbox/WarmPool/Reaper.antt =====
-- The idle pod reaper of pkg/sandboxmatrix/controller.go: reapIdlePods, getSessionTTL,
-- ensureReleaseTimestamp and reapIfIdle. Times are nanoseconds since the epoch, TTLs int64 seconds.
use k8e.Common.{
  ℕ, ◌+◌, ◌-◌, ◌*◌, ◌^◌, ◌≤◌, ◌<◌, ◌≡◌, Option, none, some, List, [], ◌∷◌, ◌++◌, arith, ltb,
  if◌then◌else◌,
}
use k8e.Common.Int.{ℤ, pos, ◌*ℤ◌, ltb_ℤ, leb_ℤ, wrap64}
use k8e.Common.Int.{time_sub}
use k8e.Sandbox.Pods.{Pod, Stamp, Number, Request, delete_pod, update_pod}
use k8e.Sandbox.WarmPool.Recycle.{to_seconds}

-- The argument is `none` for a failed List call or an empty list, else what `spec.sessionTTL` of the
-- first SandboxMatrix reads as, if it is found.
pub get_session_ttl : Option (Option ℤ) → ℤ
get_session_ttl none = pos 3600
get_session_ttl (some none) = pos 3600
get_session_ttl (some (some ttl)) = ttl

-- The per-pool override wins if it is a positive integer.
unfoldable pub effective_ttl : Number → ℤ → ℤ
effective_ttl (Number.number v) default_ttl = if ltb_ℤ (pos 0) v then v else default_ttl
effective_ttl Number.unset default_ttl = default_ttl
effective_ttl Number.not_number default_ttl = default_ttl

-- `time.Duration(ttl) * time.Second`
unfoldable pub seconds : ℤ → ℤ
seconds ttl = wrap64 (ttl *ℤ pos 1_000_000_000)

reap_since : Stamp → ℕ → ℤ → Pod → List Request
reap_since Stamp.missing now ttl pod = []
reap_since Stamp.garbled now ttl pod = []
reap_since (Stamp.at t) now ttl pod =
    if leb_ℤ (time_sub now t) (seconds ttl) then [] else delete_pod pod.name ∷ []

pub reap_if_idle : Pod → ℤ → ℕ → List Request
unfolding reap_since effective_ttl
reap_if_idle pod default_ttl now =
    reap_since pod.released_at now (effective_ttl pod.idle_ttl default_ttl) pod

-- What one turn of the loop asks for: a pod that was never stamped is stamped and left alone.
reap_stamped : Stamp → Pod → ℤ → ℕ → List Request
unfolding reap_if_idle
reap_stamped Stamp.missing pod ttl now =
    update_pod (record pod { released_at = Stamp.at (to_seconds now) }) ∷ []
reap_stamped (Stamp.at t) pod ttl now = reap_if_idle pod ttl now
reap_stamped Stamp.garbled pod ttl now = reap_if_idle pod ttl now

pub reap_turn : Pod → ℤ → ℕ → List Request
unfolding reap_stamped
reap_turn pod ttl now = reap_stamped pod.released_at pod ttl now

reap_pods : List Pod → ℤ → ℕ → List Request
reap_pods [] ttl now = []
reap_pods (pod ∷ pods) ttl now = reap_turn pod ttl now ++ reap_pods pods ttl now

pub reap_idle_pods : Option (Option ℤ) → Option (List Pod) → ℕ → List Request
unfolding get_session_ttl reap_pods
reap_idle_pods matrix none now = []
reap_idle_pods matrix (some pods) now =
    reap_pods pods (wrap64 (get_session_ttl matrix *ℤ pos 2)) now

seconds_fits : (ttl : ℕ) → ttl < 2 ^ 32 → seconds (pos ttl) ≡ pos (ttl * 1_000_000_000)
unfolding seconds wrap64 ◌*ℤ◌
seconds_fits ttl h = ground arith

time_sub_fits : (a b : ℕ) → b ≤ a → a < 2 ^ 63 → time_sub a b ≡ pos (a - b)
unfolding time_sub
time_sub_fits a b h k = ground arith

-- A pod without a stamp is stamped and kept by the pass at `start`; a later pass at `now` over the
-- stamped pod deletes it exactly when more than its effective TTL, here below 2^32 seconds, has
-- passed since the second in which it was stamped.
pub reap_two_passes :
    (pod : Pod) (default_ttl start now ttl : ℕ)
    → pod.released_at ≡ Stamp.missing
    → effective_ttl pod.idle_ttl (pos default_ttl) ≡ pos ttl
    → ttl < 2 ^ 32
    → start ≤ now
    → now < 2 ^ 63
    → let stamped = record pod { released_at = Stamp.at (to_seconds start) } in
      (reap_turn pod (pos default_ttl) start ≡ update_pod stamped ∷ [])
      × (reap_turn stamped (pos default_ttl) now ≡ (
          if ltb (to_seconds start + ttl * 1_000_000_000) now
          then delete_pod pod.name ∷ []
          else []))
unfolding reap_turn
reap_two_passes pod default_ttl start now ttl e f h k b = (
  rw (e, reap_turn),
  rw (f, seconds_fits ttl h, time_sub_fits now (to_seconds start) (omega arith) b) (ground arith),
)
