-- ===== src/Sandbox/Demand.antt =====
-- warmDemand of pkg/sandboxmatrix/controller.go: the estimate of recent cold starts that the
-- adaptive pool follows. Times are nanoseconds since the epoch.
use k8e.Common.{ℕ, ◌^◌, ◌<◌, List, [], ◌∷◌, arith, if◌then◌else◌, All}
use k8e.Common.Int.{
  ℤ, pos, ◌+ℤ◌, ◌-ℤ◌, ◌≤ℤ◌, ◌<ℤ◌, ltb_ℤ, leb_ℤ, wrap64, wrap64_fits, +ℤ_parts, -ℤ_parts,
}
use k8e.Common.Int.{time_sub}

pub record WarmDemand : Type 0 where
  pub last_cold_starts : ℤ
  pub last_observed : ℕ
  pub recent_cold_starts : ℤ

-- demandDecayWindow, five minutes.
abbrev pub demand_decay_window : ℤ
demand_decay_window = pos 300_000_000_000

-- The new state; its `recent_cold_starts` is what the method returns.
pub observe : ℕ → ℤ → WarmDemand → WarmDemand
observe now cold_starts d =
    let delta : ℤ = wrap64 (cold_starts -ℤ d.last_cold_starts) in
    if ltb_ℤ (pos 0) delta
    then record d {
      recent_cold_starts = wrap64 (d.recent_cold_starts +ℤ delta);
      last_cold_starts = cold_starts;
      last_observed = now;
    }
    else if leb_ℤ demand_decay_window (time_sub now d.last_observed)
    then record d { recent_cold_starts = pos 0; last_observed = now }
    else d

-- Observations in order, each with its time and the counter that it reads.
pub observe_all : List (ℕ × ℕ) → WarmDemand → WarmDemand
observe_all [] d = d
observe_all ((now, cold) ∷ rest) d = observe_all rest (observe now (pos cold) d)

-- The estimate never counts a cold start that did not happen.
pub record IsEstimate (d : WarmDemand) : Type 0 where
  pub counted : pos 0 ≤ℤ d.last_cold_starts
  pub nonneg : pos 0 ≤ℤ d.recent_cold_starts
  pub within : d.recent_cold_starts ≤ℤ d.last_cold_starts
  pub small : d.last_cold_starts <ℤ pos (2 ^ 62)

pub observe-IsEstimate :
    (now cold : ℕ) (d : WarmDemand)
    → cold < 2 ^ 62
    → IsEstimate d
    → IsEstimate (observe now (pos cold) d)
unfolding observe
observe-IsEstimate now cold d h v = ground (
  arith,
  wrap64_fits (pos cold -ℤ d.last_cold_starts),
  wrap64_fits (d.recent_cold_starts +ℤ (pos cold -ℤ d.last_cold_starts)),
  -ℤ_parts (pos cold) d.last_cold_starts,
  +ℤ_parts d.recent_cold_starts (pos cold -ℤ d.last_cold_starts),
)

abbrev pub started : ℕ → WarmDemand
started now = record { last_cold_starts = pos 0; last_observed = now; recent_cold_starts = pos 0 }

observe_all-keeps :
    (obs : List (ℕ × ℕ)) (d : WarmDemand)
    → All (λ o. o.1 < 2 ^ 62) obs
    → IsEstimate d
    → IsEstimate (observe_all obs d)
unfolding observe_all
observe_all-keeps [] d h v = v
observe_all-keeps ((now, cold) ∷ rest) d h v =
    observe_all-keeps rest (observe now (pos cold) d) h.1 (observe-IsEstimate now cold d h.0 v)

-- Whatever the times and the counter values below 2^62 that it observes, the estimate that starts
-- at 0 is at least 0 and at most the last counter value that it has taken over.
pub observe_all-IsEstimate :
    (start : ℕ) (obs : List (ℕ × ℕ))
    → All (λ o. o.1 < 2 ^ 62) obs
    → IsEstimate (observe_all obs (started start))
observe_all-IsEstimate start obs h = observe_all-keeps obs (started start) h (omega arith)
