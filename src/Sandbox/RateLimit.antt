-- ===== src/Sandbox/RateLimit.antt =====
-- The token buckets of pkg/sandboxmatrix/ratelimit/ratelimit.go. Go's float64 is a parameter. Times
-- are nanoseconds since the epoch, and a call's two readings of the clock are its arguments. How
-- extractTenant reads a tenant from the metadata is not modelled.
pub mod Bursts
use k8e.Common.{
  ℕ, ◌-◌, String, Bool, true, false, not, Option, none, some, List, [], ◌∷◌, ltb, if◌then◌else◌,
}
use k8e.Common.Int.{ℤ, pos, ltb_ℤ}
use k8e.Common.Int.{time_sub}
use k8e.Common.Assoc.{contains, lookup, insert}

pub record Floats (F : Type 0) : Type 0 where
  -- float64(n)
  pub whole : ℤ → F
  pub minimum : F → F → F
  -- `tokens + elapsed*rate`, of the duration in nanoseconds.
  pub filled : F → ℤ → F → F
  pub minus_one : F → F
  pub below_one : F → Bool
  -- `rate > 0`
  pub is_positive : F → Bool

pub record RateConfig (F : Type 0) : Type 0 where
  pub write_burst : ℤ
  pub write_rate : F
  pub read_burst : ℤ
  pub read_rate : F

pub record TokenBucket (F : Type 0) : Type 0 where
  pub tokens : F
  pub last_fill : ℕ
  pub burst : ℤ
  pub rate : F

pub record Limiter (F : Type 0) : Type 0 where
  pub cache : List (String × TokenBucket F)
  pub config : RateConfig F

abbrev pub write_methods : List String
write_methods =
    "/sandbox.v1.SandboxService/CreateSession" ∷ "/sandbox.v1.SandboxService/DestroySession"
    ∷ "/sandbox.v1.SandboxService/Exec" ∷ "/sandbox.v1.SandboxService/ExecStream"
    ∷ "/sandbox.v1.SandboxService/PipInstall" ∷ "/sandbox.v1.SandboxService/RunSubAgent"
    ∷ "/sandbox.v1.SandboxService/WriteFile" ∷ "/sandbox.v1.SandboxService/GetCACert"
    ∷ "/sandbox.v1.SandboxService/ConfirmAction" ∷ "/sandbox.v1.SandboxService/ApproveAction" ∷ []

abbrev pub is_write_rpc : String → Bool
is_write_rpc method = contains method write_methods

module _ {F : Type 0} (fl : Floats F) where
  abbrev pub default_rate_config : RateConfig F
  default_rate_config = record {
    write_burst = pos 10;
    write_rate = fl.whole (pos 5);
    read_burst = pos 30;
    read_rate = fl.whole (pos 20);
  }

  -- The overrides of a spec, as in NewLimiterFromSpec and ReloadConfig.
  unfoldable pub config_from_spec : Option (RateConfig F) → RateConfig F
  config_from_spec none = default_rate_config
  config_from_spec (some spec) =
      let default = default_rate_config in
      record {
        write_burst =
            if ltb_ℤ (pos 0) spec.write_burst then spec.write_burst else default.write_burst;
        write_rate = if fl.is_positive spec.write_rate then spec.write_rate else default.write_rate;
        read_burst = if ltb_ℤ (pos 0) spec.read_burst then spec.read_burst else default.read_burst;
        read_rate = if fl.is_positive spec.read_rate then spec.read_rate else default.read_rate;
      }

  abbrev pub new_limiter_from_spec : Option (RateConfig F) → Limiter F
  new_limiter_from_spec spec = record { cache = []; config = config_from_spec spec }

  -- ReloadConfig
  unfoldable pub reload_config : Limiter F → Option (RateConfig F) → Limiter F
  reload_config l spec = record { cache = []; config = config_from_spec spec }

  -- The bucket of a tenant that has none.
  abbrev pub full_bucket : ℤ → F → ℕ → TokenBucket F
  full_bucket burst rate created = record {
    tokens = fl.whole burst;
    last_fill = created;
    burst = burst;
    rate = rate;
  }

  -- A bucket up to now, capped at its burst.
  unfoldable pub refill : TokenBucket F → ℕ → TokenBucket F
  refill b now = record b {
    tokens = fl.minimum (fl.whole b.burst) (fl.filled b.tokens (time_sub now b.last_fill) b.rate);
    last_fill = now;
  }

  -- The bucket after a call, and whether the call may go on.
  unfoldable pub take_token : TokenBucket F → TokenBucket F × Bool
  take_token b =
      if fl.below_one b.tokens
      then (b, false)
      else (record b { tokens = fl.minus_one b.tokens }, true)

  unfoldable pub bucket_of : Limiter F → String → ℤ → F → ℕ → TokenBucket F
  bucket_of l tenant burst rate created = elim (lookup tenant l.cache) [
    | none ↦ full_bucket burst rate created
    | some b ↦ b
  ]

  -- Allow, with the readings of the clock at a bucket's creation and after it.
  unfoldable pub allow : Limiter F → String → Bool → ℕ → ℕ → Limiter F × Bool
  unfolding refill take_token bucket_of
  allow l tenant is_write created now =
      let burst : ℤ = if is_write then l.config.write_burst else l.config.read_burst in
      let rate = if is_write then l.config.write_rate else l.config.read_rate in
      let (b, allowed) = take_token (refill (bucket_of l tenant burst rate created) now) in
      if not (fl.is_positive rate)
      then (l, true)
      else (record l { cache = insert tenant b l.cache }, allowed)

  -- UnaryInterceptor and StreamInterceptor: `none` is ResourceExhausted.
  unfoldable pub intercept {ℓ} :
      {A : Type ℓ} → Limiter F → String → String → ℕ → ℕ → A → Limiter F × Option A
  unfolding allow
  intercept l tenant method created now handled =
      let (l', allowed) = allow l tenant (is_write_rpc method) created now in
      (l', if allowed then some handled else none)

  -- ReapStale, up to the cutoff.
  unfoldable pub reap_entries : ℕ → List (String × TokenBucket F) → List (String × TokenBucket F)
  reap_entries cutoff [] = []
  reap_entries cutoff ((tenant, b) ∷ cache) =
      let rest = reap_entries cutoff cache in
      if ltb b.last_fill cutoff then rest else (tenant, b) ∷ rest

  unfoldable pub reap_stale : Limiter F → ℕ → ℕ → Limiter F
  unfolding reap_entries
  reap_stale l now max_age = record l { cache = reap_entries (now - max_age) l.cache }
