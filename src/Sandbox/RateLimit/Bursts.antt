-- ===== src/Sandbox/RateLimit/Bursts.antt =====
-- How many calls at one instant a bucket lets through, and what a call leaves alone.
use text.Mathlib.TextPositions.{eq_refl as text_refl}
use k8e.Common.{
  ℕ, zero, suc, ◌+◌, ◌^◌, ◌≤◌, String, ◌≡◌, refl, Bool, true, false, none, some, arith, leb,
  if◌then◌else◌,
}
use k8e.Common.Int.{ℤ, pos}
use k8e.Common.Int.{time_sub}
use k8e.Common.Assoc.{lookup, insert, lookup-insert}
use k8e.Sandbox.RateLimit.{
  Floats, RateConfig, TokenBucket, Limiter, full_bucket, refill, take_token, bucket_of, allow,
}

-- float64 on the natural numbers up to 2^53, which it represents exactly. No time adds nothing at a
-- finite rate; 0 times an infinite one is not a number.
pub record IsExact {F : Type 0} (fl : Floats F) (is_finite : F → Bool) : Type 0 where
  pub filled_zero :
      (n : ℕ) (rate : F)
      → is_finite rate ≡ true
      → n ≤ 2 ^ 53
      → fl.filled (fl.whole (pos n)) (pos 0) rate ≡ fl.whole (pos n)
  pub minimum_whole :
      (m n : ℕ)
      → n ≤ m
      → m ≤ 2 ^ 53
      → fl.minimum (fl.whole (pos m)) (fl.whole (pos n)) ≡ fl.whole (pos n)
  pub below_zero : fl.below_one (fl.whole (pos 0)) ≡ true
  pub below_suc : (n : ℕ) → suc n ≤ 2 ^ 53 → fl.below_one (fl.whole (pos (suc n))) ≡ false
  pub minus_suc :
      (n : ℕ) → suc n ≤ 2 ^ 53 → fl.minus_one (fl.whole (pos (suc n))) ≡ fl.whole (pos n)

module _ {F : Type 0} (fl : Floats F) where
  -- `n` calls of a tenant at one instant: the limiter after them, and how many are allowed.
  unfoldable pub calls : Limiter F → String → Bool → ℕ → ℕ → Limiter F × ℕ
  unfolding allow
  calls l tenant is_write now zero = (l, 0)
  calls l tenant is_write now (suc n) =
      let (l', allowed) = allow fl l tenant is_write now now in
      let (l'', others) = calls l' tenant is_write now n in
      (l'', (if allowed then 1 else 0) + others)

abbrev pub least : ℕ → ℕ → ℕ
least m n = if leb m n then m else n

module _ {F : Type 0} (fl : Floats F) where
  bucket_new :
      (l : Limiter F) (tenant : String) (burst : ℤ) (rate : F) (created : ℕ)
      → lookup tenant l.cache ≡ none
      → bucket_of fl l tenant burst rate created ≡ full_bucket fl burst rate created
  unfolding bucket_of
  bucket_new l tenant burst rate created e = rw (e, bucket_of) refl

  bucket_old :
      (l : Limiter F) (tenant : String) (burst : ℤ) (rate : F) (created : ℕ) (b : TokenBucket F)
      → lookup tenant l.cache ≡ some b
      → bucket_of fl l tenant burst rate created ≡ b
  unfolding bucket_of
  bucket_old l tenant burst rate created b e = rw (e, bucket_of) refl

module _ {F : Type 0} (fl : Floats F) (is_finite : F → Bool) (ex : IsExact fl is_finite)
    (tenant : String) (is_write : Bool) (now : ℕ) where
  abbrev burst_of : RateConfig F → ℤ
  burst_of cfg = if is_write then cfg.write_burst else cfg.read_burst

  abbrev rate_of : RateConfig F → F
  rate_of cfg = if is_write then cfg.write_rate else cfg.read_rate

  -- The tenant's bucket, existing or new, holds `t` of `b` tokens.
  record Holds (l : Limiter F) (b t : ℕ) : Type 0 where
    rate : F
    bucket :
        bucket_of fl l tenant (burst_of l.config) (rate_of l.config) now
        ≡ record { tokens = fl.whole (pos t); last_fill = now; burst = pos b; rate = rate }
    limited : fl.is_positive (rate_of l.config) ≡ true
    finite : is_finite rate ≡ true
    exact : b ≤ 2 ^ 53
    full : t ≤ b

  time_lem : time_sub now now ≡ pos 0
  unfolding time_sub
  time_lem = ground arith

  refill_lem :
      (b t : ℕ) (rate : F)
      → is_finite rate ≡ true
      → t ≤ b
      → b ≤ 2 ^ 53
      → refill fl
          (record { tokens = fl.whole (pos t); last_fill = now; burst = pos b; rate = rate })
          now
        ≡ record { tokens = fl.whole (pos t); last_fill = now; burst = pos b; rate = rate }
  unfolding refill
  refill_lem b t rate f h k =
      rw (time_lem, ex.filled_zero t rate f (omega arith), ex.minimum_whole b t h k) refl

  allow_lem :
      (l : Limiter F) (b : TokenBucket F) (allowed : Bool)
      → fl.is_positive (rate_of l.config) ≡ true
      → take_token fl
          (refill fl (bucket_of fl l tenant (burst_of l.config) (rate_of l.config) now) now)
        ≡ (b, allowed)
      → allow fl l tenant is_write now now ≡ (record l { cache = insert tenant b l.cache }, allowed)
  unfolding allow
  allow_lem l b allowed p e = rw (p, e, allow) refl

  kept :
      (l : Limiter F) (b t : ℕ) (rate : F)
      → fl.is_positive (rate_of l.config) ≡ true
      → is_finite rate ≡ true
      → b ≤ 2 ^ 53
      → t ≤ b
      → Holds
          (record l {
            cache =
                insert tenant
                  (record {
                    tokens = fl.whole (pos t);
                    last_fill = now;
                    burst = pos b;
                    rate = rate;
                  })
                  l.cache;
          })
          b
          t
  kept l b t rate p f k h = record {
    rate = rate;
    bucket = bucket_old fl _ tenant _ _ now _ (
        rw
          (
            lookup-insert tenant tenant
                (record { tokens = fl.whole (pos t); last_fill = now; burst = pos b; rate = rate })
                l.cache,
            text_refl tenant,
          )
          refl);
    limited = p;
    finite = f;
    exact = k;
    full = h;
  }

  allow_empty :
      (l : Limiter F) (b : ℕ)
      → Holds l b 0
      → ((allow fl l tenant is_write now now).1 ≡ false)
        × Holds (allow fl l tenant is_write now now).0 b 0
  unfolding take_token
  allow_empty l b h =
      rw
        (allow_lem l
          (record { tokens = fl.whole (pos 0); last_fill = now; burst = pos b; rate = h.rate })
          false h.limited
          (rw (h.bucket, refill_lem b 0 h.rate h.finite h.full h.exact, ex.below_zero) refl))
        (refl, kept l b 0 h.rate h.limited h.finite h.exact h.full)

  allow_nonempty :
      (l : Limiter F) (b t : ℕ)
      → Holds l b (suc t)
      → ((allow fl l tenant is_write now now).1 ≡ true)
        × Holds (allow fl l tenant is_write now now).0 b t
  unfolding take_token
  allow_nonempty l b t h =
      rw
        (allow_lem l
          (record { tokens = fl.whole (pos t); last_fill = now; burst = pos b; rate = h.rate }) true
          h.limited
          (rw
            (
              h.bucket,
              refill_lem b (suc t) h.rate h.finite h.full h.exact,
              ex.below_suc t (omega arith),
              ex.minus_suc t (omega arith),
            )
            refl))
        (refl, kept l b t h.rate h.limited h.finite h.exact (omega arith))

  calls_lem :
      (n : ℕ) (l : Limiter F) (b t : ℕ)
      → Holds l b t
      → (calls fl l tenant is_write now n).1 ≡ least n t
  unfolding calls
  calls_lem zero l b t h = ground arith
  calls_lem (suc n) l b zero h =
      let step = allow_empty l b h in
      rw (step.0, calls_lem n (allow fl l tenant is_write now now).0 b 0 step.1) (ground arith)
  calls_lem (suc n) l b (suc t) h =
      let step = allow_nonempty l b t h in
      rw (step.0, calls_lem n (allow fl l tenant is_write now now).0 b t step.1) (ground arith)

-- When a tenant without a bucket makes `n` calls of one kind at one instant, as many are allowed as
-- the burst of that kind, and no more; the rate is positive and finite, and the burst at most 2^53.
pub calls_burst :
    {F : Type 0} (fl : Floats F) (is_finite : F → Bool) (tenant : String) (is_write : Bool)
    (now n b : ℕ) (l : Limiter F)
    → IsExact fl is_finite
    → lookup tenant l.cache ≡ none
    → (if is_write then l.config.write_burst else l.config.read_burst) ≡ pos b
    → b ≤ 2 ^ 53
    → fl.is_positive (if is_write then l.config.write_rate else l.config.read_rate) ≡ true
    → is_finite (if is_write then l.config.write_rate else l.config.read_rate) ≡ true
    → (calls fl l tenant is_write now n).1 ≡ least n b
calls_burst fl is_finite tenant is_write now n b l ex fresh e k p f =
    let rate = if is_write then l.config.write_rate else l.config.read_rate in
    calls_lem fl is_finite ex tenant is_write now n l b b (record {
      rate = rate;
      bucket =
          rw
            (
              bucket_new fl l tenant
                  (if is_write then l.config.write_burst else l.config.read_burst) rate now fresh,
              e,
            )
            refl;
      limited = p;
      finite = f;
      exact = k;
      full = omega arith;
    })
