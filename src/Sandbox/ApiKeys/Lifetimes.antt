-- ===== src/Sandbox/ApiKeys/Lifetimes.antt =====
-- How long a key lives, and which keys are active.
use k8e.Common.{
  ℕ, ◌+◌, ◌*◌, ◌/◌, ◌≤◌, ◌<◌, String, ◌≡◌, refl, Bool, true, false, ◌&&◌, ◌||◌, not, some, List, [],
  ◌∷◌, map, arith, str_eq, leb,
}
use k8e.Common.Int.{ℤ, pos, ◌+ℤ◌, ◌*ℤ◌, wrap64}
use k8e.Sandbox.ApiKeys.{Record, expired, active_secrets, days, new_record, ttl_of, Unit24}

-- Whether a map has an entry, and whether the records have one that is live under its name and key.
unfoldable pub has_pair : String → String → List (String × String) → Bool
has_pair name secret [] = false
has_pair name secret ((n, s) ∷ map) = str_eq n name && str_eq s secret || has_pair name secret map

unfoldable pub has_live : ℤ → String → String → List (String × Record) → Bool
has_live now name secret [] = false
has_live now name secret ((n, r) ∷ keys) =
    str_eq n name && str_eq r.key secret && not (str_eq r.key "") && not (expired r now)
    || has_live now name secret keys

days_fits : (n : ℕ) → n ≤ 106_751 → days (pos n) ≡ pos (n * 86_400_000_000_000)
unfolding days wrap64 ◌*ℤ◌
days_fits n h = ground arith

hours_ttl :
    (n : ℕ) (ttl : ℤ)
    → n ≤ 24 * 106_751
    → ttl_of Unit24.in_hours (some (pos n)) ≡ some (ttl, false)
    → (d : ℕ) × (ttl ≡ pos d) × (1 ≤ d) × (n ≤ 24 * d) × (24 * d < n + 24)
unfolding ttl_of
hours_ttl n ttl h e = ((n + 23) / 24, ground arith, ground arith, omega arith, ground arith)

expired_lem :
    (d now t : ℕ) (key : String)
    → 1 ≤ d
    → d ≤ 106_751
    → expired (new_record key (pos d) false (pos now)) (pos t)
      ≡ leb (now + d * 86_400_000_000_000) t
unfolding new_record expired ◌+ℤ◌
expired_lem d now t key lo hi = ground (arith, days_fits d hi)

-- A TTL of `n` hours, up to 106751 days, makes a key that lives for at least these hours and for less
-- than a day more.
pub hours_lifetime :
    (n now t : ℕ) (key : String) (ttl : ℤ)
    → ttl_of Unit24.in_hours (some (pos n)) ≡ some (ttl, false)
    → n ≤ 24 * 106_751
    → (t < now + n * 3_600_000_000_000
        → expired (new_record key ttl false (pos now)) (pos t) ≡ false)
      × (now + (n + 24) * 3_600_000_000_000 ≤ t
          → expired (new_record key ttl false (pos now)) (pos t) ≡ true)
hours_lifetime n now t key ttl e h =
    let (d, f, lo, above, below) = hours_ttl n ttl h e in
    let same = expired_lem d now t key lo (omega arith) in
    rw f (λ early. rw same (ground arith), λ late. rw same (ground arith))

-- A TTL from 106752 to 213503 days wraps around: the key has expired as soon as it is made.
pub ttl_overflow :
    (n now : ℕ) (key : String)
    → 106_752 ≤ n
    → n ≤ 213_503
    → expired (new_record key (pos n) false (pos now)) (pos now) ≡ true
unfolding new_record expired days wrap64 ◌*ℤ◌ ◌+ℤ◌
ttl_overflow n now key lo hi = ground arith

-- Every secret that is handed out belongs to a record of that name, with a key that is not empty
-- and has not expired; and the secret of such a record is handed out.
pub active_secrets_lem :
    (keys : List (String × Record)) (now : ℤ) (name secret : String)
    → has_pair name secret (active_secrets keys now) ≡ has_live now name secret keys
unfolding active_secrets has_pair has_live
active_secrets_lem [] now name secret = refl
active_secrets_lem ((n, r) ∷ keys) now name secret =
    ground (arith, active_secrets_lem keys now name secret)
