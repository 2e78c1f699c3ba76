-- ===== src/Sandbox/ApiKeys.antt =====
-- The bootstrap API keys of pkg/sandbox/apikey/store.go: expiry, the keys that are active, and the
-- TTL of the command line. The functions of Go's strings and strconv packages are a parameter, the
-- JSON codec is not modelled. Times are nanoseconds since the epoch.
pub mod Lifetimes
use k8e.Common.{
  ℕ, zero, suc, ◌+◌, ◌-◌, ◌*◌, ◌/◌, ◌%◌, ◌^◌, ◌≤◌, ◌<◌, String, ◌≡◌, refl, sym, ap, ◌∙◌, ◌≢◌, ◌↔◌,
  ◌⊎◌, inl, inr, Bool, true, false, ◌&&◌, ◌||◌, not, Option, none, some, List, [], ◌∷◌, ◌++◌, map,
  arith, str_eq, eq_iff, ltb, leb, ◌==◌, if◌then◌else◌, ltb→lt, lt→ltb, leb→le, ==_iff, Bool-cases,
  Option-cases, length, get_elem?, replicate, select, length-append, length-replicate, All,
}
use k8e.Common.Int.{
  ℤ, pos, negsuc, pos_part, neg_part, sub_ℕ, ◌+ℤ◌, ◌-ℤ◌, ◌*ℤ◌, ◌≤ℤ◌, ◌<ℤ◌, ltb_ℤ, leb_ℤ, eqb_ℤ,
  div_ℤ, wrap64, IsInt64, wrap64-IsInt64, wrap64_fits, +ℤ_parts, -ℤ_parts, eq_of_parts, int_laws,
}
use k8e.Common.Assoc.{lookup}

abbrev pub default_ttl_days : ℤ
default_ttl_days = pos 30

pub record Record : Type 0 where
  pub key : String
  pub created_at : ℤ
  pub expires_at : Option ℤ
  pub ttl_days : ℤ

-- `TrimSpace(ToLower(s))`, the text without a suffix if it has it, and Atoi.
pub record Texts : Type 0 where
  pub normalised : String → String
  pub cut_suffix : String → String → Option String
  pub atoi : String → Option ℤ

-- Expired
unfoldable pub expired : Record → ℤ → Bool
expired r now = elim r.expires_at [ none ↦ false | some t ↦ not (ltb_ℤ now t) ]

-- ActiveSecrets
unfoldable pub active_secrets : List (String × Record) → ℤ → List (String × String)
unfolding expired
active_secrets [] now = []
active_secrets ((name, r) ∷ keys) now =
    let rest = active_secrets keys now in
    if str_eq r.key "" || expired r now then rest else (name, r.key) ∷ rest

-- `time.Duration(ttlDays) * 24 * time.Hour`, in 64 bits.
unfoldable pub days : ℤ → ℤ
days n = wrap64 (wrap64 (n *ℤ pos 24) *ℤ pos 3_600_000_000_000)

-- NewRecord
unfoldable pub new_record : String → ℤ → Bool → ℤ → Record
unfolding days
new_record key ttl_days never now =
    let ttl : ℤ = if leb_ℤ ttl_days (pos 0) then default_ttl_days else ttl_days in
    if never
    then record { key = key; created_at = now; expires_at = none; ttl_days = pos 0 }
    else record { key = key; created_at = now; expires_at = some (now +ℤ days ttl); ttl_days = ttl }

pub data Unit24 : Type 0 where
  in_days in_hours : Unit24

-- The days of a number with its unit; `none` is the error. A sum of hours past an int is negative,
-- and so are its days.
unfoldable pub ttl_of : Unit24 → Option ℤ → Option (ℤ × Bool)
ttl_of unit none = none
ttl_of unit (some (negsuc n)) = none
ttl_of Unit24.in_days (some (pos n)) = if n == 0 then some (pos 0, true) else some (pos n, false)
ttl_of Unit24.in_hours (some (pos n)) =
    let whole = if ltb (n + 23) (2 ^ 63) then (n + 23) / 24 else 0 in
    if n == 0 then some (pos 0, true) else some (pos (if ltb whole 1 then 1 else whole), false)

-- ParseTTL: the days and `never`.
unfoldable pub parse_ttl : Texts → String → Option (ℤ × Bool)
unfolding ttl_of
parse_ttl tx text =
    let s = tx.normalised text in
    let hours : Option (ℤ × Bool) = elim (tx.cut_suffix "h" s) [
      | some raw ↦ ttl_of Unit24.in_hours (tx.atoi raw)
      | none ↦ ttl_of Unit24.in_days (tx.atoi s)
    ] in
    if str_eq s ""
    then some (default_ttl_days, false)
    else if str_eq s "never" || str_eq s "none" || str_eq s "0"
    then some (pos 0, true)
    else elim (tx.cut_suffix "d" s) [
      | some raw ↦ ttl_of Unit24.in_days (tx.atoi raw)
      | none ↦ hours
    ]
