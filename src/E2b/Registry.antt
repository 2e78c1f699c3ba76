-- ===== src/E2b/Registry.antt =====
-- The sandbox registry of pkg/sandbox/e2b/registry.go: the map by sandbox ID, the index by name,
-- the kill deadlines and the pass of gcExpired. Times are nanoseconds since the epoch; `none` is
-- the zero time. The registry's lock makes every operation one step.
pub mod Pass
pub mod Deadlines
pub mod Names
use k8e.Common.{
  ℕ, zero, suc, ◌+◌, ◌-◌, ◌*◌, ◌/◌, ◌%◌, ◌^◌, ◌≤◌, ◌<◌, String, ◌≡◌, refl, sym, ap, ◌∙◌, ◌≢◌, ◌↔◌,
  ◌⊎◌, inl, inr, Bool, true, false, ◌&&◌, ◌||◌, not, Option, none, some, List, [], ◌∷◌, ◌++◌, map,
  arith, str_eq, eq_iff, ltb, leb, ◌==◌, if◌then◌else◌, ltb→lt, lt→ltb, leb→le, ==_iff, Bool-cases,
  Option-cases, length, get_elem?, replicate, select, length-append, length-replicate, All,
}
use k8e.Common.Int.{
  ℤ, pos, negsuc, pos_part, neg_part, sub_ℕ, ◌+ℤ◌, ◌-ℤ◌, ◌*ℤ◌, ◌≤ℤ◌, ◌<ℤ◌, ltb_ℤ, leb_ℤ, eqb_ℤ,
  div_ℤ, wrap64, IsInt64, wrap64-IsInt64, wrap64_fits, +ℤ_parts, -ℤ_parts, eq_of_parts, int_laws,
}
use k8e.Common.Assoc.{lookup, insert, remove}

pub record Entry : Type 0 where
  pub sandbox_id : String
  pub deadline_at : Option ℤ
  pub on_deadline : String
  pub created_at : Option ℤ
  pub metadata : List (String × String)
  pub runtime_name : String
  pub paused_by_user : Bool

pub record Registry : Type 0 where
  pub by_id : List (String × Entry)
  pub by_name : List (String × String)

abbrev pub new_registry : Registry
new_registry = record { by_id = []; by_name = [] }

-- The name under which an entry is indexed.
unfoldable pub name_of : Entry → Option String
name_of e = elim (lookup "name" e.metadata) [
  | none ↦ none
  | some name ↦ if str_eq name "" then none else some name
]

unfoldable pub put : Registry → Entry → Registry
unfolding name_of
put r e = record {
  by_id = insert e.sandbox_id e r.by_id;
  by_name = elim (name_of e) [ none ↦ r.by_name | some name ↦ insert name e.sandbox_id r.by_name ];
}

unfoldable pub get : Registry → String → Option Entry
get r id = lookup id r.by_id

unfoldable pub by_key_name : Registry → String → Option String
by_key_name r name = lookup name r.by_name

-- del removes the name of the entry from the index, whoever holds it.
unfoldable pub del : Registry → String → Registry
unfolding name_of
del r id = record {
  by_id = remove id r.by_id;
  by_name = elim (lookup id r.by_id) [
    | none ↦ r.by_name
    | some e ↦ elim (name_of e) [ none ↦ r.by_name | some name ↦ remove name r.by_name ]
  ];
}

-- A change of an entry through its pointer.
unfoldable pub modify : (Entry → Entry) → Registry → String → Registry
modify f r id = elim (lookup id r.by_id) [
  | none ↦ r
  | some e ↦ record r { by_id = insert id (f e) r.by_id }
]

-- `time.Now().Add(time.Duration(timeoutSeconds) * time.Second)`
abbrev pub candidate : ℕ → ℤ → ℤ
candidate now timeout_seconds = pos now +ℤ wrap64 (timeout_seconds *ℤ pos 1_000_000_000)

-- The later of a deadline and a time; the zero time is before all others.
unfoldable pub later : Option ℤ → ℤ → ℤ
later none t = t
later (some d) t = if ltb_ℤ d t then t else d

unfoldable pub extend_deadline : Registry → String → ℕ → ℤ → Registry × Option ℤ
unfolding modify later
extend_deadline r id now timeout_seconds =
    let extended : Entry → Entry =
      λ e. record e { deadline_at = some (later e.deadline_at (candidate now timeout_seconds)) } in
    (
      modify extended r id,
      elim (lookup id r.by_id) [ none ↦ none | some e ↦ (extended e).deadline_at ],
    )

unfoldable pub clear_deadline : Registry → String → Registry
unfolding modify
clear_deadline r id = modify (λ e. record e { deadline_at = none }) r id

unfoldable pub mark_paused : Registry → String → Bool → Registry
unfolding modify
mark_paused r id paused = modify (λ e. record e { paused_by_user = paused }) r id

unfoldable pub is_paused : Registry → String → Bool
is_paused r id = elim (lookup id r.by_id) [ none ↦ false | some e ↦ e.paused_by_user ]

-- What the gateway answers: whether it pauses and destroys a session.
pub record Gateway : Type 0 where
  pub pauses : String → Bool
  pub destroys : String → Bool

-- `deadlineAt.IsZero() || now.Before(deadlineAt)` is false.
unfoldable pub is_due : ℕ → Entry → Bool
is_due now e = elim e.deadline_at [ none ↦ false | some d ↦ leb_ℤ d (pos now) ]

destroy : Gateway → Registry → String → Registry
unfolding del
destroy gw r id = if gw.destroys id then del r id else r

-- One turn of the loop of gcExpired.
unfoldable pub gc_one : Gateway → ℕ → Registry → String → Registry
unfolding destroy is_due mark_paused
gc_one gw now r id = elim (lookup id r.by_id) [
  | none ↦ r
  | some e ↦
      if not (is_due now e)
      then r
      else if str_eq e.on_deadline "pause"
      then (if gw.pauses id then mark_paused r id true else destroy gw r id)
      else destroy gw r id
]

unfoldable pub gc_ids : Gateway → ℕ → List String → Registry → Registry
gc_ids gw now [] r = r
gc_ids gw now (id ∷ ids) r = gc_ids gw now ids (gc_one gw now r id)

abbrev pub ids : Registry → List String
ids r = map (λ e. e.0) r.by_id

unfoldable pub gc_expired : Gateway → ℕ → Registry → Registry
unfolding gc_ids
gc_expired gw now r = gc_ids gw now (ids r) r
