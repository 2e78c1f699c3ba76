-- ===== src/E2b/CrdState.antt =====
-- crd_state.go of pkg/sandbox/e2b: the bookkeeping of sandboxes in annotations of their SandboxSession
-- resources. The cluster's sessions and the node's cache of names are the state; the text of a time
-- (time.RFC3339) is a parameter. `none` is the zero time.
pub mod Refine
pub mod Agreement
pub mod Extensions
pub mod Operations
pub mod Trace
pub mod Refused
use k8e.Common.{
  ℕ, zero, suc, ◌+◌, ◌-◌, ◌*◌, ◌/◌, ◌%◌, ◌^◌, ◌≤◌, ◌<◌, String, ◌≡◌, refl, sym, ap, ◌∙◌, ◌≢◌, ◌↔◌,
  ◌⊎◌, inl, inr, Bool, true, false, ◌&&◌, ◌||◌, not, Option, none, some, List, [], ◌∷◌, ◌++◌, map,
  arith, str_eq, eq_iff, ltb, leb, ◌==◌, if◌then◌else◌, ltb→lt, lt→ltb, leb→le, ==_iff, Bool-cases,
  Option-cases, length, get_elem?, replicate, select, length-append, take, drop, take-append-drop,
  drop-drop, length-drop, take-length, length-replicate, All,
}
use k8e.Common.Int.{ℤ, ltb_ℤ}
use k8e.Common.Assoc.{lookup, insert}
use k8e.E2b.Registry.{Entry, candidate}

-- The payload of the annotation e2b-state.
pub record E2bState : Type 0 where
  pub deadline_at : String
  pub on_deadline : String
  pub created_at : String
  pub metadata : List (String × String)
  pub runtime_name : String
  pub paused_by_user : Bool

-- The two annotations of a session: a payload that is empty or not JSON is `some none`.
pub record Annotations : Type 0 where
  pub state : Option (Option E2bState)
  pub name_index : Option String

pub record CrdStore : Type 0 where
  pub sessions : List (String × Annotations)
  pub by_name : List (String × String)

-- Whether the API server serves a Get, an Update (which a conflict refuses) and a List.
pub record ApiAnswers : Type 0 where
  pub gets : Bool
  pub updates : Bool
  pub lists : Bool

-- A session without bookkeeping reads as the zero payload.
unfoldable pub read_state : Annotations → E2bState
read_state ann = elim ann.state [
  | some (some st) ↦ st
  | _ ↦ record {
    deadline_at = "";
    on_deadline = "";
    created_at = "";
    metadata = [];
    runtime_name = "";
    paused_by_user = false;
  }
]

-- metadata["name"], "" when there is none.
unfoldable pub name_value : List (String × String) → String
name_value metadata = elim (lookup "name" metadata) [ none ↦ "" | some name ↦ name ]

unfoldable pub get_session : ApiAnswers → String → CrdStore → Option Annotations
get_session a id s = if a.gets then lookup id s.sessions else none

unfoldable pub without_id : String → List (String × String) → List (String × String)
without_id id [] = []
without_id id ((name, v) ∷ names) =
    let rest = without_id id names in if str_eq v id then rest else (name, v) ∷ rest

unfoldable pub annotations_of : String → E2bState → Annotations
unfolding name_value
annotations_of id st = record {
  state = some (some st);
  name_index = if str_eq (name_value st.metadata) "" then none else some id;
}

unfoldable pub cache_name : String → E2bState → List (String × String) → List (String × String)
unfolding without_id name_value
cache_name id st names =
    if str_eq (name_value st.metadata) ""
    then without_id id names
    else insert (name_value st.metadata) id names

unfoldable pub write_found :
    ApiAnswers → String → E2bState → CrdStore → Option Annotations → CrdStore × Bool
unfolding annotations_of cache_name
write_found a id st s none = (s, false)
write_found a id st s (some ann) =
    if a.updates
    then (
      record {
        sessions = insert id (annotations_of id st) s.sessions;
        by_name = cache_name id st s.by_name;
      },
      true,
    )
    else (s, false)

unfoldable pub write_state : ApiAnswers → String → E2bState → CrdStore → CrdStore × Bool
unfolding write_found
write_state a id st s = write_found a id st s (get_session a id s)

-- The scan of the sessions for a name.
unfoldable pub scan : String → List (String × Annotations) → Option String
unfolding read_state name_value
scan name [] = none
scan name ((id, ann) ∷ sessions) =
    let rest = scan name sessions in
    elim ann.name_index [
      | none ↦ rest
      | some index ↦
          if str_eq index ""
          then rest
          else if str_eq (name_value (read_state ann).metadata) name
          then some id
          else rest
    ]

unfoldable pub by_key_name : ApiAnswers → String → CrdStore → Option String
unfolding scan
by_key_name a name s = elim (lookup name s.by_name) [
  | some id ↦ some id
  | none ↦ if a.lists then scan name s.sessions else none
]

-- The cache forgets the sandbox also when the Update fails.
unfoldable pub del_found : ApiAnswers → String → CrdStore → Option Annotations → CrdStore
unfolding without_id
del_found a id s none = s
del_found a id s (some ann) =
    let cleared : Annotations = record { state = none; name_index = none } in
    record {
      sessions = if a.updates then insert id cleared s.sessions else s.sessions;
      by_name = without_id id s.by_name;
    }

unfoldable pub del : ApiAnswers → String → CrdStore → CrdStore
unfolding del_found
del a id s = del_found a id s (get_session a id s)

unfoldable pub ids_of : List (String × Annotations) → List String
ids_of [] = []
ids_of ((id, ann) ∷ sessions) =
    let rest = ids_of sessions in elim ann.state [ none ↦ rest | some raw ↦ id ∷ rest ]

unfoldable pub ids : ApiAnswers → CrdStore → List String
unfolding ids_of
ids a s = if a.lists then ids_of s.sessions else []

-- t.After(deadline)
unfoldable pub is_after : ℤ → Option ℤ → Bool
is_after t none = true
is_after t (some d) = ltb_ℤ d t

module _ (format : ℤ → String) (parse : String → Option ℤ) where
  -- parseRFC3339: a text that does not parse is the zero time.
  unfoldable pub parse_rfc3339 : String → Option ℤ
  parse_rfc3339 s = if str_eq s "" then none else parse s

  unfoldable pub time_text : Option ℤ → String
  time_text none = ""
  time_text (some t) = format t

  unfoldable pub entry : String → E2bState → Entry
  unfolding parse_rfc3339
  entry id st = record {
    sandbox_id = id;
    deadline_at = parse_rfc3339 st.deadline_at;
    on_deadline = st.on_deadline;
    created_at = parse_rfc3339 st.created_at;
    metadata = st.metadata;
    runtime_name = st.runtime_name;
    paused_by_user = st.paused_by_user;
  }

  unfoldable pub state : Entry → E2bState
  unfolding time_text
  state e = record {
    deadline_at = time_text e.deadline_at;
    on_deadline = e.on_deadline;
    created_at = time_text e.created_at;
    metadata = e.metadata;
    runtime_name = e.runtime_name;
    paused_by_user = e.paused_by_user;
  }

  unfoldable pub put : ApiAnswers → Entry → CrdStore → CrdStore
  unfolding state write_state
  put a e s = (write_state a e.sandbox_id (state e) s).0

  unfoldable pub found : String → Option Annotations → Option Entry
  unfolding entry read_state
  found id none = none
  found id (some ann) = some (entry id (read_state ann))

  unfoldable pub get : ApiAnswers → String → CrdStore → Option Entry
  unfolding found
  get a id s = found id (get_session a id s)

  unfoldable pub deadline_of : ApiAnswers → String → CrdStore → Option ℤ
  deadline_of a id s = elim (get a id s) [ none ↦ none | some e ↦ e.deadline_at ]

  unfoldable pub extend_found :
      ApiAnswers → String → ℤ → CrdStore → Option Entry → CrdStore × Option ℤ
  unfolding is_after state write_state
  extend_found a id t s none = (s, none)
  extend_found a id t s (some e) =
      let moved : Entry = record e { deadline_at = some t } in
      if is_after t e.deadline_at
      then ((write_state a id (state moved) s).0, some t)
      else (s, e.deadline_at)

  -- An error of the write is dropped.
  unfoldable pub extend_deadline : ApiAnswers → String → ℕ → ℤ → CrdStore → CrdStore × Option ℤ
  unfolding extend_found
  extend_deadline a id now timeout_seconds s =
      extend_found a id (candidate now timeout_seconds) s (get a id s)

  unfoldable pub change_found :
      ApiAnswers → String → (Entry → Entry) → CrdStore → Option Entry → CrdStore
  unfolding state write_state
  change_found a id f s none = s
  change_found a id f s (some e) = (write_state a id (state (f e)) s).0

  unfoldable pub clear_deadline : ApiAnswers → String → CrdStore → CrdStore
  unfolding change_found
  clear_deadline a id s = change_found a id (λ e. record e { deadline_at = none }) s (get a id s)

  unfoldable pub mark_paused : ApiAnswers → String → Bool → CrdStore → CrdStore
  unfolding change_found
  mark_paused a id paused s =
      change_found a id (λ e. record e { paused_by_user = paused }) s (get a id s)

  unfoldable pub is_paused : ApiAnswers → String → CrdStore → Bool
  is_paused a id s = elim (get a id s) [ none ↦ false | some e ↦ e.paused_by_user ]
