-- ===== src/Gateway/Memory.antt =====
-- A cluster in memory, which shows that the laws of Gateway/Store can hold: every write succeeds but
-- an update of a pod that is not as it was read.
pub mod Laws
pub mod Records
use native.Mathlib.Decide.{ℕ_discrete}
use k8e.Common.{
  ℕ, zero, suc, ◌+◌, ◌-◌, ◌*◌, ◌/◌, ◌%◌, ◌^◌, ◌≤◌, ◌<◌, String, ◌≡◌, refl, sym, ap, ◌∙◌, ◌≢◌, ◌↔◌,
  ◌⊎◌, inl, inr, Bool, true, false, ◌&&◌, ◌||◌, not, Option, none, some, List, [], ◌∷◌, ◌++◌, map,
  arith, str_eq, eq_iff, ltb, leb, ◌==◌, if◌then◌else◌, ltb→lt, lt→ltb, leb→le, ==_iff, Bool-cases,
  Option-cases, length, get_elem?, replicate, select, length-append, length-replicate, All,
}
use k8e.Common.Int.{pos}
use k8e.Common.Assoc.{contains}
use k8e.Sandbox.Pods.{Pod, PodState, is_state}
use k8e.Gateway.Api.{Session, Lookup, Deletion, Api}
use k8e.Gateway.Runs.Rebuilt.{listed_session}
use k8e.Gateway.Runs.Restart.{IsRecorded}
use k8e.Gateway.Store.{IsStore, as_stored, with_status, SamePods}

pub record World : Type 0 where
  pub sessions : String → Option Session
  pub pods : String → Option Pod
  pub policies : List String
  pub pvcs : List String
  pub wiped : List String

unfoldable pub text_decides : (a b : String) (t : Bool) → str_eq a b ≡ t → Dec (a ≡ b)
text_decides a b true e = yes ((eq_iff a b).0 e)
text_decides a b false e = no (λ same. cc ((eq_iff a b).1 same))

unfoldable pub text_discrete : Discrete String
unfolding text_decides
text_discrete a b = text_decides a b (str_eq a b) refl

unfoldable pub pod_discrete : Discrete (Option Pod)
unfolding text_discrete
pod_discrete = hlevel (ℕ_discrete, text_discrete)

-- An object under its own name.
unfoldable pub session_named : String → Option Session → Option Session
unfolding as_stored
session_named j none = none
session_named j (some s) = if str_eq s.name j then some (as_stored s) else none

unfoldable pub pod_named : String → Option Pod → Option Pod
pod_named j none = none
pod_named j (some p) = if str_eq p.name j then some p else none

abbrev pub session_at : World → String → Option Session
session_at w j = session_named j (w.sessions j)

abbrev pub pod_at : World → String → Option Pod
pod_at w j = pod_named j (w.pods j)

unfoldable pub set_at : {V : Type 0} → String → Option V → (String → Option V) → String → Option V
set_at key value m j = if str_eq key j then value else m j

unfoldable pub holds : {A : Type 0} → Dec A → Bool
holds (yes a) = true
holds (no n) = false

pub holds_lem : {A : Type 0} (d : Dec A) → holds d ≡ true → A
unfolding holds
holds_lem (yes a) h = a
holds_lem (no n) h = cc

unfoldable pub is_current : World → Pod → Bool
unfolding holds pod_discrete
is_current w p = holds (pod_discrete (pod_at w p.name) (some p))

unfoldable pub wipes : List String → String → ℕ
wipes [] ip = 0
wipes (a ∷ rest) ip = let n = wipes rest ip in if str_eq a ip then suc n else n

-- The pods that tests use.
abbrev pub pod_names : List String
pod_names = "pod-a" ∷ "pod-b" ∷ []

unfoldable pub with_state : PodState → Option Pod → List Pod → List Pod
with_state st none ps = ps
with_state st (some p) ps = if is_state st p.state then p ∷ ps else ps

unfoldable pub all_with_state : World → PodState → List String → List Pod
unfolding with_state
all_with_state w st [] = []
all_with_state w st (j ∷ js) = with_state st (pod_at w j) (all_with_state w st js)

unfoldable pub of_session : String → Option Pod → List Pod → List Pod
of_session id none ps = ps
of_session id (some p) ps = if str_eq p.session_id id then p ∷ ps else ps

unfoldable pub all_of_session : World → String → List String → List Pod
unfolding of_session
all_of_session w id [] = []
all_of_session w id (j ∷ js) = of_session id (pod_at w j) (all_of_session w id js)

-- An update leaves the status that is stored.
unfoldable pub with_meta : Session → Option Session → Option Session
with_meta s none = none
with_meta s (some old) = some (record s { status = old.status })

-- The session that tests use.
unfoldable pub all_sessions : Option Session → List Session
all_sessions none = []
all_sessions (some s) = s ∷ []

abbrev pub memory : Api World
memory = record {
  get_session = session_at;
  list_sessions = λ w. some (all_sessions (session_at w "s-1"));
  create_session = λ w s. (record w { sessions = set_at s.name (some s) w.sessions }, true);
  update_session = λ w s.
      (record w { sessions = set_at s.name (with_meta s (w.sessions s.name)) w.sessions }, true);
  update_status = λ w s.
      let w' = record w {
        sessions = set_at s.name (with_status s (w.sessions s.name)) w.sessions;
      } in
      (if s.versioned then w' else w, s.versioned);
  delete_session = λ w id. (record w { sessions = set_at id none w.sessions }, true);
  pods_in_state = λ w st. some (all_with_state w st pod_names);
  pods_of_session = λ w id. some (all_of_session w id pod_names);
  get_pod = pod_at;
  update_pod = λ w p q.
      if is_current w p && str_eq p.name q.name
      then (record w { pods = set_at p.name (some q) w.pods }, true)
      else (w, false);
  create_pod = λ w p. (record w { pods = set_at p.name (some p) w.pods }, some p);
  delete_pod = λ w j. (record w { pods = set_at j none w.pods }, Deletion.deleted);
  has_pvc = λ w j. contains j w.pvcs;
  create_pvc = λ w j. (record w { pvcs = j ∷ w.pvcs }, true);
  find_policy = λ w id. if contains id w.policies then Lookup.found else Lookup.missing;
  create_policy = λ w p. (record w { policies = p.session ∷ w.policies }, true);
  update_policy = λ w p. (w, true);
  delete_policy = λ w id. w;
  matrix_config = λ w. ([], pos 3_600, "", "");
  reset_workspace = λ w ip. record w { wiped = ip ∷ w.wiped };
  is_healthy = λ w p. true;
}
