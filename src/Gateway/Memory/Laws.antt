-- ===== src/Gateway/Memory/Laws.antt =====
-- The laws of Gateway/Store, for the cluster in memory.
use k8e.Common.{
  ℕ, String, ◌≡◌, refl, sym, ap, ◌∙◌, inl, inr, Bool, true, false, ◌&&◌, Option, none, some, List,
  [], ◌∷◌, arith, str_eq, eq_iff, if◌then◌else◌, Bool-cases, All,
}
use k8e.Sandbox.Pods.{Pod, PodState, is_state}
use k8e.Gateway.Api.{Session}
use k8e.Gateway.Store.{IsStore, as_stored, with_status, SamePods}
use k8e.Gateway.Memory.{
  pod_discrete, session_named, pod_named, session_at, pod_at, set_at, holds, is_current, wipes,
  pod_names, with_state, all_with_state, of_session, all_of_session, memory, World, holds_lem,
}

pub set_at_lem :
    (key j : String) (s : Option Session) (m : String → Option Session)
    → session_named j (set_at key s m j)
      ≡ (if str_eq key j then session_named j s else session_named j (m j))
unfolding set_at
set_at_lem key j s m = elim (Bool-cases (str_eq key j)) [
  | inl same ↦ rw (same, set_at) refl
  | inr other ↦ rw (other, set_at) refl
]

set_pod_lem :
    (key j : String) (p : Option Pod) (m : String → Option Pod)
    → pod_named j (set_at key p m j) ≡ (if str_eq key j then pod_named j p else pod_named j (m j))
unfolding set_at
set_pod_lem key j p m = elim (Bool-cases (str_eq key j)) [
  | inl same ↦ rw (same, set_at) refl
  | inr other ↦ rw (other, set_at) refl
]

pub session_named_lem :
    (j : String) (o : Option Session) (s : Session) → session_named j o ≡ some s → s.name ≡ j
unfolding session_named as_stored
session_named_lem j none s e = cc
session_named_lem j (some t) s e = elim (Bool-cases (str_eq t.name j)) [
  | inl same ↦
      (let this : as_stored t ≡ s = cc (rw same at e) in
        ap (λ r. r.name) (sym this) ∙ (eq_iff t.name j).0 same)
  | inr other ↦ cc (rw other at e)
]

pod_named_lem : (j : String) (o : Option Pod) (s : Pod) → pod_named j o ≡ some s → s.name ≡ j
unfolding pod_named
pod_named_lem j none s e = cc
pod_named_lem j (some t) s e = elim (Bool-cases (str_eq t.name j)) [
  | inl same ↦
      (let this : t ≡ s = cc (rw same at e) in
        ap (λ r. r.name) (sym this) ∙ (eq_iff t.name j).0 same)
  | inr other ↦ cc (rw other at e)
]

memory_created :
    (w : World) (s : Session) (j : String)
    → session_at (memory.create_session w s).0 j
      ≡ (if str_eq s.name j then some (as_stored s) else session_at w j)
unfolding session_named as_stored
memory_created w s j =
    set_at_lem s.name j (some s) w.sessions
    ∙ elim (Bool-cases (str_eq s.name j)) [ inl same ↦ rw same refl | inr other ↦ rw other refl ]

with_status-named :
    (s : Session) (j : String) (o : Option Session)
    → session_named j (with_status s o) ≡ with_status s (session_named j o)
unfolding session_named with_status as_stored
with_status-named s j none = refl
with_status-named s j (some t) = elim (Bool-cases (str_eq t.name j)) [
  | inl same ↦ rw same refl
  | inr other ↦ rw other refl
]

pub session_named-versioned :
    (j : String) (o : Option Session) (s : Session)
    → session_named j o ≡ some s
    → s.versioned ≡ true
unfolding session_named as_stored
session_named-versioned j none s e = cc
session_named-versioned j (some t) s e = elim (Bool-cases (str_eq t.name j)) [
  | inl same ↦ (let this : as_stored t ≡ s = cc (rw same at e) in ap (λ r. r.versioned) (sym this))
  | inr other ↦ cc (rw other at e)
]

status_written :
    (b : Bool) (w : World) (s : Session) (j : String)
    → let w' = record w {
      sessions = set_at s.name (with_status s (w.sessions s.name)) w.sessions;
    } in
      session_at (if b then w' else w) j
      ≡ (if b && str_eq s.name j then with_status s (session_at w j) else session_at w j)
status_written false w s j = refl
status_written true w s j =
    set_at_lem s.name j (with_status s (w.sessions s.name)) w.sessions
    ∙ elim (Bool-cases (str_eq s.name j)) [
      | inl same ↦ rw same (
          with_status-named s j (w.sessions s.name)
          ∙ ap (λ k. with_status s (session_named j (w.sessions k))) ((eq_iff s.name j).0 same))
      | inr other ↦ rw other refl
    ]

memory_update_status-pods :
    (w : World) (s : Session) (j : String) → pod_at (memory.update_status w s).0 j ≡ pod_at w j
memory_update_status-pods w s j = elim (Bool-cases s.versioned) [
  | inl read ↦ rw read refl
  | inr built ↦ rw built refl
]

memory_update_status-wipes :
    (w : World) (s : Session) (j : String)
    → wipes (memory.update_status w s).0.wiped j ≡ wipes w.wiped j
memory_update_status-wipes w s j = elim (Bool-cases s.versioned) [
  | inl read ↦ rw read refl
  | inr built ↦ rw built refl
]

is_current_lem : (w : World) (p : Pod) → is_current w p ≡ true → pod_at w p.name ≡ some p
unfolding is_current
is_current_lem w p h = holds_lem (pod_discrete (pod_at w p.name) (some p)) h

is_holds : {A : Type 0} (d : Dec A) → A → holds d ≡ true
unfolding holds
is_holds (yes a) b = refl
is_holds (no n) b = absurd (n b)

-- A pod that has not changed can be updated.
pub is_current_now : (w : World) (p : Pod) → pod_at w p.name ≡ some p → is_current w p ≡ true
unfolding is_current
is_current_now w p h = is_holds (pod_discrete (pod_at w p.name) (some p)) h

and_right : (a b : Bool) → (a && b) ≡ true → b ≡ true
and_right a b h = ground arith

renamed :
    (p q : Pod) (j : String)
    → str_eq p.name q.name ≡ true
    → str_eq p.name j ≡ true
    → pod_named j (some q) ≡ some q
unfolding pod_named
renamed p q j kept same =
    let own : q.name ≡ j = sym ((eq_iff p.name q.name).0 kept) ∙ (eq_iff p.name j).0 same in
    rw ((eq_iff q.name j).1 own) refl

memory_pod_updated :
    (w : World) (p q : Pod) (j : String)
    → pod_at (memory.update_pod w p q).0 j
      ≡ (if (memory.update_pod w p q).1 && str_eq p.name j then some q else pod_at w j)
memory_pod_updated w p q j = elim (Bool-cases (is_current w p && str_eq p.name q.name)) [
  | inr lost ↦ rw lost refl
  | inl won ↦ rw won (
      set_pod_lem p.name j (some q) w.pods ∙ elim (Bool-cases (str_eq p.name j)) [
        | inl same ↦
            rw same (renamed p q j (and_right (is_current w p) (str_eq p.name q.name) won) same)
        | inr other ↦ rw other refl
      ])
]

memory_update_pod :
    (w : World) (p q : Pod) (j : String) → session_at (memory.update_pod w p q).0 j ≡ session_at w j
memory_update_pod w p q j = elim (Bool-cases (is_current w p && str_eq p.name q.name)) [
  | inr lost ↦ rw lost refl
  | inl won ↦ rw won refl
]

memory_unchanged :
    (w : World) (p q : Pod) → (memory.update_pod w p q).1 ≡ true → pod_at w p.name ≡ some p
memory_unchanged w p q h = elim (Bool-cases (is_current w p)) [
  | inl now ↦ is_current_lem w p now
  | inr late ↦ cc (rw late at h)
]

with_state-All :
    (st : PodState) (o : Option Pod) (ps : List Pod)
    → All (λ p. is_state st p.state ≡ true) ps
    → All (λ p. is_state st p.state ≡ true) (with_state st o ps)
unfolding with_state
with_state-All st none ps all = all
with_state-All st (some p) ps all = elim (Bool-cases (is_state st p.state)) [
  | inl fits ↦ rw (fits, with_state) (fits, all)
  | inr other ↦ rw (other, with_state) all
]

all_with_state-All :
    (w : World) (st : PodState) (js : List String)
    → All (λ p. is_state st p.state ≡ true) (all_with_state w st js)
unfolding all_with_state
all_with_state-All w st [] = tt
all_with_state-All w st (j ∷ js) =
    with_state-All st (pod_at w j) (all_with_state w st js) (all_with_state-All w st js)

all_of_session-same :
    (w v : World) (id : String) (js : List String)
    → SamePods memory w v
    → all_of_session v id js ≡ all_of_session w id js
unfolding all_of_session
all_of_session-same w v id [] same = refl
all_of_session-same w v id (j ∷ js) same =
    ap (λ o. of_session id o (all_of_session v id js)) (same j)
    ∙ ap (of_session id (pod_at w j)) (all_of_session-same w v id js same)

abbrev pub wipe_count : World → String → ℕ
wipe_count w ip = wipes w.wiped ip

pub memory-IsStore : IsStore memory wipe_count
unfolding session_named wipes
memory-IsStore = record {
  named = λ w j s e. session_named_lem j (w.sessions j) s e;
  created = memory_created;
  versioned = λ w j s e. session_named-versioned j (w.sessions j) s e;
  unversioned = λ w s built. built;
  status_updated = λ w s j. status_written s.versioned w s j;
  session_deleted = λ w id j. set_at_lem id j none w.sessions;
  pod_updated = memory_pod_updated;
  unchanged = memory_unchanged;
  listed_in_state = λ w st ps e.
      let listed : all_with_state w st pod_names ≡ ps = cc in
      rw (sym listed) (all_with_state-All w st pod_names);
  of_session-pods = λ w v id same. ap some (all_of_session-same w v id pod_names same);
  pod_named = λ w j p e. pod_named_lem j (w.pods j) p e;
  reset_done = λ w ip j. refl;
  create_session-pods = λ w s j. refl;
  update_session-pods = λ w s j. refl;
  update_status-pods = memory_update_status-pods;
  delete_session-pods = λ w id j. refl;
  delete_policy-pods = λ w id j. refl;
  reset_workspace-pods = λ w ip j. refl;
  create_session-resets = λ w s j. refl;
  update_session-resets = λ w s j. refl;
  update_status-resets = memory_update_status-wipes;
  delete_session-resets = λ w id j. refl;
  delete_policy-resets = λ w id j. refl;
  delete_policy-sessions = λ w id j. refl;
  create_policy-sessions = λ w p j. refl;
  update_policy-sessions = λ w p j. refl;
  update_pod-sessions = memory_update_pod;
  delete_pod-sessions = λ w name j. refl;
  create_pod-sessions = λ w p j. refl;
  create_pvc-sessions = λ w name j. refl;
  volume_kept = λ w p q e. let this : p ≡ q = cc in ap (λ r. r.pvc_name) (sym this);
}
