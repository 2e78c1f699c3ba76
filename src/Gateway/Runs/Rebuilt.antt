-- ===== src/Gateway/Runs/Rebuilt.antt =====
-- What a restarted gateway knows of the runs.
use k8e.Common.{
  String, ◌≡◌, refl, sym, ap, ◌∙◌, inl, inr, Bool, true, false, ◌||◌, Option, none, some, List, [],
  ◌∷◌, arith, str_eq, eq_iff, if◌then◌else◌, Bool-cases, All,
}
use k8e.Common.Assoc.{lookup, insert, has, contains, lookup-insert, has-lookup}
use k8e.Gateway.Api.{Session}
use k8e.Gateway.Runs.{Runs, rebuild_session, rebuild_sessions}

-- The first session that lists a run.
unfoldable pub owner_of : String → List Session → Option String
unfolding contains
owner_of run [] = none
owner_of run (s ∷ ss) = if contains run s.background_runs then some s.name else owner_of run ss

unfoldable pub or_else : {A : Type 0} → Option A → Option A → Option A
or_else none o = o
or_else (some a) o = some a

lookup_of_absent : (run : String) (reg : Runs) → has run reg ≡ false → lookup run reg ≡ none
unfolding has lookup
lookup_of_absent run [] h = refl
lookup_of_absent run ((r, s) ∷ reg) h = ground (arith, lookup_of_absent run reg)

or_else_right : {A : Type 0} (o : Option A) → or_else o none ≡ o
unfolding or_else
or_else_right none = refl
or_else_right (some a) = refl

-- What is found after a run has been put in, unless it is there.
put_lem :
    (asked run id : String) (reg : Runs) (taken : Bool)
    → (taken ≡ true → str_eq run asked ≡ true → (v : String) × (lookup asked reg ≡ some v))
    → (taken ≡ false → str_eq run asked ≡ true → lookup asked reg ≡ none)
    → lookup asked (if taken then reg else insert run id reg)
      ≡ or_else (lookup asked reg) (if str_eq run asked then some id else none)
unfolding or_else
put_lem asked run id reg true there lacks = elim (Bool-cases (str_eq run asked)) [
  | inr other ↦ rw other (sym (or_else_right (lookup asked reg)))
  | inl same ↦ let (v, e) = there refl same in rw (e, or_else) refl
]
put_lem asked run id reg false there lacks = elim (Bool-cases (str_eq run asked)) [
  | inr other ↦ lookup-insert run asked id reg ∙ rw other (sym (or_else_right (lookup asked reg)))
  | inl same ↦ lookup-insert run asked id reg ∙ rw (same, lacks refl same, or_else) refl
]

nonempty :
    (asked run : String) → str_eq asked "" ≡ false → str_eq run asked ≡ true → str_eq run "" ≡ false
nonempty asked run real same = ground (arith, eq_iff run asked, eq_iff run "", eq_iff asked "")

add_lem :
    (asked run id : String) (reg : Runs)
    → str_eq asked "" ≡ false
    → lookup asked (if str_eq run "" || has run reg then reg else insert run id reg)
      ≡ or_else (lookup asked reg) (if str_eq run asked then some id else none)
add_lem asked run id reg real =
    put_lem asked run id reg (str_eq run "" || has run reg)
      (λ taken same.
        let here : run ≡ asked = (eq_iff run asked).0 same in
        has-lookup asked reg
          (ap (λ r. has r reg) (sym here) ∙ (rw (nonempty asked run real same) at taken)))
      (λ free same.
        let here : run ≡ asked = (eq_iff run asked).0 same in
        lookup_of_absent asked reg
          (ap (λ r. has r reg) (sym here) ∙ (rw (nonempty asked run real same) at free)))

or_else_assoc : {A : Type 0} (a b c : Option A) → or_else (or_else a b) c ≡ or_else a (or_else b c)
unfolding or_else
or_else_assoc none b c = refl
or_else_assoc (some a) b c = refl

or_else_if :
    {A : Type 0} (b c : Bool) (x : A)
    → or_else (if b then some x else none) (if c then some x else none)
      ≡ (if b || c then some x else none)
unfolding or_else
or_else_if true c x = refl
or_else_if false c x = refl

rebuild_session_lem :
    (asked id : String) (runs : List String) (reg : Runs)
    → str_eq asked "" ≡ false
    → lookup asked (rebuild_session id runs reg)
      ≡ or_else (lookup asked reg) (if contains asked runs then some id else none)
unfolding rebuild_session contains
rebuild_session_lem asked id [] reg real = sym (or_else_right (lookup asked reg))
rebuild_session_lem asked id (run ∷ runs) reg real =
    rebuild_session_lem asked id runs
      (if str_eq run "" || has run reg then reg else insert run id reg) real
    ∙ ap (λ o. or_else o (if contains asked runs then some id else none))
        (add_lem asked run id reg real)
    ∙ or_else_assoc (lookup asked reg) (if str_eq run asked then some id else none)
        (if contains asked runs then some id else none)
    ∙ ap (or_else (lookup asked reg)) (or_else_if (str_eq run asked) (contains asked runs) id)

owner_lem :
    (b : Bool) (id : String) (o : Option String)
    → or_else (if b then some id else none) o ≡ (if b then some id else o)
unfolding or_else
owner_lem true id o = refl
owner_lem false id o = refl

-- A rebuilt registry finds under every run, but the empty one, the session that it had for it before
-- and, failing that, the first listed session whose annotation names the run.
pub rebuild_sessions_lem :
    (asked : String) (ss : List Session) (reg : Runs)
    → str_eq asked "" ≡ false
    → lookup asked (rebuild_sessions ss reg) ≡ or_else (lookup asked reg) (owner_of asked ss)
unfolding rebuild_sessions owner_of
rebuild_sessions_lem asked [] reg real = sym (or_else_right (lookup asked reg))
rebuild_sessions_lem asked (s ∷ ss) reg real =
    rebuild_sessions_lem asked ss (rebuild_session s.name s.background_runs reg) real
    ∙ ap (λ o. or_else o (owner_of asked ss))
        (rebuild_session_lem asked s.name s.background_runs reg real)
    ∙ or_else_assoc (lookup asked reg)
        (if contains asked s.background_runs then some s.name else none) (owner_of asked ss)
    ∙ ap (or_else (lookup asked reg))
        (owner_lem (contains asked s.background_runs) s.name (owner_of asked ss))

-- The first listed session of a name.
unfoldable pub listed_session : String → List Session → Option Session
listed_session id [] = none
listed_session id (s ∷ ss) = if str_eq s.name id then some s else listed_session id ss

-- A run that only the session of this name lists, and does list.
pub owned_lem :
    (run id : String) (ss : List Session) (s : Session)
    → All (λ t. contains run t.background_runs ≡ true → str_eq t.name id ≡ true) ss
    → listed_session id ss ≡ some s
    → contains run s.background_runs ≡ true
    → owner_of run ss ≡ some id
unfolding owner_of listed_session
owned_lem run id [] s only e has_run = cc
owned_lem run id (t ∷ ss) s (own, only) e has_run =
    elim (Bool-cases (contains run t.background_runs)) [
      | inl yes_run ↦ rw yes_run (ap some ((eq_iff t.name id).0 (own yes_run)))
      | inr no_run ↦ elim (Bool-cases (str_eq t.name id)) [
        | inr other ↦ rw no_run (owned_lem run id ss s only (rw other at e) has_run)
        | inl same ↦
            let this : t ≡ s = cc (rw same at e) in
            cc (ap (λ r. contains run r.background_runs) this, no_run, has_run)
      ]
    ]
