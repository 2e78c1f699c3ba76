-- ===== src/Gateway/Runs/Restart.antt =====
-- A restart of the gateway: the run of an ExecBackground is found again.
use text.Mathlib.TextPositions.{eq_refl as text_refl}
use k8e.Common.{
  String, ◌≡◌, refl, sym, ap, ◌∙◌, ◌⊎◌, inl, inr, Bool, true, false, ◌||◌, Option, some, List, [],
  ◌∷◌, ◌++◌, arith, str_eq, leb, Bool-cases, Option-cases, All,
}
use k8e.Common.Assoc.{lookup, insert, contains, contains-append, lookup-insert}
use k8e.Gateway.Api.{Session, Error, Api}
use k8e.Gateway.Runs.{
  Runs, count_background_runs, get_pod_ip_by_session, rebuild_run_registry, record_run_on_session,
  admit_run, start_run, exec_background,
}
use k8e.Gateway.Runs.Rebuilt.{or_else, rebuild_sessions_lem, listed_session, owned_lem}

module _ {W : Type 0} (api : Api W) (submit : W → String → String → W × Bool) (id : String) where
  -- What the recovery of a session's runs relies on: a submission leaves the sessions alone; the
  -- session can be updated, but for its status; and a list of the sessions shows it as it is.
  pub record IsRecorded : Type 0 where
    pub kept :
        (w : W) (ip run : String) → api.get_session (submit w ip run).0 id ≡ api.get_session w id
    pub named : (w : W) (s : Session) → api.get_session w id ≡ some s → s.name ≡ id
    pub versioned : (w : W) (s : Session) → api.get_session w id ≡ some s → s.versioned ≡ true
    pub noted :
        (w : W) (s old : Session)
        → s.name ≡ id
        → s.versioned ≡ true
        → api.get_session w id ≡ some old
        → api.get_session (api.update_session w s).0 id ≡ some (record s { status = old.status })
    pub listed :
        (w : W) (ss : List Session) (s : Session)
        → api.list_sessions w ≡ some ss
        → api.get_session w id ≡ some s
        → listed_session id ss ≡ some s

or_own : (a b : Bool) → b ≡ true → (a || (b || false)) ≡ true
or_own a b h = ground arith

module _ {W : Type 0} (api : Api W) {R : Type 0} (submit : W → String → String → W × Bool)
    (poll : W → String → String → Option R) (id : String) (laws : IsRecorded api submit id) where
  record_lem :
      (w : W) (run : String) (s : Session)
      → api.get_session w id ≡ some s
      → (t : Session) × (api.get_session (record_run_on_session api w id run) id ≡ some t)
        × (contains run t.background_runs ≡ true)
  unfolding record_run_on_session contains
  record_lem w run s e =
      let t = record s { background_runs = s.background_runs ++ run ∷ [] } in
      (
        t,
        rw (e, record_run_on_session)
            (laws.noted w t s (laws.named w s e) (laws.versioned w s e) e),
        contains-append run s.background_runs (run ∷ [])
            ∙ or_own (contains run s.background_runs) (str_eq run run) (text_refl run),
      )

  start_run_lem :
      (w w' : W) (reg reg' : Runs) (run ip : String) (s : Session)
      → api.get_session w id ≡ some s
      → start_run api submit poll w reg id run ip ≡ (w', reg', inr run)
      → ((t : Session) × (api.get_session w' id ≡ some t) × (contains run t.background_runs ≡ true))
        × (lookup run reg' ≡ some id)
  unfolding start_run
  start_run_lem w w' reg reg' run ip s e h = elim (Bool-cases (submit w ip run).1) [
    | inr lost ↦ cc (rw (lost, start_run) at h)
    | inl submitted ↦
        let ends : (let r : W × Runs × (Error ⊎ String) =
              (record_run_on_session api (submit w ip run).0 id run, insert run id reg, inr run) in
            r ≡ (w', reg', inr run)) =
          rw (submitted, start_run) at h in
        let (t, found, lists) = record_lem (submit w ip run).0 run s (laws.kept w ip run ∙ e) in
        (
          (t, ap (λ v. api.get_session v id) (sym (ap (λ r. r.0) ends)) ∙ found, lists),
          ap (lookup run) (sym (ap (λ r. r.1) ends))
              ∙ lookup-insert run run id reg
              ∙ rw (text_refl run) refl,
        )
  ]

  -- A run is admitted only for a session that exists.
  admit_run_found :
      (w : W) (reg : Runs) (ip : String)
      → admit_run api submit poll w reg id ≡ inr ip
      → (s : Session) × (api.get_session w id ≡ some s)
  unfolding admit_run get_pod_ip_by_session
  admit_run_found w reg ip h = elim (Option-cases (api.get_session w id)) [
    | inr found ↦ found
    | inl gone ↦ elim (Bool-cases (leb 5 (count_background_runs id reg))) [
      | inl full ↦ cc (rw (full, admit_run) at h)
      | inr free ↦ cc (rw (free, gone, admit_run) at h)
    ]
  ]

  exec_lem :
      (w w' : W) (reg reg' : Runs) (run : String) (r : Error ⊎ String)
      → admit_run api submit poll w reg id ≡ r
      → exec_background api submit poll w reg id run ≡ (w', reg', inr run)
      → ((t : Session) × (api.get_session w' id ≡ some t) × (contains run t.background_runs ≡ true))
        × (lookup run reg' ≡ some id)
  unfolding exec_background
  exec_lem w w' reg reg' run (inl err) e h = cc (rw (e, exec_background) at h)
  exec_lem w w' reg reg' run (inr ip) e h =
      let (s, found) = admit_run_found w reg ip e in
      start_run_lem w w' reg reg' run ip s found (rw (e, exec_background) at h)

-- A run that ExecBackground has started is found under its session after a restart of the gateway, as
-- it was found before: if the list of the sessions can be read then, no other session lists the run,
-- and the update of the session was not lost, RebuildRunRegistry on an empty registry has the run.
pub rebuild-exec_background :
    {W : Type 0} (api : Api W) {R : Type 0} (submit : W → String → String → W × Bool)
    (poll : W → String → String → Option R) (id : String) (w w' : W) (reg reg' : Runs)
    (run : String) (ss : List Session)
    → IsRecorded api submit id
    → str_eq run "" ≡ false
    → exec_background api submit poll w reg id run ≡ (w', reg', inr run)
    → api.list_sessions w' ≡ some ss
    → All (λ t. contains run t.background_runs ≡ true → str_eq t.name id ≡ true) ss
    → (lookup run reg' ≡ some id) × (lookup run (rebuild_run_registry api w' []) ≡ some id)
unfolding rebuild_run_registry or_else lookup
rebuild-exec_background api submit poll id w w' reg reg' run ss laws real h listed only =
    let ((t, found, lists), before) =
      exec_lem api submit poll id laws w w' reg reg' run (admit_run api submit poll w reg id) refl
        h in
    (
      before,
      rw (listed, rebuild_run_registry)
          (rebuild_sessions_lem run ss [] real
            ∙ owned_lem run id ss t only (laws.listed w' ss t listed found) lists),
    )
