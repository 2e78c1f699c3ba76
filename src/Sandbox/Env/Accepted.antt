-- ===== src/Sandbox/Env/Accepted.antt =====
-- Which environments and references the validation accepts.
use k8e.Common.{
  ℕ, ◌+◌, ◌≤◌, String, ◌≡◌, refl, inl, inr, false, Option, none, some, List, [], ◌∷◌, map, arith,
  Option-cases, length, All,
}
use k8e.Common.Assoc.{contains}
use k8e.Sandbox.Env.{
  Strings, validate_session_env_entry, validate_entries, validate_session_env, SecretRef,
  validate_secret_ref, validate_refs, validate_secret_refs, env_var_of, pb_secret_refs_to_api,
  total_size, IsEntry, accepted-IsEntry, accepts_entry,
}

module _ (st : Strings) where
  entries_sound :
      (total : ℕ) (env : List (String × String))
      → total ≤ 32_768
      → validate_entries st total env ≡ none
      → All (λ e. IsEntry st e.0 e.1) env × (total + total_size st env ≤ 32_768)
  unfolding validate_entries total_size
  entries_sound total [] h e = (tt, omega arith)
  entries_sound total ((k, v) ∷ env) h e = elim (Option-cases (validate_session_env_entry st k v)) [
    | inl ok ↦
        let fits : total + (st.size k + st.size v) ≤ 32_768 = ground arith in
        let rest = entries_sound (total + (st.size k + st.size v)) env fits (ground arith) in
        ((accepted-IsEntry st k v ok, rest.0), ground arith)
    | inr bad ↦ ground arith
  ]

  entries_complete :
      (total : ℕ) (env : List (String × String))
      → All (λ e. IsEntry st e.0 e.1) env
      → total + total_size st env ≤ 32_768
      → validate_entries st total env ≡ none
  unfolding validate_entries total_size
  entries_complete total [] es h = refl
  entries_complete total ((k, v) ∷ env) (e, es) h =
      let ok = accepts_entry st k v e in
      let rest = entries_complete (total + (st.size k + st.size v)) env es (omega arith) in
      ground arith

-- An environment is accepted exactly if it has at most 64 variables, each with a nonempty UTF-8 key
-- of at most 256 bytes without NUL and equals sign and a UTF-8 value of at most 4096 bytes without
-- NUL, and at most 32768 bytes in all; the order of the map's entries does not matter for that.
pub validate_session_env_lem :
    (st : Strings) (env : List (String × String))
    → (validate_session_env st env ≡ none
        → (length env ≤ 64) × All (λ e. IsEntry st e.0 e.1) env × (total_size st env ≤ 32_768))
      × (length env ≤ 64
          → All (λ e. IsEntry st e.0 e.1) env
          → total_size st env ≤ 32_768
          → validate_session_env st env ≡ none)
unfolding validate_session_env
validate_session_env_lem st env = (
  λ h.
      let found = entries_sound st 0 env (omega arith) (ground arith) in
      (ground arith, found.0, ground arith),
  λ small es total. let ok = entries_complete st 0 env es (omega arith) in ground arith,
)

-- No variable twice, and none of those before.
abbrev pub AreFresh : List String → List (Option SecretRef) → Type 0
AreFresh seen [] = Unit
AreFresh seen (r ∷ refs) =
    (contains (env_var_of r) seen ≡ false) × AreFresh (env_var_of r ∷ seen) refs

module _ (st : Strings) where
  refs_fresh :
      (seen : List String) (refs : List (Option SecretRef))
      → validate_refs st seen refs ≡ none
      → (map some (pb_secret_refs_to_api refs) ≡ refs) × AreFresh seen refs
  unfolding validate_refs validate_secret_ref pb_secret_refs_to_api
  refs_fresh seen [] h = (refl, tt)
  refs_fresh seen (none ∷ refs) h = cc
  refs_fresh seen (some r ∷ refs) h =
      elim (Option-cases (validate_session_env_entry st r.env_var "x")) [
        | inl ok ↦
            let rest = refs_fresh (r.env_var ∷ seen) refs (ground arith) in
            (rw rest.0 refl, (ground arith, rest.1))
        | inr bad ↦ ground arith
      ]

-- References that are accepted are at most 32, name no variable twice, and all of them reach the
-- session's record.
pub validate_secret_refs_lem :
    (st : Strings) (refs : List (Option SecretRef))
    → validate_secret_refs st refs ≡ none
    → (length refs ≤ 32) × (map some (pb_secret_refs_to_api refs) ≡ refs) × AreFresh [] refs
unfolding validate_secret_refs
validate_secret_refs_lem st refs h =
    let found = refs_fresh st [] refs (ground arith) in (ground arith, found.0, found.1)
