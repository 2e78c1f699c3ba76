-- ===== src/Sandbox/Env.antt =====
-- What a session may ask for: pkg/sandboxmatrix/grpc/env.go, the limits on a session's environment
-- and on its references to secrets, and the bodies of requests to sandboxd. The functions of Go's
-- strings and utf8 packages are a parameter. A map is a list of entries in the order of iteration.
pub mod Accepted
use k8e.Common.{
  ℕ, ◌+◌, ◌≤◌, String, ◌≡◌, Bool, true, false, ◌||◌, not, Option, none, some, List, [], ◌∷◌, arith,
  str_eq, ltb, if◌then◌else◌, length,
}
use k8e.Common.Assoc.{contains}

-- `len`, utf8.ValidString, whether there is a NUL byte, and whether there is an equals sign.
pub record Strings : Type 0 where
  pub size : String → ℕ
  pub is_valid : String → Bool
  pub has_nul : String → Bool
  pub has_equals : String → Bool

pub data EnvError : Type 0 where
  too_many too_large empty_key non_utf8 nul_byte equals_sign key_too_long value_too_long : EnvError
  nil_secret_ref field_missing duplicate_env_var : EnvError

abbrev pub max_session_env_keys : ℕ
max_session_env_keys = 64

abbrev pub max_session_env_key_bytes : ℕ
max_session_env_key_bytes = 256

abbrev pub max_session_env_value_bytes : ℕ
max_session_env_value_bytes = 4_096

abbrev pub max_session_env_total_bytes : ℕ
max_session_env_total_bytes = 32_768

abbrev pub max_session_secret_refs : ℕ
max_session_secret_refs = 32

-- The fields of a protobuf SecretRef, and of the one of the API.
pub record SecretRef : Type 0 where
  pub secret_name : String
  pub key : String
  pub env_var : String

abbrev pub env_var_of : Option SecretRef → String
env_var_of none = ""
env_var_of (some r) = r.env_var

module _ (st : Strings) where
  -- validateSessionEnvEntry
  unfoldable pub validate_session_env_entry : String → String → Option EnvError
  validate_session_env_entry k v =
      if str_eq k ""
      then some EnvError.empty_key
      else if not (st.is_valid k) || not (st.is_valid v)
      then some EnvError.non_utf8
      else if st.has_nul k || st.has_nul v
      then some EnvError.nul_byte
      else if st.has_equals k
      then some EnvError.equals_sign
      else if ltb max_session_env_key_bytes (st.size k)
      then some EnvError.key_too_long
      else if ltb max_session_env_value_bytes (st.size v)
      then some EnvError.value_too_long
      else none

  -- The loop of validateSessionEnv, with the total so far.
  unfoldable pub validate_entries : ℕ → List (String × String) → Option EnvError
  unfolding validate_session_env_entry
  validate_entries total [] = none
  validate_entries total ((k, v) ∷ env) =
      let total' = total + (st.size k + st.size v) in
      let rest = validate_entries total' env in
      elim (validate_session_env_entry k v) [
        | some e ↦ some e
        | none ↦ if ltb max_session_env_total_bytes total' then some EnvError.too_large else rest
      ]

  -- validateSessionEnv
  unfoldable pub validate_session_env : List (String × String) → Option EnvError
  unfolding validate_entries
  validate_session_env env =
      if ltb max_session_env_keys (length env)
      then some EnvError.too_many
      else validate_entries 0 env

  -- The checks of one reference; `seen` holds the variables before it.
  unfoldable pub validate_secret_ref : List String → Option SecretRef → Option EnvError
  unfolding validate_session_env_entry
  validate_secret_ref seen none = some EnvError.nil_secret_ref
  validate_secret_ref seen (some r) =
      let entry = validate_session_env_entry r.env_var "x" in
      let repeated = if contains r.env_var seen then some EnvError.duplicate_env_var else none in
      if str_eq r.secret_name "" || str_eq r.key "" || str_eq r.env_var ""
      then some EnvError.field_missing
      else elim entry [ some e ↦ some e | none ↦ repeated ]

  -- The loop of validateSecretRefs.
  unfoldable pub validate_refs : List String → List (Option SecretRef) → Option EnvError
  unfolding validate_secret_ref
  validate_refs seen [] = none
  validate_refs seen (r ∷ refs) =
      let rest = validate_refs (env_var_of r ∷ seen) refs in
      elim (validate_secret_ref seen r) [ some e ↦ some e | none ↦ rest ]

  -- validateSecretRefs
  unfoldable pub validate_secret_refs : List (Option SecretRef) → Option EnvError
  unfolding validate_refs
  validate_secret_refs refs =
      if ltb max_session_secret_refs (length refs)
      then some EnvError.too_many
      else validate_refs [] refs

-- pbSecretRefsToAPI
unfoldable pub pb_secret_refs_to_api : List (Option SecretRef) → List SecretRef
pb_secret_refs_to_api [] = []
pb_secret_refs_to_api (none ∷ refs) = pb_secret_refs_to_api refs
pb_secret_refs_to_api (some r ∷ refs) = r ∷ pb_secret_refs_to_api refs

pub data ExecStatus : Type 0 where
  completed timed_out failed : ExecStatus

-- classifyExecStatus
unfoldable pub classify_exec_status : Bool → Bool → ExecStatus
classify_exec_status was_timed_out had_transport_error =
    if had_transport_error
    then ExecStatus.failed
    else if was_timed_out
    then ExecStatus.timed_out
    else ExecStatus.completed

module _ (st : Strings) where
  -- The bytes of keys and values.
  unfoldable pub total_size : List (String × String) → ℕ
  total_size [] = 0
  total_size ((k, v) ∷ env) = st.size k + st.size v + total_size env

  -- A variable that a session may carry.
  pub record IsEntry (k v : String) : Type 0 where
    pub named : str_eq k "" ≡ false
    pub valid_key : st.is_valid k ≡ true
    pub valid_value : st.is_valid v ≡ true
    pub no_nul : st.has_nul k || st.has_nul v ≡ false
    pub no_equals : st.has_equals k ≡ false
    pub key_fits : st.size k ≤ max_session_env_key_bytes
    pub value_fits : st.size v ≤ max_session_env_value_bytes

  accepted-IsEntry : (k v : String) → validate_session_env_entry st k v ≡ none → IsEntry k v
  unfolding validate_session_env_entry
  accepted-IsEntry k v h = record {
    named = ground arith;
    valid_key = ground arith;
    valid_value = ground arith;
    no_nul = ground arith;
    no_equals = ground arith;
    key_fits = ground arith;
    value_fits = ground arith;
  }

  accepts_entry : (k v : String) → IsEntry k v → validate_session_env_entry st k v ≡ none
  unfolding validate_session_env_entry
  accepts_entry k v e =
      ground (
        arith, e.named, e.valid_key, e.valid_value, e.no_nul, e.no_equals, e.key_fits, e.value_fits,
      )
