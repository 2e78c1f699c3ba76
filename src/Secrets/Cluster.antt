-- ===== src/Secrets/Cluster.antt =====
-- The state that the stages of secrets encryption read and write, and the parts of
-- pkg/secretsencrypt/config.go: the configuration file, the keys, the hash annotation.
-- An annotation is `stage-hash`, which neither part's characters make ambiguous: here it is the
-- pair, or `malformed`. What the file system, the API server and the random source answer is in
-- Environment; RetryOnConflict is its last try. A nil map of annotations counts as a failed update.
use k8e.Common.{
  String, ◌⊎◌, inl, inr, Bool, true, false, not, Option, none, some, List, [], ◌∷◌, ◌++◌, str_eq,
  ltb, if◌then◌else◌, length,
}

pub data Stage : Type 0 where
  start prepare rotate rotate_keys reencrypt_request reencrypt_active reencrypt_finished : Stage

pub record Key : Type 0 where
  pub name : String
  pub secret : String

pub data Provider : Type 0 where
  identity : Provider
  aescbc : List Key → Provider
  -- AES-GCM, KMS and secretbox
  other : Provider

pub data Annotation : Type 0 where
  staged : Stage → String → Annotation
  malformed : String → Annotation

-- A control-plane node.
pub record Node : Type 0 where
  pub name : String
  pub annotation : Option Annotation

-- How a secret stands in the store: plain, or encrypted with a key.
pub data Cipher : Type 0 where
  plain : Cipher
  sealed : Key → Cipher

pub record Cluster : Type 0 where
  -- The configuration file, `none` if it is missing.
  pub config : Option (List Provider)
  -- The hash file, which holds the last stage that is persisted.
  pub hash_file : Option Annotation
  pub nodes : List Node
  pub secrets : List Cipher

pub data Failure : Type 0 where
  no_config too_many_providers non_standard_keys hash_mismatch not_control_plane : Failure
  missing_annotation invalid_annotation incorrect_stage invalid_hash unavailable : Failure
  not_supported unknown_stage unknown_configuration : Failure
  -- An index out of range.
  panics : Failure

pub record Environment : Type 0 where
  pub node_name : String
  -- SHA-256 of the file, in hex.
  pub hash : List Provider → String
  pub lists_nodes : Bool
  pub writes_config : List Provider → Bool
  pub updates_node : Stage → Bool
  pub writes_hash : Stage → Bool
  -- The new key, unless the random source fails.
  pub new_key : Option Key
  -- The pass of updateSecrets under a configuration: the secrets after it, and whether it succeeds.
  pub rewrite : List Provider → List Cipher → List Cipher × Bool
  pub supports_rotate_keys : Bool
  pub reads_metrics : Bool
  pub reloads : Bool
  pub saves : Bool

-- The state after an operation, and its error.
abbrev pub Result : Type 0
Result = Cluster × Option Failure

unfoldable pub and_then : Result → (Cluster → Result) → Result
and_then (c, some e) f = (c, some e)
and_then (c, none) f = f c

-- A value that is needed to go on.
unfoldable pub with_value {ℓ} : {A : Type ℓ} → Cluster → Failure ⊎ A → (A → Result) → Result
with_value c (inl e) f = (c, some e)
with_value c (inr a) f = f a

abbrev pub check : Bool → Cluster → Result
check answer c = (c, if answer then none else some unavailable)

-- GetEncryptionProviders
abbrev pub encryption_providers : Cluster → Failure ⊎ List Provider
encryption_providers c = elim c.config [ none ↦ inl no_config | some providers ↦ inr providers ]

abbrev pub identity_key : Key
identity_key = record { name = "identity"; secret = "identity" }

unfoldable pub add_keys : List Key → Failure ⊎ List Key → Failure ⊎ List Key
add_keys keys (inl e) = inl e
add_keys keys (inr rest) = inr (keys ++ rest)

-- The loop of GetEncryptionKeys.
unfoldable pub provider_keys : Bool → List Provider → Failure ⊎ List Key
unfolding add_keys
provider_keys include_identity [] = inr []
provider_keys include_identity (identity ∷ providers) =
    add_keys (if include_identity then identity_key ∷ [] else [])
      (provider_keys include_identity providers)
provider_keys include_identity (aescbc keys ∷ providers) =
    add_keys keys (provider_keys include_identity providers)
provider_keys include_identity (other ∷ providers) = inl non_standard_keys

-- GetEncryptionKeys
unfoldable pub encryption_keys : Bool → Cluster → Failure ⊎ List Key
unfolding provider_keys
encryption_keys include_identity c = elim c.config [
  | none ↦ inl no_config
  | some providers ↦
      if ltb 2 (length providers)
      then inl too_many_providers
      else provider_keys include_identity providers
]

-- The providers that WriteEncryptionConfig writes.
unfoldable pub providers_of : List Key → Bool → List Provider
providers_of keys true = aescbc keys ∷ identity ∷ []
providers_of keys false = identity ∷ aescbc keys ∷ []

module _ (env : Environment) where
  unfoldable pub write_encryption_config : List Key → Bool → Cluster → Result
  unfolding providers_of
  write_encryption_config keys enable c =
      if env.writes_config (providers_of keys enable)
      then (record c { config = some (providers_of keys enable) }, none)
      else (c, some unavailable)

  unfoldable pub annotate : Annotation → List Node → List Node
  annotate ann [] = []
  annotate ann (n ∷ nodes) =
      let rest = annotate ann nodes in
      if str_eq n.name env.node_name then record n { annotation = some ann } ∷ nodes else n ∷ rest

  -- WriteEncryptionHashAnnotation on this node.
  unfoldable pub write_hash_annotation : Bool → Stage → Cluster → Result
  unfolding annotate
  write_hash_annotation skip_file stage c = elim c.config [
    | none ↦ (c, some no_config)
    | some providers ↦
        let ann = Annotation.staged stage (env.hash providers) in
        let updated = record c { nodes = annotate ann c.nodes } in
        if not (env.updates_node stage)
        then (c, some unavailable)
        else if skip_file
        then (updated, none)
        else if env.writes_hash stage
        then (record updated { hash_file = some ann }, none)
        else (updated, some unavailable)
  ]
