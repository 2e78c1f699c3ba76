-- ===== src/Secrets/Stages.antt =====
-- The stages of pkg/server/secrets-encrypt.go: prepare, rotate, reencrypt, rotate-keys, enable, and
-- what the handler does with a request.
use k8e.Common.{
  String, ◌⊎◌, inl, inr, Bool, true, false, not, Option, none, some, List, [], ◌∷◌, ◌++◌, ltb,
  if◌then◌else◌, length,
}
use k8e.Secrets.Cluster.{
  Stage, start, prepare, rotate, reencrypt_active, reencrypt_finished, Key, Provider, Node, Cluster,
  Failure, Environment, Result, and_then, with_value, check, encryption_providers, encryption_keys,
  write_encryption_config, write_hash_annotation, annotate,
}
use k8e.Secrets.Checks.{
  all_but_last, find_node, right_rotate, same_annotations, split_annotation, verify_stage,
}

module _ (env : Environment) where
  -- getEncryptionHashAnnotation
  unfoldable pub encryption_hash_annotation : Cluster → Failure ⊎ (Stage × String)
  unfolding find_node split_annotation
  encryption_hash_annotation c = elim (find_node env.node_name c.nodes) [
    | none ↦ inl Failure.not_control_plane
    | some n ↦ split_annotation n.annotation
  ]

  -- verifyEncryptionHashAnnotation
  unfoldable pub verify_encryption_hash_annotation : List Stage → Cluster → Option Failure
  unfolding same_annotations verify_stage encryption_hash_annotation
  verify_encryption_hash_annotation prev c =
      let verdict = verify_stage env prev c.config (encryption_hash_annotation c) in
      if not env.lists_nodes
      then some Failure.unavailable
      else if not (same_annotations c.nodes)
      then some Failure.hash_mismatch
      else elim prev [ [] ↦ none | s ∷ stages ↦ verdict ]

  -- The verification at the start of a stage; `force` overrules it.
  unfoldable pub guarded : List Stage → Bool → Cluster → (Cluster → Result) → Result
  unfolding verify_encryption_hash_annotation
  guarded prev force c go = elim (verify_encryption_hash_annotation prev c) [
    | none ↦ go c
    | some e ↦ if force then go c else (c, some e)
  ]

  -- AppendNewEncryptionKey
  unfoldable pub append_new_encryption_key : List Key → Failure ⊎ List Key
  append_new_encryption_key keys = elim env.new_key [
    | none ↦ inl Failure.unavailable
    | some k ↦ inr (keys ++ k ∷ [])
  ]

  -- The keys are written with the annotation of the stage, and the cluster's state is saved.
  unfoldable pub commit_stage : Stage → List Key → Cluster → Result
  unfolding and_then write_encryption_config write_hash_annotation
  commit_stage stage keys c =
      and_then (write_encryption_config env keys true c)
        (λ c. and_then (write_hash_annotation env false stage c) (λ c. check env.saves c))

  -- encryptionPrepare after its verification
  unfoldable pub add_key : Cluster → Result
  unfolding with_value encryption_keys append_new_encryption_key commit_stage
  add_key c = with_value c (encryption_keys false c) (λ keys.
      with_value c (append_new_encryption_key keys) (λ new_keys. commit_stage prepare new_keys c))

  -- encryptionPrepare
  unfoldable pub encryption_prepare : Bool → Cluster → Result
  unfolding guarded add_key
  encryption_prepare force c = guarded (start ∷ reencrypt_finished ∷ []) force c add_key

  -- encryptionRotate after its verification
  unfoldable pub rotate_last_key : Cluster → Result
  unfolding with_value encryption_keys right_rotate commit_stage
  rotate_last_key c = with_value c (encryption_keys false c) (λ keys.
      with_value c (right_rotate keys) (λ rotated_keys. commit_stage rotate rotated_keys c))

  -- encryptionRotate
  unfoldable pub encryption_rotate : Bool → Cluster → Result
  unfolding guarded rotate_last_key
  encryption_rotate force c = guarded (prepare ∷ []) force c rotate_last_key

  -- updateSecrets: the API server stores every secret again.
  unfoldable pub update_secrets : Cluster → Result
  update_secrets c = elim c.config [
    | none ↦ (c, some Failure.no_config)
    | some providers ↦
        let (secrets, done) = env.rewrite providers c.secrets in
        (record c { secrets = secrets }, if done then none else some Failure.unavailable)
  ]

  -- The annotation that is persisted is put back. A missing hash file is ignored.
  unfoldable pub revert_annotation : Cluster → Result
  revert_annotation c =
      let nodes : List Node = elim c.hash_file [
        | none ↦ c.nodes
        | some ann ↦ annotate env ann c.nodes
      ] in
      if env.updates_node reencrypt_finished
      then (record c { nodes = nodes }, none)
      else (c, some Failure.unavailable)

  -- The second half of reencryptAndRemoveKey, when the key is not kept.
  unfoldable pub remove_last_key : Cluster → Result
  unfolding with_value encryption_keys all_but_last commit_stage
  remove_last_key c =
      with_value c (encryption_keys false c)
        (λ keys. with_value c (all_but_last keys) (λ kept. commit_stage reencrypt_finished kept c))

  -- reencryptAndRemoveKey
  unfoldable pub reencrypt_and_remove_key : Bool → Cluster → Result
  unfolding and_then update_secrets revert_annotation remove_last_key
  reencrypt_and_remove_key skip c =
      and_then (update_secrets c) (λ c. if skip then revert_annotation c else remove_last_key c)

  -- The annotation that tells the other nodes, which is not persisted, and the rest.
  unfoldable pub start_reencrypt : Bool → Cluster → Result
  unfolding and_then write_hash_annotation reencrypt_and_remove_key
  start_reencrypt skip c =
      and_then (write_hash_annotation env true reencrypt_active c) (reencrypt_and_remove_key skip)

  -- encryptionReencrypt
  unfoldable pub encryption_reencrypt : Bool → Bool → Cluster → Result
  unfolding guarded start_reencrypt
  encryption_reencrypt force skip c = guarded (rotate ∷ []) force c (start_reencrypt skip)

  -- addAndRotateKeys
  unfoldable pub add_and_rotate_keys : Cluster → Result
  unfolding and_then with_value encryption_keys right_rotate write_encryption_config
  add_and_rotate_keys c = with_value c (encryption_keys false c) (λ keys.
      with_value c (append_new_encryption_key keys) (λ new_keys.
        and_then (write_encryption_config env new_keys true c) (λ c.
          with_value c (right_rotate new_keys)
            (λ rotated_keys. write_encryption_config env rotated_keys true c))))

  -- verifyRotateKeysSupport
  unfoldable pub check_supported : Cluster → Result
  check_supported c = (c, if env.supports_rotate_keys then none else some Failure.not_supported)

  -- encryptionRotateKeys after its verification
  unfoldable pub rotate_keys_at_once : Cluster → Result
  unfolding and_then check_supported write_hash_annotation add_and_rotate_keys
      reencrypt_and_remove_key
  rotate_keys_at_once c = and_then (check_supported c) (λ c.
      and_then (check env.reads_metrics c) (λ c.
        and_then (write_hash_annotation env true reencrypt_active c) (λ c.
          and_then (add_and_rotate_keys c)
            (λ c. and_then (check env.reloads c) (reencrypt_and_remove_key false)))))

  -- encryptionRotateKeys
  unfoldable pub encryption_rotate_keys : Cluster → Result
  unfolding guarded rotate_keys_at_once
  encryption_rotate_keys c = guarded (start ∷ reencrypt_finished ∷ []) false c rotate_keys_at_once

  -- The change between enabled and disabled, whose secrets are stored again at once.
  unfoldable pub switch_encryption : Bool → List Key → Cluster → Result
  unfolding and_then write_encryption_config reencrypt_and_remove_key
  switch_encryption enable keys c =
      and_then (write_encryption_config env keys enable c)
        (λ c. and_then (check env.saves c) (λ c. reencrypt_and_remove_key true c))

  -- The branches of encryptionEnable, on the first two providers.
  unfoldable pub enable_by : Bool → List Key → Cluster → List Provider → Result
  unfolding switch_encryption
  enable_by true keys c (Provider.identity ∷ Provider.aescbc others ∷ ps) =
      switch_encryption true keys c
  enable_by false keys c (Provider.aescbc others ∷ Provider.identity ∷ ps) =
      switch_encryption false keys c
  enable_by enable keys c [] = (c, some Failure.panics)
  enable_by enable keys c (p ∷ []) = (c, some Failure.panics)
  enable_by enable keys c ps = (c, none)

  -- encryptionEnable
  unfoldable pub encryption_enable : Bool → Cluster → Result
  unfolding with_value encryption_keys enable_by
  encryption_enable enable c = with_value c (encryption_providers c) (λ providers.
      if ltb 2 (length providers)
      then (c, some Failure.too_many_providers)
      else with_value c (encryption_keys false c) (λ keys. enable_by enable keys c providers))

-- The switch of encryptionConfigHandler over a request that has been decoded.
pub record EncryptionRequest : Type 0 where
  pub stage : Option Stage
  pub enable : Option Bool
  pub force : Bool
  pub skip : Bool

unfoldable pub request_stage : Environment → EncryptionRequest → Stage → Cluster → Result
unfolding encryption_prepare encryption_rotate encryption_rotate_keys encryption_reencrypt
request_stage env req Stage.prepare c = encryption_prepare env req.force c
request_stage env req Stage.rotate c = encryption_rotate env req.force c
request_stage env req Stage.rotate_keys c = encryption_rotate_keys env c
request_stage env req Stage.reencrypt_active c = encryption_reencrypt env req.force req.skip c
request_stage env req stage c = (c, some Failure.unknown_stage)

unfoldable pub encryption_config : Environment → EncryptionRequest → Cluster → Result
unfolding request_stage encryption_enable
encryption_config env req c = elim req.stage [
  | some stage ↦ request_stage env req stage c
  | none ↦ elim req.enable [ none ↦ (c, none) | some enable ↦ encryption_enable env enable c ]
]
