-- ===== src/Secrets/Forced.antt =====
-- What `force` lets through.
use k8e.Common.{
  ◌≡◌, refl, ◌∙◌, inl, inr, true, false, Option, none, some, List, [], ◌∷◌, Option-cases,
}
use k8e.Secrets.Cluster.{
  Stage, rotate, reencrypt_active, reencrypt_finished, Key, Annotation, staged, Cipher, Cluster,
  Environment, Result, with_value, encryption_keys, write_hash_annotation, providers_of,
}
use k8e.Secrets.Stages.{
  verify_encryption_hash_annotation, guarded, commit_stage, update_secrets, remove_last_key,
  reencrypt_and_remove_key, start_reencrypt, encryption_reencrypt,
}
use k8e.Secrets.Checks.{but_last, all_but_last}
use k8e.Secrets.Steps.{one_node, keys_lem, commit_lem, active_lem, update_lem}
use k8e.Secrets.Answers.{AnswersWell, alone, with_value_lem, and_then_lem}

forced_lem :
    (env : Environment) (prev : List Stage) (c : Cluster) (go : Cluster → Result)
    → guarded env prev true c go ≡ go c
unfolding guarded
forced_lem env prev c go = elim (Option-cases (verify_encryption_hash_annotation env prev c)) [
  | inl e ↦ rw (e, guarded) refl
  | inr e ↦ rw (e.1, guarded) refl
]

module _ (env : Environment) (new : Key) (w : AnswersWell env new) (k : Key) where
  remove_only_lem :
      (secrets : List Cipher) (file : Option Annotation) (ann : Annotation)
      → remove_last_key env (one_node env (k ∷ []) file ann secrets)
        ≡ (alone env reencrypt_finished [] secrets, none)
  unfolding remove_last_key all_but_last but_last
  remove_only_lem secrets file ann =
      let c = one_node env (k ∷ []) file ann secrets in
      with_value_lem c (encryption_keys false c) (k ∷ [])
        (λ keys.
          with_value c (all_but_last keys) (λ kept. commit_stage env reencrypt_finished kept c))
        (keys_lem env new w secrets (k ∷ []) file ann)
      ∙ with_value_lem c (all_but_last (k ∷ [])) []
          (λ kept. commit_stage env reencrypt_finished kept c) refl
      ∙ commit_lem env new w secrets reencrypt_finished (k ∷ []) [] file ann

-- On one control-plane node with encryption enabled under a single key, at any stage, and when the
-- environment answers well: a forced reencrypt stores every secret again under that key, succeeds,
-- and leaves a configuration without any key.
pub forced_reencrypt :
    (env : Environment) (new k : Key) (stage : Stage) (secrets : List Cipher)
    → AnswersWell env new
    → encryption_reencrypt env true false (alone env stage (k ∷ []) secrets)
      ≡ (alone env reencrypt_finished [] (env.rewrite (providers_of (k ∷ []) true) secrets).0, none)
unfolding encryption_reencrypt start_reencrypt reencrypt_and_remove_key
forced_reencrypt env new k stage secrets w =
    let mark = staged stage (env.hash (providers_of (k ∷ []) true)) in
    let active = staged reencrypt_active (env.hash (providers_of (k ∷ []) true)) in
    let stored = (env.rewrite (providers_of (k ∷ []) true) secrets).0 in
    let c = alone env stage (k ∷ []) secrets in
    let marked = one_node env (k ∷ []) (some mark) active secrets in
    forced_lem env (rotate ∷ []) c (start_reencrypt env false)
    ∙ and_then_lem (write_hash_annotation env true reencrypt_active c) marked
        (reencrypt_and_remove_key env false)
        (active_lem env new w secrets (k ∷ []) (some mark) mark)
    ∙ and_then_lem (update_secrets env marked) (one_node env (k ∷ []) (some mark) active stored)
        (remove_last_key env) (update_lem env new w secrets (k ∷ []) (some mark) active)
    ∙ remove_only_lem env new w k stored (some mark) active
