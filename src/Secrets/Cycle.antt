-- ===== src/Secrets/Cycle.antt =====
-- A whole rotation on a cluster of one control-plane node: the three stages, and rotate-keys.
use k8e.Common.{
  ◌≡◌, refl, ap, ◌∙◌, true, false, Option, none, some, List, [], ◌∷◌, ◌++◌, if◌then◌else◌,
}
use k8e.Secrets.Cluster.{
  Stage, start, prepare, rotate, reencrypt_active, reencrypt_finished, Key, Annotation, staged,
  Cipher, Cluster, Failure, Environment, Result, and_then, check, write_hash_annotation,
  providers_of,
}
use k8e.Secrets.Stages.{
  add_key, rotate_last_key, encryption_prepare, encryption_rotate, update_secrets, remove_last_key,
  reencrypt_and_remove_key, start_reencrypt, encryption_reencrypt, add_and_rotate_keys,
  check_supported, rotate_keys_at_once, encryption_rotate_keys,
}
use k8e.Secrets.Checks.{is_stage, but_last}
use k8e.Secrets.Steps.{
  one_node, guarded_lem, add_lem, rotate_lem, remove_lem, active_lem, update_lem,
  add_and_rotate_lem,
}
use k8e.Secrets.Answers.{AnswersWell, alone, and_then_lem}

-- The state after a whole rotation: the new key is first, the oldest is gone, and every secret has
-- been stored again.
abbrev pub rotated : Environment → Key → Key → List Key → List Cipher → Cluster
rotated env new k ks secrets =
    alone env reencrypt_finished (new ∷ but_last k ks)
      (env.rewrite (providers_of (new ∷ k ∷ ks) true) secrets).0

module _ (env : Environment) (new : Key) (w : AnswersWell env new) (secrets : List Cipher) where
  reencrypt_lem :
      (k : Key) (ks : List Key) (file : Option Annotation) (ann : Annotation)
      → reencrypt_and_remove_key env false (one_node env (new ∷ k ∷ ks) file ann secrets)
        ≡ (rotated env new k ks secrets, none)
  unfolding reencrypt_and_remove_key
  reencrypt_lem k ks file ann =
      let secrets' = (env.rewrite (providers_of (new ∷ k ∷ ks) true) secrets).0 in
      and_then_lem (update_secrets env (one_node env (new ∷ k ∷ ks) file ann secrets))
        (one_node env (new ∷ k ∷ ks) file ann secrets') (remove_last_key env)
        (update_lem env new w secrets (new ∷ k ∷ ks) file ann)
      ∙ remove_lem env new w secrets' new k ks file ann

  at_once_lem :
      (stage : Stage) (k : Key) (ks : List Key)
      → rotate_keys_at_once env (alone env stage (k ∷ ks) secrets)
        ≡ (rotated env new k ks secrets, none)
  unfolding rotate_keys_at_once check_supported
  at_once_lem stage k ks =
      let c = alone env stage (k ∷ ks) secrets in
      let mark = staged stage (env.hash (providers_of (k ∷ ks) true)) in
      let active = staged reencrypt_active (env.hash (providers_of (k ∷ ks) true)) in
      let marked = one_node env (k ∷ ks) (some mark) active secrets in
      let added = one_node env (new ∷ k ∷ ks) (some mark) active secrets in
      let reload : Cluster → Result =
        λ c. and_then (check env.reloads c) (reencrypt_and_remove_key env false) in
      let add : Cluster → Result = λ c. and_then (add_and_rotate_keys env c) reload in
      let annotate : Cluster → Result =
        λ c. and_then (write_hash_annotation env true reencrypt_active c) add in
      let read : Cluster → Result = λ c. and_then (check env.reads_metrics c) annotate in
      and_then_lem (check_supported env c) c read
        (ap (λ b. (c, if b then none else some Failure.not_supported)) w.supports)
      ∙ and_then_lem (check env.reads_metrics c) c annotate (ap (λ b. check b c) w.reads)
      ∙ and_then_lem (write_hash_annotation env true reencrypt_active c) marked add
          (active_lem env new w secrets (k ∷ ks) (some mark) mark)
      ∙ and_then_lem (add_and_rotate_keys env marked) added reload
          (add_and_rotate_lem env new w secrets k ks (some mark) active)
      ∙ and_then_lem (check env.reloads added) added (reencrypt_and_remove_key env false)
          (ap (λ b. check b added) w.reload)
      ∙ reencrypt_lem k ks (some mark) active

  start_reencrypt_lem :
      (k : Key) (ks : List Key)
      → start_reencrypt env false (alone env rotate (new ∷ k ∷ ks) secrets)
        ≡ (rotated env new k ks secrets, none)
  unfolding start_reencrypt
  start_reencrypt_lem k ks =
      let mark = staged rotate (env.hash (providers_of (new ∷ k ∷ ks) true)) in
      let active = staged reencrypt_active (env.hash (providers_of (new ∷ k ∷ ks) true)) in
      and_then_lem
        (write_hash_annotation env true reencrypt_active (alone env rotate (new ∷ k ∷ ks) secrets))
        (one_node env (new ∷ k ∷ ks) (some mark) active secrets)
        (reencrypt_and_remove_key env false)
        (active_lem env new w secrets (new ∷ k ∷ ks) (some mark) mark)
      ∙ reencrypt_lem k ks (some mark) active

-- On one control-plane node that is at the start, or has finished a rotation, with encryption enabled
-- under at least one key, and when the environment answers well: prepare, rotate and reencrypt in this
-- order succeed and end with the new key first, the oldest key removed, every secret stored again under
-- the keys with the new one first, and the node at reencrypt_finished with the hash of the file;
-- rotate-keys alone ends in the same state.
pub rotation_lem :
    (env : Environment) (new : Key) (stage : Stage) (k : Key) (ks : List Key)
    (secrets : List Cipher)
    → AnswersWell env new
    → is_stage stage (start ∷ reencrypt_finished ∷ []) ≡ true
    → let c = alone env stage (k ∷ ks) secrets in
      let last : Result = (rotated env new k ks secrets, none) in
      (and_then
          (encryption_prepare env false c)
          (λ c'. and_then (encryption_rotate env false c') (encryption_reencrypt env false false))
        ≡ last)
      × (encryption_rotate_keys env c ≡ last)
unfolding encryption_prepare encryption_rotate encryption_reencrypt encryption_rotate_keys
rotation_lem env new stage k ks secrets w idle =
    let c = alone env stage (k ∷ ks) secrets in
    let c₁ = alone env prepare (k ∷ ks ++ new ∷ []) secrets in
    let c₂ = alone env rotate (new ∷ k ∷ ks) secrets in
    let then_rotate : Cluster → Result =
      λ c'. and_then (encryption_rotate env false c') (encryption_reencrypt env false false) in
    (
      and_then_lem (encryption_prepare env false c) c₁ then_rotate (
            guarded_lem env new w secrets start (reencrypt_finished ∷ []) stage (k ∷ ks)
              (add_key env) idle
            ∙ add_lem env new w secrets stage (k ∷ ks))
          ∙ and_then_lem (encryption_rotate env false c₁) c₂ (encryption_reencrypt env false false)
              (guarded_lem env new w secrets prepare [] prepare (k ∷ ks ++ new ∷ [])
                  (rotate_last_key env) refl
                ∙ rotate_lem env new w secrets prepare k ks)
          ∙ guarded_lem env new w secrets rotate [] rotate (new ∷ k ∷ ks)
              (start_reencrypt env false) refl
          ∙ start_reencrypt_lem env new w secrets k ks,
      guarded_lem env new w secrets start (reencrypt_finished ∷ []) stage (k ∷ ks)
            (rotate_keys_at_once env) idle
          ∙ at_once_lem env new w secrets stage k ks,
    )
