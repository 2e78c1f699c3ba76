-- ===== src/Secrets/Steps.antt =====
-- What each step of a stage does on one control-plane node when the environment answers well.
use text.Mathlib.TextPositions.{eq_refl as text_refl}
use k8e.Common.{◌≡◌, refl, ap, ◌∙◌, inr, true, false, Option, none, some, List, [], ◌∷◌, ◌++◌}
use k8e.Secrets.Cluster.{
  Stage, prepare, rotate, reencrypt_active, reencrypt_finished, Key, Annotation, staged, Cipher,
  Cluster, Environment, Result, and_then, with_value, check, encryption_keys, provider_keys,
  add_keys, write_encryption_config, write_hash_annotation, annotate, providers_of,
}
use k8e.Secrets.Stages.{
  encryption_hash_annotation, verify_encryption_hash_annotation, guarded, append_new_encryption_key,
  commit_stage, add_key, rotate_last_key, update_secrets, remove_last_key, add_and_rotate_keys,
}
use k8e.Secrets.Checks.{
  is_stage, all_annotated, same_annotations, find_node, split_annotation, verify_stage, but_last,
  right_rotate, all_but_last,
}
use k8e.Secrets.Answers.{
  AnswersWell, alone, and_then_lem, append-nil, right_rotate-append, with_value_lem,
}

-- The cluster between two writes: the configuration and the annotation may differ.
abbrev pub one_node :
    Environment → List Key → Option Annotation → Annotation → List Cipher → Cluster
one_node env ks file ann secrets = record {
  config = some (providers_of ks true);
  hash_file = file;
  nodes = record { name = env.node_name; annotation = some ann } ∷ [];
  secrets = secrets;
}

module _ (env : Environment) (new : Key) (w : AnswersWell env new) (secrets : List Cipher) where
  pub keys_lem :
      (ks : List Key) (file : Option Annotation) (ann : Annotation)
      → encryption_keys false (one_node env ks file ann secrets) ≡ inr ks
  unfolding encryption_keys provider_keys add_keys providers_of
  keys_lem ks file ann = ap inr (append-nil ks)

  found_lem :
      (stage : Stage) (ks : List Key)
      → find_node env.node_name (alone env stage ks secrets).nodes
        ≡ some (record {
          name = env.node_name;
          annotation = some (staged stage (env.hash (providers_of ks true)));
        })
  unfolding find_node
  found_lem stage ks = simp (text_refl env.node_name)

  annotation_lem :
      (stage : Stage) (ks : List Key)
      → encryption_hash_annotation env (alone env stage ks secrets)
        ≡ inr (stage, env.hash (providers_of ks true))
  unfolding encryption_hash_annotation split_annotation
  annotation_lem stage ks = rw (found_lem stage ks, encryption_hash_annotation) refl

  verify_lem :
      (p : Stage) (ps : List Stage) (stage : Stage) (ks : List Key)
      → is_stage stage (p ∷ ps) ≡ true
      → verify_encryption_hash_annotation env (p ∷ ps) (alone env stage ks secrets) ≡ none
  unfolding verify_encryption_hash_annotation verify_stage same_annotations all_annotated
  verify_lem p ps stage ks e =
      simp (w.lists, annotation_lem stage ks)
        (simp (e, text_refl (env.hash (providers_of ks true))))

  write_lem :
      (ks : List Key) (c : Cluster)
      → write_encryption_config env ks true c
        ≡ (record c { config = some (providers_of ks true) }, none)
  unfolding write_encryption_config
  write_lem ks c = simp (w.writes (providers_of ks true))

  annotate_lem :
      (stage : Stage) (ks : List Key) (file : Option Annotation) (ann : Annotation)
      → write_hash_annotation env false stage (one_node env ks file ann secrets)
        ≡ (alone env stage ks secrets, none)
  unfolding write_hash_annotation annotate
  annotate_lem stage ks file ann = simp (w.updates stage, w.hashes stage, text_refl env.node_name)

  pub guarded_lem :
      (p : Stage) (ps : List Stage) (stage : Stage) (ks : List Key) (go : Cluster → Result)
      → is_stage stage (p ∷ ps) ≡ true
      → guarded env (p ∷ ps) false (alone env stage ks secrets) go ≡ go (alone env stage ks secrets)
  unfolding guarded
  guarded_lem p ps stage ks go e = rw (verify_lem p ps stage ks e, guarded) refl

  pub save_lem : (c : Cluster) → check env.saves c ≡ (c, none)
  save_lem c = rw w.save refl

  pub commit_lem :
      (stage : Stage) (old ks : List Key) (file : Option Annotation) (ann : Annotation)
      → commit_stage env stage ks (one_node env old file ann secrets)
        ≡ (alone env stage ks secrets, none)
  unfolding commit_stage and_then
  commit_lem stage old ks file ann =
      ap
        (λ r.
          and_then r
            (λ c. and_then (write_hash_annotation env false stage c) (λ c. check env.saves c)))
        (write_lem ks (one_node env old file ann secrets))
      ∙ ap (λ r. and_then r (λ c. check env.saves c)) (annotate_lem stage ks file ann)
      ∙ save_lem (alone env stage ks secrets)

  draw_lem : (ks : List Key) → append_new_encryption_key env ks ≡ inr (ks ++ new ∷ [])
  unfolding append_new_encryption_key
  draw_lem ks = rw (w.draws, append_new_encryption_key) refl

  keys_at :
      (stage : Stage) (ks : List Key) → encryption_keys false (alone env stage ks secrets) ≡ inr ks
  keys_at stage ks =
      keys_lem ks (some (staged stage (env.hash (providers_of ks true))))
        (staged stage (env.hash (providers_of ks true)))

  pub add_lem :
      (stage : Stage) (ks : List Key)
      → add_key env (alone env stage ks secrets)
        ≡ (alone env prepare (ks ++ new ∷ []) secrets, none)
  unfolding add_key
  add_lem stage ks =
      let c = alone env stage ks secrets in
      with_value_lem c (encryption_keys false c) ks
        (λ keys.
          with_value c (append_new_encryption_key env keys)
            (λ new_keys. commit_stage env prepare new_keys c))
        (keys_at stage ks)
      ∙ with_value_lem c (append_new_encryption_key env ks) (ks ++ new ∷ [])
          (λ new_keys. commit_stage env prepare new_keys c) (draw_lem ks)
      ∙ commit_lem prepare ks (ks ++ new ∷ []) _ _

  pub rotate_lem :
      (stage : Stage) (k : Key) (ks : List Key)
      → rotate_last_key env (alone env stage (k ∷ ks ++ new ∷ []) secrets)
        ≡ (alone env rotate (new ∷ k ∷ ks) secrets, none)
  unfolding rotate_last_key
  rotate_lem stage k ks =
      let c = alone env stage (k ∷ ks ++ new ∷ []) secrets in
      with_value_lem c (encryption_keys false c) (k ∷ ks ++ new ∷ [])
        (λ keys. with_value c (right_rotate keys) (λ rotated. commit_stage env rotate rotated c))
        (keys_at stage (k ∷ ks ++ new ∷ []))
      ∙ with_value_lem c (right_rotate (k ∷ ks ++ new ∷ [])) (new ∷ k ∷ ks)
          (λ rotated. commit_stage env rotate rotated c) (right_rotate-append k new ks)
      ∙ commit_lem rotate (k ∷ ks ++ new ∷ []) (new ∷ k ∷ ks) _ _

  pub remove_lem :
      (j k : Key) (ks : List Key) (file : Option Annotation) (ann : Annotation)
      → remove_last_key env (one_node env (j ∷ k ∷ ks) file ann secrets)
        ≡ (alone env reencrypt_finished (j ∷ but_last k ks) secrets, none)
  unfolding remove_last_key all_but_last but_last
  remove_lem j k ks file ann =
      let c = one_node env (j ∷ k ∷ ks) file ann secrets in
      with_value_lem c (encryption_keys false c) (j ∷ k ∷ ks)
        (λ keys.
          with_value c (all_but_last keys) (λ kept. commit_stage env reencrypt_finished kept c))
        (keys_lem (j ∷ k ∷ ks) file ann)
      ∙ with_value_lem c (all_but_last (j ∷ k ∷ ks)) (j ∷ but_last k ks)
          (λ kept. commit_stage env reencrypt_finished kept c) refl
      ∙ commit_lem reencrypt_finished (j ∷ k ∷ ks) (j ∷ but_last k ks) file ann

  pub active_lem :
      (ks : List Key) (file : Option Annotation) (ann : Annotation)
      → write_hash_annotation env true reencrypt_active (one_node env ks file ann secrets) ≡ (
        one_node env ks file (staged reencrypt_active (env.hash (providers_of ks true))) secrets,
        none,
      )
  unfolding write_hash_annotation annotate
  active_lem ks file ann = simp (w.updates reencrypt_active, text_refl env.node_name)

  pub update_lem :
      (ks : List Key) (file : Option Annotation) (ann : Annotation)
      → update_secrets env (one_node env ks file ann secrets)
        ≡ (one_node env ks file ann (env.rewrite (providers_of ks true) secrets).0, none)
  unfolding update_secrets
  update_lem ks file ann = simp (w.rewrites (providers_of ks true) secrets)

  pub add_and_rotate_lem :
      (k : Key) (ks : List Key) (file : Option Annotation) (ann : Annotation)
      → add_and_rotate_keys env (one_node env (k ∷ ks) file ann secrets)
        ≡ (one_node env (new ∷ k ∷ ks) file ann secrets, none)
  unfolding add_and_rotate_keys
  add_and_rotate_lem k ks file ann =
      let c = one_node env (k ∷ ks) file ann secrets in
      let d = one_node env (k ∷ ks ++ new ∷ []) file ann secrets in
      let last : List Key → Cluster → Result = λ new_keys c.
        with_value c (right_rotate new_keys)
          (λ rotated. write_encryption_config env rotated true c) in
      let go : List Key → Result =
        λ new_keys. and_then (write_encryption_config env new_keys true c) (last new_keys) in
      with_value_lem c (encryption_keys false c) (k ∷ ks)
        (λ keys. with_value c (append_new_encryption_key env keys) go) (keys_lem (k ∷ ks) file ann)
      ∙ with_value_lem c (append_new_encryption_key env (k ∷ ks)) (k ∷ ks ++ new ∷ []) go
          (draw_lem (k ∷ ks))
      ∙ and_then_lem (write_encryption_config env (k ∷ ks ++ new ∷ []) true c) d
          (last (k ∷ ks ++ new ∷ [])) (write_lem (k ∷ ks ++ new ∷ []) c)
      ∙ with_value_lem d (right_rotate (k ∷ ks ++ new ∷ [])) (new ∷ k ∷ ks)
          (λ rotated. write_encryption_config env rotated true d) (right_rotate-append k new ks)
      ∙ write_lem (new ∷ k ∷ ks) d
