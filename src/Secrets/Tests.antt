-- ===== src/Secrets/Tests.antt =====
-- The theorems on secrets encryption at concrete inputs.
use k8e.Common.{String, ◌≡◌, refl, true, false, none, some, List, [], ◌∷◌, map}
use k8e.Secrets.Cluster.{
  start, rotate, reencrypt_finished, Key, Provider, aescbc, Cipher, plain, sealed, Environment,
  Result, and_then, providers_of,
}
use k8e.Secrets.Stages.{
  encryption_prepare, encryption_rotate, encryption_reencrypt, encryption_rotate_keys,
}
use k8e.Secrets.Checks.{is_stage}
use k8e.Secrets.Answers.{AnswersWell, alone}
use k8e.Secrets.Keys.{IsKept, stages-IsKept}
use k8e.Secrets.Forced.{forced_reencrypt}
use k8e.Secrets.Cycle.{rotated, rotation_lem}

abbrev key : String → Key
key name = record { name = name; secret = "c2VjcmV0" }

abbrev active_cipher : List Provider → Cipher
active_cipher (aescbc (k ∷ keys) ∷ providers) = sealed k
active_cipher providers = plain

-- The API server encrypts with the first provider.
abbrev environment : Environment
environment = record {
  node_name = "server-0";
  hash = λ providers. "4f2a";
  lists_nodes = true;
  writes_config = λ providers. true;
  updates_node = λ stage. true;
  writes_hash = λ stage. true;
  new_key = some (key "aescbckey-2");
  rewrite = λ providers secrets. (map (λ s. active_cipher providers) secrets, true);
  supports_rotate_keys = true;
  reads_metrics = true;
  reloads = true;
  saves = true;
}

environment-AnswersWell : AnswersWell environment (key "aescbckey-2")
environment-AnswersWell = record {
  lists = refl;
  writes = λ providers. refl;
  updates = λ stage. refl;
  hashes = λ stage. refl;
  draws = refl;
  rewrites = λ providers secrets. refl;
  supports = refl;
  reads = refl;
  reload = refl;
  save = refl;
}

abbrev secrets : List Cipher
secrets = plain ∷ sealed (key "aescbckey-1") ∷ []

rotation_lem_example :
    let c = alone environment start (key "aescbckey-1" ∷ []) secrets in
    let last : Result =
      (rotated environment (key "aescbckey-2") (key "aescbckey-1") [] secrets, none) in
    (and_then (encryption_prepare environment false c) (λ c'.
        and_then
          (encryption_rotate environment false c')
          (encryption_reencrypt environment false false))
      ≡ last)
    × (encryption_rotate_keys environment c ≡ last)
unfolding is_stage
rotation_lem_example =
    rotation_lem environment (key "aescbckey-2") start (key "aescbckey-1") [] secrets
      environment-AnswersWell refl

forced_reencrypt_example :
    encryption_reencrypt environment true false
      (alone environment start (key "aescbckey-1" ∷ []) secrets)
    ≡ (
      alone environment reencrypt_finished [] (map (λ s. sealed (key "aescbckey-1")) secrets),
      none,
    )
unfolding providers_of
forced_reencrypt_example =
    forced_reencrypt environment (key "aescbckey-2") (key "aescbckey-1") start secrets
      environment-AnswersWell

-- The node cannot be annotated.
abbrev broken : Environment
broken = record environment { updates_node = λ stage. false }

stages-IsKept_example :
    let c = alone broken rotate (key "aescbckey-1" ∷ key "aescbckey-0" ∷ []) secrets in
    IsKept (key "aescbckey-1" ∷ key "aescbckey-0" ∷ []) secrets (encryption_prepare broken true c).0
    × IsKept
        (key "aescbckey-1" ∷ key "aescbckey-0" ∷ [])
        secrets
        (encryption_rotate broken true c).0
stages-IsKept_example =
    stages-IsKept broken true (key "aescbckey-1" ∷ key "aescbckey-0" ∷ [])
      (alone broken rotate (key "aescbckey-1" ∷ key "aescbckey-0" ∷ []) secrets) refl
