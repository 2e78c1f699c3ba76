-- ===== src/Secrets/Answers.antt =====
-- The environment that answers well, one node, and the keys of its configuration.
use k8e.Common.{◌≡◌, refl, ap, ◌⊎◌, inr, true, none, some, List, [], ◌∷◌, ◌++◌}
use k8e.Secrets.Cluster.{
  Stage, Key, Provider, staged, Cipher, Cluster, Failure, Environment, Result, and_then, with_value,
  providers_of,
}
use k8e.Secrets.Checks.{last_of, but_last, right_rotate}

-- The environment answers well, and every secret can be stored again.
pub record AnswersWell (env : Environment) (new : Key) : Type 0 where
  pub lists : env.lists_nodes ≡ true
  pub writes : (ps : List Provider) → env.writes_config ps ≡ true
  pub updates : (s : Stage) → env.updates_node s ≡ true
  pub hashes : (s : Stage) → env.writes_hash s ≡ true
  pub draws : env.new_key ≡ some new
  pub rewrites : (ps : List Provider) (cs : List Cipher) → (env.rewrite ps cs).1 ≡ true
  pub supports : env.supports_rotate_keys ≡ true
  pub reads : env.reads_metrics ≡ true
  pub reload : env.reloads ≡ true
  pub save : env.saves ≡ true

-- One node, at a stage, with encryption enabled under the keys.
abbrev pub alone : Environment → Stage → List Key → List Cipher → Cluster
alone env stage keys secrets = record {
  config = some (providers_of keys true);
  hash_file = some (staged stage (env.hash (providers_of keys true)));
  nodes =
      record {
        name = env.node_name;
        annotation = some (staged stage (env.hash (providers_of keys true)));
      }
      ∷ [];
  secrets = secrets;
}

pub last_of-append : (k new : Key) (keys : List Key) → last_of k (keys ++ new ∷ []) ≡ new
unfolding last_of
last_of-append k new [] = refl
last_of-append k new (j ∷ keys) = last_of-append j new keys

pub but_last-append : (k new : Key) (keys : List Key) → but_last k (keys ++ new ∷ []) ≡ k ∷ keys
unfolding but_last
but_last-append k new [] = refl
but_last-append k new (j ∷ keys) = rw (but_last-append j new keys) refl

pub right_rotate-append :
    (k new : Key) (keys : List Key) → right_rotate (k ∷ keys ++ new ∷ []) ≡ inr (new ∷ k ∷ keys)
unfolding right_rotate
right_rotate-append k new keys = rw (last_of-append k new keys, but_last-append k new keys) refl

pub append-nil : (keys : List Key) → keys ++ [] ≡ keys
append-nil [] = refl
append-nil (k ∷ keys) = rw (append-nil keys) refl

pub with_value_lem {ℓ} :
    {A : Type ℓ} (c : Cluster) (v : Failure ⊎ A) (a : A) (f : A → Result)
    → v ≡ inr a
    → with_value c v f ≡ f a
unfolding with_value
with_value_lem c v a f e = rw (e, with_value) refl

pub and_then_lem :
    (r : Result) (c : Cluster) (f : Cluster → Result) → r ≡ (c, none) → and_then r f ≡ f c
unfolding and_then
and_then_lem r c f e = ap (λ x. and_then x f) e
