-- ===== src/Secrets/Keys.antt =====
-- No key is lost before the last stage, whatever fails on the way.
use k8e.Common.{
  ◌≡◌, refl, sym, ◌∙◌, ◌⊎◌, inl, inr, Bool, true, false, ◌&&◌, ◌||◌, none, some, List, [], ◌∷◌,
  ◌++◌, arith, str_eq, Bool-cases, Option-cases,
}
use k8e.Secrets.Cluster.{
  Stage, start, prepare, rotate, reencrypt_finished, Key, Cipher, Cluster, Failure, Environment,
  Result, and_then, with_value, encryption_keys, provider_keys, add_keys, write_encryption_config,
  write_hash_annotation, providers_of,
}
use k8e.Secrets.Stages.{
  verify_encryption_hash_annotation, guarded, append_new_encryption_key, commit_stage, add_key,
  rotate_last_key, encryption_prepare, encryption_rotate,
}
use k8e.Secrets.Checks.{last_of, but_last, right_rotate}
use k8e.Secrets.Answers.{append-nil}

abbrev pub eq_key : Key → Key → Bool
eq_key j k = str_eq j.name k.name && str_eq j.secret k.secret

unfoldable pub has_key : Key → List Key → Bool
has_key j [] = false
has_key j (k ∷ keys) = eq_key k j || has_key j keys

has_key-append : (j : Key) (xs ys : List Key) → has_key j (xs ++ ys) ≡ has_key j xs || has_key j ys
unfolding has_key
has_key-append j [] ys = refl
has_key-append j (x ∷ xs) ys = ground (arith, has_key-append j xs ys)

has_key-but_last :
    (j k : Key) (ks : List Key) → has_key j (last_of k ks ∷ but_last k ks) ≡ has_key j (k ∷ ks)
unfolding has_key last_of but_last
has_key-but_last j k [] = refl
has_key-but_last j k (i ∷ ks) = ground (arith, has_key-but_last j i ks)

-- Encryption stays enabled with at least the keys that there were, and no secret is stored anew.
pub record IsKept (keys : List Key) (secrets : List Cipher) (c : Cluster) : Type 0 where
  pub now : List Key
  pub enabled : c.config ≡ some (providers_of now true)
  pub kept : (j : Key) → has_key j keys ≡ true → has_key j now ≡ true
  pub untouched : c.secrets ≡ secrets

rotated_has :
    (j : Key) (keys new : List Key)
    → right_rotate keys ≡ inr new
    → has_key j keys ≡ true
    → has_key j new ≡ true
unfolding right_rotate
rotated_has j [] new e h = cc
rotated_has j (k ∷ keys) new e h =
    let same : last_of k keys ∷ but_last k keys ≡ new = cc in
    rw (sym same) (has_key-but_last j k keys ∙ h)

and_then-IsKept :
    (keys : List Key) (secrets : List Cipher) (r : Result) (f : Cluster → Result)
    → IsKept keys secrets r.0
    → ((c : Cluster) → IsKept keys secrets c → IsKept keys secrets (f c).0)
    → IsKept keys secrets (and_then r f).0
unfolding and_then
and_then-IsKept keys secrets (c, some e) f h step = h
and_then-IsKept keys secrets (c, none) f h step = step c h

with_value-IsKept {ℓ} :
    {A : Type ℓ} (keys : List Key) (secrets : List Cipher) (c : Cluster) (v : Failure ⊎ A)
    (f : A → Result)
    → IsKept keys secrets c
    → ((a : A) → v ≡ inr a → IsKept keys secrets (f a).0)
    → IsKept keys secrets (with_value c v f).0
unfolding with_value
with_value-IsKept keys secrets c (inl e) f h step = h
with_value-IsKept keys secrets c (inr a) f h step = step a refl

-- What the enabled configuration yields.
read_lem :
    (keys found : List Key) (c : Cluster)
    → c.config ≡ some (providers_of keys true)
    → encryption_keys false c ≡ inr found
    → keys ≡ found
unfolding encryption_keys provider_keys add_keys providers_of
read_lem keys found c e h =
    let same : encryption_keys false c ≡ inr (keys ++ []) = rw (e, encryption_keys) refl in
    let plain = append-nil keys in cc

module _ (env : Environment) where
  annotated-config :
      (skip : Bool) (stage : Stage) (c : Cluster)
      → ((write_hash_annotation env skip stage c).0.config ≡ c.config)
        × ((write_hash_annotation env skip stage c).0.secrets ≡ c.secrets)
  unfolding write_hash_annotation
  annotated-config skip stage c = elim (Option-cases c.config) [
    | inl e ↦ (ground arith, ground arith)
    | inr e ↦ (ground arith, ground arith)
  ]

  write-IsKept :
      (keys new : List Key) (secrets : List Cipher) (c : Cluster)
      → IsKept keys secrets c
      → ((j : Key) → has_key j keys ≡ true → has_key j new ≡ true)
      → IsKept keys secrets (write_encryption_config env new true c).0
  unfolding write_encryption_config
  write-IsKept keys new secrets c h more =
      elim (Bool-cases (env.writes_config (providers_of new true))) [
        | inl e ↦
            rw (e, write_encryption_config)
              (record { now = new; enabled = refl; kept = more; untouched = h.untouched })
        | inr e ↦ rw (e, write_encryption_config) h
      ]

  annotate-IsKept :
      (skip : Bool) (stage : Stage) (keys : List Key) (secrets : List Cipher) (c : Cluster)
      → IsKept keys secrets c
      → IsKept keys secrets (write_hash_annotation env skip stage c).0
  annotate-IsKept skip stage keys secrets c h =
      let same = annotated-config skip stage c in
      record {
        now = h.now;
        enabled = same.0 ∙ h.enabled;
        kept = h.kept;
        untouched = same.1 ∙ h.untouched;
      }

  commit-IsKept :
      (stage : Stage) (keys new : List Key) (secrets : List Cipher) (c : Cluster)
      → IsKept keys secrets c
      → ((j : Key) → has_key j keys ≡ true → has_key j new ≡ true)
      → IsKept keys secrets (commit_stage env stage new c).0
  unfolding commit_stage
  commit-IsKept stage keys new secrets c h more =
      and_then-IsKept keys secrets (write_encryption_config env new true c) _
        (write-IsKept keys new secrets c h more)
        (λ c' h'.
          and_then-IsKept keys secrets (write_hash_annotation env false stage c') _
            (annotate-IsKept false stage keys secrets c' h') (λ c'' h''. h''))

  added_has :
      (j : Key) (keys new : List Key)
      → append_new_encryption_key env keys ≡ inr new
      → has_key j keys ≡ true
      → has_key j new ≡ true
  unfolding append_new_encryption_key
  added_has j keys new e h = elim (Option-cases env.new_key) [
    | inl f ↦
        let same : append_new_encryption_key env keys ≡ inl Failure.unavailable =
          rw (f, append_new_encryption_key) refl in
        cc
    | inr f ↦
        let same : append_new_encryption_key env keys ≡ inr (keys ++ f.0 ∷ []) =
          rw (f.1, append_new_encryption_key) refl in
        let equal : keys ++ f.0 ∷ [] ≡ new = cc in
        rw (sym equal, has_key-append j keys (f.0 ∷ []), h) refl
  ]

  add_key-IsKept :
      (keys : List Key) (secrets : List Cipher) (c : Cluster)
      → IsKept keys secrets c
      → IsKept keys secrets (add_key env c).0
  unfolding add_key append_new_encryption_key
  add_key-IsKept keys secrets c h =
      with_value-IsKept keys secrets c (encryption_keys false c) _ h (λ found e.
        with_value-IsKept keys secrets c (append_new_encryption_key env found) _ h (λ new f.
          commit-IsKept prepare keys new secrets c h (λ j has.
            added_has j found new f
              (rw (sym (read_lem h.now found c h.enabled e)) (h.kept j has)))))

  rotate_last_key-IsKept :
      (keys : List Key) (secrets : List Cipher) (c : Cluster)
      → IsKept keys secrets c
      → IsKept keys secrets (rotate_last_key env c).0
  unfolding rotate_last_key
  rotate_last_key-IsKept keys secrets c h =
      with_value-IsKept keys secrets c (encryption_keys false c) _ h (λ found e.
        with_value-IsKept keys secrets c (right_rotate found) _ h (λ new f.
          commit-IsKept rotate keys new secrets c h (λ j has.
            rotated_has j found new f
              (rw (sym (read_lem h.now found c h.enabled e)) (h.kept j has)))))

  guarded-IsKept :
      (prev : List Stage) (force : Bool) (keys : List Key) (secrets : List Cipher) (c : Cluster)
      (go : Cluster → Result)
      → IsKept keys secrets c
      → IsKept keys secrets (go c).0
      → IsKept keys secrets (guarded env prev force c go).0
  unfolding guarded
  guarded-IsKept prev true keys secrets c go h k =
      elim (Option-cases (verify_encryption_hash_annotation env prev c)) [
        | inl e ↦ rw (e, guarded) k
        | inr e ↦ rw (e.1, guarded) k
      ]
  guarded-IsKept prev false keys secrets c go h k =
      elim (Option-cases (verify_encryption_hash_annotation env prev c)) [
        | inl e ↦ rw (e, guarded) k
        | inr e ↦ rw (e.1, guarded) h
      ]

-- On a cluster with encryption enabled under some keys, prepare and rotate, forced or not and whatever
-- the environment answers, leave encryption enabled with at least these keys, and do not touch the
-- stored secrets.
pub stages-IsKept :
    (env : Environment) (force : Bool) (keys : List Key) (c : Cluster)
    → c.config ≡ some (providers_of keys true)
    → IsKept keys c.secrets (encryption_prepare env force c).0
      × IsKept keys c.secrets (encryption_rotate env force c).0
unfolding encryption_prepare encryption_rotate
stages-IsKept env force keys c e =
    let before : IsKept keys c.secrets c = record {
      now = keys;
      enabled = e;
      kept = λ j h. h;
      untouched = refl;
    } in
    (
      guarded-IsKept env (start ∷ reencrypt_finished ∷ []) force keys c.secrets c (add_key env)
          before (add_key-IsKept env keys c.secrets c before),
      guarded-IsKept env (prepare ∷ []) force keys c.secrets c (rotate_last_key env) before
          (rotate_last_key-IsKept env keys c.secrets c before),
    )
